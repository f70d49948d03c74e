-- ===== src/Server/Isolated.antt =====
-- src/server.rs: the one session of a server, which all its conversations share.
use ds4_rs.Bytes.{Bytes}
use ds4_rs.Engine.{Engine}
use ds4_rs.Server.State.{State}
use ds4_rs.Session.{Session}
