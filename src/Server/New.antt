-- ===== src/Server/New.antt =====
-- src/server.rs: what `Server::new` makes.
use ds4_rs.Base.{◌≡◌, refl, Option, arith}
use ds4_rs.Bytes.{Bytes}
use ds4_rs.Continuation.{new}
use ds4_rs.Engine.{Engine}
use ds4_rs.Error.{Result, ok, err, panic, ◌>>=◌}
use ds4_rs.Kv.Store.{KvCache}
use ds4_rs.Kv.Store.Disk.{KvDiskStore}
use ds4_rs.Server.Routes.{ServerConfig, new_server, cache_of}
use ds4_rs.Server.State.{State}
use ds4_rs.Session.{Session, create}

-- What a server was made of: a new session, and no continuations.
pub record IsNew (engine : Engine) (config : ServerConfig) (s : State engine) : Type 0 where
  pub none_yet : s.continuations ≡ new
  pub session_new : create engine config.ctx_size ≡ ok s.session

built-IsNew :
    (engine : Engine) (config : ServerConfig) (session : Result (Session engine))
    (kv : Result KvCache) {s : State engine}
    → create engine config.ctx_size ≡ session
    → (session >>= λ session.
        kv >>= λ kv. ok (record { session = session; kv = kv; continuations = new }))
      ≡ ok s
    → IsNew engine config s
built-IsNew engine config (ok session) (ok kv) e h = ground (arith, e, h)
built-IsNew engine config (ok session) (err x) e h = cc
built-IsNew engine config (ok session) panic e h = cc
built-IsNew engine config (err x) kv e h = cc
built-IsNew engine config panic kv e h = cc

pub new_server-IsNew :
    (engine : Engine) (directories : Bytes → Option KvDiskStore) (config : ServerConfig)
    {s : State engine}
    → new_server engine directories config ≡ ok s
    → IsNew engine config s
unfolding new_server
new_server-IsNew engine directories config h =
    built-IsNew engine config (create engine config.ctx_size)
      (cache_of directories config.kv_disk_dir) refl h
