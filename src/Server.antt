-- ===== src/Server.antt =====
-- src/server.rs and the files under src/server: what the server does with a request, over the
-- session, the key/value cache and the continuations. Sockets, routing and tracing are left out.
pub mod Tools
pub mod Reply
pub mod Preview
pub mod Replay
pub mod Rewritten
pub mod Gate
pub mod State
pub mod Generate
pub mod Handle
pub mod Routes
pub mod New
pub mod Shown
pub mod Remembered
pub mod Kept
pub mod Steps
pub mod Continued
pub mod Isolated
pub mod Refused
use ds4_rs.Base.{Bool}
use ds4_rs.Bytes.{Bytes}

-- The tables of the Unicode standard that the server asks for.
pub record Unicode : Type 0 where
  -- str::to_lowercase
  pub to_lowercase : Bytes → Bytes
  -- char::is_alphanumeric
  pub is_alphanumeric : Bytes → Bool
