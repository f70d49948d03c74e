-- ===== src/Kv.antt =====
-- src/kv.rs: the cache of session snapshots and its file format.
pub mod Format
pub mod ToolMap
pub mod Payload
pub mod Entry
pub mod Transformer
pub mod Store
