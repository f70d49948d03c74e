-- ===== src/Kv/Format.antt =====
-- src/kv.rs: the records and the constants of the KVC file format, and the save reasons.
use ds4_rs.Base.{ℕ, List, [], ◌∷◌, if◌then◌else◌, list_eq, ◌==◌}
use ds4_rs.Bytes.{Bytes}
use ds4_rs.Types.{Tokens, SessionSnapshot}
use ds4_rs.Utf8.{ascii}

abbrev pub kv_disk_magic : Bytes
kv_disk_magic = b'K' ∷ b'V' ∷ b'C' ∷ []

abbrev pub kv_disk_version : ℕ
kv_disk_version = 1

abbrev pub kv_tool_map_flag : ℕ
kv_tool_map_flag = 1

abbrev pub kv_tool_map_magic : Bytes
kv_tool_map_magic = b'K' ∷ b'T' ∷ b'M' ∷ []

abbrev pub kv_tool_map_version : ℕ
kv_tool_map_version = 1

pub record KvToolReplayEntry : Type 0 where
  pub tool_call_id : Bytes
  pub sampled_block : Bytes

pub record KvEntry : Type 0 where
  pub reason : Bytes
  pub rendered_text : Bytes
  pub tokens : Tokens
  pub snapshot : SessionSnapshot
  pub tool_replay : List KvToolReplayEntry
  pub ctx_size : ℕ
  pub hit_count : ℕ
  pub created_at_unix : ℕ
  pub last_used_at_unix : ℕ

unfoldable pub encode_save_reason : Bytes → ℕ
unfolding list_eq
encode_save_reason reason =
    if list_eq reason (ascii "cold")
    then 1
    else if list_eq reason (ascii "continued")
    then 2
    else if list_eq reason (ascii "evict")
    then 3
    else if list_eq reason (ascii "shutdown")
    then 4
    else 0

unfoldable pub decode_save_reason : ℕ → Bytes
decode_save_reason reason =
    if reason == 1
    then ascii "cold"
    else if reason == 2
    then ascii "continued"
    else if reason == 3
    then ascii "evict"
    else if reason == 4
    then ascii "shutdown"
    else ascii "unknown"

-- The payload is not looked at.
unfoldable pub infer_routed_quant_bits : Bytes → ℕ
infer_routed_quant_bits payload = 0
