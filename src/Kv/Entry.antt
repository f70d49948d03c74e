-- ===== src/Kv/Entry.antt =====
-- src/kv.rs: the bytes of a file that `KvDiskStore::store` writes, and the loaders of both file
-- formats.
pub mod Header
pub mod Stored
pub mod RoundTrip
pub mod NoPanic
use ds4_rs.Base.{
  ℕ, zero, suc, ◌+◌, ◌*◌, List, [], ◌∷◌, ◌++◌, Option, none, some, Bool, true, false, not, ◌&&◌,
  ◌||◌, ◌==◌, leb, ltb, length, take, get_elem?, list_eq, bit_and, if◌then◌else◌,
}
use ds4_rs.Bytes.{Bytes, le_bytes, slice, read_u32, read_u64, or_panic}
use ds4_rs.Error.{Result, ok, ◌>>=◌, ◌>>◌, require, fail, checked_add, u32_try_from}
use ds4_rs.Kv.Format.{
  KvToolReplayEntry, KvEntry, kv_disk_magic, kv_disk_version, kv_tool_map_flag, encode_save_reason,
  decode_save_reason, infer_routed_quant_bits,
}
use ds4_rs.Kv.Payload.{chunk_words, checked_mul4, snapshot_payload_meta}
use ds4_rs.Kv.ToolMap.{encode_tool_map, parse_tool_map}
use ds4_rs.Types.{Tokens}
use ds4_rs.Utf8.{from_utf8, ascii}

abbrev pub is_empty : Bytes → Bool
is_empty [] = true
is_empty (b ∷ bs) = false

-- The fixed header of 52 bytes, and what follows it.
unfoldable pub with_header : ℕ → ℕ → ℕ → ℕ → ℕ → ℕ → ℕ → ℕ → ℕ → ℕ → Bytes → Bytes
with_header quant_bits save_reason extension_flags token_count hit_count ctx_size created_at_unix
      last_used_at_unix payload_len rendered_text_len rest =
    kv_disk_magic
    ++ ((kv_disk_version ∷ quant_bits ∷ save_reason ∷ extension_flags ∷ 0 ∷ [])
        ++ (le_bytes 4 token_count
            ++ (le_bytes 4 hit_count
                ++ (le_bytes 4 ctx_size
                    ++ ((0 ∷ 0 ∷ 0 ∷ 0 ∷ [])
                        ++ (le_bytes 8 created_at_unix
                            ++ (le_bytes 8 last_used_at_unix
                                ++ (le_bytes 8 payload_len
                                    ++ (le_bytes 4 rendered_text_len ++ rest)))))))))

-- The bytes of a file, from the parts that the checks have let through.
unfoldable pub file_bytes : KvEntry → ℕ → ℕ → ℕ → ℕ → Bytes → Bytes
unfolding with_header infer_routed_quant_bits
file_bytes entry token_count rendered_text_len reason_len ctx_size tool_map_bytes =
    with_header (infer_routed_quant_bits entry.snapshot.bytes) (encode_save_reason entry.reason)
      (if is_empty tool_map_bytes then 0 else kv_tool_map_flag) token_count entry.hit_count ctx_size
      entry.created_at_unix entry.last_used_at_unix (length entry.snapshot.bytes) rendered_text_len
      (entry.rendered_text
        ++ (entry.snapshot.bytes ++ (tool_map_bytes ++ (le_bytes 4 reason_len ++ entry.reason))))

-- KvDiskStore::store, up to the call of `fs::write`. A usize fits a u64, so the length of the
-- payload needs no check.
unfoldable pub encode_entry : KvEntry → Result Bytes
unfolding u32_try_from
encode_entry entry = do
  token_count ← u32_try_from (length entry.tokens) "too many tokens to persist kv entry"
  rendered_text_len ← u32_try_from (length entry.rendered_text) "rendered text too large"
  reason_len ← u32_try_from (length entry.reason) "kv reason too large"
  ctx_size ← u32_try_from entry.ctx_size "kv context size too large"
  tool_map_bytes ← encode_tool_map entry.tool_replay
  ok (file_bytes entry token_count rendered_text_len reason_len ctx_size tool_map_bytes)

-- The tool section, if the flag says that there is one, and the offset of the trailer.
unfoldable pub load_tool_replay : ℕ → Bytes → ℕ → Result (List KvToolReplayEntry × ℕ)
load_tool_replay extension_flags bytes payload_end =
    if not (bit_and extension_flags kv_tool_map_flag == 0)
    then parse_tool_map bytes payload_end
    else ok ([], payload_end)

-- The save reason behind the trailer, or the one that the header's byte stands for.
unfoldable pub load_reason : ℕ → Bytes → ℕ → Result Bytes
load_reason save_reason bytes trailer_offset =
    if leb (trailer_offset + 4) (length bytes)
    then (do
      reason_len ← read_u32 bytes trailer_offset
      let reason_start = trailer_offset + 4
      reason_end ← checked_add reason_start reason_len "kv reason length overflow"
      require (reason_end == length bytes) "kv reason length mismatch"
      reason_bytes ← slice bytes reason_start reason_end
      from_utf8 reason_bytes "kv reason is not valid utf-8")
    else ok (decode_save_reason save_reason)

unfoldable pub load_kvc_entry : Bytes → Result KvEntry
load_kvc_entry bytes = do
  extension_flags ← or_panic (get_elem? bytes 6)
  token_count ← read_u32 bytes 8
  hit_count ← read_u32 bytes 12
  ctx_size ← read_u32 bytes 16
  created_at_unix ← read_u64 bytes 24
  last_used_at_unix ← read_u64 bytes 32
  payload_len ← read_u64 bytes 40
  rendered_text_len ← read_u32 bytes 48
  rendered_text_end ← checked_add 52 rendered_text_len "kv rendered text length overflow"
  payload_end ← checked_add rendered_text_end payload_len "kv payload length overflow"
  require (leb payload_end (length bytes)) "truncated kv payload"
  text_bytes ← slice bytes 52 rendered_text_end
  rendered_text ← from_utf8 text_bytes "rendered text is not valid utf-8"
  payload ← slice bytes rendered_text_end payload_end
  meta ← snapshot_payload_meta payload
  require (token_count == 0 || token_count == length meta.0) "kv cached token count mismatch"
  replay ← load_tool_replay extension_flags bytes payload_end
  save_reason ← or_panic (get_elem? bytes 5)
  reason ← load_reason save_reason bytes replay.1
  ok (record {
    reason = reason;
    rendered_text = rendered_text;
    tokens = meta.0;
    snapshot = record { bytes = payload };
    tool_replay = replay.0;
    ctx_size = if ctx_size == 0 then meta.1 else ctx_size;
    hit_count = hit_count;
    created_at_unix = created_at_unix;
    last_used_at_unix = last_used_at_unix;
  })

-- The lengths of a legacy file add up to the length of the file.
unfoldable pub legacy_length : ℕ → ℕ → ℕ → ℕ → Result ℕ
legacy_length key_len reason_len token_bytes snapshot_len = do
  v1 ← checked_add 24 key_len "kv entry length overflow"
  v2 ← checked_add v1 reason_len "kv entry length overflow"
  v3 ← checked_add v2 token_bytes "kv entry length overflow"
  checked_add v3 snapshot_len "kv entry length overflow"

unfoldable pub load_legacy_entry : Bytes → Bytes → Result KvEntry
load_legacy_entry key bytes = do
  magic ← slice bytes 0 4
  require (list_eq magic (ascii "DS4K")) "invalid kv disk header"
  version ← read_u32 bytes 4
  require (version == kv_disk_version) "unsupported kv disk version"
  key_len ← read_u32 bytes 8
  reason_len ← read_u32 bytes 12
  token_count ← read_u32 bytes 16
  snapshot_len ← read_u32 bytes 20
  token_bytes ← checked_mul4 token_count "kv token byte count overflow"
  expected_len ← legacy_length key_len reason_len token_bytes snapshot_len
  require (length bytes == expected_len) "kv entry length mismatch"
  key_bytes ← slice bytes 24 (24 + key_len)
  stored_key ← from_utf8 key_bytes "kv key is not valid utf-8"
  let reason_start = 24 + key_len
  require (list_eq stored_key key) "kv key hash collision detected"
  reason_bytes ← slice bytes reason_start (reason_start + reason_len)
  reason ← from_utf8 reason_bytes "kv reason is not valid utf-8"
  let token_start = reason_start + reason_len
  section ← slice bytes token_start (token_start + token_bytes)
  let snapshot_start = token_start + token_bytes
  snapshot_bytes ← slice bytes snapshot_start (snapshot_start + snapshot_len)
  ok (record {
    reason = reason;
    rendered_text = stored_key;
    tokens = chunk_words section;
    snapshot = record { bytes = snapshot_bytes };
    tool_replay = [];
    ctx_size = 0;
    hit_count = 0;
    created_at_unix = 0;
    last_used_at_unix = 0;
  })

abbrev has_version : Option ℕ → Bool
has_version none = false
has_version (some v) = v == kv_disk_version

-- `bytes.len() >= 52 && &bytes[..3] == KV_DISK_MAGIC && bytes[3] == KV_DISK_VERSION`
unfoldable pub is_kvc : Bytes → Bool
is_kvc bytes =
    leb 52 (length bytes)
    && (list_eq (take 3 bytes) kv_disk_magic && has_version (get_elem? bytes 3))

-- KvDiskStore::load_rendered_text, once the file has been read.
unfoldable pub decode_file : Bytes → Bytes → Result KvEntry
decode_file rendered_text bytes =
    if is_kvc bytes
    then load_kvc_entry bytes
    else if ltb (length bytes) 24
    then fail "invalid kv disk header"
    else load_legacy_entry rendered_text bytes
