-- ===== src/Kv/Entry/Stored.antt =====
-- The file that `store` of src/kv.rs writes for an entry: its parts, and where each of them starts.
use ds4_rs.Base.{
  ℕ, ◌+◌, ◌^◌, ◌<◌, ◌≡◌, refl, ◌++◌, true, if◌then◌else◌, length, drop, get_elem?, some, arith,
  lt→ltb, length-append, All,
}
use ds4_rs.Bytes.{Bytes, le_bytes, read_u32, read_u64}
use ds4_rs.Bytes.Words.{length-le_bytes, drop_next}
use ds4_rs.Error.{ok}
use ds4_rs.Kv.Entry.{is_empty, file_bytes, encode_entry, is_kvc}
use ds4_rs.Kv.Entry.Header
use ds4_rs.Kv.Format.{KvEntry, kv_tool_map_flag, encode_save_reason}
use ds4_rs.Kv.ToolMap.RoundTrip.{IsEncodable, section_bytes, encode_tool_map-section_bytes}
use ds4_rs.Utf8.{IsUtf8}

-- What the fields of a Rust `KvEntry` satisfy by their types, and the sizes that `store` checks.
pub record IsStorable (e : KvEntry) : Type 0 where
  pub reason_utf8 : IsUtf8 e.reason
  pub text_utf8 : IsUtf8 e.rendered_text
  pub replay_utf8 : All IsEncodable e.tool_replay
  pub replay_fits : length e.tool_replay < 2 ^ 32
  pub tokens_fit : length e.tokens < 2 ^ 32
  pub text_fits : length e.rendered_text < 2 ^ 32
  pub reason_fits : length e.reason < 2 ^ 32
  pub ctx_fits : e.ctx_size < 2 ^ 32
  pub hits_fit : e.hit_count < 2 ^ 32
  pub created_fits : e.created_at_unix < 2 ^ 64
  pub used_fits : e.last_used_at_unix < 2 ^ 64
  pub file_fits :
      56
        + length e.rendered_text
        + length e.snapshot.bytes
        + length (section_bytes e.tool_replay)
        + length e.reason
      < 2 ^ 64

-- The bytes that a storable entry is written as.
abbrev pub stored_bytes : KvEntry → Bytes
stored_bytes e =
    file_bytes e (length e.tokens) (length e.rendered_text) (length e.reason) e.ctx_size
      (section_bytes e.tool_replay)

pub encode_entry-stored_bytes : (e : KvEntry) → IsStorable e → encode_entry e ≡ ok (stored_bytes e)
unfolding encode_entry
encode_entry-stored_bytes e h = rw (
  lt→ltb _ _ h.tokens_fit,
  lt→ltb _ _ h.text_fits,
  lt→ltb _ _ h.reason_fits,
  lt→ltb _ _ h.ctx_fits,
  encode_tool_map-section_bytes e.tool_replay h.replay_utf8 h.replay_fits,
)

module _ (e : KvEntry) (h : IsStorable e) where
  abbrev flags : ℕ
  flags = if is_empty (section_bytes e.tool_replay) then 0 else kv_tool_map_flag

  -- The parts of the file behind the header, and where each of them starts.
  abbrev pub trailer : Bytes
  trailer = le_bytes 4 (length e.reason) ++ e.reason

  abbrev pub behind_payload : Bytes
  behind_payload = section_bytes e.tool_replay ++ trailer

  abbrev body : Bytes
  body = e.rendered_text ++ (e.snapshot.bytes ++ behind_payload)

  abbrev pub text_end : ℕ
  text_end = 52 + length e.rendered_text

  abbrev pub payload_end : ℕ
  payload_end = text_end + length e.snapshot.bytes

  abbrev pub replay_end : ℕ
  replay_end = payload_end + length (section_bytes e.tool_replay)

  pub length-stored_bytes : length (stored_bytes e) ≡ replay_end + 4 + length e.reason
  unfolding file_bytes
  length-stored_bytes = omega (
    arith,
    Header.length-header_file 0 (encode_save_reason e.reason) flags (length e.tokens) e.hit_count
        e.ctx_size e.created_at_unix e.last_used_at_unix (length e.snapshot.bytes)
        (length e.rendered_text) body,
    length-append e.rendered_text (e.snapshot.bytes ++ behind_payload),
    length-append e.snapshot.bytes behind_payload,
    length-append (section_bytes e.tool_replay) trailer,
    length-append (le_bytes 4 (length e.reason)) e.reason,
    length-le_bytes 4 (length e.reason),
  )

  pub stored_bytes-small : length (stored_bytes e) < 2 ^ 64
  stored_bytes-small = omega (arith, length-stored_bytes, h.file_fits)

  pub body_at : drop 52 (stored_bytes e) ≡ body
  unfolding file_bytes
  body_at =
      Header.drop-header_file 0 (encode_save_reason e.reason) flags (length e.tokens) e.hit_count
        e.ctx_size e.created_at_unix e.last_used_at_unix (length e.snapshot.bytes)
        (length e.rendered_text) body

  pub payload_at : drop text_end (stored_bytes e) ≡ e.snapshot.bytes ++ behind_payload
  payload_at =
      drop_next (stored_bytes e) 52 text_end e.rendered_text (e.snapshot.bytes ++ behind_payload)
        body_at refl

  pub replay_at : drop payload_end (stored_bytes e) ≡ behind_payload
  replay_at =
      drop_next (stored_bytes e) text_end payload_end e.snapshot.bytes behind_payload payload_at
        refl

  pub trailer_at : drop replay_end (stored_bytes e) ≡ trailer
  trailer_at =
      drop_next (stored_bytes e) payload_end replay_end (section_bytes e.tool_replay) trailer
        replay_at refl

  pub header_at :
      (get_elem? (stored_bytes e) 6 ≡ some flags)
      × (read_u32 (stored_bytes e) 8 ≡ ok (length e.tokens))
      × (read_u32 (stored_bytes e) 12 ≡ ok e.hit_count)
      × (read_u32 (stored_bytes e) 16 ≡ ok e.ctx_size)
      × (read_u64 (stored_bytes e) 24 ≡ ok e.created_at_unix)
      × (read_u64 (stored_bytes e) 32 ≡ ok e.last_used_at_unix)
      × (read_u64 (stored_bytes e) 40 ≡ ok (length e.snapshot.bytes))
      × (read_u32 (stored_bytes e) 48 ≡ ok (length e.rendered_text))
      × (get_elem? (stored_bytes e) 5 ≡ some (encode_save_reason e.reason))
      × (is_kvc (stored_bytes e) ≡ true)
  unfolding file_bytes
  header_at = (
    Header.flags_at 0 (encode_save_reason e.reason) flags (length e.tokens) e.hit_count e.ctx_size
        e.created_at_unix e.last_used_at_unix (length e.snapshot.bytes) (length e.rendered_text)
        body,
    Header.token_count_at 0 (encode_save_reason e.reason) flags (length e.tokens) e.hit_count
        e.ctx_size e.created_at_unix e.last_used_at_unix (length e.snapshot.bytes)
        (length e.rendered_text) body h.tokens_fit,
    Header.hit_count_at 0 (encode_save_reason e.reason) flags (length e.tokens) e.hit_count
        e.ctx_size e.created_at_unix e.last_used_at_unix (length e.snapshot.bytes)
        (length e.rendered_text) body h.hits_fit,
    Header.ctx_size_at 0 (encode_save_reason e.reason) flags (length e.tokens) e.hit_count
        e.ctx_size e.created_at_unix e.last_used_at_unix (length e.snapshot.bytes)
        (length e.rendered_text) body h.ctx_fits,
    Header.created_at 0 (encode_save_reason e.reason) flags (length e.tokens) e.hit_count e.ctx_size
        e.created_at_unix e.last_used_at_unix (length e.snapshot.bytes) (length e.rendered_text)
        body h.created_fits,
    Header.last_used_at 0 (encode_save_reason e.reason) flags (length e.tokens) e.hit_count
        e.ctx_size e.created_at_unix e.last_used_at_unix (length e.snapshot.bytes)
        (length e.rendered_text) body h.used_fits,
    Header.payload_len_at 0 (encode_save_reason e.reason) flags (length e.tokens) e.hit_count
        e.ctx_size e.created_at_unix e.last_used_at_unix (length e.snapshot.bytes)
        (length e.rendered_text) body (omega (arith, h.file_fits)),
    Header.rendered_text_len_at 0 (encode_save_reason e.reason) flags (length e.tokens) e.hit_count
        e.ctx_size e.created_at_unix e.last_used_at_unix (length e.snapshot.bytes)
        (length e.rendered_text) body h.text_fits,
    Header.save_at 0 (encode_save_reason e.reason) flags (length e.tokens) e.hit_count e.ctx_size
        e.created_at_unix e.last_used_at_unix (length e.snapshot.bytes) (length e.rendered_text)
        body,
    Header.header_file-is_kvc 0 (encode_save_reason e.reason) flags (length e.tokens) e.hit_count
        e.ctx_size e.created_at_unix e.last_used_at_unix (length e.snapshot.bytes)
        (length e.rendered_text) body,
  )
