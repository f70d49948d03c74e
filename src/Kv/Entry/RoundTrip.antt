-- ===== src/Kv/Entry/RoundTrip.antt =====
-- src/kv.rs: loading a file that `store` has written.
use ds4_rs.Base.{
  ℕ, ◌+◌, ◌^◌, ◌≤◌, ◌<◌, ◌≡◌, refl, ◌⊎◌, List, [], ◌∷◌, ◌++◌, true, ◌||◌, ◌==◌, if◌then◌else◌,
  length, drop, arith, false, ◌∙◌, inl, inr, Bool-cases, lt→ltb, le→leb, ==_self, append-nil, All,
}
use ds4_rs.Bytes.{Bytes, le_bytes}
use ds4_rs.Bytes.Words.{length-le_bytes, length_of_drop, drop_next, slice-drop, read_u32-drop}
use ds4_rs.Error.{ok, fail, ◌>>=◌, checked_add}
use ds4_rs.Kv.Entry.{
  is_empty, encode_entry, load_tool_replay, load_reason, load_kvc_entry, decode_file,
}
use ds4_rs.Kv.Format.{KvToolReplayEntry, KvEntry, kv_tool_map_flag, encode_save_reason}
use ds4_rs.Kv.Payload.{snapshot_payload_meta}
use ds4_rs.Kv.ToolMap.RoundTrip.{IsEncodable, section_bytes, parse_tool_map-map_bytes}
use ds4_rs.Types.{Tokens}
use ds4_rs.Utf8.{IsUtf8, from_utf8-IsUtf8}
use ds4_rs.Kv.Entry.Stored.{
  IsStorable, stored_bytes, encode_entry-stored_bytes, trailer, behind_payload, text_end,
  payload_end, replay_end, length-stored_bytes, stored_bytes-small, body_at, payload_at, replay_at,
  trailer_at, header_at,
}

load_tool_replay-section_bytes :
    (es : List KvToolReplayEntry) (l : Bytes) (n : ℕ) (r : Bytes)
    → All IsEncodable es
    → length es < 2 ^ 32
    → drop n l ≡ section_bytes es ++ r
    → n ≤ length l
    → length l < 2 ^ 64
    → load_tool_replay (if is_empty (section_bytes es) then 0 else kv_tool_map_flag) l n
      ≡ ok (es, n + length (section_bytes es))
unfolding load_tool_replay
load_tool_replay-section_bytes [] l n r h fits at inside small =
    let e : n + 0 ≡ n = omega arith in rw e
load_tool_replay-section_bytes (e ∷ es) l n r h fits at inside small =
    parse_tool_map-map_bytes (e ∷ es) l n r h fits at inside small

load_reason-append :
    (save : ℕ) (reason l : Bytes) (n : ℕ)
    → IsUtf8 reason
    → length reason < 2 ^ 32
    → drop n l ≡ le_bytes 4 (length reason) ++ reason
    → n ≤ length l
    → length l < 2 ^ 64
    → load_reason save l n ≡ ok reason
unfolding load_reason checked_add
load_reason-append save reason l n text fits at inside small =
    let size : length l ≡ n + 4 + length reason = omega (
      arith,
      length_of_drop l n (le_bytes 4 (length reason)) reason at inside,
      length-le_bytes 4 (length reason),
    ) in
    let at4 : drop (n + 4) l ≡ reason ++ [] = rw append-nil (
      drop_next l n (n + 4) (le_bytes 4 (length reason)) reason at
        (omega (arith, length-le_bytes 4 (length reason)))) in
    rw (
      le→leb (n + 4) (length l) (omega arith),
      read_u32-drop l n (length reason) reason at fits,
      lt→ltb (n + 4 + length reason) (2 ^ 64) (omega arith),
      size,
      ==_self (n + 4 + length reason),
      slice-drop l (n + 4) (n + 4 + length reason) reason [] at4 (omega arith) refl,
      from_utf8-IsUtf8 reason "kv reason is not valid utf-8" text,
    )

-- What a load makes of an entry: the tokens are those of the snapshot, and a context size of zero
-- is replaced by the one of the snapshot.
abbrev pub reloaded : KvEntry → Tokens → ℕ → KvEntry
reloaded e tokens derived = record e {
  tokens = tokens;
  ctx_size = if e.ctx_size == 0 then derived else e.ctx_size;
}

module _ (e : KvEntry) (h : IsStorable e) where
  -- A load of the bytes that an entry is written as rests on the count of the tokens.
  load_kvc_entry-stored_bytes :
      (tokens : Tokens) (derived : ℕ)
      → snapshot_payload_meta e.snapshot.bytes ≡ ok (tokens, derived)
      → load_kvc_entry (stored_bytes e) ≡ (
          if length e.tokens == 0 || length e.tokens == length tokens
          then ok (reloaded e tokens derived)
          else fail "kv cached token count mismatch")
  unfolding load_kvc_entry checked_add
  load_kvc_entry-stored_bytes tokens derived meta =
      let size = length-stored_bytes e h in
      let small = stored_bytes-small e h in
      rw
        (
          (header_at e h).0,
          (header_at e h).1,
          (header_at e h).2,
          (header_at e h).3,
          (header_at e h).4,
          (header_at e h).5,
          (header_at e h).6,
          (header_at e h).7,
          lt→ltb (text_end e h) (2 ^ 64) (omega arith),
          lt→ltb (payload_end e h) (2 ^ 64) (omega arith),
          le→leb (payload_end e h) (length (stored_bytes e)) (omega arith),
          slice-drop (stored_bytes e) 52 (text_end e h) e.rendered_text
              (e.snapshot.bytes ++ behind_payload e h) (body_at e h) (omega arith) refl,
          from_utf8-IsUtf8 e.rendered_text "rendered text is not valid utf-8" h.text_utf8,
          slice-drop (stored_bytes e) (text_end e h) (payload_end e h) e.snapshot.bytes
              (behind_payload e h) (payload_at e h) (omega arith) refl,
          meta,
        )
        (elim (Bool-cases (length e.tokens == 0 || length e.tokens == length tokens)) [
          | inl counted ↦ rw (
            counted,
            load_tool_replay-section_bytes e.tool_replay (stored_bytes e) (payload_end e h)
                (trailer e h) h.replay_utf8 h.replay_fits (replay_at e h) (omega arith) small,
            (header_at e h).8,
            load_reason-append (encode_save_reason e.reason) e.reason (stored_bytes e)
                (replay_end e h) h.reason_utf8 h.reason_fits (trailer_at e h) (omega arith) small,
          )
          | inr mismatched ↦ rw mismatched refl
        ])

  decode_file-stored_bytes :
      (key : Bytes) (tokens : Tokens) (derived : ℕ)
      → snapshot_payload_meta e.snapshot.bytes ≡ ok (tokens, derived)
      → (encode_entry e >>= decode_file key) ≡ (
          if length e.tokens == 0 || length e.tokens == length tokens
          then ok (reloaded e tokens derived)
          else fail "kv cached token count mismatch")
  unfolding decode_file
  decode_file-stored_bytes key tokens derived meta =
      rw (encode_entry-stored_bytes e h, (header_at e h).9)
        (load_kvc_entry-stored_bytes tokens derived meta)

  -- Loading the file that `store` writes for an entry gives back the entry, whichever text the
  -- file was looked up by: its tokens are read out of the snapshot, and only a context size of zero
  -- is replaced. The snapshot's token count must be the entry's, unless the entry has no tokens.
  pub load-store :
      (key : Bytes) (tokens : Tokens) (derived : ℕ)
      → snapshot_payload_meta e.snapshot.bytes ≡ ok (tokens, derived)
      → (length e.tokens ≡ 0) ⊎ (length e.tokens ≡ length tokens)
      → (encode_entry e >>= decode_file key) ≡ ok (reloaded e tokens derived)
  load-store key tokens derived meta counted =
      let test : (length e.tokens == 0 || length e.tokens == length tokens) ≡ true = ground arith in
      decode_file-stored_bytes key tokens derived meta ∙ rw test refl

  -- Loading the file that `store` writes for an entry with tokens, but not as many as its snapshot
  -- has, is refused with the error of the token count, whichever text the file was looked up by.
  pub load-store_mismatched :
      (key : Bytes) (tokens : Tokens) (derived : ℕ)
      → snapshot_payload_meta e.snapshot.bytes ≡ ok (tokens, derived)
      → ¬ (length e.tokens ≡ 0)
      → ¬ (length e.tokens ≡ length tokens)
      → (encode_entry e >>= decode_file key) ≡ fail "kv cached token count mismatch"
  load-store_mismatched key tokens derived meta filled apart =
      let test : (length e.tokens == 0 || length e.tokens == length tokens) ≡ false =
        ground (arith, filled, apart) in
      decode_file-stored_bytes key tokens derived meta ∙ rw test refl
