-- ===== src/Session/Snapshot/RoundTrip.antt =====
-- Loading a saved session, and what the cache reads of it (src/session.rs, src/kv.rs).
use ds4_rs.Base.{
  ℕ, zero, suc, ◌+◌, ◌*◌, ◌%◌, ◌^◌, ◌≤◌, ◌<◌, ◌≡◌, ◌≢◌, refl, ◌++◌, Option, none, some, true, ◌==◌,
  ==_self, length, take, drop, arith, lt→ltb, le→ltb, le→leb, All, length-append, take-append,
  take_of_length-le, ◌∙◌,
}
use ds4_rs.Bytes.{Bytes, le_bytes, read_u32}
use ds4_rs.Bytes.Words.{from_le-le_bytes, read_u32-drop, slice-drop, drop_next}
use ds4_rs.Engine.{Engine}
use ds4_rs.Error.{ok, checked_add, usize_mod}
use ds4_rs.Kv.Payload.{
  chunk_words, words_bytes, length-words_bytes, IsWord, chunk_words-words_bytes, payload_tokens,
  snapshot_payload_meta, checked_mul4,
}
use ds4_rs.Kv.Transformer.{clear}
use ds4_rs.Session.Snapshot.{
  or_zero, or_none, word_at, save_snapshot, rehydrate_live_state, load_payload,
  try_load_dsv4_snapshot, load_snapshot, session_payload_magic, session_payload_version,
}
use ds4_rs.Session.{Session}

-- What the types of the fields give, and the sizes that fit the words of the header.
pub record IsSavable {engine : Engine} (s : Session engine) : Type 0 where
  pub ctx_fits : s.ctx_size < 2 ^ 32
  pub boundary_fits : or_zero s.prefill_boundary < 2 ^ 32
  pub boundary_pos : s.prefill_boundary ≢ some 0
  pub tokens_fit : length s.checkpoint < 2 ^ 32
  pub logits_fit : length s.logits < 2 ^ 32
  pub tokens_are : All IsWord s.checkpoint
  pub logits_are : All IsWord s.logits

or_none-or_zero : (b : Option ℕ) → b ≢ some 0 → or_none (or_zero b) ≡ b
or_none-or_zero none h = refl
or_none-or_zero (some zero) h = absurd (h refl)
or_none-or_zero (some (suc n)) h = refl

module _ {engine : Engine} (s : Session engine) where
  abbrev saved : Bytes
  saved = (save_snapshot s).bytes

  body_at : drop 52 saved ≡ words_bytes s.checkpoint ++ words_bytes s.logits
  unfolding save_snapshot le_bytes
  body_at = refl

  length-saved : length saved ≡ 52 + length s.checkpoint * 4 + length s.logits * 4
  unfolding save_snapshot le_bytes
  length-saved = omega (
    arith,
    length-append (words_bytes s.checkpoint) (words_bytes s.logits),
    length-words_bytes s.checkpoint,
    length-words_bytes s.logits,
  )

  word_at-saved :
      (word_at saved 0 ≡ session_payload_magic)
      × (word_at saved 1 ≡ session_payload_version)
      × (word_at saved 2 ≡ s.ctx_size % 2 ^ 32)
      × (word_at saved 3 ≡ or_zero s.prefill_boundary % 2 ^ 32)
      × (word_at saved 7 ≡ length s.checkpoint % 2 ^ 32)
      × (word_at saved 11 ≡ length s.logits % 2 ^ 32)
  unfolding save_snapshot word_at le_bytes
  word_at-saved = (
    refl,
    refl,
    from_le-le_bytes 4 (s.ctx_size % 2 ^ 32) (omega arith),
    from_le-le_bytes 4 (or_zero s.prefill_boundary % 2 ^ 32) (omega arith),
    from_le-le_bytes 4 (length s.checkpoint % 2 ^ 32) (omega arith),
    from_le-le_bytes 4 (length s.logits % 2 ^ 32) (omega arith),
  )

  module _ (h : IsSavable s) where
    count_at : word_at saved 7 ≡ length s.checkpoint
    count_at = word_at-saved.4 ∙ omega (arith, h.tokens_fit)

    logits_at : word_at saved 11 ≡ length s.logits
    logits_at = word_at-saved.5 ∙ omega (arith, h.logits_fit)

    tokens_read : chunk_words (take (length s.checkpoint * 4) (drop 52 saved)) ≡ s.checkpoint
    tokens_read =
        let size : length s.checkpoint * 4 ≡ length (words_bytes s.checkpoint) =
          omega (arith, length-words_bytes s.checkpoint) in
        rw (body_at, size, take-append (words_bytes s.checkpoint) (words_bytes s.logits))
          (chunk_words-words_bytes s.checkpoint h.tokens_are)

    logits_read :
        chunk_words (take (length s.logits * 4) (drop (52 + length s.checkpoint * 4) saved))
        ≡ s.logits
    logits_read =
        let behind : drop (52 + length s.checkpoint * 4) saved ≡ words_bytes s.logits =
          drop_next saved 52 (52 + length s.checkpoint * 4) (words_bytes s.checkpoint)
            (words_bytes s.logits) body_at (omega (arith, length-words_bytes s.checkpoint)) in
        let all : length (words_bytes s.logits) ≤ length s.logits * 4 =
          omega (arith, length-words_bytes s.logits) in
        rw (behind, take_of_length-le (length s.logits * 4) (words_bytes s.logits) all)
          (chunk_words-words_bytes s.logits h.logits_are)

  -- The state that a snapshot of `s` is loaded into, before the cache is filled again.
  abbrev pub restored : Session engine → Session engine
  restored t = record t {
    ctx_size = s.ctx_size;
    prefill_boundary = s.prefill_boundary;
    checkpoint = s.checkpoint;
    logits = s.logits;
    transformer_kv = clear t.transformer_kv;
  }

  load_payload-restored :
      (t : Session engine)
      → IsSavable s
      → load_payload t saved (length s.checkpoint * 4) (length s.logits * 4)
        ≡ rehydrate_live_state (restored t)
  unfolding load_payload
  load_payload-restored t h =
      let ctx : word_at saved 2 ≡ s.ctx_size = word_at-saved.2 ∙ omega (arith, h.ctx_fits) in
      let boundary : word_at saved 3 ≡ or_zero s.prefill_boundary =
        word_at-saved.3 ∙ omega (arith, h.boundary_fits) in
      rw (
        ctx,
        boundary,
        or_none-or_zero s.prefill_boundary h.boundary_pos,
        tokens_read h,
        logits_read h,
      )

  -- Loading the snapshot of a session into any session takes over its context size, boundary,
  -- checkpoint and logits, empties the key/value cache, and then feeds the checkpoint to the engine
  -- again.
  pub load-save :
      (t : Session engine)
      → IsSavable s
      → load_snapshot t (save_snapshot s) ≡ rehydrate_live_state (restored t)
  unfolding load_snapshot try_load_dsv4_snapshot
  load-save t h =
      let n = length s.checkpoint * 4 in
      let m = length s.logits * 4 in
      let whole : (length saved == 52 + n + m) ≡ true = rw length-saved (==_self (52 + n + m)) in
      rw
        (
          le→ltb (length saved) 52 (omega (arith, length-saved)),
          word_at-saved.0,
          word_at-saved.1,
          count_at h,
          logits_at h,
          lt→ltb n usize_mod (omega (arith, h.tokens_fit)),
          lt→ltb m usize_mod (omega (arith, h.logits_fit)),
          lt→ltb (52 + n + m) usize_mod (omega (arith, h.tokens_fit, h.logits_fit)),
          whole,
        )
        (load_payload-restored t h)

  header_words :
      (read_u32 saved 0 ≡ ok session_payload_magic)
      × (read_u32 saved 4 ≡ ok session_payload_version)
      × (read_u32 saved 8 ≡ ok (s.ctx_size % 2 ^ 32))
      × (read_u32 saved 28 ≡ ok (length s.checkpoint % 2 ^ 32))
  unfolding save_snapshot le_bytes
  header_words = (
    read_u32-drop saved 0 session_payload_magic (drop 4 saved) refl (omega arith),
    read_u32-drop saved 4 session_payload_version (drop 8 saved) refl (omega arith),
    read_u32-drop saved 8 (s.ctx_size % 2 ^ 32) (drop 12 saved) refl (omega arith),
    read_u32-drop saved 28 (length s.checkpoint % 2 ^ 32) (drop 32 saved) refl (omega arith),
  )

  payload_tokens-saved : IsSavable s → payload_tokens saved ≡ ok (s.checkpoint, s.ctx_size)
  unfolding payload_tokens checked_mul4 checked_add
  payload_tokens-saved h =
      let n = length s.checkpoint * 4 in
      let ctx : s.ctx_size % 2 ^ 32 ≡ s.ctx_size = omega (arith, h.ctx_fits) in
      let count : length s.checkpoint % 2 ^ 32 ≡ length s.checkpoint =
        omega (arith, h.tokens_fit) in
      rw (
        header_words.2,
        header_words.3,
        ctx,
        count,
        lt→ltb n (2 ^ 64) (omega (arith, h.tokens_fit)),
        lt→ltb (52 + n) (2 ^ 64) (omega (arith, h.tokens_fit)),
        le→leb (52 + n) (length saved) (omega (arith, length-saved)),
        slice-drop saved 52 (52 + n) (words_bytes s.checkpoint) (words_bytes s.logits) body_at
            (omega (arith, length-saved)) (omega (arith, length-words_bytes s.checkpoint)),
        chunk_words-words_bytes s.checkpoint h.tokens_are,
      )

  -- The KV cache reads out of a snapshot the tokens of the session and its context size.
  pub snapshot_payload_meta-save :
      IsSavable s → snapshot_payload_meta saved ≡ ok (s.checkpoint, s.ctx_size)
  unfolding snapshot_payload_meta
  snapshot_payload_meta-save h =
      rw (le→ltb (length saved) 52 (omega (arith, length-saved)), header_words.0, header_words.1)
        (payload_tokens-saved h)
