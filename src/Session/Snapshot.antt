-- ===== src/Session/Snapshot.antt =====
-- src/session.rs: `save_snapshot` and `load_snapshot`, the DSV4 payload: thirteen words of header,
-- the tokens and the logits, each a word of four bytes.
pub mod RoundTrip
pub mod Reload
use ds4_rs.Base.{
  ℕ, zero, suc, ◌+◌, ◌*◌, ◌%◌, ◌^◌, List, [], ◌∷◌, ◌++◌, Option, none, some, Bool, true, false, not,
  ◌&&◌, ◌||◌, ◌==◌, if◌then◌else◌, ltb, length, take, drop,
}
use ds4_rs.Bytes.{Bytes, from_le}
use ds4_rs.Engine.{Engine, try_reference_prefill, infer_logits}
use ds4_rs.Error.{usize_mod}
use ds4_rs.Kv.Payload.{chunk_words, words_bytes}
use ds4_rs.Kv.Transformer.{TransformerKvCache, clear}
use ds4_rs.Session.{Session, blank_logits}
use ds4_rs.Types.{Tokens, Logits, SessionSnapshot}

abbrev pub session_payload_magic : ℕ
session_payload_magic = 0x3456_5344

abbrev pub session_payload_version : ℕ
session_payload_version = 1

abbrev or_zero : Option ℕ → ℕ
or_zero none = 0
or_zero (some n) = n

abbrev or_none : ℕ → Option ℕ
or_none zero = none
or_none (suc n) = some (suc n)

-- Four bytes of the header, where they are in range.
unfoldable pub word_at : Bytes → ℕ → ℕ
unfolding from_le
word_at bytes idx = from_le (take 4 (drop (idx * 4) bytes))

abbrev logits_of : Engine → Tokens → Logits
logits_of engine [] = blank_logits engine
logits_of engine (token ∷ rest) = infer_logits engine (token ∷ rest)

module _ {engine : Engine} where
  -- The header of `save_snapshot`, each field cast to a u32.
  unfoldable pub snapshot_header : Session engine → List ℕ
  snapshot_header s =
      session_payload_magic
      ∷ session_payload_version
      ∷ (s.ctx_size % 2 ^ 32)
      ∷ (or_zero s.prefill_boundary % 2 ^ 32)
      ∷ 0
      ∷ 0
      ∷ 0
      ∷ (length s.checkpoint % 2 ^ 32)
      ∷ (length s.transformer_kv % 2 ^ 32)
      ∷ 0
      ∷ 0
      ∷ (length s.logits % 2 ^ 32)
      ∷ 0
      ∷ []

  -- Session::save_snapshot
  unfoldable pub save_snapshot : Session engine → SessionSnapshot
  unfolding snapshot_header words_bytes
  save_snapshot s = record {
    bytes = words_bytes (snapshot_header s) ++ (words_bytes s.checkpoint ++ words_bytes s.logits);
  }

  abbrev rehydrated_by :
      Session engine → Option Logits × TransformerKvCache × engine.Scratch → Session engine
  rehydrated_by s (some logits, kv, scratch) = record s {
    logits = logits;
    transformer_kv = kv;
    decode_scratch = scratch;
  }
  rehydrated_by s (none, kv, scratch) = record s { transformer_kv = kv; decode_scratch = scratch }

  abbrev rehydrate_at : Session engine → Tokens → Session engine
  rehydrate_at s [] = s
  rehydrate_at s (token ∷ rest) =
      rehydrated_by s
        (try_reference_prefill engine s.transformer_kv s.decode_scratch (token ∷ rest) 0)

  -- Session::rehydrate_live_state
  unfoldable pub rehydrate_live_state : Session engine → Session engine
  rehydrate_live_state s = rehydrate_at s s.checkpoint

  -- The state that a payload with these counts is loaded into.
  unfoldable pub load_payload : Session engine → Bytes → ℕ → ℕ → Session engine
  load_payload s bytes token_bytes logit_bytes = rehydrate_live_state (record s {
    ctx_size = word_at bytes 2;
    prefill_boundary = or_none (word_at bytes 3);
    checkpoint = chunk_words (take token_bytes (drop 52 bytes));
    logits = chunk_words (take logit_bytes (drop (52 + token_bytes) bytes));
    transformer_kv = clear s.transformer_kv;
  })

  -- Session::try_load_dsv4_snapshot; `none` leaves the session alone. A size that overflows a usize
  -- is refused.
  unfoldable pub try_load_dsv4_snapshot : Session engine → SessionSnapshot → Option (Session engine)
  try_load_dsv4_snapshot s snapshot =
      let bytes = snapshot.bytes in
      let token_bytes = word_at bytes 7 * 4 in
      let logit_bytes = word_at bytes 11 * 4 in
      if ltb (length bytes) 52
      then none
      else if not (word_at bytes 0 == session_payload_magic)
          || not (word_at bytes 1 == session_payload_version)
      then none
      else if not (ltb token_bytes usize_mod)
          || not (ltb logit_bytes usize_mod)
          || not (ltb (52 + token_bytes + logit_bytes) usize_mod)
      then none
      else if not (length bytes == 52 + token_bytes + logit_bytes)
      then none
      else some (load_payload s bytes token_bytes logit_bytes)

  -- A payload of another format is read as bare tokens.
  abbrev or_raw : Session engine → Bytes → Option (Session engine) → Session engine
  or_raw s bytes (some t) = t
  or_raw s bytes none = rehydrate_live_state (record s {
    checkpoint = chunk_words bytes;
    transformer_kv = clear s.transformer_kv;
    logits = logits_of engine (chunk_words bytes);
  })

  -- Session::load_snapshot
  unfoldable pub load_snapshot : Session engine → SessionSnapshot → Session engine
  load_snapshot s snapshot = or_raw s snapshot.bytes (try_load_dsv4_snapshot s snapshot)
