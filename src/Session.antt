-- ===== src/Session.antt =====
-- src/session.rs: a session is a timeline of tokens over a key/value cache. A method returns its
-- result and the new state. The calls of the progress handler are kept in a list; the debug events
-- that are posted to a local server change no state and are left out.
pub mod Rebuild
pub mod Prefill
pub mod Sampling
pub mod Snapshot
pub mod Steps
pub mod Fed
pub mod Live
pub mod Changes
pub mod Agree
pub mod Timeline
pub mod Viewed
pub mod Refines
use ds4_rs.Base.{
  ℕ, zero, suc, ◌+◌, ◌-◌, List, [], ◌∷◌, ◌++◌, Option, none, some, Bool, true, false, not, ◌&&◌,
  ◌==◌, if◌then◌else◌, leb, ltb, length, take, drop, replicate, min, max, list_eq,
}
use ds4_rs.Engine.{Engine, try_reference_prefill, infer_logits}
use ds4_rs.Error.{text, invalid_argument, context_exceeded, Result, ok, err}
use ds4_rs.Kv.Transformer.{TransformerKvCache, clear}
use ds4_rs.Types.{Tokens, Logits, push, common_prefix_len}

pub record SyncStats : Type 0 where
  pub cached_tokens : ℕ
  pub replay_tokens : ℕ
  pub rebuilt : Bool

-- One call of `on_progress("prefill_chunk", current, total)`.
pub record ProgressEvent : Type 0 where
  pub current : ℕ
  pub total : ℕ

-- `progress` is the calls that the handler has had, if there is one.
pub record Session (engine : Engine) : Type 0 where
  pub ctx_size : ℕ
  pub checkpoint : Tokens
  pub logits : Logits
  pub progress : Option (List ProgressEvent)
  pub prefill_boundary : Option ℕ
  pub transformer_kv : TransformerKvCache
  pub decode_scratch : engine.Scratch

abbrev positive : Option ℕ → Option ℕ
positive none = none
positive (some zero) = none
positive (some (suc n)) = some (suc n)

abbrev boundary_event : Option ℕ → ℕ → ℕ → List ProgressEvent
boundary_event none cached_tokens total = []
boundary_event (some boundary) cached_tokens total =
    if ltb cached_tokens boundary && ltb boundary total
    then record { current = boundary; total = total } ∷ []
    else []

abbrev report_to : Option (List ProgressEvent) → Option ℕ → ℕ → ℕ → Option (List ProgressEvent)
report_to none boundary cached_tokens total = none
report_to (some calls) boundary cached_tokens total = some (
    calls
    ++ (record { current = cached_tokens; total = total }
        ∷ (boundary_event boundary cached_tokens total
            ++ (record { current = total; total = total } ∷ []))))

-- `vec![0.0; self.engine.vocab_size().max(1)]`
abbrev pub blank_logits : Engine → Logits
blank_logits engine = replicate (max engine.vocab_size 1) 0

module _ (engine : Engine) where
  -- Session::create
  unfoldable pub create : ℕ → Result (Session engine)
  create ctx_size =
      if ctx_size == 0
      then err (invalid_argument (text "context size must be positive"))
      else ok (record {
        ctx_size = ctx_size;
        checkpoint = [];
        logits = replicate 256 0;
        progress = none;
        prefill_boundary = none;
        transformer_kv = [];
        decode_scratch = engine.new_scratch;
      })

module _ {engine : Engine} where
  -- Session::set_progress, with a handler that has had no call, or none
  unfoldable pub set_progress : Session engine → Bool → Session engine
  set_progress s handler = record s { progress = if handler then some [] else none }

  -- Session::set_prefill_boundary
  unfoldable pub set_prefill_boundary : Session engine → Option ℕ → Session engine
  set_prefill_boundary s boundary = record s { prefill_boundary = positive boundary }

  -- Session::report_prefill_progress; the boundary is taken, or reset where there is no handler.
  unfoldable pub report_prefill_progress : Session engine → ℕ → ℕ → Session engine
  report_prefill_progress s cached_tokens total = record s {
    progress = report_to s.progress s.prefill_boundary cached_tokens total;
    prefill_boundary = none;
  }

  -- Session::reset_live_state
  unfoldable pub reset_live_state : Session engine → Session engine
  reset_live_state s = record s { checkpoint = []; transformer_kv = clear s.transformer_kv }

  abbrev rebuilt_by :
      Session engine → Tokens → Option Logits × TransformerKvCache × engine.Scratch → Session engine
  rebuilt_by s prompt (some logits, kv, scratch) = record s {
    checkpoint = prompt;
    logits = logits;
    transformer_kv = kv;
    decode_scratch = scratch;
  }
  rebuilt_by s prompt (none, kv, scratch) = record s {
    checkpoint = prompt;
    logits = infer_logits engine prompt;
    transformer_kv = clear kv;
    decode_scratch = scratch;
  }

  -- Session::rebuild_prompt_state
  unfoldable pub rebuild_prompt_state : Session engine → Tokens → Session engine
  unfolding reset_live_state
  rebuild_prompt_state s [] = record (reset_live_state s) { logits = blank_logits engine }
  rebuild_prompt_state s (token ∷ rest) =
      let r = reset_live_state s in
      rebuilt_by r (token ∷ rest)
        (try_reference_prefill engine r.transformer_kv r.decode_scratch (token ∷ rest) 0)

  abbrev extended_by :
      Session engine
      → Tokens
      → Option Logits × TransformerKvCache × engine.Scratch
      → Bool × Session engine
  extended_by s prompt (some logits, kv, scratch) = (
    true,
    record s {
      checkpoint = prompt;
      logits = logits;
      transformer_kv = kv;
      decode_scratch = scratch;
    },
  )
  extended_by s prompt (none, kv, scratch) =
      (false, record s { transformer_kv = kv; decode_scratch = scratch })

  abbrev extend_by_suffix : Session engine → Tokens → ℕ → Tokens → Bool × Session engine
  extend_by_suffix s prompt cached_tokens [] = (true, s)
  extend_by_suffix s prompt cached_tokens (token ∷ rest) =
      extended_by s prompt (
        try_reference_prefill engine s.transformer_kv s.decode_scratch (token ∷ rest) cached_tokens)

  -- Session::extend_live_suffix
  unfoldable pub extend_live_suffix : Session engine → Tokens → ℕ → Bool × Session engine
  extend_live_suffix s prompt cached_tokens =
      extend_by_suffix s prompt cached_tokens (drop cached_tokens prompt)

  abbrev or_rebuild : Tokens → Bool × Session engine → Session engine
  or_rebuild prompt (true, s) = s
  or_rebuild prompt (false, s) = rebuild_prompt_state s prompt

  -- The part of `prefill` behind the report and the reset.
  unfoldable pub replay : Session engine → Tokens → ℕ → ℕ → Session engine
  unfolding rebuild_prompt_state extend_live_suffix list_eq
  replay s prompt cached_tokens replay_tokens =
      if replay_tokens == 0
      then (if list_eq s.checkpoint prompt then s else rebuild_prompt_state s prompt)
      else if cached_tokens == 0
      then rebuild_prompt_state s prompt
      else or_rebuild prompt (extend_live_suffix s prompt cached_tokens)

  -- Session::prefill behind its check
  unfoldable pub prefill_within : Session engine → Tokens → SyncStats × Session engine
  unfolding report_prefill_progress reset_live_state
  prefill_within s prompt =
      let common = common_prefix_len s.checkpoint prompt in
      let rebuilt = not (common == length s.checkpoint) in
      let cached_tokens = if rebuilt then 0 else common in
      let replay_tokens = length prompt - cached_tokens in
      let reported = report_prefill_progress s cached_tokens (length prompt) in
      let ready = if rebuilt then reset_live_state reported else reported in
      (
        record { cached_tokens = cached_tokens; replay_tokens = replay_tokens; rebuilt = rebuilt },
        replay ready prompt cached_tokens replay_tokens,
      )

  abbrev returned : SyncStats × Session engine → Result SyncStats × Session engine
  returned (stats, s) = (ok stats, s)

  -- Session::prefill, and Session::sync, which calls it
  unfoldable pub prefill : Session engine → Tokens → Result SyncStats × Session engine
  prefill s prompt =
      if leb s.ctx_size (length prompt)
      then (err (context_exceeded (length prompt) s.ctx_size), s)
      else returned (prefill_within s prompt)

  abbrev appended_by :
      Session engine → ℕ → Option Logits × TransformerKvCache × engine.Scratch → Session engine
  appended_by s token (some logits, kv, scratch) = record s {
    checkpoint = push s.checkpoint token;
    logits = logits;
    transformer_kv = kv;
    decode_scratch = scratch;
  }
  appended_by s token (none, kv, scratch) =
      rebuild_prompt_state (record s { transformer_kv = kv; decode_scratch = scratch })
        (push s.checkpoint token)

  -- Session::append_token_with_reference_fallback
  unfoldable pub append_token_with_reference_fallback : Session engine → ℕ → Session engine
  unfolding rebuild_prompt_state push
  append_token_with_reference_fallback s token = appended_by s token (
      engine.try_reference_decode_next s.transformer_kv s.decode_scratch token
        (length s.checkpoint))

  -- Session::decode_next, and Session::eval, which calls it
  unfoldable pub decode_next : Session engine → ℕ → Result (Unit {0}) × Session engine
  unfolding append_token_with_reference_fallback
  decode_next s token =
      if leb s.ctx_size (length s.checkpoint + 1)
      then (err (context_exceeded (length s.checkpoint + 1) s.ctx_size), s)
      else (ok tt, append_token_with_reference_fallback s token)

  -- Session::rewind
  unfoldable pub rewind : Session engine → ℕ → Session engine
  unfolding rebuild_prompt_state
  rewind s pos = rebuild_prompt_state s (take (min pos (length s.checkpoint)) s.checkpoint)

  -- Session::invalidate
  unfoldable pub invalidate : Session engine → Session engine
  invalidate s = record s { checkpoint = []; transformer_kv = clear s.transformer_kv }
