-- ===== src/Tests/Shared.antt =====
-- src/session.rs and src/server.rs on an engine that answers with all the tokens in its cache, and
-- that knows the tokens below 300.
use ds4_rs.Base.{
  Bool, true, ◌&&◌, All, if◌then◌else◌, ltb, lt→ltb, Bool-cases, inl, inr, ◌<◌, ℕ, ◌+◌, ◌≡◌, refl,
  ap, List, [], ◌∷◌, ◌++◌, Option, none, some, replicate, arith,
}
use ds4_rs.Engine.{Engine, prefill_loop, try_reference_prefill}
use ds4_rs.Error.{ok}
use ds4_rs.Kv.Transformer.{TransformerKvCache, new_layer, push_layer, clear, clear_layer}
use ds4_rs.Session.Agree.{IsReproducible}
use ds4_rs.Bytes.{from_le}
use ds4_rs.Kv.Payload.{chunk_words}
use ds4_rs.Session.Changes.{Changes, unchanged, after, stepped, loaded, create-IsLive}
use ds4_rs.Session.Fed.{IsLive}
use ds4_rs.Session.Snapshot.{load_snapshot, try_load_dsv4_snapshot, rehydrate_live_state}
use ds4_rs.Session.Live.{Answers}
use ds4_rs.Session.Steps.{prefilled}
use ds4_rs.Session.Timeline
use ds4_rs.Session.Timeline.{Call, Reply}
use ds4_rs.Session.{
  Session, create, prefill, rewind, rebuild_prompt_state, prefill_within, replay,
  report_prefill_progress,
}
use ds4_rs.Types.{SessionSnapshot, Tokens, Logits, common_prefix_len}

abbrev pub keys_of : TransformerKvCache → List ℕ
keys_of [] = []
keys_of (layer ∷ rest) = layer.keys

abbrev pub remembered : TransformerKvCache → ℕ → TransformerKvCache
remembered [] token = push_layer new_layer (token ∷ []) [] ∷ []
remembered (layer ∷ rest) token = push_layer layer (token ∷ []) [] ∷ rest

abbrev recalled : TransformerKvCache → ℕ → ℕ → Option Logits × TransformerKvCache × ℕ
recalled kv scratch token =
    if ltb token 300
    then (some (keys_of (remembered kv token)), remembered kv token, scratch + 1)
    else (none, kv, scratch)

abbrev pub recalling : Engine
recalling = record {
  Scratch = ℕ;
  new_scratch = 0;
  vocab_size = 3;
  try_reference_decode_next = λ kv scratch token pos. recalled kv scratch token;
  stub_infer_logits = λ tokens. [];
}

abbrev pub Known : ℕ → Type 0
Known token = token < 300

abbrev pub are_small : Tokens → Bool
are_small [] = true
are_small (token ∷ rest) = ltb token 300 && are_small rest

pub are_small-Known : (tokens : Tokens) → are_small tokens ≡ true → All Known tokens
are_small-Known [] h = tt
are_small-Known (token ∷ rest) h = (ground (arith, h), are_small-Known rest (ground (arith, h)))

pub recalling-Answers : Answers recalling Known
recalling-Answers = record {
  Ready = λ pos kv scratch. ℕ;
  cleared = λ kv scratch. 0;
  answered = λ pos token kv scratch ready known.
      (keys_of (remembered kv token), rw (lt→ltb token 300 known) refl, 0);
}

keys_of-clear : (kv : TransformerKvCache) → keys_of (clear kv) ≡ []
unfolding clear clear_layer
keys_of-clear [] = refl
keys_of-clear (layer ∷ rest) = refl

keys_of-remembered :
    (kv : TransformerKvCache) (token : ℕ)
    → keys_of (remembered kv token) ≡ keys_of kv ++ (token ∷ [])
unfolding push_layer
keys_of-remembered [] token = refl
keys_of-remembered (layer ∷ rest) token = refl

recalled-same :
    (token : ℕ) (kv kv' : TransformerKvCache) (scratch scratch' : ℕ)
    → keys_of kv ≡ keys_of kv'
    → ((recalled kv scratch token).0 ≡ (recalled kv' scratch' token).0)
      × (keys_of (recalled kv scratch token).1 ≡ keys_of (recalled kv' scratch' token).1)
recalled-same token kv kv' scratch scratch' e = elim (Bool-cases (ltb token 300)) [
  | inl known ↦
      let same : keys_of (remembered kv token) ≡ keys_of (remembered kv' token) =
        rw (keys_of-remembered kv token, keys_of-remembered kv' token, e) refl in
      rw known (ap some same, same)
  | inr other ↦ rw other (refl, e)
]

pub recalling-IsReproducible : IsReproducible recalling
recalling-IsReproducible = record {
  Alike = λ kv scratch kv' scratch'. keys_of kv ≡ keys_of kv';
  cleared = λ kv kv' scratch scratch'. rw (keys_of-clear kv, keys_of-clear kv') refl;
  stepped = λ token pos kv kv' scratch scratch' e. recalled-same token kv kv' scratch scratch' e;
}

abbrev start : Session recalling
start = record {
  ctx_size = 8;
  checkpoint = [];
  logits = replicate 256 0;
  progress = none;
  prefill_boundary = none;
  transformer_kv = [];
  decode_scratch = 0;
}

started : create recalling 8 ≡ ok start
unfolding create
started = refl

-- Two prompts with one prefix, a rewind, two tokens that are generated, and a prompt too long.
abbrev calls : List Call
calls =
    Timeline.prefill (1 ∷ 2 ∷ [])
    ∷ Timeline.prefill (1 ∷ 2 ∷ 0 ∷ [])
    ∷ Timeline.rewind 2
    ∷ Timeline.generate 2
    ∷ Timeline.prefill (replicate 9 0)
    ∷ []

-- A token that the engine does not know is fed, then a snapshot of the tokens 1 and 2 is loaded.
abbrev unknown_fed : Session recalling
unknown_fed = (prefill start (1 ∷ 999 ∷ [])).1

abbrev two_tokens : SessionSnapshot
two_tokens = record { bytes = 1 ∷ 0 ∷ 0 ∷ 0 ∷ 2 ∷ 0 ∷ 0 ∷ 0 ∷ [] }

abbrev reloaded_once : Session recalling
reloaded_once = load_snapshot unknown_fed two_tokens

changes : Changes start reloaded_once
changes =
    after (after unchanged (stepped (prefilled start (1 ∷ 999 ∷ []))))
      (loaded unknown_fed two_tokens)

reloaded_tokens : reloaded_once.checkpoint ≡ 1 ∷ 2 ∷ []
unfolding load_snapshot try_load_dsv4_snapshot rehydrate_live_state chunk_words from_le
    try_reference_prefill prefill_loop prefill prefill_within replay common_prefix_len
    rebuild_prompt_state report_prefill_progress
reloaded_tokens = refl

reloaded_known : All Known reloaded_once.checkpoint
reloaded_known = rw reloaded_tokens (are_small-Known (1 ∷ 2 ∷ []) refl)

create-IsLive_example : IsLive recalling reloaded_once
create-IsLive_example =
    create-IsLive recalling Known recalling-Answers 8 started changes reloaded_known
