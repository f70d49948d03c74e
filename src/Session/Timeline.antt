-- ===== src/Session/Timeline.antt =====
-- What src/session.rs promises, without its cache: a timeline holds the context size, the tokens and
-- the logits behind them, and its operations say what each method of a session does to these.
use ds4_rs.Base.{
  ℕ, zero, suc, ◌+◌, List, [], ◌∷◌, ◌++◌, Option, Bool, if◌then◌else◌, leb, length, take, min,
  replicate,
}
use ds4_rs.Error.{Result, ok, err, panic, context_exceeded}
use ds4_rs.Session.Prefill.{stats_of}
use ds4_rs.Session.Sampling.{argmax}
use ds4_rs.Session.{SyncStats}
use ds4_rs.Types.{Tokens, Logits}

pub record Timeline : Type 0 where
  pub ctx_size : ℕ
  pub tokens : Tokens
  pub logits : Logits

-- A call of a method that changes a session.
pub data Call : Type 0 where
  prefill : Tokens → Call
  decode_next : ℕ → Call
  generate : ℕ → Call
  rewind : ℕ → Call
  invalidate : Call
  set_progress : Bool → Call
  set_prefill_boundary : Option ℕ → Call

-- What the caller gets.
pub data Reply : Type 0 where
  stats : Result SyncStats → Reply
  done : Result (Unit {0}) → Reply
  generated : Result Tokens → Reply
  nothing : Reply

-- A timeline that was just created.
abbrev pub new_timeline : ℕ → Timeline
new_timeline ctx = record { ctx_size = ctx; tokens = []; logits = replicate 256 0 }

-- The parameters are what the engine makes of a text, and the logits for no tokens.
module _ (meaning : Tokens → Logits) (blank : Logits) where
  -- The logits behind tokens; those of no tokens are given.
  abbrev pub meaning_or : Logits → Tokens → Logits
  meaning_or old [] = old
  meaning_or old (t ∷ ts) = meaning (t ∷ ts)

  unfoldable pub fill : Timeline → Tokens → Result SyncStats × Timeline
  fill a prompt =
      if leb a.ctx_size (length prompt)
      then (err (context_exceeded (length prompt) a.ctx_size), a)
      else (
        ok (stats_of a.tokens prompt),
        record a { tokens = prompt; logits = meaning_or a.logits prompt },
      )

  unfoldable pub extend : Timeline → ℕ → Result (Unit {0}) × Timeline
  extend a token =
      if leb a.ctx_size (length a.tokens + 1)
      then (err (context_exceeded (length a.tokens + 1) a.ctx_size), a)
      else (
        ok tt,
        record a { tokens = a.tokens ++ (token ∷ []); logits = meaning (a.tokens ++ (token ∷ [])) },
      )

  -- The greatest logit is taken again and again; the first refusal ends it.
  unfoldable pub grow : ℕ → Timeline → Tokens → Result Tokens × Timeline
  grow zero a out = (ok out, a)
  grow (suc steps) a out =
      let token = argmax a.logits in
      let (r, a') = extend a token in
      elim r [
        | ok _ ↦ grow steps a' (out ++ (token ∷ []))
        | err e ↦ (err e, a')
        | panic ↦ (panic, a')
      ]

  unfoldable pub cut : Timeline → ℕ → Timeline
  cut a pos =
      let kept = take (min pos (length a.tokens)) a.tokens in
      record a { tokens = kept; logits = meaning_or blank kept }

  -- What a call of a method promises.
  unfoldable pub specified : Call → Timeline → Reply × Timeline
  unfolding fill extend grow cut
  specified (prefill prompt) a = let (r, a') = fill a prompt in (stats r, a')
  specified (decode_next token) a = let (r, a') = extend a token in (done r, a')
  specified (generate n) a = let (r, a') = grow n a [] in (generated r, a')
  specified (rewind pos) a = (nothing, cut a pos)
  specified invalidate a = (nothing, record a { tokens = [] })
  specified (set_progress handler) a = (nothing, a)
  specified (set_prefill_boundary boundary) a = (nothing, a)

  -- The replies to one call after the other.
  unfoldable pub replies : List Call → Timeline → List Reply
  replies [] a = []
  replies (c ∷ cs) a = let (r, a') = specified c a in r ∷ replies cs a'
