-- ===== src/Session/Agree.antt =====
-- src/session.rs: sessions that hold the same tokens, on an engine that gives the same logits for
-- the same tokens.
use ds4_rs.Base.{
  ℕ, ◌+◌, Option, All, subst, ◌<◌, ◌≡◌, ◌≢◌, refl, sym, ◌∙◌, ap, [], ◌∷◌, none, length, arith,
}
use ds4_rs.Engine.{Engine, prefill_loop}
use ds4_rs.Error.{ok}
use ds4_rs.Kv.Transformer.{TransformerKvCache, clear}
use ds4_rs.Session.Fed.{IsLive, answer}
use ds4_rs.Session.Changes.{Changes}
use ds4_rs.Session.Live.{Answers, prefill-IsLive, new-IsLive}
use ds4_rs.Session.Prefill.{prefill_ok}
use ds4_rs.Session.{Session, create, prefill}
use ds4_rs.Types.{Tokens, Logits}

-- The logits of a decode step do not depend on what a cache held before it was cleared, nor on what
-- is in the scratch buffers: caches and buffers are alike, if they differ in nothing else.
pub record IsReproducible (engine : Engine) : Type 1 where
  pub Alike : TransformerKvCache → engine.Scratch → TransformerKvCache → engine.Scratch → Type 0
  pub cleared :
      (kv kv' : TransformerKvCache) (scratch scratch' : engine.Scratch)
      → Alike (clear kv) scratch (clear kv') scratch'
  pub stepped :
      (token pos : ℕ) (kv kv' : TransformerKvCache) (scratch scratch' : engine.Scratch)
      → Alike kv scratch kv' scratch'
      → ((engine.try_reference_decode_next kv scratch token pos).0
          ≡ (engine.try_reference_decode_next kv' scratch' token pos).0)
        × Alike
            (engine.try_reference_decode_next kv scratch token pos).1
            (engine.try_reference_decode_next kv scratch token pos).2
            (engine.try_reference_decode_next kv' scratch' token pos).1
            (engine.try_reference_decode_next kv' scratch' token pos).2

module _ (engine : Engine) (reproducible : IsReproducible engine) where
  feed-same :
      (tokens : Tokens) (pos : ℕ) (last last' : Option Logits) (kv kv' : TransformerKvCache)
      (scratch scratch' : engine.Scratch)
      → last ≡ last'
      → reproducible.Alike kv scratch kv' scratch'
      → (prefill_loop engine tokens pos last kv scratch).0
        ≡ (prefill_loop engine tokens pos last' kv' scratch').0
  unfolding prefill_loop
  feed-same [] pos last last' kv kv' scratch scratch' e alike = e
  feed-same (t ∷ ts) pos last last' kv kv' scratch scratch' e alike =
      let r = engine.try_reference_decode_next kv scratch t pos in
      let r' = engine.try_reference_decode_next kv' scratch' t pos in
      let (same, after) = reproducible.stepped t pos kv kv' scratch scratch' alike in
      feed-same ts (pos + 1) r.0 r'.0 r.1 r'.1 r.2 r'.2 same after

  -- The logits of a feed from the start.
  pub fed-same :
      (tokens : Tokens) (kv kv' : TransformerKvCache) (scratch scratch' : engine.Scratch)
      → (prefill_loop engine tokens 0 none (clear kv) scratch).0
        ≡ (prefill_loop engine tokens 0 none (clear kv') scratch').0
  fed-same tokens kv kv' scratch scratch' =
      feed-same tokens 0 none none (clear kv) (clear kv') scratch scratch' refl
        (reproducible.cleared kv kv' scratch scratch')

answer-same :
    (tokens : Tokens) {l m : Logits} → tokens ≢ [] → answer tokens l ≡ answer tokens m → l ≡ m
answer-same [] h e = absurd (h refl)
answer-same (t ∷ ts) h e = cc

module _ (engine : Engine) (Known : ℕ → Type 0) (answers : Answers engine Known)
    (reproducible : IsReproducible engine) where
  logits-same :
      (s t : Session engine)
      → IsLive engine s
      → IsLive engine t
      → s.checkpoint ≡ t.checkpoint
      → t.checkpoint ≢ []
      → s.logits ≡ t.logits
  logits-same s t v w e h = answer-same t.checkpoint h (
      ap (λ c. answer c s.logits) (sym e)
      ∙ sym (ap (λ p. p.0) v.fed)
      ∙ ap (λ c. (prefill_loop engine c 0 none (clear v.kv0) v.scratch0).0) e
      ∙ fed-same engine reproducible t.checkpoint v.kv0 w.kv0 v.scratch0 w.scratch0
      ∙ ap (λ p. p.0) w.fed)

  -- A session in any state, if it is live, has the logits of a new session that is given its tokens
  -- as a prompt.
  pub logits-prefill :
      (ctx : ℕ) (s u : Session engine)
      → IsLive engine s
      → All Known s.checkpoint
      → create engine ctx ≡ ok u
      → length s.checkpoint < ctx
      → s.checkpoint ≢ []
      → (prefill u s.checkpoint).1.logits ≡ s.logits
  logits-prefill ctx s u v known made fits h =
      let fresh = new-IsLive engine ctx u made in
      let ctx_is : u.ctx_size ≡ ctx = unfold create in ground (arith, made) in
      let done = (prefill_ok u s.checkpoint (omega (arith, ctx_is, fits))).1 in
      let all = subst (All Known) (sym done.checkpoint_is) known in
      logits-same (prefill u s.checkpoint).1 s
        (prefill-IsLive engine Known answers u s.checkpoint (λ k. fresh) all) v done.checkpoint_is h
