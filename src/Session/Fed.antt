-- ===== src/Session/Fed.antt =====
-- Sessions whose cache and logits are those of one feed of the checkpoint (src/session.rs).
use ds4_rs.Base.{ℕ, suc, ◌+◌, ◌≡◌, refl, [], ◌∷◌, ◌++◌, Option, none, some, length, arith, ◌∙◌}
use ds4_rs.Engine.{Engine, prefill_loop}
use ds4_rs.Kv.Transformer.{TransformerKvCache, clear}
use ds4_rs.Session.{Session}
use ds4_rs.Types.{Tokens, Logits}

abbrev pub answer : Tokens → Logits → Option Logits
answer [] logits = none
answer (t ∷ ts) logits = some logits

module _ (engine : Engine) where
  -- There is a cache and a scratch from which one feed of the whole checkpoint, from position 0 and
  -- from the cleared cache, gives the logits, the cache and the scratch of the session.
  pub record IsLive (s : Session engine) : Type 0 where
    pub kv0 : TransformerKvCache
    pub scratch0 : engine.Scratch
    pub fed :
        prefill_loop engine s.checkpoint 0 none (clear kv0) scratch0
        ≡ (answer s.checkpoint s.logits, s.transformer_kv, s.decode_scratch)

  prefill_loop-append :
      (a b : Tokens) (pos : ℕ) (last : Option Logits) (kv : TransformerKvCache)
      (scratch : engine.Scratch)
      → prefill_loop engine (a ++ b) pos last kv scratch
        ≡ prefill_loop engine b
            (pos + length a)
            (prefill_loop engine a pos last kv scratch).0
            (prefill_loop engine a pos last kv scratch).1
            (prefill_loop engine a pos last kv scratch).2
  unfolding prefill_loop
  prefill_loop-append [] b pos last kv scratch = let e : pos + 0 ≡ pos = omega arith in rw e
  prefill_loop-append (t ∷ a) b pos last kv scratch =
      let r = engine.try_reference_decode_next kv scratch t pos in
      let e : pos + suc (length a) ≡ pos + 1 + length a = omega arith in
      rw e (prefill_loop-append a b (pos + 1) r.0 r.1 r.2)

  -- A feed that is not empty forgets the logits before it.
  prefill_loop-cons :
      (t : ℕ) (a : Tokens) (pos : ℕ) (last last' : Option Logits) (kv : TransformerKvCache)
      (scratch : engine.Scratch)
      → prefill_loop engine (t ∷ a) pos last kv scratch
        ≡ prefill_loop engine (t ∷ a) pos last' kv scratch
  unfolding prefill_loop
  prefill_loop-cons t a pos last last' kv scratch = refl

  pub answer-append : (a b : Tokens) (t : ℕ) (l : Logits) → answer (a ++ t ∷ b) l ≡ some l
  answer-append [] b t l = refl
  answer-append (x ∷ a) b t l = refl

  -- Feeding more tokens to a live session goes on where the feed of its checkpoint has stopped.
  pub prefill_loop-live :
      (s : Session engine) (v : IsLive s) (t : ℕ) (a : Tokens)
      → prefill_loop engine (s.checkpoint ++ t ∷ a) 0 none (clear v.kv0) v.scratch0
        ≡ prefill_loop engine (t ∷ a) (length s.checkpoint) none s.transformer_kv s.decode_scratch
  prefill_loop-live s v t a =
      let e : 0 + length s.checkpoint ≡ length s.checkpoint = omega arith in
      prefill_loop-append s.checkpoint (t ∷ a) 0 none (clear v.kv0) v.scratch0
      ∙ rw (e, v.fed)
          (prefill_loop-cons t a (length s.checkpoint) (answer s.checkpoint s.logits) none
            s.transformer_kv s.decode_scratch)

  -- A session whose checkpoint is empty and whose cache is cleared is live.
  pub IsLive-empty :
      (s : Session engine) (kv0 : TransformerKvCache)
      → s.checkpoint ≡ []
      → s.transformer_kv ≡ clear kv0
      → IsLive s
  IsLive-empty s kv0 e k = record {
    kv0 = kv0;
    scratch0 = s.decode_scratch;
    fed = rw (e, k) (unfold prefill_loop in refl);
  }
