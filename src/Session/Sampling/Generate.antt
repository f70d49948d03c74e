-- ===== src/Session/Sampling/Generate.antt =====
-- src/session.rs: greedy generation, with room for its tokens and without.
use native.Mathlib.Decide.{dec_lt}
use ds4_rs.Base.{
  ℕ, zero, suc, ◌+◌, ◌≤◌, ◌<◌, ◌≡◌, refl, [], ◌∷◌, ◌++◌, length, length-append, append_assoc,
  append-nil, arith, lt→leb, le→leb, ap, ◌∙◌,
}
use ds4_rs.Engine.{Engine}
use ds4_rs.Error.{Ds4Error, Result, ok, err, panic, context_exceeded}
use ds4_rs.Session.Rebuild.{append_token-IsAt}
use ds4_rs.Session.Sampling.{argmax, generate_from, generate_argmax_tokens}
use ds4_rs.Session.{Session, decode_next, append_token_with_reference_fallback}
use ds4_rs.Types.{Tokens, push}

module _ {engine : Engine} where
  pub decode_next_ok :
      (s : Session engine) (token : ℕ)
      → length s.checkpoint + 1 < s.ctx_size
      → decode_next s token ≡ (ok tt, append_token_with_reference_fallback s token)
  unfolding decode_next
  decode_next_ok s token h = rw (lt→leb s.ctx_size (length s.checkpoint + 1) h)

  pub decode_next_refused :
      (s : Session engine) (token : ℕ)
      → s.ctx_size ≤ length s.checkpoint + 1
      → decode_next s token ≡ (err (context_exceeded (length s.checkpoint + 1) s.ctx_size), s)
  unfolding decode_next
  decode_next_refused s token h = rw (le→leb s.ctx_size (length s.checkpoint + 1) h)

  pub generate_from_step :
      (n : ℕ) (s s' : Session engine) (out : Tokens)
      → decode_next s (argmax s.logits) ≡ (ok tt, s')
      → generate_from (suc n) s out ≡ generate_from n s' (push out (argmax s.logits))
  unfolding generate_from
  generate_from_step n s s' out e =
      let after : Result (Unit {0}) × Session engine → Result Tokens × Session engine = λ p.
        elim p.0 [
          | ok _ ↦ generate_from n p.1 (push out (argmax s.logits))
          | err x ↦ (err x, p.1)
          | panic ↦ (panic, p.1)
        ] in
      ap after e

  pub generate_from_stop :
      (n : ℕ) (s : Session engine) (out : Tokens) (x : Ds4Error)
      → decode_next s (argmax s.logits) ≡ (err x, s)
      → generate_from (suc n) s out ≡ (err x, s)
  unfolding generate_from
  generate_from_stop n s out x e =
      let after : Result (Unit {0}) × Session engine → Result Tokens × Session engine = λ p.
        elim p.0 [
          | ok _ ↦ generate_from n p.1 (push out (argmax s.logits))
          | err y ↦ (err y, p.1)
          | panic ↦ (panic, p.1)
        ] in
      ap after e

  -- The outcome of `n` steps from `s` with room for all of them.
  pub record IsGenerated (n : ℕ) (s : Session engine) (out : Tokens) : Type 0 where
    pub tokens : Tokens
    pub returned : (generate_from n s out).0 ≡ ok (out ++ tokens)
    pub counted : length tokens ≡ n
    pub appended : (generate_from n s out).1.checkpoint ≡ s.checkpoint ++ tokens

  generate_from_ok :
      (n : ℕ) (s : Session engine) (out : Tokens)
      → length s.checkpoint + n < s.ctx_size
      → IsGenerated n s out
  unfolding push
  generate_from_ok zero s out h = record {
    tokens = [];
    returned = unfold generate_from in rw append-nil;
    counted = refl;
    appended = unfold generate_from in rw append-nil;
  }
  generate_from_ok (suc n) s out h =
      let t = argmax s.logits in
      let s' = append_token_with_reference_fallback s t in
      let at = append_token-IsAt s t in
      let size : length s'.checkpoint ≡ length s.checkpoint + 1 =
        ap length at.checkpoint_is ∙ omega (arith, length-append s.checkpoint (t ∷ [])) in
      let g = generate_from_ok n s' (out ++ t ∷ []) (omega (arith, at.ctx_kept)) in
      record {
        tokens = t ∷ g.tokens;
        returned =
            rw (generate_from_step n s s' out (decode_next_ok s t (omega arith)))
              (g.returned ∙ ap ok (append_assoc out (t ∷ []) g.tokens));
        counted = ap suc g.counted;
        appended = rw (generate_from_step n s s' out (decode_next_ok s t (omega arith))) (
            g.appended
            ∙ ap (λ c. c ++ g.tokens) at.checkpoint_is
            ∙ append_assoc s.checkpoint (t ∷ []) g.tokens);
      }

  -- Asked for tokens, a session with room for all of them returns exactly as many, and its
  -- checkpoint is extended by what it returns.
  pub generate_argmax_tokens_ok :
      (s : Session engine) (max_tokens : ℕ)
      → length s.checkpoint + max_tokens < s.ctx_size
      → (out : Tokens) × ((generate_argmax_tokens s max_tokens).0 ≡ ok out)
        × (length out ≡ max_tokens)
        × ((generate_argmax_tokens s max_tokens).1.checkpoint ≡ s.checkpoint ++ out)
  unfolding generate_argmax_tokens
  generate_argmax_tokens_ok s max_tokens h =
      let g = generate_from_ok max_tokens s [] h in (g.tokens, g.returned, g.counted, g.appended)

  generate_from_refused :
      (n : ℕ) (s : Session engine) (out : Tokens)
      → length s.checkpoint < s.ctx_size
      → s.ctx_size ≤ length s.checkpoint + n
      → ((generate_from n s out).0 ≡ err (context_exceeded s.ctx_size s.ctx_size))
        × (length (generate_from n s out).1.checkpoint + 1 ≡ s.ctx_size)
  unfolding push
  generate_from_refused zero s out h k = absurd (omega arith)
  generate_from_refused (suc n) s out h k = elim (dec_lt (length s.checkpoint + 1) s.ctx_size) [
    | yes room ↦
        let t = argmax s.logits in
        let s' = append_token_with_reference_fallback s t in
        let at = append_token-IsAt s t in
        let size : length s'.checkpoint ≡ length s.checkpoint + 1 =
          ap length at.checkpoint_is ∙ omega (arith, length-append s.checkpoint (t ∷ [])) in
        let g =
          generate_from_refused n s' (out ++ t ∷ []) (omega (arith, at.ctx_kept))
            (omega (arith, at.ctx_kept)) in
        rw (generate_from_step n s s' out (decode_next_ok s t room))
          (g.0 ∙ ap (λ c. err (context_exceeded c c)) at.ctx_kept, g.1 ∙ at.ctx_kept)
    | no full ↦
        let e : length s.checkpoint + 1 ≡ s.ctx_size = omega arith in
        rw (generate_from_stop n s out _ (decode_next_refused s (argmax s.logits) (omega arith)))
          (ap (λ k. err (context_exceeded k s.ctx_size)) e, e)
  ]

  -- Asked for more tokens than the context holds, a session returns the error that names its
  -- context size twice, and is left with the context filled up to one token.
  pub generate_argmax_tokens_refused :
      (s : Session engine) (max_tokens : ℕ)
      → length s.checkpoint < s.ctx_size
      → s.ctx_size ≤ length s.checkpoint + max_tokens
      → ((generate_argmax_tokens s max_tokens).0 ≡ err (context_exceeded s.ctx_size s.ctx_size))
        × (length (generate_argmax_tokens s max_tokens).1.checkpoint + 1 ≡ s.ctx_size)
  unfolding generate_argmax_tokens
  generate_argmax_tokens_refused s max_tokens h k = generate_from_refused max_tokens s [] h k
