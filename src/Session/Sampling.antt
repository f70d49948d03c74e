-- ===== src/Session/Sampling.antt =====
-- src/session.rs: the greedy choice of the next token, and `generate_argmax_tokens`.
pub mod Argmax
pub mod Generate
use ds4_rs.Base.{ℕ, zero, suc, ◌+◌, ◌-◌, ◌%◌, ◌^◌, List, [], ◌∷◌, ltb, if◌then◌else◌}
use ds4_rs.Engine.{Engine}
use ds4_rs.Error.{Result, ok, err, panic}
use ds4_rs.Session.{Session, decode_next}
use ds4_rs.Types.{Tokens, Logits, push}

-- `f32::total_cmp` compares these numbers: the bit pattern of a negative number counts downwards.
unfoldable pub total_order : ℕ → ℕ
total_order bits = if ltb bits (2 ^ 31) then bits + 2 ^ 31 else 2 ^ 32 - 1 - bits

-- `max_by` over the rest of the logits: a later one replaces the best unless the best is greater.
unfoldable pub argmax_from : ℕ → ℕ → ℕ → Logits → ℕ
argmax_from best_idx best idx [] = best_idx
argmax_from best_idx best idx (logit ∷ rest) =
    let greater = ltb (total_order logit) (total_order best) in
    argmax_from (if greater then best_idx else idx) (if greater then best else logit) (idx + 1) rest

-- Session::argmax on the logits; the index becomes an i32.
unfoldable pub argmax : Logits → ℕ
unfolding argmax_from total_order
argmax [] = 0
argmax (logit ∷ rest) = argmax_from 0 logit 1 rest % 2 ^ 32

module _ {engine : Engine} where
  -- Session::generate_argmax_tokens, with the tokens that are out already. The first error ends it.
  unfoldable pub generate_from : ℕ → Session engine → Tokens → Result Tokens × Session engine
  generate_from zero s out = (ok out, s)
  generate_from (suc steps) s out =
      let token = argmax s.logits in
      let (r, s') = decode_next s token in
      elim r [
        | ok _ ↦ generate_from steps s' (push out token)
        | err e ↦ (err e, s')
        | panic ↦ (panic, s')
      ]

  unfoldable pub generate_argmax_tokens : Session engine → ℕ → Result Tokens × Session engine
  unfolding generate_from
  generate_argmax_tokens s max_tokens = generate_from max_tokens s []
