-- ===== src/Types.antt =====
-- src/types.rs: token sequences and the snapshot of a session. A token is an i32, modelled by its
-- bit pattern, a number below 2 ^ 32.
pub mod Prefix
use ds4_rs.Base.{
  ℕ, suc, List, [], ◌∷◌, ◌++◌, Bool, true, false, ◌&&◌, ◌==◌, length, take, if◌then◌else◌, list_eq,
}
use ds4_rs.Bytes.{Bytes}

-- `Tokens(Vec<i32>)`
abbrev pub Tokens : Type 0
Tokens = List ℕ

-- Tokens::push
unfoldable pub push : Tokens → ℕ → Tokens
push ts token = ts ++ token ∷ []

-- Tokens::starts_with
unfoldable pub starts_with : Tokens → Tokens → Bool
starts_with ts [] = true
starts_with [] (p ∷ ps) = false
starts_with (t ∷ ts) (p ∷ ps) = t == p && starts_with ts ps

-- Tokens::common_prefix_len
unfoldable pub common_prefix_len : Tokens → Tokens → ℕ
common_prefix_len [] bs = 0
common_prefix_len (a ∷ as') [] = 0
common_prefix_len (a ∷ as') (b ∷ bs) =
    let rest = common_prefix_len as' bs in if a == b then suc rest else 0

-- Tokens::slice_prefix
unfoldable pub slice_prefix : Tokens → ℕ → Tokens
slice_prefix ts len = take len ts

pub record SessionSnapshot : Type 0 where
  pub bytes : Bytes

-- A logit is an f32, modelled by its bit pattern.
abbrev pub Logits : Type 0
Logits = List ℕ
