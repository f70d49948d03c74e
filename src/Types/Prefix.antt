-- ===== src/Types/Prefix.antt =====
-- The common prefix of two token sequences.
use ds4_rs.Base.{
  ℕ, ◌≤◌, ◌≡◌, ◌≢◌, ◌↔◌, refl, [], ◌∷◌, ◌++◌, true, length, take, drop, get_elem?, some, arith,
}
use ds4_rs.Types.{Tokens, starts_with, common_prefix_len}

pub common_prefix_len-le-length :
    (a b : Tokens) → (common_prefix_len a b ≤ length a) × (common_prefix_len a b ≤ length b)
unfolding common_prefix_len
common_prefix_len-le-length [] b = omega arith
common_prefix_len-le-length (x ∷ xs) [] = omega arith
common_prefix_len-le-length (x ∷ xs) (y ∷ ys) = ground (arith, common_prefix_len-le-length xs ys)

-- Two sequences agree on their common prefix.
pub take-common_prefix_len :
    (a b : Tokens) → take (common_prefix_len a b) a ≡ take (common_prefix_len a b) b
unfolding common_prefix_len
take-common_prefix_len [] b = refl
take-common_prefix_len (x ∷ xs) [] = refl
take-common_prefix_len (x ∷ xs) (y ∷ ys) = ground (arith, take-common_prefix_len xs ys)

-- The first tokens after the common prefix differ.
pub common_prefix_len-maximal :
    (a b : Tokens) (x y : ℕ)
    → get_elem? a (common_prefix_len a b) ≡ some x
    → get_elem? b (common_prefix_len a b) ≡ some y
    → x ≢ y
unfolding common_prefix_len
common_prefix_len-maximal [] b x y h k = cc
common_prefix_len-maximal (u ∷ us) [] x y h k = cc
common_prefix_len-maximal (u ∷ us) (v ∷ vs) x y h k =
    λ e. ground (arith, common_prefix_len-maximal us vs x y)

-- A whole first sequence is shared exactly when it is a prefix of the second.
pub common_prefix_len-whole :
    (a b : Tokens) → common_prefix_len a b ≡ length a → b ≡ a ++ drop (length a) b
unfolding common_prefix_len
common_prefix_len-whole [] b h = refl
common_prefix_len-whole (x ∷ xs) [] h = absurd (omega arith)
common_prefix_len-whole (x ∷ xs) (y ∷ ys) h = ground (arith, common_prefix_len-whole xs ys)

pub common_prefix_len-append : (a r : Tokens) → common_prefix_len a (a ++ r) ≡ length a
unfolding common_prefix_len
common_prefix_len-append [] r = refl
common_prefix_len-append (x ∷ xs) r = ground (arith, common_prefix_len-append xs r)

-- A sequence starts with another exactly if the common prefix of the two is all of the other.
pub starts_with_iff : (a p : Tokens) → (starts_with a p ≡ true) ↔ (common_prefix_len p a ≡ length p)
unfolding starts_with common_prefix_len
starts_with_iff a [] = (λ h. refl, λ h. refl)
starts_with_iff [] (p ∷ ps) = (λ h. cc, λ h. absurd (omega arith))
starts_with_iff (x ∷ xs) (p ∷ ps) = ground (arith, starts_with_iff xs ps)
