-- ===== src/Tokenizer/Merged.antt =====
-- src/tokenizer.rs: what byte-pair merging keeps, and where it stops.
use ds4_rs.Base.{
  ℕ, zero, suc, ◌+◌, ◌≤◌, ◌<◌, ◌≡◌, ◌≢◌, ◌-◌, ◌^◌, Bool-cases, refl, ap, ◌∙◌, List, [], ◌∷◌, ◌++◌,
  append_assoc, Option, none, some, length, arith, Option-cases, inl, inr,
}
use ds4_rs.Bytes.{Bytes}
use ds4_rs.Maps.{lookup}
use ds4_rs.Tokenizer.{Vocabulary}
use ds4_rs.Tokenizer.Bpe.{
  better, pair_rank, best_from, best_pair, merge_at, merge_loop, merge_symbols, i32_max, i32_lt,
}

-- The text that a list of symbols spells.
pub spelled : List Bytes → Bytes
spelled [] = []
spelled (s ∷ symbols) = s ++ spelled symbols

spelled-merge_at : (i : ℕ) (symbols : List Bytes) → spelled (merge_at i symbols) ≡ spelled symbols
unfolding spelled merge_at
spelled-merge_at i [] = refl
spelled-merge_at i (a ∷ []) = refl
spelled-merge_at zero (a ∷ b ∷ rest) = append_assoc a b (spelled rest)
spelled-merge_at (suc i) (a ∷ b ∷ rest) = ap (λ text. a ++ text) (spelled-merge_at i (b ∷ rest))

spelled-merge_loop :
    (fuel : ℕ) (vocab : Vocabulary) (symbols : List Bytes)
    → spelled (merge_loop fuel vocab symbols) ≡ spelled symbols
unfolding merge_loop
spelled-merge_loop zero vocab symbols = refl
spelled-merge_loop (suc fuel) vocab symbols = elim (Option-cases (best_pair vocab symbols)) [
  | inl e ↦ rw (e, merge_loop) refl
  | inr (i, e) ↦
      rw (e, merge_loop)
        (spelled-merge_loop fuel vocab (merge_at i symbols) ∙ spelled-merge_at i symbols)
]

better-lt :
    (i bound : ℕ) (rank : Option ℕ) (best : Option ℕ × ℕ)
    → ((k : ℕ) → best.0 ≡ some k → k + 1 < bound)
    → i + 1 < bound
    → (k : ℕ) → (better i rank best).0 ≡ some k
    → k + 1 < bound
unfolding better
better-lt i bound none best h inside k e = h k e
better-lt i bound (some rank) best h inside k e = ground (arith, inside, e, h k)

-- A best pair found is one that was given, or one of the pairs looked at.
best_from-lt :
    (vocab : Vocabulary) (i bound j : ℕ) (best : Option ℕ × ℕ) (symbols : List Bytes)
    → ((k : ℕ) → best.0 ≡ some k → k + 1 < bound)
    → i + length symbols ≡ bound
    → best_from vocab i best symbols ≡ some j
    → j + 1 < bound
unfolding best_from
best_from-lt vocab i bound j best [] h size e = h j e
best_from-lt vocab i bound j best (s1 ∷ []) h size e = h j e
best_from-lt vocab i bound j best (s1 ∷ s2 ∷ rest) h size e =
    best_from-lt vocab (i + 1) bound j (better i (pair_rank vocab s1 s2) best) (s2 ∷ rest)
      (better-lt i bound (pair_rank vocab s1 s2) best h (omega (arith, size))) (omega (arith, size))
      e

length-merge_at :
    (i : ℕ) (symbols : List Bytes)
    → i + 1 < length symbols
    → length (merge_at i symbols) + 1 ≡ length symbols
unfolding merge_at
length-merge_at i [] h = absurd (omega arith)
length-merge_at i (a ∷ []) h = absurd (omega arith)
length-merge_at zero (a ∷ b ∷ rest) h = omega arith
length-merge_at (suc i) (a ∷ b ∷ rest) h = omega (arith, length-merge_at i (b ∷ rest) (omega arith))

merge_loop-done :
    (fuel : ℕ) (vocab : Vocabulary) (symbols : List Bytes)
    → length symbols ≤ fuel
    → best_pair vocab (merge_loop fuel vocab symbols) ≡ none
unfolding merge_loop
merge_loop-done zero vocab [] h = unfold best_pair best_from in refl
merge_loop-done zero vocab (s ∷ symbols) h = absurd (omega arith)
merge_loop-done (suc fuel) vocab symbols h = elim (Option-cases (best_pair vocab symbols)) [
  | inl e ↦ rw (e, merge_loop) e
  | inr (i, e) ↦
      let inside : i + 1 < length symbols =
        unfold best_pair in
        best_from-lt vocab 0 (length symbols) i (none, i32_max) symbols (λ k f. cc) (omega arith)
          e in
      rw (e, merge_loop)
        (merge_loop-done fuel vocab (merge_at i symbols)
          (omega (arith, h, length-merge_at i symbols inside)))
]

-- No two neighbours have a rank in the table of merges, but for ranks from `i32::MAX` on.
pub AreUnranked : Vocabulary → List Bytes → Type 0
AreUnranked vocab [] = Unit {0}
AreUnranked vocab (s1 ∷ []) = Unit {0}
AreUnranked vocab (s1 ∷ s2 ∷ rest) =
    ((rank : ℕ) → lookup (s1 ++ (32 ∷ s2)) vocab.merges ≡ some rank → 2 ^ 31 - 1 ≤ rank)
    × AreUnranked vocab (s2 ∷ rest)

-- A best pair that was found is not lost.
best_from-some :
    (vocab : Vocabulary) (i k rank : ℕ) (symbols : List Bytes)
    → best_from vocab i (some k, rank) symbols ≢ none
unfolding best_from better
best_from-some vocab i k rank [] e = cc
best_from-some vocab i k rank (s1 ∷ []) e = cc
best_from-some vocab i k rank (s1 ∷ s2 ∷ rest) e = elim (Option-cases (pair_rank vocab s1 s2)) [
  | inl f ↦ best_from-some vocab (i + 1) k rank (s2 ∷ rest) (rw f at e)
  | inr (r, f) ↦ elim (Bool-cases (i32_lt r rank)) [
    | inl less ↦ best_from-some vocab (i + 1) i r (s2 ∷ rest) (rw (f, less) at e)
    | inr more ↦ best_from-some vocab (i + 1) k rank (s2 ∷ rest) (rw (f, more) at e)
  ]
]

best_from-unranked :
    (vocab : Vocabulary) (i : ℕ) (symbols : List Bytes)
    → best_from vocab i (none, i32_max) symbols ≡ none
    → AreUnranked vocab symbols
unfolding best_from better pair_rank AreUnranked
best_from-unranked vocab i [] e = tt
best_from-unranked vocab i (s1 ∷ []) e = tt
best_from-unranked vocab i (s1 ∷ s2 ∷ rest) e =
    elim (Option-cases (lookup (s1 ++ (32 ∷ s2)) vocab.merges)) [
      | inl f ↦ (λ rank g. cc, best_from-unranked vocab (i + 1) (s2 ∷ rest) (rw f at e))
      | inr (r, f) ↦ elim (Bool-cases (i32_lt r i32_max)) [
        | inl less ↦ absurd (best_from-some vocab (i + 1) i r (s2 ∷ rest) (rw (f, less) at e))
        | inr more ↦ (
          λ rank g. (let same : r ≡ rank = cc in ground (arith, more, same)),
          best_from-unranked vocab (i + 1) (s2 ∷ rest) (rw (f, more) at e),
        )
      ]
    ]

-- Byte-pair merging keeps the text that the symbols spell, and stops only when no two neighbours have
-- a rank in the table of merges, but for ranks from `i32::MAX` on: as many rounds as there are symbols
-- are enough.
pub merge_symbols-IsMerged :
    (vocab : Vocabulary) (symbols : List Bytes)
    → (spelled (merge_symbols vocab symbols) ≡ spelled symbols)
      × AreUnranked vocab (merge_symbols vocab symbols)
unfolding merge_symbols
merge_symbols-IsMerged vocab symbols = (
  spelled-merge_loop (length symbols) vocab symbols,
  best_from-unranked vocab 0 (merge_symbols vocab symbols)
      (unfold best_pair in merge_loop-done (length symbols) vocab symbols (omega arith)),
)
