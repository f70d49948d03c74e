-- ===== src/Text/Replace.antt =====
-- `str::replace`, where the replacement cannot be mistaken for what it replaces.
use ds4_rs.Base.{
  ℕ, zero, suc, ◌-◌, ◌≡◌, ◌≢◌, refl, sym, [], ◌∷◌, ◌++◌, true, false, ◌==◌, All, length, Bool-cases,
  inl, inr, arith,
}
use ds4_rs.Bytes.{Bytes}
use ds4_rs.Text.{replace_from, contains}
use ds4_rs.Types.{starts_with}

-- The byte does not occur.
abbrev pub Lacks : ℕ → Bytes → Type 0
Lacks c s = All (λ b. b ≢ c) s

==_apart : (a b : ℕ) → a ≢ b → (a == b) ≡ false
==_apart a b apart = ground arith

starts_with-head : (a b : ℕ) (s t : Bytes) → a ≢ b → starts_with (a ∷ s) (b ∷ t) ≡ false
unfolding starts_with
starts_with-head a b s t apart = rw (==_apart a b apart) refl

replace_from-hit :
    (b : ℕ) (s from to : Bytes)
    → starts_with (b ∷ s) from ≡ true
    → replace_from 0 (b ∷ s) from to ≡ to ++ replace_from (length from - 1) s from to
unfolding replace_from
replace_from-hit b s from to e = rw (e, replace_from) refl

replace_from-miss :
    (b : ℕ) (s from to : Bytes)
    → starts_with (b ∷ s) from ≡ false
    → replace_from 0 (b ∷ s) from to ≡ b ∷ replace_from 0 s from to
unfolding replace_from
replace_from-miss b s from to e = rw (e, replace_from) refl

replace_from-nil : (due : ℕ) (from to : Bytes) → replace_from due [] from to ≡ []
unfolding replace_from
replace_from-nil zero from to = refl
replace_from-nil (suc due) from to = refl

replace_from-due :
    (due b : ℕ) (s from to : Bytes)
    → replace_from (suc due) (b ∷ s) from to ≡ replace_from due s from to
unfolding replace_from
replace_from-due due b s from to = refl

contains-nil : (f0 : ℕ) (fs : Bytes) → contains [] (f0 ∷ fs) ≡ false
unfolding contains starts_with
contains-nil f0 fs = refl

module _ (f0 : ℕ) (fs : Bytes) (c : ℕ) (ts : Bytes) where
  -- What the replaced text starts with, it started with before, if no byte of it is the first one
  -- of the replacement.
  starts_with-replace_from :
      (q s : Bytes)
      → Lacks c q
      → starts_with (replace_from 0 s (f0 ∷ fs) (c ∷ ts)) q ≡ true
      → starts_with s q ≡ true
  unfolding starts_with
  starts_with-replace_from [] s lacks e = refl
  starts_with-replace_from (q0 ∷ q) [] lacks e = rw (replace_from-nil 0 (f0 ∷ fs) (c ∷ ts)) at e
  starts_with-replace_from (q0 ∷ q) (b ∷ s) lacks e =
      elim (Bool-cases (starts_with (b ∷ s) (f0 ∷ fs))) [
        | inl found ↦
            let hit : starts_with
                  (c ∷ (ts ++ replace_from (length (f0 ∷ fs) - 1) s (f0 ∷ fs) (c ∷ ts))) (q0 ∷ q)
                ≡ true =
              rw (replace_from-hit b s (f0 ∷ fs) (c ∷ ts) found) at e in
            absurd (
              cc (
                hit,
                starts_with-head c q0
                    (ts ++ replace_from (length (f0 ∷ fs) - 1) s (f0 ∷ fs) (c ∷ ts)) q
                    (λ x. lacks.0 (sym x)),
              ))
        | inr other ↦
            let kept : starts_with (b ∷ replace_from 0 s (f0 ∷ fs) (c ∷ ts)) (q0 ∷ q) ≡ true =
              rw (replace_from-miss b s (f0 ∷ fs) (c ∷ ts) other) at e in
            ground (arith, starts_with-replace_from q s)
      ]

  contains-append :
      (to s : Bytes)
      → Lacks f0 to
      → contains s (f0 ∷ fs) ≡ false
      → contains (to ++ s) (f0 ∷ fs) ≡ false
  unfolding contains
  contains-append [] s lacks e = e
  contains-append (t ∷ to) s lacks e =
      rw (starts_with-head t f0 (to ++ s) fs lacks.0) (contains-append to s lacks.1 e)

  contains-cons :
      (b : ℕ) (s : Bytes)
      → starts_with (b ∷ s) (f0 ∷ fs) ≡ false
      → contains s (f0 ∷ fs) ≡ false
      → contains (b ∷ s) (f0 ∷ fs) ≡ false
  unfolding contains
  contains-cons b s here later = rw (here, contains) later

  pub contains-replace_from :
      (due : ℕ) (s : Bytes)
      → Lacks c (f0 ∷ fs)
      → Lacks f0 (c ∷ ts)
      → contains (replace_from due s (f0 ∷ fs) (c ∷ ts)) (f0 ∷ fs) ≡ false
  contains-replace_from due [] l m =
      rw (replace_from-nil due (f0 ∷ fs) (c ∷ ts)) (contains-nil f0 fs)
  contains-replace_from (suc due) (b ∷ s) l m =
      rw (replace_from-due due b s (f0 ∷ fs) (c ∷ ts)) (contains-replace_from due s l m)
  contains-replace_from zero (b ∷ s) l m = elim (Bool-cases (starts_with (b ∷ s) (f0 ∷ fs))) [
    | inl found ↦
        rw (replace_from-hit b s (f0 ∷ fs) (c ∷ ts) found)
          (contains-append (c ∷ ts) _ m (contains-replace_from (length (f0 ∷ fs) - 1) s l m))
    | inr other ↦ rw (replace_from-miss b s (f0 ∷ fs) (c ∷ ts) other) (
        contains-cons b (replace_from 0 s (f0 ∷ fs) (c ∷ ts))
          (elim (Bool-cases (starts_with (b ∷ replace_from 0 s (f0 ∷ fs) (c ∷ ts)) (f0 ∷ fs))) [
            | inl found ↦
                let old =
                  starts_with-replace_from (f0 ∷ fs) (b ∷ s) l
                    (rw (replace_from-miss b s (f0 ∷ fs) (c ∷ ts) other) found) in
                absurd (cc (old, other))
            | inr none_here ↦ none_here
          ])
          (contains-replace_from 0 s l m))
  ]
