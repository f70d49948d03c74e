-- ===== src/Text/Contains.antt =====
-- `str::contains` on the parts of a text and on their joins.
use ds4_rs.Base.{
  ℕ, ◌≡◌, refl, List, [], ◌∷◌, ◌++◌, true, false, list_eq, list_eq_sound, arith, ==_self,
  Bool-cases, inl, inr, append-nil, subst,
}
use ds4_rs.Bytes.{Bytes}
use ds4_rs.Text.{contains, join, any}
use ds4_rs.Types.{starts_with}

starts_with_self : (x y : Bytes) → starts_with (x ++ y) x ≡ true
unfolding starts_with
starts_with_self [] y = refl
starts_with_self (b ∷ x) y = rw (==_self b) (starts_with_self x y)

starts_with-append : (s t x : Bytes) → starts_with s x ≡ true → starts_with (s ++ t) x ≡ true
unfolding starts_with
starts_with-append s t [] e = refl
starts_with-append [] t (b ∷ x) e = cc
starts_with-append (a ∷ s) t (b ∷ x) e = ground (arith, starts_with-append s t x)

contains_here : (s x : Bytes) → starts_with s x ≡ true → contains s x ≡ true
unfolding contains
contains_here [] x e = e
contains_here (b ∷ s) x e = rw (e, contains) refl

contains_later : (b : ℕ) (s x : Bytes) → contains s x ≡ true → contains (b ∷ s) x ≡ true
unfolding contains
contains_later b s x e = ground arith

contains_rest :
    (b : ℕ) (s x : Bytes)
    → starts_with (b ∷ s) x ≡ false
    → contains (b ∷ s) x ≡ true
    → contains s x ≡ true
unfolding contains
contains_rest b s x not_here e = ground arith

contains-append_left : (s t x : Bytes) → contains s x ≡ true → contains (s ++ t) x ≡ true
unfolding starts_with contains
contains-append_left [] t x e = contains_here t x (starts_with-append [] t x e)
contains-append_left (b ∷ s) t x e = elim (Bool-cases (starts_with (b ∷ s) x)) [
  | inl here ↦ contains_here (b ∷ (s ++ t)) x (starts_with-append (b ∷ s) t x here)
  | inr later ↦
      contains_later b (s ++ t) x (contains-append_left s t x (contains_rest b s x later e))
]

pub contains-append_right : (s t x : Bytes) → contains t x ≡ true → contains (s ++ t) x ≡ true
unfolding contains
contains-append_right [] t x e = e
contains-append_right (b ∷ s) t x e = ground (arith, contains-append_right s t x)

contains_self : (x : Bytes) → contains x x ≡ true
contains_self x =
    contains_here x x (subst (λ s. starts_with s x ≡ true) (append-nil x) (starts_with_self x []))

-- A join contains each of its parts.
pub contains-join :
    (parts : List Bytes) (sep x : Bytes)
    → any (list_eq x) parts ≡ true
    → contains (join parts sep) x ≡ true
unfolding join
contains-join [] sep x e = cc
contains-join (p ∷ []) sep x e = elim (Bool-cases (list_eq x p)) [
  | inl same ↦ subst (λ y. contains y x ≡ true) (list_eq_sound x p same) (contains_self x)
  | inr other ↦ cc
]
contains-join (p ∷ q ∷ parts) sep x e = elim (Bool-cases (list_eq x p)) [
  | inl same ↦
      contains-append_left p _ x
        (subst (λ y. contains y x ≡ true) (list_eq_sound x p same) (contains_self x))
  | inr other ↦
      contains-append_right p _ x
        (contains-append_right sep _ x (contains-join (q ∷ parts) sep x (rw other at e)))
]
