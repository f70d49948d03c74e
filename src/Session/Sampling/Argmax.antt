-- ===== src/Session/Sampling/Argmax.antt =====
-- src/session.rs: what `argmax` picks.
use ds4_rs.Base.{
  ℕ, zero, suc, ◌+◌, ◌%◌, ◌^◌, ◌≤◌, ◌<◌, ◌≡◌, refl, ◌⊎◌, inl, inr, [], ◌∷◌, some, ltb, ltb→lt,
  ltb→le, length, get_elem?, arith, Bool-cases, ap, sym,
}
use ds4_rs.Session.Sampling.{total_order, argmax_from, argmax}
use ds4_rs.Types.{Logits}

-- `r` holds `v`, either the best so far or an element of the rest, whose first index is `i`.
pub record IsBest (bi bv i : ℕ) (xs : Logits) (r : ℕ) : Type 0 where
  pub value : ℕ
  pub where_it_is :
      ((r ≡ bi) × (value ≡ bv)) ⊎ ((j : ℕ) × (r ≡ i + j) × (get_elem? xs j ≡ some value))
  pub best_le : total_order bv ≤ total_order value
  pub rest_le : (j w : ℕ) → get_elem? xs j ≡ some w → total_order w ≤ total_order value
  pub later_lt : (j w : ℕ) → get_elem? xs j ≡ some w → r < i + j → total_order w < total_order value

-- A fact about every element of a list, from its head and its tail.
rest_le-cons :
    (x : ℕ) (xs : Logits) (bound : ℕ)
    → total_order x ≤ bound
    → ((j w : ℕ) → get_elem? xs j ≡ some w → total_order w ≤ bound)
    → (j w : ℕ) → get_elem? (x ∷ xs) j ≡ some w
    → total_order w ≤ bound
rest_le-cons x xs bound h t zero w e = ground arith
rest_le-cons x xs bound h t (suc j) w e = t j w e

later_lt-cons :
    (x : ℕ) (xs : Logits) (bound r i : ℕ)
    → (r < i → total_order x < bound)
    → ((j w : ℕ) → get_elem? xs j ≡ some w → r < i + 1 + j → total_order w < bound)
    → (j w : ℕ) → get_elem? (x ∷ xs) j ≡ some w
    → r < i + j
    → total_order w < bound
later_lt-cons x xs bound r i h t zero w e k = ground (arith, h (omega arith))
later_lt-cons x xs bound r i h t (suc j) w e k = t j w e (omega arith)

module _ {bi bv i : ℕ} {xs : Logits} {r : ℕ} where
  -- The pick stands at the best so far or behind it.
  index_ge : IsBest bi bv i xs r → bi < i → bi ≤ r
  index_ge b h = elim b.where_it_is [ inl p ↦ omega (arith, p.0) | inr (j, p, q) ↦ omega arith ]

module _ (bi bv i x : ℕ) (xs : Logits) (r : ℕ) (h : bi < i) where
  IsBest-keep :
      total_order x < total_order bv → IsBest bi bv (i + 1) xs r → IsBest bi bv i (x ∷ xs) r
  IsBest-keep lt b = record {
    value = b.value;
    where_it_is = elim b.where_it_is [
      | inl p ↦ inl p
      | inr (j, p, q) ↦ inr (suc j, omega arith, q)
    ];
    best_le = b.best_le;
    rest_le = rest_le-cons x xs (total_order b.value) (omega (arith, b.best_le)) b.rest_le;
    later_lt =
        later_lt-cons x xs (total_order b.value) r i (λ _. omega (arith, b.best_le)) b.later_lt;
  }

  IsBest-replace :
      total_order bv ≤ total_order x → IsBest i x (i + 1) xs r → IsBest bi bv i (x ∷ xs) r
  IsBest-replace le b = record {
    value = b.value;
    where_it_is = inr (elim b.where_it_is [
      | inl (p, q) ↦ (0, omega arith, cc)
      | inr (j, p, q) ↦ (suc j, omega arith, q)
    ]);
    best_le = omega (arith, b.best_le);
    rest_le = rest_le-cons x xs (total_order b.value) b.best_le b.rest_le;
    later_lt =
        later_lt-cons x xs (total_order b.value) r i
          (λ k. absurd (omega (arith, index_ge b (omega arith)))) b.later_lt;
  }

argmax_from-IsBest :
    (bi bv i : ℕ) (xs : Logits) → bi < i → IsBest bi bv i xs (argmax_from bi bv i xs)
unfolding argmax_from
argmax_from-IsBest bi bv i [] h = record {
  value = bv;
  where_it_is = inl (refl, refl);
  best_le = omega arith;
  rest_le = λ j w e. cc;
  later_lt = λ j w e. cc;
}
argmax_from-IsBest bi bv i (x ∷ xs) h = elim (Bool-cases (ltb (total_order x) (total_order bv))) [
  | inl greater ↦ rw greater (
      IsBest-keep bi bv i x xs _ h (ltb→lt _ _ greater)
        (argmax_from-IsBest bi bv (i + 1) xs (omega arith)))
  | inr replaced ↦ rw replaced (
      IsBest-replace bi bv i x xs _ h (ltb→le _ _ replaced)
        (argmax_from-IsBest i x (i + 1) xs (omega arith)))
]

-- The pick of `argmax`: an index of the logits whose value is the greatest in the order of
-- `total_cmp`, and greater than every later one.
pub record IsArgmax (logits : Logits) (r : ℕ) : Type 0 where
  pub value : ℕ
  pub at : get_elem? logits r ≡ some value
  pub greatest : (j w : ℕ) → get_elem? logits j ≡ some w → total_order w ≤ total_order value
  pub last : (j w : ℕ) → get_elem? logits j ≡ some w → r < j → total_order w < total_order value

get_elem?-lt : (xs : Logits) (j : ℕ) {w : ℕ} → get_elem? xs j ≡ some w → j < length xs
get_elem?-lt [] j e = cc
get_elem?-lt (x ∷ xs) zero e = omega arith
get_elem?-lt (x ∷ xs) (suc j) e = omega (arith, get_elem?-lt xs j e)

IsArgmax-IsBest : (x : ℕ) (xs : Logits) (r : ℕ) → IsBest 0 x 1 xs r → IsArgmax (x ∷ xs) r
IsArgmax-IsBest x xs r b = record {
  value = b.value;
  at = elim b.where_it_is [
    | inl (p, q) ↦ rw p (ap some (sym q))
    | inr (j, p, q) ↦ let e : r ≡ suc j = omega arith in rw e q
  ];
  greatest = rest_le-cons x xs (total_order b.value) b.best_le b.rest_le;
  last = λ j w e k.
      later_lt-cons x xs (total_order b.value) r 0 (λ k. absurd (omega arith))
        (λ j w e k. b.later_lt j w e (omega arith)) j w e (omega arith);
}

-- On logits that are not empty, and no more than an i32 can index, `argmax` picks the last of the
-- greatest.
pub argmax-IsArgmax :
    (logits : Logits) → 0 < length logits → length logits ≤ 2 ^ 31 → IsArgmax logits (argmax logits)
unfolding argmax
argmax-IsArgmax [] h k = absurd (omega arith)
argmax-IsArgmax (x ∷ xs) h k =
    let b = IsArgmax-IsBest x xs _ (argmax_from-IsBest 0 x 1 xs (omega arith)) in
    let small : argmax_from 0 x 1 xs % 2 ^ 32 ≡ argmax_from 0 x 1 xs =
      omega (arith, get_elem?-lt (x ∷ xs) (argmax_from 0 x 1 xs) b.at) in
    rw small b
