-- ===== src/Gguf/Sizes.antt =====
-- The arithmetic of the tensor table.
use native.Mathlib.Nat.{
  mul_assoc, mod-lt, div-add-mod, le-div_iff_mul-le, mul-mod_right, lt-div-mul-add, div-mul-le_self,
}
use ds4_rs.Base.{
  ◌&&◌, leb→le, ◌||◌, ℕ, zero, suc, ◌+◌, ◌*◌, ◌/◌, ◌%◌, ◌^◌, ◌-◌, ◌≤◌, ◌<◌, ◌≡◌, refl, List, [],
  ◌∷◌, Option, none, some, Bool, true, false, arith, ltb, leb, ◌==◌, inl, inr, Bool-cases, lt→ltb,
  ap, ◌∙◌,
}
use ds4_rs.Error.{ok}
use ds4_rs.Bytes.{Bytes}
use ds4_rs.Gguf.Reader.{read_u64}
use ds4_rs.Gguf.Values.{saturating_mul}
use ds4_rs.Gguf.Alignment.{Yields, Yields-bind, Yields-ok, Yields-require}
use ds4_rs.Gguf.Tensors.{
  find_shape, block_shape_table, read_dims, align_up, block_shape, tensor_nbytes, in_u64, and_then,
}

next_multiple :
    (value alignment : ℕ)
    → 0 < alignment
    → (value + (alignment - value % alignment)) % alignment ≡ 0
next_multiple value alignment h =
    let split : alignment * (value / alignment) + value % alignment ≡ value =
      div-add-mod value alignment in
    let below : value % alignment < alignment = mod-lt value h in
    let next : value + (alignment - value % alignment) ≡ alignment * suc (value / alignment) =
      omega (arith, split, below) in
    rw next (mul-mod_right alignment (suc (value / alignment)))

-- For an alignment that is not zero, `align_up` answers the least multiple of it that is not below
-- the value, where the sum of the two fits a u64.
pub align_up-least :
    (value alignment : ℕ)
    → 0 < alignment
    → value + alignment < 2 ^ 64
    → (r : ℕ) × (align_up value alignment ≡ ok r)
      × (value ≤ r)
      × (r < value + alignment)
      × (r % alignment ≡ 0)
unfolding align_up
align_up-least value alignment h fits =
    let below : value % alignment < alignment = mod-lt value h in
    let given : (alignment == 0) ≡ false = ground arith in
    elim (Bool-cases (value % alignment == 0)) [
      | inl whole ↦
          (value, rw (given, whole) refl, omega arith, omega (arith, h), ground (arith, whole))
      | inr part ↦
          let up : ℕ = value + (alignment - value % alignment) in
          (
            up,
            rw (given, part, lt→ltb up (2 ^ 64) (omega (arith, below, fits))) refl,
            omega arith,
            ground (arith, part, below),
            next_multiple value alignment h,
          )
    ]

positive_rows : List (ℕ × ℕ × ℕ) → Bool
positive_rows [] = true
positive_rows (row ∷ rows) = ltb 0 row.1 && positive_rows rows

find_shape-IsShape :
    (rows : List (ℕ × ℕ × ℕ)) (tensor_type block_elems block_bytes : ℕ)
    → positive_rows rows ≡ true
    → find_shape rows tensor_type ≡ some (block_elems, block_bytes)
    → 0 < block_elems
unfolding find_shape positive_rows
find_shape-IsShape [] tensor_type be bb h e = cc
find_shape-IsShape ((number, a, b) ∷ rows) tensor_type be bb h e =
    ground (arith, e, h, find_shape-IsShape rows tensor_type be bb)

block_shape-positive :
    (tensor_type block_elems block_bytes : ℕ)
    → block_shape tensor_type ≡ some (block_elems, block_bytes)
    → 0 < block_elems
unfolding block_shape block_shape_table positive_rows
block_shape-positive tensor_type be bb e =
    find_shape-IsShape block_shape_table tensor_type be bb refl e

in_u64-eq-some : (n m : ℕ) → in_u64 n ≡ some m → (m ≡ n) × (m < 2 ^ 64)
in_u64-eq-some n m e = ground arith

pub and_then-eq-some :
    {A B : Type 0} (o : Option A) (f : A → Option B) {b : B}
    → and_then o f ≡ some b
    → (a : A) × (o ≡ some a) × (f a ≡ some b)
and_then-eq-some none f e = cc
and_then-eq-some (some a) f e = (a, refl, e)

abbrev sized_as : ℕ → ℕ → ℕ → Option ℕ
sized_as be bb elements = and_then (in_u64 (elements + (be - 1))) λ sum. in_u64 (sum / be * bb)

sized_as-eq-some :
    (be bb elements bytes : ℕ)
    → sized_as be bb elements ≡ some bytes
    → (bytes ≡ (elements + (be - 1)) / be * bb) × (bytes < 2 ^ 64)
sized_as-eq-some be bb elements bytes e =
    let (sum, e1, e2) =
      and_then-eq-some (in_u64 (elements + (be - 1))) (λ s. in_u64 (s / be * bb)) e in
    let (same, _) = in_u64-eq-some (elements + (be - 1)) sum e1 in
    let (exact, small) = in_u64-eq-some (sum / be * bb) bytes e2 in
    (exact ∙ ap (λ s. s / be * bb) same, small)

-- The size of a tensor is a whole number of blocks, the least one that holds its elements.
pub tensor_nbytes-covers :
    (tensor_type elements bytes : ℕ)
    → tensor_nbytes tensor_type elements ≡ some bytes
    → (block_elems block_bytes blocks : ℕ) × (block_shape tensor_type
        ≡ some (block_elems, block_bytes))
      × (bytes ≡ blocks * block_bytes)
      × (elements ≤ blocks * block_elems)
      × (blocks * block_elems < elements + block_elems)
      × (bytes < 2 ^ 64)
unfolding tensor_nbytes
tensor_nbytes-covers tensor_type elements bytes e =
    let ((be, bb), shape, sized) =
      and_then-eq-some (block_shape tensor_type) (λ s. sized_as s.0 s.1 elements) e in
    let positive : 0 < be = block_shape-positive tensor_type be bb shape in
    let above : elements + (be - 1) < (elements + (be - 1)) / be * be + be =
      lt-div-mul-add positive in
    let below : (elements + (be - 1)) / be * be ≤ elements + (be - 1) =
      div-mul-le_self (elements + (be - 1)) be in
    let exact = sized_as-eq-some be bb elements bytes sized in
    (
      be,
      bb,
      (elements + (be - 1)) / be,
      shape,
      exact.0,
      omega (arith, above, positive),
      omega (arith, below, positive),
      exact.1,
    )

pub product : List ℕ → ℕ
product [] = 1
product (dim ∷ dims) = dim * product dims

suc_test : (n : ℕ) (b : Bool) → 0 < n → (n == 0 || b) ≡ true → b ≡ true
suc_test n b h e = ground arith

zero-lt_suc : (n : ℕ) → 0 < suc n
zero-lt_suc n = omega arith

saturating_mul-exact :
    (elements dim : ℕ)
    → (dim == 0 || leb elements ((2 ^ 64 - 1) / dim)) ≡ true
    → saturating_mul elements dim ≡ elements * dim
saturating_mul-exact elements zero e = omega arith
saturating_mul-exact elements (suc dim) e =
    let bound : elements ≤ (2 ^ 64 - 1) / suc dim =
      leb→le elements ((2 ^ 64 - 1) / suc dim) (suc_test (suc dim) _ (omega arith) e) in
    let fits : elements * suc dim ≤ 2 ^ 64 - 1 = (le-div_iff_mul-le (zero-lt_suc dim)).0 bound in
    omega (arith, fits)

-- The element count that a tensor is read with is the product of its dimensions, never a
-- saturated one.
pub read_dims-product :
    (file : Bytes) (ndim elements pos : ℕ)
    → Yields (λ r. r.1 ≡ elements * product r.0) (read_dims file ndim elements pos)
unfolding read_dims product
read_dims-product file zero elements pos =
    Yields-ok (λ r. r.1 ≡ elements * product r.0) ([], elements) pos (omega arith)
read_dims-product file (suc ndim) elements pos =
    let Counted : List ℕ × ℕ → Type 0 = λ r. r.1 ≡ elements * product r.0 in
    Yields-bind Counted (read_u64 file pos) _ λ dim p _. Yields-require Counted _ _ _ λ test.
      Yields-bind Counted (read_dims file ndim (saturating_mul elements dim) p) _ λ rest q e.
        let inner : rest.1 ≡ saturating_mul elements dim * product rest.0 =
          (read_dims-product file ndim (saturating_mul elements dim) p).holds rest q e in
        Yields-ok Counted (dim ∷ rest.0, rest.1) q
          (inner
            ∙ ap (λ n. n * product rest.0) (saturating_mul-exact elements dim test)
            ∙ mul_assoc elements dim (product rest.0))
