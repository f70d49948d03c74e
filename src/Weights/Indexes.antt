-- ===== src/Weights/Indexes.antt =====
-- Which blocks `block_indexes` finds.
use ds4_rs.Base.{
  ℕ, ◌<◌, ◌≡◌, ◌∙◌, refl, ap, List, [], ◌∷◌, ◌++◌, Option, none, some, Bool, true, false, ◌==◌,
  ◌||◌, All, Bool-cases, inl, inr, arith,
}
use ds4_rs.Gguf.Tensors.{GgufTensor, GgufModel}
use ds4_rs.Text.{any}
use ds4_rs.Weights.{
  member, insert_sorted, sort, add_index, collect_indexes, block_index, block_indexes,
}

-- Each number is smaller than all that follow.
abbrev pub IsAscending : List ℕ → Type 0
IsAscending [] = Unit
IsAscending (i ∷ is) = All (λ j. i < j) is × IsAscending is

abbrev IsDistinct : List ℕ → Type 0
IsDistinct [] = Unit
IsDistinct (i ∷ is) = (member i is ≡ false) × IsDistinct is

abbrev pub has_index : ℕ → Option ℕ → Bool
has_index i none = false
has_index i (some j) = i == j

member-insert_sorted :
    (k i : ℕ) (js : List ℕ) → member k (insert_sorted i js) ≡ (k == i || member k js)
unfolding member insert_sorted
member-insert_sorted k i [] = refl
member-insert_sorted k i (j ∷ js) = ground (arith, member-insert_sorted k i js)

All-insert_sorted :
    (k i : ℕ) (js : List ℕ) → k < i → All (λ j. k < j) js → All (λ j. k < j) (insert_sorted i js)
unfolding insert_sorted
All-insert_sorted k i [] h hs = (h, tt)
All-insert_sorted k i (j ∷ js) h hs = ground (arith, All-insert_sorted k i js)

All-weaken : (i j : ℕ) (js : List ℕ) → i < j → All (λ k. j < k) js → All (λ k. i < k) js
All-weaken i j [] h hs = tt
All-weaken i j (k ∷ js) h hs = (omega (arith, hs.0), All-weaken i j js h hs.1)

insert_sorted-IsAscending :
    (i : ℕ) (js : List ℕ) → member i js ≡ false → IsAscending js → IsAscending (insert_sorted i js)
unfolding member insert_sorted
insert_sorted-IsAscending i [] new h = (tt, tt)
insert_sorted-IsAscending i (j ∷ js) new h =
    ground (arith, All-weaken i j js, All-insert_sorted j i js, insert_sorted-IsAscending i js)

member-sort : (k : ℕ) (xs : List ℕ) → member k (sort xs) ≡ member k xs
unfolding member sort
member-sort k [] = refl
member-sort k (x ∷ xs) =
    member-insert_sorted k x (sort xs) ∙ ap (λ b. k == x || b) (member-sort k xs)

sort-IsAscending : (xs : List ℕ) → IsDistinct xs → IsAscending (sort xs)
unfolding sort
sort-IsAscending [] h = tt
sort-IsAscending (x ∷ xs) h =
    insert_sorted-IsAscending x (sort xs) (member-sort x xs ∙ h.0) (sort-IsAscending xs h.1)

member-append : (k i : ℕ) (xs : List ℕ) → member k (xs ++ (i ∷ [])) ≡ (k == i || member k xs)
unfolding member
member-append k i [] = refl
member-append k i (x ∷ xs) = ground (arith, member-append k i xs)

append-IsDistinct :
    (i : ℕ) (xs : List ℕ) → member i xs ≡ false → IsDistinct xs → IsDistinct (xs ++ (i ∷ []))
unfolding member
append-IsDistinct i [] new h = (refl, tt)
append-IsDistinct i (x ∷ xs) new h = ground (arith, member-append x i xs, append-IsDistinct i xs)

add_index-IsDistinct : (o : Option ℕ) (xs : List ℕ) → IsDistinct xs → IsDistinct (add_index o xs)
add_index-IsDistinct none xs h = h
add_index-IsDistinct (some i) xs h = ground (arith, append-IsDistinct i xs)

member-add_index :
    (k : ℕ) (o : Option ℕ) (xs : List ℕ)
    → member k (add_index o xs) ≡ (has_index k o || member k xs)
member-add_index k none xs = refl
member-add_index k (some i) xs = elim (Bool-cases (member i xs)) [
  | inl old ↦ ground (arith)
  | inr new ↦ rw new (member-append k i xs)
]

collect_indexes-IsDistinct :
    (ts : List GgufTensor) (xs : List ℕ) → IsDistinct xs → IsDistinct (collect_indexes ts xs)
unfolding collect_indexes
collect_indexes-IsDistinct [] xs h = h
collect_indexes-IsDistinct (t ∷ ts) xs h =
    collect_indexes-IsDistinct ts (add_index (block_index t.name) xs)
      (add_index-IsDistinct (block_index t.name) xs h)

member-collect_indexes :
    (k : ℕ) (ts : List GgufTensor) (xs : List ℕ)
    → member k (collect_indexes ts xs)
      ≡ (any (λ t. has_index k (block_index t.name)) ts || member k xs)
unfolding collect_indexes
member-collect_indexes k [] xs = refl
member-collect_indexes k (t ∷ ts) xs =
    member-collect_indexes k ts (add_index (block_index t.name) xs)
    ∙ ground (arith, member-add_index k (block_index t.name) xs)

or_empty : (k : ℕ) (b : Bool) → (b || member k []) ≡ b
unfolding member
or_empty k true = refl
or_empty k false = refl

-- The block indexes of a model stand in ascending order, none of them twice, and a number is one of
-- them just when some tensor of the model is named `blk.`, the number, a dot and any rest.
pub block_indexes-IsAscending :
    (model : GgufModel)
    → IsAscending (block_indexes model)
      × ((k : ℕ)
          → member k (block_indexes model)
            ≡ any (λ t. has_index k (block_index t.name)) model.tensors)
unfolding block_indexes
block_indexes-IsAscending model = (
  sort-IsAscending (collect_indexes model.tensors [])
      (collect_indexes-IsDistinct model.tensors [] tt),
  λ k.
      member-sort k (collect_indexes model.tensors [])
      ∙ (member-collect_indexes k model.tensors []
          ∙ or_empty k (any (λ t. has_index k (block_index t.name)) model.tensors)),
)
