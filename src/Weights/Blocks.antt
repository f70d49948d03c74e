-- ===== src/Weights/Blocks.antt =====
-- src/weights.rs: which tensors decide whether `bind_weights` succeeds and which blocks it keeps.
use ds4_rs.Base.{
  ℕ, zero, suc, ◌^◌, ◌<◌, ◌++◌, some, get_elem?, Bool-cases, ==_self, ◌≡◌, ◌∙◌, sym, refl, ap, List,
  [], ◌∷◌, Option-cases, map, Bool, true, ◌&&◌, ◌||◌, inl, inr, if◌then◌else◌,
}
use ds4_rs.Bytes.{Bytes}
use ds4_rs.Error.{Result, ok, err, panic, ◌>>=◌, >>=-eq-ok, ok-value}
use ds4_rs.Gguf.Tensors.{GgufModel, GgufTensor, tensor}
use ds4_rs.Text.{utf8, decimal, filter, any, is_some}
use ds4_rs.Weights.Named.{block_index-decimal}
use ds4_rs.Weights.Indexes.{IsAscending, has_index, block_indexes-IsAscending}
use ds4_rs.Weights.{
  member, block_index, bound_block, bind_each, bind_blocks, block_indexes, bind_weights, or_bind,
}
use ds4_rs.Weights.Tensors.{
  BoundTensor, BoundAttentionBlock, BoundBlock, BoundWeights, bind_tensor, bind_attention_block,
  block_name, to_option,
}

abbrev pub is_ok {ℓ} : {A : Type ℓ} → Result A → Bool
is_ok r = is_some (to_option r)

-- The model has a tensor of this name.
abbrev pub has : GgufModel → Bytes → Bool
has model name = is_some (tensor model name)

abbrev pub has_all : GgufModel → List Bytes → Bool
has_all model [] = true
has_all model (name ∷ names) = has model name && has_all model names

-- The tensors without which a block has no attention.
abbrev pub attention_names : ℕ → List Bytes
attention_names i =
    block_name i "attn_norm.weight"
    ∷ block_name i "attn_q_a_norm.weight"
    ∷ block_name i "attn_kv_a_norm.weight"
    ∷ block_name i "attn_sinks.weight"
    ∷ block_name i "attn_q_a.weight"
    ∷ block_name i "attn_q_b.weight"
    ∷ block_name i "attn_kv.weight"
    ∷ block_name i "attn_output_a.weight"
    ∷ block_name i "attn_output_b.weight"
    ∷ []

module _ (model : GgufModel) where
  is_ok-bind_tensor : (name : Bytes) → is_ok (bind_tensor model name) ≡ has model name
  unfolding bind_tensor
  is_ok-bind_tensor name = elim (Option-cases (tensor model name)) [
    | inl missing ↦ rw missing refl
    | inr (t, found) ↦ rw found refl
  ]

  -- A chain of lookups succeeds when each of them does.
  is_ok-bind {ℓ} :
      {B : Type ℓ} (name : Bytes) (next : BoundTensor → Result B) (b : Bool)
      → ((t : BoundTensor) → is_ok (next t) ≡ b)
      → is_ok (bind_tensor model name >>= next) ≡ (has model name && b)
  unfolding bind_tensor
  is_ok-bind name next b later = elim (Option-cases (tensor model name)) [
    | inl missing ↦ rw missing refl
    | inr (t, found) ↦ rw found (later _)
  ]

  is_ok-bind_attention_block :
      (i : ℕ) → is_ok (bind_attention_block model i) ≡ has_all model (attention_names i)
  unfolding bind_attention_block
  is_ok-bind_attention_block i = is_ok-bind _ _ _ λ t1. is_ok-bind _ _ _ λ t2.
      is_ok-bind _ _ _ λ t3. is_ok-bind _ _ _ λ t4. is_ok-bind _ _ _ λ t5.
        is_ok-bind _ _ _
          λ t6. is_ok-bind _ _ _ λ t7. is_ok-bind _ _ _ λ t8. is_ok-bind _ _ _ λ t9. refl

  index_of-bound_block :
      (i : ℕ) (r : Result BoundAttentionBlock) (blocks : List BoundBlock)
      → map BoundBlock.index (bound_block model i r blocks)
        ≡ (if is_ok r then i ∷ map BoundBlock.index blocks else map BoundBlock.index blocks)
  index_of-bound_block i (ok attention) blocks = refl
  index_of-bound_block i (err e) blocks = refl
  index_of-bound_block i panic blocks = refl

  index_of-bind_each :
      (is : List ℕ)
      → map BoundBlock.index (bind_each model is)
        ≡ filter (λ i. has_all model (attention_names i)) is
  unfolding bind_each
  index_of-bind_each [] = refl
  index_of-bind_each (i ∷ is) =
      index_of-bound_block i (bind_attention_block model i) (bind_each model is)
      ∙ rw (is_ok-bind_attention_block i, index_of-bind_each is) refl

  is_ok-or_bind {ℓ} :
      {B : Type ℓ} (name other : Bytes) (next : BoundTensor → Result B) (b : Bool)
      → ((t : BoundTensor) → is_ok (next t) ≡ b)
      → is_ok (or_bind (bind_tensor model name) (bind_tensor model other) >>= next)
        ≡ ((has model name || has model other) && b)
  unfolding bind_tensor
  is_ok-or_bind name other next b later = elim (Option-cases (tensor model name)) [
    | inr (t, found) ↦ rw found (later _)
    | inl missing ↦ elim (Option-cases (tensor model other)) [
      | inr (t, found) ↦ rw (missing, found) (later _)
      | inl neither ↦ rw (missing, neither) refl
    ]
  ]

  -- The weights are bound just when the model has the output tensor, and the token embedding under
  -- one of its two names.
  is_ok-bind_weights : is_ok (bind_weights model) ≡ (
      (has model (utf8 "token_embd.weight") || has model (utf8 "tok_embeddings.weight"))
      && (has model (utf8 "output.weight") && true))
  unfolding bind_weights
  is_ok-bind_weights = is_ok-or_bind _ _ _ _ λ t. is_ok-bind _ _ _ λ u. refl

  blocks-bind_weights :
      (w : BoundWeights) → bind_weights model ≡ ok w → w.blocks ≡ bind_blocks model
  unfolding bind_weights
  blocks-bind_weights w e =
      let (t, _, e1) =
        >>=-eq-ok
          (or_bind (bind_tensor model (utf8 "token_embd.weight"))
            (bind_tensor model (utf8 "tok_embeddings.weight")))
          _ e in
      let (u, _, e2) = >>=-eq-ok (bind_tensor model (utf8 "output.weight")) _ e1 in
      sym (ap BoundWeights.blocks (ok-value e2))

any-here :
    {A : Type 0} (test : A → Bool) (xs : List A) (n : ℕ) (x : A)
    → get_elem? xs n ≡ some x
    → test x ≡ true
    → any test xs ≡ true
any-here test [] n x there holds = cc
any-here test (y ∷ ys) zero x there holds = (let same : y ≡ x = cc in rw (same, holds) refl)
any-here test (y ∷ ys) (suc n) x there holds = elim (Bool-cases (test y)) [
  | inl already ↦ rw already refl
  | inr later ↦ rw later (any-here test ys n x there holds)
]

-- The blocks of weights that are bound are, in ascending order, those block indexes of the model for
-- which it has all nine tensors that attention needs; and where a tensor of the model is named `blk.`,
-- a number that fits a u64 in decimals, a dot and any rest, the number is a block index.
pub bind_weights-blocks :
    (model : GgufModel) (w : BoundWeights)
    → bind_weights model ≡ ok w
    → (map BoundBlock.index w.blocks
        ≡ filter (λ i. has_all model (attention_names i)) (block_indexes model))
      × IsAscending (block_indexes model)
      × ((i n : ℕ) (t : GgufTensor) (rest : Bytes)
          → get_elem? model.tensors n ≡ some t
          → t.name ≡ utf8 "blk." ++ (decimal i ++ (46 ∷ rest))
          → i < 2 ^ 64
          → member i (block_indexes model) ≡ true)
unfolding bind_blocks
bind_weights-blocks model w e = (
  ap (map BoundBlock.index) (blocks-bind_weights model w e)
      ∙ index_of-bind_each model (block_indexes model),
  (block_indexes-IsAscending model).0,
  λ i n t rest there named small.
      (block_indexes-IsAscending model).1 i
      ∙ any-here (λ u. has_index i (block_index u.name)) model.tensors n t there
          (rw (named, block_index-decimal i rest small) (==_self i)),
)
