-- ===== src/Weights.antt =====
-- src/weights.rs: which tensors of a model file the inference needs, and how they are looked up. An
-- f32 is its bit pattern, so that 0.0 is 0.
pub mod Tensors
pub mod Indexes
pub mod Blocks
pub mod Named
use ds4_rs.Base.{
  ℕ, zero, suc, ◌+◌, ◌*◌, ◌^◌, ◌%◌, List, [], ◌∷◌, ◌++◌, Option, none, some, Bool, true, false, not,
  ◌&&◌, ◌||◌, ◌==◌, ltb, leb, if◌then◌else◌, length, take, replicate, get_elem?, String,
}
use ds4_rs.Bytes.{Bytes}
use ds4_rs.Error.{Result, ok, err, panic, protocol, with_text, ◌>>=◌}
use ds4_rs.Gguf.Tensors.{
  GgufTensor, GgufModel, tensor, tensor_bytes, and_then, in_u64, unwrap_or_zero,
}
use ds4_rs.Gguf.Values.{saturating_mul}
use ds4_rs.Kv.Payload.{chunk_words}
use ds4_rs.Text.{utf8, strip_prefix, split_once, parse_usize, decimal, first}
use ds4_rs.Weights.Tensors.{
  BoundTensor, BoundAttentionBlock, BoundFfnBlock, BoundBlock, BoundWeights, bound, bind_tensor,
  to_option, block_name, bind_attention_block, bind_ffn_block,
}

-- The index of a tensor name `blk.<index>.<rest>`.
unfoldable pub block_index : Bytes → Option ℕ
block_index name =
    and_then (strip_prefix name (utf8 "blk."))
      λ rest. and_then (split_once rest 46) λ parts. parse_usize parts.0

-- `indexes.contains(&index)`
unfoldable pub member : ℕ → List ℕ → Bool
member i [] = false
member i (j ∷ js) = i == j || member i js

abbrev pub add_index : Option ℕ → List ℕ → List ℕ
add_index none indexes = indexes
add_index (some i) indexes = if member i indexes then indexes else indexes ++ (i ∷ [])

-- The loop of `block_indexes`, over the indexes so far.
unfoldable pub collect_indexes : List GgufTensor → List ℕ → List ℕ
collect_indexes [] indexes = indexes
collect_indexes (t ∷ ts) indexes = collect_indexes ts (add_index (block_index t.name) indexes)

unfoldable pub insert_sorted : ℕ → List ℕ → List ℕ
insert_sorted i [] = i ∷ []
insert_sorted i (j ∷ js) = let rest = insert_sorted i js in if leb i j then i ∷ j ∷ js else j ∷ rest

-- `indexes.sort_unstable()`
unfoldable pub sort : List ℕ → List ℕ
sort [] = []
sort (i ∷ is) = insert_sorted i (sort is)

unfoldable pub block_indexes : GgufModel → List ℕ
block_indexes model = sort (collect_indexes model.tensors [])

abbrev pub bound_block :
    GgufModel → ℕ → Result BoundAttentionBlock → List BoundBlock → List BoundBlock
bound_block model index (ok attention) blocks =
    record { index = index; attention = attention; ffn = to_option (bind_ffn_block model index) }
    ∷ blocks
bound_block model index (err e) blocks = blocks
bound_block model index panic blocks = blocks

-- The loop of `bind_blocks`.
unfoldable pub bind_each : GgufModel → List ℕ → List BoundBlock
bind_each model [] = []
bind_each model (index ∷ rest) =
    bound_block model index (bind_attention_block model index) (bind_each model rest)

unfoldable pub bind_blocks : GgufModel → List BoundBlock
bind_blocks model = bind_each model (block_indexes model)

abbrev or_bind : Result BoundTensor → Result BoundTensor → Result BoundTensor
or_bind (ok t) other = ok t
or_bind (err e) other = other
or_bind panic other = panic

unfoldable pub bind_weights : GgufModel → Result BoundWeights
bind_weights model = do
  token_embd ←
      or_bind (bind_tensor model (utf8 "token_embd.weight"))
        (bind_tensor model (utf8 "tok_embeddings.weight"))
  output ← bind_tensor model (utf8 "output.weight")
  ok (record {
    token_embd = token_embd;
    output = output;
    output_hc_fn = to_option (bind_tensor model (utf8 "output_hc_fn.weight"));
    output_hc_scale = to_option (bind_tensor model (utf8 "output_hc_scale.weight"));
    output_hc_base = to_option (bind_tensor model (utf8 "output_hc_base.weight"));
    output_norm = to_option (bind_tensor model (utf8 "output_norm.weight"));
    blocks = bind_blocks model;
  })

-- BoundWeights::block_count
unfoldable pub block_count : BoundWeights → ℕ
block_count weights = length weights.blocks

-- The bytes of a bound tensor, found again by its name.
abbrev pub bytes_of : GgufModel → BoundTensor → Option Bytes
bytes_of model t = and_then (tensor model t.name) (tensor_bytes model)

unfoldable pub fold_checksum : ℕ → Bytes → ℕ
fold_checksum acc [] = acc
fold_checksum acc (byte ∷ bytes) = fold_checksum ((acc * 131 + byte) % 2 ^ 64) bytes

abbrev prefix_checksum : ℕ → Option Bytes → ℕ
prefix_checksum max_bytes none = 0
prefix_checksum max_bytes (some source) = fold_checksum 0 (take max_bytes source)

unfoldable pub checksum_prefix : GgufModel → BoundTensor → ℕ → ℕ
checksum_prefix model t max_bytes = prefix_checksum max_bytes (bytes_of model t)

-- `usize` and u64 have the same width, so that `usize::try_from` answers each dimension.
unfoldable pub decode_tensor_1d_or_zeros : GgufModel → BoundTensor → List ℕ
decode_tensor_1d_or_zeros model t = replicate (unwrap_or_zero (first t.dims)) 0

unfoldable pub decode_tensor_2d_or_zeros : GgufModel → BoundTensor → List ℕ
decode_tensor_2d_or_zeros model t =
    replicate (saturating_mul (unwrap_or_zero (first t.dims)) (unwrap_or_zero (get_elem? t.dims 1)))
      0

abbrev decoded_words : Bytes → ℕ → Option (List ℕ)
decoded_words bytes expected =
    if ltb (length bytes) expected then none else some (chunk_words (take expected bytes))

unfoldable pub decode_tensor_i32_2d : GgufModel → BoundTensor → Option (List ℕ)
decode_tensor_i32_2d model t =
    if not (t.tensor_type == 26) || not (length t.dims == 2)
    then none
    else and_then (first t.dims) λ width. and_then (get_elem? t.dims 1) λ rows.
      and_then (bytes_of model t) λ bytes.
        and_then (in_u64 (width * rows))
          λ elements. and_then (in_u64 (elements * 4)) (decoded_words bytes)
