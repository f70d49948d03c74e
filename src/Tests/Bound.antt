-- ===== src/Tests/Bound.antt =====
-- src/weights.rs on small models.
use ds4_rs.Base.{
  List, get_elem?, ◌++◌, ◌+◌, ◌^◌, ◌<◌, true, ℕ, ◌≡◌, refl, [], ◌∷◌, some, none, map, list_eq,
}
use ds4_rs.Bytes.{Bytes}
use ds4_rs.Error.{ok, Result}
use ds4_rs.Gguf.Tensors.{GgufTensor, GgufModel, tensor}
use ds4_rs.Maps.{lookup}
use ds4_rs.Tests.Data.{model_tensor, loaded_model}
use ds4_rs.Text
use ds4_rs.Text.{utf8, any, filter, strip_prefix, split_once, parse_usize, parse_digits}
use ds4_rs.Weights.Blocks.{bind_weights-blocks, has_all, attention_names}
use ds4_rs.Weights.Indexes.{IsAscending}
use ds4_rs.Weights.{
  bind_weights, bind_blocks, bind_each, block_indexes, block_index, collect_indexes, member, sort,
  insert_sorted,
}
use ds4_rs.Weights.Tensors.{BoundWeights, BoundBlock, bind_tensor, bind_attention_block, block_name}

abbrev named : Bytes → GgufTensor
named name = record model_tensor { name = name }

abbrev all_names : List Bytes
all_names =
    utf8 "output.weight"
    ∷ utf8 "token_embd.weight"
    ∷ utf8 "blk.7.ffn_norm.weight"
    ∷ attention_names 12

abbrev indexed : ℕ → List Bytes → List (Bytes × ℕ)
indexed i [] = []
indexed i (name ∷ names) = (name, i) ∷ indexed (i + 1) names

-- The output, the token embedding, what attention needs in block 12, and a tensor of block 7, which
-- lacks the rest.
abbrev block_model : GgufModel
block_model = record loaded_model {
  tensors = map named all_names;
  tensors_by_name = indexed 0 all_names;
}

abbrev or_empty : Result BoundWeights → BoundWeights
or_empty (ok w) = w
or_empty r = record {
  token_embd = record { name = []; dims = []; tensor_type = 0; abs_offset = 0 };
  output = record { name = []; dims = []; tensor_type = 0; abs_offset = 0 };
  output_hc_fn = none;
  output_hc_scale = none;
  output_hc_base = none;
  output_norm = none;
  blocks = [];
}

abbrev block_weights : BoundWeights
block_weights = or_empty (bind_weights block_model)

block_bound :
    (bind_weights block_model ≡ ok block_weights)
    × (map BoundBlock.index block_weights.blocks ≡ 12 ∷ [])
unfolding bind_weights bind_tensor bind_blocks bind_each bind_attention_block block_indexes
    block_index collect_indexes member sort insert_sorted block_name tensor lookup list_eq
    strip_prefix split_once parse_usize parse_digits Text.decimal Text.decimal_from
block_bound = (refl, refl)

bind_weights-blocks_example :
    (map BoundBlock.index block_weights.blocks
      ≡ filter (λ i. has_all block_model (attention_names i)) (block_indexes block_model))
    × IsAscending (block_indexes block_model)
    × ((i n : ℕ) (t : GgufTensor) (rest : Bytes)
        → get_elem? block_model.tensors n ≡ some t
        → t.name ≡ utf8 "blk." ++ (Text.decimal i ++ (46 ∷ rest))
        → i < 2 ^ 64
        → member i (block_indexes block_model) ≡ true)
bind_weights-blocks_example = bind_weights-blocks block_model block_weights block_bound.0
