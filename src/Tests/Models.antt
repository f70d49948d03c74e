-- ===== src/Tests/Models.antt =====
-- src/gguf.rs on a small file.
use ds4_rs.Base.{ℕ, ◌+◌, ◌*◌, ◌^◌, ◌≤◌, ◌<◌, ◌≡◌, refl, [], ◌∷◌, some, arith, length, list_eq}
use ds4_rs.Bytes.{Bytes, from_le, get_range, slice}
use ds4_rs.Error.{ok, checked_add}
use ds4_rs.Error.NoPanic.{NoPanic}
use ds4_rs.Gguf.Load.{load_model, read_entries, read_entry, read_value, known, arm}
use ds4_rs.Gguf.Names.{tensor-load_model}
use ds4_rs.Gguf.Placed.{tensor_bytes-load_model}
use ds4_rs.Gguf.Reader
use ds4_rs.Gguf.Safety.{NoPanic-load_model}
use ds4_rs.Gguf.Sizes.{tensor_nbytes-covers}
use ds4_rs.Gguf.Tensors.{
  GgufTensor, align_up, block_shape, tensor_nbytes, tensor, tensor_bytes, read_tensors, read_tensor,
  read_dims, place_tensors, parse_tensors, find_shape, block_shape_table,
}
use ds4_rs.Gguf.Values.{from_u32}
use ds4_rs.Maps.{insert}
use ds4_rs.Tests.Data.{model_file, model_tensor, loaded_model, model_file-IsByte}
use ds4_rs.Utf8.{from_utf8, utf8_valid}

pub load_model-model_file : load_model [] model_file ≡ ok loaded_model
unfolding load_model Reader.read_u32 Reader.read_exact checked_add slice from_le Reader.read_u64
    read_entries read_entry Reader.read_string from_utf8 utf8_valid from_u32 read_value arm known
    list_eq parse_tensors get_range align_up block_shape block_shape_table find_shape place_tensors
    read_dims read_tensor read_tensors tensor_nbytes insert
load_model-model_file = refl

NoPanic-load_model_example : NoPanic (load_model [] model_file)
NoPanic-load_model_example = NoPanic-load_model [] model_file model_file-IsByte (omega arith)

tensor_bytes-load_model_example :
    (b : Bytes) × (tensor_bytes loaded_model model_tensor ≡ some b) × (length b ≡ 2)
tensor_bytes-load_model_example =
    tensor_bytes-load_model [] model_file loaded_model 0 model_tensor model_file-IsByte
      (omega arith) load_model-model_file refl (λ e. omega arith)

tensor-load_model_example :
    (found : GgufTensor) × (tensor loaded_model (119 ∷ []) ≡ some found) × (found.name ≡ 119 ∷ [])
tensor-load_model_example =
    tensor-load_model [] model_file loaded_model 0 model_tensor model_file-IsByte
      load_model-model_file refl

q8_0_size : tensor_nbytes 8 70 ≡ some 102
unfolding tensor_nbytes block_shape block_shape_table find_shape
q8_0_size = refl

tensor_nbytes-covers_example :
    (block_elems block_bytes blocks : ℕ) × (block_shape 8 ≡ some (block_elems, block_bytes))
    × (102 ≡ blocks * block_bytes)
    × (70 ≤ blocks * block_elems)
    × (blocks * block_elems < 70 + block_elems)
    × (102 < 2 ^ 64)
tensor_nbytes-covers_example = tensor_nbytes-covers 8 70 102 q8_0_size
