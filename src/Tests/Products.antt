-- ===== src/Tests/Products.antt =====
-- src/kernels on a small model, with the arithmetic of natural numbers in place of that of the machine.
use ds4_rs.Base.{ℕ, ◌+◌, ◌*◌, ◌≡◌, refl, [], ◌∷◌, List, some, length, replicate, list_eq}
use ds4_rs.Bytes.{get_range, from_le}
use ds4_rs.Gguf.Tensors.{GgufModel, tensor, tensor_bytes}
use ds4_rs.Kernels.{Floats}
use ds4_rs.Kernels.Fused.{by_numbers, dot_tensor_row-decode}
use ds4_rs.Kernels.Rows.{
  bf16_to_f32, f16_to_f32, normalized, tensor_row_bytes, row_of, chunk_blocks, decode_blocks,
  decode_row, decode_tensor_row, dot_tensor_row,
}
use ds4_rs.Kernels.Shared.{parallel_dot_tensor_rows-serial}
use ds4_rs.Kernels.Threads.{spans, dot_rows, parallel_row_threads, parallel_dot_tensor_rows}
use ds4_rs.Kernels.Widths.{length-decode_tensor_row}
use ds4_rs.Maps.{lookup}
use ds4_rs.Tests.Data.{model_tensor, loaded_model}
use ds4_rs.Weights.Tensors.{BoundTensor}

-- One, the least number that is not zero, and the largest one but the infinite.
f16_to_f32-one : f16_to_f32 0x3c00 ≡ 0x3f800000
unfolding f16_to_f32
f16_to_f32-one = refl

f16_to_f32-least : f16_to_f32 0x8001 ≡ 0xb3800000
unfolding f16_to_f32 normalized
f16_to_f32-least = refl

f16_to_f32-largest : f16_to_f32 0x7bff ≡ 0x477fe000
unfolding f16_to_f32
f16_to_f32-largest = refl

bf16_to_f32-one : bf16_to_f32 0x3f80 ≡ 0x3f800000
unfolding bf16_to_f32
bf16_to_f32-one = refl

-- 8192 rows for two threads, and 5 rows for parts of 2.
two_threads : parallel_row_threads 2 8192 ≡ 2
unfolding parallel_row_threads
two_threads = refl

three_parts : spans 5 2 5 0 ≡ (0, 2) ∷ (2, 4) ∷ (4, 5) ∷ []
unfolding spans
three_parts = refl

abbrev counting : Floats
counting = record { add = λ a b. a + b; mul = λ a b. a * b; of_i8 = λ byte. byte }

-- One block, of the scale 1 and of fives.
abbrev block_model : GgufModel
block_model = record loaded_model {
  file_size = 34;
  tensor_data_pos = 0;
  tensors =
      record model_tensor {
        tensor_type = 8;
        abs_offset = 0;
        bytes = 34;
        elements = 3;
        dims = 3 ∷ [];
      }
      ∷ [];
  file_data = 0 ∷ 60 ∷ replicate 32 5;
}

abbrev block_tensor : BoundTensor
block_tensor = record { name = 119 ∷ []; dims = 3 ∷ []; tensor_type = 8; abs_offset = 0 }

abbrev fives : List ℕ
fives = 5326766080 ∷ 5326766080 ∷ 5326766080 ∷ []

block_decoded : decode_tensor_row counting block_model block_tensor 0 3 ≡ some fives
unfolding decode_tensor_row row_of tensor lookup list_eq tensor_bytes get_range tensor_row_bytes
    decode_row decode_blocks chunk_blocks from_le f16_to_f32
block_decoded = refl

length-decode_tensor_row_example : length fives ≡ 3
length-decode_tensor_row_example =
    length-decode_tensor_row counting block_model block_tensor 0 3 fives block_decoded

dot_tensor_row-decode_example :
    dot_tensor_row counting block_model block_tensor 0 (1 ∷ 2 ∷ 3 ∷ [])
    ≡ by_numbers counting (decode_tensor_row counting block_model block_tensor 0 3) (1 ∷ 2 ∷ 3 ∷ [])
dot_tensor_row-decode_example =
    dot_tensor_row-decode counting block_model block_tensor 0 (1 ∷ 2 ∷ 3 ∷ [])

parallel_dot_tensor_rows-serial_example :
    parallel_dot_tensor_rows counting block_model block_tensor (1 ∷ 2 ∷ 3 ∷ []) 2 0 8192
    ≡ dot_rows counting block_model block_tensor (1 ∷ 2 ∷ 3 ∷ []) 0 8192
parallel_dot_tensor_rows-serial_example =
    parallel_dot_tensor_rows-serial counting block_model block_tensor (1 ∷ 2 ∷ 3 ∷ []) 2 0 8192
