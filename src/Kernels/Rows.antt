-- ===== src/Kernels/Rows.antt =====
-- src/kernels/matmul.rs: a row of a tensor, decoded or multiplied with an input.
use ds4_rs.Base.{
  ℕ, zero, suc, ◌+◌, ◌-◌, ◌*◌, ◌/◌, ◌%◌, ◌^◌, List, [], ◌∷◌, ◌++◌, Option, none, some, ◌&&◌, ◌||◌,
  ◌==◌, if◌then◌else◌, ltb, length, take, drop, min, map,
}
use ds4_rs.Bytes.{Bytes, from_le, get_range}
use ds4_rs.Error.{usize_mod}
use ds4_rs.Gguf.Tensors.{GgufModel, tensor, tensor_bytes, and_then}
use ds4_rs.Kernels.{Floats}
use ds4_rs.Kv.Payload.{chunk_words}
use ds4_rs.Weights.Tensors.{BoundTensor}

-- `checked_mul` and `checked_add` of a usize
abbrev pub in_usize : ℕ → Option ℕ
in_usize n = if ltb n usize_mod then some n else none

-- The bytes of a row, by the type's number: f32, f16 or bf16, and blocks of 32 numbers in 34 bytes.
unfoldable pub tensor_row_bytes : ℕ → ℕ → Option ℕ
tensor_row_bytes tensor_type row_width =
    if tensor_type == 0
    then in_usize (row_width * 4)
    else if tensor_type == 1 || tensor_type == 30
    then in_usize (row_width * 2)
    else if tensor_type == 8
    then and_then (in_usize (row_width + 31)) (λ n. in_usize (n / 32 * 34))
    else none

unfoldable pub bf16_to_f32 : ℕ → ℕ
bf16_to_f32 bits = bits * 2 ^ 16

-- The loop over a subnormal number: `steps` bounds its rounds, and `exponent` has 127 added.
unfoldable pub normalized : ℕ → ℕ → ℕ → ℕ × ℕ
normalized zero mant exponent = (mant, exponent)
normalized (suc steps) mant exponent =
    let rest = normalized steps (mant * 2) (exponent - 1) in
    if ltb mant 1024 then rest else (mant, exponent)

abbrev pub subnormal : ℕ → ℕ × ℕ → ℕ
subnormal sign (mant, exponent) = sign + exponent * 2 ^ 23 + mant % 1024 * 2 ^ 13

-- The bits that `|` joins do not overlap, so that it is a sum. A fraction of ten bits that is not
-- zero is shifted ten times at most.
unfoldable pub f16_to_f32 : ℕ → ℕ
unfolding normalized
f16_to_f32 bits =
    let sign = bits / 2 ^ 15 * 2 ^ 31 in
    let exp = bits / 2 ^ 10 % 32 in
    let frac = bits % 2 ^ 10 in
    if exp == 0 && frac == 0
    then sign
    else if exp == 0
    then subnormal sign (normalized 10 frac 113)
    else if exp == 31
    then sign + 255 * 2 ^ 23 + frac * 2 ^ 13
    else sign + (exp + 112) * 2 ^ 23 + frac * 2 ^ 13

-- `chunks_exact(2)`, each as a u16
unfoldable pub chunk_halves : Bytes → List ℕ
chunk_halves [] = []
chunk_halves (a ∷ []) = []
chunk_halves (a ∷ b ∷ rest) = (a + 256 * b) ∷ chunk_halves rest

-- `chunks_exact(34)`, of this many blocks
unfoldable pub chunk_blocks : ℕ → Bytes → List Bytes
chunk_blocks zero row = []
chunk_blocks (suc n) row = take 34 row ∷ chunk_blocks n (drop 34 row)

-- The scale of a block, its first two bytes.
abbrev pub scale_of : Bytes → ℕ
scale_of block = f16_to_f32 (from_le (take 2 block))

-- The bytes of a row: the tensor is looked up by its name.
unfoldable pub row_of : GgufModel → BoundTensor → ℕ → ℕ → Option Bytes
unfolding tensor tensor_bytes tensor_row_bytes get_range
row_of model t row_idx row_width =
    and_then (and_then (tensor model t.name) (tensor_bytes model)) λ bytes.
      and_then (tensor_row_bytes t.tensor_type row_width) λ row_bytes.
        and_then (in_usize (row_idx * row_bytes)) λ row_start.
          and_then (in_usize (row_start + row_bytes)) λ row_end. get_range bytes row_start row_end

module _ (f : Floats) where
  -- The numbers of the blocks of a row, of which `left` are still wanted.
  unfoldable pub decode_blocks : ℕ → List Bytes → List ℕ
  decode_blocks left [] = []
  decode_blocks left (block ∷ blocks) =
      map (λ byte. f.mul (scale_of block) (f.of_i8 byte)) (take (min left 32) (drop 2 block))
      ++ decode_blocks (left - 32) blocks

  -- The match of `decode_tensor_row` on the type.
  unfoldable pub decode_row : ℕ → ℕ → Bytes → Option (List ℕ)
  unfolding decode_blocks chunk_blocks chunk_halves bf16_to_f32
  decode_row tensor_type row_width row =
      if tensor_type == 0
      then some (chunk_words row)
      else if tensor_type == 1
      then some (map f16_to_f32 (chunk_halves row))
      else if tensor_type == 30
      then some (map bf16_to_f32 (chunk_halves row))
      else if tensor_type == 8
      then some (decode_blocks row_width (chunk_blocks (length row / 34) row))
      else none

  unfoldable pub decode_tensor_row : GgufModel → BoundTensor → ℕ → ℕ → Option (List ℕ)
  unfolding decode_row
  decode_tensor_row model t row_idx row_width =
      and_then (row_of model t row_idx row_width) (decode_row t.tensor_type row_width)

  -- `acc += value * input[idx]` over the numbers of a row; there are as many as in the input.
  unfoldable pub dot_words : ℕ → List ℕ → List ℕ → ℕ
  dot_words acc [] input = acc
  dot_words acc (value ∷ values) [] = acc
  dot_words acc (value ∷ values) (x ∷ xs) = dot_words (f.add acc (f.mul value x)) values xs

  -- The same over halves, each converted when it is used.
  unfoldable pub dot_halves : (ℕ → ℕ) → ℕ → List ℕ → List ℕ → ℕ
  dot_halves to_f32 acc [] input = acc
  dot_halves to_f32 acc (half ∷ halves) [] = acc
  dot_halves to_f32 acc (half ∷ halves) (x ∷ xs) =
      dot_halves to_f32 (f.add acc (f.mul (to_f32 half) x)) halves xs

  -- The inner loop over the bytes of a block.
  unfoldable pub dot_bytes : ℕ → ℕ → Bytes → List ℕ → ℕ
  dot_bytes scale acc [] input = acc
  dot_bytes scale acc (byte ∷ bytes) [] = acc
  dot_bytes scale acc (byte ∷ bytes) (x ∷ xs) =
      dot_bytes scale (f.add acc (f.mul (f.mul scale (f.of_i8 byte)) x)) bytes xs

  -- The loop over the blocks, with the input from `start` on.
  unfoldable pub dot_blocks : ℕ → List Bytes → List ℕ → ℕ
  dot_blocks acc [] input = acc
  dot_blocks acc (block ∷ blocks) input =
      let bytes = take (min (length input) 32) (drop 2 block) in
      dot_blocks (dot_bytes (scale_of block) acc bytes input) blocks (drop 32 input)

  -- The match of `dot_tensor_row` on the type.
  unfoldable pub dot_row : ℕ → List ℕ → Bytes → Option ℕ
  unfolding dot_words dot_halves dot_blocks dot_bytes chunk_blocks chunk_halves
  dot_row tensor_type input row =
      if tensor_type == 0
      then some (dot_words 0 (chunk_words row) input)
      else if tensor_type == 1
      then some (dot_halves f16_to_f32 0 (chunk_halves row) input)
      else if tensor_type == 30
      then some (dot_halves bf16_to_f32 0 (chunk_halves row) input)
      else if tensor_type == 8
      then some (dot_blocks 0 (chunk_blocks (length row / 34) row) input)
      else none

  unfoldable pub dot_tensor_row : GgufModel → BoundTensor → ℕ → List ℕ → Option ℕ
  unfolding dot_row
  dot_tensor_row model t row_idx input =
      and_then (row_of model t row_idx (length input)) (dot_row t.tensor_type input)
