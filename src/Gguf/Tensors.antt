-- ===== src/Gguf/Tensors.antt =====
-- src/gguf.rs: `GgufModel`, `GgufTensor` and the table of tensors.
use ds4_rs.Base.{
  ℕ, zero, suc, ◌+◌, ◌*◌, ◌/◌, ◌%◌, ◌^◌, ◌-◌, List, [], ◌∷◌, ◌++◌, Option, none, some, length,
  if◌then◌else◌, ◌==◌, ltb, leb, not, ◌&&◌, ◌||◌, get_elem?,
}
use ds4_rs.Bytes.{Bytes, get_range}
use ds4_rs.Error.{Result, ok, panic, ◌>>=◌, ◌>>◌, require, checked_add}
use ds4_rs.Gguf.Reader.{read_u32, read_u64, read_string}
use ds4_rs.Gguf.Values.{saturating_mul}
use ds4_rs.Maps.{lookup, insert}

pub record GgufTensor : Type 0 where
  pub name : Bytes
  pub ndim : ℕ
  pub dims : List ℕ
  pub tensor_type : ℕ
  pub rel_offset : ℕ
  pub abs_offset : ℕ
  pub elements : ℕ
  pub bytes : ℕ

-- `file_data` is `data`, the mapped file, with no bytes for `GgufData::Empty`.
pub record GgufModel : Type 0 where
  pub version : ℕ
  pub n_tensors : ℕ
  pub n_kv : ℕ
  pub alignment : ℕ
  pub file_size : ℕ
  pub tensor_data_pos : ℕ
  pub architecture : Option Bytes
  pub vocab_size : Option ℕ
  pub tokenizer_tokens : List Bytes
  pub tokenizer_merges : List Bytes
  pub tensors : List GgufTensor
  pub tensors_by_name : List (Bytes × ℕ)
  pub file_data : Bytes

-- The elements and the bytes of a block, by the type's number.
unfoldable pub block_shape_table : List (ℕ × ℕ × ℕ)
block_shape_table =
    (0, 1, 4)
    ∷ (1, 1, 2)
    ∷ (2, 32, 18)
    ∷ (3, 32, 20)
    ∷ (6, 32, 22)
    ∷ (7, 32, 24)
    ∷ (8, 32, 34)
    ∷ (9, 32, 40)
    ∷ (10, 256, 84)
    ∷ (11, 256, 110)
    ∷ (12, 256, 144)
    ∷ (13, 256, 176)
    ∷ (14, 256, 210)
    ∷ (15, 256, 292)
    ∷ (16, 256, 66)
    ∷ (17, 256, 74)
    ∷ (18, 256, 98)
    ∷ (19, 256, 110)
    ∷ (20, 256, 50)
    ∷ (21, 256, 110)
    ∷ (22, 256, 82)
    ∷ (23, 256, 136)
    ∷ (24, 1, 1)
    ∷ (25, 1, 2)
    ∷ (26, 1, 4)
    ∷ (27, 1, 8)
    ∷ (28, 1, 8)
    ∷ (29, 256, 56)
    ∷ (30, 1, 2)
    ∷ []

unfoldable pub find_shape : List (ℕ × ℕ × ℕ) → ℕ → Option (ℕ × ℕ)
find_shape [] tensor_type = none
find_shape ((number, block_elems, block_bytes) ∷ rest) tensor_type =
    if number == tensor_type then some (block_elems, block_bytes) else find_shape rest tensor_type

-- The `match` of `tensor_nbytes`.
unfoldable pub block_shape : ℕ → Option (ℕ × ℕ)
unfolding block_shape_table find_shape
block_shape tensor_type = find_shape block_shape_table tensor_type

-- `checked_add` and `checked_mul` on u64
abbrev pub in_u64 : ℕ → Option ℕ
in_u64 n = if ltb n (2 ^ 64) then some n else none

abbrev pub and_then {ℓ κ} : {A : Type ℓ} {B : Type κ} → Option A → (A → Option B) → Option B
and_then none f = none
and_then (some a) f = f a

unfoldable pub tensor_nbytes : ℕ → ℕ → Option ℕ
unfolding block_shape
tensor_nbytes tensor_type elements =
    and_then (block_shape tensor_type)
      λ shape. and_then (in_u64 (elements + (shape.0 - 1))) λ sum. in_u64 (sum / shape.0 * shape.1)

-- An addition past the end of u64 is taken as a panic.
unfoldable pub align_up : ℕ → ℕ → Result ℕ
align_up value alignment =
    if alignment == 0
    then ok value
    else let rem = value % alignment in
      if rem == 0
      then ok value
      else let aligned = value + (alignment - rem) in
        if ltb aligned (2 ^ 64) then ok aligned else panic

-- The loop over the dimensions, from the element count so far.
unfoldable pub read_dims : Bytes → ℕ → ℕ → ℕ → Result ((List ℕ × ℕ) × ℕ)
read_dims file zero elements pos = ok (([], elements), pos)
read_dims file (suc ndim) elements pos = do
  dim ← read_u64 file pos
  require (dim.0 == 0 || leb elements ((2 ^ 64 - 1) / dim.0)) "tensor element count overflow"
  rest ← read_dims file ndim (saturating_mul elements dim.0) dim.1
  ok ((dim.0 ∷ rest.0.0, rest.0.1), rest.1)

abbrev pub unwrap_or_zero : Option ℕ → ℕ
unwrap_or_zero none = 0
unwrap_or_zero (some n) = n

abbrev pub gguf_max_dims : ℕ
gguf_max_dims = 4

-- One round of the first loop of `parse_tensors`.
unfoldable pub read_tensor : Bytes → ℕ → Result (GgufTensor × ℕ)
unfolding tensor_nbytes
read_tensor file pos = do
  name ← read_string file pos
  ndim ← read_u32 file name.1
  require (not (ndim.0 == 0 || ltb gguf_max_dims ndim.0))
      "tensor has an unsupported number of dimensions"
  shape ← read_dims file ndim.0 1 ndim.1
  tensor_type ← read_u32 file shape.1
  rel_offset ← read_u64 file tensor_type.1
  ok (
    record {
      name = name.0;
      ndim = ndim.0;
      dims = shape.0.0;
      tensor_type = tensor_type.0;
      rel_offset = rel_offset.0;
      abs_offset = 0;
      elements = shape.0.1;
      bytes = unwrap_or_zero (tensor_nbytes tensor_type.0 shape.0.1);
    },
    rel_offset.1,
  )

abbrev pub TensorTable : Type 0
TensorTable = List GgufTensor × List (Bytes × ℕ)

-- The first loop of `parse_tensors`, over the tables so far.
unfoldable pub read_tensors : Bytes → ℕ → TensorTable → ℕ → Result (TensorTable × ℕ)
read_tensors file zero table pos = ok (table, pos)
read_tensors file (suc n) table pos = do
  tensor ← read_tensor file pos
  read_tensors file n (table.0 ++ (tensor.0 ∷ []), insert tensor.0.name (length table.0) table.1)
      tensor.1

-- The second loop of `parse_tensors`.
unfoldable pub place_tensors : ℕ → ℕ → List GgufTensor → Result (List GgufTensor)
place_tensors file_size tensor_data_pos [] = ok []
place_tensors file_size tensor_data_pos (tensor ∷ rest) = do
  abs_offset ← checked_add tensor_data_pos tensor.rel_offset "tensor offset overflow"
  require
      (tensor.bytes == 0 || (leb abs_offset file_size && leb tensor.bytes (file_size - abs_offset)))
      "tensor points outside GGUF file"
  placed ← place_tensors file_size tensor_data_pos rest
  ok (record tensor { abs_offset = abs_offset } ∷ placed)

unfoldable pub parse_tensors : Bytes → GgufModel → ℕ → Result GgufModel
parse_tensors file model pos = do
  read ← read_tensors file model.n_tensors ([], []) pos
  tensor_data_pos ← align_up read.1 model.alignment
  placed ← place_tensors model.file_size tensor_data_pos read.0.0
  ok (record model {
    tensor_data_pos = tensor_data_pos;
    tensors = placed;
    tensors_by_name = read.0.1;
  })

-- GgufModel::tensor
unfoldable pub tensor : GgufModel → Bytes → Option GgufTensor
tensor model name = and_then (lookup name model.tensors_by_name) (get_elem? model.tensors)

-- GgufModel::tensor_bytes
unfoldable pub tensor_bytes : GgufModel → GgufTensor → Option Bytes
tensor_bytes model t =
    and_then (in_u64 (t.abs_offset + t.bytes)) λ end. get_range model.file_data t.abs_offset end
