-- ===== src/Gguf/InBounds.antt =====
-- src/gguf.rs: the reads of a loaded file.
use ds4_rs.Base.{
  ◌-◌, ◌/◌, ℕ, zero, suc, ◌+◌, ◌^◌, ◌≤◌, ◌<◌, List, [], ◌∷◌, Option, none, some, Bool, true, false,
  length, arith, ◌==◌, ltb, leb, not, ◌||◌, ◌&&◌,
}
use ds4_rs.Bytes.{Bytes}
use ds4_rs.Error.{Result}
use ds4_rs.Error.NoPanic.{NoPanic, NoPanic-ok, NoPanic-bind, NoPanic-require, NoPanic-checked_add}
use ds4_rs.Gguf.Reader.{
  IsRead, IsRead-ok, IsRead-fail, IsRead-bind, IsRead-check, IsRead-require, IsRead-if,
  skip_bytes-IsRead, read_u32-IsRead, read_u64-IsRead, read_string-IsRead,
}
use ds4_rs.Gguf.Values.{
  GgufValueType, from_u32, scalar_size, read_array_header, read_string_array, repeat, skip_items,
  skip_value, saturating_mul, top_levels,
}
use ds4_rs.Gguf.Tensors.{
  gguf_max_dims, GgufTensor, GgufModel, TensorTable, align_up, read_dims, read_tensor, read_tensors,
  place_tensors,
}
use ds4_rs.Gguf.Load.{
  Arm, arm, table_items, read_table, known, read_value, read_entry, read_entries,
}

NoPanic-from_u32 : (raw : ℕ) → NoPanic (from_u32 raw)
unfolding from_u32
NoPanic-from_u32 raw = record { at = λ e. ground arith }

module _ (file : Bytes) where
  read_array_header-IsRead : (pos : ℕ) → IsRead file pos (read_array_header file pos)
  unfolding read_array_header
  read_array_header-IsRead pos = IsRead-bind file pos _ _ (read_u32-IsRead file pos) λ raw p _.
      IsRead-check file p _ _ (NoPanic-from_u32 raw) λ item_type _.
        IsRead-bind file p _ _ (read_u64-IsRead file p)
          λ len q k. IsRead-ok file q (item_type, len) k

  read_string_array-IsRead :
      (len pos : ℕ) → pos ≤ length file → IsRead file pos (read_string_array file len pos)
  unfolding read_string_array
  read_string_array-IsRead zero pos k = IsRead-ok file pos [] k
  read_string_array-IsRead (suc len) pos k =
      IsRead-bind file pos _ _ (read_string-IsRead file pos) λ item p h.
        IsRead-bind file p _ _ (read_string_array-IsRead len p h)
          λ rest q i. IsRead-ok file q (item ∷ rest) i

  repeat-IsRead :
      (len : ℕ) (skip : ℕ → Result (Unit {0} × ℕ)) (pos : ℕ)
      → ((p : ℕ) → p ≤ length file → IsRead file p (skip p))
      → pos ≤ length file
      → IsRead file pos (repeat len skip pos)
  unfolding repeat
  repeat-IsRead zero skip pos h k = IsRead-ok file pos tt k
  repeat-IsRead (suc len) skip pos h k =
      IsRead-bind file pos _ _ (h pos k) λ u p i. repeat-IsRead len skip p h i

  skip_items-IsRead :
      (skip : ℕ → Result (Unit {0} × ℕ)) (size : Option ℕ) (len pos : ℕ)
      → ((p : ℕ) → p ≤ length file → IsRead file p (skip p))
      → pos ≤ length file
      → IsRead file pos (skip_items file skip size len pos)
  skip_items-IsRead skip (some size) len pos h k =
      skip_bytes-IsRead file (saturating_mul len size) pos
  skip_items-IsRead skip none len pos h k = repeat-IsRead len skip pos h k

  -- A value that is skipped at any depth ends in the file.
  skip_value-IsRead :
      (levels : ℕ) (value_type : GgufValueType) (pos : ℕ)
      → pos ≤ length file
      → IsRead file pos (skip_value levels file value_type pos)
  unfolding skip_value
  skip_value-IsRead zero value_type pos k = IsRead-fail file pos _
  skip_value-IsRead (suc levels) GgufValueType.string pos k =
      IsRead-bind file pos _ _ (read_string-IsRead file pos) λ item p i. IsRead-ok file p tt i
  skip_value-IsRead (suc levels) GgufValueType.array pos k =
      IsRead-bind file pos _ _ (read_array_header-IsRead pos) λ header p i.
        skip_items-IsRead (skip_value levels file header.0) (scalar_size header.0) header.1 p
          (λ q j. skip_value-IsRead levels header.0 q j) i
  skip_value-IsRead (suc levels) GgufValueType.uint8 pos k = skip_bytes-IsRead file 1 pos
  skip_value-IsRead (suc levels) GgufValueType.int8 pos k = skip_bytes-IsRead file 1 pos
  skip_value-IsRead (suc levels) GgufValueType.bool pos k = skip_bytes-IsRead file 1 pos
  skip_value-IsRead (suc levels) GgufValueType.uint16 pos k = skip_bytes-IsRead file 2 pos
  skip_value-IsRead (suc levels) GgufValueType.int16 pos k = skip_bytes-IsRead file 2 pos
  skip_value-IsRead (suc levels) GgufValueType.uint32 pos k = skip_bytes-IsRead file 4 pos
  skip_value-IsRead (suc levels) GgufValueType.int32 pos k = skip_bytes-IsRead file 4 pos
  skip_value-IsRead (suc levels) GgufValueType.float32 pos k = skip_bytes-IsRead file 4 pos
  skip_value-IsRead (suc levels) GgufValueType.uint64 pos k = skip_bytes-IsRead file 8 pos
  skip_value-IsRead (suc levels) GgufValueType.int64 pos k = skip_bytes-IsRead file 8 pos
  skip_value-IsRead (suc levels) GgufValueType.float64 pos k = skip_bytes-IsRead file 8 pos

  read_dims-IsRead :
      (ndim elements pos : ℕ)
      → pos ≤ length file
      → IsRead file pos (read_dims file ndim elements pos)
  unfolding read_dims
  read_dims-IsRead zero elements pos k = IsRead-ok file pos _ k
  read_dims-IsRead (suc ndim) elements pos k =
      IsRead-bind file pos _ _ (read_u64-IsRead file pos) λ dim p h.
        IsRead-require file p (dim == 0 || leb elements ((2 ^ 64 - 1) / dim)) _ _ (
          IsRead-bind file p _ _ (read_dims-IsRead ndim (saturating_mul elements dim) p h)
            λ rest q i. IsRead-ok file q (dim ∷ rest.0, rest.1) i)

  read_tensor-IsRead : (pos : ℕ) → IsRead file pos (read_tensor file pos)
  unfolding read_tensor
  read_tensor-IsRead pos = IsRead-bind file pos _ _ (read_string-IsRead file pos) λ name p _.
      IsRead-bind file p _ _ (read_u32-IsRead file p) λ ndim q h.
        IsRead-require file q (not (ndim == 0 || ltb gguf_max_dims ndim)) _ _ (
          IsRead-bind file q _ _ (read_dims-IsRead ndim 1 q h) λ shape r _.
            IsRead-bind file r _ _ (read_u32-IsRead file r) λ tensor_type s _.
              IsRead-bind file s _ _ (read_u64-IsRead file s)
                λ rel_offset t k. IsRead-ok file t _ k)

  pub read_tensors-IsRead :
      (n : ℕ) (table : TensorTable) (pos : ℕ)
      → pos ≤ length file
      → IsRead file pos (read_tensors file n table pos)
  unfolding read_tensors
  read_tensors-IsRead zero table pos k = IsRead-ok file pos table k
  read_tensors-IsRead (suc n) table pos k =
      IsRead-bind file pos _ _ (read_tensor-IsRead pos) λ t p h. read_tensors-IsRead n _ p h

module _ (file : Bytes) where
  table_items-IsRead :
      (is_tokens : Bool) (item_type : GgufValueType) (len pos : ℕ)
      → pos ≤ length file
      → IsRead file pos (table_items file is_tokens item_type len pos)
  unfolding table_items
  table_items-IsRead is_tokens item_type len pos k =
      IsRead-if file pos _ _ _ (read_string_array-IsRead file len pos k)
        (IsRead-if file pos is_tokens _ _ (IsRead-fail file pos _) (IsRead-fail file pos _))

  read_table-IsRead : (is_tokens : Bool) (pos : ℕ) → IsRead file pos (read_table file is_tokens pos)
  unfolding read_table
  read_table-IsRead is_tokens pos =
      IsRead-bind file pos _ _ (read_array_header-IsRead file pos)
        λ header p k. table_items-IsRead is_tokens header.0 header.1 p k

  pub read_value-IsRead :
      (a : Arm) (value_type : GgufValueType) (m : GgufModel) (pos : ℕ)
      → pos ≤ length file
      → IsRead file pos (read_value file a value_type m pos)
  unfolding read_value
  read_value-IsRead Arm.set_alignment value_type m pos h =
      IsRead-bind file pos _ _ (read_u32-IsRead file pos) λ v p k. IsRead-ok file p _ k
  read_value-IsRead Arm.set_architecture value_type m pos h =
      IsRead-bind file pos _ _ (read_string-IsRead file pos) λ v p k. IsRead-ok file p _ k
  read_value-IsRead Arm.set_vocab_size_u32 value_type m pos h =
      IsRead-bind file pos _ _ (read_u32-IsRead file pos) λ v p k. IsRead-ok file p _ k
  read_value-IsRead Arm.set_vocab_size_u64 value_type m pos h =
      IsRead-bind file pos _ _ (read_u64-IsRead file pos) λ v p k. IsRead-ok file p _ k
  read_value-IsRead Arm.set_tokens value_type m pos h =
      IsRead-bind file pos _ _ (read_table-IsRead true pos) λ v p k. IsRead-ok file p _ k
  read_value-IsRead Arm.set_merges value_type m pos h =
      IsRead-bind file pos _ _ (read_table-IsRead false pos) λ v p k. IsRead-ok file p _ k
  read_value-IsRead Arm.skip value_type m pos h =
      IsRead-bind file pos _ _ (skip_value-IsRead file top_levels value_type pos h)
        λ v p k. IsRead-ok file p m k

  read_entry-IsRead : (m : GgufModel) (pos : ℕ) → IsRead file pos (read_entry file m pos)
  unfolding read_entry
  read_entry-IsRead m pos = IsRead-bind file pos _ _ (read_string-IsRead file pos) λ key p _.
      IsRead-bind file p _ _ (read_u32-IsRead file p) λ raw q h.
        IsRead-check file q _ _ (NoPanic-from_u32 raw)
          λ value_type _. read_value-IsRead (arm (known key) value_type) value_type m q h

  pub read_entries-IsRead :
      (n : ℕ) (m : GgufModel) (pos : ℕ)
      → pos ≤ length file
      → IsRead file pos (read_entries file n m pos)
  unfolding read_entries
  read_entries-IsRead zero m pos h = IsRead-ok file pos m h
  read_entries-IsRead (suc n) m pos h =
      IsRead-bind file pos _ _ (read_entry-IsRead m pos) λ m' p k. read_entries-IsRead n m' p k

pub NoPanic-align_up :
    (value alignment : ℕ) → value + alignment < 2 ^ 64 → NoPanic (align_up value alignment)
unfolding align_up
NoPanic-align_up value alignment h = record { at = λ e. ground arith }

pub NoPanic-place_tensors :
    (file_size tensor_data_pos : ℕ) (ts : List GgufTensor)
    → NoPanic (place_tensors file_size tensor_data_pos ts)
unfolding place_tensors
NoPanic-place_tensors file_size data_pos [] = NoPanic-ok []
NoPanic-place_tensors file_size data_pos (t ∷ ts) =
    NoPanic-bind _ _ (NoPanic-checked_add data_pos t.rel_offset "tensor offset overflow")
      λ abs_offset _.
        NoPanic-bind _ _
          (NoPanic-require
            (t.bytes == 0 || (leb abs_offset file_size && leb t.bytes (file_size - abs_offset)))
            "tensor points outside GGUF file")
          λ u _.
            NoPanic-bind _ _ (NoPanic-place_tensors file_size data_pos ts) λ placed _. NoPanic-ok _
