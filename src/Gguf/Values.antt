-- ===== src/Gguf/Values.antt =====
-- src/gguf.rs: the values of the metadata, `GgufValueType`, `read_array_header`,
-- `read_string_array` and `skip_value`.
use ds4_rs.Base.{
  ℕ, zero, suc, ◌*◌, ◌^◌, ◌-◌, List, [], ◌∷◌, Option, none, some, if◌then◌else◌, ◌==◌, min,
}
use ds4_rs.Bytes.{Bytes}
use ds4_rs.Error.{with_number, protocol, Result, ok, err, ◌>>=◌, fail}
use ds4_rs.Gguf.Reader.{skip_bytes, read_u32, read_u64, read_string}

pub data GgufValueType : Type 0 where
  uint8 int8 uint16 int16 uint32 int32 float32 bool string array uint64 int64 float64 :
      GgufValueType

-- GgufValueType::from_u32
unfoldable pub from_u32 : ℕ → Result GgufValueType
from_u32 raw =
    if raw == 0
    then ok uint8
    else if raw == 1
    then ok int8
    else if raw == 2
    then ok uint16
    else if raw == 3
    then ok int16
    else if raw == 4
    then ok uint32
    else if raw == 5
    then ok int32
    else if raw == 6
    then ok float32
    else if raw == 7
    then ok bool
    else if raw == 8
    then ok string
    else if raw == 9
    then ok array
    else if raw == 10
    then ok uint64
    else if raw == 11
    then ok int64
    else if raw == 12
    then ok float64
    else err (protocol (with_number "unsupported GGUF metadata type: " raw))

-- GgufValueType::scalar_size
unfoldable pub scalar_size : GgufValueType → Option ℕ
scalar_size uint8 = some 1
scalar_size int8 = some 1
scalar_size bool = some 1
scalar_size uint16 = some 2
scalar_size int16 = some 2
scalar_size uint32 = some 4
scalar_size int32 = some 4
scalar_size float32 = some 4
scalar_size uint64 = some 8
scalar_size int64 = some 8
scalar_size float64 = some 8
scalar_size string = none
scalar_size array = none

-- `a.saturating_mul(b)` of two u64
abbrev pub saturating_mul : ℕ → ℕ → ℕ
saturating_mul a b = min (a * b) (2 ^ 64 - 1)

unfoldable pub read_array_header : Bytes → ℕ → Result ((GgufValueType × ℕ) × ℕ)
unfolding from_u32
read_array_header file pos = do
  raw ← read_u32 file pos
  item_type ← from_u32 raw.0
  len ← read_u64 file raw.1
  ok ((item_type, len.0), len.1)

unfoldable pub read_string_array : Bytes → ℕ → ℕ → Result (List Bytes × ℕ)
read_string_array file zero pos = ok ([], pos)
read_string_array file (suc len) pos = do
  item ← read_string file pos
  rest ← read_string_array file len item.1
  ok (item.0 ∷ rest.0, rest.1)

-- A loop that skips `len` items.
unfoldable pub repeat : ℕ → (ℕ → Result (Unit {0} × ℕ)) → ℕ → Result (Unit {0} × ℕ)
repeat zero skip pos = ok (tt, pos)
repeat (suc len) skip pos = do item ← skip pos; repeat len skip item.1

-- An array's items: those of a known size are skipped at once, others one by one.
abbrev pub skip_items :
    Bytes → (ℕ → Result (Unit {0} × ℕ)) → Option ℕ → ℕ → ℕ → Result (Unit {0} × ℕ)
skip_items file skip (some item_size) len pos = skip_bytes file (saturating_mul len item_size) pos
skip_items file skip none len pos = repeat len skip pos

-- `skip_value` at a depth, for which `levels` stands as `9 - depth`: no levels are left where the
-- depth exceeds 8.
unfoldable pub skip_value : ℕ → Bytes → GgufValueType → ℕ → Result (Unit {0} × ℕ)
unfolding scalar_size repeat
skip_value zero file value_type pos = fail "GGUF metadata array nesting is too deep"
skip_value (suc levels) file value_type pos = elim (scalar_size value_type) [
  | some size ↦ skip_bytes file size pos
  | none ↦ elim value_type [
    | string ↦ do item ← read_string file pos; ok (tt, item.1)
    | array ↦ do
      header ← read_array_header file pos
      skip_items file (skip_value levels file header.0.0) (scalar_size header.0.0) header.0.1
          header.1
    | _ ↦ fail "unsupported GGUF metadata shape"
  ]
]

-- The depth at which `load_model` starts.
abbrev pub top_levels : ℕ
top_levels = 9
