-- ===== src/Gguf/Load.antt =====
-- src/gguf.rs: `load_model`, on the bytes of the file that is mapped.
use ds4_rs.Base.{
  ℕ, zero, suc, ◌%◌, List, [], none, some, Bool, true, false, length, if◌then◌else◌, ◌==◌, ltb, not,
  list_eq,
}
use ds4_rs.Bytes.{Bytes}
use ds4_rs.Error.{
  Message, with_number, with_text, protocol, Result, ok, err, ◌>>=◌, ◌>>◌, fail, u32_mod,
}
use ds4_rs.Gguf.Reader.{read_u32, read_u64, read_string}
use ds4_rs.Gguf.Values.{
  GgufValueType, from_u32, read_array_header, read_string_array, skip_value, top_levels,
}
use ds4_rs.Gguf.Tensors.{GgufModel, parse_tensors}
use ds4_rs.Utf8.{ascii}

abbrev pub gguf_magic : ℕ
gguf_magic = 0x46554747

-- `require` with another message than a fixed one.
abbrev pub require_else : Bool → Message → Result (Unit {0})
require_else true m = ok tt
require_else false m = err (protocol m)

abbrev is_string : GgufValueType → Bool
is_string GgufValueType.string = true
is_string item_type = false

-- The items of a table, which has to be an array of strings.
unfoldable pub table_items : Bytes → Bool → GgufValueType → ℕ → ℕ → Result (List Bytes × ℕ)
table_items file is_tokens item_type len pos =
    if is_string item_type
    then read_string_array file len pos
    else if is_tokens
    then fail "GGUF tokenizer token table is missing or invalid"
    else fail "GGUF tokenizer merge table is missing or invalid"

-- The arms for the two tables of the tokenizer.
unfoldable pub read_table : Bytes → Bool → ℕ → Result (List Bytes × ℕ)
read_table file is_tokens pos = do
  header ← read_array_header file pos
  table_items file is_tokens header.0.0 header.0.1 header.1

-- The key of an entry that the model keeps.
pub data Known : Type 0 where
  alignment architecture vocab_size tokens merges other : Known

unfoldable pub known : Bytes → Known
known key =
    if list_eq key (ascii "general.alignment")
    then alignment
    else if list_eq key (ascii "general.architecture")
    then architecture
    else if list_eq key (ascii "deepseek4.vocab_size")
    then vocab_size
    else if list_eq key (ascii "tokenizer.ggml.tokens")
    then tokens
    else if list_eq key (ascii "tokenizer.ggml.merges")
    then merges
    else other

-- The arms of the `match` of the metadata loop.
pub data Arm : Type 0 where
  set_alignment set_architecture set_vocab_size_u32 set_vocab_size_u64 set_tokens set_merges skip :
      Arm

-- A key counts only with the type that is expected for it.
unfoldable pub arm : Known → GgufValueType → Arm
arm alignment GgufValueType.uint32 = set_alignment
arm architecture GgufValueType.string = set_architecture
arm vocab_size GgufValueType.uint32 = set_vocab_size_u32
arm vocab_size GgufValueType.uint64 = set_vocab_size_u64
arm tokens GgufValueType.array = set_tokens
arm merges GgufValueType.array = set_merges
arm key value_type = skip

unfoldable pub read_value : Bytes → Arm → GgufValueType → GgufModel → ℕ → Result (GgufModel × ℕ)
read_value file set_alignment value_type model pos = do
  v ← read_u32 file pos
  ok (record model { alignment = v.0 }, v.1)
read_value file set_architecture value_type model pos = do
  v ← read_string file pos
  ok (record model { architecture = some v.0 }, v.1)
read_value file set_vocab_size_u32 value_type model pos = do
  v ← read_u32 file pos
  ok (record model { vocab_size = some v.0 }, v.1)
read_value file set_vocab_size_u64 value_type model pos = do
  v ← read_u64 file pos
  ok (record model { vocab_size = some (v.0 % u32_mod) }, v.1)
read_value file set_tokens value_type model pos = do
  v ← read_table file true pos
  ok (record model { tokenizer_tokens = v.0 }, v.1)
read_value file set_merges value_type model pos = do
  v ← read_table file false pos
  ok (record model { tokenizer_merges = v.0 }, v.1)
read_value file skip value_type model pos = do
  v ← skip_value top_levels file value_type pos
  ok (model, v.1)

-- One round of the metadata loop.
unfoldable pub read_entry : Bytes → GgufModel → ℕ → Result (GgufModel × ℕ)
read_entry file model pos = do
  key ← read_string file pos
  raw ← read_u32 file key.1
  value_type ← from_u32 raw.0
  read_value file (arm (known key.0) value_type) value_type model raw.1

-- The metadata loop.
unfoldable pub read_entries : Bytes → ℕ → GgufModel → ℕ → Result (GgufModel × ℕ)
read_entries file zero model pos = ok (model, pos)
read_entries file (suc n) model pos = do
  entry ← read_entry file model pos
  read_entries file n entry.0 entry.1

-- The model before its metadata is read.
abbrev pub blank_model : ℕ → ℕ → ℕ → ℕ → GgufModel
blank_model version n_tensors n_kv file_size = record {
  version = version;
  n_tensors = n_tensors;
  n_kv = n_kv;
  alignment = 32;
  file_size = file_size;
  tensor_data_pos = 0;
  architecture = none;
  vocab_size = none;
  tokenizer_tokens = [];
  tokenizer_merges = [];
  tensors = [];
  tensors_by_name = [];
  file_data = [];
}

unfoldable pub load_model : Bytes → Bytes → Result GgufModel
load_model path file = do
  require_else (not (ltb (length file) 32)) (with_text "model file is too small to be GGUF: " path)
  magic ← read_u32 file 0
  require_else (magic.0 == gguf_magic) (with_text "model is not a GGUF file: " path)
  version ← read_u32 file magic.1
  require_else (version.0 == 3) (with_number "only GGUF v3 is supported, got v" version.0)
  n_tensors ← read_u64 file version.1
  n_kv ← read_u64 file n_tensors.1
  read ← read_entries file n_kv.0 (blank_model version.0 n_tensors.0 n_kv.0 (length file)) n_kv.1
  model ← parse_tensors file read.0 read.1
  ok (record model { file_data = file })
