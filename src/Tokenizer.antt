-- ===== src/Tokenizer.antt =====
-- src/tokenizer.rs: the vocabulary, the special tokens and byte-pair merging. A `String` is its
-- UTF-8 bytes, and a `char` is the bytes that encode it.
pub mod Bpe
pub mod Merged
pub mod Pieces
pub mod Split
pub mod Decode
pub mod Chat
use ds4_rs.Base.{
  ℕ, zero, suc, ◌+◌, ◌%◌, ◌^◌, List, [], ◌∷◌, ◌++◌, Option, none, some, Bool, true, false, ◌==◌,
  ◌||◌, if◌then◌else◌, list_eq, length, take,
}
use ds4_rs.Bytes.{Bytes}
use ds4_rs.Error.{with_text, protocol, Result, ok, err, ◌>>=◌, fail}
use ds4_rs.Gguf.Tensors.{GgufModel}
use ds4_rs.Maps.{lookup, insert}
use ds4_rs.Types.{Tokens}
use ds4_rs.Utf8.{ascii}

pub record Vocabulary : Type 0 where
  pub tokens : List Bytes
  pub token_to_id : List (Bytes × ℕ)
  pub merges : List (Bytes × ℕ)
  pub bos_id : ℕ
  pub eos_id : ℕ
  pub user_id : ℕ
  pub assistant_id : ℕ
  pub think_start_id : ℕ
  pub think_end_id : ℕ
  pub dsml_id : ℕ

-- The vertical bar and the underscore of the special tokens, U+FF5C and U+2581.
abbrev pub bar : Bytes
bar = 0xef ∷ 0xbd ∷ 0x9c ∷ []

abbrev pub low_line : Bytes
low_line = 0xe2 ∷ 0x96 ∷ 0x81 ∷ []

-- `<｜name｜>`
abbrev pub special : Bytes → Bytes
special name = ascii "<" ++ (bar ++ (name ++ (bar ++ ascii ">")))

abbrev pub bos_text : Bytes
bos_text = special (ascii "begin" ++ (low_line ++ (ascii "of" ++ (low_line ++ ascii "sentence"))))

abbrev pub eos_text : Bytes
eos_text = special (ascii "end" ++ (low_line ++ (ascii "of" ++ (low_line ++ ascii "sentence"))))

abbrev pub dsml_text : Bytes
dsml_text = bar ++ (ascii "DSML" ++ bar)

unfoldable pub required_token_id : List (Bytes × ℕ) → Bytes → Result ℕ
required_token_id token_to_id text = elim (lookup text token_to_id) [
  | none ↦ err (protocol (with_text "required tokenizer token is missing: " text))
  | some id ↦ ok id
]

-- The loops of `from_gguf`: an entry for each string, with its index as an i32.
unfoldable pub index_from : ℕ → List Bytes → List (Bytes × ℕ) → List (Bytes × ℕ)
index_from idx [] ids = ids
index_from idx (text ∷ rest) ids = index_from (idx + 1) rest (insert text (idx % 2 ^ 32) ids)

-- The part of `from_gguf` behind its first check.
unfoldable pub with_tables : GgufModel → List (Bytes × ℕ) → List (Bytes × ℕ) → Result Vocabulary
with_tables model token_to_id merges = do
  bos_id ← required_token_id token_to_id bos_text
  eos_id ← required_token_id token_to_id eos_text
  user_id ← required_token_id token_to_id (special (ascii "User"))
  assistant_id ← required_token_id token_to_id (special (ascii "Assistant"))
  think_start_id ← required_token_id token_to_id (ascii "<think>")
  think_end_id ← required_token_id token_to_id (ascii "</think>")
  dsml_id ← required_token_id token_to_id dsml_text
  ok (record {
    tokens = model.tokenizer_tokens;
    token_to_id = token_to_id;
    merges = merges;
    bos_id = bos_id;
    eos_id = eos_id;
    user_id = user_id;
    assistant_id = assistant_id;
    think_start_id = think_start_id;
    think_end_id = think_end_id;
    dsml_id = dsml_id;
  })

-- Tokenizer::from_gguf
unfoldable pub from_gguf : GgufModel → Result Vocabulary
unfolding with_tables index_from
from_gguf model =
    if length model.tokenizer_tokens == 0
    then fail "GGUF tokenizer token table is missing or invalid"
    else with_tables model (index_from 0 model.tokenizer_tokens [])
        (index_from 0 model.tokenizer_merges [])

-- `specials`, in the order in which they are tried.
unfoldable pub specials : Vocabulary → List (Bytes × ℕ)
specials vocab =
    (bos_text, vocab.bos_id)
    ∷ (eos_text, vocab.eos_id)
    ∷ (special (ascii "User"), vocab.user_id)
    ∷ (special (ascii "Assistant"), vocab.assistant_id)
    ∷ (ascii "<think>", vocab.think_start_id)
    ∷ (ascii "</think>", vocab.think_end_id)
    ∷ (dsml_text, vocab.dsml_id)
    ∷ []

unfoldable pub first_special : Bytes → List (Bytes × ℕ) → Option (ℕ × ℕ)
first_special text [] = none
first_special text ((name, token) ∷ rest) =
    if list_eq (take (length name) text) name
    then some (token, length name)
    else first_special text rest

unfoldable pub special_token_at : Vocabulary → Bytes → Option (ℕ × ℕ)
unfolding first_special specials
special_token_at vocab text = first_special text (specials vocab)

unfoldable pub is_control_token : Vocabulary → ℕ → Bool
is_control_token vocab token =
    token == vocab.bos_id
    || (token == vocab.eos_id
        || (token == vocab.user_id
            || (token == vocab.assistant_id
                || (token == vocab.think_start_id
                    || (token == vocab.think_end_id || token == vocab.dsml_id)))))
