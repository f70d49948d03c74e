-- ===== src/Tokenizer/Decode.antt =====
-- src/tokenizer.rs: from tokens back to text.
use ds4_rs.Base.{
  ℕ, zero, suc, ◌^◌, List, [], ◌∷◌, ◌++◌, Option, none, some, true, false, ◌==◌, ltb, get_elem?,
  if◌then◌else◌,
}
use ds4_rs.Bytes.{Bytes}
use ds4_rs.Text.{chars, code_point}
use ds4_rs.Tokenizer.Bpe.{gpt2_byte_to_codepoint}
use ds4_rs.Tokenizer.{Vocabulary, is_control_token}
use ds4_rs.Types.{Tokens}
use ds4_rs.Utf8.{from_utf8_lossy}

-- The search of `gpt2_codepoint_to_byte`, from a byte with as many bytes left.
unfoldable pub byte_from : ℕ → ℕ → ℕ → Option ℕ
unfolding gpt2_byte_to_codepoint
byte_from zero byte cp = none
byte_from (suc left) byte cp = elim (gpt2_byte_to_codepoint byte == cp) [
  | true ↦ some byte
  | false ↦ byte_from left (suc byte) cp
]

unfoldable pub gpt2_codepoint_to_byte : ℕ → Option ℕ
unfolding byte_from
gpt2_codepoint_to_byte cp = byte_from 256 0 cp

abbrev decoded_char : Bytes → Option ℕ → Bytes
decoded_char ch none = ch
decoded_char ch (some byte) = byte ∷ []

unfoldable pub decode_chars : List Bytes → Bytes
unfolding gpt2_codepoint_to_byte code_point
decode_chars [] = []
decode_chars (ch ∷ rest) =
    decoded_char ch (gpt2_codepoint_to_byte (code_point ch)) ++ decode_chars rest

unfoldable pub append_decoded_piece : Bytes → Bytes → Bytes
unfolding decode_chars chars
append_decoded_piece piece out = out ++ decode_chars (chars piece)

-- `vocab.tokens.get(token as usize)`: a negative i32 is no index.
abbrev pub token_at : Vocabulary → ℕ → Option Bytes
token_at vocab token = if ltb token (2 ^ 31) then get_elem? vocab.tokens token else none

abbrev decoded_token : Vocabulary → ℕ → Option Bytes → Bytes → Bytes
decoded_token vocab token none out = out
decoded_token vocab token (some piece) out =
    if is_control_token vocab token then out else append_decoded_piece piece out

-- The loop of `decode_tokens_vocab`.
unfoldable pub decode_each : Vocabulary → Tokens → Bytes → Bytes
unfolding append_decoded_piece is_control_token
decode_each vocab [] out = out
decode_each vocab (token ∷ rest) out =
    decode_each vocab rest (decoded_token vocab token (token_at vocab token) out)

unfoldable pub decode_tokens_vocab : Vocabulary → Tokens → Bytes
unfolding decode_each from_utf8_lossy
decode_tokens_vocab vocab tokens = from_utf8_lossy (decode_each vocab tokens [])
