-- ===== src/Tokenizer/Pieces.antt =====
-- src/tokenizer.rs: `joyai_pieces` and `tokenize_text_bpe`. The text is the list of its characters,
-- each of them the bytes that encode it, so that a position is always between two characters; a
-- piece is the characters from its start to its end.
use ds4_rs.Base.{
  ℕ, zero, suc, ◌+◌, ◌-◌, ◌*◌, List, [], ◌∷◌, ◌++◌, Option, none, some, Bool, true, false, not,
  ◌==◌, ◌||◌, ◌&&◌, if◌then◌else◌, length, take, drop, ltb, leb, min,
}
use ds4_rs.Bytes.{Bytes}
use ds4_rs.Maps.{lookup}
use ds4_rs.Tokenizer.{Vocabulary}
use ds4_rs.Text.{chars}
use ds4_rs.Tokenizer.Bpe.{bpe_emit_piece}
use ds4_rs.Types.{Tokens}

-- `text.as_bytes()[pos]` where a character starts.
abbrev pub first_byte : Bytes → ℕ
first_byte [] = 0
first_byte (b ∷ bs) = b

unfoldable pub ascii_alpha : ℕ → Bool
ascii_alpha c = (leb 65 c && leb c 90) || (leb 97 c && leb c 122)

unfoldable pub ascii_digit : ℕ → Bool
ascii_digit c = leb 48 c && leb c 57

unfoldable pub ascii_space : ℕ → Bool
ascii_space c = c == 32 || (leb 9 c && leb c 13)

unfoldable pub ascii_newline : ℕ → Bool
ascii_newline c = c == 10 || c == 13

unfoldable pub joyai_ascii_punct_symbol : ℕ → Bool
joyai_ascii_punct_symbol c =
    (leb 33 c && leb c 47)
    || ((leb 58 c && leb c 64) || ((leb 91 c && leb c 96) || (leb 123 c && leb c 126)))

-- The code point of a character of three bytes; those of other lengths are in none of the ranges.
unfoldable pub utf8_is_cjk_hira_kata : Bytes → Bool
utf8_is_cjk_hira_kata (a ∷ b ∷ c ∷ []) =
    let cp = (a - 0xe0) * 4096 + (b - 0x80) * 64 + (c - 0x80) in
    (leb 0x4e00 cp && leb cp 0x9fa5) || (leb 0x3040 cp && leb cp 0x30ff)
utf8_is_cjk_hira_kata char = false

abbrev pub digit_at : Bytes → Bool
digit_at char = ascii_digit (first_byte char)

abbrev pub alpha_at : Bytes → Bool
alpha_at char = ascii_alpha (first_byte char)

abbrev pub punct_at : Bytes → Bool
punct_at char = joyai_ascii_punct_symbol (first_byte char)

abbrev pub newline_at : Bytes → Bool
newline_at char = ascii_newline (first_byte char)

abbrev pub space_at : Bytes → Bool
space_at char = ascii_space (first_byte char)

unfoldable pub joyai_letter_like_at : Bytes → Bool
joyai_letter_like_at char =
    if ltb (first_byte char) 128 then ascii_alpha (first_byte char) else true

-- How many characters a `while` loop passes.
unfoldable pub run : (Bytes → Bool) → List Bytes → ℕ
run test [] = 0
run test (char ∷ rest) = let more = run test rest in if test char then suc more else 0

-- A test of the next character, if there is one.
abbrev pub next_is : (Bytes → Bool) → List Bytes → Bool
next_is test [] = false
next_is test (char ∷ rest) = test char

-- `last_newline_end` after the spaces, with `p` of them passed so far.
unfoldable pub last_newline_end : ℕ → ℕ → List Bytes → ℕ
last_newline_end p found [] = found
last_newline_end p found (char ∷ rest) =
    let after = last_newline_end (p + 1) (if newline_at char then p + 1 else found) rest in
    if space_at char then after else found

unfoldable pub space_piece : List Bytes → ℕ
unfolding run last_newline_end
space_piece text =
    let p = run space_at text in
    let found = last_newline_end 0 0 text in
    if not (found == 0)
    then found
    else if ltb 1 p
        && (next_is joyai_letter_like_at (drop p text) || next_is punct_at (drop p text))
    then p - 1
    else p

-- Symbols, and the newlines behind them.
unfoldable pub symbol_run : List Bytes → ℕ
symbol_run text = run punct_at text + run newline_at (drop (run punct_at text) text)

-- The branches of `joyai_pieces`: how many characters the piece has that starts here.
unfoldable pub branch_len : Bytes → List Bytes → ℕ
branch_len char rest =
    if digit_at char
    then min 3 (run digit_at (char ∷ rest))
    else if utf8_is_cjk_hira_kata char
    then run utf8_is_cjk_hira_kata (char ∷ rest)
    else if punct_at char && next_is alpha_at rest
    then 1 + run alpha_at rest
    else if joyai_letter_like_at char
    then run joyai_letter_like_at (char ∷ rest)
    else if not (newline_at char) && (not (punct_at char) && next_is joyai_letter_like_at rest)
    then 1 + run joyai_letter_like_at rest
    else if first_byte char == 32 && next_is punct_at rest
    then 1 + symbol_run rest
    else if punct_at char
    then symbol_run (char ∷ rest)
    else if space_at char
    then space_piece (char ∷ rest)
    else 1

-- `if pos == start { pos = next_utf8_char(text, pos) }`
unfoldable pub piece_len : Bytes → List Bytes → ℕ
piece_len char rest = let n = branch_len char rest in if n == 0 then 1 else n

-- The outer loop, on fuel: each piece takes a character at least.
unfoldable pub pieces_from : ℕ → List Bytes → List (List Bytes)
pieces_from zero text = []
pieces_from (suc fuel) [] = []
pieces_from (suc fuel) (char ∷ rest) =
    take (piece_len char rest) (char ∷ rest)
    ∷ pieces_from fuel (drop (piece_len char rest) (char ∷ rest))

unfoldable pub joyai_pieces : List Bytes → List (List Bytes)
unfolding pieces_from
joyai_pieces text = pieces_from (length text) text

unfoldable pub joined : List Bytes → Bytes
joined [] = []
joined (char ∷ rest) = char ++ joined rest

abbrev emit_pieces : Vocabulary → List (List Bytes) → Tokens → Tokens
emit_pieces vocab [] out = out
emit_pieces vocab (piece ∷ rest) out =
    emit_pieces vocab rest (bpe_emit_piece vocab (joined piece) out)

abbrev whole_or_pieces : Vocabulary → Bytes → Option ℕ → Tokens
whole_or_pieces vocab text (some token) = token ∷ []
whole_or_pieces vocab text none = emit_pieces vocab (joyai_pieces (chars text)) []

unfoldable pub tokenize_text_bpe : Vocabulary → Bytes → Tokens
tokenize_text_bpe vocab [] = []
tokenize_text_bpe vocab (b ∷ bs) =
    whole_or_pieces vocab (b ∷ bs) (lookup (b ∷ bs) vocab.token_to_id)
