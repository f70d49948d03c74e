-- ===== src/Tokenizer/Bpe.antt =====
-- src/tokenizer.rs: `byte_encode` and `bpe_emit_piece`.
use ds4_rs.Base.{
  ℕ, zero, suc, ◌+◌, ◌-◌, ◌/◌, ◌%◌, ◌^◌, List, [], ◌∷◌, ◌++◌, Option, none, some, Bool, ◌==◌, ◌||◌,
  ◌&&◌, if◌then◌else◌, length, ltb, leb, not,
}
use ds4_rs.Bytes.{Bytes}
use ds4_rs.Maps.{lookup}
use ds4_rs.Text.{chars}
use ds4_rs.Tokenizer.{Vocabulary}
use ds4_rs.Types.{Tokens}

-- The bytes that stand for themselves.
unfoldable pub is_plain : ℕ → Bool
is_plain b = (leb 33 b && leb b 126) || ((leb 161 b && leb b 172) || leb 174 b)

-- The loop of `gpt2_byte_to_codepoint`, from `x` with `n` bytes counted so far; `left` values of
-- `x` are left.
unfoldable pub count_to : ℕ → ℕ → ℕ → ℕ → ℕ
count_to zero b x n = b
count_to (suc left) b x n =
    let rest = count_to left b (x + 1) (if is_plain x then n else n + 1) in
    if not (is_plain x) && x == b then 256 + n else rest

unfoldable pub gpt2_byte_to_codepoint : ℕ → ℕ
unfolding count_to
gpt2_byte_to_codepoint b = if is_plain b then b else count_to 256 b 0 0

-- The character of a code point below 0x800, in UTF-8.
unfoldable pub encode_char : ℕ → Bytes
encode_char cp = if ltb cp 0x80 then cp ∷ [] else (0xc0 + cp / 64) ∷ (0x80 + cp % 64) ∷ []

-- `byte_encode`, as its characters. The code points are below 0x800 and no surrogates, so
-- `char::from_u32` answers each of them.
unfoldable pub byte_encode : Bytes → List Bytes
unfolding gpt2_byte_to_codepoint encode_char
byte_encode [] = []
byte_encode (b ∷ bytes) = encode_char (gpt2_byte_to_codepoint b) ∷ byte_encode bytes

-- `a < b` of two i32
abbrev pub i32_lt : ℕ → ℕ → Bool
i32_lt a b = ltb ((a + 2 ^ 31) % 2 ^ 32) ((b + 2 ^ 31) % 2 ^ 32)

abbrev pub i32_max : ℕ
i32_max = 2 ^ 31 - 1

-- The rank of a pair: both branches of the source look for the two with a space between them.
unfoldable pub pair_rank : Vocabulary → Bytes → Bytes → Option ℕ
pair_rank vocab s1 s2 = lookup (s1 ++ (32 ∷ s2)) vocab.merges

-- The best pair so far, after the pair at `i` has been looked at.
unfoldable pub better : ℕ → Option ℕ → Option ℕ × ℕ → Option ℕ × ℕ
better i none best = best
better i (some rank) best = if i32_lt rank best.1 then (some i, rank) else best

-- The `for` loop that looks for the best pair.
unfoldable pub best_from : Vocabulary → ℕ → Option ℕ × ℕ → List Bytes → Option ℕ
unfolding better pair_rank
best_from vocab i best [] = best.0
best_from vocab i best (s1 ∷ []) = best.0
best_from vocab i best (s1 ∷ s2 ∷ rest) =
    best_from vocab (i + 1) (better i (pair_rank vocab s1 s2) best) (s2 ∷ rest)

unfoldable pub best_pair : Vocabulary → List Bytes → Option ℕ
unfolding best_from
best_pair vocab sym = best_from vocab 0 (none, i32_max) sym

-- `sym[best_i] = merged; sym.remove(best_i + 1)`
unfoldable pub merge_at : ℕ → List Bytes → List Bytes
merge_at i [] = []
merge_at i (a ∷ []) = a ∷ []
merge_at zero (a ∷ b ∷ rest) = (a ++ b) ∷ rest
merge_at (suc i) (a ∷ b ∷ rest) = a ∷ merge_at i (b ∷ rest)

-- The `loop`, on fuel: each round but the last one makes the list one shorter.
unfoldable pub merge_loop : ℕ → Vocabulary → List Bytes → List Bytes
merge_loop zero vocab sym = sym
merge_loop (suc fuel) vocab sym = elim (best_pair vocab sym) [
  | none ↦ sym
  | some i ↦ merge_loop fuel vocab (merge_at i sym)
]

unfoldable pub merge_symbols : Vocabulary → List Bytes → List Bytes
unfolding merge_loop
merge_symbols vocab sym = merge_loop (length sym) vocab sym

abbrev some_token : Option ℕ → Tokens → Tokens
some_token none rest = rest
some_token (some token) rest = token ∷ rest

-- The tokens of the characters that have one.
unfoldable pub char_tokens : Vocabulary → List Bytes → Tokens
char_tokens vocab [] = []
char_tokens vocab (one ∷ rest) = some_token (lookup one vocab.token_to_id) (char_tokens vocab rest)

abbrev symbol_tokens : Vocabulary → Bytes → Option ℕ → Tokens
symbol_tokens vocab symbol (some token) = token ∷ []
symbol_tokens vocab symbol none = char_tokens vocab (chars symbol)

unfoldable pub emit_symbols : Vocabulary → List Bytes → Tokens
unfolding char_tokens chars
emit_symbols vocab [] = []
emit_symbols vocab (symbol ∷ rest) =
    symbol_tokens vocab symbol (lookup symbol vocab.token_to_id) ++ emit_symbols vocab rest

-- `bpe_emit_piece`
unfoldable pub bpe_emit_piece : Vocabulary → Bytes → Tokens → Tokens
unfolding emit_symbols merge_symbols byte_encode
bpe_emit_piece vocab raw_piece out =
    out ++ emit_symbols vocab (merge_symbols vocab (byte_encode raw_piece))
