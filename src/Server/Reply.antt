-- ===== src/Server/Reply.antt =====
-- src/server/reply.rs: the last words of the user, and which generated replies are not shown.
use ds4_rs.Base.{
  ℕ, zero, suc, ◌*◌, ◌/◌, ◌%◌, List, [], ◌∷◌, Option, none, Bool, true, false, not, ◌&&◌, ◌||◌,
  ◌==◌, ltb, leb, list_eq, length, take, drop,
}
use ds4_rs.Bytes.{Bytes}
use ds4_rs.Server.{Unicode}
use ds4_rs.Text.{
  utf8, chars, code_point, between, is_whitespace, trim, lines, strip_prefix, contains, is_empty,
  unwrap_or, or_else, any, filter,
}

-- `lines.rev().find_map(|line| line.strip_prefix("User: "))`
unfoldable pub last_user_line : List Bytes → Option Bytes
unfolding strip_prefix
last_user_line [] = none
last_user_line (line ∷ rest) = or_else (last_user_line rest) (strip_prefix line (utf8 "User: "))

unfoldable pub latest_user_text : Bytes → Bytes
unfolding last_user_line lines trim
latest_user_text prompt = trim (unwrap_or (last_user_line (lines prompt)) prompt)

unfoldable pub is_cjk_char : Bytes → Bool
unfolding code_point
is_cjk_char ch =
    let c = code_point ch in
    between 0x4e00 0x9fff c || (between 0x3400 0x4dbf c || between 0x3000 0x303f c)

unfoldable pub contains_cjk : Bytes → Bool
unfolding is_cjk_char chars
contains_cjk s = any is_cjk_char (chars s)

abbrev visible : Bytes → List Bytes
visible s = filter (λ ch. not (is_whitespace ch)) (chars s)

-- The character that stands for bytes that are no UTF-8.
abbrev is_replacement : Bytes → Bool
is_replacement ch = list_eq ch (0xef ∷ 0xbf ∷ 0xbd ∷ [])

unfoldable pub has_high_replacement_ratio : Bytes → Bool
unfolding chars is_whitespace list_eq
has_high_replacement_ratio s =
    let visible_chars = visible s in
    let replacements = length (filter is_replacement visible_chars) in
    not (ltb (length visible_chars) 4)
    && (leb 2 replacements && leb (length visible_chars) (replacements * 2))

abbrev chars_eq : List Bytes → List Bytes → Bool
chars_eq [] [] = true
chars_eq [] (d ∷ ds) = false
chars_eq (c ∷ cs) [] = false
chars_eq (c ∷ cs) (d ∷ ds) = list_eq c d && chars_eq cs ds

-- `chars.chunks(unit_len).all(|chunk| chunk == unit)`, for as many chunks as there are repeats.
unfoldable pub all_chunks : ℕ → List Bytes → List Bytes → Bool
unfolding list_eq
all_chunks zero unit chars = is_empty chars
all_chunks (suc repeats) unit chars =
    chars_eq (take (length unit) chars) unit && all_chunks repeats unit (drop (length unit) chars)

-- The text is at least three times its first `unit_len` characters.
unfoldable pub repeats_unit : ℕ → List Bytes → Bool
unfolding all_chunks
repeats_unit unit_len normalized =
    length normalized % unit_len == 0
    && (leb 3 (length normalized / unit_len)
        && all_chunks (length normalized / unit_len) (take unit_len normalized) normalized)

-- `for unit_len in 1..=n`
unfoldable pub repeats_up_to : ℕ → List Bytes → Bool
unfolding repeats_unit
repeats_up_to zero normalized = false
repeats_up_to (suc n) normalized = repeats_up_to n normalized || repeats_unit (suc n) normalized

unfoldable pub is_repetitive_reply : Bytes → Bool
unfolding repeats_up_to chars is_whitespace
is_repetitive_reply s =
    let normalized = visible s in
    not (ltb (length normalized) 6) && repeats_up_to (length normalized / 3) normalized

module _ (unicode : Unicode) where
  unfoldable pub contains_think_marker : Bytes → Bool
  unfolding contains
  contains_think_marker s =
      let lower = unicode.to_lowercase s in
      contains lower (utf8 "<think") || contains lower (utf8 "</think>")

  abbrev meaningful : Bytes → ℕ
  meaningful s = length (filter (λ ch. unicode.is_alphanumeric ch || is_cjk_char ch) (chars s))

  abbrev fallback_for : Bytes → Bool
  fallback_for trimmed =
      is_empty trimmed
      || ((contains_think_marker trimmed
            || (has_high_replacement_ratio trimmed || is_repetitive_reply trimmed))
          || leb (meaningful trimmed) 1)

  unfoldable pub should_fallback_generated_reply : Bytes → Bool
  unfolding contains_think_marker has_high_replacement_ratio is_repetitive_reply is_cjk_char chars
      trim
  should_fallback_generated_reply rendered = fallback_for (trim rendered)
