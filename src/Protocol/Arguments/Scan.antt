-- ===== src/Protocol/Arguments/Scan.antt =====
-- src/protocol/render.rs: the scanners of JSON texts. A position counts bytes from the start of the
-- input.
use ds4_rs.Base.{
  ℕ, suc, ◌+◌, ◌-◌, List, [], ◌∷◌, Option, none, some, Bool, true, false, not, ◌==◌, ◌||◌,
  if◌then◌else◌, length, drop,
}
use ds4_rs.Bytes.{Bytes}
use ds4_rs.Text.{utf8, chars, is_whitespace}
use ds4_rs.Types.{starts_with}

-- The bytes of the leading white space.
unfoldable pub leading_ws : List Bytes → ℕ
unfolding is_whitespace
leading_ws [] = 0
leading_ws (c ∷ cs) = let rest = leading_ws cs in if is_whitespace c then length c + rest else 0

unfoldable pub skip_json_ws : Bytes → ℕ → ℕ
unfolding leading_ws chars
skip_json_ws input pos = pos + leading_ws (chars (drop pos input))

-- The character for one that follows a backslash.
abbrev pub unescaped : ℕ → ℕ
unescaped b = if b == 110 then 10 else if b == 114 then 13 else if b == 116 then 9 else b

abbrev pub with_byte : ℕ → Option (Bytes × ℕ) → Option (Bytes × ℕ)
with_byte b none = none
with_byte b (some (out, used)) = some (b ∷ out, suc used)

abbrev pub after_backslash : Option (Bytes × ℕ) → Option (Bytes × ℕ)
after_backslash none = none
after_backslash (some (out, used)) = some (out, suc used)

-- The loop of `parse_json_string_at` behind the opening quote, with the bytes it goes over.
unfoldable pub scan_string : Bool → Bytes → Option (Bytes × ℕ)
scan_string escaped [] = none
scan_string true (b ∷ s) = with_byte (unescaped b) (scan_string false s)
scan_string false (b ∷ s) = elim (b == 92) [
  | true ↦ after_backslash (scan_string true s)
  | false ↦ elim (b == 34) [ true ↦ some ([], 1) | false ↦ with_byte b (scan_string false s) ]
]

abbrev pub behind_quote : ℕ → Option (Bytes × ℕ) → Option (Bytes × ℕ)
behind_quote start none = none
behind_quote start (some (out, used)) = some (out, start + 1 + used)

abbrev pub string_from : ℕ → Bytes → Option (Bytes × ℕ)
string_from start [] = none
string_from start (b ∷ s) = if not (b == 34) then none else behind_quote start (scan_string false s)

unfoldable pub parse_json_string_at : Bytes → ℕ → Option (Bytes × ℕ)
unfolding scan_string
parse_json_string_at input start = string_from start (drop start input)

abbrev pub found_at : Option ℕ → Option ℕ
found_at none = none
found_at (some n) = some (suc n)

-- The loop of `find_matching_delim`: how many bytes stand before the delimiter that closes.
unfoldable pub matching_from : ℕ → ℕ → ℕ → Bool → Bool → Bytes → Option ℕ
matching_from opens closes depth in_string escaped [] = none
matching_from opens closes depth true true (b ∷ s) =
    found_at (matching_from opens closes depth true false s)
matching_from opens closes depth true false (b ∷ s) = found_at (elim (b == 92) [
  | true ↦ matching_from opens closes depth true true s
  | false ↦ elim (b == 34) [
    | true ↦ matching_from opens closes depth false false s
    | false ↦ matching_from opens closes depth true false s
  ]
])
matching_from opens closes depth false escaped (b ∷ s) = elim (b == 34) [
  | true ↦ found_at (matching_from opens closes depth true escaped s)
  | false ↦ elim (b == opens) [
    | true ↦ found_at (matching_from opens closes (depth + 1) false escaped s)
    | false ↦ elim (b == closes) [
      | false ↦ found_at (matching_from opens closes depth false escaped s)
      | true ↦ elim (depth - 1 == 0) [
        | true ↦ some 0
        | false ↦ found_at (matching_from opens closes (depth - 1) false escaped s)
      ]
    ]
  ]
]

abbrev pub plus : ℕ → Option ℕ → Option ℕ
plus start none = none
plus start (some n) = some (start + n)

unfoldable pub find_matching_delim : Bytes → ℕ → ℕ → ℕ → Option ℕ
unfolding matching_from
find_matching_delim input start opens closes =
    plus start (matching_from opens closes 0 false false (drop start input))

-- The bytes before a comma, a closing brace or white space.
unfoldable pub plain_len : List Bytes → ℕ
unfolding is_whitespace
plain_len [] = 0
plain_len (c ∷ cs) =
    let rest = plain_len cs in
    if starts_with c (utf8 ",") || (starts_with c (utf8 "}") || is_whitespace c)
    then 0
    else length c + rest

abbrev pub end_of : Option (Bytes × ℕ) → Option ℕ
end_of none = none
end_of (some (out, end)) = some end

abbrev pub value_end : Bytes → ℕ → Bytes → Option ℕ
value_end input start [] = none
value_end input start (b ∷ s) =
    if b == 34
    then end_of (parse_json_string_at input start)
    else if b == 123
    then plus 1 (find_matching_delim input start 123 125)
    else if b == 91
    then plus 1 (find_matching_delim input start 91 93)
    else some (start + plain_len (chars (b ∷ s)))

unfoldable pub find_json_value_end : Bytes → ℕ → Option ℕ
unfolding parse_json_string_at find_matching_delim plain_len
find_json_value_end input start = value_end input start (drop start input)
