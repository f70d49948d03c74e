-- ===== src/Text.antt =====
-- The operations of `str` and `char` of the standard library that the program's text handling uses,
-- on the UTF-8 bytes of a string. A character is the bytes that encode it.
pub mod Replace
pub mod Contains
pub mod Format
use Prim.Native.Char.{code}
use ds4_rs.Base.{
  ℕ, zero, suc, ◌+◌, ◌-◌, ◌*◌, ◌/◌, ◌%◌, ◌^◌, List, [], ◌∷◌, ◌++◌, Option, none, some, Bool, true,
  false, not, ◌&&◌, ◌||◌, ◌==◌, ltb, leb, if◌then◌else◌, length, map, list_eq, String,
}
use ds4_rs.Bytes.{Bytes}
use ds4_rs.Types.{starts_with}

-- `char::encode_utf8` of a code point
abbrev pub encode_utf8 : ℕ → Bytes
encode_utf8 c =
    if ltb c 0x80
    then c ∷ []
    else if ltb c 0x800
    then (0xc0 + c / 64) ∷ (0x80 + c % 64) ∷ []
    else if ltb c 0x10000
    then (0xe0 + c / 4096) ∷ (0x80 + c / 64 % 64) ∷ (0x80 + c % 64) ∷ []
    else (0xf0 + c / 262144) ∷ (0x80 + c / 4096 % 64) ∷ (0x80 + c / 64 % 64) ∷ (0x80 + c % 64) ∷ []

-- A text literal, as bytes.
abbrev pub utf8 : String → Bytes
utf8 String.[] = []
utf8 (String.◌∷◌ c s) = encode_utf8 (code c) ++ utf8 s

abbrev pub is_continuation : Bytes → Bool
is_continuation [] = false
is_continuation (b ∷ bs) = leb 0x80 b && ltb b 0xc0

abbrev pub add_byte : ℕ → List Bytes → List Bytes
add_byte b [] = (b ∷ []) ∷ []
add_byte b (c ∷ cs) = if is_continuation c then (b ∷ c) ∷ cs else (b ∷ []) ∷ c ∷ cs

-- `s.chars()` of a valid string: a character ends where the next byte is not a continuation.
unfoldable pub chars : Bytes → List Bytes
chars [] = []
chars (b ∷ bs) = add_byte b (chars bs)

-- `chars.collect::<String>()`
unfoldable pub concat : List Bytes → Bytes
concat [] = []
concat (c ∷ cs) = c ++ concat cs

-- `ch as u32`
unfoldable pub code_point : Bytes → ℕ
code_point [] = 0
code_point (a ∷ []) = a
code_point (a ∷ b ∷ []) = (a - 0xc0) * 64 + (b - 0x80)
code_point (a ∷ b ∷ c ∷ []) = (a - 0xe0) * 4096 + (b - 0x80) * 64 + (c - 0x80)
code_point (a ∷ b ∷ c ∷ d ∷ rest) =
    (a - 0xf0) * 262144 + (b - 0x80) * 4096 + (c - 0x80) * 64 + (d - 0x80)

abbrev pub between : ℕ → ℕ → ℕ → Bool
between lo hi n = leb lo n && leb n hi

-- `char::is_whitespace`, by code point: the property White_Space of the Unicode standard.
unfoldable pub is_whitespace_code : ℕ → Bool
is_whitespace_code c =
    between 9 13 c
    || (c == 32
        || (c == 0x85
            || (c == 0xa0
                || (c == 0x1680
                    || (between 0x2000 0x200a c
                        || (c == 0x2028
                            || (c == 0x2029 || (c == 0x202f || (c == 0x205f || c == 0x3000)))))))))

unfoldable pub is_whitespace : Bytes → Bool
unfolding is_whitespace_code code_point
is_whitespace ch = is_whitespace_code (code_point ch)

unfoldable pub trim_start_chars : List Bytes → List Bytes
unfolding is_whitespace
trim_start_chars [] = []
trim_start_chars (c ∷ cs) =
    let rest = trim_start_chars cs in if is_whitespace c then rest else c ∷ cs

abbrev before_trimmed : Bytes → List Bytes → List Bytes
before_trimmed c [] = if is_whitespace c then [] else c ∷ []
before_trimmed c (d ∷ ds) = c ∷ d ∷ ds

unfoldable pub trim_end_chars : List Bytes → List Bytes
trim_end_chars [] = []
trim_end_chars (c ∷ cs) = before_trimmed c (trim_end_chars cs)

-- `s.trim()`
unfoldable pub trim : Bytes → Bytes
unfolding chars concat trim_start_chars trim_end_chars
trim s = concat (trim_end_chars (trim_start_chars (chars s)))

-- `s.strip_prefix(p)`
unfoldable pub strip_prefix : Bytes → Bytes → Option Bytes
strip_prefix s [] = some s
strip_prefix [] (p ∷ ps) = none
strip_prefix (b ∷ s) (p ∷ ps) = let rest = strip_prefix s ps in if b == p then rest else none

-- `s.ends_with(p)`
unfoldable pub ends_with : Bytes → Bytes → Bool
unfolding list_eq
ends_with [] p = list_eq [] p
ends_with (b ∷ s) p = list_eq (b ∷ s) p || ends_with s p

-- `s.contains(p)`
unfoldable pub contains : Bytes → Bytes → Bool
unfolding starts_with
contains [] p = starts_with [] p
contains (b ∷ s) p = starts_with (b ∷ s) p || contains s p

-- `s.replace(from, to)` of a pattern that is not empty: `skip` bytes of a match are still due.
unfoldable pub replace_from : ℕ → Bytes → Bytes → Bytes → Bytes
unfolding starts_with
replace_from due [] from to = []
replace_from (suc due) (b ∷ s) from to = replace_from due s from to
replace_from zero (b ∷ s) from to = elim (starts_with (b ∷ s) from) [
  | true ↦ to ++ replace_from (length from - 1) s from to
  | false ↦ b ∷ replace_from 0 s from to
]

unfoldable pub replace : Bytes → Bytes → Bytes → Bytes
unfolding replace_from
replace s from to = replace_from 0 s from to

-- `s.split_once(byte)` at a character of one byte
unfoldable pub split_once : Bytes → ℕ → Option (Bytes × Bytes)
split_once [] sep = none
split_once (b ∷ s) sep = elim (b == sep) [
  | true ↦ some ([], s)
  | false ↦ elim (split_once s sep) [ none ↦ none | some (l, r) ↦ some (b ∷ l, r) ]
]

abbrev into_line : ℕ → List (Bytes × Bool) → List (Bytes × Bool)
into_line b [] = (b ∷ [], false) ∷ []
into_line b ((l, ended) ∷ ls) = (b ∷ l, ended) ∷ ls

-- The lines without their ends, and whether a line feed ends them.
unfoldable pub line_pieces : Bytes → List (Bytes × Bool)
line_pieces [] = []
line_pieces (b ∷ s) =
    let rest = line_pieces s in if b == 10 then ([], true) ∷ rest else into_line b rest

unfoldable pub strip_carriage_return : Bytes → Bytes
strip_carriage_return [] = []
strip_carriage_return (b ∷ []) = if b == 13 then [] else b ∷ []
strip_carriage_return (b ∷ c ∷ s) = b ∷ strip_carriage_return (c ∷ s)

abbrev line_of : Bytes × Bool → Bytes
line_of (l, ended) = if ended then strip_carriage_return l else l

-- `s.lines()`
unfoldable pub lines : Bytes → List Bytes
unfolding line_pieces strip_carriage_return
lines s = map line_of (line_pieces s)

-- `parts.join(sep)`
unfoldable pub join : List Bytes → Bytes → Bytes
join [] sep = []
join (x ∷ []) sep = x
join (x ∷ y ∷ rest) sep = x ++ (sep ++ join (y ∷ rest) sep)

abbrev ascii_lower : ℕ → ℕ
ascii_lower b = if between 65 90 b then b + 32 else b

-- `a.eq_ignore_ascii_case(b)`
unfoldable pub eq_ignore_ascii_case : Bytes → Bytes → Bool
unfolding list_eq
eq_ignore_ascii_case a b = list_eq (map ascii_lower a) (map ascii_lower b)

unfoldable pub decimal_from : ℕ → ℕ → Bytes → Bytes
decimal_from zero n rest = rest
decimal_from (suc fuel) n rest = elim (ltb n 10) [
  | true ↦ (48 + n) ∷ rest
  | false ↦ decimal_from fuel (n / 10) ((48 + n % 10) ∷ rest)
]

-- `{n}` of a number below 2 ^ 64, which has at most twenty digits.
unfoldable pub decimal : ℕ → Bytes
unfolding decimal_from
decimal n = decimal_from 20 n []

unfoldable pub parse_digits : ℕ → Bytes → Option ℕ
parse_digits n [] = some n
parse_digits n (b ∷ s) =
    let next = n * 10 + (b - 48) in
    elim (between 48 57 b && ltb next (2 ^ 64)) [ true ↦ parse_digits next s | false ↦ none ]

-- `s.parse::<usize>().ok()`: an optional sign `+` and at least one digit.
unfoldable pub parse_usize : Bytes → Option ℕ
unfolding parse_digits
parse_usize [] = none
parse_usize (b ∷ []) = parse_digits 0 (b ∷ [])
parse_usize (b ∷ c ∷ s) = if b == 43 then parse_digits 0 (c ∷ s) else parse_digits 0 (b ∷ c ∷ s)

-- `list.is_empty()`
abbrev pub is_empty {ℓ} : {A : Type ℓ} → List A → Bool
is_empty [] = true
is_empty (x ∷ xs) = false

-- `option.unwrap_or(default)`
abbrev pub unwrap_or {ℓ} : {A : Type ℓ} → Option A → A → A
unwrap_or none a = a
unwrap_or (some x) a = x

-- `option.or_else(..)`
abbrev pub or_else {ℓ} : {A : Type ℓ} → Option A → Option A → Option A
or_else none o = o
or_else (some x) o = some x

abbrev pub is_some {ℓ} : {A : Type ℓ} → Option A → Bool
is_some none = false
is_some (some x) = true

-- `list.first()`
abbrev pub first {ℓ} : {A : Type ℓ} → List A → Option A
first [] = none
first (x ∷ xs) = some x

-- `iter.any(test)`
abbrev pub any {ℓ} : {A : Type ℓ} → (A → Bool) → List A → Bool
any test [] = false
any test (x ∷ xs) = test x || any test xs

-- `iter.find(test)`
abbrev pub find {ℓ} : {A : Type ℓ} → (A → Bool) → List A → Option A
find test [] = none
find test (x ∷ xs) = let rest = find test xs in if test x then some x else rest

-- `iter.filter(test)`
abbrev pub filter {ℓ} : {A : Type ℓ} → (A → Bool) → List A → List A
filter test [] = []
filter test (x ∷ xs) = let rest = filter test xs in if test x then x ∷ rest else rest
