-- ===== src/Protocol/Quoted.antt =====
-- `json_escape` and `parse_json_string_at` of src/protocol/render.rs, the one after the other.
use ds4_rs.Base.{
  ℕ, ◌+◌, ◌≡◌, refl, [], ◌∷◌, ◌++◌, some, Bool, true, false, ◌==◌, ◌||◌, leb, length, All, arith,
  append_assoc, drop-append, length-append,
}
use ds4_rs.Bytes.{Bytes}
use ds4_rs.Protocol.Arguments.Scan.{scan_string, parse_json_string_at}
use ds4_rs.Protocol.Escape.{json_escape, escape_byte}

-- The byte is no control character that is escaped by its number.
abbrev pub survives : ℕ → Bool
survives b = leb 32 b || (b == 9 || (b == 10 || b == 13))

scan_string-quote : (t : Bytes) → scan_string false (34 ∷ t) ≡ some ([], 1)
unfolding scan_string
scan_string-quote t = refl

scan_string-escape_byte :
    (b : ℕ) (t out : Bytes) (used : ℕ)
    → survives b ≡ true
    → scan_string false t ≡ some (out, used)
    → scan_string false (escape_byte b ++ t) ≡ some (b ∷ out, length (escape_byte b) + used)
unfolding escape_byte scan_string
scan_string-escape_byte b t out used plain e = ground (arith)

scan_string-json_escape :
    (s rest : Bytes)
    → All (λ b. survives b ≡ true) s
    → scan_string false (json_escape s ++ (34 ∷ rest)) ≡ some (s, length (json_escape s) + 1)
unfolding json_escape
scan_string-json_escape [] rest plain = scan_string-quote rest
scan_string-json_escape (b ∷ s) rest plain =
    let e : length (escape_byte b ++ json_escape s) + 1
        ≡ length (escape_byte b) + (length (json_escape s) + 1) =
      omega (arith, length-append (escape_byte b) (json_escape s)) in
    rw (e, append_assoc (escape_byte b) (json_escape s) (34 ∷ rest))
      (scan_string-escape_byte b _ s (length (json_escape s) + 1) plain.0
        (scan_string-json_escape s rest plain.1))

-- Where a text stands escaped between quotes, `parse_json_string_at` reads the text back and stops
-- behind the closing quote, if no byte of it is a control character but a tab or a line end.
pub parse_json_string_at-json_escape :
    (before s rest : Bytes)
    → All (λ b. survives b ≡ true) s
    → parse_json_string_at (before ++ (34 ∷ (json_escape s ++ (34 ∷ rest)))) (length before)
      ≡ some (s, length before + 1 + (length (json_escape s) + 1))
unfolding parse_json_string_at
parse_json_string_at-json_escape before s rest plain =
    rw
      (
        drop-append before (34 ∷ (json_escape s ++ (34 ∷ rest))),
        scan_string-json_escape s rest plain,
      )
      refl
