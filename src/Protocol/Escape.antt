-- ===== src/Protocol/Escape.antt =====
-- src/protocol/render.rs: the escaping of texts for JSON and for the markup of tool calls, and
-- `json_escape_min` of src/server.rs, which is the same code as `json_escape`.
use ds4_rs.Base.{ℕ, ◌+◌, ◌/◌, ◌%◌, [], ◌∷◌, ◌++◌, Bool, false, ◌==◌, ◌||◌, ltb, if◌then◌else◌}
use ds4_rs.Bytes.{Bytes}
use ds4_rs.Protocol.Json.{is_text}
use ds4_rs.Text.{utf8, replace, trim, between}
use ds4_rs.Types.{starts_with}

abbrev pub escaped_digit : ℕ → ℕ
escaped_digit n = if ltb n 10 then 48 + n else 87 + n

-- One round of the loop of `json_escape`. All characters that are escaped are single bytes.
unfoldable pub escape_byte : ℕ → Bytes
escape_byte b =
    if b == 92
    then 92 ∷ 92 ∷ []
    else if b == 34
    then 92 ∷ 34 ∷ []
    else if b == 10
    then 92 ∷ 110 ∷ []
    else if b == 13
    then 92 ∷ 114 ∷ []
    else if b == 9
    then 92 ∷ 116 ∷ []
    else if ltb b 32
    then 92 ∷ 117 ∷ 48 ∷ 48 ∷ escaped_digit (b / 16) ∷ escaped_digit (b % 16) ∷ []
    else b ∷ []

unfoldable pub json_escape : Bytes → Bytes
unfolding escape_byte
json_escape [] = []
json_escape (b ∷ s) = escape_byte b ++ json_escape s

-- `json_escape_min` of the server
abbrev pub json_escape_min : Bytes → Bytes
json_escape_min s = json_escape s

unfoldable pub escape_dsml_attr : Bytes → Bytes
unfolding replace
escape_dsml_attr input =
    let ampersands = replace input (38 ∷ []) (utf8 "&amp;") in
    let quotes = replace ampersands (34 ∷ []) (utf8 "&quot;") in
    let less = replace quotes (60 ∷ []) (utf8 "&lt;") in replace less (62 ∷ []) (utf8 "&gt;")

unfoldable pub escape_dsml_parameter_text : Bytes → Bytes
unfolding replace
escape_dsml_parameter_text input =
    replace input (utf8 "</｜DSML｜parameter>") (utf8 "&lt;/｜DSML｜parameter>")

abbrev starts_number : Bytes → Bool
starts_number [] = false
starts_number (b ∷ s) = b == 45 || between 48 57 b

abbrev raw_trimmed : Bytes → Bytes
raw_trimmed trimmed =
    if starts_with trimmed (utf8 "{")
      || (starts_with trimmed (utf8 "[")
          || (is_text trimmed "true"
              || (is_text trimmed "false" || (is_text trimmed "null" || starts_number trimmed))))
    then trimmed
    else 34 ∷ (json_escape trimmed ++ (34 ∷ []))

unfoldable pub raw_json_or_string : Bytes → Bytes
raw_json_or_string input = raw_trimmed (trim input)
