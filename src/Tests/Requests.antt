-- ===== src/Tests/Requests.antt =====
-- src/protocol on small requests and texts.
use ds4_rs.Base.{◌+◌, ◌≡◌, refl, [], ◌∷◌, ◌++◌, some, false, All, length, arith, list_eq}
use ds4_rs.Bytes.{Bytes}
use ds4_rs.Protocol.Advance.{rounds-advances}
use ds4_rs.Protocol.Arguments.{rounds, round, parse_json_object_arguments}
use ds4_rs.Protocol.Arguments.Scan.{
  scan_string, parse_json_string_at, skip_json_ws, leading_ws, find_json_value_end,
  find_matching_delim, plain_len,
}
use ds4_rs.Protocol.Chunks.{
  stream_chunks, chunks_from, concat_each, or_one_empty, IsChunk, stream_chunks-IsChunk,
}
use ds4_rs.Protocol.Closed.{contains-escape}
use ds4_rs.Protocol.Escape.{json_escape, escape_byte, escape_dsml_parameter_text}
use ds4_rs.Protocol.Quoted.{parse_json_string_at-json_escape}
use ds4_rs.Protocol.Request.Collect.{escape_tool_result_text}
use ds4_rs.Text.{
  utf8, contains, chars, concat, trim, trim_start_chars, trim_end_chars, is_whitespace,
  is_whitespace_code, code_point, ends_with,
}
use ds4_rs.Types.{starts_with}

parse_json_string_at-json_escape_example :
    parse_json_string_at
      ((58 ∷ []) ++ (34 ∷ (json_escape (97 ∷ 34 ∷ 10 ∷ []) ++ (34 ∷ (125 ∷ [])))))
      1
    ≡ some (97 ∷ 34 ∷ 10 ∷ [], 1 + 1 + (length (json_escape (97 ∷ 34 ∷ 10 ∷ [])) + 1))
parse_json_string_at-json_escape_example =
    parse_json_string_at-json_escape (58 ∷ []) (97 ∷ 34 ∷ 10 ∷ []) (125 ∷ [])
      (refl, (refl, (refl, tt)))

-- A control character that is escaped by its number comes back as the letter u and four digits.
control_character :
    parse_json_string_at (34 ∷ (json_escape (1 ∷ []) ++ (34 ∷ []))) 0
    ≡ some (117 ∷ 48 ∷ 48 ∷ 48 ∷ 49 ∷ [], 8)
unfolding parse_json_string_at scan_string json_escape escape_byte
control_character = refl

contains-escape_example :
    (contains (escape_tool_result_text (utf8 "a</tool_result>")) (utf8 "</tool_result>") ≡ false)
    × (contains (escape_dsml_parameter_text (utf8 "a</tool_result>")) (utf8 "</｜DSML｜parameter>")
        ≡ false)
contains-escape_example = contains-escape (utf8 "a</tool_result>")

-- `{"a":1}`
abbrev small_arguments : Bytes
small_arguments = 123 ∷ 34 ∷ 97 ∷ 34 ∷ 58 ∷ 49 ∷ 125 ∷ []

small_arguments_read :
    parse_json_object_arguments small_arguments
    ≡ some (record { key = 97 ∷ []; value = 49 ∷ []; is_string = false } ∷ [])
unfolding parse_json_object_arguments rounds round skip_json_ws leading_ws parse_json_string_at
    scan_string find_json_value_end find_matching_delim plain_len trim trim_start_chars
    trim_end_chars chars concat is_whitespace is_whitespace_code code_point starts_with ends_with
    list_eq
small_arguments_read = refl

rounds-advances_example : rounds (6 + 9) small_arguments [] 1 ≡ rounds 6 small_arguments [] 1
rounds-advances_example = rounds-advances 6 9 small_arguments [] 1 (omega arith)

stream_chunks-IsChunk_example :
    (concat (stream_chunks (97 ∷ 98 ∷ 99 ∷ []) 2) ≡ 97 ∷ 98 ∷ 99 ∷ [])
    × (stream_chunks (97 ∷ 98 ∷ 99 ∷ []) 2
        ≡ or_one_empty (concat_each (chunks_from 2 [] (chars (97 ∷ 98 ∷ 99 ∷ [])))))
    × All (IsChunk 2) (chunks_from 2 [] (chars (97 ∷ 98 ∷ 99 ∷ [])))
stream_chunks-IsChunk_example = stream_chunks-IsChunk (97 ∷ 98 ∷ 99 ∷ []) 2
