-- ===== src/Protocol/Arguments.antt =====
-- src/protocol/render.rs: the arguments of a tool call, read by `parse_json_object_arguments`, and
-- the block of markup that replays the call. A position counts bytes from the start of the input.
pub mod Scan
use ds4_rs.Base.{
  ℕ, zero, suc, ◌+◌, ◌-◌, List, [], ◌∷◌, ◌++◌, Option, none, some, Bool, true, false, not, ◌==◌,
  ◌||◌, leb, if◌then◌else◌, length, take, drop,
}
use ds4_rs.Bytes.{Bytes}
use ds4_rs.Protocol.Escape.{escape_dsml_attr, escape_dsml_parameter_text}
use ds4_rs.Protocol.{AssistantToolCall}
use ds4_rs.Text.{utf8, chars, trim, is_whitespace, ends_with}
use ds4_rs.Types.{starts_with}
use ds4_rs.Protocol.Arguments.Scan.{
  leading_ws, skip_json_ws, unescaped, with_byte, after_backslash, scan_string, behind_quote,
  string_from, parse_json_string_at, found_at, matching_from, plus, find_matching_delim, plain_len,
  end_of, value_end, find_json_value_end,
}

pub record DsmlArg : Type 0 where
  pub key : Bytes
  pub value : Bytes
  pub is_string : Bool

-- What a round of the loop of `parse_json_object_arguments` comes to: the function returns, or the
-- next round starts at a position with one argument more.
pub data Round : Type 0 where
  returns : Option (List DsmlArg) → Round
  goes_on : ℕ → DsmlArg → Round

-- The text at a position starts with a byte.
abbrev pub at_byte : Bytes → ℕ → ℕ → Bool
at_byte input pos b = starts_with (drop pos input) (b ∷ [])

abbrev pub decoded_value : ℕ → Option (Bytes × ℕ) → Option (Bytes × Bool)
decoded_value end none = none
decoded_value end (some (decoded, decoded_end)) =
    if decoded_end == end then some (decoded, true) else none

-- The value between two positions, decoded if it is a string.
abbrev pub value_of : Bytes → ℕ → ℕ → Bytes → Option (Bytes × Bool)
value_of input pos end raw =
    if not (starts_with raw (34 ∷ []))
    then some (raw, false)
    else decoded_value end (parse_json_string_at input pos)

-- Behind a value: a comma, the end, or anything else.
abbrev pub after_value : Bytes → List DsmlArg → ℕ → DsmlArg → Round
after_value input out pos arg =
    if at_byte input pos 44
    then goes_on (pos + 1) arg
    else if at_byte input pos 125
    then returns (some (out ++ (arg ∷ [])))
    else returns none

abbrev pub with_value : Bytes → List DsmlArg → Bytes → ℕ → Option (Bytes × Bool) → Round
with_value input out key end none = returns none
with_value input out key end (some (value, is_string)) =
    after_value input out (skip_json_ws input end)
      (record { key = key; value = value; is_string = is_string })

abbrev pub with_end : Bytes → List DsmlArg → Bytes → ℕ → Option ℕ → Round
with_end input out key pos none = returns none
with_end input out key pos (some end) =
    with_value input out key end (value_of input pos end (trim (take (end - pos) (drop pos input))))

abbrev pub with_colon : Bytes → List DsmlArg → Bytes → ℕ → Round
with_colon input out key pos =
    if not (at_byte input pos 58)
    then returns none
    else let value_pos = skip_json_ws input (pos + 1) in
      with_end input out key value_pos (find_json_value_end input value_pos)

abbrev pub with_key : Bytes → List DsmlArg → Option (Bytes × ℕ) → Round
with_key input out none = returns none
with_key input out (some (key, next)) = with_colon input out key (skip_json_ws input next)

-- One round of the loop.
unfoldable pub round : Bytes → List DsmlArg → ℕ → Round
unfolding skip_json_ws parse_json_string_at find_json_value_end trim
round input out start =
    let pos = skip_json_ws input start in
    if at_byte input pos 125
    then returns (some out)
    else with_key input out (parse_json_string_at input pos)

-- The loop, on fuel.
unfoldable pub rounds : ℕ → Bytes → List DsmlArg → ℕ → Option (List DsmlArg)
unfolding round
rounds zero input out pos = none
rounds (suc fuel) input out pos =
    if leb (length input) pos then none else elim (round input out pos) [
      | returns answer ↦ answer
      | goes_on next arg ↦ rounds fuel input (out ++ (arg ∷ [])) next
    ]

abbrev trimmed_arguments : Bytes → Option (List DsmlArg)
trimmed_arguments input =
    if not (starts_with input (utf8 "{")) || not (ends_with input (utf8 "}"))
    then none
    else rounds (length input) input [] 1

unfoldable pub parse_json_object_arguments : Bytes → Option (List DsmlArg)
unfolding rounds trim ends_with
parse_json_object_arguments input = trimmed_arguments (trim input)

abbrev pub bool_text : Bool → Bytes
bool_text b = if b then utf8 "true" else utf8 "false"

unfoldable pub dsml_parameter : DsmlArg → Bytes
unfolding escape_dsml_attr escape_dsml_parameter_text
dsml_parameter arg =
    utf8 "<｜DSML｜parameter name=\""
    ++ (escape_dsml_attr arg.key
        ++ (utf8 "\" string=\""
            ++ (bool_text arg.is_string
                ++ (utf8 "\">"
                    ++ ((if arg.is_string then escape_dsml_parameter_text arg.value else arg.value)
                        ++ utf8 "</｜DSML｜parameter>\n")))))

unfoldable pub dsml_parameters : List DsmlArg → Bytes
unfolding dsml_parameter
dsml_parameters [] = []
dsml_parameters (arg ∷ args) = dsml_parameter arg ++ dsml_parameters args

-- Arguments that are no object go in as one text.
abbrev call_parameters : Bytes → Option (List DsmlArg) → Bytes
call_parameters arguments (some args) = dsml_parameters args
call_parameters arguments none =
    utf8 "<｜DSML｜parameter name=\"arguments\" string=\"true\">"
    ++ (escape_dsml_parameter_text arguments ++ utf8 "</｜DSML｜parameter>\n")

unfoldable pub canonical_dsml_tool_block : AssistantToolCall → Bytes
unfolding parse_json_object_arguments dsml_parameters escape_dsml_attr escape_dsml_parameter_text
canonical_dsml_tool_block call =
    utf8 "\n\n<｜DSML｜tool_calls>\n"
    ++ (utf8 "<｜DSML｜invoke name=\""
        ++ (escape_dsml_attr call.name
            ++ (utf8 "\">\n"
                ++ (call_parameters call.arguments (parse_json_object_arguments call.arguments)
                    ++ (utf8 "</｜DSML｜invoke>\n" ++ utf8 "</｜DSML｜tool_calls>")))))
