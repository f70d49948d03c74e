-- ===== src/Server/Tools.antt =====
-- src/server/tools.rs: which tool a prompt asks for, and with which arguments.
use ds4_rs.Base.{
  ℕ, suc, List, [], ◌∷◌, Option, none, some, Bool, true, false, not, ◌&&◌, ◌||◌, ◌==◌,
  if◌then◌else◌, take, drop, String,
}
use ds4_rs.Bytes.{Bytes}
use ds4_rs.Protocol.Json.{is_text}
use ds4_rs.Protocol.{RequestEnvelope, RequestTool}
use ds4_rs.Server.{Unicode}
use ds4_rs.Server.Reply.{latest_user_text}
use ds4_rs.Text.Format.{format}
use ds4_rs.Text.{
  utf8, contains, eq_ignore_ascii_case, is_empty, or_else, unwrap_or, first, any, find,
}

pub record ToolIntent : Type 0 where
  pub wants_shell : Bool
  pub wants_read : Bool
  pub wants_search : Bool
  pub wants_glob : Bool

-- `needles.iter().any(|needle| lower.contains(needle))`
unfoldable pub contains_any : Bytes → List String → Bool
unfolding contains
contains_any lower [] = false
contains_any lower (needle ∷ needles) = contains lower (utf8 needle) || contains_any lower needles

abbrev intent_of : Bytes → ToolIntent
intent_of lower = record {
  wants_shell = contains_any lower (
      "list files" ∷ "current directory" ∷ "pwd" ∷ "ls" ∷ "git " ∷ "cargo " ∷ "npm " ∷ "pnpm "
      ∷ "yarn " ∷ "run " ∷ "command" ∷ "terminal" ∷ "shell" ∷ "bash" ∷ []);
  wants_read = contains_any lower ("read " ∷ "open " ∷ "show file" ∷ "view file" ∷ []);
  wants_search = contains_any lower ("grep" ∷ "search" ∷ "find text" ∷ "find string" ∷ []);
  wants_glob = contains_any lower ("find files" ∷ "glob" ∷ "*." ∷ "file pattern" ∷ []);
}

abbrev named_one_of : List String → RequestTool → Bool
named_one_of names tool = any (λ name. eq_ignore_ascii_case tool.name (utf8 name)) names

unfoldable pub find_tool : List RequestTool → List String → Option RequestTool
unfolding eq_ignore_ascii_case
find_tool tools names = find (named_one_of names) tools

-- `if wanted { if let Some(tool) = .. { return Some(tool) } }`
abbrev when {ℓ} : {A : Type ℓ} → Bool → Option A → Option A
when wanted found = if wanted then found else none

abbrev best_for : List RequestTool → ToolIntent → Option RequestTool
best_for tools intent =
    or_else
      (when intent.wants_shell
        (find_tool tools ("bash" ∷ "run_terminal_cmd" ∷ "terminal" ∷ "shell" ∷ [])))
      (or_else (when intent.wants_read (find_tool tools ("read" ∷ "read_file" ∷ "file_read" ∷ [])))
        (or_else (when intent.wants_search (find_tool tools ("grep" ∷ "search" ∷ "ripgrep" ∷ []))) (
          or_else (when intent.wants_glob (find_tool tools ("glob" ∷ "find_files" ∷ [])))
            (find_tool tools ("bash" ∷ "read" ∷ "grep" ∷ "glob" ∷ "question" ∷ [])))))

unfoldable pub tool_accepts_property : RequestTool → String → Bool
unfolding eq_ignore_ascii_case
tool_accepts_property tool property_name =
    any (λ name. eq_ignore_ascii_case name (utf8 property_name)) tool.property_names

-- `bytes.iter().position(|b| *b == byte)`
unfoldable pub position : ℕ → Bytes → Option ℕ
position byte [] = none
position byte (b ∷ s) = elim (b == byte) [
  | true ↦ some 0
  | false ↦ elim (position byte s) [ none ↦ none | some i ↦ some (suc i) ]
]

-- What stands between the first two quotes, unless it is empty.
abbrev until_quote : Bytes → Option ℕ → Option Bytes
until_quote behind none = none
until_quote behind (some end_rel) = if end_rel == 0 then none else some (take end_rel behind)

abbrev quoted_at : ℕ → Bytes → Option ℕ → Option Bytes
quoted_at quote prompt none = none
quoted_at quote prompt (some start) =
    until_quote (drop (suc start) prompt) (position quote (drop (suc start) prompt))

unfoldable pub quoted : ℕ → Bytes → Option Bytes
unfolding position
quoted quote prompt = quoted_at quote prompt (position quote prompt)

-- The quotes are tried in the order of the source: a backtick, a double and a single quote.
unfoldable pub infer_path : Bytes → Option Bytes
unfolding quoted
infer_path prompt = or_else (quoted 96 prompt) (or_else (quoted 34 prompt) (quoted 39 prompt))

abbrev shell_command : Bytes → Bytes → Bytes
shell_command lower prompt =
    if contains lower (utf8 "list files") || contains lower (utf8 "ls")
    then utf8 "ls -la"
    else if contains lower (utf8 "current directory") || is_text lower "pwd"
    then utf8 "pwd"
    else if contains lower (utf8 "git status")
    then utf8 "git status"
    else if contains lower (utf8 "cargo test")
    then utf8 "cargo test"
    else if contains lower (utf8 "npm test")
    then utf8 "npm test"
    else prompt

abbrev is_one_of : Bytes → List String → Bool
is_one_of name [] = false
is_one_of name (n ∷ ns) = is_text name n || is_one_of name ns

module _ (json_escape : Bytes → Bytes) where
  abbrev one_argument : Bytes → Bytes → Bytes
  one_argument key value =
      format ("{{\"{}\":\"{}\"}}" ∷ []) (json_escape key ∷ json_escape value ∷ [])

  unfoldable pub build_tool_arguments : Option Bytes → Bytes → Bytes
  unfolding format
  build_tool_arguments none prompt = format ("{{\"input\":\"{}\"}}" ∷ []) (json_escape prompt ∷ [])
  build_tool_arguments (some name) prompt =
      if is_empty name
      then format ("{{\"input\":\"{}\"}}" ∷ []) (json_escape prompt ∷ [])
      else one_argument name prompt

module _ (unicode : Unicode) where
  unfoldable pub detect_tool_intent : Bytes → ToolIntent
  unfolding contains_any
  detect_tool_intent prompt = intent_of (unicode.to_lowercase prompt)

  unfoldable pub prompt_likely_needs_tool : Bytes → Bool
  unfolding detect_tool_intent
  prompt_likely_needs_tool prompt =
      let intent = detect_tool_intent prompt in
      intent.wants_shell || (intent.wants_read || (intent.wants_search || intent.wants_glob))

  unfoldable pub should_short_circuit_tool_planning : RequestEnvelope → Bool
  unfolding prompt_likely_needs_tool latest_user_text
  should_short_circuit_tool_planning request =
      request.has_tools
      && (not request.has_tool_results
          && prompt_likely_needs_tool (latest_user_text request.prompt))

  unfoldable pub select_best_tool : List RequestTool → Bytes → Option RequestTool
  unfolding detect_tool_intent find_tool
  select_best_tool tools prompt = best_for tools (detect_tool_intent prompt)

  unfoldable pub infer_shell_command : Bytes → Bytes
  unfolding contains
  infer_shell_command prompt = shell_command (unicode.to_lowercase prompt) prompt

  unfoldable pub build_tool_arguments_for_tool : RequestTool → Bytes → (Bytes → Bytes) → Bytes
  unfolding infer_shell_command infer_path build_tool_arguments tool_accepts_property format
  build_tool_arguments_for_tool tool prompt json_escape =
      let lower_name = unicode.to_lowercase tool.name in
      if is_one_of lower_name ("bash" ∷ "run_terminal_cmd" ∷ "terminal" ∷ "shell" ∷ [])
      then if tool_accepts_property tool "description"
        then format ("{{\"command\":\"{}\",\"description\":\"{}\"}}" ∷ []) (
            json_escape (infer_shell_command prompt)
            ∷ json_escape (utf8 "Runs requested shell command")
            ∷ [])
        else format ("{{\"command\":\"{}\"}}" ∷ []) (json_escape (infer_shell_command prompt) ∷ [])
      else if is_one_of lower_name ("read" ∷ "read_file" ∷ "file_read" ∷ [])
      then one_argument json_escape (unwrap_or tool.first_arg_name (utf8 "file_path"))
          (unwrap_or (infer_path prompt) prompt)
      else if is_one_of lower_name ("grep" ∷ "search" ∷ "ripgrep" ∷ [])
      then one_argument json_escape (unwrap_or tool.first_arg_name (utf8 "pattern")) prompt
      else build_tool_arguments json_escape tool.first_arg_name prompt

  -- The tool that is made up when the request lists none.
  abbrev made_up_tool : RequestEnvelope → RequestTool
  made_up_tool request = record {
    name = unwrap_or request.primary_tool_name (utf8 "tool");
    first_arg_name = request.primary_tool_arg_name;
    property_names = [];
  }

  abbrev pub chosen_tool : RequestEnvelope → RequestTool
  chosen_tool request =
      unwrap_or
        (or_else (select_best_tool request.available_tools (latest_user_text request.prompt))
          (first request.available_tools))
        (made_up_tool request)

  unfoldable pub choose_tool_call : RequestEnvelope → (Bytes → Bytes) → Bytes × Bytes
  unfolding select_best_tool build_tool_arguments_for_tool latest_user_text
  choose_tool_call request json_escape =
      let tool = chosen_tool request in
      (tool.name, build_tool_arguments_for_tool tool (latest_user_text request.prompt) json_escape)
