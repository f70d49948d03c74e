-- ===== src/Protocol/Request/Collect.antt =====
-- src/protocol/parse.rs: the parts of a request that its three parsers collect.
use ds4_rs.Base.{
  List, [], ◌∷◌, ◌++◌, Option, none, some, Bool, true, false, ◌&&◌, ◌||◌, if◌then◌else◌, String,
}
use ds4_rs.Bytes.{Bytes}
use ds4_rs.Protocol.Json.{is_text}
use ds4_rs.Text.{utf8, replace, join, is_empty}

-- The mutable locals of a parser.
pub record Parts : Type 0 where
  pub system_parts : List Bytes
  pub prompt_parts : List Bytes
  pub last_tool_call_id : Option Bytes
  pub has_tool_results : Bool
  pub last_tool_result : Option Bytes

-- ParsedChatRequest, ParsedResponsesRequest and ParsedMessagesRequest, which have the same fields.
pub record ParsedRequest : Type 0 where
  pub system : Bytes
  pub prompt : Bytes
  pub last_tool_call_id : Option Bytes
  pub has_tool_results : Bool
  pub last_tool_result : Option Bytes

abbrev pub no_parts : Parts
no_parts = record {
  system_parts = [];
  prompt_parts = [];
  last_tool_call_id = none;
  has_tool_results = false;
  last_tool_result = none;
}

unfoldable pub escape_tool_result_text : Bytes → Bytes
escape_tool_result_text output = replace output (utf8 "</tool_result>") (utf8 "&lt;/tool_result>")

unfoldable pub render_tool_result_text : Bytes → Bytes
unfolding escape_tool_result_text
render_tool_result_text output =
    utf8 "<tool_result>" ++ (escape_tool_result_text output ++ utf8 "</tool_result>")

-- `if !part.is_empty() { system_parts.push(part) }`
unfoldable pub push_system : Bytes → Parts → Parts
push_system part p =
    if is_empty part then p else record p { system_parts = p.system_parts ++ (part ∷ []) }

-- `prompt_parts.push(line)`
abbrev pub push_line : Bytes → Parts → Parts
push_line line p = record p { prompt_parts = p.prompt_parts ++ (line ∷ []) }

-- `if !part.is_empty() { prompt_parts.push(format!("<who>: {part}")) }`
unfoldable pub push_said : String → Bytes → Parts → Parts
push_said who part p = if is_empty part then p else push_line (utf8 who ++ part) p

-- `prompt_parts.push(format!("AssistantToolCall[{call_id}] {call_type} {name}({arguments})"))`
unfoldable pub tool_call_line : Bytes → Bytes → Bytes → Bytes → Bytes
tool_call_line call_id call_type name arguments =
    utf8 "AssistantToolCall["
    ++ (call_id
        ++ (utf8 "] "
            ++ (call_type ++ (utf8 " " ++ (name ++ (utf8 "(" ++ (arguments ++ utf8 ")")))))))

abbrev pub push_call : Bytes → Bytes → Parts → Parts
push_call call_id line p = record (push_line line p) { last_tool_call_id = some call_id }

-- A tool's result, with its text unless it is empty.
unfoldable pub push_result : Bytes → Bytes → Parts → Parts
push_result call_id output p =
    let said =
      if is_empty output then p else record (push_line (render_tool_result_text output) p) {
        last_tool_result = some output;
      } in
    record said { last_tool_call_id = some call_id; has_tool_results = true }

abbrev pub or_default : List Bytes → String → Bytes
or_default parts default = if is_empty parts then utf8 default else join parts (10 ∷ [])

-- The end of each parser.
unfoldable pub parsed : Parts → ParsedRequest
parsed p = record {
  system = or_default p.system_parts "You are a helpful assistant";
  prompt = or_default p.prompt_parts "hello";
  last_tool_call_id = p.last_tool_call_id;
  has_tool_results = p.has_tool_results;
  last_tool_result = p.last_tool_result;
}

abbrev pub has_no_parts : Parts → Bool
has_no_parts p = is_empty p.system_parts && is_empty p.prompt_parts

abbrev pub fold {ℓ κ} : {A : Type ℓ} {S : Type κ} → (A → S → S) → List A → S → S
fold step [] s = s
fold step (x ∷ xs) s = fold step xs (step x s)

abbrev pub is_system : Bytes → Bool
is_system role = is_text role "system" || is_text role "developer"
