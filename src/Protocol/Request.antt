-- ===== src/Protocol/Request.antt =====
-- src/protocol/parse.rs: from the body of a request to its envelope. `serde_json::from_str` and the
-- printing of a value are parameters.
pub mod Collect
use ds4_rs.Base.{
  List, [], ◌∷◌, ◌++◌, Option, none, some, Bool, true, false, not, ◌&&◌, ◌||◌, if◌then◌else◌,
  String,
}
use ds4_rs.Bytes.{Bytes}
use ds4_rs.Gguf.Tensors.{and_then}
use ds4_rs.Protocol.Json.{
  Value, null, get, get_any, as_str, as_array, as_bool, as_u64, object_keys, str_at, str_or,
  items_at, is_text,
}
use ds4_rs.Protocol.{
  ApiKind, chat_completions, responses, completions, messages, RequestTool, RequestEnvelope,
}
use ds4_rs.Text.{utf8, replace, contains, join, is_empty, unwrap_or, or_else, first}
use ds4_rs.Protocol.Request.Collect.{
  Parts, ParsedRequest, no_parts, escape_tool_result_text, render_tool_result_text, push_system,
  push_line, push_said, tool_call_line, push_call, push_result, or_default, parsed, has_no_parts,
  fold, is_system,
}

unfoldable pub chat_tool_call : Value → Parts → Parts
chat_tool_call call p =
    let call_id = str_or call ("id" ∷ []) "call_unknown" in
    let function = unwrap_or (get call "function") null in
    push_call call_id
      (tool_call_line call_id (str_or call ("type" ∷ []) "function")
        (str_or function ("name" ∷ []) "tool") (str_or function ("arguments" ∷ []) ""))
      p

-- One round of the loop of `parse_chat_request`.
unfoldable pub chat_message : Value → Parts → Parts
unfolding chat_tool_call push_said push_system push_result
chat_message message p =
    let role = str_or message ("role" ∷ []) "" in
    let content = str_or message ("content" ∷ []) "" in
    if is_system role
    then push_system content p
    else if is_text role "user"
    then push_said "User: " content p
    else if is_text role "assistant"
    then fold chat_tool_call (items_at message "tool_calls") (push_said "Assistant: " content p)
    else if is_text role "tool"
    then push_result (str_or message ("tool_call_id" ∷ []) "call_unknown") content p
    else p

abbrev pub parsed_unless_empty : Parts → Option ParsedRequest
parsed_unless_empty p = if has_no_parts p then none else some (parsed p)

unfoldable pub parse_chat_request : Value → Option ParsedRequest
parse_chat_request value =
    parsed_unless_empty (fold chat_message (items_at value "messages") no_parts)

unfoldable pub responses_message : Bytes → Bytes → Parts → Parts
responses_message role content p =
    if is_system role
    then push_system content p
    else if is_text role "assistant"
    then push_said "Assistant: " content p
    else push_said "User: " content p

unfoldable pub responses_call : Value → Bytes → Parts → Parts
responses_call v call_id p =
    push_call call_id
      (tool_call_line call_id (utf8 "function") (str_or v ("name" ∷ "function" ∷ []) "tool")
        (str_or v ("arguments" ∷ "input" ∷ []) ""))
      p

-- One round of the loop of `parse_responses_request`.
unfoldable pub responses_item : Value → Parts → Parts
unfolding responses_message responses_call push_said push_result
responses_item v p =
    let kind = str_or v ("type" ∷ []) "message" in
    if is_text kind "message"
    then responses_message (str_or v ("role" ∷ []) "user") (str_or v ("content" ∷ "text" ∷ []) "") p
    else if is_text kind "function_call" || is_text kind "custom_tool_call"
    then responses_call v (str_or v ("call_id" ∷ "id" ∷ []) "call_unknown") p
    else if is_text kind "function_call_output" || is_text kind "custom_tool_call_output"
    then push_result (str_or v ("call_id" ∷ "tool_call_id" ∷ "id" ∷ []) "call_unknown")
        (str_or v ("output" ∷ "content" ∷ "text" ∷ []) "") p
    else if is_text kind "reasoning"
    then push_said "Assistant: " (unwrap_or (str_at v ("summary" ∷ [])) []) p
    else p

-- Without any parts the prompt is the plain text of the request, if there is one.
abbrev pub plain_request : Value → Parts → Option Bytes → Option ParsedRequest
plain_request value p none = none
plain_request value p (some prompt) = some (record {
  system = str_or value ("instructions" ∷ "system" ∷ []) "You are a helpful assistant";
  prompt = prompt;
  last_tool_call_id = p.last_tool_call_id;
  has_tool_results = p.has_tool_results;
  last_tool_result = p.last_tool_result;
})

unfoldable pub parse_responses_request : Value → Option ParsedRequest
parse_responses_request value =
    let instructed = push_system (unwrap_or (str_at value ("instructions" ∷ [])) []) no_parts in
    let p = fold responses_item (items_at value "input") instructed in
    if has_no_parts p
    then plain_request value p (str_at value ("prompt" ∷ "input" ∷ []))
    else some (parsed p)

unfoldable pub push_by_role : Bytes → Bytes → Parts → Parts
unfolding push_said push_system
push_by_role role content p =
    if is_text role "assistant"
    then push_said "Assistant: " content p
    else if is_system role
    then push_system content p
    else push_said "User: " content p

-- The system prompt is a text, or an array of texts.
abbrev pub system_from : Value → Option Bytes → Parts → Parts
system_from system (some s) p = push_system s p
system_from system none p =
    fold (λ v. push_system (unwrap_or (str_at v ("text" ∷ [])) [])) (unwrap_or (as_array system) [])
      p

abbrev pub system_parts_of : Option Value → Parts → Parts
system_parts_of none p = p
system_parts_of (some system) p = system_from system (as_str system) p

module _ (to_string : Value → Bytes) where
  abbrev pub input_text : Option Value → Bytes
  input_text none = utf8 "{}"
  input_text (some v) = to_string v

  unfoldable pub block_call : Value → Bytes → Parts → Parts
  block_call block call_id p =
      push_call call_id
        (tool_call_line call_id (utf8 "function") (str_or block ("name" ∷ []) "tool")
          (input_text (get block "input")))
        p

  -- One content block of a message, for `parse_messages_request`.
  unfoldable pub content_block : Bytes → Value → Parts → Parts
  unfolding block_call push_by_role push_result
  content_block role block p =
      let kind = str_or block ("type" ∷ []) "text" in
      if is_text kind "text" || (is_text kind "input_text" || is_text kind "output_text")
      then push_by_role role (str_or block ("text" ∷ "content" ∷ []) "") p
      else if is_text kind "tool_use"
      then block_call block (str_or block ("id" ∷ "tool_use_id" ∷ []) "call_unknown") p
      else if is_text kind "tool_result"
      then push_result (str_or block ("tool_use_id" ∷ "id" ∷ []) "call_unknown")
          (str_or block ("content" ∷ "text" ∷ []) "") p
      else p

  abbrev pub message_content : Bytes → Value → Option (List Value) → Parts → Parts
  message_content role message (some blocks) p = fold (content_block role) blocks p
  message_content role message none p = push_by_role role (str_or message ("content" ∷ []) "") p

  -- One round of the loop over the messages.
  unfoldable pub messages_message : Value → Parts → Parts
  unfolding content_block
  messages_message message p =
      message_content (str_or message ("role" ∷ []) "user") message
        (and_then (get message "content") as_array) p

  unfoldable pub parse_messages_request : Value → Option ParsedRequest
  unfolding messages_message
  parse_messages_request value = parsed_unless_empty (
      fold messages_message (items_at value "messages")
        (system_parts_of (get value "system") no_parts))

abbrev properties_of : Option Value → List Bytes
properties_of none = []
properties_of (some parameters) = unwrap_or (and_then (get parameters "properties") object_keys) []

abbrev request_tool : Value → Option Bytes → List RequestTool → List RequestTool
request_tool v none rest = rest
request_tool v (some name) rest =
    let property_names = properties_of (get_any v ("parameters" ∷ "input_schema" ∷ [])) in
    record { name = name; first_arg_name = first property_names; property_names = property_names }
    ∷ rest

unfoldable pub tools_of : List Value → List RequestTool
tools_of [] = []
tools_of (v ∷ vs) =
    request_tool v
      (and_then (or_else (get v "name") (and_then (get v "function") (λ f. get f "name"))) as_str)
      (tools_of vs)

unfoldable pub extract_tools : Value → List RequestTool
unfolding tools_of
extract_tools value = tools_of (items_at value "tools")

module _ (to_string : Value → Bytes) where
  -- What the parser of the interface answers.
  unfoldable pub parse_for : ApiKind → Value → Option ParsedRequest
  parse_for chat_completions value = parse_chat_request value
  parse_for responses value = parse_responses_request value
  parse_for completions value = none
  parse_for messages value = parse_messages_request to_string value

abbrev pub plain_parsed : Value → ParsedRequest
plain_parsed value = record {
  system = str_or value ("system" ∷ []) "You are a helpful assistant";
  prompt = str_or value ("prompt" ∷ "input" ∷ []) "hello";
  last_tool_call_id = none;
  has_tool_results = false;
  last_tool_result = none;
}

-- What is read off the raw text of the body.
abbrev pub raw_has_tool_results : Bytes → Bool
raw_has_tool_results raw =
    contains raw (utf8 "\"role\":\"tool\"") || contains raw (utf8 "\"tool_call_id\"")

abbrev envelope : ApiKind → Bytes → Value → ParsedRequest → RequestEnvelope
envelope api raw value request =
    let tools = extract_tools value in
    let raw_results = raw_has_tool_results raw in
    record {
      api = api;
      system = request.system;
      prompt = request.prompt;
      previous_response_id = str_at value ("previous_response_id" ∷ []);
      conversation = str_at value ("conversation" ∷ []);
      available_tools = tools;
      has_tools = not (is_empty tools);
      has_tool_results = request.has_tool_results || raw_results;
      primary_tool_name = and_then (first tools) λ tool. some tool.name;
      primary_tool_arg_name = and_then (first tools) λ tool. tool.first_arg_name;
      last_tool_call_id = or_else request.last_tool_call_id (str_at value ("tool_call_id" ∷ []));
      last_tool_result =
          or_else request.last_tool_result
            (if raw_results then str_at value ("content" ∷ []) else none);
      stream = unwrap_or (and_then (get value "stream") as_bool) false;
      max_output_tokens =
          unwrap_or
            (and_then
              (get_any value ("max_output_tokens" ∷ "max_completion_tokens" ∷ "max_tokens" ∷ []))
              as_u64)
            0;
    }

module _ (from_str : Bytes → Option Value) (to_string : Value → Bytes) where
  -- RequestEnvelope::from_http
  unfoldable pub from_http : ApiKind → Bytes → RequestEnvelope
  unfolding parse_for
  from_http api raw =
      let value = unwrap_or (from_str raw) null in
      envelope api raw value (unwrap_or (parse_for to_string api value) (plain_parsed value))
