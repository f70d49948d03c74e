-- ===== src/Protocol/Render.antt =====
-- src/protocol/render.rs: the responses, and how they are printed as JSON. The clock is a pair of
-- numbers that the caller passes in, milliseconds and seconds since the epoch. The counts of tokens
-- are positions of a context, so that their sums stay far below 2 ^ 64.
pub mod Envelope
use ds4_rs.Base.{ℕ, ◌+◌, [], ◌∷◌, ◌++◌, Option, none, some, Bool, length, max}
use ds4_rs.Bytes.{Bytes}
use ds4_rs.Protocol.Arguments.{canonical_dsml_tool_block, bool_text}
use ds4_rs.Protocol.Escape.{json_escape, raw_json_or_string}
use ds4_rs.Protocol.{
  ApiKind, chat_completions, responses, completions, messages, AssistantToolCall, ResponseEnvelope,
  default_model_id,
}
use ds4_rs.Text.Format.{format}
use ds4_rs.Text.{utf8, chars, decimal}
use ds4_rs.Protocol.Render.Envelope.{
  id_prefix, kind_of, Origin, new_message, new_tool_call, call_id, tool_call_id, call_block,
  tool_replay_block, prompt_count, message_count,
}

unfoldable pub chat_json_call : ResponseEnvelope → AssistantToolCall → Bytes
chat_json_call r call =
    let prompt_tokens = prompt_count r in
    let completion_tokens = message_count r in
    format
      ("{{\"id\":\"{}\",\"object\":\"{}\",\"created\":{},\"model\":\"{}\","
        ∷ "\"choices\":[{{\"index\":0,\"message\":{{\"role\":\"assistant\",\"content\":nu" ∷ "ll,"
        ∷ "\"tool_calls\":[{{\"id\":\"{}\",\"type\":\"function\",\"function\":{{\"name\":"
        ∷ "\"{}\",\"arguments\":\"{}\"}}}}]}}," ∷ "\"finish_reason\":\"tool_calls\"}}],"
        ∷ "\"usage\":{{\"prompt_tokens\":{},\"completion_tokens\":0,\"total_tokens\":{}}}" ∷ ","
        ∷ "\"cached_tokens\":{},\"replay_tokens\":{},\"rebuilt\":{},\"continuation_hit\":" ∷ "{}}}"
        ∷ [])
      ((json_escape r.id)
        ∷ (json_escape r.kind)
        ∷ (decimal r.created)
        ∷ (json_escape default_model_id)
        ∷ (json_escape call.id)
        ∷ (json_escape call.name)
        ∷ (json_escape call.arguments)
        ∷ (decimal prompt_tokens)
        ∷ (decimal prompt_tokens)
        ∷ (decimal r.cached_tokens)
        ∷ (decimal r.replay_tokens)
        ∷ (bool_text r.rebuilt)
        ∷ (bool_text r.continuation_hit)
        ∷ [])

unfoldable pub chat_json_message : ResponseEnvelope → Bytes
chat_json_message r =
    let prompt_tokens = prompt_count r in
    let completion_tokens = message_count r in
    format
      ("{{\"id\":\"{}\",\"object\":\"{}\",\"created\":{},\"model\":\"{}\","
        ∷ "\"choices\":[{{\"index\":0,\"message\":{{\"role\":\"assistant\",\"content\":\""
        ∷ "{}\"}},\"finish_reason\":\"stop\"}}],"
        ∷ "\"usage\":{{\"prompt_tokens\":{},\"completion_tokens\":{},\"total_tokens\":{}" ∷ "}},"
        ∷ "\"cached_tokens\":{},\"replay_tokens\":{},\"rebuilt\":{},\"continuation_hit\":" ∷ "{}}}"
        ∷ [])
      ((json_escape r.id)
        ∷ (json_escape r.kind)
        ∷ (decimal r.created)
        ∷ (json_escape default_model_id)
        ∷ (json_escape r.message)
        ∷ (decimal prompt_tokens)
        ∷ (decimal completion_tokens)
        ∷ (decimal (prompt_tokens + completion_tokens))
        ∷ (decimal r.cached_tokens)
        ∷ (decimal r.replay_tokens)
        ∷ (bool_text r.rebuilt)
        ∷ (bool_text r.continuation_hit)
        ∷ [])

abbrev chat_json_of : ResponseEnvelope → Option AssistantToolCall → Bytes
chat_json_of r none = chat_json_message r
chat_json_of r (some call) = chat_json_call r call

unfoldable pub to_chat_json : ResponseEnvelope → Bytes
to_chat_json r = chat_json_of r r.tool_call

unfoldable pub responses_json_call : ResponseEnvelope → AssistantToolCall → Bytes
responses_json_call r call =
    format
      ("{{\"id\":\"{}\",\"object\":\"{}\",\"created_at\":{},\"status\":\"completed\","
        ∷ "\"output\":[{{\"id\":\"fc_{}\",\"type\":\"function_call\",\"status\":\"complet" ∷ "ed\","
        ∷ "\"call_id\":\"{}\",\"name\":\"{}\",\"arguments\":\"{}\"}}],"
        ∷ "\"output_text\":\"\",\"cached_tokens\":{},\"replay_tokens\":{},\"rebuilt\":{},"
        ∷ "\"continuation_hit\":{}}}" ∷ [])
      ((json_escape r.id)
        ∷ (json_escape r.kind)
        ∷ (decimal r.created)
        ∷ (json_escape r.id)
        ∷ (json_escape call.id)
        ∷ (json_escape call.name)
        ∷ (json_escape call.arguments)
        ∷ (decimal r.cached_tokens)
        ∷ (decimal r.replay_tokens)
        ∷ (bool_text r.rebuilt)
        ∷ (bool_text r.continuation_hit)
        ∷ [])

unfoldable pub responses_json_message : ResponseEnvelope → Bytes
responses_json_message r =
    format
      ("{{\"id\":\"{}\",\"object\":\"{}\",\"created_at\":{},\"status\":\"completed\","
        ∷ "\"output\":[{{\"id\":\"msg_{}\",\"type\":\"message\",\"status\":\"completed\","
        ∷ "\"role\":\"assistant\","
        ∷ "\"content\":[{{\"type\":\"output_text\",\"text\":\"{}\"}}]}}],"
        ∷ "\"output_text\":\"{}\",\"cached_tokens\":{},\"replay_tokens\":{},\"rebuilt\":"
        ∷ "{},\"continuation_hit\":{}}}" ∷ [])
      ((json_escape r.id)
        ∷ (json_escape r.kind)
        ∷ (decimal r.created)
        ∷ (json_escape r.id)
        ∷ (json_escape r.message)
        ∷ (json_escape r.message)
        ∷ (decimal r.cached_tokens)
        ∷ (decimal r.replay_tokens)
        ∷ (bool_text r.rebuilt)
        ∷ (bool_text r.continuation_hit)
        ∷ [])

abbrev responses_json_of : ResponseEnvelope → Option AssistantToolCall → Bytes
responses_json_of r none = responses_json_message r
responses_json_of r (some call) = responses_json_call r call

unfoldable pub to_responses_json : ResponseEnvelope → Bytes
to_responses_json r = responses_json_of r r.tool_call

unfoldable pub to_completions_json : ResponseEnvelope → Bytes
to_completions_json r =
    let prompt_tokens = prompt_count r in
    let completion_tokens = message_count r in
    format
      ("{{\"id\":\"{}\",\"object\":\"{}\",\"created\":{},\"model\":\"{}\","
        ∷ "\"choices\":[{{\"text\":\"{}\",\"index\":0,\"finish_reason\":\"stop\"}}],"
        ∷ "\"usage\":{{\"prompt_tokens\":{},\"completion_tokens\":{},\"total_tokens\":{}" ∷ "}},"
        ∷ "\"cached_tokens\":{},\"replay_tokens\":{},\"rebuilt\":{},\"continuation_hit\":" ∷ "{}}}"
        ∷ [])
      ((json_escape r.id)
        ∷ (json_escape r.kind)
        ∷ (decimal r.created)
        ∷ (json_escape default_model_id)
        ∷ (json_escape r.message)
        ∷ (decimal prompt_tokens)
        ∷ (decimal completion_tokens)
        ∷ (decimal (prompt_tokens + completion_tokens))
        ∷ (decimal r.cached_tokens)
        ∷ (decimal r.replay_tokens)
        ∷ (bool_text r.rebuilt)
        ∷ (bool_text r.continuation_hit)
        ∷ [])

unfoldable pub messages_json_call : ResponseEnvelope → AssistantToolCall → Bytes
messages_json_call r call =
    let input_tokens = prompt_count r in
    let output_tokens = message_count r in
    format
      ("{{\"id\":\"{}\",\"type\":\"message\",\"role\":\"assistant\",\"model\":\"{}\","
        ∷ "\"content\":[{{\"type\":\"tool_use\",\"id\":\"{}\",\"name\":\"{}\",\"input\":" ∷ "{}}}],"
        ∷ "\"stop_reason\":\"tool_use\",\"stop_sequence\":null,"
        ∷ "\"usage\":{{\"input_tokens\":{},\"output_tokens\":{}}},"
        ∷ "\"cached_tokens\":{},\"replay_tokens\":{},\"rebuilt\":{},\"continuation_hit\":" ∷ "{}}}"
        ∷ [])
      ((json_escape r.id)
        ∷ (json_escape default_model_id)
        ∷ (json_escape call.id)
        ∷ (json_escape call.name)
        ∷ (raw_json_or_string call.arguments)
        ∷ (decimal input_tokens)
        ∷ (decimal output_tokens)
        ∷ (decimal r.cached_tokens)
        ∷ (decimal r.replay_tokens)
        ∷ (bool_text r.rebuilt)
        ∷ (bool_text r.continuation_hit)
        ∷ [])

unfoldable pub messages_json_message : ResponseEnvelope → Bytes
messages_json_message r =
    let input_tokens = prompt_count r in
    let output_tokens = message_count r in
    format
      ("{{\"id\":\"{}\",\"type\":\"message\",\"role\":\"assistant\",\"model\":\"{}\","
        ∷ "\"content\":[{{\"type\":\"text\",\"text\":\"{}\"}}],"
        ∷ "\"stop_reason\":\"end_turn\",\"stop_sequence\":null,"
        ∷ "\"usage\":{{\"input_tokens\":{},\"output_tokens\":{}}},"
        ∷ "\"cached_tokens\":{},\"replay_tokens\":{},\"rebuilt\":{},\"continuation_hit\":" ∷ "{}}}"
        ∷ [])
      ((json_escape r.id)
        ∷ (json_escape default_model_id)
        ∷ (json_escape r.message)
        ∷ (decimal input_tokens)
        ∷ (decimal output_tokens)
        ∷ (decimal r.cached_tokens)
        ∷ (decimal r.replay_tokens)
        ∷ (bool_text r.rebuilt)
        ∷ (bool_text r.continuation_hit)
        ∷ [])

abbrev messages_json_of : ResponseEnvelope → Option AssistantToolCall → Bytes
messages_json_of r none = messages_json_message r
messages_json_of r (some call) = messages_json_call r call

unfoldable pub to_messages_json : ResponseEnvelope → Bytes
to_messages_json r = messages_json_of r r.tool_call

abbrev json_for : ApiKind → ResponseEnvelope → Bytes
json_for chat_completions r = to_chat_json r
json_for responses r = to_responses_json r
json_for completions r = to_completions_json r
json_for messages r = to_messages_json r

-- ResponseEnvelope::to_json
unfoldable pub to_json : ResponseEnvelope → Bytes
to_json r = json_for r.api r
