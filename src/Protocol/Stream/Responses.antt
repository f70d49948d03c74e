-- ===== src/Protocol/Stream/Responses.antt =====
-- src/protocol/render.rs: the stream of a response, as server-sent events.
use ds4_rs.Base.{[], ◌∷◌, ◌++◌, Option, none, some}
use ds4_rs.Bytes.{Bytes}
use ds4_rs.Protocol.Chunks.{stream_chunks}
use ds4_rs.Protocol.Escape.{json_escape}
use ds4_rs.Protocol.Render.{to_responses_json}
use ds4_rs.Protocol.{AssistantToolCall, ResponseEnvelope, default_model_id}
use ds4_rs.Text.Format.{format, text_of, each}
use ds4_rs.Text.{utf8, concat, decimal}

unfoldable pub responses_lifecycle_header : ResponseEnvelope → Bytes
responses_lifecycle_header r = concat (
    (text_of ("event: response.created\n" ∷ []))
    ∷ (format
        ("data: {{\"type\":\"response.created\",\"response\":"
          ∷ "{{\"id\":\"{}\",\"object\":\"response\",\"created_at\":{},"
          ∷ "\"status\":\"in_progress\",\"model\":\"{}\",\"output\":[]}}}}\n\n" ∷ [])
        ((json_escape r.id) ∷ (decimal r.created) ∷ (json_escape default_model_id) ∷ []))
    ∷ (text_of ("event: response.in_progress\n" ∷ []))
    ∷ (format
        ("data: {{\"type\":\"response.in_progress\",\"response\":"
          ∷ "{{\"id\":\"{}\",\"object\":\"response\",\"created_at\":{},"
          ∷ "\"status\":\"in_progress\",\"model\":\"{}\",\"output\":[]}}}}\n\n" ∷ [])
        ((json_escape r.id) ∷ (decimal r.created) ∷ (json_escape default_model_id) ∷ []))
    ∷ [])

unfoldable pub responses_sse_start : ResponseEnvelope → Bytes
responses_sse_start r = concat ((responses_lifecycle_header r) ∷ [])

unfoldable pub responses_sse_call : ResponseEnvelope → AssistantToolCall → Bytes
responses_sse_call r call =
    let item_id = utf8 "fc_" ++ r.id in
    concat (
      (text_of ("event: response.output_item.added\n" ∷ []))
      ∷ (format
          ("data: {{\"type\":\"response.output_item.added\",\"output_index\":0,\"item\":"
            ∷ "{{\"id\":\"{}\",\"type\":\"function_call\",\"status\":\"in_progress\","
            ∷ "\"call_id\":\"{}\",\"name\":\"{}\",\"arguments\":\"\"}}}}\n\n" ∷ [])
          ((json_escape item_id) ∷ (json_escape call.id) ∷ (json_escape call.name) ∷ []))
      ∷ (each
          (λ chunk. concat (
            (text_of ("event: response.function_call_arguments.delta\n" ∷ []))
            ∷ (format
                ("data: {{\"type\":\"response.function_call_arguments.delta\","
                  ∷ "\"output_index\":0,\"item_id\":\"{}\",\"delta\":\"{}\"}}\n\n" ∷ [])
                ((json_escape item_id) ∷ (json_escape chunk) ∷ []))
            ∷ []))
          (stream_chunks call.arguments 24))
      ∷ (text_of ("event: response.function_call_arguments.done\n" ∷ []))
      ∷ (format
          ("data: {{\"type\":\"response.function_call_arguments.done\","
            ∷ "\"output_index\":0,\"item_id\":\"{}\",\"name\":\"{}\",\"arguments\":\"{}\"}}\n"
            ∷ "\n" ∷ [])
          ((json_escape item_id) ∷ (json_escape call.name) ∷ (json_escape call.arguments) ∷ []))
      ∷ (text_of ("event: response.output_item.done\n" ∷ []))
      ∷ (format
          ("data: {{\"type\":\"response.output_item.done\",\"output_index\":0,\"item\":"
            ∷ "{{\"id\":\"{}\",\"type\":\"function_call\",\"status\":\"completed\","
            ∷ "\"call_id\":\"{}\",\"name\":\"{}\",\"arguments\":\"{}\"}}}}\n\n" ∷ [])
          ((json_escape item_id)
            ∷ (json_escape call.id)
            ∷ (json_escape call.name)
            ∷ (json_escape call.arguments)
            ∷ []))
      ∷ (text_of ("event: response.completed\n" ∷ []))
      ∷ (format ("data: {}\n\n" ∷ []) ((to_responses_json r) ∷ []))
      ∷ [])

unfoldable pub responses_sse_message : ResponseEnvelope → Bytes
responses_sse_message r =
    let item_id = utf8 "msg_" ++ r.id in
    concat (
      (text_of ("event: response.output_item.added\n" ∷ []))
      ∷ (format
          ("data: {{\"type\":\"response.output_item.added\",\"output_index\":0,\"item\":"
            ∷ "{{\"id\":\"{}\",\"type\":\"message\",\"status\":\"in_progress\","
            ∷ "\"role\":\"assistant\",\"content\":[]}}}}\n\n" ∷ [])
          ((json_escape item_id) ∷ []))
      ∷ (text_of ("event: response.content_part.added\n" ∷ []))
      ∷ (format
          ("data: {{\"type\":\"response.content_part.added\",\"item_id\":\"{}\","
            ∷ "\"output_index\":0,\"content_index\":0,\"part\":"
            ∷ "{{\"type\":\"output_text\",\"text\":\"\",\"annotations\":[]}}}}\n\n" ∷ [])
          ((json_escape item_id) ∷ []))
      ∷ (each
          (λ chunk. concat (
            (text_of ("event: response.output_text.delta\n" ∷ []))
            ∷ (format
                ("data: {{\"type\":\"response.output_text.delta\",\"item_id\":\"{}\","
                  ∷ "\"output_index\":0,\"content_index\":0,\"delta\":\"{}\"}}\n\n" ∷ [])
                ((json_escape item_id) ∷ (json_escape chunk) ∷ []))
            ∷ []))
          (stream_chunks r.message 24))
      ∷ (text_of ("event: response.output_text.done\n" ∷ []))
      ∷ (format
          ("data: {{\"type\":\"response.output_text.done\",\"item_id\":\"{}\","
            ∷ "\"output_index\":0,\"content_index\":0,\"text\":\"{}\"}}\n\n" ∷ [])
          ((json_escape item_id) ∷ (json_escape r.message) ∷ []))
      ∷ (text_of ("event: response.content_part.done\n" ∷ []))
      ∷ (format
          ("data: {{\"type\":\"response.content_part.done\",\"item_id\":\"{}\","
            ∷ "\"output_index\":0,\"content_index\":0,\"part\":"
            ∷ "{{\"type\":\"output_text\",\"text\":\"{}\",\"annotations\":[]}}}}\n\n" ∷ [])
          ((json_escape item_id) ∷ (json_escape r.message) ∷ []))
      ∷ (text_of ("event: response.output_item.done\n" ∷ []))
      ∷ (format
          ("data: {{\"type\":\"response.output_item.done\",\"output_index\":0,\"item\":"
            ∷ "{{\"id\":\"{}\",\"type\":\"message\",\"status\":\"completed\",\"role\":\"assis"
            ∷ "tant\","
            ∷ "\"content\":[{{\"type\":\"output_text\",\"text\":\"{}\",\"annotations\":[]}}]"
            ∷ "}}}}\n\n" ∷ [])
          ((json_escape item_id) ∷ (json_escape r.message) ∷ []))
      ∷ (text_of ("event: response.completed\n" ∷ []))
      ∷ (format ("data: {}\n\n" ∷ []) ((to_responses_json r) ∷ []))
      ∷ [])

abbrev responses_sse_rest : ResponseEnvelope → Option AssistantToolCall → Bytes
responses_sse_rest r none = responses_sse_message r
responses_sse_rest r (some call) = responses_sse_call r call

unfoldable pub responses_sse : ResponseEnvelope → Bytes
responses_sse r = responses_sse_start r ++ responses_sse_rest r r.tool_call
