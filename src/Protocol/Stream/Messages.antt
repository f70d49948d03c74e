-- ===== src/Protocol/Stream/Messages.antt =====
-- src/protocol/render.rs: the streams of a completion and of a message, as server-sent events.
use ds4_rs.Base.{[], ◌∷◌, ◌++◌, Option, none, some}
use ds4_rs.Bytes.{Bytes}
use ds4_rs.Protocol.Chunks.{stream_chunks}
use ds4_rs.Protocol.Escape.{json_escape}
use ds4_rs.Protocol.Render.Envelope.{prompt_count, message_count}
use ds4_rs.Protocol.{AssistantToolCall, ResponseEnvelope, default_model_id}
use ds4_rs.Text.Format.{format, text_of, each}
use ds4_rs.Text.{concat, decimal}

unfoldable pub completions_sse : ResponseEnvelope → Bytes
completions_sse r = concat (
    (each
      (λ chunk. concat (
        (format
          ("data: {{\"id\":\"{}\",\"object\":\"text_completion\",\"created\":{},\"model\":"
            ∷ "\"{}\",\"choices\":[{{\"text\":\"{}\",\"index\":0,\"finish_reason\":null}}]}}"
            ∷ "\n\n" ∷ [])
          ((json_escape r.id)
            ∷ (decimal r.created)
            ∷ (json_escape default_model_id)
            ∷ (json_escape chunk)
            ∷ []))
        ∷ []))
      (stream_chunks r.message 24))
    ∷ (format
        ("data: {{\"id\":\"{}\",\"object\":\"text_completion\",\"created\":{},\"model\":"
          ∷ "\"{}\",\"choices\":[{{\"text\":\"\",\"index\":0,\"finish_reason\":\"stop\"}}]"
          ∷ "}}\n\n" ∷ [])
        ((json_escape r.id) ∷ (decimal r.created) ∷ (json_escape default_model_id) ∷ []))
    ∷ (text_of ("data: [DONE]\n\n" ∷ []))
    ∷ [])

unfoldable pub messages_sse_start : ResponseEnvelope → Bytes
messages_sse_start r =
    let input_tokens = prompt_count r in
    let output_tokens = message_count r in
    concat (
      (text_of ("event: message_start\n" ∷ []))
      ∷ (format
          ("data: {{\"type\":\"message_start\",\"message\":"
            ∷ "{{\"id\":\"{}\",\"type\":\"message\",\"role\":\"assistant\",\"model\":\"{}\","
            ∷ "\"content\":[],\"stop_reason\":null,\"stop_sequence\":null,"
            ∷ "\"usage\":{{\"input_tokens\":{},\"output_tokens\":0}}}}}}\n\n" ∷ [])
          ((json_escape r.id) ∷ (json_escape default_model_id) ∷ (decimal input_tokens) ∷ []))
      ∷ [])

unfoldable pub messages_sse_call : ResponseEnvelope → AssistantToolCall → Bytes
messages_sse_call r call =
    let output_tokens = message_count r in
    concat (
      (text_of ("event: content_block_start\n" ∷ []))
      ∷ (format
          ("data: {{\"type\":\"content_block_start\",\"index\":0,\"content_block\":"
            ∷ "{{\"type\":\"tool_use\",\"id\":\"{}\",\"name\":\"{}\",\"input\":{{}}}}}}\n\n" ∷ [])
          ((json_escape call.id) ∷ (json_escape call.name) ∷ []))
      ∷ (each
          (λ chunk. concat (
            (text_of ("event: content_block_delta\n" ∷ []))
            ∷ (format
                ("data: {{\"type\":\"content_block_delta\",\"index\":0,\"delta\":"
                  ∷ "{{\"type\":\"input_json_delta\",\"partial_json\":\"{}\"}}}}\n\n" ∷ [])
                ((json_escape chunk) ∷ []))
            ∷ []))
          (stream_chunks call.arguments 24))
      ∷ (text_of ("event: content_block_stop\n" ∷ []))
      ∷ (text_of ("data: {\"type\":\"content_block_stop\",\"index\":0}\n\n" ∷ []))
      ∷ (text_of ("event: message_delta\n" ∷ []))
      ∷ (format
          ("data: {{\"type\":\"message_delta\",\"delta\":"
            ∷ "{{\"stop_reason\":\"tool_use\",\"stop_sequence\":null}},"
            ∷ "\"usage\":{{\"output_tokens\":{}}}}}\n\n" ∷ [])
          ((decimal output_tokens) ∷ []))
      ∷ (text_of ("event: message_stop\n" ∷ []))
      ∷ (text_of ("data: {\"type\":\"message_stop\"}\n\n" ∷ []))
      ∷ [])

unfoldable pub messages_sse_message : ResponseEnvelope → Bytes
messages_sse_message r =
    let output_tokens = message_count r in
    concat (
      (text_of ("event: content_block_start\n" ∷ []))
      ∷ (text_of (
          "data: {\"type\":\"content_block_start\",\"index\":0,\"content_block\":{\"type"
          ∷ "\":\"text\",\"text\":\"\"}}\n\n" ∷ []))
      ∷ (each
          (λ chunk. concat (
            (text_of ("event: content_block_delta\n" ∷ []))
            ∷ (format
                ("data: {{\"type\":\"content_block_delta\",\"index\":0,\"delta\":"
                  ∷ "{{\"type\":\"text_delta\",\"text\":\"{}\"}}}}\n\n" ∷ [])
                ((json_escape chunk) ∷ []))
            ∷ []))
          (stream_chunks r.message 24))
      ∷ (text_of ("event: content_block_stop\n" ∷ []))
      ∷ (text_of ("data: {\"type\":\"content_block_stop\",\"index\":0}\n\n" ∷ []))
      ∷ (text_of ("event: message_delta\n" ∷ []))
      ∷ (format
          ("data: {{\"type\":\"message_delta\",\"delta\":"
            ∷ "{{\"stop_reason\":\"end_turn\",\"stop_sequence\":null}},"
            ∷ "\"usage\":{{\"output_tokens\":{}}}}}\n\n" ∷ [])
          ((decimal output_tokens) ∷ []))
      ∷ (text_of ("event: message_stop\n" ∷ []))
      ∷ (text_of ("data: {\"type\":\"message_stop\"}\n\n" ∷ []))
      ∷ [])

abbrev messages_sse_rest : ResponseEnvelope → Option AssistantToolCall → Bytes
messages_sse_rest r none = messages_sse_message r
messages_sse_rest r (some call) = messages_sse_call r call

unfoldable pub messages_sse : ResponseEnvelope → Bytes
messages_sse r = messages_sse_start r ++ messages_sse_rest r r.tool_call
