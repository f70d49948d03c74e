-- ===== src/Protocol/Stream/Chat.antt =====
-- src/protocol/render.rs: the stream of a chat completion, as server-sent events.
use ds4_rs.Base.{[], ◌∷◌, ◌++◌, Option, none, some}
use ds4_rs.Bytes.{Bytes}
use ds4_rs.Protocol.Chunks.{stream_chunks}
use ds4_rs.Protocol.Escape.{json_escape}
use ds4_rs.Protocol.{AssistantToolCall, ResponseEnvelope, default_model_id}
use ds4_rs.Text.Format.{format, text_of, each}
use ds4_rs.Text.{concat, decimal}

unfoldable pub chat_sse_start : ResponseEnvelope → Bytes
chat_sse_start r = concat (
    (format
      ("data: {{\"id\":\"{}\",\"object\":\"chat.completion.chunk\",\"created\":{},\"mo"
        ∷ "del\":\"{}\",\"choices\":[{{\"index\":0,\"delta\":{{\"role\":\"assistant\"}},"
        ∷ "\"finish_reason\":null}}]}}\n\n" ∷ [])
      ((json_escape r.id) ∷ (decimal r.created) ∷ (json_escape default_model_id) ∷ []))
    ∷ [])

unfoldable pub chat_sse_call : ResponseEnvelope → AssistantToolCall → Bytes
chat_sse_call r call = concat (
    (format
      ("data: {{\"id\":\"{}\",\"object\":\"chat.completion.chunk\",\"created\":{},\"mo"
        ∷ "del\":\"{}\",\"choices\":[{{\"index\":0,\"delta\":{{\"tool_calls\":[{{\"index"
        ∷ "\":0,\"id\":\"{}\",\"type\":\"function\",\"function\":{{\"name\":\"{}\"}}}}]}}"
        ∷ ",\"finish_reason\":null}}]}}\n\n" ∷ [])
      ((json_escape r.id)
        ∷ (decimal r.created)
        ∷ (json_escape default_model_id)
        ∷ (json_escape call.id)
        ∷ (json_escape call.name)
        ∷ []))
    ∷ (each
        (λ chunk. concat (
          (format
            ("data: {{\"id\":\"{}\",\"object\":\"chat.completion.chunk\",\"created\":{},\"mo"
              ∷ "del\":\"{}\",\"choices\":[{{\"index\":0,\"delta\":{{\"tool_calls\":[{{\"index"
              ∷ "\":0,\"function\":{{\"arguments\":\"{}\"}}}}]}},\"finish_reason\":null}}]}}\n"
              ∷ "\n" ∷ [])
            ((json_escape r.id)
              ∷ (decimal r.created)
              ∷ (json_escape default_model_id)
              ∷ (json_escape chunk)
              ∷ []))
          ∷ []))
        (stream_chunks call.arguments 24))
    ∷ (format
        ("data: {{\"id\":\"{}\",\"object\":\"chat.completion.chunk\",\"created\":{},\"mo"
          ∷ "del\":\"{}\",\"choices\":[{{\"index\":0,\"delta\":{{}},\"finish_reason\":\"too"
          ∷ "l_calls\"}}]}}\n\n" ∷ [])
        ((json_escape r.id) ∷ (decimal r.created) ∷ (json_escape default_model_id) ∷ []))
    ∷ (text_of ("data: [DONE]\n\n" ∷ []))
    ∷ [])

unfoldable pub chat_sse_message : ResponseEnvelope → Bytes
chat_sse_message r = concat (
    (each
      (λ chunk. concat (
        (format
          ("data: {{\"id\":\"{}\",\"object\":\"chat.completion.chunk\",\"created\":{},\"mo"
            ∷ "del\":\"{}\",\"choices\":[{{\"index\":0,\"delta\":{{\"content\":\"{}\"}},\"fin"
            ∷ "ish_reason\":null}}]}}\n\n" ∷ [])
          ((json_escape r.id)
            ∷ (decimal r.created)
            ∷ (json_escape default_model_id)
            ∷ (json_escape chunk)
            ∷ []))
        ∷ []))
      (stream_chunks r.message 24))
    ∷ (format
        ("data: {{\"id\":\"{}\",\"object\":\"chat.completion.chunk\",\"created\":{},\"mo"
          ∷ "del\":\"{}\",\"choices\":[{{\"index\":0,\"delta\":{{}},\"finish_reason\":\"sto"
          ∷ "p\"}}]}}\n\n" ∷ [])
        ((json_escape r.id) ∷ (decimal r.created) ∷ (json_escape default_model_id) ∷ []))
    ∷ (text_of ("data: [DONE]\n\n" ∷ []))
    ∷ [])

abbrev chat_sse_rest : ResponseEnvelope → Option AssistantToolCall → Bytes
chat_sse_rest r none = chat_sse_message r
chat_sse_rest r (some call) = chat_sse_call r call

unfoldable pub chat_sse : ResponseEnvelope → Bytes
chat_sse r = chat_sse_start r ++ chat_sse_rest r r.tool_call
