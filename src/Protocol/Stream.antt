-- ===== src/Protocol/Stream.antt =====
-- src/protocol/render.rs: the responses as streams of server-sent events.
pub mod Chat
pub mod Responses
pub mod Messages
use ds4_rs.Bytes.{Bytes}
use ds4_rs.Protocol.Stream.Chat.{chat_sse}
use ds4_rs.Protocol.Stream.Responses.{responses_sse}
use ds4_rs.Protocol.Stream.Messages.{completions_sse, messages_sse}
use ds4_rs.Protocol.{ApiKind, chat_completions, responses, completions, messages, ResponseEnvelope}

abbrev sse_for : ApiKind → ResponseEnvelope → Bytes
sse_for chat_completions r = chat_sse r
sse_for responses r = responses_sse r
sse_for completions r = completions_sse r
sse_for messages r = messages_sse r

-- ResponseEnvelope::to_sse
unfoldable pub to_sse : ResponseEnvelope → Bytes
to_sse r = sse_for r.api r
