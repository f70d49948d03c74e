-- ===== src/Protocol/Render/Envelope.antt =====
-- src/protocol/render.rs: the responses and their construction. The clock is a pair of numbers that
-- the caller passes in, milliseconds and seconds since the epoch.
use ds4_rs.Base.{ℕ, ◌+◌, [], ◌∷◌, ◌++◌, Option, none, some, Bool, length, max}
use ds4_rs.Bytes.{Bytes}
use ds4_rs.Protocol.Arguments.{canonical_dsml_tool_block}
use ds4_rs.Protocol.{
  ApiKind, chat_completions, responses, completions, messages, AssistantToolCall, ResponseEnvelope,
}
use ds4_rs.Text.{utf8, chars, decimal}

abbrev pub id_prefix : ApiKind → Bytes
id_prefix chat_completions = utf8 "chatcmpl_rust"
id_prefix responses = utf8 "resp_rust"
id_prefix completions = utf8 "cmpl_rust"
id_prefix messages = utf8 "msg_rust"

abbrev pub kind_of : ApiKind → Bytes
kind_of chat_completions = utf8 "chat.completion"
kind_of responses = utf8 "response"
kind_of completions = utf8 "text_completion"
kind_of messages = utf8 "message"

-- What the synchronization of the session comes to, as both constructors take it.
pub record Origin : Type 0 where
  pub millis : ℕ
  pub secs : ℕ
  pub cached_tokens : ℕ
  pub replay_tokens : ℕ
  pub rebuilt : Bool
  pub continuation_hit : Bool

-- ResponseEnvelope::new_message
unfoldable pub new_message : ApiKind → Origin → Bytes → ResponseEnvelope
new_message api origin message = record {
  api = api;
  id = id_prefix api ++ (95 ∷ decimal origin.millis);
  kind = kind_of api;
  created = origin.secs;
  cached_tokens = origin.cached_tokens;
  replay_tokens = origin.replay_tokens;
  rebuilt = origin.rebuilt;
  continuation_hit = origin.continuation_hit;
  message = message;
  tool_call = none;
}

-- ResponseEnvelope::new_tool_call
unfoldable pub new_tool_call : ApiKind → Origin → Bytes → Bytes → ResponseEnvelope
unfolding new_message
new_tool_call api origin name arguments =
    let response = new_message api origin [] in
    record response {
      tool_call =
          some (record { id = utf8 "call_" ++ response.id; name = name; arguments = arguments });
    }

abbrev pub call_id : Option AssistantToolCall → Option Bytes
call_id none = none
call_id (some call) = some call.id

-- ResponseEnvelope::tool_call_id
unfoldable pub tool_call_id : ResponseEnvelope → Option Bytes
tool_call_id r = call_id r.tool_call

abbrev pub call_block : Option AssistantToolCall → Option Bytes
call_block none = none
call_block (some call) = some (canonical_dsml_tool_block call)

-- ResponseEnvelope::tool_replay_block
unfoldable pub tool_replay_block : ResponseEnvelope → Option Bytes
tool_replay_block r = call_block r.tool_call

abbrev pub prompt_count : ResponseEnvelope → ℕ
prompt_count r = r.cached_tokens + r.replay_tokens

abbrev pub message_count : ResponseEnvelope → ℕ
message_count r = max (length (chars r.message)) 1
