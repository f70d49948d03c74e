-- ===== src/Server/Generate.antt =====
-- src/server.rs: the response to a prompt that the session has taken in, streamed or whole, and
-- `preview_or_model_reply` of src/server/reply.rs.
use ds4_rs.Base.{
  ℕ, zero, suc, List, [], ◌∷◌, ◌++◌, Option, none, some, Bool, true, false, not, ◌&&◌, ◌||◌,
  if◌then◌else◌,
}
use ds4_rs.Bytes.{Bytes}
use ds4_rs.Engine.Open.{has_real_model}
use ds4_rs.Engine.{Engine}
use ds4_rs.Error.{Result, ok, err, panic}
use ds4_rs.Protocol.Escape.{json_escape_min}
use ds4_rs.Protocol.Render.Envelope.{Origin, new_message}
use ds4_rs.Protocol.{
  ApiKind, chat_completions, responses, completions, messages, RequestEnvelope, ResponseEnvelope,
  default_model_id,
}
use ds4_rs.Server.Gate.{generation_budget, looks_like_terminal_token}
use ds4_rs.Server.Preview.{preview_text_reply}
use ds4_rs.Server.Reply.{should_fallback_generated_reply}
use ds4_rs.Session.Sampling.{argmax, generate_argmax_tokens}
use ds4_rs.Session.{Session, SyncStats, decode_next}
use ds4_rs.Text.Format.{format}
use ds4_rs.Text.{utf8, decimal, is_empty}
use ds4_rs.Tokenizer.Chat.{token_text}
use ds4_rs.Types.{Tokens}
use ds4_rs.Server.State.{Host, Clock, render_tokens}

-- The events of the stream of a chat completion, with the id and the time of a response.
abbrev pub start_event : ResponseEnvelope → Bytes
start_event r =
    format
      ("{{\"id\":\"{}\",\"object\":\"chat.completion.chunk\",\"created\":{},\"model\":\"{}\","
        ∷ "\"choices\":[{{\"index\":0,\"delta\":{{\"role\":\"assistant\"}},\"finish_reason\":null}}]}}"
        ∷ [])
      (json_escape_min r.id ∷ decimal r.created ∷ json_escape_min default_model_id ∷ [])

abbrev pub piece_event : ResponseEnvelope → Bytes → Bytes
piece_event r piece =
    format
      ("{{\"id\":\"{}\",\"object\":\"chat.completion.chunk\",\"created\":{},\"model\":\"{}\","
        ∷ "\"choices\":[{{\"index\":0,\"delta\":{{\"content\":\"{}\"}},\"finish_reason\":null}}]}}"
        ∷ [])
      (json_escape_min r.id
        ∷ decimal r.created
        ∷ json_escape_min default_model_id
        ∷ json_escape_min piece
        ∷ [])

abbrev stop_event : ResponseEnvelope → Bytes
stop_event r =
    format
      ("{{\"id\":\"{}\",\"object\":\"chat.completion.chunk\",\"created\":{},\"model\":\"{}\","
        ∷ "\"choices\":[{{\"index\":0,\"delta\":{{}},\"finish_reason\":\"stop\"}}]}}" ∷ [])
      (json_escape_min r.id ∷ decimal r.created ∷ json_escape_min default_model_id ∷ [])

module _ (engine : Engine) (host : Host) where
  -- The loop of `stream_chat_completion_sse`, over the message and the events so far.
  unfoldable pub stream_from :
      ResponseEnvelope
      → ℕ
      → Session engine
      → Bytes
      → List Bytes
      → Result (Bytes × List Bytes) × Session engine
  unfolding looks_like_terminal_token
  stream_from response zero session message out = (ok (message, out), session)
  stream_from response (suc steps) session message out =
      let token = argmax session.logits in
      let (r, session') = decode_next session token in
      let piece = token_text host.opened.tokenizer token in
      elim r [
        | err e ↦ (err e, session')
        | panic ↦ (panic, session')
        | ok _ ↦ elim (is_empty piece || looks_like_terminal_token piece) [
          | true ↦ stream_from response steps session' message out
          | false ↦
              stream_from response steps session' (message ++ piece)
                (out ++ (piece_event response piece ∷ []))
        ]
      ]

  -- What a streamed answer is made of: the response that is remembered, and the events.
  abbrev pub streamed :
      Origin
      → ResponseEnvelope
      → Result (Bytes × List Bytes) × Session engine
      → Result (ResponseEnvelope × Option (List Bytes)) × Session engine
  streamed final response (ok (message, out), session) = (
    ok (
      new_message chat_completions final message,
      some (out ++ (stop_event response ∷ utf8 "[DONE]" ∷ [])),
    ),
    session,
  )
  streamed final response (err e, session) = (err e, session)
  streamed final response (panic, session) = (panic, session)

  unfoldable pub stream_chat_completion_sse :
      Origin
      → Origin
      → Session engine
      → ℕ
      → Result (ResponseEnvelope × Option (List Bytes)) × Session engine
  unfolding stream_from
  stream_chat_completion_sse origin final session generation_budget =
      let response = new_message chat_completions origin [] in
      streamed final response
        (stream_from response generation_budget session [] (start_event response ∷ []))

  -- The reply that was generated, unless it is unfit to be shown.
  abbrev pub shown_reply :
      RequestEnvelope → Result Tokens × Session engine → Result Bytes × Session engine
  shown_reply request (ok tokens, session) =
      let rendered = render_tokens engine host tokens in
      (
        ok (
            if should_fallback_generated_reply host.unicode rendered
            then preview_text_reply host.unicode request
            else rendered),
        session,
      )
  shown_reply request (err e, session) = (ok (preview_text_reply host.unicode request), session)
  shown_reply request (panic, session) = (panic, session)

  unfoldable pub preview_or_model_reply :
      RequestEnvelope → Session engine → ℕ → Result Bytes × Session engine
  unfolding should_fallback_generated_reply preview_text_reply
  preview_or_model_reply request session generation_budget =
      if not (has_real_model host.opened)
      then (ok (preview_text_reply host.unicode request), session)
      else shown_reply request (generate_argmax_tokens session generation_budget)

  abbrev pub is_chat : ApiKind → Bool
  is_chat chat_completions = true
  is_chat responses = false
  is_chat completions = false
  is_chat messages = false

  abbrev pub origin_of : Clock → SyncStats → Bool → Origin
  origin_of clock stats hit = record {
    millis = clock.response_ms;
    secs = clock.response_secs;
    cached_tokens = stats.cached_tokens;
    replay_tokens = stats.replay_tokens;
    rebuilt = stats.rebuilt;
    continuation_hit = hit;
  }

  abbrev pub final_origin : Clock → SyncStats → Bool → Origin
  final_origin clock stats hit = record (origin_of clock stats hit) {
    millis = clock.final_ms;
    secs = clock.final_secs;
  }

  abbrev pub replied_with :
      ApiKind
      → Origin
      → Result Bytes × Session engine
      → Result (ResponseEnvelope × Option (List Bytes)) × Session engine
  replied_with api origin (ok message, session) =
      (ok (new_message api origin message, none), session)
  replied_with api origin (err e, session) = (err e, session)
  replied_with api origin (panic, session) = (panic, session)

  -- The response to a prompt that the session has taken in.
  unfoldable pub generate_response :
      Clock
      → ApiKind
      → RequestEnvelope
      → Bool
      → SyncStats
      → Session engine
      → Result (ResponseEnvelope × Option (List Bytes)) × Session engine
  unfolding stream_chat_completion_sse preview_or_model_reply generation_budget
  generate_response clock api request hit stats session =
      let budget = generation_budget host.opened request in
      if request.stream && (is_chat api && has_real_model host.opened)
      then stream_chat_completion_sse (origin_of clock stats hit) (final_origin clock stats hit)
          session budget
      else replied_with api (origin_of clock stats hit)
          (preview_or_model_reply request session budget)
