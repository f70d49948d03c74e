-- ===== src/Server/Handle.antt =====
-- src/server.rs: `handle_api`, from the body of a request to the answer and the state behind it.
use ds4_rs.Base.{List, [], ◌∷◌, Option, none, some, Bool, if◌then◌else◌, length}
use ds4_rs.Bytes.{Bytes}
use ds4_rs.Continuation.{ContinuationEntry, ContinuationStore, restore}
use ds4_rs.Engine.{Engine}
use ds4_rs.Error.{Result, ok, err, panic}
use ds4_rs.Kv.Store.{KvCache}
use ds4_rs.Protocol.Escape.{json_escape_min}
use ds4_rs.Protocol.Json.{Value}
use ds4_rs.Protocol.Render.{to_json}
use ds4_rs.Protocol.Render.Envelope.{Origin, new_tool_call}
use ds4_rs.Protocol.Request.{from_http}
use ds4_rs.Protocol.Stream.{to_sse}
use ds4_rs.Protocol.{ApiKind, RequestEnvelope, ResponseEnvelope}
use ds4_rs.Server.Gate.{untrusted_generation_reason}
use ds4_rs.Server.Reply.{latest_user_text}
use ds4_rs.Server.Tools.{should_short_circuit_tool_planning, choose_tool_call}
use ds4_rs.Session.Snapshot.{save_snapshot, load_snapshot}
use ds4_rs.Session.{Session, SyncStats, prefill}
use ds4_rs.Text.{chars, is_some}
use ds4_rs.Tokenizer.Chat.{think_none, think_high, render_chat_prompt}
use ds4_rs.Types.{Tokens}
use ds4_rs.Server.State.{
  Host, Clock, json, events, Answer, replied, unavailable, State, hydrate_tool_replay,
  remember_continuation, store_visible_kv_entry,
}
use ds4_rs.Server.Generate.{generate_response}

module _ (engine : Engine) (host : Host) where
  -- The printed response has to be JSON again, or `unwrap` panics.
  abbrev pub json_answer : ResponseEnvelope → Option Value → Result Answer
  json_answer response none = panic
  json_answer response (some v) = ok (replied response (json (host.to_string v)))

  abbrev pub stream_answer : ResponseEnvelope → Option (List Bytes) → Result Answer
  stream_answer response none = ok (replied response (events (to_sse response ∷ [])))
  stream_answer response (some out) = ok (replied response (events out))

  unfoldable pub answer : RequestEnvelope → ResponseEnvelope → Option (List Bytes) → Result Answer
  answer request response stream =
      if request.stream
      then stream_answer response stream
      else json_answer response (host.from_str (to_json response))

  abbrev pub remembered :
      Clock
      → RequestEnvelope
      → ResponseEnvelope
      → Option (List Bytes)
      → State engine
      → Result (Unit {0}) × KvCache
      → Result Answer × State engine
  remembered clock request response stream s (err e, kv) = (err e, record s { kv = kv })
  remembered clock request response stream s (panic, kv) = (panic, record s { kv = kv })
  remembered clock request response stream s (ok _, kv) = (
    answer request response stream,
    record s {
      kv = kv;
      continuations =
          remember_continuation s.continuations clock.remembered_ms request response
            (save_snapshot s.session);
    },
  )

  -- The end of both ways through `handle_api`: the snapshot is stored and remembered.
  unfoldable pub finish :
      Clock
      → ApiKind
      → RequestEnvelope
      → Tokens
      → ResponseEnvelope
      → Option (List Bytes)
      → State engine
      → Result Answer × State engine
  unfolding store_visible_kv_entry answer remember_continuation
  finish clock api request rendered response stream s = remembered clock request response stream s (
      store_visible_kv_entry engine host s.kv clock.stored_unix s.session api response
        (save_snapshot s.session) rendered)

  abbrev pub tool_origin : Clock → RequestEnvelope → Bool → Origin
  tool_origin clock request hit = record {
    millis = clock.response_ms;
    secs = clock.response_secs;
    cached_tokens = 0;
    replay_tokens = length (chars (latest_user_text request.prompt));
    rebuilt = hit;
    continuation_hit = hit;
  }

  -- The answer to a request that plainly asks for a tool.
  unfoldable pub short_circuit :
      Clock → ApiKind → RequestEnvelope → Bool → State engine → Result Answer × State engine
  unfolding finish
  short_circuit clock api request hit s =
      let call = choose_tool_call host.unicode request json_escape_min in
      finish clock api request [] (new_tool_call api (tool_origin clock request hit) call.0 call.1)
        none s

  abbrev pub generated :
      Clock
      → ApiKind
      → RequestEnvelope
      → Tokens
      → State engine
      → Result (ResponseEnvelope × Option (List Bytes)) × Session engine
      → Result Answer × State engine
  generated clock api request rendered s (ok (response, stream), session) =
      finish clock api request rendered response stream (record s { session = session })
  generated clock api request rendered s (err e, session) = (err e, record s { session = session })
  generated clock api request rendered s (panic, session) = (panic, record s { session = session })

  abbrev pub synced :
      Clock
      → ApiKind
      → RequestEnvelope
      → Bool
      → Tokens
      → State engine
      → Result SyncStats × Session engine
      → Result Answer × State engine
  synced clock api request hit rendered s (ok stats, session) =
      generated clock api request rendered s
        (generate_response engine host clock api request hit stats session)
  synced clock api request hit rendered s (err e, session) = (err e, record s { session = session })
  synced clock api request hit rendered s (panic, session) = (panic, record s { session = session })

  -- The answer of the model.
  unfoldable pub respond :
      Clock → ApiKind → RequestEnvelope → Bool → State engine → Result Answer × State engine
  unfolding finish generate_response
  respond clock api request hit s =
      let rendered =
        render_chat_prompt host.opened.tokenizer request.system request.prompt
          (if request.stream then think_high else think_none) in
      synced clock api request hit rendered s (prefill s.session rendered)

  abbrev pub gated :
      Clock
      → ApiKind
      → RequestEnvelope
      → Bool
      → State engine
      → Option Bytes
      → Result Answer × State engine
  gated clock api request hit s (some reason) = (ok (unavailable reason), s)
  gated clock api request hit s none = respond clock api request hit s

  -- What follows once the continuation is loaded.
  unfoldable pub dispatch :
      Clock → ApiKind → RequestEnvelope → Bool → State engine → Result Answer × State engine
  unfolding respond short_circuit
  dispatch clock api request hit s =
      if should_short_circuit_tool_planning host.unicode request
      then short_circuit clock api request hit s
      else gated clock api request hit s (untrusted_generation_reason host.opened)

  abbrev pub resumed : Session engine → Option ContinuationEntry → Session engine
  resumed session none = session
  resumed session (some entry) = load_snapshot session entry.snapshot

  abbrev pub continue_with :
      Clock
      → ApiKind
      → RequestEnvelope
      → State engine
      → Option ContinuationEntry × ContinuationStore
      → Result Answer × State engine
  continue_with clock api request s (entry, continuations) =
      dispatch clock api request (is_some entry)
        (record s { session = resumed s.session entry; continuations = continuations })

  abbrev pub with_request :
      Clock → ApiKind → State engine → Result RequestEnvelope → Result Answer × State engine
  with_request clock api s (ok request) = continue_with clock api request s (
      restore clock.restored_ms s.continuations request.previous_response_id request.conversation
        request.last_tool_call_id)
  with_request clock api s (err e) = (err e, s)
  with_request clock api s panic = (panic, s)

  -- Server::handle_api
  unfoldable pub handle_api : Clock → ApiKind → Bytes → State engine → Result Answer × State engine
  unfolding dispatch hydrate_tool_replay
  handle_api clock api raw s =
      with_request clock api s
        (hydrate_tool_replay s.kv (from_http host.from_str host.to_string api raw))
