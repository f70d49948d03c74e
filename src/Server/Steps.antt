-- ===== src/Server/Steps.antt =====
-- src/server.rs: the states that a server reaches by answering requests, and their continuations.
use ds4_rs.Base.{
  true, false, List, [], Option, none, some, Bool, if◌then◌else◌, Bool-cases, inl, inr,
}
use ds4_rs.Bytes.{Bytes}
use ds4_rs.Continuation.{ContinuationEntry, ContinuationStore}
use ds4_rs.Engine.{Engine}
use ds4_rs.Error.{Result, ok, err, panic}
use ds4_rs.Kv.Store.{KvCache}
use ds4_rs.Protocol.Request.{from_http}
use ds4_rs.Protocol.{ApiKind, RequestEnvelope, ResponseEnvelope}
use ds4_rs.Server.Gate.{untrusted_generation_reason}
use ds4_rs.Server.Generate.{generate_response}
use ds4_rs.Server.Handle.{
  remembered, finish, short_circuit, generated, synced, respond, gated, dispatch, continue_with,
  with_request, handle_api,
}
use ds4_rs.Server.State.{Host, Clock, Answer, State, hydrate_tool_replay, remember_continuation}
use ds4_rs.Server.Tools.{should_short_circuit_tool_planning}
use ds4_rs.Session.{Session, SyncStats, prefill}
use ds4_rs.Tokenizer.Chat.{render_chat_prompt, think_high, think_none}
use ds4_rs.Types.{Tokens}
use ds4_rs.Server.Routes.{
  Method, get, post, other, Route, health, models, api, not_found, route, as_response, serve,
}
use ds4_rs.Server.Kept.{IsKept, generate_response-kept}

-- The states that a server reaches from a state by answering one HTTP request after the other.
pub data Reach (engine : Engine) (host : Host) (s : State engine) : State engine → Type 0 where
  here : Reach engine host s s
  next :
      (t : State engine) (clock : Clock) (method : Method) (path body : Bytes)
      → Reach engine host s t
      → Reach engine host s (serve engine host clock method (route path) body t).1

module _ (engine : Engine) (host : Host) (P : Session engine → ContinuationStore → Type 0)
    (kept : IsKept engine P) (clock : Clock) (kind : ApiKind) where
  abbrev Holds : State engine → Type 0
  Holds s = P s.session s.continuations

  remembered-kept :
      (request : RequestEnvelope) (response : ResponseEnvelope) (stream : Option (List Bytes))
      (s : State engine) (stored : Result (Unit {0}) × KvCache)
      → Holds s
      → Holds (remembered engine host clock request response stream s stored).1
  unfolding remember_continuation
  remembered-kept request response stream s (err e, kv) h = h
  remembered-kept request response stream s (panic, kv) h = h
  remembered-kept request response stream s (ok u, kv) h =
      kept.by_remember s.session s.continuations _ h

  finish-kept :
      (request : RequestEnvelope) (rendered : Tokens) (response : ResponseEnvelope)
      (stream : Option (List Bytes)) (s : State engine)
      → Holds s
      → Holds (finish engine host clock kind request rendered response stream s).1
  unfolding finish
  finish-kept request rendered response stream s h = remembered-kept request response stream s _ h

  generated-kept :
      (request : RequestEnvelope) (rendered : Tokens) (s : State engine)
      (made : Result (ResponseEnvelope × Option (List Bytes)) × Session engine)
      → P made.1 s.continuations
      → Holds (generated engine host clock kind request rendered s made).1
  generated-kept request rendered s (ok (response, stream), session) h =
      finish-kept request rendered response stream (record s { session = session }) h
  generated-kept request rendered s (err e, session) h = h
  generated-kept request rendered s (panic, session) h = h

  synced-kept :
      (request : RequestEnvelope) (hit : Bool) (rendered : Tokens) (s : State engine)
      (done : Result SyncStats × Session engine)
      → P done.1 s.continuations
      → Holds (synced engine host clock kind request hit rendered s done).1
  synced-kept request hit rendered s (ok stats, session) h =
      generated-kept request rendered s
        (generate_response engine host clock kind request hit stats session)
        (generate_response-kept engine host P kept clock kind request hit stats session
          s.continuations h)
  synced-kept request hit rendered s (err e, session) h = h
  synced-kept request hit rendered s (panic, session) h = h

  gated-kept :
      (request : RequestEnvelope) (hit : Bool) (s : State engine) (reason : Option Bytes)
      → Holds s
      → Holds (gated engine host clock kind request hit s reason).1
  unfolding respond
  gated-kept request hit s (some reason) h = h
  gated-kept request hit s none h =
      let rendered =
        render_chat_prompt host.opened.tokenizer request.system request.prompt
          (if request.stream then think_high else think_none) in
      synced-kept request hit rendered s (prefill s.session rendered)
        (kept.by_prefill s.session s.continuations rendered h)

  dispatch-kept :
      (request : RequestEnvelope) (hit : Bool) (s : State engine)
      → Holds s
      → Holds (dispatch engine host clock kind request hit s).1
  unfolding dispatch short_circuit
  dispatch-kept request hit s h =
      elim (Bool-cases (should_short_circuit_tool_planning host.unicode request)) [
        | inl planned ↦ rw planned (finish-kept request [] _ none s h)
        | inr free ↦ rw free (gated-kept request hit s (untrusted_generation_reason host.opened) h)
      ]

  continue_with-kept :
      (request : RequestEnvelope) (s : State engine) (found : Option ContinuationEntry)
      (continuations : ContinuationStore)
      → P s.session continuations
      → Holds (continue_with engine host clock kind request s (found, continuations)).1
  continue_with-kept request s none continuations h = dispatch-kept request false _ h
  continue_with-kept request s (some entry) continuations h =
      dispatch-kept request true _ (kept.by_load s.session continuations entry.snapshot h)

  with_request-kept :
      (s : State engine) (request : Result RequestEnvelope)
      → Holds s
      → Holds (with_request engine host clock kind s request).1
  with_request-kept s (ok request) h = continue_with-kept request s _ _ (
      kept.by_restore s.session s.continuations clock.restored_ms request.previous_response_id
        request.conversation request.last_tool_call_id h)
  with_request-kept s (err e) h = h
  with_request-kept s panic h = h

  pub handle_api-kept :
      (raw : Bytes) (s : State engine) → Holds s → Holds (handle_api engine host clock kind raw s).1
  unfolding handle_api
  handle_api-kept raw s h =
      with_request-kept s
        (hydrate_tool_replay s.kv (from_http host.from_str host.to_string kind raw)) h

as_response-kept :
    (engine : Engine) (P : State engine → Type 0) (r : Result Answer × State engine)
    → P r.1
    → P (as_response r).1
as_response-kept engine P (ok a, s) h = h
as_response-kept engine P (err e, s) h = h
as_response-kept engine P (panic, s) h = h

module _ (engine : Engine) (host : Host) (P : Session engine → ContinuationStore → Type 0)
    (kept : IsKept engine P) where
  serve-kept :
      (clock : Clock) (method : Method) (where_to : Route) (body : Bytes) (s : State engine)
      → P s.session s.continuations
      → P
          (serve engine host clock method where_to body s).1.session
          (serve engine host clock method where_to body s).1.continuations
  unfolding serve
  serve-kept clock get health body s h = h
  serve-kept clock post health body s h = h
  serve-kept clock other health body s h = h
  serve-kept clock get models body s h = h
  serve-kept clock post models body s h = h
  serve-kept clock other models body s h = h
  serve-kept clock get (api kind) body s h = h
  serve-kept clock post (api kind) body s h =
      as_response-kept engine (λ t. P t.session t.continuations) _
        (handle_api-kept engine host P kept clock kind body s h)
  serve-kept clock other (api kind) body s h = h
  serve-kept clock get not_found body s h = h
  serve-kept clock post not_found body s h = h
  serve-kept clock other not_found body s h = h

  pub Reach-kept :
      {s t : State engine}
      → P s.session s.continuations
      → Reach engine host s t
      → P t.session t.continuations
  Reach-kept h here = h
  Reach-kept h (next t clock method path body r) =
      serve-kept clock method (route path) body t (Reach-kept h r)
