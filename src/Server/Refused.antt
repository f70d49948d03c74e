-- ===== src/Server/Refused.antt =====
-- What the server answers while its engine is not to be trusted with a generation.
use ds4_rs.Base.{
  ◌≡◌, refl, subst, List, [], Option, none, some, Bool, true, false, Bool-cases, inl, inr,
  if◌then◌else◌,
}
use ds4_rs.Bytes.{Bytes}
use ds4_rs.Engine.{Engine}
use ds4_rs.Error.{Result, Ds4Error, ok, err, panic, ok-value}
use ds4_rs.Kv.Store.{KvCache}
use ds4_rs.Protocol.Json.{Value}
use ds4_rs.Protocol.Render.{to_json}
use ds4_rs.Protocol.Render.Envelope.{Origin, new_tool_call}
use ds4_rs.Protocol.Request.{from_http}
use ds4_rs.Protocol.{ApiKind, RequestEnvelope, ResponseEnvelope}
use ds4_rs.Server.Gate.{untrusted_generation_reason}
use ds4_rs.Server.Handle.{
  answer, stream_answer, json_answer, remembered, finish, short_circuit, gated, dispatch,
  with_request, handle_api, tool_origin,
}
use ds4_rs.Server.State.{
  Host, Clock, Answer, replied, unavailable, State, hydrate_tool_replay, store_visible_kv_entry,
}
use ds4_rs.Server.Tools.{should_short_circuit_tool_planning, choose_tool_call}
use ds4_rs.Protocol.Escape.{json_escape_min}
use ds4_rs.Session.Snapshot.{save_snapshot}
use ds4_rs.Text.{is_some}
use ds4_rs.Types.{Tokens}

-- The answer is a call of a tool, or the refusal for this reason.
abbrev pub IsUngenerated : Bytes → Answer → Type 0
IsUngenerated reason (replied r body) = is_some r.tool_call ≡ true
IsUngenerated reason (unavailable other) = other ≡ reason

module _ (engine : Engine) (host : Host) (reason : Bytes) where
  record Refuses (out : Result Answer × State engine) : Type 0 where
    refused : (a : Answer) → out.0 ≡ ok a → IsUngenerated reason a

  err-Refuses : (e : Ds4Error) (s : State engine) → Refuses (err e, s)
  err-Refuses e s = record { refused = λ a f. cc }

  panic-Refuses : (s : State engine) → Refuses (panic, s)
  panic-Refuses s = record { refused = λ a f. cc }

  stream-Ungenerated :
      (response : ResponseEnvelope) (stream : Option (List Bytes)) (a : Answer)
      → is_some response.tool_call ≡ true
      → stream_answer engine host response stream ≡ ok a
      → IsUngenerated reason a
  stream-Ungenerated response none a call e = subst (IsUngenerated reason) (ok-value e) call
  stream-Ungenerated response (some out) a call e = subst (IsUngenerated reason) (ok-value e) call

  json-Ungenerated :
      (response : ResponseEnvelope) (v : Option Value) (a : Answer)
      → is_some response.tool_call ≡ true
      → json_answer engine host response v ≡ ok a
      → IsUngenerated reason a
  json-Ungenerated response none a call e = cc
  json-Ungenerated response (some v) a call e = subst (IsUngenerated reason) (ok-value e) call

  answer-Ungenerated :
      (request : RequestEnvelope) (response : ResponseEnvelope) (stream : Option (List Bytes))
      (a : Answer)
      → is_some response.tool_call ≡ true
      → answer engine host request response stream ≡ ok a
      → IsUngenerated reason a
  unfolding answer
  answer-Ungenerated request response stream a call e = elim (Bool-cases request.stream) [
    | inl streaming ↦ stream-Ungenerated response stream a call (rw streaming at e)
    | inr whole ↦
        json-Ungenerated response (host.from_str (to_json response)) a call (rw whole at e)
  ]

  remembered-Refuses :
      (clock : Clock) (request : RequestEnvelope) (response : ResponseEnvelope)
      (stream : Option (List Bytes)) (s : State engine) (stored : Result (Unit {0}) × KvCache)
      → is_some response.tool_call ≡ true
      → Refuses (remembered engine host clock request response stream s stored)
  remembered-Refuses clock request response stream s (err e, kv) call = err-Refuses e _
  remembered-Refuses clock request response stream s (panic, kv) call = panic-Refuses _
  remembered-Refuses clock request response stream s (ok u, kv) call = record {
    refused = λ a f. answer-Ungenerated request response stream a call f;
  }

  finish-Refuses :
      (clock : Clock) (api : ApiKind) (request : RequestEnvelope) (rendered : Tokens)
      (response : ResponseEnvelope) (stream : Option (List Bytes)) (s : State engine)
      → is_some response.tool_call ≡ true
      → Refuses (finish engine host clock api request rendered response stream s)
  unfolding finish
  finish-Refuses clock api request rendered response stream s call =
      remembered-Refuses clock request response stream s
        (store_visible_kv_entry engine host s.kv clock.stored_unix s.session api response
          (save_snapshot s.session) rendered)
        call

  new_tool_call_some :
      (api : ApiKind) (origin : Origin) (name arguments : Bytes)
      → is_some (new_tool_call api origin name arguments).tool_call ≡ true
  unfolding new_tool_call
  new_tool_call_some api origin name arguments = refl

  short_circuit-Refuses :
      (clock : Clock) (api : ApiKind) (request : RequestEnvelope) (hit : Bool) (s : State engine)
      → Refuses (short_circuit engine host clock api request hit s)
  unfolding short_circuit
  short_circuit-Refuses clock api request hit s =
      let call = choose_tool_call host.unicode request json_escape_min in
      finish-Refuses clock api request []
        (new_tool_call api (tool_origin engine host clock request hit) call.0 call.1) none s
        (new_tool_call_some api (tool_origin engine host clock request hit) call.0 call.1)

  gated-Refuses :
      (clock : Clock) (api : ApiKind) (request : RequestEnvelope) (hit : Bool) (s : State engine)
      (o : Option Bytes)
      → o ≡ some reason
      → Refuses (gated engine host clock api request hit s o)
  gated-Refuses clock api request hit s none untrusted = cc
  gated-Refuses clock api request hit s (some other) untrusted = record {
    refused = λ a f. subst (IsUngenerated reason) (ok-value f) (cc untrusted);
  }

  if-Refuses :
      (b : Bool) (x y : Result Answer × State engine)
      → Refuses x
      → Refuses y
      → Refuses (if b then x else y)
  if-Refuses true x y h k = h
  if-Refuses false x y h k = k

  dispatch-Refuses :
      (clock : Clock) (api : ApiKind) (request : RequestEnvelope) (hit : Bool) (s : State engine)
      → untrusted_generation_reason host.opened ≡ some reason
      → Refuses (dispatch engine host clock api request hit s)
  unfolding dispatch
  dispatch-Refuses clock api request hit s untrusted =
      if-Refuses (should_short_circuit_tool_planning host.unicode request) _ _
        (short_circuit-Refuses clock api request hit s)
        (gated-Refuses clock api request hit s (untrusted_generation_reason host.opened) untrusted)

  with_request-Refuses :
      (clock : Clock) (api : ApiKind) (s : State engine) (request : Result RequestEnvelope)
      → untrusted_generation_reason host.opened ≡ some reason
      → Refuses (with_request engine host clock api s request)
  with_request-Refuses clock api s (ok request) untrusted =
      dispatch-Refuses clock api request _ _ untrusted
  with_request-Refuses clock api s (err e) untrusted = err-Refuses e s
  with_request-Refuses clock api s panic untrusted = panic-Refuses s

-- While there is a reason not to trust the engine, whatever request is answered is answered with that
-- reason or with the call of a tool, and never with a text.
pub handle_api-IsUngenerated :
    (engine : Engine) (host : Host) (clock : Clock) (api : ApiKind) (raw : Bytes) (s : State engine)
    (reason : Bytes) (a : Answer)
    → untrusted_generation_reason host.opened ≡ some reason
    → (handle_api engine host clock api raw s).0 ≡ ok a
    → IsUngenerated reason a
unfolding handle_api
handle_api-IsUngenerated engine host clock api raw s reason a untrusted e =
    (with_request-Refuses engine host reason clock api s
        (hydrate_tool_replay s.kv (from_http host.from_str host.to_string api raw))
        untrusted).refused
      a e
