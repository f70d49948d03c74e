-- ===== src/Server/Remembered.antt =====
-- What a request that is answered leaves behind in the continuations.
use ds4_rs.Base.{
  ℕ, ◌≡◌, refl, sym, subst, List, [], Option, none, some, Bool, true, false, Bool-cases, inl, inr,
  if◌then◌else◌,
}
use ds4_rs.Bytes.{Bytes}
use ds4_rs.Continuation.{ContinuationEntry, ContinuationStore, new_entry, restore}
use ds4_rs.Continuation.Aliases.{restored_as-remember}
use ds4_rs.Engine.{Engine}
use ds4_rs.Error.{Result, Ds4Error, ok, err, panic}
use ds4_rs.Kv.Store.{KvCache}
use ds4_rs.Protocol.Json.{Value}
use ds4_rs.Protocol.Render.{to_json}
use ds4_rs.Protocol.Request.{from_http}
use ds4_rs.Tokenizer.Chat.{render_chat_prompt, think_high, think_none}
use ds4_rs.Protocol.{ApiKind, RequestEnvelope, ResponseEnvelope}
use ds4_rs.Server.Generate.{generate_response}
use ds4_rs.Server.Gate.{untrusted_generation_reason}
use ds4_rs.Server.Handle.{
  answer, stream_answer, json_answer, remembered, finish, short_circuit, generated, synced, respond,
  gated, dispatch, with_request, handle_api,
}
use ds4_rs.Server.Shown.{IsShown, IsFor, answer-IsShown, generate_response-IsFor}
use ds4_rs.Server.State.{
  Host, Clock, Body, Answer, replied, State, hydrate_tool_replay, remember_continuation,
  store_visible_kv_entry,
}
use ds4_rs.Server.Tools.{should_short_circuit_tool_planning}
use ds4_rs.Session.Snapshot.{save_snapshot}
use ds4_rs.Session.{Session, SyncStats, prefill}
use ds4_rs.Types.{SessionSnapshot, Tokens}

pub answer-response :
    {r q : ResponseEnvelope} {b c : Body}
    → ◌≡◌ {A = Result Answer} (ok (replied r b)) (ok (replied q c))
    → q ≡ r
answer-response e = cc

stream-replied :
    (engine : Engine) (host : Host) (response : ResponseEnvelope) (stream : Option (List Bytes))
    (r : ResponseEnvelope) (body : Body)
    → stream_answer engine host response stream ≡ ok (replied r body)
    → response ≡ r
stream-replied engine host response none r body e = answer-response (sym e)
stream-replied engine host response (some out) r body e = answer-response (sym e)

json-replied :
    (engine : Engine) (host : Host) (response : ResponseEnvelope) (v : Option Value)
    (r : ResponseEnvelope) (body : Body)
    → json_answer engine host response v ≡ ok (replied r body)
    → response ≡ r
json-replied engine host response none r body e = cc
json-replied engine host response (some v) r body e = answer-response (sym e)

restore-remember_continuation :
    (continuations : ContinuationStore) (at now : ℕ) (request : RequestEnvelope)
    (response : ResponseEnvelope) (snapshot : SessionSnapshot) (c t : Option Bytes)
    → (e : ContinuationEntry) × ((restore now
          (remember_continuation continuations at request response snapshot)
          (some response.id)
          c
          t).0
        ≡ some e)
      × (e.snapshot ≡ snapshot)
unfolding remember_continuation restore new_entry
restore-remember_continuation continuations at now request response snapshot c t =
    (_, restored_as-remember now continuations _, refl)

module _ (engine : Engine) (host : Host) where
  pub answer-replied :
      (request : RequestEnvelope) (response : ResponseEnvelope) (stream : Option (List Bytes))
      (r : ResponseEnvelope) (body : Body)
      → answer engine host request response stream ≡ ok (replied r body)
      → response ≡ r
  unfolding answer
  answer-replied request response stream r body e = elim (Bool-cases request.stream) [
    | inl streaming ↦ stream-replied engine host response stream r body (rw streaming at e)
    | inr whole ↦
        json-replied engine host response (host.from_str (to_json response)) r body (rw whole at e)
  ]

  -- The snapshot of the session that a request leaves is remembered under the id of its response.
  record Keeps (api : ApiKind) (out : Result Answer × State engine) : Type 0 where
    kept :
        (r : ResponseEnvelope) (body : Body)
        → out.0 ≡ ok (replied r body)
        → (now : ℕ) (c t : Option Bytes)
        → (e : ContinuationEntry) × ((restore now out.1.continuations (some r.id) c t).0 ≡ some e)
          × (e.snapshot ≡ save_snapshot out.1.session)
    shown :
        (r : ResponseEnvelope) (body : Body) → out.0 ≡ ok (replied r body) → IsShown host api r body

  err-Keeps : (api : ApiKind) (e : Ds4Error) (s : State engine) → Keeps api (err e, s)
  err-Keeps api e s = record { kept = λ r body f now c t. cc; shown = λ r body f. cc }

  panic-Keeps : (api : ApiKind) (s : State engine) → Keeps api (panic, s)
  panic-Keeps api s = record { kept = λ r body f now c t. cc; shown = λ r body f. cc }

  remembered-Keeps :
      (clock : Clock) (api : ApiKind) (request : RequestEnvelope) (response : ResponseEnvelope)
      (stream : Option (List Bytes)) (s : State engine) (stored : Result (Unit {0}) × KvCache)
      → IsFor host api stream
      → Keeps api (remembered engine host clock request response stream s stored)
  remembered-Keeps clock api request response stream s (err e, kv) own = err-Keeps api e _
  remembered-Keeps clock api request response stream s (panic, kv) own = panic-Keeps api _
  remembered-Keeps clock api request response stream s (ok u, kv) own = record {
    shown = λ r body f. answer-IsShown engine host api request response stream r body own f;
    kept = λ r body f now c t.
        subst
          (λ q.
            (e : ContinuationEntry) × ((restore now
                (remember_continuation s.continuations clock.remembered_ms request response
                  (save_snapshot s.session))
                (some q.id) c t).0
              ≡ some e)
            × (e.snapshot ≡ save_snapshot s.session))
          (answer-replied request response stream r body f)
          (restore-remember_continuation s.continuations clock.remembered_ms now request response
            (save_snapshot s.session) c t);
  }

  finish-Keeps :
      (clock : Clock) (api : ApiKind) (request : RequestEnvelope) (rendered : Tokens)
      (response : ResponseEnvelope) (stream : Option (List Bytes)) (s : State engine)
      → IsFor host api stream
      → Keeps api (finish engine host clock api request rendered response stream s)
  unfolding finish
  finish-Keeps clock api request rendered response stream s own =
      remembered-Keeps clock api request response stream s
        (store_visible_kv_entry engine host s.kv clock.stored_unix s.session api response
          (save_snapshot s.session) rendered)
        own

  generated-Keeps :
      (clock : Clock) (api : ApiKind) (request : RequestEnvelope) (rendered : Tokens)
      (s : State engine) (made : Result (ResponseEnvelope × Option (List Bytes)) × Session engine)
      → ((response : ResponseEnvelope) (stream : Option (List Bytes))
          → made.0 ≡ ok (response, stream)
          → IsFor host api stream)
      → Keeps api (generated engine host clock api request rendered s made)
  generated-Keeps clock api request rendered s (ok (response, stream), session) own =
      finish-Keeps clock api request rendered response stream (record s { session = session })
        (own response stream refl)
  generated-Keeps clock api request rendered s (err e, session) own = err-Keeps api e _
  generated-Keeps clock api request rendered s (panic, session) own = panic-Keeps api _

  synced-Keeps :
      (clock : Clock) (api : ApiKind) (request : RequestEnvelope) (hit : Bool) (rendered : Tokens)
      (s : State engine) (done : Result SyncStats × Session engine)
      → Keeps api (synced engine host clock api request hit rendered s done)
  synced-Keeps clock api request hit rendered s (ok stats, session) =
      generated-Keeps clock api request rendered s
        (generate_response engine host clock api request hit stats session)
        (generate_response-IsFor engine host clock api request hit stats session)
  synced-Keeps clock api request hit rendered s (err e, session) = err-Keeps api e _
  synced-Keeps clock api request hit rendered s (panic, session) = panic-Keeps api _

  respond-Keeps :
      (clock : Clock) (api : ApiKind) (request : RequestEnvelope) (hit : Bool) (s : State engine)
      → Keeps api (respond engine host clock api request hit s)
  unfolding respond
  respond-Keeps clock api request hit s =
      let rendered =
        render_chat_prompt host.opened.tokenizer request.system request.prompt
          (if request.stream then think_high else think_none) in
      synced-Keeps clock api request hit rendered s (prefill s.session rendered)

  gated-Keeps :
      (clock : Clock) (api : ApiKind) (request : RequestEnvelope) (hit : Bool) (s : State engine)
      (reason : Option Bytes)
      → Keeps api (gated engine host clock api request hit s reason)
  gated-Keeps clock api request hit s (some reason) = record {
    kept = λ r body f now c t. cc;
    shown = λ r body f. cc;
  }
  gated-Keeps clock api request hit s none = respond-Keeps clock api request hit s

  short_circuit-Keeps :
      (clock : Clock) (api : ApiKind) (request : RequestEnvelope) (hit : Bool) (s : State engine)
      → Keeps api (short_circuit engine host clock api request hit s)
  unfolding short_circuit
  short_circuit-Keeps clock api request hit s =
      finish-Keeps clock api request [] _ none s (inl refl)

  if-Keeps :
      (api : ApiKind) (b : Bool) (x y : Result Answer × State engine)
      → Keeps api x
      → Keeps api y
      → Keeps api (if b then x else y)
  if-Keeps api true x y h k = h
  if-Keeps api false x y h k = k

  dispatch-Keeps :
      (clock : Clock) (api : ApiKind) (request : RequestEnvelope) (hit : Bool) (s : State engine)
      → Keeps api (dispatch engine host clock api request hit s)
  unfolding dispatch
  dispatch-Keeps clock api request hit s =
      if-Keeps api (should_short_circuit_tool_planning host.unicode request) _ _
        (short_circuit-Keeps clock api request hit s)
        (gated-Keeps clock api request hit s (untrusted_generation_reason host.opened))

  with_request-Keeps :
      (clock : Clock) (api : ApiKind) (s : State engine) (request : Result RequestEnvelope)
      → Keeps api (with_request engine host clock api s request)
  with_request-Keeps clock api s (ok request) = dispatch-Keeps clock api request _ _
  with_request-Keeps clock api s (err e) = err-Keeps api e s
  with_request-Keeps clock api s panic = panic-Keeps api s

-- If a request is answered with a response, then the body of the answer is this response, as JSON or as
-- one event, or a stream of events for a chat completion by a model; and a later look for the id of
-- the response finds, whatever else it names, a continuation whose snapshot is that of the session as
-- the request has left it.
pub handle_api-restore :
    (engine : Engine) (host : Host) (clock : Clock) (api : ApiKind) (raw : Bytes) (s : State engine)
    (r : ResponseEnvelope) (body : Body) (now : ℕ) (conversation tool_call : Option Bytes)
    → (handle_api engine host clock api raw s).0 ≡ ok (replied r body)
    → IsShown host api r body
      × ((e : ContinuationEntry) × ((restore now
              (handle_api engine host clock api raw s).1.continuations
              (some r.id)
              conversation
              tool_call).0
            ≡ some e)
          × (e.snapshot ≡ save_snapshot (handle_api engine host clock api raw s).1.session))
unfolding handle_api
handle_api-restore engine host clock api raw s r body now conversation tool_call e =
    let keeps =
      with_request-Keeps engine host clock api s
        (hydrate_tool_replay s.kv (from_http host.from_str host.to_string api raw)) in
    (keeps.shown r body e, keeps.kept r body e now conversation tool_call)
