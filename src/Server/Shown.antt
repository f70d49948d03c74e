-- ===== src/Server/Shown.antt =====
-- What the body of an answer shows of the response (src/server.rs).
use ds4_rs.Base.{
  ◌≡◌, refl, sym, List, [], ◌∷◌, Option, none, some, Bool, true, Bool-cases, inl, inr, ◌&&◌, ◌⊎◌,
  arith,
}
use ds4_rs.Bytes.{Bytes}
use ds4_rs.Engine.{Engine}
use ds4_rs.Error.{Result, ok, err, panic}
use ds4_rs.Protocol.Json.{Value}
use ds4_rs.Protocol.Render.{to_json}
use ds4_rs.Protocol.{
  chat_completions, responses, completions, messages, ApiKind, RequestEnvelope, ResponseEnvelope,
}
use ds4_rs.Server.Generate.{generate_response, replied_with, is_chat, origin_of}
use ds4_rs.Engine.Open.{has_real_model}
use ds4_rs.Protocol.Stream.{to_sse}
use ds4_rs.Protocol.Render.Envelope.{Origin}
use ds4_rs.Server.Handle.{answer, stream_answer, json_answer}
use ds4_rs.Server.State.{Host, Clock, Body, json, events, Answer, replied}
use ds4_rs.Session.{Session, SyncStats}

-- The body is a response: its JSON, printed once more, or one event.
pub data IsPrinted (host : Host) (r : ResponseEnvelope) : Body → Type 0 where
  as_json :
      (v : Value) → host.from_str (to_json r) ≡ some v → IsPrinted host r (json (host.to_string v))
  as_event : IsPrinted host r (events (to_sse r ∷ []))

-- The body is the response, or a stream of events for a chat completion by a model.
abbrev pub IsShown : Host → ApiKind → ResponseEnvelope → Body → Type 0
IsShown host api r body =
    IsPrinted host r body
    ⊎ ((api ≡ chat_completions)
        × (has_real_model host.opened ≡ true)
        × ((out : List Bytes) × (body ≡ events out)))

body_of :
    {r q : ResponseEnvelope} {b c : Body}
    → ◌≡◌ {A = Result Answer} (ok (replied q c)) (ok (replied r b))
    → b ≡ c
body_of e = cc

body-IsPrinted :
    {host : Host} {r q : ResponseEnvelope} {b c : Body}
    → ◌≡◌ {A = Result Answer} (ok (replied q c)) (ok (replied r b))
    → IsPrinted host q c
    → IsPrinted host r b
body-IsPrinted {host} e h = rw (fst_of e, sym (body_of e)) at h
  where
    fst_of :
        {r q : ResponseEnvelope} {b c : Body}
        → ◌≡◌ {A = Result Answer} (ok (replied q c)) (ok (replied r b))
        → q ≡ r
    fst_of e = cc

json-IsPrinted :
    (engine : Engine) (host : Host) (response : ResponseEnvelope) (v : Option Value)
    (r : ResponseEnvelope) (body : Body)
    → host.from_str (to_json response) ≡ v
    → json_answer engine host response v ≡ ok (replied r body)
    → IsPrinted host r body
json-IsPrinted engine host response none r body f e = cc
json-IsPrinted engine host response (some v) r body f e = body-IsPrinted e (as_json v f)

-- A stream of events of its own is there for a chat completion by a model only.
abbrev pub IsFor : Host → ApiKind → Option (List Bytes) → Type 0
IsFor host api stream =
    (stream ≡ none) ⊎ ((api ≡ chat_completions) × (has_real_model host.opened ≡ true))

module _ (engine : Engine) (host : Host) where
  stream-IsShown :
      (api : ApiKind) (response : ResponseEnvelope) (stream : Option (List Bytes))
      (r : ResponseEnvelope) (body : Body)
      → IsFor host api stream
      → stream_answer engine host response stream ≡ ok (replied r body)
      → IsShown host api r body
  stream-IsShown api response none r body own e = inl (body-IsPrinted e as_event)
  stream-IsShown api response (some out) r body (inl none_made) e = cc
  stream-IsShown api response (some out) r body (inr (chat, real)) e =
      inr (chat, real, (out, body_of e))

  pub answer-IsShown :
      (api : ApiKind) (request : RequestEnvelope) (response : ResponseEnvelope)
      (stream : Option (List Bytes)) (r : ResponseEnvelope) (body : Body)
      → IsFor host api stream
      → answer engine host request response stream ≡ ok (replied r body)
      → IsShown host api r body
  unfolding answer
  answer-IsShown api request response stream r body own e = elim (Bool-cases request.stream) [
    | inl streaming ↦ stream-IsShown api response stream r body own (rw streaming at e)
    | inr whole ↦ inl (
        json-IsPrinted engine host response (host.from_str (to_json response)) r body refl
          (rw whole at e))
  ]

  chat_of : (api : ApiKind) → is_chat engine host api ≡ true → api ≡ chat_completions
  chat_of chat_completions e = refl
  chat_of responses e = cc
  chat_of completions e = cc
  chat_of messages e = cc

  replied_with-none :
      (api : ApiKind) (origin : Origin) (made : Result Bytes × Session engine)
      (response : ResponseEnvelope) (stream : Option (List Bytes))
      → (replied_with engine host api origin made).0 ≡ ok (response, stream)
      → stream ≡ none
  replied_with-none api origin (ok message, session) response stream e = cc
  replied_with-none api origin (err x, session) response stream e = cc
  replied_with-none api origin (panic, session) response stream e = cc

  pub generate_response-IsFor :
      (clock : Clock) (api : ApiKind) (request : RequestEnvelope) (hit : Bool) (stats : SyncStats)
      (session : Session engine) (response : ResponseEnvelope) (stream : Option (List Bytes))
      → (generate_response engine host clock api request hit stats session).0
        ≡ ok (response, stream)
      → IsFor host api stream
  unfolding generate_response
  generate_response-IsFor clock api request hit stats session response stream e =
      let test = request.stream && (is_chat engine host api && has_real_model host.opened) in
      elim (Bool-cases test) [
        | inl own ↦ inr (chat_of api (ground (arith, own)), ground (arith, own))
        | inr whole ↦ inl (
            replied_with-none api (origin_of engine host clock stats hit) _ response stream
              (rw whole at e))
      ]
