-- ===== src/Server/Continued.antt =====
-- src/server.rs: the continuation of a response, after further requests.
use ds4_rs.Base.{
  ℕ, ◌≡◌, refl, ◌∙◌, ap, Option, none, some, list_eq, subst, sym, Bool-cases, inl, inr,
}
use ds4_rs.Bytes.{Bytes}
use ds4_rs.Continuation.{
  ContinuationEntry, ContinuationStore, remember, restore, restored_as, select, stamped,
}
use ds4_rs.Continuation.Aliases.{IsKeyed, remember-IsKeyed, restore-IsKeyed, new-IsKeyed, used_at}
use ds4_rs.Engine.{Engine}
use ds4_rs.Error.{ok}
use ds4_rs.Maps.{lookup, insert, lookup-insert}
use ds4_rs.Protocol.{ApiKind, ResponseEnvelope}
use ds4_rs.Server.Handle.{handle_api}
use ds4_rs.Server.Remembered.{handle_api-restore}
use ds4_rs.Server.Shown.{IsShown}
use ds4_rs.Server.State.{Host, Clock, Body, replied, State}
use ds4_rs.Server.Steps.{Reach, Reach-kept, handle_api-kept}
use ds4_rs.Server.Routes.{ServerConfig, new_server}
use ds4_rs.Server.New.{new_server-IsNew}
use ds4_rs.Session.{Session}
use ds4_rs.Kv.Store.Disk.{KvDiskStore}
use ds4_rs.Server.Kept.{IsKept, IsKept-continuations}

-- There is an entry under an id.
record IsFound (id : Bytes) (store : ContinuationStore) : Type 0 where
  entry : ContinuationEntry
  there : lookup id store.by_id ≡ some entry

IsFound-insert :
    (id key : Bytes) (x : ContinuationEntry) (store store' : ContinuationStore)
    → store'.by_id ≡ insert key x store.by_id
    → IsFound id store
    → IsFound id store'
IsFound-insert id key x store store' e h = elim (Bool-cases (list_eq key id)) [
  | inl same ↦ record {
    entry = x;
    there = ap (lookup id) e ∙ lookup-insert key id x store.by_id ∙ rw same refl;
  }
  | inr apart ↦ record {
    entry = h.entry;
    there = ap (lookup id) e ∙ lookup-insert key id x store.by_id ∙ rw apart h.there;
  }
]

restored_as-IsFound :
    (now : ℕ) (key : Option Bytes) (id : Bytes) (store : ContinuationStore)
    → IsFound id store
    → IsFound id (restored_as now store key).1
restored_as-IsFound now none id store h = h
restored_as-IsFound now (some key) id store h = stamped-IsFound (lookup key store.by_id)
  where
    stamped-IsFound :
        (found : Option ContinuationEntry) → IsFound id (stamped now store key found).1
    stamped-IsFound none = h
    stamped-IsFound (some x) = IsFound-insert id key (used_at now x) store _ refl h

IsFound-IsKept : (engine : Engine) (id : Bytes) → IsKept engine (λ session store. IsFound id store)
unfolding remember restore
IsFound-IsKept engine id =
    IsKept-continuations engine (IsFound id)
      (λ store x h. IsFound-insert id x.response_id x store _ refl h)
      (λ store now key c t h. restored_as-IsFound now (select store key c t) id store h)

IsKeyed-IsKept : (engine : Engine) → IsKept engine (λ session store. IsKeyed store)
IsKeyed-IsKept engine =
    IsKept-continuations engine IsKeyed remember-IsKeyed
      (λ store now id c t h. restore-IsKeyed now store id c t h)

-- An entry that a look for an id finds stands under the id.
IsFound-stamped :
    (now : ℕ) (store : ContinuationStore) (id : Bytes) (found : Option ContinuationEntry)
    (e : ContinuationEntry)
    → lookup id store.by_id ≡ found
    → (stamped now store id found).0 ≡ some e
    → IsFound id store
IsFound-stamped now store id none e h f = cc
IsFound-stamped now store id (some x) e h f = record { entry = x; there = h }

-- An entry under its own id is found by the id.
IsFound-restored :
    (now : ℕ) (store : ContinuationStore) (id : Bytes) (c t : Option Bytes)
    → IsKeyed store
    → IsFound id store
    → (e : ContinuationEntry) × ((restore now store (some id) c t).0 ≡ some e)
      × (e.response_id ≡ id)
unfolding restore
IsFound-restored now store id c t keyed h =
    (used_at now h.entry, rw h.there refl, keyed.own_id id h.entry h.there)

-- If a server answers a request with a response, then, whatever requests have come to it since it
-- was made and whatever requests follow, however those are answered, a look for the id of the
-- response finds a continuation, and that continuation has this id; and the body of the answer is the
-- response, as JSON or as one event, or a stream of events for a chat completion by a model.
pub restore-Reach :
    (engine : Engine) (host : Host) (directories : Bytes → Option KvDiskStore)
    (config : ServerConfig) (start s t : State engine) (clock : Clock) (api : ApiKind) (raw : Bytes)
    (r : ResponseEnvelope) (body : Body) (now : ℕ) (conversation tool_call : Option Bytes)
    → new_server engine directories config ≡ ok start
    → Reach engine host start s
    → (handle_api engine host clock api raw s).0 ≡ ok (replied r body)
    → Reach engine host (handle_api engine host clock api raw s).1 t
    → IsShown host api r body
      × ((e : ContinuationEntry) × ((restore now t.continuations
              (some r.id)
              conversation
              tool_call).0
            ≡ some e)
          × (e.response_id ≡ r.id))
unfolding restore
restore-Reach engine host directories config start s t clock api raw r body now c tc made before e
      later =
    let after = (handle_api engine host clock api raw s).1 in
    let (shown, (x, found, _)) = handle_api-restore engine host clock api raw s r body now c tc e in
    let there = IsFound-stamped now after.continuations r.id _ x refl found in
    let P = λ (session : Session engine) (store : ContinuationStore). IsKeyed store in
    let Q = λ (session : Session engine) (store : ContinuationStore). IsFound r.id store in
    let fresh = (new_server-IsNew engine directories config made).none_yet in
    let keyed = handle_api-kept engine host P (IsKeyed-IsKept engine) clock api raw s (
      Reach-kept engine host P (IsKeyed-IsKept engine) (subst IsKeyed (sym fresh) new-IsKeyed)
        before) in
    (
      shown,
      IsFound-restored now t.continuations r.id c tc
          (Reach-kept engine host P (IsKeyed-IsKept engine) keyed later)
          (Reach-kept engine host Q (IsFound-IsKept engine r.id) there later),
    )
