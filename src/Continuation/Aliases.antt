-- ===== src/Continuation/Aliases.antt =====
-- What a continuation is found by, and what finding it leaves alone.
use ds4_rs.Base.{
  ◌≡◌, refl, ap, ◌∙◌, ℕ, List, Option, none, some, false, list_eq, arith, list_eq_iff,
}
use ds4_rs.Bytes.{Bytes}
use ds4_rs.Continuation.{
  ContinuationEntry, ContinuationStore, new, alias, remember, restored_as, select, stamped, restore,
}
use ds4_rs.Maps.{lookup, insert, lookup-insert, lookup-insert_self}

-- Every entry stands in the map under its own response id.
pub record IsKeyed (store : ContinuationStore) : Type 0 where
  pub own_id :
      (id : Bytes) (e : ContinuationEntry) → lookup id store.by_id ≡ some e → e.response_id ≡ id

insert-own_id :
    (by_id : List (Bytes × ContinuationEntry)) (key : Bytes) (x : ContinuationEntry)
    → ((id : Bytes) (e : ContinuationEntry) → lookup id by_id ≡ some e → e.response_id ≡ id)
    → x.response_id ≡ key
    → (id : Bytes) (e : ContinuationEntry) → lookup id (insert key x by_id) ≡ some e
    → e.response_id ≡ id
insert-own_id by_id key x keyed own id e found =
    ground (arith, keyed id e, own, found, lookup-insert key id x by_id, list_eq_iff key id)

-- Remembering an entry keeps every entry under its own id.
pub remember-IsKeyed :
    (store : ContinuationStore) (x : ContinuationEntry) → IsKeyed store → IsKeyed (remember store x)
unfolding remember
remember-IsKeyed store x h = record {
  own_id = insert-own_id store.by_id x.response_id x h.own_id refl;
}

-- What `restore` makes of the entry that it finds.
abbrev pub used_at : ℕ → ContinuationEntry → ContinuationEntry
used_at now e = record e { last_used_ms = now }

alias_self :
    (name id : Bytes) (given : Option Bytes) (aliases : List (Bytes × Bytes))
    → given ≡ some name
    → lookup name (alias given id aliases) ≡ some id
alias_self name id given aliases there = rw there (lookup-insert_self name id aliases)

pub restored_as-remember :
    (now : ℕ) (store : ContinuationStore) (x : ContinuationEntry)
    → (restored_as now (remember store x) (some x.response_id)).0 ≡ some (used_at now x)
unfolding remember
restored_as-remember now store x =
    let found : lookup x.response_id (insert x.response_id x store.by_id) ≡ some x =
      lookup-insert_self x.response_id x store.by_id in
    ap (λ f. (stamped now (remember store x) x.response_id f).0) found

-- An entry that is remembered with a conversation is restored by its response id, whatever other
-- names are given, and by the conversation, whatever tool call is given: stamped with the clock.
pub restore-remember_conversation :
    (now : ℕ) (store : ContinuationStore) (x : ContinuationEntry) (name : Bytes)
    (c t : Option Bytes)
    → x.conversation ≡ some name
    → ((restore now (remember store x) (some x.response_id) c t).0 ≡ some (used_at now x))
      × ((restore now (remember store x) none (some name) t).0 ≡ some (used_at now x))
unfolding restore remember
restore-remember_conversation now store x name c t there =
    let e : lookup name (remember store x).latest_by_conversation ≡ some x.response_id =
      alias_self name x.response_id x.conversation store.latest_by_conversation there in
    (
      restored_as-remember now store x,
      ap (λ id. (restored_as now (remember store x) id).0) e ∙ restored_as-remember now store x,
    )

-- An entry that is remembered with a tool call is restored by the tool call, where neither a
-- response nor a conversation is given: stamped with the clock.
pub restore-remember_tool_call :
    (now : ℕ) (store : ContinuationStore) (x : ContinuationEntry) (name : Bytes)
    → x.last_tool_call_id ≡ some name
    → (restore now (remember store x) none none (some name)).0 ≡ some (used_at now x)
unfolding restore remember
restore-remember_tool_call now store x name there =
    let e : lookup name (remember store x).latest_by_tool_call ≡ some x.response_id =
      alias_self name x.response_id x.last_tool_call_id store.latest_by_tool_call there in
    ap (λ id. (restored_as now (remember store x) id).0) e ∙ restored_as-remember now store x

stamped-other :
    (now : ℕ) (store : ContinuationStore) (id other : Bytes) (found : Option ContinuationEntry)
    → list_eq id other ≡ false
    → lookup other (stamped now store id found).1.by_id ≡ lookup other store.by_id
stamped-other now store id other none apart = refl
stamped-other now store id other (some e) apart =
    rw (lookup-insert id other (used_at now e) store.by_id, apart) refl

stamped-IsKeyed :
    (now : ℕ) (store : ContinuationStore) (id : Bytes) (found : Option ContinuationEntry)
    → lookup id store.by_id ≡ found
    → IsKeyed store
    → IsKeyed (stamped now store id found).1
stamped-IsKeyed now store id none e h = h
stamped-IsKeyed now store id (some x) e h = record {
  own_id = insert-own_id store.by_id id (used_at now x) h.own_id (h.own_id id x e);
}

restored_as-IsKeyed :
    (now : ℕ) (store : ContinuationStore) (id : Option Bytes)
    → IsKeyed store
    → IsKeyed (restored_as now store id).1
restored_as-IsKeyed now store none h = h
restored_as-IsKeyed now store (some id) h =
    stamped-IsKeyed now store id (lookup id store.by_id) refl h

-- Restoring keeps every entry under its own id.
pub restore-IsKeyed :
    (now : ℕ) (store : ContinuationStore) (id c t : Option Bytes)
    → IsKeyed store
    → IsKeyed (restore now store id c t).1
unfolding restore
restore-IsKeyed now store id c t h = restored_as-IsKeyed now store (select store id c t) h

pub new-IsKeyed : IsKeyed new
unfolding lookup
new-IsKeyed = record { own_id = λ id e found. ground (arith, found) }

stamped-found :
    (now : ℕ) (store : ContinuationStore) (id : Bytes) (e : ContinuationEntry)
    → lookup id store.by_id ≡ some e
    → (stamped now store id (lookup id store.by_id)).0 ≡ some (used_at now e)
stamped-found now store id e found = rw found refl

-- If there is an entry under the id of a response, then restoring the response finds it, stamped with
-- the clock, and leaves the entries of other ids as they are, and a second restore finds it again,
-- stamped with the later clock; if there is none, then restoring it finds nothing and changes nothing.
pub restore-by_id :
    (now later : ℕ) (store : ContinuationStore) (id other : Bytes) (c t : Option Bytes)
    → list_eq id other ≡ false
    → ((e : ContinuationEntry)
        → lookup id store.by_id ≡ some e
        → ((restore now store (some id) c t).0 ≡ some (used_at now e))
          × (lookup other (restore now store (some id) c t).1.by_id ≡ lookup other store.by_id)
          × ((restore later (restore now store (some id) c t).1 (some id) c t).0
              ≡ some (used_at later e)))
      × (lookup id store.by_id ≡ none → restore now store (some id) c t ≡ (none, store))
unfolding restore
restore-by_id now later store id other c t apart = (
  λ e found. (
    stamped-found now store id e found,
    stamped-other now store id other (lookup id store.by_id) apart,
    stamped-found later (stamped now store id (lookup id store.by_id)).1 id (used_at now e)
        (rw found (lookup-insert_self id (used_at now e) store.by_id)),
  ),
  λ missing. rw missing refl,
)
