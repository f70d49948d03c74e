-- ===== src/Continuation.antt =====
-- src/continuation.rs: the store of continuations, which finds the snapshot of an earlier response
-- by its id, or through the latest response of a conversation or of a tool call. The clock is a
-- number that the caller passes in for `now_ms()`.
pub mod Aliases
use ds4_rs.Base.{ℕ, List, [], ◌∷◌, Option, none, some}
use ds4_rs.Bytes.{Bytes}
use ds4_rs.Maps.{lookup, insert}
use ds4_rs.Types.{SessionSnapshot}

pub record ContinuationEntry : Type 0 where
  pub response_id : Bytes
  pub visible_text : Bytes
  pub conversation : Option Bytes
  pub last_tool_call_id : Option Bytes
  pub snapshot : SessionSnapshot
  pub created_at_ms : ℕ
  pub last_used_ms : ℕ

-- ContinuationEntry::new
unfoldable pub new_entry :
    ℕ → Bytes → Bytes → Option Bytes → Option Bytes → SessionSnapshot → ContinuationEntry
new_entry now response_id visible_text conversation last_tool_call_id snapshot = record {
  response_id = response_id;
  visible_text = visible_text;
  conversation = conversation;
  last_tool_call_id = last_tool_call_id;
  snapshot = snapshot;
  created_at_ms = now;
  last_used_ms = now;
}

pub record ContinuationStore : Type 0 where
  pub by_id : List (Bytes × ContinuationEntry)
  pub latest_by_conversation : List (Bytes × Bytes)
  pub latest_by_tool_call : List (Bytes × Bytes)

-- ContinuationStore::new
abbrev pub new : ContinuationStore
new = record { by_id = []; latest_by_conversation = []; latest_by_tool_call = [] }

abbrev pub alias : Option Bytes → Bytes → List (Bytes × Bytes) → List (Bytes × Bytes)
alias none id aliases = aliases
alias (some name) id aliases = insert name id aliases

-- ContinuationStore::remember
unfoldable pub remember : ContinuationStore → ContinuationEntry → ContinuationStore
remember store entry = record {
  by_id = insert entry.response_id entry store.by_id;
  latest_by_conversation = alias entry.conversation entry.response_id store.latest_by_conversation;
  latest_by_tool_call = alias entry.last_tool_call_id entry.response_id store.latest_by_tool_call;
}

-- The id that `restore` looks for: a response goes before a conversation, and that before a tool
-- call.
abbrev pub select : ContinuationStore → Option Bytes → Option Bytes → Option Bytes → Option Bytes
select store (some id) conversation tool_call = some id
select store none (some conversation) tool_call = lookup conversation store.latest_by_conversation
select store none none (some tool_call) = lookup tool_call store.latest_by_tool_call
select store none none none = none

-- The entry that stands under an id is stamped where it stands.
abbrev pub stamped :
    ℕ
    → ContinuationStore
    → Bytes
    → Option ContinuationEntry
    → Option ContinuationEntry × ContinuationStore
stamped now store id none = (none, store)
stamped now store id (some entry) =
    let entry' : ContinuationEntry = record entry { last_used_ms = now } in
    (some entry', record store { by_id = insert id entry' store.by_id })

abbrev pub restored_as :
    ℕ → ContinuationStore → Option Bytes → Option ContinuationEntry × ContinuationStore
restored_as now store none = (none, store)
restored_as now store (some id) = stamped now store id (lookup id store.by_id)

-- ContinuationStore::restore
unfoldable pub restore :
    ℕ
    → ContinuationStore
    → Option Bytes
    → Option Bytes
    → Option Bytes
    → Option ContinuationEntry × ContinuationStore
restore now store previous_response_id conversation last_tool_call_id =
    restored_as now store (select store previous_response_id conversation last_tool_call_id)
