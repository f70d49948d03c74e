-- ===== src/Kv/Store.antt =====
-- src/kv.rs: `KvCache`, over the store on disk. A hash map is an association list, whose order
-- stands for the map's order of iteration.
pub mod Disk
pub mod Restart
use ds4_rs.Base.{
  ℕ, zero, suc, ◌+◌, ◌-◌, List, [], ◌∷◌, ◌++◌, Option, none, some, Bool, true, false, not, ◌&&◌,
  ◌||◌, if◌then◌else◌, ltb, leb, length, drop, list_eq,
}
use ds4_rs.Bytes.{Bytes}
use ds4_rs.Error.{Result, ok, err, panic, io, ◌>>=◌}
use ds4_rs.Kv.Entry.{encode_entry, load_kvc_entry, is_kvc, decode_file}
use ds4_rs.Kv.Format.{KvToolReplayEntry, KvEntry}
use ds4_rs.Maps.{lookup, insert}
use ds4_rs.Sha1.{sha1_hex}
use ds4_rs.Utf8.{ascii}
use ds4_rs.Kv.Store.Disk
use ds4_rs.Kv.Store.Disk.{KvDiskStore, is_some}

pub record KvCache : Type 0 where
  pub by_key : List (Bytes × KvEntry)
  pub disk : Option KvDiskStore

-- KvCache::new
abbrev pub new : KvCache
new = record { by_key = []; disk = none }

-- KvCache::with_disk_dir, over a directory that is there
abbrev pub with_disk_dir : KvDiskStore → KvCache
with_disk_dir disk = record { by_key = []; disk = some disk }

abbrev candidate_on : Option KvDiskStore → Bytes → Bool
candidate_on none text = false
candidate_on (some disk) text = Disk.has_rendered_candidate disk text

-- KvCache::has_candidate
unfoldable pub has_candidate : KvCache → Bytes → Bool
has_candidate c key = is_some (lookup key c.by_key) || candidate_on c.disk key

-- KvCache::has_rendered_candidate
unfoldable pub has_rendered_candidate : KvCache → Bytes → Bool
has_rendered_candidate c rendered_text = candidate_on c.disk rendered_text

-- The disk is written first, and an error there leaves the map as it was.
abbrev pub stored_after :
    KvCache → Bytes → KvEntry → Result (Unit {0}) × KvDiskStore → Result (Unit {0}) × KvCache
stored_after c key entry (ok _, disk) =
    (ok tt, record { by_key = insert key entry c.by_key; disk = some disk })
stored_after c key entry (err e, disk) = (err e, record c { disk = some disk })
stored_after c key entry (panic, disk) = (panic, record c { disk = some disk })

abbrev pub store_on : KvCache → Bytes → KvEntry → Option KvDiskStore → Result (Unit {0}) × KvCache
store_on c key entry none = (ok tt, record c { by_key = insert key entry c.by_key })
store_on c key entry (some disk) = stored_after c key entry (Disk.store disk entry)

-- KvCache::store
unfoldable pub store : KvCache → Bytes → KvEntry → Result (Unit {0}) × KvCache
store c key entry = store_on c key entry c.disk

abbrev pub load_from : KvCache → Bytes → Result (Option KvEntry) → Result (Option KvEntry) × KvCache
load_from c key (ok none) = (ok none, c)
load_from c key (ok (some entry)) =
    (ok (some entry), record c { by_key = insert key entry c.by_key })
load_from c key (err e) = (err e, c)
load_from c key panic = (panic, c)

abbrev pub load_missing : KvCache → Bytes → Option KvDiskStore → Result (Option KvEntry) × KvCache
load_missing c key none = (ok none, c)
load_missing c key (some disk) = load_from c key (Disk.load_rendered_text disk key)

abbrev pub load_found : KvCache → Bytes → Option KvEntry → Result (Option KvEntry) × KvCache
load_found c key (some entry) = (ok (some entry), c)
load_found c key none = load_missing c key c.disk

-- KvCache::load and KvCache::load_rendered_text, which have one body. What the map returns after an
-- insertion is the entry inserted.
unfoldable pub load : KvCache → Bytes → Result (Option KvEntry) × KvCache
load c key = load_found c key (lookup key c.by_key)

abbrev replay_on : Option KvDiskStore → Bytes → Result (Option Bytes)
replay_on none tool_call_id = ok none
replay_on (some disk) tool_call_id = Disk.find_tool_replay disk tool_call_id

abbrev or_else_replay : Option Bytes → Result (Option Bytes) → Result (Option Bytes)
or_else_replay none next = next
or_else_replay (some block) next = ok (some block)

search_map : Bytes → List (Bytes × KvEntry) → Option Bytes
search_map tool_call_id [] = none
search_map tool_call_id ((key, entry) ∷ rest) =
    elim (Disk.find_replay tool_call_id entry.tool_replay) [
      | some block ↦ some block
      | none ↦ search_map tool_call_id rest
    ]

-- KvCache::find_tool_replay
unfoldable pub find_tool_replay : KvCache → Bytes → Result (Option Bytes)
unfolding search_map
find_tool_replay c tool_call_id =
    or_else_replay (search_map tool_call_id c.by_key) (replay_on c.disk tool_call_id)
