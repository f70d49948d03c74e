-- ===== src/Kv/Store/Disk.antt =====
-- src/kv.rs: `KvDiskStore`. The directory is a list of files by name, in the order in which it is
-- read, and `writable` says whether `fs::write` succeeds. A write that fails may leave the file as it
-- was, or leave anything in its place, which `torn` says; a file that is there can be read.
use ds4_rs.Base.{
  ◌-◌, List, [], ◌∷◌, ◌++◌, Option, none, some, Bool, true, false, ◌&&◌, if◌then◌else◌, ltb, length,
  drop, list_eq,
}
use ds4_rs.Bytes.{Bytes}
use ds4_rs.Error.{Result, ok, err, panic, io, ◌>>=◌}
use ds4_rs.Kv.Entry.{encode_entry, load_kvc_entry, is_kvc, decode_file}
use ds4_rs.Kv.Format.{KvToolReplayEntry, KvEntry}
use ds4_rs.Maps.{lookup, insert}
use ds4_rs.Sha1.{sha1_hex}
use ds4_rs.Utf8.{ascii}

-- `KvDiskStore { root }`, with the files of the directory.
pub record KvDiskStore : Type 0 where
  pub files : List (Bytes × Bytes)
  pub writable : Bool
  pub torn : Bytes → Option Bytes

-- KvDiskStore::path_for_rendered_text, the name in the directory
unfoldable pub path_for_rendered_text : Bytes → Bytes
path_for_rendered_text rendered_text = sha1_hex rendered_text ++ ascii ".kv"

abbrev pub is_some {ℓ} : {A : Type ℓ} → Option A → Bool
is_some none = false
is_some (some a) = true

-- KvDiskStore::has_rendered_candidate
unfoldable pub has_rendered_candidate : KvDiskStore → Bytes → Bool
has_rendered_candidate disk rendered_text =
    is_some (lookup (path_for_rendered_text rendered_text) disk.files)

abbrev pub torn_files : Option Bytes → Bytes → List (Bytes × Bytes) → List (Bytes × Bytes)
torn_files none path files = files
torn_files (some part) path files = insert path part files

abbrev pub write_file : KvDiskStore → Bytes → Result Bytes → Result (Unit {0}) × KvDiskStore
write_file disk path (ok bytes) =
    if disk.writable
    then (ok tt, record disk { files = insert path bytes disk.files })
    else (err io, record disk { files = torn_files (disk.torn bytes) path disk.files })
write_file disk path (err e) = (err e, disk)
write_file disk path panic = (panic, disk)

-- KvDiskStore::store; the key is not used.
unfoldable pub store : KvDiskStore → KvEntry → Result (Unit {0}) × KvDiskStore
store disk entry = write_file disk (path_for_rendered_text entry.rendered_text) (encode_entry entry)

abbrev pub decode_found : Bytes → Option Bytes → Result (Option KvEntry)
decode_found rendered_text none = ok none
decode_found rendered_text (some bytes) = do
  entry ← decode_file rendered_text bytes
  ok (some entry)

-- KvDiskStore::load_rendered_text
unfoldable pub load_rendered_text : KvDiskStore → Bytes → Result (Option KvEntry)
load_rendered_text disk rendered_text =
    decode_found rendered_text (lookup (path_for_rendered_text rendered_text) disk.files)

-- `path.extension() == Some("kv")`, of a file name
has_kv_extension : Bytes → Bool
has_kv_extension name = ltb 3 (length name) && list_eq (drop (length name - 3) name) (ascii ".kv")

-- `entry.tool_replay.iter().find(..)`
unfoldable pub find_replay : Bytes → List KvToolReplayEntry → Option Bytes
find_replay tool_call_id [] = none
find_replay tool_call_id (item ∷ rest) =
    if list_eq item.tool_call_id tool_call_id
    then some item.sampled_block
    else find_replay tool_call_id rest

-- A file in the KVC format is decoded, and an error ends the search; other files are skipped.
file_replay : Bytes → Bytes → Bytes → Result (Option Bytes)
unfolding has_kv_extension
file_replay tool_call_id name bytes =
    if has_kv_extension name && is_kvc bytes
    then (do entry ← load_kvc_entry bytes; ok (find_replay tool_call_id entry.tool_replay))
    else ok none

abbrev or_next : Result (Option Bytes) → Result (Option Bytes) → Result (Option Bytes)
or_next (ok none) next = next
or_next (ok (some block)) next = ok (some block)
or_next (err e) next = err e
or_next panic next = panic

search_files : Bytes → List (Bytes × Bytes) → Result (Option Bytes)
unfolding file_replay
search_files tool_call_id [] = ok none
search_files tool_call_id ((name, bytes) ∷ rest) =
    or_next (file_replay tool_call_id name bytes) (search_files tool_call_id rest)

-- KvDiskStore::find_tool_replay
unfoldable pub find_tool_replay : KvDiskStore → Bytes → Result (Option Bytes)
unfolding search_files
find_tool_replay disk tool_call_id = search_files tool_call_id disk.files
