-- ===== src/Kv/Store/Restart.antt =====
-- What the cache of src/kv.rs finds again, in its map and after a restart.
use ds4_rs.Base.{
  ◌≢◌, list_eq, ◌≡◌, refl, subst, ◌⊎◌, inl, inr, List, [], Option, none, some, Bool, true, false,
  length, arith, ℕ,
}
use ds4_rs.Bytes.{Bytes}
use ds4_rs.Error.{Result, fail, ok, err, panic, ◌>>=◌}
use ds4_rs.Kv.Entry.{encode_entry, decode_file}
use ds4_rs.Kv.Entry.Stored.{IsStorable, stored_bytes, encode_entry-stored_bytes}
use ds4_rs.Kv.Entry.RoundTrip.{reloaded, load-store, load-store_mismatched}
use ds4_rs.Kv.Format.{KvEntry}
use ds4_rs.Kv.Payload.{snapshot_payload_meta}
use ds4_rs.Kv.Store.{KvCache, store, load, load_from, store_on, stored_after}
use ds4_rs.Kv.Store.Disk
use ds4_rs.Kv.Store.Disk.{KvDiskStore, path_for_rendered_text}
use ds4_rs.Maps.{lookup, lookup-insert, lookup-insert_self}
use ds4_rs.Types.{Tokens}

-- A new process on the directory of an old one: `KvCache::with_disk_dir` on the same path.
abbrev pub reopened : KvCache → KvCache
reopened c = record c { by_key = [] }

-- A store is done, or leaves the map as it was; and it leaves another file of the directory as it was.
abbrev IsSettled :
    List (Bytes × KvEntry)
    → Option Bytes
    → Bytes
    → KvEntry
    → Bytes
    → Result (Unit {0}) × KvCache
    → Type 0
IsSettled by_key before key e other (answer, c) =
    (((answer ≡ ok tt) × (lookup key c.by_key ≡ some e)) ⊎ ((answer ≢ ok tt) × (c.by_key ≡ by_key)))
    × ((disk : KvDiskStore) × (c.disk ≡ some disk) × (lookup other disk.files ≡ before))

lookup-torn_files :
    (part : Option Bytes) (path other : Bytes) (files : List (Bytes × Bytes))
    → list_eq path other ≡ false
    → lookup other (Disk.torn_files part path files) ≡ lookup other files
lookup-torn_files none path other files apart = refl
lookup-torn_files (some part) path other files apart =
    rw (lookup-insert path other part files, apart) refl

stored_after-IsSettled :
    (by_key : List (Bytes × KvEntry)) (files : List (Bytes × Bytes)) (writable : Bool)
    (torn : Bytes → Option Bytes) (key path other : Bytes) (e : KvEntry) (r : Result Bytes)
    → list_eq path other ≡ false
    → IsSettled by_key (lookup other files) key e other (
        stored_after
          (record {
            by_key = by_key;
            disk = some (record { files = files; writable = writable; torn = torn });
          })
          key
          e
          (Disk.write_file (record { files = files; writable = writable; torn = torn }) path r))
stored_after-IsSettled by_key files true torn key path other e (ok bytes) apart = (
  inl (refl, lookup-insert_self key e by_key),
  (_, refl, rw (lookup-insert path other bytes files, apart) refl),
)
stored_after-IsSettled by_key files false torn key path other e (ok bytes) apart =
    (inr (λ x. cc, refl), (_, refl, lookup-torn_files (torn bytes) path other files apart))
stored_after-IsSettled by_key files writable torn key path other e (err x) apart =
    (inr (λ y. cc, refl), (_, refl, refl))
stored_after-IsSettled by_key files writable torn key path other e panic apart =
    (inr (λ y. cc, refl), (_, refl, refl))

-- Over a directory, a store either answers `Ok`, and the key is found in the map with the entry, or
-- answers an error or panics, and the map is as it was. However it ends, even in a write that fails
-- half-way, every file of the directory but that of the entry's rendered text is as it was.
pub store-settled :
    (c : KvCache) (disk : KvDiskStore) (key : Bytes) (e : KvEntry) (other : Bytes)
    → c.disk ≡ some disk
    → list_eq (path_for_rendered_text e.rendered_text) other ≡ false
    → ((((store c key e).0 ≡ ok tt) × (lookup key (store c key e).1.by_key ≡ some e))
        ⊎ (((store c key e).0 ≢ ok tt) × ((store c key e).1.by_key ≡ c.by_key)))
      × ((disk' : KvDiskStore) × ((store c key e).1.disk ≡ some disk')
          × (lookup other disk'.files ≡ lookup other disk.files))
unfolding store Disk.store
store-settled c disk key e other there apart = rw there (
    stored_after-IsSettled c.by_key disk.files disk.writable disk.torn key
      (path_for_rendered_text e.rendered_text) other e (encode_entry e) apart)

stored_by_key :
    (c : KvCache) (key : Bytes) (e : KvEntry) (r : Result (Unit {0}) × KvDiskStore)
    → (stored_after c key e r).0 ≡ ok tt
    → lookup key (stored_after c key e r).1.by_key ≡ some e
stored_by_key c key e (ok u, disk) done = lookup-insert_self key e c.by_key
stored_by_key c key e (err x, disk) done = ground (arith, done)
stored_by_key c key e (panic, disk) done = ground (arith, done)

store_on-by_key :
    (c : KvCache) (key : Bytes) (e : KvEntry) (disk : Option KvDiskStore)
    → (store_on c key e disk).0 ≡ ok tt
    → lookup key (store_on c key e disk).1.by_key ≡ some e
store_on-by_key c key e none done = lookup-insert_self key e c.by_key
store_on-by_key c key e (some disk) done = stored_by_key c key e (Disk.store disk e) done

-- What a store has accepted under a key is what a load of the key returns, and the load changes
-- nothing.
pub load-store_same :
    (c : KvCache) (key : Bytes) (e : KvEntry)
    → (store c key e).0 ≡ ok tt
    → load (store c key e).1 key ≡ (ok (some e), (store c key e).1)
unfolding load store
load-store_same c key e done = rw (store_on-by_key c key e c.disk done) refl

load_from-answer :
    (c : KvCache) (key : Bytes) (r : Result (Option KvEntry)) → (load_from c key r).0 ≡ r
load_from-answer c key (ok none) = refl
load_from-answer c key (ok (some e)) = refl
load_from-answer c key (err x) = refl
load_from-answer c key panic = refl

-- A storable entry whose snapshot is readable, and that has as many tokens as its snapshot or none, is
-- accepted over a writable directory, and a new process on that directory finds it again by its
-- rendered text, whatever key it was stored under: with the tokens of its snapshot, and with the
-- snapshot's context size in place of a zero.
pub load-reopened-store :
    (c : KvCache) (disk : KvDiskStore) (key : Bytes) (e : KvEntry) (tokens : Tokens) (derived : ℕ)
    → c.disk ≡ some disk
    → disk.writable ≡ true
    → IsStorable e
    → snapshot_payload_meta e.snapshot.bytes ≡ ok (tokens, derived)
    → (length e.tokens ≡ 0) ⊎ (length e.tokens ≡ length tokens)
    → ((store c key e).0 ≡ ok tt)
      × ((load (reopened (store c key e).1) e.rendered_text).0
          ≡ ok (some (reloaded e tokens derived)))
unfolding load store Disk.store Disk.load_rendered_text lookup
load-reopened-store c disk key e tokens derived there writable h meta counted =
    let path : Bytes = path_for_rendered_text e.rendered_text in
    let written : encode_entry e ≡ ok (stored_bytes e) = encode_entry-stored_bytes e h in
    let read : decode_file e.rendered_text (stored_bytes e) ≡ ok (reloaded e tokens derived) =
      subst (λ r. (r >>= decode_file e.rendered_text) ≡ ok (reloaded e tokens derived)) written
        (load-store e h e.rendered_text tokens derived meta counted) in
    rw (there, written, writable, lookup-insert_self path (stored_bytes e) disk.files, read)
      (refl, refl)

-- A storable entry whose snapshot is readable, and that has tokens, but not as many as its snapshot, is
-- accepted over a writable directory, and a new process on that directory answers a look for its rendered text with the error that the
-- counts of the tokens differ.
pub load-reopened-store_mismatched :
    (c : KvCache) (disk : KvDiskStore) (key : Bytes) (e : KvEntry) (tokens : Tokens) (derived : ℕ)
    → c.disk ≡ some disk
    → disk.writable ≡ true
    → IsStorable e
    → snapshot_payload_meta e.snapshot.bytes ≡ ok (tokens, derived)
    → ¬ (length e.tokens ≡ 0)
    → ¬ (length e.tokens ≡ length tokens)
    → ((store c key e).0 ≡ ok tt)
      × ((load (reopened (store c key e).1) e.rendered_text).0
          ≡ fail "kv cached token count mismatch")
unfolding load store Disk.store Disk.load_rendered_text lookup
load-reopened-store_mismatched c disk key e tokens derived there writable h meta filled apart =
    let path : Bytes = path_for_rendered_text e.rendered_text in
    let written : encode_entry e ≡ ok (stored_bytes e) = encode_entry-stored_bytes e h in
    let read : decode_file e.rendered_text (stored_bytes e)
        ≡ fail "kv cached token count mismatch" =
      subst (λ r. (r >>= decode_file e.rendered_text) ≡ fail "kv cached token count mismatch")
        written (load-store_mismatched e h e.rendered_text tokens derived meta filled apart) in
    rw (there, written, writable, lookup-insert_self path (stored_bytes e) disk.files, read)
      (refl, refl)
