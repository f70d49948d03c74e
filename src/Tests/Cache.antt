-- ===== src/Tests/Cache.antt =====
-- src/kv.rs, src/continuation.rs and src/types.rs on small values.
use ds4_rs.Base.{
  ◌≢◌, false, Bool-cases, list_eq_sound, length-append, ap, inl, length, ◌≡◌, ◌⊎◌, inr, refl, [],
  ◌∷◌, some, none, arith, list_eq,
}
use ds4_rs.Bytes.{Bytes, le_bytes, from_le, slice, get_range}
use ds4_rs.Bytes
use ds4_rs.Continuation.{ContinuationEntry, new, remember, restore}
use ds4_rs.Continuation.Aliases.{used_at, restore-remember_conversation, restore-by_id}
use ds4_rs.Error.{ok, fail, ◌>>=◌, checked_add}
use ds4_rs.Error.NoPanic.{NoPanic}
use ds4_rs.Kv.Entry.{encode_entry, decode_file}
use ds4_rs.Kv.Entry.Stored.{IsStorable}
use ds4_rs.Kv.Entry.RoundTrip.{reloaded, load-store}
use ds4_rs.Kv.Format.{KvEntry}
use ds4_rs.Kv.Payload.{snapshot_payload_meta, payload_tokens, checked_mul4, chunk_words}
use ds4_rs.Kv.Store.{KvCache, store, load}
use ds4_rs.Kv.Store.Disk.{KvDiskStore, path_for_rendered_text}
use ds4_rs.Sha1.{sha1_hex}
use ds4_rs.Kv.Store.Restart.{
  reopened, store-settled, load-reopened-store, load-reopened-store_mismatched,
}
use ds4_rs.Kv.ToolMap.RoundTrip.{IsEncodable}
use ds4_rs.Kv.Transformer.{TransformerKvLayer}
use ds4_rs.Maps.{lookup}
use ds4_rs.Tests.Data.{
  snapshot_bytes, replay_item, sample_entry, empty_disk, disk_cache, sample_response,
}
use ds4_rs.Utf8.{utf8_valid, ascii}

replay_item-IsEncodable : IsEncodable replay_item
unfolding utf8_valid
replay_item-IsEncodable = record {
  id_utf8 = refl;
  block_utf8 = refl;
  id_fits = omega arith;
  block_fits = omega arith;
}

sample_entry-IsStorable : IsStorable sample_entry
unfolding utf8_valid le_bytes
sample_entry-IsStorable = record {
  reason_utf8 = refl;
  text_utf8 = refl;
  replay_utf8 = (replay_item-IsEncodable, tt);
  replay_fits = omega arith;
  tokens_fit = omega arith;
  text_fits = omega arith;
  reason_fits = omega arith;
  ctx_fits = omega arith;
  hits_fit = omega arith;
  created_fits = omega arith;
  used_fits = omega arith;
  file_fits = omega arith;
}

snapshot_meta : snapshot_payload_meta snapshot_bytes ≡ ok (5 ∷ 6 ∷ [], 8)
unfolding snapshot_payload_meta payload_tokens Bytes.read_u32 slice get_range from_le checked_add
    checked_mul4 chunk_words
snapshot_meta = refl

load-store_example :
    (encode_entry sample_entry >>= decode_file []) ≡ ok (reloaded sample_entry (5 ∷ 6 ∷ []) 8)
load-store_example =
    load-store sample_entry sample_entry-IsStorable [] (5 ∷ 6 ∷ []) 8 snapshot_meta (inr refl)

load-reopened-store_example :
    ((store disk_cache [] sample_entry).0 ≡ ok tt)
    × ((load (reopened (store disk_cache [] sample_entry).1) (104 ∷ 105 ∷ [])).0
        ≡ ok (some (reloaded sample_entry (5 ∷ 6 ∷ []) 8)))
load-reopened-store_example =
    load-reopened-store disk_cache empty_disk [] sample_entry (5 ∷ 6 ∷ []) 8 refl refl
      sample_entry-IsStorable snapshot_meta (inr refl)

-- The entry with a token that its snapshot does not have.
abbrev longer_entry : KvEntry
longer_entry = record sample_entry { tokens = 5 ∷ 6 ∷ 7 ∷ [] }

longer_entry-IsStorable : IsStorable longer_entry
longer_entry-IsStorable = record {
  reason_utf8 = sample_entry-IsStorable.reason_utf8;
  text_utf8 = sample_entry-IsStorable.text_utf8;
  replay_utf8 = sample_entry-IsStorable.replay_utf8;
  replay_fits = sample_entry-IsStorable.replay_fits;
  tokens_fit = omega arith;
  text_fits = sample_entry-IsStorable.text_fits;
  reason_fits = sample_entry-IsStorable.reason_fits;
  ctx_fits = sample_entry-IsStorable.ctx_fits;
  hits_fit = sample_entry-IsStorable.hits_fit;
  created_fits = sample_entry-IsStorable.created_fits;
  used_fits = sample_entry-IsStorable.used_fits;
  file_fits = sample_entry-IsStorable.file_fits;
}

load-reopened-store_mismatched_example :
    ((store disk_cache [] longer_entry).0 ≡ ok tt)
    × ((load (reopened (store disk_cache [] longer_entry).1) (104 ∷ 105 ∷ [])).0
        ≡ fail "kv cached token count mismatch")
load-reopened-store_mismatched_example =
    load-reopened-store_mismatched disk_cache empty_disk [] longer_entry (5 ∷ 6 ∷ []) 8 refl refl
      longer_entry-IsStorable snapshot_meta (λ e. omega (arith, e)) (λ e. omega (arith, e))

-- A write that leaves an empty file behind, over a directory with another file.
abbrev torn_disk : KvDiskStore
torn_disk = record { files = (1 ∷ [], 2 ∷ []) ∷ []; writable = false; torn = λ bytes. some [] }

abbrev torn_cache : KvCache
torn_cache = record { by_key = []; disk = some torn_disk }

store-settled_example :
    ((((store torn_cache [] sample_entry).0 ≡ ok tt)
        × (lookup [] (store torn_cache [] sample_entry).1.by_key ≡ some sample_entry))
      ⊎ (((store torn_cache [] sample_entry).0 ≢ ok tt)
          × ((store torn_cache [] sample_entry).1.by_key ≡ [])))
    × ((disk' : KvDiskStore) × ((store torn_cache [] sample_entry).1.disk ≡ some disk')
        × (lookup (1 ∷ []) disk'.files ≡ lookup (1 ∷ []) torn_disk.files))
unfolding path_for_rendered_text
store-settled_example = store-settled torn_cache torn_disk [] sample_entry (1 ∷ []) refl apart
  where
    apart : list_eq (path_for_rendered_text sample_entry.rendered_text) (1 ∷ []) ≡ false
    apart =
        elim (Bool-cases (list_eq (path_for_rendered_text sample_entry.rendered_text) (1 ∷ []))) [
          | inr other ↦ other
          | inl same ↦
              let e = ap length (list_eq_sound _ _ same) in
              let sum = length-append (sha1_hex sample_entry.rendered_text) (ascii ".kv") in
              absurd (omega arith)
        ]

abbrev one_layer : TransformerKvLayer
one_layer = record { keys = 1 ∷ 2 ∷ []; values = 3 ∷ []; seq_len = 1; metal_tensor = none }

restore-remember_conversation_example :
    ((restore 20 (remember new sample_response) (some (114 ∷ 49 ∷ [])) none none).0
      ≡ some (used_at 20 sample_response))
    × ((restore 20 (remember new sample_response) none (some (99 ∷ [])) none).0
        ≡ some (used_at 20 sample_response))
restore-remember_conversation_example =
    restore-remember_conversation 20 new sample_response (99 ∷ []) none none refl

restore-by_id_example :
    ((e : ContinuationEntry)
      → lookup (114 ∷ 49 ∷ []) (remember new sample_response).by_id ≡ some e
      → ((restore 20 (remember new sample_response) (some (114 ∷ 49 ∷ [])) none none).0
          ≡ some (used_at 20 e))
        × (lookup
              (1 ∷ [])
              (restore 20 (remember new sample_response) (some (114 ∷ 49 ∷ [])) none none).1.by_id
            ≡ lookup (1 ∷ []) (remember new sample_response).by_id)
        × ((restore 30
              (restore 20 (remember new sample_response) (some (114 ∷ 49 ∷ [])) none none).1
              (some (114 ∷ 49 ∷ []))
              none
              none).0
            ≡ some (used_at 30 e)))
    × (lookup (114 ∷ 49 ∷ []) (remember new sample_response).by_id ≡ none
        → restore 20 (remember new sample_response) (some (114 ∷ 49 ∷ [])) none none
          ≡ (none, remember new sample_response))
unfolding list_eq
restore-by_id_example =
    restore-by_id 20 30 (remember new sample_response) (114 ∷ 49 ∷ []) (1 ∷ []) none none refl
