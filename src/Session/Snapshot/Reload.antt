-- ===== src/Session/Snapshot/Reload.antt =====
-- src/session.rs: `load_snapshot` of any bytes, when the engine answers known tokens.
use ds4_rs.Base.{
  not, All, subst, sym, ◌∙◌, ◌||◌, ◌==◌, ltb, length, ℕ, ◌+◌, ◌*◌, take, drop, ◌≡◌, refl, [], ◌∷◌,
  Option, none, some, Bool, true, false, if◌then◌else◌,
}
use ds4_rs.Bytes.{Bytes}
use ds4_rs.Engine.{Engine, prefill_loop, try_reference_prefill}
use ds4_rs.Error.{usize_mod}
use ds4_rs.Kv.Payload.{chunk_words}
use ds4_rs.Kv.Transformer.{TransformerKvCache, clear}
use ds4_rs.Session.Fed.{IsLive, IsLive-empty}
use ds4_rs.Session.Live.{Answers, IsLiveIfKnown, fed-answers}
use ds4_rs.Session.Snapshot.{
  rehydrated_by, rehydrate_at, rehydrate_live_state, load_payload, try_load_dsv4_snapshot, or_raw,
  load_snapshot, word_at, or_none, logits_of, session_payload_magic, session_payload_version,
}
use ds4_rs.Session.{Session}
use ds4_rs.Types.{Tokens, Logits, SessionSnapshot}

module _ (engine : Engine) (Known : ℕ → Type 0) (answers : Answers engine Known) where
  rehydrated_by-IsLive :
      (s : Session engine) (kv0 : TransformerKvCache) (t : ℕ) (a : Tokens)
      (r : Option Logits × TransformerKvCache × engine.Scratch) {logits : Logits}
      → s.checkpoint ≡ t ∷ a
      → prefill_loop engine (t ∷ a) 0 none (clear kv0) s.decode_scratch ≡ r
      → r.0 ≡ some logits
      → IsLive engine (rehydrated_by s r)
  rehydrated_by-IsLive s kv0 t a (some l, kv, scratch) c e h = record {
    kv0 = kv0;
    scratch0 = s.decode_scratch;
    fed = rw c e;
  }
  rehydrated_by-IsLive s kv0 t a (none, kv, scratch) c e h = cc

  checkpoint-rehydrated_by :
      (s : Session engine) (r : Option Logits × TransformerKvCache × engine.Scratch)
      → (rehydrated_by s r).checkpoint ≡ s.checkpoint
  checkpoint-rehydrated_by s (some l, kv, scratch) = refl
  checkpoint-rehydrated_by s (none, kv, scratch) = refl

  rehydrate_at-IsLive :
      (s : Session engine) (kv0 : TransformerKvCache) (tokens : Tokens)
      → s.checkpoint ≡ tokens
      → s.transformer_kv ≡ clear kv0
      → IsLiveIfKnown engine Known (rehydrate_at s tokens)
  unfolding try_reference_prefill
  rehydrate_at-IsLive s kv0 [] c k known = IsLive-empty engine s kv0 c k
  rehydrate_at-IsLive s kv0 (t ∷ a) c k known =
      let r = try_reference_prefill engine s.transformer_kv s.decode_scratch (t ∷ a) 0 in
      let all = subst (All Known) (checkpoint-rehydrated_by s r ∙ c) known in
      rehydrated_by-IsLive s kv0 t a _ c (rw k refl)
        (rw (sym k) at (fed-answers engine Known answers t a kv0 s.decode_scratch all).1)

  rehydrate_live_state-IsLive :
      (s : Session engine) (kv0 : TransformerKvCache)
      → s.transformer_kv ≡ clear kv0
      → IsLiveIfKnown engine Known (rehydrate_live_state s)
  unfolding rehydrate_live_state
  rehydrate_live_state-IsLive s kv0 k = rehydrate_at-IsLive s kv0 s.checkpoint refl k

  -- A session, if one was loaded, is live.
  data IsLiveIfLoaded : Option (Session engine) → Type 0 where
    refused : IsLiveIfLoaded none
    loaded : {t : Session engine} → IsLiveIfKnown engine Known t → IsLiveIfLoaded (some t)

  if_none-IsLiveIfLoaded :
      (b : Bool) (r : Option (Session engine))
      → IsLiveIfLoaded r
      → IsLiveIfLoaded (if b then none else r)
  if_none-IsLiveIfLoaded true r h = refused
  if_none-IsLiveIfLoaded false r h = h

  try_load_dsv4_snapshot-IsLive :
      (s : Session engine) (snapshot : SessionSnapshot)
      → IsLiveIfLoaded (try_load_dsv4_snapshot s snapshot)
  unfolding try_load_dsv4_snapshot load_payload
  try_load_dsv4_snapshot-IsLive s snapshot =
      let bytes = snapshot.bytes in
      let token_bytes = word_at bytes 7 * 4 in
      let logit_bytes = word_at bytes 11 * 4 in
      if_none-IsLiveIfLoaded (ltb (length bytes) 52) _ (
        if_none-IsLiveIfLoaded
          (not (word_at bytes 0 == session_payload_magic)
            || not (word_at bytes 1 == session_payload_version))
          _
          (if_none-IsLiveIfLoaded
            (not (ltb token_bytes usize_mod)
              || not (ltb logit_bytes usize_mod)
              || not (ltb (52 + token_bytes + logit_bytes) usize_mod))
            _
            (if_none-IsLiveIfLoaded (not (length bytes == 52 + token_bytes + logit_bytes)) _ (
              loaded (
                rehydrate_live_state-IsLive
                  (record s {
                    ctx_size = word_at bytes 2;
                    prefill_boundary = or_none (word_at bytes 3);
                    checkpoint = chunk_words (take token_bytes (drop 52 bytes));
                    logits = chunk_words (take logit_bytes (drop (52 + token_bytes) bytes));
                    transformer_kv = clear s.transformer_kv;
                  })
                  s.transformer_kv refl)))))

  or_raw-IsLive :
      (s : Session engine) (bytes : Bytes) (r : Option (Session engine))
      → IsLiveIfLoaded r
      → IsLiveIfKnown engine Known (or_raw s bytes r)
  or_raw-IsLive s bytes _ refused =
      rehydrate_live_state-IsLive
        (record s {
          checkpoint = chunk_words bytes;
          transformer_kv = clear s.transformer_kv;
          logits = logits_of engine (chunk_words bytes);
        })
        s.transformer_kv refl
  or_raw-IsLive s bytes _ (loaded v) = v

  -- Whatever bytes a snapshot has, the session that it is loaded into is fed what it now holds, if
  -- the engine knows all of it.
  pub load_snapshot-IsLive :
      (s : Session engine) (snapshot : SessionSnapshot)
      → IsLiveIfKnown engine Known (load_snapshot s snapshot)
  unfolding load_snapshot
  load_snapshot-IsLive s snapshot =
      or_raw-IsLive s snapshot.bytes _ (try_load_dsv4_snapshot-IsLive s snapshot)
