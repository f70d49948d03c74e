-- ===== src/Session/Live.antt =====
-- The cache and the logits of a session under its methods (src/session.rs), when the engine answers
-- the decode steps of the tokens that it knows.
use ds4_rs.Base.{
  ℕ, ◌+◌, ◌-◌, ◌<◌, ◌≡◌, refl, inl, inr, [], ◌∷◌, ◌++◌, Option, none, some, length, drop, arith,
  sym, ap, take, min, All, lt→leb, ◌∙◌, ◌==◌, list_eq, Bool-cases, length-drop, leb, subst, ==_iff,
}
use ds4_rs.Engine.{Engine, prefill_loop, try_reference_prefill}
use ds4_rs.Error.{ok}
use ds4_rs.Kv.Transformer.{TransformerKvCache, clear}
use native.Mathlib.Decide.{dec_lt}
use ds4_rs.Session.Prefill.{prefill_ok, prefill_refused}
use ds4_rs.Session.Rebuild.{rebuild_prompt_state-IsAt, append_token-IsAt}
use ds4_rs.Session.{
  Session, create, prefill, decode_next, rewind, invalidate, rebuild_prompt_state, rebuilt_by,
  extend_by_suffix, extended_by, or_rebuild, appended_by, reset_live_state, replay, prefill_within,
  report_prefill_progress, extend_live_suffix, set_progress, set_prefill_boundary,
  append_token_with_reference_fallback,
}
use ds4_rs.Session.Steps.{Step, prefilled, decoded, rewound, invalidated, handler_set, boundary_set}
use ds4_rs.Types.Prefix.{common_prefix_len-whole}
use ds4_rs.Types.{Tokens, Logits, push, common_prefix_len}
use ds4_rs.Session.Fed.{IsLive, answer-append, prefill_loop-live, IsLive-empty}

-- The engine answers a decode step of a token that it knows, while the cache holds what such steps
-- have made of a cleared one: `Ready` says so of a cache, at a position.
pub record Answers (engine : Engine) (Known : ℕ → Type 0) : Type 1 where
  pub Ready : ℕ → TransformerKvCache → engine.Scratch → Type 0
  pub cleared : (kv : TransformerKvCache) (scratch : engine.Scratch) → Ready 0 (clear kv) scratch
  pub answered :
      (pos token : ℕ) (kv : TransformerKvCache) (scratch : engine.Scratch)
      → Ready pos kv scratch
      → Known token
      → (logits : Logits) × ((engine.try_reference_decode_next kv scratch token pos).0
          ≡ some logits)
        × Ready
            (pos + 1)
            (engine.try_reference_decode_next kv scratch token pos).1
            (engine.try_reference_decode_next kv scratch token pos).2

-- A session is live, if the engine knows all its tokens.
abbrev pub IsLiveIfKnown : (engine : Engine) → (ℕ → Type 0) → Session engine → Type 0
IsLiveIfKnown engine Known s = All Known s.checkpoint → IsLive engine s

pub All-prefix : (P : ℕ → Type 0) (a b : Tokens) → All P (a ++ b) → All P a
All-prefix P [] b h = tt
All-prefix P (x ∷ a) b h = (h.0, All-prefix P a b h.1)

module _ (engine : Engine) (Known : ℕ → Type 0) (answers : Answers engine Known) where
  prefill_loop-answers :
      (t : ℕ) (a : Tokens) (pos : ℕ) (last : Option Logits) (kv : TransformerKvCache)
      (scratch : engine.Scratch)
      → answers.Ready pos kv scratch
      → All Known (t ∷ a)
      → (logits : Logits) × ((prefill_loop engine (t ∷ a) pos last kv scratch).0 ≡ some logits)
  unfolding prefill_loop
  prefill_loop-answers t [] pos last kv scratch ready known =
      let (logits, e, _) = answers.answered pos t kv scratch ready known.0 in (logits, e)
  prefill_loop-answers t (u ∷ a) pos last kv scratch ready known =
      let r = engine.try_reference_decode_next kv scratch t pos in
      let (_, _, after) = answers.answered pos t kv scratch ready known.0 in
      prefill_loop-answers u a (pos + 1) r.0 r.1 r.2 after known.1

  -- A feed of known tokens from a cleared cache ends with logits.
  pub fed-answers :
      (t : ℕ) (a : Tokens) (kv : TransformerKvCache) (scratch : engine.Scratch)
      → All Known (t ∷ a)
      → (logits : Logits) × ((prefill_loop engine (t ∷ a) 0 none (clear kv) scratch).0
          ≡ some logits)
  fed-answers t a kv scratch known =
      prefill_loop-answers t a 0 none (clear kv) scratch (answers.cleared kv scratch) known

  -- So does a feed that goes on behind the checkpoint of a live session.
  more-answers :
      (s : Session engine) (v : IsLive engine s) (t : ℕ) (a : Tokens)
      → All Known (s.checkpoint ++ t ∷ a)
      → (logits : Logits) × ((prefill_loop engine
            (t ∷ a)
            (length s.checkpoint)
            none
            s.transformer_kv
            s.decode_scratch).0
          ≡ some logits)
  more-answers s v t a known =
      let (logits, e) = whole s.checkpoint known in
      (logits, ap (λ r. r.0) (sym (prefill_loop-live engine s v t a)) ∙ e)
    where
      whole :
          (c : Tokens)
          → All Known (c ++ t ∷ a)
          → (logits : Logits) × ((prefill_loop engine
                (c ++ t ∷ a)
                0
                none
                (clear v.kv0)
                v.scratch0).0
              ≡ some logits)
      whole [] known = fed-answers t a v.kv0 v.scratch0 known
      whole (x ∷ c) known = fed-answers x (c ++ t ∷ a) v.kv0 v.scratch0 known

  rebuilt_by-IsLive :
      (s : Session engine) (kv0 : TransformerKvCache) (t : ℕ) (a : Tokens)
      (r : Option Logits × TransformerKvCache × engine.Scratch) {logits : Logits}
      → prefill_loop engine (t ∷ a) 0 none (clear kv0) s.decode_scratch ≡ r
      → r.0 ≡ some logits
      → IsLive engine (rebuilt_by s (t ∷ a) r)
  rebuilt_by-IsLive s kv0 t a (some l, kv, scratch) e h = record {
    kv0 = kv0;
    scratch0 = s.decode_scratch;
    fed = e;
  }
  rebuilt_by-IsLive s kv0 t a (none, kv, scratch) e h = cc

  pub rebuild-IsLive :
      (s : Session engine) (prompt : Tokens)
      → All Known prompt
      → IsLive engine (rebuild_prompt_state s prompt)
  unfolding rebuild_prompt_state try_reference_prefill
  rebuild-IsLive s [] known = IsLive-empty engine _ s.transformer_kv refl refl
  rebuild-IsLive s (t ∷ a) known =
      rebuilt_by-IsLive (reset_live_state s) s.transformer_kv t a _ refl
        (fed-answers t a s.transformer_kv s.decode_scratch known).1

  extended_by-IsLive :
      (s : Session engine) (v : IsLive engine s) (t : ℕ) (a : Tokens)
      (r : Option Logits × TransformerKvCache × engine.Scratch) {logits : Logits}
      → prefill_loop engine (t ∷ a) (length s.checkpoint) none s.transformer_kv s.decode_scratch ≡ r
      → r.0 ≡ some logits
      → IsLive engine (or_rebuild (s.checkpoint ++ t ∷ a) (extended_by s (s.checkpoint ++ t ∷ a) r))
  extended_by-IsLive s v t a (some l, kv, scratch) e h = record {
    kv0 = v.kv0;
    scratch0 = v.scratch0;
    fed = prefill_loop-live engine s v t a ∙ e ∙ rw (answer-append engine s.checkpoint a t l);
  }
  extended_by-IsLive s v t a (none, kv, scratch) e h = cc

  -- A session is extended by the rest of a prompt that starts with its checkpoint.
  extend-IsLive :
      (s : Session engine) (suffix : Tokens)
      → IsLive engine s
      → 0 < length suffix
      → All Known (s.checkpoint ++ suffix)
      → IsLive engine (
          or_rebuild
            (s.checkpoint ++ suffix)
            (extend_by_suffix s (s.checkpoint ++ suffix) (length s.checkpoint) suffix))
  extend-IsLive s [] v h known = absurd (omega arith)
  extend-IsLive s (t ∷ a) v h known =
      unfold try_reference_prefill in
      extended_by-IsLive s v t a _ refl (more-answers s v t a known).1

  replay-IsLive :
      (s : Session engine) (prompt : Tokens)
      → IsLive engine s
      → prompt ≡ s.checkpoint ++ drop (length s.checkpoint) prompt
      → All Known prompt
      → IsLive engine (replay s prompt (length s.checkpoint) (length prompt - length s.checkpoint))
  unfolding replay
  replay-IsLive s prompt v e known = elim (Bool-cases (length prompt - length s.checkpoint == 0)) [
    | inl nothing ↦ rw nothing (elim (Bool-cases (list_eq s.checkpoint prompt)) [
      | inl same ↦ rw same v
      | inr other ↦ rw other (rebuild-IsLive s prompt known)
    ])
    | inr some_left ↦ rw some_left (elim (Bool-cases (length s.checkpoint == 0)) [
      | inl fresh ↦ rw fresh (rebuild-IsLive s prompt known)
      | inr cached ↦ rw cached (
          let suffix = drop (length s.checkpoint) prompt in
          let grown =
            extend-IsLive s suffix v (ground (arith, length-drop (length s.checkpoint) prompt))
              (subst (All Known) e known) in
          unfold extend_live_suffix in
          subst
            (λ p. IsLive engine (or_rebuild p (extend_by_suffix s p (length s.checkpoint) suffix)))
            (sym e) grown)
    ])
  ]

  appended_by-IsLive :
      (s : Session engine) (v : IsLive engine s) (t : ℕ)
      (r : Option Logits × TransformerKvCache × engine.Scratch) {logits : Logits}
      → prefill_loop engine (t ∷ []) (length s.checkpoint) none s.transformer_kv s.decode_scratch
        ≡ r
      → r.0 ≡ some logits
      → IsLive engine (appended_by s t r)
  unfolding push
  appended_by-IsLive s v t (some l, kv, scratch) e h = record {
    kv0 = v.kv0;
    scratch0 = v.scratch0;
    fed = prefill_loop-live engine s v t [] ∙ e ∙ rw (answer-append engine s.checkpoint [] t l);
  }
  appended_by-IsLive s v t (none, kv, scratch) e h = cc

  prefill_within-IsLive :
      (s : Session engine) (prompt : Tokens)
      → IsLiveIfKnown engine Known s
      → All Known prompt
      → IsLive engine (prefill_within s prompt).1
  unfolding prefill_within
  prefill_within-IsLive s prompt live known =
      elim (Bool-cases (common_prefix_len s.checkpoint prompt == length s.checkpoint)) [
        | inl kept ↦
            let whole : common_prefix_len s.checkpoint prompt ≡ length s.checkpoint =
              (==_iff _ _).0 kept in
            let rest = drop (length s.checkpoint) prompt in
            let starts = common_prefix_len-whole s.checkpoint prompt whole in
            let v = live (All-prefix Known s.checkpoint rest (subst (All Known) starts known)) in
            let r = report_prefill_progress s (length s.checkpoint) (length prompt) in
            rw (kept, whole)
              (replay-IsLive r prompt (record { kv0 = v.kv0; scratch0 = v.scratch0; fed = v.fed })
                starts known)
        | inr broken ↦
            let r = reset_live_state (report_prefill_progress s 0 (length prompt)) in
            rw broken
              (replay-IsLive r prompt (IsLive-empty engine r s.transformer_kv refl refl) refl known)
      ]

  pub prefill-IsLive :
      (s : Session engine) (prompt : Tokens)
      → IsLiveIfKnown engine Known s
      → IsLiveIfKnown engine Known (prefill s prompt).1
  prefill-IsLive s prompt live = elim (dec_lt (length prompt) s.ctx_size) [
    | no full ↦ rw (prefill_refused s prompt (omega arith)) live
    | yes fits ↦
        let at = (prefill_ok s prompt fits).1.checkpoint_is in
        λ known.
          subst (IsLive engine) (within fits)
            (prefill_within-IsLive s prompt live (subst (All Known) at known))
  ]
    where
      within : length prompt < s.ctx_size → (prefill_within s prompt).1 ≡ (prefill s prompt).1
      within fits = unfold prefill in rw (lt→leb s.ctx_size (length prompt) fits) refl

  append-known :
      (s : Session engine) (token : ℕ)
      → IsLive engine s
      → All Known (s.checkpoint ++ token ∷ [])
      → IsLive engine (append_token_with_reference_fallback s token)
  unfolding append_token_with_reference_fallback prefill_loop
  append-known s token v known =
      appended_by-IsLive s v token _ refl (more-answers s v token [] known).1

  -- A token is appended to a session: one that the engine knows, to known tokens.
  pub append-IsLive :
      (s : Session engine) (token : ℕ)
      → IsLiveIfKnown engine Known s
      → IsLiveIfKnown engine Known (append_token_with_reference_fallback s token)
  unfolding push
  append-IsLive s token live known =
      let all = subst (All Known) (append_token-IsAt s token).checkpoint_is known in
      append-known s token (live (All-prefix Known s.checkpoint (token ∷ []) all)) all

  pub decode_next-IsLive :
      (s : Session engine) (token : ℕ)
      → IsLiveIfKnown engine Known s
      → IsLiveIfKnown engine Known (decode_next s token).1
  unfolding decode_next
  decode_next-IsLive s token live = elim (Bool-cases (leb s.ctx_size (length s.checkpoint + 1))) [
    | inl full ↦ rw full live
    | inr fits ↦ rw fits (append-IsLive s token live)
  ]

  pub rewind-IsLive : (s : Session engine) (pos : ℕ) → IsLiveIfKnown engine Known (rewind s pos)
  unfolding rewind
  rewind-IsLive s pos known =
      let kept = take (min pos (length s.checkpoint)) s.checkpoint in
      let at = (rebuild_prompt_state-IsAt s kept).checkpoint_is in
      rebuild-IsLive s kept (subst (All Known) at known)

  -- A call of a method other than `load_snapshot`.
  pub Step-IsLive :
      {s t : Session engine}
      → Step s t
      → IsLiveIfKnown engine Known s
      → IsLiveIfKnown engine Known t
  unfolding invalidate set_progress set_prefill_boundary
  Step-IsLive (prefilled s prompt) live = prefill-IsLive s prompt live
  Step-IsLive (decoded s token) live = decode_next-IsLive s token live
  Step-IsLive (rewound s pos) live = rewind-IsLive s pos
  Step-IsLive (invalidated s) live = λ known. IsLive-empty engine _ s.transformer_kv refl refl
  Step-IsLive (handler_set s handler) live =
      λ known. let v = live known in record { kv0 = v.kv0; scratch0 = v.scratch0; fed = v.fed }
  Step-IsLive (boundary_set s boundary) live =
      λ known. let v = live known in record { kv0 = v.kv0; scratch0 = v.scratch0; fed = v.fed }

pub new-IsLive :
    (engine : Engine) (ctx : ℕ) (s : Session engine) → create engine ctx ≡ ok s → IsLive engine s
new-IsLive engine ctx s e =
    unfold create clear in IsLive-empty engine s [] (ground arith) (ground arith)
