-- ===== src/Session/Viewed.antt =====
-- src/session.rs: what a session shows of itself under its methods, on an engine that answers known
-- tokens and gives the same logits for the same tokens.
use native.Mathlib.Decide.{dec_lt}
use ds4_rs.Base.{
  ℕ, All, ◌+◌, ◌-◌, ◌==◌, true, Bool-cases, inl, inr, ◌<◌, ◌≡◌, ◌≢◌, refl, sym, ◌∙◌, ap, [], ◌∷◌,
  ◌++◌, none, some, length, take, min, arith, lt→leb, le→leb, list_eq, subst,
}
use ds4_rs.Engine.{Engine, prefill_loop}
use ds4_rs.Error.{ok}
use ds4_rs.Kv.Transformer.{clear}
use ds4_rs.Session.Agree.{IsReproducible, fed-same}
use ds4_rs.Session.Fed.{IsLive, answer}
use ds4_rs.Session.Live.{Answers, IsLiveIfKnown, prefill-IsLive, append-IsLive, rewind-IsLive}
use ds4_rs.Session.Prefill.{prefill_ok, prefill_refused}
use ds4_rs.Session.Sampling.Generate.{decode_next_ok, decode_next_refused}
use ds4_rs.Session.Rebuild.{append_token-IsAt, rebuild_prompt_state-IsAt}
use ds4_rs.Session.Timeline.{Timeline, Call, Reply, meaning_or, fill, extend, cut, specified}
use ds4_rs.Session.{
  rebuild_prompt_state, append_token_with_reference_fallback, report_prefill_progress,
  reset_live_state, prefill_within, replay, Session, blank_logits, prefill, decode_next, rewind,
}
use ds4_rs.Text.{unwrap_or}
use ds4_rs.Types.{Tokens, Logits, push, common_prefix_len}

module _ {engine : Engine} where
  -- What a session shows of itself.
  abbrev pub view : Session engine → Timeline
  view s = record { ctx_size = s.ctx_size; tokens = s.checkpoint; logits = s.logits }

timeline_of_fields :
    {a b : Timeline} → a.ctx_size ≡ b.ctx_size → a.tokens ≡ b.tokens → a.logits ≡ b.logits → a ≡ b
timeline_of_fields p q r = λ i. record { ctx_size = p i; tokens = q i; logits = r i }

-- The logits of a new session that is fed tokens.
abbrev pub meaning : Engine → Tokens → Logits
meaning engine tokens =
    unwrap_or (prefill_loop engine tokens 0 none (clear []) engine.new_scratch).0 []

logits-replay_nil :
    {engine : Engine} (s : Session engine) (cached_tokens : ℕ)
    → s.checkpoint ≡ []
    → (replay s [] cached_tokens (0 - cached_tokens)).logits ≡ s.logits
unfolding replay list_eq
logits-replay_nil s cached_tokens e =
    let nothing_left : 0 - cached_tokens ≡ 0 = omega arith in rw (nothing_left, e) refl

nil_of_common :
    (tokens : Tokens) → (common_prefix_len tokens [] == length tokens) ≡ true → tokens ≡ []
unfolding common_prefix_len
nil_of_common [] h = refl
nil_of_common (t ∷ ts) h = ground (arith, h)

-- A prompt without tokens leaves the logits alone.
logits-prefill_nil :
    {engine : Engine} (s : Session engine) → 0 < s.ctx_size → (prefill s []).1.logits ≡ s.logits
unfolding prefill prefill_within
logits-prefill_nil s h =
    rw (lt→leb s.ctx_size 0 h)
      (elim (Bool-cases (common_prefix_len s.checkpoint [] == length s.checkpoint)) [
        | inl kept ↦
            let common = common_prefix_len s.checkpoint [] in
            rw kept (
              logits-replay_nil (report_prefill_progress s common 0) common
                (nil_of_common s.checkpoint kept))
        | inr broken ↦
            rw broken (logits-replay_nil (reset_live_state (report_prefill_progress s 0 0)) 0 refl)
      ])

not_nil : (tokens : Tokens) (token : ℕ) → tokens ++ (token ∷ []) ≢ []
not_nil [] token e = cc
not_nil (t ∷ ts) token e = cc

module _ (engine : Engine) (Known : ℕ → Type 0) (answers : Answers engine Known)
    (reproducible : IsReproducible engine) where
  live-meaning :
      (s : Session engine) (t : ℕ) (a : Tokens)
      → IsLive engine s
      → s.checkpoint ≡ t ∷ a
      → s.logits ≡ meaning engine (t ∷ a)
  live-meaning s t a v e =
      let there : (prefill_loop engine (t ∷ a) 0 none (clear v.kv0) v.scratch0).0 ≡ some s.logits =
        ap (λ c. (prefill_loop engine c 0 none (clear v.kv0) v.scratch0).0) (sym e)
        ∙ ap (λ p. p.0) v.fed
        ∙ ap (λ c. answer c s.logits) e in
      ap (λ r. unwrap_or r [])
        (sym there ∙ fed-same engine reproducible (t ∷ a) v.kv0 [] v.scratch0 engine.new_scratch)

  abbrev specified_here : Call → Timeline → Reply × Timeline
  specified_here = specified (meaning engine) (blank_logits engine)

  live-meaning_or :
      (s : Session engine) (old : Logits) (tokens : Tokens)
      → IsLive engine s
      → s.checkpoint ≡ tokens
      → (tokens ≡ [] → s.logits ≡ old)
      → s.logits ≡ meaning_or (meaning engine) (blank_logits engine) old tokens
  live-meaning_or s old [] v e h = h refl
  live-meaning_or s old (t ∷ a) v e h = live-meaning s t a v e

  pub view-prefill :
      (s : Session engine) (prompt : Tokens)
      → IsLiveIfKnown engine Known s
      → All Known (prefill s prompt).1.checkpoint
      → ((prefill s prompt).0, view (prefill s prompt).1)
        ≡ fill (meaning engine) (blank_logits engine) (view s) prompt
  unfolding fill
  view-prefill s prompt live known = elim (dec_lt (length prompt) s.ctx_size) [
    | yes fits ↦
        let (answered, after) = prefill_ok s prompt fits in
        let blank : prompt ≡ [] → (prefill s prompt).1.logits ≡ s.logits = λ e.
          subst (λ p. (prefill s p).1.logits ≡ s.logits) (sym e)
            (logits-prefill_nil s (omega (arith, fits))) in
        let logits =
          live-meaning_or (prefill s prompt).1 s.logits prompt
            (prefill-IsLive engine Known answers s prompt live known) after.checkpoint_is blank in
        rw (lt→leb s.ctx_size (length prompt) fits)
          (λ i. (answered i, timeline_of_fields after.ctx_kept after.checkpoint_is logits i))
    | no full ↦
        rw (prefill_refused s prompt (omega arith), le→leb s.ctx_size (length prompt) (omega arith))
          refl
  ]

  meaning_or-append :
      (old : Logits) (tokens : Tokens) (token : ℕ)
      → meaning_or (meaning engine) (blank_logits engine) old (tokens ++ (token ∷ []))
        ≡ meaning engine (tokens ++ (token ∷ []))
  meaning_or-append old [] token = refl
  meaning_or-append old (t ∷ ts) token = refl

  view-append :
      (s : Session engine) (token : ℕ)
      → IsLive engine (append_token_with_reference_fallback s token)
      → view (append_token_with_reference_fallback s token) ≡ record {
        ctx_size = s.ctx_size;
        tokens = s.checkpoint ++ (token ∷ []);
        logits = meaning engine (s.checkpoint ++ (token ∷ []));
      }
  unfolding push
  view-append s token v =
      let a = append_token-IsAt s token in
      let logits =
        live-meaning_or (append_token_with_reference_fallback s token) s.logits
          (s.checkpoint ++ (token ∷ [])) v a.checkpoint_is
          (λ e. absurd (not_nil s.checkpoint token e)) in
      timeline_of_fields a.ctx_kept a.checkpoint_is
        (logits ∙ meaning_or-append s.logits s.checkpoint token)

  pub view-decode_next :
      (s : Session engine) (token : ℕ)
      → IsLiveIfKnown engine Known s
      → All Known (decode_next s token).1.checkpoint
      → ((decode_next s token).0, view (decode_next s token).1)
        ≡ extend (meaning engine) (blank_logits engine) (view s) token
  unfolding extend
  view-decode_next s token live known = elim (dec_lt (length s.checkpoint + 1) s.ctx_size) [
    | yes fits ↦
        let decoded = decode_next_ok s token fits in
        let all = subst (λ r. All Known r.1.checkpoint) decoded known in
        rw (decoded, lt→leb s.ctx_size (length s.checkpoint + 1) fits)
          (λ i.
            (ok tt, view-append s token (append-IsLive engine Known answers s token live all) i))
    | no full ↦
        rw
          (
            decode_next_refused s token (omega arith),
            le→leb s.ctx_size (length s.checkpoint + 1) (omega arith),
          )
          refl
  ]

  pub view-rewind :
      (s : Session engine) (pos : ℕ)
      → All Known (rewind s pos).checkpoint
      → view (rewind s pos) ≡ cut (meaning engine) (blank_logits engine) (view s) pos
  unfolding rewind cut
  view-rewind s pos known =
      let kept = take (min pos (length s.checkpoint)) s.checkpoint in
      let a = rebuild_prompt_state-IsAt s kept in
      timeline_of_fields a.ctx_kept a.checkpoint_is (
        live-meaning_or (rebuild_prompt_state s kept) (blank_logits engine) kept
          (rewind-IsLive engine Known answers s pos known) a.checkpoint_is
          (λ e.
            subst (λ p. (rebuild_prompt_state s p).logits ≡ blank_logits engine) (sym e)
              (unfold rebuild_prompt_state in refl)))
