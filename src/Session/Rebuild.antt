-- ===== src/Session/Rebuild.antt =====
-- What the helpers of the session's methods leave in the state.
use ds4_rs.Base.{
  ℕ, ◌-◌, ◌<◌, ◌≡◌, refl, [], ◌∷◌, Option, none, some, ◌==◌, length, drop, list_eq, list_eq_sound,
  arith, length-drop, Bool-cases, inl, inr,
}
use ds4_rs.Engine.{Engine, try_reference_prefill}
use ds4_rs.Kv.Transformer.{TransformerKvCache, clear}
use ds4_rs.Session.{
  Session, rebuild_prompt_state, replay, reset_live_state, append_token_with_reference_fallback,
  rebuilt_by, extend_by_suffix, extended_by, or_rebuild, appended_by,
}
use ds4_rs.Types.{Tokens, Logits, push}

module _ {engine : Engine} where
  -- The fields that are not live state, and the checkpoint.
  pub record IsAt (s : Session engine) (prompt : Tokens) (t : Session engine) : Type 0 where
    pub checkpoint_is : t.checkpoint ≡ prompt
    pub ctx_kept : t.ctx_size ≡ s.ctx_size
    pub boundary_kept : t.prefill_boundary ≡ s.prefill_boundary
    pub progress_kept : t.progress ≡ s.progress

  rebuilt_by-IsAt :
      (s : Session engine) (prompt : Tokens)
      (r : Option Logits × TransformerKvCache × engine.Scratch)
      → IsAt s prompt (rebuilt_by s prompt r)
  rebuilt_by-IsAt s prompt (some logits, kv, scratch) = ground arith
  rebuilt_by-IsAt s prompt (none, kv, scratch) = ground arith

  pub rebuild_prompt_state-IsAt :
      (s : Session engine) (prompt : Tokens) → IsAt s prompt (rebuild_prompt_state s prompt)
  unfolding rebuild_prompt_state
  rebuild_prompt_state-IsAt s [] = ground arith
  rebuild_prompt_state-IsAt s (token ∷ rest) = ground (
    arith,
    rebuilt_by-IsAt (reset_live_state s) (token ∷ rest)
        (try_reference_prefill engine (clear s.transformer_kv) s.decode_scratch (token ∷ rest) 0),
  )

  extended_by-IsAt :
      (s : Session engine) (prompt : Tokens)
      (r : Option Logits × TransformerKvCache × engine.Scratch)
      → IsAt s prompt (or_rebuild prompt (extended_by s prompt r))
  extended_by-IsAt s prompt (some logits, kv, scratch) = ground arith
  extended_by-IsAt s prompt (none, kv, scratch) =
      let t = record s { transformer_kv = kv; decode_scratch = scratch } in
      ground (arith, rebuild_prompt_state-IsAt t prompt)

  -- A suffix that is not empty is appended, by the cache or by a rebuild.
  extend_by_suffix-IsAt :
      (s : Session engine) (prompt suffix : Tokens) (cached_tokens : ℕ)
      → 0 < length suffix
      → IsAt s prompt (or_rebuild prompt (extend_by_suffix s prompt cached_tokens suffix))
  extend_by_suffix-IsAt s prompt [] cached_tokens h = absurd (omega arith)
  extend_by_suffix-IsAt s prompt (token ∷ rest) cached_tokens h =
      extended_by-IsAt s prompt (
        try_reference_prefill engine s.transformer_kv s.decode_scratch (token ∷ rest) cached_tokens)

  pub replay-IsAt :
      (s : Session engine) (prompt : Tokens) (cached_tokens replay_tokens : ℕ)
      → replay_tokens ≡ length prompt - cached_tokens
      → IsAt s prompt (replay s prompt cached_tokens replay_tokens)
  unfolding replay
  replay-IsAt s prompt cached_tokens replay_tokens h = elim (Bool-cases (replay_tokens == 0)) [
    | inl nothing ↦ rw nothing (elim (Bool-cases (list_eq s.checkpoint prompt)) [
      | inl same ↦ rw same (record {
        checkpoint_is = list_eq_sound s.checkpoint prompt same;
        ctx_kept = refl;
        boundary_kept = refl;
        progress_kept = refl;
      })
      | inr other ↦ rw other (rebuild_prompt_state-IsAt s prompt)
    ])
    | inr some_left ↦ rw some_left (elim (Bool-cases (cached_tokens == 0)) [
      | inl fresh ↦ rw fresh (rebuild_prompt_state-IsAt s prompt)
      | inr cached ↦ rw cached (
          extend_by_suffix-IsAt s prompt (drop cached_tokens prompt) cached_tokens
            (ground (arith, length-drop cached_tokens prompt)))
    ])
  ]

  appended_by-IsAt :
      (s : Session engine) (token : ℕ) (r : Option Logits × TransformerKvCache × engine.Scratch)
      → IsAt s (push s.checkpoint token) (appended_by s token r)
  appended_by-IsAt s token (some logits, kv, scratch) = ground arith
  appended_by-IsAt s token (none, kv, scratch) =
      let t = record s { transformer_kv = kv; decode_scratch = scratch } in
      ground (arith, rebuild_prompt_state-IsAt t (push s.checkpoint token))

  pub append_token-IsAt :
      (s : Session engine) (token : ℕ)
      → IsAt s (push s.checkpoint token) (append_token_with_reference_fallback s token)
  unfolding append_token_with_reference_fallback
  append_token-IsAt s token = appended_by-IsAt s token (
      engine.try_reference_decode_next s.transformer_kv s.decode_scratch token
        (length s.checkpoint))
