-- ===== src/Session/Prefill.antt =====
-- `prefill`, on both of its branches.
use ds4_rs.Base.{
  ℕ, ◌-◌, ◌≤◌, ◌<◌, ◌≡◌, refl, not, none, if◌then◌else◌, ◌==◌, length, arith, lt→leb, le→leb,
  Bool-cases, inl, inr, ◌∙◌, ap,
}
use ds4_rs.Engine.{Engine}
use ds4_rs.Error.{ok, err, context_exceeded}
use ds4_rs.Session.Rebuild.{replay-IsAt}
use ds4_rs.Session.{
  Session, SyncStats, prefill, prefill_within, report_prefill_progress, reset_live_state, replay,
}
use ds4_rs.Types.Prefix.{starts_with_iff}
use ds4_rs.Types.{Tokens, starts_with, common_prefix_len}

-- The statistics that a prefill reports: the checkpoint is kept exactly when the prompt starts with
-- it.
abbrev pub stats_of : Tokens → Tokens → SyncStats
stats_of checkpoint prompt =
    let kept = starts_with prompt checkpoint in
    record {
      cached_tokens = if kept then length checkpoint else 0;
      replay_tokens = length prompt - (if kept then length checkpoint else 0);
      rebuilt = not kept;
    }

-- `common == self.checkpoint.len()` is the test of a prefix.
kept-eq-starts_with :
    (checkpoint prompt : Tokens)
    → (common_prefix_len checkpoint prompt == length checkpoint) ≡ starts_with prompt checkpoint
kept-eq-starts_with checkpoint prompt = ground (arith, starts_with_iff prompt checkpoint)

module _ {engine : Engine} where
  -- What `prefill` returns and leaves behind when the prompt fits.
  pub record IsPrefilled (s : Session engine) (prompt : Tokens) (t : Session engine) : Type 0 where
    pub checkpoint_is : t.checkpoint ≡ prompt
    pub ctx_kept : t.ctx_size ≡ s.ctx_size
    pub boundary_taken : t.prefill_boundary ≡ none

  IsPrefilled-replay :
      (s r : Session engine) (prompt : Tokens) (cached_tokens : ℕ)
      → r.ctx_size ≡ s.ctx_size
      → r.prefill_boundary ≡ none
      → IsPrefilled s prompt (replay r prompt cached_tokens (length prompt - cached_tokens))
  IsPrefilled-replay s r prompt cached_tokens ctx boundary =
      let t = replay-IsAt r prompt cached_tokens (length prompt - cached_tokens) refl in
      record {
        checkpoint_is = t.checkpoint_is;
        ctx_kept = t.ctx_kept ∙ ctx;
        boundary_taken = t.boundary_kept ∙ boundary;
      }

  prefill_within_lem :
      (s : Session engine) (prompt : Tokens)
      → ((prefill_within s prompt).0 ≡ stats_of s.checkpoint prompt)
        × IsPrefilled s prompt (prefill_within s prompt).1
  unfolding prefill_within
  prefill_within_lem s prompt =
      rw (kept-eq-starts_with s.checkpoint prompt)
        (elim (Bool-cases (starts_with prompt s.checkpoint)) [
          | inl kept ↦
              let whole : common_prefix_len s.checkpoint prompt ≡ length s.checkpoint =
                (starts_with_iff prompt s.checkpoint).0 kept in
              rw (kept, whole)
                (
                  refl,
                  IsPrefilled-replay s
                      (report_prefill_progress s (length s.checkpoint) (length prompt)) prompt
                      (length s.checkpoint) refl refl,
                )
          | inr broken ↦ rw broken (
            refl,
            IsPrefilled-replay s (reset_live_state (report_prefill_progress s 0 (length prompt)))
                prompt 0 refl refl,
          )
        ])

  -- A prompt shorter than the context is taken over whole: the checkpoint becomes the prompt, the
  -- context size stays and the boundary is used up. The statistics say how much of the checkpoint
  -- was kept: all of it if the prompt starts with it, and otherwise nothing.
  pub prefill_ok :
      (s : Session engine) (prompt : Tokens)
      → length prompt < s.ctx_size
      → ((prefill s prompt).0 ≡ ok (stats_of s.checkpoint prompt))
        × IsPrefilled s prompt (prefill s prompt).1
  unfolding prefill
  prefill_ok s prompt h =
      let (stats, after) = prefill_within_lem s prompt in
      rw (lt→leb s.ctx_size (length prompt) h) (ap ok stats, after)

  -- A prompt that does not fit is refused with its length and the context size, and the session is
  -- left as it was.
  pub prefill_refused :
      (s : Session engine) (prompt : Tokens)
      → s.ctx_size ≤ length prompt
      → prefill s prompt ≡ (err (context_exceeded (length prompt) s.ctx_size), s)
  unfolding prefill
  prefill_refused s prompt h = rw (le→leb s.ctx_size (length prompt) h)
