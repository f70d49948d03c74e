-- ===== src/Session/Changes.antt =====
-- src/session.rs: the methods of a session, `load_snapshot` among them, in any order.
use ds4_rs.Base.{ℕ, ◌≡◌, All}
use ds4_rs.Engine.{Engine}
use ds4_rs.Error.{ok}
use ds4_rs.Session.Fed.{IsLive}
use ds4_rs.Session.Live.{Answers, IsLiveIfKnown, Step-IsLive, new-IsLive}
use ds4_rs.Session.Snapshot.{load_snapshot}
use ds4_rs.Session.Snapshot.Reload.{load_snapshot-IsLive}
use ds4_rs.Session.Steps.{Step}
use ds4_rs.Session.{Session, create}
use ds4_rs.Types.{SessionSnapshot}

module _ {engine : Engine} where
  -- A call of any method that changes the state.
  pub data Change : Session engine → Session engine → Type 0 where
    stepped : {s t : Session engine} → Step s t → Change s t
    loaded : (s : Session engine) (snapshot : SessionSnapshot) → Change s (load_snapshot s snapshot)

  pub data Changes (s : Session engine) : Session engine → Type 0 where
    unchanged : Changes s s
    after : {t u : Session engine} → Changes s t → Change t u → Changes s u

module _ (engine : Engine) (Known : ℕ → Type 0) (answers : Answers engine Known) where
  Change-IsLive :
      {s t : Session engine}
      → Change s t
      → IsLiveIfKnown engine Known s
      → IsLiveIfKnown engine Known t
  Change-IsLive (stepped step) live = Step-IsLive engine Known answers step live
  Change-IsLive (loaded s snapshot) live = load_snapshot-IsLive engine Known answers s snapshot

  Changes-IsLive :
      {s t : Session engine}
      → IsLiveIfKnown engine Known s
      → Changes s t
      → IsLiveIfKnown engine Known t
  Changes-IsLive live unchanged = live
  Changes-IsLive live (after before change) = Change-IsLive change (Changes-IsLive live before)

  -- Let the engine answer the decode steps of the tokens that it knows. In every state that the
  -- methods reach from a new session, the loading of any snapshot among them, if the engine knows the
  -- tokens of the session then, whatever it was fed before, the logits, the cache and the scratch are
  -- those of one uninterrupted feed of these tokens from a cleared cache.
  pub create-IsLive :
      (ctx : ℕ) {s t : Session engine}
      → create engine ctx ≡ ok s
      → Changes s t
      → All Known t.checkpoint
      → IsLive engine t
  create-IsLive ctx {s} made changes known =
      Changes-IsLive (λ k. new-IsLive engine ctx s made) changes known
