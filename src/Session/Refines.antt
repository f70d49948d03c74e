-- ===== src/Session/Refines.antt =====
-- src/session.rs against its timeline.
use ds4_rs.Base.{ℕ, All, List, [], ◌∷◌}
use ds4_rs.Engine.{Engine}
use ds4_rs.Session.Sampling.{generate_argmax_tokens}
use ds4_rs.Session.Timeline
use ds4_rs.Session.Timeline.{
  Timeline, Call, Reply, stats, done, generated, nothing, meaning_or, fill, cut,
}
use ds4_rs.Session.{
  Session, prefill, decode_next, rewind, invalidate, set_progress, set_prefill_boundary,
}

module _ {engine : Engine} where
  -- A call of a method of a session.
  unfoldable pub perform : Call → Session engine → Reply × Session engine
  unfolding generate_argmax_tokens
  perform (Timeline.prefill prompt) s = let (r, s') = prefill s prompt in (stats r, s')
  perform (Timeline.decode_next token) s = let (r, s') = decode_next s token in (done r, s')
  perform (Timeline.generate n) s = let (r, s') = generate_argmax_tokens s n in (generated r, s')
  perform (Timeline.rewind pos) s = (nothing, rewind s pos)
  perform Timeline.invalidate s = (nothing, invalidate s)
  perform (Timeline.set_progress handler) s = (nothing, set_progress s handler)
  perform (Timeline.set_prefill_boundary boundary) s = (nothing, set_prefill_boundary s boundary)

  -- The replies to one call after the other.
  unfoldable pub session_replies : List Call → Session engine → List Reply
  unfolding perform
  session_replies [] s = []
  session_replies (c ∷ cs) s = let (r, s') = perform c s in r ∷ session_replies cs s'

module _ {engine : Engine} (Known : ℕ → Type 0) where
  -- After each of the calls, the engine knows the tokens of the session.
  unfoldable pub StaysKnown : List Call → Session engine → Type 0
  unfolding perform
  StaysKnown [] s = Unit {0}
  StaysKnown (c ∷ cs) s = All Known (perform c s).1.checkpoint × StaysKnown cs (perform c s).1
