-- ===== src/Session/Steps.antt =====
-- The methods of a session other than `load_snapshot` as steps, and what holds in every state that
-- they reach.
use ds4_rs.Base.{
  ℕ, ◌+◌, ◌<◌, ◌≡◌, [], ◌∷◌, Option, Bool, length, take, min, arith, length-append, length-take,
  ◌∙◌,
}
use native.Mathlib.Decide.{dec_lt}
use ds4_rs.Engine.{Engine}
use ds4_rs.Error.{ok}
use ds4_rs.Session.Prefill.{prefill_ok, prefill_refused}
use ds4_rs.Session.Rebuild.{rebuild_prompt_state-IsAt, append_token-IsAt}
use ds4_rs.Session.Sampling.Generate.{decode_next_ok, decode_next_refused}
use ds4_rs.Session.{
  Session, create, set_progress, set_prefill_boundary, prefill, decode_next, rewind, invalidate,
}
use ds4_rs.Types.{Tokens, push}

module _ {engine : Engine} where
  -- One call of a method that changes the state, other than `load_snapshot`, which takes the context
  -- size and the checkpoint from the snapshot. Greedy generation is a row of decode steps.
  pub data Step : Session engine → Session engine → Type 0 where
    prefilled : (s : Session engine) (prompt : Tokens) → Step s (prefill s prompt).1
    decoded : (s : Session engine) (token : ℕ) → Step s (decode_next s token).1
    rewound : (s : Session engine) (pos : ℕ) → Step s (rewind s pos)
    invalidated : (s : Session engine) → Step s (invalidate s)
    handler_set : (s : Session engine) (handler : Bool) → Step s (set_progress s handler)
    boundary_set :
        (s : Session engine) (boundary : Option ℕ) → Step s (set_prefill_boundary s boundary)

  pub data Reach (s : Session engine) : Session engine → Type 0 where
    here : Reach s s
    next : {t u : Session engine} → Reach s t → Step t u → Reach s u

  -- The checkpoint leaves room for one more token in a context of this size.
  pub record IsWithin (ctx : ℕ) (s : Session engine) : Type 0 where
    pub ctx_is : s.ctx_size ≡ ctx
    pub room : length s.checkpoint < ctx

  module _ (ctx : ℕ) where
    prefill-IsWithin :
        (s : Session engine) (prompt : Tokens) → IsWithin ctx s → IsWithin ctx (prefill s prompt).1
    prefill-IsWithin s prompt w = elim (dec_lt (length prompt) s.ctx_size) [
      | yes fits ↦
          let p = (prefill_ok s prompt fits).1 in
          record {
            ctx_is = p.ctx_kept ∙ w.ctx_is;
            room = rw p.checkpoint_is (omega (arith, w.ctx_is));
          }
      | no full ↦ rw (prefill_refused s prompt (omega arith)) w
    ]

    decode_next-IsWithin :
        (s : Session engine) (token : ℕ) → IsWithin ctx s → IsWithin ctx (decode_next s token).1
    decode_next-IsWithin s token w = elim (dec_lt (length s.checkpoint + 1) s.ctx_size) [
      | yes fits ↦
          let a = append_token-IsAt s token in
          rw (decode_next_ok s token fits) (record {
            ctx_is = a.ctx_kept ∙ w.ctx_is;
            room =
                rw a.checkpoint_is
                  (unfold push in omega (arith, length-append s.checkpoint (token ∷ []), w.ctx_is));
          })
      | no full ↦ rw (decode_next_refused s token (omega arith)) w
    ]

    rewind-IsWithin : (s : Session engine) (pos : ℕ) → IsWithin ctx s → IsWithin ctx (rewind s pos)
    unfolding rewind
    rewind-IsWithin s pos w =
        let n = min pos (length s.checkpoint) in
        let a = rebuild_prompt_state-IsAt s (take n s.checkpoint) in
        record {
          ctx_is = a.ctx_kept ∙ w.ctx_is;
          room = rw a.checkpoint_is (omega (arith, length-take n s.checkpoint, w.room));
        }

    Step-IsWithin : {s t : Session engine} → Step s t → IsWithin ctx s → IsWithin ctx t
    unfolding invalidate set_progress set_prefill_boundary
    Step-IsWithin (prefilled s prompt) w = prefill-IsWithin s prompt w
    Step-IsWithin (decoded s token) w = decode_next-IsWithin s token w
    Step-IsWithin (rewound s pos) w = rewind-IsWithin s pos w
    Step-IsWithin (invalidated s) w = omega (arith, w.ctx_is, w.room)
    Step-IsWithin (handler_set s handler) w = record { ctx_is = w.ctx_is; room = w.room }
    Step-IsWithin (boundary_set s boundary) w = record { ctx_is = w.ctx_is; room = w.room }

    Reach-IsWithin : {s t : Session engine} → IsWithin ctx s → Reach s t → IsWithin ctx t
    Reach-IsWithin w here = w
    Reach-IsWithin w (next r st) = Step-IsWithin st (Reach-IsWithin w r)

-- From a new session, whatever methods other than `load_snapshot` are called, refused calls among them, the context size stays
-- the one that the session was created with, and the checkpoint is shorter than it.
pub create-IsWithin :
    (engine : Engine) (ctx : ℕ) {s t : Session engine}
    → create engine ctx ≡ ok s
    → Reach s t
    → IsWithin ctx t
create-IsWithin engine ctx {s} e r = Reach-IsWithin ctx created r
  where
    created : IsWithin ctx s
    created = unfold create in ground arith
