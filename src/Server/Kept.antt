-- ===== src/Server/Kept.antt =====
-- src/server.rs: what the operations that handle a request keep true of the session and of the
-- continuations.
use ds4_rs.Base.{
  true, false, zero, suc, ◌∷◌, ◌++◌, ◌||◌, ◌&&◌, ℕ, List, [], Option, Bool, Bool-cases, inl, inr,
}
use ds4_rs.Bytes.{Bytes}
use ds4_rs.Continuation.{ContinuationEntry, ContinuationStore, remember, restore}
use ds4_rs.Engine.{Engine}
use ds4_rs.Error.{Result, ok, err, panic}
use ds4_rs.Protocol.{chat_completions, ApiKind, RequestEnvelope, ResponseEnvelope}
use ds4_rs.Server.Generate.{
  generate_response, stream_from, stream_chat_completion_sse, streamed, shown_reply,
  preview_or_model_reply, replied_with, start_event, piece_event, is_chat, origin_of, final_origin,
}
use ds4_rs.Server.State.{Host, Clock, State}
use ds4_rs.Session.{Session, SyncStats, prefill, decode_next}
use ds4_rs.Session.Sampling.{argmax, generate_from, generate_argmax_tokens}
use ds4_rs.Tokenizer.Chat.{token_text}
use ds4_rs.Types.{Tokens, push, SessionSnapshot}
use ds4_rs.Session.Snapshot.{load_snapshot}
use ds4_rs.Server.Gate.{looks_like_terminal_token, generation_budget}
use ds4_rs.Text.{is_empty}
use ds4_rs.Engine.Open.{has_real_model}
use ds4_rs.Protocol.Render.Envelope.{Origin, new_message}

-- What the operations of the session and of the continuations keep true of the two.
pub record IsKept (engine : Engine) (P : Session engine → ContinuationStore → Type 0) : Type 0 where
  pub by_remember :
      (session : Session engine) (store : ContinuationStore) (x : ContinuationEntry)
      → P session store
      → P session (remember store x)
  pub by_restore :
      (session : Session engine) (store : ContinuationStore) (now : ℕ) (id c t : Option Bytes)
      → P session store
      → P session (restore now store id c t).1
  pub by_prefill :
      (session : Session engine) (store : ContinuationStore) (prompt : Tokens)
      → P session store
      → P (prefill session prompt).1 store
  pub by_decode :
      (session : Session engine) (store : ContinuationStore) (token : ℕ)
      → P session store
      → P (decode_next session token).1 store
  pub by_load :
      (session : Session engine) (store : ContinuationStore) (snapshot : SessionSnapshot)
      → P session store
      → P (load_snapshot session snapshot) store

-- A property of the continuations alone is kept by the session's operations.
pub IsKept-continuations :
    (engine : Engine) (Q : ContinuationStore → Type 0)
    → ((store : ContinuationStore) (x : ContinuationEntry) → Q store → Q (remember store x))
    → ((store : ContinuationStore) (now : ℕ) (id c t : Option Bytes)
        → Q store
        → Q (restore now store id c t).1)
    → IsKept engine (λ session store. Q store)
IsKept-continuations engine Q by_remember by_restore = record {
  by_remember = λ session store x h. by_remember store x h;
  by_restore = λ session store now id c t h. by_restore store now id c t h;
  by_prefill = λ session store prompt h. h;
  by_decode = λ session store token h. h;
  by_load = λ session store snapshot h. h;
}

module _ (engine : Engine) (host : Host) (P : Session engine → ContinuationStore → Type 0)
    (kept : IsKept engine P) where
  abbrev Holds : State engine → Type 0
  Holds s = P s.session s.continuations

  generate_from-kept :
      (steps : ℕ) (session : Session engine) (store : ContinuationStore) (out : Tokens)
      → P session store
      → P (generate_from steps session out).1 store
  unfolding generate_from
  generate_from-kept zero session store out h = h
  generate_from-kept (suc steps) session store out h =
      let token = argmax session.logits in
      let (r, session') = decode_next session token in
      let after = kept.by_decode session store token h in
      let next : Result (Unit {0}) → Result Tokens × Session engine = λ r. elim r [
        | ok _ ↦ generate_from steps session' (push out token)
        | err e ↦ (err e, session')
        | panic ↦ (panic, session')
      ] in
      elim r as (λ r. P (next r).1 store) [
        | ok _ ↦ generate_from-kept steps session' store (push out token) after
        | err e ↦ after
        | panic ↦ after
      ]

  stream_from-kept :
      (response : ResponseEnvelope) (steps : ℕ) (session : Session engine)
      (store : ContinuationStore) (message : Bytes) (out : List Bytes)
      → P session store
      → P (stream_from engine host response steps session message out).1 store
  unfolding stream_from
  stream_from-kept response zero session store message out h = h
  stream_from-kept response (suc steps) session store message out h =
      let token = argmax session.logits in
      let (r, session') = decode_next session token in
      let piece = token_text host.opened.tokenizer token in
      let silent = is_empty piece || looks_like_terminal_token piece in
      let quiet = stream_from engine host response steps session' message out in
      let heard =
        stream_from engine host response steps session' (message ++ piece)
          (out ++ (piece_event response piece ∷ [])) in
      let after = kept.by_decode session store token h in
      let told : Bool → Result (Bytes × List Bytes) × Session engine =
        λ b. elim b [ true ↦ quiet | false ↦ heard ] in
      let next : Result (Unit {0}) → Result (Bytes × List Bytes) × Session engine = λ r. elim r [
        | err e ↦ (err e, session')
        | panic ↦ (panic, session')
        | ok _ ↦ told silent
      ] in
      elim r as (λ r. P (next r).1 store) [
        | err e ↦ after
        | panic ↦ after
        | ok _ ↦ elim silent as (λ b. P (told b).1 store) [
          | true ↦ stream_from-kept response steps session' store message out after
          | false ↦
              stream_from-kept response steps session' store (message ++ piece)
                (out ++ (piece_event response piece ∷ [])) after
        ]
      ]

  streamed-kept :
      (final : Origin) (response : ResponseEnvelope) (store : ContinuationStore)
      (r : Result (Bytes × List Bytes) × Session engine)
      → P r.1 store
      → P (streamed engine host final response r).1 store
  streamed-kept final response store (ok (message, out), session) h = h
  streamed-kept final response store (err e, session) h = h
  streamed-kept final response store (panic, session) h = h

  shown_reply-kept :
      (request : RequestEnvelope) (store : ContinuationStore) (r : Result Tokens × Session engine)
      → P r.1 store
      → P (shown_reply engine host request r).1 store
  shown_reply-kept request store (ok tokens, session) h = h
  shown_reply-kept request store (err e, session) h = h
  shown_reply-kept request store (panic, session) h = h

  replied_with-kept :
      (api : ApiKind) (origin : Origin) (store : ContinuationStore)
      (r : Result Bytes × Session engine)
      → P r.1 store
      → P (replied_with engine host api origin r).1 store
  replied_with-kept api origin store (ok message, session) h = h
  replied_with-kept api origin store (err e, session) h = h
  replied_with-kept api origin store (panic, session) h = h

  preview_or_model_reply-kept :
      (request : RequestEnvelope) (session : Session engine) (store : ContinuationStore)
      (budget : ℕ)
      → P session store
      → P (preview_or_model_reply engine host request session budget).1 store
  unfolding preview_or_model_reply generate_argmax_tokens
  preview_or_model_reply-kept request session store budget h =
      elim (Bool-cases (has_real_model host.opened)) [
        | inl real ↦
            rw real
              (shown_reply-kept request store _ (generate_from-kept budget session store [] h))
        | inr preview ↦ rw preview h
      ]

  pub generate_response-kept :
      (clock : Clock) (api : ApiKind) (request : RequestEnvelope) (hit : Bool) (stats : SyncStats)
      (session : Session engine) (store : ContinuationStore)
      → P session store
      → P (generate_response engine host clock api request hit stats session).1 store
  unfolding generate_response stream_chat_completion_sse
  generate_response-kept clock api request hit stats session store h =
      let budget = generation_budget host.opened request in
      let response = new_message chat_completions (origin_of engine host clock stats hit) [] in
      elim (Bool-cases
        (request.stream && (is_chat engine host api && has_real_model host.opened))) [
          | inl live ↦ rw live (
              streamed-kept (final_origin engine host clock stats hit) response store _
                (stream_from-kept response budget session store [] (start_event response ∷ []) h))
          | inr whole ↦ rw whole (
              replied_with-kept api (origin_of engine host clock stats hit) store _
                (preview_or_model_reply-kept request session store budget h))
        ]
