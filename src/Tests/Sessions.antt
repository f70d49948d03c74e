-- ===== src/Tests/Sessions.antt =====
-- src/session.rs on small sessions.
use ds4_rs.Base.{replicate, ◌+◌, ◌≡◌, refl, [], ◌∷◌, ◌++◌, none, arith, length}
use ds4_rs.Error.{ok, err, context_exceeded}
use ds4_rs.Kv.Payload.{snapshot_payload_meta}
use ds4_rs.Session.{Session, create, prefill, decode_next}
use ds4_rs.Session.Prefill.{stats_of, IsPrefilled, prefill_ok}
use ds4_rs.Session.Sampling.{argmax, generate_argmax_tokens}
use ds4_rs.Session.Sampling.Argmax.{IsArgmax, argmax-IsArgmax}
use ds4_rs.Session.Sampling.Generate.{generate_argmax_tokens_ok, generate_argmax_tokens_refused}
use ds4_rs.Session.Snapshot.{save_snapshot, load_snapshot, rehydrate_live_state}
use ds4_rs.Session.Snapshot.RoundTrip.{IsSavable, restored, load-save, snapshot_payload_meta-save}
use ds4_rs.Session.Steps.{Reach, here, next, prefilled, decoded, IsWithin, create-IsWithin}
use ds4_rs.Tests.Data.{counting, fresh, busy}
use ds4_rs.Types.{Tokens}

busy-IsSavable : IsSavable busy
busy-IsSavable = record {
  ctx_fits = omega arith;
  boundary_fits = omega arith;
  boundary_pos = λ e. cc e;
  tokens_fit = omega arith;
  logits_fit = omega arith;
  tokens_are = (omega arith, (omega arith, tt));
  logits_are = (omega arith, (omega arith, (omega arith, tt)));
}

load-save_example :
    load_snapshot fresh (save_snapshot busy) ≡ rehydrate_live_state (restored busy fresh)
load-save_example = load-save busy fresh busy-IsSavable

snapshot_payload_meta-save_example :
    snapshot_payload_meta (save_snapshot busy).bytes ≡ ok (5 ∷ 6 ∷ [], 8)
snapshot_payload_meta-save_example = snapshot_payload_meta-save busy busy-IsSavable

prefill_ok_example :
    ((prefill busy (5 ∷ 6 ∷ 7 ∷ [])).0 ≡ ok (stats_of (5 ∷ 6 ∷ []) (5 ∷ 6 ∷ 7 ∷ [])))
    × IsPrefilled busy (5 ∷ 6 ∷ 7 ∷ []) (prefill busy (5 ∷ 6 ∷ 7 ∷ [])).1
prefill_ok_example = prefill_ok busy (5 ∷ 6 ∷ 7 ∷ []) (omega arith)

generate_argmax_tokens_ok_example :
    (out : Tokens) × ((generate_argmax_tokens busy 3).0 ≡ ok out)
    × (length out ≡ 3)
    × ((generate_argmax_tokens busy 3).1.checkpoint ≡ (5 ∷ 6 ∷ []) ++ out)
generate_argmax_tokens_ok_example = generate_argmax_tokens_ok busy 3 (omega arith)

generate_argmax_tokens_refused_example :
    ((generate_argmax_tokens busy 6).0 ≡ err (context_exceeded 8 8))
    × (length (generate_argmax_tokens busy 6).1.checkpoint + 1 ≡ 8)
generate_argmax_tokens_refused_example =
    generate_argmax_tokens_refused busy 6 (omega arith) (omega arith)

argmax-IsArgmax_example : IsArgmax (1 ∷ 3 ∷ 3 ∷ []) (argmax (1 ∷ 3 ∷ 3 ∷ []))
argmax-IsArgmax_example = argmax-IsArgmax (1 ∷ 3 ∷ 3 ∷ []) (omega arith) (omega arith)

abbrev start : Session counting
start = record {
  ctx_size = 8;
  checkpoint = [];
  logits = replicate 256 0;
  progress = none;
  prefill_boundary = none;
  transformer_kv = [];
  decode_scratch = 0;
}

created : create counting 8 ≡ ok start
unfolding create
created = refl

abbrev decoded_once : Session counting
decoded_once = (decode_next (prefill start (1 ∷ 2 ∷ [])).1 4).1

reached : Reach start decoded_once
reached = next (next here (prefilled start (1 ∷ 2 ∷ []))) (decoded (prefill start (1 ∷ 2 ∷ [])).1 4)

create-IsWithin_example : IsWithin 8 decoded_once
create-IsWithin_example = create-IsWithin counting 8 created reached
