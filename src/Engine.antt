-- ===== src/Engine.antt =====
-- src/engine/inference.rs: how the engine is driven token by token. The numeric kernels are the
-- interface `Engine`: one decode step of the loaded model on the CPU backend, which may answer with
-- logits or not, and updates the key/value cache and the scratch buffers; and the logits that are
-- made up when no model answers. The graph that an engine of the Metal backend keeps from step to
-- step is not represented.
pub mod Open
use ds4_rs.Base.{ℕ, ◌+◌, ◌-◌, [], ◌∷◌, Option, none, some, length}
use ds4_rs.Kv.Transformer.{TransformerKvCache, with_layers}
use ds4_rs.Types.{Tokens, Logits}

pub record Engine : Type 1 where
  pub Scratch : Type 0
  -- DecodeScratch::new
  pub new_scratch : Scratch
  pub vocab_size : ℕ
  -- Engine::try_reference_decode_next(kv_cache, scratch, token, pos)
  pub try_reference_decode_next :
      TransformerKvCache → Scratch → ℕ → ℕ → Option Logits × TransformerKvCache × Scratch
  -- Engine::stub_infer_logits
  pub stub_infer_logits : Tokens → Logits

-- `tokens.last()`
unfoldable pub last : Tokens → Option ℕ
last [] = none
last (t ∷ []) = some t
last (t ∷ u ∷ ts) = last (u ∷ ts)

module _ (engine : Engine) where
  open engine use {Scratch, new_scratch, try_reference_decode_next, stub_infer_logits}

  -- The loop of `try_reference_prefill`: the logits are those of the last step.
  unfoldable pub prefill_loop :
      Tokens
      → ℕ
      → Option Logits
      → TransformerKvCache
      → Scratch
      → Option Logits × TransformerKvCache × Scratch
  prefill_loop [] pos last_logits kv scratch = (last_logits, kv, scratch)
  prefill_loop (token ∷ rest) pos last_logits kv scratch =
      let (logits, kv', scratch') = try_reference_decode_next kv scratch token pos in
      prefill_loop rest (pos + 1) logits kv' scratch'

  -- Engine::try_reference_prefill
  unfoldable pub try_reference_prefill :
      TransformerKvCache → Scratch → Tokens → ℕ → Option Logits × TransformerKvCache × Scratch
  unfolding prefill_loop
  try_reference_prefill kv scratch tokens start_pos = prefill_loop tokens start_pos none kv scratch

  or_stub : Option Logits → Tokens → Logits
  or_stub none tokens = stub_infer_logits tokens
  or_stub (some logits) tokens = logits

  -- Engine::infer_logits, which decodes the last token in a cache of its own.
  infer_from : Option ℕ → Tokens → Logits
  infer_from none tokens = stub_infer_logits tokens
  infer_from (some token) tokens =
      or_stub (try_reference_decode_next (with_layers 61) new_scratch token (length tokens - 1)).0
        tokens

  unfoldable pub infer_logits : Tokens → Logits
  unfolding infer_from or_stub last
  infer_logits tokens = infer_from (last tokens) tokens
