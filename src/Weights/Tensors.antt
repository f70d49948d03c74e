-- ===== src/Weights/Tensors.antt =====
-- src/weights.rs: the views of tensors that the inference keeps, and how they are looked up.
use ds4_rs.Base.{ℕ, List, ◌∷◌, ◌++◌, Option, none, some, String}
use ds4_rs.Bytes.{Bytes}
use ds4_rs.Error.{Result, ok, err, panic, protocol, with_text, ◌>>=◌}
use ds4_rs.Gguf.Tensors.{GgufTensor, GgufModel, tensor}
use ds4_rs.Text.{utf8, decimal}

pub record BoundTensor : Type 0 where
  pub name : Bytes
  pub dims : List ℕ
  pub tensor_type : ℕ
  pub abs_offset : ℕ

pub record BoundAttentionBlock : Type 0 where
  pub attn_norm : BoundTensor
  pub hc_attn_fn : Option BoundTensor
  pub hc_attn_scale : Option BoundTensor
  pub hc_attn_base : Option BoundTensor
  pub attn_q_a : BoundTensor
  pub attn_q_a_norm : BoundTensor
  pub attn_q_b : BoundTensor
  pub attn_kv : BoundTensor
  pub attn_kv_a_norm : BoundTensor
  pub attn_sinks : BoundTensor
  pub attn_output_a : BoundTensor
  pub attn_output_b : BoundTensor
  pub attn_compressor_kv : Option BoundTensor
  pub attn_compressor_gate : Option BoundTensor
  pub attn_compressor_ape : Option BoundTensor
  pub attn_compressor_norm : Option BoundTensor
  pub indexer_compressor_kv : Option BoundTensor
  pub indexer_compressor_gate : Option BoundTensor
  pub indexer_compressor_ape : Option BoundTensor
  pub indexer_compressor_norm : Option BoundTensor
  pub indexer_attn_q_b : Option BoundTensor
  pub indexer_proj : Option BoundTensor

pub record BoundFfnBlock : Type 0 where
  pub ffn_norm : BoundTensor
  pub ffn_gate_inp : BoundTensor
  pub ffn_gate_exps : BoundTensor
  pub ffn_up_exps : BoundTensor
  pub ffn_down_exps : BoundTensor
  pub ffn_gate_shexp : BoundTensor
  pub ffn_up_shexp : BoundTensor
  pub ffn_down_shexp : BoundTensor
  pub hc_ffn_fn : Option BoundTensor
  pub hc_ffn_scale : Option BoundTensor
  pub hc_ffn_base : Option BoundTensor
  pub ffn_exp_probs_b : Option BoundTensor
  pub ffn_gate_tid2eid : Option BoundTensor

pub record BoundBlock : Type 0 where
  pub index : ℕ
  pub attention : BoundAttentionBlock
  pub ffn : Option BoundFfnBlock

pub record BoundWeights : Type 0 where
  pub token_embd : BoundTensor
  pub output : BoundTensor
  pub output_hc_fn : Option BoundTensor
  pub output_hc_scale : Option BoundTensor
  pub output_hc_base : Option BoundTensor
  pub output_norm : Option BoundTensor
  pub blocks : List BoundBlock

-- The view of a tensor of the model that is kept under the name it was asked for.
abbrev pub bound : Bytes → Option GgufTensor → Result BoundTensor
bound name none = err (protocol (with_text "required tensor is missing: " name))
bound name (some t) =
    ok (record {
      name = name;
      dims = t.dims;
      tensor_type = t.tensor_type;
      abs_offset = t.abs_offset;
    })

unfoldable pub bind_tensor : GgufModel → Bytes → Result BoundTensor
bind_tensor model name = bound name (tensor model name)

-- `result.ok()`; the results here do not panic.
abbrev pub to_option {ℓ} : {A : Type ℓ} → Result A → Option A
to_option (ok a) = some a
to_option (err e) = none
to_option panic = none

-- `format!("blk.{index}.<rest>")`
unfoldable pub block_name : ℕ → String → Bytes
block_name index rest = utf8 "blk." ++ (decimal index ++ (46 ∷ utf8 rest))

unfoldable pub bind_attention_block : GgufModel → ℕ → Result BoundAttentionBlock
bind_attention_block model index = do
  attn_norm ← bind_tensor model (block_name index "attn_norm.weight")
  attn_q_a_norm ← bind_tensor model (block_name index "attn_q_a_norm.weight")
  attn_kv_a_norm ← bind_tensor model (block_name index "attn_kv_a_norm.weight")
  attn_sinks ← bind_tensor model (block_name index "attn_sinks.weight")
  attn_q_a ← bind_tensor model (block_name index "attn_q_a.weight")
  attn_q_b ← bind_tensor model (block_name index "attn_q_b.weight")
  attn_kv ← bind_tensor model (block_name index "attn_kv.weight")
  attn_output_a ← bind_tensor model (block_name index "attn_output_a.weight")
  attn_output_b ← bind_tensor model (block_name index "attn_output_b.weight")
  ok (record {
    attn_norm = attn_norm;
    hc_attn_fn = to_option (bind_tensor model (block_name index "hc_attn_fn.weight"));
    hc_attn_scale = to_option (bind_tensor model (block_name index "hc_attn_scale.weight"));
    hc_attn_base = to_option (bind_tensor model (block_name index "hc_attn_base.weight"));
    attn_q_a = attn_q_a;
    attn_q_a_norm = attn_q_a_norm;
    attn_q_b = attn_q_b;
    attn_kv = attn_kv;
    attn_kv_a_norm = attn_kv_a_norm;
    attn_sinks = attn_sinks;
    attn_output_a = attn_output_a;
    attn_output_b = attn_output_b;
    attn_compressor_kv = none;
    attn_compressor_gate = none;
    attn_compressor_ape = none;
    attn_compressor_norm = none;
    indexer_compressor_kv = none;
    indexer_compressor_gate = none;
    indexer_compressor_ape = none;
    indexer_compressor_norm = none;
    indexer_attn_q_b = none;
    indexer_proj = none;
  })

unfoldable pub bind_ffn_block : GgufModel → ℕ → Result BoundFfnBlock
bind_ffn_block model index = do
  ffn_norm ← bind_tensor model (block_name index "ffn_norm.weight")
  ffn_gate_inp ← bind_tensor model (block_name index "ffn_gate_inp.weight")
  ffn_gate_exps ← bind_tensor model (block_name index "ffn_gate_exps.weight")
  ffn_up_exps ← bind_tensor model (block_name index "ffn_up_exps.weight")
  ffn_down_exps ← bind_tensor model (block_name index "ffn_down_exps.weight")
  ffn_gate_shexp ← bind_tensor model (block_name index "ffn_gate_shexp.weight")
  ffn_up_shexp ← bind_tensor model (block_name index "ffn_up_shexp.weight")
  ffn_down_shexp ← bind_tensor model (block_name index "ffn_down_shexp.weight")
  ok (record {
    ffn_norm = ffn_norm;
    ffn_gate_inp = ffn_gate_inp;
    ffn_gate_exps = ffn_gate_exps;
    ffn_up_exps = ffn_up_exps;
    ffn_down_exps = ffn_down_exps;
    ffn_gate_shexp = ffn_gate_shexp;
    ffn_up_shexp = ffn_up_shexp;
    ffn_down_shexp = ffn_down_shexp;
    hc_ffn_fn = to_option (bind_tensor model (block_name index "hc_ffn_fn.weight"));
    hc_ffn_scale = to_option (bind_tensor model (block_name index "hc_ffn_scale.weight"));
    hc_ffn_base = to_option (bind_tensor model (block_name index "hc_ffn_base.weight"));
    ffn_exp_probs_b = to_option (bind_tensor model (block_name index "exp_probs_b.bias"));
    ffn_gate_tid2eid = to_option (bind_tensor model (block_name index "ffn_gate_tid2eid.weight"));
  })
