-- ===== src/Tests/Answered.antt =====
-- src/server.rs with an engine that has a model.
use ds4_rs.Base.{◌++◌, [], ◌∷◌, none, some, true, replicate}
use ds4_rs.Continuation
use ds4_rs.Engine.Open.{OpenEngine, cpu}
use ds4_rs.Kv.Store
use ds4_rs.Protocol.Json.{Value, unsigned, string, object, no_fields, field}
use ds4_rs.Types.{Tokens}
use ds4_rs.Server.Routes.{ServerConfig, default_config, post, serve, route}
use ds4_rs.Server.State.{Host, State}
use ds4_rs.Tests.Data.{loaded_model, sample_clock}
use ds4_rs.Tests.Shared.{recalling}
use ds4_rs.Text.{utf8}
use ds4_rs.Tokenizer.Chat.{preview}
use ds4_rs.Weights.Tensors.{BoundTensor, BoundBlock}

abbrev piece : BoundTensor
piece = record { name = []; dims = []; tensor_type = 0; abs_offset = 0 }

abbrev full_block : BoundBlock
full_block = record {
  index = 0;
  attention = record {
    attn_norm = piece;
    hc_attn_fn = none;
    hc_attn_scale = none;
    hc_attn_base = none;
    attn_q_a = piece;
    attn_q_a_norm = piece;
    attn_q_b = piece;
    attn_kv = piece;
    attn_kv_a_norm = piece;
    attn_sinks = piece;
    attn_output_a = piece;
    attn_output_b = piece;
    attn_compressor_kv = none;
    attn_compressor_gate = none;
    attn_compressor_ape = none;
    attn_compressor_norm = none;
    indexer_compressor_kv = none;
    indexer_compressor_gate = none;
    indexer_compressor_ape = none;
    indexer_compressor_norm = none;
    indexer_attn_q_b = none;
    indexer_proj = none;
  };
  ffn = some (record {
    ffn_norm = piece;
    ffn_gate_inp = piece;
    ffn_gate_exps = piece;
    ffn_up_exps = piece;
    ffn_down_exps = piece;
    ffn_gate_shexp = piece;
    ffn_up_shexp = piece;
    ffn_down_shexp = piece;
    hc_ffn_fn = none;
    hc_ffn_scale = none;
    hc_ffn_base = none;
    ffn_exp_probs_b = none;
    ffn_gate_tid2eid = none;
  });
}

abbrev trusted : OpenEngine
trusted = record {
  options = record { model_path = utf8 "m"; backend = cpu; n_threads = 1 };
  model = some loaded_model;
  tokenizer = preview;
  weights = some (record {
    token_embd = piece;
    output = piece;
    output_hc_fn = none;
    output_hc_scale = none;
    output_hc_base = none;
    output_norm = none;
    blocks = full_block ∷ [];
  });
}

-- A completion of one token for `a`.
abbrev completion_body : Value
completion_body = object (
    field (utf8 "prompt") (string (utf8 "a")) (
      field (utf8 "system") (string (utf8 "b")) (field (utf8 "max_tokens") (unsigned 1) no_fields)))

abbrev trusted_host : Host
trusted_host = record {
  opened = trusted;
  unicode = record { to_lowercase = λ s. s; is_alphanumeric = λ s. true };
  from_str = λ s. some completion_body;
  to_string = λ v. [];
}

abbrev shared_config : ServerConfig
shared_config = record default_config { ctx_size = 60 }

abbrev made : State recalling
made = record {
  session = record {
    ctx_size = 60;
    checkpoint = [];
    logits = replicate 256 0;
    progress = none;
    prefill_boundary = none;
    transformer_kv = [];
    decode_scratch = 0;
  };
  kv = Store.new;
  continuations = Continuation.new;
}

abbrev served : State recalling
served = (serve recalling trusted_host sample_clock post (route (utf8 "/v1/completions")) [] made).1

-- The prompt as it is rendered, and the token that was generated.
abbrev answered_tokens : Tokens
answered_tokens = utf8 "<｜System｜>b\n<｜User｜>a\n<｜Assistant｜></think>\n" ++ (43 ∷ [])
