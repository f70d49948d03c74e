-- ===== src/Engine/Open.antt =====
-- src/engine.rs: what an engine is made of, and its construction from a model file. The file system
-- answers with the bytes of the file, if there is one at the path. The graphics device, which is
-- started afterwards, is left out: its errors are only printed.
use ds4_rs.Base.{
  ℕ, ◌*◌, ◌%◌, ◌^◌, min, List, [], ◌∷◌, Option, none, some, Bool, true, false, not, ◌&&◌, length,
  if◌then◌else◌,
}
use ds4_rs.Bytes.{Bytes}
use ds4_rs.Error.{Result, ok, err, invalid_argument, text, ◌>>=◌}
use ds4_rs.Gguf.Load.{load_model}
use ds4_rs.Gguf.Tensors.{GgufModel, GgufTensor, tensor, and_then}
use ds4_rs.Text.{utf8, is_empty, is_some, unwrap_or, or_else}
use ds4_rs.Tokenizer.Chat.{Tokenizer, preview, gguf, vocab_size}
use ds4_rs.Tokenizer.{from_gguf}
use ds4_rs.Weights.{bind_weights}
use ds4_rs.Weights.Tensors.{BoundWeights, BoundBlock}

pub data Backend : Type 0 where
  metal : Backend
  cuda : Backend
  cpu : Backend

-- Backend::name
unfoldable pub backend_name : Backend → Bytes
backend_name metal = utf8 "metal"
backend_name cuda = utf8 "cuda"
backend_name cpu = utf8 "cpu"

-- The options that the code modelled here reads.
pub record EngineOptions : Type 0 where
  pub model_path : Bytes
  pub backend : Backend
  pub n_threads : ℕ

pub record OpenEngine : Type 0 where
  pub options : EngineOptions
  pub model : Option GgufModel
  pub tokenizer : Tokenizer
  pub weights : Option BoundWeights

-- What is loaded from the file at the path of the options.
unfoldable pub open_file : EngineOptions → Option Bytes → Result OpenEngine
open_file options none =
    ok (record { options = options; model = none; tokenizer = preview; weights = none })
open_file options (some file) = do
  model ← load_model options.model_path file
  vocabulary ← from_gguf model
  weights ← bind_weights model
  ok (record {
    options = options;
    model = some model;
    tokenizer = gguf vocabulary;
    weights = some weights;
  })

-- Engine::open
unfoldable pub open_engine : (Bytes → Option Bytes) → EngineOptions → Result OpenEngine
unfolding open_file
open_engine files options =
    if is_empty options.model_path
    then err (invalid_argument (text "model path must not be empty"))
    else open_file options (files options.model_path)

pub record ContextMemory : Type 0 where
  pub total_bytes : ℕ
  pub raw_bytes : ℕ
  pub compressed_bytes : ℕ
  pub scratch_bytes : ℕ
  pub prefill_cap : ℕ
  pub raw_cap : ℕ
  pub comp_cap : ℕ

-- Engine::context_memory_estimate, of a context size below 2 ^ 50
unfoldable pub context_memory_estimate : ℕ → ContextMemory
context_memory_estimate ctx_size =
    let token_bytes = ctx_size * 4096 in
    record {
      total_bytes = token_bytes * 3;
      raw_bytes = token_bytes;
      compressed_bytes = token_bytes;
      scratch_bytes = token_bytes;
      prefill_cap = 2048;
      raw_cap = min ctx_size 128;
      comp_cap = ctx_size % 2 ^ 32;
    }

-- Engine::has_real_model
unfoldable pub has_real_model : OpenEngine → Bool
has_real_model engine = is_some engine.model

-- Engine::has_bound_weights
unfoldable pub has_bound_weights : OpenEngine → Bool
has_bound_weights engine = is_some engine.weights

-- Engine::should_use_reference_logits
unfoldable pub should_use_reference_logits : BoundWeights → Bool
should_use_reference_logits weights = true

unfoldable pub all_have_ffn : List BoundBlock → Bool
all_have_ffn [] = true
all_have_ffn (block ∷ blocks) = is_some block.ffn && all_have_ffn blocks

abbrev trustworthy : Option BoundWeights → Bool
trustworthy none = false
trustworthy (some weights) =
    should_use_reference_logits weights
    && (not (is_empty weights.blocks) && all_have_ffn weights.blocks)

-- Engine::supports_trustworthy_generation
unfoldable pub supports_trustworthy_generation : OpenEngine → Bool
unfolding should_use_reference_logits all_have_ffn
supports_trustworthy_generation engine = trustworthy engine.weights

-- Engine::tensor
unfoldable pub engine_tensor : OpenEngine → Bytes → Option GgufTensor
unfolding tensor
engine_tensor engine name = and_then engine.model λ model. tensor model name

-- Engine::tensor_count
unfoldable pub tensor_count : OpenEngine → ℕ
tensor_count engine = unwrap_or (and_then engine.model λ model. some (length model.tensors)) 0

-- Engine::vocab_size
unfoldable pub engine_vocab_size : OpenEngine → ℕ
unfolding vocab_size
engine_vocab_size engine =
    unwrap_or
      (or_else (and_then engine.model λ model. model.vocab_size) (vocab_size engine.tokenizer)) 256
