-- ===== src/Server/Gate.antt =====
-- src/server.rs: when the server generates, and how much.
use ds4_rs.Base.{ℕ, min, Option, none, some, Bool, true, false, ◌||◌, if◌then◌else◌, ltb}
use ds4_rs.Bytes.{Bytes}
use ds4_rs.Engine.Open.{OpenEngine, has_real_model, supports_trustworthy_generation}
use ds4_rs.Protocol.Json.{is_text}
use ds4_rs.Protocol.{RequestEnvelope}
use ds4_rs.Text.{utf8, trim, is_empty}

unfoldable pub generation_gate_reason : Bool → Bool → Option Bytes
generation_gate_reason false supports_trustworthy = some (utf8 "ds4-rs has no loaded GGUF model")
generation_gate_reason true false = some (
    utf8
      "ds4-rs inference path still lacks required bound blocks or FFN weights for this model; continue implementing full inference")
generation_gate_reason true true = none

unfoldable pub untrusted_generation_reason : OpenEngine → Option Bytes
unfolding generation_gate_reason has_real_model supports_trustworthy_generation
untrusted_generation_reason engine =
    generation_gate_reason (has_real_model engine) (supports_trustworthy_generation engine)

unfoldable pub default_generation_budget : Bool → Bool → ℕ
default_generation_budget true true = 12
default_generation_budget true false = 8
default_generation_budget false has_tool_results = 24

unfoldable pub generation_budget : OpenEngine → RequestEnvelope → ℕ
unfolding default_generation_budget has_real_model
generation_budget engine request =
    if ltb 0 request.max_output_tokens
    then min request.max_output_tokens 32
    else default_generation_budget (has_real_model engine) request.has_tool_results

abbrev is_terminal : Bytes → Bool
is_terminal trimmed =
    is_empty trimmed
    || (is_text trimmed "<｜end▁of▁sentence｜>"
        || (is_text trimmed "</think>"
            || (is_text trimmed "<think>" || is_text trimmed "<think max>")))

unfoldable pub looks_like_terminal_token : Bytes → Bool
unfolding trim
looks_like_terminal_token piece = is_terminal (trim piece)
