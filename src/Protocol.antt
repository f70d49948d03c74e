-- ===== src/Protocol.antt =====
-- src/protocol.rs: the requests and the responses of the four interfaces. Its parts are in
-- src/protocol/parse.rs (Json, Request) and src/protocol/render.rs (Escape, Arguments, Chunks,
-- Render, Stream).
pub mod Json
pub mod Request
pub mod Escape
pub mod Quoted
pub mod Closed
pub mod Arguments
pub mod Advance
pub mod Chunks
pub mod Render
pub mod Stream
use ds4_rs.Base.{ℕ, List, Option, Bool}
use ds4_rs.Bytes.{Bytes}
use ds4_rs.Text.{utf8}

-- DEFAULT_MODEL_ID
unfoldable pub default_model_id : Bytes
default_model_id = utf8 "deepseek-v4-flash"

pub data ApiKind : Type 0 where
  chat_completions : ApiKind
  responses : ApiKind
  completions : ApiKind
  messages : ApiKind

pub record RequestTool : Type 0 where
  pub name : Bytes
  pub first_arg_name : Option Bytes
  pub property_names : List Bytes

pub record RequestEnvelope : Type 0 where
  pub api : ApiKind
  pub system : Bytes
  pub prompt : Bytes
  pub previous_response_id : Option Bytes
  pub conversation : Option Bytes
  pub available_tools : List RequestTool
  pub has_tools : Bool
  pub has_tool_results : Bool
  pub primary_tool_name : Option Bytes
  pub primary_tool_arg_name : Option Bytes
  pub last_tool_call_id : Option Bytes
  pub last_tool_result : Option Bytes
  pub stream : Bool
  pub max_output_tokens : ℕ

pub record AssistantToolCall : Type 0 where
  pub id : Bytes
  pub name : Bytes
  pub arguments : Bytes

pub record ResponseEnvelope : Type 0 where
  pub api : ApiKind
  pub id : Bytes
  pub kind : Bytes
  pub created : ℕ
  pub cached_tokens : ℕ
  pub replay_tokens : ℕ
  pub rebuilt : Bool
  pub continuation_hit : Bool
  pub message : Bytes
  pub tool_call : Option AssistantToolCall
