-- ===== src/Server/State.antt =====
-- src/server.rs: the state that the server keeps between requests, and what it stores behind an
-- answer. The locks are taken one after the other and none of them is poisoned, so that the state is
-- passed on from step to step. The clock is read where the source reads it.
use ds4_rs.Base.{ℕ, List, [], ◌∷◌, Option, none, some, if◌then◌else◌, length}
use ds4_rs.Bytes.{Bytes}
use ds4_rs.Continuation.{ContinuationStore, new_entry, remember}
use ds4_rs.Engine.Open.{OpenEngine}
use ds4_rs.Engine.{Engine}
use ds4_rs.Error.{Result, ok, err, panic}
use ds4_rs.Kv.Format.{KvToolReplayEntry}
use ds4_rs.Kv.Store.{KvCache, store, find_tool_replay}
use ds4_rs.Protocol.Json.{Value}
use ds4_rs.Protocol.Render.Envelope.{tool_call_id, tool_replay_block}
use ds4_rs.Protocol.{
  ApiKind, chat_completions, responses, completions, messages, RequestEnvelope, ResponseEnvelope,
}
use ds4_rs.Server.Replay.{rewrite_prompt_with_tool_replay}
use ds4_rs.Server.{Unicode}
use ds4_rs.Session.{Session}
use ds4_rs.Text.Format.{format}
use ds4_rs.Text.{utf8, decimal, or_else}
use ds4_rs.Tokenizer.Chat.{decode_tokens}
use ds4_rs.Types.{SessionSnapshot, Tokens}

-- The engine that the server was built on, and what it asks of libraries.
pub record Host : Type 0 where
  pub opened : OpenEngine
  pub unicode : Unicode
  -- serde_json::from_str
  pub from_str : Bytes → Option Value
  -- Value::to_string
  pub to_string : Value → Bytes

-- The readings of the clock while a request is handled: for `restore`, for the response, for the
-- response behind a stream, for the entry of the cache, and for `remember`.
pub record Clock : Type 0 where
  pub restored_ms : ℕ
  pub response_ms : ℕ
  pub response_secs : ℕ
  pub final_ms : ℕ
  pub final_secs : ℕ
  pub stored_unix : ℕ
  pub remembered_ms : ℕ

-- The body of an answer: a JSON text, or the data of the events of a stream.
pub data Body : Type 0 where
  json : Bytes → Body
  events : List Bytes → Body

-- A response with its body, or that the service is unavailable, for a reason.
pub data Answer : Type 0 where
  replied : ResponseEnvelope → Body → Answer
  unavailable : Bytes → Answer

pub record State (engine : Engine) : Type 0 where
  pub session : Session engine
  pub kv : KvCache
  pub continuations : ContinuationStore

abbrev pub reason_of : ApiKind → Bytes
reason_of chat_completions = utf8 "chat"
reason_of responses = utf8 "responses"
reason_of completions = utf8 "completions"
reason_of messages = utf8 "messages"

abbrev replay_entry : Option Bytes → Option Bytes → List KvToolReplayEntry
replay_entry (some id) (some block) = record { tool_call_id = id; sampled_block = block } ∷ []
replay_entry (some id) none = []
replay_entry none block = []

-- The result of a look for the replay block, for `hydrate_tool_replay`.
abbrev pub hydrated : RequestEnvelope → Bytes → Result (Option Bytes) → Result RequestEnvelope
hydrated request id (ok none) = ok request
hydrated request id (ok (some block)) =
    ok (record request { prompt = rewrite_prompt_with_tool_replay request.prompt id block })
hydrated request id (err e) = err e
hydrated request id panic = panic

abbrev pub hydrate_for : KvCache → RequestEnvelope → Option Bytes → Result RequestEnvelope
hydrate_for kv request none = ok request
hydrate_for kv request (some id) = hydrated request id (find_tool_replay kv id)

-- Server::hydrate_tool_replay, with the request as it leaves it. A prompt that is not changed is put
-- back as it was; whether it was changed is only traced.
unfoldable pub hydrate_tool_replay : KvCache → RequestEnvelope → Result RequestEnvelope
hydrate_tool_replay kv request =
    if request.has_tool_results
    then hydrate_for kv request request.last_tool_call_id
    else ok request

-- Server::remember_continuation
unfoldable pub remember_continuation :
    ContinuationStore → ℕ → RequestEnvelope → ResponseEnvelope → SessionSnapshot → ContinuationStore
unfolding format
remember_continuation continuations now request response snapshot = remember continuations (
    new_entry now response.id
      (format ("system={}\nuser={}\n" ∷ []) (request.system ∷ request.prompt ∷ []))
      request.conversation (or_else (tool_call_id response) request.last_tool_call_id) snapshot)

module _ (engine : Engine) (host : Host) where
  -- Session::render_tokens
  abbrev pub render_tokens : Tokens → Bytes
  render_tokens tokens = decode_tokens host.opened.tokenizer tokens

  -- Server::store_visible_kv_entry
  unfoldable pub store_visible_kv_entry :
      KvCache
      → ℕ
      → Session engine
      → ApiKind
      → ResponseEnvelope
      → SessionSnapshot
      → Tokens
      → Result (Unit {0}) × KvCache
  unfolding format
  store_visible_kv_entry kv now session api response snapshot rendered =
      store kv (format ("visible:{}:{}" ∷ []) (response.id ∷ decimal (length rendered) ∷ []))
        (record {
          reason = reason_of api;
          rendered_text = render_tokens rendered;
          tokens = rendered;
          snapshot = snapshot;
          tool_replay = replay_entry (tool_call_id response) (tool_replay_block response);
          ctx_size = session.ctx_size;
          hit_count = 0;
          created_at_unix = now;
          last_used_at_unix = now;
        })
