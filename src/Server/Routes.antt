-- ===== src/Server/Routes.antt =====
-- src/server.rs: the construction of a server, and its routes. Sockets and the parsing of HTTP are
-- the libraries axum and tokio: a request is a method, a path and a body.
use ds4_rs.Base.{ℕ, [], ◌∷◌, Option, none, some, ◌||◌, if◌then◌else◌, list_eq}
use ds4_rs.Bytes.{Bytes}
use ds4_rs.Continuation
use ds4_rs.Engine.{Engine}
use ds4_rs.Error.{Result, ok, err, panic, io, ◌>>=◌}
use ds4_rs.Kv.Store
use ds4_rs.Kv.Store.{KvCache, with_disk_dir}
use ds4_rs.Kv.Store.Disk.{KvDiskStore}
use ds4_rs.Protocol.Escape.{json_escape_min}
use ds4_rs.Protocol.Json.{Value}
use ds4_rs.Protocol.{ApiKind, chat_completions, responses, completions, messages, default_model_id}
use ds4_rs.Server.Handle.{handle_api}
use ds4_rs.Server.State.{Host, Clock, Answer, State}
use ds4_rs.Session.{create}
use ds4_rs.Text.Format.{format}
use ds4_rs.Text.{utf8}

pub record ServerConfig : Type 0 where
  pub host : Bytes
  pub port : ℕ
  pub ctx_size : ℕ
  pub kv_disk_dir : Option Bytes

-- ServerConfig::default
abbrev pub default_config : ServerConfig
default_config = record {
  host = utf8 "127.0.0.1";
  port = 8080;
  ctx_size = 32768;
  kv_disk_dir = none;
}

-- KvDiskStore::create: the file system answers with the directory, made if it was not there, or the
-- call fails.
abbrev pub created : Option KvDiskStore → Result KvCache
created none = err io
created (some disk) = ok (with_disk_dir disk)

-- The cache of the configuration.
abbrev pub cache_of : (Bytes → Option KvDiskStore) → Option Bytes → Result KvCache
cache_of directories none = ok Store.new
cache_of directories (some path) = created (directories path)

-- Server::new
unfoldable pub new_server :
    (engine : Engine) → (Bytes → Option KvDiskStore) → ServerConfig → Result (State engine)
unfolding create
new_server engine directories config = do
  session ← create engine config.ctx_size
  kv ← cache_of directories config.kv_disk_dir
  ok (record { session = session; kv = kv; continuations = Continuation.new })

pub data Method : Type 0 where
  get : Method
  post : Method
  other : Method

-- What a path leads to.
pub data Route : Type 0 where
  health : Route
  models : Route
  api : ApiKind → Route
  not_found : Route

-- The paths that `listen_and_serve` registers.
unfoldable pub route : Bytes → Route
unfolding list_eq
route path =
    if list_eq path (utf8 "/") || list_eq path (utf8 "/v1") || list_eq path (utf8 "/health")
    then health
    else if list_eq path (utf8 "/v1/models") || list_eq path (utf8 "/models")
    then models
    else if list_eq path (utf8 "/v1/chat/completions")
    then api chat_completions
    else if list_eq path (utf8 "/v1/completions")
    then api completions
    else if list_eq path (utf8 "/v1/responses")
    then api responses
    else if list_eq path (utf8 "/v1/messages")
    then api messages
    else not_found

-- Server::models_json
unfoldable pub models_json : Bytes
unfolding format
models_json =
    format
      ("{{\"object\":\"list\",\"data\":[{{"
        ∷ "\"id\":\"{}\",\"object\":\"model\",\"created\":0,\"owned_by\":\"ds4-rust\"" ∷ "}}]}}"
        ∷ [])
      (json_escape_min default_model_id ∷ [])

-- The answer to an HTTP request: that of a handler, a JSON text, or a bare status.
pub data Response : Type 0 where
  answered : Answer → Response
  json_text : Bytes → Response
  missing : Bytes → Response
  method_not_allowed : Response
  internal_server_error : Response

-- `map_err` of the handlers: an error of `handle_api` is a bare status.
abbrev pub as_response {ℓ} : {S : Type ℓ} → Result Answer × S → Result Response × S
as_response (ok a, s) = (ok (answered a), s)
as_response (err e, s) = (ok internal_server_error, s)
as_response (panic, s) = (panic, s)

-- The printed list of models has to be JSON, or `unwrap` panics.
abbrev models_response : Host → Option Value → Result Response
models_response host none = panic
models_response host (some v) = ok (json_text (host.to_string v))

-- A request to a path. A path that has no route for the method is answered by axum, with a status of its own.
unfoldable pub serve :
    (engine : Engine)
    → Host
    → Clock
    → Method
    → Route
    → Bytes
    → State engine
    → Result Response × State engine
unfolding handle_api models_json
serve engine host clock get health body s =
    (ok (json_text (utf8 "{\"ok\":true,\"service\":\"ds4-rust\"}")), s)
serve engine host clock get models body s = (models_response host (host.from_str models_json), s)
serve engine host clock post (api kind) body s =
    as_response (handle_api engine host clock kind body s)
serve engine host clock method not_found body s =
    (ok (missing (utf8 "{\"error\":\"not found\"}")), s)
serve engine host clock post health body s = (ok method_not_allowed, s)
serve engine host clock other health body s = (ok method_not_allowed, s)
serve engine host clock post models body s = (ok method_not_allowed, s)
serve engine host clock other models body s = (ok method_not_allowed, s)
serve engine host clock get (api kind) body s = (ok method_not_allowed, s)
serve engine host clock other (api kind) body s = (ok method_not_allowed, s)
