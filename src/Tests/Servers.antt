-- ===== src/Tests/Servers.antt =====
-- src/server.rs on small requests.
use ds4_rs.Base.{◌≡◌, refl, [], ◌∷◌, ◌++◌, none, some, true, false, list_eq, replicate}
use ds4_rs.Bytes.{Bytes}
use ds4_rs.Continuation
use ds4_rs.Continuation.{ContinuationEntry, restore}
use ds4_rs.Engine.Open.{OpenEngine, cpu, has_real_model}
use ds4_rs.Error.{ok}
use ds4_rs.Kv.Store
use ds4_rs.Protocol.Escape.{json_escape, escape_byte}
use ds4_rs.Protocol.Json.{
  Value, boolean, string, array, object, no_items, item, no_fields, field, get, get_any, str_at,
  str_or, items_at, as_str, as_array, as_bool, as_u64, object_keys,
}
use ds4_rs.Protocol.Render.Envelope.{new_tool_call, Origin}
use ds4_rs.Protocol.Request.{
  from_http, parse_for, parse_chat_request, chat_message, extract_tools, tools_of,
}
use ds4_rs.Protocol.Request.Collect.{push_said, parsed}
use ds4_rs.Protocol.Stream.{to_sse}
use ds4_rs.Protocol.{chat_completions, ResponseEnvelope}
use ds4_rs.Server.Gate.{untrusted_generation_reason, generation_gate_reason}
use ds4_rs.Server.Handle.{handle_api, dispatch, short_circuit, finish, answer}
use ds4_rs.Server.Refused.{IsUngenerated, handle_api-IsUngenerated}
use ds4_rs.Server.Remembered.{handle_api-restore}
use ds4_rs.Server.Shown.{IsShown}
use ds4_rs.Server.Replay.{is_call, is_result, rewrite_prompt_with_tool_replay}
use ds4_rs.Server.Reply.{latest_user_text, last_user_line}
use ds4_rs.Server.Rewritten.{
  other_line, rewrite_prompt_with_tool_replay-call, rewrite_prompt_with_tool_replay-twice,
}
use ds4_rs.Server.Continued.{restore-Reach}
use ds4_rs.Server.Steps.{here, next}
use ds4_rs.Server.Routes.{ServerConfig, default_config, new_server, post, serve, route}
use ds4_rs.Session.{create}
use ds4_rs.Server.State.{Host, events, replied, State, hydrate_tool_replay, store_visible_kv_entry}
use ds4_rs.Server.Tools.{
  should_short_circuit_tool_planning, prompt_likely_needs_tool, detect_tool_intent, contains_any,
  choose_tool_call, select_best_tool, find_tool, build_tool_arguments_for_tool, infer_shell_command,
  tool_accepts_property,
}
use ds4_rs.Session.Snapshot.{save_snapshot}
use ds4_rs.Tests.Data.{counting, fresh, sample_clock}
use ds4_rs.Text.Format.{format, format_bytes}
use ds4_rs.Text.{
  utf8, contains, chars, concat, join, lines, line_pieces, trim, trim_start_chars, trim_end_chars,
  is_whitespace, is_whitespace_code, code_point, strip_prefix, strip_carriage_return,
  eq_ignore_ascii_case, filter,
}
use ds4_rs.Tokenizer.Chat.{preview}
use ds4_rs.Types.{starts_with}

-- An engine without a model, as `open` makes it when there is no file.
abbrev preview_engine : OpenEngine
preview_engine = record {
  options = record { model_path = utf8 "m"; backend = cpu; n_threads = 1 };
  model = none;
  tokenizer = preview;
  weights = none;
}

-- A streamed request that says `ls` and lists the tool `bash`.
abbrev tool_body : Value
tool_body = object (
    field (utf8 "stream") (boolean true) (
      field (utf8 "tools")
        (array (item (object (field (utf8 "name") (string (utf8 "bash")) no_fields)) no_items))
        (field (utf8 "messages")
          (array (
            item
              (object (
                field (utf8 "role") (string (utf8 "user"))
                  (field (utf8 "content") (string (utf8 "ls")) no_fields)))
              no_items))
          no_fields)))

abbrev sample_host : Host
sample_host = record {
  opened = preview_engine;
  unicode = record { to_lowercase = λ s. s; is_alphanumeric = λ s. true };
  from_str = λ s. some tool_body;
  to_string = λ v. [];
}

abbrev sample_state : State counting
sample_state = record {
  session = record fresh { logits = replicate 256 0 };
  kv = Store.new;
  continuations = Continuation.new;
}

abbrev sample_config : ServerConfig
sample_config = record default_config { ctx_size = 8 }

sample_made : new_server counting (λ path. none) sample_config ≡ ok sample_state
unfolding new_server create
sample_made = refl

abbrev sample_origin : Origin
sample_origin = record {
  millis = 2;
  secs = 3;
  cached_tokens = 0;
  replay_tokens = 2;
  rebuilt = false;
  continuation_hit = false;
}

abbrev tool_response : ResponseEnvelope
tool_response =
    new_tool_call chat_completions sample_origin (utf8 "bash") (utf8 "{\"command\":\"ls -la\"}")

tool_answered :
    (handle_api counting sample_host sample_clock chat_completions [] sample_state).0
    ≡ ok (replied tool_response (events (to_sse tool_response ∷ [])))
unfolding handle_api dispatch short_circuit finish answer hydrate_tool_replay store_visible_kv_entry
    from_http parse_for parse_chat_request chat_message push_said parsed extract_tools tools_of get
    get_any str_at str_or items_at as_str as_array as_bool as_u64 object_keys list_eq
    should_short_circuit_tool_planning prompt_likely_needs_tool detect_tool_intent contains_any
    choose_tool_call select_best_tool find_tool build_tool_arguments_for_tool infer_shell_command
    tool_accepts_property latest_user_text last_user_line contains chars concat join lines
    line_pieces trim trim_start_chars trim_end_chars is_whitespace is_whitespace_code code_point
    strip_prefix strip_carriage_return eq_ignore_ascii_case format format_bytes starts_with
    Store.store restore json_escape escape_byte
tool_answered = refl

handle_api-restore_example :
    IsShown sample_host chat_completions tool_response (events (to_sse tool_response ∷ []))
    × ((e : ContinuationEntry) × ((restore 9
            (handle_api counting sample_host sample_clock chat_completions []
              sample_state).1.continuations
            (some tool_response.id)
            none
            none).0
          ≡ some e)
        × (e.snapshot
            ≡ save_snapshot
                (handle_api counting sample_host sample_clock chat_completions []
                  sample_state).1.session))
handle_api-restore_example =
    handle_api-restore counting sample_host sample_clock chat_completions [] sample_state
      tool_response (events (to_sse tool_response ∷ [])) 9 none none tool_answered

-- The server after a second request of the same body.
abbrev after_two : State counting
after_two =
    (serve counting sample_host sample_clock post (route (utf8 "/v1/chat/completions")) []
      (handle_api counting sample_host sample_clock chat_completions [] sample_state).1).1

restore-Reach_example :
    IsShown sample_host chat_completions tool_response (events (to_sse tool_response ∷ []))
    × ((e : ContinuationEntry) × ((restore 9 after_two.continuations
            (some tool_response.id)
            none
            none).0
          ≡ some e)
        × (e.response_id ≡ tool_response.id))
restore-Reach_example =
    restore-Reach counting sample_host (λ path. none) sample_config sample_state sample_state
      after_two sample_clock chat_completions [] tool_response (events (to_sse tool_response ∷ []))
      9 none none sample_made here tool_answered
      (next (handle_api counting sample_host sample_clock chat_completions [] sample_state).1
        sample_clock post (utf8 "/v1/chat/completions") [] here)

no_model :
    untrusted_generation_reason preview_engine ≡ some (utf8 "ds4-rs has no loaded GGUF model")
unfolding untrusted_generation_reason generation_gate_reason has_real_model
no_model = refl

handle_api-IsUngenerated_example :
    IsUngenerated
      (utf8 "ds4-rs has no loaded GGUF model")
      (replied tool_response (events (to_sse tool_response ∷ [])))
handle_api-IsUngenerated_example =
    handle_api-IsUngenerated counting sample_host sample_clock chat_completions [] sample_state
      (utf8 "ds4-rs has no loaded GGUF model")
      (replied tool_response (events (to_sse tool_response ∷ []))) no_model tool_answered

abbrev call_line : Bytes
call_line = utf8 "AssistantToolCall[b] f"

abbrev result_line : Bytes
result_line = utf8 "<tool_result>x"

-- The lines of two prompts, with the result of an earlier call in the second.
abbrev one_call : Bytes
one_call = utf8 "User: q\nAssistantToolCall[b] f\n<tool_result>x"

abbrev two_calls : Bytes
two_calls = utf8 "User: q\n<tool_result>x\nAssistantToolCall[b] f"

one_call_split : lines one_call ≡ (utf8 "User: q" ∷ []) ++ (call_line ∷ result_line ∷ [])
unfolding lines line_pieces strip_carriage_return
one_call_split = refl

two_calls_split :
    lines two_calls ≡ (utf8 "User: q" ∷ []) ++ (result_line ∷ ([] ++ (call_line ∷ [])))
unfolding lines line_pieces strip_carriage_return
two_calls_split = refl

kinds_of_lines :
    (is_call (utf8 "b") (utf8 "User: q") ≡ false)
    × (is_result (utf8 "b") (utf8 "User: q") ≡ false)
    × (is_call (utf8 "b") call_line ≡ true)
    × (is_call (utf8 "b") result_line ≡ false)
    × (is_result (utf8 "b") result_line ≡ true)
unfolding is_call is_result starts_with
kinds_of_lines = (refl, refl, refl, refl, refl)

rewrite_prompt_with_tool_replay-call_example :
    rewrite_prompt_with_tool_replay one_call (utf8 "b") (utf8 "BLOCK")
    ≡ join
        ((utf8 "User: q" ∷ [])
          ++ (utf8 "BLOCK" ∷ filter (other_line (utf8 "b")) (result_line ∷ [])))
        (10 ∷ [])
rewrite_prompt_with_tool_replay-call_example =
    rewrite_prompt_with_tool_replay-call one_call (utf8 "b") (utf8 "BLOCK") (utf8 "User: q" ∷ [])
      call_line (result_line ∷ []) one_call_split ((kinds_of_lines.0, kinds_of_lines.1), tt)
      kinds_of_lines.2

rewrite_prompt_with_tool_replay-twice_example :
    rewrite_prompt_with_tool_replay two_calls (utf8 "b") (utf8 "BLOCK")
    ≡ join
        ((utf8 "User: q" ∷ [])
          ++ (utf8 "BLOCK"
              ∷ result_line
              ∷ ([] ++ (utf8 "BLOCK" ∷ filter (other_line (utf8 "b")) []))))
        (10 ∷ [])
rewrite_prompt_with_tool_replay-twice_example =
    rewrite_prompt_with_tool_replay-twice two_calls (utf8 "b") (utf8 "BLOCK") (utf8 "User: q" ∷ [])
      result_line [] call_line [] two_calls_split ((kinds_of_lines.0, kinds_of_lines.1), tt)
      kinds_of_lines.3 kinds_of_lines.4 tt kinds_of_lines.2
