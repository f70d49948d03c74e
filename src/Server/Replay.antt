-- ===== src/Server/Replay.antt =====
-- src/server.rs: `rewrite_prompt_with_tool_replay`, which puts the exact text of an earlier tool call
-- in the place of the line that names the call.
use ds4_rs.Base.{◌≡◌, List, [], ◌∷◌, ◌++◌, Bool, true, false, not, ◌&&◌, ◌||◌, if◌then◌else◌}
use ds4_rs.Bytes.{Bytes}
use ds4_rs.Text.{utf8, lines, join}
use ds4_rs.Types.{starts_with}

-- `format!("Tool[{tool_call_id}]:")`
abbrev pub tool_line_prefix : Bytes → Bytes
tool_line_prefix tool_call_id = utf8 "Tool[" ++ (tool_call_id ++ utf8 "]:")

-- `format!("AssistantToolCall[{tool_call_id}]")`
abbrev pub assistant_line_prefix : Bytes → Bytes
assistant_line_prefix tool_call_id = utf8 "AssistantToolCall[" ++ (tool_call_id ++ utf8 "]")

-- The line is the call itself.
unfoldable pub is_call : Bytes → Bytes → Bool
is_call tool_call_id line = starts_with line (assistant_line_prefix tool_call_id)

-- The line is the result of this call, or of any.
unfoldable pub is_result : Bytes → Bytes → Bool
is_result tool_call_id line =
    starts_with line (tool_line_prefix tool_call_id) || starts_with line (utf8 "<tool_result>")

abbrev put : Bool → Bytes → List Bytes → List Bytes
put wanted block rest = if wanted then block ∷ rest else rest

-- The loop over the lines: whether the block stands for the call already, whether it stands before a
-- result, and the lines to come.
unfoldable pub rewrite_lines : Bytes → Bytes → Bool → Bool → List Bytes → List Bytes
unfolding is_call is_result
rewrite_lines tool_call_id block replaced inserted [] = []
rewrite_lines tool_call_id block replaced inserted (line ∷ rest) =
    elim (is_call tool_call_id line) [
      | true ↦ put (not replaced) block (rewrite_lines tool_call_id block true inserted rest)
      | false ↦ elim (is_result tool_call_id line && (not replaced && not inserted)) [
        | true ↦ block ∷ line ∷ rewrite_lines tool_call_id block replaced true rest
        | false ↦ line ∷ rewrite_lines tool_call_id block replaced inserted rest
      ]
    ]

-- The block is put somewhere.
unfoldable pub is_rewritten : Bytes → List Bytes → Bool
unfolding is_call is_result
is_rewritten tool_call_id [] = false
is_rewritten tool_call_id (line ∷ rest) =
    (is_call tool_call_id line || is_result tool_call_id line) || is_rewritten tool_call_id rest

unfoldable pub rewrite_prompt_with_tool_replay : Bytes → Bytes → Bytes → Bytes
unfolding rewrite_lines is_rewritten lines join
rewrite_prompt_with_tool_replay prompt tool_call_id sampled_block =
    if is_rewritten tool_call_id (lines prompt)
    then join (rewrite_lines tool_call_id sampled_block false false (lines prompt)) (10 ∷ [])
    else prompt

-- The line is neither the call nor a result.
abbrev pub IsQuiet : Bytes → Bytes → Type 0
IsQuiet tool_call_id line =
    (is_call tool_call_id line ≡ false) × (is_result tool_call_id line ≡ false)
