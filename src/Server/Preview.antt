-- ===== src/Server/Preview.antt =====
-- src/server/reply.rs: the reply that is shown when the model gives none.
use ds4_rs.Base.{
  ℕ, suc, List, [], ◌∷◌, ◌++◌, Option, none, some, Bool, true, false, not, ◌||◌, leb, ltb,
  if◌then◌else◌, length, take, String,
}
use ds4_rs.Bytes.{Bytes}
use ds4_rs.Protocol.{RequestEnvelope}
use ds4_rs.Server.Reply.{latest_user_text, contains_cjk}
use ds4_rs.Server.Tools.{contains_any}
use ds4_rs.Server.{Unicode}
use ds4_rs.Text.Format.{format}
use ds4_rs.Text.{utf8, chars, concat, trim, lines, ends_with, is_empty, filter}
use ds4_rs.Types.{starts_with}

abbrev has_cjk : Option Bytes → Bool
has_cjk none = false
has_cjk (some tool_result) = contains_cjk tool_result

unfoldable pub prefers_chinese_reply : Bytes → Option Bytes → Bool
unfolding contains_cjk
prefers_chinese_reply prompt tool_result = contains_cjk prompt || has_cjk tool_result

abbrev with_line : Bytes → Bytes → Bytes
with_line out line = if is_empty out then trim line else out ++ (10 ∷ trim line)

-- The loop of `summarize_text`, with the lines that are out already counted.
unfoldable pub summary_from : ℕ → ℕ → ℕ → Bytes → List Bytes → Bytes
unfolding chars trim
summary_from max_lines max_chars idx out [] = out
summary_from max_lines max_chars idx out (line ∷ rest) =
    elim (leb max_lines idx || leb max_chars (length (chars out))) [
      | true ↦ out
      | false ↦ summary_from max_lines max_chars (suc idx) (with_line out line) rest
    ]

abbrev shortened : Bytes → ℕ → Bytes → Bytes
shortened s max_chars out =
    if is_empty out
    then concat (take max_chars (chars s))
    else if ltb (length (chars out)) (length (chars s))
    then out ++ utf8 "\n..."
    else out

unfoldable pub summarize_text : Bytes → ℕ → ℕ → Bytes
unfolding summary_from lines concat
summarize_text s max_lines max_chars =
    shortened s max_chars (
      summary_from max_lines max_chars 0 [] (filter (λ line. not (is_empty (trim line))) (lines s)))

-- `if chinese { .. } else { .. }` of two templates
abbrev in_language : Bool → String → String → List Bytes → Bytes
in_language chinese zh en args = format ((if chinese then zh else en) ∷ []) args

abbrev result_reply : Bool → Bytes → Bytes
result_reply chinese compact =
    if is_empty compact
    then in_language chinese "我已经执行完这一步，但工具没有返回可见内容。你可以继续告诉我下一步要做什么。"
        "I completed that step, but the tool did not return visible output. You can tell me what to do next."
        []
    else in_language chinese "我已经拿到结果了：\n{}\n\n如果你愿意，我可以继续基于这个结果往下处理。"
        "I received the result:\n{}\n\nIf you want, I can keep going from here."
        (summarize_text compact 6 220 ∷ [])

module _ (unicode : Unicode) where
  unfoldable pub looks_like_ping : Bytes → Bool
  unfolding contains_any trim
  looks_like_ping s =
      is_empty (trim s)
      || contains_any (unicode.to_lowercase (trim s)) (
          "你好" ∷ "在吗" ∷ "你在吗" ∷ "回答我" ∷ "你要回答我啊" ∷ "收到吗" ∷ "嗨" ∷ "hello" ∷ "hi" ∷ "are you there"
          ∷ [])

  unfoldable pub looks_like_question : Bytes → Bool
  unfolding ends_with starts_with trim
  looks_like_question s =
      let trimmed = trim s in
      let lower = unicode.to_lowercase trimmed in
      ends_with trimmed (utf8 "?")
      || (ends_with trimmed (utf8 "？")
          || (starts_with trimmed (utf8 "为什么")
              || (starts_with trimmed (utf8 "怎么")
                  || (starts_with trimmed (utf8 "如何")
                      || (starts_with lower (utf8 "why") || starts_with lower (utf8 "how"))))))

  abbrev text_reply : Bool → Bytes → Bytes
  text_reply chinese latest =
      if is_empty latest
      then in_language chinese "我在。你可以直接告诉我你想让我做什么。" "I'm here. Tell me what you want me to do." []
      else if looks_like_ping latest
      then in_language chinese "我在，已经收到你的消息了。你可以继续说具体需求，我会直接回复。"
          "I'm here and I got your message. You can continue with the actual request." []
      else if looks_like_question latest
      then in_language chinese "我收到了你的问题：{}。\n\n现在已经可以正常回复了。你可以继续追问，或者把要我处理的任务直接发给我。"
          "I received your question: {}.\n\nThe conversation path is working now. You can keep asking, or send me the task directly."
          (trim latest ∷ [])
      else in_language chinese "收到，你刚才说的是：{}。\n\n我可以继续和你正常对话，也可以直接开始处理这个需求。"
          "Got it. You said: {}.\n\nI can keep chatting normally, or I can start working on this request directly."
          (trim latest ∷ [])

  abbrev reply_to : Bool → Bytes → Option Bytes → Bytes
  reply_to chinese latest (some tool_result) = result_reply chinese (trim tool_result)
  reply_to chinese latest none = text_reply chinese latest

  unfoldable pub preview_text_reply : RequestEnvelope → Bytes
  unfolding prefers_chinese_reply looks_like_ping looks_like_question summarize_text
      latest_user_text format trim
  preview_text_reply request =
      let latest = latest_user_text request.prompt in
      reply_to (prefers_chinese_reply latest request.last_tool_result) latest
        request.last_tool_result
