-- ===== src/Tokenizer/Chat.antt =====
-- src/tokenizer.rs: the two modes of the tokenizer, and the rendering of a chat.
use ds4_rs.Base.{
  ℕ, zero, suc, ◌-◌, List, [], ◌∷◌, ◌++◌, Option, none, some, ◌||◌, ◌&&◌, leb, length,
  if◌then◌else◌,
}
use ds4_rs.Bytes.{Bytes}
use ds4_rs.Text.{utf8, chars, concat, encode_utf8, is_empty, unwrap_or}
use ds4_rs.Tokenizer.Decode.{decode_tokens_vocab, token_at}
use ds4_rs.Tokenizer.Pieces.{tokenize_text_bpe}
use ds4_rs.Tokenizer.{Vocabulary, special_token_at}
use ds4_rs.Types.{Tokens, push}

-- `Tokenizer` with its `TokenizerMode`
pub data Tokenizer : Type 0 where
  preview : Tokenizer
  gguf : Vocabulary → Tokenizer

pub data ThinkMode : Type 0 where
  think_none : ThinkMode
  think_high : ThinkMode
  think_max : ThinkMode

unfoldable pub append_text : Vocabulary → Bytes → Tokens → Tokens
append_text vocab s out = out ++ tokenize_text_bpe vocab s

unfoldable pub tokenize_span : Vocabulary → Bytes → Tokens → Tokens
tokenize_span vocab span out = if is_empty span then out else out ++ tokenize_text_bpe vocab span

-- The loop of `tokenize_rendered_chat_vocab`, over characters: bytes of a special token that are
-- still to be passed over, the span since the last special token, and the tokens so far.
unfoldable pub rendered_from : Vocabulary → ℕ → Bytes → Tokens → List Bytes → Tokens
unfolding special_token_at tokenize_span push concat
rendered_from vocab due span out [] = tokenize_span vocab span out
rendered_from vocab (suc due) span out (c ∷ cs) =
    rendered_from vocab (suc due - length c) span out cs
rendered_from vocab zero span out (c ∷ cs) = elim (special_token_at vocab (concat (c ∷ cs))) [
  | none ↦ rendered_from vocab 0 (span ++ c) out cs
  | some (token, len) ↦
      rendered_from vocab (len - length c) [] (push (tokenize_span vocab span out) token) cs
]

unfoldable pub tokenize_rendered_chat_vocab : Vocabulary → Bytes → Tokens
unfolding rendered_from chars
tokenize_rendered_chat_vocab vocab s =
    if is_empty s then [] else rendered_from vocab 0 [] [] (chars s)

-- Tokenizer::tokenize_text
unfoldable pub tokenize_text : Tokenizer → Bytes → Tokens
tokenize_text preview s = s
tokenize_text (gguf vocab) s = tokenize_text_bpe vocab s

-- Tokenizer::tokenize_rendered_chat
unfoldable pub tokenize_rendered_chat : Tokenizer → Bytes → Tokens
unfolding tokenize_rendered_chat_vocab
tokenize_rendered_chat preview s = s
tokenize_rendered_chat (gguf vocab) s = tokenize_rendered_chat_vocab vocab s

-- `char::from_u32`, in UTF-8: no surrogate, and at most 0x10ffff.
unfoldable pub char_from_u32 : ℕ → Option Bytes
char_from_u32 n =
    if leb 0x110000 n || (leb 0xd800 n && leb n 0xdfff) then none else some (encode_utf8 n)

-- Tokenizer::token_text
unfoldable pub token_text : Tokenizer → ℕ → Bytes
unfolding char_from_u32
token_text preview token = unwrap_or (char_from_u32 token) (utf8 "?")
token_text (gguf vocab) token = unwrap_or (token_at vocab token) (utf8 "?")

unfoldable pub preview_chars : Tokens → Bytes
unfolding char_from_u32
preview_chars [] = []
preview_chars (token ∷ rest) = unwrap_or (char_from_u32 token) [] ++ preview_chars rest

-- Tokenizer::decode_tokens
unfoldable pub decode_tokens : Tokenizer → Tokens → Bytes
unfolding preview_chars decode_tokens_vocab
decode_tokens preview tokens = preview_chars tokens
decode_tokens (gguf vocab) tokens = decode_tokens_vocab vocab tokens

abbrev think_text : ThinkMode → Bytes
think_text think_none = utf8 "</think>"
think_text think_high = utf8 "<think>"
think_text think_max = utf8 "<think max>"

abbrev effort : Vocabulary → ThinkMode → Tokens → Tokens
effort vocab think_max out =
    append_text vocab (utf8 "Reasoning Effort: Absolute maximum with no shortcuts permitted.\n\n")
      out
effort vocab think_none out = out
effort vocab think_high out = out

abbrev think_token : Vocabulary → ThinkMode → ℕ
think_token vocab think_none = vocab.think_end_id
think_token vocab think_high = vocab.think_start_id
think_token vocab think_max = vocab.think_start_id

-- Tokenizer::render_chat_prompt
unfoldable pub render_chat_prompt : Tokenizer → Bytes → Bytes → ThinkMode → Tokens
unfolding append_text push
render_chat_prompt preview system prompt think_mode =
    utf8 "<｜System｜>"
    ++ (system
        ++ (utf8 "\n<｜User｜>"
            ++ (prompt ++ (utf8 "\n<｜Assistant｜>" ++ (think_text think_mode ++ utf8 "\n")))))
render_chat_prompt (gguf vocab) system prompt think_mode =
    let opened = effort vocab think_mode (vocab.bos_id ∷ []) in
    let told = if is_empty system then opened else append_text vocab system opened in
    let asked = append_text vocab prompt (push told vocab.user_id) in
    push (push asked vocab.assistant_id) (think_token vocab think_mode)

-- Tokenizer::vocab_size
unfoldable pub vocab_size : Tokenizer → Option ℕ
vocab_size preview = none
vocab_size (gguf vocab) = some (length vocab.tokens)
