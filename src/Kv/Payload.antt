-- ===== src/Kv/Payload.antt =====
-- src/kv.rs: `snapshot_payload_meta`, what the cache reads out of a session snapshot; and the
-- `chunks_exact(4)` loops that read words.
use ds4_rs.Base.{
  ℕ, ◌*◌, ◌^◌, ◌<◌, ◌≡◌, refl, List, [], ◌∷◌, ◌++◌, not, ◌||◌, ◌==◌, leb, ltb, String, length,
  if◌then◌else◌, arith, All, length-append,
}
use ds4_rs.Bytes.{Bytes, le_bytes, from_le, slice, read_u32}
use ds4_rs.Bytes.Words.{length-le_bytes, from_le-le_bytes}
use ds4_rs.Error.{Result, ok, ◌>>=◌, ◌>>◌, require, fail, checked_add, usize_mod}
use ds4_rs.Types.{Tokens}

-- `for chunk in bytes.chunks_exact(4) { out.push(from_le_bytes(..)) }`: what is left over at the
-- end is dropped.
unfoldable pub chunk_words : Bytes → List ℕ
chunk_words (a ∷ b ∷ c ∷ d ∷ rest) = from_le (a ∷ b ∷ c ∷ d ∷ []) ∷ chunk_words rest
chunk_words _ = []

-- `for word in words { bytes.extend_from_slice(&word.to_le_bytes()) }`
unfoldable pub words_bytes : List ℕ → Bytes
words_bytes [] = []
words_bytes (w ∷ ws) = le_bytes 4 w ++ words_bytes ws

pub length-words_bytes : (ws : List ℕ) → length (words_bytes ws) ≡ 4 * length ws
unfolding words_bytes
length-words_bytes [] = refl
length-words_bytes (w ∷ ws) = omega (
  arith,
  length-append (le_bytes 4 w) (words_bytes ws),
  length-le_bytes 4 w,
  length-words_bytes ws,
)

-- A word is below 2 ^ 32.
abbrev pub IsWord : ℕ → Type 0
IsWord w = w < 2 ^ 32

pub chunk_words-words_bytes : (ws : List ℕ) → All IsWord ws → chunk_words (words_bytes ws) ≡ ws
unfolding chunk_words words_bytes le_bytes
chunk_words-words_bytes [] h = refl
chunk_words-words_bytes (w ∷ ws) h = rw (from_le-le_bytes 4 w h.0, chunk_words-words_bytes ws h.1)

-- `a.checked_mul(4)`
unfoldable pub checked_mul4 : ℕ → String → Result ℕ
checked_mul4 a m = if ltb (a * 4) usize_mod then ok (a * 4) else fail m

-- The token section of a payload with the right header: the tokens, and the context size.
unfoldable pub payload_tokens : Bytes → Result (Tokens × ℕ)
unfolding checked_add checked_mul4
payload_tokens payload = do
  ctx_size ← read_u32 payload 8
  token_count ← read_u32 payload 28
  token_bytes ← checked_mul4 token_count "snapshot token byte count overflow"
  end ← checked_add 52 token_bytes "snapshot token section overflow"
  require (leb end (length payload)) "snapshot token section truncated"
  section ← slice payload 52 end
  ok (chunk_words section, ctx_size)

unfoldable pub snapshot_payload_meta : Bytes → Result (Tokens × ℕ)
unfolding payload_tokens
snapshot_payload_meta payload = if ltb (length payload) 52 then ok ([], 0) else do
  magic ← read_u32 payload 0
  version ← read_u32 payload 4
  if not (magic == 0x3456_5344) || not (version == 1) then ok ([], 0) else payload_tokens payload
