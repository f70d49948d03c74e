-- ===== src/Kv/ToolMap.antt =====
-- src/kv.rs: `encode_tool_map` and `parse_tool_map`, the section of a file that keeps the exact
-- tool calls of a session.
pub mod RoundTrip
use ds4_rs.Base.{
  ℕ, zero, suc, ◌+◌, List, [], ◌∷◌, ◌++◌, not, ◌&&◌, leb, length, list_eq, if◌then◌else◌,
}
use ds4_rs.Bytes.{Bytes, le_bytes, slice, read_u32}
use ds4_rs.Error.{Result, ok, ◌>>=◌, ◌>>◌, require, checked_add, u32_try_from}
use ds4_rs.Kv.Format.{KvToolReplayEntry, kv_tool_map_magic, kv_tool_map_version}
use ds4_rs.Utf8.{from_utf8}

-- The bytes that one round of the loop of `encode_tool_map` appends.
unfoldable pub encode_tool_entry : KvToolReplayEntry → Result Bytes
unfolding u32_try_from
encode_tool_entry entry = do
  id_len ← u32_try_from (length entry.tool_call_id) "tool replay id too large"
  block_len ← u32_try_from (length entry.sampled_block) "tool replay block too large"
  ok (le_bytes 4 id_len ++ (le_bytes 4 block_len ++ (entry.tool_call_id ++ entry.sampled_block)))

unfoldable pub encode_tool_entries : List KvToolReplayEntry → Bytes → Result Bytes
encode_tool_entries [] bytes = ok bytes
encode_tool_entries (entry ∷ rest) bytes = do
  more ← encode_tool_entry entry
  encode_tool_entries rest (bytes ++ more)

unfoldable pub encode_tool_map : List KvToolReplayEntry → Result Bytes
unfolding u32_try_from
encode_tool_map [] = ok []
encode_tool_map (entry ∷ rest) = do
  count ← u32_try_from (length (entry ∷ rest)) "too many tool replay entries"
  encode_tool_entries (entry ∷ rest) (kv_tool_map_magic ++ (kv_tool_map_version ∷ le_bytes 4 count))

-- One round of the loop of `parse_tool_map`: the entry, and the cursor behind it.
unfoldable pub parse_tool_entry : Bytes → ℕ → Result (KvToolReplayEntry × ℕ)
parse_tool_entry bytes cursor = do
  id_len ← read_u32 bytes cursor
  block_len ← read_u32 bytes (cursor + 4)
  let start = cursor + 8
  id_end ← checked_add start id_len "tool replay id length overflow"
  block_end ← checked_add id_end block_len "tool replay block length overflow"
  require (leb block_end (length bytes)) "truncated tool replay entry"
  id_bytes ← slice bytes start id_end
  tool_call_id ← from_utf8 id_bytes "tool replay id is not valid utf-8"
  block_bytes ← slice bytes id_end block_end
  sampled_block ← from_utf8 block_bytes "tool replay block is not valid utf-8"
  ok (record { tool_call_id = tool_call_id; sampled_block = sampled_block }, block_end)

unfoldable pub parse_tool_entries :
    ℕ → Bytes → ℕ → List KvToolReplayEntry → Result (List KvToolReplayEntry × ℕ)
parse_tool_entries zero bytes cursor out = ok (out, cursor)
parse_tool_entries (suc count) bytes cursor out = do
  parsed ← parse_tool_entry bytes cursor
  parse_tool_entries count bytes parsed.1 (out ++ parsed.0 ∷ [])

-- The room that `Vec::with_capacity(count)` asks for is granted: a refused allocation, which ends the
-- process, is no result of the model.
unfoldable pub parse_tool_map : Bytes → ℕ → Result (List KvToolReplayEntry × ℕ)
parse_tool_map bytes offset = do
  require (leb (offset + 8) (length bytes)) "truncated tool replay section"
  magic ← slice bytes offset (offset + 3)
  version ← slice bytes (offset + 3) (offset + 4)
  require (list_eq magic kv_tool_map_magic && list_eq version (kv_tool_map_version ∷ []))
      "invalid tool replay section header"
  count ← read_u32 bytes (offset + 4)
  parse_tool_entries count bytes (offset + 8) []
