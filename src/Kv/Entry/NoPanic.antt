-- ===== src/Kv/Entry/NoPanic.antt =====
-- src/kv.rs: the loaders on the bytes of any file.
use ds4_rs.Base.{
  ℕ, zero, suc, ◌+◌, ◌≤◌, ◌≡◌, List, [], ◌∷◌, ◌++◌, not, ◌||◌, ◌==◌, leb, ltb, length, String,
  arith, leb→le,
}
use ds4_rs.Bytes.{Bytes}
use ds4_rs.Bytes.Bounds.{NoPanic-read_u32, NoPanic-slice}
use ds4_rs.Error.{ok}
use ds4_rs.Error.NoPanic.{
  NoPanic, NoPanic-ok, NoPanic-require, NoPanic-checked_add, NoPanic-if, NoPanic-bind, require_inv,
  checked_add_inv,
}
use ds4_rs.Kv.Format.{KvToolReplayEntry}
use ds4_rs.Kv.Payload.{checked_mul4, payload_tokens, snapshot_payload_meta}
use ds4_rs.Kv.ToolMap.{parse_tool_entry, parse_tool_entries, parse_tool_map}
use ds4_rs.Utf8.{NoPanic-from_utf8}

NoPanic-checked_mul4 : (a : ℕ) (m : String) → NoPanic (checked_mul4 a m)
unfolding checked_mul4
NoPanic-checked_mul4 a m = record { at = λ e. ground arith }

NoPanic-parse_tool_entry : (l : Bytes) (n : ℕ) → NoPanic (parse_tool_entry l n)
unfolding parse_tool_entry
NoPanic-parse_tool_entry l n = NoPanic-bind _ _ (NoPanic-read_u32 l n) λ id_len _.
    NoPanic-bind _ _ (NoPanic-read_u32 l (n + 4)) λ block_len _.
      NoPanic-bind _ _ (NoPanic-checked_add (n + 8) id_len _) λ id_end p.
        NoPanic-bind _ _ (NoPanic-checked_add id_end block_len _) λ block_end q.
          NoPanic-bind _ _ (NoPanic-require (leb block_end (length l)) _) λ u inside.
            let a : id_end ≡ n + 8 + id_len = checked_add_inv (n + 8) id_len _ p in
            let b : block_end ≡ id_end + block_len = checked_add_inv id_end block_len _ q in
            let c : block_end ≤ length l = leb→le _ _ (require_inv _ _ inside) in
            NoPanic-bind _ _ (NoPanic-slice l (n + 8) id_end (omega arith) (omega arith))
              λ id_bytes _. NoPanic-bind _ _ (NoPanic-from_utf8 id_bytes _) λ id _.
                NoPanic-bind _ _ (NoPanic-slice l id_end block_end (omega arith) (omega arith))
                  λ bytes _. NoPanic-bind _ _ (NoPanic-from_utf8 bytes _) λ block _. NoPanic-ok _

NoPanic-parse_tool_entries :
    (count : ℕ) (l : Bytes) (n : ℕ) (out : List KvToolReplayEntry)
    → NoPanic (parse_tool_entries count l n out)
unfolding parse_tool_entries
NoPanic-parse_tool_entries zero l n out = NoPanic-ok _
NoPanic-parse_tool_entries (suc count) l n out =
    NoPanic-bind _ _ (NoPanic-parse_tool_entry l n)
      λ parsed _. NoPanic-parse_tool_entries count l parsed.1 (out ++ parsed.0 ∷ [])

-- A tool section of any bytes, at any offset, is parsed or refused.
pub NoPanic-parse_tool_map : (l : Bytes) (n : ℕ) → NoPanic (parse_tool_map l n)
unfolding parse_tool_map
NoPanic-parse_tool_map l n =
    NoPanic-bind _ _ (NoPanic-require (leb (n + 8) (length l)) _) λ u inside.
      let c : n + 8 ≤ length l = leb→le _ _ (require_inv _ _ inside) in
      NoPanic-bind _ _ (NoPanic-slice l n (n + 3) (omega arith) (omega arith)) λ magic _.
        NoPanic-bind _ _ (NoPanic-slice l (n + 3) (n + 4) (omega arith) (omega arith)) λ version _.
          NoPanic-bind _ _ (NoPanic-require _ _) λ v _.
            NoPanic-bind _ _ (NoPanic-read_u32 l (n + 4))
              λ count _. NoPanic-parse_tool_entries count l (n + 8) []

NoPanic-payload_tokens : (l : Bytes) → NoPanic (payload_tokens l)
unfolding payload_tokens
NoPanic-payload_tokens l = NoPanic-bind _ _ (NoPanic-read_u32 l 8) λ ctx_size _.
    NoPanic-bind _ _ (NoPanic-read_u32 l 28) λ token_count _.
      NoPanic-bind _ _ (NoPanic-checked_mul4 token_count _) λ token_bytes _.
        NoPanic-bind _ _ (NoPanic-checked_add 52 token_bytes _) λ end p.
          NoPanic-bind _ _ (NoPanic-require (leb end (length l)) _) λ u inside.
            let a : end ≡ 52 + token_bytes = checked_add_inv 52 token_bytes _ p in
            let c : end ≤ length l = leb→le _ _ (require_inv _ _ inside) in
            NoPanic-bind _ _ (NoPanic-slice l 52 end (omega arith) c) λ section _. NoPanic-ok _

pub NoPanic-snapshot_payload_meta : (l : Bytes) → NoPanic (snapshot_payload_meta l)
unfolding snapshot_payload_meta
NoPanic-snapshot_payload_meta l =
    NoPanic-if (ltb (length l) 52) _ _ (λ _. NoPanic-ok _)
      λ _. NoPanic-bind _ _ (NoPanic-read_u32 l 0) λ magic _.
        NoPanic-bind _ _ (NoPanic-read_u32 l 4) λ version _.
          NoPanic-if (not (magic == 0x3456_5344) || not (version == 1)) (ok ([], 0)) _
            (λ _. NoPanic-ok ([], 0)) λ _. NoPanic-payload_tokens l
