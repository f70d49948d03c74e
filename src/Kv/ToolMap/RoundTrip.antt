-- ===== src/Kv/ToolMap/RoundTrip.antt =====
-- src/kv.rs: reading a tool map that was written.
use ds4_rs.Base.{
  ℕ, ◌+◌, ◌^◌, ◌≤◌, ◌<◌, ◌≡◌, refl, ap, ◌∙◌, List, [], ◌∷◌, ◌++◌, length, drop, list_eq, arith,
  lt→ltb, le→leb, length-append, append_assoc, append-nil, All,
}
use ds4_rs.Bytes.{Bytes, le_bytes}
use ds4_rs.Bytes.Words.{length-le_bytes, length_of_drop, drop_next, slice-drop, read_u32-drop}
use ds4_rs.Error.{ok, checked_add}
use ds4_rs.Kv.Format.{KvToolReplayEntry, kv_tool_map_magic, kv_tool_map_version}
use ds4_rs.Kv.ToolMap.{
  encode_tool_entry, encode_tool_entries, encode_tool_map, parse_tool_entry, parse_tool_entries,
  parse_tool_map,
}
use ds4_rs.Utf8.{IsUtf8, from_utf8-IsUtf8}

-- Both strings are UTF-8 and their lengths fit a u32.
pub record IsEncodable (e : KvToolReplayEntry) : Type 0 where
  pub id_utf8 : IsUtf8 e.tool_call_id
  pub block_utf8 : IsUtf8 e.sampled_block
  pub id_fits : length e.tool_call_id < 2 ^ 32
  pub block_fits : length e.sampled_block < 2 ^ 32

-- The bytes of one entry, and of several.
abbrev pub entry_bytes : KvToolReplayEntry → Bytes
entry_bytes e =
    le_bytes 4 (length e.tool_call_id)
    ++ (le_bytes 4 (length e.sampled_block) ++ (e.tool_call_id ++ e.sampled_block))

abbrev pub entries_bytes : List KvToolReplayEntry → Bytes
entries_bytes [] = []
entries_bytes (e ∷ es) = entry_bytes e ++ entries_bytes es

encode_tool_entry-entry_bytes :
    (e : KvToolReplayEntry) → IsEncodable e → encode_tool_entry e ≡ ok (entry_bytes e)
unfolding encode_tool_entry
encode_tool_entry-entry_bytes e h = rw (lt→ltb _ _ h.id_fits, lt→ltb _ _ h.block_fits)

encode_tool_entries-entries_bytes :
    (es : List KvToolReplayEntry) (bytes : Bytes)
    → All IsEncodable es
    → encode_tool_entries es bytes ≡ ok (bytes ++ entries_bytes es)
unfolding encode_tool_entries
encode_tool_entries-entries_bytes [] bytes h = rw append-nil
encode_tool_entries-entries_bytes (e ∷ es) bytes h = rw (encode_tool_entry-entry_bytes e h.0) (
    encode_tool_entries-entries_bytes es (bytes ++ entry_bytes e) h.1
    ∙ ap ok (append_assoc bytes (entry_bytes e) (entries_bytes es)))

-- One entry is read where it stands.
parse_tool_entry-entry_bytes :
    (e : KvToolReplayEntry) (l : Bytes) (n : ℕ) (r : Bytes)
    → IsEncodable e
    → drop n l ≡ entry_bytes e ++ r
    → n ≤ length l
    → length l < 2 ^ 64
    → parse_tool_entry l n ≡ ok (e, n + length (entry_bytes e))
unfolding parse_tool_entry checked_add
parse_tool_entry-entry_bytes e l n r h at inside small =
    let id = e.tool_call_id in
    let block = e.sampled_block in
    let a = length id in
    let b = length block in
    let r8 = id ++ (block ++ r) in
    let r4 = le_bytes 4 b ++ r8 in
    let at0 : drop n l ≡ le_bytes 4 a ++ r4 = simp append_assoc at at in
    let at4 : drop (n + 4) l ≡ r4 =
      drop_next l n (n + 4) (le_bytes 4 a) r4 at0 (omega (arith, length-le_bytes 4 a)) in
    let at8 : drop (n + 8) l ≡ r8 =
      drop_next l (n + 4) (n + 8) (le_bytes 4 b) r8 at4 (omega (arith, length-le_bytes 4 b)) in
    let atb : drop (n + 8 + a) l ≡ block ++ r =
      drop_next l (n + 8) (n + 8 + a) id (block ++ r) at8 refl in
    let size : length l ≡ n + 8 + a + (b + length r) = omega (
      arith,
      length_of_drop l n (le_bytes 4 a) r4 at0 inside,
      length-append (le_bytes 4 b) (id ++ (block ++ r)),
      length-append id (block ++ r),
      length-append block r,
      length-le_bytes 4 a,
      length-le_bytes 4 b,
    ) in
    let total : n + 8 + a + b ≡ n + length (entry_bytes e) = omega (
      arith,
      length-append (le_bytes 4 a) (le_bytes 4 b ++ (id ++ block)),
      length-append (le_bytes 4 b) (id ++ block),
      length-append id block,
      length-le_bytes 4 a,
      length-le_bytes 4 b,
    ) in
    rw (
      read_u32-drop l n a r4 at0 h.id_fits,
      read_u32-drop l (n + 4) b r8 at4 h.block_fits,
      lt→ltb (n + 8 + a) (2 ^ 64) (omega arith),
      lt→ltb (n + 8 + a + b) (2 ^ 64) (omega arith),
      le→leb (n + 8 + a + b) (length l) (omega arith),
      slice-drop l (n + 8) (n + 8 + a) id (block ++ r) at8 (omega arith) refl,
      from_utf8-IsUtf8 id "tool replay id is not valid utf-8" h.id_utf8,
      slice-drop l (n + 8 + a) (n + 8 + a + b) block r atb (omega arith) refl,
      from_utf8-IsUtf8 block "tool replay block is not valid utf-8" h.block_utf8,
      total,
    )

parse_tool_entries-entries_bytes :
    (es : List KvToolReplayEntry) (l : Bytes) (n : ℕ) (r : Bytes) (out : List KvToolReplayEntry)
    → All IsEncodable es
    → drop n l ≡ entries_bytes es ++ r
    → n ≤ length l
    → length l < 2 ^ 64
    → parse_tool_entries (length es) l n out ≡ ok (out ++ es, n + length (entries_bytes es))
unfolding parse_tool_entries
parse_tool_entries-entries_bytes [] l n r out h at inside small =
    let e : n + 0 ≡ n = omega arith in rw (append-nil, e)
parse_tool_entries-entries_bytes (e ∷ es) l n r out h at inside small =
    let x = entry_bytes e in
    let r' = entries_bytes es ++ r in
    let at0 : drop n l ≡ x ++ r' = at ∙ append_assoc x (entries_bytes es) r in
    let m = n + length x in
    let size = length_of_drop l n x r' at0 inside in
    let total : m + length (entries_bytes es) ≡ n + length (x ++ entries_bytes es) =
      omega (arith, length-append x (entries_bytes es)) in
    let next = drop_next l n m x r' at0 refl in
    rw (parse_tool_entry-entry_bytes e l n r' h.0 at0 inside small) (
      parse_tool_entries-entries_bytes es l m r (out ++ e ∷ []) h.1 next (omega arith) small
      ∙ rw (append_assoc out (e ∷ []) es, total))

-- The bytes of the section of a list of entries that is not empty.
abbrev pub map_bytes : List KvToolReplayEntry → Bytes
map_bytes es =
    kv_tool_map_magic ++ (kv_tool_map_version ∷ (le_bytes 4 (length es) ++ entries_bytes es))

abbrev pub section_bytes : List KvToolReplayEntry → Bytes
section_bytes [] = []
section_bytes (e ∷ es) = map_bytes (e ∷ es)

pub encode_tool_map-section_bytes :
    (es : List KvToolReplayEntry)
    → All IsEncodable es
    → length es < 2 ^ 32
    → encode_tool_map es ≡ ok (section_bytes es)
unfolding encode_tool_map
encode_tool_map-section_bytes [] h fits = refl
encode_tool_map-section_bytes (e ∷ es) h fits =
    rw (lt→ltb _ _ fits) (encode_tool_entries-entries_bytes (e ∷ es) _ h)

-- A section is read where it stands, whatever follows it.
pub parse_tool_map-map_bytes :
    (es : List KvToolReplayEntry) (l : Bytes) (n : ℕ) (r : Bytes)
    → All IsEncodable es
    → length es < 2 ^ 32
    → drop n l ≡ map_bytes es ++ r
    → n ≤ length l
    → length l < 2 ^ 64
    → parse_tool_map l n ≡ ok (es, n + length (map_bytes es))
unfolding parse_tool_map list_eq
parse_tool_map-map_bytes es l n r h fits at inside small =
    let c = length es in
    let r8 = entries_bytes es ++ r in
    let r4 = le_bytes 4 c ++ r8 in
    let at0 : drop n l ≡ kv_tool_map_magic ++ (kv_tool_map_version ∷ r4) =
      simp append_assoc at at in
    let at3 : drop (n + 3) l ≡ kv_tool_map_version ∷ r4 =
      drop_next l n (n + 3) kv_tool_map_magic (kv_tool_map_version ∷ r4) at0 refl in
    let at4 : drop (n + 4) l ≡ r4 =
      drop_next l (n + 3) (n + 4) (kv_tool_map_version ∷ []) r4 at3 (omega arith) in
    let at8 : drop (n + 8) l ≡ r8 =
      drop_next l (n + 4) (n + 8) (le_bytes 4 c) r8 at4 (omega (arith, length-le_bytes 4 c)) in
    let size : length l ≡ n + 8 + length r8 = omega (
      arith,
      length_of_drop l n kv_tool_map_magic (kv_tool_map_version ∷ r4) at0 inside,
      length-append (le_bytes 4 c) r8,
      length-le_bytes 4 c,
    ) in
    let total : n + 8 + length (entries_bytes es) ≡ n + length (map_bytes es) =
      omega (arith, length-append (le_bytes 4 c) (entries_bytes es), length-le_bytes 4 c) in
    rw
      (
        le→leb (n + 8) (length l) (omega arith),
        slice-drop l n (n + 3) kv_tool_map_magic (kv_tool_map_version ∷ r4) at0 inside refl,
        slice-drop l (n + 3) (n + 4) (kv_tool_map_version ∷ []) r4 at3 (omega arith) (omega arith),
        read_u32-drop l (n + 4) c r8 at4 fits,
        ← total,
      )
      (parse_tool_entries-entries_bytes es l (n + 8) r [] h at8 (omega arith) small)
