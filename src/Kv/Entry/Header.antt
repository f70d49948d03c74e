-- ===== src/Kv/Entry/Header.antt =====
-- src/kv.rs: the fixed header of a cache file, read at the places where it is written.
use ds4_rs.Base.{
  ℕ, ◌+◌, ◌^◌, ◌<◌, ◌≡◌, refl, some, true, length, drop, get_elem?, arith, le→leb, list_eq,
}
use ds4_rs.Bytes.{Bytes, le_bytes, read_u32, read_u64}
use ds4_rs.Bytes.Words.{read_u32-drop, read_u64-drop}
use ds4_rs.Error.{ok}
use ds4_rs.Kv.Entry.{with_header, is_kvc}

module _ (quant save flags tc hc cs created used pl rl : ℕ) (rest : Bytes) where
  abbrev pub header_file : Bytes
  header_file = with_header quant save flags tc hc cs created used pl rl rest

  pub length-header_file : length header_file ≡ 52 + length rest
  unfolding with_header le_bytes
  length-header_file = omega arith

  pub drop-header_file : drop 52 header_file ≡ rest
  unfolding with_header le_bytes
  drop-header_file = refl

  pub flags_at : get_elem? header_file 6 ≡ some flags
  unfolding with_header
  flags_at = refl

  pub save_at : get_elem? header_file 5 ≡ some save
  unfolding with_header
  save_at = refl

  pub header_file-is_kvc : is_kvc header_file ≡ true
  unfolding is_kvc with_header le_bytes list_eq
  header_file-is_kvc = rw (le→leb 52 (length header_file) (omega (arith, length-header_file)))

  pub token_count_at : tc < 2 ^ 32 → read_u32 header_file 8 ≡ ok tc
  unfolding with_header le_bytes
  token_count_at h = read_u32-drop header_file 8 tc (drop 12 header_file) refl h

  pub hit_count_at : hc < 2 ^ 32 → read_u32 header_file 12 ≡ ok hc
  unfolding with_header le_bytes
  hit_count_at h = read_u32-drop header_file 12 hc (drop 16 header_file) refl h

  pub ctx_size_at : cs < 2 ^ 32 → read_u32 header_file 16 ≡ ok cs
  unfolding with_header le_bytes
  ctx_size_at h = read_u32-drop header_file 16 cs (drop 20 header_file) refl h

  pub created_at : created < 2 ^ 64 → read_u64 header_file 24 ≡ ok created
  unfolding with_header le_bytes
  created_at h = read_u64-drop header_file 24 created (drop 32 header_file) refl h

  pub last_used_at : used < 2 ^ 64 → read_u64 header_file 32 ≡ ok used
  unfolding with_header le_bytes
  last_used_at h = read_u64-drop header_file 32 used (drop 40 header_file) refl h

  pub payload_len_at : pl < 2 ^ 64 → read_u64 header_file 40 ≡ ok pl
  unfolding with_header le_bytes
  payload_len_at h = read_u64-drop header_file 40 pl (drop 48 header_file) refl h

  pub rendered_text_len_at : rl < 2 ^ 32 → read_u32 header_file 48 ≡ ok rl
  unfolding with_header le_bytes
  rendered_text_len_at h = read_u32-drop header_file 48 rl rest refl h
