-- ===== src/Sha1.antt =====
-- src/kv.rs: `sha1_digest` and `sha1_hex`, which name the cache files.
pub mod Shape
use ds4_rs.Base.{
  ℕ, zero, suc, ◌+◌, ◌-◌, ◌*◌, ◌/◌, ◌%◌, ◌^◌, List, [], ◌∷◌, ◌++◌, ◌==◌, if◌then◌else◌, ltb, length,
  take, drop, get_elem?, some, none, Option, bit_and, bit_or, bit_xor,
}
use mathlib.Core.List.{reverse}
use ds4_rs.Bytes.{Bytes, le_bytes}

-- x.rotate_left(k)
rotate_left : ℕ → ℕ → ℕ
rotate_left x k = x * 2 ^ k % 2 ^ 32 + x / 2 ^ (32 - k)

-- !x
complement : ℕ → ℕ
complement x = 2 ^ 32 - 1 - x

-- a.wrapping_add(b)
wrapping_add : ℕ → ℕ → ℕ
wrapping_add a b = (a + b) % 2 ^ 32

-- `while padded.len() % 64 != 56 { padded.push(0) }`, with fuel
unfoldable pub pad_loop : ℕ → Bytes → Bytes
pad_loop zero padded = padded
pad_loop (suc fuel) padded =
    let rest = pad_loop fuel (padded ++ 0 ∷ []) in if length padded % 64 == 56 then padded else rest

-- The message with its padding. At most 63 zeros are added, so a fuel of 64 is enough.
unfoldable pub padded_message : Bytes → Bytes
unfolding pad_loop le_bytes
padded_message bytes =
    pad_loop 64 (bytes ++ 0x80 ∷ []) ++ reverse (le_bytes 8 (length bytes * 8 % 2 ^ 64))

-- The first sixteen words of a chunk, big-endian, the last word first.
chunk_schedule : Bytes → List ℕ → List ℕ
chunk_schedule (a ∷ b ∷ c ∷ d ∷ rest) w =
    chunk_schedule rest ((a * 2 ^ 24 + b * 2 ^ 16 + c * 2 ^ 8 + d) ∷ w)
chunk_schedule _ w = w

word_or_zero : Option ℕ → ℕ
word_or_zero none = 0
word_or_zero (some w) = w

-- `for i in 16..80`, over the words so far, the last one first
extend_schedule : ℕ → List ℕ → List ℕ
unfolding rotate_left word_or_zero
extend_schedule zero w = w
extend_schedule (suc n) w = extend_schedule n (
    rotate_left
      (bit_xor
        (bit_xor (bit_xor (word_or_zero (get_elem? w 2)) (word_or_zero (get_elem? w 7)))
          (word_or_zero (get_elem? w 13)))
        (word_or_zero (get_elem? w 15)))
      1
    ∷ w)

pub record Digest : Type 0 where
  pub h0 : ℕ
  pub h1 : ℕ
  pub h2 : ℕ
  pub h3 : ℕ
  pub h4 : ℕ

round_function : ℕ → ℕ → ℕ → ℕ → ℕ
unfolding complement
round_function i b c d =
    if ltb i 20
    then bit_or (bit_and b c) (bit_and (complement b) d)
    else if ltb i 40
    then bit_xor (bit_xor b c) d
    else if ltb i 60
    then bit_or (bit_or (bit_and b c) (bit_and b d)) (bit_and c d)
    else bit_xor (bit_xor b c) d

round_constant : ℕ → ℕ
round_constant i =
    if ltb i 20
    then 0x5a82_7999
    else if ltb i 40
    then 0x6ed9_eba1
    else if ltb i 60
    then 0x8f1b_bcdc
    else 0xca62_c1d6

-- `for (i, word) in w.iter().enumerate()`, on the five variables
sha1_rounds : ℕ → List ℕ → Digest → Digest
unfolding round_function round_constant wrapping_add rotate_left
sha1_rounds i [] v = v
sha1_rounds i (word ∷ rest) v = sha1_rounds (i + 1) rest (record {
  h0 =
      wrapping_add
        (wrapping_add
          (wrapping_add (wrapping_add (rotate_left v.h0 5) (round_function i v.h1 v.h2 v.h3)) v.h4)
          (round_constant i))
        word;
  h1 = v.h0;
  h2 = rotate_left v.h1 30;
  h3 = v.h2;
  h4 = v.h3;
})

digest_chunk : Digest → Bytes → Digest
unfolding chunk_schedule extend_schedule sha1_rounds wrapping_add
digest_chunk h chunk =
    let v = sha1_rounds 0 (reverse (extend_schedule 64 (chunk_schedule chunk []))) h in
    record {
      h0 = wrapping_add h.h0 v.h0;
      h1 = wrapping_add h.h1 v.h1;
      h2 = wrapping_add h.h2 v.h2;
      h3 = wrapping_add h.h3 v.h3;
      h4 = wrapping_add h.h4 v.h4;
    }

-- `for chunk in padded.chunks_exact(64)`, by the number of chunks
unfoldable pub digest_chunks : ℕ → Bytes → Digest → Digest
unfolding digest_chunk
digest_chunks zero padded h = h
digest_chunks (suc n) padded h = digest_chunks n (drop 64 padded) (digest_chunk h (take 64 padded))

abbrev pub initial_digest : Digest
initial_digest = record {
  h0 = 0x6745_2301;
  h1 = 0xefcd_ab89;
  h2 = 0x98ba_dcfe;
  h3 = 0x1032_5476;
  h4 = 0xc3d2_e1f0;
}

-- The twenty bytes of the digest, each word big-endian.
unfoldable pub digest_bytes : Digest → Bytes
unfolding le_bytes
digest_bytes h =
    reverse (le_bytes 4 h.h0)
    ++ (reverse (le_bytes 4 h.h1)
        ++ (reverse (le_bytes 4 h.h2) ++ (reverse (le_bytes 4 h.h3) ++ reverse (le_bytes 4 h.h4))))

unfoldable pub sha1_digest : Bytes → Bytes
sha1_digest bytes =
    let padded = padded_message bytes in
    digest_bytes (digest_chunks (length padded / 64) padded initial_digest)

unfoldable pub hex_digit : ℕ → ℕ
hex_digit nibble = if ltb nibble 10 then b'0' + nibble else b'a' + (nibble - 10)

-- The loop of `sha1_hex`: two digits for each byte.
unfoldable pub hex_digits : Bytes → Bytes
unfolding hex_digit
hex_digits [] = []
hex_digits (byte ∷ rest) = hex_digit (byte / 16) ∷ hex_digit (bit_and byte 0x0f) ∷ hex_digits rest

unfoldable pub sha1_hex : Bytes → Bytes
sha1_hex bytes = hex_digits (sha1_digest bytes)
