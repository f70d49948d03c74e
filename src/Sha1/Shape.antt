-- ===== src/Sha1/Shape.antt =====
-- src/kv.rs: the sizes of the padded message and of a file name, and the letters of the name.
use mathlib.Core.List.{reverse}
use ds4_rs.Base.{
  false, if◌then◌else◌, ℕ, zero, suc, ◌-◌, ◌*◌, ◌/◌, ◌%◌, ◌^◌, ◌≤◌, ◌<◌, ◌≡◌, refl, ◌⊎◌, inl, inr,
  [], ◌∷◌, ◌++◌, true, ◌==◌, length, length-append, arith, All, ltb, Bool-cases, bit_and, ==_iff,
  Bool,
}
use ds4_rs.Bytes.{Bytes, le_bytes, IsByte}
use ds4_rs.Sha1.{
  Digest, pad_loop, padded_message, digest_bytes, sha1_digest, hex_digit, hex_digits, sha1_hex,
}

-- How many zeros are still due.
abbrev due : Bytes → ℕ
due padded = (120 - length padded % 64) % 64

pad_loop_lem :
    (fuel : ℕ) (padded : Bytes) → due padded < fuel → length (pad_loop fuel padded) % 64 ≡ 56
unfolding pad_loop
pad_loop_lem zero padded h = absurd (omega arith)
pad_loop_lem (suc fuel) padded h = elim (Bool-cases (length padded % 64 == 56)) [
  | inl done ↦ rw done ((==_iff _ _).0 done)
  | inr more ↦
      rw more (pad_loop_lem fuel (padded ++ 0 ∷ []) (ground (arith, length-append padded (0 ∷ []))))
]

-- The padded message fills its chunks of 64 bytes: the loop that pads it ends, and `chunks_exact`
-- leaves nothing out.
pub padded_message-whole : (bytes : Bytes) → length (padded_message bytes) % 64 ≡ 0
unfolding padded_message
padded_message-whole bytes = omega (
  arith,
  length-append (pad_loop 64 (bytes ++ 0x80 ∷ []))
      (reverse (le_bytes 8 (length bytes * 8 % 2 ^ 64))),
  pad_loop_lem 64 (bytes ++ 0x80 ∷ []) (omega arith),
)

abbrev pub IsHexDigit : ℕ → Type 0
IsHexDigit c = ((b'0' ≤ c) × (c ≤ b'9')) ⊎ ((b'a' ≤ c) × (c ≤ b'f'))

hex_digit-IsHexDigit : (n : ℕ) → n < 16 → IsHexDigit (hex_digit n)
unfolding hex_digit
hex_digit-IsHexDigit n h = elim (Bool-cases (ltb n 10)) [
  | inl small ↦ rw small (inl (ground arith, ground arith))
  | inr big ↦ rw big (inr (ground arith, ground arith))
]

-- The mask of the low four bits, checked at every byte.
holds_to : (ℕ → Bool) → ℕ → Bool
holds_to test zero = true
holds_to test (suc b) = if test b then holds_to test b else false

holds_to_sound :
    (test : ℕ → Bool) (bound b : ℕ) → b < bound → holds_to test bound ≡ true → test b ≡ true
unfolding holds_to
holds_to_sound test (suc bound) b inside held =
    ground (arith, inside, held, holds_to_sound test bound b)
holds_to_sound test zero b inside held = absurd (omega arith)

mask_table : holds_to (λ b. bit_and b 0x0f == b % 16) 256 ≡ true
unfolding holds_to
mask_table = refl

low_nibble : (b : ℕ) → IsByte b → bit_and b 0x0f ≡ b % 16
low_nibble b h = (==_iff _ _).0 (holds_to_sound (λ b. bit_and b 0x0f == b % 16) 256 b h mask_table)

hex_digits-IsHexDigit : (bs : Bytes) → All IsByte bs → All IsHexDigit (hex_digits bs)
unfolding hex_digits
hex_digits-IsHexDigit [] h = tt
hex_digits-IsHexDigit (b ∷ bs) h = (
  hex_digit-IsHexDigit (b / 16) (omega (arith, h.0)),
  (
    hex_digit-IsHexDigit (bit_and b 0x0f) (rw (low_nibble b h.0) (omega arith)),
    hex_digits-IsHexDigit bs h.1,
  ),
)

length-hex_digits : (bs : Bytes) → length (hex_digits bs) ≡ 2 * length bs
unfolding hex_digits
length-hex_digits [] = refl
length-hex_digits (b ∷ bs) = omega (arith, length-hex_digits bs)

digest_bytes-IsByte : (h : Digest) → All IsByte (digest_bytes h)
unfolding digest_bytes
digest_bytes-IsByte h = omega arith

length-digest_bytes : (h : Digest) → length (digest_bytes h) ≡ 20
unfolding digest_bytes
length-digest_bytes h = refl

length-sha1_digest : (bytes : Bytes) → length (sha1_digest bytes) ≡ 20
length-sha1_digest bytes = unfold sha1_digest in length-digest_bytes _

sha1_digest-IsByte : (bytes : Bytes) → All IsByte (sha1_digest bytes)
sha1_digest-IsByte bytes = unfold sha1_digest in digest_bytes-IsByte _

-- The name made from any text is forty characters, all of them digits or letters from a to f: it
-- holds no separator.
pub sha1_hex-IsHexDigit :
    (bytes : Bytes) → (length (sha1_hex bytes) ≡ 40) × All IsHexDigit (sha1_hex bytes)
unfolding sha1_hex
sha1_hex-IsHexDigit bytes = (
  omega (arith, length-hex_digits (sha1_digest bytes), length-sha1_digest bytes),
  hex_digits-IsHexDigit (sha1_digest bytes) (sha1_digest-IsByte bytes),
)
