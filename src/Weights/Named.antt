-- ===== src/Weights/Named.antt =====
-- src/weights.rs: the block index of a tensor name, next to the name that a block's tensors have.
use ds4_rs.Base.{
  ℕ, zero, suc, ◌+◌, ◌-◌, ◌*◌, ◌/◌, ◌%◌, ◌^◌, ◌≤◌, ◌<◌, ◌≡◌, ◌≢◌, refl, ap, ◌∙◌, length, [], ◌∷◌,
  ◌++◌, some, true, false, ◌==◌, ◌&&◌, All, ltb, Bool-cases, inl, inr, arith, ltb→lt, lt→ltb,
  le→leb,
}
use ds4_rs.Bytes.{Bytes}
use ds4_rs.Text.{
  utf8, decimal, decimal_from, parse_digits, parse_usize, strip_prefix, split_once, between,
}
use ds4_rs.Weights.{block_index}

digit_step :
    (acc d : ℕ) (rest : Bytes)
    → d < 10
    → acc * 10 + d < 2 ^ 64
    → parse_digits acc ((48 + d) ∷ rest) ≡ parse_digits (acc * 10 + d) rest
unfolding parse_digits
digit_step acc d rest h small =
    let value : acc * 10 + (48 + d - 48) ≡ acc * 10 + d = omega arith in
    let digit : (between 48 57 (48 + d) && ltb (acc * 10 + (48 + d - 48)) (2 ^ 64)) ≡ true =
      rw
        (
          le→leb 48 (48 + d) (omega arith),
          le→leb (48 + d) 57 (omega arith),
          value,
          lt→ltb (acc * 10 + d) (2 ^ 64) small,
        )
        refl in
    rw (parse_digits, digit) (ap (λ v. parse_digits v rest) value)

-- A decimal is read back, whatever follows it.
parse_digits-decimal_from :
    (fuel n : ℕ) (rest : Bytes)
    → n < 10 ^ fuel
    → n < 2 ^ 64
    → parse_digits 0 (decimal_from fuel n rest) ≡ parse_digits n rest
unfolding decimal_from parse_digits
parse_digits-decimal_from zero n rest h small =
    let e : n ≡ 0 = omega arith in rw e (unfold decimal_from in refl)
parse_digits-decimal_from (suc fuel) n rest h small = elim (Bool-cases (ltb n 10)) [
  | inl one ↦
      let value : 0 * 10 + n ≡ n = omega arith in
      rw (decimal_from, one)
        (digit_step 0 n rest (ltb→lt n 10 one) (omega (arith, small))
          ∙ ap (λ v. parse_digits v rest) value)
  | inr more ↦
      let value : n / 10 * 10 + n % 10 ≡ n = omega arith in
      let power : 10 ^ suc fuel ≡ 10 * 10 ^ fuel = omega arith in
      rw (decimal_from, more)
        (parse_digits-decimal_from fuel (n / 10) ((48 + n % 10) ∷ rest) (omega (arith, h, power))
            (omega (arith, small))
          ∙ digit_step (n / 10) (n % 10) rest (omega arith) (omega (arith, value, small))
          ∙ ap (λ v. parse_digits v rest) value)
]

-- A digit, which is neither a sign nor a dot.
abbrev IsDigit : ℕ → Type 0
IsDigit b = (48 ≤ b) × (b < 58)

decimal_from-IsDigit :
    (fuel n : ℕ) (rest : Bytes) → All IsDigit rest → All IsDigit (decimal_from fuel n rest)
unfolding decimal_from
decimal_from-IsDigit zero n rest h = unfold decimal_from in h
decimal_from-IsDigit (suc fuel) n rest h = elim (Bool-cases (ltb n 10)) [
  | inl one ↦ let small = ltb→lt n 10 one in rw (decimal_from, one) ((omega arith, omega arith), h)
  | inr more ↦
      rw (decimal_from, more)
        (decimal_from-IsDigit fuel (n / 10) ((48 + n % 10) ∷ rest) ((omega arith, omega arith), h))
]

-- Digits are split off at the dot behind them.
split_once-digits :
    (digits tail : Bytes)
    → All IsDigit digits
    → split_once (digits ++ (46 ∷ tail)) 46 ≡ some (digits, tail)
unfolding split_once
split_once-digits [] tail h = refl
split_once-digits (b ∷ digits) tail h =
    let other : (b == 46) ≡ false = ground (arith, h.0) in
    rw (split_once, other, split_once-digits digits tail h.1) refl

parse_usize-digits :
    (digits : Bytes) {n : ℕ}
    → All IsDigit digits
    → digits ≢ []
    → parse_digits 0 digits ≡ some n
    → parse_usize digits ≡ some n
unfolding parse_usize
parse_usize-digits [] h filled e = absurd (filled refl)
parse_usize-digits (b ∷ []) h filled e = e
parse_usize-digits (b ∷ c ∷ digits) h filled e =
    let other : (b == 43) ≡ false = ground (arith, h.0) in rw other e

length-decimal_from : (fuel n : ℕ) (rest : Bytes) → length rest ≤ length (decimal_from fuel n rest)
unfolding decimal_from
length-decimal_from zero n rest = omega arith
length-decimal_from (suc fuel) n rest = elim (Bool-cases (ltb n 10)) [
  | inl one ↦ rw (decimal_from, one) (omega arith)
  | inr more ↦
      rw (decimal_from, more)
        (omega (arith, length-decimal_from fuel (n / 10) ((48 + n % 10) ∷ rest)))
]

decimal_from-positive : (fuel n : ℕ) (rest : Bytes) → 1 ≤ length (decimal_from (suc fuel) n rest)
unfolding decimal_from
decimal_from-positive fuel n rest = elim (Bool-cases (ltb n 10)) [
  | inl one ↦ rw (decimal_from, one) (omega arith)
  | inr more ↦
      rw (decimal_from, more)
        (omega (arith, length-decimal_from fuel (n / 10) ((48 + n % 10) ∷ rest)))
]

decimal-filled : (n : ℕ) → decimal n ≢ []
unfolding decimal
decimal-filled n e =
    let positive = decimal_from-positive 19 n [] in
    let none_left : length (decimal_from 20 n []) ≡ 0 = ap length e in
    absurd (omega (arith, positive, none_left))

-- A name of `blk.`, a number that fits a u64 in decimals, a dot and any rest has this number as its
-- index.
pub block_index-decimal :
    (i : ℕ) (rest : Bytes)
    → i < 2 ^ 64
    → block_index (utf8 "blk." ++ (decimal i ++ (46 ∷ rest))) ≡ some i
unfolding block_index strip_prefix decimal
block_index-decimal i rest small =
    let digits = decimal_from-IsDigit 20 i [] tt in
    let read : parse_digits 0 (decimal i) ≡ some i =
      parse_digits-decimal_from 20 i [] (omega (arith, small)) small
      ∙ (unfold parse_digits in refl) in
    rw (split_once-digits (decimal i) rest digits)
      (parse_usize-digits (decimal i) digits (decimal-filled i) read)
