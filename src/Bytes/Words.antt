-- ===== src/Bytes/Words.antt =====
-- Reading back what was written: words and slices at an offset.
use native.Mathlib.Nat.{pow-suc}
use ds4_rs.Base.{
  ℕ, zero, suc, ◌+◌, ◌-◌, ◌*◌, ◌/◌, ◌%◌, ◌^◌, ◌≤◌, ◌<◌, ◌≡◌, refl, ap, sym, ◌∙◌, [], ◌∷◌, ◌++◌,
  some, length, drop, arith, le→leb, length-append, length-drop, take-append, drop-append,
  drop-drop, All,
}
use ds4_rs.Error.{ok}
use ds4_rs.Bytes.{Bytes, IsByte, le_bytes, from_le, get_range, slice, read_u32, read_u64}

pub length-le_bytes : (k v : ℕ) → length (le_bytes k v) ≡ k
unfolding le_bytes
length-le_bytes zero v = refl
length-le_bytes (suc k) v = ap suc (length-le_bytes k (v / 256))

pub le_bytes-IsByte : (k v : ℕ) → All IsByte (le_bytes k v)
unfolding le_bytes
le_bytes-IsByte zero v = tt
le_bytes-IsByte (suc k) v = (omega arith, le_bytes-IsByte k (v / 256))

pub from_le-le_bytes : (k v : ℕ) → v < 256 ^ k → from_le (le_bytes k v) ≡ v
unfolding le_bytes from_le
from_le-le_bytes zero v h = omega arith
from_le-le_bytes (suc k) v h =
    omega (arith, from_le-le_bytes k (v / 256) (omega (arith, pow-suc 256 k)))

pub from_le-lt : (bs : Bytes) → All IsByte bs → from_le bs < 256 ^ length bs
unfolding from_le
from_le-lt [] h = omega arith
from_le-lt (b ∷ bs) h = omega (arith, from_le-lt bs h.1, pow-suc 256 (length bs), h.0)

pub le_bytes-from_le : (bs : Bytes) → All IsByte bs → le_bytes (length bs) (from_le bs) ≡ bs
unfolding le_bytes from_le
le_bytes-from_le [] h = refl
le_bytes-from_le (b ∷ bs) h =
    let low : (b + 256 * from_le bs) % 256 ≡ b = omega (arith, h.0) in
    let high : (b + 256 * from_le bs) / 256 ≡ from_le bs = omega (arith, h.0) in
    rw (low, high, le_bytes-from_le bs h.1)

-- What stands behind offset `n` in a buffer, `drop n l ≡ x ++ r`, is how the lemmas say where a
-- field lies.
pub length_of_drop :
    (l : Bytes) (n : ℕ) (x r : Bytes)
    → drop n l ≡ x ++ r
    → n ≤ length l
    → length l ≡ n + length x + length r
length_of_drop l n x r e h = omega (arith, ap length e, length-drop n l, length-append x r)

pub drop_next :
    (l : Bytes) (n m : ℕ) (x r : Bytes) → drop n l ≡ x ++ r → m ≡ n + length x → drop m l ≡ r
drop_next l n m x r e q =
    rw q (sym (drop-drop n (length x) l) ∙ ap (drop (length x)) e ∙ drop-append x r)

-- A word that stands at an offset shows that the offset lies in the buffer.
word_inside :
    (l : Bytes) (n k v : ℕ) (r : Bytes) → drop n l ≡ le_bytes (suc k) v ++ r → n ≤ length l
word_inside l n k v r e = omega (
  arith,
  ap length e,
  length-drop n l,
  length-append (le_bytes (suc k) v) r,
  length-le_bytes (suc k) v,
)

pub get_range-drop :
    (l : Bytes) (n : ℕ) (x r : Bytes)
    → drop n l ≡ x ++ r
    → n ≤ length l
    → get_range l n (n + length x) ≡ some x
unfolding get_range
get_range-drop l n x r e h =
    let fits : n + length x ≤ length l = omega (arith, length_of_drop l n x r e h) in
    let size : n + length x - n ≡ length x = omega arith in
    rw (le→leb n (n + length x) (omega arith), le→leb (n + length x) (length l) fits, size, e)
      (ap some (take-append x r))

pub slice-drop :
    (l : Bytes) (n m : ℕ) (x r : Bytes)
    → drop n l ≡ x ++ r
    → n ≤ length l
    → m ≡ n + length x
    → slice l n m ≡ ok x
slice-drop l n m x r e h q = rw q (unfold slice in rw (get_range-drop l n x r e h))

pub read_u32-drop :
    (l : Bytes) (n v : ℕ) (r : Bytes)
    → drop n l ≡ le_bytes 4 v ++ r
    → v < 2 ^ 32
    → read_u32 l n ≡ ok v
read_u32-drop l n v r e w =
    let at = get_range-drop l n (le_bytes 4 v) r e (word_inside l n 3 v r e) in
    let at4 : get_range l n (n + 4) ≡ some (le_bytes 4 v) = rw (length-le_bytes 4 v) at at in
    unfold read_u32 in rw (at4, from_le-le_bytes 4 v w)

pub read_u64-drop :
    (l : Bytes) (n v : ℕ) (r : Bytes)
    → drop n l ≡ le_bytes 8 v ++ r
    → v < 2 ^ 64
    → read_u64 l n ≡ ok v
read_u64-drop l n v r e w =
    let at = get_range-drop l n (le_bytes 8 v) r e (word_inside l n 7 v r e) in
    let at8 : get_range l n (n + 8) ≡ some (le_bytes 8 v) = rw (length-le_bytes 8 v) at at in
    unfold read_u64 in rw (at8, from_le-le_bytes 8 v w)
