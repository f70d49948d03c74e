-- ===== src/Bytes/Bounds.antt =====
-- Reads of a byte slice: none of a word panics, and none within bounds is out of range.
use ds4_rs.Base.{ℕ, ◌≤◌, ◌<◌, length, arith, get_elem?, zero, suc, [], ◌∷◌}
use ds4_rs.Bytes.{Bytes, slice, read_u32, read_u64, or_panic}
use ds4_rs.Error.NoPanic.{NoPanic}

-- A read of a word outside the buffer is an error.
pub NoPanic-read_u32 : (l : Bytes) (n : ℕ) → NoPanic (read_u32 l n)
unfolding read_u32
NoPanic-read_u32 l n = record { at = λ e. ground arith }

pub NoPanic-read_u64 : (l : Bytes) (n : ℕ) → NoPanic (read_u64 l n)
unfolding read_u64
NoPanic-read_u64 l n = record { at = λ e. ground arith }

pub NoPanic-slice : (l : Bytes) (a b : ℕ) → a ≤ b → b ≤ length l → NoPanic (slice l a b)
unfolding slice
NoPanic-slice l a b h k = record { at = λ e. ground arith }

pub NoPanic-index : (l : Bytes) (i : ℕ) → i < length l → NoPanic (or_panic (get_elem? l i))
NoPanic-index [] i h = absurd (omega arith)
NoPanic-index (x ∷ l) zero h = record { at = λ e. cc }
NoPanic-index (x ∷ l) (suc i) h = NoPanic-index l i (omega arith)
