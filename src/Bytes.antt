-- ===== src/Bytes.antt =====
-- Byte slices: `to_le_bytes`, `from_le_bytes`, `bytes[a..b]`, and `read_u32`, `read_u64` of
-- src/kv.rs. A byte is a number below 256, and a word is the number that its bits stand for:
-- an i32 or an f32 is its bit pattern.
pub mod Words
pub mod Bounds
use ds4_rs.Base.{
  ℕ, zero, suc, ◌+◌, ◌-◌, ◌*◌, ◌/◌, ◌%◌, ◌<◌, List, [], ◌∷◌, Option, none, some, ◌&&◌, leb, length,
  take, drop, if◌then◌else◌,
}
use ds4_rs.Error.{Result, ok, panic, fail, ◌>>=◌}

abbrev pub Bytes : Type 0
Bytes = List ℕ

abbrev pub IsByte : ℕ → Type 0
IsByte b = b < 256

-- `v.to_le_bytes()` of a word of `k` bytes.
unfoldable pub le_bytes : ℕ → ℕ → Bytes
le_bytes zero v = []
le_bytes (suc k) v = v % 256 ∷ le_bytes k (v / 256)

-- `from_le_bytes`
unfoldable pub from_le : Bytes → ℕ
from_le [] = 0
from_le (b ∷ bs) = b + 256 * from_le bs

-- `bytes.get(a..b)`
unfoldable pub get_range : Bytes → ℕ → ℕ → Option Bytes
get_range l a b = if leb a b && leb b (length l) then some (take (b - a) (drop a l)) else none

abbrev pub or_panic {ℓ} : {A : Type ℓ} → Option A → Result A
or_panic none = panic
or_panic (some a) = ok a

-- `&bytes[a..b]`
unfoldable pub slice : Bytes → ℕ → ℕ → Result Bytes
unfolding get_range
slice l a b = or_panic (get_range l a b)

abbrev word_or_truncated : Option Bytes → Result ℕ
word_or_truncated none = fail "truncated kv disk header"
word_or_truncated (some bs) = ok (from_le bs)

-- kv.rs `read_u32`
unfoldable pub read_u32 : Bytes → ℕ → Result ℕ
unfolding get_range from_le
read_u32 l offset = word_or_truncated (get_range l offset (offset + 4))

-- kv.rs `read_u64`
unfoldable pub read_u64 : Bytes → ℕ → Result ℕ
unfolding get_range from_le
read_u64 l offset = word_or_truncated (get_range l offset (offset + 8))
