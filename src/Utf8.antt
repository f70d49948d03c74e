-- ===== src/Utf8.antt =====
-- `str::from_utf8` of the standard library: the well-formed byte sequences of the Unicode standard.
-- A Rust `String` is modelled by its UTF-8 bytes.
use Prim.Native.Char.{code}
use ds4_rs.Base.{
  ℕ, zero, suc, [], ◌∷◌, ◌++◌, Option, none, some, Bool, true, false, ◌&&◌, ◌≡◌, arith, ltb, leb,
  ◌==◌, if◌then◌else◌, String,
}
use ds4_rs.Error.NoPanic.{NoPanic}
use ds4_rs.Error.{Result, ok, fail}
use ds4_rs.Bytes.{Bytes}

-- What a lead byte asks for: how many continuation bytes, and the range of the first of them.
lead : ℕ → Option (ℕ × ℕ × ℕ)
lead b =
    if ltb b 0x80
    then some (0, 0x80, 0xbf)
    else if ltb b 0xc2
    then none
    else if ltb b 0xe0
    then some (1, 0x80, 0xbf)
    else if b == 0xe0
    then some (2, 0xa0, 0xbf)
    else if b == 0xed
    then some (2, 0x80, 0x9f)
    else if ltb b 0xf0
    then some (2, 0x80, 0xbf)
    else if b == 0xf0
    then some (3, 0x90, 0xbf)
    else if ltb b 0xf4
    then some (3, 0x80, 0xbf)
    else if b == 0xf4
    then some (3, 0x80, 0x8f)
    else none

-- `n` continuation bytes are still due, the next of them between `lo` and `hi`.
unfoldable pub scan : ℕ → ℕ → ℕ → Bytes → Bool
unfolding lead
scan zero lo hi [] = true
scan (suc n) lo hi [] = false
scan zero lo hi (b ∷ bs) = elim (lead b) [ none ↦ false | some (n, l, h) ↦ scan n l h bs ]
scan (suc n) lo hi (b ∷ bs) = leb lo b && leb b hi && scan n 0x80 0xbf bs

unfoldable pub utf8_valid : Bytes → Bool
unfolding scan
utf8_valid bs = scan 0 0x80 0xbf bs

-- The bytes are a Rust string.
abbrev pub IsUtf8 : Bytes → Type 0
IsUtf8 bs = utf8_valid bs ≡ true

-- `str::from_utf8(bytes)`, with the error that the caller makes of a failure.
unfoldable pub from_utf8 : Bytes → String → Result Bytes
from_utf8 bs m = if utf8_valid bs then ok bs else fail m

pub from_utf8-IsUtf8 : (bs : Bytes) (m : String) → IsUtf8 bs → from_utf8 bs m ≡ ok bs
unfolding from_utf8
from_utf8-IsUtf8 bs m h = rw h

-- A text literal of ASCII characters, as bytes.
abbrev pub ascii : String → Bytes
ascii String.[] = []
ascii (String.◌∷◌ c s) = code c ∷ ascii s

pub NoPanic-from_utf8 : (bs : Bytes) (m : String) → NoPanic (from_utf8 bs m)
unfolding from_utf8
NoPanic-from_utf8 bs m = record { at = λ e. ground arith }

abbrev replacement : Bytes → Bytes
replacement rest = 0xef ∷ 0xbf ∷ 0xbd ∷ rest

-- `String::from_utf8_lossy`: each longest start of a sequence that does not go on as it must is
-- replaced by one U+FFFD. The bytes of the sequence so far wait for the rest of it.
unfoldable pub lossy_scan : ℕ → ℕ → ℕ → Bytes → Bytes → Bytes
unfolding lead
lossy_scan zero lo hi waiting [] = []
lossy_scan (suc n) lo hi waiting [] = replacement []
lossy_scan zero lo hi waiting (b ∷ bs) = elim (lead b) [
  | none ↦ replacement (lossy_scan 0 0x80 0xbf [] bs)
  | some (zero, l, h) ↦ b ∷ lossy_scan 0 0x80 0xbf [] bs
  | some (suc n, l, h) ↦ lossy_scan (suc n) l h (b ∷ []) bs
]
lossy_scan (suc n) lo hi waiting (b ∷ bs) = elim (leb lo b && leb b hi) [
  | true ↦ elim n [
    | zero ↦ waiting ++ (b ∷ lossy_scan 0 0x80 0xbf [] bs)
    | suc m ↦ lossy_scan (suc m) 0x80 0xbf (waiting ++ (b ∷ [])) bs
  ]
  | false ↦ elim (lead b) [
    | none ↦ replacement (replacement (lossy_scan 0 0x80 0xbf [] bs))
    | some (zero, l, h) ↦ replacement (b ∷ lossy_scan 0 0x80 0xbf [] bs)
    | some (suc m, l, h) ↦ replacement (lossy_scan (suc m) l h (b ∷ []) bs)
  ]
]

unfoldable pub from_utf8_lossy : Bytes → Bytes
unfolding lossy_scan
from_utf8_lossy bs = lossy_scan 0 0x80 0xbf [] bs
