-- ===== src/Error.antt =====
-- src/error.rs: the error type and its `Result`. `panic` stands for an unwinding panic, such as a
-- slice index out of range, so that the absence of panics can be stated.
pub mod NoPanic
use ds4_rs.Base.{ℕ, ◌+◌, ◌^◌, String, List, Bool, true, false, ◌≡◌, refl, ltb, if◌then◌else◌}

-- What a message is formatted from.
pub data Message : Type 0 where
  text : String → Message
  with_number : String → ℕ → Message
  with_text : String → List ℕ → Message

pub data Ds4Error : Type 0 where
  invalid_argument : Message → Ds4Error
  io : Ds4Error
  context_exceeded : ℕ → ℕ → Ds4Error
  protocol : Message → Ds4Error
  unavailable : Message → Ds4Error

pub data Result {ℓ} (A : Type ℓ) : Type ℓ where
  ok : A → Result A
  err : Ds4Error → Result A
  panic : Result A

infixl 5 ◌>>=◌ ◌>>◌
abbrev pub ◌>>=◌ {ℓ κ} : {A : Type ℓ} {B : Type κ} → Result A → (A → Result B) → Result B
ok a >>= f = f a
err e >>= f = err e
panic >>= f = panic

abbrev pub ◌>>◌ {ℓ} : {B : Type ℓ} → Result (Unit {0}) → Result B → Result B
m >> k = m >>= λ _. k

-- `return Err(Ds4Error::Protocol(..))` unless the test holds.
abbrev pub require : Bool → String → Result (Unit {0})
require true m = ok tt
require false m = err (protocol (text m))

-- `ok_or_else` with a protocol error.
abbrev pub fail {ℓ} : {A : Type ℓ} → String → Result A
fail m = err (protocol (text m))

-- usize is 64 bits wide.
abbrev pub usize_mod : ℕ
usize_mod = 2 ^ 64

abbrev pub u32_mod : ℕ
u32_mod = 2 ^ 32

-- `a.checked_add(b)`, with the error that the caller makes of `None`.
unfoldable pub checked_add : ℕ → ℕ → String → Result ℕ
checked_add a b m = if ltb (a + b) usize_mod then ok (a + b) else fail m

-- `u32::try_from(n)`
unfoldable pub u32_try_from : ℕ → String → Result ℕ
u32_try_from n m = if ltb n u32_mod then ok n else fail m

-- Inversion of a successful bind.
pub >>=-eq-ok {ℓ κ} :
    {A : Type ℓ} {B : Type κ} (r : Result A) (next : A → Result B) {y : B}
    → (r >>= next) ≡ ok y
    → (x : A) × (r ≡ ok x) × (next x ≡ ok y)
>>=-eq-ok panic next e = cc
>>=-eq-ok (err reason) next e = cc
>>=-eq-ok (ok x) next e = (x, refl, e)

pub ok-value {ℓ} : {A : Type ℓ} {a b : A} → ◌≡◌ {A = Result A} (ok a) (ok b) → a ≡ b
ok-value e = cc
