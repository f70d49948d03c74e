-- ===== src/Error/NoPanic.antt =====
-- Calls that do not panic, with one rule for each way to build a fallible function.
use ds4_rs.Base.{ℕ, ◌+◌, ◌≡◌, ◌≢◌, Bool, true, false, refl, arith, if◌then◌else◌, String}
use ds4_rs.Error.{Result, ok, err, panic, fail, require, checked_add, ◌>>=◌}

pub record NoPanic {ℓ} {A : Type ℓ} (r : Result A) : Type ℓ where
  pub at : r ≢ panic

pub NoPanic-ok {ℓ} : {A : Type ℓ} (a : A) → NoPanic (ok a)
NoPanic-ok a = record { at = λ e. cc }

pub NoPanic-fail {ℓ} : {A : Type ℓ} (m : String) → NoPanic {A = A} (fail m)
NoPanic-fail m = record { at = λ e. cc }

pub NoPanic-require : (b : Bool) (m : String) → NoPanic (require b m)
NoPanic-require true m = record { at = λ e. cc }
NoPanic-require false m = record { at = λ e. cc }

pub NoPanic-checked_add : (a b : ℕ) (m : String) → NoPanic (checked_add a b m)
unfolding checked_add
NoPanic-checked_add a b m = record { at = λ e. ground arith }

pub NoPanic-if {ℓ} :
    {A : Type ℓ} (b : Bool) (m n : Result A)
    → (b ≡ true → NoPanic m)
    → (b ≡ false → NoPanic n)
    → NoPanic (if b then m else n)
NoPanic-if true m n hm hn = hm refl
NoPanic-if false m n hm hn = hn refl

-- The rest of a block may use what the first step has returned.
pub NoPanic-bind {ℓ κ} :
    {A : Type ℓ} {B : Type κ} (m : Result A) (f : A → Result B)
    → NoPanic m
    → ((a : A) → m ≡ ok a → NoPanic (f a))
    → NoPanic (m >>= f)
NoPanic-bind (ok a) f hm hf = hf a refl
NoPanic-bind (err x) f hm hf = record { at = λ e. cc }
NoPanic-bind panic f hm hf = absurd (hm.at refl)

pub require_inv : (b : Bool) (m : String) {u : Unit {0}} → require b m ≡ ok u → b ≡ true
require_inv true m h = refl
require_inv false m h = cc

pub checked_add_inv : (a b : ℕ) (m : String) {c : ℕ} → checked_add a b m ≡ ok c → c ≡ a + b
unfolding checked_add
checked_add_inv a b m h = ground arith
