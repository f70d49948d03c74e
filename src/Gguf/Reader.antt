-- ===== src/Gguf/Reader.antt =====
-- src/gguf.rs: `Reader`, whose operations take the file and the position, and give back the
-- position behind what they read. A failed operation ends the load.
use ds4_rs.Base.{
  String, ℕ, ◌+◌, ◌≤◌, ◌≡◌, refl, if◌then◌else◌, leb, length, Bool, true, false, leb→le, arith,
}
use ds4_rs.Bytes.{Bytes, slice, from_le}
use ds4_rs.Bytes.Bounds.{NoPanic-slice}
use ds4_rs.Error.{Ds4Error, Result, ok, err, panic, ◌>>=◌, ◌>>◌, require, checked_add}
use ds4_rs.Error.NoPanic.{
  NoPanic, NoPanic-ok, NoPanic-require, NoPanic-checked_add, require_inv, checked_add_inv,
}
use ds4_rs.Utf8.{from_utf8, NoPanic-from_utf8}

-- Reader::skip_bytes
unfoldable pub skip_bytes : Bytes → ℕ → ℕ → Result (Unit {0} × ℕ)
skip_bytes file count pos = do
  end ← checked_add pos count "truncated GGUF file"
  require (leb end (length file)) "truncated GGUF file"
  ok (tt, end)

-- Reader::read_exact
unfoldable pub read_exact : Bytes → ℕ → ℕ → Result (Bytes × ℕ)
read_exact file count pos = do
  end ← checked_add pos count "truncated GGUF file"
  require (leb end (length file)) "truncated GGUF file"
  out ← slice file pos end
  ok (out, end)

-- Reader::read_u32
unfoldable pub read_u32 : Bytes → ℕ → Result (ℕ × ℕ)
read_u32 file pos = do r ← read_exact file 4 pos; ok (from_le r.0, r.1)

-- Reader::read_u64
unfoldable pub read_u64 : Bytes → ℕ → Result (ℕ × ℕ)
read_u64 file pos = do r ← read_exact file 8 pos; ok (from_le r.0, r.1)

-- Reader::read_string
unfoldable pub read_string : Bytes → ℕ → Result (Bytes × ℕ)
read_string file pos = do
  len ← read_u64 file pos
  end ← checked_add len.1 len.0 "truncated GGUF file"
  require (leb end (length file)) "truncated GGUF file"
  bytes ← slice file len.1 end
  text ← from_utf8 bytes "GGUF string metadata is not valid UTF-8"
  ok (text, end)

-- A read stays in the file: it does not panic, and it ends at a position in the file that is not
-- before the one where it started.
pub record IsRead {ℓ} {A : Type ℓ} (file : Bytes) (pos : ℕ) (r : Result (A × ℕ)) : Type ℓ where
  pub no_panic : NoPanic r
  pub ends : (a : A) (end : ℕ) → r ≡ ok (a, end) → (pos ≤ end) × (end ≤ length file)

pub IsRead-ok :
    {A : Type 0} (file : Bytes) (pos : ℕ) (a : A)
    → pos ≤ length file
    → IsRead file pos (ok (a, pos))
IsRead-ok file pos a inside = record {
  no_panic = NoPanic-ok (a, pos);
  ends = λ b end e. ground (arith, e, inside);
}

pub IsRead-fail :
    {A : Type 0} (file : Bytes) (pos : ℕ) (e : Ds4Error) → IsRead {A = A} file pos (err e)
IsRead-fail file pos x = record { no_panic = record { at = λ e. cc }; ends = λ a end e. cc }

-- A read, and then what starts where it ended.
pub IsRead-bind :
    {A B : Type 0} (file : Bytes) (pos : ℕ) (m : Result (A × ℕ)) (f : A × ℕ → Result (B × ℕ))
    → IsRead file pos m
    → ((a : A) (mid : ℕ) → mid ≤ length file → IsRead file mid (f (a, mid)))
    → IsRead file pos (m >>= f)
IsRead-bind file pos (ok (a, mid)) f h k =
    let step : (pos ≤ mid) × (mid ≤ length file) = h.ends a mid refl in
    let after : IsRead file mid (f (a, mid)) = k a mid step.1 in
    record {
      no_panic = after.no_panic;
      ends = λ b end e. (omega (arith, step.0, (after.ends b end e).0), (after.ends b end e).1);
    }
IsRead-bind file pos (err e) f h k = IsRead-fail file pos e
IsRead-bind file pos panic f h k = record {
  no_panic = record { at = λ e. h.no_panic.at refl };
  ends = λ b end e. cc;
}

-- A check between two reads.
pub IsRead-check :
    {A B : Type 0} (file : Bytes) (pos : ℕ) (m : Result A) (f : A → Result (B × ℕ))
    → NoPanic m
    → ((a : A) → m ≡ ok a → IsRead file pos (f a))
    → IsRead file pos (m >>= f)
IsRead-check file pos (ok a) f h k = k a refl
IsRead-check file pos (err e) f h k = IsRead-fail file pos e
IsRead-check file pos panic f h k = record {
  no_panic = record { at = λ e. h.at refl };
  ends = λ b end e. cc;
}

pub IsRead-if :
    {A : Type 0} (file : Bytes) (pos : ℕ) (b : Bool) (m n : Result (A × ℕ))
    → IsRead file pos m
    → IsRead file pos n
    → IsRead file pos (if b then m else n)
IsRead-if file pos true m n h k = h
IsRead-if file pos false m n h k = k

pub IsRead-require :
    {A : Type 0} (file : Bytes) (pos : ℕ) (b : Bool) (m : String) (r : Result (A × ℕ))
    → IsRead file pos r
    → IsRead file pos (require b m >> r)
IsRead-require file pos true m r h = h
IsRead-require file pos false m r h = IsRead-fail file pos _

-- A position that a check has let through.
later :
    {A : Type 0} (file : Bytes) (pos end : ℕ) (a : A)
    → pos ≤ end
    → end ≤ length file
    → IsRead file pos (ok (a, end))
later file pos end a h k = record {
  no_panic = NoPanic-ok (a, end);
  ends = λ b other e. ground (arith, e, h, k);
}

module _ (file : Bytes) where
  -- The two checks of every operation.
  checked :
      {A : Type 0} (pos count : ℕ) (f : ℕ → Result (A × ℕ))
      → ((end : ℕ) → pos ≤ end → end ≤ length file → IsRead file pos (f end))
      → IsRead file pos (do
        end ← checked_add pos count "truncated GGUF file"
        require (leb end (length file)) "truncated GGUF file"
        f end)
  checked pos count f safe =
      IsRead-check file pos _ _ (NoPanic-checked_add pos count "truncated GGUF file") λ end e.
        IsRead-check file pos _ _ (NoPanic-require (leb end (length file)) "truncated GGUF file")
          λ u g.
            let inside : leb end (length file) ≡ true = require_inv _ _ g in
            let sum : end ≡ pos + count = checked_add_inv pos count _ e in
            safe end (omega (arith, sum)) (leb→le end (length file) inside)

  pub skip_bytes-IsRead : (count pos : ℕ) → IsRead file pos (skip_bytes file count pos)
  unfolding skip_bytes
  skip_bytes-IsRead count pos =
      checked pos count (λ end. ok (tt, end)) λ end h k. later file pos end tt h k

  pub read_exact-IsRead : (count pos : ℕ) → IsRead file pos (read_exact file count pos)
  unfolding read_exact
  read_exact-IsRead count pos =
      checked pos count (λ end. slice file pos end >>= λ out. ok (out, end))
        λ end h k.
          IsRead-check file pos (slice file pos end) _ (NoPanic-slice file pos end h k)
            λ out e. later file pos end out h k

  pub read_u32-IsRead : (pos : ℕ) → IsRead file pos (read_u32 file pos)
  unfolding read_u32
  read_u32-IsRead pos =
      IsRead-bind file pos _ _ (read_exact-IsRead 4 pos)
        λ out mid k. IsRead-ok file mid (from_le out) k

  pub read_u64-IsRead : (pos : ℕ) → IsRead file pos (read_u64 file pos)
  unfolding read_u64
  read_u64-IsRead pos =
      IsRead-bind file pos _ _ (read_exact-IsRead 8 pos)
        λ out mid k. IsRead-ok file mid (from_le out) k

  pub read_string-IsRead : (pos : ℕ) → IsRead file pos (read_string file pos)
  unfolding read_string
  read_string-IsRead pos = IsRead-bind file pos _ _ (read_u64-IsRead pos) λ len mid _.
      checked mid len
        (λ end. slice file mid end >>= λ bytes.
          from_utf8 bytes "GGUF string metadata is not valid UTF-8" >>= λ text. ok (text, end))
        λ end h k.
          IsRead-check file mid (slice file mid end) _ (NoPanic-slice file mid end h k) λ bytes _.
            IsRead-check file mid (from_utf8 bytes "GGUF string metadata is not valid UTF-8") _
              (NoPanic-from_utf8 bytes _) λ text _. later file mid end text h k
