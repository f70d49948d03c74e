-- ===== src/Gguf/Alignment.antt =====
-- src/gguf.rs: the alignment that a model is loaded with.
use ds4_rs.Base.{
  String, ◌-◌, ap, take, drop, length-take, length-drop, All-take, All-drop, All, subst, ◌-◌, ℕ,
  zero, suc, ◌+◌, ◌%◌, ◌^◌, ◌≤◌, ◌<◌, ◌≡◌, refl, some, Bool, true, false, length, arith, leb,
}
use ds4_rs.Bytes.{Bytes, IsByte, slice, from_le}
use ds4_rs.Bytes.Words.{from_le-lt}
use ds4_rs.Error.{>>=-eq-ok, ◌>>◌, Result, ok, err, panic, ◌>>=◌, require, checked_add}
use ds4_rs.Error.NoPanic.{checked_add_inv}
use ds4_rs.Gguf.Reader.{read_exact, read_u32, read_u64, read_string}
use ds4_rs.Gguf.Values.{GgufValueType, from_u32, skip_value, top_levels}
use ds4_rs.Gguf.Tensors.{GgufModel}
use ds4_rs.Gguf.Load.{Arm, arm, read_table, known, read_value, read_entry, read_entries}

ok-fst : {A : Type 0} {a b : A} {i j : ℕ} → ◌≡◌ {A = Result (A × ℕ)} (ok (a, i)) (ok (b, j)) → a ≡ b
ok-fst e = cc

slice_inv :
    (l : Bytes) (a b : ℕ) (out : Bytes)
    → slice l a b ≡ ok out
    → (a ≤ b) × (b ≤ length l) × (take (b - a) (drop a l) ≡ out)
unfolding slice
slice_inv l a b out e = ground arith

-- The four bytes that are read are bytes of the file.
read_exact_inv :
    (file : Bytes) (pos end : ℕ) (out : Bytes)
    → All IsByte file
    → read_exact file 4 pos ≡ ok (out, end)
    → from_le out < 2 ^ 32
unfolding read_exact checked_add
read_exact_inv file pos end out h e =
    let (stop, e1, e2) = >>=-eq-ok (checked_add pos 4 "truncated GGUF file") _ e in
    let (u, e3, e4) = >>=-eq-ok (require (leb stop (length file)) "truncated GGUF file") _ e2 in
    let (cut, e5, e6) = >>=-eq-ok (slice file pos stop) _ e4 in
    let sum : stop ≡ pos + 4 = checked_add_inv pos 4 _ e1 in
    let (above, below, same) = slice_inv file pos stop cut e5 in
    let bytes : All IsByte cut =
      subst (All IsByte) same
        (All-take (IsByte) (stop - pos) (drop pos file) (All-drop IsByte pos file h)) in
    let size : length cut ≡ 4 =
      omega
        (arith, ap length same, length-take (stop - pos) (drop pos file), length-drop pos file) in
    subst (λ o. from_le o < 2 ^ 32) (ok-fst e6)
      (subst (λ n. from_le cut < 256 ^ n) size (from_le-lt cut bytes))

read_u32-lt :
    (file : Bytes) (pos v end : ℕ) → All IsByte file → read_u32 file pos ≡ ok (v, end) → v < 2 ^ 32
unfolding read_u32
read_u32-lt file pos v end h e =
    let (r, e1, e2) = >>=-eq-ok (read_exact file 4 pos) _ e in
    subst (λ w. w < 2 ^ 32) (ok-fst e2) (read_exact_inv file pos r.1 r.0 h e1)

-- The predicate holds of what is read.
pub record Yields {A : Type 0} (P : A → Type 0) (r : Result (A × ℕ)) : Type 0 where
  pub holds : (a : A) (end : ℕ) → r ≡ ok (a, end) → P a

pub Yields-bind :
    {A B : Type 0} (P : B → Type 0) (m : Result (A × ℕ)) (f : A × ℕ → Result (B × ℕ))
    → ((a : A) (mid : ℕ) → m ≡ ok (a, mid) → Yields P (f (a, mid)))
    → Yields P (m >>= f)
Yields-bind P (ok (a, mid)) f h = h a mid refl
Yields-bind P (err e) f h = record { holds = λ a end e. cc }
Yields-bind P panic f h = record { holds = λ a end e. cc }

pub Yields-check :
    {A B : Type 0} (P : B → Type 0) (m : Result A) (f : A → Result (B × ℕ))
    → ((a : A) → Yields P (f a))
    → Yields P (m >>= f)
Yields-check P (ok a) f h = h a
Yields-check P (err e) f h = record { holds = λ a end e. cc }
Yields-check P panic f h = record { holds = λ a end e. cc }

pub Yields-require :
    {A : Type 0} (P : A → Type 0) (b : Bool) (m : String) (r : Result (A × ℕ))
    → (b ≡ true → Yields P r)
    → Yields P (require b m >> r)
Yields-require P true m r h = h refl
Yields-require P false m r h = record { holds = λ a end e. cc }

pub Yields-ok : {A : Type 0} (P : A → Type 0) (a : A) (pos : ℕ) → P a → Yields P (ok (a, pos))
Yields-ok P a pos h = record { holds = λ b end e. subst P (ok-fst e) h }

-- A read, and the model with what it gave.
Yields-set :
    {A B : Type 0} (P : B → Type 0) (m : Result (A × ℕ)) (g : A → B)
    → ((a : A) (end : ℕ) → m ≡ ok (a, end) → P (g a))
    → Yields P (m >>= λ v. ok (g v.0, v.1))
Yields-set P m g h = Yields-bind P m _ λ a end e. Yields-ok P (g a) end (h a end e)

-- The alignment is a u32, and the file's size is the length of the file.
abbrev pub IsFor : Bytes → GgufModel → Type 0
IsFor file m = (m.alignment < 2 ^ 32) × (m.file_size ≡ length file)

module _ (file : Bytes) (bytes : All IsByte file) where
  read_value-IsFor :
      (a : Arm) (value_type : GgufValueType) (m : GgufModel) (pos : ℕ)
      → IsFor file m
      → Yields (IsFor file) (read_value file a value_type m pos)
  unfolding read_value
  read_value-IsFor Arm.set_alignment value_type m pos h =
      Yields-set (IsFor file) (read_u32 file pos) (λ v. record m { alignment = v })
        λ v p e. (read_u32-lt file pos v p bytes e, h.1)
  read_value-IsFor Arm.set_architecture value_type m pos h =
      Yields-set (IsFor file) (read_string file pos) (λ v. record m { architecture = some v })
        λ v p e. h
  read_value-IsFor Arm.set_vocab_size_u32 value_type m pos h =
      Yields-set (IsFor file) (read_u32 file pos) (λ v. record m { vocab_size = some v }) λ v p e. h
  read_value-IsFor Arm.set_vocab_size_u64 value_type m pos h =
      Yields-set (IsFor file) (read_u64 file pos) (λ v. record m { vocab_size = some (v % 2 ^ 32) })
        λ v p e. h
  read_value-IsFor Arm.set_tokens value_type m pos h =
      Yields-set (IsFor file) (read_table file true pos) (λ v. record m { tokenizer_tokens = v })
        λ v p e. h
  read_value-IsFor Arm.set_merges value_type m pos h =
      Yields-set (IsFor file) (read_table file false pos) (λ v. record m { tokenizer_merges = v })
        λ v p e. h
  read_value-IsFor Arm.skip value_type m pos h =
      Yields-set (IsFor file) (skip_value top_levels file value_type pos) (λ v. m) λ v p e. h

  read_entry-IsFor :
      (m : GgufModel) (pos : ℕ) → IsFor file m → Yields (IsFor file) (read_entry file m pos)
  unfolding read_entry
  read_entry-IsFor m pos h = Yields-bind (IsFor file) (read_string file pos) _ λ key p _.
      Yields-bind (IsFor file) (read_u32 file p) _ λ raw q _.
        Yields-check (IsFor file) (from_u32 raw) _
          λ value_type. read_value-IsFor (arm (known key) value_type) value_type m q h

  pub read_entries-IsFor :
      (n : ℕ) (m : GgufModel) (pos : ℕ)
      → IsFor file m
      → Yields (IsFor file) (read_entries file n m pos)
  unfolding read_entries
  read_entries-IsFor zero m pos h = Yields-ok (IsFor file) m pos h
  read_entries-IsFor (suc n) m pos h =
      Yields-bind (IsFor file) (read_entry file m pos) (λ r. read_entries file n r.0 r.1)
        λ m' p e. read_entries-IsFor n m' p ((read_entry-IsFor m pos h).holds m' p e)
