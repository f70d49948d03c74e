-- ===== src/Kernels/Shared.antt =====
-- src/kernels/matmul.rs: sharing rows out among threads gives what one loop gives.
use ds4_rs.Base.{
  ℕ, zero, suc, ◌+◌, ◌-◌, ◌*◌, ◌≤◌, ◌<◌, List, [], ◌∷◌, ◌++◌, Option, none, some, true,
  if◌then◌else◌, ltb, length, drop, min, replicate, ◌≡◌, refl, sym, ap, ◌∙◌, inl, inr, arith,
  length-append, take-append, append_assoc, Bool-cases, ltb→lt, ltb→le,
}
use ds4_rs.Gguf.Sizes.{and_then-eq-some}
use ds4_rs.Gguf.Tensors.{GgufModel, and_then}
use ds4_rs.Kernels.{Floats}
use ds4_rs.Kernels.Rows.{dot_tensor_row}
use ds4_rs.Kernels.Threads.{
  div_ceil, parallel_row_threads, Span, spans, copy_at, dot_rows, worker, join_workers,
  parallel_dot_tensor_rows,
}
use ds4_rs.Weights.Tensors.{BoundTensor}
use native.Mathlib.Nat.{le-div_iff_mul-le}

abbrev zeros : ℕ → List ℕ
zeros n = replicate n 0

-- The output while its numbers behind the first ones are zeros.
abbrev pub filled : List ℕ → ℕ → List ℕ
filled done left = done ++ zeros left

drop-replicate : (k n : ℕ) → drop k (zeros n) ≡ zeros (n - k)
drop-replicate zero n = let e : n - 0 ≡ n = omega arith in ap zeros (sym e)
drop-replicate (suc k) zero = let e : 0 - suc k ≡ 0 = omega arith in ap zeros (sym e)
drop-replicate (suc k) (suc n) =
    let e : suc n - suc k ≡ n - k = omega arith in drop-replicate k n ∙ ap zeros (sym e)

div_ceil-positive : (a b : ℕ) → 0 < a → 1 < b → 0 < div_ceil a b
div_ceil-positive a b p q =
    let positive : 0 < b = omega arith in
    let enough : 1 * b ≤ a + (b - 1) = omega arith in (le-div_iff_mul-le {k = b} positive).1 enough

drop-behind : (done rest : List ℕ) (k : ℕ) → drop (length done + k) (done ++ rest) ≡ drop k rest
drop-behind [] rest k = let e : 0 + k ≡ k = omega arith in ap (λ m. drop m rest) e
drop-behind (x ∷ done) rest k =
    let e : suc (length done) + k ≡ suc (length done + k) = omega arith in
    ap (λ m. drop m (x ∷ done ++ rest)) e ∙ drop-behind done rest k

copy_at-filled :
    (done chunk : List ℕ) (left : ℕ)
    → copy_at (length done) chunk (filled done left) ≡ filled (done ++ chunk) (left - length chunk)
unfolding copy_at
copy_at-filled done chunk left = rw (take-append done (zeros left)) (
    rw (drop-behind done (zeros left) (length chunk))
      (rw (drop-replicate (length chunk) left) refl))

module _ (f : Floats) (model : GgufModel) (t : BoundTensor) (input : List ℕ) where
  -- The rows behind others.
  abbrev pub behind : List ℕ → Option (List ℕ) → Option (List ℕ)
  behind done rest = and_then rest (λ values. some (done ++ values))

  behind-nil : (rest : Option (List ℕ)) → behind [] rest ≡ rest
  behind-nil none = refl
  behind-nil (some rest) = refl

  behind-behind :
      (xs ys : List ℕ) (rest : Option (List ℕ))
      → behind xs (behind ys rest) ≡ behind (xs ++ ys) rest
  behind-behind xs ys none = refl
  behind-behind xs ys (some rest) = ap some (sym (append_assoc xs ys rest))

  dot_rows-length :
      (row count : ℕ) (values : List ℕ)
      → dot_rows f model t input row count ≡ some values
      → length values ≡ count
  unfolding dot_rows
  dot_rows-length row zero values e = let same : [] ≡ values = cc in sym (ap length same)
  dot_rows-length row (suc count) values e =
      let (value, e1, e2) = and_then-eq-some (dot_tensor_row f model t row input) _ e in
      let (rest, e3, e4) = and_then-eq-some (dot_rows f model t input (suc row) count) _ e2 in
      let same : value ∷ rest ≡ values = cc in
      sym (ap length same) ∙ ap suc (dot_rows-length (suc row) count rest e3)

  dot_rows-append :
      (row a b : ℕ)
      → dot_rows f model t input row (a + b)
        ≡ and_then
            (dot_rows f model t input row a)
            (λ xs. behind xs (dot_rows f model t input (row + a) b))
  unfolding dot_rows
  dot_rows-append row zero b =
      let e : 0 + b ≡ b = omega arith in
      let e' : row + 0 ≡ row = omega arith in
      rw (e, e') (sym (behind-nil (dot_rows f model t input row b)))
  dot_rows-append row (suc a) b =
      let e : suc a + b ≡ suc (a + b) = omega arith in
      let e' : row + suc a ≡ suc row + a = omega arith in
      let step = dot_rows-append (suc row) a b in
      rw (e, e', step)
        (regroup (dot_tensor_row f model t row input) (dot_rows f model t input (suc row) a))
    where
      later : Option (List ℕ)
      later = dot_rows f model t input (suc row + a) b

      regroup :
          (o : Option ℕ) (p : Option (List ℕ))
          → and_then o (λ value.
            and_then (and_then p (λ xs. behind xs later)) (λ values. some (value ∷ values)))
            ≡ and_then
                (and_then o (λ value. and_then p (λ values. some (value ∷ values))))
                (λ xs. behind xs later)
      regroup none p = refl
      regroup (some value) none = refl
      regroup (some value) (some xs) = cons later
        where
          cons :
              (rest : Option (List ℕ))
              → and_then (behind xs rest) (λ values. some (value ∷ values))
                ≡ behind (value ∷ xs) rest
          cons none = refl
          cons (some rest) = refl

  dot_rows-same :
      (a b count : ℕ)
      → (0 < count → a ≡ b)
      → dot_rows f model t input a count ≡ dot_rows f model t input b count
  unfolding dot_rows
  dot_rows-same a b zero p = refl
  dot_rows-same a b (suc count) p =
      ap (λ r. dot_rows f model t input r (suc count)) (p (omega arith))

  -- A part is copied behind what is done, and the parts behind it do the rest.
  join_workers-part :
      (n_rows row0 local_start local_end : ℕ) (rest : List Span) (done : List ℕ)
      → length done ≡ local_start
      → local_start ≤ local_end
      → local_end ≤ n_rows
      → ((chunk : List ℕ)
          → length chunk ≡ local_end - local_start
          → join_workers f model t input row0 rest (filled (done ++ chunk) (n_rows - local_end))
            ≡ behind
                (done ++ chunk)
                (dot_rows f model t input (row0 + local_end) (n_rows - local_end)))
      → join_workers f model t input row0
          ((local_start, local_end) ∷ rest)
          (filled done (n_rows - local_start))
        ≡ behind done (dot_rows f model t input (row0 + local_start) (n_rows - local_start))
  unfolding join_workers worker
  join_workers-part n_rows row0 local_start local_end rest done d le le' later =
      let count = local_end - local_start in
      let whole : n_rows - local_start ≡ count + (n_rows - local_end) = omega arith in
      let from : row0 + local_start + count ≡ row0 + local_end = omega arith in
      let split = dot_rows-append (row0 + local_start) count (n_rows - local_end) in
      go (dot_rows f model t input (row0 + local_start) count) refl
      ∙ ap (behind done)
          (sym (ap (dot_rows f model t input (row0 + local_start)) whole ∙ split ∙ by_from from))
    where
      by_from :
          {a b : ℕ}
          → a ≡ b
          → and_then
              (dot_rows f model t input (row0 + local_start) (local_end - local_start))
              (λ xs. behind xs (dot_rows f model t input a (n_rows - local_end)))
            ≡ and_then
                (dot_rows f model t input (row0 + local_start) (local_end - local_start))
                (λ xs. behind xs (dot_rows f model t input b (n_rows - local_end)))
      by_from e = rw e refl

      count : ℕ
      count = local_end - local_start

      go :
          (o : Option (List ℕ))
          → dot_rows f model t input (row0 + local_start) count ≡ o
          → and_then o (λ chunk.
            join_workers f model t input row0 rest
              (copy_at local_start chunk (filled done (n_rows - local_start))))
            ≡ behind done (
                and_then o (λ xs.
                  behind xs (dot_rows f model t input (row0 + local_end) (n_rows - local_end))))
      go none e = refl
      go (some chunk) e =
          let size = dot_rows-length (row0 + local_start) count chunk e in
          let left : n_rows - local_start - length chunk ≡ n_rows - local_end = omega arith in
          let copied : copy_at local_start chunk (filled done (n_rows - local_start))
              ≡ filled (done ++ chunk) (n_rows - local_end) =
            ap (λ k. copy_at k chunk (filled done (n_rows - local_start))) (sym d)
            ∙ copy_at-filled done chunk (n_rows - local_start)
            ∙ ap (filled (done ++ chunk)) left in
          ap (join_workers f model t input row0 rest) copied
          ∙ later chunk size
          ∙ sym (
              behind-behind done chunk
                (dot_rows f model t input (row0 + local_end) (n_rows - local_end)))

  -- The rest of the work, from a part on: what is done stays, and the rows behind it follow.
  join_workers-rows :
      (steps chunk_size n_rows row0 start : ℕ) (done : List ℕ)
      → 0 < chunk_size
      → length done ≡ min start n_rows
      → n_rows - start ≤ steps
      → join_workers f model t input row0
          (spans steps chunk_size n_rows start)
          (filled done (n_rows - start))
        ≡ behind done (dot_rows f model t input (row0 + start) (n_rows - start))
  unfolding join_workers spans
  join_workers-rows zero chunk_size n_rows row0 start done c d e =
      let none_left : n_rows - start ≡ 0 = omega arith in rw none_left refl
  join_workers-rows (suc steps) chunk_size n_rows row0 start done c d e =
      elim (Bool-cases (ltb start n_rows)) [
        | inr past ↦
            let le = ltb→le start n_rows past in
            let none_left : n_rows - start ≡ 0 = omega arith in rw (none_left, past) refl
        | inl more ↦ rw more (
            join_workers-part n_rows row0 start (min (start + chunk_size) n_rows)
              (spans steps chunk_size n_rows (start + chunk_size)) done
              (let lt = ltb→lt start n_rows more in omega arith)
              (let lt = ltb→lt start n_rows more in omega arith) (omega arith)
              (λ chunk size.
                let lt = ltb→lt start n_rows more in
                let left : n_rows - min (start + chunk_size) n_rows
                    ≡ n_rows - (start + chunk_size) =
                  omega arith in
                let grown : length (done ++ chunk) ≡ min (start + chunk_size) n_rows =
                  (let sum = length-append done chunk in omega arith) in
                rw left (
                  join_workers-rows steps chunk_size n_rows row0 (start + chunk_size)
                    (done ++ chunk) c grown (omega arith)
                  ∙ ap (behind (done ++ chunk)) (
                      dot_rows-same (row0 + (start + chunk_size))
                        (row0 + min (start + chunk_size) n_rows) (n_rows - (start + chunk_size))
                        (λ some_left. omega arith)))))
      ]

  -- However many threads the machine has, the rows that the workers share out are the rows that one
  -- loop computes, in their order, and the call fails where the loop does.
  pub parallel_dot_tensor_rows-serial :
      (available row0 n_rows : ℕ)
      → parallel_dot_tensor_rows f model t input available row0 n_rows
        ≡ dot_rows f model t input row0 n_rows
  unfolding parallel_dot_tensor_rows parallel_row_threads
  parallel_dot_tensor_rows-serial available row0 n_rows =
      shared (parallel_row_threads available n_rows) (threads available n_rows)
    where
      threads :
          (available n_rows : ℕ) → ltb 1 (parallel_row_threads available n_rows) ≡ true → 0 < n_rows
      threads available n_rows e = ground arith

      shared :
          (thread_count : ℕ)
          → (ltb 1 thread_count ≡ true → 0 < n_rows)
          → (if ltb 1 thread_count
              then join_workers f model t input row0
                  (spans n_rows (div_ceil n_rows thread_count) n_rows 0)
                  (zeros n_rows)
              else dot_rows f model t input row0 n_rows)
            ≡ dot_rows f model t input row0 n_rows
      shared thread_count p = elim (Bool-cases (ltb 1 thread_count)) [
        | inr one ↦ rw one refl
        | inl many ↦
            let rows_e : n_rows - 0 ≡ n_rows = omega arith in
            let from_e : row0 + 0 ≡ row0 = omega arith in
            let all =
              join_workers-rows n_rows (div_ceil n_rows thread_count) n_rows row0 0 []
                (div_ceil-positive n_rows thread_count (p many) (ltb→lt 1 thread_count many))
                (omega arith) (omega arith) in
            rw many
              ((rw (rows_e, from_e) at all) ∙ behind-nil (dot_rows f model t input row0 n_rows))
      ]
