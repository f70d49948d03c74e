-- ===== src/Kernels/Threads.antt =====
-- src/kernels/matmul.rs: the rows of a product, one after the other or shared out among threads. The
-- callers have checked that the rows from `row0` on are rows of the tensor.
use ds4_rs.Base.{
  ℕ, zero, suc, ◌+◌, ◌-◌, ◌/◌, List, [], ◌∷◌, ◌++◌, Option, some, if◌then◌else◌, ltb, length, take,
  drop, min, max, replicate,
}
use ds4_rs.Gguf.Tensors.{GgufModel, and_then}
use ds4_rs.Kernels.{Floats}
use ds4_rs.Kernels.Rows.{dot_tensor_row}
use ds4_rs.Weights.Tensors.{BoundTensor}

-- Of a divisor that is not zero.
abbrev pub div_ceil : ℕ → ℕ → ℕ
div_ceil a b = (a + (b - 1)) / b

-- `available` is what the machine answers, 1 where it does not.
unfoldable pub parallel_row_threads : ℕ → ℕ → ℕ
parallel_row_threads available rows =
    if ltb rows 8192 then 1 else max (min available (div_ceil rows 2048)) 1

-- The rows of a worker: where its part of the output starts, and where it ends.
abbrev pub Span : Type 0
Span = ℕ × ℕ

-- `(0..n_rows).step_by(chunk_size)`, from `local_start` on, with the end of each part; `steps` bounds
-- its rounds.
unfoldable pub spans : ℕ → ℕ → ℕ → ℕ → List Span
spans zero chunk_size n_rows local_start = []
spans (suc steps) chunk_size n_rows local_start =
    let rest = spans steps chunk_size n_rows (local_start + chunk_size) in
    if ltb local_start n_rows
    then (local_start, min (local_start + chunk_size) n_rows) ∷ rest
    else []

-- `out[start..start + chunk.len()].copy_from_slice(&chunk)`
unfoldable pub copy_at : ℕ → List ℕ → List ℕ → List ℕ
copy_at start chunk out = take start out ++ chunk ++ drop (start + length chunk) out

module _ (f : Floats) (model : GgufModel) (t : BoundTensor) (input : List ℕ) where
  -- The loop over `count` rows from `row` on.
  unfoldable pub dot_rows : ℕ → ℕ → Option (List ℕ)
  dot_rows row zero = some []
  dot_rows row (suc count) =
      and_then (dot_tensor_row f model t row input)
        λ value. and_then (dot_rows (suc row) count) λ values. some (value ∷ values)

  -- A worker.
  unfoldable pub worker : ℕ → Span → Option (List ℕ)
  unfolding dot_rows
  worker row0 (local_start, local_end) = dot_rows (row0 + local_start) (local_end - local_start)

  -- The workers are joined in the order in which they were started.
  unfoldable pub join_workers : ℕ → List Span → List ℕ → Option (List ℕ)
  unfolding worker copy_at
  join_workers row0 [] out = some out
  join_workers row0 (span ∷ rest) out =
      and_then (worker row0 span) λ chunk. join_workers row0 rest (copy_at (span.0) chunk out)

  unfoldable pub parallel_dot_tensor_rows : ℕ → ℕ → ℕ → Option (List ℕ)
  unfolding join_workers dot_rows spans parallel_row_threads
  parallel_dot_tensor_rows available row0 n_rows =
      let thread_count = parallel_row_threads available n_rows in
      if ltb 1 thread_count
      then join_workers row0 (spans n_rows (div_ceil n_rows thread_count) n_rows 0)
          (replicate n_rows 0)
      else dot_rows row0 n_rows
