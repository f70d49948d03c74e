-- ===== src/Kernels/Widths.antt =====
-- src/kernels/matmul.rs: how many numbers a row decodes to.
use ds4_rs.Base.{
  ℕ, zero, suc, ◌+◌, ◌-◌, ◌*◌, ◌/◌, ◌≤◌, List, [], ◌∷◌, some, ◌==◌, ◌&&◌, length, take, drop, min,
  map, ◌≡◌, inl, inr, refl, sym, ap, ◌∙◌, arith, length-take, length-drop, length-map,
  length-append, Bool-cases, leb,
}
use ds4_rs.Bytes.{Bytes, get_range}
use ds4_rs.Gguf.Sizes.{and_then-eq-some}
use ds4_rs.Gguf.Tensors.{GgufModel, and_then, tensor, tensor_bytes}
use ds4_rs.Kernels.{Floats}
use ds4_rs.Kernels.Rows.{
  f16_to_f32, bf16_to_f32, scale_of, tensor_row_bytes, in_usize, chunk_halves, chunk_blocks, row_of,
  decode_blocks, decode_row, decode_tensor_row,
}
use ds4_rs.Kv.Payload.{chunk_words}
use ds4_rs.Weights.Tensors.{BoundTensor}

length-chunk_words : (n : ℕ) (row : Bytes) → length row ≡ n * 4 → length (chunk_words row) ≡ n
unfolding chunk_words
length-chunk_words zero [] e = refl
length-chunk_words (suc n) (a ∷ b ∷ c ∷ d ∷ rest) e =
    ap suc (length-chunk_words n rest (omega arith))
length-chunk_words zero (a ∷ rest) e = absurd (omega arith)
length-chunk_words (suc n) [] e = absurd (omega arith)
length-chunk_words (suc n) (a ∷ []) e = absurd (omega arith)
length-chunk_words (suc n) (a ∷ b ∷ []) e = absurd (omega arith)
length-chunk_words (suc n) (a ∷ b ∷ c ∷ []) e = absurd (omega arith)

length-chunk_halves : (n : ℕ) (row : Bytes) → length row ≡ n * 2 → length (chunk_halves row) ≡ n
unfolding chunk_halves
length-chunk_halves zero [] e = refl
length-chunk_halves (suc n) (a ∷ b ∷ rest) e = ap suc (length-chunk_halves n rest (omega arith))
length-chunk_halves zero (a ∷ rest) e = absurd (omega arith)
length-chunk_halves (suc n) [] e = absurd (omega arith)
length-chunk_halves (suc n) (a ∷ []) e = absurd (omega arith)

length-decode_blocks :
    (f : Floats) (n left : ℕ) (row : Bytes)
    → n * 34 ≤ length row
    → left ≤ n * 32
    → length (decode_blocks f left (chunk_blocks n row)) ≡ left
unfolding decode_blocks chunk_blocks
length-decode_blocks f zero left row p q = omega arith
length-decode_blocks f (suc n) left row p q =
    let block = take 34 row in
    let bytes = take (min left 32) (drop 2 block) in
    let short = length-drop 34 row in
    let rest = length-decode_blocks f n (left - 32) (drop 34 row) (omega arith) (omega arith) in
    let whole : length (drop 2 block) ≡ 32 =
      length-drop 2 block ∙ (let e = length-take 34 row in omega arith) in
    let taken : length bytes ≡ min left 32 = length-take _ (drop 2 block) ∙ (omega arith) in
    let mapped = length-map (λ byte. f.mul (scale_of block) (f.of_i8 byte)) bytes ∙ taken in
    let sum =
      length-append (map (λ byte. f.mul (scale_of block) (f.of_i8 byte)) bytes)
        (decode_blocks f (left - 32) (chunk_blocks n (drop 34 row))) in
    omega arith

length-get_range :
    (l : Bytes) (a b : ℕ) {row : Bytes} → get_range l a b ≡ some row → length row ≡ b - a
unfolding get_range
length-get_range l a b {row} e = elim (Bool-cases (leb a b && leb b (length l))) [
  | inr outside ↦ (let e' = rw outside at e in cc)
  | inl inside ↦
      let same : take (b - a) (drop a l) ≡ row = (let e' = rw inside at e in cc) in
      let counted = length-take (b - a) (drop a l) in
      let behind = length-drop a l in
      let within : b ≤ length l = ground (arith, inside) in
      sym (ap length same) ∙ counted ∙ (omega arith)
]

in_usize-some : (n m : ℕ) → in_usize n ≡ some m → m ≡ n
in_usize-some n m e = ground arith

-- The bytes of a row are as many as its type and its width ask for.
length-row_of :
    (model : GgufModel) (t : BoundTensor) (row_idx row_width : ℕ) (row : Bytes)
    → row_of model t row_idx row_width ≡ some row
    → tensor_row_bytes t.tensor_type row_width ≡ some (length row)
unfolding row_of get_range
length-row_of model t row_idx row_width row e =
    let (bytes, _, e1) =
      and_then-eq-some (and_then (tensor model t.name) (tensor_bytes model)) _ e in
    let (row_bytes, size, e2) = and_then-eq-some (tensor_row_bytes t.tensor_type row_width) _ e1 in
    let (row_start, s, e3) = and_then-eq-some (in_usize (row_idx * row_bytes)) _ e2 in
    let (row_end, s', e4) = and_then-eq-some (in_usize (row_start + row_bytes)) _ e3 in
    let size' = in_usize-some (row_start + row_bytes) row_end s' in
    let counted = length-get_range bytes row_start row_end e4 in size ∙ ap some (omega arith)

length-decode_row :
    (f : Floats) (tensor_type row_width : ℕ) (row : Bytes) (values : List ℕ)
    → tensor_row_bytes tensor_type row_width ≡ some (length row)
    → decode_row f tensor_type row_width row ≡ some values
    → length values ≡ row_width
unfolding decode_row tensor_row_bytes
length-decode_row f tensor_type row_width row values size e = elim (Bool-cases (tensor_type == 0)) [
  | inl words ↦
      let same : chunk_words row ≡ values = (let e' = rw words at e in cc) in
      let whole = in_usize-some (row_width * 4) (length row) (rw words at size) in
      sym (ap length same) ∙ length-chunk_words row_width row whole
  | inr n0 ↦ elim (Bool-cases (tensor_type == 1)) [
    | inl halves ↦
        let same : map f16_to_f32 (chunk_halves row) ≡ values =
          (let e' = rw (n0, halves) at e in cc) in
        let whole = in_usize-some (row_width * 2) (length row) (rw (n0, halves) at size) in
        converted f16_to_f32 same whole
    | inr n1 ↦ elim (Bool-cases (tensor_type == 30)) [
      | inl halves ↦
          let same : map bf16_to_f32 (chunk_halves row) ≡ values =
            (let e' = rw (n0, n1, halves) at e in cc) in
          let whole = in_usize-some (row_width * 2) (length row) (rw (n0, n1, halves) at size) in
          converted bf16_to_f32 same whole
      | inr n30 ↦ elim (Bool-cases (tensor_type == 8)) [
        | inl blocks ↦ blocked (rw (n0, n1, n30, blocks) at size) (rw (n0, n1, n30, blocks) at e)
        | inr n8 ↦ (let e' = rw (n0, n1, n30, n8) at e in cc)
      ]
    ]
  ]
]
  where
    converted :
        (to_f32 : ℕ → ℕ)
        → map to_f32 (chunk_halves row) ≡ values
        → length row ≡ row_width * 2
        → length values ≡ row_width
    converted to_f32 same whole =
        sym (ap length same)
        ∙ length-map to_f32 (chunk_halves row)
        ∙ length-chunk_halves row_width row whole

    blocked :
        and_then (in_usize (row_width + 31)) (λ n. in_usize (n / 32 * 34)) ≡ some (length row)
        → some (decode_blocks f row_width (chunk_blocks (length row / 34) row)) ≡ some values
        → length values ≡ row_width
    blocked size e =
        let (n, e1, e2) = and_then-eq-some (in_usize (row_width + 31)) _ size in
        let sum = in_usize-some (row_width + 31) n e1 in
        let whole = in_usize-some (n / 32 * 34) (length row) e2 in
        let same : decode_blocks f row_width (chunk_blocks (length row / 34) row) ≡ values = cc in
        sym (ap length same)
        ∙ length-decode_blocks f (length row / 34) row_width row (omega arith) (omega arith)

-- A row that is decoded has as many numbers as were asked for, whatever the type of the tensor is.
pub length-decode_tensor_row :
    (f : Floats) (model : GgufModel) (t : BoundTensor) (row_idx row_width : ℕ) (values : List ℕ)
    → decode_tensor_row f model t row_idx row_width ≡ some values
    → length values ≡ row_width
unfolding decode_tensor_row
length-decode_tensor_row f model t row_idx row_width values e =
    let (row, e1, e2) = and_then-eq-some (row_of model t row_idx row_width) _ e in
    let size = length-row_of model t row_idx row_width row e1 in
    length-decode_row f t.tensor_type row_width row values size e2
