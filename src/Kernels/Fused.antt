-- ===== src/Kernels/Fused.antt =====
-- src/kernels/matmul.rs: the product of a row with an input, next to the numbers of the row.
use ds4_rs.Base.{
  ℕ, zero, suc, ◌-◌, ◌*◌, ◌/◌, ◌≤◌, List, [], ◌∷◌, ◌++◌, none, some, Bool, true, false, ◌==◌,
  if◌then◌else◌, length, take, drop, min, map, ◌≡◌, refl, sym, ap, ◌∙◌, arith, length-take,
  length-drop, length-map, drop-nil,
}
use ds4_rs.Bytes.{Bytes}
use ds4_rs.Gguf.Tensors.{GgufModel, and_then}
use ds4_rs.Kernels.{Floats}
use ds4_rs.Kernels.Rows.{
  bf16_to_f32, f16_to_f32, chunk_halves, chunk_blocks, scale_of, row_of, decode_blocks, decode_row,
  decode_tensor_row, dot_words, dot_halves, dot_bytes, dot_blocks, dot_row, dot_tensor_row,
}
use ds4_rs.Weights.Tensors.{BoundTensor}
use mathlib.Core.Option.{Option}

drop-min : (n : ℕ) (xs : List ℕ) → drop (min (length xs) n) xs ≡ drop n xs
drop-min zero [] = refl
drop-min zero (x ∷ xs) =
    let e : min (suc (length xs)) 0 ≡ 0 = omega arith in ap (λ k. drop k (x ∷ xs)) e
drop-min (suc n) [] = drop-nil (min 0 (suc n))
drop-min (suc n) (x ∷ xs) =
    let e : min (suc (length xs)) (suc n) ≡ suc (min (length xs) n) = omega arith in
    ap (λ k. drop k (x ∷ xs)) e ∙ drop-min n xs

module _ (f : Floats) where
  dot_words-nil : (acc : ℕ) (values : List ℕ) → dot_words f acc values [] ≡ acc
  unfolding dot_words
  dot_words-nil acc [] = refl
  dot_words-nil acc (value ∷ values) = refl

  dot_words-append :
      (acc : ℕ) (values rest input : List ℕ)
      → dot_words f acc (values ++ rest) input
        ≡ dot_words f (dot_words f acc values input) rest (drop (length values) input)
  unfolding dot_words
  dot_words-append acc [] rest input = refl
  dot_words-append acc (value ∷ values) rest [] = sym (dot_words-nil acc rest)
  dot_words-append acc (value ∷ values) rest (x ∷ xs) =
      dot_words-append (f.add acc (f.mul value x)) values rest xs

  dot_halves-map :
      (to_f32 : ℕ → ℕ) (acc : ℕ) (halves input : List ℕ)
      → dot_halves f to_f32 acc halves input ≡ dot_words f acc (map to_f32 halves) input
  unfolding dot_words dot_halves
  dot_halves-map to_f32 acc [] input = refl
  dot_halves-map to_f32 acc (half ∷ halves) [] = refl
  dot_halves-map to_f32 acc (half ∷ halves) (x ∷ xs) =
      dot_halves-map to_f32 (f.add acc (f.mul (to_f32 half) x)) halves xs

  dot_bytes-map :
      (scale acc : ℕ) (bytes : Bytes) (input : List ℕ)
      → dot_bytes f scale acc bytes input
        ≡ dot_words f acc (map (λ byte. f.mul scale (f.of_i8 byte)) bytes) input
  unfolding dot_words dot_bytes
  dot_bytes-map scale acc [] input = refl
  dot_bytes-map scale acc (byte ∷ bytes) [] = refl
  dot_bytes-map scale acc (byte ∷ bytes) (x ∷ xs) =
      dot_bytes-map scale (f.add acc (f.mul (f.mul scale (f.of_i8 byte)) x)) bytes xs

  -- A block of 34 bytes has the 32 numbers that the next block of the input leaves out.
  dot_blocks-decode :
      (n acc : ℕ) (row : Bytes) (input : List ℕ)
      → n * 34 ≤ length row
      → dot_blocks f acc (chunk_blocks n row) input
        ≡ dot_words f acc (decode_blocks f (length input) (chunk_blocks n row)) input
  unfolding dot_blocks decode_blocks dot_words chunk_blocks
  dot_blocks-decode zero acc row input p = refl
  dot_blocks-decode (suc n) acc row input p =
      let block = take 34 row in
      let bytes = take (min (length input) 32) (drop 2 block) in
      let numbers = map (λ byte. f.mul (scale_of block) (f.of_i8 byte)) bytes in
      let rest = decode_blocks f (length input - 32) (chunk_blocks n (drop 34 row)) in
      let size : length numbers ≡ min (length input) 32 =
        length-map _ bytes
        ∙ length-take _ (drop 2 block)
        ∙ (let e : length (drop 2 block) ≡ 32 =
              length-drop 2 block ∙ (let e' = length-take 34 row in omega arith) in
            omega arith) in
      let left : drop (length numbers) input ≡ drop 32 input =
        ap (λ k. drop k input) size ∙ drop-min 32 input in
      ap (λ a. dot_blocks f a (chunk_blocks n (drop 34 row)) (drop 32 input))
        (dot_bytes-map (scale_of block) acc bytes input)
      ∙ dot_blocks-decode n (dot_words f acc numbers input) (drop 34 row) (drop 32 input)
          (let e = length-drop 34 row in omega arith)
      ∙ ap
          (λ k.
            dot_words f (dot_words f acc numbers input)
              (decode_blocks f k (chunk_blocks n (drop 34 row))) (drop 32 input))
          (length-drop 32 input)
      ∙ ap (dot_words f (dot_words f acc numbers input) rest) (sym left)
      ∙ sym (dot_words-append acc numbers rest input)

  -- The product by the decoded numbers.
  abbrev pub by_numbers : Option (List ℕ) → List ℕ → Option ℕ
  by_numbers numbers input = and_then numbers (λ values. some (dot_words f 0 values input))

  dot_row-decode :
      (tensor_type : ℕ) (row : Bytes) (input : List ℕ)
      → dot_row f tensor_type input row
        ≡ by_numbers (decode_row f tensor_type (length input) row) input
  unfolding dot_row decode_row
  dot_row-decode tensor_type row input = branches (tensor_type == 0) _ _ refl (
      branches (tensor_type == 1) _ _
        (ap some (dot_halves-map f16_to_f32 0 (chunk_halves row) input))
        (branches (tensor_type == 30) _ _
          (ap some (dot_halves-map bf16_to_f32 0 (chunk_halves row) input))
          (branches (tensor_type == 8) _ _
            (ap some (dot_blocks-decode (length row / 34) 0 row input (omega arith))) refl)))
    where
      branches :
          {a r : Option ℕ} (test : Bool) (a' r' : Option (List ℕ))
          → a ≡ by_numbers a' input
          → r ≡ by_numbers r' input
          → (if test then a else r) ≡ by_numbers (if test then a' else r') input
      branches true a' r' p q = p
      branches false a' r' p q = q

  -- The product of a row with an input is the one by the numbers that the row decodes to, added up in
  -- order, whatever the type of the tensor is, and it fails where decoding fails.
  pub dot_tensor_row-decode :
      (model : GgufModel) (t : BoundTensor) (row_idx : ℕ) (input : List ℕ)
      → dot_tensor_row f model t row_idx input
        ≡ by_numbers (decode_tensor_row f model t row_idx (length input)) input
  unfolding dot_tensor_row decode_tensor_row
  dot_tensor_row-decode model t row_idx input = bound (row_of model t row_idx (length input))
    where
      bound :
          (row : Option Bytes)
          → and_then row (dot_row f t.tensor_type input)
            ≡ by_numbers (and_then row (decode_row f t.tensor_type (length input))) input
      bound none = refl
      bound (some row) = dot_row-decode t.tensor_type row input
