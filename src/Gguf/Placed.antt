-- ===== src/Gguf/Placed.antt =====
-- Where the tensors of a loaded model lie.
use ds4_rs.Base.{
  zero, suc, get_elem?, ℕ, ◌+◌, ◌-◌, ◌^◌, ◌≤◌, ◌<◌, ◌≡◌, ◌≢◌, refl, sym, subst, List, [], ◌∷◌,
  Option, some, true, length, arith, ◌==◌, ltb, leb, ◌||◌, ◌&&◌, All, lt→ltb, le→leb, take, drop,
  length-take, length-drop, not,
}
use ds4_rs.Bytes.{Bytes, IsByte, get_range}
use ds4_rs.Error.{ok, >>=-eq-ok, ok-value, require, checked_add}
use ds4_rs.Error.NoPanic.{require_inv}
use ds4_rs.Gguf.Alignment.{IsFor, read_entries-IsFor}
use ds4_rs.Gguf.Reader.{read_u32, read_u64}
use ds4_rs.Gguf.Load.{load_model, require_else, read_entries, blank_model, gguf_magic}
use ds4_rs.Gguf.Tensors.{
  GgufTensor, GgufModel, read_tensors, align_up, place_tensors, parse_tensors, tensor_bytes,
}

-- A tensor with bytes lies in a file of `size` bytes.
abbrev pub IsInside : ℕ → GgufTensor → Type 0
IsInside size t = t.bytes ≢ 0 → t.abs_offset + t.bytes ≤ size

inside_of_test :
    (bytes offset size : ℕ)
    → (bytes == 0 || (leb offset size && leb bytes (size - offset))) ≡ true
    → bytes ≢ 0
    → offset + bytes ≤ size
inside_of_test bytes offset size h nonzero = ground arith

place_tensors-IsInside :
    (size data_pos : ℕ) (ts placed : List GgufTensor)
    → place_tensors size data_pos ts ≡ ok placed
    → All (IsInside size) placed
unfolding place_tensors
place_tensors-IsInside size data_pos [] placed e = subst (All (IsInside size)) (ok-value e) tt
place_tensors-IsInside size data_pos (t ∷ ts) placed e =
    let (offset, e1, e2) =
      >>=-eq-ok (checked_add data_pos t.rel_offset "tensor offset overflow") _ e in
    let (u, e3, e4) =
      >>=-eq-ok
        (require (t.bytes == 0 || (leb offset size && leb t.bytes (size - offset)))
          "tensor points outside GGUF file")
        _ e2 in
    let (rest, e5, e6) = >>=-eq-ok (place_tensors size data_pos ts) _ e4 in
    subst (All (IsInside size)) (ok-value e6) (
      inside_of_test t.bytes offset size (require_inv _ _ e3),
      place_tensors-IsInside size data_pos ts rest e5,
    )

tensor_bytes-IsInside :
    (m : GgufModel) (t : GgufTensor)
    → length m.file_data < 2 ^ 64
    → IsInside (length m.file_data) t
    → t.bytes ≢ 0
    → (b : Bytes) × (tensor_bytes m t ≡ some b) × (length b ≡ t.bytes)
unfolding tensor_bytes get_range
tensor_bytes-IsInside m t small inside nonzero =
    let fits : t.abs_offset + t.bytes ≤ length m.file_data = inside nonzero in
    let back : t.abs_offset + t.bytes - t.abs_offset ≡ t.bytes = omega arith in
    let rest : Bytes = drop t.abs_offset m.file_data in
    (
      take t.bytes rest,
      rw
          (
            lt→ltb (t.abs_offset + t.bytes) (2 ^ 64) (omega arith),
            le→leb t.abs_offset (t.abs_offset + t.bytes) (omega arith),
            le→leb (t.abs_offset + t.bytes) (length m.file_data) fits,
            back,
          )
          refl,
      omega (arith, length-take t.bytes rest, length-drop t.abs_offset m.file_data),
    )

some-value : {A : Type 0} {a b : A} → ◌≡◌ {A = Option A} (some a) (some b) → a ≡ b
some-value e = cc

All-get_elem? :
    (P : GgufTensor → Type 0) (ts : List GgufTensor) (i : ℕ) (t : GgufTensor)
    → All P ts
    → get_elem? ts i ≡ some t
    → P t
All-get_elem? P [] i t h e = cc
All-get_elem? P (x ∷ ts) zero t h e = subst P (some-value e) h.0
All-get_elem? P (x ∷ ts) (suc i) t h e = All-get_elem? P ts i t h.1 e

-- The parts of a load that succeeds.
pub record IsLoaded (file : Bytes) (m : GgufModel) : Type 0 where
  pub model : GgufModel
  pub pos : ℕ
  pub parsed : GgufModel
  pub for_file : IsFor file model
  pub parses : parse_tensors file model pos ≡ ok parsed
  pub result : record parsed { file_data = file } ≡ m

pub load_model-IsLoaded :
    (path file : Bytes) (m : GgufModel)
    → All IsByte file
    → load_model path file ≡ ok m
    → IsLoaded file m
unfolding load_model
load_model-IsLoaded path file m bytes e =
    let (u1, _, e1) = >>=-eq-ok (require_else (not (ltb (length file) 32)) _) _ e in
    let (magic, _, e2) = >>=-eq-ok (read_u32 file 0) _ e1 in
    let (u2, _, e3) = >>=-eq-ok (require_else (magic.0 == gguf_magic) _) _ e2 in
    let (version, _, e4) = >>=-eq-ok (read_u32 file magic.1) _ e3 in
    let (u3, _, e5) = >>=-eq-ok (require_else (version.0 == 3) _) _ e4 in
    let (n_tensors, _, e6) = >>=-eq-ok (read_u64 file version.1) _ e5 in
    let (n_kv, _, e7) = >>=-eq-ok (read_u64 file n_tensors.1) _ e6 in
    let blank : GgufModel = blank_model version.0 n_tensors.0 n_kv.0 (length file) in
    let (read, f8, e8) = >>=-eq-ok (read_entries file n_kv.0 blank n_kv.1) _ e7 in
    let (parsed, f9, e9) = >>=-eq-ok (parse_tensors file read.0 read.1) _ e8 in
    record {
      model = read.0;
      pos = read.1;
      parsed = parsed;
      for_file =
          (read_entries-IsFor file bytes n_kv.0 blank n_kv.1 (omega arith, refl)).holds read.0
            read.1 f8;
      parses = f9;
      result = ok-value e9;
    }

parse_tensors-IsInside :
    (file : Bytes) (model parsed : GgufModel) (pos : ℕ)
    → parse_tensors file model pos ≡ ok parsed
    → All (IsInside model.file_size) parsed.tensors
unfolding parse_tensors
parse_tensors-IsInside file model parsed pos e =
    let (read, _, e1) = >>=-eq-ok (read_tensors file model.n_tensors ([], []) pos) _ e in
    let (data_pos, _, e2) = >>=-eq-ok (align_up read.1 model.alignment) _ e1 in
    let (placed, f3, e3) = >>=-eq-ok (place_tensors model.file_size data_pos read.0.0) _ e2 in
    subst (λ m. All (IsInside model.file_size) m.tensors) (ok-value e3)
      (place_tensors-IsInside model.file_size data_pos read.0.0 placed f3)

-- In a model loaded from a file of bytes, of fewer than 2^63, `tensor_bytes` answers every tensor
-- of the model that has bytes with as many bytes as the tensor has.
pub tensor_bytes-load_model :
    (path file : Bytes) (m : GgufModel) (i : ℕ) (t : GgufTensor)
    → All IsByte file
    → length file < 2 ^ 63
    → load_model path file ≡ ok m
    → get_elem? m.tensors i ≡ some t
    → t.bytes ≢ 0
    → (b : Bytes) × (tensor_bytes m t ≡ some b) × (length b ≡ t.bytes)
tensor_bytes-load_model path file m i t bytes small e at nonzero =
    let loaded = load_model-IsLoaded path file m bytes e in
    let all : All (IsInside loaded.model.file_size) loaded.parsed.tensors =
      parse_tensors-IsInside file loaded.model loaded.parsed loaded.pos loaded.parses in
    let in_parsed : get_elem? loaded.parsed.tensors i ≡ some t =
      subst (λ k. get_elem? k.tensors i ≡ some t) (sym loaded.result) at in
    let inside : IsInside (length file) t =
      subst (λ n. IsInside n t) loaded.for_file.1
        (All-get_elem? (IsInside loaded.model.file_size) loaded.parsed.tensors i t all in_parsed) in
    subst (λ k. (b : Bytes) × (tensor_bytes k t ≡ some b) × (length b ≡ t.bytes)) loaded.result
      (tensor_bytes-IsInside (record loaded.parsed { file_data = file }) t (omega (arith, small))
        inside nonzero)
