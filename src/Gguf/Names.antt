-- ===== src/Gguf/Names.antt =====
-- How the tensors of a model are found by name.
use ds4_rs.Base.{
  ℕ, zero, suc, ◌≡◌, refl, ap, sym, ◌∙◌, subst, List, [], ◌∷◌, ◌++◌, some, false, length, All,
  get_elem?, list_eq, list_eq_sound, list_eq_refl, Bool-cases, inl, inr, ◌==◌, leb, ◌||◌, ◌&&◌, ◌-◌,
}
use ds4_rs.Bytes.{Bytes, IsByte}
use ds4_rs.Error.{ok, >>=-eq-ok, ok-value, require, checked_add}
use ds4_rs.Gguf.Alignment.{Yields, Yields-bind, Yields-ok}
use ds4_rs.Gguf.Placed.{load_model-IsLoaded}
use ds4_rs.Gguf.Load.{load_model}
use ds4_rs.Gguf.Sizes.{and_then-eq-some}
use ds4_rs.Gguf.Tensors.{
  GgufTensor, GgufModel, TensorTable, read_tensor, read_tensors, align_up, place_tensors,
  parse_tensors, tensor,
}
use ds4_rs.Maps.{lookup, insert, lookup-insert}

-- The index leads from a name to a tensor of that name, and knows every name.
pub record IsIndex (names : List Bytes) (by_name : List (Bytes × ℕ)) : Type 0 where
  pub sound : (n : Bytes) (i : ℕ) → lookup n by_name ≡ some i → get_elem? names i ≡ some n
  pub complete :
      (n : Bytes) (i : ℕ) → get_elem? names i ≡ some n → (j : ℕ) × (lookup n by_name ≡ some j)

get_elem?-append_last :
    (names : List Bytes) (n : Bytes) → get_elem? (names ++ (n ∷ [])) (length names) ≡ some n
get_elem?-append_last [] n = refl
get_elem?-append_last (x ∷ names) n = get_elem?-append_last names n

get_elem?-append_left :
    (names : List Bytes) (n x : Bytes) (i : ℕ)
    → get_elem? names i ≡ some x
    → get_elem? (names ++ (n ∷ [])) i ≡ some x
get_elem?-append_left [] n x i e = cc
get_elem?-append_left (y ∷ names) n x zero e = e
get_elem?-append_left (y ∷ names) n x (suc i) e = get_elem?-append_left names n x i e

-- What stands in a list with one name more stood there before, or is that name.
get_elem?-append_inv :
    (names : List Bytes) (n x : Bytes) (i : ℕ)
    → list_eq n x ≡ false
    → get_elem? (names ++ (n ∷ [])) i ≡ some x
    → get_elem? names i ≡ some x
get_elem?-append_inv [] n x zero apart e = cc (e, apart, list_eq_refl n)
get_elem?-append_inv [] n x (suc i) apart e = cc
get_elem?-append_inv (y ∷ names) n x zero apart e = e
get_elem?-append_inv (y ∷ names) n x (suc i) apart e = get_elem?-append_inv names n x i apart e

insert_sound :
    (names : List Bytes) (by_name : List (Bytes × ℕ)) (n : Bytes)
    → IsIndex names by_name
    → (x : Bytes) (i : ℕ) → lookup x (insert n (length names) by_name) ≡ some i
    → get_elem? (names ++ (n ∷ [])) i ≡ some x
insert_sound names by_name n h x i e = elim (Bool-cases (list_eq n x)) [
  | inl same ↦
      let found : some (length names) ≡ some i =
        rw same at (sym (lookup-insert n x (length names) by_name) ∙ e) in
      cc (found, list_eq_sound n x same, get_elem?-append_last names n)
  | inr apart ↦
      let found : lookup x by_name ≡ some i =
        rw apart at (sym (lookup-insert n x (length names) by_name) ∙ e) in
      get_elem?-append_left names n x i (h.sound x i found)
]

insert_complete :
    (names : List Bytes) (by_name : List (Bytes × ℕ)) (n : Bytes)
    → IsIndex names by_name
    → (x : Bytes) (i : ℕ) → get_elem? (names ++ (n ∷ [])) i ≡ some x
    → (j : ℕ) × (lookup x (insert n (length names) by_name) ≡ some j)
insert_complete names by_name n h x i e = elim (Bool-cases (list_eq n x)) [
  | inl same ↦ (length names, lookup-insert n x (length names) by_name ∙ rw same refl)
  | inr apart ↦
      let (j, found) = h.complete x i (get_elem?-append_inv names n x i apart e) in
      (j, lookup-insert n x (length names) by_name ∙ rw apart found)
]

IsIndex-insert :
    (names : List Bytes) (by_name : List (Bytes × ℕ)) (n : Bytes)
    → IsIndex names by_name
    → IsIndex (names ++ (n ∷ [])) (insert n (length names) by_name)
IsIndex-insert names by_name n h = record {
  sound = insert_sound names by_name n h;
  complete = insert_complete names by_name n h;
}

abbrev names_of : List GgufTensor → List Bytes
names_of [] = []
names_of (t ∷ ts) = t.name ∷ names_of ts

length-names_of : (ts : List GgufTensor) → length (names_of ts) ≡ length ts
length-names_of [] = refl
length-names_of (t ∷ ts) = ap suc (length-names_of ts)

names_of-push :
    (ts : List GgufTensor) (t : GgufTensor)
    → names_of (ts ++ (t ∷ [])) ≡ names_of ts ++ (t.name ∷ [])
names_of-push [] t = refl
names_of-push (x ∷ ts) t = ap (λ ns. x.name ∷ ns) (names_of-push ts t)

-- A table of tensors with its index.
abbrev IsTable : TensorTable → Type 0
IsTable table = IsIndex (names_of table.0) table.1

push-IsTable :
    (ts : List GgufTensor) (by_name : List (Bytes × ℕ)) (t : GgufTensor)
    → IsTable (ts, by_name)
    → IsTable (ts ++ (t ∷ []), insert t.name (length ts) by_name)
push-IsTable ts by_name t h =
    rw (names_of-push ts t, sym (length-names_of ts))
      (IsIndex-insert (names_of ts) by_name t.name h)

read_tensors-IsTable :
    (file : Bytes) (n : ℕ) (table : TensorTable) (pos : ℕ)
    → IsTable table
    → Yields IsTable (read_tensors file n table pos)
unfolding read_tensors
read_tensors-IsTable file zero table pos h = Yields-ok IsTable table pos h
read_tensors-IsTable file (suc n) table pos h =
    Yields-bind IsTable (read_tensor file pos) _
      λ t p _. read_tensors-IsTable file n _ p (push-IsTable table.0 table.1 t h)

names_of-place_tensors :
    (size data_pos : ℕ) (ts placed : List GgufTensor)
    → place_tensors size data_pos ts ≡ ok placed
    → names_of placed ≡ names_of ts
unfolding place_tensors
names_of-place_tensors size data_pos [] placed e = sym (ap names_of (ok-value e))
names_of-place_tensors size data_pos (t ∷ ts) placed e =
    let (offset, e1, e2) =
      >>=-eq-ok (checked_add data_pos t.rel_offset "tensor offset overflow") _ e in
    let (u, e3, e4) =
      >>=-eq-ok
        (require (t.bytes == 0 || (leb offset size && leb t.bytes (size - offset)))
          "tensor points outside GGUF file")
        _ e2 in
    let (rest, e5, e6) = >>=-eq-ok (place_tensors size data_pos ts) _ e4 in
    sym (ap names_of (ok-value e6))
    ∙ ap (λ ns. t.name ∷ ns) (names_of-place_tensors size data_pos ts rest e5)

IsIndex-empty : IsIndex [] []
unfolding lookup
IsIndex-empty = record { sound = λ n i e. cc; complete = λ n i e. cc }

parse_tensors-IsIndex :
    (file : Bytes) (model parsed : GgufModel) (pos : ℕ)
    → parse_tensors file model pos ≡ ok parsed
    → IsIndex (names_of parsed.tensors) parsed.tensors_by_name
unfolding parse_tensors
parse_tensors-IsIndex file model parsed pos e =
    let (read, e0, e1) = >>=-eq-ok (read_tensors file model.n_tensors ([], []) pos) _ e in
    let (data_pos, _, e2) = >>=-eq-ok (align_up read.1 model.alignment) _ e1 in
    let (placed, f3, e3) = >>=-eq-ok (place_tensors model.file_size data_pos read.0.0) _ e2 in
    let table : IsTable read.0 =
      (read_tensors-IsTable file model.n_tensors ([], []) pos IsIndex-empty).holds read.0 read.1
        e0 in
    subst (λ m. IsIndex (names_of m.tensors) m.tensors_by_name) (ok-value e3)
      (subst (λ ns. IsIndex ns read.0.1)
        (sym (names_of-place_tensors model.file_size data_pos read.0.0 placed f3)) table)

get_elem?-names_of :
    (ts : List GgufTensor) (i : ℕ) (t : GgufTensor)
    → get_elem? ts i ≡ some t
    → get_elem? (names_of ts) i ≡ some t.name
get_elem?-names_of [] i t e = cc
get_elem?-names_of (x ∷ ts) zero t e = cc
get_elem?-names_of (x ∷ ts) (suc i) t e = get_elem?-names_of ts i t e

get_elem?-of_name :
    (ts : List GgufTensor) (i : ℕ) (n : Bytes)
    → get_elem? (names_of ts) i ≡ some n
    → (t : GgufTensor) × (get_elem? ts i ≡ some t)
get_elem?-of_name [] i n e = cc
get_elem?-of_name (x ∷ ts) zero n e = (x, refl)
get_elem?-of_name (x ∷ ts) (suc i) n e = get_elem?-of_name ts i n e

tensor_sound :
    (m : GgufModel) (name : Bytes) (t : GgufTensor)
    → IsIndex (names_of m.tensors) m.tensors_by_name
    → tensor m name ≡ some t
    → t.name ≡ name
unfolding tensor
tensor_sound m name t h e =
    let (i, e1, e2) = and_then-eq-some (lookup name m.tensors_by_name) (get_elem? m.tensors) e in
    cc (h.sound name i e1, get_elem?-names_of m.tensors i t e2)

tensor_complete :
    (m : GgufModel) (i : ℕ) (t : GgufTensor)
    → IsIndex (names_of m.tensors) m.tensors_by_name
    → get_elem? m.tensors i ≡ some t
    → (found : GgufTensor) × (tensor m t.name ≡ some found)
unfolding tensor
tensor_complete m i t h e =
    let (j, found) = h.complete t.name i (get_elem?-names_of m.tensors i t e) in
    let (x, at) = get_elem?-of_name m.tensors j t.name (h.sound t.name j found) in (x, rw found at)

load_model-IsIndex :
    (path file : Bytes) (m : GgufModel)
    → All IsByte file
    → load_model path file ≡ ok m
    → IsIndex (names_of m.tensors) m.tensors_by_name
load_model-IsIndex path file m bytes e =
    let loaded = load_model-IsLoaded path file m bytes e in
    subst (λ k. IsIndex (names_of k.tensors) k.tensors_by_name) loaded.result
      (parse_tensors-IsIndex file loaded.model loaded.parsed loaded.pos loaded.parses)

-- In a model loaded from a file of bytes, looking for the name of any of its tensors finds a tensor
-- of that name.
pub tensor-load_model :
    (path file : Bytes) (m : GgufModel) (i : ℕ) (t : GgufTensor)
    → All IsByte file
    → load_model path file ≡ ok m
    → get_elem? m.tensors i ≡ some t
    → (found : GgufTensor) × (tensor m t.name ≡ some found) × (found.name ≡ t.name)
tensor-load_model path file m i t bytes e at =
    let h = load_model-IsIndex path file m bytes e in
    let (found, named) = tensor_complete m i t h at in
    (found, named, tensor_sound m t.name found h named)
