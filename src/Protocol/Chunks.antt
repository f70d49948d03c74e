-- ===== src/Protocol/Chunks.antt =====
-- src/protocol/render.rs: `stream_chunks`, which cuts a text for the events of a stream.
use ds4_rs.Base.{
  ℕ, ◌+◌, ◌≤◌, ◌<◌, ◌≡◌, refl, ◌∙◌, sym, ap, List, [], ◌∷◌, ◌++◌, true, false, leb, length, All,
  append_assoc, append-nil, arith, Bool-cases, inl, inr, leb→lt, max, length-append,
}
use ds4_rs.Bytes.{Bytes}
use ds4_rs.Text.{chars, concat, add_byte, is_continuation}

-- The loop, over the characters of the chunk so far.
unfoldable pub chunks_from : ℕ → List Bytes → List Bytes → List (List Bytes)
chunks_from chunk_len chunk [] = elim chunk [ [] ↦ [] | c ∷ cs ↦ (c ∷ cs) ∷ [] ]
chunks_from chunk_len chunk (ch ∷ rest) =
    let grown = chunk ++ (ch ∷ []) in
    elim (leb chunk_len (length grown)) [
      | true ↦ grown ∷ chunks_from chunk_len [] rest
      | false ↦ chunks_from chunk_len grown rest
    ]

abbrev pub concat_each : List (List Bytes) → List Bytes
concat_each [] = []
concat_each (chunk ∷ chunks) = concat chunk ∷ concat_each chunks

abbrev pub or_one_empty : List Bytes → List Bytes
or_one_empty [] = [] ∷ []
or_one_empty (chunk ∷ chunks) = chunk ∷ chunks

unfoldable pub stream_chunks : Bytes → ℕ → List Bytes
unfolding chunks_from chars concat
stream_chunks input chunk_len = or_one_empty (concat_each (chunks_from chunk_len [] (chars input)))

concat-append : (xs ys : List Bytes) → concat (xs ++ ys) ≡ concat xs ++ concat ys
unfolding concat
concat-append [] ys = refl
concat-append (x ∷ xs) ys =
    ap (λ t. x ++ t) (concat-append xs ys) ∙ sym (append_assoc x (concat xs) (concat ys))

concat-add_byte : (b : ℕ) (cs : List Bytes) → concat (add_byte b cs) ≡ b ∷ concat cs
unfolding concat
concat-add_byte b [] = refl
concat-add_byte b (c ∷ cs) = elim (Bool-cases (is_continuation c)) [
  | inl more ↦ rw more refl
  | inr starts ↦ rw starts refl
]

concat-chars : (s : Bytes) → concat (chars s) ≡ s
unfolding chars concat
concat-chars [] = refl
concat-chars (b ∷ s) = concat-add_byte b (chars s) ∙ ap (λ t. b ∷ t) (concat-chars s)

concat-grown :
    (chunk : List Bytes) (ch t : Bytes)
    → concat (chunk ++ (ch ∷ [])) ++ t ≡ concat chunk ++ (ch ++ t)
unfolding concat
concat-grown chunk ch t =
    rw (concat-append chunk (ch ∷ []), append-nil ch) (append_assoc (concat chunk) ch t)

chunks_from-cut :
    (n : ℕ) (chunk : List Bytes) (ch : Bytes) (rest : List Bytes)
    → leb n (length (chunk ++ (ch ∷ []))) ≡ true
    → chunks_from n chunk (ch ∷ rest) ≡ (chunk ++ (ch ∷ [])) ∷ chunks_from n [] rest
unfolding chunks_from
chunks_from-cut n chunk ch rest e = rw (e, chunks_from) refl

chunks_from-grow :
    (n : ℕ) (chunk : List Bytes) (ch : Bytes) (rest : List Bytes)
    → leb n (length (chunk ++ (ch ∷ []))) ≡ false
    → chunks_from n chunk (ch ∷ rest) ≡ chunks_from n (chunk ++ (ch ∷ [])) rest
unfolding chunks_from
chunks_from-grow n chunk ch rest e = rw (e, chunks_from) refl

concat-chunks_from :
    (n : ℕ) (cs chunk : List Bytes)
    → concat (concat_each (chunks_from n chunk cs)) ≡ concat chunk ++ concat cs
unfolding chunks_from concat
concat-chunks_from n [] [] = refl
concat-chunks_from n [] (c ∷ chunk) = refl
concat-chunks_from n (ch ∷ rest) chunk = elim (Bool-cases (leb n (length (chunk ++ (ch ∷ []))))) [
  | inl full ↦
      rw (chunks_from-cut n chunk ch rest full, concat-chunks_from n rest [])
        (concat-grown chunk ch (concat rest))
  | inr open_chunk ↦
      rw
        (
          chunks_from-grow n chunk ch rest open_chunk,
          concat-chunks_from n rest (chunk ++ (ch ∷ [])),
        )
        (concat-grown chunk ch (concat rest))
]

concat-or_one_empty : (chunks : List Bytes) → concat (or_one_empty chunks) ≡ concat chunks
unfolding concat
concat-or_one_empty [] = refl
concat-or_one_empty (chunk ∷ chunks) = refl

-- The number of characters of a chunk.
abbrev pub IsChunk : ℕ → List Bytes → Type 0
IsChunk n chunk = (0 < length chunk) × (length chunk ≤ max n 1)

chunks_from-IsChunk :
    (n : ℕ) (cs chunk : List Bytes)
    → length chunk < max n 1
    → All (IsChunk n) (chunks_from n chunk cs)
unfolding chunks_from
chunks_from-IsChunk n [] [] short = tt
chunks_from-IsChunk n [] (c ∷ chunk) short = ((omega arith, omega (arith, short)), tt)
chunks_from-IsChunk n (ch ∷ rest) chunk short =
    let grown : length (chunk ++ (ch ∷ [])) ≡ length chunk + 1 = length-append chunk (ch ∷ []) in
    elim (Bool-cases (leb n (length (chunk ++ (ch ∷ []))))) [
      | inl full ↦ rw (chunks_from-cut n chunk ch rest full) (
        (omega (arith, grown), omega (arith, grown, short)),
        chunks_from-IsChunk n rest [] (omega arith),
      )
      | inr open_chunk ↦
          let under : length (chunk ++ (ch ∷ [])) < n = leb→lt _ _ open_chunk in
          rw (chunks_from-grow n chunk ch rest open_chunk)
            (chunks_from-IsChunk n rest (chunk ++ (ch ∷ [])) (omega (arith, under)))
    ]

-- The chunks of a text, one behind the other, are the text. The runs of characters that they are
-- made of are not empty, and have at most as many characters as were asked for, or one.
pub stream_chunks-IsChunk :
    (input : Bytes) (chunk_len : ℕ)
    → (concat (stream_chunks input chunk_len) ≡ input)
      × (stream_chunks input chunk_len
          ≡ or_one_empty (concat_each (chunks_from chunk_len [] (chars input))))
      × All (IsChunk chunk_len) (chunks_from chunk_len [] (chars input))
unfolding stream_chunks concat
stream_chunks-IsChunk input n = (
  concat-or_one_empty (concat_each (chunks_from n [] (chars input)))
      ∙ (concat-chunks_from n (chars input) [] ∙ concat-chars input),
  refl,
  chunks_from-IsChunk n (chars input) [] (omega arith),
)
