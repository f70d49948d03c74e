-- ===== src/Tokenizer/Split.antt =====
-- What the pieces of a text are, and the tokens of its special names.
use ds4_rs.Base.{
  subst, inl, inr, Bool-cases, list_eq, ℕ, ◌≤◌, ◌≡◌, List, [], ◌∷◌, ◌++◌, Option, some, true,
  length, take, arith, All,
}
use ds4_rs.Bytes.{Bytes}
use ds4_rs.Tokenizer.{Vocabulary}
use ds4_rs.Tokenizer.{special_token_at, first_special, specials, is_control_token}

-- The pieces, one behind the other.
unfoldable pub flatten : List (List Bytes) → List Bytes
flatten [] = []
flatten (piece ∷ rest) = piece ++ flatten rest

same_pair : {a b : ℕ × ℕ} → ◌≡◌ {A = Option (ℕ × ℕ)} (some a) (some b) → a ≡ b
same_pair e = cc

first_special-holds :
    (P : ℕ → ℕ → Type 0) (text : Bytes) (names : List (Bytes × ℕ)) (token len : ℕ)
    → All (λ row. P row.1 (length row.0)) names
    → first_special text names ≡ some (token, len)
    → P token len
unfolding first_special
first_special-holds P text [] token len h e = cc
first_special-holds P text ((name, id) ∷ rest) token len h e =
    elim (Bool-cases (list_eq (take (length name) text) name)) [
      | inl here ↦
          let pair : ◌≡◌ {A = ℕ × ℕ} (id, length name) (token, len) = same_pair (rw here at e) in
          subst (λ r. P r.0 r.1) pair h.0
      | inr elsewhere ↦ first_special-holds P text rest token len h.1 (rw elsewhere at e)
    ]

-- A special token that is found in a text is a control token, and its name is not empty.
pub special_token_at-is_control_token :
    (vocab : Vocabulary) (text : Bytes) (token len : ℕ)
    → special_token_at vocab text ≡ some (token, len)
    → (is_control_token vocab token ≡ true) × (1 ≤ len)
unfolding special_token_at is_control_token specials
special_token_at-is_control_token vocab text token len e =
    first_special-holds (λ t n. (is_control_token vocab t ≡ true) × (1 ≤ n)) text (specials vocab)
      token len
      (
        (ground arith, omega arith),
        (
          (ground arith, omega arith),
          (
            (ground arith, omega arith),
            (
              (ground arith, omega arith),
              (
                (ground arith, omega arith),
                ((ground arith, omega arith), ((ground arith, omega arith), tt)),
              ),
            ),
          ),
        ),
      )
      e
