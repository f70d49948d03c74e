-- ===== src/Protocol/Advance.antt =====
-- The rounds of `parse_json_object_arguments` (src/protocol/render.rs), and how many of them there
-- are.
use ds4_rs.Base.{
  ℕ, zero, suc, ◌+◌, ◌≤◌, ◌<◌, ◌≡◌, refl, sym, ◌∙◌, List, [], ◌∷◌, ◌++◌, Option, none, some, Bool,
  true, false, ◌==◌, leb, le→leb, ◌⊎◌, length, drop, arith, Bool-cases, inl, inr,
}
use ds4_rs.Bytes.{Bytes}
use ds4_rs.Protocol.Arguments.{
  DsmlArg, Round, returns, goes_on, round, rounds, at_byte, after_value, with_value, with_end,
  with_colon, with_key,
}
use ds4_rs.Protocol.Arguments.Scan.{
  skip_json_ws, parse_json_string_at, string_from, behind_quote, scan_string, find_json_value_end,
  find_matching_delim, matching_from, value_end, plain_len, plus, end_of,
}
use ds4_rs.Text.{chars}

goes_on-value : {n m : ℕ} {a b : DsmlArg} → ◌≡◌ {A = Round} (goes_on n a) (goes_on m b) → n ≡ m
goes_on-value e = cc

skip_json_ws-advances : (input : Bytes) (pos : ℕ) → pos ≤ skip_json_ws input pos
unfolding skip_json_ws
skip_json_ws-advances input pos = omega arith

behind_quote-advances :
    (start : ℕ) (o : Option (Bytes × ℕ)) (key : Bytes) (next : ℕ)
    → behind_quote start o ≡ some (key, next)
    → start < next
behind_quote-advances start none key next e = cc
behind_quote-advances start (some (out, used)) key next e =
    let same : start + 1 + used ≡ next = cc e in omega (arith, same)

string_from-advances :
    (start : ℕ) (s key : Bytes) (next : ℕ) → string_from start s ≡ some (key, next) → start < next
string_from-advances start [] key next e = cc
string_from-advances start (b ∷ s) key next e = elim (Bool-cases (b == 34)) [
  | inr other ↦ absurd (cc (e, other))
  | inl quote ↦ behind_quote-advances start (scan_string false s) key next (rw quote at e)
]

plus-advances : (start : ℕ) (o : Option ℕ) (end : ℕ) → plus start o ≡ some end → start ≤ end
plus-advances start none end e = cc
plus-advances start (some n) end e = ground arith

after_value-advances :
    (input : Bytes) (out : List DsmlArg) (pos next : ℕ) (arg a : DsmlArg)
    → after_value input out pos arg ≡ goes_on next a
    → pos < next
after_value-advances input out pos next arg a e = elim (Bool-cases (at_byte input pos 44)) [
  | inl comma ↦ let same = goes_on-value (rw comma at e) in omega (arith, same)
  | inr other ↦ elim (Bool-cases (at_byte input pos 125)) [
    | inl brace ↦ absurd (cc (e, other, brace))
    | inr neither ↦ absurd (cc (e, other, neither))
  ]
]

end_of-advances :
    (start : ℕ) (o : Option (Bytes × ℕ)) (end : ℕ)
    → ((key : Bytes) (next : ℕ) → o ≡ some (key, next) → start < next)
    → end_of o ≡ some end
    → start ≤ end
end_of-advances start none end later e = cc
end_of-advances start (some (key, next)) end later e =
    let same : next ≡ end = cc e in omega (arith, same, later key next refl)

plus_one-advances :
    (start : ℕ) (o : Option ℕ) (end : ℕ)
    → ((n : ℕ) → o ≡ some n → start ≤ n)
    → plus 1 o ≡ some end
    → start ≤ end
plus_one-advances start none end later e = cc
plus_one-advances start (some n) end later e =
    let same : 1 + n ≡ end = cc e in omega (arith, same, later n refl)

find_matching_delim-advances :
    (input : Bytes) (start opens closes n : ℕ)
    → find_matching_delim input start opens closes ≡ some n
    → start ≤ n
unfolding find_matching_delim
find_matching_delim-advances input start opens closes n e =
    plus-advances start (matching_from opens closes 0 false false (drop start input)) n e

parse_json_string_at-advances :
    (input : Bytes) (start : ℕ) (key : Bytes) (next : ℕ)
    → parse_json_string_at input start ≡ some (key, next)
    → start < next
unfolding parse_json_string_at
parse_json_string_at-advances input start key next e =
    string_from-advances start (drop start input) key next e

value_end-advances :
    (input : Bytes) (start : ℕ) (s : Bytes) (end : ℕ)
    → value_end input start s ≡ some end
    → start ≤ end
value_end-advances input start [] end e = cc
value_end-advances input start (b ∷ s) end e = elim (Bool-cases (b == 34)) [
  | inl quote ↦
      end_of-advances start _ end (parse_json_string_at-advances input start) (rw quote at e)
  | inr q ↦ elim (Bool-cases (b == 123)) [
    | inl brace ↦
        plus_one-advances start _ end (find_matching_delim-advances input start 123 125)
          (rw (q, brace) at e)
    | inr r ↦ elim (Bool-cases (b == 91)) [
      | inl bracket ↦
          plus_one-advances start _ end (find_matching_delim-advances input start 91 93)
            (rw (q, r, bracket) at e)
      | inr other ↦
          let plain : some (start + plain_len (chars (b ∷ s))) ≡ some end = rw (q, r, other) at e in
          let same : start + plain_len (chars (b ∷ s)) ≡ end = cc plain in omega (arith, same)
    ]
  ]
]

with_value-advances :
    (input : Bytes) (out : List DsmlArg) (key : Bytes) (end next : ℕ) (o : Option (Bytes × Bool))
    (a : DsmlArg)
    → with_value input out key end o ≡ goes_on next a
    → end < next
with_value-advances input out key end next none a e = cc
with_value-advances input out key end next (some (value, is_string)) a e =
    omega (arith, after_value-advances input out _ next _ a e, skip_json_ws-advances input end)

with_end-advances :
    (input : Bytes) (out : List DsmlArg) (key : Bytes) (pos next : ℕ) (o : Option ℕ) (a : DsmlArg)
    → ((end : ℕ) → o ≡ some end → pos ≤ end)
    → with_end input out key pos o ≡ goes_on next a
    → pos < next
with_end-advances input out key pos next none a later e = cc
with_end-advances input out key pos next (some end) a later e =
    omega (arith, with_value-advances input out key end next _ a e, later end refl)

with_colon-advances :
    (input : Bytes) (out : List DsmlArg) (key : Bytes) (pos next : ℕ) (a : DsmlArg)
    → with_colon input out key pos ≡ goes_on next a
    → pos < next
unfolding find_json_value_end
with_colon-advances input out key pos next a e = elim (Bool-cases (at_byte input pos 58)) [
  | inr other ↦ absurd (cc (e, other))
  | inl colon ↦
      let start = skip_json_ws input (pos + 1) in
      let after : start < next =
        with_end-advances input out key start next (find_json_value_end input start) a
          (λ end. value_end-advances input start (drop start input) end) (rw colon at e) in
      omega (arith, after, skip_json_ws-advances input (pos + 1))
]

with_key-advances :
    (input : Bytes) (out : List DsmlArg) (pos next : ℕ) (o : Option (Bytes × ℕ)) (a : DsmlArg)
    → ((key : Bytes) (n : ℕ) → o ≡ some (key, n) → pos < n)
    → with_key input out o ≡ goes_on next a
    → pos < next
with_key-advances input out pos next none a later e = cc
with_key-advances input out pos next (some (key, n)) a later e = omega (
  arith,
  with_colon-advances input out key (skip_json_ws input n) next a e,
  skip_json_ws-advances input n,
  later key n refl,
)

round-advances :
    (input : Bytes) (out : List DsmlArg) (start next : ℕ) (a : DsmlArg)
    → round input out start ≡ goes_on next a
    → start < next
unfolding round
round-advances input out start next a e =
    let pos = skip_json_ws input start in
    elim (Bool-cases (at_byte input pos 125)) [
      | inl brace ↦ absurd (cc (e, brace))
      | inr other ↦
          let after : pos < next =
            with_key-advances input out pos next (parse_json_string_at input pos) a
              (parse_json_string_at-advances input pos) (rw other at e) in
          omega (arith, after, skip_json_ws-advances input start)
    ]

Round-cases :
    (r : Round)
    → ((answer : Option (List DsmlArg)) × (r ≡ returns answer))
      ⊎ ((next : ℕ) × (arg : DsmlArg) × (r ≡ goes_on next arg))
Round-cases (returns answer) = inl (answer, refl)
Round-cases (goes_on next arg) = inr (next, arg, refl)

abbrev next_of : ℕ → Bytes → List DsmlArg → Round → Option (List DsmlArg)
next_of fuel input out (returns answer) = answer
next_of fuel input out (goes_on next arg) = rounds fuel input (out ++ (arg ∷ [])) next

next_of-eq :
    (fuel : ℕ) (input : Bytes) (out : List DsmlArg) (r : Round)
    → (elim r [
      | returns answer ↦ answer
      | goes_on next arg ↦ rounds fuel input (out ++ (arg ∷ [])) next
    ])
      ≡ next_of fuel input out r
next_of-eq fuel input out (returns answer) = refl
next_of-eq fuel input out (goes_on next arg) = refl

rounds-suc :
    (fuel : ℕ) (input : Bytes) (out : List DsmlArg) (pos : ℕ)
    → leb (length input) pos ≡ false
    → rounds (suc fuel) input out pos ≡ next_of fuel input out (round input out pos)
unfolding rounds round
rounds-suc fuel input out pos e = rw e (next_of-eq fuel input out (round input out pos))

rounds_end :
    (fuel : ℕ) (input : Bytes) (out : List DsmlArg) (pos : ℕ)
    → leb (length input) pos ≡ true
    → rounds fuel input out pos ≡ none
unfolding rounds
rounds_end zero input out pos e = refl
rounds_end (suc fuel) input out pos e = rw (e, rounds) refl

-- The loop over the arguments of a tool call needs no more rounds than there are bytes behind the
-- position that it starts at: with that fuel, or any more, its answer is the same.
pub rounds-advances :
    (fuel more : ℕ) (input : Bytes) (out : List DsmlArg) (pos : ℕ)
    → length input ≤ fuel + pos
    → rounds (fuel + more) input out pos ≡ rounds fuel input out pos
rounds-advances zero more input out pos enough =
    let past : leb (length input) pos ≡ true = le→leb _ _ (omega (arith, enough)) in
    rounds_end (0 + more) input out pos past ∙ sym (rounds_end 0 input out pos past)
rounds-advances (suc fuel) more input out pos enough = elim (Bool-cases (leb (length input) pos)) [
  | inl past ↦
      rounds_end (suc fuel + more) input out pos past
      ∙ sym (rounds_end (suc fuel) input out pos past)
  | inr inside ↦
      let e : suc fuel + more ≡ suc (fuel + more) = omega arith in
      rw (e, rounds-suc (fuel + more) input out pos inside, rounds-suc fuel input out pos inside)
        (elim (Round-cases (round input out pos)) [
          | inl (answer, done) ↦ rw done refl
          | inr (next, arg, more_to_do) ↦
              let further = round-advances input out pos next arg more_to_do in
              rw more_to_do (
                rounds-advances fuel more input (out ++ (arg ∷ [])) next
                  (omega (arith, further, enough)))
        ])
]
