-- ===== src/Server/Rewritten.antt =====
-- Where `rewrite_prompt_with_tool_replay` puts the block.
use ds4_rs.Base.{
  ◌≡◌, refl, ◌∙◌, ap, List, [], ◌∷◌, ◌++◌, Bool, true, false, not, ◌&&◌, ◌||◌, if◌then◌else◌, All,
  Bool-cases, inl, inr, arith,
}
use ds4_rs.Bytes.{Bytes}
use ds4_rs.Server.Replay.{
  is_call, is_result, rewrite_lines, is_rewritten, rewrite_prompt_with_tool_replay, IsQuiet,
}
use ds4_rs.Text.{lines, join, filter}

-- The line is not the call.
abbrev pub other_line : Bytes → Bytes → Bool
other_line id line = not (is_call id line)

module _ (id block : Bytes) where
  call_step :
      (replaced inserted : Bool) (line : Bytes) (rest : List Bytes)
      → is_call id line ≡ true
      → rewrite_lines id block replaced inserted (line ∷ rest) ≡ (
          if not replaced
          then block ∷ rewrite_lines id block true inserted rest
          else rewrite_lines id block true inserted rest)
  unfolding rewrite_lines
  call_step replaced inserted line rest e = rw (e, rewrite_lines) refl

  result_step :
      (replaced inserted : Bool) (line : Bytes) (rest : List Bytes)
      → is_call id line ≡ false
      → (is_result id line && (not replaced && not inserted)) ≡ true
      → rewrite_lines id block replaced inserted (line ∷ rest)
        ≡ block ∷ line ∷ rewrite_lines id block replaced true rest
  unfolding rewrite_lines
  result_step replaced inserted line rest e f = rw (e, f, rewrite_lines) refl

  kept_step :
      (replaced inserted : Bool) (line : Bytes) (rest : List Bytes)
      → is_call id line ≡ false
      → (is_result id line && (not replaced && not inserted)) ≡ false
      → rewrite_lines id block replaced inserted (line ∷ rest)
        ≡ line ∷ rewrite_lines id block replaced inserted rest
  unfolding rewrite_lines
  kept_step replaced inserted line rest e f = rw (e, f, rewrite_lines) refl

  and_false : (b : Bool) → (b && false) ≡ false
  and_false true = refl
  and_false false = refl

  -- Behind the block every line is kept but the call.
  rewrite_lines-replaced :
      (inserted : Bool) (ls : List Bytes)
      → rewrite_lines id block true inserted ls ≡ filter (other_line id) ls
  unfolding rewrite_lines
  rewrite_lines-replaced inserted [] = refl
  rewrite_lines-replaced inserted (line ∷ ls) = elim (Bool-cases (is_call id line)) [
    | inl call ↦ call_step true inserted line ls call ∙ rw call (rewrite_lines-replaced inserted ls)
    | inr other ↦
        kept_step true inserted line ls other (and_false (is_result id line))
        ∙ rw other (ap (λ rest. line ∷ rest) (rewrite_lines-replaced inserted ls))
  ]

  rewrite_lines-inserted :
      (mid : List Bytes) (line : Bytes) (after : List Bytes)
      → All (λ l. is_call id l ≡ false) mid
      → is_call id line ≡ true
      → rewrite_lines id block false true (mid ++ (line ∷ after))
        ≡ mid ++ (block ∷ filter (other_line id) after)
  rewrite_lines-inserted [] line after others call =
      call_step false true line after call
      ∙ ap (λ rest. block ∷ rest) (rewrite_lines-replaced true after)
  rewrite_lines-inserted (m ∷ mid) line after others call =
      kept_step false true m (mid ++ (line ∷ after)) others.0 (and_false (is_result id m))
      ∙ ap (λ rest. m ∷ rest) (rewrite_lines-inserted mid line after others.1 call)

  quiet_step :
      (b : Bool) (line : Bytes) → is_result id line ≡ false → (is_result id line && b) ≡ false
  quiet_step b line e = rw e refl

  rewrite_lines-quiet :
      (before rest : List Bytes)
      → All (IsQuiet id) before
      → rewrite_lines id block false false (before ++ rest)
        ≡ before ++ rewrite_lines id block false false rest
  rewrite_lines-quiet [] rest quiet = refl
  rewrite_lines-quiet (l ∷ before) rest quiet =
      kept_step false false l (before ++ rest) quiet.0.0 (quiet_step true l quiet.0.1)
      ∙ ap (λ ls. l ∷ ls) (rewrite_lines-quiet before rest quiet.1)

is_rewritten-append :
    (id : Bytes) (before : List Bytes) (line : Bytes) (after : List Bytes)
    → (is_call id line || is_result id line) ≡ true
    → is_rewritten id (before ++ (line ∷ after)) ≡ true
unfolding is_rewritten
is_rewritten-append id [] line after e = rw e refl
is_rewritten-append id (l ∷ before) line after e =
    ground (arith, is_rewritten-append id before line after)

-- If the first line of a prompt that names the call or starts a result is the line of the call, then
-- that line is replaced by the block, the lines before it stay, and of those behind it all but the
-- further lines of the call.
pub rewrite_prompt_with_tool_replay-call :
    (prompt id block : Bytes) (before : List Bytes) (line : Bytes) (after : List Bytes)
    → lines prompt ≡ before ++ (line ∷ after)
    → All (IsQuiet id) before
    → is_call id line ≡ true
    → rewrite_prompt_with_tool_replay prompt id block
      ≡ join (before ++ (block ∷ filter (other_line id) after)) (10 ∷ [])
unfolding rewrite_prompt_with_tool_replay
rewrite_prompt_with_tool_replay-call prompt id block before line after split quiet call =
    let found : is_rewritten id (before ++ (line ∷ after)) ≡ true =
      is_rewritten-append id before line after (rw call refl) in
    let rewritten =
      rewrite_lines-quiet id block before (line ∷ after) quiet
      ∙ ap (λ ls. before ++ ls)
          (call_step id block false false line after call
            ∙ ap (λ ls. block ∷ ls) (rewrite_lines-replaced id block false after)) in
    rw (split, found) (ap (λ ls. join ls (10 ∷ [])) rewritten)

-- If a result stands before the line of the call, whichever call it is the result of, then the block
-- is put in twice: before that result, and in the place of the line of the call.
pub rewrite_prompt_with_tool_replay-twice :
    (prompt id block : Bytes) (before : List Bytes) (result : Bytes) (mid : List Bytes)
    (line : Bytes) (after : List Bytes)
    → lines prompt ≡ before ++ (result ∷ (mid ++ (line ∷ after)))
    → All (IsQuiet id) before
    → is_call id result ≡ false
    → is_result id result ≡ true
    → All (λ l. is_call id l ≡ false) mid
    → is_call id line ≡ true
    → rewrite_prompt_with_tool_replay prompt id block
      ≡ join
          (before ++ (block ∷ result ∷ (mid ++ (block ∷ filter (other_line id) after))))
          (10 ∷ [])
unfolding rewrite_prompt_with_tool_replay
rewrite_prompt_with_tool_replay-twice prompt id block before result mid line after split quiet other
      shown others call =
    let found : is_rewritten id (before ++ (result ∷ (mid ++ (line ∷ after)))) ≡ true =
      is_rewritten-append id before result (mid ++ (line ∷ after)) (rw (other, shown) refl) in
    let rewritten =
      rewrite_lines-quiet id block before (result ∷ (mid ++ (line ∷ after))) quiet
      ∙ ap (λ ls. before ++ ls)
          (result_step id block false false result (mid ++ (line ∷ after)) other (rw shown refl)
            ∙ ap (λ ls. block ∷ result ∷ ls)
                (rewrite_lines-inserted id block mid line after others call)) in
    rw (split, found) (ap (λ ls. join ls (10 ∷ [])) rewritten)
