-- ===== src/Tests/Texts.antt =====
-- src/tokenizer.rs on a small vocabulary.
use ds4_rs.Base.{◌≡◌, refl, List, [], ◌∷◌, some, list_eq}
use ds4_rs.Bytes.{Bytes}
use ds4_rs.Tokenizer.{Vocabulary, special_token_at, first_special, specials}
use ds4_rs.Tokenizer.Bpe.{
  best_pair, merge_symbols, merge_loop, merge_at, best_from, pair_rank, better,
}
use ds4_rs.Tokenizer.Merged.{AreUnranked, spelled, merge_symbols-IsMerged}
use ds4_rs.Maps.{lookup}

-- The pairs `a b` and `ab c` are merged, in this order.
abbrev small_vocabulary : Vocabulary
small_vocabulary = record {
  tokens = [];
  token_to_id = [];
  merges = (97 ∷ 32 ∷ 98 ∷ [], 0) ∷ (97 ∷ 98 ∷ 32 ∷ 99 ∷ [], 1) ∷ [];
  bos_id = 10;
  eos_id = 11;
  user_id = 12;
  assistant_id = 13;
  think_start_id = 14;
  think_end_id = 15;
  dsml_id = 16;
}

abbrev letters : List Bytes
letters = (97 ∷ []) ∷ (98 ∷ []) ∷ (99 ∷ []) ∷ []

merged_letters : merge_symbols small_vocabulary letters ≡ (97 ∷ 98 ∷ 99 ∷ []) ∷ []
unfolding merge_symbols merge_loop merge_at best_pair best_from pair_rank better lookup list_eq
merged_letters = refl

merge_symbols-IsMerged_example :
    (spelled (merge_symbols small_vocabulary letters) ≡ spelled letters)
    × AreUnranked small_vocabulary (merge_symbols small_vocabulary letters)
merge_symbols-IsMerged_example = merge_symbols-IsMerged small_vocabulary letters

-- `<think>a`
abbrev think_text : Bytes
think_text = 60 ∷ 116 ∷ 104 ∷ 105 ∷ 110 ∷ 107 ∷ 62 ∷ 97 ∷ []

think_found : special_token_at small_vocabulary think_text ≡ some (14, 7)
unfolding special_token_at first_special specials list_eq
think_found = refl
