-- ===== src/Chunking/Tests.antt =====
-- The theorems on src/gossipmemo/chunking.py at concrete values.
use gossip_memo.Base.{
  ℕ, ◌+◌, ◌≤◌, ◌≡◌, ◌⊎◌, ◌↔◌, refl, Bool, true, false, none, some, List, [], ◌∷◌, leb, arith,
  length, concat, All, if◌then◌else◌,
}
use gossip_memo.Base.Results.{Result, ok, err}
use gossip_memo.Chunking.{
  narrowing, bisect_range, bisect, slices, ItemType, split_oversized, greedy_chunks,
}
use gossip_memo.Chunking.Bisect.{bisect_boundary, bisect-largest}
use gossip_memo.Chunking.Pieces.{IsPieces, split_oversized-IsPieces, texts}
use gossip_memo.Chunking.Greedy.{
  IsChecked, split_all, greedy_chunks-pieces, texts-greedy_chunks, greedy_chunks_total,
}
use gossip_memo.Chunking.Rounds.{
  ReductionError, reduce_until_fits, Shrinks, reduce_until_fits_exact,
}

-- Items that are texts, and requests of at most three characters.
abbrev text_items : ItemType (List ℕ) ℕ
text_items = record { content = λ t. some t; with_content = λ _ t. t }

abbrev fits_three : List (List ℕ) → Bool
fits_three chunk = leb (length (concat chunk)) 3

abbrev check_three : List (List ℕ) → Result ℕ (Unit {0})
check_three chunk = if fits_three chunk then ok tt else err 413

abbrev evidence : List (List ℕ)
evidence = (1 ∷ 2 ∷ []) ∷ (3 ∷ 4 ∷ 5 ∷ 6 ∷ []) ∷ (7 ∷ []) ∷ []

abbrev packed_evidence : List (List (List ℕ))
packed_evidence = ((1 ∷ 2 ∷ []) ∷ []) ∷ ((3 ∷ 4 ∷ 5 ∷ []) ∷ []) ∷ ((6 ∷ []) ∷ (7 ∷ []) ∷ []) ∷ []

evidence_packs : greedy_chunks text_items fits_three 400 check_three evidence ≡ ok packed_evidence
unfolding greedy_chunks bisect slices
evidence_packs = refl

greedy_chunks-pieces_example :
    All (IsChecked fits_three check_three) packed_evidence
    × ((ps : List (List ℕ)) × (split_all text_items fits_three 400 check_three evidence ≡ ok ps)
        × (concat packed_evidence ≡ ps))
greedy_chunks-pieces_example =
    greedy_chunks-pieces text_items fits_three 400 check_three evidence evidence_packs

texts-greedy_chunks_example : texts text_items (concat packed_evidence) ≡ texts text_items evidence
texts-greedy_chunks_example =
    texts-greedy_chunks text_items fits_three 400 check_three (λ item t. refl) evidence
      evidence_packs

accepts_three : (c : List (List ℕ)) → fits_three c ≡ true → check_three c ≡ ok tt
accepts_three c h = rw h refl

greedy_chunks_total_example :
    (chunks : List (List (List ℕ))) × (greedy_chunks text_items fits_three 400 check_three
        ((1 ∷ 2 ∷ []) ∷ (3 ∷ 4 ∷ []) ∷ [])
      ≡ ok chunks)
    × (concat chunks ≡ (1 ∷ 2 ∷ []) ∷ (3 ∷ 4 ∷ []) ∷ [])
greedy_chunks_total_example =
    greedy_chunks_total text_items fits_three 400 check_three accepts_three
      ((1 ∷ 2 ∷ []) ∷ (3 ∷ 4 ∷ []) ∷ []) (refl, (refl, tt))

split_oversized-IsPieces_example :
    IsPieces text_items fits_three {E = ℕ} 400
      (3 ∷ 4 ∷ 5 ∷ 6 ∷ [])
      (split_oversized text_items fits_three 400 (3 ∷ 4 ∷ 5 ∷ 6 ∷ []))
split_oversized-IsPieces_example =
    split_oversized-IsPieces text_items fits_three {E = ℕ} 400 (3 ∷ 4 ∷ 5 ∷ 6 ∷ [])

abbrev at_most_six : ℕ → Bool
at_most_six n = leb n 6

bisect_boundary_example :
    (narrowing (bisect_range at_most_six 1 10) ≡ false)
    × (1 ≤ bisect at_most_six 1 10)
    × (bisect at_most_six 1 10 ≤ 10)
    × ((bisect at_most_six 1 10 ≡ 1) ⊎ (at_most_six (bisect at_most_six 1 10) ≡ true))
    × ((bisect at_most_six 1 10 ≡ 10) ⊎ (at_most_six (bisect at_most_six 1 10 + 1) ≡ false))
bisect_boundary_example = bisect_boundary at_most_six 1 10 (omega arith)

at_most_six_mono : (m n : ℕ) → m ≤ n → at_most_six n ≡ true → at_most_six m ≡ true
at_most_six_mono m n h f = ground arith

bisect-largest_example :
    (at_most_six (bisect at_most_six 1 10) ≡ true) × (5 ≤ bisect at_most_six 1 10)
bisect-largest_example =
    bisect-largest at_most_six 1 10 at_most_six_mono (omega arith) refl 5 (omega arith) refl

-- Each round drops an element.
abbrev drop_one : ℕ → List ℕ → Result (ReductionError ℕ) (List ℕ)
drop_one round [] = ok []
drop_one round (x ∷ xs) = ok xs

reduce_until_fits_exact_example :
    (reduce_until_fits drop_one (λ l. leb (length l) 1) length 3 (1 ∷ 2 ∷ 3 ∷ []) ≡ ok (3 ∷ [])) ↔ (
      (used : ℕ) × (used ≤ 3)
      × Shrinks drop_one (λ l. leb (length l) 1) length 0 none (1 ∷ 2 ∷ 3 ∷ []) used (3 ∷ []))
reduce_until_fits_exact_example =
    reduce_until_fits_exact drop_one (λ l. leb (length l) 1) length 3 (1 ∷ 2 ∷ 3 ∷ []) (3 ∷ [])
