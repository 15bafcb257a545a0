-- ===== src/Base/Sorting.antt =====
-- Insertion sort, stable, by a Boolean test that one value comes before another.
use gossip_memo.Base.Lists.{All, All-if, length}
use gossip_memo.Base.Tests.{if◌then◌else◌}
use Prim.Native.Nat.{suc}
use mathlib.Core.Path.{◌≡◌, refl, ap, ◌∙◌}
use mathlib.Core.Bool.{Bool}
use mathlib.Core.List.{List, [], ◌∷◌}
use native.Mathlib.Omega.{arith}

module _ {ℓ} {A : Type ℓ} where
  -- Into rows that stand in order
  abbrev pub insert_by : (A → A → Bool) → A → List A → List A
  insert_by before x [] = x ∷ []
  insert_by before x (y ∷ ys) =
      let rest = insert_by before x ys in if before y x then y ∷ rest else x ∷ y ∷ ys

  abbrev pub sort_by : (A → A → Bool) → List A → List A
  sort_by before [] = []
  sort_by before (x ∷ xs) = insert_by before x (sort_by before xs)

  pub insert_by-All {κ} :
      (Q : A → Type κ) (before : A → A → Bool) (x : A) (xs : List A)
      → Q x
      → All Q xs
      → All Q (insert_by before x xs)
  insert_by-All Q before x [] q qs = (q, tt)
  insert_by-All Q before x (y ∷ ys) q qs =
      let rest = insert_by-All Q before x ys q qs.1 in
      All-if Q (before y x) _ _ (qs.0, rest) (q, qs)

  pub sort_by-All {κ} :
      (Q : A → Type κ) (before : A → A → Bool) (xs : List A) → All Q xs → All Q (sort_by before xs)
  sort_by-All Q before [] qs = tt
  sort_by-All Q before (x ∷ xs) qs =
      insert_by-All Q before x (sort_by before xs) qs.0 (sort_by-All Q before xs qs.1)

  pub length-insert_by :
      (before : A → A → Bool) (x : A) (xs : List A)
      → length (insert_by before x xs) ≡ suc (length xs)
  length-insert_by before x [] = refl
  length-insert_by before x (y ∷ ys) = ground (arith, length-insert_by before x ys)

  pub length-sort_by :
      (before : A → A → Bool) (xs : List A) → length (sort_by before xs) ≡ length xs
  length-sort_by before [] = refl
  length-sort_by before (x ∷ xs) =
      length-insert_by before x (sort_by before xs) ∙ ap suc (length-sort_by before xs)
