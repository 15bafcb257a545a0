-- ===== src/Base/Ascending.antt =====
-- Lists in strict order, and how sorting, filtering and cutting them go together.
use gossip_memo.Base.Lists.{
  All, All-lookup, All-imply, All-keep, keep, append-Mem, All-append-left, All-append-right,
}
use gossip_memo.Base.Tests.{Bool-cases}
use gossip_memo.Base.Sorting.{insert_by, insert_by-All, sort_by}
use mathlib.Core.Path.{◌≡◌, refl}
use mathlib.Core.Logic.{inl, inr}
use mathlib.Core.Bool.{Bool, true, false}
use mathlib.Core.List.{List, [], ◌∷◌, ◌++◌}
use native.Mathlib.Omega.{arith}

module _ {ℓ} {A : Type ℓ} (before : A → A → Bool) where
  abbrev pub IsTransitive : Type ℓ
  IsTransitive = (x y z : A) → before x y ≡ true → before y z ≡ true → before x z ≡ true

  -- Each value comes before all that follow it.
  abbrev pub IsAscending : List A → Type ℓ
  IsAscending [] = Unit
  IsAscending (x ∷ xs) = All (λ y. before x y ≡ true) xs × IsAscending xs

  -- Of any two values one comes before the other.
  abbrev pub IsComparable : List A → Type ℓ
  IsComparable [] = Unit
  IsComparable (x ∷ xs) = All (λ y. before y x ≡ false → before x y ≡ true) xs × IsComparable xs

  pub keep-IsComparable : (p : A → Bool) (xs : List A) → IsComparable xs → IsComparable (keep p xs)
  keep-IsComparable p [] c = tt
  keep-IsComparable p (x ∷ xs) c =
      let rest = keep-IsComparable p xs c.1 in
      elim (Bool-cases (p x)) [
        | inl e ↦ rw e (All-keep (λ y. before y x ≡ false → before x y ≡ true) p xs c.0, rest)
        | inr e ↦ rw e rest
      ]

  insert_by-IsAscending :
      (x : A) (ys : List A)
      → IsTransitive
      → All (λ y. before y x ≡ false → before x y ≡ true) ys
      → IsAscending ys
      → IsAscending (insert_by before x ys)
  insert_by-IsAscending x [] t c a = (tt, tt)
  insert_by-IsAscending x (y ∷ ys) t c a =
      let rest = insert_by-IsAscending x ys t c.1 a.1 in
      elim (Bool-cases (before y x)) [
        | inl e ↦ rw e (insert_by-All (λ z. before y z ≡ true) before x ys e a.0, rest)
        | inr e ↦ rw e (
          (
            c.0 e,
            All-imply (λ z. before y z ≡ true) (λ z. before x z ≡ true) ys
                (λ z b. t x y z (c.0 e) b) a.0,
          ),
          a,
        )
      ]

  sort_by-comparable :
      (x : A) (xs : List A)
      → All (λ y. before y x ≡ false → before x y ≡ true) xs
      → All (λ y. before y x ≡ false → before x y ≡ true) (sort_by before xs)
  sort_by-comparable x [] c = tt
  sort_by-comparable x (y ∷ ys) c =
      insert_by-All (λ z. before z x ≡ false → before x z ≡ true) before y (sort_by before ys) c.0
        (sort_by-comparable x ys c.1)

  pub sort_by-IsAscending :
      (xs : List A) → IsTransitive → IsComparable xs → IsAscending (sort_by before xs)
  sort_by-IsAscending [] t c = tt
  sort_by-IsAscending (x ∷ xs) t c =
      insert_by-IsAscending x (sort_by before xs) t (sort_by-comparable x xs c.0)
        (sort_by-IsAscending xs t c.1)

  -- A value before all of a list is inserted first.
  insert_by-first :
      (x : A) (ys : List A)
      → ((y : A) → before x y ≡ true → before y x ≡ false)
      → All (λ y. before x y ≡ true) ys
      → insert_by before x ys ≡ x ∷ ys
  insert_by-first x [] i b = refl
  insert_by-first x (y ∷ ys) i b = ground (arith, i y b.0)

  keep-insert_by :
      (p : A → Bool) (x : A) (ys : List A)
      → IsTransitive
      → ((y z : A) → before y z ≡ true → before z y ≡ false)
      → p x ≡ true
      → All (λ y. before y x ≡ false → before x y ≡ true) ys
      → IsAscending ys
      → keep p (insert_by before x ys) ≡ insert_by before x (keep p ys)
  keep-insert_by p x [] t i h c a = ground (arith, h)
  keep-insert_by p x (y ∷ ys) t i h c a =
      let ih = keep-insert_by p x ys t i h c.1 a.1 in
      elim (Bool-cases (before y x)) [
        | inl e ↦ ground (arith, e, ih)
        | inr e ↦
            let after : All (λ z. before x z ≡ true) ys =
              All-imply (λ z. before y z ≡ true) (λ z. before x z ≡ true) ys
                (λ z b. t x y z (c.0 e) b) a.0 in
            ground (
              arith,
              e,
              h,
              insert_by-first x (keep p ys) (i x) (All-keep (λ z. before x z ≡ true) p ys after),
            )
      ]

  drop-insert_by :
      (p : A → Bool) (x : A) (ys : List A)
      → p x ≡ false
      → keep p (insert_by before x ys) ≡ keep p ys
  drop-insert_by p x [] h = ground (arith, h)
  drop-insert_by p x (y ∷ ys) h = ground (arith, h, drop-insert_by p x ys h)

  -- Filtering a sorted list is sorting the filtered one.
  pub keep-sort_by :
      (p : A → Bool) (xs : List A)
      → IsTransitive
      → ((y z : A) → before y z ≡ true → before z y ≡ false)
      → IsComparable xs
      → keep p (sort_by before xs) ≡ sort_by before (keep p xs)
  keep-sort_by p [] t i c = refl
  keep-sort_by p (x ∷ xs) t i c =
      let ih = keep-sort_by p xs t i c.1 in
      elim (Bool-cases (p x)) [
        | inl e ↦ ground (
          arith,
          e,
          ih,
          keep-insert_by p x (sort_by before xs) t i e (sort_by-comparable x xs c.0)
              (sort_by-IsAscending xs t c.1),
        )
        | inr e ↦ ground (arith, e, ih, drop-insert_by p x (sort_by before xs) e)
      ]

  keep_whole : (p : A → Bool) (xs : List A) → All (λ x. p x ≡ true) xs → keep p xs ≡ xs
  keep_whole p [] h = refl
  keep_whole p (x ∷ xs) h = ground (arith, h.0, keep_whole p xs h.1)

  -- What comes after a value of an ascending list is what follows it there.
  pub keep-after :
      (l : A) (pre post : List A)
      → ((y z : A) → before y z ≡ true → before z y ≡ false)
      → before l l ≡ false
      → IsAscending (pre ++ l ∷ post)
      → keep (before l) (pre ++ l ∷ post) ≡ post
  keep-after l [] post i irr a = ground (arith, irr, keep_whole (before l) post a.0)
  keep-after l (x ∷ pre) post i irr a = ground (
    arith,
    i x l (All-lookup (λ y. before x y ≡ true) a.0 (append-Mem l pre post)),
    keep-after l pre post i irr a.1,
  )

  -- Each value of the first part comes before each of the second.
  pub append-ascending :
      (xs ys : List A) → IsAscending (xs ++ ys) → All (λ x. All (λ y. before x y ≡ true) ys) xs
  append-ascending [] ys a = tt
  append-ascending (x ∷ xs) ys a =
      (All-append-right (λ y. before x y ≡ true) xs ys a.0, append-ascending xs ys a.1)

  pub IsAscending-append-left : (xs ys : List A) → IsAscending (xs ++ ys) → IsAscending xs
  IsAscending-append-left [] ys a = tt
  IsAscending-append-left (x ∷ xs) ys a =
      (All-append-left (λ y. before x y ≡ true) xs ys a.0, IsAscending-append-left xs ys a.1)

  pub keep-IsAscending : (p : A → Bool) (xs : List A) → IsAscending xs → IsAscending (keep p xs)
  keep-IsAscending p [] a = tt
  keep-IsAscending p (x ∷ xs) a =
      let rest = keep-IsAscending p xs a.1 in
      elim (Bool-cases (p x)) [
        | inl e ↦ rw e (All-keep (λ y. before x y ≡ true) p xs a.0, rest)
        | inr e ↦ rw e rest
      ]
