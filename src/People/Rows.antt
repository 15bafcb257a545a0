-- ===== src/People/Rows.antt =====
-- Reading a table after an UPDATE of it.
use gossip_memo.Base.{
  Bool, true, false, List, [], ◌∷◌, ◌≡◌, refl, inl, inr, Option, none, some, arith, Bool-cases, ap,
  sym, ◌∙◌,
}
use mathlib.Core.List.{Memᴰ, ◌++◌}
use gossip_memo.People.{first_of, set_where}

module _ {ℓ} {A : Type ℓ} (p : A → Bool) (f : A → A) where
  -- The first of the rows that an UPDATE has set, when it leaves what they are found by.
  pub first_of-set_where :
      (rows : List A) (row : A)
      → ((r : A) → p (f r) ≡ p r)
      → first_of p rows ≡ some row
      → first_of p (set_where p f rows) ≡ some (f row)
  first_of-set_where [] row h e = ground (arith, e)
  first_of-set_where (r ∷ rows) row h e =
      let rest = first_of-set_where rows row h in
      elim (Bool-cases (p r)) [
        | inl b ↦ ground (arith, e, b, h r)
        | inr b ↦ ground (arith, e, b, h r, rest)
      ]

  -- An UPDATE of other rows is not seen.
  pub first_of-set_others :
      (q : A → Bool) (rows : List A)
      → ((r : A) → q r ≡ true → p r ≡ false)
      → ((r : A) → q r ≡ true → p (f r) ≡ false)
      → first_of p (set_where q f rows) ≡ first_of p rows
  first_of-set_others q [] h k = refl
  first_of-set_others q (r ∷ rows) h k =
      let rest = first_of-set_others q rows h k in
      elim (Bool-cases (q r)) [
        | inl b ↦ rw (b, h r b, k r b) rest
        | inr b ↦ ground (arith, b, rest)
      ]

holds_or_missing {ℓ} : {A : Type ℓ} → (A → Bool) → Option A → Bool
holds_or_missing p none = true
holds_or_missing p (some row) = p row

-- What is found satisfies the condition.
pub first_of-holds {ℓ} :
    {A : Type ℓ} (p : A → Bool) (rows : List A) (row : A)
    → first_of p rows ≡ some row
    → p row ≡ true
unfolding holds_or_missing
first_of-holds p [] row e = ground (arith, e)
first_of-holds p (r ∷ rows) row e = elim (Bool-cases (p r)) [
  | inl b ↦
      let same : some r ≡ some row = ground (arith, e, b) in sym (ap (holds_or_missing p) same) ∙ b
  | inr b ↦ first_of-holds p rows row (ground (arith, e, b))
]

-- A row that the condition of an UPDATE does not hold of stays.
pub set_where-Mem {ℓ} :
    {A : Type ℓ} (p : A → Bool) (f : A → A) {x : A} {rows : List A}
    → Memᴰ x rows
    → p x ≡ false
    → Memᴰ x (set_where p f rows)
set_where-Mem p f {x} (Memᴰ.head {x = y} {xs} e) h = Memᴰ.head (sym (rw (ap p (sym e) ∙ h) (sym e)))
set_where-Mem p f (Memᴰ.tail m) h = Memᴰ.tail (set_where-Mem p f m h)

pub append-Mem-left {ℓ} : {A : Type ℓ} {x : A} (xs ys : List A) → Memᴰ x xs → Memᴰ x (xs ++ ys)
append-Mem-left [] ys m = elim m [ ]
append-Mem-left (y ∷ xs) ys (Memᴰ.head e) = Memᴰ.head e
append-Mem-left (y ∷ xs) ys (Memᴰ.tail m) = Memᴰ.tail (append-Mem-left xs ys m)

found_or {ℓ} : {A : Type ℓ} → A → Option A → A
found_or r none = r
found_or r (some row) = row

-- What is found stands in the table.
pub first_of-Mem {ℓ} :
    {A : Type ℓ} (p : A → Bool) (rows : List A) (row : A)
    → first_of p rows ≡ some row
    → Memᴰ row rows
unfolding found_or
first_of-Mem p [] row e = absurd (ground (arith, e))
first_of-Mem p (r ∷ rows) row e = elim (Bool-cases (p r)) [
  | inl b ↦
      let same : some r ≡ some row = ground (arith, e, b) in Memᴰ.head (sym (ap (found_or r) same))
  | inr b ↦ Memᴰ.tail (first_of-Mem p rows row (ground (arith, e, b)))
]

-- The only row of a condition is the first one.
pub first_of-only {ℓ} :
    {A : Type ℓ} (p : A → Bool) (x : A) (rows : List A)
    → Memᴰ x rows
    → p x ≡ true
    → ((y : A) → Memᴰ y rows → p y ≡ true → y ≡ x)
    → first_of p rows ≡ some x
first_of-only p x [] m h only = elim m [ ]
first_of-only p x (y ∷ rows) m h only = elim (Bool-cases (p y)) [
  | inl b ↦ rw b (ap some (only y (Memᴰ.head refl) b))
  | inr b ↦ rw b (elim m [
    | Memᴰ.head e ↦ let same = ap p e in absurd (ground (arith, b, h, same))
    | Memᴰ.tail n ↦ first_of-only p x rows n h (λ z k c. only z (Memᴰ.tail k) c)
  ])
]
