-- ===== src/Messages/Order.antt =====
-- Rows of messages in the order of their rowids, as src/gossipmemo/store/_messages.py sorts them.
use gossip_memo.Base.{
  ◌≤◌, ◌≡◌, refl, ◌∙◌, inl, inr, Bool, List, [], ◌∷◌, length, keep, arith, All, All-imply,
  Bool-cases,
}
use mathlib.Core.List.{Memᴰ}
use gossip_memo.Base.Sorting.{sort_by, insert_by, insert_by-All}
use gossip_memo.Messages.Conversations.{Row, row_before}

-- The rowids do not fall.
abbrev pub IsInOrder : List Row → Type 0
IsInOrder [] = Unit
IsInOrder (r ∷ rs) = All (λ (q : Row). r.0 ≤ q.0) rs × IsInOrder rs

insert_by-IsInOrder :
    (r : Row) (rs : List Row) → IsInOrder rs → IsInOrder (insert_by row_before r rs)
insert_by-IsInOrder r [] h = (tt, tt)
insert_by-IsInOrder r (q ∷ rs) h = elim (Bool-cases (row_before q r)) [
  | inl e ↦ rw e (
    insert_by-All (λ (x : Row). q.0 ≤ x.0) row_before r rs (ground (arith, e)) h.0,
    insert_by-IsInOrder r rs h.1,
  )
  | inr e ↦
      let le : r.0 ≤ q.0 = ground (arith, e) in
      rw e (
        (
          le,
          All-imply (λ (x : Row). q.0 ≤ x.0) (λ x. r.0 ≤ x.0) rs (λ x l. omega (arith, l, le)) h.0,
        ),
        h,
      )
]

pub sort_by-IsInOrder : (rs : List Row) → IsInOrder (sort_by row_before rs)
sort_by-IsInOrder [] = tt
sort_by-IsInOrder (r ∷ rs) = insert_by-IsInOrder r (sort_by row_before rs) (sort_by-IsInOrder rs)

insert_by-Mem : (r q : Row) (rs : List Row) → Memᴰ q (r ∷ rs) → Memᴰ q (insert_by row_before r rs)
insert_by-Mem r q [] m = m
insert_by-Mem r q (x ∷ rs) m = elim (Bool-cases (row_before x r)) [
  | inl e ↦ rw e (insert_further r q x rs (insert_by-Mem r q rs) m)
  | inr e ↦ rw e m
]
  where
    insert_further :
        (r q x : Row) (rs : List Row)
        → (Memᴰ q (r ∷ rs) → Memᴰ q (insert_by row_before r rs))
        → Memᴰ q (r ∷ x ∷ rs)
        → Memᴰ q (x ∷ insert_by row_before r rs)
    insert_further r q x rs ih (Memᴰ.head e) = Memᴰ.tail (ih (Memᴰ.head e))
    insert_further r q x rs ih (Memᴰ.tail (Memᴰ.head e)) = Memᴰ.head e
    insert_further r q x rs ih (Memᴰ.tail (Memᴰ.tail m)) = Memᴰ.tail (ih (Memᴰ.tail m))

pub sort_by-Mem : (q : Row) (rs : List Row) → Memᴰ q rs → Memᴰ q (sort_by row_before rs)
sort_by-Mem q [] m = m
sort_by-Mem q (r ∷ rs) (Memᴰ.head e) = insert_by-Mem r q (sort_by row_before rs) (Memᴰ.head e)
sort_by-Mem q (r ∷ rs) (Memᴰ.tail m) =
    insert_by-Mem r q (sort_by row_before rs) (Memᴰ.tail (sort_by-Mem q rs m))

length-keep-insert_by :
    (p : Row → Bool) (r : Row) (rs : List Row)
    → length (keep p (insert_by row_before r rs)) ≡ length (keep p (r ∷ rs))
length-keep-insert_by p r [] = refl
length-keep-insert_by p r (q ∷ rs) = ground (arith, length-keep-insert_by p r rs)

pub length-keep-sort_by :
    (p : Row → Bool) (rs : List Row) → length (keep p (sort_by row_before rs)) ≡ length (keep p rs)
length-keep-sort_by p [] = refl
length-keep-sort_by p (r ∷ rs) =
    let ih = length-keep-sort_by p rs in
    length-keep-insert_by p r (sort_by row_before rs) ∙ ground (arith, ih)
