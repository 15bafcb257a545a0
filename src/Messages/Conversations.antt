-- ===== src/Messages/Conversations.antt =====
-- The conversations of a batch and the rowids of messages, as `load_extraction_context` of
-- src/gossipmemo/store/_messages.py reads them.
use gossip_memo.Base.{
  ℕ, zero, suc, ◌≤◌, ◌<◌, ◌≡◌, refl, ◌∙◌, inl, inr, Bool, true, false, Option, none, some, List, [],
  ◌∷◌, ltb, length, drop, any, keep, arith, All, All-append, All-imply, Bool-cases, length-append,
  keep-append, keep-same,
}
use mathlib.Core.List.{Memᴰ}
use gossip_memo.Base.Ascending.{IsAscending}
use gossip_memo.Messages.{Message, insert_or_ignore}
use gossip_memo.Messages.Context.{
  number_from, conversation_of, is_conversation, add_conversation, conversations, first_rowid,
}

abbrev pub Row : Type 0
Row = ℕ × Message

abbrev pub row_before : Row → Row → Bool
row_before a b = ltb a.0 b.0

pub keep_none :
    {A : Type 0} (p : A → Bool) (xs : List A) → All (λ x. p x ≡ false) xs → keep p xs ≡ []
keep_none p [] h = refl
keep_none p (x ∷ xs) h = ground (arith, h.0, keep_none p xs h.1)

any_none : {A : Type 0} (p : A → Bool) (xs : List A) → any p xs ≡ false → keep p xs ≡ []
any_none p [] h = refl
any_none p (x ∷ xs) h = ground (arith, h, any_none p xs)

pub All-drop : {A : Type 0} (P : A → Type 0) (n : ℕ) (xs : List A) → All P xs → All P (drop n xs)
All-drop P zero xs h = h
All-drop P (suc n) [] h = h
All-drop P (suc n) (x ∷ xs) h = All-drop P n xs h.1

-- A list of conversations that holds none twice gains none twice.
insert_or_ignore-once :
    (c d : ℕ × ℕ) (cs : List (ℕ × ℕ))
    → length (keep (is_conversation c) cs) ≤ 1
    → length (keep (is_conversation c) (insert_or_ignore (is_conversation d) d cs)) ≤ 1
insert_or_ignore-once c d cs h = elim (Bool-cases (any (is_conversation d) cs)) [
  | inl e ↦ rw e h
  | inr e ↦
      rw (e, keep-append (is_conversation c) cs (d ∷ []))
        (elim (Bool-cases (is_conversation c d)) [
          | inl same ↦
              let none_yet =
                keep-same (is_conversation c) (is_conversation d) cs (λ x m. ground (arith, same))
                ∙ any_none (is_conversation d) cs e in
              rw (none_yet, same) (omega arith)
          | inr other ↦ rw other (omega (arith, h, length-append (keep (is_conversation c) cs) []))
        ])
]

add_conversation-once :
    (c : ℕ × ℕ) (found : Option (ℕ × ℕ)) (cs : List (ℕ × ℕ))
    → length (keep (is_conversation c) cs) ≤ 1
    → length (keep (is_conversation c) (add_conversation found cs)) ≤ 1
add_conversation-once c none cs h = h
add_conversation-once c (some d) cs h = insert_or_ignore-once c d cs h

pub conversations_once :
    (c : ℕ × ℕ) (rows : List Message) → length (keep (is_conversation c) (conversations rows)) ≤ 1
conversations_once c [] = omega arith
conversations_once c (row ∷ rows) =
    add_conversation-once c (conversation_of row) (conversations rows) (conversations_once c rows)

-- A conversation of the batch is that of one of its open rows.
abbrev pub IsOf : List Message → ℕ × ℕ → Type 0
IsOf rows c = (m : Message) × Memᴰ m rows × (conversation_of m ≡ some c)

insert_or_ignore-All :
    (P : ℕ × ℕ → Type 0) (d : ℕ × ℕ) (cs : List (ℕ × ℕ))
    → All P cs
    → P d
    → All P (insert_or_ignore (is_conversation d) d cs)
insert_or_ignore-All P d cs h p = elim (Bool-cases (any (is_conversation d) cs)) [
  | inl e ↦ rw e h
  | inr e ↦ rw e (All-append P cs (d ∷ []) h (p, tt))
]

add_conversation-IsOf :
    (row : Message) (rows : List Message) (found : Option (ℕ × ℕ))
    → conversation_of row ≡ found
    → (cs : List (ℕ × ℕ)) → All (IsOf (row ∷ rows)) cs
    → All (IsOf (row ∷ rows)) (add_conversation found cs)
add_conversation-IsOf row rows none e cs h = h
add_conversation-IsOf row rows (some d) e cs h =
    insert_or_ignore-All (IsOf (row ∷ rows)) d cs h (row, Memᴰ.head refl, e)

pub conversations-IsOf : (rows : List Message) → All (IsOf rows) (conversations rows)
conversations-IsOf [] = tt
conversations-IsOf (row ∷ rows) =
    add_conversation-IsOf row rows (conversation_of row) refl (conversations rows) (
      All-imply (IsOf rows) (IsOf (row ∷ rows)) (conversations rows)
        (λ c (m, i, e). (m, Memᴰ.tail i, e)) (conversations-IsOf rows))

number_from-All :
    (n k : ℕ) (ms : List Message) → n < k → All (λ (r : Row). ltb n r.0 ≡ true) (number_from k ms)
number_from-All n k [] h = tt
number_from-All n k (m ∷ ms) h =
    (ground (arith, h), number_from-All n (suc k) ms (omega (arith, h)))

pub number_from-IsAscending :
    (n : ℕ) (ms : List Message) → IsAscending row_before (number_from n ms)
number_from-IsAscending n [] = tt
number_from-IsAscending n (m ∷ ms) =
    (number_from-All n (suc n) ms (omega arith), number_from-IsAscending (suc n) ms)

-- The rowid that `MIN` finds is that of a row, and no row is before it.
pub first_rowid-le :
    (rows : List Row) (first : ℕ)
    → IsAscending row_before rows
    → first_rowid rows ≡ some first
    → All (λ (r : Row). first ≤ r.0) rows
first_rowid-le [] first a e = tt
first_rowid-le ((n, m) ∷ rows) first a e =
    let same : n ≡ first = cc in
    (
      omega (arith, same),
      All-imply (λ r. ltb n r.0 ≡ true) (λ r. first ≤ r.0) rows (λ r h. ground (arith, same, h))
          a.0,
    )

pub first_rowid-Mem :
    (rows : List Row) (first : ℕ)
    → first_rowid rows ≡ some first
    → (p : Row) × Memᴰ p rows × (p.0 ≡ first)
first_rowid-Mem [] first e = cc
first_rowid-Mem ((n, m) ∷ rows) first e = ((n, m), Memᴰ.head refl, cc)
