-- ===== src/Coverage/Keys.antt =====
-- The order of evidence by (updated_at, id), and memories told apart by their ids.
use gossip_memo.Base.{
  ℕ, Bool, true, false, List, [], ◌∷◌, ◌++◌, ◌≡◌, ap, sym, ◌==◌, ◌&&◌, keep, All, All-lookup,
  All-imply, keep-All, append-Mem, arith, keep-keep, ◌∙◌,
}
use gossip_memo.Base.Ascending.{
  IsTransitive, IsAscending, IsComparable, keep-IsComparable, sort_by-IsAscending, keep-sort_by,
  keep-after,
}
use gossip_memo.Base.Sorting.{sort_by, sort_by-All}
use gossip_memo.People.{Memory}
use gossip_memo.Coverage.{memory_before, is_after, is_evidence, backlog_after}
use mathlib.Core.List.{Memᴰ}
use mathlib.Core.Path.{subst}

-- The primary key: each id once
abbrev pub HasDistinctIds : List Memory → Type 0
HasDistinctIds [] = Unit
HasDistinctIds (m ∷ ms) = All (λ (n : Memory). (m.id == n.id) ≡ false) ms × HasDistinctIds ms

pub memory_before-transitive : IsTransitive memory_before
memory_before-transitive x y z h k = ground (arith, h, k)

pub memory_before-asymmetric : (x y : Memory) → memory_before x y ≡ true → memory_before y x ≡ false
memory_before-asymmetric x y h = ground (arith, h)

pub memory_before-irreflexive : (x : Memory) → memory_before x x ≡ false
memory_before-irreflexive x = ground arith

comparable :
    (x y : Memory) → (x.id == y.id) ≡ false → memory_before y x ≡ false → memory_before x y ≡ true
comparable x y h k = ground (arith, h, k)

pub HasDistinctIds-IsComparable :
    (ms : List Memory) → HasDistinctIds ms → IsComparable memory_before ms
HasDistinctIds-IsComparable [] d = tt
HasDistinctIds-IsComparable (m ∷ ms) d = (
  All-imply (λ (n : Memory). (m.id == n.id) ≡ false)
      (λ n. memory_before n m ≡ false → memory_before m n ≡ true) ms (comparable m) d.0,
  HasDistinctIds-IsComparable ms d.1,
)

-- The backlog stands in strict order, and each of it is evidence behind the cursor.
pub backlog_after-IsAscending :
    (inferred space w c : ℕ) (ms : List Memory)
    → HasDistinctIds ms
    → IsAscending memory_before (backlog_after inferred space w c ms)
unfolding backlog_after
backlog_after-IsAscending inferred space w c ms d =
    sort_by-IsAscending memory_before
      (keep (λ m. is_evidence inferred space m && is_after w c m) ms) memory_before-transitive
      (keep-IsComparable memory_before (λ m. is_evidence inferred space m && is_after w c m) ms
        (HasDistinctIds-IsComparable ms d))

-- What the backlog holds stands in the table and is evidence behind the cursor.
pub backlog_after-All :
    (inferred space w c : ℕ) (ms : List Memory)
    → All
        (λ m. Memᴰ m ms × ((is_evidence inferred space m && is_after w c m) ≡ true))
        (backlog_after inferred space w c ms)
unfolding backlog_after
backlog_after-All inferred space w c ms =
    sort_by-All (λ m. Memᴰ m ms × ((is_evidence inferred space m && is_after w c m) ≡ true))
      memory_before (keep (λ m. is_evidence inferred space m && is_after w c m) ms)
      (keep-All (λ m. Memᴰ m ms × ((is_evidence inferred space m && is_after w c m) ≡ true))
        (λ m. is_evidence inferred space m && is_after w c m) ms (λ m i e. (i, e)))

-- Behind a cursor that stands at one of the backlog, only what follows it is left.
pub backlog_after-resumes :
    (inferred space w c : ℕ) (ms : List Memory) (pre : List Memory) (l : Memory)
    (post : List Memory)
    → HasDistinctIds ms
    → backlog_after inferred space w c ms ≡ pre ++ l ∷ post
    → backlog_after inferred space l.updated_at l.id ms ≡ post
unfolding backlog_after
backlog_after-resumes inferred space w c ms pre l post d e =
    let p : Memory → Bool = λ m. is_evidence inferred space m && is_after w c m in
    let at_l =
      All-lookup (λ m. Memᴰ m ms × (p m ≡ true)) (backlog_after-All inferred space w c ms)
        (subst (λ zs. Memᴰ l zs) (sym e) (append-Mem l pre post)) in
    let both : (x : Memory)
        → (memory_before l x && p x)
          ≡ (is_evidence inferred space x && is_after l.updated_at l.id x) =
      λ x. ground (arith, at_l.1) in
    let narrowed = ap (sort_by memory_before) (
      keep-keep (memory_before l) p
        (λ m. is_evidence inferred space m && is_after l.updated_at l.id m) ms both) in
    let outside =
      keep-sort_by memory_before (memory_before l) (keep p ms) memory_before-transitive
        memory_before-asymmetric
        (keep-IsComparable memory_before p ms (HasDistinctIds-IsComparable ms d)) in
    sym narrowed
    ∙ sym outside
    ∙ ap (keep (memory_before l)) e
    ∙ keep-after memory_before l pre post memory_before-asymmetric (memory_before-irreflexive l)
        (subst (IsAscending memory_before) e (backlog_after-IsAscending inferred space w c ms d))
