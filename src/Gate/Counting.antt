-- ===== src/Gate/Counting.antt =====
-- Where a caller may stand in the queues of the gate of src/gossipmemo/transport.py.
use gossip_memo.Base.{
  ℕ, ◌+◌, ◌≡◌, refl, Bool, true, false, List, [], ◌∷◌, ◌++◌, none, some, inl, inr, arith,
  Option-cases, ◌==◌, if◌then◌else◌,
}
use gossip_memo.Gate.{
  Tier, Future, resolved, Phase, waiting, cancelling, holding, Caller, Waiter, same_tier, remove,
}

-- How often caller `i` stands in a queue.
abbrev pub count : ℕ → List Waiter → ℕ
count i [] = 0
count i (w ∷ q) = (if w.0 == i then 1 else 0) + count i q

abbrev pub slot_of : Tier → Phase → Future → ℕ
slot_of t (waiting u _) resolved = 0
slot_of t (waiting u _) _ = if same_tier u t then 1 else 0
slot_of t (cancelling u _) resolved = 0
slot_of t (cancelling u _) _ = if same_tier u t then 1 else 0
slot_of t _ _ = 0

-- How often a caller may stand in the queue of `t`.
abbrev pub slot : Tier → Caller → ℕ
slot t c = slot_of t c.phase c.future

abbrev pub owns_of : Phase → Future → Bool
owns_of holding _ = true
owns_of (waiting _ _) resolved = true
owns_of (cancelling _ _) resolved = true
owns_of _ _ = false

-- The permit is this caller's: it holds it, or its future says so.
abbrev pub owns : Caller → Bool
owns c = owns_of c.phase c.future

pub count-append : (i : ℕ) (q r : List Waiter) → count i (q ++ r) ≡ count i q + count i r
count-append i [] r = omega arith
count-append i (w ∷ q) r = omega (arith, count-append i q r)

-- Removing a caller takes one of its places and nobody else's.
pub count-remove :
    (i : ℕ) (q r : List Waiter)
    → remove i q ≡ some r
    → (j : ℕ) → count j r + (if i == j then 1 else 0) ≡ count j q
unfolding remove
count-remove i [] r h j = ground arith
count-remove i (w ∷ q) r h j = elim (Option-cases (remove i q)) [
  | inl e ↦ ground arith
  | inr (r', e) ↦ ground (arith, count-remove i q r' e j)
]

-- What is not found is not there.
pub count-remove-none : (i : ℕ) (q : List Waiter) → remove i q ≡ none → count i q ≡ 0
unfolding remove
count-remove-none i [] h = refl
count-remove-none i (w ∷ q) h = elim (Option-cases (remove i q)) [
  | inl e ↦ ground (arith, count-remove-none i q e)
  | inr (r', e) ↦ ground arith
]
