-- ===== src/People/Lifecycle.antt =====
-- What superseding and retracting a memory (src/gossipmemo/store/_memories.py) leave, and the pair of
-- a relationship (`_ensure_relationship` of src/gossipmemo/store/_people.py).
use gossip_memo.Base.{
  ℕ, Bool, true, Option, none, some, List, [], ◌∷◌, ◌++◌, ◌==◌, any, map, keep, ◌&&◌, ◌||◌, ◌≡◌,
  ◌≢◌, refl, ap, ◌∙◌, arith, inl, inr, Option-cases,
}
use gossip_memo.People.{
  Memory, MemoryStatus, superseded, retracted, Graph, first_of, set_where, ensure_relationship,
}
use gossip_memo.People.MemoryStatus.{active}
use gossip_memo.People.Memories.{
  SupersedeRequest, is_active_memory, replacement, invalidate, supersede_row, supersede_memory,
  retract_memory,
}

-- An invalidated row is not found again, by a lookup of its id that wants it active.
first_of-invalidated :
    (status : MemoryStatus) (now space id : ℕ) (reason : Option ℕ) (rows : List Memory)
    → status ≢ active
    → first_of
        (λ m. (m.space_id == space && m.id == id) && is_active_memory m)
        (set_where (λ (m : Memory). m.id == id) (invalidate status now reason) rows)
      ≡ none
first_of-invalidated status now space id reason [] n = refl
first_of-invalidated status now space id reason (x ∷ rows) n =
    ground (arith, n, first_of-invalidated status now space id reason rows n)

any-append : {A : Type 0} (p : A → Bool) (a b : List A) → any p (a ++ b) ≡ (any p a || any p b)
any-append p [] b = refl
any-append p (x ∷ a) b = ground (arith, any-append p a b)

-- The copies of the links of `id`, for `new_id`
any-copies :
    (new_id id person : ℕ) (rows : List (ℕ × ℕ))
    → any (λ (row : ℕ × ℕ). row.0 == id && row.1 == person) rows ≡ true
    → any
        (λ (row : ℕ × ℕ). row.0 == new_id && row.1 == person)
        (map (λ (row : ℕ × ℕ). (new_id, row.1)) (keep (λ row. row.0 == id) rows))
      ≡ true
any-copies new_id id person [] h = absurd (ground (arith, h))
any-copies new_id id person (x ∷ rows) h = ground (arith, h, any-copies new_id id person rows)

first_of-retracted :
    (now space id : ℕ) (reason : Option ℕ) (rows : List Memory) {m : Memory}
    → first_of (λ (m : Memory). m.space_id == space && m.id == id) rows ≡ some m
    → first_of
        (λ (m : Memory). m.space_id == space && m.id == id)
        (set_where (λ (m : Memory). m.id == id) (invalidate retracted now reason) rows)
      ≡ some (invalidate retracted now reason m)
first_of-retracted now space id reason [] {m} h = absurd cc
first_of-retracted now space id reason (x ∷ rows) {m} h =
    ground (arith, h, first_of-retracted now space id reason rows {m = m})

-- When superseding a memory has returned the new id, superseding the same memory again, with any
-- request, finds nothing to supersede and changes nothing; and each person that was linked to the
-- memory is linked to the new one.
pub supersede_memory_once :
    (manual new_id new_id' now now' space id n : ℕ) (request request' : SupersedeRequest)
    (g g' : Graph)
    → supersede_memory manual new_id now space id request g ≡ (g', some n)
    → (supersede_memory manual new_id' now' space id request' g' ≡ (g', none))
      × ((person : ℕ)
          → any (λ (row : ℕ × ℕ). row.0 == id && row.1 == person) g.memory_people ≡ true
          → any (λ (row : ℕ × ℕ). row.0 == n && row.1 == person) g'.memory_people ≡ true)
unfolding supersede_memory supersede_row
supersede_memory_once manual new_id new_id' now now' space id n request request' g g' h =
    elim (Option-cases
      (first_of (λ m. (m.space_id == space && m.id == id) && is_active_memory m) g.memories)) [
        | inl e ↦ absurd (ground (arith, h, e))
        | inr (old, e) ↦
            let row = supersede_row manual new_id now space id request old g in
            let done : g' ≡ row = ground (arith, h, e) in
            let fresh : n ≡ new_id = ground (arith, h, e) in
            (
              ground (
                arith,
                ap
                      (λ (x : Graph).
                        first_of (λ m. (m.space_id == space && m.id == id) && is_active_memory m)
                          x.memories)
                      done
                    ∙ first_of-invalidated superseded now space id request.reason
                        (g.memories ++ replacement manual new_id now space id request old ∷ [])
                        (ground arith),
              ),
              λ person l.
                  rw (done, fresh)
                    (any-append (λ (row : ℕ × ℕ). row.0 == new_id && row.1 == person)
                        g.memory_people
                        (map (λ (row : ℕ × ℕ). (new_id, row.1))
                          (keep (λ row. row.0 == id) g.memory_people))
                      ∙ ground (arith, any-copies new_id id person g.memory_people l)),
            )
      ]

-- Retracting again: a retraction that found the memory, done again with any time and reason, reports
-- success and changes nothing.
pub retract_memory_twice :
    (now now' space id : ℕ) (reason reason' : Option ℕ) (g g' : Graph)
    → retract_memory now space id reason g ≡ (g', true)
    → retract_memory now' space id reason' g' ≡ (g', true)
unfolding retract_memory
retract_memory_twice now now' space id reason reason' g g' h =
    elim (Option-cases (first_of (λ (m : Memory). m.space_id == space && m.id == id) g.memories)) [
      | inl e ↦ absurd (ground (arith, h, e))
      | inr (m, e) ↦ ground (arith, h, e, first_of-retracted now space id reason g.memories e)
    ]

-- The order in which the two people of a relationship are named makes no difference.
pub ensure_relationship-swap :
    (new_id now space a b : ℕ) (facets : List ℕ) (g : Graph)
    → ensure_relationship new_id now space a b facets g
      ≡ ensure_relationship new_id now space b a facets g
unfolding ensure_relationship
ensure_relationship-swap new_id now space a b facets g = ground arith
