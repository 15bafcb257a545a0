-- ===== src/People/Relations.antt =====
-- The loop of `merge_person` over the relationships (src/gossipmemo/store/_people.py).
use gossip_memo.Base.{
  ℕ, ◌<◌, Bool, true, false, Option, none, some, List, [], ◌∷◌, ◌==◌, any, keep, ◌≡◌, ◌≢◌, refl,
  ◌∙◌, arith, inl, inr, Bool-cases, All, All-intro, All-lookup, keep-All, any-keep,
}
use gossip_memo.People.{
  Relationship, Graph, first_of, set_where, delete_where, sorted_pair, is_between,
}
use gossip_memo.People.Merge.{
  reset_at, drop_relationship, other_end, move_relationship, merge_relationship,
  merge_relationships, reset_all, touches,
}

pub any-delete_where :
    {A : Type 0} (p : A → Bool) (rows : List A) → any p (delete_where p rows) ≡ false
any-delete_where p [] = refl
any-delete_where p (row ∷ rows) = ground (arith, any-delete_where p rows)

-- A row that touches the source is still to come in the loop.
abbrev pub Awaits : (space source : ℕ) → List Relationship → Relationship → Type 0
Awaits space source todo row =
    touches space source row ≡ true → any (λ (r : Relationship). r.id == row.id) todo ≡ true

-- A row that the loop reads has the source at one end alone.
pub record OneEnd (space source : ℕ) (r : Relationship) : Type 0 where
  pub touched : touches space source r ≡ true
  pub apart : r.person_a < r.person_b

drop-Awaits :
    (space source : ℕ) (r : Relationship) (todo table : List Relationship)
    → All (Awaits space source (r ∷ todo)) table
    → All (Awaits space source todo) (drop_relationship r.id table)
drop-Awaits space source r todo [] h = tt
drop-Awaits space source r todo (x ∷ table) h =
    let rest = drop-Awaits space source r todo table h.1 in
    elim (Bool-cases (x.id == r.id)) [
      | inl e ↦ rw e rest
      | inr e ↦ rw e ((λ t. ground (arith, h.0 t, e)), rest)
    ]

move-Awaits :
    (now space source : ℕ) (pair : ℕ × ℕ) (r : Relationship) (todo table : List Relationship)
    → pair.0 ≢ source
    → pair.1 ≢ source
    → All (Awaits space source (r ∷ todo)) table
    → All (Awaits space source todo) (
        set_where
          (λ (x : Relationship). x.id == r.id)
          (λ x. record (reset_at now x) { person_a = pair.0; person_b = pair.1 })
          table)
unfolding touches
move-Awaits now space source pair r todo [] a b h = tt
move-Awaits now space source pair r todo (x ∷ table) a b h = (
  elim (Bool-cases (x.id == r.id)) [
    | inl e ↦ rw e (λ t. absurd (ground (arith, t, a, b)))
    | inr e ↦ rw e (λ t. ground (arith, h.0 t, e))
  ],
  move-Awaits now space source pair r todo table a b h.1,
)

-- The ends that a moved row gets are other than the source.
pair-ends :
    (space source target : ℕ) (r : Relationship)
    → source ≢ target
    → OneEnd space source r
    → ((sorted_pair target (other_end source r)).0 ≢ source)
      × ((sorted_pair target (other_end source r)).1 ≢ source)
unfolding touches
pair-ends space source target r n o =
    (ground (arith, n, o.touched, o.apart), ground (arith, n, o.touched, o.apart))

move_relationship-Awaits :
    (now space source : ℕ) (pair : ℕ × ℕ) (r : Relationship) (existing : Option Relationship)
    (todo : List Relationship) (s : Graph × List ℕ)
    → pair.0 ≢ source
    → pair.1 ≢ source
    → All (Awaits space source (r ∷ todo)) s.0.relationships
    → All (Awaits space source todo) (move_relationship now pair r existing s).0.relationships
unfolding move_relationship
move_relationship-Awaits now space source pair r (some e) todo (g, affected) a b h =
    drop-Awaits space source r todo g.relationships h
move_relationship-Awaits now space source pair r none todo (g, affected) a b h =
    move-Awaits now space source pair r todo g.relationships a b h

merge_relationship-Awaits :
    (now space source target : ℕ) (r : Relationship) (todo : List Relationship) (s : Graph × List ℕ)
    → source ≢ target
    → OneEnd space source r
    → All (Awaits space source (r ∷ todo)) s.0.relationships
    → All
        (Awaits space source todo)
        (merge_relationship now space source target r s).0.relationships
unfolding merge_relationship
merge_relationship-Awaits now space source target r todo (g, affected) n o h =
    let ends = pair-ends space source target r n o in
    elim (Bool-cases (other_end source r == target)) [
      | inl e ↦ rw (e, merge_relationship) (drop-Awaits space source r todo g.relationships h)
      | inr e ↦
          rw (e, merge_relationship)
            (move_relationship-Awaits now space source (sorted_pair target (other_end source r)) r
              (first_of (is_between space (sorted_pair target (other_end source r)))
                g.relationships)
              todo (g, affected) ends.0 ends.1 h)
    ]

-- Each turn of the loop settles the row it reads.
pub merge_relationships-Awaits :
    (now space source target : ℕ) (todo : List Relationship) (s : Graph × List ℕ)
    → source ≢ target
    → All (OneEnd space source) todo
    → All (Awaits space source todo) s.0.relationships
    → All
        (Awaits space source [])
        (merge_relationships now space source target todo s).0.relationships
unfolding merge_relationships
merge_relationships-Awaits now space source target [] s n o h = h
merge_relationships-Awaits now space source target (r ∷ todo) s n o h =
    merge_relationships-Awaits now space source target todo
      (merge_relationship now space source target r s) n o.1
      (merge_relationship-Awaits now space source target r todo s n o.0 h)

Awaits-touches :
    (space source : ℕ) (table : List Relationship)
    → All (Awaits space source []) table
    → any (touches space source) table ≡ false
Awaits-touches space source [] h = refl
Awaits-touches space source (x ∷ table) h = elim (Bool-cases (touches space source x)) [
  | inl e ↦ absurd (ground (arith, h.0 e))
  | inr e ↦ ground (arith, e, Awaits-touches space source table h.1)
]

reset-touches :
    (now space source id : ℕ) (table : List Relationship)
    → any (touches space source) (set_where (λ (r : Relationship). r.id == id) (reset_at now) table)
      ≡ any (touches space source) table
unfolding touches
reset-touches now space source id [] = refl
reset-touches now space source id (x ∷ table) =
    ground (arith, reset-touches now space source id table)

reset_all-touches :
    (now space source : ℕ) (ids : List ℕ) (table : List Relationship)
    → any (touches space source) (reset_all now ids table) ≡ any (touches space source) table
unfolding reset_all
reset_all-touches now space source [] table = refl
reset_all-touches now space source (id ∷ ids) table =
    reset_all-touches now space source ids
      (set_where (λ (r : Relationship). r.id == id) (reset_at now) table)
    ∙ reset-touches now space source id table

-- After the loop over the rows that touch the source, and the resets, no row touches it.
pub merged-touches :
    (now space source target : ℕ) (ids : List ℕ) (table : List Relationship) (s : Graph × List ℕ)
    → source ≢ target
    → All (λ (r : Relationship). r.person_a < r.person_b) table
    → s.0.relationships ≡ table
    → any (touches space source) (
        reset_all now ids
          (merge_relationships now space source target
            (keep (touches space source) table)
            s).0.relationships)
      ≡ false
merged-touches now space source target ids table s n o e =
    reset_all-touches now space source ids _
    ∙ Awaits-touches space source _ (
        merge_relationships-Awaits now space source target (keep (touches space source) table) s n
          (keep-All (OneEnd space source) (touches space source) table (λ r m t. record {
            touched = t;
            apart = All-lookup (λ (r : Relationship). r.person_a < r.person_b) o m;
          }))
          (rw e (
            All-intro (Awaits space source (keep (touches space source) table)) table (λ r m t.
              any-keep (λ (x : Relationship). x.id == r.id) (touches space source) m t
                (ground arith)))))
