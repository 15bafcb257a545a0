-- ===== src/People/Merging.antt =====
-- What `merge_person` of src/gossipmemo/store/_people.py leaves.
use gossip_memo.Base.{
  ℕ, ◌<◌, false, Option, none, some, List, [], ◌∷◌, ◌==◌, any, keep, ◌&&◌, ◌≡◌, ◌≢◌, refl, ap, ◌∙◌,
  arith, inl, inr, Bool-cases, Option-cases, All,
}
use gossip_memo.Base.Results.{ok}
use gossip_memo.People.{
  Person, Alias, Relationship, Graph, first_of, person_by_id, sorted_pair, is_between,
}
use gossip_memo.People.PersonStatus.{active, merged}
use gossip_memo.People.Merge.{
  copy_aliases, copy_memory_people, other_end, retire, move_rows, move_relationship,
  merge_relationship, merge_relationships, close_merge, merge_active, merge_found, merge_person,
  touches,
}
use gossip_memo.People.Relations.{any-delete_where, merged-touches}

-- The loop over the relationships writes no other table but the links of memories to them.
record Keeps (g g' : Graph) : Type 0 where
  people : g'.people ≡ g.people
  aliases : g'.aliases ≡ g.aliases
  memory_people : g'.memory_people ≡ g.memory_people

move_relationship-Keeps :
    (now : ℕ) (pair : ℕ × ℕ) (r : Relationship) (existing : Option Relationship)
    (s : Graph × List ℕ)
    → Keeps s.0 (move_relationship now pair r existing s).0
unfolding move_relationship
move_relationship-Keeps now pair r (some e) (g, affected) = record {
  people = refl;
  aliases = refl;
  memory_people = refl;
}
move_relationship-Keeps now pair r none (g, affected) = record {
  people = refl;
  aliases = refl;
  memory_people = refl;
}

merge_relationship-Keeps :
    (now space source target : ℕ) (r : Relationship) (s : Graph × List ℕ)
    → Keeps s.0 (merge_relationship now space source target r s).0
unfolding merge_relationship
merge_relationship-Keeps now space source target r (g, affected) =
    elim (Bool-cases (other_end source r == target)) [
      | inl e ↦
          rw (e, merge_relationship)
            (record { people = refl; aliases = refl; memory_people = refl })
      | inr e ↦
          rw (e, merge_relationship)
            (move_relationship-Keeps now (sorted_pair target (other_end source r)) r
              (first_of (is_between space (sorted_pair target (other_end source r)))
                g.relationships)
              (g, affected))
    ]

merge_relationships-Keeps :
    (now space source target : ℕ) (todo : List Relationship) (s : Graph × List ℕ)
    → Keeps s.0 (merge_relationships now space source target todo s).0
unfolding merge_relationships
merge_relationships-Keeps now space source target [] s = record {
  people = refl;
  aliases = refl;
  memory_people = refl;
}
merge_relationships-Keeps now space source target (r ∷ todo) s =
    let k = merge_relationship-Keeps now space source target r s in
    let rest =
      merge_relationships-Keeps now space source target todo
        (merge_relationship now space source target r s) in
    record {
      people = rest.people ∙ k.people;
      aliases = rest.aliases ∙ k.aliases;
      memory_people = rest.memory_people ∙ k.memory_people;
    }

-- The rows of the source and of the target after the two last UPDATEs
retire-source :
    (now space source target : ℕ) (people : List Person) (p : Person)
    → source ≢ target
    → first_of (λ x. x.space_id == space && x.id == source) people ≡ some p
    → first_of (λ x. x.space_id == space && x.id == source) (retire now source target people)
      ≡ some (record p { status = merged; merged_into = some target; updated_at = now })
retire-source now space source target [] p n h = absurd cc
retire-source now space source target (x ∷ people) p n h =
    ground (arith, n, h, retire-source now space source target people p n)

retire-target :
    (now space source target : ℕ) (people : List Person) (q : Person)
    → source ≢ target
    → first_of (λ x. x.space_id == space && x.id == target) people ≡ some q
    → first_of (λ x. x.space_id == space && x.id == target) (retire now source target people)
      ≡ some (record q {
        profile_source_updated_at = none;
        profile_updated_at = none;
        updated_at = now;
      })
retire-target now space source target [] q n h = absurd cc
retire-target now space source target (x ∷ people) q n h =
    ground (arith, n, h, retire-target now space source target people q n)

-- Nothing points to the source any more.
pub record IsMergedAway (space source : ℕ) (g : Graph) : Type 0 where
  pub no_alias : any (λ (a : Alias). a.person_id == source) g.aliases ≡ false
  pub no_memory : any (λ (row : ℕ × ℕ). row.1 == source) g.memory_people ≡ false
  pub no_relationship : any (touches space source) g.relationships ≡ false

merge_active-IsMergedAway :
    (new_id : ℕ → ℕ) (now space source target : ℕ) (g : Graph)
    → source ≢ target
    → All (λ (r : Relationship). r.person_a < r.person_b) g.relationships
    → IsMergedAway space source (merge_active new_id now space source target g).0
unfolding merge_active close_merge move_rows
merge_active-IsMergedAway new_id now space source target g n o =
    let k =
      merge_relationships-Keeps now space source target
        (keep (touches space source) g.relationships)
        (move_rows new_id space source target g, []) in
    record {
      no_alias =
          ap (any (λ (a : Alias). a.person_id == source)) k.aliases
          ∙ any-delete_where (λ (a : Alias). a.person_id == source)
              (copy_aliases new_id space target
                (keep (λ (a : Alias). a.person_id == source) g.aliases) g.aliases);
      no_memory =
          ap (any (λ (row : ℕ × ℕ). row.1 == source)) k.memory_people
          ∙ any-delete_where (λ (row : ℕ × ℕ). row.1 == source)
              (copy_memory_people target (keep (λ (row : ℕ × ℕ). row.1 == source) g.memory_people)
                g.memory_people);
      no_relationship =
          merged-touches now space source target
            (merge_relationships now space source target
              (keep (touches space source) g.relationships)
              (move_rows new_id space source target g, [])).1
            g.relationships (move_rows new_id space source target g, []) n o refl;
    }

merge_active-people :
    (new_id : ℕ → ℕ) (now space source target : ℕ) (g : Graph)
    → (merge_active new_id now space source target g).0.people ≡ retire now source target g.people
unfolding merge_active close_merge move_rows
merge_active-people new_id now space source target g =
    ap (retire now source target)
      (merge_relationships-Keeps now space source target
        (keep (touches space source) g.relationships)
        (move_rows new_id space source target g, [])).people

-- What a merge that returned for an active source went through
record Went (new_id : ℕ → ℕ) (now space source target : ℕ) (g g' : Graph) : Type 0 where
  distinct : source ≢ target
  row : Person
  found : person_by_id space target g ≡ some row
  result : g' ≡ (merge_active new_id now space source target g).0

merge_person-Went :
    (new_id : ℕ → ℕ) (now space source target : ℕ) (g g' : Graph) (affected : List ℕ) (p : Person)
    → person_by_id space source g ≡ some p
    → p.status ≡ active
    → merge_person new_id now space source target g ≡ ok (g', affected)
    → Went new_id now space source target g g'
unfolding merge_person merge_found
merge_person-Went new_id now space source target g g' affected p f a h =
    elim (Option-cases (person_by_id space target g)) [
      | inl e ↦ absurd (ground (arith, h, f, e))
      | inr (q, e) ↦ record {
        distinct = ground (arith, h);
        row = q;
        found = e;
        result = ground (arith, h, f, e, a);
      }
    ]

-- A merge that returns for an active source leaves nothing behind, given that each relationship has
-- its two people in order, as the CHECK of its table says: no alias, no link of a memory and no
-- relationship of the space has the source any more, and the source's row says where it went.
pub merge_person_leaves_nothing :
    (new_id : ℕ → ℕ) (now space source target : ℕ) (g g' : Graph) (affected : List ℕ) (p : Person)
    → All (λ (r : Relationship). r.person_a < r.person_b) g.relationships
    → person_by_id space source g ≡ some p
    → p.status ≡ active
    → merge_person new_id now space source target g ≡ ok (g', affected)
    → IsMergedAway space source g'
      × (person_by_id space source g'
          ≡ some (record p { status = merged; merged_into = some target; updated_at = now }))
unfolding person_by_id
merge_person_leaves_nothing new_id now space source target g g' affected p o f a h =
    let w = merge_person-Went new_id now space source target g g' affected p f a h in
    rw w.result (
      merge_active-IsMergedAway new_id now space source target g w.distinct o,
      rw (merge_active-people new_id now space source target g)
          (retire-source now space source target g.people p w.distinct f),
    )

-- Merging again: when a merge of an active source has returned, the same call, whatever the time and
-- the ids it would draw, returns with no affected relationship and changes nothing.
pub merge_person_again :
    (new_id new_id' : ℕ → ℕ) (now now' space source target : ℕ) (g g' : Graph) (affected : List ℕ)
    (p : Person)
    → person_by_id space source g ≡ some p
    → p.status ≡ active
    → merge_person new_id now space source target g ≡ ok (g', affected)
    → merge_person new_id' now' space source target g' ≡ ok (g', [])
unfolding person_by_id merge_person merge_found
merge_person_again new_id new_id' now now' space source target g g' affected p f a h =
    let w = merge_person-Went new_id now space source target g g' affected p f a h in
    let people =
      ap (λ (x : Graph). x.people) w.result
      ∙ merge_active-people new_id now space source target g in
    ground (
      arith,
      w.distinct,
      ap (first_of (λ (x : Person). x.space_id == space && x.id == source)) people
          ∙ retire-source now space source target g.people p w.distinct f,
      ap (first_of (λ (x : Person). x.space_id == space && x.id == target)) people
          ∙ retire-target now space source target g.people w.row w.distinct w.found,
    )
