-- ===== src/People/Merge.antt =====
-- `merge_person` of src/gossipmemo/store/_people.py.
use gossip_memo.Base.{
  ℕ, Bool, false, Option, none, some, List, [], ◌∷◌, ◌==◌, keep, ◌&&◌, ◌||◌, if◌then◌else◌,
}
use gossip_memo.Base.Results.{Result, ok, err}
use gossip_memo.People.PersonStatus.{active, merged}
use gossip_memo.People.{
  Person, Alias, Relationship, Continuity, Graph, first_of, set_where, delete_where, add_unless,
  person_by_id, sorted_pair, is_between,
}

-- The PersonMergeErrors, in the order of their raises
pub data MergeError : Type 0 where
  same_person not_found merged_elsewhere not_active : MergeError

-- The rows of `aliases`, copied to the target; `new_id` gives the copy's id.
unfoldable pub copy_aliases : (ℕ → ℕ) → (space target : ℕ) → List Alias → List Alias → List Alias
copy_aliases new_id space target [] table = table
copy_aliases new_id space target (a ∷ rest) table = copy_aliases new_id space target rest (
    add_unless
      (λ b.
        b.id == new_id a.id || (b.person_id == target && b.normalized_value == a.normalized_value))
      (record {
        id = new_id a.id;
        space_id = space;
        person_id = target;
        value = a.value;
        normalized_value = a.normalized_value;
      })
      table)

-- `INSERT OR IGNORE INTO memory_people SELECT memory_id, target ...`
unfoldable pub copy_memory_people : ℕ → List (ℕ × ℕ) → List (ℕ × ℕ) → List (ℕ × ℕ)
copy_memory_people target [] table = table
copy_memory_people target (row ∷ rest) table =
    copy_memory_people target rest
      (add_unless (λ other. other.0 == row.0 && other.1 == target) (row.0, target) table)

-- `INSERT OR IGNORE INTO memory_relationships SELECT memory_id, existing, role ...`
unfoldable pub copy_memory_relationships :
    ℕ → List (ℕ × ℕ × ℕ) → List (ℕ × ℕ × ℕ) → List (ℕ × ℕ × ℕ)
copy_memory_relationships existing [] table = table
copy_memory_relationships existing (row ∷ rest) table = copy_memory_relationships existing rest (
    add_unless (λ other. (other.0 == row.0 && other.1 == existing) && other.2 == row.2)
      (row.0, existing, row.2) table)

abbrev pub reset_at : ℕ → Relationship → Relationship
reset_at now r = record r {
  facets = [];
  closeness = none;
  tone = none;
  status = none;
  summary = 0;
  profile_source_updated_at = none;
  profile_updated_at = none;
  updated_at = now;
}

abbrev pub drop_links : ℕ → List (ℕ × ℕ × ℕ) → List (ℕ × ℕ × ℕ)
drop_links id table = delete_where (λ row. row.1 == id) table

abbrev pub drop_relationship : ℕ → List Relationship → List Relationship
drop_relationship id table = delete_where (λ (r : Relationship). r.id == id) table

-- `affected_relationships.add`
abbrev pub add_id : ℕ → List ℕ → List ℕ
add_id id ids = add_unless (λ other. other == id) id ids

abbrev pub other_end : ℕ → Relationship → ℕ
other_end source r = if r.person_a == source then r.person_b else r.person_a

-- The `if existing:` of the loop, with its `else:`
unfoldable pub move_relationship :
    (now : ℕ) → ℕ × ℕ → Relationship → Option Relationship → Graph × List ℕ → Graph × List ℕ
unfolding copy_memory_relationships
move_relationship now pair r (some existing) (g, affected) = (
  record g {
    relationships = drop_relationship r.id g.relationships;
    memory_relationships = drop_links r.id (
        copy_memory_relationships existing.id (keep (λ row. row.1 == r.id) g.memory_relationships)
          g.memory_relationships);
  },
  add_id existing.id affected,
)
move_relationship now pair r none (g, affected) = (
  record g {
    relationships =
        set_where (λ (x : Relationship). x.id == r.id)
          (λ x. record (reset_at now x) { person_a = pair.0; person_b = pair.1 }) g.relationships;
  },
  add_id r.id affected,
)

-- The body of the loop over `relationships`
unfoldable pub merge_relationship :
    (now space source target : ℕ) → Relationship → Graph × List ℕ → Graph × List ℕ
unfolding move_relationship
merge_relationship now space source target r (g, affected) =
    if other_end source r == target
    then (
      record g {
        relationships = drop_relationship r.id g.relationships;
        memory_relationships = drop_links r.id g.memory_relationships;
      },
      affected,
    )
    else move_relationship now (sorted_pair target (other_end source r)) r
        (first_of (is_between space (sorted_pair target (other_end source r))) g.relationships)
        (g, affected)

unfoldable pub merge_relationships :
    (now space source target : ℕ) → List Relationship → Graph × List ℕ → Graph × List ℕ
unfolding merge_relationship
merge_relationships now space source target [] s = s
merge_relationships now space source target (r ∷ rs) s =
    merge_relationships now space source target rs (merge_relationship now space source target r s)

-- `for relationship_id in affected_relationships`
unfoldable pub reset_all : ℕ → List ℕ → List Relationship → List Relationship
reset_all now [] table = table
reset_all now (id ∷ ids) table =
    reset_all now ids (set_where (λ (r : Relationship). r.id == id) (reset_at now) table)

-- `dict.fromkeys(target if item == source else item for item in ids)`, after those of `seen`
unfoldable pub rewrite_ids : (source target : ℕ) → List ℕ → List ℕ → List ℕ
rewrite_ids source target seen [] = seen
rewrite_ids source target seen (item ∷ items) =
    rewrite_ids source target (add_id (if item == source then target else item) seen) items

unfoldable pub touches : (space source : ℕ) → Relationship → Bool
touches space source r = r.space_id == space && (r.person_a == source || r.person_b == source)

-- The two last UPDATEs
abbrev pub retire : (now source target : ℕ) → List Person → List Person
retire now source target people =
    set_where (λ (p : Person). p.id == target)
      (λ p. record p {
        profile_source_updated_at = none;
        profile_updated_at = none;
        updated_at = now;
      })
      (set_where (λ (p : Person). p.id == source)
        (λ p. record p { status = merged; merged_into = some target; updated_at = now }) people)

-- From `now = now_iso()` to the loop over the relationships
unfoldable pub move_rows : (ℕ → ℕ) → (space source target : ℕ) → Graph → Graph
unfolding copy_aliases copy_memory_people
move_rows new_id space source target g = record g {
  aliases =
      delete_where (λ (a : Alias). a.person_id == source)
        (copy_aliases new_id space target (keep (λ (a : Alias). a.person_id == source) g.aliases)
          g.aliases);
  memory_people =
      delete_where (λ row. row.1 == source)
        (copy_memory_people target (keep (λ row. row.1 == source) g.memory_people) g.memory_people);
}

-- From the loop over `affected_relationships` on; the SELECT of the continuity of the space finds
-- the rows that the UPDATE writes.
unfoldable pub close_merge : (now space source target : ℕ) → Graph × List ℕ → Graph
unfolding reset_all rewrite_ids
close_merge now space source target s = record s.0 {
  relationships = reset_all now s.1 s.0.relationships;
  continuities =
      set_where (λ (c : Continuity). c.space_id == space)
        (λ c. record c {
          related_person_ids = rewrite_ids source target [] c.related_person_ids;
          updated_at = now;
        })
        s.0.continuities;
  people = retire now source target s.0.people;
}

unfoldable pub merge_active : (ℕ → ℕ) → (now space source target : ℕ) → Graph → Graph × List ℕ
unfolding move_rows merge_relationships close_merge
merge_active new_id now space source target g =
    let merged_all =
      merge_relationships now space source target (keep (touches space source) g.relationships)
        (move_rows new_id space source target g, []) in
    (close_merge now space source target merged_all, merged_all.1)

abbrev pub same_id : Option ℕ → ℕ → Bool
same_id none id = false
same_id (some other) id = other == id

-- The guards after both rows are found
unfoldable pub merge_found :
    (ℕ → ℕ)
    → (now space source target : ℕ) → Person
    → Person
    → Graph
    → Result MergeError (Graph × List ℕ)
unfolding merge_active
merge_found new_id now space source target p q g = elim p.status [
  | merged ↦ if same_id p.merged_into target then ok (g, []) else err merged_elsewhere
  | active ↦ elim q.status [
    | merged ↦ err not_active
    | active ↦ ok (merge_active new_id now space source target g)
  ]
]

-- The tables that a merge leaves, and the `affected_relationships` it returns sorted
unfoldable pub merge_person :
    (ℕ → ℕ) → (now space source target : ℕ) → Graph → Result MergeError (Graph × List ℕ)
unfolding merge_found
merge_person new_id now space source target g =
    if source == target then err same_person else elim (person_by_id space source g) [
      | none ↦ err not_found
      | some p ↦ elim (person_by_id space target g) [
        | none ↦ err not_found
        | some q ↦ merge_found new_id now space source target p q g
      ]
    ]
