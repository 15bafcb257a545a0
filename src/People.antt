-- ===== src/People.antt =====
-- The tables of people, aliases, relationships and memories (src/gossipmemo/schema.sql), and the
-- operations on people of src/gossipmemo/store/_people.py. A table is the list of its rows. Ids,
-- timestamps and the other texts that are only stored and compared are natural numbers in the
-- order of those texts, 0 for the empty text. `normalized` of src/gossipmemo/store/policy.py is the
-- argument of that name. A call is one transaction: an exception leaves the tables as they were.
pub mod Merge
pub mod Memories
pub mod Rows
mod Relations
pub mod Extracted
mod Linking
mod SelfRelationship
mod Merging
mod Lifecycle
mod Tests
use gossip_memo.Base.{
  ℕ, Bool, true, false, Option, none, some, List, [], ◌∷◌, ◌++◌, ◌==◌, ltb, any, map, keep, take,
  ◌&&◌, ◌||◌, if◌then◌else◌,
}
use gossip_memo.Base.Results.{Result, ok, err, ◌>>=◌}

pub data PersonStatus : Type 0 where
  active merged : PersonStatus

-- The profile_card none is '{}'.
pub record Person : Type 0 where
  pub id : ℕ
  pub space_id : ℕ
  pub display_name : ℕ
  pub status : PersonStatus
  pub merged_into : Option ℕ
  pub profile_card : Option ℕ
  pub profile_source_updated_at : Option ℕ
  pub profile_updated_at : Option ℕ
  pub created_at : ℕ
  pub updated_at : ℕ

pub record Alias : Type 0 where
  pub id : ℕ
  pub space_id : ℕ
  pub person_id : ℕ
  pub value : ℕ
  pub normalized_value : ℕ

-- The facets are the list that the column holds as JSON; the status none is 'unknown'.
pub record Relationship : Type 0 where
  pub id : ℕ
  pub space_id : ℕ
  pub person_a : ℕ
  pub person_b : ℕ
  pub facets : List ℕ
  pub closeness : Option ℕ
  pub tone : Option ℕ
  pub summary : ℕ
  pub status : Option ℕ
  pub profile_source_updated_at : Option ℕ
  pub profile_updated_at : Option ℕ
  pub created_at : ℕ
  pub updated_at : ℕ

pub data MemoryStatus : Type 0 where
  active superseded retracted : MemoryStatus

pub data Creator : Type 0 where
  human extractor reasoner : Creator

pub record Memory : Type 0 where
  pub id : ℕ
  pub space_id : ℕ
  pub content : ℕ
  pub kind : ℕ
  pub basis : ℕ
  pub about_user : Bool
  pub status : MemoryStatus
  pub valid_from : Option ℕ
  pub valid_to : Option ℕ
  pub supersedes : Option ℕ
  pub invalidated_at : Option ℕ
  pub invalidation_reason : Option ℕ
  pub source_batch : Option ℕ
  pub created_by : Creator
  pub created_at : ℕ
  pub updated_at : ℕ

pub record Continuity : Type 0 where
  pub space_id : ℕ
  pub related_person_ids : List ℕ
  pub updated_at : ℕ

-- `memory_people` holds (memory_id, person_id), `memory_relationships` (memory_id, relationship_id,
-- role).
pub record Graph : Type 0 where
  pub people : List Person
  pub aliases : List Alias
  pub relationships : List Relationship
  pub memories : List Memory
  pub memory_people : List (ℕ × ℕ)
  pub memory_relationships : List (ℕ × ℕ × ℕ)
  pub continuities : List Continuity

-- AmbiguousPersonError, and the ValueError of `_ensure_relationship`
pub data PersonError : Type 0 where
  ambiguous : ℕ → PersonError
  same_person : PersonError

abbrev pub is_active : Person → Bool
is_active p = elim p.status [ active ↦ true | merged ↦ false ]

-- `.fetchone()`
abbrev pub first_of {ℓ} : {A : Type ℓ} → (A → Bool) → List A → Option A
first_of p [] = none
first_of p (row ∷ rows) = let rest = first_of p rows in if p row then some row else rest

-- `UPDATE ... SET f WHERE p`, `DELETE ... WHERE p` and `INSERT OR IGNORE`
abbrev pub set_where {ℓ} : {A : Type ℓ} → (A → Bool) → (A → A) → List A → List A
set_where p f rows = map (λ row. if p row then f row else row) rows

abbrev pub delete_where {ℓ} : {A : Type ℓ} → (A → Bool) → List A → List A
delete_where p rows = keep (λ row. if p row then false else true) rows

abbrev pub add_unless {ℓ} : {A : Type ℓ} → (A → Bool) → A → List A → List A
add_unless conflicts row rows = if any conflicts rows then rows else rows ++ row ∷ []

unfoldable pub person_by_id : ℕ → ℕ → Graph → Option Person
person_by_id space id g = first_of (λ p. p.space_id == space && p.id == id) g.people

-- The JOIN of people and person_aliases: one row for each pair of a person and an alias of it
abbrev pub joined : ℕ → ℕ → List Alias → List Person → List Person
joined space text aliases [] = []
joined space text aliases (p ∷ ps) =
    let rest = joined space text aliases ps in
    if p.space_id == space && is_active p
    then map (λ (a : Alias). p)
        (keep (λ a. a.person_id == p.id && a.normalized_value == text) aliases)
      ++ rest
    else rest

abbrev pub only_one : ℕ → List Person → Result PersonError (Option Person)
only_one reference [] = ok none
only_one reference (p ∷ []) = ok (some p)
only_one reference (_ ∷ _ ∷ _) = err (ambiguous reference)

unfoldable pub find_person : (ℕ → ℕ) → ℕ → ℕ → Graph → Result PersonError (Option Person)
find_person normalized space reference g =
    elim (first_of (λ p. (p.space_id == space && p.id == reference) && is_active p) g.people) [
      | some p ↦ ok (some p)
      | none ↦ only_one reference (take 2 (joined space (normalized reference) g.aliases g.people))
    ]

-- The two INSERTs of `_create_person`
unfoldable pub insert_person : (ℕ → ℕ) → (person_id alias_id now space name : ℕ) → Graph → Graph
insert_person normalized person_id alias_id now space name g = record g {
  people =
      g.people
      ++ record {
        id = person_id;
        space_id = space;
        display_name = name;
        status = active;
        merged_into = none;
        profile_card = none;
        profile_source_updated_at = none;
        profile_updated_at = none;
        created_at = now;
        updated_at = now;
      }
        ∷ [];
  aliases =
      add_unless
        (λ a.
          a.id == alias_id || (a.person_id == person_id && a.normalized_value == normalized name))
        (record {
          id = alias_id;
          space_id = space;
          person_id = person_id;
          value = name;
          normalized_value = normalized name;
        })
        g.aliases;
}

unfoldable pub create_person :
    (ℕ → ℕ)
    → (person_id alias_id now space name : ℕ) → Bool
    → Graph
    → Result PersonError (ℕ × Graph)
unfolding find_person insert_person
create_person normalized person_id alias_id now space name false g =
    ok (person_id, insert_person normalized person_id alias_id now space name g)
create_person normalized person_id alias_id now space name true g =
    find_person normalized space name g >>= λ found. elim found [
      | some p ↦ ok (p.id, g)
      | none ↦ ok (person_id, insert_person normalized person_id alias_id now space name g)
    ]

-- `sorted((a, b))`
abbrev pub sorted_pair : ℕ → ℕ → ℕ × ℕ
sorted_pair a b = if ltb b a then (b, a) else (a, b)

abbrev pub is_between : ℕ → ℕ × ℕ → Relationship → Bool
is_between space pair r = (r.space_id == space && r.person_a == pair.0) && r.person_b == pair.1

-- `_ensure_relationship` after the pair is sorted
unfoldable pub ensure_pair : (new_id now space : ℕ) → ℕ × ℕ → List ℕ → Graph → ℕ × Graph
ensure_pair new_id now space pair facets g =
    elim (first_of (is_between space pair) g.relationships) [
      | some r ↦ (
        r.id,
        elim facets [
          | [] ↦ g
          | f ∷ fs ↦ record g {
            relationships =
                set_where (λ (x : Relationship). x.id == r.id)
                  (λ x. record x { facets = f ∷ fs; updated_at = now }) g.relationships;
          }
        ],
      )
      | none ↦ (
        new_id,
        record g {
          relationships =
              g.relationships
              ++ record {
                id = new_id;
                space_id = space;
                person_a = pair.0;
                person_b = pair.1;
                facets = facets;
                closeness = none;
                tone = none;
                summary = 0;
                status = none;
                profile_source_updated_at = none;
                profile_updated_at = none;
                created_at = now;
                updated_at = now;
              }
                ∷ [];
        },
      )
    ]

unfoldable pub ensure_relationship :
    (new_id now space a b : ℕ) → List ℕ → Graph → Result PersonError (ℕ × Graph)
unfolding ensure_pair
ensure_relationship new_id now space a b facets g =
    if a == b then err same_person else ok (ensure_pair new_id now space (sorted_pair a b) facets g)
