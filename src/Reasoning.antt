-- ===== src/Reasoning.antt =====
-- The tables that the reasoners' commits read and write (src/gossipmemo/store/_reasoning.py), and
-- the watermarks of src/gossipmemo/store/_projections.py. Texts are numbered as in People, 0 for
-- the empty text; `inferred` is the number of the basis of that name. An owner's id is not empty.
pub mod Inferred
pub mod Hypotheses
pub mod Apply
pub mod Contexts
pub mod Evidence
pub mod Rule
pub mod Actions
pub mod Once
pub mod Closed
mod Tests
use gossip_memo.Base.{
  ℕ, Bool, true, false, not, Option, none, some, List, [], ◌∷◌, ◌==◌, ltb, any, map, keep, max,
  ◌&&◌, ◌||◌, if◌then◌else◌,
}
use gossip_memo.People.{Memory, MemoryStatus, Relationship, Graph, first_of}
use gossip_memo.Messages.{is_same}

-- owner_kind with owner_id
pub data Owner : Type 0 where
  user_owner : Owner
  person_owner relationship_owner : ℕ → Owner

pub data HypothesisStatus : Type 0 where
  open_ promoted rejected superseded retired : HypothesisStatus

pub record Hypothesis : Type 0 where
  pub id : ℕ
  pub space_id : ℕ
  pub owner : Owner
  pub content : ℕ
  pub kind : ℕ
  pub confidence : ℕ
  pub status : HypothesisStatus
  pub status_reason : Option ℕ
  pub promoted_memory_id : Option ℕ
  pub created_at : ℕ
  pub updated_at : ℕ

pub data Role : Type 0 where
  support counter : Role

pub record UserModel : Type 0 where
  pub space_id : ℕ
  pub profile_card : Option ℕ
  pub profile_source_updated_at : Option ℕ
  pub profile_updated_at : Option ℕ

-- `derivations` are the pairs of a derived memory and a source, `evidence` the triples of a
-- hypothesis, a memory and a role.
pub record Store : Type 0 where
  pub graph : Graph
  pub derivations : List (ℕ × ℕ)
  pub hypotheses : List Hypothesis
  pub evidence : List (ℕ × ℕ × Role)
  pub user_models : List UserModel

abbrev pub is_active_memory : Memory → Bool
is_active_memory m = elim m.status [ MemoryStatus.active ↦ true | _ ↦ false ]

abbrev pub is_about_person : Graph → ℕ → ℕ → Bool
is_about_person g person memory =
    any (λ (link : ℕ × ℕ). link.0 == memory && link.1 == person) g.memory_people

abbrev pub is_about_relationship : Graph → ℕ → ℕ → Bool
is_about_relationship g relationship memory =
    any (λ (link : ℕ × ℕ × ℕ). link.0 == memory && link.1 == relationship) g.memory_relationships

-- `owner_clause`
abbrev pub is_owned : Graph → Owner → Memory → Bool
is_owned g user_owner m = m.about_user
is_owned g (person_owner person) m = is_about_person g person m.id
is_owned g (relationship_owner relationship) m = is_about_relationship g relationship m.id

-- `MAX(updated_at)`, NULL of no rows
abbrev pub later_of : ℕ → Option ℕ → ℕ
later_of a none = a
later_of a (some b) = max a b

unfoldable pub max_updated : List Memory → Option ℕ
max_updated [] = none
max_updated (m ∷ ms) = some (later_of m.updated_at (max_updated ms))

unfoldable pub person_watermark : (inferred space person : ℕ) → Graph → Option ℕ
unfolding max_updated
person_watermark inferred space person g = max_updated (
    keep (λ m. (m.space_id == space && not (m.basis == inferred)) && is_about_person g person m.id)
      g.memories)

-- The memories of a relationship: linked to it, or to both of its people
abbrev pub concerns : Graph → Relationship → ℕ → Bool
concerns g r memory =
    is_about_relationship g r.id memory
    || (is_about_person g r.person_a memory && is_about_person g r.person_b memory)

abbrev pub relationship_row : (space relationship : ℕ) → Graph → Option Relationship
relationship_row space relationship g =
    first_of (λ (r : Relationship). r.id == relationship && r.space_id == space) g.relationships

unfoldable pub relationship_watermark : (inferred space relationship : ℕ) → Graph → Option ℕ
unfolding max_updated
relationship_watermark inferred space relationship g =
    elim (relationship_row space relationship g) [
      | none ↦ none
      | some r ↦ max_updated (
          keep (λ m. (m.space_id == space && not (m.basis == inferred)) && concerns g r m.id)
            g.memories)
    ]

unfoldable pub user_model_watermark : ℕ → Graph → Option ℕ
unfolding max_updated
user_model_watermark space g =
    max_updated (keep (λ (m : Memory). m.space_id == space && m.about_user) g.memories)

-- `is_profile_stale`
abbrev pub is_profile_stale : Option ℕ → Option ℕ → Bool
is_profile_stale source none = false
is_profile_stale source (some watermark) = not (is_same source (some watermark))

-- The evidence that a reasoner of an owner was given: active, not inferred
abbrev pub is_source : (inferred space : ℕ) → Memory → Bool
is_source inferred space m =
    (m.space_id == space && is_active_memory m) && not (m.basis == inferred)

abbrev pub memory_ids : List Memory → List ℕ
memory_ids ms = map (λ (m : Memory). m.id) ms

unfoldable pub person_reasoning_source_ids : (inferred space person : ℕ) → Graph → List ℕ
person_reasoning_source_ids inferred space person g =
    memory_ids (keep (λ m. is_source inferred space m && is_about_person g person m.id) g.memories)

unfoldable pub relationship_reasoning_source_ids :
    (inferred space relationship : ℕ) → Graph → List ℕ
relationship_reasoning_source_ids inferred space relationship g =
    elim (relationship_row space relationship g) [
      | none ↦ []
      | some r ↦ memory_ids (keep (λ m. is_source inferred space m && concerns g r m.id) g.memories)
    ]

unfoldable pub user_reasoning_source_ids : (inferred space : ℕ) → Graph → List ℕ
user_reasoning_source_ids inferred space g =
    memory_ids (keep (λ m. is_source inferred space m && m.about_user) g.memories)
