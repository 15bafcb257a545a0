-- ===== src/People/Extracted.antt =====
-- What `apply_extraction` of src/gossipmemo/store/_messages.py writes of an ExtractionResult
-- (src/gossipmemo/models/llm_schemas.py) into the people, memories and relationships. Its frame,
-- the batch and the messages, is in Messages/Extraction.
pub mod Write
use gossip_memo.Base.{
  ℕ, suc, Bool, true, false, not, Option, none, some, List, [], ◌∷◌, ◌++◌, ◌==◌, length, any, all,
  map, keep, ◌&&◌, ◌||◌, if◌then◌else◌,
}
use gossip_memo.Base.Results.{Result, ok, err, ◌>>=◌}
use gossip_memo.People.{
  Person, Relationship, Memory, superseded, extractor, Graph, PersonError, first_of, set_where,
  add_unless, find_person, create_person, ensure_relationship,
}
use gossip_memo.People.MemoryStatus.{active}
use gossip_memo.People.Memories.{is_active_memory, invalidate, add_person, value_or}
use gossip_memo.People.Merge.{add_id}

pub record ExtractedPerson : Type 0 where
  pub ref : ℕ
  pub display_name : ℕ
  pub aliases : List ℕ

pub record ExtractedRelationship : Type 0 where
  pub person_a_ref : ℕ
  pub person_b_ref : ℕ
  pub facets : List ℕ

pub record ExtractedMemory : Type 0 where
  pub content : ℕ
  pub kind : ℕ
  pub basis : ℕ
  pub people : List ℕ
  pub relationships : List ExtractedRelationship
  pub valid_from : Option ℕ
  pub valid_to : Option ℕ
  pub about_user : Bool
  pub supersedes : Option ℕ

pub record ExtractionResult : Type 0 where
  pub people : List ExtractedPerson
  pub memories : List ExtractedMemory

-- The tables, and how many ids have been drawn
pub record Drawing : Type 0 where
  pub graph : Graph
  pub drawn : ℕ

-- An entry of `inserted_signatures`
pub record Signature : Type 0 where
  pub memory : ExtractedMemory
  pub people_ids : List ℕ
  pub relationship_ids : List ℕ

pub record Writing : Type 0 where
  pub drawing : Drawing
  pub affected_people : List ℕ
  pub affected_relationships : List ℕ
  pub inserted : List Signature

abbrev pub same_text : Option ℕ → Option ℕ → Bool
same_text none none = true
same_text (some a) (some b) = a == b
same_text _ _ = false

abbrev pub is_in : List ℕ → ℕ → Bool
is_in ids id = any (λ other. other == id) ids

-- `==` of two sets
abbrev pub same_set : List ℕ → List ℕ → Bool
same_set xs ys = all (is_in ys) xs && all (is_in xs) ys

abbrev pub same_bool : Bool → Bool → Bool
same_bool true b = b
same_bool false b = not b

abbrev pub add_all : List ℕ → List ℕ → List ℕ
add_all [] ids = ids
add_all (x ∷ xs) ids = add_all xs (add_id x ids)
