-- ===== src/People/Tests.antt =====
-- Runs of the operations on people and memories, and the theorems at concrete inputs.
use gossip_memo.Base.{
  ℕ, suc, ◌<◌, ◌==◌, ◌&&◌, true, false, none, some, List, [], ◌∷◌, ◌≡◌, refl, arith, any, All, ◌+◌,
}
use gossip_memo.Base.Results.{ok, err}
use gossip_memo.People.{
  Person, Alias, Relationship, Memory, Graph, human, same_person, person_by_id, find_person,
  ensure_relationship,
}
use gossip_memo.People.PersonStatus.{active, merged}
use gossip_memo.People.{MemoryStatus as MemoryStatus}
use gossip_memo.People.Merge.{
  merge_person, merge_found, merge_active, close_merge, move_rows, merge_relationships, touches,
}
use gossip_memo.People.Memories.{
  supersede_row, SupersedeRequest, supersede_memory, retract_row, retract_memory,
}
use gossip_memo.People.Merging.{IsMergedAway, merge_person_leaves_nothing, merge_person_again}
use gossip_memo.People.Lifecycle.{
  supersede_memory_once, retract_memory_twice, ensure_relationship-swap,
}
use gossip_memo.People.Extracted.{ExtractedMemory, ExtractionResult, Drawing}
use gossip_memo.People.Extracted.Write.{
  insert_people, insert_relationships, insert_memory, write_memory, write_memories,
  write_extraction, resolve,
}

abbrev named : ℕ → Person
named id = record {
  id = id;
  space_id = 7;
  display_name = id + 100;
  status = active;
  merged_into = none;
  profile_card = none;
  profile_source_updated_at = none;
  profile_updated_at = none;
  created_at = 1;
  updated_at = 1;
}

abbrev called : ℕ → ℕ → Alias
called id person = record {
  id = id;
  space_id = 7;
  person_id = person;
  value = person + 100;
  normalized_value = person + 100;
}

abbrev pair : ℕ → ℕ → ℕ → Relationship
pair id a b = record {
  id = id;
  space_id = 7;
  person_a = a;
  person_b = b;
  facets = 5 ∷ [];
  closeness = none;
  tone = none;
  summary = 6;
  status = none;
  profile_source_updated_at = none;
  profile_updated_at = none;
  created_at = 1;
  updated_at = 1;
}

abbrev remembered : ℕ → Memory
remembered id = record {
  id = id;
  space_id = 7;
  content = 60;
  kind = 1;
  basis = 2;
  about_user = false;
  status = MemoryStatus.active;
  valid_from = none;
  valid_to = none;
  supersedes = none;
  invalidated_at = none;
  invalidation_reason = none;
  source_batch = none;
  created_by = human;
  created_at = 1;
  updated_at = 1;
}

-- Three people, each related to the others, and a memory that is about the first.
abbrev three : Graph
three = record {
  people = named 1 ∷ named 2 ∷ named 3 ∷ [];
  aliases = called 11 1 ∷ called 12 2 ∷ called 13 3 ∷ [];
  relationships = pair 21 1 2 ∷ pair 22 1 3 ∷ pair 23 2 3 ∷ [];
  memories = remembered 31 ∷ [];
  memory_people = (31, 1) ∷ [];
  memory_relationships = (31, 22, 9) ∷ [];
  continuities = [];
}

abbrev fresh : ℕ → ℕ
fresh id = id + 1000

abbrev merged_three : Graph × List ℕ
merged_three = merge_active fresh 50 7 1 2 three

merge_three : merge_person fresh 50 7 1 2 three ≡ ok merged_three
unfolding merge_person merge_found person_by_id
merge_three = refl

-- The first two people's relationship is gone, the first and third's is folded into the other.
merge_three-affected : merged_three.1 ≡ 23 ∷ []
unfolding merge_active close_merge move_rows merge_relationships touches
merge_three-affected = refl

first_of_three : person_by_id 7 1 three ≡ some (named 1)
unfolding person_by_id
first_of_three = refl

ordered_three : All (λ (r : Relationship). r.person_a < r.person_b) three.relationships
ordered_three = (omega arith, (omega arith, (omega arith, tt)))

merge_person_leaves_nothing_example :
    IsMergedAway 7 1 merged_three.0
    × (person_by_id 7 1 merged_three.0
        ≡ some (record (named 1) { status = merged; merged_into = some 2; updated_at = 50 }))
merge_person_leaves_nothing_example =
    merge_person_leaves_nothing fresh 50 7 1 2 three merged_three.0 merged_three.1 (named 1)
      ordered_three first_of_three refl merge_three

merge_person_again_example : merge_person suc 60 7 1 2 merged_three.0 ≡ ok (merged_three.0, [])
merge_person_again_example =
    merge_person_again fresh suc 50 60 7 1 2 three merged_three.0 merged_three.1 (named 1)
      first_of_three refl merge_three

abbrev correction : SupersedeRequest
correction = record {
  content = 61;
  kind = none;
  valid_from = none;
  valid_to = none;
  about_user = none;
  reason = none;
}

abbrev corrected : Graph
corrected = supersede_row 3 32 50 7 31 correction (remembered 31) three

supersede_three : supersede_memory 3 32 50 7 31 correction three ≡ (corrected, some 32)
unfolding supersede_memory
supersede_three = refl

supersede_memory_once_example :
    (supersede_memory 3 33 51 7 31 correction corrected ≡ (corrected, none))
    × ((person : ℕ)
        → any (λ (row : ℕ × ℕ). row.0 == 31 && row.1 == person) three.memory_people ≡ true
        → any (λ (row : ℕ × ℕ). row.0 == 32 && row.1 == person) corrected.memory_people ≡ true)
supersede_memory_once_example =
    supersede_memory_once 3 32 33 50 51 7 31 32 correction correction three corrected
      supersede_three

abbrev retracted_three : Graph
retracted_three = retract_row 50 31 (some 4) three

retract_three : retract_memory 50 7 31 (some 4) three ≡ (retracted_three, true)
unfolding retract_memory
retract_three = refl

retract_memory_twice_example : retract_memory 51 7 31 none retracted_three ≡ (retracted_three, true)
retract_memory_twice_example =
    retract_memory_twice 50 51 7 31 (some 4) none three retracted_three retract_three

swap_three :
    ensure_relationship 40 50 7 2 1 (5 ∷ []) three ≡ ensure_relationship 40 50 7 1 2 (5 ∷ []) three
swap_three = ensure_relationship-swap 40 50 7 2 1 (5 ∷ []) three

-- A memory that calls the first person by two references, and relates them
abbrev themselves : ExtractedMemory
themselves = record {
  content = 62;
  kind = 1;
  basis = 2;
  people = [];
  relationships = record { person_a_ref = 71; person_b_ref = 101; facets = [] } ∷ [];
  valid_from = none;
  valid_to = none;
  about_user = false;
  supersedes = none;
}

-- The graph with a second alias of the first person
abbrev nicknamed : Graph
nicknamed = record three {
  aliases =
      record { id = 14; space_id = 7; person_id = 1; value = 71; normalized_value = 71 }
      ∷ three.aliases;
}

abbrev answered : ExtractionResult
answered = record { people = []; memories = themselves ∷ [] }

abbrev drawing : Drawing
drawing = record { graph = nicknamed; drawn = 0 }

abbrev same : ℕ → ℕ
same text = text

-- Nothing is repeated here: the extraction is aborted.
self_aborted :
    write_extraction same ◌==◌ fresh 8 9 50 7 41 90 (31 ∷ []) answered drawing ≡ err same_person
unfolding write_extraction write_memories write_memory insert_memory insert_relationships resolve
    find_person ensure_relationship insert_people
self_aborted = refl
