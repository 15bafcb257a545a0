-- ===== src/Reasoning/Tests.antt =====
-- A commit of a person's reasoning, and the theorems at concrete inputs.
use gossip_memo.Base.{ℕ, ◌+◌, Bool, true, false, none, some, [], ◌∷◌, ◌≡◌, refl, arith, ◌==◌}
use gossip_memo.Base.Results.{Result, ok}
use gossip_memo.People.{Person, Memory, human, reasoner}
use gossip_memo.People.PersonStatus.{active}
use gossip_memo.People.{MemoryStatus as MemoryStatus}
use gossip_memo.Coverage.Keys.{HasDistinctIds}
use gossip_memo.Reasoning.{
  person_owner, open_, rejected, retired, promoted, Hypothesis, support, Store, person_watermark,
  max_updated, person_reasoning_source_ids,
}
use gossip_memo.Reasoning.Inferred.{
  apply_inferred_memory_actions, reconcile_inferred_memories, reconcile_all, reconcile_one,
  existing_rows, valid_sources, insert_inferred, add_derivations, retract_all, retract_inferred,
}
use gossip_memo.Reasoning.Hypotheses.{
  HypothesisActions, apply_hypothesis_actions, upsert_all, upsert_hypothesis, evidence_ids,
  write_hypothesis, add_evidence, transition_all, transition_hypothesis, is_allowed,
}
use gossip_memo.Reasoning.Apply.{
  PersonResult, Draws, act_on_person, commit_person, apply_person_reasoning, stale_entities,
}
use gossip_memo.Reasoning.Contexts.{owner_review_context, person_context}
use gossip_memo.Reasoner.{attempt, run_until_caught_up}
use gossip_memo.Reasoner.Owners.{Snapshot, load_person, person_reasoner}
use gossip_memo.Reasoning.Once.{apply_person_reasoning-once}
use gossip_memo.Reasoning.Closed.{apply_hypothesis_actions-Mem}
use mathlib.Core.List.{Memᴰ}
use mathlib.Core.Bool.{false≢true}

abbrev alice : Person
alice = record {
  id = 1;
  space_id = 7;
  display_name = 100;
  status = active;
  merged_into = none;
  profile_card = none;
  profile_source_updated_at = none;
  profile_updated_at = none;
  created_at = 1;
  updated_at = 1;
}

abbrev stated : ℕ → ℕ → Memory
stated id at = record {
  id = id;
  space_id = 7;
  content = 60;
  kind = 1;
  basis = 2;
  about_user = false;
  status = MemoryStatus.active;
  valid_from = none;
  valid_to = none;
  supersedes = none;
  invalidated_at = none;
  invalidation_reason = none;
  source_batch = none;
  created_by = human;
  created_at = 1;
  updated_at = at;
}

-- 9 is the number of 'inferred'.
abbrev induced : ℕ → ℕ → Memory
induced id at = record (stated id at) { basis = 9; created_by = reasoner }

abbrev supposed : ℕ → Hypothesis
supposed id = record {
  id = id;
  space_id = 7;
  owner = person_owner 1;
  content = 64;
  kind = 1;
  confidence = 1;
  status = open_;
  status_reason = none;
  promoted_memory_id = none;
  created_at = 1;
  updated_at = 1;
}

abbrev settled_one : Hypothesis
settled_one = record (supposed 51) { status = retired }

-- One person, two memories and an older inference of it, a closed and an open hypothesis
abbrev known_alice : Store
known_alice = record {
  graph = record {
    people = alice ∷ [];
    aliases = [];
    relationships = [];
    memories = stated 31 10 ∷ stated 32 12 ∷ induced 33 11 ∷ [];
    memory_people = (31, 1) ∷ (32, 1) ∷ (33, 1) ∷ [];
    memory_relationships = [];
    continuities = [];
  };
  derivations = (33, 31) ∷ [];
  hypotheses = settled_one ∷ supposed 52 ∷ [];
  evidence = [];
  user_models = [];
}

abbrev fresh_ids : Draws
fresh_ids = record {
  inferred = λ n. (n + 500, 50);
  retracted = λ n. 50;
  hypotheses = λ n. (n + 600, 50);
  transitions = λ n. 50;
  now = 50;
}

-- A new inference, the retraction of the old one, one hypothesis more, and transitions of all three
abbrev judged : HypothesisActions
judged = record {
  upserts =
      record {
        hypothesis_id = none;
        content = 65;
        kind = 1;
        confidence = 1;
        evidence = record { memory_id = 31; role = support } ∷ [];
      }
      ∷ [];
  transitions =
      record { hypothesis_id = 51; status = rejected; reason = 73; promoted_memory_id = none }
      ∷ record { hypothesis_id = 52; status = promoted; reason = 73; promoted_memory_id = some 32 }
      ∷ [];
}

abbrev induction : PersonResult
induction = record {
  profile_card = 90;
  inferred_memories = [];
  inferred_memory_actions = some (record {
    upserts = record { content = 61; kind = 1; source_memory_ids = 31 ∷ 33 ∷ [] } ∷ [];
    retractions = record { memory_id = 33; reason = 74 } ∷ [];
  });
  hypothesis_actions = some judged;
}

abbrev unlike : ℕ → ℕ → Bool
unlike a b = a == b

abbrev committed : Store
committed =
    (apply_person_reasoning unlike 9 fresh_ids 7 1 (some 12) induction (33 ∷ []) (51 ∷ 52 ∷ [])
      known_alice).0

-- What is stored: the card at its watermark, the inference with its one valid source, the old one
-- retracted, the promotion, and the hypothesis that was closed as it was
committed_store :
    apply_person_reasoning unlike 9 fresh_ids 7 1
      (some 12)
      induction
      (33 ∷ [])
      (51 ∷ 52 ∷ [])
      known_alice
    ≡ (
      record {
        graph = record known_alice.graph {
          people =
              record alice {
                profile_card = some 90;
                profile_source_updated_at = some 12;
                profile_updated_at = some 50;
                updated_at = 50;
              }
              ∷ [];
          memories =
              stated 31 10
              ∷ stated 32 12
              ∷ record (induced 33 11) {
                status = MemoryStatus.retracted;
                invalidated_at = some 50;
                invalidation_reason = some 74;
                updated_at = 50;
              }
              ∷ record (induced 500 50) { content = 61; created_at = 50 }
              ∷ [];
          memory_people = (31, 1) ∷ (32, 1) ∷ (33, 1) ∷ (500, 1) ∷ [];
        };
        derivations = (33, 31) ∷ (500, 31) ∷ [];
        hypotheses =
            settled_one
            ∷ record (supposed 52) {
              status = promoted;
              status_reason = some 73;
              promoted_memory_id = some 32;
              updated_at = 50;
            }
            ∷ record (supposed 600) { content = 65; created_at = 50; updated_at = 50 }
            ∷ [];
        evidence = (600, 31, support) ∷ [];
        user_models = [];
      },
      true,
    )
unfolding apply_person_reasoning commit_person act_on_person person_watermark max_updated
    person_reasoning_source_ids apply_inferred_memory_actions reconcile_inferred_memories
    reconcile_all reconcile_one existing_rows valid_sources insert_inferred add_derivations
    retract_all retract_inferred apply_hypothesis_actions upsert_all upsert_hypothesis evidence_ids
    write_hypothesis add_evidence transition_all transition_hypothesis is_allowed
committed_store = refl

committed_refl :
    apply_person_reasoning unlike 9 fresh_ids 7 1
      (some 12)
      induction
      (33 ∷ [])
      (51 ∷ 52 ∷ [])
      known_alice
    ≡ (committed, true)
unfolding apply_person_reasoning person_watermark max_updated
committed_refl = refl

distinct_alice : HasDistinctIds known_alice.graph.memories
distinct_alice = ((refl, (refl, tt)), ((refl, tt), (tt, tt)))

apply_person_reasoning-once_example :
    apply_person_reasoning unlike 9 fresh_ids 7 1 (some 12) induction [] [] committed
    ≡ (committed, false)
apply_person_reasoning-once_example =
    apply_person_reasoning-once unlike unlike 9 fresh_ids fresh_ids 7 1 12 induction induction
      (33 ∷ []) (51 ∷ 52 ∷ []) [] [] known_alice committed distinct_alice (λ n. ground arith)
      committed_refl

apply_hypothesis_actions-Mem_example :
    Memᴰ settled_one
      (apply_hypothesis_actions 9 7
        (person_owner 1)
        (31 ∷ 32 ∷ [])
        (51 ∷ 52 ∷ [])
        fresh_ids.hypotheses
        fresh_ids.transitions
        judged
        known_alice).hypotheses
apply_hypothesis_actions-Mem_example =
    apply_hypothesis_actions-Mem settled_one 9 7 (person_owner 1) (31 ∷ 32 ∷ []) (51 ∷ 52 ∷ [])
      fresh_ids.hypotheses fresh_ids.transitions judged known_alice (Memᴰ.head refl)
      ((λ e. refl), ((λ e. absurd (false≢true e)), tt)) (λ n. ground arith)

abbrev answer : Store → Snapshot Person → Result ℕ (PersonResult × Draws)
answer s found = ok (induction, fresh_ids)

-- The person reasoner ends on that store after one commit, with no card left stale.
one_commit :
    run_until_caught_up (person_reasoner unlike 9 7 answer) 1 (λ turn. true) known_alice
    ≡ some (
      (apply_person_reasoning unlike 9 fresh_ids 7 1
          (some 12)
          induction
          (33 ∷ [])
          (52 ∷ [])
          known_alice).0,
      ok tt,
    )
unfolding run_until_caught_up attempt person_reasoner load_person stale_entities person_context
    owner_review_context apply_person_reasoning person_watermark max_updated
one_commit = refl

none_stale : stale_entities 9 committed ≡ ([], [], [])
unfolding stale_entities apply_person_reasoning commit_person act_on_person person_watermark
    max_updated person_reasoning_source_ids apply_inferred_memory_actions
    reconcile_inferred_memories reconcile_all reconcile_one existing_rows valid_sources
    insert_inferred add_derivations retract_all retract_inferred apply_hypothesis_actions upsert_all
    upsert_hypothesis evidence_ids write_hypothesis add_evidence transition_all
    transition_hypothesis is_allowed
none_stale = refl
