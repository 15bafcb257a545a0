-- ===== src/Reasoning/Apply.antt =====
-- The commits of src/gossipmemo/store/_reasoning.py. Each is one transaction that begins with an
-- optimistic check of the watermark that the reasoner had read.
use gossip_memo.Base.{
  ℕ, Bool, true, false, Option, none, some, List, [], ◌==◌, ltb, map, keep, length, ◌&&◌,
  if◌then◌else◌,
}
use gossip_memo.People.{Person, is_active, Relationship, Graph, set_where}
use gossip_memo.Messages.{is_same}
use gossip_memo.Reasoning.{
  user_owner, person_owner, relationship_owner, UserModel, Store, person_watermark,
  relationship_watermark, user_model_watermark, is_profile_stale, person_reasoning_source_ids,
  relationship_reasoning_source_ids, user_reasoning_source_ids,
}
use gossip_memo.Reasoning.Inferred.{InferredMemory, InferredActions, apply_inferred_memory_actions}
use gossip_memo.Reasoning.Hypotheses.{HypothesisActions, apply_hypothesis_actions}

pub record PersonResult : Type 0 where
  pub profile_card : ℕ
  pub inferred_memories : List InferredMemory
  pub inferred_memory_actions : Option InferredActions
  pub hypothesis_actions : Option HypothesisActions

pub record RelationshipResult : Type 0 where
  pub facets : List ℕ
  pub closeness : Option ℕ
  pub tone : Option ℕ
  pub status : Option ℕ
  pub summary : ℕ
  pub inferred_memories : List InferredMemory
  pub inferred_memory_actions : Option InferredActions
  pub hypothesis_actions : Option HypothesisActions

pub record UserModelResult : Type 0 where
  pub profile_card : ℕ
  pub hypothesis_actions : Option HypothesisActions

-- What the calls of `new_id` and `now_iso` give: to the loops over upserts, over retractions and
-- over transitions, and to the commit itself
pub record Draws : Type 0 where
  pub inferred : ℕ → ℕ × ℕ
  pub retracted : ℕ → ℕ
  pub hypotheses : ℕ → ℕ × ℕ
  pub transitions : ℕ → ℕ
  pub now : ℕ

-- `profile_source_updated_at IS NULL OR profile_source_updated_at < ?`
abbrev pub is_older : Option ℕ → Option ℕ → Bool
is_older none expected = true
is_older (some source) none = false
is_older (some source) (some expected) = ltb source expected

abbrev pub actions_or : List InferredMemory → Option InferredActions → InferredActions
actions_or upserts none = record { upserts = upserts; retractions = [] }
actions_or upserts (some actions) = actions

abbrev pub hypotheses_if :
    (HypothesisActions → Store → Store) → Option HypothesisActions → Store → Store
hypotheses_if apply none s = s
hypotheses_if apply (some actions) s = apply actions s

abbrev pub with_people : (List Person → List Person) → Store → Store
with_people f s = record s { graph = record s.graph { people = f s.graph.people } }

abbrev pub with_relationships : (List Relationship → List Relationship) → Store → Store
with_relationships f s = record s {
  graph = record s.graph { relationships = f s.graph.relationships };
}

abbrev pub carded : (now card : ℕ) → Option ℕ → Person → Person
carded now card watermark p = record p {
  profile_card = some card;
  profile_source_updated_at = watermark;
  profile_updated_at = some now;
  updated_at = now;
}

-- The WHERE of the claiming UPDATE, of a row. An id is a primary key: at most one row has it.
abbrev pub is_claimed : (space person : ℕ) → Option ℕ → Person → Bool
is_claimed space person expected p =
    (p.space_id == space && p.id == person) && is_older p.profile_source_updated_at expected

module _ (similar : ℕ → ℕ → Bool) (inferred : ℕ) (draws : Draws) where
  -- The inferences and hypotheses of a person's result
  unfoldable pub act_on_person :
      (space person : ℕ) → PersonResult → (memories hypotheses : List ℕ) → Store → Store
  unfolding apply_inferred_memory_actions apply_hypothesis_actions person_reasoning_source_ids
  act_on_person space person result memories hypotheses s =
      let s1 =
        apply_inferred_memory_actions similar inferred space (person_owner person)
          (person_reasoning_source_ids inferred space person s.graph) memories draws.inferred
          draws.retracted (actions_or result.inferred_memories result.inferred_memory_actions) s in
      hypotheses_if
        (apply_hypothesis_actions inferred space (person_owner person)
          (person_reasoning_source_ids inferred space person s1.graph) hypotheses draws.hypotheses
          draws.transitions)
        result.hypothesis_actions s1

  -- What is written when the claiming UPDATE has set one row
  unfoldable pub commit_person :
      (space person : ℕ) → Option ℕ → PersonResult → (memories hypotheses : List ℕ) → Store → Store
  unfolding act_on_person person_watermark
  commit_person space person expected result memories hypotheses s =
      let s1 =
        with_people
          (set_where (is_claimed space person expected)
            (carded draws.now result.profile_card expected))
          s in
      let s2 = act_on_person space person result memories hypotheses s1 in
      with_people
        (set_where (λ (p : Person). p.id == person)
          (carded draws.now result.profile_card (person_watermark inferred space person s2.graph)))
        s2

  unfoldable pub apply_person_reasoning :
      (space person : ℕ)
      → Option ℕ
      → PersonResult
      → (memories hypotheses : List ℕ) → Store
      → Store × Bool
  unfolding commit_person person_watermark
  apply_person_reasoning space person expected result memories hypotheses s =
      if is_same expected (person_watermark inferred space person s.graph)
        && length (keep (is_claimed space person expected) s.graph.people) == 1
      then (commit_person space person expected result memories hypotheses s, true)
      else (s, false)

  unfoldable pub act_on_relationship :
      (space relationship : ℕ) → RelationshipResult → (memories hypotheses : List ℕ) → Store → Store
  unfolding apply_inferred_memory_actions apply_hypothesis_actions relationship_reasoning_source_ids
  act_on_relationship space relationship result memories hypotheses s =
      let s1 =
        apply_inferred_memory_actions similar inferred space (relationship_owner relationship)
          (relationship_reasoning_source_ids inferred space relationship s.graph) memories
          draws.inferred draws.retracted
          (actions_or result.inferred_memories result.inferred_memory_actions) s in
      hypotheses_if
        (apply_hypothesis_actions inferred space (relationship_owner relationship)
          (relationship_reasoning_source_ids inferred space relationship s1.graph) hypotheses
          draws.hypotheses draws.transitions)
        result.hypothesis_actions s1

  -- Both UPDATEs set the same columns.
  abbrev pub described : RelationshipResult → Option ℕ → Relationship → Relationship
  described result watermark r = record r {
    facets = result.facets;
    closeness = result.closeness;
    tone = result.tone;
    status = result.status;
    summary = result.summary;
    profile_source_updated_at = watermark;
    profile_updated_at = some draws.now;
    updated_at = draws.now;
  }

  unfoldable pub apply_relationship_reasoning :
      (space relationship : ℕ)
      → Option ℕ
      → RelationshipResult
      → (memories hypotheses : List ℕ) → Store
      → Store × Bool
  unfolding act_on_relationship relationship_watermark
  apply_relationship_reasoning space relationship expected result memories hypotheses s =
      let claims : Relationship → Bool = λ r. r.space_id == space && r.id == relationship in
      if is_same (relationship_watermark inferred space relationship s.graph) expected
        && length (keep claims s.graph.relationships) == 1
      then (
        let s1 = with_relationships (set_where claims (described result expected)) s in
            let s2 = act_on_relationship space relationship result memories hypotheses s1 in
            with_relationships
              (set_where (λ (r : Relationship). r.id == relationship)
                (described result (relationship_watermark inferred space relationship s2.graph)))
              s2,
        true,
      )
      else (s, false)

  unfoldable pub apply_user_model_reasoning :
      (space : ℕ) → Option ℕ → UserModelResult → List ℕ → Store → Store × Bool
  unfolding user_model_watermark apply_hypothesis_actions user_reasoning_source_ids
  apply_user_model_reasoning space expected result hypotheses s =
      let claims : UserModel → Bool =
        λ u. u.space_id == space && is_older u.profile_source_updated_at expected in
      if is_same (user_model_watermark space s.graph) expected
        && length (keep claims s.user_models) == 1
      then (
        let s1 = record s {
          user_models =
              set_where claims
                (λ u. record u {
                  profile_card = some result.profile_card;
                  profile_source_updated_at = expected;
                  profile_updated_at = some draws.now;
                })
                s.user_models;
        } in
            hypotheses_if
              (apply_hypothesis_actions inferred space user_owner
                (user_reasoning_source_ids inferred space s1.graph) hypotheses draws.hypotheses
                draws.transitions)
              result.hypothesis_actions s1,
        true,
      )
      else (s, false)

-- `overwrite_user_model` in a space that is there, as `ensure_space` sees to
unfoldable pub overwrite_user_model : (now space card : ℕ) → Store → Store
unfolding user_model_watermark
overwrite_user_model now space card s = record s {
  user_models =
      set_where (λ (u : UserModel). u.space_id == space)
        (λ u. record u {
          profile_card = some card;
          profile_source_updated_at = user_model_watermark space s.graph;
          profile_updated_at = some now;
        })
        s.user_models;
}

-- The WHERE of the people in `stale_entities`: SQL compares nothing with NULL
abbrev pub is_stale_person : (inferred : ℕ) → Graph → Person → Bool
is_stale_person inferred g p = elim (person_watermark inferred p.space_id p.id g) [
  | none ↦ false
  | some watermark ↦ is_active p && is_older p.profile_source_updated_at (some watermark)
]

unfoldable pub stale_entities : ℕ → Store → List (ℕ × ℕ) × List (ℕ × ℕ) × List ℕ
unfolding person_watermark relationship_watermark user_model_watermark
stale_entities inferred s = (
  map (λ (p : Person). (p.space_id, p.id)) (keep (is_stale_person inferred s.graph) s.graph.people),
  map (λ (r : Relationship). (r.space_id, r.id))
      (keep
        (λ r.
          is_profile_stale r.profile_source_updated_at
            (relationship_watermark inferred r.space_id r.id s.graph))
        s.graph.relationships),
  map (λ (u : UserModel). u.space_id)
      (keep
        (λ u.
          is_profile_stale u.profile_source_updated_at (user_model_watermark u.space_id s.graph))
        s.user_models),
)
