-- ===== src/Reasoner/Owners.antt =====
-- The reasoners of people, relationships and the user model: src/gossipmemo/reasoners/person.py,
-- src/gossipmemo/reasoners/relationship.py and src/gossipmemo/reasoners/user_model.py on the store of
-- Reasoning. What the model answers, with the ids and times that its commit
-- draws, or what its request raises, is an argument.
use gossip_memo.Base.{
  ℕ, Bool, true, false, not, Option, none, some, List, [], ◌∷◌, ◌==◌, any, map, keep, ◌||◌,
  if◌then◌else◌,
}
use gossip_memo.Base.Results.{Result, ok, ◌>>=◌}
use gossip_memo.People.{Person, Relationship, Memory}
use gossip_memo.Reasoning.{
  user_owner, person_owner, relationship_owner, Hypothesis, Role, UserModel, Store, memory_ids,
}
use gossip_memo.Reasoning.Contexts.{
  owner_review_context, user_model_context, person_context, relationship_context,
}
use gossip_memo.Reasoning.Apply.{
  PersonResult, RelationshipResult, UserModelResult, Draws, apply_person_reasoning,
  apply_relationship_reasoning, apply_user_model_reasoning, stale_entities,
}
use gossip_memo.Reasoner.{Descriptor, until_applied}

-- `_PersonTarget` and `_RelationshipTarget`: what was read is none when the target is no longer stale.
pub record Snapshot {ℓ} (A : Type ℓ) : Type ℓ where
  pub card : A
  pub memories : List Memory
  pub watermark : Option ℕ
  pub inferred : List Memory
  pub hypotheses : List (Hypothesis × List (ℕ × Role))

pub record Target {ℓ} (A : Type ℓ) : Type ℓ where
  pub id : ℕ
  pub more_targets : Bool
  pub snapshot : Option (Snapshot A)

abbrev pub hypothesis_ids : List (Hypothesis × List (ℕ × Role)) → List ℕ
hypothesis_ids hs = map (λ (h : Hypothesis × List (ℕ × Role)). h.0.id) hs

-- The ids of one space among the pairs of a space and an id
abbrev pub of_space : ℕ → List (ℕ × ℕ) → List ℕ
of_space space pairs =
    map (λ (pair : ℕ × ℕ). pair.1) (keep (λ (pair : ℕ × ℕ). pair.0 == space) pairs)

abbrev pub has_more : List ℕ → Bool
has_more [] = false
has_more (id ∷ ids) = true

-- The read of a target that is stale
abbrev pub snapshot_of {ℓ} :
    {A : Type ℓ}
    → Option (A × Bool × List Memory × Option ℕ)
    → List Memory × List (Hypothesis × List (ℕ × Role))
    → Option (Snapshot A)
snapshot_of none review = none
snapshot_of (some (card, false, memories, watermark)) review = none
snapshot_of (some (card, true, memories, watermark)) review = some (record {
  card = card;
  memories = memories;
  watermark = watermark;
  inferred = review.0;
  hypotheses = review.1;
})

-- The first target of the space
unfoldable pub load_person : (inferred space : ℕ) → Store → Option (Target Person)
unfolding stale_entities person_context owner_review_context
load_person inferred space s = elim (of_space space (stale_entities inferred s).0) [
  | [] ↦ none
  | person ∷ more ↦ some (record {
    id = person;
    more_targets = has_more more;
    snapshot =
        snapshot_of (person_context inferred space person true s)
          (owner_review_context inferred space (person_owner person) s);
  })
]

unfoldable pub load_relationship : (inferred space : ℕ) → Store → Option (Target Relationship)
unfolding stale_entities relationship_context owner_review_context
load_relationship inferred space s = elim (of_space space (stale_entities inferred s).1) [
  | [] ↦ none
  | relationship ∷ more ↦ some (record {
    id = relationship;
    more_targets = has_more more;
    snapshot =
        snapshot_of (relationship_context inferred space relationship true s)
          (owner_review_context inferred space (relationship_owner relationship) s);
  })
]

-- The evidence that is folded leaves the inferred memories out.
unfoldable pub load_user_model : (inferred space : ℕ) → Store → Option (Snapshot UserModel)
unfolding stale_entities user_model_context owner_review_context
load_user_model inferred space s =
    if any (λ (stale : ℕ). stale == space) (stale_entities inferred s).2
    then (elim (snapshot_of (user_model_context space true s)
        (owner_review_context inferred space user_owner s)) [
          | none ↦ none
          | some found ↦ some (record found {
            memories = keep (λ (m : Memory). not (m.basis == inferred)) found.memories;
          })
        ])
    else none

-- `context.more_targets or not applied`
abbrev pub until_last {ℓ κ} : {A : Type ℓ} {R : Type κ} → Target A → Option R → Bool → Bool
until_last target result applied = target.more_targets || not applied

abbrev pub call_on {ℓ κ} :
    {A : Type ℓ} {R : Type κ} {E : Type 0}
    → (Store → Snapshot A → Result E R)
    → Store
    → Target A
    → Result E (Option R)
call_on reason s target = elim target.snapshot [
  | none ↦ ok none
  | some found ↦ reason s found >>= λ result. ok (some result)
]

-- The ids that the apply step passes on as shown
abbrev pub shown {ℓ} : {A : Type ℓ} → Option (Snapshot A) → Option ℕ × List ℕ × List ℕ
shown none = (none, [], [])
shown (some found) = (found.watermark, memory_ids found.inferred, hypothesis_ids found.hypotheses)

module _ (similar : ℕ → ℕ → Bool) (inferred space : ℕ) {E : Type 0} where
  unfoldable pub person_reasoner :
      (Store → Snapshot Person → Result E (PersonResult × Draws))
      → Descriptor Store (Target Person) (PersonResult × Draws) E
  unfolding load_person apply_person_reasoning
  person_reasoner reason = record {
    load_context = load_person inferred space;
    call = call_on reason;
    apply = λ s target result.
        apply_person_reasoning similar inferred result.1 space target.id (shown target.snapshot).0
          result.0 (shown target.snapshot).1 (shown target.snapshot).2 s;
    continue_when = until_last;
  }

  unfoldable pub relationship_reasoner :
      (Store → Snapshot Relationship → Result E (RelationshipResult × Draws))
      → Descriptor Store (Target Relationship) (RelationshipResult × Draws) E
  unfolding load_relationship apply_relationship_reasoning
  relationship_reasoner reason = record {
    load_context = load_relationship inferred space;
    call = call_on reason;
    apply = λ s target result.
        apply_relationship_reasoning similar inferred result.1 space target.id
          (shown target.snapshot).0 result.0 (shown target.snapshot).1 (shown target.snapshot).2 s;
    continue_when = until_last;
  }

  unfoldable pub user_model_reasoner :
      (Store → Snapshot UserModel → Result E (UserModelResult × Draws))
      → Descriptor Store (Snapshot UserModel) (UserModelResult × Draws) E
  unfolding load_user_model apply_user_model_reasoning
  user_model_reasoner reason = record {
    load_context = load_user_model inferred space;
    call = λ s found. reason s found >>= λ result. ok (some result);
    apply = λ s found result.
        apply_user_model_reasoning similar inferred result.1 space found.watermark result.0
          (hypothesis_ids found.hypotheses) s;
    continue_when = until_applied;
  }
