-- ===== src/Reasoning/Hypotheses.antt =====
-- `_apply_hypothesis_actions` of src/gossipmemo/store/_reasoning.py. The n-th turn of a loop draws
-- its id and its time from `draw n`. Foreign keys are taken to hold.
use gossip_memo.Base.{
  ℕ, zero, suc, Bool, true, false, not, Option, none, some, List, [], ◌∷◌, ◌++◌, ◌==◌, any, keep,
  ◌&&◌, if◌then◌else◌,
}
use gossip_memo.People.{Memory, first_of, set_where, add_unless}
use gossip_memo.Coverage.Audit.{is_in}
use gossip_memo.Reasoning.{
  Owner, user_owner, person_owner, relationship_owner, HypothesisStatus, open_, promoted,
  Hypothesis, Role, support, counter, Store, is_active_memory, is_owned, is_source, memory_ids,
}

pub record Cited : Type 0 where
  pub memory_id : ℕ
  pub role : Role

pub record HypothesisUpsert : Type 0 where
  pub hypothesis_id : Option ℕ
  pub content : ℕ
  pub kind : ℕ
  pub confidence : ℕ
  pub evidence : List Cited

pub record HypothesisTransition : Type 0 where
  pub hypothesis_id : ℕ
  pub status : HypothesisStatus
  pub reason : ℕ
  pub promoted_memory_id : Option ℕ

pub record HypothesisActions : Type 0 where
  pub upserts : List HypothesisUpsert
  pub transitions : List HypothesisTransition

abbrev pub is_open : Hypothesis → Bool
is_open h = elim h.status [ open_ ↦ true | _ ↦ false ]

-- `owner_kind = ? AND owner_id IS ?`
abbrev pub is_same_owner : Owner → Owner → Bool
is_same_owner user_owner user_owner = true
is_same_owner (person_owner a) (person_owner b) = a == b
is_same_owner (relationship_owner a) (relationship_owner b) = a == b
is_same_owner _ _ = false

-- A text that is there and not empty
abbrev pub named : Option ℕ → Option ℕ
named none = none
named (some zero) = none
named (some (suc text)) = some (suc text)

abbrev pub is_same_role : Role → Role → Bool
is_same_role support support = true
is_same_role counter counter = true
is_same_role _ _ = false

-- `evidence_ids`
unfoldable pub evidence_ids : (inferred space : ℕ) → List ℕ → HypothesisUpsert → Store → List ℕ
evidence_ids inferred space source_ids item s = keep (is_in source_ids) (
    memory_ids (
      keep
        (λ m. is_source inferred space m && any (λ (c : Cited). c.memory_id == m.id) item.evidence)
        s.graph.memories))

-- The open hypothesis of the owner with an id, and the one with a kind and a content
abbrev pub open_by_id : (space : ℕ) → Owner → ℕ → List Hypothesis → Option Hypothesis
open_by_id space owner id rows =
    first_of
      (λ (h : Hypothesis).
        ((h.id == id && h.space_id == space) && is_same_owner h.owner owner) && is_open h)
      rows

abbrev pub open_by_content :
    (space : ℕ) → Owner → HypothesisUpsert → List Hypothesis → Option Hypothesis
open_by_content space owner item rows =
    first_of
      (λ (h : Hypothesis).
        (((h.space_id == space && is_same_owner h.owner owner) && is_open h) && h.kind == item.kind)
        && h.content == item.content)
      rows

abbrev pub rewritten : (now : ℕ) → HypothesisUpsert → Hypothesis → Hypothesis
rewritten now item h = record h {
  content = item.content;
  kind = item.kind;
  confidence = item.confidence;
  updated_at = now;
}

abbrev pub hypothesis_row : (space id now : ℕ) → Owner → HypothesisUpsert → Hypothesis
hypothesis_row space id now owner item = record {
  id = id;
  space_id = space;
  owner = owner;
  content = item.content;
  kind = item.kind;
  confidence = item.confidence;
  status = open_;
  status_reason = none;
  promoted_memory_id = none;
  created_at = now;
  updated_at = now;
}

-- `INSERT OR IGNORE INTO hypothesis_evidence`
unfoldable pub add_evidence : ℕ → List ℕ → List Cited → List (ℕ × ℕ × Role) → List (ℕ × ℕ × Role)
add_evidence id known [] table = table
add_evidence id known (c ∷ cs) table = add_evidence id known cs (
    if is_in known c.memory_id
    then add_unless
        (λ (row : ℕ × ℕ × Role). (row.0 == id && row.1 == c.memory_id) && is_same_role row.2 c.role)
        (id, c.memory_id, c.role) table
    else table)

-- The UPDATE of the existing hypothesis or the INSERT of a new one with the given id
unfoldable pub write_hypothesis :
    (space now : ℕ)
    → Owner
    → Option Hypothesis
    → (id : ℕ) → HypothesisUpsert
    → List ℕ
    → Store
    → Store
unfolding add_evidence
write_hypothesis space now owner existing id item known s = elim existing [
  | some h ↦ record s {
    hypotheses = set_where (λ (x : Hypothesis). x.id == h.id) (rewritten now item) s.hypotheses;
    evidence = add_evidence h.id known item.evidence s.evidence;
  }
  | none ↦ record s {
    hypotheses = s.hypotheses ++ hypothesis_row space id now owner item ∷ [];
    evidence = add_evidence id known item.evidence s.evidence;
  }
]

abbrev pub is_there : Option Hypothesis → Bool
is_there none = false
is_there (some h) = true

-- One turn of the loop over the upserts
unfoldable pub upsert_hypothesis :
    (inferred space : ℕ)
    → Owner
    → (source_ids context : List ℕ) → ℕ × ℕ
    → HypothesisUpsert
    → Store
    → Store
unfolding evidence_ids write_hypothesis
upsert_hypothesis inferred space owner source_ids context draw item s =
    elim (evidence_ids inferred space source_ids item s) [
      | [] ↦ s
      | k ∷ ks ↦ elim (named item.hypothesis_id) [
        | some id ↦
            let existing = open_by_id space owner id s.hypotheses in
            if is_in context id
            then (if not (is_there existing) && any (λ (h : Hypothesis). h.id == id) s.hypotheses
                then s
                else write_hypothesis space draw.1 owner existing id item (k ∷ ks) s)
            else s
        | none ↦
            write_hypothesis space draw.1 owner (open_by_content space owner item s.hypotheses)
              draw.0 item (k ∷ ks) s
      ]
    ]

unfoldable pub upsert_all :
    (inferred space : ℕ)
    → Owner
    → (source_ids context : List ℕ) → (ℕ → ℕ × ℕ)
    → List HypothesisUpsert
    → Store
    → Store
unfolding upsert_hypothesis
upsert_all inferred space owner source_ids context draw [] s = s
upsert_all inferred space owner source_ids context draw (item ∷ items) s =
    upsert_all inferred space owner source_ids context (λ n. draw (suc n)) items
      (upsert_hypothesis inferred space owner source_ids context (draw 0) item s)

abbrev pub is_promotion : HypothesisStatus → Bool
is_promotion promoted = true
is_promotion _ = false

-- A transition to 'promoted' names a memory of the owner that is active, no other names one.
unfoldable pub is_allowed : (space : ℕ) → Owner → HypothesisTransition → Store → Bool
is_allowed space owner step s = elim (named step.promoted_memory_id) [
  | none ↦ not (is_promotion step.status)
  | some memory ↦
      is_promotion step.status
      && any
          (λ (m : Memory).
            ((m.id == memory && m.space_id == space) && is_active_memory m)
            && is_owned s.graph owner m)
          s.graph.memories
]

abbrev pub settled : (now : ℕ) → HypothesisTransition → Hypothesis → Hypothesis
settled now step h = record h {
  status = step.status;
  status_reason = some step.reason;
  promoted_memory_id = step.promoted_memory_id;
  updated_at = now;
}

-- One turn of the loop over the transitions
unfoldable pub transition_hypothesis :
    (space : ℕ) → Owner → List ℕ → (now : ℕ) → HypothesisTransition → Store → Store
unfolding is_allowed
transition_hypothesis space owner context now step s =
    if (is_in context step.hypothesis_id
        && is_there (open_by_id space owner step.hypothesis_id s.hypotheses))
      && is_allowed space owner step s
    then record s {
      hypotheses =
          set_where (λ (x : Hypothesis). x.id == step.hypothesis_id) (settled now step)
            s.hypotheses;
    }
    else s

unfoldable pub transition_all :
    (space : ℕ) → Owner → List ℕ → (ℕ → ℕ) → List HypothesisTransition → Store → Store
unfolding transition_hypothesis
transition_all space owner context now [] s = s
transition_all space owner context now (step ∷ steps) s =
    transition_all space owner context (λ n. now (suc n)) steps
      (transition_hypothesis space owner context (now 0) step s)

unfoldable pub apply_hypothesis_actions :
    (inferred space : ℕ)
    → Owner
    → (source_ids context : List ℕ) → (ℕ → ℕ × ℕ)
    → (ℕ → ℕ)
    → HypothesisActions
    → Store
    → Store
unfolding upsert_all transition_all
apply_hypothesis_actions inferred space owner source_ids context draw now actions s =
    transition_all space owner context now actions.transitions
      (upsert_all inferred space owner source_ids context draw actions.upserts s)
