-- ===== src/Reasoning/Inferred.antt =====
-- `_reconcile_inferred_memories` and `_apply_inferred_memory_actions` of
-- src/gossipmemo/store/_reasoning.py. `similar` is `similar_memory_content`; the n-th turn of a loop
-- draws its id and its time from `draw n`.
use gossip_memo.Base.{
  ℕ, suc, Bool, true, false, none, some, List, [], ◌∷◌, ◌++◌, ◌==◌, any, map, keep, ◌&&◌,
  if◌then◌else◌,
}
use gossip_memo.People.{Memory, MemoryStatus, reasoner, first_of, set_where, add_unless}
use gossip_memo.Coverage.Audit.{is_in}
use gossip_memo.Reasoning.{
  Owner, user_owner, person_owner, relationship_owner, Store, is_active_memory, is_owned, is_source,
  memory_ids,
}

pub record InferredMemory : Type 0 where
  pub content : ℕ
  pub kind : ℕ
  pub source_memory_ids : List ℕ

pub record InferredRetraction : Type 0 where
  pub memory_id : ℕ
  pub reason : ℕ

pub record InferredActions : Type 0 where
  pub upserts : List InferredMemory
  pub retractions : List InferredRetraction

abbrev pub is_by_reasoner : Memory → Bool
is_by_reasoner m = elim m.created_by [ reasoner ↦ true | _ ↦ false ]

-- `existing_rows`
unfoldable pub existing_rows : (inferred space : ℕ) → Owner → Store → List Memory
existing_rows inferred space owner s =
    keep
      (λ m.
        (((m.space_id == space && is_active_memory m) && m.basis == inferred) && is_by_reasoner m)
        && is_owned s.graph owner m)
      s.graph.memories

unfoldable pub valid_sources : (inferred space : ℕ) → List ℕ → InferredMemory → Store → List ℕ
valid_sources inferred space source_ids item s = keep (is_in source_ids) (
    memory_ids (
      keep (λ m. is_source inferred space m && is_in item.source_memory_ids m.id) s.graph.memories))

-- `INSERT OR IGNORE INTO memory_derivations` for each source
unfoldable pub add_derivations : ℕ → List ℕ → List (ℕ × ℕ) → List (ℕ × ℕ)
add_derivations derived [] table = table
add_derivations derived (source ∷ sources) table =
    add_derivations derived sources
      (add_unless (λ (d : ℕ × ℕ). d.0 == derived && d.1 == source) (derived, source) table)

abbrev pub is_user : Owner → Bool
is_user user_owner = true
is_user _ = false

abbrev pub inferred_row : (inferred space id now : ℕ) → Owner → InferredMemory → Memory
inferred_row inferred space id now owner item = record {
  id = id;
  space_id = space;
  content = item.content;
  kind = item.kind;
  basis = inferred;
  about_user = is_user owner;
  status = MemoryStatus.active;
  valid_from = none;
  valid_to = none;
  supersedes = none;
  invalidated_at = none;
  invalidation_reason = none;
  source_batch = none;
  created_by = reasoner;
  created_at = now;
  updated_at = now;
}

-- The INSERTs for one inference that is new; the role 'about' is 0.
unfoldable pub insert_inferred :
    (inferred space id now : ℕ) → Owner → InferredMemory → List ℕ → Store → Store
insert_inferred inferred space id now owner item sources s =
    let g = s.graph in
    record s {
      graph = record g {
        memories = g.memories ++ inferred_row inferred space id now owner item ∷ [];
        memory_people = elim owner [
          | person_owner person ↦ g.memory_people ++ (id, person) ∷ []
          | _ ↦ g.memory_people
        ];
        memory_relationships = elim owner [
          | relationship_owner relationship ↦ g.memory_relationships ++ (id, relationship, 0) ∷ []
          | _ ↦ g.memory_relationships
        ];
      };
      derivations = s.derivations ++ map (λ (source : ℕ). (id, source)) sources;
    }

-- One turn of the loop of `_reconcile_inferred_memories`
unfoldable pub reconcile_one :
    (similar : ℕ → ℕ → Bool)
    → (inferred space : ℕ) → Owner
    → List ℕ
    → List Memory
    → ℕ × ℕ
    → InferredMemory
    → Store
    → Store
unfolding valid_sources add_derivations insert_inferred
reconcile_one similar inferred space owner source_ids existing draw item s =
    elim (valid_sources inferred space source_ids item s) [
      | [] ↦ s
      | source ∷ sources ↦
          elim (first_of (λ (m : Memory). m.kind == item.kind && similar m.content item.content)
            existing) [
              | some m ↦ record s {
                derivations = add_derivations m.id (source ∷ sources) s.derivations;
              }
              | none ↦ insert_inferred inferred space draw.0 draw.1 owner item (source ∷ sources) s
            ]
    ]

unfoldable pub reconcile_all :
    (similar : ℕ → ℕ → Bool)
    → (inferred space : ℕ) → Owner
    → List ℕ
    → List Memory
    → (ℕ → ℕ × ℕ)
    → List InferredMemory
    → Store
    → Store
unfolding reconcile_one
reconcile_all similar inferred space owner source_ids existing draw [] s = s
reconcile_all similar inferred space owner source_ids existing draw (item ∷ items) s =
    reconcile_all similar inferred space owner source_ids existing (λ n. draw (suc n)) items
      (reconcile_one similar inferred space owner source_ids existing (draw 0) item s)

unfoldable pub reconcile_inferred_memories :
    (similar : ℕ → ℕ → Bool)
    → (inferred space : ℕ) → Owner
    → List ℕ
    → (ℕ → ℕ × ℕ)
    → List InferredMemory
    → Store
    → Store
unfolding existing_rows reconcile_all
reconcile_inferred_memories similar inferred space owner source_ids draw items s =
    reconcile_all similar inferred space owner source_ids (existing_rows inferred space owner s)
      draw items s

abbrev pub withdrawn : (now reason : ℕ) → Memory → Memory
withdrawn now reason m = record m {
  status = MemoryStatus.retracted;
  invalidated_at = some now;
  invalidation_reason = some reason;
  updated_at = now;
}

-- One turn of the loop over the retractions
unfoldable pub retract_inferred :
    (inferred space : ℕ) → Owner → List ℕ → (now : ℕ) → InferredRetraction → Store → Store
retract_inferred inferred space owner context now retraction s =
    let g = s.graph in
    let found =
      any
        (λ (m : Memory).
          (((m.space_id == space && m.id == retraction.memory_id) && m.basis == inferred)
            && is_active_memory m)
          && is_owned g owner m)
        g.memories in
    if is_in context retraction.memory_id && found
    then record s {
      graph = record g {
        memories =
            set_where (λ (m : Memory). m.id == retraction.memory_id)
              (withdrawn now retraction.reason) g.memories;
      };
    }
    else s

unfoldable pub retract_all :
    (inferred space : ℕ) → Owner → List ℕ → (now : ℕ → ℕ) → List InferredRetraction → Store → Store
unfolding retract_inferred
retract_all inferred space owner context now [] s = s
retract_all inferred space owner context now (r ∷ rs) s =
    retract_all inferred space owner context (λ n. now (suc n)) rs
      (retract_inferred inferred space owner context (now 0) r s)

unfoldable pub apply_inferred_memory_actions :
    (similar : ℕ → ℕ → Bool)
    → (inferred space : ℕ) → Owner
    → (source_ids context : List ℕ) → (draw : ℕ → ℕ × ℕ) → (now : ℕ → ℕ) → InferredActions
    → Store
    → Store
unfolding reconcile_inferred_memories retract_all
apply_inferred_memory_actions similar inferred space owner source_ids context draw now actions s =
    retract_all inferred space owner context now actions.retractions
      (reconcile_inferred_memories similar inferred space owner source_ids draw actions.upserts s)
