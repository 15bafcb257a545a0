-- ===== src/People/Memories.antt =====
-- The manual life of a memory: `add_manual_memory`, `supersede_memory` and `retract_memory` of
-- src/gossipmemo/store/_memories.py.
use gossip_memo.Base.{
  ℕ, Bool, true, false, Option, none, some, List, [], ◌∷◌, ◌++◌, ◌==◌, map, keep, ◌&&◌,
  if◌then◌else◌,
}
use gossip_memo.Base.Results.{Result, ok, ◌>>=◌}
use gossip_memo.People.{
  Memory, MemoryStatus, superseded, retracted, human, Graph, PersonError, first_of, set_where,
  add_unless, find_person, create_person,
}
use gossip_memo.People.MemoryStatus.{active}

pub record ManualMemoryRequest : Type 0 where
  pub content : ℕ
  pub kind : ℕ
  pub people : List ℕ
  pub valid_from : Option ℕ
  pub valid_to : Option ℕ
  pub about_user : Bool

pub record SupersedeRequest : Type 0 where
  pub content : ℕ
  pub kind : Option ℕ
  pub valid_from : Option ℕ
  pub valid_to : Option ℕ
  pub about_user : Option Bool
  pub reason : Option ℕ

-- What a turn of the loop over the people may draw: the ids of a new person and its alias
pub record Draw : Type 0 where
  pub person_id : ℕ
  pub alias_id : ℕ
  pub now : ℕ

abbrev pub add_person : ℕ → ℕ → List (ℕ × ℕ) → List (ℕ × ℕ)
add_person memory person rows =
    add_unless (λ row. row.0 == memory && row.1 == person) (memory, person) rows

-- The body of the loop: `_find_person`, and `_create_person` when it found nobody
unfoldable pub link_person :
    (ℕ → ℕ) → (space memory reference : ℕ) → Draw → Graph → Result PersonError Graph
link_person normalized space memory reference d g =
    find_person normalized space reference g >>= λ found. elim found [
      | some p ↦ ok (record g { memory_people = add_person memory p.id g.memory_people })
      | none ↦
          create_person normalized d.person_id d.alias_id d.now space reference true g
          >>= λ created. ok (record created.1 {
            memory_people = add_person memory created.0 created.1.memory_people;
          })
    ]

unfoldable pub link_people :
    (ℕ → ℕ) → (space memory : ℕ) → (ℕ → Draw) → List ℕ → Graph → Result PersonError Graph
unfolding link_person
link_people normalized space memory draw [] g = ok g
link_people normalized space memory draw (reference ∷ references) g =
    link_person normalized space memory reference (draw reference) g >>= λ linked.
    link_people normalized space memory draw references linked

-- `manual` is the text 'manual'; `ensure_space`, called first, is in Messages.
unfoldable pub add_manual_memory :
    (ℕ → ℕ)
    → (manual memory_id now space : ℕ) → (ℕ → Draw)
    → ManualMemoryRequest
    → Graph
    → Result PersonError (ℕ × Graph)
unfolding link_people
add_manual_memory normalized manual memory_id now space draw request g =
    link_people normalized space memory_id draw request.people (record g {
      memories =
          g.memories
          ++ record {
            id = memory_id;
            space_id = space;
            content = request.content;
            kind = request.kind;
            basis = manual;
            about_user = request.about_user;
            status = active;
            valid_from = request.valid_from;
            valid_to = request.valid_to;
            supersedes = none;
            invalidated_at = none;
            invalidation_reason = none;
            source_batch = none;
            created_by = human;
            created_at = now;
            updated_at = now;
          }
            ∷ [];
    })
    >>= λ linked. ok (memory_id, linked)

abbrev pub is_active_memory : Memory → Bool
is_active_memory m = elim m.status [ active ↦ true | superseded ↦ false | retracted ↦ false ]

-- `new if new is not None else old`
abbrev pub or_else {ℓ} : {A : Type ℓ} → Option A → Option A → Option A
or_else none old = old
or_else (some new) old = some new

abbrev pub value_or {ℓ} : {A : Type ℓ} → Option A → A → A
value_or none old = old
value_or (some new) old = new

-- `kind or old`, which the empty text does not replace
abbrev pub kind_or : Option ℕ → ℕ → ℕ
kind_or none old = old
kind_or (some new) old = if new == 0 then old else new

abbrev pub replacement : (manual id now space old_id : ℕ) → SupersedeRequest → Memory → Memory
replacement manual id now space old_id request old = record {
  id = id;
  space_id = space;
  content = request.content;
  kind = kind_or request.kind old.kind;
  basis = manual;
  about_user = value_or request.about_user old.about_user;
  status = active;
  valid_from = or_else request.valid_from old.valid_from;
  valid_to = or_else request.valid_to old.valid_to;
  supersedes = some old_id;
  invalidated_at = none;
  invalidation_reason = none;
  source_batch = none;
  created_by = human;
  created_at = now;
  updated_at = now;
}

abbrev pub invalidate : MemoryStatus → ℕ → Option ℕ → Memory → Memory
invalidate status now reason m = record m {
  status = status;
  invalidated_at = some now;
  invalidation_reason = reason;
  updated_at = now;
}

-- The writes of `supersede_memory`, when `old` is the row it found
unfoldable pub supersede_row :
    (manual new_id now space id : ℕ) → SupersedeRequest → Memory → Graph → Graph
supersede_row manual new_id now space id request old g = record g {
  memories =
      set_where (λ (m : Memory). m.id == id) (invalidate superseded now request.reason)
        (g.memories ++ replacement manual new_id now space id request old ∷ []);
  memory_people =
      g.memory_people
      ++ map (λ (row : ℕ × ℕ). (new_id, row.1)) (keep (λ row. row.0 == id) g.memory_people);
  memory_relationships =
      g.memory_relationships
      ++ map (λ (row : ℕ × ℕ × ℕ). (new_id, row.1, row.2))
          (keep (λ row. row.0 == id) g.memory_relationships);
}

unfoldable pub supersede_memory :
    (manual new_id now space id : ℕ) → SupersedeRequest → Graph → Graph × Option ℕ
unfolding supersede_row
supersede_memory manual new_id now space id request g =
    elim (first_of (λ m. (m.space_id == space && m.id == id) && is_active_memory m) g.memories) [
      | none ↦ (g, none)
      | some old ↦ (supersede_row manual new_id now space id request old g, some new_id)
    ]

-- The UPDATE of `retract_memory`
abbrev pub retract_row : (now id : ℕ) → Option ℕ → Graph → Graph
retract_row now id reason g = record g {
  memories = set_where (λ (m : Memory). m.id == id) (invalidate retracted now reason) g.memories;
}

unfoldable pub retract_memory : (now space id : ℕ) → Option ℕ → Graph → Graph × Bool
retract_memory now space id reason g =
    elim (first_of (λ m. m.space_id == space && m.id == id) g.memories) [
      | none ↦ (g, false)
      | some m ↦ elim m.status [
        | retracted ↦ (g, true)
        | active ↦ (retract_row now id reason g, true)
        | superseded ↦ (retract_row now id reason g, true)
      ]
    ]
