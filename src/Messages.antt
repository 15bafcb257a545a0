-- ===== src/Messages.antt =====
-- The tables of raw messages and extraction batches, and their operations: `ensure_space` of
-- src/gossipmemo/store/_base.py and the methods of src/gossipmemo/store/_messages.py. A table is
-- the list of its rows in rowid order. Ids, timestamps and the other texts that are only stored and
-- compared are natural numbers, one for each text, 0 for the empty text. A call is one
-- transaction: a Result that is an error leaves the tables as they were.
pub mod Ingest
pub mod Batches
pub mod Extraction
mod Retry
mod Remaining
mod Eligible
pub mod Context
mod Conversations
mod Earlier
mod Order
mod Recent
mod Drain
mod Tests
use gossip_memo.Base.{
  ℕ, Bool, true, false, Option, none, some, List, [], ◌∷◌, ◌++◌, ◌==◌, any, ◌&&◌, if◌then◌else◌,
}

pub data Author : Type 0 where
  user assistant : Author

-- The values of the column extraction_state
pub data ExtractionState : Type 0 where
  pending failed completed : ExtractionState

pub record SourceRef : Type 0 where
  pub provider : ℕ
  pub conversation_key : Option ℕ
  pub item_id : Option ℕ
  pub metadata : ℕ

pub record MessageInput : Type 0 where
  pub idempotency_key : Option ℕ
  pub author : Author
  pub content : ℕ
  pub occurred_at : ℕ
  pub source : SourceRef

-- A row of the table messages
pub record Message : Type 0 where
  pub id : ℕ
  pub space_id : ℕ
  pub author : Author
  pub content : ℕ
  pub occurred_at : ℕ
  pub ingested_at : ℕ
  pub source : SourceRef
  pub idempotency_key : Option ℕ
  pub batch : Option ℕ
  pub state : ExtractionState
  pub attempts : ℕ
  pub extracted_at : Option ℕ
  pub last_error : Option (List ℕ)

-- A row of the table extraction_batches
pub record Batch : Type 0 where
  pub id : ℕ
  pub space_id : ℕ
  pub created_at : ℕ
  pub completed_at : Option ℕ

pub record Tables : Type 0 where
  pub messages : List Message
  pub batches : List Batch

-- The rows that make a space: of spaces (id, name, created_at), user_models, coverage_roots
-- (space_id, root, updated_at) and continuities (space_id, updated_at)
pub record Spaces : Type 0 where
  pub spaces : List (ℕ × ℕ × ℕ)
  pub user_models : List ℕ
  pub coverage_roots : List (ℕ × ℕ × ℕ)
  pub continuities : List (ℕ × ℕ)

-- `IS` of SQL, and equality of texts that may be NULL, which `=` never finds equal
abbrev pub is_same : Option ℕ → Option ℕ → Bool
is_same none none = true
is_same (some a) (some b) = a == b
is_same _ _ = false

abbrev pub equal : Option ℕ → Option ℕ → Bool
equal (some a) (some b) = a == b
equal _ _ = false

-- `if text:` of an optional text, which is false of None and of ''
abbrev pub truthy : Option ℕ → Bool
truthy none = false
truthy (some a) = if a == 0 then false else true

abbrev pub same_state : ExtractionState → ExtractionState → Bool
same_state pending pending = true
same_state failed failed = true
same_state completed completed = true
same_state _ _ = false

-- `INSERT OR IGNORE` of a row unless one with its key is there
abbrev pub insert_or_ignore {ℓ} : {A : Type ℓ} → (A → Bool) → A → List A → List A
insert_or_ignore same row table = if any same table then table else table ++ row ∷ []

add_roots : ℕ → ℕ → List ℕ → List (ℕ × ℕ × ℕ) → List (ℕ × ℕ × ℕ)
add_roots space now [] table = table
add_roots space now (root ∷ roots) table =
    add_roots space now roots
      (insert_or_ignore (λ row. row.0 == space && row.1 == root) (space, root, now) table)

-- `roots` is COVERAGE_ROOTS, `name or space_id` the name
unfoldable pub ensure_space : List ℕ → ℕ → Option ℕ → ℕ → Spaces → Spaces
unfolding add_roots
ensure_space roots space name now s = record {
  spaces =
      insert_or_ignore (λ row. row.0 == space)
        (space, elim name [ none ↦ space | some text ↦ if text == 0 then space else text ], now)
        s.spaces;
  user_models = insert_or_ignore (λ row. row == space) space s.user_models;
  coverage_roots = add_roots space now roots s.coverage_roots;
  continuities = insert_or_ignore (λ row. row.0 == space) (space, now) s.continuities;
}
