-- ===== src/Messages/Batches.antt =====
-- The lifecycle of an extraction batch: the methods `create_extraction_batch` to
-- `extraction_states` of src/gossipmemo/store/_messages.py, `_is_exhausted` and `_attempt` of
-- src/gossipmemo/reasoners/extraction.py, and `run_until_caught_up` of
-- src/gossipmemo/reasoners/base.py.
use gossip_memo.Base.{
  ℕ, suc, Bool, not, Option, none, some, List, [], ◌∷◌, ◌++◌, ◌==◌, leb, ltb, map, keep, any, take,
  ◌&&◌, ◌||◌, if◌then◌else◌,
}
use gossip_memo.Base.Sorting.{sort_by}
use gossip_memo.Messages.{
  Author, ExtractionState, pending, failed, completed, SourceRef, Message, Tables, is_same,
  same_state,
}

abbrev pub member : ℕ → List ℕ → Bool
member x xs = any (λ y. x == y) xs

abbrev pub is_completed : Message → Bool
is_completed row = same_state row.state completed

-- `WHERE space_id = ? AND extraction_batch_id = ? AND extraction_state != 'completed'`
unfoldable pub is_open : ℕ → ℕ → Message → Bool
is_open space batch row =
    (row.space_id == space && is_same row.batch (some batch)) && not (is_completed row)

-- The WHERE of the SELECT of `create_extraction_batch`
unfoldable pub is_batchable : ℕ → List ℕ → Message → Bool
is_batchable space ids row =
    (row.space_id == space && member row.id ids)
    && (is_same row.batch none && not (is_completed row))

-- `UPDATE messages SET ... WHERE p`
abbrev pub update_where : (Message → Bool) → (Message → Message) → List Message → List Message
update_where p f rows = map (λ row. if p row then f row else row) rows

abbrev pub put_in_batch : ℕ → Message → Message
put_in_batch batch row = record row { batch = some batch }

-- `create_extraction_batch` from `if not pending_ids` on
unfoldable pub batch_rows : (batch_id now space : ℕ) → List ℕ → Tables → Tables × Option ℕ
batch_rows batch_id now space [] t = (t, none)
batch_rows batch_id now space (first ∷ more) t = (
  record {
    messages =
        update_where (λ row. member row.id (first ∷ more)) (put_in_batch batch_id) t.messages;
    batches =
        t.batches
        ++ record { id = batch_id; space_id = space; created_at = now; completed_at = none } ∷ [];
  },
  some batch_id,
)

unfoldable pub create_extraction_batch :
    (batch_id now space : ℕ) → List ℕ → Tables → Tables × Option ℕ
unfolding is_batchable batch_rows
create_extraction_batch batch_id now space [] t = (t, none)
create_extraction_batch batch_id now space (first ∷ more) t =
    batch_rows batch_id now space
      (map (λ row. row.id) (keep (is_batchable space (first ∷ more)) t.messages)) t

-- `extraction_state IN ('pending', 'failed')`
abbrev pub is_unfinished : Message → Bool
is_unfinished row = same_state row.state pending || same_state row.state failed

abbrev pub by_arrival : Message → Message → Bool
by_arrival a b =
    ltb a.ingested_at b.ingested_at || (a.ingested_at == b.ingested_at && ltb a.id b.id)

unfoldable pub unbatched_messages : ℕ → Tables → List (ℕ × ℕ)
unbatched_messages space t =
    map (λ row. (row.id, row.ingested_at))
      (sort_by by_arrival (
        keep (λ row. (row.space_id == space && is_same row.batch none) && is_unfinished row)
          t.messages))

pub record ModelMessage : Type 0 where
  pub id : ℕ
  pub space_id : ℕ
  pub author : Author
  pub content : ℕ
  pub occurred_at : ℕ
  pub source : SourceRef

abbrev pub model_message : Message → ModelMessage
model_message row = record {
  id = row.id;
  space_id = row.space_id;
  author = row.author;
  content = row.content;
  occurred_at = row.occurred_at;
  source = row.source;
}

unfoldable pub load_batch : ℕ → ℕ → Tables → List ModelMessage
unfolding is_open
load_batch space batch t =
    map model_message
      (sort_by (λ a b. ltb a.ingested_at b.ingested_at) (keep (is_open space batch) t.messages))

abbrev pub try_again : Message → Message
try_again row = record row { attempts = suc row.attempts; state = pending; last_error = none }

unfoldable pub mark_extraction_attempt : ℕ → ℕ → Tables → Tables
unfolding is_open
mark_extraction_attempt space batch t = record t {
  messages = update_where (is_open space batch) try_again t.messages;
}

-- `error[:2000]`
abbrev pub fail_with : List ℕ → Message → Message
fail_with error row = record row { state = failed; last_error = some (take 2000 error) }

unfoldable pub fail_extraction : ℕ → ℕ → List ℕ → Tables → Tables
unfolding is_open
fail_extraction space batch error t = record t {
  messages = update_where (is_open space batch) (fail_with error) t.messages;
}

abbrev pub complete_at : ℕ → Message → Message
complete_at now row = record row { state = completed; extracted_at = some now; last_error = none }

-- The two UPDATEs that end `apply_extraction`
unfoldable pub finish_extraction : ℕ → ℕ → Tables → Tables
finish_extraction now batch t = record {
  messages = update_where (λ row. is_same row.batch (some batch)) (complete_at now) t.messages;
  batches = map (λ b. if b.id == batch then record b { completed_at = some now } else b) t.batches;
}

pub record PendingExtraction : Type 0 where
  pub space_id : ℕ
  pub batch_id : Option ℕ
  pub message_ids : List ℕ
  pub attempts : ℕ
  pub state : ExtractionState

-- `grouped.get(key)`, and then a new entry at the end or one more message id
abbrev pub group : Message → List PendingExtraction → List PendingExtraction
group row [] =
    record {
      space_id = row.space_id;
      batch_id = row.batch;
      message_ids = row.id ∷ [];
      attempts = row.attempts;
      state = row.state;
    }
    ∷ []
group row (p ∷ ps) =
    let rest = group row ps in
    if p.space_id == row.space_id && is_same p.batch_id row.batch
    then record p { message_ids = p.message_ids ++ row.id ∷ [] } ∷ ps
    else p ∷ rest

abbrev pub group_all : List Message → List PendingExtraction → List PendingExtraction
group_all [] grouped = grouped
group_all (row ∷ rows) grouped = group_all rows (group row grouped)

abbrev pub by_need : Message → Message → Bool
by_need a b =
    ltb a.attempts b.attempts || (a.attempts == b.attempts && ltb a.ingested_at b.ingested_at)

unfoldable pub pending_extractions : Tables → List PendingExtraction
pending_extractions t = group_all (sort_by by_need (keep is_unfinished t.messages)) []

-- MAX_EXTRACTION_ATTEMPTS
abbrev pub max_extraction_attempts : ℕ
max_extraction_attempts = 5

unfoldable pub is_exhausted : PendingExtraction → Bool
is_exhausted p = same_state p.state failed && leb max_extraction_attempts p.attempts
