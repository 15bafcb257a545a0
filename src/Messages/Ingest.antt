-- ===== src/Messages/Ingest.antt =====
-- `record_messages` of src/gossipmemo/store/_messages.py, with the two unique identities that
-- src/gossipmemo/schema.sql declares on the table messages.
use gossip_memo.Base.{
  ℕ, Bool, Option, none, some, List, [], ◌∷◌, ◌++◌, ◌==◌, any, ◌&&◌, ◌||◌, if◌then◌else◌,
}
use gossip_memo.Base.Results.{Result, ok, err, ◌>>=◌}
use gossip_memo.Messages.{MessageInput, Message, pending, is_same, equal, truthy}

-- What one turn of the loop draws from outside: `new_id("message")`, `now_iso()`, and the rows that
-- other connections commit between the preflight read and the INSERT.
pub record Draw : Type 0 where
  pub message_id : ℕ
  pub now : ℕ
  pub arrivals : List Message

-- sqlite3.IntegrityError
pub data IntegrityError : Type 0 where
  unique_failed : IntegrityError

abbrev pub coalesce : Option ℕ → ℕ
coalesce none = 0
coalesce (some a) = a

-- UNIQUE(space_id, idempotency_key)
unfoldable pub same_key : Message → Message → Bool
same_key a b = a.space_id == b.space_id && equal a.idempotency_key b.idempotency_key

-- The index messages_source_identity
unfoldable pub same_source : Message → Message → Bool
same_source a b =
    (a.space_id == b.space_id && a.source.provider == b.source.provider)
    && (coalesce a.source.conversation_key == coalesce b.source.conversation_key
        && equal a.source.item_id b.source.item_id)

unfoldable pub violates : Message → Message → Bool
unfolding same_key same_source
violates row other = (row.id == other.id || same_key row other) || same_source row other

-- `INSERT INTO messages(...)`, none of whose IntegrityError
unfoldable pub insert : Message → List Message → Option (List Message)
unfolding violates
insert row table = if any (violates row) table then none else some (table ++ row ∷ [])

-- `.fetchone()`
abbrev pub first_where : (Message → Bool) → List Message → Option ℕ
first_where p [] = none
first_where p (row ∷ rows) = let rest = first_where p rows in if p row then some row.id else rest

unfoldable pub has_key : ℕ → MessageInput → Message → Bool
has_key space m row = row.space_id == space && equal row.idempotency_key m.idempotency_key

unfoldable pub has_source : ℕ → MessageInput → Message → Bool
has_source space m row =
    (row.space_id == space && row.source.provider == m.source.provider)
    && (is_same row.source.conversation_key m.source.conversation_key
        && equal row.source.item_id m.source.item_id)

-- The two SELECTs, the second made when the first found nothing
unfoldable pub find_duplicate : ℕ → MessageInput → List Message → Option ℕ
unfolding has_key has_source
find_duplicate space m table =
    let by_key : Option ℕ =
      if truthy m.idempotency_key then first_where (has_key space m) table else none in
    elim by_key [
      | some found ↦ some found
      | none ↦ if truthy m.source.item_id then first_where (has_source space m) table else none
    ]

unfoldable pub new_row : ℕ → Draw → MessageInput → Message
new_row space d m = record {
  id = d.message_id;
  space_id = space;
  author = m.author;
  content = m.content;
  occurred_at = m.occurred_at;
  ingested_at = d.now;
  source = m.source;
  idempotency_key = m.idempotency_key;
  batch = none;
  state = pending;
  attempts = 0;
  extracted_at = none;
  last_error = none;
}

-- The body of the loop, with the id it appends and the table it leaves
unfoldable pub record_message :
    ℕ → Draw → MessageInput → List Message → Result IntegrityError (ℕ × List Message)
unfolding find_duplicate insert new_row
record_message space d m table = elim (find_duplicate space m table) [
  | some found ↦ ok (found, table ++ d.arrivals)
  | none ↦ elim (insert (new_row space d m) (table ++ d.arrivals)) [
    | some inserted ↦ ok (d.message_id, inserted)
    | none ↦ elim (find_duplicate space m (table ++ d.arrivals)) [
      | some found ↦ ok (found, table ++ d.arrivals)
      | none ↦ err unique_failed
    ]
  ]
]

unfoldable pub record_messages :
    ℕ → List (Draw × MessageInput) → List Message → Result IntegrityError (List ℕ × List Message)
unfolding record_message
record_messages space [] table = ok ([], table)
record_messages space ((d, m) ∷ messages) table = record_message space d m table >>= λ done.
    record_messages space messages done.1 >>= λ rest. ok (done.0 ∷ rest.0, rest.1)
