-- ===== src/Intake/Tests.antt =====
-- Runs of the loops that make batches, and the theorems at concrete inputs.
use gossip_memo.Base.{ℕ, ◌+◌, ◌<◌, none, some, List, [], ◌∷◌, ◌≡◌, refl, arith, length}
use gossip_memo.Messages.{user, pending, Message, Tables}
use gossip_memo.Messages.Batches.{
  unbatched_messages, create_extraction_batch, batch_rows, is_batchable,
}
use gossip_memo.Intake.{batch_first, drain_extraction_batches, batch_all}
use gossip_memo.Intake.Drained.{drain_extraction_batches-ends, batch_all-ends}

abbrev waiting : ℕ → Message
waiting id = record {
  id = id;
  space_id = 7;
  author = user;
  content = 9;
  occurred_at = 1;
  ingested_at = id;
  source = record { provider = 4; conversation_key = none; item_id = none; metadata = 0 };
  idempotency_key = none;
  batch = none;
  state = pending;
  attempts = 0;
  extracted_at = none;
  last_error = none;
}

abbrev five_waiting : Tables
five_waiting = record {
  messages = waiting 1 ∷ waiting 2 ∷ waiting 3 ∷ waiting 4 ∷ waiting 5 ∷ [];
  batches = [];
}

abbrev draw : ℕ → ℕ × ℕ
draw n = (n + 80, 50)

-- Two batches of two, and one message is left to the timer.
drained :
    drain_extraction_batches 6 2 7 draw five_waiting
    ≡ some (
      record {
        messages =
            record (waiting 1) { batch = some 80 }
            ∷ record (waiting 2) { batch = some 80 }
            ∷ record (waiting 3) { batch = some 81 }
            ∷ record (waiting 4) { batch = some 81 }
            ∷ waiting 5
            ∷ [];
        batches =
            record { id = 80; space_id = 7; created_at = 50; completed_at = none }
            ∷ record { id = 81; space_id = 7; created_at = 50; completed_at = none }
            ∷ [];
      },
      80 ∷ 81 ∷ [],
    )
unfolding drain_extraction_batches batch_first unbatched_messages create_extraction_batch batch_rows
    is_batchable
drained = refl

five_unbatched : length (unbatched_messages 7 five_waiting) < 6
unfolding unbatched_messages
five_unbatched = omega arith

drain_extraction_batches-ends_example :
    (u : Tables) × (batches : List ℕ) × (drain_extraction_batches 6 2 7 draw five_waiting
      ≡ some (u, batches))
    × (length (unbatched_messages 7 u) < 2)
drain_extraction_batches-ends_example =
    drain_extraction_batches-ends 1 7 6 draw five_waiting five_unbatched

batch_all-ends_example :
    (u : Tables) × (batches : List ℕ) × (batch_all 6 2 7 draw five_waiting ≡ some (u, batches))
    × (unbatched_messages 7 u ≡ [])
batch_all-ends_example = batch_all-ends 1 7 6 draw five_waiting five_unbatched
