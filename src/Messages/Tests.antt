-- ===== src/Messages/Tests.antt =====
-- Runs of the operations on messages, and the theorems at concrete inputs.
use gossip_memo.Base.{ℕ, ◌+◌, ◌<◌, true, Option, none, some, List, [], ◌∷◌, ◌≡◌, refl, arith, map}
use gossip_memo.Base.Results.{Result, ok, err}
use gossip_memo.Messages.{
  user, pending, failed, completed, MessageInput, Message, Tables, ExtractionState,
}
use gossip_memo.Messages.Ingest.{Draw, unique_failed, record_message}
use gossip_memo.Messages.Batches.{
  ModelMessage, PendingExtraction, create_extraction_batch, pending_extractions,
}
use gossip_memo.Messages.Extraction.{World, run_until_caught_up}
use gossip_memo.Messages.Remaining.{budget, total}
use gossip_memo.Messages.Drain.{run_until_caught_up_ends}
use gossip_memo.Base.{◌≤◌, keep, length, All}
use gossip_memo.Messages.Batches.{is_open, model_message}
use gossip_memo.Messages.Context.{
  is_in_conversation, before_batch, select_context, load_extraction_context,
}
use gossip_memo.Messages.Conversations.{Row}
use gossip_memo.Messages.Order.{IsInOrder}
use gossip_memo.Messages.Earlier.{IsContext}
use gossip_memo.Messages.Recent.{load_extraction_context_rows}
use mathlib.Core.List.{Memᴰ}
use gossip_memo.Messages.Retry.{record_message_twice, empty_key_refused}

abbrev message : Option ℕ → Option ℕ → MessageInput
message key item = record {
  idempotency_key = key;
  author = user;
  content = 9;
  occurred_at = 1;
  source = record { provider = 4; conversation_key = none; item_id = item; metadata = 0 };
}

abbrev draw : ℕ → Draw
draw id = record { message_id = id; now = id; arrivals = [] }

abbrev row : ℕ → Option ℕ → ExtractionState → ℕ → Message
row id batch state attempts = record {
  id = id;
  space_id = 7;
  author = user;
  content = 9;
  occurred_at = 1;
  ingested_at = id;
  source = record { provider = 4; conversation_key = none; item_id = none; metadata = 0 };
  idempotency_key = none;
  batch = batch;
  state = state;
  attempts = attempts;
  extracted_at = none;
  last_error = none;
}

abbrev recorded : Option ℕ → Option ℕ → List Message
recorded key item =
    record {
      id = 11;
      space_id = 7;
      author = user;
      content = 9;
      occurred_at = 1;
      ingested_at = 11;
      source = record { provider = 4; conversation_key = none; item_id = item; metadata = 0 };
      idempotency_key = key;
      batch = none;
      state = pending;
      attempts = 0;
      extracted_at = none;
      last_error = none;
    }
    ∷ []

record_message_once :
    record_message 7 (draw 11) (message (some 3) none) [] ≡ ok (11, recorded (some 3) none)
unfolding record_message
record_message_once = refl

record_message_twice_example :
    record_message 7 (draw 12) (message (some 3) none) (recorded (some 3) none)
    ≡ ok (11, recorded (some 3) none)
record_message_twice_example =
    record_message_twice 7 (draw 11) (draw 12) (message (some 3) none) [] (recorded (some 3) none)
      11 refl refl record_message_once

record_message_empty :
    record_message 7 (draw 11) (message (some 0) none) [] ≡ ok (11, recorded (some 0) none)
unfolding record_message
record_message_empty = refl

empty_key_refused_example :
    record_message 7 (draw 12) (message (some 0) none) (recorded (some 0) none) ≡ err unique_failed
empty_key_refused_example =
    empty_key_refused 7 (draw 11) (draw 12) (message (some 0) none) [] (recorded (some 0) none) 11
      refl refl refl refl record_message_empty

-- Two batches in the space 7: one that failed twice, one that a killed process left pending.
abbrev two_batches : World ℕ
two_batches = record {
  tables = record {
    messages = row 1 (some 21) failed 2 ∷ row 2 (some 22) pending 6 ∷ row 3 none pending 0 ∷ [];
    batches =
        record { id = 21; space_id = 7; created_at = 5; completed_at = none }
        ∷ record { id = 22; space_id = 7; created_at = 6; completed_at = none }
        ∷ [];
  };
  world = 0;
}

-- A model that never answers
abbrev silent : List ModelMessage → Tables → ℕ → Result (List ℕ) ℕ
silent messages t w = err (1 ∷ [])

abbrev add_one : ℕ → ℕ → Result (List ℕ) ℕ
add_one result w = ok (w + 1)

total_two_batches : total two_batches.tables.messages < 11
unfolding total budget
total_two_batches = omega arith

run_until_caught_up_ends_example :
    (s' : World ℕ) × (run_until_caught_up silent add_one (1 ∷ []) 99 7 11 (λ turn. true) two_batches
      ≡ some s')
run_until_caught_up_ends_example =
    run_until_caught_up_ends silent add_one (1 ∷ []) 99 7 11 (λ turn. true) two_batches
      total_two_batches

-- A batch is made of the two messages that are not in one, and they are its entry.
batch_of_two :
    map
      (λ (p : PendingExtraction). p.message_ids)
      (pending_extractions
        (create_extraction_batch 31 50 7 (1 ∷ 2 ∷ 3 ∷ []) (record {
          messages = row 1 none pending 0 ∷ row 2 (some 22) pending 6 ∷ row 3 none failed 0 ∷ [];
          batches = [];
        })).0)
    ≡ (1 ∷ 3 ∷ []) ∷ (2 ∷ []) ∷ []
unfolding create_extraction_batch pending_extractions
batch_of_two = refl

-- A conversation of three messages, the last of which is the batch 22
abbrev said : ℕ → Option ℕ → ExtractionState → Message
said id batch state = record (row id batch state 0) {
  source = record { provider = 4; conversation_key = some 8; item_id = none; metadata = 0 };
}

abbrev conversation : Tables
conversation = record {
  messages =
      said 1 (some 21) completed ∷ said 2 (some 21) completed ∷ said 3 (some 22) pending ∷ [];
  batches = [];
}

context_of_conversation :
    map (λ (m : ModelMessage). m.id) (load_extraction_context 7 22 2 conversation) ≡ 1 ∷ 2 ∷ []
unfolding load_extraction_context select_context before_batch is_open
context_of_conversation = refl

load_extraction_context_rows_example :
    (found : List Row) × (load_extraction_context 7 22 2 conversation
      ≡ map (λ (r : Row). model_message r.1) found)
    × IsInOrder found
    × All (IsContext 7 22 conversation.messages (λ q. Memᴰ q found)) found
    × ((c : ℕ × ℕ) → length (keep (λ (r : Row). is_in_conversation 7 c r.1) found) ≤ 2)
load_extraction_context_rows_example = load_extraction_context_rows 7 22 2 conversation
