-- ===== src/Intake.antt =====
-- How SocialMemoryWorld puts messages into batches: `_drain_extraction_batches` and the loop of
-- `import_messages` (src/gossipmemo/world.py), on the tables of Messages. A turn n of a loop draws the
-- id and the time of its batch from `draw n`; the answer lists the batches whose extraction is
-- scheduled. Neither loop awaits anything, so that nothing comes between its turns.
pub mod Shrinking
pub mod Drained
mod Tests
use gossip_memo.Base.{
  ℕ, zero, suc, Bool, true, false, Option, none, some, List, [], ◌∷◌, leb, map, length, take,
  if◌then◌else◌,
}
use gossip_memo.Messages.{Tables}
use gossip_memo.Messages.Batches.{create_extraction_batch, unbatched_messages}

-- `[message_id for message_id, _ in pending[:size]]`
abbrev pub first_ids : (size : ℕ) → List (ℕ × ℕ) → List ℕ
first_ids size rows = map (λ (row : ℕ × ℕ). row.0) (take size rows)

-- One batch of the first unbatched messages
unfoldable pub batch_first : (size space : ℕ) → ℕ × ℕ → Tables → Tables × Option ℕ
unfolding create_extraction_batch unbatched_messages
batch_first size space draw t =
    create_extraction_batch draw.0 draw.1 space (first_ids size (unbatched_messages space t)) t

abbrev pub scheduled : Option ℕ → List ℕ → List ℕ
scheduled none batches = batches
scheduled (some batch) batches = batch ∷ batches

-- The batches that follow, behind the first
abbrev pub with_batch : Option ℕ → Option (Tables × List ℕ) → Option (Tables × List ℕ)
with_batch batch none = none
with_batch batch (some done) = some (done.0, scheduled batch done.1)

-- `while len(pending) >= self.extraction_batch_size`; none when the fuel ends before the loop
unfoldable pub drain_extraction_batches :
    (fuel size space : ℕ) → (ℕ → ℕ × ℕ) → Tables → Option (Tables × List ℕ)
unfolding batch_first unbatched_messages
drain_extraction_batches zero size space draw t = none
drain_extraction_batches (suc fuel) size space draw t =
    let made = batch_first size space (draw 0) t in
    let rest = drain_extraction_batches fuel size space (λ n. draw (suc n)) made.0 in
    if leb size (length (unbatched_messages space t)) then with_batch made.1 rest else some (t, [])

-- The loop of an import: until nothing is pending, or no batch is made
unfoldable pub batch_all : (fuel size space : ℕ) → (ℕ → ℕ × ℕ) → Tables → Option (Tables × List ℕ)
unfolding batch_first unbatched_messages
batch_all zero size space draw t = none
batch_all (suc fuel) size space draw t =
    let made = batch_first size space (draw 0) t in
    let rest = batch_all fuel size space (λ n. draw (suc n)) made.0 in
    elim (unbatched_messages space t) [
      | [] ↦ some (t, [])
      | row ∷ rows ↦ elim made.1 [
        | none ↦ some (made.0, [])
        | some batch ↦ with_batch (some batch) rest
      ]
    ]
