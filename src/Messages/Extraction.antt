-- ===== src/Messages/Extraction.antt =====
-- One attempt at the neediest batch, `_attempt` of src/gossipmemo/reasoners/extraction.py, the loop
-- `run_until_caught_up` of src/gossipmemo/reasoners/base.py, and the frame of `apply_extraction`
-- of src/gossipmemo/store/_messages.py. The tables of people and memories are a type `W`: what
-- `apply_extraction` writes there is the argument `write`, and `extract` is the model call on
-- what the reads before it found. Either may raise an exception, which is its text.
use gossip_memo.Base.{
  ℕ, zero, suc, Bool, false, not, Option, none, some, List, [], ◌∷◌, ◌==◌, ltb, length, any, ◌&&◌,
  if◌then◌else◌,
}
use gossip_memo.Base.Results.{Result, ok, err}
use gossip_memo.Messages.{Tables, is_same}
use gossip_memo.Messages.Batches.{
  is_completed, ModelMessage, load_batch, mark_extraction_attempt, fail_extraction,
  finish_extraction, PendingExtraction, pending_extractions, is_exhausted,
}

-- `pending.batch_id for pending in ... if ...`
abbrev pub eligible_from : ℕ → List PendingExtraction → List ℕ
eligible_from space [] = []
eligible_from space (p ∷ ps) =
    let rest = eligible_from space ps in
    elim p.batch_id [
      | none ↦ rest
      | some batch ↦ if p.space_id == space && not (is_exhausted p) then batch ∷ rest else rest
    ]

unfoldable pub eligible : ℕ → Tables → List ℕ
eligible space t = eligible_from space (pending_extractions t)

pub record World (W : Type 0) : Type 0 where
  pub tables : Tables
  pub world : W

module _ {W R : Type 0} (extract : List ModelMessage → Tables → W → Result (List ℕ) R)
    (write : R → W → Result (List ℕ) W) (key_error : List ℕ) (now space : ℕ) where
  -- A result that is an error is the exception, and the transaction rolls back.
  unfoldable pub apply_extraction : ℕ → R → World W → Result (List ℕ) (World W)
  apply_extraction batch result s =
      if any (λ b. b.space_id == space && b.id == batch) s.tables.batches
      then if any (λ row. is_same row.batch (some batch) && not (is_completed row))
          s.tables.messages
        then elim (write result s.world) [
          | ok written ↦
              ok (record { tables = finish_extraction now batch s.tables; world = written })
          | err error ↦ err error
        ]
        else ok s
      else err key_error

  -- The `try` of `_attempt`, entered after `mark_extraction_attempt`, with its `except`
  unfoldable pub extract_batch : ℕ → List ModelMessage → World W → World W
  unfolding apply_extraction
  extract_batch batch messages s = elim (extract messages s.tables s.world) [
    | ok result ↦ elim (apply_extraction batch result s) [
      | ok applied ↦ applied
      | err error ↦ record s { tables = fail_extraction space batch error s.tables }
    ]
    | err error ↦ record s { tables = fail_extraction space batch error s.tables }
  ]

  -- From `batch_id = eligible[0]` on
  unfoldable pub attempt_batch : ℕ → List ℕ → World W → World W × Bool
  unfolding extract_batch
  attempt_batch batch more s = elim (load_batch space batch s.tables) [
    | [] ↦ (s, ltb 0 (length more))
    | first ∷ messages ↦ (
      extract_batch batch (first ∷ messages)
          (record s { tables = mark_extraction_attempt space batch s.tables }),
      ltb 0 (length more),
    )
  ]

  unfoldable pub attempt : World W → World W × Bool
  unfolding attempt_batch
  attempt s = elim (eligible space s.tables) [
    | [] ↦ (s, false)
    | batch ∷ more ↦ attempt_batch batch more s
  ]

  -- The loop, none when the fuel ends before it; `should_continue` answers turn by turn.
  unfoldable pub run_until_caught_up : ℕ → (ℕ → Bool) → World W → Option (World W)
  unfolding attempt
  run_until_caught_up zero should_continue s = none
  run_until_caught_up (suc fuel) should_continue s =
      let rest : Option (World W) =
        run_until_caught_up fuel (λ turn. should_continue (suc turn)) (attempt s).0 in
      if should_continue 0 then (if (attempt s).1 then rest else some (attempt s).0) else some s
