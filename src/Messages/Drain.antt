-- ===== src/Messages/Drain.antt =====
-- The catch-up loop of src/gossipmemo/reasoners/base.py over the attempts of
-- src/gossipmemo/reasoners/extraction.py ends: each attempt spends some of what is left to try.
use gossip_memo.Base.{
  ℕ, zero, suc, ◌<◌, Bool, true, not, some, List, ◌∷◌, any, map, ◌&&◌, ◌≡◌, refl, ap, arith, inl,
  inr, Bool-cases, List-cases,
}
use gossip_memo.Base.Results.{Result, ok, Result-cases}
use gossip_memo.Messages.{Message, Tables, is_same}
use gossip_memo.Messages.Batches.{
  is_completed, is_open, ModelMessage, load_batch, mark_extraction_attempt, fail_extraction,
  finish_extraction, pending_extractions,
}
use gossip_memo.Messages.Extraction.{
  eligible, World, apply_extraction, extract_batch, attempt_batch, attempt, run_until_caught_up,
}
use mathlib.Core.List.{Memᴰ}
use gossip_memo.Messages.Remaining.{
  total, total-map_lt, failing, finishing, failing-budget, failing-budget_lt, finishing-budget,
  finishing-budget_lt,
}
use gossip_memo.Messages.Eligible.{
  Chosen, pending_extractions-Stands, eligible_from-Chosen, load_batch-Chosen, map-map,
}

-- A failed attempt, and one that completes the batch
failed_attempt :
    (space batch : ℕ) (error : List ℕ) (t : Tables)
    → (fail_extraction space batch error (mark_extraction_attempt space batch t)).messages
      ≡ map (failing space batch error) t.messages
unfolding failing fail_extraction mark_extraction_attempt
failed_attempt space batch error t = map-map _ _ _ t.messages (λ row. refl)

finished_attempt :
    (now space batch : ℕ) (t : Tables)
    → (finish_extraction now batch (mark_extraction_attempt space batch t)).messages
      ≡ map (finishing now space batch) t.messages
unfolding finishing finish_extraction mark_extraction_attempt
finished_attempt now space batch t = map-map _ _ _ t.messages (λ row. refl)

failed_attempt_lt :
    (space batch : ℕ) (error : List ℕ) (t : Tables)
    → Chosen space batch t.messages
    → total (fail_extraction space batch error (mark_extraction_attempt space batch t)).messages
      < total t.messages
failed_attempt_lt space batch error t c = rw (failed_attempt space batch error t) (
    total-map_lt (failing space batch error) (failing-budget space batch error) c.inside
      (failing-budget_lt space batch error c.row c.is_open c.left))

finished_attempt_lt :
    (now space batch : ℕ) (t : Tables)
    → Chosen space batch t.messages
    → total (finish_extraction now batch (mark_extraction_attempt space batch t)).messages
      < total t.messages
finished_attempt_lt now space batch t c = rw (finished_attempt now space batch t) (
    total-map_lt (finishing now space batch) (finishing-budget now space batch) c.inside
      (finishing-budget_lt now space batch c.row c.is_open c.left))

any-map :
    (p : Message → Bool) (f : Message → Message) {row : Message} {rows : List Message}
    → Memᴰ row rows
    → p (f row) ≡ true
    → any p (map f rows) ≡ true
any-map p f (Memᴰ.head {x} e) h = ground (arith, ap (λ r. p (f r)) e, h)
any-map p f (Memᴰ.tail {x} m) h = ground (arith, any-map p f m h)

still_pending :
    (space batch : ℕ) (t : Tables)
    → Chosen space batch t.messages
    → any
        (λ row. is_same row.batch (some batch) && not (is_completed row))
        (mark_extraction_attempt space batch t).messages
      ≡ true
unfolding mark_extraction_attempt is_open
still_pending space batch t c = any-map _ _ c.inside (ground (arith, c.is_open))

module _ {W R : Type 0} (extract : List ModelMessage → Tables → W → Result (List ℕ) R)
    (write : R → W → Result (List ℕ) W) (key_error : List ℕ) (now space : ℕ) where
  applied_lt :
      (batch : ℕ) (result : R) (s : World W) (s' : World W)
      → Chosen space batch s.tables.messages
      → apply_extraction extract write key_error now space batch result
          (record s { tables = mark_extraction_attempt space batch s.tables })
        ≡ ok s'
      → total s'.tables.messages < total s.tables.messages
  unfolding apply_extraction
  applied_lt batch result s s' c e = ground (
    arith,
    finished_attempt_lt now space batch s.tables c,
    still_pending space batch s.tables c,
    e,
  )

  extract_batch_lt :
      (batch : ℕ) (messages : List ModelMessage) (s : World W)
      → Chosen space batch s.tables.messages
      → total
          (extract_batch extract write key_error now space batch messages
            (record s { tables = mark_extraction_attempt space batch s.tables })).tables.messages
        < total s.tables.messages
  unfolding extract_batch
  extract_batch_lt batch messages s c =
      elim (Result-cases
        (extract messages (mark_extraction_attempt space batch s.tables) s.world)) [
          | inl (result, e) ↦
              elim (Result-cases (
                apply_extraction extract write key_error now space batch result
                  (record s { tables = mark_extraction_attempt space batch s.tables }))) [
                    | inl (s', a) ↦ ground (arith, e, a, applied_lt batch result s s' c a)
                    | inr (error, a) ↦
                        ground (arith, e, a, failed_attempt_lt space batch error s.tables c)
                  ]
          | inr (error, e) ↦ ground (arith, e, failed_attempt_lt space batch error s.tables c)
        ]

  attempt_batch_lt :
      (batch : ℕ) (more : List ℕ) (s : World W)
      → Chosen space batch s.tables.messages
      → total (attempt_batch extract write key_error now space batch more s).0.tables.messages
        < total s.tables.messages
  unfolding attempt_batch
  attempt_batch_lt batch more s c = elim (List-cases (load_batch space batch s.tables)) [
    | inl e ↦ absurd (ground (arith, load_batch-Chosen space batch s.tables c, e))
    | inr (first, messages, e) ↦
        rw (e, attempt_batch) (extract_batch_lt batch (first ∷ messages) s c)
  ]

  -- An attempt that asks to be called again leaves less to try.
  attempt_lt :
      (s : World W)
      → (attempt extract write key_error now space s).1 ≡ true
      → total (attempt extract write key_error now space s).0.tables.messages
        < total s.tables.messages
  unfolding attempt eligible
  attempt_lt s again = elim (List-cases (eligible space s.tables)) [
    | inl e ↦ absurd (ground (arith, again, e))
    | inr (batch, more, e) ↦
        rw (e, attempt)
          (attempt_batch_lt batch more s (
            eligible_from-Chosen space batch s.tables.messages (pending_extractions s.tables) more
              (pending_extractions-Stands s.tables) e))
  ]

  -- Whatever the model answers, whatever fails and whenever the loop is told to stop, the catch-up
  -- loop ends within one attempt more than `total`, what is left to try of all rows.
  pub run_until_caught_up_ends :
      (fuel : ℕ) (should_continue : ℕ → Bool) (s : World W)
      → total s.tables.messages < fuel
      → (s' : World W) × (run_until_caught_up extract write key_error now space fuel should_continue
            s
          ≡ some s')
  unfolding run_until_caught_up
  run_until_caught_up_ends zero should_continue s lt = absurd (omega (arith, lt))
  run_until_caught_up_ends (suc fuel) should_continue s lt = elim (Bool-cases (should_continue 0)) [
    | inr stop ↦ (s, rw stop refl)
    | inl go ↦ elim (Bool-cases (attempt extract write key_error now space s).1) [
      | inr done ↦ ((attempt extract write key_error now space s).0, rw go (rw done refl))
      | inl again ↦
          let rest =
            run_until_caught_up_ends fuel (λ turn. should_continue (suc turn))
              (attempt extract write key_error now space s).0
              (omega (arith, lt, attempt_lt s again)) in
          (rest.0, rw go (rw again rest.1))
    ]
  ]
