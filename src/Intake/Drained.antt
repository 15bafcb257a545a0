-- ===== src/Intake/Drained.antt =====
-- The loops that put messages into batches come to an end (src/gossipmemo/world.py).
use gossip_memo.Base.{
  ℕ, zero, suc, ◌<◌, some, List, [], ◌∷◌, ◌≡◌, inl, inr, refl, ap, leb, length, arith, Bool-cases,
  List-cases,
}
use gossip_memo.Messages.{Tables}
use gossip_memo.Messages.Batches.{unbatched_messages}
use gossip_memo.Intake.{batch_first, scheduled, drain_extraction_batches, batch_all}
use gossip_memo.Intake.Shrinking.{length-unbatched_messages, batch_first-lt}

module _ (size space : ℕ) where
  -- With batches of at least one message, draining ends within one turn more than there are unbatched
  -- messages, and leaves fewer of them than a batch holds.
  pub drain_extraction_batches-ends :
      (fuel : ℕ) (draw : ℕ → ℕ × ℕ) (t : Tables)
      → length (unbatched_messages space t) < fuel
      → (u : Tables) × (batches : List ℕ) × (drain_extraction_batches fuel (suc size) space draw t
          ≡ some (u, batches))
        × (length (unbatched_messages space u) < suc size)
  unfolding drain_extraction_batches
  drain_extraction_batches-ends zero draw t h = absurd (omega (arith, h))
  drain_extraction_batches-ends (suc fuel) draw t h =
      elim (Bool-cases (leb (suc size) (length (unbatched_messages space t)))) [
        | inl b ↦ elim (List-cases (unbatched_messages space t)) [
          | inl e ↦ let none_there = ap length e in absurd (ground (arith, b, none_there))
          | inr (p, ps, e) ↦
              let made = batch_first (suc size) space (draw 0) t in
              let less = (batch_first-lt size space (draw 0) t p ps e).1 in
              let before = length-unbatched_messages space t in
              let after = length-unbatched_messages space made.0 in
              let (u, batches, f, g) =
                drain_extraction_batches-ends fuel (λ n. draw (suc n)) made.0
                  (omega (arith, h, less, before, after)) in
              (u, scheduled made.1 batches, rw (b, f) refl, g)
        ]
        | inr b ↦ (t, [], rw b refl, ground (arith, b))
      ]

  -- With batches of at least one message, an import leaves none of the space's messages without a
  -- batch, within one turn more than there are.
  pub batch_all-ends :
      (fuel : ℕ) (draw : ℕ → ℕ × ℕ) (t : Tables)
      → length (unbatched_messages space t) < fuel
      → (u : Tables) × (batches : List ℕ) × (batch_all fuel (suc size) space draw t
          ≡ some (u, batches))
        × (unbatched_messages space u ≡ [])
  unfolding batch_all
  batch_all-ends zero draw t h = absurd (omega (arith, h))
  batch_all-ends (suc fuel) draw t h = elim (List-cases (unbatched_messages space t)) [
    | inl e ↦ (t, [], rw (e, batch_all) refl, e)
    | inr (p, ps, e) ↦
        let made = batch_first (suc size) space (draw 0) t in
        let (batch, less) = batch_first-lt size space (draw 0) t p ps e in
        let before = length-unbatched_messages space t in
        let after = length-unbatched_messages space made.0 in
        let (u, batches, f, g) =
          batch_all-ends fuel (λ n. draw (suc n)) made.0 (omega (arith, h, less, before, after)) in
        (u, (draw 0).0 ∷ batches, rw (e, batch, f, batch_all) refl, g)
  ]
