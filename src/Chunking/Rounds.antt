-- ===== src/Chunking/Rounds.antt =====
-- `reduce_until_fits` of src/gossipmemo/chunking.py.
use gossip_memo.Base.{
  ℕ, zero, suc, ◌+◌, ◌≤◌, ◌<◌, ◌≡◌, ◌↔◌, inl, inr, refl, Bool, true, false, Option, none, some,
  List, arith, leb, Bool-cases, if◌then◌else◌,
}
use gossip_memo.Base.Results.{Result, ok, err, ◌>>=◌, >>=-eq-ok, ok-injective}

-- The two ValueErrors: a round that did not shrink, and the last round that did not fit.
pub data ReductionError (E : Type 0) : Type 0 where
  no_progress out_of_rounds : ReductionError E
  round_failed : E → ReductionError E

module _ {ℓ} {T : Type ℓ} {E : Type 0}
    (reduce_round : ℕ → List T → Result (ReductionError E) (List T)) (target_fits : List T → Bool)
    (progress_size : List T → ℕ) where
  -- `previous_size is not None and size >= previous_size`
  abbrev pub stalls : Option ℕ → ℕ → Bool
  stalls none size = false
  stalls (some previous) size = leb previous size

  -- The loop: rounds left, number of the round, `previous_size`, `current`. A round asks the
  -- model, whose answer may differ from round to round.
  pub rounds : ℕ → ℕ → Option ℕ → List T → Result (ReductionError E) (List T)
  rounds zero round previous current = err out_of_rounds
  rounds (suc left) round previous current = do
    reduced ← reduce_round round current
    let size = progress_size reduced
    let rest = rounds left (round + 1) (some size) reduced
    if target_fits reduced
        then ok reduced
        else if stalls previous size
        then err no_progress
        else rest

  unfoldable pub reduce_until_fits : ℕ → List T → Result (ReductionError E) (List T)
  unfolding rounds
  reduce_until_fits max_rounds source = rounds max_rounds 0 none source

  abbrev HasShrunk : Option ℕ → ℕ → Type 0
  HasShrunk none size = Unit
  HasShrunk (some previous) size = size < previous

  -- A run of rounds from `current` of which the last alone fits, and gives the result. A round that
  -- does not fit is smaller than the one before it, if there is one; the last need only fit.
  pub data Shrinks : ℕ → Option ℕ → List T → ℕ → List T → Type ℓ where
    last :
        {round : ℕ} {previous : Option ℕ} {current result : List T}
        → reduce_round round current ≡ ok result
        → target_fits result ≡ true
        → Shrinks round previous current 1 result
    more :
        {round used : ℕ} {previous : Option ℕ} {current reduced result : List T}
        → reduce_round round current ≡ ok reduced
        → target_fits reduced ≡ false
        → HasShrunk previous (progress_size reduced)
        → Shrinks (round + 1) (some (progress_size reduced)) reduced used result
        → Shrinks round previous current (suc used) result

  stalls-HasShrunk :
      (previous : Option ℕ) (size : ℕ)
      → (stalls previous size ≡ false → HasShrunk previous size)
        × (HasShrunk previous size → stalls previous size ≡ false)
  stalls-HasShrunk none size = (λ _. tt, λ _. refl)
  stalls-HasShrunk (some previous) size = (λ h. ground arith, λ h. ground arith)

  rounds-Shrinks :
      (left round : ℕ) (previous : Option ℕ) (current : List T) {result : List T}
      → rounds left round previous current ≡ ok result
      → (used : ℕ) × (used ≤ left) × Shrinks round previous current used result
  unfolding rounds
  rounds-Shrinks zero round previous current e = cc
  rounds-Shrinks (suc left) round previous current e =
      let (reduced, r, e1) = >>=-eq-ok (reduce_round round current) _ e in
      elim (Bool-cases (target_fits reduced)) [
        | inl f ↦
            let e2 : ok reduced ≡ _ = rw f at e1 in
            (1, omega arith, rw (← ok-injective e2) (last r f))
        | inr f ↦ elim (Bool-cases (stalls previous (progress_size reduced))) [
          | inl s ↦ let stop : err no_progress ≡ _ = rw (f, s) at e1 in cc
          | inr s ↦
              let (used, bound, run) =
                rounds-Shrinks left (round + 1) (some (progress_size reduced)) reduced
                  (rw (f, s) at e1) in
              (
                suc used,
                omega arith,
                more r f ((stalls-HasShrunk previous (progress_size reduced)).0 s) run,
              )
        ]
      ]

  Shrinks-rounds :
      (left round : ℕ) (previous : Option ℕ) (current : List T) {used : ℕ} {result : List T}
      → Shrinks round previous current used result
      → used ≤ left
      → rounds left round previous current ≡ ok result
  unfolding rounds
  Shrinks-rounds zero round previous current (last r f) h = absurd (omega arith)
  Shrinks-rounds zero round previous current (more r f s run) h = absurd (omega arith)
  Shrinks-rounds (suc left) round previous current (last r f) h = rw (r, f) refl
  Shrinks-rounds (suc left) round previous current (more {reduced = reduced} r f s run) h =
      rw (r, f, (stalls-HasShrunk previous (progress_size reduced)).1 s)
        (Shrinks-rounds left (round + 1) (some (progress_size reduced)) reduced run (omega arith))

  -- `reduce_until_fits` returns a result exactly if a run of at most `max_rounds` rounds gives it, of
  -- which the last alone fits the target, and each that does not fit, but the first, is smaller
  -- than the one before it; the last need only fit, whatever its size.
  pub reduce_until_fits_exact :
      (max_rounds : ℕ) (source result : List T)
      → (reduce_until_fits max_rounds source ≡ ok result)
        ↔ ((used : ℕ) × (used ≤ max_rounds) × Shrinks 0 none source used result)
  unfolding reduce_until_fits
  reduce_until_fits_exact max_rounds source result = (
    rounds-Shrinks max_rounds 0 none source,
    λ (used, bound, run). Shrinks-rounds max_rounds 0 none source run bound,
  )
