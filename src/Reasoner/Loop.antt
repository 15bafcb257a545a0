-- ===== src/Reasoner/Loop.antt =====
-- The catch-up loop of src/gossipmemo/reasoners/base.py ends when each attempt that asks for another
-- one has made the work smaller.
use gossip_memo.Base.{ℕ, zero, suc, ◌<◌, Bool, true, false, some, ◌≡◌, ◌⊎◌, inl, inr, refl, arith}
use gossip_memo.Base.Results.{Result, ok, err}
use gossip_memo.Reasoner.{Descriptor, attempt, run_until_caught_up}

module _ {ℓ κ μ} {S : Type ℓ} {C : Type κ} {R : Type μ} {E : Type 0} (d : Descriptor S C R E) where
  -- The two ends of a loop at the store `v`: its attempt there found nothing more to do, or raised.
  pub data HasStopped (v : S) : Result E (Unit {0}) → Type 0 where
    caught_up : (attempt d v).1 ≡ ok false → HasStopped v (ok tt)
    raised : (e : E) → (attempt d v).1 ≡ err e → HasStopped v (err e)

  pub outcome_cases :
      (o : Result E Bool) → (o ≡ ok true) ⊎ ((o ≡ ok false) ⊎ ((e : E) × (o ≡ err e)))
  outcome_cases (err e) = inr (inr (e, refl))
  outcome_cases (ok true) = inl refl
  outcome_cases (ok false) = inr (inl refl)

  -- By an invariant `P` and a measure that every attempt which continues lowers, the loop of a task
  -- that is not stopped ends, either because its last attempt found nothing more to do or because
  -- the call of its last attempt raised.
  pub run_until_caught_up-ends {ν} :
      (P : S → Type ν) (measure : S → ℕ)
      → ((s : S) → P s → P (attempt d s).0)
      → ((s : S) → P s → (attempt d s).1 ≡ ok true → measure (attempt d s).0 < measure s)
      → (fuel : ℕ) (s : S) → P s
      → measure s < fuel
      → (v : S) × (outcome : Result E (Unit {0})) × P v
        × HasStopped v outcome
        × (run_until_caught_up d fuel (λ turn. true) s ≡ some ((attempt d v).0, outcome))
  unfolding run_until_caught_up
  run_until_caught_up-ends P measure keeps lowers zero s p h = absurd (omega (arith, h))
  run_until_caught_up-ends P measure keeps lowers (suc fuel) s p h =
      elim (outcome_cases (attempt d s).1) [
        | inl e ↦
            let less = lowers s p e in
            let (v, outcome, q, f, g) =
              run_until_caught_up-ends P measure keeps lowers fuel (attempt d s).0 (keeps s p)
                (omega (arith, less, h)) in
            (v, outcome, q, f, rw e g)
        | inr (inl e) ↦ (s, ok tt, p, caught_up e, rw e refl)
        | inr (inr (x, e)) ↦ (s, err x, p, raised x e, rw e refl)
      ]
