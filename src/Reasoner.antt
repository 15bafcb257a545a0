-- ===== src/Reasoner.antt =====
-- The catch-up loop of a reasoner and the attempt of `DescriptorReasoner`
-- (src/gossipmemo/reasoners/base.py), over any state of the store. `call` stands for the model call
-- with what the reasoner makes of its answer: none where the reasoner skips it, an error where the
-- call raises, which ends the loop with what was committed before. The loop is that of one task, to
-- which the store belongs while it awaits.
pub mod Loop
pub mod Coverage
mod CaughtUp
pub mod Owners
mod Tests
use gossip_memo.Base.{ℕ, zero, suc, Bool, true, false, Option, none, some, if◌then◌else◌}
use gossip_memo.Base.Results.{Result, ok, err}

-- `E` is the type of the exceptions of the call.
module _ {ℓ κ μ} (S : Type ℓ) (C : Type κ) (R : Type μ) (E : Type 0) where
  pub record Descriptor : Type (ℓ ⊔ κ ⊔ μ) where
    pub load_context : S → Option C
    pub call : S → C → Result E (Option R)
    pub apply : S → C → R → S × Bool
    pub continue_when : C → Option R → Bool → Bool

-- The default `lambda context, result, applied: not applied`
abbrev pub until_applied {κ μ} : {C : Type κ} {R : Type μ} → C → Option R → Bool → Bool
until_applied context result true = false
until_applied context result false = true

module _ {ℓ κ μ} {S : Type ℓ} {C : Type κ} {R : Type μ} {E : Type 0} (d : Descriptor S C R E) where
  -- The store after the attempt, and whether it asks for another one, or what it raised
  unfoldable pub attempt : S → S × Result E Bool
  attempt s = elim (d.load_context s) [
    | none ↦ (s, ok false)
    | some context ↦ elim (d.call s context) [
      | err raised ↦ (s, err raised)
      | ok none ↦ (s, ok (d.continue_when context none false))
      | ok (some result) ↦
          let (next, applied) = d.apply s context result in
          (next, ok (d.continue_when context (some result) applied))
    ]
  ]

  -- How the loop goes on from an attempt that left the store `s`
  abbrev pub next_turn :
      Result E Bool → S → Option (S × Result E (Unit {0})) → Option (S × Result E (Unit {0}))
  next_turn (err raised) s rest = some (s, err raised)
  next_turn (ok false) s rest = some (s, ok tt)
  next_turn (ok true) s rest = rest

  -- none when the fuel ends before the loop; else the store that it leaves, and how it ended.
  -- `should_continue` answers turn by turn.
  unfoldable pub run_until_caught_up : ℕ → (ℕ → Bool) → S → Option (S × Result E (Unit {0}))
  unfolding attempt
  run_until_caught_up zero should_continue s = none
  run_until_caught_up (suc fuel) should_continue s =
      let rest = run_until_caught_up fuel (λ turn. should_continue (suc turn)) (attempt s).0 in
      if should_continue 0 then next_turn (attempt s).1 (attempt s).0 rest else some (s, ok tt)
