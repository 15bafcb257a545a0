-- ===== src/Budget/Laws.antt =====
-- The limits of src/gossipmemo/context_budget.py.
use gossip_memo.Base.{ℕ, ◌≡◌, ◌↔◌, true, false, arith}
use gossip_memo.Base.Int.{ℤ, pos, negsuc, ◌-ℤ◌, ◌≤ℤ◌, ◌<ℤ◌}
use gossip_memo.Base.Results.{ok, err}
use gossip_memo.Budget.{over_budget, ContextBudget, create, report, report_fits, check}

create_ok :
    (window reserve safety : ℤ) (b : ContextBudget)
    → pos 0 ≤ℤ reserve
    → pos 0 ≤ℤ safety
    → pos 0 <ℤ b.usable_input_tokens
    → b ≡ record {
      context_window_tokens = window;
      output_reserve_tokens = reserve;
      safety_tokens = safety;
      usable_input_tokens = window -ℤ reserve -ℤ safety;
    }
    → create window reserve safety ≡ ok b
unfolding create
create_ok (pos w) (pos r) (pos s) b hr hs hu e = ground arith
create_ok (negsuc w) (pos r) (pos s) b hr hs hu e = absurd (ground arith)
create_ok w (negsuc r) s b hr hs hu e = absurd (omega arith)
create_ok w r (negsuc s) b hr hs hu e = absurd (omega arith)

-- A budget is built exactly when neither reserve is negative and the window less the reserves, which
-- is what it allows, is positive.
pub create_exact :
    (window reserve safety : ℤ) (b : ContextBudget)
    → (create window reserve safety ≡ ok b) ↔ (
        (pos 0 ≤ℤ reserve)
        × (pos 0 ≤ℤ safety)
        × (pos 0 <ℤ b.usable_input_tokens)
        × (b ≡ record {
          context_window_tokens = window;
          output_reserve_tokens = reserve;
          safety_tokens = safety;
          usable_input_tokens = window -ℤ reserve -ℤ safety;
        }))
unfolding create
create_exact window reserve safety b = (
  λ h. (ground arith, ground arith, ground arith, ground arith),
  λ h. create_ok window reserve safety b h.0 h.1 h.2 h.3,
)

-- `check` returns the report that `report` makes exactly when that report fits, and raises
-- otherwise.
pub check_exact :
    (b : ContextBudget) (n : ℕ)
    → (report_fits (report b n) ≡ true → check b n ≡ ok (report b n))
      × (report_fits (report b n) ≡ false → check b n ≡ err over_budget)
unfolding check
check_exact b n = (λ h. ground arith, λ h. ground arith)
