-- ===== src/Budget/Tests.antt =====
-- The theorems on src/gossipmemo/context_budget.py at concrete values.
use gossip_memo.Base.{ℕ, ◌+◌, ◌*◌, ◌/◌, ◌≡◌, ◌↔◌, refl, true, false, [], ◌∷◌}
use gossip_memo.Base.Int.{pos, ◌≤ℤ◌, ◌<ℤ◌}
use gossip_memo.Base.Results.{ok, err}
use gossip_memo.Budget.{
  estimate_text, ContextBudget, create, over_budget, report, report_fits, check,
}
use gossip_memo.Budget.Laws.{create_exact, check_exact}

-- The default values of `ContextBudget.__init__`
abbrev defaults : ContextBudget
defaults = record {
  context_window_tokens = pos 65536;
  output_reserve_tokens = pos 8192;
  safety_tokens = pos 4096;
  usable_input_tokens = pos 53248;
}

defaults_created : create (pos 65536) (pos 8192) (pos 4096) ≡ ok defaults
unfolding create
defaults_created = refl

defaults_exact :
    (create (pos 65536) (pos 8192) (pos 4096) ≡ ok defaults)
    ↔ ((pos 0 ≤ℤ pos 8192) × (pos 0 ≤ℤ pos 4096) × (pos 0 <ℤ pos 53248) × (defaults ≡ defaults))
defaults_exact = create_exact (pos 65536) (pos 8192) (pos 4096) defaults

-- Exact arithmetic for `math.ceil(n / 3 * 1.15)`
abbrev ceil_exact : ℕ → ℕ
ceil_exact n = (23 * n + 59) / 60

estimate_runs : estimate_text ceil_exact (104 ∷ 233 ∷ 0x4e2d ∷ []) ≡ 11
unfolding estimate_text
estimate_runs = refl

check_default :
    (report_fits (report defaults 60000) ≡ true → check defaults 60000 ≡ ok (report defaults 60000))
    × (report_fits (report defaults 60000) ≡ false → check defaults 60000 ≡ err over_budget)
check_default = check_exact defaults 60000
