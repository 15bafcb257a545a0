-- ===== src/Budget.antt =====
-- src/gossipmemo/context_budget.py: the conservative estimate of a request and its limit.
mod Laws
mod Tests
use gossip_memo.Base.{ℕ, ◌+◌, String, Bool, List, [], ◌∷◌, ltb, leb, max, ◌||◌, if◌then◌else◌}
use gossip_memo.Base.Int.{ℤ, pos, negsuc, ◌-ℤ◌, ltb_ℤ, leb_ℤ}
use gossip_memo.Base.Results.{Result, ok, err, raise_if, ◌>>=◌, ◌>>◌}

-- A text is the list of its code points.
abbrev pub Text : Type 0
Text = List ℕ

-- `len(text.encode("utf-8"))` of a text without lone surrogates; on a lone surrogate `encode` raises,
-- which is left out.
pub utf8_length : Text → ℕ
utf8_length [] = 0
utf8_length (c ∷ text) =
    (if ltb c 0x80 then 1 else if ltb c 0x800 then 2 else if ltb c 0x10000 then 3 else 4)
    + utf8_length text

-- The float arithmetic `math.ceil(n / 3 * 1.15)` is `ceil_scaled n`.
module _ (ceil_scaled : ℕ → ℕ) where
  unfoldable pub estimate_text : Text → ℕ
  unfolding utf8_length
  estimate_text text = max 1 (ceil_scaled (utf8_length text) + 8)

-- The ValueErrors of the module
pub data BudgetError : Type 0 where
  bad_values no_usable_input over_budget : BudgetError

pub record ContextBudget : Type 0 where
  pub context_window_tokens : ℤ
  pub output_reserve_tokens : ℤ
  pub safety_tokens : ℤ
  pub usable_input_tokens : ℤ

-- `ContextBudget.__init__`
unfoldable pub create : ℤ → ℤ → ℤ → Result BudgetError ContextBudget
create window reserve safety = do
  raise_if (leb_ℤ window (pos 0) || ltb_ℤ reserve (pos 0) || ltb_ℤ safety (pos 0)) bad_values
  let usable = window -ℤ reserve -ℤ safety
  raise_if (leb_ℤ usable (pos 0)) no_usable_input
  ok (record {
    context_window_tokens = window;
    output_reserve_tokens = reserve;
    safety_tokens = safety;
    usable_input_tokens = usable;
  })

pub record BudgetReport : Type 0 where
  pub estimated_tokens : ℕ
  pub limit_tokens : ℤ

-- The property `fits`
unfoldable pub report_fits : BudgetReport → Bool
report_fits r = leb_ℤ (pos r.estimated_tokens) r.limit_tokens

unfoldable pub report : ContextBudget → ℕ → BudgetReport
report b estimated = record { estimated_tokens = estimated; limit_tokens = b.usable_input_tokens }

unfoldable pub check : ContextBudget → ℕ → Result BudgetError BudgetReport
unfolding report report_fits
check b estimated = let r = report b estimated in if report_fits r then ok r else err over_budget
