-- ===== src/Provider/Delay.antt =====
-- The backoff of src/gossipmemo/transport.py, `RetryPolicy.delay`.
use gossip_memo.Base.{ℕ, ◌*◌, ◌^◌, ◌≤◌, min, Option, none, some, arith}
use gossip_memo.Provider.{RetryPolicy, delay}

-- What a retry is told to wait for at least: the Retry-After of the provider, up to the maximum.
abbrev pub asked_for : RetryPolicy → Option ℕ → ℕ
asked_for policy none = 0
asked_for policy (some r) = min r policy.max_seconds

-- If the jitter stays between half its argument and its argument, then a delay never passes the
-- maximum, is at least half the exponential backoff up to the maximum, and at least what the
-- provider asked for up to the maximum.
pub delay_bounds :
    (jitter : ℕ → ℕ) (policy : RetryPolicy) (attempt : ℕ) (retry_after : Option ℕ)
    → ((x : ℕ) → x ≤ 2 * jitter x)
    → ((x : ℕ) → jitter x ≤ x)
    → let d = delay jitter policy attempt retry_after in
      (d ≤ policy.max_seconds)
      × (min policy.max_seconds (policy.base_seconds * 2 ^ attempt) ≤ 2 * d)
      × (asked_for policy retry_after ≤ d)
unfolding delay
delay_bounds jitter policy attempt none low high =
    let x : ℕ = min policy.max_seconds (policy.base_seconds * 2 ^ attempt) in
    (omega (arith, low x, high x), omega (arith, low x, high x), omega arith)
delay_bounds jitter policy attempt (some r) low high =
    let x : ℕ = min policy.max_seconds (policy.base_seconds * 2 ^ attempt) in
    (omega (arith, low x, high x), omega (arith, low x, high x), omega (arith, low x, high x))
