-- ===== src/Messages/Remaining.antt =====
-- What is left to try of each row of the table messages, and what an attempt spends of it
-- (src/gossipmemo/reasoners/extraction.py).
use gossip_memo.Base.{
  ℕ, ◌+◌, ◌-◌, ◌≤◌, ◌<◌, true, some, List, [], ◌∷◌, map, if◌then◌else◌, ◌≡◌, ap, arith,
}
use gossip_memo.Messages.{Message, pending, failed, completed, is_same}
use gossip_memo.Messages.Batches.{is_open, try_again, fail_with, complete_at}
use mathlib.Core.List.{Memᴰ}

-- What a row can still be tried: a failure costs one attempt, and a row that was left pending by a
-- killed process is tried once more at least.
unfoldable pub budget : Message → ℕ
budget row = elim row.state [
  | pending ↦ 1 + (5 - row.attempts)
  | failed ↦ 5 - row.attempts
  | completed ↦ 0
]

unfoldable pub total : List Message → ℕ
total [] = 0
total (row ∷ rows) = budget row + total rows

pub total-map :
    (h : Message → Message) (rows : List Message)
    → ((row : Message) → budget (h row) ≤ budget row)
    → total (map h rows) ≤ total rows
unfolding total
total-map h [] le = omega arith
total-map h (row ∷ rows) le = omega (arith, le row, total-map h rows le)

pub total-map_lt :
    (h : Message → Message) {row : Message} {rows : List Message}
    → ((r : Message) → budget (h r) ≤ budget r)
    → Memᴰ row rows
    → budget (h row) < budget row
    → total (map h rows) < total rows
unfolding total
total-map_lt h le (Memᴰ.head {xs = rows} e) lt =
    omega (arith, lt, ap budget e, ap (λ r. budget (h r)) e, total-map h rows le)
total-map_lt h le (Memᴰ.tail {x = other} i) lt = omega (arith, le other, total-map_lt h le i lt)

-- What the three ways through an attempt do to a row
unfoldable pub failing : ℕ → ℕ → List ℕ → Message → Message
unfolding is_open
failing space batch error row =
    let tried = if is_open space batch row then try_again row else row in
    if is_open space batch tried then fail_with error tried else tried

unfoldable pub finishing : ℕ → ℕ → ℕ → Message → Message
unfolding is_open
finishing now space batch row =
    let tried = if is_open space batch row then try_again row else row in
    if is_same tried.batch (some batch) then complete_at now tried else tried

pub failing-budget :
    (space batch : ℕ) (error : List ℕ) (row : Message)
    → budget (failing space batch error row) ≤ budget row
unfolding failing is_open budget
failing-budget space batch error row = ground arith

pub finishing-budget :
    (now space batch : ℕ) (row : Message) → budget (finishing now space batch row) ≤ budget row
unfolding finishing is_open budget
finishing-budget now space batch row = ground arith

pub failing-budget_lt :
    (space batch : ℕ) (error : List ℕ) (row : Message)
    → is_open space batch row ≡ true
    → 0 < budget row
    → budget (failing space batch error row) < budget row
unfolding failing is_open budget
failing-budget_lt space batch error row o p = ground arith

pub finishing-budget_lt :
    (now space batch : ℕ) (row : Message)
    → is_open space batch row ≡ true
    → 0 < budget row
    → budget (finishing now space batch row) < budget row
unfolding finishing is_open budget
finishing-budget_lt now space batch row o p = ground arith
