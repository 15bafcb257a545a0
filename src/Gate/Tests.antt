-- ===== src/Gate/Tests.antt =====
-- Runs of the gate of src/gossipmemo/transport.py, and its theorems at them.
use gossip_memo.Base.{ℕ, ◌≡◌, ◌≢◌, ◌≤◌, ◌<◌, refl, true, List, [], ◌∷◌, none, some, arith, ◌↔◌}
use gossip_memo.Gate.{
  Tier, foreground, freshness, background, pending, resolved, waiting, holding, Waiter, Gate,
  System, dispatch, release, enqueue, set_phase, poll_backoff, mark_unavailable_until,
  waiting_count, in_flight,
}
use gossip_memo.Gate.Steps.{Step, enter, wake, start, Reach, here, next}
use gossip_memo.Gate.Safety.{
  mutual_exclusion, open_gate_is_idle, dispatch-most_urgent, poll_backoff-mark,
  poll_backoff_after_sleep, urgency,
}
use gossip_memo.Gate.Leak.{Run, stay, race, lost_permit}
use gossip_memo.Gate.Progress.{CalmReach, calm_here, calm_next, CanGoOn, waiting-owner}

-- Caller 0 asks and holds the permit; caller 1 asks and waits.
abbrev asked : System
asked = enqueue 0 foreground "query" start

abbrev held : System
held = set_phase 0 holding asked

abbrev queued : System
queued = enqueue 1 background "extract" held

asked-Step : Step start asked
unfolding poll_backoff
asked-Step = enter 0 0 foreground "query" refl refl

held-Step : Step asked held
unfolding enqueue
held-Step = wake 0 foreground "query" refl refl

queued-Step : Step held queued
unfolding poll_backoff enqueue
queued-Step = enter 1 0 background "extract" {g = held.gate} refl refl

queued-Reach : Reach queued
queued-Reach = next (next (next here asked-Step) held-Step) queued-Step

-- A waiter that asks while the gate is taken is granted the permit when it is released.
handed_on : (release (set_phase 0 holding queued)).current_tier ≡ some background
unfolding enqueue release
handed_on = refl

mutual_exclusion_example : ◌≡◌ {A = ℕ} 0 0
unfolding enqueue
mutual_exclusion_example = mutual_exclusion queued-Reach 0 0 refl refl

open_gate_is_idle_example : (waiting_count start.gate ≡ 0) × ((start.callers 7).phase ≢ holding)
open_gate_is_idle_example = open_gate_is_idle here (unfold in_flight in refl) 7

abbrev line : Tier → List Waiter
line foreground = []
line freshness = (1, "extract") ∷ (2, "extract") ∷ []
line background = (3, "reason-person") ∷ []

abbrev open_gate : System
open_gate = record {
  gate = record start.gate { waiters = line };
  callers = λ _. record { phase = waiting freshness "extract"; future = pending };
}

nothing_more_urgent : (u : Tier) → urgency u < urgency freshness → line u ≡ []
nothing_more_urgent foreground h = refl
nothing_more_urgent freshness h = absurd (omega arith)
nothing_more_urgent background h = absurd (omega arith)

dispatch-most_urgent_example :
    let s' = dispatch open_gate in
    (s'.locked ≡ true)
    × (s'.current_tier ≡ some freshness)
    × (s'.current_label ≡ some "extract")
    × (s'.waiters freshness ≡ (2, "extract") ∷ [])
    × (s'.waiters background ≡ (3, "reason-person") ∷ [])
    × (s'.unavailable_until ≡ open_gate.unavailable_until)
    × ((s'.callers 1).phase ≡ (open_gate.callers 1).phase)
    × ((s'.callers 1).future ≡ resolved)
    × (s'.callers 2 ≡ open_gate.callers 2)
dispatch-most_urgent_example =
    dispatch-most_urgent open_gate freshness 1 "extract" ((2, "extract") ∷ []) refl refl
      nothing_more_urgent background 2 (λ e. cc) (λ e. absurd (omega arith))

poll_backoff-mark_example :
    ((poll_backoff 5 (mark_unavailable_until 9 start.gate)).0 ≡ none)
    ↔ ((9 ≤ 5) × ((poll_backoff 5 start.gate).0 ≡ none))
poll_backoff-mark_example = poll_backoff-mark 5 9 start.gate

abbrev backing_off : Gate
backing_off = record start.gate { unavailable_until = some 9 }

poll_backoff_after_sleep_example :
    (backing_off ≡ backing_off) × ((poll_backoff 10 backing_off).0 ≡ none)
poll_backoff_after_sleep_example =
    poll_backoff_after_sleep 5 10 backing_off {delay = 4} {g' = backing_off}
      (unfold poll_backoff in refl) (omega arith)

nobody_else : (u : Tier) → urgency u < urgency background → queued.waiters u ≡ []
unfolding enqueue
nobody_else foreground h = refl
nobody_else freshness h = refl
nobody_else background h = absurd (omega arith)

lost_permit_example :
    let after_race = race queued 0 1 background "extract" in
    Run queued after_race
    × (in_flight after_race.gate ≡ true)
    × ((after_race.callers 1).phase ≢ holding)
lost_permit_example =
    lost_permit queued-Reach 0 1 background "extract" [] (unfold enqueue in refl)
      (unfold enqueue in refl) (unfold enqueue in refl) (unfold enqueue in refl) nobody_else 1 stay

queued-CalmReach : CalmReach queued
unfolding asked-Step held-Step queued-Step
queued-CalmReach =
    calm_next (calm_next (calm_next calm_here asked-Step refl) held-Step refl) queued-Step refl

waiting-owner_example : (in_flight queued.gate ≡ true) × ((j : ℕ) × CanGoOn (queued.callers j))
waiting-owner_example =
    waiting-owner queued-CalmReach 1 background "extract" (unfold enqueue in refl)
