-- ===== src/Gate/Safety.antt =====
-- What the gate of src/gossipmemo/transport.py promises: one permit, no idling, strict priority,
-- and a shared backoff.
use gossip_memo.Base.{
  ℕ, ◌+◌, ◌≤◌, ◌<◌, String, ◌≡◌, ◌≢◌, refl, true, false, List, [], ◌∷◌, none, some, arith, ◌↔◌,
}
use gossip_memo.Gate.{
  Tier, foreground, freshness, background, holding, Waiter, Gate, System, grant, dispatch,
  dispatch_from, resolve, mark_unavailable_until, poll_backoff, waiting_count, in_flight,
}
use gossip_memo.Gate.Steps.{Reach}
use gossip_memo.Gate.Invariant.{Inv, Reach-Inv}

-- In every state that is reached, at most one caller is between `acquire` and `release`.
pub mutual_exclusion :
    {s : System}
    → Reach s
    → (i j : ℕ) → (s.callers i).phase ≡ holding
    → (s.callers j).phase ≡ holding
    → i ≡ j
mutual_exclusion r i j p q = (Reach-Inv r).one i j (ground arith) (ground arith)

-- In every state that is reached, if the gate is not in flight, then nobody waits in its queues
-- and nobody holds the permit.
pub open_gate_is_idle :
    {s : System}
    → Reach s
    → in_flight s.gate ≡ false
    → (i : ℕ) → (waiting_count s.gate ≡ 0) × ((s.callers i).phase ≢ holding)
unfolding waiting_count in_flight
open_gate_is_idle r e i =
    let inv : Inv _ = Reach-Inv r in
    (
      ground (
        arith,
        inv.no_idling e foreground,
        inv.no_idling e freshness,
        inv.no_idling e background,
      ),
      λ h. ground (arith, inv.free e i),
    )

abbrev pub urgency : Tier → ℕ
urgency foreground = 1
urgency freshness = 2
urgency background = 3

pub dispatch-eq-grant :
    (s : System) (t : Tier) (i : ℕ) (label : String) (rest : List Waiter)
    → s.locked ≡ false
    → s.waiters t ≡ (i, label) ∷ rest
    → ((u : Tier) → urgency u < urgency t → s.waiters u ≡ [])
    → dispatch s ≡ grant t (i, label) rest s
unfolding dispatch
dispatch-eq-grant s foreground i label rest c e more = rw (c, e, dispatch_from) refl
dispatch-eq-grant s freshness i label rest c e more =
    simp c (rw (more foreground (omega arith), e, dispatch_from) refl)
dispatch-eq-grant s background i label rest c e more =
    simp c (rw (more foreground (omega arith), more freshness (omega arith), e, dispatch_from) refl)

-- At an open gate `_dispatch` grants the permit to the head of the first queue in the order of
-- urgency that is not empty: the gate is then in flight for its tier and its label, the head has
-- left its queue, the other queues and the backoff are as they were, its future is resolved if it
-- was pending, where it stands has not changed, and no other caller is touched.
pub dispatch-most_urgent :
    (s : System) (t : Tier) (i : ℕ) (label : String) (rest : List Waiter)
    → s.locked ≡ false
    → s.waiters t ≡ (i, label) ∷ rest
    → ((u : Tier) → urgency u < urgency t → s.waiters u ≡ [])
    → (u : Tier) (j : ℕ) → u ≢ t
    → j ≢ i
    → let s' = dispatch s in
      (s'.locked ≡ true)
      × (s'.current_tier ≡ some t)
      × (s'.current_label ≡ some label)
      × (s'.waiters t ≡ rest)
      × (s'.waiters u ≡ s.waiters u)
      × (s'.unavailable_until ≡ s.unavailable_until)
      × ((s'.callers i).phase ≡ (s.callers i).phase)
      × ((s'.callers i).future ≡ resolve (s.callers i).future)
      × (s'.callers j ≡ s.callers j)
unfolding grant
dispatch-most_urgent s t i label rest c e more u j nu nj =
    rw (dispatch-eq-grant s t i label rest c e more)
      (refl, refl, refl, ground arith, ground arith, refl, ground arith, ground arith, ground arith)

-- A caller is let past the backoff at the time `now` exactly if the deadline that was published
-- last has passed and it would have been let past before: of two deadlines the later counts.
pub poll_backoff-mark :
    (now deadline : ℕ) (g : Gate)
    → ((poll_backoff now (mark_unavailable_until deadline g)).0 ≡ none)
      ↔ ((deadline ≤ now) × ((poll_backoff now g).0 ≡ none))
unfolding poll_backoff mark_unavailable_until
poll_backoff-mark now deadline g = (λ h. ground arith, λ h. ground arith)

-- A caller that sleeps for the delay it is told finds the backoff over, unless another deadline is
-- published; and the queues and the permit are not touched meanwhile.
pub poll_backoff_after_sleep :
    (now later : ℕ) (g : Gate) {delay : ℕ} {g' : Gate}
    → poll_backoff now g ≡ (some delay, g')
    → now + delay ≤ later
    → (g' ≡ g) × ((poll_backoff later g').0 ≡ none)
unfolding poll_backoff
poll_backoff_after_sleep now later g e h = ground arith
