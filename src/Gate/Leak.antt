-- ===== src/Gate/Leak.antt =====
-- How the gate of src/gossipmemo/transport.py loses its permit: a waiter whose future is cancelled
-- is granted the permit before its CancelledError is raised, and then does not hand it on.
use gossip_memo.Base.{
  ℕ, ◌<◌, String, ◌≡◌, ◌≢◌, refl, true, false, List, [], ◌∷◌, none, arith, ◌∙◌, ◌==◌, Option-cases,
  inl, inr,
}
use gossip_memo.Gate.{
  Tier, pending, cancelled, waiting, cancelling, holding, gone, Waiter, System, in_flight,
  set_caller, grant, unlock, dispatch, release, enqueue, set_phase, unwind, remove, cancel_future,
}
use gossip_memo.Gate.Steps.{Step, enter, sleep, wake, leave, cancel, throw, publish, Reach}
use gossip_memo.Gate.Counting.{owns, count-remove}
use gossip_memo.Gate.Invariant.{Inv, Reach-Inv, poll_backoff-locked}
use gossip_memo.Gate.Safety.{urgency, dispatch-eq-grant}

-- The gate is in flight, and no caller holds the permit or will be woken with it.
pub record IsLeaked (s : System) : Type 0 where
  pub taken : s.locked ≡ true
  pub nobody : (i : ℕ) → owns (s.callers i) ≡ false

pub data Run (s : System) : System → Type 0 where
  stay : Run s s
  after : {u v : System} → Run s u → Step u v → Run s v

-- No step repairs a leaked gate.
Step-IsLeaked : {s u : System} → Step s u → IsLeaked s → IsLeaked u
unfolding enqueue dispatch unwind
Step-IsLeaked {s} (enter i now t label p e) l = record {
  taken = ground (arith, l.taken, poll_backoff-locked now s.gate e);
  nobody = λ j. ground (arith, l.nobody j, l.taken, poll_backoff-locked now s.gate e);
}
Step-IsLeaked {s} (sleep i now p e) l = record {
  taken = poll_backoff-locked now s.gate e ∙ l.taken;
  nobody = l.nobody;
}
Step-IsLeaked (wake i t label p f) l = absurd (ground (arith, l.nobody i))
Step-IsLeaked (leave i p) l = absurd (ground (arith, l.nobody i))
Step-IsLeaked (cancel i t label p) l = record {
  taken = l.taken;
  nobody = λ j. ground (arith, l.nobody j);
}
Step-IsLeaked {s} (throw i t label p) l = record {
  taken = ground (arith, l.taken, l.nobody i);
  nobody = λ j. ground (arith, l.nobody j, l.nobody i);
}
Step-IsLeaked (publish i deadline p) l = absurd (ground (arith, l.nobody i))

Run-IsLeaked : {s u : System} → IsLeaked s → Run s u → IsLeaked u
Run-IsLeaked l stay = l
Run-IsLeaked l (after r st) = Step-IsLeaked st (Run-IsLeaked l r)

Run-Run : {s u v : System} → Run s u → Run u v → Run s v
Run-Run r stay = r
Run-Run r (after q st) = after (Run-Run r q) st

-- The task of `j` is cancelled, the holder `a` releases, and then the CancelledError of `j` is
-- raised: three steps that the event loop may take in this order.
abbrev pub cancelled_at : System → ℕ → Tier → String → System
cancelled_at s j t label = record s {
  callers =
      set_caller s.callers j
        (record { phase = cancelling t label; future = cancel_future (s.callers j).future });
}

abbrev pub released_at : System → ℕ → ℕ → Tier → String → System
released_at s a j t label = release (set_phase a gone (cancelled_at s j t label))

abbrev pub race : System → ℕ → ℕ → Tier → String → System
race s a j t label = unwind j t (set_phase j gone (released_at s a j t label))

module _ {s : System} (r : Reach s) (a j : ℕ) (t : Tier) (label : String) (rest : List Waiter)
    (holds : (s.callers a).phase ≡ holding) (waits : (s.callers j).phase ≡ waiting t label)
    (unresolved : (s.callers j).future ≡ pending) (first : s.waiters t ≡ (j, label) ∷ rest)
    (more : (u : Tier) → urgency u < urgency t → s.waiters u ≡ []) where
  inv : Inv s
  inv = Reach-Inv r

  a-ne-j : (a == j) ≡ false
  a-ne-j = ground arith

  released-eq :
      released_at s a j t label
      ≡ grant t (j, label) rest (unlock (set_phase a gone (cancelled_at s j t label)))
  unfolding release
  released-eq =
      dispatch-eq-grant (unlock (set_phase a gone (cancelled_at s j t label))) t j label rest refl
        first more

  -- Its future left the queue with the grant.
  gone_from_queue : remove j rest ≡ none
  gone_from_queue = elim (Option-cases (remove j rest)) [
    | inl e ↦ e
    | inr (q, e) ↦ absurd (ground (arith, first, inv.place j t, count-remove j rest q e j))
  ]

  abbrev granted : System
  granted = grant t (j, label) rest (unlock (set_phase a gone (cancelled_at s j t label)))

  granted-queue : granted.waiters t ≡ rest
  unfolding grant
  granted-queue = ground arith

  granted-caller : granted.callers j ≡ record { phase = cancelling t label; future = cancelled }
  unfolding grant
  granted-caller = ground (arith, a-ne-j)

  -- Nothing but the phase of `j` changes when its error is raised.
  unwind-granted : unwind j t (set_phase j gone granted) ≡ set_phase j gone granted
  unfolding unwind
  unwind-granted = ground (arith, granted-queue, gone_from_queue, granted-caller)

  race-IsLeaked : IsLeaked (race s a j t label)
  race-IsLeaked =
      rw (released-eq, unwind-granted)
        (unfold grant in record { taken = refl; nobody = λ i. ground (arith, inv.one a i) })

  race-Run : Run s (race s a j t label)
  race-Run =
      after (after (after stay (cancel j t label waits)) (leave a (ground (arith, a-ne-j))))
        (throw j t label (rw released-eq (ground (arith, granted-caller))))

  -- A caller that waits at the head of the queue whose turn it is, with a holder in front of it:
  -- if its task is cancelled just before the holder releases, then the permit is lost. Whatever
  -- happens after the three steps, the gate is in flight and no caller ever holds the permit.
  pub lost_permit :
      {v : System} (i : ℕ)
      → Run (race s a j t label) v
      → Run s v × (in_flight v.gate ≡ true) × ((v.callers i).phase ≢ holding)
  unfolding in_flight
  lost_permit i q =
      let l : IsLeaked _ = Run-IsLeaked race-IsLeaked q in
      (Run-Run race-Run q, l.taken, λ h. ground (arith, l.nobody i))
