-- ===== src/Gate/Steps.antt =====
-- What the callers of the gate of src/gossipmemo/transport.py can do, one step for each piece of
-- code between two awaits, and the states that are reached.
use gossip_memo.Base.{ℕ, String, ◌≡◌, false, none, some, []}
use gossip_memo.Gate.{
  Tier, pending, resolved, idle, waiting, cancelling, holding, gone, Gate, System, set_caller,
  release, enqueue, set_phase, unwind, cancel_future, mark_unavailable_until, poll_backoff,
}

pub data Step (s : System) : System → Type 0 where
  -- the backoff is over, and `acquire` runs on to its await
  enter :
      (i now : ℕ) (t : Tier) (label : String) {g : Gate}
      → (s.callers i).phase ≡ idle
      → poll_backoff now s.gate ≡ (none, g)
      → Step s (enqueue i t label (record s { gate = g }))
  -- a look at the backoff that ends in a sleep
  sleep :
      (i now : ℕ) {delay : ℕ} {g : Gate}
      → (s.callers i).phase ≡ idle
      → poll_backoff now s.gate ≡ (some delay, g)
      → Step s (record s { gate = g })
  -- `await future` returns
  wake :
      (i : ℕ) (t : Tier) (label : String)
      → (s.callers i).phase ≡ waiting t label
      → (s.callers i).future ≡ resolved
      → Step s (set_phase i holding s)
  -- the `finally` of `complete`
  leave : (i : ℕ) → (s.callers i).phase ≡ holding → Step s (release (set_phase i gone s))
  -- the task is cancelled while it is suspended at `await future`
  cancel :
      (i : ℕ) (t : Tier) (label : String)
      → (s.callers i).phase ≡ waiting t label
      → Step s (record s {
        callers =
            set_caller s.callers i
              (record { phase = cancelling t label; future = cancel_future (s.callers i).future });
      })
  -- the CancelledError is raised at the await
  throw :
      (i : ℕ) (t : Tier) (label : String)
      → (s.callers i).phase ≡ cancelling t label
      → Step s (unwind i t (set_phase i gone s))
  -- the holder of the permit backs off, and says until when
  publish :
      (i deadline : ℕ)
      → (s.callers i).phase ≡ holding
      → Step s (record s { gate = mark_unavailable_until deadline s.gate })

abbrev pub start : System
start = record {
  gate = record {
    locked = false;
    waiters = λ _. [];
    unavailable_until = none;
    current_tier = none;
    current_label = none;
  };
  callers = λ _. record { phase = idle; future = pending };
}

pub data Reach : System → Type 0 where
  here : Reach start
  next : {s u : System} → Reach s → Step s u → Reach u
