-- ===== src/Gate.antt =====
-- `ProviderGate` of src/gossipmemo/transport.py: the single-permit priority gate in front of the
-- provider, and the callers of `acquire`. A caller is one call of `acquire`, numbered; it owns one
-- future. Between two awaits the event loop runs one caller alone, so each method is a function.
mod Counting
mod Invariant
pub mod Steps
mod Safety
mod Leak
mod Progress
mod Tests
use gossip_memo.Base.{
  ℕ, ◌+◌, ◌-◌, length, String, Bool, true, false, Option, none, some, List, [], ◌∷◌, ◌++◌, leb, ltb,
  ◌==◌, if◌then◌else◌,
}

-- TIER_FOREGROUND = 1, TIER_FRESHNESS = 2, TIER_BACKGROUND = 3 (src/gossipmemo/priority.py)
pub data Tier : Type 0 where
  foreground freshness background : Tier

-- asyncio.Future[None]: `done()` is false only of `pending`
pub data Future : Type 0 where
  pending resolved cancelled : Future

-- Where a caller stands: before `acquire`, suspended at `await future`, with a CancelledError on
-- its way to that await, between the return of `acquire` and `release`, or past both.
pub data Phase : Type 0 where
  idle : Phase
  waiting : Tier → String → Phase
  cancelling : Tier → String → Phase
  holding : Phase
  gone : Phase

pub record Caller : Type 0 where
  pub phase : Phase
  pub future : Future

-- `(future, label)`, the future named by its caller
abbrev pub Waiter : Type 0
Waiter = ℕ × String

pub record Gate : Type 0 where
  pub locked : Bool
  pub waiters : Tier → List Waiter
  pub unavailable_until : Option ℕ
  pub current_tier : Option Tier
  pub current_label : Option String

pub record System : Type 0 where
  pub gate : Gate
  pub open gate use *
  pub callers : ℕ → Caller

-- The properties `waiting` and `in_flight`
unfoldable pub waiting_count : Gate → ℕ
waiting_count g =
    length (g.waiters foreground) + length (g.waiters freshness) + length (g.waiters background)

unfoldable pub in_flight : Gate → Bool
in_flight g = g.locked

abbrev pub same_tier : Tier → Tier → Bool
same_tier foreground foreground = true
same_tier freshness freshness = true
same_tier background background = true
same_tier _ _ = false

abbrev pub set_queue : (Tier → List Waiter) → Tier → List Waiter → Tier → List Waiter
set_queue qs t q u = if same_tier t u then q else qs u

abbrev pub set_caller : (ℕ → Caller) → ℕ → Caller → ℕ → Caller
set_caller f i c j = if i == j then c else f j

-- `if not future.done(): future.set_result(None)`
abbrev pub resolve : Future → Future
resolve pending = resolved
resolve f = f

-- `_dispatch` after `queue.popleft()` has taken `(future, label)` from the queue of `t`
unfoldable pub grant : Tier → Waiter → List Waiter → System → System
grant t (i, label) rest s = record {
  gate = record s.gate {
    locked = true;
    waiters = set_queue s.waiters t rest;
    current_tier = some t;
    current_label = some label;
  };
  callers =
      set_caller s.callers i
        (record { phase = (s.callers i).phase; future = resolve (s.callers i).future });
}

-- The `for tier in (...)` of `_dispatch`: an empty queue is passed over, the first waiter of any
-- other is granted the permit, and the method returns.
dispatch_from : List Tier → (Tier → List Waiter) → System → System
unfolding grant
dispatch_from [] qs s = s
dispatch_from (t ∷ ts) qs s = elim (qs t) [
  | [] ↦ dispatch_from ts qs s
  | w ∷ rest ↦ grant t w rest s
]

unfoldable pub dispatch : System → System
unfolding dispatch_from
dispatch s =
    if s.locked then s else dispatch_from (foreground ∷ freshness ∷ background ∷ []) s.waiters s

-- `release` up to its call of `_dispatch`
abbrev pub unlock : System → System
unlock s = record s {
  gate = record s.gate { locked = false; current_tier = none; current_label = none };
}

unfoldable pub release : System → System
unfolding dispatch
release s = dispatch (unlock s)

-- `acquire` from the creation of the future up to its call of `_dispatch`
abbrev pub append_waiter : ℕ → Tier → String → System → System
append_waiter i t label s = record {
  gate = record s.gate { waiters = set_queue s.waiters t (s.waiters t ++ (i, label) ∷ []) };
  callers = set_caller s.callers i (record { phase = waiting t label; future = pending });
}

unfoldable pub enqueue : ℕ → Tier → String → System → System
unfolding dispatch
enqueue i t label s = dispatch (append_waiter i t label s)

abbrev pub set_phase : ℕ → Phase → System → System
set_phase i p s = record s {
  callers = set_caller s.callers i (record { phase = p; future = (s.callers i).future });
}

-- `deque.remove((future, label))`: `none` is the ValueError. A future is in one pair only.
pub remove : ℕ → List Waiter → Option (List Waiter)
remove i [] = none
remove i ((j, label) ∷ q) =
    if j == i then some q else elim (remove i q) [ none ↦ none | some r ↦ some ((j, label) ∷ r) ]

-- The handler of `except asyncio.CancelledError` in `acquire`
unfoldable pub unwind : ℕ → Tier → System → System
unfolding release remove
unwind i t s = elim (remove i (s.waiters t)) [
  | some q ↦ record s { gate = record s.gate { waiters = set_queue s.waiters t q } }
  | none ↦ elim ((s.callers i).future) [ resolved ↦ release s | _ ↦ s ]
]

-- `task.cancel()` reaches the awaited future: a pending one becomes cancelled, a resolved one stays
abbrev pub cancel_future : Future → Future
cancel_future pending = cancelled
cancel_future f = f

-- `mark_unavailable_until`
unfoldable pub mark_unavailable_until : ℕ → Gate → Gate
mark_unavailable_until deadline g = record g {
  unavailable_until = elim g.unavailable_until [
    | none ↦ some deadline
    | some d ↦ if ltb d deadline then some deadline else some d
  ];
}

-- One round of `_wait_out_shared_backoff` at the loop time `now`: `none` when the method returns,
-- `some delay` when it sleeps and looks again.
unfoldable pub poll_backoff : ℕ → Gate → Option ℕ × Gate
poll_backoff now g = elim g.unavailable_until [
  | none ↦ (none, g)
  | some d ↦
      if leb d now then (none, record g { unavailable_until = none }) else (some (d - now), g)
]
