-- ===== src/Gate/Progress.antt =====
-- Without cancellations the gate of src/gossipmemo/transport.py never loses its permit.
use gossip_memo.Base.{
  ℕ, String, ◌≡◌, ◌⊎◌, refl, Bool, true, false, List, [], ◌∷◌, arith, Bool-cases, List-cases, inl,
  inr, sym, ◌∙◌, Option,
}
use gossip_memo.Gate.{
  Tier, foreground, freshness, background, Future, resolved, cancelled, Phase, idle, waiting,
  cancelling, holding, gone, Caller, Waiter, Gate, System, grant, dispatch_from, dispatch,
  mark_unavailable_until, in_flight, unlock, append_waiter, release, enqueue, set_phase,
  poll_backoff,
}
use gossip_memo.Gate.Steps.{
  Step, enter, sleep, wake, leave, cancel, throw, publish, start, Reach, here, next,
}
use gossip_memo.Gate.Counting.{owns}
use gossip_memo.Gate.Invariant.{
  IsReady, Inv, Reach-Inv, poll-Inv, poll_backoff-locked, unlock-IsReady, append_waiter-IsReady,
}

abbrev pub is_cancel : {s u : System} → Step s u → Bool
is_cancel (cancel _ _ _ _) = true
is_cancel _ = false

-- The states that are reached with no task cancelled at its await.
pub data CalmReach : System → Type 0 where
  calm_here : CalmReach start
  calm_next : {s u : System} → CalmReach s → (st : Step s u) → is_cancel st ≡ false → CalmReach u

CalmReach-Reach : {s : System} → CalmReach s → Reach s
CalmReach-Reach calm_here = here
CalmReach-Reach (calm_next r st _) = next (CalmReach-Reach r) st

abbrev is_calm : Caller → Bool
is_calm c = elim c.phase [
  | cancelling _ _ ↦ false
  | _ ↦ elim c.future [ cancelled ↦ false | _ ↦ true ]
]

record IsKept (s : System) : Type 0 where
  calm : (i : ℕ) → is_calm (s.callers i) ≡ true
  owned : s.locked ≡ true → (i : ℕ) × (owns (s.callers i) ≡ true)

abbrev AllCalm : System → Type 0
AllCalm s = (i : ℕ) → is_calm (s.callers i) ≡ true

grant-IsKept :
    (s : System)
    → IsReady s
    → AllCalm s
    → (t : Tier) (i : ℕ) (label : String) (rest : List Waiter) → s.waiters t ≡ (i, label) ∷ rest
    → IsKept (grant t (i, label) rest s)
unfolding grant
grant-IsKept s r c t i label rest e = record {
  calm = λ j. ground (arith, c j);
  owned = λ _. (i, ground (arith, c i, r.place i t, e));
}

dispatch_from-IsKept :
    (s : System)
    → IsReady s
    → AllCalm s
    → s.locked ≡ false
    → (ts : List Tier) → IsKept (dispatch_from ts s.waiters s)
unfolding dispatch_from
dispatch_from-IsKept s r c closed [] = record { calm = c; owned = λ p. cc }
dispatch_from-IsKept s r c closed (t ∷ ts) = elim (List-cases (s.waiters t)) [
  | inl e ↦ rw (e, dispatch_from) (dispatch_from-IsKept s r c closed ts)
  | inr ((i, label), rest, e) ↦ rw (e, dispatch_from) (grant-IsKept s r c t i label rest e)
]

dispatch-IsKept :
    (s : System)
    → IsReady s
    → AllCalm s
    → (s.locked ≡ true → (i : ℕ) × (owns (s.callers i) ≡ true))
    → IsKept (dispatch s)
unfolding dispatch
dispatch-IsKept s r c o = elim (Bool-cases s.locked) [
  | inl e ↦ simp e (record { calm = c; owned = λ _. o e })
  | inr e ↦ simp e (dispatch_from-IsKept s r c e (foreground ∷ freshness ∷ background ∷ []))
]

-- Another caller still owns the permit when a new one has joined a queue.
append_waiter-owned :
    (s : System) (i : ℕ) (t : Tier) (label : String)
    → (s.callers i).phase ≡ idle
    → (j : ℕ) × (owns (s.callers j) ≡ true)
    → (j : ℕ) × (owns ((append_waiter i t label s).callers j) ≡ true)
append_waiter-owned s i t label p (j, o) = (j, ground arith)

enqueue-IsKept :
    (s : System) (i : ℕ) (t : Tier) (label : String)
    → (s.callers i).phase ≡ idle
    → IsReady s
    → IsKept s
    → IsKept (enqueue i t label s)
unfolding enqueue
enqueue-IsKept s i t label p r k =
    dispatch-IsKept (append_waiter i t label s) (append_waiter-IsReady s r i t label p)
      (λ j. ground (arith, k.calm j)) (λ c. append_waiter-owned s i t label p (k.owned c))

leave-IsKept :
    (s : System) (i : ℕ)
    → (s.callers i).phase ≡ holding
    → IsReady s
    → IsKept s
    → IsKept (release (set_phase i gone s))
unfolding release
leave-IsKept s i p r k =
    dispatch-IsKept (unlock (set_phase i gone s)) (unlock-IsReady s r i (ground arith))
      (λ j. ground (arith, k.calm j)) (λ c. cc)

poll-IsKept :
    (s : System) (now : ℕ) {delay : Option ℕ} {g : Gate}
    → poll_backoff now s.gate ≡ (delay, g)
    → IsKept s
    → IsKept (record s { gate = g })
poll-IsKept s now e k = record {
  calm = k.calm;
  owned = λ c. k.owned (sym (poll_backoff-locked now s.gate e) ∙ c);
}

Step-IsKept : {s u : System} (st : Step s u) → is_cancel st ≡ false → Inv s → IsKept s → IsKept u
Step-IsKept {s} (enter i now t label p e) _ inv k =
    enqueue-IsKept _ i t label p (poll-Inv s now inv e).ready (poll-IsKept s now e k)
Step-IsKept {s} (sleep i now p e) _ inv k = poll-IsKept s now e k
Step-IsKept {s} (wake i t label p f) _ inv k = record {
  calm = λ j. ground (arith, k.calm j);
  owned = λ c. (i, ground arith);
}
Step-IsKept {s} (leave i p) _ inv k = leave-IsKept s i p inv.ready k
Step-IsKept {s} (cancel i t label p) h inv k = cc
Step-IsKept {s} (throw i t label p) _ inv k = absurd (ground (arith, k.calm i))
Step-IsKept {s} (publish i deadline p) _ inv k = record {
  calm = k.calm;
  owned = unfold mark_unavailable_until in k.owned;
}

CalmReach-IsKept : {s : System} → CalmReach s → IsKept s
CalmReach-IsKept calm_here = record { calm = λ i. refl; owned = λ p. cc }
CalmReach-IsKept (calm_next r st c) =
    Step-IsKept st c (Reach-Inv (CalmReach-Reach r)) (CalmReach-IsKept r)

-- The caller that owns the permit can go on: it returns from its await, or it releases.
abbrev pub CanGoOn : Caller → Type 0
CanGoOn c =
    (c.phase ≡ holding)
    ⊎ ((t : Tier) × (label : String) × (c.phase ≡ waiting t label) × (c.future ≡ resolved))

owns-CanGoOn : (c : Caller) → is_calm c ≡ true → owns c ≡ true → CanGoOn c
owns-CanGoOn c k o = go c.phase c.future refl refl k o
  where
    go :
        (p : Phase) (f : Future)
        → c.phase ≡ p
        → c.future ≡ f
        → is_calm (record { phase = p; future = f }) ≡ true
        → owns (record { phase = p; future = f }) ≡ true
        → CanGoOn c
    go holding f ep ef k o = inl ep
    go (waiting t label) resolved ep ef k o = inr (t, label, ep, ef)
    go (waiting t label) f ep ef k o = cc
    go (cancelling t label) f ep ef k o = cc
    go idle f ep ef k o = cc
    go gone f ep ef k o = cc

-- Nobody waits at an open gate.
waiting-locked :
    (s : System)
    → Inv s
    → IsKept s
    → (i : ℕ) (t : Tier) (label : String) → (s.callers i).phase ≡ waiting t label
    → s.locked ≡ true
waiting-locked s inv k i t label p = elim (Bool-cases s.locked) [
  | inl e ↦ e
  | inr e ↦ ground (arith, inv.free e i, inv.no_idling e t, inv.present i t label, k.calm i)
]

-- As long as no task is cancelled at its await, the permit is never lost: while a caller waits in
-- `acquire`, the gate is in flight and some caller either holds the permit or has its future
-- resolved and returns from `acquire` next.
pub waiting-owner :
    {s : System}
    → CalmReach s
    → (i : ℕ) (t : Tier) (label : String) → (s.callers i).phase ≡ waiting t label
    → (in_flight s.gate ≡ true) × ((j : ℕ) × CanGoOn (s.callers j))
unfolding in_flight
waiting-owner {s} r i t label p =
    let k : IsKept s = CalmReach-IsKept r in
    let inv : Inv s = Reach-Inv (CalmReach-Reach r) in
    let closed : s.locked ≡ true = waiting-locked s inv k i t label p in
    let (j, o) = k.owned closed in (closed, (j, owns-CanGoOn (s.callers j) (k.calm j) o))
