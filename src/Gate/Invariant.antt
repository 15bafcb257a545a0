-- ===== src/Gate/Invariant.antt =====
-- What holds of the gate of src/gossipmemo/transport.py and its callers between two steps.
use gossip_memo.Base.{
  ℕ, String, ◌≤◌, ◌≡◌, refl, Bool, true, false, List, [], ◌∷◌, none, some, arith, sym, ap, ◌∙◌,
  Option, if◌then◌else◌, Option-cases, Bool-cases, List-cases, inl, inr,
}
use gossip_memo.Gate.{
  Tier, foreground, freshness, background, Future, pending, resolved, idle, waiting, cancelling,
  gone, Waiter, Gate, System, same_tier, set_queue, grant, dispatch_from, dispatch, unlock,
  append_waiter, release, enqueue, set_phase, unwind, remove, mark_unavailable_until, poll_backoff,
}
use gossip_memo.Gate.Steps.{
  Step, enter, sleep, wake, leave, cancel, throw, publish, Reach, here, next,
}
use gossip_memo.Gate.Counting.{count, slot, owns, count-append, count-remove, count-remove-none}

-- Before `_dispatch` has run: a caller stands at most where its phase says, a pending one does
-- stand there, and at most one caller owns the permit.
pub record IsReady (s : System) : Type 0 where
  pub place : (i : ℕ) (t : Tier) → count i (s.waiters t) ≤ slot t (s.callers i)
  pub present :
      (i : ℕ) (t : Tier) (label : String)
      → (s.callers i).phase ≡ waiting t label
      → (s.callers i).future ≡ pending
      → count i (s.waiters t) ≡ 1
  pub one : (i j : ℕ) → owns (s.callers i) ≡ true → owns (s.callers j) ≡ true → i ≡ j
  pub free : s.locked ≡ false → (i : ℕ) → owns (s.callers i) ≡ false

-- Between two steps: and nobody waits at an open gate.
pub record Inv (s : System) : Type 0 where
  pub ready : IsReady s
  pub open ready use *
  pub no_idling : s.locked ≡ false → (t : Tier) → s.waiters t ≡ []

module _ (s : System) (r : IsReady s) (closed : s.locked ≡ false) where
  open r use {place, present, free}

  module _ (t : Tier) (i : ℕ) (label : String) (rest : List Waiter)
      (at : s.waiters t ≡ (i, label) ∷ rest) where
    grant-place :
        (j : ℕ) (u : Tier)
        → let s' = grant t (i, label) rest s in count j (s'.waiters u) ≤ slot u (s'.callers j)
    unfolding grant
    grant-place j u = ground (arith, place j u, place j t, place i t, place i u, at)

    grant-present :
        (j : ℕ) (u : Tier) (l : String)
        → let s' = grant t (i, label) rest s in
          (s'.callers j).phase ≡ waiting u l
          → (s'.callers j).future ≡ pending
          → count j (s'.waiters u) ≡ 1
    unfolding grant
    grant-present j u l p f = ground (arith, present j u l, place i t, at)

    -- Only the caller that was taken from the queue owns the permit.
    grant-owns : (j : ℕ) → owns ((grant t (i, label) rest s).callers j) ≡ true → i ≡ j
    unfolding grant
    grant-owns j o = ground (arith, free closed j)

    grant-Inv : Inv (grant t (i, label) rest s)
    unfolding grant
    grant-Inv = record {
      ready = record {
        place = unfold grant in grant-place;
        present = unfold grant in grant-present;
        one = λ j k p q. sym (grant-owns j p) ∙ grant-owns k q;
        free = λ p. cc;
      };
      no_idling = λ p. cc;
    }

abbrev among : Tier → List Tier → Bool
among t [] = false
among t (u ∷ us) = if same_tier u t then true else among t us

same_tier-eq : (t u : Tier) → same_tier t u ≡ true → t ≡ u
same_tier-eq t u h = ground arith

-- Every queue that is not looked at is empty.
abbrev Covers : List Tier → System → Type 0
Covers ts s = (t : Tier) → among t ts ≡ false → s.waiters t ≡ []

Covers-tail :
    (t : Tier) (ts : List Tier) (s : System) → Covers (t ∷ ts) s → s.waiters t ≡ [] → Covers ts s
Covers-tail t ts s cov e u h = elim (Bool-cases (same_tier t u)) [
  | inl p ↦ rw (← same_tier-eq t u p) e
  | inr p ↦ cov u (rw p h)
]

dispatch_from-Inv :
    (s : System)
    → IsReady s
    → s.locked ≡ false
    → (ts : List Tier) → Covers ts s
    → Inv (dispatch_from ts s.waiters s)
unfolding dispatch_from
dispatch_from-Inv s r closed [] cov = record { ready = r; no_idling = λ _ t. cov t refl }
dispatch_from-Inv s r closed (t ∷ ts) cov = elim (List-cases (s.waiters t)) [
  | inl e ↦ rw (e, dispatch_from) (dispatch_from-Inv s r closed ts (Covers-tail t ts s cov e))
  | inr ((i, label), rest, e) ↦ rw (e, dispatch_from) (grant-Inv s r closed t i label rest e)
]

pub dispatch-Inv : (s : System) → IsReady s → Inv (dispatch s)
unfolding dispatch
dispatch-Inv s r = elim (Bool-cases s.locked) [
  | inl e ↦ simp e (record { ready = r; no_idling = λ p. cc })
  | inr e ↦
      simp e
        (dispatch_from-Inv s r e (foreground ∷ freshness ∷ background ∷ []) (λ t h. ground arith))
]

module _ (s : System) (r : IsReady s) (i : ℕ) where
  -- To give the permit back: its owner is gone, and everything else is as it was.
  pub unlock-IsReady : owns (s.callers i) ≡ true → IsReady (unlock (set_phase i gone s))
  unlock-IsReady o = record {
    place = λ j t. ground (arith, r.place j t, r.place i t);
    present = λ j t l p f. ground (arith, r.present j t l);
    one = λ j k p q. ground (arith, r.one j k);
    free = λ _ j. ground (arith, r.one i j);
  }

  pub release-Inv : owns (s.callers i) ≡ true → Inv (release (set_phase i gone s))
  unfolding release
  release-Inv o = dispatch-Inv (unlock (set_phase i gone s)) (unlock-IsReady o)

  -- A new caller joins the queue of its tier.
  pub append_waiter-IsReady :
      (t : Tier) (label : String) → (s.callers i).phase ≡ idle → IsReady (append_waiter i t label s)
  append_waiter-IsReady t label p = record {
    place = λ j u.
        ground (arith, r.place j u, r.place i u, count-append j (s.waiters t) ((i, label) ∷ []));
    present = λ j u l q f.
        ground
          (arith, r.present j u l, r.place i u, count-append j (s.waiters t) ((i, label) ∷ []));
    one = λ j k p' q. ground (arith, r.one j k);
    free = λ c j. ground (arith, r.free c j);
  }

  pub enqueue-Inv :
      (t : Tier) (label : String) → (s.callers i).phase ≡ idle → Inv (enqueue i t label s)
  unfolding enqueue
  enqueue-Inv t label p = dispatch-Inv (append_waiter i t label s) (append_waiter-IsReady t label p)

module _ (s : System) (inv : Inv s) (i : ℕ) where
  open inv use {ready, no_idling}
  open ready use {place, present, one, free}

  module _ (t : Tier) (label : String) (p : (s.callers i).phase ≡ cancelling t label) where
    -- A cancelled caller leaves its queue.
    withdraw-Inv :
        (q : List Waiter)
        → remove i (s.waiters t) ≡ some q
        → Inv (record (set_phase i gone s) {
          gate = record s.gate { waiters = set_queue s.waiters t q };
        })
    unfolding remove
    withdraw-Inv q e = record {
      ready = record {
        place = λ j u.
            ground (arith, place j u, place i u, place i t, count-remove i (s.waiters t) q e j);
        present = λ j u l h f. ground (arith, present j u l, count-remove i (s.waiters t) q e j);
        one = λ j k x y. ground (arith, one j k);
        free = λ c j. ground (arith, free c j);
      };
      no_idling = λ c u. ground (arith, no_idling c u, no_idling c t, e);
    }

    -- A cancelled caller that is in no queue and does not own the permit just leaves.
    abandon-Inv :
        remove i (s.waiters t) ≡ none → owns (s.callers i) ≡ false → Inv (set_phase i gone s)
    abandon-Inv e o = record {
      ready = record {
        place = λ j u. ground (arith, place j u, count-remove-none i (s.waiters t) e);
        present = λ j u l h f. ground (arith, present j u l);
        one = λ j k x y. ground (arith, one j k);
        free = λ c j. ground (arith, free c j);
      };
      no_idling = no_idling;
    }

    pub unwind-Inv : Inv (unwind i t (set_phase i gone s))
    unfolding unwind
    unwind-Inv = elim (Option-cases (remove i (s.waiters t))) [
      | inl e ↦ rw (e, unwind) (hand_on e ((set_phase i gone s).callers i).future refl)
      | inr (q, e) ↦ rw (e, unwind) (withdraw-Inv q e)
    ]
      where
        hand_on :
            remove i (s.waiters t) ≡ none
            → (f : Future) → ((set_phase i gone s).callers i).future ≡ f
            → Inv (elim f [ resolved ↦ release (set_phase i gone s) | _ ↦ set_phase i gone s ])
        hand_on e resolved h = release-Inv s ready i (ground arith)
        hand_on e f h = abandon-Inv e (ground arith)

-- A gate's backoff has no part in the invariant.
module _ (s : System) (inv : Inv s) (until : Option ℕ) where
  backoff-IsReady : IsReady (record s { gate = record s.gate { unavailable_until = until } })
  backoff-IsReady = record {
    place = inv.place;
    present = inv.present;
    one = inv.one;
    free = inv.free;
  }

  backoff-Inv : Inv (record s { gate = record s.gate { unavailable_until = until } })
  backoff-Inv = record { ready = backoff-IsReady; no_idling = inv.no_idling }

poll_backoff-gate :
    (now : ℕ) (g : Gate)
    → (poll_backoff now g).1
      ≡ record g { unavailable_until = (poll_backoff now g).1.unavailable_until }
unfolding poll_backoff
poll_backoff-gate now g = ground arith

pub poll_backoff-locked :
    (now : ℕ) (g : Gate) {delay : Option ℕ} {g' : Gate}
    → poll_backoff now g ≡ (delay, g')
    → g'.locked ≡ g.locked
unfolding poll_backoff
poll_backoff-locked now g e = ground arith

pub poll-Inv :
    (s : System) (now : ℕ) {delay : Option ℕ} {g : Gate}
    → Inv s
    → poll_backoff now s.gate ≡ (delay, g)
    → Inv (record s { gate = g })
poll-Inv s now {g = g} inv e =
    rw (ap (λ (p : Option ℕ × Gate). p.1) (sym e) ∙ poll_backoff-gate now s.gate)
      (backoff-Inv s inv _)

-- Every step keeps the invariant.
pub Step-Inv : {s u : System} → Step s u → Inv s → Inv u
Step-Inv {s} (enter i now t label p e) inv = enqueue-Inv _ (poll-Inv s now inv e).ready i t label p
Step-Inv {s} (sleep i now p e) inv = poll-Inv s now inv e
Step-Inv {s} (wake i t label p f) inv = record {
  ready = record {
    place = λ j u. ground (arith, inv.place j u);
    present = λ j u l h k. ground (arith, inv.present j u l);
    one = λ j k x y. ground (arith, inv.one j k);
    free = λ c j. ground (arith, inv.free c j, inv.free c i);
  };
  no_idling = inv.no_idling;
}
Step-Inv {s} (leave i p) inv = release-Inv s inv.ready i (ground arith)
Step-Inv {s} (cancel i t label p) inv = record {
  ready = record {
    place = λ j u. ground (arith, inv.place j u);
    present = λ j u l h k. ground (arith, inv.present j u l);
    one = λ j k x y. ground (arith, inv.one j k);
    free = λ c j. ground (arith, inv.free c j, inv.free c i);
  };
  no_idling = inv.no_idling;
}
Step-Inv {s} (throw i t label p) inv = unwind-Inv s inv i t label p
Step-Inv {s} (publish i deadline p) inv = unfold mark_unavailable_until in backoff-Inv s inv _

pub Reach-Inv : {s : System} → Reach s → Inv s
Reach-Inv here = record {
  ready = record {
    place = λ i t. omega arith;
    present = λ i t l p f. cc;
    one = λ i j p q. cc;
    free = λ _ i. refl;
  };
  no_idling = λ _ t. refl;
}
Reach-Inv (next r st) = Step-Inv st (Reach-Inv r)
