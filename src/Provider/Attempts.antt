-- ===== src/Provider/Attempts.antt =====
-- The retry loops of src/gossipmemo/llm.py (`complete`) and src/gossipmemo/transport.py
-- (`structured`): how often they try, what they return, and what they do in between.
use mathlib.Core.List.{append_assoc}
use gossip_memo.Base.{
  ℕ, zero, suc, ◌+◌, ◌≤◌, ◌≡◌, ◌⊎◌, inl, inr, refl, ap, sym, Bool, true, false, Option, none, some,
  List, [], ◌∷◌, ◌++◌, arith, Bool-cases,
}
use gossip_memo.Base.Results.{Result, ok, err, ◌>>=◌}
use gossip_memo.Provider.{
  Text, LlmError, over_budget, RetryPolicy, delay, Response, Event, acquire, release, post, publish,
  sleep, conclude, retries, retry_after_of, attempts_from, complete, parse_output, structured_from,
  structured,
}

module _ {ℓ} {Body : Type ℓ} (jitter : ℕ → ℕ → ℕ) (policy : RetryPolicy)
    (posted : ℕ → Response Body) where
  -- `k` responses from number `a` on are all to be retried.
  abbrev pub AllRetried : ℕ → ℕ → Type 0
  AllRetried a zero = Unit
  AllRetried a (suc k) = (retries (posted a) ≡ true) × AllRetried (a + 1) k

  -- The events of `k` attempts from number `a` on that are retried: each publishes its delay to
  -- the other callers and then sleeps as long.
  abbrev pub retry_events : ℕ → ℕ → List Event
  retry_events a zero = []
  retry_events a (suc k) =
      let d = delay (jitter a) policy a (retry_after_of (posted a)) in
      post ∷ publish d ∷ sleep d ∷ retry_events (a + 1) k

  -- The attempt with which the loop ends.
  record Final (left a : ℕ) : Type ℓ where
    k : ℕ
    within : k ≤ left
    retried : AllRetried a k
    settled : (k ≡ left) ⊎ (retries (posted (a + k)) ≡ false)
    outcome :
        attempts_from jitter policy posted left a
        ≡ (conclude (posted (a + k)), retry_events a k ++ post ∷ [])

  attempts_from-Final : (left a : ℕ) → Final left a
  unfolding attempts_from
  attempts_from-Final zero a = record {
    k = 0;
    within = omega arith;
    retried = tt;
    settled = inl refl;
    outcome = let e : a + 0 ≡ a = omega arith in rw e refl;
  }
  attempts_from-Final (suc left) a = elim (Bool-cases (retries (posted a))) [
    | inl r ↦
        let f : Final left (a + 1) = attempts_from-Final left (a + 1) in
        let e : a + suc f.k ≡ a + 1 + f.k = omega arith in
        record {
          k = suc f.k;
          within = omega (arith, f.within);
          retried = (r, f.retried);
          settled = rw e (elim f.settled [ inl h ↦ inl (ap suc h) | inr h ↦ inr h ]);
          outcome = rw (e, r, f.outcome) refl;
        }
    | inr r ↦
        let e : a + 0 ≡ a = omega arith in
        record {
          k = 0;
          within = omega arith;
          retried = tt;
          settled = inr (rw e r);
          outcome = rw (e, r) refl;
        }
  ]

  -- A request over the budget is refused with no request and no permit taken. Otherwise `complete`
  -- takes the permit once, first of all, and gives it back once, last of all; in between it posts
  -- `k + 1` times for some `k` that is at most the number of retries, sleeping after each of the
  -- first `k` posts, which are all to be retried, for the delay that it publishes; the last post is
  -- not to be retried, or no retry is left; and the result is read from the last post alone.
  pub complete_attempts :
      (read : Body → Result LlmError Text)
      → (complete jitter policy posted false read ≡ (err over_budget, []))
        × ((k : ℕ) × (k ≤ policy.attempts)
            × AllRetried 0 k
            × ((k ≡ policy.attempts) ⊎ (retries (posted k) ≡ false))
            × (complete jitter policy posted true read ≡ (
              (conclude (posted k) >>= read),
              acquire ∷ (retry_events 0 k ++ post ∷ []) ++ release ∷ [],
            )))
  unfolding complete
  complete_attempts read =
      let f : Final policy.attempts 0 = attempts_from-Final policy.attempts 0 in
      let e : 0 + f.k ≡ f.k = omega arith in
      (refl, (f.k, f.within, f.retried, rw e at f.settled, rw (f.outcome, e) refl))

module _ {ℓ} {A : Type ℓ} (jitter : ℕ → ℕ → ℕ) (policy : RetryPolicy)
    (completed : ℕ → Result LlmError Text × List Event) (parse : Text → Option A) where
  -- A completion came back, and is not a valid output.
  abbrev pub is_malformed : ℕ → Bool
  is_malformed a = elim ((completed a).0) [
    | err _ ↦ false
    | ok content ↦ elim (parse content) [ none ↦ true | some _ ↦ false ]
  ]

  abbrev pub AllMalformed : ℕ → ℕ → Type 0
  AllMalformed a zero = Unit
  AllMalformed a (suc k) = (is_malformed a ≡ true) × AllMalformed (a + 1) k

  abbrev pub malformed_events : ℕ → ℕ → List Event
  malformed_events a zero = []
  malformed_events a (suc k) =
      (completed a).1 ++ sleep (delay (jitter a) policy a none) ∷ malformed_events (a + 1) k

  -- What the last completion says: its error, or its text and what `parse` makes of it.
  abbrev pub output_of : Result LlmError Text → Result LlmError (Text × A)
  output_of (err e) = err e
  output_of (ok content) = parse_output content (parse content)

  record FinalOutput (left a : ℕ) : Type ℓ where
    k : ℕ
    within : k ≤ left
    malformed : AllMalformed a k
    settled : (k ≡ left) ⊎ (is_malformed (a + k) ≡ false)
    outcome :
        structured_from jitter policy completed parse left a
        ≡ (output_of (completed (a + k)).0, malformed_events a k ++ (completed (a + k)).1)

  last_output :
      (a : ℕ)
      → structured_from jitter policy completed parse 0 a
        ≡ (output_of (completed a).0, (completed a).1)
  unfolding structured_from
  last_output a = ground arith

  settled_output :
      (left a : ℕ)
      → is_malformed a ≡ false
      → structured_from jitter policy completed parse (suc left) a
        ≡ (output_of (completed a).0, (completed a).1)
  unfolding structured_from
  settled_output left a m = ground arith

  malformed_output :
      (left a : ℕ)
      → is_malformed a ≡ true
      → let rest = structured_from jitter policy completed parse left (a + 1) in
        structured_from jitter policy completed parse (suc left) a
        ≡ (rest.0, (completed a).1 ++ sleep (delay (jitter a) policy a none) ∷ rest.1)
  unfolding structured_from
  malformed_output left a m = ground arith

  structured_from-FinalOutput : (left a : ℕ) → FinalOutput left a
  structured_from-FinalOutput zero a = record {
    k = 0;
    within = omega arith;
    malformed = tt;
    settled = inl refl;
    outcome = let e : a + 0 ≡ a = omega arith in rw e (last_output a);
  }
  structured_from-FinalOutput (suc left) a = elim (Bool-cases (is_malformed a)) [
    | inl m ↦
        let f : FinalOutput left (a + 1) = structured_from-FinalOutput left (a + 1) in
        let e : a + suc f.k ≡ a + 1 + f.k = omega arith in
        record {
          k = suc f.k;
          within = omega (arith, f.within);
          malformed = (m, f.malformed);
          settled = rw e (elim f.settled [ inl h ↦ inl (ap suc h) | inr h ↦ inr h ]);
          outcome =
              rw (e, malformed_output left a m, f.outcome)
                (ap (λ (t : List Event). (output_of (completed (a + 1 + f.k)).0, t))
                  (sym (
                    append_assoc (completed a).1
                      (sleep (delay (jitter a) policy a none) ∷ malformed_events (a + 1) f.k)
                      (completed (a + 1 + f.k)).1)));
        }
    | inr m ↦
        let e : a + 0 ≡ a = omega arith in
        record {
          k = 0;
          within = omega arith;
          malformed = tt;
          settled = inr (rw e m);
          outcome = rw e (settled_output left a m);
        }
  ]

  -- `structured` asks for `k + 1` completions for some `k` that is at most the number of retries.
  -- The first `k` all came back malformed, and each was followed by a sleep; the last was not
  -- malformed, or no retry is left; and the result or the error is that of the last alone.
  pub structured_attempts :
      (k : ℕ) × (k ≤ policy.attempts)
      × AllMalformed 0 k
      × ((k ≡ policy.attempts) ⊎ (is_malformed k ≡ false))
      × (structured jitter policy completed parse
          ≡ (output_of (completed k).0, malformed_events 0 k ++ (completed k).1))
  unfolding structured
  structured_attempts =
      let f : FinalOutput policy.attempts 0 = structured_from-FinalOutput policy.attempts 0 in
      let e : 0 + f.k ≡ f.k = omega arith in
      (f.k, f.within, f.malformed, rw e at f.settled, rw e at f.outcome)
