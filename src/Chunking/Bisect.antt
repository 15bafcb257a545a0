-- ===== src/Chunking/Bisect.antt =====
-- The bisection of src/gossipmemo/chunking.py finds a boundary, the only one if `fits` is monotone.
use gossip_memo.Base.{
  ℕ, zero, suc, ◌+◌, ◌-◌, ◌/◌, ◌≤◌, ◌<◌, ◌≡◌, ◌⊎◌, inl, inr, refl, Bool, true, false, arith,
  Bool-cases,
}
use native.Mathlib.Decide.{dec_le}
use gossip_memo.Chunking.{Range, narrowing, narrow, shrink, bisect_range, bisect}

module _ (fp : ℕ → Bool) (lo hi : ℕ) where
  -- What the rounds keep: the lower end fits or was never moved, and the length after the upper
  -- end does not fit or the end was never moved.
  record IsBracket (r : Range) : Type 0 where
    from : lo ≤ r.lo
    ordered : r.lo ≤ r.hi
    to : r.hi ≤ hi
    below : (r.lo ≡ lo) ⊎ (fp r.lo ≡ true)
    above : (r.hi ≡ hi) ⊎ (fp (r.hi + 1) ≡ false)

  narrow-IsBracket :
      (r : Range)
      → IsBracket r
      → narrowing r ≡ true
      → IsBracket (narrow fp r) × ((narrow fp r).hi - (narrow fp r).lo < r.hi - r.lo)
  narrow-IsBracket r b t = elim (Bool-cases (fp ((r.lo + r.hi + 1) / 2))) [
    | inl e ↦ rw e (
      record {
        from = ground (arith, b.from, b.ordered, b.to);
        ordered = ground (arith, b.from, b.ordered, b.to);
        to = ground (arith, b.from, b.ordered, b.to);
        below = inr e;
        above = b.above;
      },
      ground (arith, b.ordered),
    )
    | inr e ↦ rw e (
      record {
        from = ground (arith, b.from, b.ordered, b.to);
        ordered = ground (arith, b.from, b.ordered, b.to);
        to = ground (arith, b.from, b.ordered, b.to);
        below = b.below;
        above = inr (rw (middle r t) e);
      },
      ground (arith, b.ordered),
    )
  ]
    where
      middle :
          (r : Range) → narrowing r ≡ true → (r.lo + r.hi + 1) / 2 - 1 + 1 ≡ (r.lo + r.hi + 1) / 2
      middle r t = ground arith

  -- A range that is shorter than the rounds left is bracketed to its end.
  shrink-IsBracket :
      (rounds : ℕ) (r : Range)
      → r.hi - r.lo < rounds
      → IsBracket r
      → IsBracket (shrink fp rounds r) × (narrowing (shrink fp rounds r) ≡ false)
  unfolding shrink
  shrink-IsBracket zero r short b = absurd (omega (arith, short))
  shrink-IsBracket (suc rounds) r short b = elim (Bool-cases (narrowing r)) [
    | inr e ↦ rw (e, shrink) (b, e)
    | inl e ↦
        let next = narrow-IsBracket r b e in
        rw (e, shrink) (shrink-IsBracket rounds (narrow fp r) (omega (arith, short, next.1)) next.0)
  ]

  bisect_range-IsBracket :
      lo ≤ hi → IsBracket (bisect_range fp lo hi) × (narrowing (bisect_range fp lo hi) ≡ false)
  unfolding bisect_range
  bisect_range-IsBracket h =
      shrink-IsBracket (hi - lo + 1) (record { lo = lo; hi = hi }) (omega arith)
        (record {
          from = omega arith;
          ordered = h;
          to = omega arith;
          below = inl refl;
          above = inl refl;
        })

  -- The rounds that are counted are enough for the loop to end by its test. Its result lies
  -- between the ends; it fits unless it is the lower end, and one more does not fit unless it is
  -- the upper end. This holds of any `fits` at all.
  pub bisect_boundary :
      lo ≤ hi
      → let n = bisect fp lo hi in
        (narrowing (bisect_range fp lo hi) ≡ false)
        × (lo ≤ n)
        × (n ≤ hi)
        × ((n ≡ lo) ⊎ (fp n ≡ true))
        × ((n ≡ hi) ⊎ (fp (n + 1) ≡ false))
  bisect_boundary h =
      let (b, t) = bisect_range-IsBracket h in
      let r : Range = bisect_range fp lo hi in
      let e : r.lo ≡ r.hi = ground (arith, b.ordered) in
      unfold bisect in (t, b.from, omega (arith, b.ordered, b.to), b.below, rw e b.above)

  -- If whatever is shorter than a length that fits fits too, and the lower end fits, then the
  -- result is the largest length up to the upper end that fits.
  pub bisect-largest :
      ((m n : ℕ) → m ≤ n → fp n ≡ true → fp m ≡ true)
      → lo ≤ hi
      → fp lo ≡ true
      → (n : ℕ) → n ≤ hi
      → fp n ≡ true
      → (fp (bisect fp lo hi) ≡ true) × (n ≤ bisect fp lo hi)
  bisect-largest mono h first n le f =
      let (_, _, _, below, above) = bisect_boundary h in
      (
        ground (arith, below),
        elim (dec_le n (bisect fp lo hi)) [
          | yes p ↦ p
          | no p ↦ absurd (ground (arith, above, mono (bisect fp lo hi + 1) n))
        ],
      )
