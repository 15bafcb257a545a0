-- ===== src/Reasoner/CaughtUp.antt =====
-- The loop of the coverage reasoner (src/gossipmemo/reasoners/coverage.py) catches up, unless an audit
-- raises.
use gossip_memo.Base.{
  ℕ, suc, ◌+◌, ◌<◌, ◌≤◌, true, false, Option, none, some, List, [], ◌∷◌, ◌++◌, ◌≡◌, inl, inr, refl,
  sym, ap, ◌∙◌, arith, Option-cases, take, drop, map, length, length-append, All, take-append-drop,
  last-split,
}
use gossip_memo.Base.Results.{Result, ok, err, Result-cases, err-injective}
use mathlib.Core.List.{Memᴰ}
use mathlib.Core.Path.{subst}
use gossip_memo.People.{Memory}
use gossip_memo.Coverage.{CoverageRoot, CoverageEntry, CoverageTables, coverage_context}
use gossip_memo.Coverage.Audit.{CoverageAudit, apply_coverage_audit}
use gossip_memo.Coverage.Keys.{HasDistinctIds}
use gossip_memo.Coverage.Latest.{ids}
use gossip_memo.Coverage.Reading.{queue_of, attempt-call}
use gossip_memo.Coverage.Behind.{first_behind-Mem}
use gossip_memo.Coverage.Progress.{lets_through, coverage_context-queue_of, attempt-progress}
use gossip_memo.Reasoner.{Descriptor, attempt, run_until_caught_up}
use gossip_memo.Reasoner.Loop.{HasStopped, caught_up, raised, run_until_caught_up-ends}
use gossip_memo.Reasoner.Coverage.{CoverageContext, coverage_reasoner}

module _ {ℓ} {A : Type ℓ} where
  abbrev pub total : (A → ℕ) → List A → ℕ
  total f [] = 0
  total f (x ∷ xs) = f x + total f xs

  total-le : (f g : A → ℕ) (xs : List A) → ((x : A) → f x ≤ g x) → total f xs ≤ total g xs
  total-le f g [] h = omega arith
  total-le f g (x ∷ xs) h = omega (arith, h x, total-le f g xs h)

  total-lt :
      (f g : A → ℕ) (y : A) (xs : List A)
      → ((x : A) → f x ≤ g x)
      → f y < g y
      → Memᴰ y xs
      → total f xs < total g xs
  total-lt f g y [] h l m = elim m [ ]
  total-lt f g y (x ∷ xs) h l (Memᴰ.head e) =
      let less = subst (λ z. f z < g z) e l in omega (arith, less, total-le f g xs h)
  total-lt f g y (x ∷ xs) h l (Memᴰ.tail m) = omega (arith, h x, total-lt f g y xs h l m)

length-suffix : {xs : List Memory} (ys zs : List Memory) → xs ≡ ys ++ zs → length zs ≤ length xs
length-suffix {xs} ys zs e = let size = ap length e ∙ length-append ys zs in omega (arith, size)

module _ (id_of : ℕ → ℕ) (inferred : ℕ) (roots : List ℕ) (space : ℕ) (limit : Option ℕ) (now : ℕ)
    (memories : List Memory) {E : Type 0}
    (audit_coverage : CoverageContext → Result E (CoverageAudit × ℕ))
    (distinct : HasDistinctIds memories) where
  abbrev reasoner : Descriptor CoverageTables CoverageContext (CoverageAudit × List Memory) E
  reasoner = coverage_reasoner id_of inferred roots space limit now memories audit_coverage

  -- What the roots have left to read, all told
  abbrev pub unread : CoverageTables → ℕ
  unread t = total (λ root. length (queue_of inferred space memories t root)) roots

  -- Where the loop may end: with nothing left to read, or where the audit of the next chunk raises
  pub data IsDone (t : CoverageTables) : Result E (Unit {0}) → Type 0 where
    all_read : All (λ root. queue_of inferred space memories t root ≡ []) roots → IsDone t (ok tt)
    audit_raised :
        (context : CoverageContext) (e : E)
        → coverage_context inferred roots space limit memories t ≡ some context
        → audit_coverage context ≡ err e
        → IsDone t (err e)

  attempt-none :
      (t : CoverageTables)
      → coverage_context inferred roots space limit memories t ≡ none
      → attempt reasoner t ≡ (t, ok false)
  unfolding attempt coverage_reasoner
  attempt-none t f = rw (f, attempt) refl

  attempt-err :
      (t : CoverageTables) (context : CoverageContext) (e : E)
      → coverage_context inferred roots space limit memories t ≡ some context
      → audit_coverage context ≡ err e
      → attempt reasoner t ≡ (t, err e)
  unfolding attempt coverage_reasoner
  attempt-err t context e f g = rw (f, g, attempt) refl

  attempt-ok :
      (t : CoverageTables) (context : CoverageContext) (audit : CoverageAudit) (count : ℕ)
      → coverage_context inferred roots space limit memories t ≡ some context
      → audit_coverage context ≡ ok (audit, count)
      → attempt reasoner t ≡ (
        (apply_coverage_audit id_of now space context.0.root context.0.source_watermark
            context.0.source_cursor_id audit
            (ids (take (suc count) context.2))
            (map (λ (e : CoverageEntry). e.id) context.1)
            memories
            t).0,
        ok true,
      )
  unfolding attempt coverage_reasoner
  attempt-ok t context audit count f g = rw (f, g, attempt) refl

  HasStopped-IsDone :
      (t : CoverageTables) (outcome : Result E (Unit {0}))
      → lets_through limit ≡ true
      → HasStopped reasoner t outcome
      → IsDone t outcome × ((attempt reasoner t).0 ≡ t)
  HasStopped-IsDone t outcome positive (caught_up e) =
      elim (Option-cases (coverage_context inferred roots space limit memories t)) [
        | inl f ↦ (
          all_read ((coverage_context-queue_of inferred space limit memories t positive roots).0 f),
          ap (λ z. z.0) (attempt-none t f),
        )
        | inr (context, f) ↦ elim (Result-cases (audit_coverage context)) [
          | inl ((audit, count), g) ↦
              let more = sym (ap (λ z. z.1) (attempt-ok t context audit count f g)) ∙ e in
              absurd (ground (arith, more))
          | inr (x, g) ↦
              let stop = sym (ap (λ z. z.1) (attempt-err t context x f g)) ∙ e in
              absurd (ground (arith, stop))
        ]
      ]
  HasStopped-IsDone t outcome positive (raised x e) =
      elim (Option-cases (coverage_context inferred roots space limit memories t)) [
        | inl f ↦
            let stop = sym (ap (λ z. z.1) (attempt-none t f)) ∙ e in absurd (ground (arith, stop))
        | inr (context, f) ↦ elim (Result-cases (audit_coverage context)) [
          | inl ((audit, count), g) ↦
              let more = sym (ap (λ z. z.1) (attempt-ok t context audit count f g)) ∙ e in
              absurd (ground (arith, more))
          | inr (y, g) ↦
              let stopped = attempt-err t context y f g in
              let same : y ≡ x = err-injective (sym (ap (λ z. z.1) stopped) ∙ e) in
              (audit_raised context x f (g ∙ ap err same), ap (λ z. z.0) stopped)
        ]
      ]

  committed-unread :
      (t : CoverageTables) (row : CoverageRoot) (entries : List CoverageEntry) (pre : List Memory)
      (l : Memory) (later : List Memory) (audit : CoverageAudit) (context : List ℕ)
      → coverage_context inferred roots space limit memories t
        ≡ some (row, entries, (pre ++ l ∷ []) ++ later)
      → unread
          (apply_coverage_audit id_of now space row.root row.source_watermark row.source_cursor_id
            audit
            (ids (pre ++ l ∷ []))
            context
            memories
            t).0
        < unread t
  unfolding coverage_context
  committed-unread t row entries pre l later audit context e =
      let after =
        (apply_coverage_audit id_of now space row.root row.source_watermark row.source_cursor_id
          audit (ids (pre ++ l ∷ [])) context memories t).0 in
      let (m, some_left) =
        first_behind-Mem inferred space limit memories t roots row entries
          ((pre ++ l ∷ []) ++ later) e in
      let less =
        attempt-progress id_of inferred roots space limit memories t row entries pre l later now
          audit context distinct e in
      total-lt (λ root. length (queue_of inferred space memories after root))
        (λ root. length (queue_of inferred space memories t root)) row.root roots
        (λ root. length-suffix _ _ (
          attempt-call id_of inferred roots space limit memories distinct t t row entries pre l
            later now audit context root e))
        less.1 m

  chunk-unread :
      (t : CoverageTables) (row : CoverageRoot) (entries : List CoverageEntry)
      (backlog : List Memory) (audit : CoverageAudit) (count : ℕ)
      → coverage_context inferred roots space limit memories t ≡ some (row, entries, backlog)
      → unread
          (apply_coverage_audit id_of now space row.root row.source_watermark row.source_cursor_id
            audit
            (ids (take (suc count) backlog))
            (map (λ (x : CoverageEntry). x.id) entries)
            memories
            t).0
        < unread t
  unfolding coverage_context
  chunk-unread t row entries backlog audit count f =
      let (n, (m, ms, g)) =
        first_behind-Mem inferred space limit memories t roots row entries backlog f in
      let (pre, l, h) = last-split m (take count ms) in
      let chunk : take (suc count) backlog ≡ pre ++ l ∷ [] = ap (take (suc count)) g ∙ h in
      let whole =
        sym (take-append-drop (suc count) backlog)
        ∙ ap (λ zs. zs ++ drop (suc count) backlog) chunk in
      let read = f ∙ ap (λ (zs : List Memory). some (row, entries, zs)) whole in
      let context = map (λ (x : CoverageEntry). x.id) entries in
      subst
        (λ zs.
          unread
            (apply_coverage_audit id_of now space row.root row.source_watermark row.source_cursor_id
              audit (ids zs) context memories t).0
          < unread t)
        (sym chunk)
        (committed-unread t row entries pre l (drop (suc count) backlog) audit context read)

  attempt-unread :
      (t : CoverageTables)
      → (attempt reasoner t).1 ≡ ok true
      → unread (attempt reasoner t).0 < unread t
  attempt-unread t e =
      elim (Option-cases (coverage_context inferred roots space limit memories t)) [
        | inl f ↦
            let stop = sym (ap (λ z. z.1) (attempt-none t f)) ∙ e in absurd (ground (arith, stop))
        | inr ((row, entries, backlog), f) ↦
            elim (Result-cases (audit_coverage (row, entries, backlog))) [
              | inr (x, g) ↦
                  let stop =
                    sym (ap (λ z. z.1) (attempt-err t (row, entries, backlog) x f g)) ∙ e in
                  absurd (ground (arith, stop))
              | inl ((audit, count), g) ↦
                  subst (λ z. unread z < unread t)
                    (sym (ap (λ z. z.0) (attempt-ok t (row, entries, backlog) audit count f g)))
                    (chunk-unread t row entries backlog audit count f)
            ]
      ]

  -- With a limit of at least 1 and memories whose ids are a key: the coverage reasoner, which no one
  -- stops and beside which nothing changes the store, ends after at most one attempt for each unread
  -- evidence and one more. It ends without an error with every root caught up; or with what an audit
  -- raised, of the context that its store then gives: what was committed before stays committed.
  pub coverage_reasoner-caught_up :
      (t : CoverageTables)
      → lets_through limit ≡ true
      → (u : CoverageTables) × (outcome : Result E (Unit {0})) × (run_until_caught_up reasoner
            (suc (unread t))
            (λ turn. true)
            t
          ≡ some (u, outcome))
        × IsDone u outcome
  coverage_reasoner-caught_up t positive =
      let (v, outcome, p, stopped, ended) =
        run_until_caught_up-ends {0, 0, 0, 0} reasoner (λ (s : CoverageTables). Unit) unread
          (λ s x. tt) (λ s x. attempt-unread s) (suc (unread t)) t tt (omega arith) in
      let (done, same) = HasStopped-IsDone v outcome positive stopped in
      (v, outcome, ended ∙ ap (λ z. some (z, outcome)) same, done)
