-- ===== src/Coverage/Progress.antt =====
-- That audits of one root after another come to an end: src/gossipmemo/store/_coverage.py.
use gossip_memo.Base.{
  ℕ, zero, suc, leb, ◌<◌, Bool, true, List, [], ◌∷◌, ◌++◌, ◌≡◌, ◌↔◌, inl, inr, refl, ap, ◌∙◌,
  Option, none, some, arith, Option-cases, List-cases, length, length-append, All,
}
use gossip_memo.People.{Memory}
use gossip_memo.Coverage.{
  CoverageRoot, CoverageEntry, CoverageTables, backlog_of, root_row, first_behind, coverage_context,
  limited, coverage_entries,
}
use gossip_memo.Coverage.Audit.{CoverageAudit, apply_coverage_audit}
use gossip_memo.Coverage.Keys.{HasDistinctIds}
use gossip_memo.Coverage.Latest.{ids}
use gossip_memo.Coverage.Reading.{queue_of, committed}
use gossip_memo.Coverage.Behind.{first_behind-root_row}

-- A LIMIT that lets something through
unfoldable pub lets_through : Option ℕ → Bool
lets_through none = true
lets_through (some n) = leb 1 n

limited-none :
    (limit : Option ℕ) (xs : List Memory)
    → lets_through limit ≡ true
    → limited limit xs ≡ []
    → xs ≡ []
unfolding lets_through
limited-none none xs p e = e
limited-none (some n) [] p e = refl
limited-none (some zero) (x ∷ xs) p e = ground (arith, p)
limited-none (some (suc n)) (x ∷ xs) p e = ground (arith, e)

limited-nil : (limit : Option ℕ) → limited {A = Memory} limit [] ≡ []
limited-nil none = refl
limited-nil (some zero) = refl
limited-nil (some (suc n)) = refl

module _ (inferred space : ℕ) (limit : Option ℕ) (memories : List Memory) (t : CoverageTables)
    (positive : lets_through limit ≡ true) where
  none-caught_up :
      (roots : List ℕ)
      → first_behind inferred space limit memories t roots ≡ none
      → All (λ root. queue_of inferred space memories t root ≡ []) roots
  unfolding first_behind queue_of
  none-caught_up [] e = tt
  none-caught_up (root ∷ rest) e = elim (Option-cases (root_row space root t.roots)) [
    | inl f ↦ (rw (f, queue_of) refl, none-caught_up rest (rw (f, first_behind) at e))
    | inr (r, f) ↦ elim (List-cases (limited limit (backlog_of inferred space r memories))) [
      | inl g ↦ (
        rw (f, queue_of) (limited-none limit (backlog_of inferred space r memories) positive g),
        none-caught_up rest (rw (f, g, first_behind) at e),
      )
      | inr (m, ms, g) ↦
          let bad : some (r, coverage_entries space (some root) t, m ∷ ms) ≡ none =
            rw (f, g, first_behind) at e in
          ground (arith, bad)
    ]
  ]

  caught_up-none :
      (roots : List ℕ)
      → All (λ root. queue_of inferred space memories t root ≡ []) roots
      → first_behind inferred space limit memories t roots ≡ none
  unfolding first_behind queue_of
  caught_up-none [] e = refl
  caught_up-none (root ∷ rest) e =
      let more = caught_up-none rest e.1 in
      elim (Option-cases (root_row space root t.roots)) [
        | inl f ↦ rw (f, first_behind) more
        | inr (r, f) ↦
            let empty : backlog_of inferred space r memories ≡ [] = rw (f, queue_of) at e.0 in
            rw (f, ap (limited limit) empty ∙ limited-nil limit, first_behind) more
      ]

  -- `coverage_context`, with a limit of at least 1, returns None exactly when every root is caught up.
  pub coverage_context-queue_of :
      (roots : List ℕ)
      → (coverage_context inferred roots space limit memories t ≡ none)
        ↔ All (λ root. queue_of inferred space memories t root ≡ []) roots
  unfolding coverage_context
  coverage_context-queue_of roots = (none-caught_up roots, caught_up-none roots)

-- An attempt whose context was read from the tables as they are commits, and leaves less to read
-- of that root.
pub attempt-progress :
    (id_of : ℕ → ℕ) (inferred : ℕ) (roots : List ℕ) (space : ℕ) (limit : Option ℕ)
    (memories : List Memory) (t : CoverageTables) (row : CoverageRoot)
    (entries : List CoverageEntry) (pre : List Memory) (l : Memory) (later : List Memory) (now : ℕ)
    (audit : CoverageAudit) (context : List ℕ)
    → HasDistinctIds memories
    → coverage_context inferred roots space limit memories t
      ≡ some (row, entries, (pre ++ l ∷ []) ++ later)
    → let after =
        apply_coverage_audit id_of now space row.root row.source_watermark row.source_cursor_id
          audit
          (ids (pre ++ l ∷ []))
          context
          memories
          t in
      (after.1 ≡ true)
      × (length (queue_of inferred space memories after.0 row.root)
          < length (queue_of inferred space memories t row.root))
unfolding coverage_context
attempt-progress id_of inferred roots space limit memories t row entries pre l later now audit
      context d e =
    let at_row =
      first_behind-root_row inferred space limit memories t roots row entries
        ((pre ++ l ∷ []) ++ later) e in
    let after =
      apply_coverage_audit id_of now space row.root row.source_watermark row.source_cursor_id audit
        (ids (pre ++ l ∷ [])) context memories t in
    let here =
      committed id_of inferred roots space limit memories d t t row row entries pre l later now
        audit context e at_row.0 refl refl in
    let rest = queue_of inferred space memories after.0 row.root in
    let size = ap length here.1 ∙ length-append (pre ++ l ∷ []) rest in
    let chunk_size = length-append pre (l ∷ []) in (here.0, omega (arith, size, chunk_size))
