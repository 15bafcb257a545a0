-- ===== src/Coverage/Revision.antt =====
-- The revisions of src/gossipmemo/store/_coverage.py, by which a plan is checked before it is stored.
use gossip_memo.Base.{
  ℕ, ◌+◌, ◌<◌, ◌≤◌, Bool, true, false, List, [], ◌∷◌, ◌≡◌, inl, inr, refl, ap, sym, ◌∙◌, ◌==◌, ◌&&◌,
  Option, none, some, arith, any, Bool-cases,
}
use mathlib.Core.Bool.{false≢true}
use gossip_memo.People.{Memory, set_where}
use gossip_memo.Coverage.{CoverageRoot, CoverageTables, root_row, revision_sum, coverage_revision}
use gossip_memo.Coverage.Audit.{
  CoverageAudit, apply_coverage_audit, commit_audit, cursor_row, moved,
}
use gossip_memo.Coverage.Cursor.{apply_coverage_audit-lost}
use gossip_memo.Coverage.Goals.{GoalPlanning, LearningGoal, apply_goal_planning}

raised :
    (now : ℕ) (l : Option Memory) (r : CoverageRoot)
    → ((moved now l r).space_id ≡ r.space_id) × ((moved now l r).revision ≡ r.revision + 1)
raised now none r = (refl, refl)
raised now (some l) r = (refl, refl)

module _ (space root : ℕ) (f : CoverageRoot → CoverageRoot)
    (h : (r : CoverageRoot)
      → ((f r).space_id ≡ r.space_id) × ((f r).revision ≡ r.revision + 1)) where
  any-set_where :
      (rows : List CoverageRoot)
      → any
          (λ (r : CoverageRoot). r.space_id == space)
          (set_where (λ (r : CoverageRoot). r.space_id == space && r.root == root) f rows)
        ≡ any (λ (r : CoverageRoot). r.space_id == space) rows
  any-set_where [] = refl
  any-set_where (r ∷ rows) = ground (arith, any-set_where rows, h r)

  revision_sum-le :
      (rows : List CoverageRoot)
      → revision_sum space rows
        ≤ revision_sum space
            (set_where (λ (r : CoverageRoot). r.space_id == space && r.root == root) f rows)
  unfolding revision_sum
  revision_sum-le [] = omega arith
  revision_sum-le (r ∷ rows) = ground (arith, revision_sum-le rows, h r)

  revision_sum-lt :
      (rows : List CoverageRoot) (row : CoverageRoot)
      → root_row space root rows ≡ some row
      → revision_sum space rows
        < revision_sum space
            (set_where (λ (r : CoverageRoot). r.space_id == space && r.root == root) f rows)
  unfolding revision_sum root_row
  revision_sum-lt [] row e = ground (arith, e)
  revision_sum-lt (r ∷ rows) row e = elim (Bool-cases (r.space_id == space && r.root == root)) [
    | inl b ↦ ground (arith, b, revision_sum-le rows, h r)
    | inr b ↦ ground (arith, b, revision_sum-lt rows row (ground (arith, e, b)))
  ]

module _ (id_of : ℕ → ℕ) (now space root : ℕ) (w c : Option ℕ) (audit : CoverageAudit)
    (chunk context : List ℕ) (memories : List Memory) (t : CoverageTables) where
  committed-revision :
      (n : ℕ)
      → (apply_coverage_audit id_of now space root w c audit chunk context memories t).1 ≡ true
      → coverage_revision space t ≡ some n
      → (m : ℕ) × (coverage_revision space
            (apply_coverage_audit id_of now space root w c audit chunk context memories t).0
          ≡ some m)
        × (n < m)
  unfolding apply_coverage_audit commit_audit coverage_revision
  committed-revision n e f =
      let f_moved = moved now (cursor_row chunk memories) in
      let rows =
        set_where (λ (r : CoverageRoot). r.space_id == space && r.root == root) f_moved t.roots in
      elim (apply_coverage_audit-lost id_of now space root w c audit chunk context memories t) [
        | inl g ↦
            let no : (apply_coverage_audit id_of now space root w c audit chunk context memories
                  t).1
                ≡ false =
              ap (λ (v : CoverageTables × Bool). v.1) g in
            absurd (false≢true (sym no ∙ e))
        | inr (row, g, h, k) ↦
            let more =
              revision_sum-lt space root f_moved (raised now (cursor_row chunk memories)) t.roots
                row g in
            let same =
              any-set_where space root f_moved (raised now (cursor_row chunk memories)) t.roots in
            elim (Bool-cases (any (λ (r : CoverageRoot). r.space_id == space) t.roots)) [
              | inl b ↦ (
                revision_sum space rows,
                rw (g, h, k, apply_coverage_audit) (ground (arith, same, b)),
                ground (arith, more, f, b),
              )
              | inr b ↦ absurd (ground (arith, f, b))
            ]
      ]

  -- A plan made from a revision that an audit has since committed on is not stored.
  pub apply_goal_planning-apply_coverage_audit :
      (matched : ℕ → ℕ → List ℕ) (goal_id_of : ℕ → ℕ) (later n : ℕ) (plan : GoalPlanning)
      (known : List ℕ) (goals : List LearningGoal)
      → (apply_coverage_audit id_of now space root w c audit chunk context memories t).1 ≡ true
      → coverage_revision space t ≡ some n
      → apply_goal_planning matched goal_id_of later space n plan known
          (apply_coverage_audit id_of now space root w c audit chunk context memories t).0
          goals
        ≡ (goals, false)
  unfolding apply_goal_planning
  apply_goal_planning-apply_coverage_audit matched goal_id_of later n plan known goals e f =
      let (m, g, less) = committed-revision n e f in
      let other : (m == n) ≡ false = ground (arith, less) in rw (g, other, apply_goal_planning) refl
