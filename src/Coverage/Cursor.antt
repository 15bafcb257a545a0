-- ===== src/Coverage/Cursor.antt =====
-- What one committed audit does to the cursors of src/gossipmemo/store/_coverage.py.
use gossip_memo.Base.{
  ℕ, true, false, List, [], ◌∷◌, ◌++◌, ◌≡◌, ◌⊎◌, inl, inr, refl, ◌∙◌, ◌==◌, ◌&&◌, Option, none,
  some, All, All-imply, All-append-left, arith, Bool-cases, Option-cases,
}
use gossip_memo.Base.Ascending.{IsAscending, IsAscending-append-left}
use gossip_memo.People.{Memory, set_where}
use gossip_memo.People.Rows.{first_of-set_where, first_of-set_others, first_of-holds}
use gossip_memo.Messages.{is_same}
use gossip_memo.Coverage.{
  CoverageRoot, CoverageTables, memory_before, backlog_after, backlog_of, root_row, is_after,
  is_evidence, text_or_empty,
}
use gossip_memo.Coverage.Audit.{
  CoverageAudit, apply_coverage_audit, commit_audit, cursor_row, moved,
}
use gossip_memo.Coverage.Keys.{
  HasDistinctIds, backlog_after-IsAscending, backlog_after-All, backlog_after-resumes,
}
use gossip_memo.Coverage.Latest.{ids, cursor_row-last}
use mathlib.Core.List.{Memᴰ, append_assoc}
use mathlib.Core.Path.{subst}

pub is_same_refl : (x : Option ℕ) → is_same x x ≡ true
is_same_refl none = refl
is_same_refl (some a) = ground arith

-- The rows of the other roots
pub root_row-other :
    (space root other : ℕ) (f : CoverageRoot → CoverageRoot) (rows : List CoverageRoot)
    → (root == other) ≡ false
    → ((r : CoverageRoot) → ((f r).space_id ≡ r.space_id) × ((f r).root ≡ r.root))
    → root_row space other
        (set_where (λ (r : CoverageRoot). r.space_id == space && r.root == root) f rows)
      ≡ root_row space other rows
unfolding root_row
root_row-other space root other f rows n h =
    first_of-set_others (λ (r : CoverageRoot). r.space_id == space && r.root == other) f
      (λ (r : CoverageRoot). r.space_id == space && r.root == root) rows
      (λ r b. ground (arith, b, n)) (λ r b. rw (h r).1 (ground (arith, b, n)))

-- A row is found by its root.
pub root_row-root :
    (space root : ℕ) (rows : List CoverageRoot) (row : CoverageRoot)
    → root_row space root rows ≡ some row
    → row.root ≡ root
unfolding root_row
root_row-root space root rows row e =
    let found =
      first_of-holds (λ (r : CoverageRoot). r.space_id == space && r.root == root) rows row e in
    ground (arith, found)

-- An audit whose expected cursor is not the stored one
pub apply_coverage_audit-lost :
    (id_of : ℕ → ℕ) (now space root : ℕ) (w c : Option ℕ) (audit : CoverageAudit)
    (chunk context : List ℕ) (memories : List Memory) (t : CoverageTables)
    → (apply_coverage_audit id_of now space root w c audit chunk context memories t ≡ (t, false))
      ⊎ ((row : CoverageRoot) × (root_row space root t.roots ≡ some row)
          × (is_same row.source_watermark w ≡ true)
          × (is_same row.source_cursor_id c ≡ true))
unfolding apply_coverage_audit commit_audit
apply_coverage_audit-lost id_of now space root w c audit chunk context memories t =
    elim (Option-cases (root_row space root t.roots)) [
      | inl e ↦ inl (rw (e, apply_coverage_audit) refl)
      | inr (row, e) ↦ elim (Bool-cases (is_same row.source_watermark w)) [
        | inl f ↦ elim (Bool-cases (is_same row.source_cursor_id c)) [
          | inl g ↦ inr (row, e, f, g)
          | inr g ↦ inl (rw (e, f, g, apply_coverage_audit) refl)
        ]
        | inr f ↦ inl (rw (e, f, apply_coverage_audit) refl)
      ]
    ]

pub is_same_eq : (x y : Option ℕ) → is_same x y ≡ true → x ≡ y
is_same_eq none none e = refl
is_same_eq none (some b) e = ground (arith, e)
is_same_eq (some a) none e = ground (arith, e)
is_same_eq (some a) (some b) e = ground (arith, e)

-- The row of the root after the UPDATE
pub root_row-moved :
    (now space root : ℕ) (l : Option Memory) (rows : List CoverageRoot) (row : CoverageRoot)
    → root_row space root rows ≡ some row
    → root_row space root
        (set_where (λ (r : CoverageRoot). r.space_id == space && r.root == root) (moved now l) rows)
      ≡ some (moved now l row)
unfolding root_row
root_row-moved now space root none rows row e =
    first_of-set_where (λ (r : CoverageRoot). r.space_id == space && r.root == root)
      (moved now none) rows row (λ r. refl) e
root_row-moved now space root (some l) rows row e =
    first_of-set_where (λ (r : CoverageRoot). r.space_id == space && r.root == root)
      (moved now (some l)) rows row (λ r. refl) e

pub apply_coverage_audit-expected :
    (id_of : ℕ → ℕ) (now space root : ℕ) (audit : CoverageAudit) (chunk context : List ℕ)
    (memories : List Memory) (t : CoverageTables) (row : CoverageRoot)
    → root_row space root t.roots ≡ some row
    → apply_coverage_audit id_of now space root row.source_watermark row.source_cursor_id audit
        chunk context memories t
      ≡ (commit_audit id_of now space root audit chunk context memories t, true)
unfolding apply_coverage_audit commit_audit
apply_coverage_audit-expected id_of now space root audit chunk context memories t row e =
    rw
      (
        e,
        is_same_refl row.source_watermark,
        is_same_refl row.source_cursor_id,
        apply_coverage_audit,
      )
      refl

-- A committed audit of the first memories of a root's backlog, any number of them but none, and any
-- edits and additions, leaves of that backlog what follows them, in the row of the same root.
pub apply_coverage_audit-backlog_of :
    (id_of : ℕ → ℕ) (inferred now space root : ℕ) (audit : CoverageAudit) (context : List ℕ)
    (memories : List Memory) (t : CoverageTables) (row : CoverageRoot) (pre : List Memory)
    (l : Memory) (post : List Memory)
    → HasDistinctIds memories
    → root_row space root t.roots ≡ some row
    → backlog_of inferred space row memories ≡ (pre ++ l ∷ []) ++ post
    → let after =
        apply_coverage_audit id_of now space root row.source_watermark row.source_cursor_id audit
          (ids (pre ++ l ∷ []))
          context
          memories
          t in
      (after.1 ≡ true)
      × (root_row space root after.0.roots ≡ some (moved now (some l) row))
      × (backlog_of inferred space (moved now (some l) row) memories ≡ post)
unfolding commit_audit backlog_of
apply_coverage_audit-backlog_of id_of inferred now space root audit context memories t row pre l
      post d e b =
    let w = text_or_empty row.source_watermark in
    let c = text_or_empty row.source_cursor_id in
    let chunk = pre ++ l ∷ [] in
    let stored =
      All-append-left (λ m. Memᴰ m memories) chunk post
        (subst (All (λ m. Memᴰ m memories)) b (
          All-imply
            (λ m. Memᴰ m memories × ((is_evidence inferred space m && is_after w c m) ≡ true))
            (λ m. Memᴰ m memories) (backlog_after inferred space w c memories) (λ m p. p.0)
            (backlog_after-All inferred space w c memories))) in
    let ascending = IsAscending-append-left memory_before chunk post (
      subst (IsAscending memory_before) b
        (backlog_after-IsAscending inferred space w c memories d)) in
    let cursor = cursor_row-last memories pre l d stored ascending in
    let found = root_row-moved now space root (some l) t.roots row e in
    let next =
      backlog_after-resumes inferred space w c memories pre l post d
        (b ∙ append_assoc pre (l ∷ []) post) in
    rw
      (
        apply_coverage_audit-expected id_of now space root audit (ids chunk) context memories t row
            e,
        cursor,
      )
      (refl, found, next)

moved-keeps :
    (now : ℕ) (l : Option Memory) (r : CoverageRoot)
    → ((moved now l r).space_id ≡ r.space_id) × ((moved now l r).root ≡ r.root)
moved-keeps now none r = (refl, refl)
moved-keeps now (some l) r = (refl, refl)

-- An audit of one root leaves the rows of the others.
pub apply_coverage_audit-others :
    (id_of : ℕ → ℕ) (now space root other : ℕ) (w c : Option ℕ) (audit : CoverageAudit)
    (chunk context : List ℕ) (memories : List Memory) (t : CoverageTables)
    → (root == other) ≡ false
    → root_row space other
        (apply_coverage_audit id_of now space root w c audit chunk context memories t).0.roots
      ≡ root_row space other t.roots
unfolding apply_coverage_audit commit_audit
apply_coverage_audit-others id_of now space root other w c audit chunk context memories t n =
    let others =
      root_row-other space root other (moved now (cursor_row chunk memories)) t.roots n
        (moved-keeps now (cursor_row chunk memories)) in
    elim (apply_coverage_audit-lost id_of now space root w c audit chunk context memories t) [
      | inl e ↦ rw e refl
      | inr (row, e, f, g) ↦ rw (e, f, g, apply_coverage_audit) others
    ]
