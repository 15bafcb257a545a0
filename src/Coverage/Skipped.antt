-- ===== src/Coverage/Skipped.antt =====
-- Evidence that `apply_coverage_audit` (src/gossipmemo/store/_coverage.py) steps over: it reads the
-- (updated_at, id) of the chunk again at the commit, when a memory of it may have been touched.
use gossip_memo.Base.{ℕ, true, List, ◌≡◌, some, arith, All-lookup, ◌&&◌}
use gossip_memo.People.{Memory}
use gossip_memo.Coverage.{
  CoverageRoot, CoverageTables, memory_before, root_row, backlog_of, is_evidence, is_after,
}
use gossip_memo.Coverage.Audit.{
  CoverageAudit, apply_coverage_audit, commit_audit, cursor_row, moved,
}
use gossip_memo.Coverage.Keys.{backlog_after-All, memory_before-asymmetric}
use gossip_memo.Coverage.Cursor.{apply_coverage_audit-expected, root_row-moved}
use gossip_memo.Coverage.Reading.{queue_of, queue_of-row}
use mathlib.Core.List.{Memᴰ}
use mathlib.Core.Path.{subst}

-- After a committed audit no memory that stands before the latest of the chunk, as the table then
-- has them, is left to read, whether it was of the chunk or not.
pub apply_coverage_audit-skips :
    (id_of : ℕ → ℕ) (inferred now space root : ℕ) (audit : CoverageAudit) (chunk context : List ℕ)
    (memories : List Memory) (t : CoverageTables) (row : CoverageRoot) (l x : Memory)
    → root_row space root t.roots ≡ some row
    → cursor_row chunk memories ≡ some l
    → memory_before x l ≡ true
    → ¬ Memᴰ x (
        queue_of inferred space memories
          (apply_coverage_audit id_of now space root row.source_watermark row.source_cursor_id audit
            chunk context memories t).0
          root)
unfolding commit_audit backlog_of
apply_coverage_audit-skips id_of inferred now space root audit chunk context memories t row l x e f
      b m =
    let after =
      (apply_coverage_audit id_of now space root row.source_watermark row.source_cursor_id audit
        chunk context memories t).0 in
    let expected =
      apply_coverage_audit-expected id_of now space root audit chunk context memories t row e in
    let found : root_row space root after.roots ≡ some (moved now (some l) row) =
      rw (expected, f) (root_row-moved now space root (some l) t.roots row e) in
    let left =
      subst (λ zs. Memᴰ x zs)
        (queue_of-row inferred space memories after root (moved now (some l) row) found) m in
    let at_x =
      All-lookup
        (λ y.
          Memᴰ y memories × ((is_evidence inferred space y && is_after l.updated_at l.id y) ≡ true))
        (backlog_after-All inferred space l.updated_at l.id memories) left in
    let back = memory_before-asymmetric x l b in ground (arith, at_x.1, back)
