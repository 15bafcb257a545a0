-- ===== src/Coverage/Reading.antt =====
-- The attempts of the coverage reasoner (src/gossipmemo/reasoners/coverage.py) as steps: a context is
-- read, a first part of its backlog is audited, and the audit is committed.
use gossip_memo.Base.{
  ℕ, Bool, true, List, [], ◌∷◌, ◌++◌, ◌≡◌, inl, inr, refl, ap, sym, ◌∙◌, ◌==◌, Option, none, some,
  ==_iff, Bool-cases, if◌then◌else◌,
}
use gossip_memo.People.{Memory}
use gossip_memo.Coverage.{
  CoverageRoot, CoverageEntry, CoverageTables, backlog_of, root_row, coverage_context,
}
use gossip_memo.Coverage.Audit.{CoverageAudit, apply_coverage_audit, moved}
use gossip_memo.Coverage.Keys.{HasDistinctIds}
use gossip_memo.Coverage.Latest.{ids}
use gossip_memo.Coverage.Cursor.{
  apply_coverage_audit-backlog_of, apply_coverage_audit-lost, apply_coverage_audit-others,
  is_same_eq,
}
use gossip_memo.Coverage.Behind.{first_behind-root_row, limited-prefix}
use mathlib.Core.List.{append_assoc}
use mathlib.Core.Path.{subst}

-- The abstract view of a root: the queue of the evidence it has not read.
unfoldable pub queue_of : (inferred space : ℕ) → List Memory → CoverageTables → ℕ → List Memory
unfolding root_row backlog_of
queue_of inferred space memories t root = elim (root_row space root t.roots) [
  | none ↦ []
  | some row ↦ backlog_of inferred space row memories
]

module _ (id_of : ℕ → ℕ) (inferred : ℕ) (roots : List ℕ) (space : ℕ) (limit : Option ℕ)
    (memories : List Memory) where
  -- One attempt: its context was read from the tables of some earlier moment, its chunk is a first
  -- part of the backlog (at the level of ids: a slice of an oversized memory has the memory's id), of
  -- memories that do not change between the read and the commit, and the audit that the model gave is applied to the tables of now. Its
  -- index is the root with what was read of it, nothing when the commit is refused.
  pub data AuditStep : CoverageTables → ℕ → List Memory → CoverageTables → Type 0 where
    attempt :
        {t : CoverageTables} (earlier : CoverageTables) (row : CoverageRoot)
        (entries : List CoverageEntry) (pre : List Memory) (l : Memory) (later : List Memory)
        {after : CoverageTables × Bool} (now : ℕ) (audit : CoverageAudit) (context : List ℕ)
        → coverage_context inferred roots space limit memories earlier
          ≡ some (row, entries, (pre ++ l ∷ []) ++ later)
        → apply_coverage_audit id_of now space row.root row.source_watermark row.source_cursor_id
            audit
            (ids (pre ++ l ∷ []))
            context
            memories
            t
          ≡ after
        → AuditStep t row.root (if after.1 then pre ++ l ∷ [] else []) after.0

  pub data AuditRun : CoverageTables → List (ℕ × List Memory) → CoverageTables → Type 0 where
    done : {t : CoverageTables} → AuditRun t [] t
    next :
        {t u v : CoverageTables} {root : ℕ} {chunk : List Memory} {log : List (ℕ × List Memory)}
        → AuditStep t root chunk u
        → AuditRun u log v
        → AuditRun t ((root, chunk) ∷ log) v

-- What the log of a run says was read of one root
unfoldable pub read_of : ℕ → List (ℕ × List Memory) → List Memory
read_of root [] = []
read_of root (entry ∷ log) =
    let rest = read_of root log in if entry.0 == root then entry.1 ++ rest else rest

pub queue_of-row :
    (inferred space : ℕ) (memories : List Memory) (t : CoverageTables) (root : ℕ)
    (row : CoverageRoot)
    → root_row space root t.roots ≡ some row
    → queue_of inferred space memories t root ≡ backlog_of inferred space row memories
unfolding queue_of
queue_of-row inferred space memories t root row e = rw (e, queue_of) refl

queue_of-same :
    (inferred space : ℕ) (memories : List Memory) (t u : CoverageTables) (root : ℕ)
    → root_row space root u.roots ≡ root_row space root t.roots
    → queue_of inferred space memories u root ≡ queue_of inferred space memories t root
unfolding queue_of
queue_of-same inferred space memories t u root e = rw (e, queue_of) refl

module _ (id_of : ℕ → ℕ) (inferred : ℕ) (roots : List ℕ) (space : ℕ) (limit : Option ℕ)
    (memories : List Memory) (distinct : HasDistinctIds memories) where
  -- A commit at a row with the cursor that was read takes the chunk off the front of the queue.
  pub committed :
      (earlier t : CoverageTables) (row r : CoverageRoot) (entries : List CoverageEntry)
      (pre : List Memory) (l : Memory) (later : List Memory) (now : ℕ) (audit : CoverageAudit)
      (context : List ℕ)
      → coverage_context inferred roots space limit memories earlier
        ≡ some (row, entries, (pre ++ l ∷ []) ++ later)
      → root_row space row.root t.roots ≡ some r
      → r.source_watermark ≡ row.source_watermark
      → r.source_cursor_id ≡ row.source_cursor_id
      → let after =
          apply_coverage_audit id_of now space row.root row.source_watermark row.source_cursor_id
            audit
            (ids (pre ++ l ∷ []))
            context
            memories
            t in
        (after.1 ≡ true)
        × (queue_of inferred space memories t row.root
            ≡ (pre ++ l ∷ []) ++ queue_of inferred space memories after.0 row.root)
  unfolding coverage_context backlog_of
  committed earlier t row r entries pre l later now audit context e f g h =
      let chunk = pre ++ l ∷ [] in
      let at_row =
        first_behind-root_row inferred space limit memories earlier roots row entries
          (chunk ++ later) e in
      let (rest, whole) = limited-prefix limit (backlog_of inferred space row memories) in
      let call =
        ap
          (λ w.
            apply_coverage_audit id_of now space row.root w row.source_cursor_id audit (ids chunk)
              context memories t)
          (sym g)
        ∙ ap
            (λ c.
              apply_coverage_audit id_of now space row.root r.source_watermark c audit (ids chunk)
                context memories t)
            (sym h) in
      let same : backlog_of inferred space r memories ≡ backlog_of inferred space row memories =
        rw (g, h, backlog_of) refl in
      let split : backlog_of inferred space r memories ≡ chunk ++ (later ++ rest) =
        same ∙ whole ∙ ap (λ zs. zs ++ rest) (sym at_row.1) ∙ append_assoc chunk later rest in
      let done =
        apply_coverage_audit-backlog_of id_of inferred now space row.root audit context memories t r
          pre l (later ++ rest) distinct f split in
      let after =
        (apply_coverage_audit id_of now space row.root r.source_watermark r.source_cursor_id audit
          (ids chunk) context memories t).0 in
      let left =
        queue_of-row inferred space memories after row.root (moved now (some l) r) done.1
        ∙ done.2 in
      let before = queue_of-row inferred space memories t row.root r f ∙ split in
      (
        ap (λ (v : CoverageTables × Bool). v.1) call ∙ done.0,
        before
            ∙ ap (λ zs. chunk ++ zs) (sym left)
            ∙ ap
                (λ (v : CoverageTables × Bool).
                  chunk ++ queue_of inferred space memories v.0 row.root)
                (sym call),
      )

  -- Any attempt, for any root
  pub attempt-call :
      (earlier t : CoverageTables) (row : CoverageRoot) (entries : List CoverageEntry)
      (pre : List Memory) (l : Memory) (later : List Memory) (now : ℕ) (audit : CoverageAudit)
      (context : List ℕ) (other : ℕ)
      → coverage_context inferred roots space limit memories earlier
        ≡ some (row, entries, (pre ++ l ∷ []) ++ later)
      → let after =
          apply_coverage_audit id_of now space row.root row.source_watermark row.source_cursor_id
            audit
            (ids (pre ++ l ∷ []))
            context
            memories
            t in
        queue_of inferred space memories t other
        ≡ (if row.root == other then if after.1 then pre ++ l ∷ [] else [] else [])
          ++ queue_of inferred space memories after.0 other
  attempt-call earlier t row entries pre l later now audit context other e =
      let after =
        apply_coverage_audit id_of now space row.root row.source_watermark row.source_cursor_id
          audit (ids (pre ++ l ∷ [])) context memories t in
      elim (Bool-cases (row.root == other)) [
        | inl b ↦
            elim (apply_coverage_audit-lost id_of now space row.root row.source_watermark
              row.source_cursor_id audit (ids (pre ++ l ∷ [])) context memories t) [
                | inl g ↦ rw (b, g) refl
                | inr (r, g, h, k) ↦
                    let here =
                      committed earlier t row r entries pre l later now audit context e g
                        (is_same_eq r.source_watermark row.source_watermark h)
                        (is_same_eq r.source_cursor_id row.source_cursor_id k) in
                    rw (b, here.0)
                      (subst
                        (λ x.
                          queue_of inferred space memories t x
                          ≡ (pre ++ l ∷ []) ++ queue_of inferred space memories after.0 x)
                        ((==_iff row.root other).0 b) here.1)
              ]
        | inr b ↦ rw b (
            sym (
              queue_of-same inferred space memories t after.0 other (
                apply_coverage_audit-others id_of now space row.root other row.source_watermark
                  row.source_cursor_id audit (ids (pre ++ l ∷ [])) context memories t b)))
      ]

  attempt-queue_of :
      (t u : CoverageTables) (root : ℕ) (chunk : List Memory) (other : ℕ)
      → AuditStep id_of inferred roots space limit memories t root chunk u
      → queue_of inferred space memories t other
        ≡ (if root == other then chunk else []) ++ queue_of inferred space memories u other
  attempt-queue_of t u root chunk other
        (AuditStep.attempt earlier row entries pre l later {after} now audit context e f) =
      subst
        (λ (v : CoverageTables × Bool).
          queue_of inferred space memories t other
          ≡ (if row.root == other then if v.1 then pre ++ l ∷ [] else [] else [])
            ++ queue_of inferred space memories v.0 other)
        f (attempt-call earlier t row entries pre l later now audit context other e)

  -- Over memories that do not change, with ids that are a key: however attempts interleave, what was
  -- read of a root and what is left of its queue make up the queue that it had, each evidence once and
  -- in order.
  pub run-queue_of :
      (t u : CoverageTables) (log : List (ℕ × List Memory)) (root : ℕ)
      → AuditRun id_of inferred roots space limit memories t log u
      → queue_of inferred space memories t root
        ≡ read_of root log ++ queue_of inferred space memories u root
  unfolding read_of
  run-queue_of t u log root AuditRun.done = refl
  run-queue_of t v log root (AuditRun.next {u} {root = r} {chunk} {log = rest} step more) =
      attempt-queue_of t u r chunk root step
      ∙ ap (λ zs. (if r == root then chunk else []) ++ zs) (run-queue_of u v rest root more)
      ∙ elim (Bool-cases (r == root)) [
        | inl b ↦
            rw b (
              sym
                (append_assoc chunk (read_of root rest) (queue_of inferred space memories v root)))
        | inr b ↦ rw b refl
      ]
