-- ===== src/Coverage/Behind.antt =====
-- What `coverage_context` (src/gossipmemo/store/_coverage.py) gives: the first part of the backlog of the
-- first root that is behind.
use gossip_memo.Base.{
  ℕ, List, [], ◌∷◌, ◌++◌, ◌≡◌, inl, inr, ap, sym, ◌∙◌, Option, none, some, arith, Option-cases,
  List-cases, drop, take-append-drop,
}
use gossip_memo.People.{Memory}
use gossip_memo.Coverage.{
  CoverageRoot, CoverageEntry, CoverageTables, backlog_of, root_row, coverage_entries, first_behind,
  limited,
}
use gossip_memo.Coverage.Cursor.{root_row-root}
use mathlib.Core.List.{append-nil, Memᴰ}

-- The parts of a context
first_row : CoverageRoot → Option (CoverageRoot × List CoverageEntry × List Memory) → CoverageRoot
first_row r none = r
first_row r (some found) = found.0

read_backlog : Option (CoverageRoot × List CoverageEntry × List Memory) → List Memory
read_backlog none = []
read_backlog (some found) = found.2

-- What `coverage_context` gives is the first part of the queue of its row's root.
pub first_behind-root_row :
    (inferred space : ℕ) (limit : Option ℕ) (memories : List Memory) (t : CoverageTables)
    (roots : List ℕ) (row : CoverageRoot) (entries : List CoverageEntry) (backlog : List Memory)
    → first_behind inferred space limit memories t roots ≡ some (row, entries, backlog)
    → (root_row space row.root t.roots ≡ some row)
      × (backlog ≡ limited limit (backlog_of inferred space row memories))
unfolding first_behind first_row read_backlog
first_behind-root_row inferred space limit memories t [] row entries backlog e = ground (arith, e)
first_behind-root_row inferred space limit memories t (root ∷ roots) row entries backlog e =
    let rest = first_behind-root_row inferred space limit memories t roots row entries backlog in
    elim (Option-cases (root_row space root t.roots)) [
      | inl f ↦ rest (rw (f, first_behind) at e)
      | inr (r, f) ↦ elim (List-cases (limited limit (backlog_of inferred space r memories))) [
        | inl g ↦ rest (rw (f, g, first_behind) at e)
        | inr (m, ms, g) ↦
            let same : some (r, coverage_entries space (some root) t, m ∷ ms)
                ≡ some (row, entries, backlog) =
              rw (f, g, first_behind) at e in
            let row_is : r ≡ row = ap (first_row r) same in
            let backlog_is : m ∷ ms ≡ backlog = ap read_backlog same in
            rw (← row_is) (
              ap (λ x. root_row space x t.roots) (root_row-root space root t.roots r f) ∙ f,
              sym backlog_is ∙ sym g,
            )
      ]
    ]

-- The backlog of a context is not empty, and its root is one of those that are gone through.
pub first_behind-Mem :
    (inferred space : ℕ) (limit : Option ℕ) (memories : List Memory) (t : CoverageTables)
    (roots : List ℕ) (row : CoverageRoot) (entries : List CoverageEntry) (backlog : List Memory)
    → first_behind inferred space limit memories t roots ≡ some (row, entries, backlog)
    → Memᴰ row.root roots × ((m : Memory) × (ms : List Memory) × (backlog ≡ m ∷ ms))
unfolding first_behind first_row read_backlog
first_behind-Mem inferred space limit memories t [] row entries backlog e =
    absurd (ground (arith, e))
first_behind-Mem inferred space limit memories t (root ∷ roots) row entries backlog e =
    let rest = first_behind-Mem inferred space limit memories t roots row entries backlog in
    let later : first_behind inferred space limit memories t roots ≡ some (row, entries, backlog)
        → Memᴰ row.root (root ∷ roots) × ((m : Memory) × (ms : List Memory) × (backlog ≡ m ∷ ms)) =
      λ f. (Memᴰ.tail (rest f).0, (rest f).1) in
    elim (Option-cases (root_row space root t.roots)) [
      | inl f ↦ later (rw (f, first_behind) at e)
      | inr (r, f) ↦ elim (List-cases (limited limit (backlog_of inferred space r memories))) [
        | inl g ↦ later (rw (f, g, first_behind) at e)
        | inr (m, ms, g) ↦
            let same : some (r, coverage_entries space (some root) t, m ∷ ms)
                ≡ some (row, entries, backlog) =
              rw (f, g, first_behind) at e in
            (
              Memᴰ.head (
                  ap (λ (x : CoverageRoot). x.root) (sym (ap (first_row r) same))
                  ∙ root_row-root space root t.roots r f),
              (m, ms, sym (ap read_backlog same)),
            )
      ]
    ]

-- The part of a list before a limit, and the rest
pub limited-prefix {ℓ} :
    {A : Type ℓ} (limit : Option ℕ) (xs : List A)
    → (rest : List A) × (xs ≡ limited limit xs ++ rest)
limited-prefix none xs = ([], sym (append-nil xs))
limited-prefix (some n) xs = (drop n xs, sym (take-append-drop n xs))
