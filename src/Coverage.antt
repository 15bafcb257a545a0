-- ===== src/Coverage.antt =====
-- Coverage of evidence (src/gossipmemo/store/_coverage.py): the roots with their cursors, the entries
-- that summarise what is known, and the audits that read the next evidence of one root and move its
-- cursor. Texts are numbered as in People, 0 for the empty text, in their order.
pub mod Audit
pub mod Goals
pub mod Keys
pub mod Latest
pub mod Cursor
pub mod Behind
pub mod Reading
pub mod Progress
pub mod Kept
mod Skipped
mod Revision
mod Tests
use gossip_memo.Base.{
  ℕ, suc, ◌+◌, Bool, true, false, not, Option, none, some, List, [], ◌∷◌, ◌==◌, any, ltb, map, keep,
  take, ◌&&◌, ◌||◌, if◌then◌else◌,
}
use gossip_memo.Base.Sorting.{sort_by}
use gossip_memo.People.{Memory, first_of}

pub record CoverageRoot : Type 0 where
  pub space_id : ℕ
  pub root : ℕ
  pub revision : ℕ
  pub source_watermark : Option ℕ
  pub source_cursor_id : Option ℕ
  pub updated_at : ℕ

-- The values of coverage_entries.status
pub data EntryStatus : Type 0 where
  active superseded : EntryStatus

pub record CoverageEntry : Type 0 where
  pub id : ℕ
  pub space_id : ℕ
  pub root : ℕ
  pub path : ℕ
  pub content : ℕ
  pub status : EntryStatus
  pub created_at : ℕ
  pub updated_at : ℕ

pub record CoverageTables : Type 0 where
  pub roots : List CoverageRoot
  pub entries : List CoverageEntry

abbrev pub is_active_entry : CoverageEntry → Bool
is_active_entry e = elim e.status [ active ↦ true | superseded ↦ false ]

-- `ORDER BY root, path, id`
abbrev pub entry_before : CoverageEntry → CoverageEntry → Bool
entry_before a b =
    ltb a.root b.root
    || (a.root == b.root && (ltb a.path b.path || (a.path == b.path && ltb a.id b.id)))

abbrev pub is_root_or_any : Option ℕ → CoverageEntry → Bool
is_root_or_any none e = true
is_root_or_any (some root) e = e.root == root

unfoldable pub coverage_entries : ℕ → Option ℕ → CoverageTables → List CoverageEntry
coverage_entries space root t =
    sort_by entry_before
      (keep (λ e. (e.space_id == space && is_active_entry e) && is_root_or_any root e) t.entries)

-- `text or ""`
abbrev pub text_or_empty : Option ℕ → ℕ
text_or_empty none = 0
text_or_empty (some text) = text

-- `ORDER BY updated_at, id`
abbrev pub memory_before : Memory → Memory → Bool
memory_before a b = ltb a.updated_at b.updated_at || (a.updated_at == b.updated_at && ltb a.id b.id)

-- `updated_at > ? OR (updated_at = ? AND id > ?)`, at the watermark and the cursor id
abbrev pub is_after : (watermark cursor : ℕ) → Memory → Bool
is_after watermark cursor m =
    ltb watermark m.updated_at || (watermark == m.updated_at && ltb cursor m.id)

abbrev pub is_evidence : (inferred space : ℕ) → Memory → Bool
is_evidence inferred space m = m.space_id == space && not (m.basis == inferred)

-- The backlog behind a cursor, with no LIMIT
unfoldable pub backlog_after : (inferred space watermark cursor : ℕ) → List Memory → List Memory
backlog_after inferred space watermark cursor memories =
    sort_by memory_before
      (keep (λ m. is_evidence inferred space m && is_after watermark cursor m) memories)

abbrev pub limited {ℓ} : {A : Type ℓ} → Option ℕ → List A → List A
limited none xs = xs
limited (some n) xs = take n xs

unfoldable pub backlog_of : (inferred space : ℕ) → CoverageRoot → List Memory → List Memory
unfolding backlog_after
backlog_of inferred space row memories =
    backlog_after inferred space (text_or_empty row.source_watermark)
      (text_or_empty row.source_cursor_id) memories

-- `rows.get(root)` of the rows of the space
unfoldable pub root_row : (space root : ℕ) → List CoverageRoot → Option CoverageRoot
root_row space root rows = first_of (λ r. r.space_id == space && r.root == root) rows

-- The `for root in COVERAGE_ROOTS` of `coverage_context`
unfoldable pub first_behind :
    (inferred space : ℕ)
    → Option ℕ
    → List Memory
    → CoverageTables
    → List ℕ
    → Option (CoverageRoot × List CoverageEntry × List Memory)
unfolding backlog_of root_row coverage_entries
first_behind inferred space limit memories t [] = none
first_behind inferred space limit memories t (root ∷ roots) =
    let rest = first_behind inferred space limit memories t roots in
    elim (root_row space root t.roots) [
      | none ↦ rest
      | some row ↦ elim (limited limit (backlog_of inferred space row memories)) [
        | [] ↦ rest
        | m ∷ ms ↦ some (row, coverage_entries space (some root) t, m ∷ ms)
      ]
    ]

-- `roots` is COVERAGE_ROOTS; with no row in the space, no root of it has a row either.
unfoldable pub coverage_context :
    (inferred : ℕ)
    → List ℕ
    → (space : ℕ) → Option ℕ
    → List Memory
    → CoverageTables
    → Option (CoverageRoot × List CoverageEntry × List Memory)
unfolding first_behind
coverage_context inferred roots space limit memories t =
    first_behind inferred space limit memories t roots

-- `_coverage_revision`
unfoldable pub revision_sum : ℕ → List CoverageRoot → ℕ
revision_sum space [] = 0
revision_sum space (r ∷ rs) =
    let rest = revision_sum space rs in if r.space_id == space then r.revision + rest else rest

unfoldable pub coverage_revision : ℕ → CoverageTables → Option ℕ
unfolding revision_sum
coverage_revision space t =
    if any (λ (r : CoverageRoot). r.space_id == space) t.roots
    then some (revision_sum space t.roots)
    else none

-- `dict.fromkeys(ids)`: each once, where it stands first
abbrev pub unique : List ℕ → List ℕ
unique [] = []
unique (id ∷ ids) = id ∷ keep (λ other. not (other == id)) (unique ids)

abbrev pub is_behind : (inferred : ℕ) → List Memory → CoverageRoot → Bool
is_behind inferred memories r = elim (backlog_of inferred r.space_id r memories) [
  | [] ↦ false
  | m ∷ ms ↦ true
]

unfoldable pub stale_coverage_spaces : (inferred : ℕ) → List Memory → CoverageTables → List ℕ
stale_coverage_spaces inferred memories t =
    unique (map (λ (r : CoverageRoot). r.space_id) (keep (is_behind inferred memories) t.roots))
