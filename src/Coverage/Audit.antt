-- ===== src/Coverage/Audit.antt =====
-- `apply_coverage_audit` of src/gossipmemo/store/_coverage.py.
use gossip_memo.Base.{
  ℕ, suc, ◌+◌, Bool, true, false, Option, none, some, List, [], ◌∷◌, ◌++◌, ◌==◌, any, map, keep,
  ◌&&◌, if◌then◌else◌,
}
use gossip_memo.People.{Memory, set_where, delete_where}
use gossip_memo.Coverage.{
  CoverageRoot, CoverageEntry, EntryStatus, active, CoverageTables, coverage_entries, memory_before,
  root_row,
}
use gossip_memo.Messages.{is_same}

pub record EntryEdit : Type 0 where
  pub entry_id : ℕ
  pub content : ℕ
  pub path : Option ℕ
  pub status : EntryStatus

pub record EntryAddition : Type 0 where
  pub path : ℕ
  pub content : ℕ

pub record CoverageAudit : Type 0 where
  pub additions : List EntryAddition
  pub modifications : List EntryEdit

abbrev pub is_in : List ℕ → ℕ → Bool
is_in ids id = any (λ other. other == id) ids

abbrev pub path_or : Option ℕ → ℕ → ℕ
path_or none old = old
path_or (some new) old = new

abbrev pub edited : (now : ℕ) → EntryEdit → CoverageEntry → CoverageEntry
edited now edit e = record e {
  path = path_or edit.path e.path;
  content = edit.content;
  status = edit.status;
  updated_at = now;
}

-- The loop over the modifications: the table, and `entries`, of which an edited one is popped. The
-- ids of entries are a primary key, so the stored row has the path that `entries` has.
unfoldable pub apply_edits :
    (now space : ℕ)
    → List ℕ
    → List EntryEdit
    → List CoverageEntry
    → List CoverageEntry
    → List CoverageEntry × List CoverageEntry
apply_edits now space context [] table entries = (table, entries)
apply_edits now space context (edit ∷ edits) table entries =
    let known = is_in context edit.entry_id && any (λ e. e.id == edit.entry_id) entries in
    apply_edits now space context edits
      (if known
        then set_where (λ (e : CoverageEntry). e.id == edit.entry_id && e.space_id == space)
            (edited now edit) table
        else table)
      (if known
        then delete_where (λ (e : CoverageEntry). e.id == edit.entry_id) entries
        else entries)

-- The loop over the additions; `existing` holds the pairs of path and content, `drawn` counts the ids
-- that `id_of` has given.
unfoldable pub apply_additions :
    (ℕ → ℕ)
    → (drawn now space root : ℕ) → List EntryAddition
    → List CoverageEntry
    → List (ℕ × ℕ)
    → List CoverageEntry
apply_additions id_of drawn now space root [] table existing = table
apply_additions id_of drawn now space root (a ∷ as') table existing =
    let known = any (λ (pair : ℕ × ℕ). pair.0 == a.path && pair.1 == a.content) existing in
    apply_additions id_of (if known then drawn else suc drawn) now space root as'
      (if known
        then table
        else table
          ++ record {
            id = id_of drawn;
            space_id = space;
            root = root;
            path = a.path;
            content = a.content;
            status = active;
            created_at = now;
            updated_at = now;
          }
            ∷ [])
      (if known then existing else (a.path, a.content) ∷ existing)

-- `ORDER BY updated_at DESC, id DESC LIMIT 1`
unfoldable pub latest : List Memory → Option Memory
latest [] = none
latest (m ∷ ms) = elim (latest ms) [
  | none ↦ some m
  | some n ↦ if memory_before m n then some n else some m
]

-- `cursor_row` from the ids of the chunk
unfoldable pub cursor_row : List ℕ → List Memory → Option Memory
unfolding latest
cursor_row chunk memories = latest (keep (λ m. is_in chunk m.id) memories)

-- The UPDATE of the root's row
abbrev pub moved : (now : ℕ) → Option Memory → CoverageRoot → CoverageRoot
moved now none r = record r { revision = r.revision + 1; updated_at = now }
moved now (some m) r = record r {
  revision = r.revision + 1;
  source_watermark = some m.updated_at;
  source_cursor_id = some m.id;
  updated_at = now;
}

-- What is written when the cursor is the expected one
unfoldable pub commit_audit :
    (ℕ → ℕ)
    → (now space root : ℕ) → CoverageAudit
    → (chunk context : List ℕ) → List Memory
    → CoverageTables
    → CoverageTables
unfolding apply_edits apply_additions cursor_row
commit_audit id_of now space root audit chunk context memories t =
    let edits =
      apply_edits now space context audit.modifications t.entries
        (coverage_entries space (some root) t) in
    record {
      entries =
          apply_additions id_of 0 now space root audit.additions edits.0
            (map (λ (e : CoverageEntry). (e.path, e.content)) edits.1);
      roots =
          set_where (λ (r : CoverageRoot). r.space_id == space && r.root == root)
            (moved now (cursor_row chunk memories)) t.roots;
    }

unfoldable pub apply_coverage_audit :
    (ℕ → ℕ)
    → (now space root : ℕ) → (watermark cursor : Option ℕ) → CoverageAudit
    → (chunk context : List ℕ) → List Memory
    → CoverageTables
    → CoverageTables × Bool
unfolding commit_audit
apply_coverage_audit id_of now space root watermark cursor audit chunk context memories t =
    elim (root_row space root t.roots) [
      | none ↦ (t, false)
      | some row ↦
          if is_same row.source_watermark watermark && is_same row.source_cursor_id cursor
          then (commit_audit id_of now space root audit chunk context memories t, true)
          else (t, false)
    ]
