-- ===== src/Reasoner/Tests.antt =====
-- The loop of the coverage reasoner at concrete inputs.
use gossip_memo.Base.{
  ℕ, suc, ◌+◌, true, false, none, some, List, [], ◌∷◌, ◌≡◌, refl, ◌==◌, if◌then◌else◌,
}
use gossip_memo.People.{Memory, human}
use gossip_memo.People.{MemoryStatus as MemoryStatus}
use gossip_memo.Coverage.{
  CoverageRoot, CoverageTables, coverage_context, first_behind, root_row, backlog_of, backlog_after,
  coverage_entries,
}
use gossip_memo.Coverage.Audit.{
  CoverageAudit, apply_coverage_audit, commit_audit, apply_edits, apply_additions, cursor_row,
  latest,
}
use gossip_memo.Coverage.Keys.{HasDistinctIds}
use gossip_memo.Coverage.Progress.{lets_through}
use gossip_memo.Reasoner.{attempt, run_until_caught_up}
use gossip_memo.Base.Results.{Result, ok, err}
use gossip_memo.Reasoner.Coverage.{CoverageContext, coverage_reasoner}
use gossip_memo.Reasoner.CaughtUp.{coverage_reasoner-caught_up, unread, IsDone}

abbrev known_at : ℕ → ℕ → Memory
known_at id at = record {
  id = id;
  space_id = 7;
  content = 60;
  kind = 1;
  basis = 2;
  about_user = false;
  status = MemoryStatus.active;
  valid_from = none;
  valid_to = none;
  supersedes = none;
  invalidated_at = none;
  invalidation_reason = none;
  source_batch = none;
  created_by = human;
  created_at = 1;
  updated_at = at;
}

abbrev root_of : ℕ → CoverageRoot
root_of name = record {
  space_id = 7;
  root = name;
  revision = 0;
  source_watermark = none;
  source_cursor_id = none;
  updated_at = 1;
}

abbrev fresh_entry : ℕ → ℕ
fresh_entry n = n + 500

-- An audit that finds nothing, of two memories at a time
abbrev two_each : CoverageContext → Result ℕ (CoverageAudit × ℕ)
two_each context = ok (record { additions = []; modifications = [] }, 1)

abbrev two_roots : CoverageTables
two_roots = record { roots = root_of 1 ∷ root_of 2 ∷ []; entries = [] }

abbrev three_known : List Memory
three_known = known_at 31 10 ∷ known_at 32 8 ∷ known_at 33 10 ∷ []

distinct_three : HasDistinctIds three_known
distinct_three = ((refl, (refl, tt)), ((refl, tt), (tt, tt)))

some_limit : lets_through (some 400) ≡ true
unfolding lets_through
some_limit = refl

coverage_reasoner-caught_up_example :
    (u : CoverageTables) × (outcome : Result ℕ (Unit {0})) × (run_until_caught_up
        (coverage_reasoner fresh_entry 9 (1 ∷ 2 ∷ []) 7 (some 400) 50 three_known two_each)
        (suc (
          unread fresh_entry 9
            (1 ∷ 2 ∷ [])
            7
            (some 400)
            50
            three_known
            two_each
            distinct_three
            two_roots))
        (λ turn. true)
        two_roots
      ≡ some (u, outcome))
    × IsDone fresh_entry 9
        (1 ∷ 2 ∷ [])
        7
        (some 400)
        50
        three_known
        two_each
        distinct_three
        u
        outcome
coverage_reasoner-caught_up_example =
    coverage_reasoner-caught_up fresh_entry 9 (1 ∷ 2 ∷ []) 7 (some 400) 50 three_known two_each
      distinct_three two_roots some_limit

-- The audit of the second root raises: what the first root has read stays read.
abbrev first_only : CoverageContext → Result ℕ (CoverageAudit × ℕ)
first_only context = if context.0.root == 1 then two_each context else err 503

raised_at_second :
    run_until_caught_up
      (coverage_reasoner fresh_entry 9 (1 ∷ 2 ∷ []) 7 (some 400) 50 three_known first_only)
      9
      (λ turn. true)
      two_roots
    ≡ some (
      record {
        roots =
            record (root_of 1) {
              revision = 2;
              source_watermark = some 10;
              source_cursor_id = some 33;
              updated_at = 50;
            }
            ∷ root_of 2
            ∷ [];
        entries = [];
      },
      err 503,
    )
unfolding run_until_caught_up attempt coverage_reasoner coverage_context first_behind root_row
    backlog_of backlog_after coverage_entries apply_coverage_audit commit_audit cursor_row latest
    apply_edits apply_additions
raised_at_second = refl
