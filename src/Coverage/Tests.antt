-- ===== src/Coverage/Tests.antt =====
-- Runs of audits and plans, and the theorems at concrete inputs.
use gossip_memo.Base.{ℕ, ◌+◌, Bool, true, false, none, some, List, [], ◌∷◌, ◌++◌, ◌≡◌, refl}
use gossip_memo.People.{Memory, human}
use gossip_memo.People.{MemoryStatus as MemoryStatus}
use gossip_memo.Coverage.{
  CoverageRoot, CoverageEntry, active, CoverageTables, coverage_context, first_behind, root_row,
  backlog_of, backlog_after, coverage_entries, coverage_revision, revision_sum,
}
use gossip_memo.Coverage.Audit.{
  CoverageAudit, apply_coverage_audit, commit_audit, apply_edits, apply_additions, cursor_row,
  latest,
}
use gossip_memo.Coverage.Keys.{HasDistinctIds}
use gossip_memo.Coverage.Reading.{AuditStep, AuditRun, queue_of, read_of, run-queue_of}
use gossip_memo.Coverage.Goals.{
  LearningGoal, GoalPlanning, open_, answered, user_focus, apply_goal_planning, upsert_goals,
  upsert_goal, transition_goals,
}
use gossip_memo.Coverage.Revision.{apply_goal_planning-apply_coverage_audit}
use gossip_memo.Coverage.Kept.{apply_goal_planning-Mem, apply_coverage_audit-Mem}
use gossip_memo.Coverage.Skipped.{apply_coverage_audit-skips}
use mathlib.Core.List.{Memᴰ}

abbrev known_at : ℕ → ℕ → Memory
known_at id at = record {
  id = id;
  space_id = 7;
  content = 60;
  kind = 1;
  basis = 2;
  about_user = false;
  status = MemoryStatus.active;
  valid_from = none;
  valid_to = none;
  supersedes = none;
  invalidated_at = none;
  invalidation_reason = none;
  source_batch = none;
  created_by = human;
  created_at = 1;
  updated_at = at;
}

abbrev root_of : ℕ → CoverageRoot
root_of name = record {
  space_id = 7;
  root = name;
  revision = 0;
  source_watermark = none;
  source_cursor_id = none;
  updated_at = 1;
}

abbrev entry_of : ℕ → ℕ → CoverageEntry
entry_of id root = record {
  id = id;
  space_id = 7;
  root = root;
  path = 3;
  content = 4;
  status = active;
  created_at = 1;
  updated_at = 1;
}

-- Two roots and three memories, none of which is read
abbrev unread_tables : CoverageTables
unread_tables = record {
  roots = root_of 1 ∷ root_of 2 ∷ [];
  entries = entry_of 41 1 ∷ entry_of 42 1 ∷ [];
}

abbrev three_known : List Memory
three_known = known_at 31 10 ∷ known_at 32 8 ∷ known_at 33 10 ∷ []

abbrev finding : CoverageAudit
finding = record {
  additions = record { path = 3; content = 5 } ∷ [];
  modifications = record { entry_id = 41; content = 6; path = none; status = active } ∷ [];
}

abbrev fresh_entry : ℕ → ℕ
fresh_entry n = n + 500

abbrev audited : List ℕ → List ℕ → CoverageTables → CoverageTables × Bool
audited chunk context t =
    apply_coverage_audit fresh_entry 50 7 1 none none finding chunk context three_known t

audited-cursor :
    root_row 7 1 (audited (32 ∷ 31 ∷ []) (41 ∷ []) unread_tables).0.roots
    ≡ some (record (root_of 1) {
      revision = 1;
      source_watermark = some 10;
      source_cursor_id = some 31;
      updated_at = 50;
    })
unfolding apply_coverage_audit commit_audit root_row cursor_row latest
audited-cursor = refl

audited-entries :
    (audited (32 ∷ 31 ∷ []) (41 ∷ []) unread_tables).0.entries
    ≡ record (entry_of 41 1) { content = 6; updated_at = 50 }
      ∷ entry_of 42 1
      ∷ record (entry_of 500 1) { content = 5; created_at = 50; updated_at = 50 }
      ∷ []
unfolding apply_coverage_audit commit_audit root_row apply_edits apply_additions coverage_entries
audited-entries = refl

context_unread :
    coverage_context 9 (1 ∷ 2 ∷ []) 7 (some 400) three_known unread_tables
    ≡ some (
      root_of 1,
      entry_of 41 1 ∷ entry_of 42 1 ∷ [],
      (known_at 32 8 ∷ known_at 31 10 ∷ []) ++ known_at 33 10 ∷ [],
    )
unfolding coverage_context first_behind root_row backlog_of backlog_after coverage_entries
context_unread = refl

abbrev first_step : CoverageTables
first_step = (audited (32 ∷ 31 ∷ []) (41 ∷ []) unread_tables).0

distinct_three : HasDistinctIds three_known
distinct_three = ((refl, (refl, tt)), ((refl, tt), (tt, tt)))

-- One attempt reads two memories; another, with the same context, comes too late.
two_attempts :
    AuditRun fresh_entry 9
      (1 ∷ 2 ∷ [])
      7
      (some 400)
      three_known
      unread_tables
      ((1, known_at 32 8 ∷ known_at 31 10 ∷ []) ∷ (1, []) ∷ [])
      first_step
unfolding apply_coverage_audit commit_audit root_row cursor_row latest
two_attempts =
    AuditRun.next
      (AuditStep.attempt unread_tables (root_of 1) (entry_of 41 1 ∷ entry_of 42 1 ∷ [])
        (known_at 32 8 ∷ []) (known_at 31 10) (known_at 33 10 ∷ []) 50 finding (41 ∷ [])
        context_unread refl)
      (AuditRun.next
        (AuditStep.attempt unread_tables (root_of 1) (entry_of 41 1 ∷ entry_of 42 1 ∷ [])
          (known_at 32 8 ∷ []) (known_at 31 10) (known_at 33 10 ∷ []) 60 finding (41 ∷ [])
          context_unread refl)
        AuditRun.done)

run-queue_of_example :
    queue_of 9 7 three_known unread_tables 1
    ≡ read_of 1 ((1, known_at 32 8 ∷ known_at 31 10 ∷ []) ∷ (1, []) ∷ [])
      ++ queue_of 9 7 three_known first_step 1
run-queue_of_example =
    run-queue_of fresh_entry 9 (1 ∷ 2 ∷ []) 7 (some 400) three_known distinct_three unread_tables
      first_step ((1, known_at 32 8 ∷ known_at 31 10 ∷ []) ∷ (1, []) ∷ []) 1 two_attempts

-- What that run leaves of the first root
first_step-queue : queue_of 9 7 three_known first_step 1 ≡ known_at 33 10 ∷ []
unfolding apply_coverage_audit commit_audit root_row cursor_row latest queue_of backlog_of
    backlog_after
first_step-queue = refl

first_step-committed : (audited (32 ∷ 31 ∷ []) (41 ∷ []) unread_tables).1 ≡ true
unfolding apply_coverage_audit root_row
first_step-committed = refl

abbrev goal_of : ℕ → LearningGoal
goal_of id = record {
  id = id;
  space_id = 7;
  prompt = 70;
  rationale = 71;
  entry_ids = [];
  focus = user_focus;
  status = open_;
  status_reason = none;
  created_at = 1;
  updated_at = 1;
}

-- The upsert of the same prompt is dropped, the transition of the goal that was not shown too.
abbrev plan : GoalPlanning
plan = record {
  upserts = record { goal_id = none; prompt = 70; rationale = 72; entry_ids = [] } ∷ [];
  transitions =
      record { goal_id = 81; status = answered; reason = 73 }
      ∷ record { goal_id = 82; status = answered; reason = 73 }
      ∷ [];
}

abbrev nobody : ℕ → ℕ → List ℕ
nobody prompt rationale = []

planned :
    apply_goal_planning nobody fresh_entry 60 7 0 plan
      (81 ∷ [])
      unread_tables
      (goal_of 81 ∷ goal_of 82 ∷ [])
    ≡ (
      record (goal_of 81) { status = answered; status_reason = some 73; updated_at = 60 }
          ∷ goal_of 82
          ∷ [],
      true,
    )
unfolding apply_goal_planning coverage_revision revision_sum upsert_goals upsert_goal
    transition_goals
planned = refl

revision_unread : coverage_revision 7 unread_tables ≡ some 0
unfolding coverage_revision revision_sum
revision_unread = refl

apply_goal_planning-apply_coverage_audit_example :
    apply_goal_planning nobody fresh_entry 60 7 0 plan
      (81 ∷ [])
      first_step
      (goal_of 81 ∷ goal_of 82 ∷ [])
    ≡ (goal_of 81 ∷ goal_of 82 ∷ [], false)
apply_goal_planning-apply_coverage_audit_example =
    apply_goal_planning-apply_coverage_audit fresh_entry 50 7 1 none none finding (32 ∷ 31 ∷ [])
      (41 ∷ []) three_known unread_tables nobody fresh_entry 60 0 plan (81 ∷ [])
      (goal_of 81 ∷ goal_of 82 ∷ []) first_step-committed revision_unread

apply_goal_planning-Mem_example :
    Memᴰ
      (goal_of 82)
      (apply_goal_planning nobody fresh_entry 60 7 0 plan
        (81 ∷ [])
        unread_tables
        (goal_of 81 ∷ goal_of 82 ∷ [])).0
apply_goal_planning-Mem_example =
    apply_goal_planning-Mem 7 (81 ∷ []) (goal_of 82) refl nobody fresh_entry 60 0 plan unread_tables
      (goal_of 81 ∷ goal_of 82 ∷ []) (Memᴰ.tail (Memᴰ.head refl))

apply_coverage_audit-Mem_example :
    Memᴰ (entry_of 42 1) (audited (32 ∷ 31 ∷ []) (41 ∷ []) unread_tables).0.entries
apply_coverage_audit-Mem_example =
    apply_coverage_audit-Mem (41 ∷ []) (entry_of 42 1) refl fresh_entry 50 7 1 none none finding
      (32 ∷ 31 ∷ []) three_known unread_tables (Memᴰ.tail (Memᴰ.head refl))

-- The memory 32 of the chunk was touched at 20, after it was read at 8 and before the commit: 31 and
-- 33, which no audit read, are stepped over.
abbrev touched : List Memory
touched = known_at 31 10 ∷ known_at 32 20 ∷ known_at 33 10 ∷ []

touched-cursor : cursor_row (32 ∷ []) touched ≡ some (known_at 32 20)
unfolding cursor_row latest
touched-cursor = refl

unread_row : root_row 7 1 unread_tables.roots ≡ some (root_of 1)
unfolding root_row
unread_row = refl

apply_coverage_audit-skips_example : ¬ Memᴰ (known_at 33 10) (
    queue_of 9 7 touched
      (apply_coverage_audit fresh_entry 50 7 1 none none finding
        (32 ∷ [])
        (41 ∷ [])
        touched
        unread_tables).0
      1)
apply_coverage_audit-skips_example =
    apply_coverage_audit-skips fresh_entry 9 50 7 1 finding (32 ∷ []) (41 ∷ []) touched
      unread_tables (root_of 1) (known_at 32 20) (known_at 33 10) unread_row touched-cursor refl

-- It was in the queue before the commit.
touched-unread :
    queue_of 9 7 touched unread_tables 1 ≡ known_at 31 10 ∷ known_at 33 10 ∷ known_at 32 20 ∷ []
unfolding queue_of root_row backlog_of backlog_after
touched-unread = refl
