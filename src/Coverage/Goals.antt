-- ===== src/Coverage/Goals.antt =====
-- Learning goals and their planning: src/gossipmemo/store/_coverage.py. `matched` stands for
-- `_match_people` on the text of a prompt and a rationale: the ids of the people it names.
use gossip_memo.Base.{
  ℕ, zero, suc, Bool, true, false, not, Option, none, some, List, [], ◌∷◌, ◌++◌, ◌==◌, ltb, any,
  map, keep, take, ◌&&◌, if◌then◌else◌,
}
use gossip_memo.Base.Sorting.{sort_by}
use gossip_memo.People.{set_where}
use gossip_memo.Coverage.{
  CoverageEntry, CoverageTables, coverage_entries, coverage_revision, unique,
}
use gossip_memo.Coverage.Audit.{is_in}

-- The values of learning_goals.status
pub data GoalStatus : Type 0 where
  open_ partial answered deferred retired : GoalStatus

-- focus_kind with focus_id: ('user', NULL) or ('person', the id)
pub data Focus : Type 0 where
  user_focus : Focus
  person_focus relationship_focus : ℕ → Focus

pub record LearningGoal : Type 0 where
  pub id : ℕ
  pub space_id : ℕ
  pub prompt : ℕ
  pub rationale : ℕ
  pub entry_ids : List ℕ
  pub focus : Focus
  pub status : GoalStatus
  pub status_reason : Option ℕ
  pub created_at : ℕ
  pub updated_at : ℕ

pub record GoalUpsert : Type 0 where
  pub goal_id : Option ℕ
  pub prompt : ℕ
  pub rationale : ℕ
  pub entry_ids : List ℕ

pub record GoalTransition : Type 0 where
  pub goal_id : ℕ
  pub status : GoalStatus
  pub reason : ℕ

pub record GoalPlanning : Type 0 where
  pub upserts : List GoalUpsert
  pub transitions : List GoalTransition

abbrev pub is_open : LearningGoal → Bool
is_open g = elim g.status [ open_ ↦ true | _ ↦ false ]

-- `status IN ('open', 'partial')`
abbrev pub is_pursued : LearningGoal → Bool
is_pursued g = elim g.status [ open_ ↦ true | partial ↦ true | _ ↦ false ]

-- Goals that stand later by `updated_at DESC`
abbrev pub goal_before : LearningGoal → LearningGoal → Bool
goal_before a b = ltb b.updated_at a.updated_at

-- `learning_goal_context`
unfoldable pub learning_goal_context :
    ℕ
    → CoverageTables
    → List LearningGoal
    → Option (ℕ × List CoverageEntry × List LearningGoal × List LearningGoal)
unfolding coverage_revision coverage_entries
learning_goal_context space t goals =
    let sorted = sort_by goal_before (keep (λ (g : LearningGoal). g.space_id == space) goals) in
    elim (coverage_revision space t) [
      | none ↦ none
      | some revision ↦ some (
        revision,
        coverage_entries space none t,
        keep is_pursued sorted,
        take 20 (keep (λ g. not (is_pursued g)) sorted),
      )
    ]

abbrev pub goal_focus : List ℕ → Focus
goal_focus (person ∷ []) = person_focus person
goal_focus _ = user_focus

-- A goal id that is there and not the empty text
abbrev pub named_goal : Option ℕ → Option ℕ
named_goal none = none
named_goal (some zero) = none
named_goal (some (suc id)) = some (suc id)

-- One step of the loop over the upserts; `drawn` counts the ids that `id_of` has given.
unfoldable pub upsert_goal :
    (matched : ℕ → ℕ → List ℕ)
    → (id_of : ℕ → ℕ) → (drawn now space : ℕ) → (known context : List ℕ) → GoalUpsert
    → List LearningGoal
    → List LearningGoal × ℕ
upsert_goal matched id_of drawn now space known context item goals =
    let entry_ids = keep (is_in known) (unique item.entry_ids) in
    let focus = goal_focus (matched item.prompt item.rationale) in
    let duplicate =
      any (λ (g : LearningGoal). (g.space_id == space && g.prompt == item.prompt) && is_open g)
        goals in
    elim (named_goal item.goal_id) [
      | some id ↦ (
        if is_in context id
            then set_where (λ (g : LearningGoal). g.id == id && g.space_id == space)
                (λ g. record g {
                  prompt = item.prompt;
                  rationale = item.rationale;
                  entry_ids = entry_ids;
                  focus = focus;
                  updated_at = now;
                })
                goals
            else goals,
        drawn,
      )
      | none ↦ if duplicate then (goals, drawn) else (
        goals
            ++ record {
              id = id_of drawn;
              space_id = space;
              prompt = item.prompt;
              rationale = item.rationale;
              entry_ids = entry_ids;
              focus = focus;
              status = open_;
              status_reason = none;
              created_at = now;
              updated_at = now;
            }
              ∷ [],
        suc drawn,
      )
    ]

unfoldable pub upsert_goals :
    (matched : ℕ → ℕ → List ℕ)
    → (id_of : ℕ → ℕ) → (drawn now space : ℕ) → (known context : List ℕ) → List GoalUpsert
    → List LearningGoal
    → List LearningGoal
unfolding upsert_goal
upsert_goals matched id_of drawn now space known context [] goals = goals
upsert_goals matched id_of drawn now space known context (item ∷ items) goals =
    let (next, count) = upsert_goal matched id_of drawn now space known context item goals in
    upsert_goals matched id_of count now space known context items next

unfoldable pub transition_goals :
    (now space : ℕ) → List ℕ → List GoalTransition → List LearningGoal → List LearningGoal
transition_goals now space context [] goals = goals
transition_goals now space context (step ∷ steps) goals = transition_goals now space context steps (
    if is_in context step.goal_id
    then set_where (λ (g : LearningGoal). g.id == step.goal_id && g.space_id == space)
        (λ g. record g { status = step.status; status_reason = some step.reason; updated_at = now })
        goals
    else goals)

unfoldable pub apply_goal_planning :
    (matched : ℕ → ℕ → List ℕ)
    → (id_of : ℕ → ℕ) → (now space expected : ℕ) → GoalPlanning
    → List ℕ
    → CoverageTables
    → List LearningGoal
    → List LearningGoal × Bool
unfolding coverage_revision coverage_entries upsert_goals transition_goals
apply_goal_planning matched id_of now space expected plan context t goals =
    let known = map (λ (e : CoverageEntry). e.id) (coverage_entries space none t) in
    elim (coverage_revision space t) [
      | none ↦ (goals, false)
      | some revision ↦
          if revision == expected
          then (
            transition_goals now space context plan.transitions
                (upsert_goals matched id_of 0 now space known context plan.upserts goals),
            true,
          )
          else (goals, false)
    ]
