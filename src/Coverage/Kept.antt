-- ===== src/Coverage/Kept.antt =====
-- What planning and auditing leave alone: the goals and the entries that the model was not shown.
use gossip_memo.Base.{
  ℕ, Bool, true, false, List, [], ◌∷◌, ◌≡◌, inl, inr, refl, ap, ◌==◌, ◌&&◌, Option, none, some,
  arith, ==_iff, map, any, Bool-cases, Option-cases,
}
use gossip_memo.People.Rows.{set_where-Mem, append-Mem-left}
use gossip_memo.People.{Memory, set_where}
use gossip_memo.Coverage.{CoverageEntry, CoverageTables, coverage_entries, coverage_revision}
use gossip_memo.Coverage.Audit.{
  CoverageAudit, EntryEdit, EntryAddition, is_in, apply_edits, apply_additions, commit_audit,
  apply_coverage_audit, edited,
}
use gossip_memo.Coverage.Cursor.{apply_coverage_audit-lost}
use gossip_memo.Coverage.Goals.{
  GoalUpsert, GoalTransition, GoalPlanning, LearningGoal, named_goal, is_open, upsert_goal,
  upsert_goals, transition_goals, apply_goal_planning,
}
use mathlib.Core.List.{Memᴰ}

module _ (space : ℕ) (context : List ℕ) (g : LearningGoal)
    (hidden : (is_in context g.id && g.space_id == space) ≡ false) where
  -- An UPDATE of one goal of the space whose id is in the context
  set_goal-Mem :
      (id : ℕ) (f : LearningGoal → LearningGoal) (goals : List LearningGoal)
      → is_in context id ≡ true
      → Memᴰ g goals
      → Memᴰ g (set_where (λ (x : LearningGoal). x.id == id && x.space_id == space) f goals)
  set_goal-Mem id f goals b m =
      set_where-Mem (λ (x : LearningGoal). x.id == id && x.space_id == space) f m
        (elim (Bool-cases (g.id == id)) [
          | inl e ↦
              let same = ap (is_in context) ((==_iff g.id id).0 e) in
              ground (arith, e, hidden, same, b)
          | inr e ↦ rw e refl
        ])

  upsert_goal-Mem :
      (matched : ℕ → ℕ → List ℕ) (id_of : ℕ → ℕ) (drawn now : ℕ) (known : List ℕ)
      (item : GoalUpsert) (goals : List LearningGoal)
      → Memᴰ g goals
      → Memᴰ g (upsert_goal matched id_of drawn now space known context item goals).0
  unfolding upsert_goal
  upsert_goal-Mem matched id_of drawn now known item goals m =
      let open_same =
        any (λ (x : LearningGoal). (x.space_id == space && x.prompt == item.prompt) && is_open x)
          goals in
      elim (Option-cases (named_goal item.goal_id)) [
        | inl e ↦ elim (Bool-cases open_same) [
          | inl d ↦ rw (e, d, upsert_goal) m
          | inr d ↦ rw (e, d, upsert_goal) (append-Mem-left goals _ m)
        ]
        | inr (id, e) ↦ elim (Bool-cases (is_in context id)) [
          | inl b ↦ rw (e, b, upsert_goal) (set_goal-Mem id _ goals b m)
          | inr b ↦ rw (e, b, upsert_goal) m
        ]
      ]

  upsert_goals-Mem :
      (matched : ℕ → ℕ → List ℕ) (id_of : ℕ → ℕ) (drawn now : ℕ) (known : List ℕ)
      (items : List GoalUpsert) (goals : List LearningGoal)
      → Memᴰ g goals
      → Memᴰ g (upsert_goals matched id_of drawn now space known context items goals)
  unfolding upsert_goals
  upsert_goals-Mem matched id_of drawn now known [] goals m = m
  upsert_goals-Mem matched id_of drawn now known (item ∷ items) goals m =
      let done = upsert_goal matched id_of drawn now space known context item goals in
      upsert_goals-Mem matched id_of done.1 now known items done.0
        (upsert_goal-Mem matched id_of drawn now known item goals m)

  transition_goals-Mem :
      (now : ℕ) (steps : List GoalTransition) (goals : List LearningGoal)
      → Memᴰ g goals
      → Memᴰ g (transition_goals now space context steps goals)
  unfolding transition_goals
  transition_goals-Mem now [] goals m = m
  transition_goals-Mem now (step ∷ steps) goals m = elim (Bool-cases (is_in context step.goal_id)) [
    | inl b ↦ rw b (transition_goals-Mem now steps _ (set_goal-Mem step.goal_id _ goals b m))
    | inr b ↦ rw b (transition_goals-Mem now steps goals m)
  ]

  -- Planning leaves a goal that its context did not show, or that is another space's, as it is.
  pub apply_goal_planning-Mem :
      (matched : ℕ → ℕ → List ℕ) (id_of : ℕ → ℕ) (now expected : ℕ) (plan : GoalPlanning)
      (t : CoverageTables) (goals : List LearningGoal)
      → Memᴰ g goals
      → Memᴰ g (apply_goal_planning matched id_of now space expected plan context t goals).0
  unfolding apply_goal_planning
  apply_goal_planning-Mem matched id_of now expected plan t goals m =
      let known = map (λ (e : CoverageEntry). e.id) (coverage_entries space none t) in
      elim (Option-cases (coverage_revision space t)) [
        | inl e ↦ rw (e, apply_goal_planning) m
        | inr (revision, e) ↦ elim (Bool-cases (revision == expected)) [
          | inl b ↦
              rw (e, b, apply_goal_planning)
                (transition_goals-Mem now plan.transitions _
                  (upsert_goals-Mem matched id_of 0 now known plan.upserts goals m))
          | inr b ↦ rw (e, b, apply_goal_planning) m
        ]
      ]

module _ (context : List ℕ) (e : CoverageEntry) (hidden : is_in context e.id ≡ false) where
  apply_edits-Mem :
      (now space : ℕ) (edits : List EntryEdit) (table entries : List CoverageEntry)
      → Memᴰ e table
      → Memᴰ e (apply_edits now space context edits table entries).0
  unfolding apply_edits
  apply_edits-Mem now space [] table entries m = m
  apply_edits-Mem now space (edit ∷ edits) table entries m =
      let named : CoverageEntry → Bool = λ x. x.id == edit.entry_id && x.space_id == space in
      elim (Bool-cases (is_in context edit.entry_id && any (λ x. x.id == edit.entry_id) entries)) [
        | inl b ↦
            let differs : (e.id == edit.entry_id) ≡ false =
              elim (Bool-cases (e.id == edit.entry_id)) [
                | inl same ↦
                    let shown = ap (is_in context) ((==_iff e.id edit.entry_id).0 same) in
                    ground (arith, hidden, shown, b)
                | inr other ↦ other
              ] in
            rw (b, apply_edits)
              (apply_edits-Mem now space edits _ _
                (set_where-Mem named (edited now edit) m (rw differs refl)))
        | inr b ↦ rw (b, apply_edits) (apply_edits-Mem now space edits table entries m)
      ]

  apply_additions-Mem :
      (id_of : ℕ → ℕ) (drawn now space root : ℕ) (added : List EntryAddition)
      (table : List CoverageEntry) (existing : List (ℕ × ℕ))
      → Memᴰ e table
      → Memᴰ e (apply_additions id_of drawn now space root added table existing)
  unfolding apply_additions
  apply_additions-Mem id_of drawn now space root [] table existing m = m
  apply_additions-Mem id_of drawn now space root (a ∷ added) table existing m =
      elim (Bool-cases (any (λ (p : ℕ × ℕ). p.0 == a.path && p.1 == a.content) existing)) [
        | inl b ↦ rw b (apply_additions-Mem id_of drawn now space root added table existing m)
        | inr b ↦
            rw b (apply_additions-Mem id_of _ now space root added _ _ (append-Mem-left table _ m))
      ]

  -- An audit leaves an entry that its context did not show as it is.
  pub apply_coverage_audit-Mem :
      (id_of : ℕ → ℕ) (now space root : ℕ) (w c : Option ℕ) (audit : CoverageAudit) (chunk : List ℕ)
      (memories : List Memory) (t : CoverageTables)
      → Memᴰ e t.entries
      → Memᴰ e
          (apply_coverage_audit id_of now space root w c audit chunk context memories t).0.entries
  unfolding apply_coverage_audit commit_audit
  apply_coverage_audit-Mem id_of now space root w c audit chunk memories t m =
      let table =
        apply_edits-Mem now space audit.modifications t.entries
          (coverage_entries space (some root) t) m in
      elim (apply_coverage_audit-lost id_of now space root w c audit chunk context memories t) [
        | inl f ↦ rw f m
        | inr (row, f, g, h) ↦
            rw (f, g, h, apply_coverage_audit)
              (apply_additions-Mem id_of 0 now space root audit.additions _ _ table)
      ]
