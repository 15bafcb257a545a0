-- ===== src/Reasoning/Rule.antt =====
-- A rule for `_apply_hypothesis_actions` (src/gossipmemo/store/_reasoning.py): what holds of a store
-- after it, when every single write keeps it.
use gossip_memo.Base.{
  ℕ, suc, Bool, true, false, not, Option, none, some, List, [], ◌∷◌, ◌++◌, ◌≡◌, ◌⊎◌, inl, inr, refl,
  ap, ◌==◌, any, ◌&&◌, arith, Bool-cases, Option-cases, List-cases,
}
use gossip_memo.People.{set_where}
use gossip_memo.People.Rows.{first_of-holds, first_of-Mem}
use gossip_memo.Coverage.Audit.{is_in}
use gossip_memo.Reasoning.{Owner, Hypothesis, Role, Store}
use gossip_memo.Reasoning.Hypotheses.{
  HypothesisUpsert, HypothesisTransition, HypothesisActions, is_open, is_same_owner, is_there,
  is_allowed, named, evidence_ids, add_evidence, open_by_id, open_by_content, write_hypothesis,
  rewritten, hypothesis_row, upsert_hypothesis, upsert_all, settled, transition_hypothesis,
  transition_all, apply_hypothesis_actions,
}
use mathlib.Core.List.{Memᴰ}

module _ {ℓ κ} (P : Store → Type ℓ) (IsDrawn : ℕ → Type κ)
    (updates : (s : Store) (h : Hypothesis) (id : ℕ) (f : Hypothesis → Hypothesis)
        (rows : List (ℕ × ℕ × Role))
      → Memᴰ h s.hypotheses
      → is_open h ≡ true
      → (h.id == id) ≡ true
      → ((x : Hypothesis) → (f x).id ≡ x.id)
      → P s
      → P (record s {
        hypotheses = set_where (λ (x : Hypothesis). x.id == id) f s.hypotheses;
        evidence = rows;
      }))
    (inserts : (s : Store) (h : Hypothesis) (rows : List (ℕ × ℕ × Role))
      → (any (λ (x : Hypothesis). x.id == h.id) s.hypotheses ≡ false) ⊎ IsDrawn h.id
      → P s
      → P (record s { hypotheses = s.hypotheses ++ h ∷ []; evidence = rows }))
    (inferred space : ℕ) (owner : Owner) (source_ids context : List ℕ) where
  -- What `fetchone` finds by the id or by the content stands in the table and is open.
  IsFound : Store → Option Hypothesis → Type 0
  IsFound s existing =
      (existing ≡ none)
      ⊎ ((h : Hypothesis) × (existing ≡ some h) × Memᴰ h s.hypotheses × (is_open h ≡ true))

  write-keeps :
      (now : ℕ) (existing : Option Hypothesis) (id : ℕ) (item : HypothesisUpsert) (known : List ℕ)
      (s : Store)
      → IsFound s existing
      → (existing ≡ none → (any (λ (x : Hypothesis). x.id == id) s.hypotheses ≡ false) ⊎ IsDrawn id)
      → P s
      → P (write_hypothesis space now owner existing id item known s)
  unfolding write_hypothesis IsFound
  write-keeps now existing id item known s found new p = elim found [
    | inl e ↦
        rw (e, write_hypothesis)
          (inserts s (hypothesis_row space id now owner item)
            (add_evidence id known item.evidence s.evidence) (new e) p)
    | inr (h, e, m, o) ↦
        rw (e, write_hypothesis)
          (updates s h h.id (rewritten now item) (add_evidence h.id known item.evidence s.evidence)
            m o (ground arith) (λ x. refl) p)
  ]

  by_id-IsFound : (s : Store) (id : ℕ) → IsFound s (open_by_id space owner id s.hypotheses)
  unfolding IsFound
  by_id-IsFound s id = elim (Option-cases (open_by_id space owner id s.hypotheses)) [
    | inl e ↦ inl e
    | inr (h, e) ↦
        let wanted : Hypothesis → Bool = λ (h : Hypothesis).
          ((h.id == id && h.space_id == space) && is_same_owner h.owner owner) && is_open h in
        let holds = first_of-holds wanted s.hypotheses h e in
        inr (h, e, first_of-Mem wanted s.hypotheses h e, ground (arith, holds))
  ]

  by_content-IsFound :
      (s : Store) (item : HypothesisUpsert)
      → IsFound s (open_by_content space owner item s.hypotheses)
  unfolding IsFound
  by_content-IsFound s item = elim (Option-cases (open_by_content space owner item s.hypotheses)) [
    | inl e ↦ inl e
    | inr (h, e) ↦
        let wanted : Hypothesis → Bool = λ (h : Hypothesis).
          (((h.space_id == space && is_same_owner h.owner owner) && is_open h)
            && h.kind == item.kind)
          && h.content == item.content in
        let holds = first_of-holds wanted s.hypotheses h e in
        inr (h, e, first_of-Mem wanted s.hypotheses h e, ground (arith, holds))
  ]

  upsert-keeps :
      (draw : ℕ × ℕ) (item : HypothesisUpsert) (s : Store)
      → IsDrawn draw.0
      → P s
      → P (upsert_hypothesis inferred space owner source_ids context draw item s)
  unfolding upsert_hypothesis
  upsert-keeps draw item s fresh p =
      elim (List-cases (evidence_ids inferred space source_ids item s)) [
        | inl e ↦ rw (e, upsert_hypothesis) p
        | inr (k, ks, e) ↦ elim (Option-cases (named item.hypothesis_id)) [
          | inl f ↦
              rw (e, f, upsert_hypothesis)
                (write-keeps draw.1 (open_by_content space owner item s.hypotheses) draw.0 item
                  (k ∷ ks) s (by_content-IsFound s item) (λ x. inr fresh) p)
          | inr (id, f) ↦
              let existing = open_by_id space owner id s.hypotheses in
              let taken =
                not (is_there existing) && any (λ (h : Hypothesis). h.id == id) s.hypotheses in
              elim (Bool-cases (is_in context id)) [
                | inl b ↦ elim (Bool-cases taken) [
                  | inl c ↦ rw (e, f, b, c, upsert_hypothesis) p
                  | inr c ↦
                      rw (e, f, b, c, upsert_hypothesis)
                        (write-keeps draw.1 existing id item (k ∷ ks) s (by_id-IsFound s id)
                          (λ x. let absent = ap is_there x in inl (ground (arith, c, absent))) p)
                ]
                | inr b ↦ rw (e, f, b, upsert_hypothesis) p
              ]
        ]
      ]

  upsert_all-keeps :
      (draw : ℕ → ℕ × ℕ) (items : List HypothesisUpsert) (s : Store)
      → ((n : ℕ) → IsDrawn (draw n).0)
      → P s
      → P (upsert_all inferred space owner source_ids context draw items s)
  unfolding upsert_all
  upsert_all-keeps draw [] s fresh p = p
  upsert_all-keeps draw (item ∷ items) s fresh p =
      upsert_all-keeps (λ n. draw (suc n)) items
        (upsert_hypothesis inferred space owner source_ids context (draw 0) item s)
        (λ n. fresh (suc n)) (upsert-keeps (draw 0) item s (fresh 0) p)

  transition-keeps :
      (now : ℕ) (step : HypothesisTransition) (s : Store)
      → P s
      → P (transition_hypothesis space owner context now step s)
  unfolding transition_hypothesis IsFound
  transition-keeps now step s p =
      let existing = open_by_id space owner step.hypothesis_id s.hypotheses in
      elim (Bool-cases (
        (is_in context step.hypothesis_id && is_there existing) && is_allowed space owner step s)) [
          | inl b ↦ elim (Option-cases existing) [
            | inl e ↦ let absent = ap is_there e in absurd (ground (arith, b, absent))
            | inr (h, e) ↦
                let wanted : Hypothesis → Bool = λ (h : Hypothesis).
                  ((h.id == step.hypothesis_id && h.space_id == space)
                    && is_same_owner h.owner owner)
                  && is_open h in
                let holds = first_of-holds wanted s.hypotheses h e in
                rw (b, transition_hypothesis)
                  (updates s h step.hypothesis_id (settled now step) s.evidence
                    (first_of-Mem wanted s.hypotheses h e) (ground (arith, holds))
                    (ground (arith, holds)) (λ x. refl) p)
          ]
          | inr b ↦ rw (b, transition_hypothesis) p
        ]

  transition_all-keeps :
      (now : ℕ → ℕ) (steps : List HypothesisTransition) (s : Store)
      → P s
      → P (transition_all space owner context now steps s)
  unfolding transition_all
  transition_all-keeps now [] s p = p
  transition_all-keeps now (step ∷ steps) s p =
      transition_all-keeps (λ n. now (suc n)) steps
        (transition_hypothesis space owner context (now 0) step s)
        (transition-keeps (now 0) step s p)

  -- The rule
  pub apply_hypothesis_actions-keeps :
      (draw : ℕ → ℕ × ℕ) (now : ℕ → ℕ) (actions : HypothesisActions) (s : Store)
      → ((n : ℕ) → IsDrawn (draw n).0)
      → P s
      → P (apply_hypothesis_actions inferred space owner source_ids context draw now actions s)
  unfolding apply_hypothesis_actions
  apply_hypothesis_actions-keeps draw now actions s fresh p =
      transition_all-keeps now actions.transitions _
        (upsert_all-keeps draw actions.upserts s fresh p)
