-- ===== src/Reasoning/Closed.antt =====
-- A hypothesis that is no longer open is final for `_apply_hypothesis_actions`
-- (src/gossipmemo/store/_reasoning.py).
use gossip_memo.Base.{
  ℕ, true, false, List, [], ◌∷◌, ◌≡◌, inl, inr, sym, ap, ◌∙◌, ◌==◌, any, arith, Bool-cases, All,
  All-lookup, All-append,
}
use gossip_memo.People.{set_where}
use gossip_memo.People.Rows.{set_where-Mem, append-Mem-left}
use gossip_memo.Reasoning.{Owner, Hypothesis, Store}
use gossip_memo.Reasoning.Hypotheses.{HypothesisActions, is_open, apply_hypothesis_actions}
use gossip_memo.Reasoning.Rule.{apply_hypothesis_actions-keeps}
use mathlib.Core.List.{Memᴰ}
use mathlib.Core.Bool.{false≢true}

module _ (h : Hypothesis) where
  -- It stands in the table, and what has its id there is not open.
  abbrev IsFinal : Store → Type 0
  IsFinal s =
      Memᴰ h s.hypotheses
      × All (λ (x : Hypothesis). (x.id == h.id) ≡ true → is_open x ≡ false) s.hypotheses

  set_where-closed :
      (id : ℕ) (f : Hypothesis → Hypothesis) (rows : List Hypothesis)
      → ((x : Hypothesis) → (f x).id ≡ x.id)
      → (id == h.id) ≡ false
      → All (λ (x : Hypothesis). (x.id == h.id) ≡ true → is_open x ≡ false) rows
      → All
          (λ (x : Hypothesis). (x.id == h.id) ≡ true → is_open x ≡ false)
          (set_where (λ (x : Hypothesis). x.id == id) f rows)
  set_where-closed id f [] k n a = tt
  set_where-closed id f (x ∷ rows) k n a =
      let rest = set_where-closed id f rows k n a.1 in
      elim (Bool-cases (x.id == id)) [
        | inl b ↦ rw b ((λ e. let same = k x in absurd (ground (arith, b, n, e, same))), rest)
        | inr b ↦ rw b (a.0, rest)
      ]

  any-differs :
      (id : ℕ) {rows : List Hypothesis}
      → Memᴰ h rows
      → any (λ (x : Hypothesis). x.id == id) rows ≡ false
      → (id == h.id) ≡ false
  any-differs id (Memᴰ.head {x = y} {xs} e) k =
      let same = ap (λ (x : Hypothesis). x.id == id) e in ground (arith, k, same)
  any-differs id (Memᴰ.tail m) k = any-differs id m (ground (arith, k))

  -- A hypothesis that is not open stays as it is, whatever a reasoner's result says of it, when what
  -- has its id in the table is not open and no drawn id is its own.
  pub apply_hypothesis_actions-Mem :
      (inferred space : ℕ) (owner : Owner) (source_ids context : List ℕ) (draw : ℕ → ℕ × ℕ)
      (now : ℕ → ℕ) (actions : HypothesisActions) (s : Store)
      → Memᴰ h s.hypotheses
      → All (λ (x : Hypothesis). (x.id == h.id) ≡ true → is_open x ≡ false) s.hypotheses
      → ((n : ℕ) → ((draw n).0 == h.id) ≡ false)
      → Memᴰ h
          (apply_hypothesis_actions inferred space owner source_ids context draw now actions
            s).hypotheses
  apply_hypothesis_actions-Mem inferred space owner source_ids context draw now actions s m a
        fresh =
      (apply_hypothesis_actions-keeps {0, 0} IsFinal (λ id. (id == h.id) ≡ false)
        (λ t g id f rows k o e i p.
          let n = differs g id t k o e p in
          (
            set_where-Mem (λ (x : Hypothesis). x.id == id) f p.0 (ground (arith, n)),
            set_where-closed id f t.hypotheses i n p.1,
          ))
        (λ t g rows k p.
          let n : (g.id == h.id) ≡ false = elim k [ inl c ↦ any-differs g.id p.0 c | inr c ↦ c ] in
          (
            append-Mem-left t.hypotheses (g ∷ []) p.0,
            All-append (λ (x : Hypothesis). (x.id == h.id) ≡ true → is_open x ≡ false) t.hypotheses
                (g ∷ []) p.1 ((λ e. absurd (ground (arith, n, e))), tt),
          ))
        inferred space owner source_ids context draw now actions s fresh (m, a)).0
    where
      differs :
          (g : Hypothesis) (id : ℕ) (t : Store)
          → Memᴰ g t.hypotheses
          → is_open g ≡ true
          → (g.id == id) ≡ true
          → IsFinal t
          → (id == h.id) ≡ false
      differs g id t k o e p = elim (Bool-cases (id == h.id)) [
        | inl b ↦
            let closed =
              All-lookup (λ (x : Hypothesis). (x.id == h.id) ≡ true → is_open x ≡ false) p.1 k
                (ground (arith, b, e)) in
            absurd (false≢true (sym closed ∙ o))
        | inr b ↦ b
      ]
