-- ===== src/Reasoning/Evidence.antt =====
-- The actions of a reasoner leave the evidence as it is: only inferred memories are added or
-- retracted, so the watermarks stay (src/gossipmemo/store/_reasoning.py).
use gossip_memo.Base.{
  ℕ, Bool, true, false, not, List, [], ◌∷◌, ◌≡◌, inl, inr, refl, sym, ap, ◌∙◌, ◌==◌, any, keep,
  ◌&&◌, arith, Bool-cases, All, All-lookup, All-intro, any-Mem, ==_iff, keep-Mem, keep-Mem-inv,
}
use gossip_memo.People.{Memory, set_where}
use gossip_memo.Coverage.Audit.{is_in}
use gossip_memo.Coverage.Keys.{HasDistinctIds}
use gossip_memo.Coverage.Latest.{ids, same_id, is_in-Mem, Mem-is_in}
use gossip_memo.Reasoning.{
  Owner, Store, is_active_memory, is_owned, is_about_person, is_about_relationship,
}
use gossip_memo.Reasoning.Inferred.{InferredRetraction, withdrawn, retract_inferred}
use mathlib.Core.List.{Memᴰ}
use mathlib.Core.Path.{subst}

abbrev pub evidence_of : ℕ → Store → List Memory
evidence_of inferred s = keep (λ (m : Memory). not (m.basis == inferred)) s.graph.memories

-- `s` has the evidence of the store `origin`, with the same links, and the same people and
-- relationships; no inferred memory has the id of an evidence.
pub record IsSameEvidence (inferred : ℕ) (origin s : Store) : Type 0 where
  pub evidence : evidence_of inferred s ≡ evidence_of inferred origin
  pub apart :
      All
        (λ (m : Memory).
          (m.basis == inferred) ≡ true → is_in (ids (evidence_of inferred origin)) m.id ≡ false)
        s.graph.memories
  pub people_links :
      (person id : ℕ)
      → is_in (ids (evidence_of inferred origin)) id ≡ true
      → is_about_person s.graph person id ≡ is_about_person origin.graph person id
  pub relationship_links :
      (relationship id : ℕ)
      → is_in (ids (evidence_of inferred origin)) id ≡ true
      → is_about_relationship s.graph relationship id
        ≡ is_about_relationship origin.graph relationship id
  pub people : s.graph.people ≡ origin.graph.people
  pub relationships : s.graph.relationships ≡ origin.graph.relationships

-- A store is its own, when the ids of its memories are a key.
pub IsSameEvidence-start :
    (inferred : ℕ) (s : Store) → HasDistinctIds s.graph.memories → IsSameEvidence inferred s s
IsSameEvidence-start inferred s d = record {
  evidence = refl;
  apart =
      All-intro
        (λ (m : Memory).
          (m.basis == inferred) ≡ true → is_in (ids (evidence_of inferred s)) m.id ≡ false)
        s.graph.memories
        (λ m i b. elim (Bool-cases (is_in (ids (evidence_of inferred s)) m.id)) [
          | inl h ↦
              let (y, n, e) = is_in-Mem (evidence_of inferred s) m.id h in
              let (k, c) =
                keep-Mem-inv (λ (m : Memory). not (m.basis == inferred)) s.graph.memories n in
              let same =
                ap (λ (v : Memory). v.basis == inferred) (same_id m y s.graph.memories d i k e) in
              absurd (ground (arith, b, c, same))
          | inr h ↦ h
        ]);
  people_links = λ person id h. refl;
  relationship_links = λ relationship id h. refl;
  people = refl;
  relationships = refl;
}

-- An UPDATE of inferred memories that leaves their bases
keep-set_where :
    (inferred : ℕ) (p : Memory → Bool) (f : Memory → Memory) (ms : List Memory)
    → ((m : Memory) → (f m).basis ≡ m.basis)
    → All (λ m. p m ≡ true → (m.basis == inferred) ≡ true) ms
    → keep (λ (m : Memory). not (m.basis == inferred)) (set_where p f ms)
      ≡ keep (λ (m : Memory). not (m.basis == inferred)) ms
keep-set_where inferred p f [] h a = refl
keep-set_where inferred p f (m ∷ ms) h a =
    let rest = keep-set_where inferred p f ms h a.1 in
    elim (Bool-cases (p m)) [
      | inl b ↦ ground (arith, b, rest, h m, a.0 b)
      | inr b ↦ ground (arith, b, rest)
    ]

module _ (inferred : ℕ) (origin : Store) where
  -- The ids of the evidence
  abbrev pub known : List ℕ
  known = ids (evidence_of inferred origin)

  -- A memory with the id of an inferred one is inferred.
  inferred_id :
      (s : Store)
      → IsSameEvidence inferred origin s
      → (x m : Memory) → Memᴰ x s.graph.memories
      → Memᴰ m s.graph.memories
      → (x.basis == inferred) ≡ true
      → (m.id == x.id) ≡ true
      → (m.basis == inferred) ≡ true
  inferred_id s same x m i k b e = elim (Bool-cases (m.basis == inferred)) [
    | inl c ↦ c
    | inr c ↦
        let away =
          All-lookup (λ (m : Memory). (m.basis == inferred) ≡ true → is_in known m.id ≡ false)
            same.apart i b in
        let kept =
          subst (λ zs. Memᴰ m zs) same.evidence
            (keep-Mem (λ (m : Memory). not (m.basis == inferred)) k (ground (arith, c))) in
        let there = Mem-is_in m (evidence_of inferred origin) kept in
        let moved = ap (is_in known) ((==_iff m.id x.id).0 e) in
        absurd (ground (arith, away, there, moved))
  ]

  apart-set_where :
      (p : Memory → Bool) (f : Memory → Memory) (ms : List Memory)
      → ((m : Memory) → ((f m).basis ≡ m.basis) × ((f m).id ≡ m.id))
      → All (λ (m : Memory). (m.basis == inferred) ≡ true → is_in known m.id ≡ false) ms
      → All
          (λ (m : Memory). (m.basis == inferred) ≡ true → is_in known m.id ≡ false)
          (set_where p f ms)
  apart-set_where p f [] h a = tt
  apart-set_where p f (m ∷ ms) h a =
      let rest = apart-set_where p f ms h a.1 in
      elim (Bool-cases (p m)) [
        | inl b ↦ rw b (
          (λ e. ap (is_in known) (h m).1 ∙ a.0 (ap (λ x. x == inferred) (sym (h m).0) ∙ e)),
          rest,
        )
        | inr b ↦ rw b (a.0, rest)
      ]

  pub IsSameEvidence-retract_inferred :
      (space : ℕ) (owner : Owner) (context : List ℕ) (now : ℕ) (r : InferredRetraction) (s : Store)
      → IsSameEvidence inferred origin s
      → IsSameEvidence inferred origin (retract_inferred inferred space owner context now r s)
  unfolding retract_inferred
  IsSameEvidence-retract_inferred space owner context now r s same =
      let wanted : Memory → Bool = λ (m : Memory).
        (((m.space_id == space && m.id == r.memory_id) && m.basis == inferred)
          && is_active_memory m)
        && is_owned s.graph owner m in
      elim (Bool-cases (is_in context r.memory_id && any wanted s.graph.memories)) [
        | inl b ↦
            let (x, i, e) = any-Mem wanted s.graph.memories (ground (arith, b)) in
            let all_inferred =
              All-intro (λ m. (m.id == r.memory_id) ≡ true → (m.basis == inferred) ≡ true)
                s.graph.memories
                (λ m k h. inferred_id s same x m i k (ground (arith, e)) (ground (arith, e, h))) in
            rw (b, retract_inferred)
              (record {
                evidence =
                    keep-set_where inferred (λ (m : Memory). m.id == r.memory_id)
                      (withdrawn now r.reason) s.graph.memories (λ m. refl) all_inferred
                    ∙ same.evidence;
                apart =
                    apart-set_where (λ (m : Memory). m.id == r.memory_id) (withdrawn now r.reason)
                      s.graph.memories (λ m. (refl, refl)) same.apart;
                people_links = same.people_links;
                relationship_links = same.relationship_links;
                people = same.people;
                relationships = same.relationships;
              })
        | inr b ↦ rw (b, retract_inferred) same
      ]
