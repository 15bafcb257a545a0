-- ===== src/Reasoning/Actions.antt =====
-- All that a reasoner's result does to the inferred memories leaves the evidence as it is
-- (src/gossipmemo/store/_reasoning.py).
use gossip_memo.Base.{
  ℕ, suc, Bool, true, false, not, List, [], ◌∷◌, ◌++◌, ◌≡◌, inl, inr, ap, ◌∙◌, ◌==◌, any, keep,
  ◌&&◌, arith, ==_iff, Bool-cases, Option-cases, List-cases, All-append, keep-append, any-append,
}
use gossip_memo.People.{Memory, first_of}
use gossip_memo.Coverage.Audit.{is_in}
use gossip_memo.Reasoning.{
  Owner, user_owner, person_owner, relationship_owner, Store, is_about_person,
  is_about_relationship,
}
use gossip_memo.Reasoning.Inferred.{
  InferredMemory, InferredRetraction, InferredActions, inferred_row, insert_inferred,
  retract_inferred, reconcile_one, reconcile_all, reconcile_inferred_memories, existing_rows,
  retract_all, apply_inferred_memory_actions, valid_sources,
}
use gossip_memo.Reasoning.Evidence.{IsSameEvidence, known, IsSameEvidence-retract_inferred}
use mathlib.Core.List.{append-nil}

module _ (inferred : ℕ) (origin : Store) where
  -- A new link of a memory that is not evidence
  link-person :
      (links : List (ℕ × ℕ)) (id other person memory : ℕ)
      → is_in (known inferred origin) id ≡ false
      → is_in (known inferred origin) memory ≡ true
      → any (λ (link : ℕ × ℕ). link.0 == memory && link.1 == person) (links ++ (id, other) ∷ [])
        ≡ any (λ (link : ℕ × ℕ). link.0 == memory && link.1 == person) links
  link-person links id other person memory h k =
      let both =
        any-append (λ (link : ℕ × ℕ). link.0 == memory && link.1 == person) links
          ((id, other) ∷ []) in
      elim (Bool-cases (id == memory)) [
        | inl e ↦
            let same = ap (is_in (known inferred origin)) ((==_iff id memory).0 e) in
            absurd (ground (arith, h, k, same))
        | inr e ↦ ground (arith, both, e)
      ]

  link-relationship :
      (links : List (ℕ × ℕ × ℕ)) (id other role relationship memory : ℕ)
      → is_in (known inferred origin) id ≡ false
      → is_in (known inferred origin) memory ≡ true
      → any
          (λ (link : ℕ × ℕ × ℕ). link.0 == memory && link.1 == relationship)
          (links ++ (id, other, role) ∷ [])
        ≡ any (λ (link : ℕ × ℕ × ℕ). link.0 == memory && link.1 == relationship) links
  link-relationship links id other role relationship memory h k =
      let both =
        any-append (λ (link : ℕ × ℕ × ℕ). link.0 == memory && link.1 == relationship) links
          ((id, other, role) ∷ []) in
      elim (Bool-cases (id == memory)) [
        | inl e ↦
            let same = ap (is_in (known inferred origin)) ((==_iff id memory).0 e) in
            absurd (ground (arith, h, k, same))
        | inr e ↦ ground (arith, both, e)
      ]

  IsSameEvidence-insert_inferred :
      (space id now : ℕ) (owner : Owner) (item : InferredMemory) (sources : List ℕ) (s : Store)
      → is_in (known inferred origin) id ≡ false
      → IsSameEvidence inferred origin s
      → IsSameEvidence inferred origin (insert_inferred inferred space id now owner item sources s)
  unfolding insert_inferred
  IsSameEvidence-insert_inferred space id now owner item sources s fresh same = record {
    evidence =
        keep-append (λ (m : Memory). not (m.basis == inferred)) s.graph.memories
          (inferred_row inferred space id now owner item ∷ [])
        ∙ ground
            (arith, append-nil (keep (λ (m : Memory). not (m.basis == inferred)) s.graph.memories))
        ∙ same.evidence;
    apart =
        All-append
          (λ (m : Memory).
            (m.basis == inferred) ≡ true → is_in (known inferred origin) m.id ≡ false)
          s.graph.memories (inferred_row inferred space id now owner item ∷ []) same.apart
          ((λ e. fresh), tt);
    people_links = people_links_of owner;
    relationship_links = relationship_links_of owner;
    people = same.people;
    relationships = same.relationships;
  }
    where
      people_links_of :
          (owner : Owner) (person memory : ℕ)
          → is_in (known inferred origin) memory ≡ true
          → is_about_person
              (insert_inferred inferred space id now owner item sources s).graph
              person
              memory
            ≡ is_about_person origin.graph person memory
      people_links_of user_owner person memory k = same.people_links person memory k
      people_links_of (relationship_owner r) person memory k = same.people_links person memory k
      people_links_of (person_owner p) person memory k =
          link-person s.graph.memory_people id p person memory fresh k
          ∙ same.people_links person memory k

      relationship_links_of :
          (owner : Owner) (relationship memory : ℕ)
          → is_in (known inferred origin) memory ≡ true
          → is_about_relationship
              (insert_inferred inferred space id now owner item sources s).graph
              relationship
              memory
            ≡ is_about_relationship origin.graph relationship memory
      relationship_links_of user_owner r memory k = same.relationship_links r memory k
      relationship_links_of (person_owner p) r memory k = same.relationship_links r memory k
      relationship_links_of (relationship_owner o) r memory k =
          link-relationship s.graph.memory_relationships id o 0 r memory fresh k
          ∙ same.relationship_links r memory k

  IsSameEvidence-reconcile_one :
      (similar : ℕ → ℕ → Bool) (space : ℕ) (owner : Owner) (source_ids : List ℕ)
      (existing : List Memory) (draw : ℕ × ℕ) (item : InferredMemory) (s : Store)
      → is_in (known inferred origin) draw.0 ≡ false
      → IsSameEvidence inferred origin s
      → IsSameEvidence inferred origin
          (reconcile_one similar inferred space owner source_ids existing draw item s)
  unfolding reconcile_one
  IsSameEvidence-reconcile_one similar space owner source_ids existing draw item s fresh same =
      elim (List-cases (valid_sources inferred space source_ids item s)) [
        | inl e ↦ rw (e, reconcile_one) same
        | inr (source, sources, e) ↦
            elim (Option-cases (
              first_of (λ (m : Memory). m.kind == item.kind && similar m.content item.content)
                existing)) [
                  | inl f ↦
                      rw (e, f, reconcile_one)
                        (IsSameEvidence-insert_inferred space draw.0 draw.1 owner item
                          (source ∷ sources) s fresh same)
                  | inr (m, f) ↦
                      rw (e, f, reconcile_one)
                        (record {
                          evidence = same.evidence;
                          apart = same.apart;
                          people_links = same.people_links;
                          relationship_links = same.relationship_links;
                          people = same.people;
                          relationships = same.relationships;
                        })
                ]
      ]

  IsSameEvidence-reconcile_all :
      (similar : ℕ → ℕ → Bool) (space : ℕ) (owner : Owner) (source_ids : List ℕ)
      (existing : List Memory) (draw : ℕ → ℕ × ℕ) (items : List InferredMemory) (s : Store)
      → ((n : ℕ) → is_in (known inferred origin) (draw n).0 ≡ false)
      → IsSameEvidence inferred origin s
      → IsSameEvidence inferred origin
          (reconcile_all similar inferred space owner source_ids existing draw items s)
  unfolding reconcile_all
  IsSameEvidence-reconcile_all similar space owner source_ids existing draw [] s fresh same = same
  IsSameEvidence-reconcile_all similar space owner source_ids existing draw (item ∷ items) s fresh
        same =
      IsSameEvidence-reconcile_all similar space owner source_ids existing (λ n. draw (suc n)) items
        (reconcile_one similar inferred space owner source_ids existing (draw 0) item s)
        (λ n. fresh (suc n))
        (IsSameEvidence-reconcile_one similar space owner source_ids existing (draw 0) item s
          (fresh 0) same)

  IsSameEvidence-retract_all :
      (space : ℕ) (owner : Owner) (context : List ℕ) (now : ℕ → ℕ) (rs : List InferredRetraction)
      (s : Store)
      → IsSameEvidence inferred origin s
      → IsSameEvidence inferred origin (retract_all inferred space owner context now rs s)
  unfolding retract_all
  IsSameEvidence-retract_all space owner context now [] s same = same
  IsSameEvidence-retract_all space owner context now (r ∷ rs) s same =
      IsSameEvidence-retract_all space owner context (λ n. now (suc n)) rs
        (retract_inferred inferred space owner context (now 0) r s)
        (IsSameEvidence-retract_inferred inferred origin space owner context (now 0) r s same)

  pub IsSameEvidence-apply_inferred_memory_actions :
      (similar : ℕ → ℕ → Bool) (space : ℕ) (owner : Owner) (source_ids context : List ℕ)
      (draw : ℕ → ℕ × ℕ) (now : ℕ → ℕ) (actions : InferredActions) (s : Store)
      → ((n : ℕ) → is_in (known inferred origin) (draw n).0 ≡ false)
      → IsSameEvidence inferred origin s
      → IsSameEvidence inferred origin (
          apply_inferred_memory_actions similar inferred space owner source_ids context draw now
            actions s)
  unfolding apply_inferred_memory_actions reconcile_inferred_memories
  IsSameEvidence-apply_inferred_memory_actions similar space owner source_ids context draw now
        actions s fresh same =
      IsSameEvidence-retract_all space owner context now actions.retractions _ (
        IsSameEvidence-reconcile_all similar space owner source_ids
          (existing_rows inferred space owner s) draw actions.upserts s fresh same)
