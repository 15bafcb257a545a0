-- ===== src/Reasoning/Once.antt =====
-- The commit of a person's reasoning (`apply_person_reasoning` of
-- src/gossipmemo/store/_reasoning.py): what it leaves, and that it cannot be repeated.
use gossip_memo.Base.{
  ℕ, Bool, true, false, not, Option, none, some, List, [], ◌∷◌, ◌≡◌, inl, inr, refl, sym, ap, ◌∙◌,
  ◌==◌, keep, length, ◌&&◌, arith, Bool-cases, All, All-imply, keep-same, keep-keep,
}
use gossip_memo.People.{Memory, Person, set_where}
use gossip_memo.Coverage.Audit.{is_in}
use gossip_memo.Coverage.Keys.{HasDistinctIds}
use gossip_memo.Coverage.Latest.{ids, Mem-is_in, is_in-keep}
use gossip_memo.Messages.{is_same}
use gossip_memo.Reasoning.{
  person_owner, Store, is_about_person, max_updated, person_watermark, person_reasoning_source_ids,
}
use gossip_memo.Reasoning.Inferred.{apply_inferred_memory_actions}
use gossip_memo.Reasoning.Hypotheses.{HypothesisActions, apply_hypothesis_actions}
use gossip_memo.Reasoning.Evidence.{evidence_of, IsSameEvidence, IsSameEvidence-start, known}
use gossip_memo.Reasoning.Actions.{IsSameEvidence-apply_inferred_memory_actions}
use gossip_memo.Reasoning.Rule.{apply_hypothesis_actions-keeps}
use gossip_memo.Reasoning.Apply.{
  PersonResult, Draws, is_older, actions_or, hypotheses_if, with_people, carded, is_claimed,
  act_on_person, commit_person, apply_person_reasoning,
}
use gossip_memo.Coverage.Cursor.{is_same_eq}
use mathlib.Core.Bool.{false≢true}
use mathlib.Core.Path.{subst}

-- The watermark of a person reads only the evidence.
person_watermark-same :
    (inferred space person : ℕ) (origin s : Store)
    → IsSameEvidence inferred origin s
    → person_watermark inferred space person s.graph
      ≡ person_watermark inferred space person origin.graph
unfolding person_watermark
person_watermark-same inferred space person origin s same =
    let evidence : Memory → Bool = λ m. not (m.basis == inferred) in
    let read : Memory → Bool =
      λ m. (m.space_id == space && evidence m) && is_about_person s.graph person m.id in
    let first : Memory → Bool =
      λ m. (m.space_id == space && evidence m) && is_about_person origin.graph person m.id in
    let now = keep-keep read evidence read s.graph.memories (λ m. ground arith) in
    let before = keep-keep first evidence first origin.graph.memories (λ m. ground arith) in
    let links = keep-same read first (evidence_of inferred origin) (λ m i.
      let same_link = same.people_links person m.id (Mem-is_in m (evidence_of inferred origin) i) in
      ground (arith, same_link)) in
    ap max_updated (sym now ∙ ap (keep read) same.evidence ∙ links ∙ before)

watermark-people :
    (inferred space person : ℕ) (s : Store) (people : List Person)
    → person_watermark inferred space person (record s.graph { people = people })
      ≡ person_watermark inferred space person s.graph
unfolding person_watermark
watermark-people inferred space person s people = refl

-- A row that has the expected watermark is not claimed again.
keep-is_claimed :
    (space person w : ℕ) (people : List Person)
    → All (λ (p : Person). (p.id == person) ≡ true → p.profile_source_updated_at ≡ some w) people
    → keep (is_claimed space person (some w)) people ≡ []
keep-is_claimed space person w [] h = refl
keep-is_claimed space person w (p ∷ people) h =
    let rest = keep-is_claimed space person w people h.1 in
    elim (Bool-cases (p.id == person)) [
      | inl b ↦ let older = ap (λ x. is_older x (some w)) (h.0 b) in ground (arith, rest, older)
      | inr b ↦ ground (arith, rest, b)
    ]

module _ (similar : ℕ → ℕ → Bool) (inferred : ℕ) (draws : Draws) where
  IsSameEvidence-act_on_person :
      (origin : Store) (space person : ℕ) (result : PersonResult) (memories hypotheses : List ℕ)
      (s : Store)
      → ((n : ℕ) → is_in (known inferred origin) (draws.inferred n).0 ≡ false)
      → IsSameEvidence inferred origin s
      → IsSameEvidence inferred origin
          (act_on_person similar inferred draws space person result memories hypotheses s)
  unfolding act_on_person
  IsSameEvidence-act_on_person origin space person result memories hypotheses s fresh same =
      after result.hypothesis_actions
    where
      acted : Store
      acted =
          apply_inferred_memory_actions similar inferred space (person_owner person)
            (person_reasoning_source_ids inferred space person s.graph) memories draws.inferred
            draws.retracted (actions_or result.inferred_memories result.inferred_memory_actions) s

      first : IsSameEvidence inferred origin acted
      first =
          IsSameEvidence-apply_inferred_memory_actions inferred origin similar space
            (person_owner person) (person_reasoning_source_ids inferred space person s.graph)
            memories draws.inferred draws.retracted
            (actions_or result.inferred_memories result.inferred_memory_actions) s fresh same

      after :
          (actions : Option HypothesisActions)
          → IsSameEvidence inferred origin (
              hypotheses_if
                (apply_hypothesis_actions inferred space
                  (person_owner person)
                  (person_reasoning_source_ids inferred space person acted.graph)
                  hypotheses
                  draws.hypotheses
                  draws.transitions)
                actions
                acted)
      after none = first
      after (some actions) =
          apply_hypothesis_actions-keeps {0, 0} (λ x. IsSameEvidence inferred origin x) (λ n. Unit)
            (λ x h id f rows m o e g p. record {
              evidence = p.evidence;
              apart = p.apart;
              people_links = p.people_links;
              relationship_links = p.relationship_links;
              people = p.people;
              relationships = p.relationships;
            })
            (λ x h rows n p. record {
              evidence = p.evidence;
              apart = p.apart;
              people_links = p.people_links;
              relationship_links = p.relationship_links;
              people = p.people;
              relationships = p.relationships;
            })
            inferred space (person_owner person)
            (person_reasoning_source_ids inferred space person acted.graph) hypotheses
            draws.hypotheses draws.transitions actions acted (λ n. tt) first

  -- The people after the two UPDATEs
  carded-All :
      (space person card now : ℕ) (watermark : Option ℕ) (people : List Person)
      → All
          (λ (p : Person). (p.id == person) ≡ true → p.profile_source_updated_at ≡ watermark)
          (set_where (λ (p : Person). p.id == person) (carded now card watermark) people)
  carded-All space person card now watermark [] = tt
  carded-All space person card now watermark (p ∷ people) =
      let rest = carded-All space person card now watermark people in
      elim (Bool-cases (p.id == person)) [
        | inl b ↦ rw b ((λ e. refl), rest)
        | inr b ↦ rw b ((λ e. absurd (ground (arith, b, e))), rest)
      ]

  commit_person-caught_up :
      (space person : ℕ) (expected : Option ℕ) (result : PersonResult)
      (memories hypotheses : List ℕ) (s : Store)
      → HasDistinctIds s.graph.memories
      → ((n : ℕ) → is_in (ids s.graph.memories) (draws.inferred n).0 ≡ false)
      → expected ≡ person_watermark inferred space person s.graph
      → let after =
          commit_person similar inferred draws space person expected result memories hypotheses s in
        (person_watermark inferred space person after.graph ≡ expected)
        × All
            (λ (p : Person). (p.id == person) ≡ true → p.profile_source_updated_at ≡ expected)
            after.graph.people
  unfolding commit_person
  commit_person-caught_up space person expected result memories hypotheses s d fresh e =
      let s1 =
        with_people
          (set_where (is_claimed space person expected)
            (carded draws.now result.profile_card expected))
          s in
      let s2 = act_on_person similar inferred draws space person result memories hypotheses s1 in
      let same =
        IsSameEvidence-act_on_person s1 space person result memories hypotheses s1
          (λ n.
            is_in-keep (λ (m : Memory). not (m.basis == inferred)) s.graph.memories
              (draws.inferred n).0 (fresh n))
          (IsSameEvidence-start inferred s1 d) in
      let kept : person_watermark inferred space person s2.graph ≡ expected =
        person_watermark-same inferred space person s1 s2 same
        ∙ watermark-people inferred space person s s1.graph.people
        ∙ sym e in
      (
        watermark-people inferred space person s2 (
              set_where (λ (p : Person). p.id == person)
                (carded draws.now result.profile_card
                  (person_watermark inferred space person s2.graph))
                s2.graph.people)
            ∙ kept,
        All-imply
            (λ (p : Person).
              (p.id == person) ≡ true
              → p.profile_source_updated_at ≡ person_watermark inferred space person s2.graph)
            (λ (p : Person). (p.id == person) ≡ true → p.profile_source_updated_at ≡ expected) _
            (λ p h b. h b ∙ kept)
            (carded-All space person result.profile_card draws.now
              (person_watermark inferred space person s2.graph) s2.graph.people),
      )

  -- When a person's reasoning is committed, the watermark is still the one that was expected, and
  -- the person's row has it, whatever the inferences and hypotheses of the result did. The ids of
  -- memories are a key, and the ids drawn for inferences are new.
  pub apply_person_reasoning-caught_up :
      (space person : ℕ) (expected : Option ℕ) (result : PersonResult)
      (memories hypotheses : List ℕ) (s after : Store)
      → HasDistinctIds s.graph.memories
      → ((n : ℕ) → is_in (ids s.graph.memories) (draws.inferred n).0 ≡ false)
      → apply_person_reasoning similar inferred draws space person expected result memories
          hypotheses s
        ≡ (after, true)
      → (person_watermark inferred space person after.graph ≡ expected)
        × All
            (λ (p : Person). (p.id == person) ≡ true → p.profile_source_updated_at ≡ expected)
            after.graph.people
  unfolding apply_person_reasoning
  apply_person_reasoning-caught_up space person expected result memories hypotheses s after d fresh
        e =
      let checked =
        is_same expected (person_watermark inferred space person s.graph)
        && length (keep (is_claimed space person expected) s.graph.people) == 1 in
      elim (Bool-cases checked) [
        | inl b ↦
            let done : (
              commit_person similar inferred draws space person expected result memories hypotheses
                  s,
              true,
            )
                ≡ (after, true) =
              rw (b, apply_person_reasoning) at e in
            let watermark =
              is_same_eq expected (person_watermark inferred space person s.graph)
                (ground (arith, b)) in
            subst
              (λ (x : Store).
                (person_watermark inferred space person x.graph ≡ expected)
                × All
                    (λ (p : Person).
                      (p.id == person) ≡ true → p.profile_source_updated_at ≡ expected)
                    x.graph.people)
              (ap (λ (v : Store × Bool). v.0) done)
              (commit_person-caught_up space person expected result memories hypotheses s d fresh
                watermark)
        | inr b ↦
            let refused : (s, false) ≡ (after, true) = rw (b, apply_person_reasoning) at e in
            absurd (false≢true (ap (λ (v : Store × Bool). v.1) refused))
      ]

-- The ids of memories being a key, and those drawn for inferences new: a person's reasoning is
-- committed once for a watermark that is not NULL: another result for the same one, from any
-- task, is refused and changes nothing.
pub apply_person_reasoning-once :
    (similar similar_later : ℕ → ℕ → Bool) (inferred : ℕ) (draws draws_later : Draws)
    (space person w : ℕ) (result later : PersonResult)
    (memories hypotheses memories_later hypotheses_later : List ℕ) (s after : Store)
    → HasDistinctIds s.graph.memories
    → ((n : ℕ) → is_in (ids s.graph.memories) (draws.inferred n).0 ≡ false)
    → apply_person_reasoning similar inferred draws space person
        (some w)
        result
        memories
        hypotheses
        s
      ≡ (after, true)
    → apply_person_reasoning similar_later inferred draws_later space person
        (some w)
        later
        memories_later
        hypotheses_later
        after
      ≡ (after, false)
unfolding apply_person_reasoning
apply_person_reasoning-once similar similar_later inferred draws draws_later space person w result
      later memories hypotheses memories_later hypotheses_later s after d fresh e =
    let there =
      apply_person_reasoning-caught_up similar inferred draws space person (some w) result memories
        hypotheses s after d fresh e in
    rw (there.0, keep-is_claimed space person w after.graph.people there.1, apply_person_reasoning)
      (ground arith)
