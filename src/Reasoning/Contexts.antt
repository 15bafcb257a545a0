-- ===== src/Reasoning/Contexts.antt =====
-- The reads that a reasoner begins with: `owner_review_context` and `user_model_context` of
-- src/gossipmemo/store/_reasoning.py, `person_context` and `relationship_context` of
-- src/gossipmemo/store/_people.py.
use gossip_memo.Base.{
  ℕ, Bool, true, not, Option, none, some, List, ◌==◌, ltb, keep, take, map, ◌&&◌, ◌||◌,
  if◌then◌else◌,
}
use gossip_memo.Base.Sorting.{sort_by}
use gossip_memo.People.{Person, Relationship, Memory, first_of}
use gossip_memo.Coverage.{memory_before}
use gossip_memo.Reasoning.{
  Owner, Hypothesis, Role, UserModel, Store, is_active_memory, is_owned, user_model_watermark,
  is_profile_stale, is_source, is_about_person, concerns, relationship_row, person_watermark,
  relationship_watermark,
}
use gossip_memo.Reasoning.Hypotheses.{is_open, is_same_owner}

-- `ORDER BY created_at DESC LIMIT 100`, for each of the two
unfoldable pub owner_review_context :
    (inferred space : ℕ) → Owner → Store → List Memory × List (Hypothesis × List (ℕ × Role))
owner_review_context inferred space owner s = (
  take 100 (
      sort_by (λ a b. ltb b.created_at a.created_at)
        (keep
          (λ (m : Memory).
            ((m.space_id == space && is_active_memory m) && m.basis == inferred)
            && is_owned s.graph owner m)
          s.graph.memories)),
  map
      (λ (h : Hypothesis). (
        h,
        map (λ (e : ℕ × ℕ × Role). (e.1, e.2))
            (keep (λ (e : ℕ × ℕ × Role). e.0 == h.id) s.evidence),
      ))
      (take 100 (
        sort_by (λ a b. ltb b.created_at a.created_at)
          (keep
            (λ (h : Hypothesis). (h.space_id == space && is_same_owner h.owner owner) && is_open h)
            s.hypotheses))),
)

-- `created_at DESC, id DESC`
abbrev pub newer : Memory → Memory → Bool
newer a b = ltb b.created_at a.created_at || (a.created_at == b.created_at && ltb b.id a.id)

-- `? IS NULL OR updated_at > ?`
abbrev pub is_since : Option ℕ → Memory → Bool
is_since none m = true
is_since (some since) m = ltb since m.updated_at

-- The row, whether it is stale, the memories and the watermark
unfoldable pub user_model_context :
    (space : ℕ) → (delta_only : Bool) → Store → Option (UserModel × Bool × List Memory × Option ℕ)
unfolding user_model_watermark
user_model_context space delta_only s =
    elim (first_of (λ (u : UserModel). u.space_id == space) s.user_models) [
      | none ↦ none
      | some u ↦
          let watermark = user_model_watermark space s.graph in
          let memories =
            if delta_only
            then sort_by memory_before (
                keep
                  (λ (m : Memory).
                    (m.space_id == space && m.about_user) && is_since u.profile_source_updated_at m)
                  s.graph.memories)
            else sort_by newer (
                keep (λ (m : Memory). (m.space_id == space && is_active_memory m) && m.about_user)
                  s.graph.memories) in
          some (u, is_profile_stale u.profile_source_updated_at watermark, memories, watermark)
    ]

-- The fold read since a watermark, and the dossier read of the active memories; `about` tells which
-- memories concern the owner.
abbrev pub evidence_since :
    (inferred space : ℕ) → (about : ℕ → Bool) → Option ℕ → List Memory → List Memory
evidence_since inferred space about since ms = sort_by memory_before (
    keep
      (λ m. ((m.space_id == space && not (m.basis == inferred)) && about m.id) && is_since since m)
      ms)

abbrev pub active_evidence : (inferred space : ℕ) → (about : ℕ → Bool) → List Memory → List Memory
active_evidence inferred space about ms =
    sort_by newer (keep (λ m. is_source inferred space m && about m.id) ms)

-- `person_context`: the row, whether it is stale, the memories and the watermark
unfoldable pub person_context :
    (inferred space person : ℕ)
    → (delta_only : Bool) → Store
    → Option (Person × Bool × List Memory × Option ℕ)
unfolding person_watermark
person_context inferred space person delta_only s =
    elim (first_of (λ (p : Person). p.space_id == space && p.id == person) s.graph.people) [
      | none ↦ none
      | some p ↦
          let watermark = person_watermark inferred space person s.graph in
          let about = is_about_person s.graph person in
          let memories =
            if delta_only
            then evidence_since inferred space about p.profile_source_updated_at s.graph.memories
            else active_evidence inferred space about s.graph.memories in
          some (p, is_profile_stale p.profile_source_updated_at watermark, memories, watermark)
    ]

unfoldable pub relationship_context :
    (inferred space relationship : ℕ)
    → (delta_only : Bool) → Store
    → Option (Relationship × Bool × List Memory × Option ℕ)
unfolding relationship_watermark
relationship_context inferred space relationship delta_only s =
    elim (relationship_row space relationship s.graph) [
      | none ↦ none
      | some r ↦
          let watermark = relationship_watermark inferred space relationship s.graph in
          let about = concerns s.graph r in
          let memories =
            if delta_only
            then evidence_since inferred space about r.profile_source_updated_at s.graph.memories
            else active_evidence inferred space about s.graph.memories in
          some (r, is_profile_stale r.profile_source_updated_at watermark, memories, watermark)
    ]
