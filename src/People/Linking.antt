-- ===== src/People/Linking.antt =====
-- The loop over the relationships of an extracted memory, in `apply_extraction` of
-- src/gossipmemo/store/_messages.py: what it leaves as it was, and how it fails.
use gossip_memo.Base.{
  ℕ, Bool, Option, some, List, [], ◌∷◌, ◌≡◌, inl, inr, refl, sym, ap, ◌∙◌, ◌==◌, arith, Bool-cases,
  Option-cases,
}
use gossip_memo.Base.Results.{Result, ok, err, Result-cases, ok-injective}
use mathlib.Core.List.{Memᴰ}
use mathlib.Core.Path.{subst}
use gossip_memo.People.{
  Graph, PersonError, same_person, ensure_relationship, ensure_pair, first_of, is_between,
  sorted_pair, find_person,
}
use gossip_memo.People.Extracted.{ExtractedRelationship, Writing}
use gossip_memo.People.Extracted.Write.{resolve, insert_relationships}

-- Two graphs with the same people under the same names
abbrev pub HasSameNames : Graph → Graph → Type 0
HasSameNames g h = (g.people ≡ h.people) × (g.aliases ≡ h.aliases)

module _ (normalized : ℕ → ℕ) (similar : ℕ → ℕ → Bool) (id_of : ℕ → ℕ)
    (inferred reason now space batch : ℕ) where
  abbrev pub who : List (ℕ × ℕ) → Graph → ℕ → Option ℕ
  who refs g reference =
      resolve normalized similar id_of inferred reason now space batch refs g reference

  pub who-HasSameNames :
      (refs : List (ℕ × ℕ)) (g h : Graph) (reference : ℕ)
      → HasSameNames g h
      → who refs g reference ≡ who refs h reference
  unfolding resolve find_person
  who-HasSameNames refs g h reference (p, a) = rw (p, a) refl

  ensure_pair-HasSameNames :
      (new_id : ℕ) (pair : ℕ × ℕ) (facets : List ℕ) (g : Graph)
      → HasSameNames g (ensure_pair new_id now space pair facets g).1
  unfolding ensure_pair
  ensure_pair-HasSameNames new_id pair [] g =
      elim (Option-cases (first_of (is_between space pair) g.relationships)) [
        | inl e ↦ rw (e, ensure_pair) (refl, refl)
        | inr (r, e) ↦ rw (e, ensure_pair) (refl, refl)
      ]
  ensure_pair-HasSameNames new_id pair (f ∷ fs) g =
      elim (Option-cases (first_of (is_between space pair) g.relationships)) [
        | inl e ↦ rw (e, ensure_pair) (refl, refl)
        | inr (r, e) ↦ rw (e, ensure_pair) (refl, refl)
      ]

  ensure_relationship-HasSameNames :
      (new_id a b : ℕ) (facets : List ℕ) (g : Graph) (ensured : ℕ × Graph)
      → ensure_relationship new_id now space a b facets g ≡ ok ensured
      → HasSameNames g ensured.1
  unfolding ensure_relationship
  ensure_relationship-HasSameNames new_id a b facets g ensured e = elim (Bool-cases (a == b)) [
    | inl same ↦ absurd (ground (arith, e, same))
    | inr other ↦
        let made : ensure_pair new_id now space (sorted_pair a b) facets g ≡ ensured =
          ok-injective (rw other at e) in
        subst (λ (x : ℕ × Graph). HasSameNames g x.1) made
          (ensure_pair-HasSameNames new_id (sorted_pair a b) facets g)
  ]

  ensure_relationship-err :
      (new_id a b : ℕ) (facets : List ℕ) (g : Graph) (e : PersonError)
      → ensure_relationship new_id now space a b facets g ≡ err e
      → e ≡ same_person
  unfolding ensure_relationship
  ensure_relationship-err new_id a b facets g e h = ground (arith, h)

  ensure_self :
      (new_id a : ℕ) (facets : List ℕ) (g : Graph)
      → ensure_relationship new_id now space a a facets g ≡ err same_person
  unfolding ensure_relationship
  ensure_self new_id a facets g = ground arith

  -- Both references of the relationship resolve to one person.
  abbrev pub IsSelf : List (ℕ × ℕ) → Graph → ExtractedRelationship → Type 0
  IsSelf refs g r =
      (person : ℕ) × (who refs g r.person_a_ref ≡ some person)
      × (who refs g r.person_b_ref ≡ some person)

  module _ (about memory : ℕ) (refs : List (ℕ × ℕ)) where
    abbrev insert :
        List ExtractedRelationship → Writing → List ℕ → Result PersonError (Writing × List ℕ)
    insert rs w ids =
        insert_relationships normalized similar id_of inferred reason now space batch about memory
          refs rs w ids

    -- What the loop over relationships leaves as it was, and the only error it ends with
    pub data Linked (w : Writing) : Result PersonError (Writing × List ℕ) → Type 0 where
      linked :
          (next : Writing × List ℕ)
          → HasSameNames w.drawing.graph next.0.drawing.graph
          → next.0.inserted ≡ w.inserted
          → Linked w (ok next)
      aborted : Linked w (err same_person)

    Linked-next :
        (v w : Writing) (out : Result PersonError (Writing × List ℕ))
        → HasSameNames v.drawing.graph w.drawing.graph
        → w.inserted ≡ v.inserted
        → Linked w out
        → Linked v out
    Linked-next v w out (p, a) same (linked next (q, b) still) =
        linked next (p ∙ q, a ∙ b) (still ∙ same)
    Linked-next v w out n same aborted = aborted

    pub insert-Linked :
        (rs : List ExtractedRelationship) (w : Writing) (ids : List ℕ) → Linked w (insert rs w ids)
    unfolding insert_relationships
    insert-Linked [] w ids = linked (w, ids) (refl, refl) refl
    insert-Linked (r ∷ rs) w ids = elim (Option-cases (who refs w.drawing.graph r.person_a_ref)) [
      | inl e ↦ rw (e, insert_relationships) (insert-Linked rs w ids)
      | inr (a, e) ↦ elim (Option-cases (who refs w.drawing.graph r.person_b_ref)) [
        | inl f ↦ rw (e, f, insert_relationships) (insert-Linked rs w ids)
        | inr (b, f) ↦
            elim (Result-cases (
              ensure_relationship (id_of w.drawing.drawn) now space a b r.facets w.drawing.graph)) [
                | inl (ensured, h) ↦
                    rw (e, f, h, insert_relationships)
                      (Linked-next w _ _
                        (ensure_relationship-HasSameNames (id_of w.drawing.drawn) a b r.facets
                          w.drawing.graph ensured h)
                        refl (insert-Linked rs _ _))
                | inr (x, h) ↦
                    rw
                      (
                        e,
                        f,
                        h,
                        insert_relationships,
                        ensure_relationship-err (id_of w.drawing.drawn) a b r.facets w.drawing.graph
                            x h,
                      )
                      aborted
              ]
      ]
    ]

    pub insert-err :
        (g : Graph) (r : ExtractedRelationship) (rs : List ExtractedRelationship) (w : Writing)
        (ids : List ℕ)
        → HasSameNames g w.drawing.graph
        → Memᴰ r rs
        → IsSelf refs g r
        → insert rs w ids ≡ err same_person
    unfolding insert_relationships
    insert-err g r [] w ids n m h = elim m [ ]
    insert-err g r (x ∷ rs) w ids n (Memᴰ.head same) (person, ea, eb) =
        let a : who refs w.drawing.graph x.person_a_ref ≡ some person =
          sym (who-HasSameNames refs g w.drawing.graph x.person_a_ref n)
          ∙ ap (λ (y : ExtractedRelationship). who refs g y.person_a_ref) (sym same)
          ∙ ea in
        let b : who refs w.drawing.graph x.person_b_ref ≡ some person =
          sym (who-HasSameNames refs g w.drawing.graph x.person_b_ref n)
          ∙ ap (λ (y : ExtractedRelationship). who refs g y.person_b_ref) (sym same)
          ∙ eb in
        rw
          (
            a,
            b,
            ensure_self (id_of w.drawing.drawn) person x.facets w.drawing.graph,
            insert_relationships,
          )
          refl
    insert-err g r (x ∷ rs) w ids n (Memᴰ.tail m) h =
        elim (Option-cases (who refs w.drawing.graph x.person_a_ref)) [
          | inl e ↦ rw (e, insert_relationships) (insert-err g r rs w ids n m h)
          | inr (a, e) ↦ elim (Option-cases (who refs w.drawing.graph x.person_b_ref)) [
            | inl f ↦ rw (e, f, insert_relationships) (insert-err g r rs w ids n m h)
            | inr (b, f) ↦
                elim (Result-cases (
                  ensure_relationship (id_of w.drawing.drawn) now space a b x.facets
                    w.drawing.graph)) [
                      | inl (ensured, k) ↦
                          let names =
                            ensure_relationship-HasSameNames (id_of w.drawing.drawn) a b x.facets
                              w.drawing.graph ensured k in
                          rw (e, f, k, insert_relationships)
                            (insert-err g r rs _ _ (n.0 ∙ names.0, n.1 ∙ names.1) m h)
                      | inr (z, k) ↦
                          rw
                            (
                              e,
                              f,
                              k,
                              insert_relationships,
                              ensure_relationship-err (id_of w.drawing.drawn) a b x.facets
                                  w.drawing.graph z k,
                            )
                            refl
                    ]
          ]
        ]
