-- ===== src/People/Extracted/Write.antt =====
-- The writes of `apply_extraction` of src/gossipmemo/store/_messages.py, between its guards and the
-- two UPDATEs that end it.
use gossip_memo.Base.{
  ℕ, suc, Bool, true, false, not, Option, none, some, List, [], ◌∷◌, ◌++◌, ◌==◌, length, any, map,
  keep, ◌&&◌, ◌||◌, if◌then◌else◌,
}
use gossip_memo.Base.Results.{Result, ok, err, ◌>>=◌}
use gossip_memo.People.{
  Relationship, Memory, superseded, extractor, Graph, PersonError, first_of, set_where, add_unless,
  find_person, create_person, ensure_relationship,
}
use gossip_memo.People.MemoryStatus.{active}
use gossip_memo.People.Memories.{is_active_memory, invalidate, add_person, value_or}
use gossip_memo.People.Merge.{add_id}
use gossip_memo.People.Extracted.{
  ExtractedPerson, ExtractedRelationship, ExtractedMemory, ExtractionResult, Drawing, Signature,
  Writing, same_text, is_in, same_set, same_bool, add_all,
}

abbrev pub is_some {ℓ} : {A : Type ℓ} → Option A → Bool
is_some none = false
is_some (some a) = true

-- `id_of` gives the ids that `new_id` draws, `similar` is `similar_memory_content` of
-- src/gossipmemo/store/policy.py; `inferred` and `reason` are the texts of the source.
module _ (normalized : ℕ → ℕ) (similar : ℕ → ℕ → Bool) (id_of : ℕ → ℕ)
    (inferred reason now space batch : ℕ) where
  unfoldable pub insert_aliases : ℕ → List ℕ → Drawing → Drawing
  insert_aliases person [] s = s
  insert_aliases person (alias ∷ aliases) s = insert_aliases person aliases (record {
    graph = record s.graph {
      aliases =
          add_unless
            (λ a.
              a.id == id_of s.drawn
              || (a.person_id == person && a.normalized_value == normalized alias))
            (record {
              id = id_of s.drawn;
              space_id = space;
              person_id = person;
              value = alias;
              normalized_value = normalized alias;
            })
            s.graph.aliases;
    };
    drawn = suc s.drawn;
  })

  abbrev pub is_unique_name : List ExtractedPerson → ℕ → Bool
  is_unique_name people name =
      length (keep (λ (p : ExtractedPerson). normalized p.display_name == normalized name) people)
      == 1

  -- The loop over `result.people`; the pairs are `people_by_ref`, the last assignment first.
  unfoldable pub insert_people :
      List ExtractedPerson → List ExtractedPerson → Drawing → List (ℕ × ℕ) → Drawing × List (ℕ × ℕ)
  unfolding insert_aliases
  insert_people everyone [] s refs = (s, refs)
  insert_people everyone (p ∷ people) s refs =
      elim (create_person normalized (id_of s.drawn) (id_of (suc s.drawn)) now space p.display_name
        (is_unique_name everyone p.display_name) s.graph) [
          | err ambiguous_name ↦ insert_people everyone people s refs
          | ok created ↦
              insert_people everyone people
                (insert_aliases created.0 p.aliases
                  (record { graph = created.1; drawn = suc (suc s.drawn) }))
                ((p.ref, created.0) ∷ refs)
        ]

  -- `resolve_extracted_person`
  unfoldable pub resolve : List (ℕ × ℕ) → Graph → ℕ → Option ℕ
  resolve refs g reference = elim (first_of (λ pair. pair.0 == reference) refs) [
    | some pair ↦ some pair.1
    | none ↦ elim (find_person normalized space reference g) [
      | err ambiguous_name ↦ none
      | ok none ↦ none
      | ok (some p) ↦ some p.id
    ]
  ]

  abbrev pub resolve_all : List (ℕ × ℕ) → Graph → List ℕ → List ℕ
  resolve_all refs g [] = []
  resolve_all refs g (reference ∷ references) =
      let rest = resolve_all refs g references in
      elim (resolve refs g reference) [ none ↦ rest | some id ↦ id ∷ rest ]

  abbrev pub joins : ℕ → ℕ → Relationship → Bool
  joins a b r =
      r.space_id == space
      && (r.person_a == a && r.person_b == b || r.person_a == b && r.person_b == a)

  -- The relationships that the candidate names and that exist
  abbrev pub known_relationships :
      List (ℕ × ℕ) → Graph → List ExtractedRelationship → List ℕ → List ℕ
  known_relationships refs g [] ids = ids
  known_relationships refs g (r ∷ rs) ids = elim (resolve refs g r.person_a_ref) [
    | none ↦ known_relationships refs g rs ids
    | some a ↦ elim (resolve refs g r.person_b_ref) [
      | none ↦ known_relationships refs g rs ids
      | some b ↦ elim (first_of (joins a b) g.relationships) [
        | none ↦ known_relationships refs g rs ids
        | some found ↦ known_relationships refs g rs (add_id found.id ids)
      ]
    ]
  ]

  -- `comparison_rows`, `comparison_people` and `comparison_relationships`, read of the tables `g`
  abbrev pub comparison_rows : List ℕ → Graph → List Memory
  comparison_rows ids g =
      keep
        (λ m.
          (m.space_id == space && is_active_memory m)
          && (not (m.basis == inferred) && is_in ids m.id))
        g.memories

  abbrev pub people_of : ℕ → Graph → List ℕ
  people_of memory g = map (λ (row : ℕ × ℕ). row.1) (keep (λ row. row.0 == memory) g.memory_people)

  abbrev pub relationships_of : ℕ → Graph → List ℕ
  relationships_of memory g =
      map (λ (row : ℕ × ℕ × ℕ). row.1) (keep (λ row. row.0 == memory) g.memory_relationships)

  -- `same_shape(row) and similar_memory_content(row["content"], candidate.content)`
  abbrev pub repeats_row : Graph → ExtractedMemory → List ℕ → List ℕ → Memory → Bool
  repeats_row g c people relationships row =
      (((row.kind == c.kind && row.basis == c.basis)
          && (same_bool row.about_user c.about_user && same_text row.valid_from c.valid_from))
        && (same_text row.valid_to c.valid_to && same_set (people_of row.id g) people))
      && (same_set (relationships_of row.id g) relationships && similar row.content c.content)

  abbrev pub repeats_inserted : ExtractedMemory → List ℕ → List ℕ → Signature → Bool
  repeats_inserted c people relationships s =
      (((s.memory.kind == c.kind && s.memory.basis == c.basis)
          && (same_bool s.memory.about_user c.about_user
              && same_text s.memory.valid_from c.valid_from))
        && (same_text s.memory.valid_to c.valid_to && same_set s.people_ids people))
      && (same_set s.relationship_ids relationships && similar s.memory.content c.content)

  abbrev pub extracted_row : ℕ → ExtractedMemory → Option Memory → Memory
  extracted_row id c comparison = record {
    id = id;
    space_id = space;
    content = c.content;
    kind = c.kind;
    basis = c.basis;
    about_user = c.about_user;
    status = active;
    valid_from = c.valid_from;
    valid_to = c.valid_to;
    supersedes = elim comparison [ none ↦ none | some row ↦ c.supersedes ];
    invalidated_at = none;
    invalidation_reason = none;
    source_batch = some batch;
    created_by = extractor;
    created_at = now;
    updated_at = now;
  }

  -- The links of the new memory to the people that its candidate names
  abbrev pub link_extracted : ℕ → List ℕ → List (ℕ × ℕ) → List (ℕ × ℕ)
  link_extracted memory [] rows = rows
  link_extracted memory (person ∷ people) rows =
      link_extracted memory people (add_person memory person rows)

  -- The second loop over the candidate's relationships; the role is the column's default.
  unfoldable pub insert_relationships :
      (about memory : ℕ)
      → List (ℕ × ℕ)
      → List ExtractedRelationship
      → Writing
      → List ℕ
      → Result PersonError (Writing × List ℕ)
  insert_relationships about memory refs [] w ids = ok (w, ids)
  insert_relationships about memory refs (r ∷ rs) w ids =
      elim (resolve refs w.drawing.graph r.person_a_ref) [
        | none ↦ insert_relationships about memory refs rs w ids
        | some a ↦ elim (resolve refs w.drawing.graph r.person_b_ref) [
          | none ↦ insert_relationships about memory refs rs w ids
          | some b ↦
              ensure_relationship (id_of w.drawing.drawn) now space a b r.facets w.drawing.graph
              >>= λ ensured.
                  insert_relationships about memory refs rs
                    (record w {
                      drawing = record {
                        graph = record ensured.1 {
                          memory_relationships =
                              add_unless
                                (λ row. (row.0 == memory && row.1 == ensured.0) && row.2 == about)
                                (memory, ensured.0, about) ensured.1.memory_relationships;
                        };
                        drawn = suc w.drawing.drawn;
                      };
                      affected_relationships = add_id ensured.0 w.affected_relationships;
                    })
                    (add_id ensured.0 ids)
        ]
      ]

  -- The `if comparison is not None` that ends the loop's body
  abbrev pub supersede_comparison : Option Memory → Writing → Writing
  supersede_comparison none w = w
  supersede_comparison (some row) w = record w {
    affected_people = add_all (people_of row.id w.drawing.graph) w.affected_people;
    affected_relationships =
        add_all (relationships_of row.id w.drawing.graph) w.affected_relationships;
    drawing = record w.drawing {
      graph = record w.drawing.graph {
        memories =
            set_where (λ (m : Memory). m.id == row.id) (invalidate superseded now (some reason))
              w.drawing.graph.memories;
      };
    };
  }

  -- The body of the loop from `memory_id = new_id("memory")` on
  unfoldable pub insert_memory :
      ℕ
      → List (ℕ × ℕ)
      → ExtractedMemory
      → Option Memory
      → List ℕ
      → List ℕ
      → Writing
      → Result PersonError Writing
  unfolding insert_relationships
  insert_memory about refs c comparison people relationships w =
      let memory = id_of w.drawing.drawn in
      let named = resolve_all refs w.drawing.graph c.people in
      insert_relationships about memory refs c.relationships
        (record w {
          drawing = record {
            graph = record w.drawing.graph {
              memories = w.drawing.graph.memories ++ extracted_row memory c comparison ∷ [];
              memory_people = link_extracted memory named w.drawing.graph.memory_people;
            };
            drawn = suc w.drawing.drawn;
          };
          affected_people = add_all named w.affected_people;
        })
        relationships
      >>= λ linked. ok (
          supersede_comparison comparison (record linked.0 {
            inserted =
                linked.0.inserted
                ++ record { memory = c; people_ids = people; relationship_ids = linked.1 } ∷ [];
          }))

  -- The body of the loop over `result.memories`; `rows` are the comparison rows, read of `before`.
  unfoldable pub write_memory :
      ℕ
      → List (ℕ × ℕ)
      → Graph
      → List Memory
      → ExtractedMemory
      → Writing
      → Result PersonError Writing
  unfolding insert_memory
  write_memory about refs before rows c w =
      let people = add_all (resolve_all refs w.drawing.graph c.people) [] in
      let relationships = known_relationships refs w.drawing.graph c.relationships [] in
      let comparison = first_of (λ (m : Memory). m.id == value_or c.supersedes 0) rows in
      let inserted = insert_memory about refs c comparison people relationships w in
      if not (is_some comparison) && any (repeats_row before c people relationships) rows
      then ok w
      else if any (repeats_inserted c people relationships) w.inserted
      then ok w
      else inserted

  unfoldable pub write_memories :
      ℕ
      → List (ℕ × ℕ)
      → Graph
      → List Memory
      → List ExtractedMemory
      → Writing
      → Result PersonError Writing
  unfolding write_memory
  write_memories about refs before rows [] w = ok w
  write_memories about refs before rows (c ∷ cs) w =
      write_memory about refs before rows c w >>= λ written.
      write_memories about refs before rows cs written

  -- `apply_extraction` between its two guards and its two last UPDATEs
  unfoldable pub write_extraction :
      ℕ → List ℕ → ExtractionResult → Drawing → Result PersonError Writing
  unfolding insert_people write_memories
  write_extraction about comparison_ids result s =
      let people = insert_people result.people result.people s [] in
      write_memories about people.1 people.0.graph (comparison_rows comparison_ids people.0.graph)
        result.memories
        (record {
          drawing = people.0;
          affected_people = [];
          affected_relationships = [];
          inserted = [];
        })
