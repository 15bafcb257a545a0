-- ===== src/People/SelfRelationship.antt =====
-- A relationship of a model's answer whose two references name one person, in `apply_extraction`
-- of src/gossipmemo/store/_messages.py.
use gossip_memo.Base.{
  ℕ, Bool, true, false, Option, none, some, List, [], ◌∷◌, ◌++◌, ◌≡◌, ◌⊎◌, ◌==◌, any,
}
use gossip_memo.Base.Results.{Result, ok, err}
use gossip_memo.People.{Memory, Graph, PersonError, same_person, first_of}
use gossip_memo.People.Memories.{value_or}
use gossip_memo.People.Extracted.{ExtractedRelationship, ExtractedMemory, Signature, Writing}
use gossip_memo.People.Extracted.Write.{
  write_memory, write_memories, resolve_all, repeats_row, repeats_inserted, is_some,
  known_relationships,
}
use gossip_memo.People.Linking.{HasSameNames}

module _ (normalized : ℕ → ℕ) (similar : ℕ → ℕ → Bool) (id_of : ℕ → ℕ)
    (inferred reason now space batch : ℕ) where
  module _ (about : ℕ) (refs : List (ℕ × ℕ)) (before : Graph) (rows : List Memory) where
    abbrev write : ExtractedMemory → Writing → Result PersonError Writing
    write c w =
        write_memory normalized similar id_of inferred reason now space batch about refs before rows
          c w

    abbrev pub named : Graph → List ℕ → List ℕ
    named g references =
        resolve_all normalized similar id_of inferred reason now space batch refs g references

    abbrev pub known : Graph → List ExtractedRelationship → List ℕ
    known g rs =
        known_relationships normalized similar id_of inferred reason now space batch refs g rs []

    abbrev pub compared : ExtractedMemory → Option Memory
    compared c = first_of (λ (m : Memory). m.id == value_or c.supersedes 0) rows

    abbrev pub repeats_known : ExtractedMemory → List ℕ → List ℕ → Memory → Bool
    repeats_known c people relationships row =
        repeats_row normalized similar id_of inferred reason now space batch before c people
          relationships row

    abbrev pub repeats_new : ExtractedMemory → List ℕ → List ℕ → Signature → Bool
    repeats_new c people relationships signature =
        repeats_inserted normalized similar id_of inferred reason now space batch c people
          relationships signature

    -- What the body of the loop over memories leaves as it was, and the only error it ends with.
    -- What has been inserted stays.
    data Written (w : Writing) : Result PersonError Writing → Type 0 where
      went_on :
          (next : Writing)
          → HasSameNames w.drawing.graph next.drawing.graph
          → (later : List Signature) → next.inserted ≡ w.inserted ++ later
          → Written w (ok next)
      gave_up : Written w (err same_person)

    -- The memory repeats a row that was compared with it, or one that this answer has inserted.
    abbrev pub IsRepeat : List ℕ → ExtractedMemory → List Signature → Type 0
    IsRepeat people c inserted =
        (relationships : List ℕ) × (((is_some (compared c) ≡ false)
            × (any (repeats_known c people relationships) rows ≡ true))
          ⊎ (any (repeats_new c people relationships) inserted ≡ true))

    abbrev pub write_all : List ExtractedMemory → Writing → Result PersonError Writing
    write_all cs w =
        write_memories normalized similar id_of inferred reason now space batch about refs before
          rows cs w

    -- The loop ends in the error, or it goes through and had a reason to skip the memory.
    pub data AbortsUnlessRepeat (people : List ℕ) (c : ExtractedMemory)
        : Result PersonError Writing → Type 0 where
      aborts : AbortsUnlessRepeat people c (err same_person)
      repeat :
          (final : Writing)
          → IsRepeat people c final.inserted
          → AbortsUnlessRepeat people c (ok final)

    abbrev extend : Option ℕ → List ℕ → List ℕ
    extend found ids = elim found [ none ↦ ids | some id ↦ id ∷ ids ]
