-- ===== src/Continuity.antt =====
-- The rolling continuity of a space: src/gossipmemo/store/_continuity.py, and the reasoner of
-- src/gossipmemo/reasoners/continuity.py, whose request is an argument. Messages are never deleted,
-- so the rowid of a message is its place in the table, counted from 1.
pub mod Loop
pub mod CaughtUp
mod Tests
use gossip_memo.Base.{
  ℕ, suc, Bool, true, false, Option, none, some, List, [], ◌∷◌, ◌==◌, ltb, leb, any, map, keep,
  length, ◌&&◌, if◌then◌else◌,
}
use gossip_memo.Base.Results.{Result, ok, ◌>>=◌}
use gossip_memo.People.{Person, is_active, first_of, set_where}
use gossip_memo.Messages.{Message, is_same}
use gossip_memo.Reasoner.{Descriptor}

pub record ContinuityRow : Type 0 where
  pub space_id : ℕ
  pub text : ℕ
  pub related_person_ids : List ℕ
  pub through_message_id : Option ℕ
  pub through_message_rowid : Option ℕ
  pub updated_at : ℕ

pub record Timeline : Type 0 where
  pub continuities : List ContinuityRow
  pub messages : List Message
  pub people : List Person

pub record ContinuityResult : Type 0 where
  pub text : ℕ
  pub related_person_ids : List ℕ
  pub through_message_id : ℕ

-- The rows with their rowids, the first of which is the given one
unfoldable pub numbered : ℕ → List Message → List (ℕ × Message)
numbered rowid [] = []
numbered rowid (m ∷ ms) = (rowid, m) ∷ numbered (suc rowid) ms

abbrev pub rowid_or_0 : Option ℕ → ℕ
rowid_or_0 none = 0
rowid_or_0 (some rowid) = rowid

-- `WHERE space_id = ? AND rowid > ? ORDER BY rowid`
abbrev pub is_later : (space after : ℕ) → ℕ × Message → Bool
is_later space after row = row.1.space_id == space && ltb after row.0

unfoldable pub messages_after : (space after : ℕ) → List Message → List Message
unfolding numbered
messages_after space after ms =
    map (λ (row : ℕ × Message). row.1) (keep (is_later space after) (numbered 1 ms))

abbrev pub continuity_of : ℕ → Timeline → Option ContinuityRow
continuity_of space t = first_of (λ (c : ContinuityRow). c.space_id == space) t.continuities

unfoldable pub continuity_context : ℕ → Timeline → Option (ContinuityRow × List Message)
unfolding messages_after
continuity_context space t = elim (continuity_of space t) [
  | none ↦ none
  | some c ↦ some (c, messages_after space (rowid_or_0 c.through_message_rowid) t.messages)
]

abbrev pub is_space_or_any : Option ℕ → ContinuityRow → Bool
is_space_or_any none c = true
is_space_or_any (some space) c = c.space_id == space

unfoldable pub pending_continuities : (threshold : ℕ) → Option ℕ → Timeline → List ℕ
unfolding messages_after
pending_continuities threshold space t =
    map (λ (c : ContinuityRow). c.space_id)
      (keep
        (λ c.
          is_space_or_any space c
          && leb threshold
              (length (messages_after c.space_id (rowid_or_0 c.through_message_rowid) t.messages)))
        t.continuities)

-- `valid_people`
abbrev pub is_valid_person : ℕ → Timeline → ℕ → Bool
is_valid_person space t id =
    any (λ (p : Person). (p.space_id == space && is_active p) && p.id == id) t.people

abbrev pub advanced : (now rowid : ℕ) → List ℕ → ContinuityResult → ContinuityRow → ContinuityRow
advanced now rowid people result c = record c {
  text = result.text;
  related_person_ids = people;
  through_message_id = some result.through_message_id;
  through_message_rowid = some rowid;
  updated_at = now;
}

-- The message with an id in the space
abbrev pub message_row : (space id : ℕ) → List Message → Option (ℕ × Message)
message_row space id ms =
    first_of (λ (row : ℕ × Message). row.1.space_id == space && row.1.id == id) (numbered 1 ms)

unfoldable pub apply_continuity_reasoning :
    (now space : ℕ) → Option ℕ → ContinuityResult → Timeline → Timeline × Bool
unfolding numbered
apply_continuity_reasoning now space expected result t = elim (continuity_of space t) [
  | none ↦ (t, false)
  | some c ↦
      if is_same c.through_message_id expected
      then elim (message_row space result.through_message_id t.messages) [
        | none ↦ (t, false)
        | some row ↦ (
          record t {
            continuities =
                set_where (λ (x : ContinuityRow). x.space_id == space)
                  (advanced now row.0 (keep (is_valid_person space t) result.related_person_ids)
                    result)
                  t.continuities;
          },
          true,
        )
      ]
      else (t, false)
]

-- `build_continuity_reasoner`; `reason` is what the model answers to a context, or what the request
-- raises. The normal answer, to one request, is passed on as it is, its through_message_id too.
unfoldable pub load_unread : ℕ → Timeline → Option (ContinuityRow × List Message)
unfolding continuity_context
load_unread space t = elim (continuity_context space t) [
  | none ↦ none
  | some context ↦ elim context.1 [ [] ↦ none | m ∷ ms ↦ some (context.0, m ∷ ms) ]
]

unfoldable pub continuity_reasoner :
    {E : Type 0} (now space : ℕ)
    → (ContinuityRow × List Message → Result E ContinuityResult)
    → Descriptor Timeline (ContinuityRow × List Message) ContinuityResult E
unfolding load_unread apply_continuity_reasoning
continuity_reasoner now space reason = record {
  load_context = load_unread space;
  call = λ t context. reason context >>= λ result. ok (some result);
  apply = λ t context result.
      apply_continuity_reasoning now space context.0.through_message_id result t;
  continue_when = λ context result applied. applied;
}
