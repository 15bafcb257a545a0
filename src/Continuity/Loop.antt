-- ===== src/Continuity/Loop.antt =====
-- The loop of the continuity reasoner (src/gossipmemo/reasoners/continuity.py): it catches up when an
-- answer names the last message that it was given, and never ends on one that names an older message.
use gossip_memo.Base.{ℕ, zero, suc, true, none, some, List, ◌∷◌, ◌≡◌, refl, ap, ◌∙◌, ◌==◌, keep}
use gossip_memo.Base.Results.{Result, ok}
use gossip_memo.Coverage.Cursor.{is_same_refl}
use gossip_memo.People.{set_where}
use gossip_memo.People.Rows.{first_of-set_where}
use gossip_memo.Messages.{Message}
use gossip_memo.Reasoner.{attempt, run_until_caught_up}
use gossip_memo.Continuity.{
  ContinuityRow, Timeline, ContinuityResult, messages_after, continuity_of, continuity_context,
  rowid_or_0, is_valid_person, advanced, message_row, apply_continuity_reasoning, load_unread,
  continuity_reasoner,
}

module _ (now space : ℕ) {E : Type 0}
    (reason : ContinuityRow × List Message → Result E ContinuityResult) where
  -- The store after the answer `result` to the context of `c`, which names the message of `row`
  abbrev pub moved_to : Timeline → ContinuityRow → ContinuityResult → ℕ × Message → Timeline
  moved_to t c result row = record t {
    continuities =
        set_where (λ (x : ContinuityRow). x.space_id == space)
          (advanced now row.0 (keep (is_valid_person space t) result.related_person_ids) result)
          t.continuities;
  }

  apply-moved_to :
      (t : Timeline) (c : ContinuityRow) (result : ContinuityResult) (row : ℕ × Message)
      → continuity_of space t ≡ some c
      → message_row space result.through_message_id t.messages ≡ some row
      → apply_continuity_reasoning now space c.through_message_id result t
        ≡ (moved_to t c result row, true)
  unfolding apply_continuity_reasoning
  apply-moved_to t c result row e g =
      rw (e, is_same_refl c.through_message_id, g, apply_continuity_reasoning) refl

  pub attempt-moved_to :
      (t : Timeline) (c : ContinuityRow) (m : Message) (ms : List Message)
      (result : ContinuityResult) (row : ℕ × Message)
      → continuity_of space t ≡ some c
      → messages_after space (rowid_or_0 c.through_message_rowid) t.messages ≡ m ∷ ms
      → reason (c, m ∷ ms) ≡ ok result
      → message_row space result.through_message_id t.messages ≡ some row
      → attempt (continuity_reasoner now space reason) t ≡ (moved_to t c result row, ok true)
  unfolding attempt continuity_reasoner load_unread continuity_context
  attempt-moved_to t c m ms result row e f answered g =
      rw
        (
          e,
          f,
          answered,
          apply-moved_to t c result row e g,
          attempt,
          load_unread,
          continuity_context,
        )
        refl

  pub moved_to-continuity_of :
      (t : Timeline) (c : ContinuityRow) (result : ContinuityResult) (row : ℕ × Message)
      → continuity_of space t ≡ some c
      → continuity_of space (moved_to t c result row)
        ≡ some
            (advanced now row.0 (keep (is_valid_person space t) result.related_person_ids) result c)
  moved_to-continuity_of t c result row e =
      first_of-set_where (λ (x : ContinuityRow). x.space_id == space)
        (advanced now row.0 (keep (is_valid_person space t) result.related_person_ids) result)
        t.continuities c (λ r. refl) e

  -- Some message being after the continuity: while the model answers each context with one and the same message, after which the space has
  -- more, the loop does not end: no number of attempts is enough.
  pub continuity_reasoner-stuck :
      (id : ℕ) (row : ℕ × Message) (y : Message) (ys : List Message) (fuel : ℕ) (t : Timeline)
      (c : ContinuityRow) (m : Message) (ms : List Message)
      → ((context : ContinuityRow × List Message)
          → (result : ContinuityResult) × (reason context ≡ ok result)
            × (result.through_message_id ≡ id))
      → message_row space id t.messages ≡ some row
      → messages_after space row.0 t.messages ≡ y ∷ ys
      → continuity_of space t ≡ some c
      → messages_after space (rowid_or_0 c.through_message_rowid) t.messages ≡ m ∷ ms
      → run_until_caught_up (continuity_reasoner now space reason) fuel (λ turn. true) t ≡ none
  unfolding run_until_caught_up
  continuity_reasoner-stuck id row y ys zero t c m ms answers named later here unread = refl
  continuity_reasoner-stuck id row y ys (suc fuel) t c m ms answers named later here unread =
      let (result, answered, through) = answers (c, m ∷ ms) in
      let step =
        attempt-moved_to t c m ms result row here unread answered
          (ap (λ n. message_row space n t.messages) through ∙ named) in
      let rest =
        continuity_reasoner-stuck id row y ys fuel (moved_to t c result row)
          (advanced now row.0 (keep (is_valid_person space t) result.related_person_ids) result c) y
          ys answers named later (moved_to-continuity_of t c result row here) later in
      rw step rest
