-- ===== src/Continuity/Tests.antt =====
-- Runs of the continuity reasoner, and the theorems at concrete inputs.
use gossip_memo.Base.{ℕ, true, none, some, List, [], ◌∷◌, ◌++◌, ◌≡◌, refl}
use gossip_memo.Base.Results.{Result, ok}
use gossip_memo.Messages.{user, pending, Message}
use gossip_memo.Reasoner.{run_until_caught_up}
use gossip_memo.Continuity.{
  ContinuityRow, Timeline, ContinuityResult, numbered, messages_after, pending_continuities,
  load_unread, continuity_reasoner,
}
use gossip_memo.Continuity.Loop.{continuity_reasoner-stuck}
use gossip_memo.Continuity.CaughtUp.{HasDistinctMessages, continuity_reasoner-caught_up}

abbrev said : ℕ → ℕ → Message
said id space = record {
  id = id;
  space_id = space;
  author = user;
  content = 9;
  occurred_at = 1;
  ingested_at = id;
  source = record { provider = 4; conversation_key = none; item_id = none; metadata = 0 };
  idempotency_key = none;
  batch = none;
  state = pending;
  attempts = 0;
  extracted_at = none;
  last_error = none;
}

abbrev begun : ContinuityRow
begun = record {
  space_id = 7;
  text = 0;
  related_person_ids = [];
  through_message_id = some 41;
  through_message_rowid = some 1;
  updated_at = 1;
}

-- The continuity has come to the first message, of which there are four, one in another space.
abbrev timeline : Timeline
timeline = record {
  continuities = begun ∷ [];
  messages = said 41 7 ∷ said 42 7 ∷ said 43 8 ∷ said 44 7 ∷ [];
  people = [];
}

abbrev summary : ℕ → ContinuityResult
summary id = record { text = 5; related_person_ids = []; through_message_id = id }

abbrev last_id : List Message → ℕ
last_id [] = 0
last_id (m ∷ []) = m.id
last_id (m ∷ n ∷ ms) = last_id (n ∷ ms)

last_id-append : (pre : List Message) (l : Message) → last_id (pre ++ l ∷ []) ≡ l.id
last_id-append [] l = refl
last_id-append (m ∷ []) l = refl
last_id-append (m ∷ n ∷ pre) l = last_id-append (n ∷ pre) l

abbrev answer_last : ContinuityRow × List Message → Result ℕ ContinuityResult
answer_last context = ok (summary (last_id context.1))

abbrev answer_first : ContinuityRow × List Message → Result ℕ ContinuityResult
answer_first context = ok (summary 41)

unread_two : messages_after 7 1 timeline.messages ≡ said 42 7 ∷ said 44 7 ∷ []
unfolding messages_after numbered
unread_two = refl

pending_two : pending_continuities 2 (some 7) timeline ≡ 7 ∷ []
unfolding pending_continuities messages_after numbered
pending_two = refl

pending_three : pending_continuities 3 none timeline ≡ []
unfolding pending_continuities messages_after numbered
pending_three = refl

distinct_timeline : HasDistinctMessages timeline.messages
distinct_timeline = ((refl, (refl, (refl, tt))), ((refl, (refl, tt)), ((refl, tt), (tt, tt))))

continuity_reasoner-caught_up_example :
    (u : Timeline) × (run_until_caught_up
        (continuity_reasoner 50 7 answer_last)
        2
        (λ turn. true)
        timeline
      ≡ some (u, ok tt))
    × (load_unread 7 u ≡ none)
continuity_reasoner-caught_up_example =
    continuity_reasoner-caught_up 50 7 0 answer_last timeline begun (said 42 7) (said 44 7 ∷ [])
      distinct_timeline (λ c pre l. (summary (last_id (pre ++ l ∷ [])), refl, last_id-append pre l))
      refl unread_two

-- The model repeats the message that its prompt says the continuity has come to.
named_first :
    numbered 1 timeline.messages
    ≡ (1, said 41 7) ∷ (2, said 42 7) ∷ (3, said 43 8) ∷ (4, said 44 7) ∷ []
unfolding numbered
named_first = refl

continuity_reasoner-stuck_example :
    run_until_caught_up (continuity_reasoner 50 7 answer_first) 1000 (λ turn. true) timeline ≡ none
unfolding numbered
continuity_reasoner-stuck_example =
    continuity_reasoner-stuck 50 7 answer_first 41 (1, said 41 7) (said 42 7) (said 44 7 ∷ []) 1000
      timeline begun (said 42 7) (said 44 7 ∷ []) (λ context. (summary 41, refl, refl)) refl
      unread_two refl unread_two
