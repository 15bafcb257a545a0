-- ===== src/Messages/Context.antt =====
-- `load_extraction_context` of src/gossipmemo/store/_messages.py.
use gossip_memo.Base.{
  ℕ, zero, suc, ◌-◌, Bool, Option, none, some, List, [], ◌∷◌, ◌++◌, ◌==◌, ltb, length, drop, map,
  keep, ◌&&◌, if◌then◌else◌,
}
use gossip_memo.Base.Sorting.{sort_by}
use gossip_memo.Messages.{Message, Tables, is_same, insert_or_ignore}
use gossip_memo.Messages.Batches.{ModelMessage, model_message, is_open}

-- The rows with their rowids
abbrev pub number_from : ℕ → List Message → List (ℕ × Message)
number_from n [] = []
number_from n (row ∷ rows) = (n, row) ∷ number_from (suc n) rows

-- `source_provider != '' AND source_conversation_key IS NOT NULL AND ... != ''`
abbrev pub conversation_of : Message → Option (ℕ × ℕ)
conversation_of row = elim row.source.conversation_key [
  | none ↦ none
  | some key ↦
      if row.source.provider == 0
      then none
      else if key == 0
      then none
      else some (row.source.provider, key)
]

abbrev pub is_conversation : ℕ × ℕ → ℕ × ℕ → Bool
is_conversation c other = other.0 == c.0 && other.1 == c.1

abbrev pub add_conversation : Option (ℕ × ℕ) → List (ℕ × ℕ) → List (ℕ × ℕ)
add_conversation none rest = rest
add_conversation (some c) rest = insert_or_ignore (is_conversation c) c rest

-- The rows that GROUP BY leaves of the open rows of the batch
abbrev pub conversations : List Message → List (ℕ × ℕ)
conversations [] = []
conversations (row ∷ rows) = add_conversation (conversation_of row) (conversations rows)

abbrev pub is_in_conversation : ℕ → ℕ × ℕ → Message → Bool
is_in_conversation space c row =
    (row.space_id == space && row.source.provider == c.0)
    && is_same row.source.conversation_key (some c.1)

-- `MIN(rowid)` of rows that stand in the order of their rowids
abbrev pub first_rowid : List (ℕ × Message) → Option ℕ
first_rowid [] = none
first_rowid ((n, row) ∷ rows) = some n

-- `ORDER BY rowid DESC LIMIT limit`, as they are sorted in the end
abbrev pub last_of : ℕ → List (ℕ × Message) → List (ℕ × Message)
last_of limit rows = drop (length rows - limit) rows

unfoldable pub before_batch :
    (limit space batch : ℕ) → List (ℕ × Message) → ℕ × ℕ → List (ℕ × Message)
before_batch limit space batch rows c =
    elim (first_rowid (
      keep (λ (r : ℕ × Message). is_in_conversation space c r.1 && is_same r.1.batch (some batch))
        rows)) [
          | none ↦ []
          | some first ↦
              last_of limit
                (keep (λ (r : ℕ × Message). is_in_conversation space c r.1 && ltb r.0 first) rows)
        ]

unfoldable pub select_context :
    (limit space batch : ℕ) → List (ℕ × Message) → List (ℕ × ℕ) → List (ℕ × Message)
unfolding before_batch
select_context limit space batch rows [] = []
select_context limit space batch rows (c ∷ cs) =
    before_batch limit space batch rows c ++ select_context limit space batch rows cs

unfoldable pub load_extraction_context : (space batch limit : ℕ) → Tables → List ModelMessage
unfolding select_context
load_extraction_context space batch zero t = []
load_extraction_context space batch (suc limit) t =
    map (λ (r : ℕ × Message). model_message r.1)
      (sort_by (λ (a b : ℕ × Message). ltb a.0 b.0)
        (select_context (suc limit) space batch (number_from 1 t.messages)
          (conversations (keep (is_open space batch) t.messages))))
