-- ===== src/Messages/Retry.antt =====
-- What a caller of `record_messages` (src/gossipmemo/store/_messages.py) sees when it sends a
-- message again.
use gossip_memo.Base.{
  ℕ, Bool, true, false, Option, none, some, List, [], ◌∷◌, ◌++◌, ◌==◌, any, ◌||◌, ◌≡◌, refl, ap,
  ◌∙◌, arith, inl, inr, ◌⊎◌, Option-cases,
}
use gossip_memo.Base.Results.{ok, err}
use gossip_memo.Messages.{Message, MessageInput, is_same, truthy}
use gossip_memo.Messages.Ingest.{
  Draw, unique_failed, same_key, violates, insert, first_where, has_key, has_source, find_duplicate,
  new_row, record_message,
}
use mathlib.Core.List.{append-nil}

first_where-last :
    (p : Message → Bool) (a : List Message) (row : Message)
    → first_where p a ≡ none
    → p row ≡ true
    → first_where p (a ++ row ∷ []) ≡ some row.id
first_where-last p [] row h q = ground (arith, q)
first_where-last p (x ∷ a) row h q = ground (arith, h, first_where-last p a row)

==_refl : (a : ℕ) → (a == a) ≡ true
==_refl a = ground arith

is_same_refl : (a : Option ℕ) → is_same a a ≡ true
is_same_refl none = refl
is_same_refl (some a) = ==_refl a

-- The row that a call inserts is the one its message is found by.
find_duplicate-new_row :
    (space : ℕ) (d : Draw) (m : MessageInput) (table : List Message)
    → (truthy m.idempotency_key || truthy m.source.item_id) ≡ true
    → find_duplicate space m table ≡ none
    → find_duplicate space m (table ++ new_row space d m ∷ []) ≡ some d.message_id
unfolding find_duplicate new_row has_key has_source
find_duplicate-new_row space d m table t h = ground (
  arith,
  t,
  h,
  first_where-last (has_key space m) table (new_row space d m),
  first_where-last (has_source space m) table (new_row space d m),
  is_same_refl m.source.conversation_key,
)

-- A call with no writer in between: it found the id, or it inserted the row.
record_message-cases :
    (space : ℕ) (d : Draw) (m : MessageInput) (table table' : List Message) (id : ℕ)
    → d.arrivals ≡ []
    → record_message space d m table ≡ ok (id, table')
    → ((find_duplicate space m table ≡ some id) × (table' ≡ table))
      ⊎ ((find_duplicate space m table ≡ none)
          × (id ≡ d.message_id)
          × (table' ≡ table ++ new_row space d m ∷ []))
unfolding record_message insert
record_message-cases space d m table table' id a h =
    let same = ap (λ (l : List Message). table ++ l) a ∙ append-nil table in
    elim (Option-cases (find_duplicate space m table)) [
      | inl n ↦ inr (n, ground (arith, h, n, same), ground (arith, h, n, same))
      | inr (found, f) ↦ inl (ground (arith, h, f, same), ground (arith, h, f, same))
    ]

-- A message with an idempotency key or a source item id, neither the empty text, is recorded once:
-- when a call has returned an id and no other writer came in between, calling again with the same
-- message returns the same id, and adds no row of its own to what others commit.
pub record_message_twice :
    (space : ℕ) (d d' : Draw) (m : MessageInput) (table table' : List Message) (id : ℕ)
    → (truthy m.idempotency_key || truthy m.source.item_id) ≡ true
    → d.arrivals ≡ []
    → record_message space d m table ≡ ok (id, table')
    → record_message space d' m table' ≡ ok (id, table' ++ d'.arrivals)
unfolding record_message
record_message_twice space d d' m table table' id t a h =
    elim (record_message-cases space d m table table' id a h) [
      | inl (f, e) ↦ ground (arith, ap (find_duplicate space m) e, f)
      | inr (n, i, e) ↦
          ground
            (arith, ap (find_duplicate space m) e, i, find_duplicate-new_row space d m table t n)
    ]

any-last :
    (p : Message → Bool) (a : List Message) (row : Message)
    → p row ≡ true
    → any p (a ++ row ∷ []) ≡ true
any-last p [] row h = ground (arith, h)
any-last p (x ∷ a) row h = ground (arith, any-last p a row h)

-- An idempotency key that is the empty text is stored, but never looked up: when such a message
-- without a source item id has been recorded, with no other writer in between, sending it again
-- raises the IntegrityError of the unique constraint instead of returning the id.
pub empty_key_refused :
    (space : ℕ) (d d' : Draw) (m : MessageInput) (table table' : List Message) (id : ℕ)
    → m.idempotency_key ≡ some 0
    → truthy m.source.item_id ≡ false
    → d.arrivals ≡ []
    → d'.arrivals ≡ []
    → record_message space d m table ≡ ok (id, table')
    → record_message space d' m table' ≡ err unique_failed
unfolding record_message find_duplicate insert violates same_key new_row
empty_key_refused space d d' m table table' id k t a a' h =
    elim (record_message-cases space d m table table' id a h) [
      | inl (f, e) ↦ absurd (ground (arith, f, k, t))
      | inr (n, i, e) ↦
          let same = ap (λ (l : List Message). table' ++ l) a' ∙ append-nil table' in
          ground (
            arith,
            k,
            t,
            same,
            ap (any (violates (new_row space d' m))) (same ∙ e),
            any-last (violates (new_row space d' m)) table (new_row space d m)
                (ground (arith, k, ==_refl space)),
          )
    ]
