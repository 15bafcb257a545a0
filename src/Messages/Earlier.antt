-- ===== src/Messages/Earlier.antt =====
-- The messages of a conversation before those of a batch, as `load_extraction_context` of
-- src/gossipmemo/store/_messages.py looks for them.
use gossip_memo.Base.{
  ℕ, ◌≤◌, ◌<◌, ◌≡◌, sym, inl, inr, Bool, true, some, List, ltb, take, drop, keep, ◌&&◌, arith, All,
  All-lookup, keep-Mem, keep-Mem-inv, take-append-drop,
}
use mathlib.Core.List.{Memᴰ}
use mathlib.Core.List.Memᴰ
use mathlib.Core.Path.{subst}
use gossip_memo.Base.Ascending.{IsAscending, keep-IsAscending, append-ascending}
use gossip_memo.Messages.{Message, is_same}
use gossip_memo.Messages.Batches.{is_open}
use gossip_memo.Messages.Context.{number_from, conversation_of, is_in_conversation, first_rowid}
use gossip_memo.Messages.Conversations.{
  Row, row_before, IsOf, number_from-IsAscending, first_rowid-le, first_rowid-Mem,
}

module _ (space batch : ℕ) (messages : List Message) where
  abbrev pub rows : List Row
  rows = number_from 1 messages

  -- The rows of the batch in a conversation
  abbrev pub is_of_batch : ℕ × ℕ → Row → Bool
  is_of_batch c r = is_in_conversation space c r.1 && is_same r.1.batch (some batch)

  -- A row of a conversation of the batch that comes before each row of the batch there; those
  -- between it and the batch are in `K` as well.
  pub record IsContext (K : Row → Type 0) (r : Row) : Type 0 where
    pub stored : Memᴰ r rows
    pub conversation : ℕ × ℕ
    pub of_batch :
        (m : Message) × Memᴰ m messages
        × (is_open space batch m ≡ true)
        × (conversation_of m ≡ some conversation)
    pub inside : is_in_conversation space conversation r.1 ≡ true
    pub earlier : (q : Row) → Memᴰ q rows → is_of_batch conversation q ≡ true → r.0 < q.0
    pub recent :
        (q : Row)
        → Memᴰ q rows
        → is_in_conversation space conversation q.1 ≡ true
        → r.0 < q.0
        → ((p : Row) → Memᴰ p rows → is_of_batch conversation p ≡ true → q.0 < p.0)
        → K q

  pub IsContext-widen :
      (K L : Row → Type 0) (r : Row) → ((q : Row) → K q → L q) → IsContext K r → IsContext L r
  IsContext-widen K L r f h = record {
    stored = h.stored;
    conversation = h.conversation;
    of_batch = h.of_batch;
    inside = h.inside;
    earlier = h.earlier;
    recent = λ q m i l b. f q (h.recent q m i l b);
  }

  -- Of an ascending list, what is left of it holds what is after a value of it.
  drop-later :
      (n : ℕ) (xs : List Row) (r q : Row)
      → IsAscending row_before xs
      → Memᴰ r (drop n xs)
      → Memᴰ q xs
      → r.0 < q.0
      → Memᴰ q (drop n xs)
  drop-later n xs r q ascending i k l =
      let parts = sym (take-append-drop n xs) in
      let before_rest =
        append-ascending row_before (take n xs) (drop n xs)
          (subst (IsAscending row_before) parts ascending) in
      elim (Memᴰ.append_cases (take n xs) (subst (Memᴰ q) parts k)) [
        | inl there ↦
            let across =
              All-lookup (λ (y : Row). row_before q y ≡ true)
                (All-lookup (λ (x : Row). All (λ y. row_before x y ≡ true) (drop n xs)) before_rest
                  there)
                i in
            absurd (ground (arith, across, l))
        | inr here ↦ here
      ]

  module _ (c : ℕ × ℕ) (first : ℕ)
      (begins : first_rowid (keep (is_of_batch c) rows) ≡ some first) where
    abbrev is_before : Row → Bool
    is_before r = is_in_conversation space c r.1 && ltb r.0 first

    first-le : (q : Row) → Memᴰ q rows → is_of_batch c q ≡ true → first ≤ q.0
    first-le q m b =
        All-lookup (λ (r : Row). first ≤ r.0)
          (first_rowid-le (keep (is_of_batch c) rows) first
            (keep-IsAscending row_before (is_of_batch c) rows (number_from-IsAscending 1 messages))
            begins)
          (keep-Mem (is_of_batch c) m b)

    before_first :
        (q : Row) → ((p : Row) → Memᴰ p rows → is_of_batch c p ≡ true → q.0 < p.0) → q.0 < first
    before_first q h =
        let (p, m, e) = first_rowid-Mem (keep (is_of_batch c) rows) first begins in
        let (there, b) = keep-Mem-inv (is_of_batch c) rows m in
        let less = h p there b in omega (arith, less, e)

    pub drop-IsContext :
        (n : ℕ)
        → IsOf (keep (is_open space batch) messages) c
        → (r : Row) → Memᴰ r (drop n (keep is_before rows))
        → IsContext (λ q. Memᴰ q (drop n (keep is_before rows))) r
    drop-IsContext n (m, k, e) r i =
        let whole = Memᴰ.append_right (take n (keep is_before rows)) i in
        let (there, b) =
          keep-Mem-inv is_before rows
            (subst (Memᴰ r) (take-append-drop n (keep is_before rows)) whole) in
        let (stored, opened) = keep-Mem-inv (is_open space batch) messages k in
        record {
          stored = there;
          conversation = c;
          of_batch = (m, stored, opened, e);
          inside = ground (arith, b);
          earlier = λ q j f. let le = first-le q j f in ground (arith, b, le);
          recent = λ q j f l h.
              let less = before_first q h in
              drop-later n (keep is_before rows) r q
                (keep-IsAscending row_before is_before rows (number_from-IsAscending 1 messages)) i
                (keep-Mem is_before j (ground (arith, f, less))) l;
        }
