-- ===== src/Messages/Recent.antt =====
-- What `load_extraction_context` of src/gossipmemo/store/_messages.py gives for a batch.
use gossip_memo.Base.{
  ℕ, zero, suc, ◌*◌, ◌-◌, ◌≤◌, ◌≡◌, refl, ap, ◌∙◌, inl, inr, Bool, true, false, Option, none, some,
  List, [], ◌∷◌, ◌++◌, ltb, ◌==◌, length, map, keep, ◌&&◌, arith, All, All-append, All-imply,
  All-intro, Bool-cases, Option-cases, keep-All, length-append, length-drop, length-keep-le,
  keep-append,
}
use mathlib.Core.List.{Memᴰ}
use mathlib.Core.List.Memᴰ
use Prim.Native.Nat.mul
use gossip_memo.Base.Sorting.{sort_by, sort_by-All}
use gossip_memo.Messages.{Message, Tables, is_same}
use gossip_memo.Messages.Batches.{model_message, is_open}
use gossip_memo.Messages.Context.{
  is_conversation, conversations, is_in_conversation, first_rowid, before_batch, select_context,
  load_extraction_context,
}
use gossip_memo.Messages.Conversations.{
  Row, row_before, keep_none, All-drop, conversations_once, IsOf, conversations-IsOf,
}
use gossip_memo.Messages.Order.{IsInOrder, sort_by-IsInOrder, sort_by-Mem, length-keep-sort_by}
use gossip_memo.Messages.Earlier.{rows, is_of_batch, IsContext, IsContext-widen, drop-IsContext}

abbrev is_inside : ℕ → ℕ × ℕ → Row → Bool
is_inside space c r = is_in_conversation space c r.1

module _ (limit space batch : ℕ) (messages : List Message) where
  abbrev found_for : ℕ × ℕ → List Row
  found_for c = before_batch limit space batch (rows space batch messages) c

  abbrev selected : List (ℕ × ℕ) → List Row
  selected cs = select_context limit space batch (rows space batch messages) cs

  before_batch-IsContext :
      (c : ℕ × ℕ)
      → IsOf (keep (is_open space batch) messages) c
      → All (IsContext space batch messages (λ q. Memᴰ q (found_for c))) (found_for c)
  unfolding before_batch
  before_batch-IsContext c of_batch =
      elim (Option-cases
        (first_rowid (keep (is_of_batch space batch messages c) (rows space batch messages)))) [
          | inl e ↦ rw (e, before_batch) tt
          | inr (first, e) ↦
              rw (e, before_batch)
                (All-intro _ _ (drop-IsContext space batch messages c first e _ of_batch))
        ]

  before_batch-le : (c : ℕ × ℕ) → length (found_for c) ≤ limit
  unfolding before_batch
  before_batch-le c =
      elim (Option-cases
        (first_rowid (keep (is_of_batch space batch messages c) (rows space batch messages)))) [
          | inl e ↦ rw (e, before_batch) (omega arith)
          | inr (first, e) ↦
              let earlier =
                keep (λ (r : Row). is_in_conversation space c r.1 && ltb r.0 first)
                  (rows space batch messages) in
              rw (e, before_batch) (omega (arith, length-drop (length earlier - limit) earlier))
        ]

  before_batch-inside : (c : ℕ × ℕ) → All (λ r. is_inside space c r ≡ true) (found_for c)
  unfolding before_batch
  before_batch-inside c =
      elim (Option-cases
        (first_rowid (keep (is_of_batch space batch messages c) (rows space batch messages)))) [
          | inl e ↦ rw (e, before_batch) tt
          | inr (first, e) ↦
              rw (e, before_batch)
                (All-drop (λ r. is_inside space c r ≡ true) _ _
                  (keep-All (λ r. is_inside space c r ≡ true) _ (rows space batch messages)
                    (λ r m b. ground (arith, b))))
        ]

  selected-IsContext :
      (cs : List (ℕ × ℕ))
      → All (IsOf (keep (is_open space batch) messages)) cs
      → All (IsContext space batch messages (λ q. Memᴰ q (selected cs))) (selected cs)
  unfolding select_context
  selected-IsContext [] h = tt
  selected-IsContext (c ∷ cs) h =
      All-append (IsContext space batch messages (λ q. Memᴰ q (found_for c ++ selected cs)))
        (found_for c) (selected cs)
        (All-imply _ _ (found_for c)
          (λ r.
            IsContext-widen space batch messages (λ q. Memᴰ q (found_for c))
              (λ q. Memᴰ q (found_for c ++ selected cs)) r
              (λ q m. Memᴰ.append_left (selected cs) m))
          (before_batch-IsContext c h.0))
        (All-imply _ _ (selected cs)
          (λ r.
            IsContext-widen space batch messages (λ q. Memᴰ q (selected cs))
              (λ q. Memᴰ q (found_for c ++ selected cs)) r
              (λ q m. Memᴰ.append_right (found_for c) m))
          (selected-IsContext cs h.1))

  not_inside :
      (c d : ℕ × ℕ) (here : Bool) (provider : ℕ) (key : Option ℕ)
      → is_conversation c d ≡ false
      → ((here && provider == d.0) && is_same key (some d.1)) ≡ true
      → ((here && provider == c.0) && is_same key (some c.1)) ≡ false
  not_inside c d here provider none e f = ground (arith, f)
  not_inside c d here provider (some k) e f = ground (arith, e, f)

  found_for_other :
      (c d : ℕ × ℕ) → is_conversation c d ≡ false → keep (is_inside space c) (found_for d) ≡ []
  found_for_other c d e = keep_none (is_inside space c) (found_for d) (
      All-imply (λ r. is_inside space d r ≡ true) (λ r. is_inside space c r ≡ false) (found_for d)
        (λ r f.
          not_inside c d (r.1.space_id == space) r.1.source.provider r.1.source.conversation_key e
            f)
        (before_batch-inside d))

  select_context-le :
      (c : ℕ × ℕ) (cs : List (ℕ × ℕ))
      → length (keep (is_inside space c) (selected cs))
        ≤ length (keep (is_conversation c) cs) * limit
  unfolding select_context
  select_context-le c [] = omega arith
  select_context-le c (d ∷ cs) =
      let rest = select_context-le c cs in
      let joined =
        ap length (keep-append (is_inside space c) (found_for d) (selected cs))
        ∙ length-append (keep (is_inside space c) (found_for d))
            (keep (is_inside space c) (selected cs)) in
      elim (Bool-cases (is_conversation c d)) [
        | inl e ↦ rw e (
            omega (
              arith,
              joined,
              rest,
              length-keep-le (is_inside space c) (found_for d),
              before_batch-le d,
              mul.suc (length (keep (is_conversation c) cs)) limit,
            ))
        | inr e ↦
            let nothing = ap length (found_for_other c d e) in
            rw e (omega (arith, joined, rest, nothing))
      ]

at_most_once : (n k limit : ℕ) → n ≤ k * limit → k ≤ 1 → n ≤ limit
at_most_once n zero limit h le = omega (arith, h)
at_most_once n (suc zero) limit h le = omega (arith, h)
at_most_once n (suc (suc k)) limit h le = absurd (omega (arith, le))

-- The context of a batch is made of stored rows, in the order of their rowids. Each is of a
-- conversation (space, provider and key) of a row of the batch that is still open, and comes before
-- every row of the batch in that conversation; a row of the same conversation that comes after it
-- and before the batch is in the context too. Of any one conversation there are at most `limit`.
pub load_extraction_context_rows :
    (space batch limit : ℕ) (t : Tables)
    → (found : List Row) × (load_extraction_context space batch limit t
        ≡ map (λ (r : Row). model_message r.1) found)
      × IsInOrder found
      × All (IsContext space batch t.messages (λ q. Memᴰ q found)) found
      × ((c : ℕ × ℕ) → length (keep (λ (r : Row). is_in_conversation space c r.1) found) ≤ limit)
unfolding load_extraction_context
load_extraction_context_rows space batch zero t = ([], refl, tt, tt, λ c. omega arith)
load_extraction_context_rows space batch (suc limit) t =
    let cs = conversations (keep (is_open space batch) t.messages) in
    let found = selected (suc limit) space batch t.messages cs in
    (
      sort_by row_before found,
      refl,
      sort_by-IsInOrder found,
      sort_by-All (IsContext space batch t.messages (λ q. Memᴰ q (sort_by row_before found)))
          row_before found
          (All-imply _ _ found
            (λ r.
              IsContext-widen space batch t.messages (λ q. Memᴰ q found)
                (λ q. Memᴰ q (sort_by row_before found)) r (λ q. sort_by-Mem q found))
            (selected-IsContext (suc limit) space batch t.messages cs
              (conversations-IsOf (keep (is_open space batch) t.messages)))),
      λ c.
          let once = conversations_once c (keep (is_open space batch) t.messages) in
          let le = select_context-le (suc limit) space batch t.messages c cs in
          let same = length-keep-sort_by (λ r. is_in_conversation space c r.1) found in
          at_most_once _ _ _ (omega (arith, same, le)) once,
    )
