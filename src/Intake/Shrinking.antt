-- ===== src/Intake/Shrinking.antt =====
-- A batch of the first unbatched messages leaves fewer of them.
use gossip_memo.Base.{
  ℕ, suc, ◌≤◌, ◌<◌, Bool, true, none, some, List, [], ◌∷◌, ◌≡◌, inl, inr, refl, sym, ap, ◌∙◌, ◌==◌,
  map, keep, length, ◌&&◌, arith, Bool-cases, List-cases, All, keep-Mem, keep-All,
}
use gossip_memo.Base.Sorting.{sort_by, sort_by-All, length-sort_by}
use gossip_memo.Messages.{Message, Tables, is_same}
use gossip_memo.Messages.Batches.{
  member, is_batchable, batch_rows, create_extraction_batch, is_unfinished, by_arrival,
  unbatched_messages, update_where, put_in_batch,
}
use gossip_memo.Intake.{first_ids, batch_first}
use mathlib.Core.List.{Memᴰ}
use mathlib.Core.Path.{subst}

-- The WHERE of `unbatched_messages`
abbrev is_unbatched : ℕ → Message → Bool
is_unbatched space row = (row.space_id == space && is_same row.batch none) && is_unfinished row

abbrev pub unbatched_count : ℕ → Tables → ℕ
unbatched_count space t = length (keep (is_unbatched space) t.messages)

length-map {ℓ κ} :
    {A : Type ℓ} {B : Type κ} (f : A → B) (xs : List A) → length (map f xs) ≡ length xs
length-map f [] = refl
length-map f (x ∷ xs) = ap suc (length-map f xs)

pub length-unbatched_messages :
    (space : ℕ) (t : Tables) → length (unbatched_messages space t) ≡ unbatched_count space t
unfolding unbatched_messages
length-unbatched_messages space t =
    length-map (λ (row : Message). (row.id, row.ingested_at))
      (sort_by by_arrival (keep (is_unbatched space) t.messages))
    ∙ length-sort_by by_arrival (keep (is_unbatched space) t.messages)

module _ (space batch_id : ℕ) (ids : List ℕ) where
  -- The UPDATE of `create_extraction_batch`
  abbrev batched : List Message → List Message
  batched rows = update_where (λ row. member row.id ids) (put_in_batch batch_id) rows

  batched-le :
      (rows : List Message)
      → length (keep (is_unbatched space) (batched rows)) ≤ length (keep (is_unbatched space) rows)
  batched-le [] = omega arith
  batched-le (row ∷ rows) = elim (Bool-cases (member row.id ids)) [
    | inl b ↦ ground (arith, b, batched-le rows)
    | inr b ↦ ground (arith, b, batched-le rows)
  ]

  batched-lt :
      (x : Message) (rows : List Message)
      → Memᴰ x rows
      → is_unbatched space x ≡ true
      → member x.id ids ≡ true
      → length (keep (is_unbatched space) (batched rows)) < length (keep (is_unbatched space) rows)
  batched-lt x [] m u k = elim m [ ]
  batched-lt x (row ∷ rows) (Memᴰ.head e) u k =
      let unbatched = ap (is_unbatched space) e in
      let taken = ap (λ (r : Message). member r.id ids) e in
      rw (sym taken ∙ k) (ground (arith, batched-le rows, sym unbatched ∙ u))
  batched-lt x (row ∷ rows) (Memᴰ.tail m) u k = elim (Bool-cases (member row.id ids)) [
    | inl b ↦ ground (arith, b, batched-lt x rows m u k)
    | inr b ↦ ground (arith, b, batched-lt x rows m u k)
  ]

member-map :
    (x : Message) (rows : List Message)
    → Memᴰ x rows
    → member x.id (map (λ (row : Message). row.id) rows) ≡ true
member-map x [] m = elim m [ ]
member-map x (row ∷ rows) (Memᴰ.head e) = ground (arith, ap (λ (r : Message). r.id) e)
member-map x (row ∷ rows) (Memᴰ.tail m) = ground (arith, member-map x rows m)

-- A batch whose ids begin with that of an unbatched message
create-lt :
    (batch_id now space first : ℕ) (more : List ℕ) (x : Message) (t : Tables)
    → Memᴰ x t.messages
    → is_unbatched space x ≡ true
    → (x.id == first) ≡ true
    → ((create_extraction_batch batch_id now space (first ∷ more) t).1 ≡ some batch_id)
      × (unbatched_count space (create_extraction_batch batch_id now space (first ∷ more) t).0
          < unbatched_count space t)
unfolding create_extraction_batch batch_rows is_batchable
create-lt batch_id now space first more x t m u h =
    let found =
      member-map x (keep (is_batchable space (first ∷ more)) t.messages)
        (keep-Mem (is_batchable space (first ∷ more)) m (ground (arith, u, h))) in
    let chosen =
      map (λ (row : Message). row.id) (keep (is_batchable space (first ∷ more)) t.messages) in
    elim (List-cases chosen) [
      | inl e ↦ let none_there = ap (member x.id) e in absurd (ground (arith, found, none_there))
      | inr (i, is, e) ↦
          rw (e, create_extraction_batch, batch_rows)
            (
              refl,
              batched-lt space batch_id (i ∷ is) x t.messages m u
                  (sym (ap (member x.id) e) ∙ found),
            )
    ]

-- What `unbatched_messages` gives of a row
abbrev listed : Message → ℕ × ℕ
listed row = (row.id, row.ingested_at)

-- While a message is unbatched, a batch is made, and fewer messages are unbatched after it.
pub batch_first-lt :
    (size space : ℕ) (draw : ℕ × ℕ) (t : Tables) (p : ℕ × ℕ) (ps : List (ℕ × ℕ))
    → unbatched_messages space t ≡ p ∷ ps
    → ((batch_first (suc size) space draw t).1 ≡ some draw.0)
      × (unbatched_count space (batch_first (suc size) space draw t).0 < unbatched_count space t)
unfolding batch_first unbatched_messages
batch_first-lt size space draw t p ps e =
    let sorted = sort_by by_arrival (keep (is_unbatched space) t.messages) in
    elim (List-cases sorted) [
      | inl f ↦ let no = sym (ap (map listed) f) ∙ e in absurd (ground (arith, no))
      | inr (x, xs, f) ↦
          let (there, unbatched) =
            (subst (All (λ y. Memᴰ y t.messages × (is_unbatched space y ≡ true))) f (
              sort_by-All (λ y. Memᴰ y t.messages × (is_unbatched space y ≡ true)) by_arrival
                (keep (is_unbatched space) t.messages)
                (keep-All (λ y. Memᴰ y t.messages × (is_unbatched space y ≡ true))
                  (is_unbatched space) t.messages (λ y m u. (m, u))))).0 in
          rw f (
            create-lt draw.0 draw.1 space x.id (first_ids size (map listed xs)) x t there unbatched
              (ground arith))
    ]
