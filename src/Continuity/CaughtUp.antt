-- ===== src/Continuity/CaughtUp.antt =====
-- The loop of the continuity reasoner catches up when the answer names the last message that it was
-- given (src/gossipmemo/reasoners/continuity.py).
use gossip_memo.Base.{
  ℕ, suc, Bool, true, false, none, some, List, [], ◌∷◌, ◌++◌, ◌≡◌, inl, inr, refl, sym, ap, ◌∙◌,
  ◌==◌, ltb, map, keep, ◌&&◌, arith, List-cases, All, All-lookup, keep-keep, keep-Mem-inv,
  append-Mem, last-split,
}
use gossip_memo.Base.Results.{Result, ok}
use gossip_memo.Base.Ascending.{IsAscending, keep-IsAscending, keep-after}
use gossip_memo.People.Rows.{first_of-only}
use gossip_memo.Messages.{Message}
use gossip_memo.Reasoner.{attempt, run_until_caught_up}
use gossip_memo.Continuity.{
  ContinuityRow, Timeline, ContinuityResult, numbered, is_later, messages_after, continuity_of,
  continuity_context, rowid_or_0, is_valid_person, advanced, message_row, load_unread,
  continuity_reasoner,
}
use gossip_memo.Continuity.Loop.{moved_to, attempt-moved_to, moved_to-continuity_of}
use mathlib.Core.List.{Memᴰ}
use mathlib.Core.Path.{subst}

-- The primary key: each id once
abbrev pub HasDistinctMessages : List Message → Type 0
HasDistinctMessages [] = Unit
HasDistinctMessages (m ∷ ms) =
    All (λ (n : Message). (m.id == n.id) ≡ false) ms × HasDistinctMessages ms

abbrev row_before : ℕ × Message → ℕ × Message → Bool
row_before a b = ltb a.0 b.0

numbered-All :
    (n k : ℕ) (ms : List Message)
    → (ltb n k ≡ true)
    → All (λ (r : ℕ × Message). ltb n r.0 ≡ true) (numbered k ms)
unfolding numbered
numbered-All n k [] h = tt
numbered-All n k (m ∷ ms) h = (h, numbered-All n (suc k) ms (ground (arith, h)))

numbered-IsAscending : (n : ℕ) (ms : List Message) → IsAscending row_before (numbered n ms)
unfolding numbered
numbered-IsAscending n [] = tt
numbered-IsAscending n (m ∷ ms) =
    (numbered-All n (suc n) ms (ground arith), numbered-IsAscending (suc n) ms)

numbered-Mem : (n : ℕ) (r : ℕ × Message) (ms : List Message) → Memᴰ r (numbered n ms) → Memᴰ r.1 ms
unfolding numbered
numbered-Mem n r [] m = elim m [ ]
numbered-Mem n r (x ∷ ms) (Memᴰ.head e) = Memᴰ.head (ap (λ (q : ℕ × Message). q.1) e)
numbered-Mem n r (x ∷ ms) (Memᴰ.tail m) = Memᴰ.tail (numbered-Mem (suc n) r ms m)

-- Rows of one id are one row.
same_row :
    (n : ℕ) (r q : ℕ × Message) (ms : List Message)
    → HasDistinctMessages ms
    → Memᴰ r (numbered n ms)
    → Memᴰ q (numbered n ms)
    → (r.1.id == q.1.id) ≡ true
    → r ≡ q
unfolding numbered
same_row n r q [] d i k e = elim i [ ]
same_row n r q (m ∷ ms) d (Memᴰ.head f) (Memᴰ.head g) e = f ∙ sym g
same_row n r q (m ∷ ms) d (Memᴰ.head f) (Memᴰ.tail k) e =
    let differs =
      All-lookup (λ (x : Message). (m.id == x.id) ≡ false) d.0 (numbered-Mem (suc n) q ms k) in
    let same = ap (λ (x : ℕ × Message). x.1.id) f in absurd (ground (arith, differs, same, e))
same_row n r q (m ∷ ms) d (Memᴰ.tail i) (Memᴰ.head g) e =
    let differs =
      All-lookup (λ (x : Message). (m.id == x.id) ≡ false) d.0 (numbered-Mem (suc n) r ms i) in
    let same = ap (λ (x : ℕ × Message). x.1.id) g in absurd (ground (arith, differs, same, e))
same_row n r q (m ∷ ms) d (Memᴰ.tail i) (Memᴰ.tail k) e = same_row (suc n) r q ms d.1 i k e

-- The last row after a place: it is found by its id, and no row is after it.
last_row :
    (space after : ℕ) (ms : List Message) (pre : List (ℕ × Message)) (l : ℕ × Message)
    → HasDistinctMessages ms
    → keep (is_later space after) (numbered 1 ms) ≡ pre ++ l ∷ []
    → (message_row space l.1.id ms ≡ some l) × (messages_after space l.0 ms ≡ [])
unfolding messages_after
last_row space after ms pre l d e =
    let rows = numbered 1 ms in
    let (there, later) =
      keep-Mem-inv (is_later space after) rows
        (subst (λ zs. Memᴰ l zs) (sym e) (append-Mem l pre [])) in
    let ascending =
      subst (IsAscending row_before) e
        (keep-IsAscending row_before (is_later space after) rows (numbered-IsAscending 1 ms)) in
    let none_after =
      keep-after row_before l pre [] (λ y z h. ground (arith, h)) (ground arith) ascending in
    let both =
      keep-keep (row_before l) (is_later space after) (is_later space l.0) rows
        (λ x. ground (arith, later)) in
    (
      first_of-only (λ (row : ℕ × Message). row.1.space_id == space && row.1.id == l.1.id) l rows
          there (ground (arith, later)) (λ y k h. same_row 1 y l ms d k there (ground (arith, h))),
      ap (map (λ (row : ℕ × Message). row.1)) (sym both ∙ ap (keep (row_before l)) e ∙ none_after),
    )

map-append-last :
    (pre : List (ℕ × Message)) (l : ℕ × Message)
    → map (λ (row : ℕ × Message). row.1) (pre ++ l ∷ [])
      ≡ map (λ (row : ℕ × Message). row.1) pre ++ l.1 ∷ []
map-append-last [] l = refl
map-append-last (x ∷ pre) l = ap (λ zs. x.1 ∷ zs) (map-append-last pre l)

load_unread-empty :
    (space : ℕ) (u : Timeline) (c : ContinuityRow)
    → continuity_of space u ≡ some c
    → messages_after space (rowid_or_0 c.through_message_rowid) u.messages ≡ []
    → load_unread space u ≡ none
unfolding load_unread continuity_context
load_unread-empty space u c e f = rw (e, f, load_unread, continuity_context) refl

attempt-empty :
    {E : Type 0} (now space : ℕ) (reason : ContinuityRow × List Message → Result E ContinuityResult)
    (u : Timeline)
    → load_unread space u ≡ none
    → attempt (continuity_reasoner now space reason) u ≡ (u, ok false)
unfolding attempt continuity_reasoner
attempt-empty now space reason u e = rw (e, attempt) refl

-- Messages' ids being a key, and some message being after the continuity: when each request is
-- answered, and the answer names the last message of what it was given, one attempt and the look at
-- what is left are enough: the loop ends without an error, with no message of the space after the
-- continuity.
pub continuity_reasoner-caught_up :
    {E : Type 0} (now space fuel : ℕ)
    (reason : ContinuityRow × List Message → Result E ContinuityResult) (t : Timeline)
    (c : ContinuityRow) (m : Message) (ms : List Message)
    → HasDistinctMessages t.messages
    → ((c : ContinuityRow) (pre : List Message) (l : Message)
        → (result : ContinuityResult) × (reason (c, pre ++ l ∷ []) ≡ ok result)
          × (result.through_message_id ≡ l.id))
    → continuity_of space t ≡ some c
    → messages_after space (rowid_or_0 c.through_message_rowid) t.messages ≡ m ∷ ms
    → (u : Timeline) × (run_until_caught_up
          (continuity_reasoner now space reason)
          (suc (suc fuel))
          (λ turn. true)
          t
        ≡ some (u, ok tt))
      × (load_unread space u ≡ none)
unfolding messages_after run_until_caught_up
continuity_reasoner-caught_up now space fuel reason t c m ms d answers here unread =
    let rows = keep (is_later space (rowid_or_0 c.through_message_rowid)) (numbered 1 t.messages) in
    elim (List-cases rows) [
      | inl e ↦
          let no = sym (ap (map (λ (row : ℕ × Message). row.1)) e) ∙ unread in
          absurd (ground (arith, no))
      | inr (q, qs, e) ↦
          let (pre, l, f) = last-split q qs in
          let (named, none_after) =
            last_row space (rowid_or_0 c.through_message_rowid) t.messages pre l d (e ∙ f) in
          let given =
            sym unread ∙ ap (map (λ (row : ℕ × Message). row.1)) (e ∙ f) ∙ map-append-last pre l in
          let (result, answered, through) =
            answers c (map (λ (row : ℕ × Message). row.1) pre) l.1 in
          let step =
            attempt-moved_to now space reason t c m ms result l here unread
              (ap (λ (zs : List Message). reason (c, zs)) given ∙ answered)
              (ap (λ n. message_row space n t.messages) through ∙ named) in
          let u = moved_to now space reason t c result l in
          let found = moved_to-continuity_of now space reason t c result l here in
          let next =
            advanced now l.0 (keep (is_valid_person space t) result.related_person_ids) result c in
          let empty = load_unread-empty space u next found none_after in
          (u, rw (step, attempt-empty now space reason u empty) refl, empty)
    ]
