-- ===== src/Coverage/Latest.antt =====
-- The cursor's new place: the latest memory of a chunk, which `apply_coverage_audit` reads again from
-- the table by the ids.
use gossip_memo.Base.{
  Bool, ℕ, true, false, List, [], ◌∷◌, ◌++◌, ◌≡◌, ◌⊎◌, inl, inr, refl, ap, sym, ◌∙◌, ◌==◌, none,
  some, keep, map, All, All-lookup, All-imply, keep-All, keep-Mem, append-Mem, arith, Bool-cases,
  All-append,
}
use gossip_memo.Base.Ascending.{IsAscending, append-ascending}
use gossip_memo.People.{Memory}
use gossip_memo.Coverage.{memory_before}
use gossip_memo.Coverage.Audit.{is_in, latest, cursor_row}
use gossip_memo.Coverage.Keys.{HasDistinctIds, memory_before-asymmetric, memory_before-irreflexive}
use mathlib.Core.List.{Memᴰ}
use mathlib.Core.Path.{subst}

abbrev pub ids : List Memory → List ℕ
ids ms = map (λ (m : Memory). m.id) ms

IsUpTo : Memory → Memory → Type 0
IsUpTo l x = (x ≡ l) ⊎ (memory_before x l ≡ true)

-- The latest of memories none of which is after l, of which l is one, is l.
latest-IsUpTo :
    (l : Memory) (xs : List Memory)
    → All (λ x. IsUpTo l x) xs
    → ((latest xs ≡ none) × (xs ≡ [])) ⊎ ((n : Memory) × (latest xs ≡ some n) × IsUpTo l n)
unfolding latest IsUpTo
latest-IsUpTo l [] h = inl (refl, refl)
latest-IsUpTo l (x ∷ xs) h = elim (latest-IsUpTo l xs h.1) [
  | inl e ↦ rw e.0 (inr (x, refl, h.0))
  | inr (n, e, u) ↦ rw e (elim (Bool-cases (memory_before x n)) [
    | inl b ↦ rw b (inr (n, refl, u))
    | inr b ↦ rw b (inr (x, refl, h.0))
  ])
]

latest-top :
    (l : Memory) (xs : List Memory) → All (λ x. IsUpTo l x) xs → Memᴰ l xs → latest xs ≡ some l
unfolding latest IsUpTo
latest-top l [] h m = elim m [ ]
latest-top l (x ∷ xs) h (Memᴰ.head e) = elim (latest-IsUpTo l xs h.1) [
  | inl f ↦ rw f.0 (ap some (sym e))
  | inr (n, f, inl g) ↦ rw f (elim (Bool-cases (memory_before x n)) [
    | inl b ↦ rw b (ap some g)
    | inr b ↦ rw b (ap some (sym e))
  ])
  | inr (n, f, inr g) ↦
      rw (f, ap (λ y. memory_before y n) (sym e) ∙ memory_before-asymmetric n l g) (ap some (sym e))
]
latest-top l (x ∷ xs) h (Memᴰ.tail m) = rw (latest-top l xs h.1 m) (elim h.0 [
  | inl e ↦ rw (ap (λ y. memory_before y l) e ∙ memory_before-irreflexive l) (ap some e)
  | inr b ↦ rw b refl
])

-- A stored memory with the id of one of a chunk is that one.
pub same_id :
    (x y : Memory) (ms : List Memory)
    → HasDistinctIds ms
    → Memᴰ x ms
    → Memᴰ y ms
    → (x.id == y.id) ≡ true
    → x ≡ y
same_id x y [] d m n e = elim m [ ]
same_id x y (z ∷ ms) d (Memᴰ.head f) (Memᴰ.head g) e = f ∙ sym g
same_id x y (z ∷ ms) d (Memᴰ.head f) (Memᴰ.tail n) e =
    let differs = All-lookup (λ (n : Memory). (z.id == n.id) ≡ false) d.0 n in
    let same = ap (λ (v : Memory). v.id == y.id) (sym f) ∙ e in ground (arith, differs, same)
same_id x y (z ∷ ms) d (Memᴰ.tail m) (Memᴰ.head g) e =
    let differs = All-lookup (λ (n : Memory). (z.id == n.id) ≡ false) d.0 m in
    let same = ap (λ (v : Memory). x.id == v.id) (sym g) ∙ e in ground (arith, differs, same)
same_id x y (z ∷ ms) d (Memᴰ.tail m) (Memᴰ.tail n) e = same_id x y ms d.1 m n e

-- One of the ids of a chunk belongs to one of its memories.
pub is_in-Mem :
    (chunk : List Memory) (id : ℕ)
    → is_in (ids chunk) id ≡ true
    → (y : Memory) × Memᴰ y chunk × ((id == y.id) ≡ true)
is_in-Mem [] id h = ground (arith, h)
is_in-Mem (y ∷ chunk) id h = elim (Bool-cases (y.id == id)) [
  | inl e ↦ (y, Memᴰ.head refl, ground (arith, e))
  | inr e ↦ let (z, m, f) = is_in-Mem chunk id (ground (arith, e, h)) in (z, Memᴰ.tail m, f)
]

pub Mem-is_in : (y : Memory) (chunk : List Memory) → Memᴰ y chunk → is_in (ids chunk) y.id ≡ true
Mem-is_in y [] m = elim m [ ]
Mem-is_in y (z ∷ chunk) (Memᴰ.head e) = ground (arith, ap (λ (v : Memory). v.id) e)
Mem-is_in y (z ∷ chunk) (Memᴰ.tail m) = ground (arith, Mem-is_in y chunk m)

-- The cursor row of a chunk of stored memories in order is the chunk's last.
pub cursor_row-last :
    (ms pre : List Memory) (l : Memory)
    → HasDistinctIds ms
    → All (λ m. Memᴰ m ms) (pre ++ l ∷ [])
    → IsAscending memory_before (pre ++ l ∷ [])
    → cursor_row (ids (pre ++ l ∷ [])) ms ≡ some l
unfolding cursor_row IsUpTo
cursor_row-last ms pre l d stored a =
    let chunk = pre ++ l ∷ [] in
    let at_l = append-Mem l pre [] in
    let up_to : All (λ x. IsUpTo l x) chunk =
      All-append (λ x. IsUpTo l x) pre (l ∷ [])
        (All-imply (λ x. All (λ y. memory_before x y ≡ true) (l ∷ [])) (λ x. IsUpTo l x) pre
          (λ x h. inr h.0) (append-ascending memory_before pre (l ∷ []) a))
        (inl refl, tt) in
    latest-top l (keep (λ m. is_in (ids chunk) m.id) ms)
      (keep-All (λ x. IsUpTo l x) (λ m. is_in (ids chunk) m.id) ms
        (λ x m e.
          let (y, n, f) = is_in-Mem chunk x.id e in
          subst (λ v. IsUpTo l v)
            (sym (same_id x y ms d m (All-lookup (λ m. Memᴰ m ms) stored n) f))
            (All-lookup (λ x. IsUpTo l x) up_to n)))
      (keep-Mem (λ m. is_in (ids chunk) m.id) (All-lookup (λ m. Memᴰ m ms) stored at_l)
        (Mem-is_in l chunk at_l))

-- The ids of a filtered list are ids of the list.
pub is_in-keep :
    (p : Memory → Bool) (ms : List Memory) (id : ℕ)
    → is_in (ids ms) id ≡ false
    → is_in (ids (keep p ms)) id ≡ false
is_in-keep p [] id h = refl
is_in-keep p (m ∷ ms) id h = ground (arith, h, is_in-keep p ms id (ground (arith, h)))
