-- ===== src/Chunking.antt =====
-- src/gossipmemo/chunking.py: packing evidence into requests that fit a budget, and shrinking it
-- round by round until it does.
mod Bisect
mod Pieces
mod Greedy
mod Rounds
mod Tests
use gossip_memo.Base.{
  ℕ, zero, suc, ◌+◌, ◌-◌, ◌/◌, Bool, true, false, Option, none, some, List, [], ◌∷◌, ◌++◌, map, ltb,
  leb, if◌then◌else◌, length, take, drop,
}
use gossip_memo.Base.Results.{Result, ok, err, ◌>>=◌, ◌>>◌}

-- The two variables of the bisection.
pub record Range : Type 0 where
  pub lo : ℕ
  pub hi : ℕ

-- `while lo < hi: ...` of `_split_oversized`, also of `_fit_continuity_prior` in
-- src/gossipmemo/reasoners/continuity.py. The range shrinks in each round, so `hi - lo + 1` rounds
-- are more than enough.
abbrev pub narrowing : Range → Bool
narrowing r = ltb r.lo r.hi

abbrev pub narrow : (ℕ → Bool) → Range → Range
narrow fits_prefix r =
    let middle = (r.lo + r.hi + 1) / 2 in
    if fits_prefix middle then record r { lo = middle } else record r { hi = middle - 1 }

-- The loop from the range `r` on, of at most so many rounds
unfoldable pub shrink : (ℕ → Bool) → ℕ → Range → Range
shrink fits_prefix zero r = r
shrink fits_prefix (suc rounds) r = elim (narrowing r) [
  | false ↦ r
  | true ↦ shrink fits_prefix rounds (narrow fits_prefix r)
]

pub bisect_range : (ℕ → Bool) → ℕ → ℕ → Range
unfolding shrink
bisect_range fits_prefix lo hi = shrink fits_prefix (hi - lo + 1) (record { lo = lo; hi = hi })

unfoldable pub bisect : (ℕ → Bool) → ℕ → ℕ → ℕ
unfolding bisect_range shrink
bisect fits_prefix lo hi = (bisect_range fits_prefix lo hi).lo

-- `[content[index:index + size] for index in range(0, len(content), size)]`; one slice is left for
-- each character at most, so the number of characters bounds the slices.
module _ {ℓ} {A : Type ℓ} where
  slices_from : ℕ → ℕ → List A → List (List A)
  slices_from zero size content = []
  slices_from (suc k) size [] = []
  slices_from (suc k) size (c ∷ content) =
      take size (c ∷ content) ∷ slices_from k size (drop size (c ∷ content))

  unfoldable pub slices : ℕ → List A → List (List A)
  unfolding slices_from
  slices size content = slices_from (length content) size content

-- An item of a caller's type: its `content` attribute if that is a text, and `model_copy`.
pub record ItemType {ℓ κ} (Item : Type ℓ) (Char : Type κ) : Type (ℓ ⊔ κ) where
  pub content : Item → Option (List Char)
  pub with_content : Item → List Char → Item

module _ {ℓ κ} {Item : Type ℓ} {Char : Type κ} (items : ItemType Item Char)
    (fits : List Item → Bool) where
  -- Does the copy of the item with the first `n` characters fit?
  abbrev pub fits_prefix : Item → List Char → ℕ → Bool
  fits_prefix item text n = fits (items.with_content item (take n text) ∷ [])

module _ {ℓ κ} {Item : Type ℓ} {Char : Type κ} (items : ItemType Item Char)
    (fits : List Item → Bool) {E : Type 0} (oversized : E) where
  open items use {content, with_content}

  split_text : Item → List Char → Result E (List Item)
  split_text item text =
      let lo = bisect (fits_prefix items fits item text) 1 (length text) in
      if ltb lo 1 then err oversized else ok (map (with_content item) (slices lo text))

  split_content : Item → Option (List Char) → Result E (List Item)
  unfolding split_text
  split_content item none = err oversized
  split_content item (some []) = err oversized
  split_content item (some (c ∷ text)) = split_text item (c ∷ text)

  -- `_split_oversized`
  unfoldable pub split_oversized : Item → Result E (List Item)
  unfolding split_content
  split_oversized item =
      if fits (item ∷ []) then ok (item ∷ []) else split_content item (content item)

-- The variables `chunks` and `current` of `greedy_chunks`
pub record Packing {ℓ} (Item : Type ℓ) : Type ℓ where
  pub chunks : List (List Item)
  pub current : List Item

module _ {ℓ} {Item : Type ℓ} where
  abbrev pub is_empty : List Item → Bool
  is_empty [] = true
  is_empty (_ ∷ _) = false

  -- `if current and not fits(candidate): ...`, then `current.append(piece)`
  pub place_piece : (List Item → Bool) → Packing Item → Item → Packing Item
  place_piece fits p piece =
      if is_empty p.current
      then record { chunks = p.chunks; current = piece ∷ [] }
      else if fits (p.current ++ piece ∷ [])
      then record { chunks = p.chunks; current = p.current ++ piece ∷ [] }
      else record { chunks = p.chunks ++ p.current ∷ []; current = piece ∷ [] }

  abbrev pub close : Packing Item → List (List Item)
  close p = if is_empty p.current then p.chunks else p.chunks ++ p.current ∷ []

module _ {ℓ} {Item : Type ℓ} (fits : List Item → Bool) {E : Type 0}
    (check : List Item → Result E (Unit {0})) where
  pub pack_pieces : Packing Item → List Item → Result E (Packing Item)
  unfolding place_piece
  pack_pieces p [] = ok p
  pack_pieces p (piece ∷ pieces) = do
    let p' = place_piece fits p piece
    check p'.current
    pack_pieces p' pieces

module _ {ℓ κ} {Item : Type ℓ} {Char : Type κ} (items : ItemType Item Char)
    (fits : List Item → Bool) {E : Type 0} (oversized : E)
    (check : List Item → Result E (Unit {0})) where
  pub pack_items : Packing Item → List Item → Result E (Packing Item)
  unfolding pack_pieces
  pack_items p [] = ok p
  pack_items p (item ∷ rest) = do
    pieces ← split_oversized items fits oversized item
    p' ← pack_pieces fits check p pieces
    pack_items p' rest

  unfoldable pub greedy_chunks : List Item → Result E (List (List Item))
  unfolding pack_items split_oversized
  greedy_chunks source = do
    p ← pack_items (record { chunks = []; current = [] }) source
    ok (close p)
