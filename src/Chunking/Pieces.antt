-- ===== src/Chunking/Pieces.antt =====
-- The pieces of an oversized item (src/gossipmemo/chunking.py, `_split_oversized`).
use mathlib.Core.List.{append-nil, append_assoc}
use gossip_memo.Base.{
  ℕ, zero, suc, ◌+◌, ◌≤◌, ◌<◌, ◌≡◌, ◌⊎◌, inl, inr, refl, ap, sym, ◌∙◌, Bool, true, false, Option,
  none, some, List, [], ◌∷◌, ◌++◌, map, arith, length, take, drop, concat, All, take-append-drop,
  length-take, length-drop, Bool-cases,
}
use gossip_memo.Base.Results.{Result, ok, err}
use gossip_memo.Chunking.{
  bisect, slices, slices_from, ItemType, fits_prefix, split_text, split_content, split_oversized,
}
use gossip_memo.Chunking.Bisect.{bisect_boundary}

module _ {ℓ} {A : Type ℓ} (size : ℕ) (positive : 0 < size) where
  concat-slices_from : (k : ℕ) (xs : List A) → length xs ≤ k → concat (slices_from k size xs) ≡ xs
  unfolding slices_from
  concat-slices_from zero [] h = refl
  concat-slices_from zero (x ∷ xs) h = absurd (omega arith)
  concat-slices_from (suc k) [] h = refl
  concat-slices_from (suc k) (x ∷ xs) h =
      ap (λ (t : List A). take size (x ∷ xs) ++ t)
        (concat-slices_from k (drop size (x ∷ xs)) (omega (arith, length-drop size (x ∷ xs))))
      ∙ take-append-drop size (x ∷ xs)

  -- The slices put together are the text again.
  pub concat-slices : (xs : List A) → concat (slices size xs) ≡ xs
  unfolding slices
  concat-slices xs = concat-slices_from (length xs) xs (omega arith)

  abbrev pub IsSlice : List A → Type 0
  IsSlice s = (0 < length s) × (length s ≤ size)

  slices_from-IsSlice : (k : ℕ) (xs : List A) → All IsSlice (slices_from k size xs)
  unfolding slices_from
  slices_from-IsSlice zero xs = tt
  slices_from-IsSlice (suc k) [] = tt
  slices_from-IsSlice (suc k) (x ∷ xs) = (
    (omega (arith, length-take {ℓ} size (x ∷ xs)), omega (arith, length-take {ℓ} size (x ∷ xs))),
    slices_from-IsSlice k (drop size (x ∷ xs)),
  )

  -- Each part but the last has the full length, and the last is not empty.
  abbrev pub IsFullButLast : List (List A) → Type 0
  IsFullButLast [] = Unit
  IsFullButLast (s ∷ []) = IsSlice s
  IsFullButLast (s ∷ t ∷ rest) = (length s ≡ size) × IsFullButLast (t ∷ rest)

  cons-IsFullButLast :
      (s : List A) (rest : List (List A))
      → IsSlice s
      → (rest ≡ []) ⊎ (length s ≡ size)
      → IsFullButLast rest
      → IsFullButLast (s ∷ rest)
  cons-IsFullButLast s [] slice full h = slice
  cons-IsFullButLast s (t ∷ rest) slice (inl e) h = cc
  cons-IsFullButLast s (t ∷ rest) slice (inr e) h = (e, h)

  slices_from_none_left : (k : ℕ) (xs : List A) → (slices_from k size xs ≡ []) ⊎ (0 < length xs)
  unfolding slices_from
  slices_from_none_left zero xs = inl refl
  slices_from_none_left (suc k) [] = inl refl
  slices_from_none_left (suc k) (x ∷ xs) = inr (omega arith)

  slices_from-IsFullButLast : (k : ℕ) (xs : List A) → IsFullButLast (slices_from k size xs)
  unfolding slices_from
  slices_from-IsFullButLast zero xs = tt
  slices_from-IsFullButLast (suc k) [] = tt
  slices_from-IsFullButLast (suc k) (x ∷ xs) =
      let left = drop size (x ∷ xs) in
      cons-IsFullButLast (take size (x ∷ xs)) (slices_from k size left)
        (slices_from-IsSlice (suc k) (x ∷ xs)).0
        (elim (slices_from_none_left k left) [
          | inl e ↦ inl e
          | inr more ↦
              inr (omega (arith, more, length-take {ℓ} size (x ∷ xs), length-drop size (x ∷ xs)))
        ])
        (slices_from-IsFullButLast k left)

  pub slices-IsFullButLast : (xs : List A) → IsFullButLast (slices size xs)
  unfolding slices
  slices-IsFullButLast xs = slices_from-IsFullButLast (length xs) xs

module _ {ℓ κ} {Item : Type ℓ} {Char : Type κ} (items : ItemType Item Char)
    (fits : List Item → Bool) {E : Type 0} (oversized : E) where
  open items use {content, with_content}

  abbrev pub piece_size : Item → Char → List Char → ℕ
  piece_size item c text = bisect (fits_prefix items fits item (c ∷ text)) 1 (suc (length text))

  -- The bisection starts from one character, so the guard `lo < 1` never raises.
  split_text_ok :
      (item : Item) (c : Char) (text : List Char)
      → (0 < piece_size item c text)
        × (split_text items fits oversized item (c ∷ text)
            ≡ ok (map (with_content item) (slices (piece_size item c text) (c ∷ text))))
  unfolding split_text
  split_text_ok item c text =
      let b : 1 ≤ piece_size item c text =
        (bisect_boundary (fits_prefix items fits item (c ∷ text)) 1 (suc (length text))
          (omega arith)).1 in
      (b, ground (arith, b))

  -- What `_split_oversized` does with an item, on every branch.
  pub data Split (item : Item) : Result E (List Item) → Type (ℓ ⊔ κ) where
    whole : fits (item ∷ []) ≡ true → Split item (ok (item ∷ []))
    no_text :
        fits (item ∷ []) ≡ false
        → (content item ≡ none) ⊎ (content item ≡ some [])
        → Split item (err oversized)
    pieces :
        (c : Char) (text : List Char)
        → fits (item ∷ []) ≡ false
        → content item ≡ some (c ∷ text)
        → 0 < piece_size item c text
        → Split item (ok (map (with_content item) (slices (piece_size item c text) (c ∷ text))))

  split_content-Split :
      (item : Item)
      → fits (item ∷ []) ≡ false
      → (t : Option (List Char)) → content item ≡ t
      → Split item (split_content items fits oversized item t)
  unfolding split_content
  split_content-Split item f none e = no_text f (inl e)
  split_content-Split item f (some []) e = no_text f (inr e)
  split_content-Split item f (some (c ∷ text)) e =
      let (positive, s) = split_text_ok item c text in rw s (pieces c text f e positive)

  pub split_oversized-Split : (item : Item) → Split item (split_oversized items fits oversized item)
  unfolding split_oversized
  split_oversized-Split item = elim (Bool-cases (fits (item ∷ []))) [
    | inl f ↦ rw f (whole f)
    | inr f ↦ rw f (split_content-Split item f (content item) refl)
  ]

  -- The copies of the item with the parts `ts` of its text, cut at `size`
  pub record IsCut (item : Item) (size : ℕ) (ts : List (List Char)) : Type (ℓ ⊔ κ) where
    pub text : content item ≡ some (concat ts)
    pub positive : 0 < size
    pub parts : IsFullButLast size positive ts
    pub within : size ≤ length (concat ts)
    pub fitting : (size ≡ 1) ⊎ (fits (with_content item (take size (concat ts)) ∷ []) ≡ true)
    pub longest :
        (size ≡ length (concat ts))
        ⊎ (fits (with_content item (take (size + 1) (concat ts)) ∷ []) ≡ false)

  -- What an item may be split into, or the error
  pub data IsPieces (item : Item) : Result E (List Item) → Type (ℓ ⊔ κ) where
    refused :
        fits (item ∷ []) ≡ false
        → (content item ≡ none) ⊎ (content item ≡ some [])
        → IsPieces item (err oversized)
    alone : fits (item ∷ []) ≡ true → IsPieces item (ok (item ∷ []))
    cut :
        (size : ℕ) (ts : List (List Char))
        → fits (item ∷ []) ≡ false
        → IsCut item size ts
        → IsPieces item (ok (map (with_content item) ts))

  piece_size-IsCut :
      (item : Item) (c : Char) (text : List Char)
      → content item ≡ some (c ∷ text)
      → 0 < piece_size item c text
      → IsCut item (piece_size item c text) (slices (piece_size item c text) (c ∷ text))
  piece_size-IsCut item c text e positive =
      let size : ℕ = piece_size item c text in
      let whole = concat-slices size positive (c ∷ text) in
      let (_, from, to, below, above) =
        bisect_boundary (fits_prefix items fits item (c ∷ text)) 1 (suc (length text))
          (omega arith) in
      record {
        text = e ∙ ap some (sym whole);
        parts = slices-IsFullButLast size positive (c ∷ text);
        positive = positive;
        within = rw whole to;
        fitting = rw whole below;
        longest = rw whole above;
      }

  Split-IsPieces : (item : Item) {r : Result E (List Item)} → Split item r → IsPieces item r
  Split-IsPieces item (whole f) = alone f
  Split-IsPieces item (no_text f t) = refused f t
  Split-IsPieces item (pieces c text f t positive) =
      cut (piece_size item c text) (slices (piece_size item c text) (c ∷ text)) f
        (piece_size-IsCut item c text t positive)

  -- Splitting an item ends in the error only if the item does not fit and has no text or an empty
  -- one. Else it gives the item alone, if that fits; or copies of it with the parts of its text, all
  -- of it in order, every part but the last of one length and the last not empty and no longer. A
  -- first part of that length fits, or the length is 1; one character more would not fit, or the
  -- length is that of the text.
  pub split_oversized-IsPieces :
      (item : Item) → IsPieces item (split_oversized items fits oversized item)
  split_oversized-IsPieces item = Split-IsPieces item (split_oversized-Split item)

-- The text of the items, one after the other.
abbrev pub text_of {ℓ} : {A : Type ℓ} → Option (List A) → List A
text_of none = []
text_of (some t) = t

module _ {ℓ κ} {Item : Type ℓ} {Char : Type κ} (items : ItemType Item Char) where
  open items use {content, with_content}

  abbrev pub texts : List Item → List Char
  texts [] = []
  texts (item ∷ rest) = text_of (content item) ++ texts rest

  pub texts-append : (xs ys : List Item) → texts (xs ++ ys) ≡ texts xs ++ texts ys
  texts-append [] ys = refl
  texts-append (x ∷ xs) ys = rw (texts-append xs ys) (simp append_assoc)

  module _ (copies : (item : Item) (t : List Char) → content (with_content item t) ≡ some t) where
    texts-map :
        (item : Item) (ts : List (List Char)) → texts (map (with_content item) ts) ≡ concat ts
    texts-map item [] = refl
    texts-map item (t ∷ ts) = rw (copies item t, texts-map item ts) refl

    texts_of_Split :
        (fits : List Item → Bool) {E : Type 0} (oversized : E) (item : Item)
        {r : Result E (List Item)}
        → Split items fits oversized item r
        → (ps : List Item) → r ≡ ok ps
        → texts ps ≡ text_of (content item)
    texts_of_Split fits oversized item (whole f) ps e =
        let e' : item ∷ [] ≡ ps = cc in rw (← e') (simp append-nil)
    texts_of_Split fits oversized item (no_text f t) ps e = cc
    texts_of_Split fits oversized item (pieces c text f t positive) ps e =
        let size : ℕ = piece_size items fits oversized item c text in
        let e' : map (with_content item) (slices size (c ∷ text)) ≡ ps = cc in
        rw (← e') (
          texts-map item (slices size (c ∷ text))
          ∙ concat-slices size positive (c ∷ text)
          ∙ ap text_of (sym t))

    -- The pieces of an item carry its text, all of it and in order.
    pub texts-split_oversized :
        (fits : List Item → Bool) {E : Type 0} (oversized : E) (item : Item) {ps : List Item}
        → split_oversized items fits oversized item ≡ ok ps
        → texts ps ≡ text_of (content item)
    texts-split_oversized fits oversized item {ps} e =
        texts_of_Split fits oversized item (split_oversized-Split items fits oversized item) ps e
