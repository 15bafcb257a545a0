-- ===== src/Chunking/Greedy.antt =====
-- The packing of `greedy_chunks` (src/gossipmemo/chunking.py).
use mathlib.Core.List.{append-nil, append_assoc}
use gossip_memo.Base.{
  ◌≡◌, ◌⊎◌, inl, inr, refl, sym, ◌∙◌, Bool, true, false, some, List, [], ◌∷◌, ◌++◌, arith, concat,
  concat-snoc, All, All-append, Bool-cases,
}
use gossip_memo.Base.Results.{Result, ok, ◌>>=◌, >>=-eq-ok, ok-injective}
use gossip_memo.Chunking.{
  ItemType, split_oversized, Packing, is_empty, place_piece, close, pack_pieces, pack_items,
  greedy_chunks,
}
use gossip_memo.Chunking.Pieces.{texts, texts-append, texts-split_oversized}

module _ {ℓ} {Item : Type ℓ} where
  -- All that has been packed, in order.
  abbrev packed : Packing Item → List Item
  packed p = concat p.chunks ++ p.current

  concat-close : (p : Packing Item) → concat (close p) ≡ packed p
  concat-close p = go p.current refl
    where
      go : (c : List Item) → p.current ≡ c → concat (close p) ≡ packed p
      go [] e = rw e (simp append-nil)
      go (x ∷ c) e = rw e (concat-snoc p.chunks (x ∷ c))

  module _ (fits : List Item → Bool) where
    packed-place_piece :
        (p : Packing Item) (piece : Item)
        → packed (place_piece fits p piece) ≡ packed p ++ piece ∷ []
    unfolding place_piece
    packed-place_piece p piece = go p.current refl
      where
        go :
            (c : List Item)
            → p.current ≡ c
            → packed (place_piece fits p piece) ≡ packed p ++ piece ∷ []
        go [] e = simp (e, append-nil)
        go (x ∷ c) e = elim (Bool-cases (fits ((x ∷ c) ++ piece ∷ []))) [
          | inl f ↦ simp (e, f, append_assoc)
          | inr f ↦ simp (e, f, concat-snoc)
        ]

    current-place_piece :
        (p : Packing Item) (piece : Item) → is_empty (place_piece fits p piece).current ≡ false
    unfolding place_piece
    current-place_piece p piece = ground arith

    module _ {E : Type 0} (check : List Item → Result E (Unit {0})) where
      -- A chunk that may be sent: `check` has passed it, and it holds something.
      abbrev pub IsChecked : List Item → Type 0
      IsChecked c = (is_empty c ≡ false) × (check c ≡ ok tt)

      -- Every chunk that is closed may be sent, and the open one if there is anything in it.
      abbrev AllChecked : Packing Item → Type 0
      AllChecked p = All IsChecked p.chunks × ((is_empty p.current ≡ true) ⊎ IsChecked p.current)

      chunks-place_piece :
          (p : Packing Item) (piece : Item)
          → AllChecked p
          → All IsChecked (place_piece fits p piece).chunks
      unfolding place_piece
      chunks-place_piece p piece (done, open_one) = elim open_one [
        | inl e ↦ rw e done
        | inr c ↦ rw c.0 (elim (Bool-cases (fits (p.current ++ piece ∷ []))) [
          | inl f ↦ rw f done
          | inr f ↦ rw f (All-append IsChecked p.chunks (p.current ∷ []) done (c, tt))
        ])
      ]

      pack_pieces-Returns :
          (p : Packing Item) (pieces : List Item) {p' : Packing Item}
          → AllChecked p
          → pack_pieces fits check p pieces ≡ ok p'
          → AllChecked p' × (packed p' ≡ packed p ++ pieces)
      unfolding pack_pieces
      pack_pieces-Returns p [] a e = rw (← ok-injective e) (a, sym (append-nil (packed p)))
      pack_pieces-Returns p (piece ∷ pieces) a e =
          let (_, c, e') = >>=-eq-ok (check (place_piece fits p piece).current) _ e in
          let (a', packs) =
            pack_pieces-Returns (place_piece fits p piece) pieces
              (chunks-place_piece p piece a, inr (current-place_piece p piece, c)) e' in
          (
            a',
            packs ∙ rw (packed-place_piece p piece) (append_assoc (packed p) (piece ∷ []) pieces),
          )

module _ {ℓ κ} {Item : Type ℓ} {Char : Type κ} (items : ItemType Item Char)
    (fits : List Item → Bool) {E : Type 0} (oversized : E)
    (check : List Item → Result E (Unit {0})) where
  open items use {content, with_content}

  -- The pieces of all the items, in order.
  pub split_all : List Item → Result E (List Item)
  split_all [] = ok []
  split_all (item ∷ rest) = do
    pieces ← split_oversized items fits oversized item
    more ← split_all rest
    ok (pieces ++ more)

  pack_items-Returns :
      (p : Packing Item) (source : List Item) {p' : Packing Item}
      → AllChecked fits check p
      → pack_items items fits oversized check p source ≡ ok p'
      → AllChecked fits check p'
        × ((ps : List Item) × (split_all source ≡ ok ps) × (packed p' ≡ packed p ++ ps))
  unfolding pack_items split_all
  pack_items-Returns p [] a e = rw (← ok-injective e) (a, ([], refl, sym (append-nil (packed p))))
  pack_items-Returns p (item ∷ rest) a e =
      let (pieces, s, e1) = >>=-eq-ok (split_oversized items fits oversized item) _ e in
      let (p1, q, e2) = >>=-eq-ok (pack_pieces fits check p pieces) _ e1 in
      let (a1, packs1) = pack_pieces-Returns fits check p pieces a q in
      let (a2, (more, t, packs2)) = pack_items-Returns p1 rest a1 e2 in
      (
        a2,
        (pieces ++ more, rw (s, t) refl, packs2 ∙ rw packs1 (append_assoc (packed p) pieces more)),
      )

  texts-split_all :
      (copies : (item : Item) (t : List Char) → content (with_content item t) ≡ some t)
      (source : List Item) {ps : List Item}
      → split_all source ≡ ok ps
      → texts items ps ≡ texts items source
  unfolding split_all
  texts-split_all copies [] e = rw (← ok-injective e) refl
  texts-split_all copies (item ∷ rest) e =
      let (pieces, s, e1) = >>=-eq-ok (split_oversized items fits oversized item) _ e in
      let (more, t, e2) = >>=-eq-ok (split_all rest) _ e1 in
      rw
        (
          ← ok-injective e2,
          texts-append items pieces more,
          texts-split_oversized items copies fits oversized item s,
          texts-split_all copies rest t,
        )
        refl

  All-close : (p : Packing Item) → AllChecked fits check p → All (IsChecked fits check) (close p)
  All-close p (done, inl e) = rw e done
  All-close p (done, inr c) =
      rw (c.0) (All-append (IsChecked fits check) p.chunks (p.current ∷ []) done (c, tt))

  -- When `greedy_chunks` returns, every chunk holds something and was passed by `check`, and the
  -- chunks put together are the pieces of all the items in their order.
  pub greedy_chunks-pieces :
      (source : List Item) {chunks : List (List Item)}
      → greedy_chunks items fits oversized check source ≡ ok chunks
      → All (IsChecked fits check) chunks
        × ((ps : List Item) × (split_all source ≡ ok ps) × (concat chunks ≡ ps))
  unfolding greedy_chunks
  greedy_chunks-pieces source e =
      let (p, q, e') = >>=-eq-ok (pack_items items fits oversized check _ source) _ e in
      let (a, (ps, s, packs)) = pack_items-Returns _ source (tt, inl refl) q in
      rw (← ok-injective e') (All-close p a, (ps, s, concat-close p ∙ packs))

  -- The text of the chunks is the text of the items: nothing is lost, added or moved.
  pub texts-greedy_chunks :
      (copies : (item : Item) (t : List Char) → content (with_content item t) ≡ some t)
      (source : List Item) {chunks : List (List Item)}
      → greedy_chunks items fits oversized check source ≡ ok chunks
      → texts items (concat chunks) ≡ texts items source
  texts-greedy_chunks copies source e =
      let (_, (ps, s, c)) = greedy_chunks-pieces source e in rw c (texts-split_all copies source s)

  module _ (accepts : (c : List Item) → fits c ≡ true → check c ≡ ok tt) where
    fits-place_piece :
        (p : Packing Item) (piece : Item)
        → fits (piece ∷ []) ≡ true
        → fits (place_piece fits p piece).current ≡ true
    unfolding place_piece
    fits-place_piece p piece f = elim (Bool-cases (fits (p.current ++ piece ∷ []))) [
      | inl g ↦ ground (arith, f, g)
      | inr g ↦ ground (arith, f, g)
    ]

    pack_items_total :
        (p : Packing Item) (source : List Item)
        → All (λ item. fits (item ∷ []) ≡ true) source
        → (p' : Packing Item) × (pack_items items fits oversized check p source ≡ ok p')
    unfolding pack_items split_oversized pack_pieces
    pack_items_total p [] f = (p, refl)
    pack_items_total p (item ∷ rest) (f, fs) =
        let (p', e) = pack_items_total (place_piece fits p item) rest fs in
        (p', rw (f, accepts (place_piece fits p item).current (fits-place_piece p item f)) e)

    split_all_fits :
        (source : List Item)
        → All (λ item. fits (item ∷ []) ≡ true) source
        → split_all source ≡ ok source
    unfolding split_all split_oversized
    split_all_fits [] f = refl
    split_all_fits (item ∷ rest) (f, fs) = rw (f, split_all_fits rest fs) refl

    -- If every item fits a request of its own, and `check` passes whatever fits, then the packing
    -- returns: with every item in a chunk, whole and in order.
    pub greedy_chunks_total :
        (source : List Item)
        → All (λ item. fits (item ∷ []) ≡ true) source
        → (chunks : List (List Item)) × (greedy_chunks items fits oversized check source
            ≡ ok chunks)
          × (concat chunks ≡ source)
    unfolding greedy_chunks
    greedy_chunks_total source f =
        let (p, e) = pack_items_total (record { chunks = []; current = [] }) source f in
        let returns : greedy_chunks items fits oversized check source ≡ ok (close p) = rw e refl in
        let (_, (ps, s, c)) = greedy_chunks-pieces source returns in
        (close p, returns, c ∙ ok-injective (sym s ∙ split_all_fits source f))
