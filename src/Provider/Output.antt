-- ===== src/Provider/Output.antt =====
-- The text of a completion (src/gossipmemo/transport.py, `_message_content`).
use gossip_memo.Base.{
  ℕ, ◌≡◌, ◌↔◌, refl, ap, Bool, true, false, some, none, List, [], ◌∷◌, ◌++◌, if◌then◌else◌,
}
use gossip_memo.Base.Results.{ok, err}
use gossip_memo.Provider.{
  Text, LlmError, empty_message, no_text, Part, plain, mapping, other, Content, text, parts,
  missing, parts_text, is_blank, message_content,
}

-- The text of a list of parts: that of a string, that under the key of a mapping that has a text
-- there, and nothing of any other part, one after another.
pub data HasPartsText : List Part → Text → Type 0 where
  no_parts : HasPartsText [] []
  string_part :
      {u t : Text} {ps : List Part} → HasPartsText ps t → HasPartsText (plain u ∷ ps) (u ++ t)
  text_part :
      {u t : Text} {ps : List Part}
      → HasPartsText ps t
      → HasPartsText (mapping (some u) ∷ ps) (u ++ t)
  textless_part :
      {t : Text} {ps : List Part} → HasPartsText ps t → HasPartsText (mapping none ∷ ps) t
  other_part : {t : Text} {ps : List Part} → HasPartsText ps t → HasPartsText (other ∷ ps) t

-- The text that a message carries: its own, or that of its parts; else it carries none.
pub data HasText : Content → Text → Type 0 where
  own_text : {t : Text} → HasText (text t) t
  joined_text : {t : Text} {ps : List Part} → HasPartsText ps t → HasText (parts ps) t

parts_text-HasPartsText : (ps : List Part) → HasPartsText ps (parts_text ps)
unfolding parts_text
parts_text-HasPartsText [] = no_parts
parts_text-HasPartsText (plain u ∷ ps) = string_part (parts_text-HasPartsText ps)
parts_text-HasPartsText (mapping (some u) ∷ ps) = text_part (parts_text-HasPartsText ps)
parts_text-HasPartsText (mapping none ∷ ps) = textless_part (parts_text-HasPartsText ps)
parts_text-HasPartsText (other ∷ ps) = other_part (parts_text-HasPartsText ps)

HasPartsText-only : {ps : List Part} {t : Text} → HasPartsText ps t → parts_text ps ≡ t
unfolding parts_text
HasPartsText-only no_parts = refl
HasPartsText-only (string_part {u = u} h) = ap (λ (z : Text). u ++ z) (HasPartsText-only h)
HasPartsText-only (text_part {u = u} h) = ap (λ (z : Text). u ++ z) (HasPartsText-only h)
HasPartsText-only (textless_part h) = HasPartsText-only h
HasPartsText-only (other_part h) = HasPartsText-only h

own_text-only : {u t : Text} → HasText (text u) t → u ≡ t
own_text-only own_text = refl

joined_text-only : {ps : List Part} {t : Text} → HasText (parts ps) t → parts_text ps ≡ t
joined_text-only (joined_text p) = HasPartsText-only p

missing-HasText : {t : Text} → ¬ HasText missing t
missing-HasText h = elim h [ ]

module _ (is_space : ℕ → Bool) where
  accepted :
      (b : Bool) (e : LlmError) (u t : Text)
      → is_blank is_space u ≡ b
      → ((if b then err e else ok u) ≡ ok t) ↔ ((u ≡ t) × (is_blank is_space t ≡ false))
  accepted true e u t h =
      (λ p. cc, λ (r, q). let h' : is_blank is_space t ≡ true = rw (← r) h in cc)
  accepted false e u t h = (λ p. let r : u ≡ t = cc in (r, rw (← r) h), λ (r, q). cc)

  -- A message content is accepted with a text exactly if it carries that text and the text is not
  -- blank. The text of a list of parts is that of its strings and of its mappings that have one, in
  -- their order; a content that is neither a text nor a list carries none.
  pub message_content_exact :
      (c : Content) (t : Text)
      → (message_content is_space c ≡ ok t) ↔ (HasText c t × (is_blank is_space t ≡ false))
  unfolding message_content
  message_content_exact (text u) t =
      let (there, back) = accepted (is_blank is_space u) empty_message u t refl in
      (λ h. let (e, q) = there h in (rw (← e) own_text, q), λ (m, q). back (own_text-only m, q))
  message_content_exact (parts ps) t =
      let (there, back) =
        accepted (is_blank is_space (parts_text ps)) no_text (parts_text ps) t refl in
      (
        λ h. let (e, q) = there h in (joined_text (rw (← e) (parts_text-HasPartsText ps)), q),
        λ (m, q). back (joined_text-only m, q),
      )
  message_content_exact missing t = (λ h. cc, λ (m, q). absurd (missing-HasText m))
