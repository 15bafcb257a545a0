-- ===== src/Base/Lists.antt =====
-- Lists measured by native numbers, and predicates on all elements.
use Prim.Native.Nat.{ℕ, zero, suc, ◌+◌, ◌-◌, ◌≤◌, min}
use mathlib.Core.Path.{◌≡◌, refl, ap, sym, subst, ◌∙◌}
use mathlib.Core.Bool.{Bool, true, false, ◌&&◌, ◌||◌}
use mathlib.Core.List.{List, [], ◌∷◌, ◌++◌, append_assoc, append-nil, Memᴰ}
use mathlib.Core.Logic.{inl, inr}
use native.Mathlib.Omega.{arith}
use gossip_memo.Base.Tests.{if◌then◌else◌, Bool-cases}

module _ {ℓ} {A : Type ℓ} where
  abbrev pub length : List A → ℕ
  length [] = 0
  length (x ∷ xs) = suc (length xs)

  abbrev pub take : ℕ → List A → List A
  take zero xs = []
  take (suc n) [] = []
  take (suc n) (x ∷ xs) = x ∷ take n xs

  abbrev pub drop : ℕ → List A → List A
  drop zero xs = xs
  drop (suc n) [] = []
  drop (suc n) (x ∷ xs) = drop n xs

  -- `[x for x in xs if p(x)]`
  abbrev pub keep : (A → Bool) → List A → List A
  keep p [] = []
  keep p (x ∷ xs) = let rest = keep p xs in if p x then x ∷ rest else rest

  -- `any(p(x) for x in xs)`
  abbrev pub any : (A → Bool) → List A → Bool
  any p [] = false
  any p (x ∷ xs) = let rest = any p xs in if p x then true else rest

  -- `all(p(x) for x in xs)`
  abbrev pub all : (A → Bool) → List A → Bool
  all p [] = true
  all p (x ∷ xs) = let rest = all p xs in if p x then rest else false

  abbrev pub concat : List (List A) → List A
  concat [] = []
  concat (xs ∷ rest) = xs ++ concat rest

  abbrev pub All {κ} : (A → Type κ) → List A → Type κ
  All P [] = Unit
  All P (x ∷ xs) = P x × All P xs

  pub length-append : (xs ys : List A) → length (xs ++ ys) ≡ length xs + length ys
  length-append [] ys = omega arith
  length-append (x ∷ xs) ys = omega (arith, length-append xs ys)

  pub take-append-drop : (n : ℕ) (xs : List A) → take n xs ++ drop n xs ≡ xs
  take-append-drop zero xs = refl
  take-append-drop (suc n) [] = refl
  take-append-drop (suc n) (x ∷ xs) = ap (λ (t : List A). x ∷ t) (take-append-drop n xs)

  pub length-take : (n : ℕ) (xs : List A) → length (take n xs) ≡ min n (length xs)
  length-take zero xs = omega arith
  length-take (suc n) [] = omega arith
  length-take (suc n) (x ∷ xs) = omega (arith, length-take n xs)

  pub length-drop : (n : ℕ) (xs : List A) → length (drop n xs) ≡ length xs - n
  length-drop zero xs = omega arith
  length-drop (suc n) [] = omega arith
  length-drop (suc n) (x ∷ xs) = omega (arith, length-drop n xs)

  pub length-keep-le : (p : A → Bool) (xs : List A) → length (keep p xs) ≤ length xs
  length-keep-le p [] = omega arith
  length-keep-le p (x ∷ xs) = ground (arith, length-keep-le p xs)

  pub All-append {κ} : (P : A → Type κ) (xs ys : List A) → All P xs → All P ys → All P (xs ++ ys)
  All-append P [] ys hx hy = hy
  All-append P (x ∷ xs) ys hx hy = (hx.0, All-append P xs ys hx.1 hy)

  pub concat-append : (xs ys : List (List A)) → concat (xs ++ ys) ≡ concat xs ++ concat ys
  concat-append [] ys = refl
  concat-append (x ∷ xs) ys = rw (concat-append xs ys) (simp append_assoc)

  pub concat-snoc : (xs : List (List A)) (y : List A) → concat (xs ++ y ∷ []) ≡ concat xs ++ y
  concat-snoc xs y = simp (concat-append, append-nil)

  pub All-if {κ} :
      (P : A → Type κ) (b : Bool) (xs ys : List A)
      → All P xs
      → All P ys
      → All P (if b then xs else ys)
  All-if P true xs ys hx hy = hx
  All-if P false xs ys hx hy = hy

  pub All-intro {κ} : (P : A → Type κ) (xs : List A) → ((x : A) → Memᴰ x xs → P x) → All P xs
  All-intro P [] f = tt
  All-intro P (x ∷ xs) f = (f x (Memᴰ.head refl), All-intro P xs (λ y m. f y (Memᴰ.tail m)))

  pub All-lookup {κ} : (P : A → Type κ) {x : A} {xs : List A} → All P xs → Memᴰ x xs → P x
  All-lookup P h (Memᴰ.head e) = subst P (sym e) h.0
  All-lookup P h (Memᴰ.tail m) = All-lookup P h.1 m

  pub keep-All {κ} :
      (P : A → Type κ) (p : A → Bool) (xs : List A)
      → ((x : A) → Memᴰ x xs → p x ≡ true → P x)
      → All P (keep p xs)
  keep-All P p [] f = tt
  keep-All P p (x ∷ xs) f =
      let rest = keep-All P p xs (λ y m. f y (Memᴰ.tail m)) in
      elim (Bool-cases (p x)) [ inl e ↦ rw e (f x (Memᴰ.head refl) e, rest) | inr e ↦ rw e rest ]

  pub any-keep :
      (q p : A → Bool) {x : A} {xs : List A}
      → Memᴰ x xs
      → p x ≡ true
      → q x ≡ true
      → any q (keep p xs) ≡ true
  any-keep q p (Memᴰ.head {x = y} {xs} e) hp hq = ground (arith, ap p e, ap q e, hp, hq)
  any-keep q p (Memᴰ.tail {x = y} {xs} m) hp hq = ground (arith, any-keep q p m hp hq)

  pub All-imply {κ μ} :
      (P : A → Type κ) (Q : A → Type μ) (xs : List A) → ((x : A) → P x → Q x) → All P xs → All Q xs
  All-imply P Q [] f h = tt
  All-imply P Q (x ∷ xs) f h = (f x h.0, All-imply P Q xs f h.1)

  pub All-keep {κ} : (P : A → Type κ) (p : A → Bool) (xs : List A) → All P xs → All P (keep p xs)
  All-keep P p xs h = keep-All P p xs (λ x m e. All-lookup P h m)

  pub append-Mem : (x : A) (xs ys : List A) → Memᴰ x (xs ++ x ∷ ys)
  append-Mem x [] ys = Memᴰ.head refl
  append-Mem x (y ∷ xs) ys = Memᴰ.tail (append-Mem x xs ys)

  pub All-append-left {κ} : (P : A → Type κ) (xs ys : List A) → All P (xs ++ ys) → All P xs
  All-append-left P [] ys h = tt
  All-append-left P (x ∷ xs) ys h = (h.0, All-append-left P xs ys h.1)

  pub All-append-right {κ} : (P : A → Type κ) (xs ys : List A) → All P (xs ++ ys) → All P ys
  All-append-right P [] ys h = h
  All-append-right P (x ∷ xs) ys h = All-append-right P xs ys h.1

  pub keep-Mem : (p : A → Bool) {x : A} {xs : List A} → Memᴰ x xs → p x ≡ true → Memᴰ x (keep p xs)
  keep-Mem p (Memᴰ.head {x = y} {xs} e) h = rw (ap p (sym e) ∙ h) (Memᴰ.head e)
  keep-Mem p (Memᴰ.tail {x = y} {xs} m) h = elim (Bool-cases (p y)) [
    | inl e ↦ rw e (Memᴰ.tail (keep-Mem p m h))
    | inr e ↦ rw e (keep-Mem p m h)
  ]

  -- One filter after another is the filter by both.
  pub keep-keep :
      (q p r : A → Bool) (xs : List A)
      → ((x : A) → (q x && p x) ≡ r x)
      → keep q (keep p xs) ≡ keep r xs
  keep-keep q p r [] h = refl
  keep-keep q p r (x ∷ xs) h = ground (arith, h x, keep-keep q p r xs h)

  pub keep-Mem-inv :
      (p : A → Bool) {x : A} (xs : List A) → Memᴰ x (keep p xs) → Memᴰ x xs × (p x ≡ true)
  keep-Mem-inv p {x} xs m =
      All-lookup (λ y. Memᴰ y xs × (p y ≡ true))
        (keep-All (λ y. Memᴰ y xs × (p y ≡ true)) p xs (λ y n e. (n, e))) m

  pub keep-same :
      (p q : A → Bool) (xs : List A) → ((x : A) → Memᴰ x xs → p x ≡ q x) → keep p xs ≡ keep q xs
  keep-same p q [] h = refl
  keep-same p q (x ∷ xs) h =
      ground (arith, h x (Memᴰ.head refl), keep-same p q xs (λ y m. h y (Memᴰ.tail m)))

  pub keep-append : (p : A → Bool) (xs ys : List A) → keep p (xs ++ ys) ≡ keep p xs ++ keep p ys
  keep-append p [] ys = refl
  keep-append p (x ∷ xs) ys = ground (arith, keep-append p xs ys)

  pub any-append : (p : A → Bool) (xs ys : List A) → any p (xs ++ ys) ≡ (any p xs || any p ys)
  any-append p [] ys = refl
  any-append p (x ∷ xs) ys = ground (arith, any-append p xs ys)

  pub any-Mem : (p : A → Bool) (xs : List A) → any p xs ≡ true → (x : A) × Memᴰ x xs × (p x ≡ true)
  any-Mem p [] h = absurd (ground (arith, h))
  any-Mem p (x ∷ xs) h = elim (Bool-cases (p x)) [
    | inl b ↦ (x, Memᴰ.head refl, b)
    | inr b ↦ let (y, m, e) = any-Mem p xs (ground (arith, h, b)) in (y, Memᴰ.tail m, e)
  ]

  pub last-split : (x : A) (xs : List A) → (pre : List A) × (l : A) × (x ∷ xs ≡ pre ++ l ∷ [])
  last-split x [] = ([], x, refl)
  last-split x (y ∷ xs) =
      let (pre, l, e) = last-split y xs in (x ∷ pre, l, ap (λ (zs : List A). x ∷ zs) e)
