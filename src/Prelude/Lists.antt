-- ===== src/Prelude/Lists.antt =====
-- Lists measured by native numbers, and the Boolean searches and updates of a query.
use Prim.Native.Nat.{ℕ, zero, suc, ◌+◌, ◌-◌, ◌≤◌}
use mathlib.Core.Option.{some-injective}
use mathlib.Core.Path.{◌≡◌, refl, sym, ◌∙◌, ap, subst}
use mathlib.Core.Bool.{Bool, true, false, ◌&&◌, ◌||◌}
use mathlib.Core.List.{List, [], ◌∷◌, ◌++◌}
use mathlib.Core.Logic.{◌⊎◌, inl, inr}
use mathlib.Core.Option.{Option, none, some}
use native.Mathlib.Omega.{arith}
use compliance_pulse.Prelude.Tests.{if◌then◌else◌, Bool-cases}

module _ {ℓ} {A : Type ℓ} where
  abbrev pub length : List A → ℕ
  length [] = 0
  length (x ∷ xs) = suc (length xs)

  abbrev pub take : ℕ → List A → List A
  take zero xs = []
  take (suc n) [] = []
  take (suc n) (x ∷ xs) = x ∷ take n xs

  abbrev pub drop : ℕ → List A → List A
  drop zero xs = xs
  drop (suc n) [] = []
  drop (suc n) (x ∷ xs) = drop n xs

  abbrev pub replicate : ℕ → A → List A
  replicate zero a = []
  replicate (suc n) a = a ∷ replicate n a

  -- The rows that pass a test, in their order.
  unfoldable pub where_rows : (A → Bool) → List A → List A
  where_rows p [] = []
  where_rows p (x ∷ xs) = if p x then x ∷ where_rows p xs else where_rows p xs

  unfoldable pub count_where : (A → Bool) → List A → ℕ
  count_where p [] = 0
  count_where p (x ∷ xs) = if p x then suc (count_where p xs) else count_where p xs

  -- The first row that passes a test.
  unfoldable pub first_where : (A → Bool) → List A → Option A
  first_where p [] = none
  first_where p (x ∷ xs) = if p x then some x else first_where p xs

  -- Every row that passes a test is changed.
  unfoldable pub update_where : (A → Bool) → (A → A) → List A → List A
  update_where p f [] = []
  update_where p f (x ∷ xs) = (if p x then f x else x) ∷ update_where p f xs

  unfoldable pub any : (A → Bool) → List A → Bool
  any p [] = false
  any p (x ∷ xs) = p x || any p xs

  unfoldable pub all : (A → Bool) → List A → Bool
  all p [] = true
  all p (x ∷ xs) = p x && all p xs

  pub length-append : (xs ys : List A) → length (xs ++ ys) ≡ length xs + length ys
  length-append [] ys = omega arith
  length-append (x ∷ xs) ys = omega (arith, length-append xs ys)

  pub length-replicate : (n : ℕ) (a : A) → length (replicate n a) ≡ n
  length-replicate zero a = refl
  length-replicate (suc n) a = ap suc (length-replicate n a)

  pub length-drop : (n : ℕ) (xs : List A) → length (drop n xs) ≡ length xs - n
  length-drop zero xs = omega arith
  length-drop (suc n) [] = omega arith
  length-drop (suc n) (x ∷ xs) = omega (arith, length-drop n xs)

  pub drop-length : (xs : List A) → drop (length xs) xs ≡ []
  drop-length [] = refl
  drop-length (x ∷ xs) = drop-length xs

  pub drop-replicate_append : (n : ℕ) (a : A) (ys : List A) → drop n (replicate n a ++ ys) ≡ ys
  drop-replicate_append zero a ys = refl
  drop-replicate_append (suc n) a ys = drop-replicate_append n a ys

  pub length-where_rows : (p : A → Bool) (xs : List A) → length (where_rows p xs) ≡ count_where p xs
  unfolding where_rows count_where
  length-where_rows p [] = refl
  length-where_rows p (x ∷ xs) = ground (arith, length-where_rows p xs)

  pub count_where-append :
      (p : A → Bool) (xs ys : List A)
      → count_where p (xs ++ ys) ≡ count_where p xs + count_where p ys
  unfolding count_where
  count_where-append p [] ys = omega arith
  count_where-append p (x ∷ xs) ys = ground (arith, count_where-append p xs ys)

  pub count_where-le-length : (p : A → Bool) (xs : List A) → count_where p xs ≤ length xs
  unfolding count_where
  count_where-le-length p [] = omega arith
  count_where-le-length p (x ∷ xs) = ground (arith, count_where-le-length p xs)

  pub first_where-passes :
      (p : A → Bool) (xs : List A) {x : A} → first_where p xs ≡ some x → p x ≡ true
  unfolding first_where
  first_where-passes p [] h = ground arith
  first_where-passes p (y ∷ xs) {x} h = ground (arith, first_where-passes p xs {x = x})

module _ {ℓ κ} {A : Type ℓ} (P : A → Type κ) where
  abbrev pub All : List A → Type κ
  All [] = Unit
  All (x ∷ xs) = P x × All xs

  pub All-append : (xs ys : List A) → All xs → All ys → All (xs ++ ys)
  All-append [] ys hx hy = hy
  All-append (x ∷ xs) ys hx hy = (hx.0, All-append xs ys hx.1 hy)

  pub All-where_rows : (p : A → Bool) (xs : List A) → All xs → All (where_rows p xs)
  unfolding where_rows
  All-where_rows p [] h = tt
  All-where_rows p (x ∷ xs) h = ground (arith, All-where_rows p xs h.1)

module _ {ℓ} {A : Type ℓ} where
  pub any-eq-false : (p : A → Bool) (xs : List A) → any p xs ≡ false → All (λ x. p x ≡ false) xs
  unfolding any
  any-eq-false p [] h = tt
  any-eq-false p (x ∷ xs) h = (ground arith, any-eq-false p xs (ground arith))

  pub any-of_All-false : (p : A → Bool) (xs : List A) → All (λ x. p x ≡ false) xs → any p xs ≡ false
  unfolding any
  any-of_All-false p [] h = refl
  any-of_All-false p (x ∷ xs) h = ground (arith, any-of_All-false p xs h.1)

  pub All-map {κ μ} :
      {P : A → Type κ} {Q : A → Type μ} (f : (a : A) → P a → Q a) (xs : List A)
      → All P xs
      → All Q xs
  All-map f [] h = tt
  All-map f (x ∷ xs) h = (f x h.0, All-map f xs h.1)

  -- An update that concerns the last row alone.
  pub update_where-last :
      (p : A → Bool) (f : A → A) (xs : List A) (x : A)
      → All (λ y. p y ≡ false) xs
      → p x ≡ true
      → update_where p f (xs ++ x ∷ []) ≡ xs ++ f x ∷ []
  unfolding update_where
  update_where-last p f [] x h e = ground arith
  update_where-last p f (y ∷ xs) x h e = ground (arith, update_where-last p f xs x h.1 e)

module _ {A : Type 0} where
  -- The value is a row of the list.
  abbrev pub Has : A → List A → Type 0
  Has a [] = ⊥
  Has a (x ∷ xs) = (x ≡ a) ⊎ Has a xs

  pub All-Has : (P : A → Type 0) (xs : List A) {a : A} → All P xs → Has a xs → P a
  All-Has P [] h m = absurd m
  All-Has P (x ∷ xs) h (inl e) = subst P e h.0
  All-Has P (x ∷ xs) h (inr m) = All-Has P xs h.1 m

  pub Has-where_rows :
      (p : A → Bool) (xs : List A) {a : A} → Has a (where_rows p xs) → Has a xs × (p a ≡ true)
  unfolding where_rows
  Has-where_rows p [] h = absurd h
  Has-where_rows p (x ∷ xs) {a} h = elim (Bool-cases (p x)) [
    | inl kept ↦ first_or_later p x xs kept (Has-where_rows p xs) (rw kept at h)
    | inr dropped ↦ let (m, e) = Has-where_rows p xs (rw dropped at h) in (inr m, e)
  ]
    where
      first_or_later :
          (p : A → Bool) (x : A) (xs : List A)
          → p x ≡ true
          → (Has a (where_rows p xs) → Has a xs × (p a ≡ true))
          → Has a (x ∷ where_rows p xs)
          → Has a (x ∷ xs) × (p a ≡ true)
      first_or_later p x xs kept ih (inl e) = (inl e, ap p (sym e) ∙ kept)
      first_or_later p x xs kept ih (inr m) = let (k, e) = ih m in (inr k, e)

  pub where_rows-All : (p : A → Bool) (xs : List A) → All (λ x. p x ≡ true) (where_rows p xs)
  unfolding where_rows
  where_rows-All p [] = tt
  where_rows-All p (x ∷ xs) = elim (Bool-cases (p x)) [
    | inl e ↦ ground (arith, e, where_rows-All p xs)
    | inr e ↦ ground (arith, e, where_rows-All p xs)
  ]

  pub first_where-Has :
      (p : A → Bool) (xs : List A) {a : A} → first_where p xs ≡ some a → Has a xs × (p a ≡ true)
  unfolding first_where
  first_where-Has p [] h = absurd (cc)
  first_where-Has p (x ∷ xs) {a} h = elim (Bool-cases (p x)) [
    | inl e ↦ let same = some-injective x a (rw e at h) in (inl same, ap p (sym same) ∙ e)
    | inr e ↦ let (there, passes) = first_where-Has p xs (rw e at h) in (inr there, passes)
  ]
