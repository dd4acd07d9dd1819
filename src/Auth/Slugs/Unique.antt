-- ===== src/Auth/Slugs/Unique.antt =====
-- backend/app/auth/router.py, `_ensure_unique_slug`: how its loop ends.
use compliance_pulse.Prelude.{
  ℕ, zero, suc, ◌≤◌, ◌<◌, Text, Bool, true, false, Option, some, List, [], ◌∷◌, ◌++◌, ◌==◌, ◌≡◌,
  ◌≢◌, refl, subst, sym, ap, ◌∙◌, inl, inr, arith, any, length, length-append, where_rows, not,
  text_eq, text_eq_sound, Bool-cases, decimal, parse_int, parse_int-decimal, ltb,
}
use compliance_pulse.Models.Accounts.{Organization}
use compliance_pulse.Auth.Slugs.{
  Unicode, slugify, is_taken, numbered, try_slugs, ensure_unique_slug,
}

-- The slugs in the order in which the loop tries them
abbrev pub candidate : Text → ℕ → Text
candidate base zero = base
candidate base (suc k) = numbered base (suc k)

-- The answer is the first candidate from place `c` on that no organization has.
abbrev pub IsFirstFree : List Organization → Text → ℕ → Option Text → Type 0
IsFirstFree organizations base c answer =
    (k : ℕ) × (answer ≡ some (candidate base k))
    × (c ≤ k)
    × (is_taken organizations (candidate base k) ≡ false)
    × ((i : ℕ) → c ≤ i → i < k → is_taken organizations (candidate base i) ≡ true)

append-cancel : (s t u : Text) → s ++ t ≡ s ++ u → t ≡ u
append-cancel [] t u e = e
append-cancel (c ∷ s) t u e = append-cancel s t u (cc)

decimal-injective : (a b : ℕ) → decimal a ≡ decimal b → a ≡ b
decimal-injective a b e = cc (sym (parse_int-decimal a) ∙ ap parse_int e ∙ parse_int-decimal b)

numbered_longer : (base : Text) (k : ℕ) → numbered base k ≢ base
unfolding numbered
numbered_longer base k e = omega (arith, length-append base (b'-' ∷ decimal k), ap length e)

numbered-injective : (base : Text) (a b : ℕ) → numbered base a ≡ numbered base b → a ≡ b
unfolding numbered
numbered-injective base a b e = decimal-injective a b (
    append-cancel (b'-' ∷ []) (decimal a) (decimal b)
      (append-cancel base (b'-' ∷ decimal a) (b'-' ∷ decimal b) e))

candidate-injective : (base : Text) (i j : ℕ) → candidate base i ≡ candidate base j → i ≡ j
candidate-injective base zero zero e = refl
candidate-injective base zero (suc j) e = absurd (numbered_longer base (suc j) (sym e))
candidate-injective base (suc i) zero e = absurd (numbered_longer base (suc i) e)
candidate-injective base (suc i) (suc j) e = numbered-injective base (suc i) (suc j) e

module _ {A : Type 0} where
  where_rows-length : (p : A → Bool) (xs : List A) → length (where_rows p xs) ≤ length xs
  unfolding where_rows
  where_rows-length p [] = omega arith
  where_rows-length p (x ∷ xs) = ground (arith, where_rows-length p xs)

  -- Taking the rows out that pass a test that one passes makes a list shorter.
  taken_out_shorter :
      (p : A → Bool) (xs : List A)
      → any p xs ≡ true
      → length (where_rows (λ x. not (p x)) xs) < length xs
  unfolding any where_rows
  taken_out_shorter p [] h = absurd (cc)
  taken_out_shorter p (x ∷ xs) h = elim (Bool-cases (p x)) [
    | inl e ↦ rw e (omega (arith, where_rows-length (λ x. not (p x)) xs))
    | inr e ↦ rw e (omega (arith, taken_out_shorter p xs (rw e at h)))
  ]

  -- It keeps the rows that pass a test which excludes the first.
  taken_out_keeps :
      (p q : A → Bool) (xs : List A)
      → ((x : A) → q x ≡ true → p x ≡ false)
      → any q xs ≡ true
      → any q (where_rows (λ x. not (p x)) xs) ≡ true
  unfolding any where_rows
  taken_out_keeps p q [] excludes h = h
  taken_out_keeps p q (x ∷ xs) excludes h = elim (Bool-cases (q x)) [
    | inl e ↦ rw (excludes x e) (rw e refl)
    | inr e ↦ ground (arith, e, taken_out_keeps p q xs excludes (rw e at h))
  ]

abbrev has_slug : Text → Organization → Bool
has_slug slug o = text_eq o.slug slug

slugs_differ :
    (s t : Text) → s ≢ t → (o : Organization) → has_slug t o ≡ true → has_slug s o ≡ false
slugs_differ s t ne o h = elim (Bool-cases (has_slug s o)) [
  | inl same ↦ absurd (ne (sym (text_eq_sound o.slug s same) ∙ text_eq_sound o.slug t h))
  | inr other ↦ other
]

module _ (organizations : List Organization) (base : Text) where
  -- The organizations of `rest` are all that the candidates from `c` on can meet.
  abbrev Covers : List Organization → ℕ → Type 0
  Covers rest c =
      (i : ℕ)
      → c ≤ i
      → is_taken organizations (candidate base i) ≡ true
      → is_taken rest (candidate base i) ≡ true

  others : ℕ → List Organization → List Organization
  others c rest = where_rows (λ o. not (has_slug (candidate base c) o)) rest

  others-Covers :
      (rest : List Organization) (c : ℕ) → Covers rest c → Covers (others c rest) (suc c)
  unfolding others is_taken
  others-Covers rest c covers i le taken =
      taken_out_keeps (has_slug (candidate base c)) (has_slug (candidate base i)) rest
        (slugs_differ (candidate base c) (candidate base i)
          (λ e. absurd (omega (arith, le, candidate-injective base c i e))))
        (covers i (omega (arith, le)) taken)

  others_shorter :
      (rest : List Organization) (c : ℕ)
      → is_taken rest (candidate base c) ≡ true
      → length (others c rest) < length rest
  unfolding others is_taken
  others_shorter rest c taken = taken_out_shorter (has_slug (candidate base c)) rest taken

  step-IsFirstFree :
      (c : ℕ) (answer : Option Text)
      → is_taken organizations (candidate base c) ≡ true
      → IsFirstFree organizations base (suc c) answer
      → IsFirstFree organizations base c answer
  step-IsFirstFree c answer taken (k, e, le, free, before) = (
    k,
    e,
    omega (arith, le),
    free,
    λ i low high. elim (Bool-cases (i == c)) [
      | inl same ↦
          subst (λ j. is_taken organizations (candidate base j) ≡ true) (ground (arith, same)) taken
      | inr other ↦ before i (ground (arith, other, low)) high
    ],
  )

  try_slugs-IsFirstFree :
      (fuel c : ℕ) (rest : List Organization)
      → Covers rest c
      → length rest < fuel
      → IsFirstFree organizations base c
          (try_slugs fuel organizations base (candidate base c) (suc c))
  unfolding try_slugs
  try_slugs-IsFirstFree zero c rest covers enough = absurd (omega arith)
  try_slugs-IsFirstFree (suc fuel) c rest covers enough =
      elim (Bool-cases (is_taken organizations (candidate base c))) [
        | inl taken ↦
            let shorter = others_shorter rest c (covers c (omega arith) taken) in
            let later =
              try_slugs-IsFirstFree fuel (suc c) (others c rest) (others-Covers rest c covers)
                (omega (arith, shorter, enough)) in
            step-IsFirstFree c _ taken (rw taken later)
        | inr free ↦ rw free (c, refl, omega arith, free, λ i low high. absurd (omega arith))
      ]

first_free_unique :
    (organizations : List Organization) (base : Text) (answer other : Option Text)
    → IsFirstFree organizations base 0 answer
    → IsFirstFree organizations base 0 other
    → answer ≡ other
first_free_unique organizations base answer other (k, e, le, free, before)
      (l, e', le', free', before') =
    let not_less : k < l → ⊥ = λ h. cc (free, before' k (omega arith) h) in
    let not_more : l < k → ⊥ = λ h. cc (free', before l (omega arith) h) in
    elim (Bool-cases (k == l)) [
      | inl same ↦ e ∙ ap (λ j. some (candidate base j)) (ground (arith, same)) ∙ sym e'
      | inr differ ↦ elim (Bool-cases (ltb k l)) [
        | inl less ↦ absurd (not_less (ground (arith, less)))
        | inr more ↦ absurd (not_more (ground (arith, more, differ)))
      ]
    ]

-- The loop ends: with as much fuel as there are organizations and one more, and with any more
-- than that alike, the answer is the first of the slug and its numbered forms that no
-- organization has.
pub ensure_unique_slug-IsFirstFree :
    (unicode : Unicode) (token : Text) (organizations : List Organization) (name : Text)
    → IsFirstFree organizations
        (slugify unicode token name)
        0
        (ensure_unique_slug unicode token organizations name)
      × ((fuel : ℕ)
          → length organizations < fuel
          → try_slugs fuel organizations (slugify unicode token name) (slugify unicode token name) 1
            ≡ ensure_unique_slug unicode token organizations name)
unfolding ensure_unique_slug
ensure_unique_slug-IsFirstFree unicode token organizations name =
    let base = slugify unicode token name in
    let ends : (fuel : ℕ)
        → length organizations < fuel
        → IsFirstFree organizations base 0 (try_slugs fuel organizations base base 1) =
      λ fuel enough.
        try_slugs-IsFirstFree organizations base fuel 0 organizations (λ i le taken. taken)
          enough in
    let standard = ends (suc (length organizations)) (omega arith) in
    (standard, λ fuel enough. first_free_unique organizations base _ _ (ends fuel enough) standard)
