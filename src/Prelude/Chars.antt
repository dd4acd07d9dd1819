-- ===== src/Prelude/Chars.antt =====
-- Text as a list of code points, with the operations of Python's `str` that the program uses.
use Prim.Native.Nat.{ℕ}
use Prim.Native.Char.{code}
use Prim.Native.String.{String}
use mathlib.Core.Path.{◌≡◌, refl, ap}
use mathlib.Core.Logic.{◌↔◌, ◌≢◌, inl, inr}
use mathlib.Core.Bool.{Bool, true, false, ◌&&◌, ◌||◌}
use mathlib.Core.Option.{Option, none, some}
use mathlib.Core.List.{List, [], ◌∷◌, ◌++◌}
use native.Mathlib.Omega.{arith}
use compliance_pulse.Prelude.Tests.{◌==◌, &&-eq-true, Bool-cases}

abbrev pub Text : Type 0
Text = List ℕ

-- A literal's code points.
abbrev pub codes : String → Text
codes String.[] = []
codes (String.◌∷◌ c s) = code c ∷ codes s

-- `s == t`
unfoldable pub text_eq : Text → Text → Bool
text_eq [] [] = true
text_eq (a ∷ s) (b ∷ t) = a == b && text_eq s t
text_eq _ _ = false

pub text_eq_sound : (s t : Text) → text_eq s t ≡ true → s ≡ t
unfolding text_eq
text_eq_sound [] [] h = refl
text_eq_sound (a ∷ s) (b ∷ t) h = ground (arith, text_eq_sound s t)
text_eq_sound [] (b ∷ t) h = cc
text_eq_sound (a ∷ s) [] h = cc

pub text_eq_refl : (s : Text) → text_eq s s ≡ true
unfolding text_eq
text_eq_refl [] = refl
text_eq_refl (a ∷ s) = ground (arith, text_eq_refl s)

text_eq_complete : (s t : Text) → s ≡ t → text_eq s t ≡ true
text_eq_complete s t e = rw e (text_eq_refl t)

pub text_eq_iff : (s t : Text) → (text_eq s t ≡ true) ↔ (s ≡ t)
text_eq_iff s t = (text_eq_sound s t, text_eq_complete s t)

-- The truth value of a text, and of an optional text.
abbrev pub is_empty : Text → Bool
is_empty [] = true
is_empty (_ ∷ _) = false

-- `a or b`
abbrev pub or_else : Text → Text → Text
or_else [] b = b
or_else (c ∷ a) b = c ∷ a

-- `a or b` where `a` may be `None`
abbrev pub option_or : Option Text → Text → Text
option_or none b = b
option_or (some a) b = or_else a b

-- `s in xs`
unfoldable pub text_mem : Text → List Text → Bool
text_mem s [] = false
text_mem s (x ∷ xs) = text_eq x s || text_mem s xs

-- `s.startswith(p)`
unfoldable pub starts_with : Text → Text → Bool
starts_with [] s = true
starts_with (a ∷ p) [] = false
starts_with (a ∷ p) (b ∷ s) = a == b && starts_with p s

-- `p in s`: `p` stands at some place of `s`.
unfoldable pub contains : Text → Text → Bool
unfolding starts_with
contains p [] = is_empty p
contains p (c ∷ s) = starts_with p (c ∷ s) || contains p s

pub starts_with_sound : (p s : Text) → starts_with p s ≡ true → (rest : Text) × (s ≡ p ++ rest)
unfolding starts_with
starts_with_sound [] s h = (s, refl)
starts_with_sound (a ∷ p) [] h = absurd (cc)
starts_with_sound (a ∷ p) (b ∷ s) h =
    let (rest, e) = starts_with_sound p s ((&&-eq-true (a == b) (starts_with p s) h).1) in
    (rest, ground (arith, e))

pub starts_with-append : (p rest : Text) → starts_with p (p ++ rest) ≡ true
unfolding starts_with
starts_with-append [] rest = refl
starts_with-append (a ∷ p) rest = ground (arith, starts_with-append p rest)

-- A text that contains `p` is split by it.
pub contains_sound :
    (p s : Text) → contains p s ≡ true → (pre : Text) × (post : Text) × (s ≡ pre ++ (p ++ post))
unfolding contains
contains_sound [] [] h = ([], [], refl)
contains_sound (a ∷ p) [] h = absurd (cc)
contains_sound p (c ∷ s) h = elim (Bool-cases (starts_with p (c ∷ s))) [
  | inl here ↦ let (rest, e) = starts_with_sound p (c ∷ s) here in ([], rest, e)
  | inr there ↦
      let (pre, post, e) = contains_sound p s (ground (arith, there)) in
      (c ∷ pre, post, ap (λ (t : Text). c ∷ t) e)
]

contains-prefix : (p post : Text) → contains p (p ++ post) ≡ true
unfolding contains
contains-prefix [] [] = refl
contains-prefix [] (c ∷ post) = refl
contains-prefix (a ∷ p) post = ground (arith, starts_with-append (a ∷ p) post)

pub contains-append : (pre p post : Text) → contains p (pre ++ (p ++ post)) ≡ true
unfolding contains
contains-append [] p post = contains-prefix p post
contains-append (c ∷ pre) p post = ground (arith, contains-append pre p post)

pub contains_complete : (p s pre post : Text) → s ≡ pre ++ (p ++ post) → contains p s ≡ true
contains_complete p s pre post e = rw e (contains-append pre p post)

pub absent_of_contains :
    (p s : Text) → contains p s ≡ false → (pre post : Text) → s ≢ pre ++ (p ++ post)
absent_of_contains p s h pre post e = cc (contains_complete p s pre post e)

pub contains_of_absent :
    (p s : Text) → ((pre post : Text) → s ≢ pre ++ (p ++ post)) → contains p s ≡ false
contains_of_absent p s h = elim (Bool-cases (contains p s)) [
  | inl there ↦ let (pre, post, e) = contains_sound p s there in absurd (h pre post e)
  | inr missing ↦ missing
]
