-- ===== src/Prelude/Strings.antt =====
-- Python's `lower`, `strip`, `split` and `str` of a number, over lists of code points. Case is
-- ASCII's: a code point above 127 is left as it is.
use Prim.Native.Nat.{ℕ, zero, suc, ◌+◌, ◌/◌, ◌%◌, ◌<◌}
use mathlib.Core.Path.{◌≡◌, refl}
use mathlib.Core.Bool.{Bool, false, ◌&&◌, ◌||◌}
use mathlib.Core.List.{List, [], ◌∷◌, ◌++◌, reverse, map}
use native.Mathlib.Omega.{arith}
use mathlib.Core.Logic.{inl, inr}
use compliance_pulse.Prelude.Tests.{Bool-cases, ltb, leb, ◌==◌, if◌then◌else◌}
use compliance_pulse.Prelude.Chars.{Text}
use compliance_pulse.Prelude.Lists.{All}

unfoldable pub lower_code : ℕ → ℕ
lower_code c = if leb b'A' c && leb c b'Z' then c + 32 else c

-- `s.lower()`
unfoldable pub lower : Text → Text
unfolding lower_code
lower = map lower_code

pub lower_idem : (s : Text) → lower (lower s) ≡ lower s
unfolding lower
lower_idem [] = refl
lower_idem (c ∷ s) = ground (arith, lower_idem s)

-- `str.isspace` of one code point
unfoldable pub is_space : ℕ → Bool
is_space c =
    leb 9 c && leb c 13
    || leb 28 c && leb c 32
    || c == 133
    || c == 160
    || c == 5760
    || leb 8192 c && leb c 8202
    || c == 8232
    || c == 8233
    || c == 8239
    || c == 8287
    || c == 12288

unfoldable pub lstrip : Text → Text
unfolding is_space
lstrip [] = []
lstrip (c ∷ s) = if is_space c then lstrip s else c ∷ s

-- `s.strip()`
unfoldable pub strip : Text → Text
unfolding lstrip
strip s = reverse (lstrip (reverse (lstrip s)))

-- `s.split(sep)` for a separator of one code point: one more piece than separators.
abbrev extend_first : ℕ → List Text → List Text
extend_first c [] = (c ∷ []) ∷ []
extend_first c (piece ∷ pieces) = (c ∷ piece) ∷ pieces

unfoldable pub split_on : ℕ → Text → List Text
split_on sep [] = [] ∷ []
split_on sep (c ∷ s) = if c == sep then [] ∷ split_on sep s else extend_first c (split_on sep s)

pub split_on-absent :
    (sep : ℕ) (s : Text) → All (λ (c : ℕ). (c == sep) ≡ false) s → split_on sep s ≡ s ∷ []
unfolding split_on
split_on-absent sep [] h = refl
split_on-absent sep (c ∷ s) h = rw h.0 (rw (split_on-absent sep s h.1) refl)

pub split_on-append :
    (sep : ℕ) (s t : Text)
    → All (λ (c : ℕ). (c == sep) ≡ false) s
    → split_on sep (s ++ sep ∷ t) ≡ s ∷ split_on sep t
unfolding split_on
split_on-append sep [] t h = ground arith
split_on-append sep (c ∷ s) t h = rw h.0 (rw (split_on-append sep s t h.1) refl)

-- `str(n)`
unfoldable pub decimal_fuel : ℕ → ℕ → Text → Text
decimal_fuel zero n acc = acc
decimal_fuel (suc f) n acc =
    let digit = b'0' + n % 10 in
    let rest = decimal_fuel f (n / 10) (digit ∷ acc) in if ltb n 10 then digit ∷ acc else rest

-- A number has no more digits than one more than its value.
unfoldable pub decimal : ℕ → Text
unfolding decimal_fuel
decimal n = decimal_fuel (suc n) n []

-- Fuel beyond one more than the number adds nothing.
decimal_fuel-enough :
    (f g n : ℕ) (acc : Text) → n < f → n < g → decimal_fuel f n acc ≡ decimal_fuel g n acc
unfolding decimal_fuel
decimal_fuel-enough zero g n acc h k = absurd (omega arith)
decimal_fuel-enough (suc f) zero n acc h k = absurd (omega arith)
decimal_fuel-enough (suc f) (suc g) n acc h k = elim (Bool-cases (ltb n 10)) [
  | inl small ↦ rw small refl
  | inr large ↦
      rw large (decimal_fuel-enough f g (n / 10) _ (shorter f n large h) (shorter g n large k))
]
  where
    shorter : (f n : ℕ) → ltb n 10 ≡ false → n < suc f → n / 10 < f
    shorter f n e h = ground (arith, e, h)
