-- ===== src/Prelude/Int.antt =====
-- Python's integers: signed numbers, `int(text)` in ASCII, and `str` of one.
use Prim.Native.Nat.{ℕ, zero, suc, ◌+◌, ◌-◌, ◌*◌}
use mathlib.Core.Path.{◌≡◌, refl}
use mathlib.Core.Bool.{Bool, true, false, ◌&&◌}
use mathlib.Core.Option.{Option, none, some}
use mathlib.Core.List.{[], ◌∷◌}
use native.Mathlib.Omega.{arith}
use compliance_pulse.Prelude.Tests.{ltb, leb, ◌==◌, if◌then◌else◌}
use compliance_pulse.Prelude.Chars.{Text, codes}
use compliance_pulse.Prelude.Strings.{strip, decimal}

-- `negsuc n` is -(n + 1).
pub data ℤ : Type 0 where
  pos : ℕ → ℤ
  negsuc : ℕ → ℤ

unfoldable pub int_eq : ℤ → ℤ → Bool
int_eq (pos m) (pos n) = m == n
int_eq (negsuc m) (negsuc n) = m == n
int_eq _ _ = false

pub int_eq_sound : (a b : ℤ) → int_eq a b ≡ true → a ≡ b
unfolding int_eq
int_eq_sound (pos m) (pos n) h = ground arith
int_eq_sound (negsuc m) (negsuc n) h = ground arith
int_eq_sound (pos m) (negsuc n) h = cc
int_eq_sound (negsuc m) (pos n) h = cc

pub int_eq_refl : (a : ℤ) → int_eq a a ≡ true
unfolding int_eq
int_eq_refl (pos n) = ground arith
int_eq_refl (negsuc n) = ground arith

-- `max(a, floor)` for a floor that is not negative
unfoldable pub at_least : ℕ → ℤ → ℕ
at_least floor (pos n) = if ltb n floor then floor else n
at_least floor (negsuc n) = floor

unfoldable pub negate : ℕ → ℤ
negate zero = pos zero
negate (suc n) = negsuc n

unfoldable pub is_digit : ℕ → Bool
is_digit c = leb b'0' c && leb c b'9'

-- The digits of a number; one underscore may stand between two of them.
unfoldable pub digits_from : ℕ → Text → Option ℕ
digits_from n [] = some n
digits_from n (c ∷ []) = if is_digit c then some (n * 10 + (c - b'0')) else none
digits_from n (c ∷ d ∷ s) =
    let plain = digits_from (n * 10 + (c - b'0')) (d ∷ s) in
    let grouped = digits_from n (d ∷ s) in
    if is_digit c then plain else if c == b'_' && is_digit d then grouped else none

unfoldable pub unsigned : Text → Option ℕ
unsigned [] = none
unsigned (c ∷ s) = if is_digit c then digits_from 0 (c ∷ s) else none

unfoldable pub signed : Text → Option ℤ
signed [] = none
signed (c ∷ s) =
    if c == b'-'
    then map_option negate (unsigned s)
    else if c == b'+'
    then map_option pos (unsigned s)
    else map_option pos (unsigned (c ∷ s))
  where
    map_option : (ℕ → ℤ) → Option ℕ → Option ℤ
    map_option f none = none
    map_option f (some n) = some (f n)

-- `int(text)`; `none` is a `ValueError`.
unfoldable pub parse_int : Text → Option ℤ
unfolding negate is_digit digits_from unsigned signed
parse_int s = signed (strip s)

-- `str(n)`
unfoldable pub int_text : ℤ → Text
int_text (pos n) = decimal n
int_text (negsuc n) = b'-' ∷ decimal (suc n)

parse_int_runs :
    (parse_int (codes " 124\n") ≡ some (pos 124))
    × (parse_int (codes "-9") ≡ some (negsuc 8))
    × (parse_int (codes "1_000") ≡ some (pos 1000))
    × (parse_int (codes "1__0") ≡ none)
unfolding parse_int strip
parse_int_runs = (refl, refl, refl, refl)
