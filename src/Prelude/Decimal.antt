-- ===== src/Prelude/Decimal.antt =====
-- A printed number is read back: `int(str(n))`.
use Prim.Native.Nat.{ℕ, zero, suc, ◌+◌, ◌-◌, ◌*◌, ◌/◌, ◌%◌, ◌<◌}
use mathlib.Core.Path.{◌≡◌, refl, sym, ◌∙◌, ap, subst}
use mathlib.Core.Bool.{true, false}
use mathlib.Core.Option.{some}
use mathlib.Core.List.{List, [], ◌∷◌, reverse, reverse-cons, reverse-reverse}
use mathlib.Core.Logic.{◌≢◌, inl, inr}
use native.Mathlib.Omega.{arith}
use compliance_pulse.Prelude.Tests.{Bool-cases, ltb, ◌==◌}
use compliance_pulse.Prelude.Chars.{Text}
use compliance_pulse.Prelude.Lists.{All, All-map, All-append}
use compliance_pulse.Prelude.Strings.{is_space, lstrip, strip, decimal_fuel, decimal}
use compliance_pulse.Prelude.Int.{pos, is_digit, digits_from, unsigned, signed, parse_int}

abbrev pub IsDigit : ℕ → Type 0
IsDigit c = is_digit c ≡ true

-- The number that the digits of a text stand for, read on from another
abbrev value : ℕ → Text → ℕ
value k [] = k
value k (c ∷ s) = value (k * 10 + (c - b'0')) s

digits_from-value : (k : ℕ) (s : Text) → All IsDigit s → digits_from k s ≡ some (value k s)
unfolding digits_from
digits_from-value k [] h = refl
digits_from-value k (c ∷ []) h = rw h.0 refl
digits_from-value k (c ∷ d ∷ s) h = rw h.0 (digits_from-value (k * 10 + (c - b'0')) (d ∷ s) h.1)

printed_in_range : (n : ℕ) → IsDigit (b'0' + n % 10)
unfolding is_digit
printed_in_range n = ground arith

decimal_fuel-digits : (f n : ℕ) (acc : Text) → All IsDigit acc → All IsDigit (decimal_fuel f n acc)
unfolding decimal_fuel
decimal_fuel-digits zero n acc h = h
decimal_fuel-digits (suc f) n acc h = elim (Bool-cases (ltb n 10)) [
  | inl small ↦ rw small ((printed_in_range n, h))
  | inr large ↦
      rw large (decimal_fuel-digits f (n / 10) ((b'0' + n % 10) ∷ acc) (printed_in_range n, h))
]

decimal_fuel-value : (f n : ℕ) (acc : Text) → n < f → value 0 (decimal_fuel f n acc) ≡ value n acc
unfolding decimal_fuel
decimal_fuel-value zero n acc h = absurd (omega arith)
decimal_fuel-value (suc f) n acc h = elim (Bool-cases (ltb n 10)) [
  | inl small ↦ rw small (ap (λ k. value k acc) (ground (arith, small)))
  | inr large ↦ rw large (
      decimal_fuel-value f (n / 10) ((b'0' + n % 10) ∷ acc) (ground (arith, large, h))
      ∙ ap (λ k. value k acc) (omega arith))
]

-- A printed number is made of digits.
pub decimal-digits : (n : ℕ) → All IsDigit (decimal n)
unfolding decimal
decimal-digits n = decimal_fuel-digits (suc n) n [] tt

digit-not_space : (c : ℕ) → IsDigit c → is_space c ≡ false
unfolding is_digit is_space
digit-not_space c h = ground arith

lstrip-clean : (s : Text) → All (λ c. is_space c ≡ false) s → lstrip s ≡ s
unfolding lstrip
lstrip-clean [] h = refl
lstrip-clean (c ∷ s) h = rw h.0 refl

decimal-value : (n : ℕ) → value 0 (decimal n) ≡ n
unfolding decimal
decimal-value n = decimal_fuel-value (suc n) n [] (omega arith)

unsigned-digits : (s : Text) → s ≢ [] → All IsDigit s → unsigned s ≡ some (value 0 s)
unfolding unsigned
unsigned-digits [] full h = absurd (full refl)
unsigned-digits (c ∷ s) full h = rw h.0 (digits_from-value 0 (c ∷ s) h)

pub All-reverse : {A : Type 0} (P : A → Type 0) (s : List A) → All P s → All P (reverse s)
All-reverse P [] h = tt
All-reverse P (c ∷ s) h =
    subst (All P) (sym (reverse-cons c s))
      (All-append P (reverse s) (c ∷ []) (All-reverse P s h.1) (h.0, tt))

-- A text without spaces is not stripped.
pub strip-clean : (s : Text) → All (λ c. is_space c ≡ false) s → strip s ≡ s
unfolding strip
strip-clean s h =
    ap (λ t. reverse (lstrip (reverse t))) (lstrip-clean s h)
    ∙ ap reverse (lstrip-clean (reverse s) (All-reverse (λ c. is_space c ≡ false) s h))
    ∙ reverse-reverse s

signed-digits : (s : Text) → s ≢ [] → All IsDigit s → signed s ≡ some (pos (value 0 s))
unfolding signed is_digit
signed-digits [] full h = absurd (full refl)
signed-digits (c ∷ s) full h =
    let minus : (c == b'-') ≡ false = ground (arith, h.0) in
    let plus : (c == b'+') ≡ false = ground (arith, h.0) in
    rw minus (rw plus (rw (unsigned-digits (c ∷ s) full h) refl))

decimal_fuel-full : (f n c : ℕ) (acc : Text) → decimal_fuel f n (c ∷ acc) ≢ []
unfolding decimal_fuel
decimal_fuel-full zero n c acc h = cc
decimal_fuel-full (suc f) n c acc h = elim (Bool-cases (ltb n 10)) [
  | inl small ↦ cc (rw small at h)
  | inr large ↦ decimal_fuel-full f (n / 10) (b'0' + n % 10) (c ∷ acc) (rw large at h)
]

decimal-full : (n : ℕ) → decimal n ≢ []
unfolding decimal decimal_fuel
decimal-full n h = elim (Bool-cases (ltb n 10)) [
  | inl small ↦ cc (rw small at h)
  | inr large ↦ decimal_fuel-full n (n / 10) (b'0' + n % 10) [] (rw large at h)
]

-- The number that a text was printed from is read back.
pub parse_int-decimal : (n : ℕ) → parse_int (decimal n) ≡ some (pos n)
unfolding parse_int
parse_int-decimal n =
    let clean = All-map (λ c h. digit-not_space c h) (decimal n) (decimal-digits n) in
    ap signed (strip-clean (decimal n) clean)
    ∙ signed-digits (decimal n) (decimal-full n) (decimal-digits n)
    ∙ ap (λ k. some (pos k)) (decimal-value n)
