-- ===== src/Prelude/Order.antt =====
-- The first row of a query that is ordered by a column: `.order_by(column).first()`. Of equal rows
-- the one stored first comes first.
use Prim.Native.Nat.{ℕ, ◌≤◌}
use mathlib.Core.Path.{◌≡◌, refl, sym, subst}
use mathlib.Core.Bool.{Bool, true, false}
use mathlib.Core.Option.{Option, none, some}
use mathlib.Core.List.{List, [], ◌∷◌}
use mathlib.Core.Logic.{inl, inr}
use native.Mathlib.Omega.{arith}
use compliance_pulse.Prelude.Tests.{leb, if◌then◌else◌}
use compliance_pulse.Prelude.Lists.{All, All-map, Has}

module _ {A : Type 0} (column : A → ℕ) where
  abbrev lesser : A → Option A → A
  lesser a none = a
  lesser a (some b) = if leb (column a) (column b) then a else b

  unfoldable pub first_by : List A → Option A
  first_by [] = none
  first_by (a ∷ rows) = some (lesser a (first_by rows))

  -- A row that no other precedes; there is none only where there are no rows.
  abbrev pub IsLeast : Option A → List A → Type 0
  IsLeast none rows = rows ≡ []
  IsLeast (some a) rows = Has a rows × All (λ (b : A). column a ≤ column b) rows

  lesser-IsLeast :
      (a b : A) (rows : List A) (t : Bool)
      → leb (column a) (column b) ≡ t
      → IsLeast (some b) rows
      → IsLeast (some (if t then a else b)) (a ∷ rows)
  lesser-IsLeast a b rows true e (m, least) =
      (inl refl, (omega arith, All-map (λ c h. ground (arith, e, h)) rows least))
  lesser-IsLeast a b rows false e (m, least) = (inr m, (ground (arith, e), least))

  step-IsLeast :
      (a : A) (o : Option A) (rows : List A)
      → IsLeast o rows
      → IsLeast (some (lesser a o)) (a ∷ rows)
  step-IsLeast a none rows e =
      subst (λ r. IsLeast (some a) (a ∷ r)) (sym e) (inl refl, (omega arith, tt))
  step-IsLeast a (some b) rows h = lesser-IsLeast a b rows (leb (column a) (column b)) refl h

  pub first_by-IsLeast : (rows : List A) → IsLeast (first_by rows) rows
  unfolding first_by
  first_by-IsLeast [] = refl
  first_by-IsLeast (a ∷ rows) = step-IsLeast a (first_by rows) rows (first_by-IsLeast rows)
