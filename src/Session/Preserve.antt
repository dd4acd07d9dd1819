-- ===== src/Session/Preserve.antt =====
-- Steps that preserve a property of the session, whether they return or raise.
use compliance_pulse.Session.World.{World}
use compliance_pulse.Session.Monad.{M, Result, ok, err, lift, gets, continue, ◌>>=◌}

module _ (P : World → Type 0) where
  pub record Preserves {A : Type 0} (m : M A) : Type 0 where
    pub at : (w : World) → P w → P (m w).1

  -- A step that reads the session alone
  pub Preserves-lift : {A : Type 0} (r : Result A) → Preserves (lift r)
  Preserves-lift r = record { at = λ w p. p }

  pub Preserves-gets : {A : Type 0} (f : World → A) → Preserves (gets f)
  Preserves-gets f = record { at = λ w p. p }

  continue-preserves :
      {A B : Type 0} (r : Result A × World) (f : A → M B)
      → ((a : A) → Preserves (f a))
      → P r.1
      → P (continue r f).1
  continue-preserves (ok a, w) f h p = (h a).at w p
  continue-preserves (err e, w) f h p = p

  pub Preserves-bind :
      {A B : Type 0} (m : M A) (f : A → M B)
      → Preserves m
      → ((a : A) → Preserves (f a))
      → Preserves (m >>= f)
  Preserves-bind m f pm pf = record { at = λ w p. continue-preserves (m w) f pf (pm.at w p) }
