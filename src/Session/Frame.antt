-- ===== src/Session/Frame.antt =====
-- Steps that leave the jobs alone, one rule for each way to build a step.
use compliance_pulse.Prelude.{◌≡◌, refl, ◌∙◌, Bool, true, false, if◌then◌else◌}
use compliance_pulse.Session.World.{World}
use compliance_pulse.Session.Monad.{
  M, Result, ok, err, Error, pure, raise, lift, gets, modify, utcnow, fresh_id, continue, ◌>>=◌,
}

pub record KeepsJobs {A : Type 0} (m : M A) : Type 0 where
  pub at : (w : World) → (m w).1.jobs ≡ w.jobs

module _ {A : Type 0} where
  pub KeepsJobs-pure : (a : A) → KeepsJobs (pure a)
  KeepsJobs-pure a = record { at = λ w. refl }

  pub KeepsJobs-raise : (e : Error) → KeepsJobs (raise {A = A} e)
  KeepsJobs-raise e = record { at = λ w. refl }

  pub KeepsJobs-lift : (r : Result A) → KeepsJobs (lift r)
  KeepsJobs-lift r = record { at = λ w. refl }

  pub KeepsJobs-gets : (f : World → A) → KeepsJobs (gets f)
  KeepsJobs-gets f = record { at = λ w. refl }

  pub KeepsJobs-if :
      (b : Bool) (m n : M A) → KeepsJobs m → KeepsJobs n → KeepsJobs (if b then m else n)
  KeepsJobs-if true m n km kn = km
  KeepsJobs-if false m n km kn = kn

pub KeepsJobs-modify :
    (f : World → World) → ((w : World) → (f w).jobs ≡ w.jobs) → KeepsJobs (modify f)
KeepsJobs-modify f h = record { at = h }

pub KeepsJobs-utcnow : KeepsJobs utcnow
unfolding utcnow
KeepsJobs-utcnow = record { at = λ w. refl }

pub KeepsJobs-fresh_id : KeepsJobs fresh_id
unfolding fresh_id
KeepsJobs-fresh_id = record { at = λ w. refl }

module _ {A B : Type 0} where
  continue-jobs :
      (r : Result A × World) (f : A → M B)
      → ((a : A) → KeepsJobs (f a))
      → (continue r f).1.jobs ≡ r.1.jobs
  continue-jobs (ok a, w) f h = (h a).at w
  continue-jobs (err e, w) f h = refl

  pub KeepsJobs-bind :
      (m : M A) (f : A → M B) → KeepsJobs m → ((a : A) → KeepsJobs (f a)) → KeepsJobs (m >>= f)
  KeepsJobs-bind m f km kf = record { at = λ w. continue-jobs (m w) f kf ∙ km.at w }

pub ruleset keeps_jobs = (
  KeepsJobs-pure, KeepsJobs-raise, KeepsJobs-lift, KeepsJobs-gets, KeepsJobs-if, KeepsJobs-utcnow,
  KeepsJobs-fresh_id, KeepsJobs-bind,
)
