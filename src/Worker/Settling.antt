-- ===== src/Worker/Settling.antt =====
-- How backend/worker.py settles a job whose scan is over.
use compliance_pulse.Prelude.{
  ℕ, suc, ◌≤◌, ◌≡◌, refl, ap, ◌⊎◌, inl, inr, arith, Bool, true, false, some, if◌then◌else◌,
}
use compliance_pulse.Models.Scanning.{Time, ScanJob, completed, failed}
use compliance_pulse.Session.World.{World}
use compliance_pulse.Session.Monad.{Result, ok, err, ok-injective, Error}
use compliance_pulse.Security.Settings.{SecuritySettings}
use compliance_pulse.Engine.Executor.Steps.{ScanExecutionResult}
use compliance_pulse.Worker.{is_over, overrun, Failures, add_failure, settle, count_failures}
use compliance_pulse.Worker.Claiming.{taken}
use compliance_pulse.Worker.Running.{finished_job}

-- How a job of a world ends whose scan had the outcome `r`, with the counts of failures before and
-- behind it.
pub record Settles (s : SecuritySettings) (counts after : Failures) (r : Result ScanExecutionResult)
    (old final : ScanJob) : Type 0 where
  pub same_id : final.id ≡ old.id
  pub same_organization : final.organization_id ≡ old.organization_id
  pub ended : (t : Time) × (final.completed_at ≡ some t)
  pub over : (final.status ≡ completed) ⊎ (final.status ≡ failed)
  pub in_time : final.status ≡ completed → is_over s final.started_at final.completed_at ≡ false
  pub linked :
      (res : ScanExecutionResult)
      → r ≡ ok res
      → (final.scan_id ≡ some res.scan.id)
        × (after ≡ counts)
        × (is_over s final.started_at final.completed_at ≡ false → final.status ≡ completed)
  pub failing :
      (e : Error)
      → r ≡ err e
      → (final.status ≡ failed) × (after old.group_id ≡ suc (counts old.group_id))
  pub counted : (g : ℕ) → counts g ≤ after g

add_failure-same : (i : ℕ) (counts : Failures) → add_failure i counts i ≡ suc (counts i)
add_failure-same i counts = ground arith

add_failure-le : (i : ℕ) (counts : Failures) (g : ℕ) → counts g ≤ add_failure i counts g
add_failure-le i counts g = ground arith

Settles-if :
    (s : SecuritySettings) (counts : Failures) (w : World) (old : ScanJob)
    (r : Result ScanExecutionResult) (t : Time) (b : Bool)
    → is_over s (some (w.clock w.reads)) (some t) ≡ b
    → let ended = record (settle (taken old w) r) { completed_at = some t } in
      Settles s counts
        (count_failures (taken old w) r counts)
        r
        old
        (if b then overrun s ended else ended)
unfolding settle count_failures is_over
Settles-if s counts w old (ok r) t true e = record {
  same_id = refl;
  same_organization = refl;
  ended = (t, refl);
  over = inr refl;
  in_time = λ h. absurd (cc);
  linked = λ res h.
      (ap (λ (q : ScanExecutionResult). some q.scan.id) (ok-injective h), refl, λ g. absurd (cc));
  failing = λ e' h. absurd (cc);
  counted = λ g. omega arith;
}
Settles-if s counts w old (ok r) t false e = record {
  same_id = refl;
  same_organization = refl;
  ended = (t, refl);
  over = inl refl;
  in_time = λ h. e;
  linked =
      λ res h. (ap (λ (q : ScanExecutionResult). some q.scan.id) (ok-injective h), refl, λ g. refl);
  failing = λ e' h. absurd (cc);
  counted = λ g. omega arith;
}
Settles-if s counts w old (err x) t true e = record {
  same_id = refl;
  same_organization = refl;
  ended = (t, refl);
  over = inr refl;
  in_time = λ h. absurd (cc);
  linked = λ res h. absurd (cc);
  failing = λ e' h. (refl, add_failure-same old.group_id counts);
  counted = add_failure-le old.group_id counts;
}
Settles-if s counts w old (err x) t false e = record {
  same_id = refl;
  same_organization = refl;
  ended = (t, refl);
  over = inr refl;
  in_time = λ h. absurd (cc);
  linked = λ res h. absurd (cc);
  failing = λ e' h. (refl, add_failure-same old.group_id counts);
  counted = add_failure-le old.group_id counts;
}

pub finished_job-Settles :
    (s : SecuritySettings) (counts : Failures) (w : World) (old : ScanJob)
    (r : Result ScanExecutionResult) (t : Time)
    → Settles s counts
        (count_failures (taken old w) r counts)
        r
        old
        (finished_job s (taken old w) r t)
unfolding settle
finished_job-Settles s counts w old (ok r) t = Settles-if s counts w old (ok r) t _ refl
finished_job-Settles s counts w old (err e) t = Settles-if s counts w old (err e) t _ refl
