-- ===== src/Worker/Running.antt =====
-- The run of a claimed job in backend/worker.py, up to its commit.
use compliance_pulse.Prelude.{
  ℕ, suc, ◌≡◌, refl, ◌∙◌, ap, Bool, true, false, Option, none, some, zero, Text, leb, if◌then◌else◌,
}
use compliance_pulse.Models.Scanning.{Metadata, Time, Schedule, ScanJob}
use compliance_pulse.Session.World.{World}
use compliance_pulse.Session.Monad.{M, Result, ok, err, pure, utcnow, continue, modify, ◌>>=◌, ◌>>◌}
use compliance_pulse.Security.Audit.{log_action, log_action-quiet}
use compliance_pulse.Security.Masking.{Request}
use compliance_pulse.Security.Settings.{SecuritySettings}
use compliance_pulse.Engine.Executor.Steps.{Executor, ScanExecutionResult}
use compliance_pulse.Engine.Executor.Loop.{IsQuiet}
use compliance_pulse.Engine.Executor.Groups.{execute_job}
use compliance_pulse.Engine.Executor.Frame.{execute_job-KeepsJobs}
use compliance_pulse.Worker.{
  is_over, mark_schedule_run, mark_row, enforce_runtime, log_runtime, overrun, Failures, attempt,
  settle, count_failures, log_failure, log_repeated, executor_for, run_claimed,
}

-- A step that returns a value and leaves the jobs alone, from any world.
record Returns {A : Type 0} (m : M A) (a : A) : Type 0 where
  at : (w : World) → (v : World) × (m w ≡ (ok a, v)) × (v.jobs ≡ w.jobs)

module _ {A : Type 0} where
  Returns-pure : (a : A) → Returns (pure a) a
  Returns-pure a = record { at = λ w. (w, refl, refl) }

  Returns-if :
      (b : Bool) (m n : M A) {a c : A}
      → Returns m a
      → Returns n c
      → Returns (if b then m else n) (if b then a else c)
  Returns-if true m n hm hn = hm
  Returns-if false m n hm hn = hn

  Returns-both :
      (b : Bool) (m n : M A) {a : A} → Returns m a → Returns n a → Returns (if b then m else n) a
  Returns-both true m n hm hn = hm
  Returns-both false m n hm hn = hn

Returns-bind :
    {A B : Type 0} (m : M A) (f : A → M B) {a : A} {b : B}
    → Returns m a
    → Returns (f a) b
    → Returns (m >>= f) b
Returns-bind {A} m f hm hf = record {
  at = λ w.
      let (v, e, k) = hm.at w in
      let (u, e', k') = hf.at v in (u, ap (λ (r : Result A × World). continue r f) e ∙ e', k' ∙ k);
}

Returns-modify : (f : World → World) → ((w : World) → (f w).jobs ≡ w.jobs) → Returns (modify f) tt
Returns-modify f h = record { at = λ w. (f w, refl, h w) }

log_action-Returns :
    (a : Text) (t i : Option Text) (r : Option Request) (u o : Option Text) (m : Option Metadata)
    → Returns (log_action a t i r u o m) tt
log_action-Returns a t i r u o m = record {
  at = λ w. let (entries, h) = log_action-quiet a t i r u o m w in (_, h, refl);
}

log_failure-Returns :
    (job : ScanJob) (r : Result ScanExecutionResult) → Returns (log_failure job r) tt
unfolding log_failure
log_failure-Returns job (ok r) = Returns-pure tt
log_failure-Returns job (err e) = log_action-Returns _ _ _ _ _ _ _

log_repeated-Returns : (job : ScanJob) (counts : Failures) → Returns (log_repeated job counts) tt
unfolding log_repeated
log_repeated-Returns job counts =
    Returns-both (leb 3 (counts job.group_id)) _ _ (log_action-Returns _ _ _ _ _ _ _)
      (Returns-pure tt)

-- The job behind `_enforce_runtime`
abbrev pub within_limit : SecuritySettings → ScanJob → ScanJob
within_limit s job = if is_over s job.started_at job.completed_at then overrun s job else job

log_runtime-Returns : (s : SecuritySettings) (job : ScanJob) → Returns (log_runtime s job) tt
unfolding log_runtime
log_runtime-Returns s job = log_action-Returns _ _ _ _ _ _ _

enforce_runtime-Returns :
    (s : SecuritySettings) (job : ScanJob) → Returns (enforce_runtime s job) (within_limit s job)
unfolding enforce_runtime
enforce_runtime-Returns s job =
    Returns-if (is_over s job.started_at job.completed_at)
      (log_runtime s job >> pure (overrun s job)) (pure job)
      (Returns-bind (log_runtime s job) (λ _. pure (overrun s job)) (log_runtime-Returns s job)
        (Returns-pure (overrun s job)))
      (Returns-pure job)

abbrev pub finished_job : SecuritySettings → ScanJob → Result ScanExecutionResult → Time → ScanJob
finished_job s job outcome t =
    within_limit s (record (settle job outcome) { completed_at = some t })

mark_row-keeps : (t : Time) (o : Option Schedule) (w : World) → (mark_row t o w).jobs ≡ w.jobs
unfolding mark_row
mark_row-keeps t none w = refl
mark_row-keeps t (some schedule) w = refl

mark_schedule_run-keeps :
    (i : Option ℕ) (t : Time) (w : World) → (mark_schedule_run i t w).jobs ≡ w.jobs
unfolding mark_schedule_run
mark_schedule_run-keeps none t w = refl
mark_schedule_run-keeps (some zero) t w = refl
mark_schedule_run-keeps (some (suc i)) t w = mark_row-keeps t _ w

-- The world in which the claimed job's scan runs, and what comes of it
abbrev pub outcome_of : Executor → ScanJob → World → Result ScanExecutionResult × World
outcome_of x job w =
    execute_job (executor_for x job) job (record w { organization_id = some job.organization_id })

executor_for-IsQuiet : (x : Executor) (job : ScanJob) → IsQuiet x → IsQuiet (executor_for x job)
executor_for-IsQuiet x job q = record { clock_only = q.clock_only }

-- The part of `run_claimed` behind the clock's time
after_time :
    SecuritySettings
    → Failures
    → ScanJob
    → Result ScanExecutionResult
    → Time
    → M (ScanJob × Failures)
after_time s counts job outcome t = do
  modify (mark_schedule_run job.schedule_id t)
  finished ← enforce_runtime s (record (settle job outcome) { completed_at = some t })
  log_repeated job counts
  pure (finished, counts)

after_time-Returns :
    (s : SecuritySettings) (counts : Failures) (job : ScanJob) (r : Result ScanExecutionResult)
    (t : Time)
    → Returns (after_time s counts job r t) (finished_job s job r t, counts)
unfolding after_time
after_time-Returns s counts job r t =
    let noted = λ (finished : ScanJob). log_repeated job counts >> pure (finished, counts) in
    let ended = record (settle job r) { completed_at = some t } in
    Returns-bind (modify (mark_schedule_run job.schedule_id t))
      (λ _. enforce_runtime s ended >>= noted)
      (Returns-modify (mark_schedule_run job.schedule_id t)
        (mark_schedule_run-keeps job.schedule_id t))
      (Returns-bind (enforce_runtime s ended) noted (enforce_runtime-Returns s ended) (
        Returns-bind (log_repeated job counts) (λ _. pure (within_limit s ended, counts))
          (log_repeated-Returns job counts) (Returns-pure (within_limit s ended, counts))))

pub run_claimed-returns :
    (s : SecuritySettings) (x : Executor) (counts : Failures) (job : ScanJob) (w : World)
    → IsQuiet x
    → (t : Time) × (v : World) × (run_claimed s x counts job w ≡ (
      ok (
        finished_job s job (outcome_of x job w).0 t,
        count_failures job (outcome_of x job w).0 counts,
      ),
      v,
    ))
      × (v.jobs ≡ w.jobs)
unfolding run_claimed utcnow after_time attempt log_failure
run_claimed-returns s x counts job w q =
    let (r, w1) = outcome_of x job w in
    let (v, e, k) = (log_failure-Returns job r).at w1 in
    let t = v.clock v.reads in
    let (u, e', k') =
      (after_time-Returns s (count_failures job r counts) job r t).at
        (record v { reads = suc v.reads }) in
    let rest = λ (_ : Unit {0}) (v : World).
      after_time s (count_failures job r counts) job r (v.clock v.reads)
        (record v { reads = suc v.reads }) in
    (
      t,
      u,
      ap (λ (z : Result (Unit {0}) × World). continue z rest) e ∙ e',
      k'
          ∙ (k
              ∙ (execute_job-KeepsJobs (executor_for x job) job (executor_for-IsQuiet x job q)).at
                  _),
    )
