-- ===== src/Worker.antt =====
-- backend/worker.py
pub mod Counting
pub mod Claiming
pub mod Running
pub mod Settling
pub mod Processing
use compliance_pulse.Prelude.{
  ℕ, zero, suc, ◌+◌, ◌*◌, ◌-◌, ◌/◌, ◌%◌, drop, Text, Bool, true, false, Option, none, some, List,
  [], ◌∷◌, ◌++◌, codes, decimal, length, update_where, ltb, leb, ◌==◌, ◌&&◌, ℤ, pos, if◌then◌else◌,
}
use compliance_pulse.Models.Scanning.{
  Time, Schedule, ScanJob, Status, pending, running, completed, failed, Value, number, text, other,
  Scan,
}
use compliance_pulse.Session.World.{World, select_rows, get_row}
use compliance_pulse.Session.Monad.{
  M, Result, ok, err, message, pure, gets, modify, utcnow, ◌>>=◌, ◌>>◌,
}
use compliance_pulse.Security.Audit.{log_action}
use compliance_pulse.Security.RateLimit.{second}
use compliance_pulse.Security.Settings.{SecuritySettings}
use compliance_pulse.Engine.Executor.Steps.{Executor, ScanExecutionResult}
use compliance_pulse.Engine.Executor.Groups.{execute_job}

abbrev pub is_pending : Status → Bool
is_pending pending = true
is_pending running = false
is_pending completed = false
is_pending failed = false

abbrev pub is_running : Status → Bool
is_running pending = false
is_running running = true
is_running completed = false
is_running failed = false

-- `_has_capacity`
unfoldable pub has_capacity : SecuritySettings → World → Bool
has_capacity s w =
    ltb (length (select_rows (λ j. j.organization_id) (λ j. is_running j.status) w w.jobs))
      s.max_concurrent_jobs_per_org

abbrev earlier : ScanJob → Option ScanJob → ScanJob
earlier job none = job
earlier job (some rest) = if leb job.created_at rest.created_at then job else rest

-- `.order_by(ScanJob.created_at).first()`, the first stored of those that are equally old
unfoldable pub oldest : List ScanJob → Option ScanJob
oldest [] = none
oldest (job ∷ jobs) = some (earlier job (oldest jobs))

-- `session.add(job)` of a job that is stored already
unfoldable pub save_job : ScanJob → World → World
save_job job w = record w { jobs = update_where (λ j. j.id == job.id) (λ _. job) w.jobs }

abbrev claim_found : Option ScanJob → M (Option ScanJob)
claim_found none = pure none
claim_found (some job) = do
  started_at ← utcnow
  let claimed = record job { status = running; started_at = some started_at }
  modify (save_job claimed)
  pure (some claimed)

-- `_claim_job`
unfoldable pub claim_job : SecuritySettings → M (Option ScanJob)
claim_job s = do
  room ← gets (has_capacity s)
  found ←
      gets (λ w. oldest (select_rows (λ j. j.organization_id) (λ j. is_pending j.status) w w.jobs))
  (if room then claim_found found else pure none)

mark_row : Time → Option Schedule → World → World
mark_row completed_at none w = w
mark_row completed_at (some schedule) w = record w {
  schedules =
      update_where (λ s. s.id == schedule.id) (λ s. record s { last_run = some completed_at })
        w.schedules;
}

-- `_mark_schedule_run`; id 0 counts as none.
unfoldable pub mark_schedule_run : Option ℕ → Time → World → World
unfolding mark_row
mark_schedule_run none completed_at w = w
mark_schedule_run (some zero) completed_at w = w
mark_schedule_run (some (suc i)) completed_at w =
    mark_row completed_at (get_row (λ s. s.organization_id) (λ s. s.id == suc i) w w.schedules) w

-- Is the runtime over the limit?
unfoldable pub is_over : SecuritySettings → Option Time → Option Time → Bool
is_over s none completed_at = false
is_over s (some started_at) none = false
is_over s (some started_at) (some completed_at) =
    ltb (started_at + s.max_scan_runtime_per_job * second) completed_at

-- The float `total_seconds()`, held as its text: whole seconds, a point, six places
padded : ℕ → Text
padded n = drop 1 (decimal (1_000_000 + n))

runtime_text : Option Time → Option Time → Text
unfolding padded
runtime_text none completed_at = []
runtime_text (some started_at) none = []
runtime_text (some started_at) (some completed_at) =
    decimal ((completed_at - started_at) / second)
    ++ (codes "." ++ padded ((completed_at - started_at) % second))

log_runtime : SecuritySettings → ScanJob → M (Unit {0})
unfolding runtime_text
log_runtime s job =
    log_action (codes "SCAN_SANDBOX_EVENT") (some (codes "SCAN_JOB")) (some (decimal job.id)) none
      none none
      (some (
        (codes "runtime", other (runtime_text job.started_at job.completed_at))
        ∷ (codes "max_runtime", number (pos s.max_scan_runtime_per_job))
        ∷ []))

abbrev overrun : SecuritySettings → ScanJob → ScanJob
overrun s job = record job {
  status = failed;
  error = some (codes "Runtime exceeded " ++ (decimal s.max_scan_runtime_per_job ++ codes "s"));
}

-- `_enforce_runtime`
unfoldable pub enforce_runtime : SecuritySettings → ScanJob → M ScanJob
unfolding log_runtime
enforce_runtime s job =
    if is_over s job.started_at job.completed_at
    then (log_runtime s job >> pure (overrun s job))
    else pure job

-- `FAILURE_COUNTS`, by group
abbrev pub Failures : Type 0
Failures = ℕ → ℕ

abbrev pub add_failure : ℕ → Failures → Failures
add_failure group_id counts g = if g == group_id then counts g + 1 else counts g

-- `try`: what the step raised is its value, and what it stored stays.
unfoldable pub attempt : {A : Type 0} → M A → M (Result A)
attempt m w = let (r, w') = m w in (ok r, w')

unfoldable pub settle : ScanJob → Result ScanExecutionResult → ScanJob
settle job (ok r) = record job { status = completed; scan_id = some r.scan.id; error = none }
settle job (err e) = record job { status = failed; error = some (message e) }

unfoldable pub count_failures : ScanJob → Result ScanExecutionResult → Failures → Failures
count_failures job (ok r) counts = counts
count_failures job (err e) counts = add_failure job.group_id counts

-- The log entry of the `except` branch
unfoldable pub log_failure : ScanJob → Result ScanExecutionResult → M (Unit {0})
log_failure job (ok r) = pure tt
log_failure job (err e) =
    log_action (codes "SCAN_SANDBOX_EVENT") (some (codes "SCAN_JOB")) (some (decimal job.id)) none
      none none
      (some
        ((codes "error", text (message e)) ∷ (codes "group_id", number (pos job.group_id)) ∷ []))

unfoldable pub log_repeated : ScanJob → Failures → M (Unit {0})
log_repeated job counts =
    if leb 3 (counts job.group_id)
    then log_action (codes "SCAN_SANDBOX_EVENT") (some (codes "RULE_GROUP"))
        (some (decimal job.group_id)) none none none
        (some ((codes "failure_count", number (pos (counts job.group_id))) ∷ []))
    else pure tt

-- The executor of the job's organization
abbrev pub executor_for : Executor → ScanJob → Executor
executor_for x job = record x { organization_id = job.organization_id }

-- `_process_job` behind the claim and before its commit: the tenant is set, the job run and
-- settled.
unfoldable pub run_claimed :
    SecuritySettings → Executor → Failures → ScanJob → M (ScanJob × Failures)
run_claimed s x counts job = do
  modify (λ w. record w { organization_id = some job.organization_id })
  outcome ← attempt (execute_job (executor_for x job) job)
  let counts' = count_failures job outcome counts
  log_failure job outcome
  completed_at ← utcnow
  modify (mark_schedule_run job.schedule_id completed_at)
  finished ← enforce_runtime s (record (settle job outcome) { completed_at = some completed_at })
  log_repeated job counts'
  pure (finished, counts')

-- The commit
unfoldable pub process_claimed : SecuritySettings → Executor → Failures → ScanJob → M Failures
process_claimed s x counts job = do
  (finished, counts') ← run_claimed s x counts job
  modify (save_job finished)
  pure counts'

abbrev process_found : SecuritySettings → Executor → Failures → Option ScanJob → M (Bool × Failures)
process_found s x counts none = pure (false, counts)
process_found s x counts (some job) = do
  counts' ← process_claimed s x counts job
  pure (true, counts')

-- `_process_job`, on a session of its own that no tenant is set on yet
unfoldable pub process_job : SecuritySettings → Executor → Failures → M (Bool × Failures)
unfolding claim_job
process_job s x counts = do
  modify (λ w. record w { organization_id = none })
  found ← claim_job s
  process_found s x counts found
