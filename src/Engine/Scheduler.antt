-- ===== src/Engine/Scheduler.antt =====
-- `ScheduleManager` of backend/engine/scheduler.py. The loop of `start` runs `_run_once` and sleeps.
pub mod Capacity
pub mod Enqueueing
use compliance_pulse.Prelude.{
  ℕ, zero, suc, ◌+◌, ◌*◌, max, Text, Bool, true, false, Option, none, some, List, [], ◌∷◌, ◌++◌,
  codes, decimal, length, update_where, ltb, leb, ◌==◌, ◌&&◌, ℤ, pos, if◌then◌else◌,
}
use compliance_pulse.Models.Scanning.{
  Time, RuleGroup, Schedule, ScanJob, Status, pending, running, completed, failed, Value, number,
  text,
}
use compliance_pulse.Session.World.{World, select_rows, get_row}
use compliance_pulse.Session.Monad.{M, ok, pure, gets, modify, utcnow, fresh_id, ◌>>=◌, ◌>>◌}
use compliance_pulse.Security.Audit.{log_action}
use compliance_pulse.Security.Settings.{SecuritySettings}

abbrev pub minute : ℕ
minute = 60_000_000

-- `status in ["pending", "running"]`
abbrev pub is_active : Status → Bool
is_active pending = true
is_active running = true
is_active completed = false
is_active failed = false

abbrev pub active_in : ℕ → ScanJob → Bool
active_in group_id job = job.group_id == group_id && is_active job.status

-- `_group_has_capacity`
unfoldable pub group_has_capacity : SecuritySettings → ℕ → World → Bool
group_has_capacity s group_id w =
    ltb (length (select_rows (λ j. j.organization_id) (active_in group_id) w w.jobs))
      s.max_concurrent_jobs_per_org

-- `max(schedule.interval_minutes or 60, 5)`
unfoldable pub interval_of : Schedule → ℕ
interval_of schedule =
    max (if schedule.interval_minutes == 0 then 60 else schedule.interval_minutes) 5

unfoldable pub job_of : ℕ → Time → Schedule → RuleGroup → ScanJob
job_of id created_at schedule group = record {
  id = id;
  organization_id = schedule.organization_id;
  group_id = group.id;
  schedule_id = some schedule.id;
  hostname = group.default_hostname;
  triggered_by = codes "schedule:" ++ decimal schedule.id;
  status = pending;
  error = none;
  created_at = created_at;
  started_at = none;
  completed_at = none;
  scan_id = none;
}

-- The job and the schedule's new times, as the transaction would leave them.
unfoldable pub queue_job : ScanJob → Schedule → Time → Time → World → World
queue_job job schedule next_run updated_at w = record w {
  jobs = w.jobs ++ job ∷ [];
  schedules =
      update_where (λ s. s.id == schedule.id)
        (λ s. record s { next_run = some next_run; updated_at = updated_at }) w.schedules;
}

-- The transaction of `_enqueue_job`: committed and logged, or rolled back.
unfoldable pub commit_or_rollback : (World → World) → M (Unit {0}) → M (Unit {0})
commit_or_rollback change logged w =
    let tried = record w { attempts = suc w.attempts } in
    if w.commits w.attempts then logged (change tried) else (ok tt, tried)

log_queued : ℕ → RuleGroup → M (Unit {0})
log_queued id group =
    log_action (codes "SCAN_SANDBOX_EVENT") (some (codes "RULE_GROUP")) (some (decimal group.id))
      none none none
      (some ((codes "job_id", number (pos id)) ∷ (codes "trigger", text (codes "scheduler")) ∷ []))

-- The part of `_enqueue_job` behind its two early returns.
unfoldable pub enqueue_for : Schedule → RuleGroup → M (Unit {0})
unfolding interval_of job_of queue_job commit_or_rollback utcnow fresh_id log_queued
enqueue_for schedule group = do
  created_at ← utcnow
  asked_at ← utcnow
  updated_at ← utcnow
  id ← fresh_id
  commit_or_rollback
      (queue_job (job_of id created_at schedule group) schedule
        (asked_at + interval_of schedule * minute) updated_at)
      (log_queued id group)

abbrev enqueue_found : SecuritySettings → Schedule → Option RuleGroup → M (Unit {0})
enqueue_found s schedule none = pure tt
enqueue_found s schedule (some group) = do
  room ← gets (group_has_capacity s group.id)
  if room then enqueue_for schedule group else pure tt

-- `_enqueue_job`
unfoldable pub enqueue_job : SecuritySettings → Schedule → M (Unit {0})
unfolding group_has_capacity enqueue_for
enqueue_job s schedule = do
  found ← gets (λ w. get_row (λ g. g.organization_id) (λ g. g.id == schedule.group_id) w w.groups)
  enqueue_found s schedule found

-- `(schedule.next_run or now) <= now`
abbrev pub is_due : Time → Schedule → Bool
is_due now schedule = elim schedule.next_run [ none ↦ true | some t ↦ leb t now ]

unfoldable pub enqueue_due : SecuritySettings → Time → List Schedule → M (Unit {0})
enqueue_due s now [] = pure tt
enqueue_due s now (schedule ∷ schedules) = do
  (if is_due now schedule then enqueue_job s schedule else pure tt)
  enqueue_due s now schedules

-- `_run_once`
unfoldable pub run_once : SecuritySettings → M (Unit {0})
unfolding enqueue_due utcnow
run_once s = do
  now ← utcnow
  schedules ← gets (λ w. select_rows (λ s. s.organization_id) (λ s. s.enabled) w w.schedules)
  enqueue_due s now schedules
