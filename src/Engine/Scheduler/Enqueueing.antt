-- ===== src/Engine/Scheduler/Enqueueing.antt =====
-- `_enqueue_job` of backend/engine/scheduler.py: what it stores, and when it stores nothing.
use compliance_pulse.Prelude.{
  ℕ, suc, ◌+◌, ◌*◌, ◌≤◌, ◌<◌, ◌≡◌, refl, sym, subst, ◌⊎◌, inl, inr, arith, Bool, true, false,
  Option, none, some, List, [], ◌∷◌, ◌++◌, update_where, ◌==◌, if◌then◌else◌,
}
use compliance_pulse.Models.Scanning.{Time, RuleGroup, Schedule, ScanJob, pending}
use compliance_pulse.Models.Accounts.{AuditLog}
use compliance_pulse.Session.World.{World, get_row}
use compliance_pulse.Session.Monad.{M, Result, ok, err, pure, utcnow, fresh_id}
use compliance_pulse.Security.Audit.{log_action-quiet}
use compliance_pulse.Security.Settings.{SecuritySettings}
use compliance_pulse.Engine.Scheduler.{
  minute, group_has_capacity, interval_of, job_of, queue_job, commit_or_rollback, log_queued,
  enqueue_for, enqueue_found, enqueue_job,
}

-- The schedule whose turn was taken: it is due again no sooner than five minutes from `now`.
pub record IsQueued (schedule : Schedule) (group : RuleGroup) (w v : World) (job : ScanJob)
    (next_run : Time) : Type 0 where
  pub key : job.id ≡ w.next_id
  pub waits : job.status ≡ pending
  pub organization : job.organization_id ≡ schedule.organization_id
  pub for_group : job.group_id ≡ group.id
  pub for_schedule : job.schedule_id ≡ some schedule.id
  pub hostname : job.hostname ≡ group.default_hostname
  pub stored : v.jobs ≡ w.jobs ++ job ∷ []
  pub later : w.clock (suc w.reads) + 5 * minute ≤ next_run
  pub rescheduled :
      v.schedules
      ≡ update_where
          (λ (s : Schedule). s.id == schedule.id)
          (λ (s : Schedule). record s {
            next_run = some next_run;
            updated_at = w.clock (suc (suc w.reads));
          })
          w.schedules

abbrev pub find_group : Schedule → World → Option RuleGroup
find_group schedule w =
    get_row (λ (g : RuleGroup). g.organization_id) (λ g. g.id == schedule.group_id) w w.groups

-- Neither the jobs nor the schedules are touched, for one of the three reasons.
abbrev pub Untouched : SecuritySettings → Schedule → World → World → Type 0
Untouched s schedule w v =
    (v.jobs ≡ w.jobs)
    × (v.schedules ≡ w.schedules)
    × (w.next_id ≤ v.next_id)
    × ((find_group schedule w ≡ none)
        ⊎ ((g : RuleGroup) × (find_group schedule w ≡ some g)
            × ((group_has_capacity s g.id w ≡ false) ⊎ (w.commits w.attempts ≡ false))))

abbrev pub Queued : SecuritySettings → Schedule → World → World → Type 0
Queued s schedule w v =
    (group : RuleGroup) × (job : ScanJob) × (next_run : Time) × (find_group schedule w ≡ some group)
    × (group_has_capacity s group.id w ≡ true)
    × (w.next_id < v.next_id)
    × IsQueued schedule group w v job next_run

abbrev pub EnqueueOutcome : SecuritySettings → Schedule → World → Result (Unit {0}) × World → Type 0
EnqueueOutcome s schedule w (err e, v) = ⊥
EnqueueOutcome s schedule w (ok u, v) =
    (v.organization_id ≡ w.organization_id) × (Untouched s schedule w v ⊎ Queued s schedule w v)

interval_of-le : (schedule : Schedule) → 5 ≤ interval_of schedule
unfolding interval_of
interval_of-le schedule = omega arith

log_queued-quiet :
    (id : ℕ) (group : RuleGroup) (w : World)
    → (entries : List AuditLog) × (log_queued id group w
        ≡ (ok tt, record w { audit = entries; reads = suc w.reads; next_id = suc w.next_id }))
unfolding log_queued
log_queued-quiet id group w = log_action-quiet _ _ _ _ _ _ _ w

module _ (s : SecuritySettings) (schedule : Schedule) (group : RuleGroup) (w : World) where
  -- The world at the commit, and the job to be committed
  asked : World
  asked = record w { reads = suc (suc (suc w.reads)); next_id = suc w.next_id }

  queued : World → World
  queued =
      queue_job (job_of w.next_id (w.clock w.reads) schedule group) schedule
        (w.clock (suc w.reads) + interval_of schedule * minute) (w.clock (suc (suc w.reads)))

  five_minutes :
      w.clock (suc w.reads) + 5 * minute ≤ w.clock (suc w.reads) + interval_of schedule * minute
  five_minutes = let n = interval_of-le schedule in omega arith

  committed-outcome :
      (m : M (Unit {0})) (entries : List AuditLog)
      → find_group schedule w ≡ some group
      → group_has_capacity s group.id w ≡ true
      → (let u = queued (record asked { attempts = suc w.attempts }) in
          m u ≡ (ok tt, record u { audit = entries; reads = suc u.reads; next_id = suc u.next_id }))
      → EnqueueOutcome s schedule w (m (queued (record asked { attempts = suc w.attempts })))
  unfolding queued asked queue_job job_of
  committed-outcome m entries found room e = subst (EnqueueOutcome s schedule w) (sym e) (
    refl,
    inr (
      group,
      _,
      _,
      found,
      room,
      (omega arith),
      record {
        key = refl;
        waits = refl;
        organization = refl;
        for_group = refl;
        for_schedule = refl;
        hostname = refl;
        stored = refl;
        later = five_minutes;
        rescheduled = refl;
      },
    ),
  )

  commit-outcome :
      (m : M (Unit {0})) (entries : List AuditLog) (b : Bool)
      → w.commits w.attempts ≡ b
      → find_group schedule w ≡ some group
      → group_has_capacity s group.id w ≡ true
      → (let u = queued (record asked { attempts = suc w.attempts }) in
          m u ≡ (ok tt, record u { audit = entries; reads = suc u.reads; next_id = suc u.next_id }))
      → EnqueueOutcome s schedule w (
          if b
          then m (queued (record asked { attempts = suc w.attempts }))
          else (ok tt, record asked { attempts = suc w.attempts }))
  unfolding asked
  commit-outcome m entries true c found room e = committed-outcome m entries found room e
  commit-outcome m entries false c found room e =
      (refl, inl (refl, refl, omega arith, inr (group, found, inr c)))

  enqueue_for-outcome :
      find_group schedule w ≡ some group
      → group_has_capacity s group.id w ≡ true
      → EnqueueOutcome s schedule w (enqueue_for schedule group w)
  unfolding enqueue_for utcnow fresh_id commit_or_rollback queued asked
  enqueue_for-outcome found room =
      let (entries, e) =
        log_queued-quiet w.next_id group (queued (record asked { attempts = suc w.attempts })) in
      commit-outcome (log_queued w.next_id group) entries _ refl found room e

enqueue_if-outcome :
    (s : SecuritySettings) (schedule : Schedule) (group : RuleGroup) (w : World) (b : Bool)
    → find_group schedule w ≡ some group
    → group_has_capacity s group.id w ≡ b
    → EnqueueOutcome s schedule w ((if b then enqueue_for schedule group else pure tt) w)
enqueue_if-outcome s schedule group w true found room =
    enqueue_for-outcome s schedule group w found room
enqueue_if-outcome s schedule group w false found full =
    (refl, inl (refl, refl, omega arith, inr (group, found, inl full)))

enqueue_found-outcome :
    (s : SecuritySettings) (schedule : Schedule) (w : World) (o : Option RuleGroup)
    → find_group schedule w ≡ o
    → EnqueueOutcome s schedule w (enqueue_found s schedule o w)
enqueue_found-outcome s schedule w none e = (refl, inl (refl, refl, omega arith, inl e))
enqueue_found-outcome s schedule w (some group) e = enqueue_if-outcome s schedule group w _ e refl

-- Asking for a scheduled job always returns, in the same tenant. Either no job and no schedule is
-- changed, and then the group is not found, the group has no capacity, or the commit failed. Or
-- the group is found and has capacity: one pending job with the next key is appended, with the schedule's
-- organization and key and the group's key and hostname, and the schedule alone is due again, five minutes
-- after the clock's time or later.
pub enqueue_job-outcome :
    (s : SecuritySettings) (schedule : Schedule) (w : World)
    → EnqueueOutcome s schedule w (enqueue_job s schedule w)
unfolding enqueue_job
enqueue_job-outcome s schedule w = enqueue_found-outcome s schedule w _ refl
