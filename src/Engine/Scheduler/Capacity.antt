-- ===== src/Engine/Scheduler/Capacity.antt =====
-- `_run_once` of backend/engine/scheduler.py and the groups' capacity.
use compliance_pulse.Prelude.{
  ℕ, suc, ◌≤◌, ◌<◌, ◌≡◌, refl, sym, ◌∙◌, ap, subst, inl, inr, arith, Bool, true, false, none, List,
  [], ◌∷◌, ◌++◌, length, count_where, count_where-append, length-where_rows, All, All-map,
  All-append, ◌==◌, if◌then◌else◌, Bool-cases,
}
use compliance_pulse.Models.Scanning.{Time, Schedule, ScanJob}
use compliance_pulse.Session.World.{World, select_rows}
use compliance_pulse.Session.Monad.{M, Result, ok, err, pure, continue, utcnow}
use compliance_pulse.Security.Settings.{SecuritySettings}
use compliance_pulse.Worker.Counting.{Distinct, select_all}
use compliance_pulse.Engine.Scheduler.{
  active_in, group_has_capacity, is_due, enqueue_job, enqueue_due, run_once,
}
use compliance_pulse.Engine.Scheduler.Enqueueing.{EnqueueOutcome, enqueue_job-outcome}

-- The jobs on a session without a tenant: each group has at most as many active jobs as the limit
-- says, and the keys are distinct and below the next one.
pub record IsOrderly (s : SecuritySettings) (w : World) : Type 0 where
  pub all_seen : w.organization_id ≡ none
  pub within : (g : ℕ) → count_where (active_in g) w.jobs ≤ s.max_concurrent_jobs_per_org
  pub below : All (λ (j : ScanJob). j.id < w.next_id) w.jobs
  pub distinct : Distinct w.jobs

capacity-count :
    (s : SecuritySettings) (w : World) (g : ℕ)
    → w.organization_id ≡ none
    → group_has_capacity s g w ≡ true
    → count_where (active_in g) w.jobs < s.max_concurrent_jobs_per_org
unfolding group_has_capacity
capacity-count s w g e room =
    let n = ap length (select_all w (active_in g) e) ∙ length-where_rows (active_in g) w.jobs in
    ground (arith, n, room)

Distinct-append :
    (jobs : List ScanJob) (job : ScanJob)
    → All (λ (j : ScanJob). j.id < job.id) jobs
    → Distinct jobs
    → Distinct (jobs ++ job ∷ [])
Distinct-append [] job h d = (tt, tt)
Distinct-append (j ∷ jobs) job h d = (
  All-append (λ (k : ScanJob). (k.id == j.id) ≡ false) jobs (job ∷ []) d.0
      (ground (arith, h.0), tt),
  Distinct-append jobs job h.1 d.1,
)

count_one-le : (job : ScanJob) (g : ℕ) → count_where (active_in g) (job ∷ []) ≤ 1
unfolding count_where
count_one-le job g = ground arith

count_none :
    (job : ScanJob) (g : ℕ) → (job.group_id == g) ≡ false → count_where (active_in g) (job ∷ []) ≡ 0
unfolding count_where
count_none job g e = ground (arith, e)

count-queued :
    (s : SecuritySettings) (w : World) (job : ScanJob) (g : ℕ)
    → count_where (active_in g) w.jobs ≤ s.max_concurrent_jobs_per_org
    → (job.group_id ≡ g → count_where (active_in g) w.jobs < s.max_concurrent_jobs_per_org)
    → count_where (active_in g) (w.jobs ++ job ∷ []) ≤ s.max_concurrent_jobs_per_org
count-queued s w job g h room =
    let both = count_where-append (active_in g) w.jobs (job ∷ []) in
    elim (Bool-cases (job.group_id == g)) [
      | inl here ↦
          let free = room (ground (arith, here)) in let one = count_one-le job g in omega arith
      | inr elsewhere ↦ let no_one = count_none job g elsewhere in omega arith
    ]

outcome-IsOrderly :
    (s : SecuritySettings) (schedule : Schedule) (w : World) (p : Result (Unit {0}) × World)
    → EnqueueOutcome s schedule w p
    → IsOrderly s w
    → (p.0 ≡ ok tt) × IsOrderly s p.1
outcome-IsOrderly s schedule w (err e, v) h k = absurd h
outcome-IsOrderly s schedule w (ok u, v) (same, inl (jobs, schedules, next, why)) k = (
  refl,
  record {
    all_seen = same ∙ k.all_seen;
    within = λ g. ground (arith, jobs, k.within g);
    below =
        subst (All (λ (j : ScanJob). j.id < v.next_id)) (sym jobs)
          (All-map (λ (j : ScanJob) l. omega arith) w.jobs k.below);
    distinct = subst Distinct (sym jobs) k.distinct;
  },
)
outcome-IsOrderly s schedule w (ok u, v) (same, inr (group, job, t, found, room, next, q)) k = (
  refl,
  record {
    all_seen = same ∙ k.all_seen;
    within = λ g.
        subst (λ (js : List ScanJob). count_where (active_in g) js ≤ s.max_concurrent_jobs_per_org)
          (sym q.stored)
          (count-queued s w job g (k.within g) λ here.
            subst (λ (i : ℕ). count_where (active_in i) w.jobs < s.max_concurrent_jobs_per_org)
              (sym q.for_group ∙ here) (capacity-count s w group.id k.all_seen room));
    below = subst (All (λ (j : ScanJob). j.id < v.next_id)) (sym q.stored) (
        All-append (λ (j : ScanJob). j.id < v.next_id) w.jobs (job ∷ [])
          (All-map (λ (j : ScanJob) l. omega arith) w.jobs k.below)
          (ground (arith, q.key, next), tt));
    distinct = subst Distinct (sym q.stored) (
        Distinct-append w.jobs job
          (All-map (λ (j : ScanJob) l. ground (arith, q.key, l)) w.jobs k.below) k.distinct);
  },
)

-- A step that does not raise, and that keeps the jobs orderly.
abbrev KeepsOrder : SecuritySettings → M (Unit {0}) → Type 0
KeepsOrder s m = (w : World) → IsOrderly s w → ((m w).0 ≡ ok tt) × IsOrderly s (m w).1

continue-order :
    (s : SecuritySettings) (rest : M (Unit {0})) (p : Result (Unit {0}) × World)
    → KeepsOrder s rest
    → (p.0 ≡ ok tt) × IsOrderly s p.1
    → ((continue p (λ _. rest)).0 ≡ ok tt) × IsOrderly s (continue p (λ _. rest)).1
continue-order s rest (ok u, v) keeps (e, k) = keeps v k
continue-order s rest (err x, v) keeps (e, k) = absurd (cc)

enqueue_job-KeepsOrder :
    (s : SecuritySettings) (schedule : Schedule) → KeepsOrder s (enqueue_job s schedule)
enqueue_job-KeepsOrder s schedule w k =
    outcome-IsOrderly s schedule w (enqueue_job s schedule w) (enqueue_job-outcome s schedule w) k

if-KeepsOrder :
    (s : SecuritySettings) (b : Bool) (m : M (Unit {0}))
    → KeepsOrder s m
    → KeepsOrder s (if b then m else pure tt)
if-KeepsOrder s true m h = h
if-KeepsOrder s false m h = λ w k. (refl, k)

enqueue_due-KeepsOrder :
    (s : SecuritySettings) (now : Time) (schedules : List Schedule)
    → KeepsOrder s (enqueue_due s now schedules)
unfolding enqueue_due
enqueue_due-KeepsOrder s now [] w k = (refl, k)
enqueue_due-KeepsOrder s now (schedule ∷ schedules) w k =
    let step = if is_due now schedule then enqueue_job s schedule else pure tt in
    continue-order s (enqueue_due s now schedules) (step w) (enqueue_due-KeepsOrder s now schedules)
      (if-KeepsOrder s (is_due now schedule) (enqueue_job s schedule)
        (enqueue_job-KeepsOrder s schedule) w k)

-- If the session has no tenant, each group has at most as many pending and running jobs as the
-- limit says and the keys of the jobs are distinct and below the next key, then a round of the
-- scheduler does not raise, and the same holds afterwards.
pub run_once-IsOrderly :
    (s : SecuritySettings) (w : World)
    → IsOrderly s w
    → ((run_once s w).0 ≡ ok tt) × IsOrderly s (run_once s w).1
unfolding run_once utcnow
run_once-IsOrderly s w k =
    let v = record w { reads = suc w.reads } in
    enqueue_due-KeepsOrder s (w.clock w.reads)
      (select_rows (λ (x : Schedule). x.organization_id) (λ (x : Schedule). x.enabled) v
        v.schedules)
      v
      (record { all_seen = k.all_seen; within = k.within; below = k.below; distinct = k.distinct })
