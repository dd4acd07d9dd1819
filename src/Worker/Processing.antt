-- ===== src/Worker/Processing.antt =====
-- `_process_job` of backend/worker.py: how a claimed job ends.
use compliance_pulse.Prelude.{
  ℕ, suc, ◌+◌, ◌<◌, ◌≡◌, refl, sym, ◌∙◌, ap, subst, ◌⊎◌, inl, inr, arith, Bool, true, false, Option,
  none, some, List, [], ◌∷◌, update_where, ◌==◌, if◌then◌else◌,
}
use compliance_pulse.Models.Scanning.{ScanJob, Status, completed, failed}
use compliance_pulse.Session.World.{World}
use compliance_pulse.Session.Monad.{M, Result, ok, err, pure, continue, modify, ◌>>◌}
use compliance_pulse.Security.Settings.{SecuritySettings}
use compliance_pulse.Engine.Executor.Steps.{Executor, ScanExecutionResult}
use compliance_pulse.Engine.Executor.Loop.{IsQuiet}
use compliance_pulse.Worker.{
  is_running, save_job, Failures, process_claimed, process_found, process_job,
}
use compliance_pulse.Worker.Counting.{running_count, Distinct, running_count-save}
use compliance_pulse.Worker.Claiming.{
  IsOldestPending, taken, NothingToClaim, ClaimOutcome, claim_job-ClaimOutcome,
}
use compliance_pulse.Worker.Running.{finished_job, outcome_of, run_claimed-returns}
use compliance_pulse.Worker.Settling.{Settles, finished_job-Settles}

-- The world right behind a claim
abbrev pub claimed_world : ScanJob → World → World
claimed_world old w =
    save_job (taken old w) (record w { organization_id = none; reads = suc w.reads })

abbrev pub ProcessOutcome :
    SecuritySettings → Executor → Failures → World → Result (Bool × Failures) × World → Type 0
ProcessOutcome s x counts w (err e, v) = ⊥
ProcessOutcome s x counts w (ok (false, after), v) =
    (after ≡ counts) × (v.jobs ≡ w.jobs) × NothingToClaim s w
ProcessOutcome s x counts w (ok (true, after), v) =
    (old : ScanJob) × (final : ScanJob) × IsOldestPending old w
    × (running_count w.jobs < s.max_concurrent_jobs_per_org)
    × Settles s counts after (outcome_of x (taken old w) (claimed_world old w)).0 old final
    × (v.jobs ≡ update_where (λ (j : ScanJob). j.id == old.id) (λ _. final) w.jobs)
    × (running_count v.jobs ≡ running_count w.jobs)

-- The second of two saves of a job stays.
save_twice :
    (i : ℕ) (a b : ScanJob) (jobs : List ScanJob)
    → a.id ≡ i
    → update_where
        (λ (j : ScanJob). j.id == i)
        (λ _. b)
        (update_where (λ (j : ScanJob). j.id == i) (λ _. a) jobs)
      ≡ update_where (λ (j : ScanJob). j.id == i) (λ _. b) jobs
unfolding update_where
save_twice i a b [] e = refl
save_twice i a b (j ∷ jobs) e = ground (arith, e, save_twice i a b jobs e)

not_running_of_over : (st : Status) → (st ≡ completed) ⊎ (st ≡ failed) → is_running st ≡ false
not_running_of_over st (inl e) = ap is_running e
not_running_of_over st (inr e) = ap is_running e

saved_jobs :
    (w v : World) (old final : ScanJob)
    → final.id ≡ old.id
    → v.jobs ≡ (claimed_world old w).jobs
    → (save_job final v).jobs ≡ update_where (λ (j : ScanJob). j.id == old.id) (λ _. final) w.jobs
unfolding save_job
saved_jobs w v old final e k =
    ap (λ (js : List ScanJob). update_where (λ (j : ScanJob). j.id == final.id) (λ _. final) js) k
    ∙ (ap
          (λ (i : ℕ).
            update_where (λ (j : ScanJob). j.id == i) (λ _. final)
              (update_where (λ (j : ScanJob). j.id == old.id) (λ _. taken old w) w.jobs))
          e
        ∙ save_twice old.id (taken old w) final w.jobs refl)

running_count-final :
    {s : SecuritySettings} {counts after : Failures} {r : Result ScanExecutionResult} (w : World)
    (old final : ScanJob)
    → Distinct w.jobs
    → IsOldestPending old w
    → Settles s counts after r old final
    → running_count (update_where (λ (j : ScanJob). j.id == old.id) (λ _. final) w.jobs)
      ≡ running_count w.jobs
running_count-final w old final d h k =
    let saved =
      subst
        (λ (i : ℕ).
          running_count (update_where (λ (j : ScanJob). j.id == i) (λ _. final) w.jobs)
            + (if is_running old.status then 1 else 0)
          ≡ running_count w.jobs + (if is_running final.status then 1 else 0))
        k.same_id (running_count-save old final w.jobs d h.0 k.same_id) in
    let waits = ap is_running h.1.0 in
    let over = not_running_of_over final.status k.over in ground (arith, saved, waits, over)

store_final : ScanJob × Failures → M Failures
store_final (final, after) = do modify (save_job final); pure after

process_taken :
    (s : SecuritySettings) (x : Executor) (counts : Failures) (w : World) (old : ScanJob)
    → Distinct w.jobs
    → IsQuiet x
    → IsOldestPending old w
    → running_count w.jobs < s.max_concurrent_jobs_per_org
    → ProcessOutcome s x counts w
        (process_found s x counts (some (taken old w)) (claimed_world old w))
unfolding process_claimed store_final
process_taken s x counts w old d q h room =
    let (t, v, e, k) = run_claimed-returns s x counts (taken old w) (claimed_world old w) q in
    let r = (outcome_of x (taken old w) (claimed_world old w)).0 in
    let final = finished_job s (taken old w) r t in
    let settles = finished_job-Settles s counts w old r t in
    let saved = saved_jobs w v old final settles.same_id k in
    subst (ProcessOutcome s x counts w)
      (sym (
        ap
          (λ (z : Result (ScanJob × Failures) × World).
            continue (continue z store_final) (λ after. pure (true, after)))
          e))
      (
        old,
        final,
        h,
        room,
        settles,
        saved,
        ap running_count saved ∙ running_count-final w old final d h settles,
      )

process_found-outcome :
    (s : SecuritySettings) (x : Executor) (counts : Failures) (w : World)
    (p : Result (Option ScanJob) × World)
    → Distinct w.jobs
    → IsQuiet x
    → ClaimOutcome s (record w { organization_id = none }) p
    → ProcessOutcome s x counts w (continue p (process_found s x counts))
process_found-outcome s x counts w (err e, v) d q h = absurd h
process_found-outcome s x counts w (ok none, v) d q h = (refl, ap (λ (u : World). u.jobs) h.0, h.1)
process_found-outcome s x counts w (ok (some job), v) d q (old, h, e, e', count, limit) =
    let claimed =
      e'
      ∙ ap (λ (j : ScanJob). save_job j (record w { organization_id = none; reads = suc w.reads }))
          e in
    let path =
      ap (λ (j : ScanJob). process_found s x counts (some j) v) e
      ∙ ap (process_found s x counts (some (taken old w))) claimed in
    subst (ProcessOutcome s x counts w) (sym path)
      (process_taken s x counts w old d q h (omega arith))

-- On jobs with distinct keys, and with rule engines that change nothing of the session but the
-- clock, the worker's step always returns. If it returns false, it changes no job and no count of
-- failures, and either the limit on running jobs is reached or no job is pending. If it returns
-- true, there is an oldest pending job, the limit was not reached, that job alone is replaced,
-- under its key and organization, and as many jobs are running as before: it has a time of
-- completion and is completed or failed, completed only within the limit on runtime. If its scan
-- raised, it is failed and its group's count of failures is one higher; if the scan returned, the
-- job has the scan's key, no count of failures is changed, and it is completed if it is within the limit
-- on runtime. No group's count of failures decreases.
pub process_job-outcome :
    (s : SecuritySettings) (x : Executor) (counts : Failures) (w : World)
    → Distinct w.jobs
    → IsQuiet x
    → ProcessOutcome s x counts w (process_job s x counts w)
unfolding process_job
process_job-outcome s x counts w d q =
    process_found-outcome s x counts w _ d q
      (claim_job-ClaimOutcome s (record w { organization_id = none }) d refl)
