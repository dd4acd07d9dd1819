-- ===== src/Worker/Claiming.antt =====
-- `_claim_job` of backend/worker.py: which job it takes, and the limit on running jobs.
use compliance_pulse.Prelude.{
  suc, ◌≤◌, ◌<◌, ◌≡◌, ◌≢◌, Bool-cases, refl, sym, ◌∙◌, ap, subst, ◌⊎◌, inl, inr, arith, Bool, true,
  false, Option, none, some, List, [], ◌∷◌, length, where_rows, length-where_rows, update_where,
  All, All-map, Has, Has-where_rows, ltb, leb, ◌==◌, if◌then◌else◌,
}
use compliance_pulse.Models.Scanning.{ScanJob, Status, pending, running, completed, failed}
use compliance_pulse.Session.World.{World, select_rows}
use compliance_pulse.Session.Monad.{Result, ok, err, pure, utcnow}
use compliance_pulse.Security.Settings.{SecuritySettings}
use compliance_pulse.Worker.{
  is_pending, is_running, has_capacity, earlier, oldest, save_job, claim_found, claim_job,
}
use compliance_pulse.Worker.Counting.{running_count, Distinct, select_all, running_count-save}

-- The first of the oldest jobs of a list, where it has jobs.
abbrev IsFirst : Option ScanJob → List ScanJob → Type 0
IsFirst none jobs = jobs ≡ []
IsFirst (some job) jobs = Has job jobs × All (λ (k : ScanJob). job.created_at ≤ k.created_at) jobs

earlier-IsFirst :
    (j k : ScanJob) (jobs : List ScanJob) (b : Bool)
    → leb j.created_at k.created_at ≡ b
    → IsFirst (some k) jobs
    → IsFirst (some (if b then j else k)) (j ∷ jobs)
earlier-IsFirst j k jobs true e (m, older) =
    (inl refl, (omega arith, All-map (λ (i : ScanJob) g. ground (arith, e, g)) jobs older))
earlier-IsFirst j k jobs false e (m, older) = (inr m, (ground (arith, e), older))

earliest-IsFirst :
    (j : ScanJob) (o : Option ScanJob) (jobs : List ScanJob)
    → IsFirst o jobs
    → IsFirst (some (earlier j o)) (j ∷ jobs)
earliest-IsFirst j none jobs e =
    subst (λ (l : List ScanJob). IsFirst (some j) (j ∷ l)) (sym e) (inl refl, (omega arith, tt))
earliest-IsFirst j (some k) jobs h = earlier-IsFirst j k jobs (leb j.created_at k.created_at) refl h

oldest-IsFirst : (jobs : List ScanJob) → IsFirst (oldest jobs) jobs
unfolding oldest
oldest-IsFirst [] = refl
oldest-IsFirst (j ∷ jobs) = earliest-IsFirst j (oldest jobs) jobs (oldest-IsFirst jobs)

-- The pending job that a query finds: it is stored, pending, and no pending job is older.
abbrev pub IsOldestPending : ScanJob → World → Type 0
IsOldestPending job w =
    Has job w.jobs
    × ((job.status ≡ pending)
        × All (λ (k : ScanJob). k.status ≡ pending → job.created_at ≤ k.created_at) w.jobs)

pending_of_is_pending : (st : Status) → is_pending st ≡ true → st ≡ pending
pending_of_is_pending pending h = refl
pending_of_is_pending running h = absurd (cc)
pending_of_is_pending completed h = absurd (cc)
pending_of_is_pending failed h = absurd (cc)

-- What holds of the rows that a query for pending jobs answers holds of all pending jobs.
All-pending :
    (P : ScanJob → Type 0) (jobs : List ScanJob)
    → All P (where_rows (λ (j : ScanJob). is_pending j.status) jobs)
    → All (λ (k : ScanJob). k.status ≡ pending → P k) jobs
unfolding where_rows
All-pending P [] h = tt
All-pending P (j ∷ jobs) h = elim (Bool-cases (is_pending j.status)) [
  | inl waits ↦ let g = rw waits at h in (λ _. g.0, All-pending P jobs g.1)
  | inr other ↦ (λ e. absurd (cc (ap is_pending e, other)), All-pending P jobs (rw other at h))
]

oldest-select :
    (w : World) (o : Option ScanJob)
    → w.organization_id ≡ none
    → oldest (select_rows (λ (j : ScanJob). j.organization_id) (λ j. is_pending j.status) w w.jobs)
      ≡ o
    → IsFirst o (where_rows (λ (j : ScanJob). is_pending j.status) w.jobs)
oldest-select w o e found =
    let rows = where_rows (λ (j : ScanJob). is_pending j.status) w.jobs in
    subst (λ (p : Option ScanJob). IsFirst p rows)
      (ap oldest (sym (select_all w (λ j. is_pending j.status) e)) ∙ found) (oldest-IsFirst rows)

found-IsOldestPending :
    (w : World) {job : ScanJob}
    → w.organization_id ≡ none
    → oldest (select_rows (λ (j : ScanJob). j.organization_id) (λ j. is_pending j.status) w w.jobs)
      ≡ some job
    → IsOldestPending job w
found-IsOldestPending w {job} e found =
    let (there, older) = oldest-select w (some job) e found in
    let (stored, waits) = Has-where_rows (λ (j : ScanJob). is_pending j.status) w.jobs there in
    (
      stored,
      (
        pending_of_is_pending job.status waits,
        All-pending (λ (k : ScanJob). job.created_at ≤ k.created_at) w.jobs older,
      ),
    )

none_pending :
    (w : World)
    → w.organization_id ≡ none
    → oldest (select_rows (λ (j : ScanJob). j.organization_id) (λ j. is_pending j.status) w w.jobs)
      ≡ none
    → All (λ (k : ScanJob). k.status ≢ pending) w.jobs
none_pending w e found =
    All-pending (λ _. ⊥) w.jobs (subst (All (λ _. ⊥)) (sym (oldest-select w none e found)) tt)

-- The job as the worker takes it.
abbrev pub taken : ScanJob → World → ScanJob
taken job w = record job { status = running; started_at = some (w.clock w.reads) }

-- The limit on running jobs is reached, or no job waits.
abbrev pub NothingToClaim : SecuritySettings → World → Type 0
NothingToClaim s w =
    (s.max_concurrent_jobs_per_org ≤ running_count w.jobs)
    ⊎ All (λ (k : ScanJob). k.status ≢ pending) w.jobs

abbrev pub ClaimOutcome : SecuritySettings → World → Result (Option ScanJob) × World → Type 0
ClaimOutcome s w (err e, v) = ⊥
ClaimOutcome s w (ok none, v) = (v ≡ w) × NothingToClaim s w
ClaimOutcome s w (ok (some job), v) =
    (old : ScanJob) × IsOldestPending old w
    × (job ≡ taken old w)
    × (v ≡ save_job job (record w { reads = suc w.reads }))
    × (running_count v.jobs ≡ suc (running_count w.jobs))
    × (running_count v.jobs ≤ s.max_concurrent_jobs_per_org)

running_count-taken :
    (old : ScanJob) (w : World)
    → Distinct w.jobs
    → IsOldestPending old w
    → running_count (update_where (λ (j : ScanJob). j.id == old.id) (λ _. taken old w) w.jobs)
      ≡ suc (running_count w.jobs)
running_count-taken old w d h =
    let saved = running_count-save old (taken old w) w.jobs d h.0 refl in
    let waits = ap is_running h.1.0 in ground (arith, saved, waits)

running_count-select :
    (w : World)
    → w.organization_id ≡ none
    → length (select_rows (λ (j : ScanJob). j.organization_id) (λ j. is_running j.status) w w.jobs)
      ≡ running_count w.jobs
running_count-select w e =
    ap length (select_all w (λ j. is_running j.status) e)
    ∙ length-where_rows (λ (j : ScanJob). is_running j.status) w.jobs

claim_found-ClaimOutcome :
    (s : SecuritySettings) (w : World) (o : Option ScanJob)
    → Distinct w.jobs
    → w.organization_id ≡ none
    → running_count w.jobs < s.max_concurrent_jobs_per_org
    → oldest (select_rows (λ (j : ScanJob). j.organization_id) (λ j. is_pending j.status) w w.jobs)
      ≡ o
    → ClaimOutcome s w (claim_found o w)
unfolding utcnow save_job
claim_found-ClaimOutcome s w none d e room found = (refl, inr (none_pending w e found))
claim_found-ClaimOutcome s w (some old) d e room found =
    let h = found-IsOldestPending w e found in
    let count = running_count-taken old w d h in (old, h, refl, refl, count, omega arith)

claim_if-ClaimOutcome :
    (s : SecuritySettings) (w : World) (b : Bool)
    → ltb
        (length
          (select_rows (λ (j : ScanJob). j.organization_id) (λ j. is_running j.status) w w.jobs))
        s.max_concurrent_jobs_per_org
      ≡ b
    → Distinct w.jobs
    → w.organization_id ≡ none
    → ClaimOutcome s w (
        (if b
            then claim_found (
                oldest (
                  select_rows
                    (λ (j : ScanJob). j.organization_id)
                    (λ j. is_pending j.status)
                    w
                    w.jobs))
            else pure none)
          w)
claim_if-ClaimOutcome s w true room d e =
    claim_found-ClaimOutcome s w _ d e (ground (arith, room, running_count-select w e)) refl
claim_if-ClaimOutcome s w false full d e =
    (refl, inl (ground (arith, full, running_count-select w e)))

-- On a session without a tenant and jobs with distinct keys, the worker's claim does not raise. If
-- it takes no job, it changes nothing, and either the limit on running jobs is reached or no job is
-- pending. If it takes one, that is a stored pending job such that no pending job was created
-- earlier, it is stored as running since the time of the claim, nothing but that and
-- the clock is changed, one more job is running than
-- before, and the number of running jobs is within the limit.
pub claim_job-ClaimOutcome :
    (s : SecuritySettings) (w : World)
    → Distinct w.jobs
    → w.organization_id ≡ none
    → ClaimOutcome s w (claim_job s w)
unfolding claim_job has_capacity
claim_job-ClaimOutcome s w d e = claim_if-ClaimOutcome s w _ refl d e
