-- ===== src/Worker/Counting.antt =====
-- The running jobs that backend/worker.py counts, on a session without a tenant.
use compliance_pulse.Prelude.{
  ℕ, ◌+◌, ◌≡◌, refl, sym, ◌∙◌, ap, subst, inl, inr, arith, Bool, false, none, List, [], ◌∷◌,
  count_where, where_rows, update_where, All, All-map, Has, All-Has, ◌==◌, if◌then◌else◌,
}
use compliance_pulse.Models.Scanning.{ScanJob}
use compliance_pulse.Session.World.{World, sees, select_rows}
use compliance_pulse.Worker.{is_running}

abbrev pub running_count : List ScanJob → ℕ
running_count = count_where (λ j. is_running j.status)

-- No two jobs have one primary key.
abbrev pub Distinct : List ScanJob → Type 0
Distinct [] = Unit
Distinct (j ∷ js) = All (λ (k : ScanJob). (k.id == j.id) ≡ false) js × Distinct js

all_rows :
    (w : World) (rows : List ScanJob)
    → w.organization_id ≡ none
    → where_rows (λ (r : ScanJob). sees w.organization_id r.organization_id) rows ≡ rows
unfolding where_rows sees
all_rows w [] e = refl
all_rows w (r ∷ rows) e = ground (arith, e, all_rows w rows e)

pub select_all :
    (w : World) (p : ScanJob → Bool)
    → w.organization_id ≡ none
    → select_rows (λ (j : ScanJob). j.organization_id) p w w.jobs ≡ where_rows p w.jobs
unfolding select_rows
select_all w p e = ap (where_rows p) (all_rows w w.jobs e)

update_absent :
    (i : ℕ) (job : ScanJob) (jobs : List ScanJob)
    → All (λ (k : ScanJob). (k.id == i) ≡ false) jobs
    → update_where (λ (j : ScanJob). j.id == i) (λ _. job) jobs ≡ jobs
unfolding update_where
update_absent i job [] h = refl
update_absent i job (k ∷ jobs) h = ground (arith, h.0, update_absent i job jobs h.1)

absent_of_other :
    (i : ℕ) (j : ScanJob) (jobs : List ScanJob)
    → j.id ≡ i
    → All (λ (k : ScanJob). (k.id == j.id) ≡ false) jobs
    → All (λ (k : ScanJob). (k.id == i) ≡ false) jobs
absent_of_other i j jobs e h = All-map (λ (k : ScanJob) g. ground (arith, e, g)) jobs h

save_head :
    (old job : ScanJob) (jobs : List ScanJob)
    → All (λ (k : ScanJob). (k.id == old.id) ≡ false) jobs
    → job.id ≡ old.id
    → running_count (update_where (λ (j : ScanJob). j.id == job.id) (λ _. job) (old ∷ jobs))
        + (if is_running old.status then 1 else 0)
      ≡ running_count (old ∷ jobs) + (if is_running job.status then 1 else 0)
unfolding update_where count_where
save_head old job jobs d same =
    ground
      (arith, same, update_absent job.id job jobs (absent_of_other job.id old jobs (sym same) d))

save_tail :
    (j old job : ScanJob) (jobs : List ScanJob)
    → (j.id == job.id) ≡ false
    → running_count (update_where (λ (j : ScanJob). j.id == job.id) (λ _. job) jobs)
        + (if is_running old.status then 1 else 0)
      ≡ running_count jobs + (if is_running job.status then 1 else 0)
    → running_count (update_where (λ (j : ScanJob). j.id == job.id) (λ _. job) (j ∷ jobs))
        + (if is_running old.status then 1 else 0)
      ≡ running_count (j ∷ jobs) + (if is_running job.status then 1 else 0)
unfolding update_where count_where
save_tail j old job jobs e ih = ground (arith, e, ih)

-- Saving one job changes the count of running jobs by that job alone.
pub running_count-save :
    (old job : ScanJob) (jobs : List ScanJob)
    → Distinct jobs
    → Has old jobs
    → job.id ≡ old.id
    → running_count (update_where (λ (j : ScanJob). j.id == job.id) (λ _. job) jobs)
        + (if is_running old.status then 1 else 0)
      ≡ running_count jobs + (if is_running job.status then 1 else 0)
running_count-save old job [] d m same = absurd m
running_count-save old job (j ∷ jobs) d (inl e) same =
    subst
      (λ (o : ScanJob).
        running_count (update_where (λ (k : ScanJob). k.id == job.id) (λ _. job) (j ∷ jobs))
          + (if is_running o.status then 1 else 0)
        ≡ running_count (j ∷ jobs) + (if is_running job.status then 1 else 0))
      e (save_head j job jobs d.0 (same ∙ ap (λ (o : ScanJob). o.id) (sym e)))
running_count-save old job (j ∷ jobs) d (inr m) same =
    let other = All-Has (λ (k : ScanJob). (k.id == j.id) ≡ false) jobs d.0 m in
    save_tail j old job jobs (ground (arith, other, same))
      (running_count-save old job jobs d.1 m same)
