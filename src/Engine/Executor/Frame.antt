-- ===== src/Engine/Executor/Frame.antt =====
-- What backend/engine/scan_executor.py does to the jobs, step by step.
use compliance_pulse.Prelude.{ℕ, Text, ◌≡◌, refl, ap, Option, none, some, List, [], ◌∷◌}
use compliance_pulse.Models.Scanning.{Rule, RuleGroup, Scan, ScanJob, Report}
use compliance_pulse.Session.World.{World}
use compliance_pulse.Session.Frame.{KeepsJobs, KeepsJobs-modify, KeepsJobs-bind, keeps_jobs}
use compliance_pulse.Engine.RuleEngine.{RuleEvaluation}
use compliance_pulse.Engine.Executor.Steps.{
  Executor, Tally, ScanInput, save_scan, save_report, add_scan, add_report, touch_group,
  persist_result, run_rules, write_artifacts, finish, run_for_rules,
}
use compliance_pulse.Engine.Executor.Loop.{IsQuiet}
use compliance_pulse.Engine.Executor.Groups.{run_group, run_for_group, execute_job}

save_scan-keeps : (s : Scan) (w : World) → (save_scan s w).jobs ≡ w.jobs
unfolding save_scan
save_scan-keeps s w = refl

save_report-keeps : (r : Report) (w : World) → (save_report r w).jobs ≡ w.jobs
unfolding save_report
save_report-keeps r w = refl

add_scan-keeps : (s : Scan) (w : World) → (add_scan s w).jobs ≡ w.jobs
unfolding add_scan
add_scan-keeps s w = refl

add_report-keeps : (r : Report) (w : World) → (add_report r w).jobs ≡ w.jobs
unfolding add_report
add_report-keeps r w = refl

touch_group-keeps_jobs :
    (g : Option RuleGroup) (t : Option ℕ) (w : World) → (touch_group g t w).jobs ≡ w.jobs
unfolding touch_group
touch_group-keeps_jobs none t w = refl
touch_group-keeps_jobs (some g) t w = refl

persist_result-KeepsJobs :
    (x : Executor) (scan : Scan) (rule : Rule) (e : RuleEvaluation)
    → KeepsJobs (persist_result x scan rule e)
unfolding persist_result
persist_result-KeepsJobs x scan rule e = record { at = λ w. refl }

evaluate-KeepsJobs : (x : Executor) (rule : Rule) → IsQuiet x → KeepsJobs (x.evaluate rule)
evaluate-KeepsJobs x rule q = record {
  at = λ w. ap (λ (v : World). v.jobs) (q.clock_only rule w).1;
}

ruleset executor_keeps = (
  keeps_jobs, KeepsJobs-modify, save_scan-keeps, save_report-keeps, add_scan-keeps,
  add_report-keeps, touch_group-keeps_jobs,
)

run_rules-KeepsJobs :
    (x : Executor) (scan : Scan) (rules : List Rule) (t : Tally)
    → IsQuiet x
    → KeepsJobs (run_rules x scan rules t)
unfolding run_rules
run_rules-KeepsJobs x scan [] t q = search keeps_jobs
run_rules-KeepsJobs x scan (rule ∷ rules) t q =
    KeepsJobs-bind (x.evaluate rule) _ (evaluate-KeepsJobs x rule q) λ e.
      KeepsJobs-bind (persist_result x scan rule e) _ (persist_result-KeepsJobs x scan rule e)
        λ r. run_rules-KeepsJobs x scan rules _ q

write_artifacts-KeepsJobs :
    (x : Executor) (scan : Scan) (report : Report) → KeepsJobs (write_artifacts x scan report)
unfolding write_artifacts
write_artifacts-KeepsJobs x scan report = search executor_keeps depth 9

finish-KeepsJobs :
    (x : Executor) (input : ScanInput) (scan : Scan) (t : Tally) → KeepsJobs (finish x input scan t)
unfolding finish
finish-KeepsJobs x input scan t = search (executor_keeps, write_artifacts-KeepsJobs) depth 12

run_for_rules-KeepsJobs :
    (x : Executor) (input : ScanInput) → IsQuiet x → KeepsJobs (run_for_rules x input)
unfolding run_for_rules
run_for_rules-KeepsJobs x input q =
    search (executor_keeps, run_rules-KeepsJobs, finish-KeepsJobs) depth 12

run_group-KeepsJobs :
    (x : Executor) (hostname ip : Option Text) (triggered_by : Text) (group : RuleGroup)
    → IsQuiet x
    → KeepsJobs (run_group x hostname ip triggered_by group)
unfolding run_group
run_group-KeepsJobs x hostname ip triggered_by group q =
    search (keeps_jobs, run_for_rules-KeepsJobs) depth 8

run_for_group-KeepsJobs :
    (x : Executor) (group_id : ℕ) (hostname ip : Option Text) (triggered_by : Text)
    → IsQuiet x
    → KeepsJobs (run_for_group x group_id hostname ip triggered_by)
unfolding run_for_group
run_for_group-KeepsJobs x group_id hostname ip triggered_by q =
    search (keeps_jobs, run_group-KeepsJobs) depth 8

pub execute_job-KeepsJobs :
    (x : Executor) (job : ScanJob) → IsQuiet x → KeepsJobs (execute_job x job)
unfolding execute_job
execute_job-KeepsJobs x job q = search (keeps_jobs, run_for_group-KeepsJobs) depth 6
