-- ===== src/Tests/Engine.antt =====
-- The theorems on the scan engine and its worker, at the small world.
use compliance_pulse.Prelude.{
  ℕ, ◌≤◌, count_where, first_where, where_rows, text_eq, ◌≡◌, refl, arith, none, some, [], ◌∷◌,
  codes,
}
use compliance_pulse.Session.World.{World, get_row, select_rows, sees}
use compliance_pulse.Session.Monad.{ok, utcnow, fresh_id}
use compliance_pulse.Engine.Executor.Steps.{
  ScanInput, ScanExecutionResult, run_rules, persist_result, scan_tags, finish, write_artifacts,
  run_for_rules,
}
use compliance_pulse.Engine.Scoring.{collect_rule_tags}
use compliance_pulse.Engine.Executor.Completed.{IsComplete, IsFresh, run_for_rules-IsComplete}
use compliance_pulse.Engine.Executor.Groups.{
  execute_job, run_for_group, run_group, run_owned, group_rules, group_rule_ids,
}
use compliance_pulse.Engine.Executor.Groups.Tenancy.{RunsOwn, execute_job-RunsOwn}
use compliance_pulse.Engine.Scheduler.{active_in, run_once, enqueue_job}
use compliance_pulse.Engine.Scheduler.Enqueueing.{EnqueueOutcome, enqueue_job-outcome}
use compliance_pulse.Engine.Scheduler.Capacity.{IsOrderly, run_once-IsOrderly}
use compliance_pulse.Worker.{claim_job, process_job}
use compliance_pulse.Worker.Claiming.{ClaimOutcome, claim_job-ClaimOutcome}
use compliance_pulse.Worker.Processing.{ProcessOutcome, process_job-outcome}
use compliance_pulse.Tests.{
  settings, rule, group, schedule, job, world, tenant_world, executor, executor-IsQuiet,
}

process_job-outcome_example :
    ProcessOutcome settings executor (λ g. 0) world (process_job settings executor (λ g. 0) world)
process_job-outcome_example =
    process_job-outcome settings executor (λ g. 0) world (tt, tt) executor-IsQuiet

claim_job-ClaimOutcome_example : ClaimOutcome settings world (claim_job settings world)
claim_job-ClaimOutcome_example = claim_job-ClaimOutcome settings world (tt, tt) refl

one_active : (g : ℕ) → count_where (active_in g) world.jobs ≤ settings.max_concurrent_jobs_per_org
unfolding count_where
one_active g = ground arith

world-IsOrderly : IsOrderly settings world
world-IsOrderly = record {
  all_seen = refl;
  within = one_active;
  below = (omega arith, tt);
  distinct = (tt, tt);
}

run_once-IsOrderly_example :
    ((run_once settings world).0 ≡ ok tt) × IsOrderly settings (run_once settings world).1
run_once-IsOrderly_example = run_once-IsOrderly settings world world-IsOrderly

enqueue_job-outcome_example :
    EnqueueOutcome settings schedule world (enqueue_job settings schedule world)
enqueue_job-outcome_example = enqueue_job-outcome settings schedule world

abbrev input : ScanInput
input = record {
  hostname = codes "host";
  ip = none;
  benchmark_id = codes "b";
  rules = rule ∷ [];
  triggered_by = codes "manual";
  group = some group;
  extra_tags = [];
}

world-IsFresh : IsFresh tenant_world
world-IsFresh = record { scans = tt; reports = tt }

run_for_rules-IsComplete_example :
    (r : ScanExecutionResult) × (v : World) × IsComplete executor input tenant_world r v
unfolding run_for_rules scan_tags collect_rule_tags fresh_id utcnow run_rules persist_result finish
    write_artifacts
run_for_rules-IsComplete_example = (
  _,
  _,
  run_for_rules-IsComplete executor input tenant_world _ _ executor-IsQuiet world-IsFresh refl,
)

execute_job-RunsOwn_example :
    (r : ScanExecutionResult) × (v : World) × RunsOwn executor job tenant_world v r
unfolding execute_job run_for_group run_group run_owned get_row group_rules group_rule_ids
    select_rows sees first_where where_rows text_eq run_for_rules scan_tags collect_rule_tags
    fresh_id utcnow run_rules persist_result finish write_artifacts
execute_job-RunsOwn_example =
    (_, _, execute_job-RunsOwn executor job tenant_world _ _ refl (omega arith) refl)
