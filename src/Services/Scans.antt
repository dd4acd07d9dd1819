-- ===== src/Services/Scans.antt =====
-- `ScanService` of backend/app/services/scan_service.py
pub mod Views
pub mod Shown
pub mod Started
pub mod Reread
pub mod Answered
use compliance_pulse.Prelude.{
  ℕ, zero, suc, Text, Bool, true, false, Option, none, some, List, [], ◌∷◌, ◌++◌, codes, lower,
  option_or, text_eq, text_mem, ◌==◌, ◌&&◌, first_where, first_by, is_empty, if◌then◌else◌,
}
use compliance_pulse.Models.Scanning.{
  Time, encoded, text, Benchmark, Rule, RuleGroup, Scan, ScanResult, Report, ScanJob, pending,
}
use compliance_pulse.Models.Accounts.{Organization}
use compliance_pulse.Session.World.{World, select_rows, get_row}
use compliance_pulse.Session.Monad.{
  M, Result, ok, err, value_error, lift, or_raise, gets, modify, pure, raise, utcnow, fresh_id,
  ◌>>=◌, ◌>>◌,
}
use compliance_pulse.Engine.Executor.Steps.{Executor, ScanInput, ScanExecutionResult, run_for_rules}
use compliance_pulse.Engine.Executor.Groups.{find_group}
use compliance_pulse.Services.Schedules.{newest_first}
use compliance_pulse.Services.Scans.Views.{
  ScanSummary, ScanDetail, ScanJobView, ReportView, build_scan_summary, build_scan_detail,
  build_all, build_report_view, build_job_view,
}

pub record ScanRequest : Type 0 where
  pub hostname : Text
  pub ip : Option Text
  pub benchmark_id : Text
  pub tags : List Text

-- `org.id if org else 1`
abbrev first_id : Option Organization → ℕ
first_id none = 1
first_id (some org) = org.id

abbrev detected : Option ℕ → List Organization → ℕ
detected none organizations = first_id (first_by (λ (o : Organization). o.id) organizations)
detected (some zero) organizations = first_id (first_by (λ (o : Organization). o.id) organizations)
detected (some (suc i)) organizations = suc i

-- The organization that `__init__` works for
unfoldable pub service_organization : Option ℕ → World → ℕ
service_organization none w = detected w.organization_id w.organizations
service_organization (some organization_id) w = organization_id

-- `os.getenv("ENABLE_BASELINE_RULE_AUTO_CREATE", "")` in lower case is one of three words.
unfoldable pub auto_create_enabled : Option Text → Bool
auto_create_enabled none = false
auto_create_enabled (some value) =
    text_mem (lower value) (codes "1" ∷ codes "true" ∷ codes "yes" ∷ [])

abbrev pub baseline_id : Text → Text
baseline_id benchmark_id = benchmark_id ++ codes ":baseline-ping"

abbrev pub baseline_rule : ℕ → Text → Time → Rule
baseline_rule organization_id benchmark_id created_at = record {
  id = baseline_id benchmark_id;
  organization_id = organization_id;
  benchmark_id = benchmark_id;
  title = codes "Baseline agent availability";
  description = codes "Verifies the worker can execute a simple command";
  severity = codes "low";
  remediation = codes "Ensure worker container is healthy";
  references_json = encoded [];
  metadata_json = encoded ((codes "type", text (codes "shell")) ∷ []);
  tags_json = encoded (codes "baseline" ∷ codes "diagnostic" ∷ []);
  check_type = codes "shell";
  command = codes "echo ok";
  expect_type = codes "equals";
  expect_value = codes "ok";
  timeout_seconds = 5;
  status = codes "active";
  last_run = none;
  created_at = created_at;
}

abbrev pub add_rule : Rule → World → World
add_rule rule w = record w { rules = w.rules ++ rule ∷ [] }

abbrev pub find_rule : Text → World → Option Rule
find_rule rule_id w =
    get_row (λ (r : Rule). r.organization_id) (λ r. text_eq r.id rule_id) w w.rules

abbrev pub use_or_create : ℕ → Text → Option Rule → M (List Rule)
use_or_create organization_id benchmark_id (some exists) = pure (exists ∷ [])
use_or_create organization_id benchmark_id none = do
  created_at ← utcnow
  let rule = baseline_rule organization_id benchmark_id created_at
  modify (add_rule rule)
  pure (rule ∷ [])

-- The benchmark's rules, or the baseline rule where there are none and it is asked for
abbrev pub provide_rules : ℕ → Bool → Text → List Rule → M (List Rule)
provide_rules organization_id auto_create benchmark_id (rule ∷ rules) = pure (rule ∷ rules)
provide_rules organization_id false benchmark_id [] = pure []
provide_rules organization_id true benchmark_id [] =
    gets (find_rule (baseline_id benchmark_id)) >>= use_or_create organization_id benchmark_id

abbrev pub api_input : ScanRequest → Benchmark → List Rule → ScanInput
api_input request benchmark rules = record {
  hostname = request.hostname;
  ip = request.ip;
  benchmark_id = benchmark.id;
  rules = rules;
  triggered_by = codes "api";
  group = none;
  extra_tags = request.tags;
}

abbrev pub shown : ScanExecutionResult → M ScanDetail
shown result = lift (build_scan_detail result.scan result.results)

abbrev pub run_provided : Executor → ScanRequest → Benchmark → List Rule → M ScanDetail
run_provided x request benchmark rules =
    run_for_rules x (api_input request benchmark rules) >>= shown

abbrev pub benchmark_rules : Text → World → List Rule
benchmark_rules benchmark_id w =
    select_rows (λ (r : Rule). r.organization_id) (λ r. text_eq r.benchmark_id benchmark_id) w
      w.rules

abbrev pub scan_benchmark : Executor → ℕ → Option Text → ScanRequest → Benchmark → M ScanDetail
scan_benchmark x organization_id variable request benchmark = do
  rules ← gets (benchmark_rules request.benchmark_id)
  provided ← provide_rules organization_id (auto_create_enabled variable) benchmark.id rules
  run_provided x request benchmark provided

abbrev pub find_benchmark : Text → World → Option Benchmark
find_benchmark benchmark_id w =
    first_where (λ (b : Benchmark). text_eq b.id benchmark_id) w.benchmarks

unfoldable pub start_scan : Executor → ℕ → Option Text → ScanRequest → M ScanDetail
start_scan x organization_id variable request = do
  found ← gets (find_benchmark request.benchmark_id)
  benchmark ← lift (
      or_raise (value_error (codes "Benchmark '" ++ (request.benchmark_id ++ codes "' not found")))
        found)
  scan_benchmark x organization_id variable request benchmark

unfoldable pub list_scans : M (List ScanSummary)
list_scans = do
  scans ← gets (λ w.
      newest_first (λ (s : Scan). s.started_at)
        (select_rows (λ (s : Scan). s.organization_id) (λ s. true) w w.scans))
  lift (build_all build_scan_summary scans)

abbrev pub find_scan : ℕ → World → Option Scan
find_scan scan_id w = get_row (λ (s : Scan). s.organization_id) (λ s. s.id == scan_id) w w.scans

-- `_load_results`
unfoldable pub load_results : ℕ → World → List ScanResult
load_results scan_id w =
    select_rows (λ (r : ScanResult). r.organization_id) (λ r. r.scan_id == scan_id) w w.results

abbrev pub detail_of : ℕ → Scan → M ScanDetail
detail_of scan_id scan = do
  results ← gets (load_results scan_id)
  lift (build_scan_detail scan results)

unfoldable pub get_scan : ℕ → M ScanDetail
get_scan scan_id = do
  found ← gets (find_scan scan_id)
  scan ← lift (or_raise (value_error (codes "Scan not found")) found)
  detail_of scan_id scan

unfoldable pub list_reports : M (List ReportView)
list_reports = do
  reports ← gets (λ w.
      newest_first (λ (r : Report). r.created_at)
        (select_rows (λ (r : Report). r.organization_id) (λ r. true) w w.reports))
  lift (build_all build_report_view reports)

unfoldable pub get_report : ℕ → M ReportView
get_report report_id = do
  found ←
      gets (λ w. get_row (λ (r : Report). r.organization_id) (λ r. r.id == report_id) w w.reports)
  report ← lift (or_raise (value_error (codes "Report not found")) found)
  lift (build_report_view report)

abbrev first_report : List Report → Option Report
first_report [] = none
first_report (report ∷ reports) = some report

unfoldable pub get_report_for_scan : ℕ → M ReportView
get_report_for_scan scan_id = do
  found ← gets (λ w.
      first_report
        (select_rows (λ (r : Report). r.organization_id) (λ r. r.scan_id == scan_id) w w.reports))
  report ← lift (or_raise (value_error (codes "Report not found for scan")) found)
  lift (build_report_view report)

abbrev pub manual_job : ℕ → ℕ → RuleGroup → Option Text → Text → Time → ScanJob
manual_job id organization_id group hostname triggered_by created_at = record {
  id = id;
  organization_id = organization_id;
  group_id = group.id;
  schedule_id = none;
  hostname = option_or hostname group.default_hostname;
  triggered_by = triggered_by;
  status = pending;
  error = none;
  created_at = created_at;
  started_at = none;
  completed_at = none;
  scan_id = none;
}

-- The part of `enqueue_group_scan` behind its checks
abbrev pub enqueue : ℕ → Option Text → Text → RuleGroup → M ScanJobView
enqueue organization_id hostname triggered_by group = do
  created_at ← utcnow
  id ← fresh_id
  let job = manual_job id organization_id group hostname triggered_by created_at
  modify (λ w. record w { jobs = w.jobs ++ job ∷ [] })
  pure (build_job_view job)

abbrev pub enqueue_own : ℕ → Option Text → Text → Option RuleGroup → M ScanJobView
enqueue_own organization_id hostname triggered_by none =
    raise (value_error (codes "Rule group not found"))
enqueue_own organization_id hostname triggered_by (some group) =
    if group.organization_id == organization_id
    then enqueue organization_id hostname triggered_by group
    else raise (value_error (codes "Rule group not found for this organization"))

unfoldable pub enqueue_group_scan : ℕ → ℕ → Option Text → Text → M ScanJobView
enqueue_group_scan organization_id group_id hostname triggered_by =
    gets (find_group group_id) >>= enqueue_own organization_id hostname triggered_by
