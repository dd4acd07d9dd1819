-- ===== src/Engine/Executor/Steps.antt =====
-- `ScanExecutor.run_for_rules` of backend/engine/scan_executor.py, with `_persist_result` and
-- `_write_artifacts`. The best-effort HTML and PDF files leave no trace in the session.
use compliance_pulse.Prelude.{
  ℕ, ◌+◌, Text, Option, none, some, List, [], ◌∷◌, ◌++◌, codes, decimal, length, update_where,
  text_eq, ◌==◌, ◌&&◌, not, if◌then◌else◌,
}
use compliance_pulse.Models.Scanning.{
  Time, Column, encoded, Rule, RuleGroup, running, completed, ResultStatus, ReportStatus, passed,
  attention, Scan, ScanResult, Report,
}
use compliance_pulse.Session.World.{World}
use compliance_pulse.Session.Monad.{
  M, Result, ok, err, pure, lift, modify, utcnow, fresh_id, ◌>>=◌, ◌>>◌,
}
use compliance_pulse.Engine.RuleEngine.{RuleEvaluation}
use compliance_pulse.Engine.Scoring.{rule_weight, derive_severity, sorted_union, collect_rule_tags}
use compliance_pulse.Engine.Summary.{summarize_scan}

-- The executor's fields, and what it uses of its surroundings: the rule engine, the rounded
-- quotient `round(a / b * 100, 2)` in hundredths, and the writing of a JSON file.
pub record Executor : Type 0 where
  pub organization_id : ℕ
  pub evaluate : Rule → M RuleEvaluation
  pub percent : ℕ → ℕ → ℕ
  pub logs_dir : Text
  pub artifacts_dir : Text
  pub write_text : Text → Result (Unit {0})

-- The local variables of the loop.
pub record Tally : Type 0 where
  pub results : List ScanResult
  pub passed_rules : ℕ
  pub weighted_pass : ℕ
  pub weighted_total : ℕ

abbrev pub no_tally : Tally
no_tally = record { results = []; passed_rules = 0; weighted_pass = 0; weighted_total = 0 }

-- What `run_for_rules` is given.
pub record ScanInput : Type 0 where
  pub hostname : Text
  pub ip : Option Text
  pub benchmark_id : Text
  pub rules : List Rule
  pub triggered_by : Text
  pub group : Option RuleGroup
  pub extra_tags : List Text

pub record ScanExecutionResult : Type 0 where
  pub scan : Scan
  pub results : List ScanResult
  pub report : Report

unfoldable pub result_of : ℕ → ℕ → ℕ → Rule → RuleEvaluation → ScanResult
result_of id organization_id scan_id rule evaluation = record {
  id = id;
  organization_id = organization_id;
  scan_id = scan_id;
  rule_id = rule.id;
  rule_title = rule.title;
  severity = rule.severity;
  status = if evaluation.passed then ResultStatus.passed else ResultStatus.failed;
  passed = evaluation.passed;
  stdout = evaluation.stdout;
  stderr = evaluation.stderr;
  details_json = encoded evaluation.details;
  executed_at = evaluation.started_at;
  completed_at = some evaluation.completed_at;
  runtime_ms = some evaluation.runtime_ms;
}

store_result : ScanResult → Text → Time → World → World
store_result result rule_id last_run w = record w {
  results = w.results ++ result ∷ [];
  rules =
      update_where (λ r. text_eq r.id rule_id) (λ r. record r { last_run = some last_run }) w.rules;
}

-- `_persist_result`
unfoldable pub persist_result : Executor → Scan → Rule → RuleEvaluation → M ScanResult
unfolding result_of store_result fresh_id
persist_result x scan rule evaluation = do
  id ← fresh_id
  let result = result_of id x.organization_id scan.id rule evaluation
  modify (store_result result rule.id evaluation.completed_at)
  pure result

unfoldable pub count_result : Rule → RuleEvaluation → ScanResult → Tally → Tally
count_result rule evaluation result t = record {
  results = t.results ++ result ∷ [];
  passed_rules = if evaluation.passed then t.passed_rules + 1 else t.passed_rules;
  weighted_pass =
      if evaluation.passed then t.weighted_pass + rule_weight rule.severity else t.weighted_pass;
  weighted_total = t.weighted_total + rule_weight rule.severity;
}

-- The loop over the rules.
unfoldable pub run_rules : Executor → Scan → List Rule → Tally → M Tally
run_rules x scan [] t = pure t
run_rules x scan (rule ∷ rules) t = do
  evaluation ← x.evaluate rule
  result ← persist_result x scan rule evaluation
  run_rules x scan rules (count_result rule evaluation result t)

-- `score`: 0 if nothing was weighed
unfoldable pub score_of : Executor → Tally → ℕ
score_of x t = if t.weighted_total == 0 then 0 else x.percent t.weighted_pass t.weighted_total

abbrev group_id_of : Option RuleGroup → Option ℕ
group_id_of none = none
group_id_of (some group) = some group.id

unfoldable pub new_scan : ℕ → Time → Executor → ScanInput → List Text → Scan
new_scan id started_at x input tags = record {
  id = id;
  organization_id = x.organization_id;
  hostname = input.hostname;
  ip = input.ip;
  benchmark_id = input.benchmark_id;
  group_id = group_id_of input.group;
  status = running;
  severity = derive_severity input.rules;
  tags_json = encoded tags;
  summary = none;
  ai_summary_json = Column.blank;
  started_at = started_at;
  completed_at = none;
  last_run = none;
  total_rules = length input.rules;
  passed_rules = 0;
  output_path = none;
  triggered_by = input.triggered_by;
  compliance_score = 0;
}

unfoldable pub finished_scan : Executor → ScanInput → Tally → Time → Scan → Scan
finished_scan x input t completed_at scan =
    let bundle = summarize_scan t.results in
    record scan {
      completed_at = some completed_at;
      last_run = some completed_at;
      status = completed;
      passed_rules = t.passed_rules;
      total_rules = length input.rules;
      summary = some bundle.summary;
      ai_summary_json = encoded bundle;
      compliance_score = score_of x t;
    }

-- `"passed" if total and passed_rules == total else "attention"`
unfoldable pub report_status : ℕ → ℕ → ReportStatus
report_status total passed_rules =
    if not (total == 0) && passed_rules == total then passed else attention

unfoldable pub new_report : ℕ → Time → Executor → ScanInput → Tally → Scan → Report
unfolding report_status
new_report id created_at x input t scan =
    let bundle = summarize_scan t.results in
    record {
      id = id;
      organization_id = x.organization_id;
      scan_id = scan.id;
      benchmark_id = scan.benchmark_id;
      hostname = scan.hostname;
      score = score_of x t;
      summary = bundle.summary;
      status = report_status (length input.rules) t.passed_rules;
      severity = scan.severity;
      tags_json = scan.tags_json;
      output_path = none;
      last_run = scan.completed_at;
      created_at = created_at;
      key_findings_json = encoded bundle.key_findings;
      remediations_json = encoded bundle.remediations;
    }

unfoldable pub save_scan : Scan → World → World
save_scan scan w = record w { scans = update_where (λ s. s.id == scan.id) (λ _. scan) w.scans }

unfoldable pub save_report : Report → World → World
save_report report w = record w {
  reports = update_where (λ r. r.id == report.id) (λ _. report) w.reports;
}

unfoldable pub add_scan : Scan → World → World
add_scan scan w = record w { scans = w.scans ++ scan ∷ [] }

unfoldable pub add_report : Report → World → World
add_report report w = record w { reports = w.reports ++ report ∷ [] }

unfoldable pub file_path : Text → Text → ℕ → Text
file_path dir prefix id = dir ++ (codes "/" ++ (prefix ++ (decimal id ++ codes ".json")))

-- `_write_artifacts`: each path is noted once its file is written.
unfoldable pub write_artifacts : Executor → Scan → Report → M (Scan × Report)
write_artifacts x scan report = do
  let scan_path = file_path x.logs_dir (codes "scan_") scan.id
  lift (x.write_text scan_path)
  let scan' = record scan { output_path = some scan_path }
  modify (save_scan scan')
  let report_path = file_path x.artifacts_dir (codes "report_") report.id
  lift (x.write_text report_path)
  let report' = record report { output_path = some report_path }
  modify (save_report report')
  pure (scan', report')

unfoldable pub touch_group : Option RuleGroup → Option Time → World → World
touch_group none last_run w = w
touch_group (some group) last_run w = record w {
  groups = update_where (λ g. g.id == group.id) (λ g. record g { last_run = last_run }) w.groups;
}

abbrev add_extra : List Text → Result (List Text) → Result (List Text)
add_extra extra_tags (ok tags) = ok (sorted_union extra_tags tags)
add_extra extra_tags (err e) = err e

-- `_collect_rule_tags(rules)` and `sorted(set(tags) | set(extra_tags))`
unfoldable pub scan_tags : ScanInput → Result (List Text)
scan_tags input = add_extra input.extra_tags (collect_rule_tags input.rules)

-- What follows the loop: the scan and the report are finished and stored, their files written.
unfoldable pub finish : Executor → ScanInput → Scan → Tally → M ScanExecutionResult
unfolding touch_group utcnow fresh_id
finish x input scan t = do
  completed_at ← utcnow
  let done = finished_scan x input t completed_at scan
  modify (save_scan done)
  report_id ← fresh_id
  created_at ← utcnow
  let report = new_report report_id created_at x input t done
  modify (add_report report)
  (scan', report') ← write_artifacts x done report
  modify (touch_group input.group scan'.completed_at)
  pure (record { scan = scan'; results = t.results; report = report' })

-- `ScanExecutor.run_for_rules`
unfoldable pub run_for_rules : Executor → ScanInput → M ScanExecutionResult
run_for_rules x input = do
  tags ← lift (scan_tags input)
  id ← fresh_id
  started_at ← utcnow
  let scan = new_scan id started_at x input tags
  modify (add_scan scan)
  t ← run_rules x scan input.rules no_tally
  finish x input scan t
