-- ===== src/Services/Scans/Views.antt =====
-- What the scan endpoints show: backend/app/schemas/scan.py and the `_build_…` methods of
-- backend/app/services/scan_service.py. JSON that cannot be read raises.
use compliance_pulse.Prelude.{
  ℕ, ℤ, Text, Bool, Option, none, some, List, [], ◌∷◌, codes, ◌==◌, if◌then◌else◌,
}
use compliance_pulse.Models.Scanning.{
  Time, Column, blank, malformed, encoded, Status, ResultStatus, ReportStatus, Metadata, Summary,
  Scan, ScanResult, Report, ScanJob,
}
use compliance_pulse.Session.Monad.{Result, ok, err, other_error}

pub record ScanResultView : Type 0 where
  pub id : ℕ
  pub rule_id : Text
  pub rule_title : Text
  pub severity : Text
  pub status : ResultStatus
  pub passed : Bool
  pub stdout : Option Text
  pub stderr : Option Text
  pub details : Metadata
  pub executed_at : Time
  pub completed_at : Option Time
  pub runtime_ms : Option ℤ

pub record ScanSummary : Type 0 where
  pub id : ℕ
  pub hostname : Text
  pub benchmark_id : Text
  pub group_id : Option ℕ
  pub status : Status
  pub result : Text
  pub severity : Text
  pub started_at : Time
  pub completed_at : Option Time
  pub last_run : Option Time
  pub total_rules : ℕ
  pub passed_rules : ℕ
  pub compliance_score : ℕ
  pub summary : Option Text
  pub triggered_by : Text
  pub tags : List Text
  pub output_path : Option Text

-- `ai_summary` is `none` for the empty dictionary.
pub record ScanDetail : Type 0 where
  pub shown : ScanSummary
  pub ip : Option Text
  pub results : List ScanResultView
  pub ai_summary : Option Summary

pub record ScanJobView : Type 0 where
  pub id : ℕ
  pub group_id : ℕ
  pub hostname : Text
  pub schedule_id : Option ℕ
  pub triggered_by : Text
  pub status : Status
  pub created_at : Time
  pub started_at : Option Time
  pub completed_at : Option Time

pub record ReportView : Type 0 where
  pub id : ℕ
  pub scan_id : ℕ
  pub benchmark_id : Text
  pub hostname : Text
  pub score : ℕ
  pub summary : Text
  pub key_findings : List Text
  pub remediations : List Text
  pub status : ReportStatus
  pub severity : Text
  pub tags : List Text
  pub output_path : Option Text
  pub last_run : Option Time
  pub created_at : Time

-- `json.loads(column or default)`
abbrev pub read_json : {A : Type 0} → A → Column A → Result A
read_json default blank = ok default
read_json default malformed = err (other_error (codes "JSONDecodeError"))
read_json default (encoded a) = ok a

abbrev pub then_build : {A B : Type 0} → (A → Result B) → Result A → Result B
then_build next (err raised) = err raised
then_build next (ok value) = next value

-- `"running"` until the scan is completed, then `"passed"` where all rules passed
abbrev pub scan_result : Option Time → ℕ → ℕ → Text
scan_result none passed_rules total_rules = codes "running"
scan_result (some completed_at) passed_rules total_rules =
    if passed_rules == total_rules then codes "passed" else codes "failed"

abbrev pub summary_of : Scan → List Text → ScanSummary
summary_of scan tags = record {
  id = scan.id;
  hostname = scan.hostname;
  benchmark_id = scan.benchmark_id;
  group_id = scan.group_id;
  status = scan.status;
  result = scan_result scan.completed_at scan.passed_rules scan.total_rules;
  severity = scan.severity;
  started_at = scan.started_at;
  completed_at = scan.completed_at;
  last_run = scan.last_run;
  total_rules = scan.total_rules;
  passed_rules = scan.passed_rules;
  compliance_score = scan.compliance_score;
  summary = scan.summary;
  triggered_by = scan.triggered_by;
  tags = tags;
  output_path = scan.output_path;
}

-- `_build_scan_summary`
unfoldable pub build_scan_summary : Scan → Result ScanSummary
build_scan_summary scan =
    then_build (λ tags. ok (summary_of scan tags)) (read_json [] scan.tags_json)

abbrev pub view_of : ScanResult → Metadata → ScanResultView
view_of result details = record {
  id = result.id;
  rule_id = result.rule_id;
  rule_title = result.rule_title;
  severity = result.severity;
  status = result.status;
  passed = result.passed;
  stdout = result.stdout;
  stderr = result.stderr;
  details = details;
  executed_at = result.executed_at;
  completed_at = result.completed_at;
  runtime_ms = result.runtime_ms;
}

-- `_build_result_view`
unfoldable pub build_result_view : ScanResult → Result ScanResultView
build_result_view result =
    then_build (λ details. ok (view_of result details)) (read_json [] result.details_json)

-- `[build(row) for row in rows]`
unfoldable pub build_all : {A B : Type 0} → (A → Result B) → List A → Result (List B)
build_all build [] = ok []
build_all build (row ∷ rows) =
    then_build (λ view. then_build (λ views. ok (view ∷ views)) (build_all build rows)) (build row)

abbrev pub read_summary : Column Summary → Result (Option Summary)
read_summary blank = ok none
read_summary malformed = err (other_error (codes "JSONDecodeError"))
read_summary (encoded s) = ok (some s)

abbrev pub with_summary :
    Scan → ScanSummary → List ScanResultView → Option Summary → Result ScanDetail
with_summary scan shown views ai_summary =
    ok (record { shown = shown; ip = scan.ip; results = views; ai_summary = ai_summary })

abbrev pub with_results : Scan → ScanSummary → List ScanResultView → Result ScanDetail
with_results scan shown views =
    then_build (with_summary scan shown views) (read_summary scan.ai_summary_json)

abbrev pub with_shown : Scan → List ScanResult → ScanSummary → Result ScanDetail
with_shown scan results shown =
    then_build (with_results scan shown) (build_all build_result_view results)

-- `_build_scan_detail`
unfoldable pub build_scan_detail : Scan → List ScanResult → Result ScanDetail
build_scan_detail scan results = then_build (with_shown scan results) (build_scan_summary scan)

abbrev report_view_of : Report → List Text → List Text → List Text → ReportView
report_view_of report tags key_findings remediations = record {
  id = report.id;
  scan_id = report.scan_id;
  benchmark_id = report.benchmark_id;
  hostname = report.hostname;
  score = report.score;
  summary = report.summary;
  key_findings = key_findings;
  remediations = remediations;
  status = report.status;
  severity = report.severity;
  tags = tags;
  output_path = report.output_path;
  last_run = report.last_run;
  created_at = report.created_at;
}

-- `_build_report_view`
unfoldable pub build_report_view : Report → Result ReportView
build_report_view report =
    then_build
      (λ tags.
        then_build
          (λ findings.
            then_build (λ remediations. ok (report_view_of report tags findings remediations))
              (read_json [] report.remediations_json))
          (read_json [] report.key_findings_json))
      (read_json [] report.tags_json)

-- `_build_job_view`
unfoldable pub build_job_view : ScanJob → ScanJobView
build_job_view job = record {
  id = job.id;
  group_id = job.group_id;
  hostname = job.hostname;
  schedule_id = job.schedule_id;
  triggered_by = job.triggered_by;
  status = job.status;
  created_at = job.created_at;
  started_at = job.started_at;
  completed_at = job.completed_at;
}
