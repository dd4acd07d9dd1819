-- ===== src/Tests/Scans.antt =====
-- The theorems on the scan service, the benchmark loader and the rule endpoints, at small inputs.
use compliance_pulse.Engine.Scoring.{collect_rule_tags}
use compliance_pulse.Engine.Executor.Steps.{
  add_scan, count_result, finish, finished_scan, new_scan, persist_result, result_of, run_for_rules,
  run_rules, scan_tags, touch_group, write_artifacts, add_report, save_report, save_scan,
}
use compliance_pulse.Prelude.{
  List, ◌≡◌, ◌↔◌, refl, some, none, [], ◌∷◌, codes, length, count_where, first_where, text_eq,
  where_rows,
}
use compliance_pulse.Models.Scanning.{text, encoded, Metadata, Benchmark}
use compliance_pulse.Session.World.{World, sees, select_rows}
use compliance_pulse.Session.Monad.{ok, err, other_error, fresh_id, utcnow}
use compliance_pulse.Services.Scans.{ScanRequest, start_scan, get_scan}
use compliance_pulse.Services.Scans.Views.{
  ScanDetail, ScanResultView, build_all, build_result_view, build_scan_detail, build_scan_summary,
}
use compliance_pulse.Services.Scans.Reread.{get_scan-start_scan}
use compliance_pulse.Services.Scans.Answered.{start_scan-result}
use compliance_pulse.Services.Benchmarks.{Columns, BenchmarkDocument, load_all}
use compliance_pulse.Services.Benchmarks.Tenants.{others, load_all-others}
use compliance_pulse.Services.Rules.Requests.{
  Request, create, update, serve_all, serve_all-AreSound,
}
use compliance_pulse.Services.Rules.Validity.{AreSound}
use compliance_pulse.Tests.{world, executor, executor-IsQuiet}

abbrev benchmark : Benchmark
benchmark = record {
  id = codes "b";
  title = codes "t";
  description = [];
  version = codes "1";
  os_target = codes "any";
  maintainer = none;
  source = none;
  tags_json = encoded [];
  schema_version = codes "1";
  created_at = 0;
  updated_at = 0;
}

abbrev scan_world : World
scan_world = record world { benchmarks = benchmark ∷ [] }

abbrev request : ScanRequest
request = record { hostname = codes "h"; ip = none; benchmark_id = codes "b"; tags = [] }

abbrev started : World
started = (start_scan executor 1 none request scan_world).1

get_scan-start_scan_example :
    (detail : ScanDetail) × ((get_scan detail.shown.id started).0 ≡ ok detail)
unfolding start_scan first_where text_eq select_rows where_rows run_for_rules scan_tags
    collect_rule_tags fresh_id utcnow run_rules persist_result finish write_artifacts
    build_scan_detail build_scan_summary finished_scan new_scan result_of build_all
    build_result_view sees count_result add_scan touch_group save_report save_scan add_report
get_scan-start_scan_example = (
  _,
  get_scan-start_scan executor 1 none request scan_world started _ executor-IsQuiet
      (record { scans = tt; reports = tt }) tt refl refl,
)

start_scan-result_example :
    (detail : ScanDetail) × (start_scan executor 1 none request scan_world ≡ (ok detail, started))
    × ((detail.shown.total_rules ≡ length detail.results)
        × (detail.shown.passed_rules
            ≡ count_where (λ (v : ScanResultView). v.passed) detail.results)
        × ((detail.shown.result ≡ codes "passed") ↔ (
            count_where (λ (v : ScanResultView). v.passed) detail.results ≡ length detail.results)))
unfolding start_scan first_where text_eq select_rows where_rows run_for_rules scan_tags
    collect_rule_tags fresh_id utcnow run_rules persist_result finish write_artifacts
    build_scan_detail build_scan_summary finished_scan new_scan result_of build_all
    build_result_view sees count_result add_scan touch_group
start_scan-result_example = (
  _,
  refl,
  start_scan-result executor 1 none request scan_world started _ executor-IsQuiet
      (record { scans = tt; reports = tt }) refl,
)

abbrev document : BenchmarkDocument
document = record {
  schema_version = codes "1";
  benchmark = record {
    id = codes "b";
    title = codes "t";
    description = [];
    version = codes "1";
    os_target = codes "any";
    metadata = record { maintainer = none; source = none; tags = [] };
  };
  rules = [];
}

abbrev pub columns : Columns
columns = record { tags = λ v. encoded []; status = λ v. codes "active" }

load_all-others_example :
    others 2 (load_all columns (ok document ∷ err (other_error (codes "e")) ∷ []) 2 world).1
    ≡ others 2 world
load_all-others_example =
    load_all-others columns (ok document ∷ err (other_error (codes "e")) ∷ []) 2 world

abbrev no_rules : World
no_rules = record scan_world { rules = [] }

abbrev form : Metadata
form =
    (codes "rule_id", text (codes "r2"))
    ∷ (codes "benchmark_id", text (codes "b"))
    ∷ (codes "title", text (codes "t"))
    ∷ (codes "command", text (codes "cat f"))
    ∷ []

abbrev requests : List Request
requests =
    create form (some 1)
    ∷ update (codes "r2") ((codes "severity", text (codes "HIGH")) ∷ [])
    ∷ create [] none
    ∷ []

serve_all-AreSound_example : AreSound (serve_all requests no_rules)
serve_all-AreSound_example = serve_all-AreSound requests no_rules tt
