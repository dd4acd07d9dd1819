-- ===== src/Services/Scans/Started.antt =====
-- What `start_scan` of backend/app/services/scan_service.py answers, and `get_scan` after it.
use compliance_pulse.Prelude.{
  ℕ, ◌≡◌, refl, ap, ◌∙◌, subst, Text, Bool, true, false, Option, none, some, List, [], ◌∷◌,
}
use compliance_pulse.Models.Scanning.{Benchmark, Rule}
use compliance_pulse.Session.World.{World}
use compliance_pulse.Session.Monad.{
  Result, ok, value_error, lift, or_raise, utcnow, ◌>>=◌, >>=-eq-ok, returned-injective,
}
use compliance_pulse.Engine.Executor.Steps.{Executor, ScanExecutionResult, run_for_rules}
use compliance_pulse.Services.Scans.Views.{ScanDetail, build_scan_detail}
use compliance_pulse.Services.Scans.{
  ScanRequest, auto_create_enabled, use_or_create, provide_rules, find_rule, baseline_id, api_input,
  shown, run_provided, benchmark_rules, scan_benchmark, find_benchmark, start_scan,
}

-- A session that differs in the rules and the clock alone
pub record OnlyRules (w v : World) : Type 0 where
  pub next_id : v.next_id ≡ w.next_id
  pub scans : v.scans ≡ w.scans
  pub reports : v.reports ≡ w.reports
  pub results : v.results ≡ w.results

abbrev unchanged : (w : World) → OnlyRules w w
unchanged w = record { next_id = refl; scans = refl; reports = refl; results = refl }

created-OnlyRules :
    (organization_id : ℕ) (benchmark_id : Text) (found : Option Rule) (w v : World)
    (rules : List Rule)
    → use_or_create organization_id benchmark_id found w ≡ (ok rules, v)
    → OnlyRules w v
unfolding utcnow
created-OnlyRules organization_id benchmark_id (some exists) w v rules h =
    subst (OnlyRules w) (returned-injective h).1 (unchanged w)
created-OnlyRules organization_id benchmark_id none w v rules h =
    subst (OnlyRules w) (returned-injective h).1
      (record { next_id = refl; scans = refl; reports = refl; results = refl })

provide_rules-OnlyRules :
    (organization_id : ℕ) (auto_create : Bool) (benchmark_id : Text) (found rules : List Rule)
    (w v : World)
    → provide_rules organization_id auto_create benchmark_id found w ≡ (ok rules, v)
    → OnlyRules w v
provide_rules-OnlyRules organization_id auto_create benchmark_id (rule ∷ found) rules w v h =
    subst (OnlyRules w) (returned-injective h).1 (unchanged w)
provide_rules-OnlyRules organization_id false benchmark_id [] rules w v h =
    subst (OnlyRules w) (returned-injective h).1 (unchanged w)
provide_rules-OnlyRules organization_id true benchmark_id [] rules w v h =
    created-OnlyRules organization_id benchmark_id (find_rule (baseline_id benchmark_id) w) w v
      rules h

-- The scan behind an answer
pub record IsRun (x : Executor) (request : ScanRequest) (w : World) (detail : ScanDetail)
    (w' : World) : Type 0 where
  pub benchmark : Benchmark
  pub rules : List Rule
  pub start : World
  pub only_rules : OnlyRules w start
  pub result : ScanExecutionResult
  pub ran : run_for_rules x (api_input request benchmark rules) start ≡ (ok result, w')
  pub built : build_scan_detail result.scan result.results ≡ ok detail

run_provided-IsRun :
    (x : Executor) (request : ScanRequest) (benchmark : Benchmark) (rules : List Rule)
    (w v w' : World) (detail : ScanDetail)
    → OnlyRules w v
    → run_provided x request benchmark rules v ≡ (ok detail, w')
    → IsRun x request w detail w'
run_provided-IsRun x request benchmark rules w v w' detail only h =
    let (result, u, ran, h') =
      >>=-eq-ok (run_for_rules x (api_input request benchmark rules)) shown v h in
    let world = ap (λ (p : Result ScanDetail × World). p.1) h' in
    record {
      benchmark = benchmark;
      rules = rules;
      start = v;
      only_rules = only;
      result = result;
      ran = ran ∙ ap (λ (v' : World). (ok result, v')) world;
      built = ap (λ (p : Result ScanDetail × World). p.0) h';
    }

scan_benchmark-IsRun :
    (x : Executor) (organization_id : ℕ) (variable : Option Text) (request : ScanRequest)
    (benchmark : Benchmark) (w w' : World) (detail : ScanDetail)
    → scan_benchmark x organization_id variable request benchmark w ≡ (ok detail, w')
    → IsRun x request w detail w'
scan_benchmark-IsRun x organization_id variable request benchmark w w' detail h =
    let found = benchmark_rules request.benchmark_id w in
    let (rules, v, provided, h') =
      >>=-eq-ok (provide_rules organization_id (auto_create_enabled variable) benchmark.id found)
        (run_provided x request benchmark) w h in
    run_provided-IsRun x request benchmark rules w v w' detail
      (provide_rules-OnlyRules organization_id (auto_create_enabled variable) benchmark.id found
        rules w v provided)
      h'

start_found-IsRun :
    (x : Executor) (organization_id : ℕ) (variable : Option Text) (request : ScanRequest)
    (found : Option Benchmark) (w w' : World) (detail : ScanDetail) (message : Text)
    → (lift (or_raise (value_error message) found)
          >>= scan_benchmark x organization_id variable request)
        w
      ≡ (ok detail, w')
    → IsRun x request w detail w'
start_found-IsRun x organization_id variable request none w w' detail message h =
    absurd (cc (ap (λ (r : Result ScanDetail × World). r.0) h))
start_found-IsRun x organization_id variable request (some benchmark) w w' detail message h =
    scan_benchmark-IsRun x organization_id variable request benchmark w w' detail h

pub start_scan-IsRun :
    (x : Executor) (organization_id : ℕ) (variable : Option Text) (request : ScanRequest)
    (w w' : World) (detail : ScanDetail)
    → start_scan x organization_id variable request w ≡ (ok detail, w')
    → IsRun x request w detail w'
unfolding start_scan
start_scan-IsRun x organization_id variable request w w' detail h =
    start_found-IsRun x organization_id variable request (find_benchmark request.benchmark_id w) w
      w' detail _ h
