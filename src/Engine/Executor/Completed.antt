-- ===== src/Engine/Executor/Completed.antt =====
-- What a scan that returns has stored and reported: `run_for_rules` of
-- backend/engine/scan_executor.py.
use compliance_pulse.Prelude.{
  ℕ, suc, ◌<◌, Text, ◌≡◌, refl, sym, ◌∙◌, ◌↔◌, ap, arith, List, [], ◌∷◌, ◌++◌, length, count_where,
  All, All-map, ◌==◌, some, if◌then◌else◌,
}
use mathlib.Core.Path.{subst, subst₂}
use compliance_pulse.Models.Scanning.{Time, Scan, ScanResult, Report, completed, passed}
use compliance_pulse.Session.World.{World}
use compliance_pulse.Session.Monad.{
  M, Result, ok, lift, modify, utcnow, fresh_id, >>=-eq-ok, ◌>>=◌, ◌>>◌,
}
use compliance_pulse.Engine.Executor.Steps.{
  Executor, Tally, no_tally, ScanInput, ScanExecutionResult, run_rules, score_of, new_scan,
  finished_scan, report_status, new_report, save_scan, save_report, add_scan, scan_tags, finish,
  run_for_rules,
}
use compliance_pulse.Engine.Executor.Loop.{
  IsQuiet, IsCounted, Looped, Matched, passed_count, passed_weight, total_weight, run_rules-Looped,
}
use compliance_pulse.Engine.Executor.Finishing.{
  Finished, finish-Finished, save_scan-last, save_report-last,
}

-- The primary keys in use lie below the next one.
pub record IsFresh (w : World) : Type 0 where
  pub scans : All (λ (s : Scan). s.id < w.next_id) w.scans
  pub reports : All (λ (r : Report). r.id < w.next_id) w.reports

-- The score that a list of results earns: the weight of those that passed in that of all.
abbrev pub earned : Executor → List ScanResult → ℕ
earned x results =
    if total_weight results == 0
    then 0
    else x.percent (passed_weight results) (total_weight results)

-- A scan and its report as the results call for, and both stored behind the earlier ones.
pub record IsComplete (x : Executor) (input : ScanInput) (w : World) (r : ScanExecutionResult)
    (w' : World) : Type 0 where
  pub matched : Matched x r.scan.id input.rules r.results
  pub id : r.scan.id ≡ w.next_id
  pub completed_at : (t : Time) × (r.scan.completed_at ≡ some t)
  pub status : r.scan.status ≡ completed
  pub organization : r.scan.organization_id ≡ x.organization_id
  pub total_rules : r.scan.total_rules ≡ length input.rules
  pub passed_rules : r.scan.passed_rules ≡ passed_count r.results
  pub score : r.scan.compliance_score ≡ earned x r.results
  pub report_scan : r.report.scan_id ≡ r.scan.id
  pub report_organization : r.report.organization_id ≡ x.organization_id
  pub report_score : r.report.score ≡ earned x r.results
  pub report_passed :
      (r.report.status ≡ passed)
      ↔ ((0 < length input.rules) × (passed_count r.results ≡ length input.rules))
  pub stored_results : w'.results ≡ w.results ++ r.results
  pub stored_scan : w'.scans ≡ w.scans ++ r.scan ∷ []
  pub stored_report : w'.reports ≡ w.reports ++ r.report ∷ []
  pub jobs : w'.jobs ≡ w.jobs
  pub schedules : w'.schedules ≡ w.schedules

report_status_iff :
    (total passed_rules : ℕ)
    → (report_status total passed_rules ≡ passed) ↔ ((0 < total) × (passed_rules ≡ total))
unfolding report_status
report_status_iff total passed_rules = ground arith

-- The parts of a scan that returned.
pub record Ran (x : Executor) (input : ScanInput) (w : World) (r : ScanExecutionResult) (w' : World)
    : Type 0 where
  pub tags : List Text
  pub tally : Tally
  pub middle : World
  pub looped :
      Looped x w.next_id input.rules no_tally tally
        (add_scan
          (new_scan w.next_id (w.clock w.reads) x input tags)
          (record w { reads = suc w.reads; next_id = suc w.next_id }))
        middle
  pub finished :
      Finished x input (new_scan w.next_id (w.clock w.reads) x input tags) tally r middle w'

-- What follows the tags.
abbrev after_tags : Executor → ScanInput → List Text → M ScanExecutionResult
after_tags x input tags = do
  id ← fresh_id
  started_at ← utcnow
  let scan = new_scan id started_at x input tags
  modify (add_scan scan)
  t ← run_rules x scan input.rules no_tally
  finish x input scan t

after_tags-Ran :
    (x : Executor) (input : ScanInput) (tags : List Text) (w w' : World) (r : ScanExecutionResult)
    → IsQuiet x
    → after_tags x input tags w ≡ (ok r, w')
    → Ran x input w r w'
unfolding fresh_id utcnow
after_tags-Ran x input tags w w' r quiet h =
    let scan = new_scan w.next_id (w.clock w.reads) x input tags in
    let started = add_scan scan (record w { reads = suc w.reads; next_id = suc w.next_id }) in
    let (t, middle, ran, h') =
      >>=-eq-ok (run_rules x scan input.rules no_tally) (finish x input scan) started h in
    record {
      tags = tags;
      tally = t;
      middle = middle;
      looped =
          unfold new_scan in
          run_rules-Looped x scan input.rules no_tally t started middle quiet ran;
      finished = finish-Finished x input scan t r middle w' h';
    }

run_for_rules-Ran :
    (x : Executor) (input : ScanInput) (w w' : World) (r : ScanExecutionResult)
    → IsQuiet x
    → run_for_rules x input w ≡ (ok r, w')
    → Ran x input w r w'
unfolding run_for_rules
run_for_rules-Ran x input w w' r quiet h =
    let (tags, v, tagged, h') = >>=-eq-ok (lift (scan_tags input)) (after_tags x input) w h in
    after_tags-Ran x input tags w w' r quiet (
      subst (λ u. after_tags x input tags u ≡ (ok r, w'))
        (ap (λ (p : Result (List Text) × World). p.1) (sym tagged)) h')

IsCounted-start : IsCounted no_tally
unfolding passed_weight total_weight count_where
IsCounted-start = record { passes = refl; weight_pass = refl; weight_total = refl }

score_of-earned : (x : Executor) (t : Tally) → IsCounted t → score_of x t ≡ earned x t.results
unfolding score_of
score_of-earned x t c = ground (arith, c.weight_pass, c.weight_total)

module _ (x : Executor) (input : ScanInput) (w w' : World) (r : ScanExecutionResult)
    (fresh : IsFresh w) (p : Ran x input w r w') where
  open p use {finished, looped, tally, middle}

  scan_id : r.scan.id ≡ w.next_id
  unfolding finished_scan new_scan
  scan_id =
      ap (λ (s : Scan). s.id) finished.written.scan_eq ∙ ap (λ (s : Scan). s.id) finished.done_eq

  results : r.results ≡ looped.new
  results = finished.results ∙ looped.appended

  matched : Matched x r.scan.id input.rules r.results
  matched = subst₂ (λ i rs. Matched x i input.rules rs) (sym scan_id) (sym results) looped.matched

  stored_results : w'.results ≡ w.results ++ r.results
  unfolding save_report save_scan add_scan
  stored_results =
      finished.stored
      ∙ ap (λ (v : World). v.results) finished.written.world
      ∙ finished.middle_results
      ∙ looped.stored
      ∙ ap (λ (rs : List ScanResult). w.results ++ rs) (sym results)

  stored_jobs : w'.jobs ≡ w.jobs
  unfolding save_report save_scan add_scan
  stored_jobs =
      finished.jobs
      ∙ ap (λ (v : World). v.jobs) finished.written.world
      ∙ finished.middle_jobs
      ∙ looped.jobs

  stored_schedules : w'.schedules ≡ w.schedules
  unfolding save_report save_scan add_scan
  stored_schedules =
      finished.schedules
      ∙ ap (λ (v : World). v.schedules) finished.written.world
      ∙ finished.middle_schedules
      ∙ looped.schedules

  done_id : finished.done.id ≡ w.next_id
  unfolding finished_scan new_scan
  done_id = ap (λ (s : Scan). s.id) finished.done_eq

  stored_scan : w'.scans ≡ w.scans ++ r.scan ∷ []
  unfolding save_report add_scan
  stored_scan =
      let below : All (λ (s : Scan). s.id < r.scan.id) w.scans =
        subst (λ n. All (λ (s : Scan). s.id < n) w.scans) (sym scan_id) fresh.scans in
      let earlier : All (λ (s : Scan). s.id < finished.done.id) w.scans =
        subst (λ n. All (λ (s : Scan). s.id < n) w.scans) (sym done_id) fresh.scans in
      let first =
        save_scan-last _ finished.done middle w.scans looped.scans (unfold new_scan in sym done_id)
          earlier in
      finished.scans
      ∙ ap (λ (v : World). v.scans) finished.written.world
      ∙ save_scan-last finished.done r.scan finished.middle w.scans (finished.middle_scans ∙ first)
          (done_id ∙ sym scan_id) below

  report_id : r.report.id ≡ middle.next_id
  unfolding new_report
  report_id =
      ap (λ (q : Report). q.id) finished.written.report_eq
      ∙ ap (λ (q : Report). q.id) finished.report_eq

  reports_below : All (λ (q : Report). q.id < r.report.id) w.reports
  unfolding add_scan
  reports_below = All-map (λ q h. omega (arith, looped.grown, report_id)) w.reports fresh.reports

  stored_report : w'.reports ≡ w.reports ++ r.report ∷ []
  unfolding save_scan add_scan new_report
  stored_report =
      finished.reports
      ∙ ap (λ (v : World). v.reports) finished.written.world
      ∙ save_report-last finished.report r.report _ w.reports
          (finished.middle_reports
            ∙ ap (λ (qs : List Report). qs ++ finished.report ∷ []) looped.reports)
          (ap (λ (q : Report). q.id) (sym finished.written.report_eq)) reports_below

  passed_rules : tally.passed_rules ≡ passed_count r.results
  passed_rules = (looped.counted IsCounted-start).passes ∙ ap passed_count (sym finished.results)

  score : score_of x tally ≡ earned x r.results
  score =
      score_of-earned x tally (looped.counted IsCounted-start)
      ∙ ap (earned x) (sym finished.results)

  report_passed :
      (r.report.status ≡ passed)
      ↔ ((0 < length input.rules) × (passed_count r.results ≡ length input.rules))
  unfolding new_report
  report_passed =
      let status =
        ap (λ (q : Report). q.status) finished.written.report_eq
        ∙ ap (λ (q : Report). q.status) finished.report_eq
        ∙ ap (report_status (length input.rules)) passed_rules in
      rw status (report_status_iff (length input.rules) (passed_count r.results))

-- A scan that returns is complete: one stored result for each rule with the engine's verdict and
-- output, a scan and a report whose counts, score and status are those of the results, both stored
-- behind the earlier ones, and the jobs and schedules as they were. It needs a rule engine that works on the clock alone, and a
-- supply of unused primary keys.
pub run_for_rules-IsComplete :
    (x : Executor) (input : ScanInput) (w w' : World) (r : ScanExecutionResult)
    → IsQuiet x
    → IsFresh w
    → run_for_rules x input w ≡ (ok r, w')
    → IsComplete x input w r w'
unfolding finished_scan new_report new_scan
run_for_rules-IsComplete x input w w' r quiet fresh h =
    let p = run_for_rules-Ran x input w w' r quiet h in
    let f = p.finished in
    let s = f.written.scan_eq in
    let q = f.written.report_eq in
    record {
      matched = matched x input w w' r fresh p;
      id = scan_id x input w w' r fresh p;
      completed_at =
          (_, ap (λ (a : Scan). a.completed_at) s ∙ ap (λ (a : Scan). a.completed_at) f.done_eq);
      status = ap (λ (a : Scan). a.status) s ∙ ap (λ (a : Scan). a.status) f.done_eq;
      organization =
          ap (λ (a : Scan). a.organization_id) s ∙ ap (λ (a : Scan). a.organization_id) f.done_eq;
      total_rules = ap (λ (a : Scan). a.total_rules) s ∙ ap (λ (a : Scan). a.total_rules) f.done_eq;
      passed_rules =
          ap (λ (a : Scan). a.passed_rules) s
          ∙ ap (λ (a : Scan). a.passed_rules) f.done_eq
          ∙ passed_rules x input w w' r fresh p;
      score =
          ap (λ (a : Scan). a.compliance_score) s
          ∙ ap (λ (a : Scan). a.compliance_score) f.done_eq
          ∙ score x input w w' r fresh p;
      report_scan =
          ap (λ (a : Report). a.scan_id) q
          ∙ ap (λ (a : Report). a.scan_id) f.report_eq
          ∙ ap (λ (a : Scan). a.id) (sym s);
      report_organization =
          ap (λ (a : Report). a.organization_id) q
          ∙ ap (λ (a : Report). a.organization_id) f.report_eq;
      report_score =
          ap (λ (a : Report). a.score) q
          ∙ ap (λ (a : Report). a.score) f.report_eq
          ∙ score x input w w' r fresh p;
      report_passed = report_passed x input w w' r fresh p;
      stored_results = stored_results x input w w' r fresh p;
      stored_scan = stored_scan x input w w' r fresh p;
      stored_report = stored_report x input w w' r fresh p;
      jobs = stored_jobs x input w w' r fresh p;
      schedules = stored_schedules x input w w' r fresh p;
    }
