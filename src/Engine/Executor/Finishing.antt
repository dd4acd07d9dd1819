-- ===== src/Engine/Executor/Finishing.antt =====
-- The end of a scan that returns: `finish` of backend/engine/scan_executor.py, step by step.
use compliance_pulse.Prelude.{
  ℕ, suc, ◌<◌, ◌≡◌, refl, sym, ◌∙◌, ap, arith, false, codes, Option, none, some, List, [], ◌∷◌,
  ◌++◌, All, All-map, update_where, update_where-last, ◌==◌,
}
use compliance_pulse.Models.Scanning.{Scan, Report, RuleGroup, Time}
use compliance_pulse.Session.World.{World}
use compliance_pulse.Session.Monad.{
  M, Result, ok, modify, pure, >>=-eq-ok, returned-injective, ◌>>◌,
}
use compliance_pulse.Engine.Executor.Steps.{
  Executor, Tally, ScanInput, ScanExecutionResult, finished_scan, new_report, save_scan,
  save_report, add_report, write_artifacts, file_path, touch_group, finish,
}

-- The stored artifacts' step, as it returns.
pub record Written (x : Executor) (scan : Scan) (report : Report) (scan' : Scan) (report' : Report)
    (w w' : World) : Type 0 where
  pub scan_eq :
      scan' ≡ record scan { output_path = some (file_path x.logs_dir (codes "scan_") scan.id) }
  pub report_eq :
      report'
      ≡ record report { output_path = some (file_path x.artifacts_dir (codes "report_") report.id) }
  pub world : w' ≡ save_report report' (save_scan scan' w)

write_artifacts-Written :
    (x : Executor) (scan scan' : Scan) (report report' : Report) (w w' : World)
    → write_artifacts x scan report w ≡ (ok (scan', report'), w')
    → Written x scan report scan' report' w w'
unfolding write_artifacts
write_artifacts-Written x scan scan' report report' w w' h = record {
  scan_eq = ground arith;
  report_eq = ground arith;
  world = ground arith;
}

-- A new row's key is none of the keys below it.
unused_key :
    {A : Type 0} (key : A → ℕ) (n : ℕ) (xs : List A)
    → All (λ a. key a < n) xs
    → All (λ a. (key a == n) ≡ false) xs
unused_key key n xs = All-map (λ a h. ground (arith, h)) xs

pub save_scan-last :
    (s s' : Scan) (w : World) (xs : List Scan)
    → w.scans ≡ xs ++ s ∷ []
    → s.id ≡ s'.id
    → All (λ (r : Scan). r.id < s'.id) xs
    → (save_scan s' w).scans ≡ xs ++ s' ∷ []
unfolding save_scan
save_scan-last s s' w xs e same below =
    ap (update_where (λ (r : Scan). r.id == s'.id) (λ _. s')) e
    ∙ update_where-last (λ (r : Scan). r.id == s'.id) (λ _. s') xs s
        (unused_key (λ (r : Scan). r.id) s'.id xs below) (ground (arith, same))

pub save_report-last :
    (s s' : Report) (w : World) (xs : List Report)
    → w.reports ≡ xs ++ s ∷ []
    → s.id ≡ s'.id
    → All (λ (r : Report). r.id < s'.id) xs
    → (save_report s' w).reports ≡ xs ++ s' ∷ []
unfolding save_report
save_report-last s s' w xs e same below =
    ap (update_where (λ (r : Report). r.id == s'.id) (λ _. s')) e
    ∙ update_where-last (λ (r : Report). r.id == s'.id) (λ _. s') xs s
        (unused_key (λ (r : Report). r.id) s'.id xs below) (ground (arith, same))

-- `finish`, where its parts are named.
pub record Finished (x : Executor) (input : ScanInput) (scan : Scan) (t : Tally)
    (r : ScanExecutionResult) (w w' : World) : Type 0 where
  pub done : Scan
  pub report : Report
  pub done_eq : done ≡ finished_scan x input t (w.clock w.reads) scan
  pub report_eq : report ≡ new_report w.next_id (w.clock (suc w.reads)) x input t done
  pub results : r.results ≡ t.results
  pub middle : World
  pub middle_scans : middle.scans ≡ (save_scan done w).scans
  pub middle_reports : middle.reports ≡ w.reports ++ report ∷ []
  pub middle_results : middle.results ≡ w.results
  pub middle_jobs : middle.jobs ≡ w.jobs
  pub middle_schedules : middle.schedules ≡ w.schedules
  pub last : World
  pub written : Written x done report r.scan r.report middle last
  pub scans : w'.scans ≡ last.scans
  pub reports : w'.reports ≡ last.reports
  pub stored : w'.results ≡ last.results
  pub jobs : w'.jobs ≡ last.jobs
  pub schedules : w'.schedules ≡ last.schedules

abbrev filed : Scan → Report → Result (Scan × Report)
filed scan report = ok (scan, report)

touch_group-keeps :
    (group : Option RuleGroup) (last_run : Option Time) (w : World)
    → ((touch_group group last_run w).scans ≡ w.scans)
      × ((touch_group group last_run w).reports ≡ w.reports)
      × ((touch_group group last_run w).results ≡ w.results)
      × ((touch_group group last_run w).jobs ≡ w.jobs)
      × ((touch_group group last_run w).schedules ≡ w.schedules)
unfolding touch_group
touch_group-keeps none last_run w = (refl, refl, refl, refl, refl)
touch_group-keeps (some group) last_run w = (refl, refl, refl, refl, refl)

abbrev finish_tail : Executor → ScanInput → Tally → Scan × Report → M ScanExecutionResult
finish_tail x input t (scan', report') = do
  modify (touch_group input.group scan'.completed_at)
  pure (record { scan = scan'; results = t.results; report = report' })

pub finish-Finished :
    (x : Executor) (input : ScanInput) (scan : Scan) (t : Tally) (r : ScanExecutionResult)
    (w w' : World)
    → finish x input scan t w ≡ (ok r, w')
    → Finished x input scan t r w w'
unfolding finish save_scan add_report
finish-Finished x input scan t r w w' h =
    let done = finished_scan x input t (w.clock w.reads) scan in
    let report = new_report w.next_id (w.clock (suc w.reads)) x input t done in
    let middle =
      add_report report
        (save_scan done (record w { reads = suc (suc w.reads); next_id = suc w.next_id })) in
    let (written, last, wrote, ended) =
      >>=-eq-ok (write_artifacts x done report) (finish_tail x input t) middle h in
    let (same, still) = returned-injective ended in
    let kept = touch_group-keeps input.group written.0.completed_at last in
    record {
      done = done;
      report = report;
      done_eq = refl;
      report_eq = refl;
      results = ap (λ (q : ScanExecutionResult). q.results) (sym same);
      middle = middle;
      middle_scans = refl;
      middle_reports = refl;
      middle_results = refl;
      middle_jobs = refl;
      middle_schedules = refl;
      last = last;
      written =
          write_artifacts-Written x done r.scan report r.report middle last
            (wrote ∙ ap (λ (q : ScanExecutionResult). (filed q.scan q.report, last)) same);
      scans = ap (λ (v : World). v.scans) (sym still) ∙ kept.0;
      reports = ap (λ (v : World). v.reports) (sym still) ∙ kept.1;
      stored = ap (λ (v : World). v.results) (sym still) ∙ kept.2;
      jobs = ap (λ (v : World). v.jobs) (sym still) ∙ kept.3;
      schedules = ap (λ (v : World). v.schedules) (sym still) ∙ kept.4;
    }
