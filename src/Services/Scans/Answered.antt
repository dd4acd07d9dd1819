-- ===== src/Services/Scans/Answered.antt =====
-- The word for how a scan went in the answer of `start_scan`
-- (backend/app/services/scan_service.py).
use compliance_pulse.Prelude.{
  ℕ, suc, ◌≡◌, refl, sym, ap, ◌∙◌, arith, ◌↔◌, Bool, Option, some, List, [], ◌∷◌, length, map,
  count_where, codes, Text,
}
use compliance_pulse.Models.Scanning.{Time, Rule, ScanResult}
use compliance_pulse.Session.World.{World}
use compliance_pulse.Session.Monad.{ok}
use compliance_pulse.Engine.Executor.Steps.{Executor}
use compliance_pulse.Engine.Executor.Loop.{IsQuiet, Matched, passed_count}
use compliance_pulse.Engine.Executor.Completed.{IsFresh}
use compliance_pulse.Services.Scans.Views.{ScanResultView, ScanDetail, scan_result}
use compliance_pulse.Services.Scans.Shown.{build_scan_detail-IsShown}
use compliance_pulse.Services.Scans.Started.{start_scan-IsRun}
use compliance_pulse.Services.Scans.Reread.{complete}
use compliance_pulse.Services.Scans.{ScanRequest, start_scan}

abbrev trues : List Bool → ℕ
trues = count_where (λ b. b)

count_where-map :
    {A : Type 0} (p : A → Bool) (rows : List A) → trues (map p rows) ≡ count_where p rows
unfolding count_where
count_where-map p [] = refl
count_where-map p (a ∷ rows) = ground (arith, count_where-map p rows)

length-map : {A B : Type 0} (f : A → B) (rows : List A) → length (map f rows) ≡ length rows
length-map f [] = refl
length-map f (a ∷ rows) = ap suc (length-map f rows)

length-Matched :
    (x : Executor) (scan_id : ℕ) (rules : List Rule) (rows : List ScanResult)
    → Matched x scan_id rules rows
    → length rules ≡ length rows
length-Matched x scan_id [] [] m = refl
length-Matched x scan_id [] (r ∷ rows) m = absurd m
length-Matched x scan_id (rule ∷ rules) [] m = absurd m
length-Matched x scan_id (rule ∷ rules) (r ∷ rows) m =
    ap suc (length-Matched x scan_id rules rows m.1)

scan_result_iff :
    (completed_at : Option Time) (t : Time) (passed total : ℕ)
    → completed_at ≡ some t
    → (scan_result completed_at passed total ≡ codes "passed") ↔ (passed ≡ total)
scan_result_iff completed_at t passed total e = rw e (ground arith)

-- The answer to a scan counts its results and says "passed" exactly when each of them passed. It
-- needs a rule engine that works on the clock alone, and a supply of unused primary keys.
pub start_scan-result :
    (x : Executor) (organization_id : ℕ) (variable : Option Text) (request : ScanRequest)
    (w w' : World) (detail : ScanDetail)
    → IsQuiet x
    → IsFresh w
    → start_scan x organization_id variable request w ≡ (ok detail, w')
    → (detail.shown.total_rules ≡ length detail.results)
      × (detail.shown.passed_rules ≡ count_where (λ (v : ScanResultView). v.passed) detail.results)
      × ((detail.shown.result ≡ codes "passed")
          ↔ (count_where (λ (v : ScanResultView). v.passed) detail.results ≡ length detail.results))
start_scan-result x organization_id variable request w w' detail quiet fresh h =
    let p = start_scan-IsRun x organization_id variable request w w' detail h in
    let s = build_scan_detail-IsShown p.result.scan p.result.results detail p.built in
    let c = complete x request w w' detail quiet fresh p in
    let counted : passed_count p.result.results
        ≡ count_where (λ (v : ScanResultView). v.passed) detail.results =
      sym (count_where-map (λ (r : ScanResult). r.passed) p.result.results)
      ∙ ap trues (sym s.outcomes)
      ∙ count_where-map (λ (v : ScanResultView). v.passed) detail.results in
    let measured : length p.result.results ≡ length detail.results =
      sym (length-map (λ (r : ScanResult). r.passed) p.result.results)
      ∙ ap length (sym s.outcomes)
      ∙ length-map (λ (v : ScanResultView). v.passed) detail.results in
    let total : p.result.scan.total_rules ≡ length detail.results =
      c.total_rules
      ∙ length-Matched x p.result.scan.id p.rules p.result.results c.matched
      ∙ measured in
    let passed : p.result.scan.passed_rules
        ≡ count_where (λ (v : ScanResultView). v.passed) detail.results =
      c.passed_rules ∙ counted in
    let (t, finished) = c.completed_at in
    (
      s.total_rules ∙ total,
      s.passed_rules ∙ passed,
      rw s.result (rw (passed, total) (scan_result_iff p.result.scan.completed_at t _ _ finished)),
    )
