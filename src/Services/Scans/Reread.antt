-- ===== src/Services/Scans/Reread.antt =====
-- `get_scan` of backend/app/services/scan_service.py after `start_scan`.
use compliance_pulse.Prelude.{
  ℕ, ◌<◌, ◌≡◌, refl, sym, ap, ◌∙◌, subst, arith, Text, Bool, true, false, Option, some, List, [],
  ◌∷◌, ◌++◌, ◌==◌, where_rows, All, All-map,
}
use compliance_pulse.Models.Scanning.{Rule, Scan, ScanResult, Report}
use compliance_pulse.Session.World.{World, get_row, select_rows, sees}
use compliance_pulse.Session.Rows.{get_row-last}
use compliance_pulse.Session.Monad.{ok}
use compliance_pulse.Engine.Executor.Steps.{Executor}
use compliance_pulse.Engine.Executor.Loop.{IsQuiet, Matched}
use compliance_pulse.Engine.Executor.Completed.{IsFresh, IsComplete, run_for_rules-IsComplete}
use compliance_pulse.Services.Scans.Views.{ScanDetail}
use compliance_pulse.Services.Scans.Shown.{build_scan_detail-IsShown}
use compliance_pulse.Services.Scans.Started.{IsRun, start_scan-IsRun}
use compliance_pulse.Services.Scans.{
  ScanRequest, api_input, start_scan, find_scan, load_results, get_scan,
}

-- The results in use are filed under scans whose keys lie below the next one.
abbrev pub AreFiled : World → Type 0
AreFiled w = All (λ (r : ScanResult). r.scan_id < w.next_id) w.results

where_rows-none :
    {A : Type 0} (p keep : A → Bool) (rows more : List A)
    → All (λ a. p a ≡ false) rows
    → where_rows p (where_rows keep (rows ++ more)) ≡ where_rows p (where_rows keep more)
unfolding where_rows
where_rows-none p keep [] more h = refl
where_rows-none p keep (a ∷ rows) more h = ground (arith, h.0, where_rows-none p keep rows more h.1)

where_rows-own :
    (x : Executor) (scan_id : ℕ) (keep : ScanResult → Bool) (rules : List Rule)
    (rows : List ScanResult)
    → Matched x scan_id rules rows
    → ((r : ScanResult) → r.organization_id ≡ x.organization_id → keep r ≡ true)
    → where_rows (λ (r : ScanResult). r.scan_id == scan_id) (where_rows keep rows) ≡ rows
unfolding where_rows
where_rows-own x scan_id keep [] [] m k = refl
where_rows-own x scan_id keep [] (r ∷ rows) m k = absurd m
where_rows-own x scan_id keep (rule ∷ rules) [] m k = absurd m
where_rows-own x scan_id keep (rule ∷ rules) (r ∷ rows) ((_, _, own, filed, _, _), rest) k =
    let kept = k r own in
    let here : (r.scan_id == scan_id) ≡ true = ground (arith, filed) in
    rw kept (rw here (ap (λ rs. r ∷ rs) (where_rows-own x scan_id keep rules rows rest k)))

module _ (x : Executor) (request : ScanRequest) (w w' : World) (detail : ScanDetail)
    (quiet : IsQuiet x) (fresh : IsFresh w) (p : IsRun x request w detail w') where
  pub complete : IsComplete x (api_input request p.benchmark p.rules) p.start p.result w'
  complete =
      let scans =
        subst (λ ss. All (λ (s : Scan). s.id < p.start.next_id) ss) (sym p.only_rules.scans)
          (subst (λ n. All (λ (s : Scan). s.id < n) w.scans) (sym p.only_rules.next_id)
            fresh.scans) in
      let reports =
        subst (λ ss. All (λ (s : Report). s.id < p.start.next_id) ss) (sym p.only_rules.reports)
          (subst (λ n. All (λ (s : Report). s.id < n) w.reports) (sym p.only_rules.next_id)
            fresh.reports) in
      run_for_rules-IsComplete x (api_input request p.benchmark p.rules) p.start w' p.result quiet
        (record { scans = scans; reports = reports }) p.ran

  key : p.result.scan.id ≡ w.next_id
  key = complete.id ∙ p.only_rules.next_id

  scan_found :
      sees w'.organization_id x.organization_id ≡ true
      → find_scan p.result.scan.id w' ≡ some p.result.scan
  scan_found seen =
      let stored : w'.scans ≡ w.scans ++ p.result.scan ∷ [] =
        complete.stored_scan ∙ ap (λ ss. ss ++ p.result.scan ∷ []) p.only_rules.scans in
      ap (get_row (λ (s : Scan). s.organization_id) (λ s. s.id == p.result.scan.id) w') stored
      ∙ get_row-last (λ (s : Scan). s.organization_id) (λ s. s.id == p.result.scan.id) w' w.scans
          p.result.scan (All-map (λ s h. ground (arith, h, key)) w.scans fresh.scans) (ground arith)
          (ap (sees w'.organization_id) complete.organization ∙ seen)

  results_found :
      AreFiled w
      → sees w'.organization_id x.organization_id ≡ true
      → load_results p.result.scan.id w' ≡ p.result.results
  unfolding load_results select_rows
  results_found filed seen =
      let stored : w'.results ≡ w.results ++ p.result.results =
        complete.stored_results ∙ ap (λ rs. rs ++ p.result.results) p.only_rules.results in
      rw stored (
        where_rows-none (λ (r : ScanResult). r.scan_id == p.result.scan.id)
          (λ r. sees w'.organization_id r.organization_id) w.results p.result.results
          (All-map (λ r h. ground (arith, h, key)) w.results filed)
        ∙ where_rows-own x p.result.scan.id (λ r. sees w'.organization_id r.organization_id) p.rules
            p.result.results complete.matched (λ r own. ap (sees w'.organization_id) own ∙ seen))

  reread :
      AreFiled w
      → sees w'.organization_id x.organization_id ≡ true
      → (get_scan p.result.scan.id w').0 ≡ ok detail
  unfolding get_scan
  reread filed seen = rw (scan_found seen) (rw (results_found filed seen) p.built)

-- What `start_scan` answers is what `get_scan` answers for the scan's key afterwards, in a session that
-- sees the executor's organization. It needs a rule engine that works on the clock alone, a supply of
-- unused primary keys, and results that are filed under keys in use.
pub get_scan-start_scan :
    (x : Executor) (organization_id : ℕ) (variable : Option Text) (request : ScanRequest)
    (w w' : World) (detail : ScanDetail)
    → IsQuiet x
    → IsFresh w
    → AreFiled w
    → start_scan x organization_id variable request w ≡ (ok detail, w')
    → sees w'.organization_id x.organization_id ≡ true
    → (get_scan detail.shown.id w').0 ≡ ok detail
get_scan-start_scan x organization_id variable request w w' detail quiet fresh filed h seen =
    let p = start_scan-IsRun x organization_id variable request w w' detail h in
    let s = build_scan_detail-IsShown p.result.scan p.result.results detail p.built in
    subst (λ i. (get_scan i w').0 ≡ ok detail) (sym s.id)
      (reread x request w w' detail quiet fresh p filed seen)
