-- ===== src/Services/Scans/Shown.antt =====
-- A scan's answer beside its rows: `_build_scan_detail` of backend/app/services/scan_service.py.
use compliance_pulse.Prelude.{◌≡◌, refl, sym, ap, ◌∙◌, List, [], ◌∷◌, map}
use compliance_pulse.Models.Scanning.{Scan, ScanResult}
use compliance_pulse.Session.Monad.{Result, ok, err, ok-injective}
use compliance_pulse.Services.Scans.Views.{
  ScanResultView, ScanSummary, ScanDetail, with_summary, with_results, with_shown, then_build,
  read_json, read_summary, scan_result, summary_of, view_of, build_scan_summary, build_result_view,
  build_all, build_scan_detail,
}

pub record IsShown (scan : Scan) (results : List ScanResult) (detail : ScanDetail) : Type 0 where
  pub id : detail.shown.id ≡ scan.id
  pub total_rules : detail.shown.total_rules ≡ scan.total_rules
  pub passed_rules : detail.shown.passed_rules ≡ scan.passed_rules
  pub score : detail.shown.compliance_score ≡ scan.compliance_score
  pub result :
      detail.shown.result ≡ scan_result scan.completed_at scan.passed_rules scan.total_rules
  pub outcomes :
      map (λ (v : ScanResultView). v.passed) detail.results
      ≡ map (λ (r : ScanResult). r.passed) results

then_build-eq-ok :
    {A B : Type 0} (next : A → Result B) (part : Result A) {b : B}
    → then_build next part ≡ ok b
    → (a : A) × (part ≡ ok a) × (next a ≡ ok b)
then_build-eq-ok next (err e) h = absurd (cc)
then_build-eq-ok next (ok a) h = (a, refl, h)

abbrev with_views : ScanResultView → List ScanResultView → Result (List ScanResultView)
with_views view views = ok (view ∷ views)

abbrev after_view : List ScanResult → ScanResultView → Result (List ScanResultView)
after_view results view = then_build (with_views view) (build_all build_result_view results)

build_all-outcomes :
    (results : List ScanResult) (views : List ScanResultView)
    → build_all build_result_view results ≡ ok views
    → map (λ (v : ScanResultView). v.passed) views ≡ map (λ (r : ScanResult). r.passed) results
unfolding build_all build_result_view
build_all-outcomes [] views h = ap (map (λ (v : ScanResultView). v.passed)) (sym (ok-injective h))
build_all-outcomes (r ∷ results) views h =
    let (view, one, h') = then_build-eq-ok (after_view results) (build_result_view r) h in
    let (rest, more, h'') =
      then_build-eq-ok (with_views view) (build_all build_result_view results) h' in
    let (details, _, made) =
      then_build-eq-ok (λ details. ok (view_of r details)) (read_json [] r.details_json) one in
    let passed : view.passed ≡ r.passed =
      ap (λ (v : ScanResultView). v.passed) (sym (ok-injective made)) in
    ap (map (λ (v : ScanResultView). v.passed)) (sym (ok-injective h''))
    ∙ cc (passed, build_all-outcomes results rest more)

-- An answer that is built shows the scan's key, counts and score, the word for how it went, and the
-- outcome of each result.
pub build_scan_detail-IsShown :
    (scan : Scan) (results : List ScanResult) (detail : ScanDetail)
    → build_scan_detail scan results ≡ ok detail
    → IsShown scan results detail
unfolding build_scan_detail build_scan_summary
build_scan_detail-IsShown scan results detail h =
    let (shown, one, h1) = then_build-eq-ok (with_shown scan results) (build_scan_summary scan) h in
    let (views, all_views, h2) =
      then_build-eq-ok (with_results scan shown) (build_all build_result_view results) h1 in
    let (ai, _, h3) =
      then_build-eq-ok (with_summary scan shown views) (read_summary scan.ai_summary_json) h2 in
    let (tags, _, made) =
      then_build-eq-ok (λ tags. ok (summary_of scan tags)) (read_json [] scan.tags_json) one in
    let same = sym (ok-injective h3) in
    let of_scan = ap (λ (d : ScanDetail). d.shown) same ∙ sym (ok-injective made) in
    record {
      id = ap (λ (s : ScanSummary). s.id) of_scan;
      total_rules = ap (λ (s : ScanSummary). s.total_rules) of_scan;
      passed_rules = ap (λ (s : ScanSummary). s.passed_rules) of_scan;
      score = ap (λ (s : ScanSummary). s.compliance_score) of_scan;
      result = ap (λ (s : ScanSummary). s.result) of_scan;
      outcomes =
          ap (λ (d : ScanDetail). map (λ (v : ScanResultView). v.passed) d.results) same
          ∙ build_all-outcomes results views all_views;
    }
