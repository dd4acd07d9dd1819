-- ===== src/Engine/Summary.antt =====
-- backend/engine/ai_summary.py
use compliance_pulse.Prelude.{
  ℕ, ◌-◌, Text, List, [], ◌∷◌, ◌++◌, map, codes, decimal, length, count_where, where_rows, not,
  ◌==◌, if◌then◌else◌,
}
use compliance_pulse.Models.Scanning.{ScanResult, Summary}

unfoldable pub headline : ℕ → ℕ → Text
headline failed total =
    if failed == 0
    then codes "All controls passed."
    else decimal failed ++ (codes " of " ++ (decimal total ++ codes " controls require attention."))

unfoldable pub finding : ScanResult → Text
finding r =
    r.rule_title
    ++ (codes " ("
        ++ (r.severity ++ (codes ") " ++ (if r.passed then codes "passed" else codes "failed"))))

unfoldable pub remediation : ScanResult → Text
remediation r = codes "Review " ++ (r.rule_title ++ codes " and apply remediation guidance.")

abbrev pub posture : Text
posture = codes "Maintain current hardening posture; no failed controls detected."

-- `if not remediations and total: remediations.append(...)`
unfoldable pub or_posture : ℕ → List Text → List Text
or_posture total [] = if total == 0 then [] else posture ∷ []
or_posture total (r ∷ rs) = r ∷ rs

unfoldable pub summarize_scan : List ScanResult → Summary
summarize_scan results = record {
  summary = headline (length results - count_where (λ r. r.passed) results) (length results);
  key_findings = map finding results;
  remediations =
      or_posture (length results) (map remediation (where_rows (λ r. not r.passed) results));
}
