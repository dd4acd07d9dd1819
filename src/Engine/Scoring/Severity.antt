-- ===== src/Engine/Scoring/Severity.antt =====
-- The derived severity of backend/engine/scan_executor.py beside the rules' own.
use compliance_pulse.Prelude.{
  ◌≤◌, Text, ◌≡◌, refl, sym, ◌⊎◌, inl, inr, arith, List, [], ◌∷◌, codes, lower, ltb, Bool-cases,
  All,
}
use compliance_pulse.Models.Scanning.{Rule}
use compliance_pulse.Engine.Scoring.{severity_weight, rule_weight, derive_from, derive_severity}

-- Some rule has this severity, in lower case.
abbrev pub HasSeverity : Text → List Rule → Type 0
HasSeverity severity [] = ⊥
HasSeverity severity (rule ∷ rules) = (lower rule.severity ≡ severity) ⊎ HasSeverity severity rules

-- A severity that is no lower than the start and each rule's, and is one of them.
pub record IsHighest (start severity : Text) (rules : List Rule) : Type 0 where
  pub above_start : severity_weight 0 start ≤ severity_weight 0 severity
  pub above :
      All (λ rule. severity_weight 0 (lower rule.severity) ≤ severity_weight 0 severity) rules
  pub found : (severity ≡ start) ⊎ HasSeverity severity rules

derive_from-IsHighest :
    (start : Text) (rules : List Rule) → IsHighest start (derive_from start rules) rules
unfolding derive_from
derive_from-IsHighest start [] = record { above_start = omega arith; above = tt; found = inl refl }
derive_from-IsHighest start (rule ∷ rules) =
    elim (Bool-cases (ltb (severity_weight 0 start) (severity_weight 0 (lower rule.severity)))) [
      | inl higher ↦
          let h = derive_from-IsHighest (lower rule.severity) rules in
          rw higher (record {
            above_start = ground (arith, higher, h.above_start);
            above = (h.above_start, h.above);
            found = elim h.found [ inl e ↦ inr (inl (sym e)) | inr later ↦ inr (inr later) ];
          })
      | inr no_higher ↦
          let h = derive_from-IsHighest start rules in
          rw no_higher (record {
            above_start = h.above_start;
            above = (ground (arith, no_higher, h.above_start), h.above);
            found = elim h.found [ inl e ↦ inl e | inr later ↦ inr (inr later) ];
          })
    ]

-- The severity of a scan is "info" or a rule's, and no rule has a weightier one.
pub derive_severity-IsHighest :
    (rules : List Rule) → IsHighest (codes "info") (derive_severity rules) rules
unfolding derive_severity
derive_severity-IsHighest rules = derive_from-IsHighest (codes "info") rules

-- No rule goes unweighed in a score, and none weighs more than a critical one.
pub rule_weight_bounds : (severity : Text) → (1 ≤ rule_weight severity) × (rule_weight severity ≤ 4)
unfolding rule_weight severity_weight
rule_weight_bounds severity = ground arith
