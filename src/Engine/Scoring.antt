-- ===== src/Engine/Scoring.antt =====
-- The severity weights, the derived severity and the tags of a scan: `SEVERITY_WEIGHTS`,
-- `_derive_severity` and `_collect_rule_tags` of backend/engine/scan_executor.py.
pub mod Severity
pub mod Tags
use compliance_pulse.Prelude.{
  ℕ, Text, Bool, true, false, Option, none, some, List, [], ◌∷◌, ◌++◌, codes, lower, text_eq, ltb,
  ◌==◌, ◌&&◌, ◌||◌, if◌then◌else◌,
}
use compliance_pulse.Models.Scanning.{Rule, loads}
use compliance_pulse.Session.Monad.{Result, ok, err, other_error}

-- `SEVERITY_WEIGHTS.get(severity, default)`
unfoldable pub severity_weight : ℕ → Text → ℕ
severity_weight default severity =
    if text_eq severity (codes "info")
    then 1
    else if text_eq severity (codes "low")
    then 1
    else if text_eq severity (codes "medium")
    then 2
    else if text_eq severity (codes "high")
    then 3
    else if text_eq severity (codes "critical")
    then 4
    else default

-- The weight of a rule in the score: that of its severity in lower case, and 1 for any other word.
unfoldable pub rule_weight : Text → ℕ
rule_weight severity = severity_weight 1 (lower severity)

unfoldable pub derive_from : Text → List Rule → Text
derive_from highest [] = highest
derive_from highest (rule ∷ rules) =
    derive_from
      (if ltb (severity_weight 0 highest) (severity_weight 0 (lower rule.severity))
        then lower rule.severity
        else highest)
      rules

-- `_derive_severity`
unfoldable pub derive_severity : List Rule → Text
derive_severity = derive_from (codes "info")

-- `s < t` of two texts, by code points
unfoldable pub text_ltb : Text → Text → Bool
text_ltb s [] = false
text_ltb [] (b ∷ t) = true
text_ltb (a ∷ s) (b ∷ t) = ltb a b || a == b && text_ltb s t

-- An entry of a sorted list without repetitions
unfoldable pub insert_sorted : Text → List Text → List Text
insert_sorted t [] = t ∷ []
insert_sorted t (x ∷ xs) =
    if text_eq t x then x ∷ xs else if text_ltb t x then t ∷ x ∷ xs else x ∷ insert_sorted t xs

-- `sorted(set(xs) | set(ys))`, where the second set is there already
unfoldable pub sorted_union : List Text → List Text → List Text
sorted_union [] sorted = sorted
sorted_union (t ∷ ts) sorted = insert_sorted t (sorted_union ts sorted)

abbrev join_tags : Option (List Text) → Result (List Text) → Result (List Text)
join_tags none rest = err (other_error (codes "JSONDecodeError"))
join_tags (some tags) (ok sorted) = ok (sorted_union tags sorted)
join_tags (some tags) (err e) = err e

-- `_collect_rule_tags`; tags that are no JSON raise.
unfoldable pub collect_rule_tags : List Rule → Result (List Text)
collect_rule_tags [] = ok []
collect_rule_tags (rule ∷ rules) = join_tags (loads [] rule.tags_json) (collect_rule_tags rules)
