-- ===== src/Engine/RuleEngine/Outcomes.antt =====
-- What a passed and a failed evaluation of backend/engine/rule_engine.py mean.
use compliance_pulse.Prelude.{
  ℤ, Text, ◌≡◌, ◌≢◌, ◌↔◌, inl, inr, arith, true, false, some, ap, sym, ◌∙◌, int_eq_refl,
  text_eq_refl, contains_of_absent, text_eq, text_eq_sound, codes, lower, or_else, strip, contains,
  contains_sound, contains_complete, parse_int, int_eq_sound, Bool-cases, Option-cases, ◌++◌,
}
use compliance_pulse.Models.Scanning.{Rule}
use compliance_pulse.Session.Monad.{ok}
use compliance_pulse.Engine.RuleEngine.{evaluate_expectation}

abbrev pub expectation_of : Rule → Text
expectation_of rule = lower (or_else rule.expect_type (codes "exit_code"))

abbrev pub target_of : Rule → Text
target_of rule = or_else rule.expect_value (codes "0")

-- What each type of expectation asks of a process's output and exit code.
pub data Meets (rule : Rule) (stdout : Text) (exit_code : ℤ) : Type 0 where
  exits :
      expectation_of rule ≡ codes "exit_code"
      → parse_int (target_of rule) ≡ some exit_code
      → Meets rule stdout exit_code
  holds :
      expectation_of rule ≡ codes "contains"
      → (pre post : Text) → stdout ≡ pre ++ (target_of rule ++ post)
      → Meets rule stdout exit_code
  lacks :
      expectation_of rule ≡ codes "not_contains"
      → ((pre post : Text) → stdout ≢ pre ++ (target_of rule ++ post))
      → Meets rule stdout exit_code
  equals :
      expectation_of rule ≡ codes "equals"
      → strip stdout ≡ strip (target_of rule)
      → Meets rule stdout exit_code

exit_code_met :
    (rule : Rule) (stdout stderr : Text) (exit_code : ℤ)
    → text_eq (expectation_of rule) (codes "exit_code") ≡ true
    → evaluate_expectation rule stdout stderr exit_code ≡ ok true
    → parse_int (target_of rule) ≡ some exit_code
unfolding evaluate_expectation
exit_code_met rule stdout stderr exit_code e h = elim (Option-cases (parse_int (target_of rule))) [
  | inl missing ↦ absurd (ground (arith, e, h, missing))
  | inr (wanted, found) ↦
      found ∙ ap some (sym (int_eq_sound exit_code wanted (ground (arith, e, h, found))))
]

lacks_met :
    (rule : Rule) (stdout stderr : Text) (exit_code : ℤ)
    → text_eq (expectation_of rule) (codes "exit_code") ≡ false
    → text_eq (expectation_of rule) (codes "contains") ≡ false
    → text_eq (expectation_of rule) (codes "not_contains") ≡ true
    → evaluate_expectation rule stdout stderr exit_code ≡ ok true
    → contains (target_of rule) stdout ≡ false
unfolding evaluate_expectation
lacks_met rule stdout stderr exit_code not_exit not_contains e h = ground arith

evaluate_expectation_sound :
    (rule : Rule) (stdout stderr : Text) (exit_code : ℤ)
    → evaluate_expectation rule stdout stderr exit_code ≡ ok true
    → Meets rule stdout exit_code
unfolding evaluate_expectation
evaluate_expectation_sound rule stdout stderr exit_code h =
    elim (Bool-cases (text_eq (expectation_of rule) (codes "exit_code"))) [
      | inl e ↦ exits (text_eq_sound _ _ e) (exit_code_met rule stdout stderr exit_code e h)
      | inr not_exit ↦ elim (Bool-cases (text_eq (expectation_of rule) (codes "contains"))) [
        | inl e ↦
            let (pre, post, split) =
              contains_sound (target_of rule) stdout (ground (arith, not_exit, e)) in
            holds (text_eq_sound _ _ e) pre post split
        | inr not_contains ↦
            elim (Bool-cases (text_eq (expectation_of rule) (codes "not_contains"))) [
              | inl e ↦ lacks (text_eq_sound _ _ e) λ pre post split. cc (
                contains_complete (target_of rule) stdout pre post split,
                lacks_met rule stdout stderr exit_code not_exit not_contains e h,
              )
              | inr not_lacks ↦ elim (Bool-cases (text_eq (expectation_of rule) (codes "equals"))) [
                | inl e ↦
                    equals (text_eq_sound _ _ e)
                      (text_eq_sound _ _ (ground (arith, not_exit, not_contains, not_lacks, e)))
                | inr other ↦ absurd (ground (arith, not_exit, not_contains, not_lacks, other))
              ]
            ]
      ]
    ]

evaluate_expectation_complete :
    (rule : Rule) (stdout stderr : Text) (exit_code : ℤ)
    → Meets rule stdout exit_code
    → evaluate_expectation rule stdout stderr exit_code ≡ ok true
unfolding evaluate_expectation text_eq
evaluate_expectation_complete rule stdout stderr exit_code (exits e found) =
    ground (arith, e, found, int_eq_refl exit_code)
evaluate_expectation_complete rule stdout stderr exit_code (holds e pre post split) =
    ground (arith, e, contains_complete (target_of rule) stdout pre post split)
evaluate_expectation_complete rule stdout stderr exit_code (lacks e missing) =
    ground (arith, e, contains_of_absent (target_of rule) stdout missing)
evaluate_expectation_complete rule stdout stderr exit_code (equals e same) =
    rw (e, same) (rw text_eq_refl)

-- An expectation passes exactly when the process meets it, read without the code's tests: the exit
-- code is the target's number, the output can or cannot be split around the target, or the two
-- are equal but for white space at their ends.
pub evaluate_expectation_iff :
    (rule : Rule) (stdout stderr : Text) (exit_code : ℤ)
    → (evaluate_expectation rule stdout stderr exit_code ≡ ok true) ↔ Meets rule stdout exit_code
evaluate_expectation_iff rule stdout stderr exit_code = (
  evaluate_expectation_sound rule stdout stderr exit_code,
  evaluate_expectation_complete rule stdout stderr exit_code,
)
