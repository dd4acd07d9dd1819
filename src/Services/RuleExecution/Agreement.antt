-- ===== src/Services/RuleExecution/Agreement.antt =====
-- The older engine's verdict (backend/app/services/rule_engine.py) beside that of
-- backend/engine/rule_engine.py.
use compliance_pulse.Prelude.{
  ℤ, ◌≡◌, refl, ap, ◌∙◌, strip, ◌==◌, if◌then◌else◌, Text, Bool, false, Option, none, some, [], ◌∷◌,
  codes, is_empty, or_else, lower, parse_int, text_eq, Bool-cases, inl, inr, int_eq,
}
use compliance_pulse.Models.Scanning.{Rule}
use compliance_pulse.Session.Monad.{Result, ok, err, value_error}
use compliance_pulse.Engine.RuleEngine.{evaluate_expectation}
use compliance_pulse.Services.RuleExecution.{
  ExecutionResult, Shell, completed, stripped_output, outcome_texts, with_verdict, evaluate_rule,
  compared_code, execute_rule,
}

abbrev pub verdict_of : Result (Bool × Text) → Result Bool
verdict_of (ok (passed, detail)) = ok passed
verdict_of (err e) = err e

or_else-left : (a b : Text) → is_empty a ≡ false → or_else a b ≡ a
or_else-left [] b h = absurd (cc)
or_else-left (c ∷ a) b h = refl

abbrev wanted_code : Option ℤ → Result ℤ
wanted_code none = err (value_error (codes "invalid literal for int()"))
wanted_code (some n) = ok n

abbrev judged : ℤ → Result ℤ → Result Bool
judged exit_code (ok n) = ok (int_eq exit_code n)
judged exit_code (err e) = err e

compared_code-verdict :
    (target : Text) (exit_code : ℤ) (wanted : Option ℤ)
    → verdict_of (compared_code target exit_code wanted) ≡ judged exit_code (wanted_code wanted)
compared_code-verdict target exit_code none = refl
compared_code-verdict target exit_code (some n) = refl

evaluate_rule-evaluate_expectation :
    (rule : Rule) (stdout stderr : Text) (exit_code : ℤ)
    → is_empty rule.expect_type ≡ false
    → is_empty rule.expect_value ≡ false
    → lower rule.expect_type ≡ rule.expect_type
    → verdict_of (evaluate_rule rule stdout stderr exit_code)
      ≡ evaluate_expectation rule stdout stderr exit_code
unfolding evaluate_rule evaluate_expectation
evaluate_rule-evaluate_expectation rule stdout stderr exit_code set filled small =
    rw (or_else-left rule.expect_type (codes "exit_code") set) (
      rw (or_else-left rule.expect_value (codes "0") filled) (
        rw small (elim (Bool-cases (text_eq rule.expect_type (codes "exit_code"))) [
          | inl e ↦
              rw e (compared_code-verdict rule.expect_value exit_code (parse_int rule.expect_value))
          | inr n1 ↦ elim (Bool-cases (text_eq rule.expect_type (codes "contains"))) [
            | inl e ↦ rw n1 (rw e refl)
            | inr n2 ↦ elim (Bool-cases (text_eq rule.expect_type (codes "not_contains"))) [
              | inl e ↦ rw n1 (rw n2 (rw e refl))
              | inr n3 ↦ elim (Bool-cases (text_eq rule.expect_type (codes "equals"))) [
                | inl e ↦ rw n1 (rw n2 (rw n3 (rw e refl)))
                | inr n4 ↦ rw n1 (rw n2 (rw n3 (rw n4 refl)))
              ]
            ]
          ]
        ])))

-- What the older engine answers on a rule
abbrev pub passed_of : Result ExecutionResult → Result Bool
passed_of (ok r) = ok r.passed
passed_of (err e) = err e

with_verdict-passed :
    (texts : Text × Text × ℤ) (r : Result (Bool × Text))
    → passed_of (with_verdict texts r) ≡ verdict_of r
with_verdict-passed texts (ok (passed, detail)) = refl
with_verdict-passed texts (err e) = refl

error_output_unread :
    (rule : Rule) (stdout a b : Text) (exit_code : ℤ)
    → evaluate_expectation rule stdout a exit_code ≡ evaluate_expectation rule stdout b exit_code
unfolding evaluate_expectation
error_output_unread rule stdout a b exit_code = refl

-- Where a command finishes and its output neither begins nor ends with a space, the older engine
-- answers what the newer one judges of the same process, and refuses the same expectations with the
-- same error, for a rule whose expectation is written in lower case and whose fields are not empty.
pub execute_rule-evaluate_expectation :
    (shell : Shell) (rule : Rule) (stdout : Text) (stderr : Option Text) (error_output : Text)
    (exit_code : ℤ)
    → shell.run rule.command
        (if rule.timeout_seconds == 0 then shell.timeout else rule.timeout_seconds)
      ≡ completed (some stdout) stderr exit_code
    → strip stdout ≡ stdout
    → is_empty rule.expect_type ≡ false
    → is_empty rule.expect_value ≡ false
    → lower rule.expect_type ≡ rule.expect_type
    → passed_of (execute_rule shell rule) ≡ evaluate_expectation rule stdout error_output exit_code
unfolding execute_rule
execute_rule-evaluate_expectation shell rule stdout stderr error_output exit_code ran clean set
      filled small =
    ap
      (λ o.
        let texts = outcome_texts rule o in
        passed_of (with_verdict texts (evaluate_rule rule texts.0 texts.1 texts.2)))
      ran
    ∙ with_verdict-passed (strip stdout, stripped_output stderr, exit_code) _
    ∙ ap (λ out. verdict_of (evaluate_rule rule out (stripped_output stderr) exit_code)) clean
    ∙ evaluate_rule-evaluate_expectation rule stdout (stripped_output stderr) exit_code set filled
        small
    ∙ error_output_unread rule stdout (stripped_output stderr) error_output exit_code
