-- ===== src/Services/RuleExecution.antt =====
-- `RuleExecutionEngine` of backend/app/services/rule_engine.py, the older engine for shell rules, and
-- `ScanExecutor.execute` of backend/app/services/scan_executor.py.
pub mod Agreement
use compliance_pulse.Prelude.{
  ℕ, ℤ, pos, Text, Bool, true, false, Option, none, some, List, [], ◌∷◌, ◌++◌, codes, decimal,
  int_text, parse_int, int_eq, contains, not, strip, text_eq, ◌==◌, if◌then◌else◌,
}
use compliance_pulse.Models.Scanning.{Rule, ScanResult, ScanJob}
use compliance_pulse.Session.Monad.{M, Result, ok, err, value_error, lift, pure, ◌>>=◌, ◌>>◌}
use compliance_pulse.Engine.Executor.Steps.{Executor, ScanExecutionResult}
use compliance_pulse.Engine.Executor.Groups.{execute_job}

pub record ExecutionResult : Type 0 where
  pub stdout : Text
  pub stderr : Text
  pub exit_code : ℤ
  pub passed : Bool
  pub expectation_detail : Text

-- How `subprocess.run` ends: with a completed process, by a timeout with what was printed so far, or
-- with a permission error.
pub data Outcome : Type 0 where
  completed : Option Text → Option Text → ℤ → Outcome
  timed_out : Option Text → Outcome
  denied : Outcome

-- The machine: `run command timeout`
pub record Shell : Type 0 where
  pub timeout : ℕ
  pub run : Text → ℕ → Outcome

abbrev quoted : Text → Text → Text
quoted before target = before ++ (codes "'" ++ (target ++ codes "'"))

abbrev pub compared_code : Text → ℤ → Option ℤ → Result (Bool × Text)
compared_code target exit_code none = err (value_error (codes "invalid literal for int()"))
compared_code target exit_code (some expected_code) =
    ok (int_eq exit_code expected_code, codes "exit_code == " ++ int_text expected_code)

-- `_evaluate`
unfoldable pub evaluate_rule : Rule → Text → Text → ℤ → Result (Bool × Text)
evaluate_rule rule stdout stderr exit_code =
    let target = rule.expect_value in
    if text_eq rule.expect_type (codes "exit_code")
    then compared_code target exit_code (parse_int target)
    else if text_eq rule.expect_type (codes "contains")
    then ok (contains target stdout, quoted (codes "stdout contains ") target)
    else if text_eq rule.expect_type (codes "not_contains")
    then ok (not (contains target stdout), quoted (codes "stdout does not contain ") target)
    else if text_eq rule.expect_type (codes "equals")
    then ok (text_eq (strip stdout) (strip target), quoted (codes "stdout equals ") target)
    else err (value_error (codes "Unsupported expectation type: " ++ rule.expect_type))

-- `(output or "").strip()`
abbrev pub stripped_output : Option Text → Text
stripped_output none = []
stripped_output (some output) = strip output

abbrev timed_out_message : Rule → Text
timed_out_message rule =
    codes "Timed out after " ++ (decimal rule.timeout_seconds ++ codes " seconds")

-- Output, error output and exit code
abbrev pub outcome_texts : Rule → Outcome → Text × Text × ℤ
outcome_texts rule (completed stdout stderr code) =
    (stripped_output stdout, stripped_output stderr, code)
outcome_texts rule (timed_out stdout) = (stripped_output stdout, timed_out_message rule, pos 124)
outcome_texts rule denied = ([], timed_out_message rule, pos 124)

abbrev pub with_verdict : Text × Text × ℤ → Result (Bool × Text) → Result ExecutionResult
with_verdict texts (err e) = err e
with_verdict (stdout, stderr, exit_code) (ok (passed, detail)) = ok (record {
  stdout = stdout;
  stderr = stderr;
  exit_code = exit_code;
  passed = passed;
  expectation_detail = detail;
})

-- `execute`, whose timeout is the rule's or, where that is 0, the engine's
unfoldable pub execute_rule : Shell → Rule → Result ExecutionResult
execute_rule shell rule =
    let seconds = if rule.timeout_seconds == 0 then shell.timeout else rule.timeout_seconds in
    let texts = outcome_texts rule (shell.run rule.command seconds) in
    with_verdict texts (evaluate_rule rule texts.0 texts.1 texts.2)

pub record Payload : Type 0 where
  pub id : Option ℕ
  pub results : Option Text

-- The first result's id and output
abbrev payload_of : List ScanResult → Payload
payload_of [] = record { id = none; results = none }
payload_of (primary ∷ results) = record { id = some primary.id; results = primary.stdout }

abbrev compact : ScanExecutionResult → M Payload
compact exec_result = pure (payload_of exec_result.results)

unfoldable pub execute : Executor → ScanJob → M Payload
execute x job = execute_job x job >>= compact
