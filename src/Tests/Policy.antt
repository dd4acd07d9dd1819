-- ===== src/Tests/Policy.antt =====
-- The theorems on policy, masking, rate limits, evaluation and scoring, at small inputs.
use compliance_pulse.Prelude.{
  ◌≡◌, ◌↔◌, text_eq, refl, arith, some, true, [], ◌∷◌, inl, codes, Text, text_mem, lower, lookup,
  contains, starts_with, pos,
}
use compliance_pulse.Models.Scanning.{Value, text, number}
use compliance_pulse.Session.Monad.{ok, err, Result, Error, utcnow}
use compliance_pulse.Security.Settings.{
  SecuritySettings, load_allowed_commands, parse_allowed_commands,
}
use compliance_pulse.Security.Sandbox.{ensure_command_allowed}
use compliance_pulse.Security.Sandbox.Policy.{
  IsPermitted, ensure_command_allowed_iff, load_allowed_commands-refuse,
}
use compliance_pulse.Security.Masking.{value_text, sanitize_metadata}
use compliance_pulse.Security.Masking.Hiding.{masked, nil, cons, sanitize_metadata-hides}
use compliance_pulse.Models.Limits.{Store}
use compliance_pulse.Security.RateLimit.Windows.{allowed_count, allowed_count-window}
use compliance_pulse.Engine.Host.{Host, Process}
use compliance_pulse.Engine.RuleEngine.{
  RuleEvaluation, evaluate, evaluate_expectation, rule_type_of, load_metadata, handler_of,
  or_failed, millis, handle_shell, run_shell, timeout_of, as_text, run_process,
}
use compliance_pulse.Engine.RuleEngine.Sandboxed.{evaluate-sandboxed}
use compliance_pulse.Engine.RuleEngine.Outcomes.{Meets, evaluate_expectation_iff}
use compliance_pulse.Engine.RuleEngine.Evaluations.{RanAndMet, evaluate-passed_shell}
use compliance_pulse.Engine.Scoring.{derive_severity}
use compliance_pulse.Engine.Scoring.Severity.{IsHighest, derive_severity-IsHighest}
use compliance_pulse.Tests.{settings, rule, world, host}

ensure_command_allowed_iff_example :
    (ensure_command_allowed settings (codes "cat f") ≡ ok tt) ↔ IsPermitted settings (codes "cat f")
ensure_command_allowed_iff_example = ensure_command_allowed_iff settings (codes "cat f") refl

abbrev loaded_settings : SecuritySettings
loaded_settings = record settings { allowed_commands = [] }

load_allowed_commands-refuse_example :
    (e : Error) × (ensure_command_allowed loaded_settings (codes "cat f") ≡ err e)
unfolding load_allowed_commands parse_allowed_commands
load_allowed_commands-refuse_example =
    load_allowed_commands-refuse loaded_settings (some (codes "cat")) (codes "cat f") refl refl

sanitize_metadata-hides_example :
    sanitize_metadata (some ((codes "token", text (codes "abcdwxyz")) ∷ []))
    ≡ sanitize_metadata (some ((codes "token", text (codes "efghwxyz")) ∷ []))
unfolding text_mem lower text_eq value_text
sanitize_metadata-hides_example = sanitize_metadata-hides (
    cons (codes "token")
      (masked (text (codes "abcdwxyz")) (text (codes "efghwxyz")) refl (λ h. cc) (λ h. cc)
        (record { long = refl; tail = λ h. refl }))
      nil)

allowed_count-window_example : allowed_count (codes "ip") 2 60 (5 ∷ 6 ∷ 7 ∷ []) [] ≡ 2
unfolding lookup
allowed_count-window_example =
    allowed_count-window (codes "ip") 2 60 5 (6 ∷ 7 ∷ []) [] (inl refl)
      (omega arith, (omega arith, tt))

abbrev full : Store
full = (codes "a", record { start = 0; count = 1 }) ∷ []

-- A machine that refuses what the policy does not let through
abbrev guarded : Text → Value → Result Process
guarded command timeout = elim (ensure_command_allowed settings command) [
  | ok _ ↦ host.run command timeout
  | err e ↦ err e
]

guarded-same :
    (command : Text) (timeout : Value)
    → ensure_command_allowed settings command ≡ ok tt
    → host.run command timeout ≡ guarded command timeout
guarded-same command timeout allowed = ground (arith, allowed)

evaluate-sandboxed_example :
    evaluate host rule world ≡ evaluate (record host { run = guarded }) rule world
evaluate-sandboxed_example = evaluate-sandboxed host guarded guarded-same rule world

evaluate_expectation_iff_example :
    (evaluate_expectation rule (codes "no") [] (pos 0) ≡ ok true) ↔ Meets rule (codes "no") (pos 0)
evaluate_expectation_iff_example = evaluate_expectation_iff rule (codes "no") [] (pos 0)

derive_severity-IsHighest_example :
    IsHighest (codes "info") (derive_severity (rule ∷ [])) (rule ∷ [])
derive_severity-IsHighest_example = derive_severity-IsHighest (rule ∷ [])

-- The machine with the policy switched off
abbrev open_host : Host
open_host = record host { settings = record settings { security_test_mode = true } }

abbrev judged : RuleEvaluation
judged = record {
  rule_id = codes "r1";
  passed = true;
  stdout = some (codes "no");
  stderr = some [];
  details =
      (codes "expectation", text (codes "contains"))
      ∷ (codes "expect_value", text (codes "no"))
      ∷ (codes "exit_code", number (pos 0))
      ∷ [];
  started_at = 100;
  completed_at = 101;
  runtime_ms = pos 0;
}

evaluate-passed_shell_example :
    (stdout : Text) × (judged.stdout ≡ some stdout) × RanAndMet open_host rule stdout
unfolding evaluate rule_type_of lookup load_metadata lower or_failed handler_of text_eq handle_shell
    ensure_command_allowed run_shell run_process timeout_of evaluate_expectation contains
    starts_with as_text utcnow millis
evaluate-passed_shell_example = evaluate-passed_shell open_host rule world _ judged refl refl refl
