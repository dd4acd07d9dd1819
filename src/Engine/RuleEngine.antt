-- ===== src/Engine/RuleEngine.antt =====
-- backend/engine/rule_engine.py
mod Handlers
pub mod Sandboxed
pub mod Outcomes
pub mod Evaluations
pub use Handlers.{Handled, >>=-eq-ok, require, shell_command, shell_reply}
unfoldable pub use Handlers.{
  timeout_of, run_process, evaluate_expectation, as_text, run_shell, handle_file_exists,
  handle_command_output_match, handle_port_open, handle_package_installed, handle_shell,
  rule_type_of,
}
use compliance_pulse.Prelude.{
  ℕ, ◌-◌, ◌/◌, ◌<◌, ℤ, pos, negate, Text, Bool, true, false, Option, none, some, List, [], ◌∷◌,
  ◌++◌, codes, text_eq, lower, or_else, lookup, insert, leb, if◌then◌else◌,
}
use compliance_pulse.Models.Scanning.{
  Time, Rule, Value, null, text, number, flag, other, Metadata, loads,
}
use compliance_pulse.Session.World.{World}
use compliance_pulse.Session.Monad.{
  M, Result, ok, err, Error, other_error, message, pure, lift, utcnow, ◌>>=◌,
}
use compliance_pulse.Engine.Host.{Host}

pub record RuleEvaluation : Type 0 where
  pub rule_id : Text
  pub passed : Bool
  pub stdout : Option Text
  pub stderr : Option Text
  pub details : Metadata
  pub started_at : Time
  pub completed_at : Time
  pub runtime_ms : ℤ

abbrev or_object : Option Metadata → Metadata
or_object none = []
or_object (some metadata) = metadata

-- `_load_metadata`: what is no JSON counts as an empty object.
unfoldable pub load_metadata : Rule → Metadata
load_metadata rule = or_object (loads [] rule.metadata_json)

-- `getattr(self, f"_handle_{rule_type}", None)`, and `_handle_shell` for any other type.
unfoldable pub handler_of : Text → Host → Rule → Metadata → Result Handled
handler_of rule_type =
    if text_eq rule_type (codes "file_exists")
    then handle_file_exists
    else if text_eq rule_type (codes "command_output_match")
    then handle_command_output_match
    else if text_eq rule_type (codes "port_open")
    then handle_port_open
    else if text_eq rule_type (codes "package_installed")
    then handle_package_installed
    else handle_shell

-- The `try` around the handler: an exception is a failure that keeps its message.
unfoldable pub or_failed : Text → Result Handled → Handled
or_failed rule_type (ok handled) = handled
or_failed rule_type (err e) = record {
  stdout = [];
  stderr = message e;
  passed = false;
  details = (codes "type", text rule_type) ∷ (codes "error", text (message e)) ∷ [];
}

-- `int((completed - started).total_seconds() * 1000)`, rounded towards zero
unfoldable pub millis : Time → Time → ℤ
millis started completed =
    if leb started completed
    then pos ((completed - started) / 1000)
    else negate ((started - completed) / 1000)

-- `RuleEngine.evaluate`
unfoldable pub evaluate : Host → Rule → M RuleEvaluation
unfolding utcnow
evaluate h rule = do
  let metadata = load_metadata rule
  rule_type ← lift (rule_type_of rule metadata)
  started ← utcnow
  let handled = or_failed rule_type (handler_of rule_type h rule metadata)
  completed ← utcnow
  pure (record {
    rule_id = rule.id;
    passed = handled.passed;
    stdout = some handled.stdout;
    stderr = some handled.stderr;
    details = handled.details;
    started_at = started;
    completed_at = completed;
    runtime_ms = millis started completed;
  })
