-- ===== src/Engine/RuleEngine/Handlers.antt =====
-- The handlers of `RuleEngine`, one for each type of rule, and what they share. An exception of
-- the standard library has its class for a message.
use compliance_pulse.Prelude.{
  ℕ, zero, suc, ℤ, pos, Text, ◌≡◌, refl, Bool, true, false, Option, none, some, List, [], ◌∷◌, ◌++◌,
  codes, text_eq, contains, lower, strip, or_else, is_empty, lookup, not, parse_int, int_eq,
  if◌then◌else◌, starts_with, where_rows, split_on, ◌&&◌,
}
use compliance_pulse.Models.Scanning.{Rule, Value, null, text, number, flag, Metadata}
use compliance_pulse.Models.Values.{truthy, value_or}
use compliance_pulse.Session.Monad.{Result, ok, err, value_error, runtime_error, other_error}
use compliance_pulse.Security.Masking.{value_text}
use compliance_pulse.Security.Sandbox.{ensure_command_allowed}
use compliance_pulse.Engine.Host.{Host, Process}

-- What follows a part of a handler is skipped when the part raises.
abbrev unless_raised : {A B : Type 0} → (A → Result B) → Result A → Result B
unless_raised next (err raised) = err raised
unless_raised next (ok value) = next value

infixl 5 ◌>>=◌ ◌>>◌
abbrev pub ◌>>=◌ : {A B : Type 0} → Result A → (A → Result B) → Result B
part >>= next = unless_raised next part

abbrev pub ◌>>◌ : {A B : Type 0} → Result A → Result B → Result B
part >> rest = unless_raised (λ _. rest) part

-- Where the whole returns, the part before it returned a value that the rest was given.
pub >>=-eq-ok :
    {A B : Type 0} (part : Result A) (next : A → Result B) {reply : B}
    → (part >>= next) ≡ ok reply
    → (value : A) × (part ≡ ok value) × (next value ≡ ok reply)
>>=-eq-ok (err raised) next returned = absurd (cc)
>>=-eq-ok (ok value) next returned = (value, refl, returned)

abbrev or_error : {A : Type 0} → Text → Option A → Result A
or_error e none = err (value_error e)
or_error e (some a) = ok a

-- Where only a text will do.
unfoldable pub as_text : Value → Result Text
as_text (text t) = ok t
as_text _ = err (other_error (codes "TypeError"))

-- What a handler returns: `stdout`, `stderr`, `passed` and `details`.
pub record Handled : Type 0 where
  pub stdout : Text
  pub stderr : Text
  pub passed : Bool
  pub details : Metadata

-- `timeout or metadata.get("timeout", self.timeout)`; `timeout` 0 stands for `None` too.
unfoldable pub timeout_of : Host → ℕ → Metadata → Value
timeout_of h zero metadata = elim (lookup (codes "timeout") metadata) [
  | none ↦ number (pos h.shell_timeout)
  | some v ↦ v
]
timeout_of h (suc timeout) metadata = number (pos (suc timeout))

-- `_run_process`: the sandbox policy, then the process.
unfoldable pub run_process : Host → Text → ℕ → Metadata → Result Process
unfolding timeout_of
run_process h command timeout metadata = do
  ensure_command_allowed h.settings command
  h.run command (timeout_of h timeout metadata)

-- `str(Path(p))`: repeated slashes and single dots go, and no path is left empty.
join_slash : List Text → Text
join_slash [] = []
join_slash (part ∷ []) = part
join_slash (part ∷ part' ∷ parts) = part ++ (b'/' ∷ join_slash (part' ∷ parts))

path_root : Text → Text
path_root p =
    if starts_with (codes "///") p
    then codes "/"
    else if starts_with (codes "//") p
    then codes "//"
    else if starts_with (codes "/") p
    then codes "/"
    else []

unfoldable pub path_text : Text → Text
unfolding join_slash path_root
path_text p =
    let parts =
      where_rows (λ part. not (is_empty part) && not (text_eq part (codes ".")))
        (split_on b'/' p) in
    or_else (path_root p ++ join_slash parts) (codes ".")

abbrev pub require : Value → Text → Result (Unit {0})
require v error = if truthy (some v) then ok tt else err (value_error error)

unfoldable pub handle_file_exists : Host → Rule → Metadata → Result Handled
unfolding truthy value_or as_text path_text
handle_file_exists h rule metadata = do
  let target = value_or (codes "path") metadata (text (or_else rule.command rule.expect_value))
  require target (codes "file_exists rule requires a path")
  path ← as_text target
  let exists = h.path_exists path
  ok (record {
    stdout = [];
    stderr = [];
    passed = exists;
    details = (codes "path", text (path_text path)) ∷ (codes "exists", flag exists) ∷ [];
  })

-- `match_type == "regex"`
abbrev is_regex : Value → Bool
is_regex (text t) = text_eq t (codes "regex")
is_regex _ = false

abbrev default_contains : Option Value → Value
default_contains none = text (codes "contains")
default_contains (some v) = v

abbrev search_output : Host → Value → Text → Text → Result Bool
search_output h match_type wanted stdout =
    if is_regex match_type then h.search wanted stdout else ok (contains wanted stdout)

unfoldable pub handle_command_output_match : Host → Rule → Metadata → Result Handled
unfolding truthy value_or as_text run_process
handle_command_output_match h rule metadata = do
  let command = value_or (codes "command") metadata (text rule.command)
  require command (codes "command_output_match requires a command")
  let pattern = value_or (codes "pattern") metadata (text rule.expect_value)
  require pattern (codes "command_output_match requires a pattern")
  let match_type = default_contains (lookup (codes "match_type") metadata)
  line ← as_text command
  completed ← run_process h line 0 metadata
  wanted ← as_text pattern
  passed ← search_output h match_type wanted completed.stdout
  ok (record {
    stdout = completed.stdout;
    stderr = completed.stderr;
    passed = passed;
    details =
        (codes "pattern", pattern)
        ∷ (codes "match_type", match_type)
        ∷ (codes "exit_code", number completed.returncode)
        ∷ [];
  })

abbrev port_reply : Value → ℤ → Option Text → Handled
port_reply host port refused = record {
  stdout = [];
  stderr = elim refused [ none ↦ [] | some reason ↦ reason ];
  passed = elim refused [ none ↦ true | some _ ↦ false ];
  details = (codes "host", host) ∷ (codes "port", number port) ∷ [];
}

unfoldable pub handle_port_open : Host → Rule → Metadata → Result Handled
unfolding truthy value_or timeout_of
handle_port_open h rule metadata = do
  let host =
      value_or (codes "host") metadata
        (value_or (codes "hostname") metadata (text (or_else rule.command (codes "127.0.0.1"))))
  let port_value = value_or (codes "port") metadata (text (or_else rule.expect_value rule.command))
  port ← (or_error (codes "invalid literal for int()") (parse_int (value_text port_value)))
  refused ← h.connect host port (timeout_of h 0 metadata)
  ok (port_reply host port refused)

abbrev package_command : Host → Value → Result Text
package_command h name =
    if h.which (codes "rpm")
    then ok (codes "rpm -q " ++ value_text name)
    else if h.which (codes "dpkg")
    then ok (codes "dpkg -s " ++ value_text name)
    else err (runtime_error (codes "No package manager found on host"))

unfoldable pub handle_package_installed : Host → Rule → Metadata → Result Handled
unfolding truthy value_or run_process
handle_package_installed h rule metadata = do
  let package_name =
      value_or (codes "package") metadata (text (or_else rule.command rule.expect_value))
  require package_name (codes "package_installed rule requires a package name")
  command ← package_command h package_name
  completed ← run_process h command 0 metadata
  ok (record {
    stdout = completed.stdout;
    stderr = completed.stderr;
    passed = int_eq completed.returncode (pos 0);
    details =
        (codes "package", package_name) ∷ (codes "exit_code", number completed.returncode) ∷ [];
  })

-- `_evaluate_expectation`
unfoldable pub evaluate_expectation : Rule → Text → Text → ℤ → Result Bool
evaluate_expectation rule stdout stderr exit_code =
    let expectation = lower (or_else rule.expect_type (codes "exit_code")) in
    let target = or_else rule.expect_value (codes "0") in
    if text_eq expectation (codes "exit_code")
    then (or_error (codes "invalid literal for int()") (parse_int target) >>= λ wanted.
        ok (int_eq exit_code wanted))
    else if text_eq expectation (codes "contains")
    then ok (contains target stdout)
    else if text_eq expectation (codes "not_contains")
    then ok (not (contains target stdout))
    else if text_eq expectation (codes "equals")
    then ok (text_eq (strip stdout) (strip target))
    else err (value_error (codes "Unsupported expectation type: " ++ rule.expect_type))

abbrev pub shell_command : Rule → Metadata → Value
shell_command rule metadata =
    if is_empty rule.command then value_or (codes "command") metadata null else text rule.command

abbrev pub shell_reply : Rule → Process → Bool → Handled
shell_reply rule completed passed = record {
  stdout = completed.stdout;
  stderr = completed.stderr;
  passed = passed;
  details =
      (codes "expectation", text rule.expect_type)
      ∷ (codes "expect_value", text rule.expect_value)
      ∷ (codes "exit_code", number completed.returncode)
      ∷ [];
}

-- The part of `_handle_shell` behind the check for a command.
unfoldable pub run_shell : Host → Rule → Metadata → Text → Result Handled
unfolding run_process evaluate_expectation
run_shell h rule metadata line = do
  completed ← run_process h line rule.timeout_seconds metadata
  passed ← evaluate_expectation rule completed.stdout completed.stderr completed.returncode
  ok (shell_reply rule completed passed)

unfoldable pub handle_shell : Host → Rule → Metadata → Result Handled
unfolding truthy value_or as_text run_shell
handle_shell h rule metadata = do
  require (shell_command rule metadata) (codes "shell rule requires a command")
  line ← as_text (shell_command rule metadata)
  run_shell h rule metadata line

-- `(metadata.get("type") or rule.check_type or "shell").lower()`, where a value that is not a text
-- has no `lower`.
unfoldable pub rule_type_of : Rule → Metadata → Result Text
unfolding truthy value_or as_text
rule_type_of rule metadata = do
  name ← as_text (value_or (codes "type") metadata (text (or_else rule.check_type (codes "shell"))))
  ok (lower name)
