-- ===== src/Engine/RuleEngine/Evaluations.antt =====
-- What `RuleEngine.evaluate` of backend/engine/rule_engine.py returns.
use compliance_pulse.Prelude.{
  ℕ, suc, Text, ◌≡◌, refl, sym, ap, subst, ◌∙◌, ◌≢◌, ◌⊎◌, inl, inr, Bool-cases, Option, none,
  is_empty, if◌then◌else◌, arith, true, false, some, text_eq, codes, lookup, [], ◌∷◌,
}
use compliance_pulse.Models.Scanning.{Rule, Value, null, text, number, flag, other, Metadata}
use compliance_pulse.Session.World.{World}
use compliance_pulse.Session.Monad.{Result, ok, err, Error, message, ok-injective}
use compliance_pulse.Security.Sandbox.{ensure_command_allowed}
use compliance_pulse.Models.Values.{truthy, or_value, value_or}
use compliance_pulse.Engine.Host.{Host, Process}
use compliance_pulse.Engine.RuleEngine.Handlers.{◌>>=◌}
use compliance_pulse.Engine.RuleEngine.{
  RuleEvaluation, Handled, >>=-eq-ok, timeout_of, run_process, evaluate_expectation, run_shell,
  handle_shell, as_text, require, shell_command, shell_reply, rule_type_of, load_metadata,
  handler_of, or_failed, millis, evaluate,
}
use compliance_pulse.Engine.RuleEngine.Outcomes.{Meets, evaluate_expectation_iff}

-- A rule whose handler raises is a failed evaluation with the exception's message; nothing of the
-- session changes but the clock, which is read twice.
pub evaluate-of_error :
    (h : Host) (rule : Rule) (w : World) (rule_type : Text) (e : Error)
    → rule_type_of rule (load_metadata rule) ≡ ok rule_type
    → handler_of rule_type h rule (load_metadata rule) ≡ err e
    → (r : RuleEvaluation) × (evaluate h rule w ≡ (ok r, record w { reads = suc (suc w.reads) }))
      × (r.rule_id ≡ rule.id)
      × (r.passed ≡ false)
      × (r.stderr ≡ some (message e))
      × (lookup (codes "error") r.details ≡ some (text (message e)))
unfolding evaluate or_failed lookup text_eq
evaluate-of_error h rule w rule_type e typed raised = (
  record {
    rule_id = rule.id;
    passed = false;
    stdout = some [];
    stderr = some (message e);
    details = (codes "type", text rule_type) ∷ (codes "error", text (message e)) ∷ [];
    started_at = w.clock w.reads;
    completed_at = w.clock (suc w.reads);
    runtime_ms = millis (w.clock w.reads) (w.clock (suc w.reads));
  },
  simp (typed, raised),
  refl,
  refl,
  refl,
  refl,
)

run_process-ok :
    (h : Host) (line : Text) (timeout : ℕ) (metadata : Metadata) (p : Process)
    → run_process h line timeout metadata ≡ ok p
    → (ensure_command_allowed h.settings line ≡ ok tt)
      × (h.run line (timeout_of h timeout metadata) ≡ ok p)
unfolding run_process
run_process-ok h line timeout metadata p e =
    let (_, allowed, ran) =
      >>=-eq-ok (ensure_command_allowed h.settings line)
        (λ _. h.run line (timeout_of h timeout metadata)) e in
    (allowed, ran)

-- The command that a shell rule names: its own, or else the one among its metadata
abbrev pub IsCommand : Rule → Text → Type 0
IsCommand rule line =
    (line ≢ [])
    × ((rule.command ≡ line)
        ⊎ ((rule.command ≡ [])
            × (lookup (codes "command") (load_metadata rule) ≡ some (text line))))

as_text-ok : (v : Value) (line : Text) → as_text v ≡ ok line → v ≡ text line
unfolding as_text
as_text-ok (text t) line h = ap text (ok-injective h)
as_text-ok null line h = absurd (cc)
as_text-ok (number n) line h = absurd (cc)
as_text-ok (flag b) line h = absurd (cc)
as_text-ok (other t) line h = absurd (cc)

or_value-text :
    (found : Option Value) (line : Text)
    → or_value null found ≡ text line
    → found ≡ some (text line)
or_value-text none line h = absurd (cc)
or_value-text (some v) line h = elim (Bool-cases (truthy (some v))) [
  | inl e ↦ ap some (rw e at h)
  | inr e ↦ absurd (cc (rw e at h))
]

named_command :
    (command line : Text) (metadata : Metadata)
    → (if is_empty command then value_or (codes "command") metadata null else text command)
      ≡ text line
    → (command ≡ line) ⊎ ((command ≡ []) × (lookup (codes "command") metadata ≡ some (text line)))
unfolding value_or
named_command [] line metadata h = inr (refl, or_value-text _ line h)
named_command (c ∷ cs) line metadata h = inl (cc h)

required_text :
    (line error : Text) (v : Value) → v ≡ text line → require v error ≡ ok tt → line ≢ []
unfolding truthy
required_text line error v same h empty =
    let bad : require (text []) error ≡ ok tt =
      subst (λ u. require u error ≡ ok tt) (same ∙ ap text empty) h in
    cc bad

shell_command-IsCommand :
    (rule : Rule) (line error : Text)
    → require (shell_command rule (load_metadata rule)) error ≡ ok tt
    → as_text (shell_command rule (load_metadata rule)) ≡ ok line
    → IsCommand rule line
shell_command-IsCommand rule line error full h =
    let same = as_text-ok (shell_command rule (load_metadata rule)) line h in
    (
      required_text line error (shell_command rule (load_metadata rule)) same full,
      named_command rule.command line (load_metadata rule) same,
    )

-- A process that a shell rule ran: it is that of its command, which the policy let through, and it
-- met the expectation.
pub record RanAndMet (h : Host) (rule : Rule) (stdout : Text) : Type 0 where
  pub line : Text
  pub command : IsCommand rule line
  pub process : Process
  pub allowed : ensure_command_allowed h.settings line ≡ ok tt
  pub ran : h.run line (timeout_of h rule.timeout_seconds (load_metadata rule)) ≡ ok process
  pub met : Meets rule process.stdout process.returncode
  pub shown : stdout ≡ process.stdout

run_shell-passed :
    (h : Host) (rule : Rule) (line : Text) (r : Handled)
    → IsCommand rule line
    → run_shell h rule (load_metadata rule) line ≡ ok r
    → r.passed ≡ true
    → RanAndMet h rule r.stdout
unfolding run_shell
run_shell-passed h rule line r command e passed =
    let (process, ran, e') =
      >>=-eq-ok (run_process h line rule.timeout_seconds (load_metadata rule)) (judge rule) e in
    let (met, tested, e'') =
      >>=-eq-ok (evaluate_expectation rule process.stdout process.stderr process.returncode)
        (λ b. ok (shell_reply rule process b)) e' in
    let (allowed, done) =
      run_process-ok h line rule.timeout_seconds (load_metadata rule) process ran in
    record {
      line = line;
      command = command;
      process = process;
      allowed = allowed;
      ran = done;
      met =
          (evaluate_expectation_iff rule process.stdout process.stderr process.returncode).0
            (ground (arith, tested, e'', passed));
      shown = ground (arith, e'');
    }
  where
    judge : Rule → Process → Result Handled
    judge rule p =
        evaluate_expectation rule p.stdout p.stderr p.returncode >>= λ b. ok (shell_reply rule p b)

handle_shell-passed :
    (h : Host) (rule : Rule) (r : Handled)
    → handle_shell h rule (load_metadata rule) ≡ ok r
    → r.passed ≡ true
    → RanAndMet h rule r.stdout
unfolding handle_shell
handle_shell-passed h rule r e passed =
    let command = shell_command rule (load_metadata rule) in
    let (nothing, full, e') =
      >>=-eq-ok (require command (codes "shell rule requires a command"))
        (λ _. as_text command >>= run_shell h rule (load_metadata rule)) e in
    let (line, read, e'') =
      >>=-eq-ok (as_text command) (run_shell h rule (load_metadata rule)) e' in
    run_shell-passed h rule line r
      (shell_command-IsCommand rule line (codes "shell rule requires a command") full read) e''
      passed

evaluate-handled :
    (h : Host) (rule : Rule) (w w' : World) (rule_type : Text) (r : RuleEvaluation)
    → rule_type_of rule (load_metadata rule) ≡ ok rule_type
    → evaluate h rule w ≡ (ok r, w')
    → (r.passed ≡ (or_failed rule_type (handler_of rule_type h rule (load_metadata rule))).passed)
      × (r.stdout
          ≡ some (or_failed rule_type (handler_of rule_type h rule (load_metadata rule))).stdout)
unfolding evaluate
evaluate-handled h rule w w' rule_type r typed ran = (ground (arith, typed), ground (arith, typed))

or_failed-passed :
    (h : Host) (rule : Rule) (result : Result Handled)
    → handle_shell h rule (load_metadata rule) ≡ result
    → (or_failed (codes "shell") result).passed ≡ true
    → RanAndMet h rule (or_failed (codes "shell") result).stdout
unfolding or_failed
or_failed-passed h rule (ok handled) e passed = handle_shell-passed h rule handled e passed
or_failed-passed h rule (err _) e passed = absurd (cc)

-- A shell rule passes only if the command that it names, its own or else the one among its metadata,
-- was let through by the sandbox policy and ran within the rule's timeout, and its output or exit
-- code met the rule's expectation.
pub evaluate-passed_shell :
    (h : Host) (rule : Rule) (w w' : World) (r : RuleEvaluation)
    → rule_type_of rule (load_metadata rule) ≡ ok (codes "shell")
    → evaluate h rule w ≡ (ok r, w')
    → r.passed ≡ true
    → (stdout : Text) × (r.stdout ≡ some stdout) × RanAndMet h rule stdout
unfolding handler_of text_eq
evaluate-passed_shell h rule w w' r typed ran passed =
    let (same, shown) = evaluate-handled h rule w w' (codes "shell") r typed ran in
    (
      (or_failed (codes "shell") (handle_shell h rule (load_metadata rule))).stdout,
      shown,
      or_failed-passed h rule (handle_shell h rule (load_metadata rule)) refl (sym same ∙ passed),
    )
