-- ===== src/Engine/RuleEngine/Sandboxed.antt =====
-- The rule engine of backend/engine/rule_engine.py behind the sandbox policy.
use compliance_pulse.Prelude.{ℕ, Text, ◌≡◌, refl, inl, inr, arith}
use compliance_pulse.Models.Scanning.{Rule, Value, Metadata}
use compliance_pulse.Session.World.{World}
use compliance_pulse.Session.Monad.{Result, ok, Result-cases}
use compliance_pulse.Security.Sandbox.{ensure_command_allowed}
use compliance_pulse.Engine.Host.{Host, Process}
use compliance_pulse.Engine.RuleEngine.{
  run_process, timeout_of, handle_file_exists, handle_command_output_match, handle_port_open,
  handle_package_installed, handle_shell, handler_of, evaluate,
}

module _ (h : Host) (run' : Text → Value → Result Process)
    (agree : (command : Text) (timeout : Value)
      → ensure_command_allowed h.settings command ≡ ok tt
      → h.run command timeout ≡ run' command timeout) where
  abbrev rerouted : Host
  rerouted = record h { run = run' }

  run_process-rerouted :
      (command : Text) (timeout : ℕ) (metadata : Metadata)
      → run_process h command timeout metadata ≡ run_process rerouted command timeout metadata
  unfolding run_process
  run_process-rerouted command timeout metadata =
      elim (Result-cases (ensure_command_allowed h.settings command)) [
        | inl allowed ↦
            ground (arith, allowed, agree command (timeout_of h timeout metadata) allowed)
        | inr (e, refused) ↦ ground (arith, refused)
      ]

  handle_command_output_match-rerouted :
      (rule : Rule) (metadata : Metadata)
      → handle_command_output_match h rule metadata
        ≡ handle_command_output_match rerouted rule metadata
  handle_command_output_match-rerouted rule metadata =
      unfold handle_command_output_match in simp run_process-rerouted

  handle_package_installed-rerouted :
      (rule : Rule) (metadata : Metadata)
      → handle_package_installed h rule metadata ≡ handle_package_installed rerouted rule metadata
  unfolding handle_package_installed
  handle_package_installed-rerouted rule metadata = simp run_process-rerouted

  file_exists-rerouted :
      (rule : Rule) (metadata : Metadata)
      → handle_file_exists h rule metadata ≡ handle_file_exists rerouted rule metadata
  unfolding handle_file_exists
  file_exists-rerouted rule metadata = refl

  port_open-rerouted :
      (rule : Rule) (metadata : Metadata)
      → handle_port_open h rule metadata ≡ handle_port_open rerouted rule metadata
  unfolding handle_port_open
  port_open-rerouted rule metadata = refl

  handle_shell-rerouted :
      (rule : Rule) (metadata : Metadata)
      → handle_shell h rule metadata ≡ handle_shell rerouted rule metadata
  unfolding handle_shell
  handle_shell-rerouted rule metadata = simp run_process-rerouted

  handler_of-rerouted :
      (rule_type : Text) (rule : Rule) (metadata : Metadata)
      → handler_of rule_type h rule metadata ≡ handler_of rule_type rerouted rule metadata
  unfolding handler_of
  handler_of-rerouted rule_type rule metadata = ground (
    arith,
    handle_command_output_match-rerouted rule metadata,
    handle_package_installed-rerouted rule metadata,
    handle_shell-rerouted rule metadata,
    file_exists-rerouted rule metadata,
    port_open-rerouted rule metadata,
  )

  -- What a command does matters only if the sandbox policy lets the command through: hosts that
  -- agree on the permitted commands, and on all else, evaluate every rule alike.
  pub evaluate-sandboxed : (rule : Rule) (w : World) → evaluate h rule w ≡ evaluate rerouted rule w
  unfolding evaluate
  evaluate-sandboxed rule w = simp handler_of-rerouted
