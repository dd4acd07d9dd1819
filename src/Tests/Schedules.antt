-- ===== src/Tests/Schedules.antt =====
-- The theorems on the requests for schedules and on the two rule engines, at small inputs.
use compliance_pulse.Prelude.{
  ℕ, ℤ, pos, negsuc, ◌≡◌, refl, arith, true, Option, some, none, List, [], ◌∷◌, codes, lower, strip,
}
use compliance_pulse.Services.Schedules.{ScheduleCreate}
use compliance_pulse.Services.Schedules.Spacing.{
  ScheduleRequest, create, update, delete, AreSpaced, after_requests, after_requests-AreSpaced,
}
use compliance_pulse.Services.RuleExecution.{Shell, completed, execute_rule}
use compliance_pulse.Services.RuleExecution.Agreement.{passed_of, execute_rule-evaluate_expectation}
use compliance_pulse.Engine.RuleEngine.{evaluate_expectation}
use compliance_pulse.Tests.{world, rule}

-- A database that stores the key of any group
abbrev any_group : ℤ → Option ℕ
any_group (pos n) = some n
any_group (negsuc n) = none

abbrev payload : ScheduleCreate
payload = record {
  name = codes "n";
  group_id = 7;
  frequency = codes "custom";
  interval_minutes = some (pos 2);
  enabled = true;
}

abbrev requests : List ScheduleRequest
requests =
    create 1 payload
    ∷ update 9 (
        (codes "name", codes "m")
        ∷ (codes "group_id", codes "7")
        ∷ (codes "interval_minutes", codes "1")
        ∷ [])
    ∷ delete 9
    ∷ []

after_requests-AreSpaced_example : AreSpaced (after_requests any_group requests world)
after_requests-AreSpaced_example =
    after_requests-AreSpaced any_group requests world (omega arith, tt)

-- A shell on which every command finishes with the same output
abbrev shell : Shell
shell = record {
  timeout = 30;
  run = λ command seconds. completed (some (codes "no way")) none (pos 0);
}

execute_rule-evaluate_expectation_example :
    passed_of (execute_rule shell rule)
    ≡ evaluate_expectation rule (codes "no way") (codes "e") (pos 0)
unfolding lower strip
execute_rule-evaluate_expectation_example =
    execute_rule-evaluate_expectation shell rule (codes "no way") none (codes "e") (pos 0) refl refl
      refl refl refl
