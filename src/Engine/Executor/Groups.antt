-- ===== src/Engine/Executor/Groups.antt =====
-- `run_for_group` and `execute_job` of backend/engine/scan_executor.py.
pub mod Tenancy
use compliance_pulse.Prelude.{
  ℕ, Text, Bool, true, false, Option, none, some, List, [], ◌∷◌, codes, option_or, is_empty,
  text_eq, text_mem, ◌==◌, if◌then◌else◌,
}
use compliance_pulse.Models.Scanning.{Rule, RuleGroup, ScanJob, loads}
use compliance_pulse.Session.World.{World, select_rows, get_row}
use compliance_pulse.Session.Monad.{
  M, Result, ok, err, value_error, other_error, lift, gets, or_raise, raise, ◌>>=◌, ◌>>◌, pure,
}
use compliance_pulse.Engine.Executor.Steps.{Executor, ScanInput, ScanExecutionResult, run_for_rules}

abbrev or_no_ids : Option (List Text) → List Text
or_no_ids none = []
or_no_ids (some ids) = ids

-- `_group_rule_ids`: ids that are no JSON count as none.
unfoldable pub group_rule_ids : RuleGroup → List Text
group_rule_ids group = or_no_ids (loads [] group.rule_ids_json)

abbrev rule_test : RuleGroup → List Text → Rule → Bool
rule_test group [] rule = text_eq rule.benchmark_id group.benchmark_id
rule_test group (id ∷ ids) rule = text_mem rule.id (id ∷ ids)

-- The rules that the group names, or all of its benchmark's if it names none.
unfoldable pub group_rules : RuleGroup → World → List Rule
group_rules group w =
    select_rows (λ r. r.organization_id) (rule_test group (group_rule_ids group)) w w.rules

-- `ip or group.default_ip`
abbrev ip_or : Option Text → Option Text → Option Text
ip_or none default = default
ip_or (some []) default = default
ip_or (some (c ∷ ip)) default = some (c ∷ ip)

abbrev pub check_owner : Executor → RuleGroup → Result (Unit {0})
check_owner x group =
    if group.organization_id == x.organization_id
    then ok tt
    else err (value_error (codes "Unauthorized access to group"))

abbrev pub find_group : ℕ → World → Option RuleGroup
find_group group_id w = get_row (λ g. g.organization_id) (λ g. g.id == group_id) w w.groups

abbrev group_input :
    Option Text → Option Text → Text → RuleGroup → List Rule → List Text → ScanInput
group_input hostname ip triggered_by group rules extra_tags = record {
  hostname = option_or hostname group.default_hostname;
  ip = ip_or ip group.default_ip;
  benchmark_id = group.benchmark_id;
  rules = rules;
  triggered_by = triggered_by;
  group = some group;
  extra_tags = extra_tags;
}

abbrev group_tags : RuleGroup → Result (List Text)
group_tags group = or_raise (other_error (codes "JSONDecodeError")) (loads [] group.tags_json)

-- The part of `run_for_group` behind its two checks.
unfoldable pub run_owned :
    Executor → Option Text → Option Text → Text → RuleGroup → M ScanExecutionResult
run_owned x hostname ip triggered_by group = do
  rules ← gets (group_rules group)
  extra_tags ← lift (group_tags group)
  run_for_rules x (group_input hostname ip triggered_by group rules extra_tags)

-- The part of `run_for_group` behind the lookup.
unfoldable pub run_group :
    Executor → Option Text → Option Text → Text → RuleGroup → M ScanExecutionResult
unfolding run_owned
run_group x hostname ip triggered_by group = do
  lift (check_owner x group)
  run_owned x hostname ip triggered_by group

unfoldable pub run_for_group :
    Executor → ℕ → Option Text → Option Text → Text → M ScanExecutionResult
run_for_group x group_id hostname ip triggered_by = do
  found ← gets (find_group group_id)
  group ← lift (or_raise (value_error (codes "Rule group not found")) found)
  run_group x hostname ip triggered_by group

unfoldable pub execute_job : Executor → ScanJob → M ScanExecutionResult
execute_job x job =
    if job.organization_id == x.organization_id
    then run_for_group x job.group_id (some job.hostname) none job.triggered_by
    else raise (value_error (codes "Job organization mismatch"))
