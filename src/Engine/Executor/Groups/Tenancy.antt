-- ===== src/Engine/Executor/Groups/Tenancy.antt =====
-- `execute_job` of backend/engine/scan_executor.py and the organizations.
use compliance_pulse.Prelude.{
  ℕ, zero, suc, ◌<◌, ◌≡◌, refl, sym, ◌∙◌, ap, inl, inr, arith, codes, Text, Bool, true, Option,
  none, some, List, All, All-map, All-where_rows, where_rows, where_rows-All, first_where-passes,
  ◌==◌, Bool-cases,
}
use compliance_pulse.Models.Scanning.{Rule, RuleGroup, ScanJob}
use compliance_pulse.Session.World.{World, sees, select_rows, get_row}
use compliance_pulse.Session.Monad.{
  Result, ok, value_error, lift, or_raise, Error, ok-injective, >>=-eq-ok,
}
use compliance_pulse.Engine.Executor.Steps.{Executor, ScanInput, ScanExecutionResult, run_for_rules}
use compliance_pulse.Engine.Executor.Groups.{
  group_rules, check_owner, find_group, group_input, group_tags, run_owned, run_group,
  run_for_group, execute_job,
}

sees-own : (i row : ℕ) → 0 < i → sees (some i) row ≡ true → row ≡ i
unfolding sees
sees-own zero row pos h = absurd (omega arith)
sees-own (suc o) row pos h = ground (arith, h)

-- The rules that a tenant's session selects are the tenant's.
group_rules-own :
    (group : RuleGroup) (w : World) (i : ℕ)
    → w.organization_id ≡ some i
    → 0 < i
    → All (λ (r : Rule). r.organization_id ≡ i) (group_rules group w)
unfolding group_rules select_rows
group_rules-own group w i e pos =
    All-where_rows (λ (r : Rule). r.organization_id ≡ i) _ _
      (All-map
        (λ (r : Rule) h.
          sees-own i r.organization_id pos (ap (λ o. sees o r.organization_id) (sym e) ∙ h))
        _ (where_rows-All (λ (r : Rule). sees w.organization_id r.organization_id) w.rules))

get_row-key :
    {A : Type 0} (org_of : A → ℕ) (is_key : A → Bool) (w : World) (rows : List A) {a : A}
    → get_row org_of is_key w rows ≡ some a
    → is_key a ≡ true
unfolding get_row
get_row-key org_of is_key w rows h = elim (Bool-cases w.get_filtered) [
  | inl e ↦
      first_where-passes is_key (where_rows (λ r. sees w.organization_id (org_of r)) rows)
        (ground (arith, h, e))
  | inr e ↦ first_where-passes is_key rows (ground (arith, h, e))
]

or_raise-ok : {A : Type 0} (e : Error) (o : Option A) {a : A} → or_raise e o ≡ ok a → o ≡ some a
or_raise-ok e none h = absurd (cc)
or_raise-ok e (some b) h = ap some (ok-injective h)

key-eq : (i k : ℕ) → (i == k) ≡ true → i ≡ k
key-eq i k h = ground arith

check_owner-ok :
    (x : Executor) (group : RuleGroup) {u : Unit {0}}
    → check_owner x group ≡ ok u
    → group.organization_id ≡ x.organization_id
check_owner-ok x group h = ground arith

-- What a job's scan runs, and for whom.
pub record RunsOwn (x : Executor) (job : ScanJob) (w v : World) (r : ScanExecutionResult)
    : Type 0 where
  pub group : RuleGroup
  pub input : ScanInput
  pub job_own : job.organization_id ≡ x.organization_id
  pub group_own : group.organization_id ≡ x.organization_id
  pub rules_own : All (λ (rule : Rule). rule.organization_id ≡ x.organization_id) input.rules
  pub group_found : group.id ≡ job.group_id
  pub group_passed : input.group ≡ some group
  pub ran : run_for_rules x input w ≡ (ok r, v)

run_owned-RunsOwn :
    (x : Executor) (job : ScanJob) (group : RuleGroup) (w v : World) (r : ScanExecutionResult)
    → w.organization_id ≡ some x.organization_id
    → 0 < x.organization_id
    → job.organization_id ≡ x.organization_id
    → group.organization_id ≡ x.organization_id
    → group.id ≡ job.group_id
    → run_owned x (some job.hostname) none job.triggered_by group w ≡ (ok r, v)
    → RunsOwn x job w v r
unfolding run_owned
run_owned-RunsOwn x job group w v r e pos jo go key h =
    let input = group_input (some job.hostname) none job.triggered_by group (group_rules group w) in
    let (tags, u, loaded, h') =
      >>=-eq-ok (lift (group_tags group)) (λ t. run_for_rules x (input t)) w h in
    record {
      group = group;
      input = input tags;
      job_own = jo;
      group_own = go;
      rules_own = group_rules-own group w x.organization_id e pos;
      group_found = key;
      group_passed = refl;
      ran =
          ap (run_for_rules x (input tags)) (ap (λ (p : Result (List Text) × World). p.1) loaded)
          ∙ h';
    }

run_for_group-RunsOwn :
    (x : Executor) (job : ScanJob) (w v : World) (r : ScanExecutionResult)
    → w.organization_id ≡ some x.organization_id
    → 0 < x.organization_id
    → job.organization_id ≡ x.organization_id
    → run_for_group x job.group_id (some job.hostname) none job.triggered_by w ≡ (ok r, v)
    → RunsOwn x job w v r
unfolding run_for_group run_group
run_for_group-RunsOwn x job w v r e pos jo h =
    let missing = value_error (codes "Rule group not found") in
    let (group, u, found, h1) =
      >>=-eq-ok (lift (or_raise missing (find_group job.group_id w)))
        (run_group x (some job.hostname) none job.triggered_by) w h in
    let (unit, u', owned, h2) =
      >>=-eq-ok (lift (check_owner x group))
        (λ _. run_owned x (some job.hostname) none job.triggered_by group) u h1 in
    let same =
      ap (λ (p : Result RuleGroup × World). p.1) found
      ∙ ap (λ (p : Result (Unit {0}) × World). p.1) owned in
    run_owned-RunsOwn x job group w v r e pos jo
      (check_owner-ok x group (ap (λ (p : Result (Unit {0}) × World). p.0) owned))
      (key-eq group.id job.group_id (
        get_row-key (λ (g : RuleGroup). g.organization_id) (λ g. g.id == job.group_id) w w.groups
          (or_raise-ok missing (find_group job.group_id w)
            (ap (λ (p : Result RuleGroup × World). p.0) found))))
      (ap (run_owned x (some job.hostname) none job.triggered_by group) same ∙ h2)

-- On a session of the executor's organization, which is not 0, a job that the executor runs to its
-- end belongs to that organization, and so do the group that it names and every rule that is run;
-- what it returns is what the scan of these rules returns.
pub execute_job-RunsOwn :
    (x : Executor) (job : ScanJob) (w v : World) (r : ScanExecutionResult)
    → w.organization_id ≡ some x.organization_id
    → 0 < x.organization_id
    → execute_job x job w ≡ (ok r, v)
    → RunsOwn x job w v r
unfolding execute_job
execute_job-RunsOwn x job w v r e pos h =
    elim (Bool-cases (job.organization_id == x.organization_id)) [
      | inl own ↦
          run_for_group-RunsOwn x job w v r e pos (key-eq job.organization_id x.organization_id own)
            (rw own at h)
      | inr foreign ↦ absurd (ground (arith, foreign, h))
    ]
