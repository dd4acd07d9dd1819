-- ===== src/Session/World.antt =====
-- The state behind a database session, and its tenant filter (backend/app/database.py).
use compliance_pulse.Prelude.{
  Text, ℕ, zero, suc, Bool, true, Option, none, some, List, ◌==◌, where_rows, first_where,
  if◌then◌else◌,
}
use compliance_pulse.Models.Scanning.{
  Time, Benchmark, Rule, RuleGroup, Scan, ScanResult, Report, Schedule, ScanJob,
}
use compliance_pulse.Models.Accounts.{AuditLog, Organization, ApiKey}
use compliance_pulse.Models.Agents.{Agent, AgentAuthToken, AgentJob, AgentResult}
use compliance_pulse.Models.Limits.{Store}

-- `clock n` is what the n-th call of `datetime.utcnow()` returns. `get_filtered` says whether the
-- tenant filter also reaches `session.get`, which depends on the ORM's identity map;
-- `random n` is the n-th text that the `secrets` module draws, `hits` the rate limiter's memory;
-- `commits n` and `audit_up` say whether the n-th guarded commit and the audit log's succeed.
pub record World : Type 0 where
  pub organization_id : Option ℕ
  pub get_filtered : Bool
  pub clock : ℕ → Time
  pub reads : ℕ
  pub commits : ℕ → Bool
  pub attempts : ℕ
  pub audit_up : Bool
  pub benchmarks : List Benchmark
  pub rules : List Rule
  pub groups : List RuleGroup
  pub scans : List Scan
  pub results : List ScanResult
  pub reports : List Report
  pub schedules : List Schedule
  pub jobs : List ScanJob
  pub audit : List AuditLog
  pub organizations : List Organization
  pub api_keys : List ApiKey
  pub agents : List Agent
  pub agent_tokens : List AgentAuthToken
  pub agent_jobs : List AgentJob
  pub agent_results : List AgentResult
  pub hits : Store
  pub random : ℕ → Text
  pub draws : ℕ
  pub next_id : ℕ

-- `not organization_id`: no organization, and organization 0, leave a query unfiltered.
unfoldable pub sees : Option ℕ → ℕ → Bool
sees none row_org = true
sees (some zero) row_org = true
sees (some (suc o)) row_org = row_org == suc o

-- `session.exec(select(Model).where(p))` of a tenant-aware model
unfoldable pub select_rows : {A : Type 0} → (A → ℕ) → (A → Bool) → World → List A → List A
unfolding sees
select_rows org_of p w rows =
    where_rows p (where_rows (λ r. sees w.organization_id (org_of r)) rows)

-- `session.get(Model, key)` of a tenant-aware model
unfoldable pub get_row : {A : Type 0} → (A → ℕ) → (A → Bool) → World → List A → Option A
unfolding sees
get_row org_of is_key w rows =
    if w.get_filtered
    then first_where is_key (where_rows (λ r. sees w.organization_id (org_of r)) rows)
    else first_where is_key rows
