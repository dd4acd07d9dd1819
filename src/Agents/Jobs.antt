-- ===== src/Agents/Jobs.antt =====
-- `agent_next_job` of backend/app/api/agent_machine.py
use compliance_pulse.Prelude.{
  ℕ, Text, Option, none, some, List, [], ◌∷◌, codes, ◌==◌, first_by, text_eq, update_where, or_else,
  pos,
}
use compliance_pulse.Models.Scanning.{
  Time, Column, blank, malformed, encoded, Value, text, number, Metadata, Rule, running, loads,
}
use compliance_pulse.Models.Agents.{Agent, AgentJob}
use compliance_pulse.Session.World.{World, select_rows}
use compliance_pulse.Session.Monad.{
  M, Result, ok, err, other_error, lift, pure, gets, modify, utcnow, ◌>>=◌, ◌>>◌,
}
use compliance_pulse.Models.Values.{value_or}
use compliance_pulse.Agents.Tokens.{get_agent_by_token, bearer_token}
use compliance_pulse.Agents.Enrolment.{jobs_of}
use compliance_pulse.Worker.{is_pending}

pub record AgentJobPayload : Type 0 where
  pub id : ℕ
  pub benchmark_id : Text
  pub rules : List Metadata

-- `.order_by(AgentJob.created_at).first()`
abbrev pub oldest_job : List AgentJob → Option AgentJob
oldest_job = first_by (λ (j : AgentJob). j.created_at)

-- `metadata.get("type") or r.check_type or "shell"`
abbrev type_of : Rule → Metadata → Value
type_of r metadata = value_or (codes "type") metadata (text (or_else r.check_type (codes "shell")))

unfoldable pub rule_item : Rule → Metadata → Metadata
rule_item r metadata =
    (codes "id", text r.id)
    ∷ (codes "title", text r.title)
    ∷ (codes "severity", text r.severity)
    ∷ (codes "description", text r.description)
    ∷ (codes "remediation", text r.remediation)
    ∷ (codes "type", type_of r metadata)
    ∷ (codes "command", text r.command)
    ∷ (codes "expect_type", text r.expect_type)
    ∷ (codes "expect_value", text r.expect_value)
    ∷ (codes "timeout", number (pos r.timeout_seconds))
    ∷ []

abbrev next_item : Rule → Option Metadata → Result (List Metadata) → Result (List Metadata)
next_item r none rest = err (other_error (codes "JSONDecodeError"))
next_item r (some metadata) (ok items) = ok (rule_item r metadata ∷ items)
next_item r (some metadata) (err e) = err e

unfoldable pub rule_items : List Rule → Result (List Metadata)
rule_items [] = ok []
rule_items (r ∷ rules) = next_item r (loads [] r.metadata_json) (rule_items rules)

abbrev pub save_agent_job : AgentJob → World → World
save_agent_job job w = record w {
  agent_jobs = update_where (λ j. j.id == job.id) (λ _. job) w.agent_jobs;
}

-- The rules of a job; a job that names none is given its benchmark's, which are stored with it. The
-- column's default, "[]", names the empty list of rules.
unfoldable pub hydrate : AgentJob → Column (List Metadata) → M (List Metadata)
hydrate job (encoded rules) = pure rules
hydrate job malformed = pure []
hydrate job blank = do
  items ← gets (λ w.
      select_rows (λ (r : Rule). r.organization_id) (λ r. text_eq r.benchmark_id job.benchmark_id) w
        w.rules)
  rules ← lift (rule_items items)
  modify (save_agent_job (record job { rules_json = encoded rules }))
  pure rules

abbrev pub dispatched : AgentJob → Time → AgentJob
dispatched job now = record job { status = running; dispatched_at = some now }

-- `none` is the answer 204.
abbrev pub dispatch : Option AgentJob → M (Option AgentJobPayload)
dispatch none = pure none
dispatch (some old) = do
  now ← utcnow
  let job = dispatched old now
  modify (save_agent_job job)
  rules ← hydrate job job.rules_json
  pure (some (record { id = job.id; benchmark_id = job.benchmark_id; rules = rules }))

-- What follows the check of the token
unfoldable pub next_for : Agent → M (Option AgentJobPayload)
next_for agent = gets (λ w. oldest_job (jobs_of agent.id is_pending w)) >>= dispatch

unfoldable pub agent_next_job : Option Text → Option Text → M (Option AgentJobPayload)
agent_next_job authorization x_agent_auth =
    get_agent_by_token (bearer_token authorization x_agent_auth) >>= next_for
