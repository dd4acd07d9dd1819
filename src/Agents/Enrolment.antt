-- ===== src/Agents/Enrolment.antt =====
-- `agent_register`, `agent_auth` and `agent_heartbeat` of backend/app/api/agent_machine.py
use compliance_pulse.Prelude.{
  ℕ, ◌+◌, Text, Bool, Option, none, some, List, [], ◌∷◌, ◌++◌, codes, ◌&&◌, ◌==◌, first_by, or_else,
  text_eq, length, update_where,
}
use compliance_pulse.Models.Scanning.{Time, Column, encoded, Status}
use compliance_pulse.Models.Accounts.{Organization}
use compliance_pulse.Models.Agents.{Agent, AgentJob, online}
use compliance_pulse.Session.World.{World, select_rows}
use compliance_pulse.Session.Monad.{
  M, http, lift, or_raise, pure, gets, modify, utcnow, fresh_id, draw, ◌>>=◌, ◌>>◌,
}
use compliance_pulse.Worker.{is_pending, is_running}
use compliance_pulse.Agents.Tokens.{get_agent_by_token, bearer_token, enter, token_row, lifetime}

pub record AgentRegisterRequest : Type 0 where
  pub uuid : Option Text
  pub hostname : Text
  pub os : Text
  pub version : Text
  pub ip : Option Text
  pub tags : List Text

pub record AgentRegisterResponse : Type 0 where
  pub agent_id : ℕ
  pub uuid : Text
  pub token : Text
  pub expires_at : Time

pub record AgentAuthRequest : Type 0 where
  pub uuid : Text
  pub hostname : Text
  pub os : Option Text
  pub version : Option Text

pub record AgentAuthResponse : Type 0 where
  pub token : Text
  pub expires_at : Time

pub record AgentHeartbeatRequest : Type 0 where
  pub ip : Option Text
  pub version : Option Text
  pub tags : List Text

-- The answer to a heartbeat, beside `"ok": True`
pub record JobCounts : Type 0 where
  pub pending : ℕ
  pub running : ℕ

-- `a or b` of two values that may be missing
abbrev pub some_or : Option Text → Option Text → Option Text
some_or none old = old
some_or (some []) old = old
some_or (some (c ∷ new)) old = some (c ∷ new)

abbrev first_agent : List Agent → Option Agent
first_agent [] = none
first_agent (agent ∷ agents) = some agent

-- `session.exec(select(Agent).where(Agent.uuid == uuid)).first()`
abbrev pub find_uuid : Text → World → Option Agent
find_uuid uuid w =
    first_agent (select_rows (λ a. a.organization_id) (λ a. text_eq a.uuid uuid) w w.agents)

abbrev pub save_agent : Agent → World → World
save_agent agent w = record w {
  agents = update_where (λ a. a.id == agent.id) (λ _. agent) w.agents;
}

abbrev add_agent : Agent → World → World
add_agent agent w = record w { agents = w.agents ++ agent ∷ [] }

-- `secrets.token_urlsafe(32)`, good for 24 hours from now, is stored for the agent.
unfoldable pub issue_token : ℕ → ℕ → M (Text × Time)
issue_token agent_id organization_id = do
  token_value ← draw
  now ← utcnow
  created_at ← utcnow
  let token = token_row token_value agent_id organization_id (now + lifetime) created_at
  modify (λ w. record w { agent_tokens = w.agent_tokens ++ token ∷ [] })
  pure (token_value, now + lifetime)

-- `.order_by(Organization.id).first()`
abbrev pub first_organization : List Organization → Option Organization
first_organization = first_by (λ (o : Organization). o.id)

-- `org.id if org else 1`
abbrev pub id_or_one : Option Organization → ℕ
id_or_one none = 1
id_or_one (some org) = org.id

abbrev find_existing : Option Text → World → Option Agent
find_existing none w = none
find_existing (some []) w = none
find_existing (some (c ∷ uuid)) w = find_uuid (c ∷ uuid) w

abbrev uuid_or_draw : Option Text → M Text
uuid_or_draw none = draw
uuid_or_draw (some []) = draw
uuid_or_draw (some (c ∷ uuid)) = pure (c ∷ uuid)

abbrev new_agent : ℕ → ℕ → Text → AgentRegisterRequest → Time → Time → Agent
new_agent id org_id uuid payload first_seen last_seen = record {
  id = id;
  organization_id = org_id;
  uuid = uuid;
  hostname = payload.hostname;
  ip = payload.ip;
  os = some payload.os;
  version = some payload.version;
  first_seen = first_seen;
  last_seen = last_seen;
  status = online;
  tags_json = encoded payload.tags;
}

-- The agent is made, or brought up to date; an agent that is known keeps its tags.
unfoldable pub upsert_agent : ℕ → AgentRegisterRequest → Option Agent → M Agent
upsert_agent org_id payload none = do
  uuid ← uuid_or_draw payload.uuid
  first_seen ← utcnow
  last_seen ← utcnow
  id ← fresh_id
  let agent = new_agent id org_id uuid payload first_seen last_seen
  modify (add_agent agent)
  pure agent
upsert_agent org_id payload (some old) = do
  last_seen ← utcnow
  let agent = record old {
    hostname = payload.hostname;
    ip = some_or payload.ip old.ip;
    os = some_or (some payload.os) old.os;
    version = some_or (some payload.version) old.version;
    status = online;
    last_seen = last_seen;
  }
  modify (save_agent agent)
  pure agent

unfoldable pub agent_register : AgentRegisterRequest → M AgentRegisterResponse
agent_register payload = do
  org_id ← gets (λ w. id_or_one (first_organization w.organizations))
  modify (enter org_id)
  found ← gets (find_existing payload.uuid)
  agent ← upsert_agent org_id payload found
  (token, expires_at) ← issue_token agent.id org_id
  pure (record { agent_id = agent.id; uuid = agent.uuid; token = token; expires_at = expires_at })

unfoldable pub agent_auth : AgentAuthRequest → M AgentAuthResponse
agent_auth payload = do
  found ← gets (find_uuid payload.uuid)
  old ← lift (or_raise (http 404 (codes "agent not found")) found)
  last_seen ← utcnow
  let agent = record old {
    hostname = or_else payload.hostname old.hostname;
    os = some_or payload.os old.os;
    version = some_or payload.version old.version;
    last_seen = last_seen;
    status = online;
  }
  modify (save_agent agent)
  (token, expires_at) ← issue_token agent.id agent.organization_id
  pure (record { token = token; expires_at = expires_at })

-- `if payload.tags: agent.tags_json = ...`
abbrev tags_or : List Text → Column (List Text) → Column (List Text)
tags_or [] old = old
tags_or (tag ∷ tags) old = encoded (tag ∷ tags)

abbrev pub jobs_of : ℕ → (Status → Bool) → World → List AgentJob
jobs_of agent_id test w =
    select_rows (λ j. j.organization_id) (λ j. j.agent_id == agent_id && test j.status) w
      w.agent_jobs

unfoldable pub agent_heartbeat : Option Text → Option Text → AgentHeartbeatRequest → M JobCounts
agent_heartbeat authorization x_agent_auth payload = do
  old ← get_agent_by_token (bearer_token authorization x_agent_auth)
  last_seen ← utcnow
  let agent = record old {
    last_seen = last_seen;
    status = online;
    ip = some_or payload.ip old.ip;
    version = some_or payload.version old.version;
    tags_json = tags_or payload.tags old.tags_json;
  }
  modify (save_agent agent)
  waiting ← gets (jobs_of agent.id is_pending)
  active ← gets (jobs_of agent.id is_running)
  pure (record { pending = length waiting; running = length active })
