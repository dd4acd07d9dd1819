-- ===== src/Agents/Tokens.antt =====
-- `_bearer_token` and `_get_agent_by_token` of backend/app/api/agent_machine.py
use compliance_pulse.Prelude.{
  ℕ, ◌*◌, Text, false, Option, none, some, [], ◌∷◌, codes, ◌==◌, ltb, text_eq, if◌then◌else◌,
}
use compliance_pulse.Models.Scanning.{Time}
use compliance_pulse.Models.Agents.{Agent, AgentAuthToken}
use compliance_pulse.Session.World.{World, get_row}
use compliance_pulse.Session.Monad.{M, Error, http, raise, pure, gets, modify, utcnow, ◌>>=◌, ◌>>◌}
use compliance_pulse.Security.RateLimit.{second}
use compliance_pulse.Security.ApiKeys.{bearer}

-- `request.headers.get("x-agent-auth", "")`
abbrev header_or : Option Text → Text
header_or none = []
header_or (some header) = header

abbrev bearer_or : Option Text → Option Text → Text
bearer_or (some token) x_agent_auth = token
bearer_or none x_agent_auth = header_or x_agent_auth

unfoldable pub bearer_token : Option Text → Option Text → Text
bearer_token authorization x_agent_auth = bearer_or (bearer authorization) x_agent_auth

abbrev pub invalid_token : Error
invalid_token = http 401 (codes "invalid token")

abbrev pub find_token : Text → World → Option AgentAuthToken
find_token token w = get_row (λ t. t.organization_id) (λ t. text_eq t.token token) w w.agent_tokens

abbrev pub find_agent : ℕ → World → Option Agent
find_agent agent_id w = get_row (λ a. a.organization_id) (λ a. a.id == agent_id) w w.agents

-- `session.info["organization_id"] = ...`
abbrev pub enter : ℕ → World → World
enter organization_id w = record w { organization_id = some organization_id }

abbrev pub agent_of : AgentAuthToken → Option Agent → M Agent
agent_of rec none = raise invalid_token
agent_of rec (some agent) = do modify (enter rec.organization_id); pure agent

-- The token's row, unless it is revoked or out of time; the clock is read for one that is not revoked.
abbrev pub check_expiry : AgentAuthToken → Time → M Agent
check_expiry rec now =
    if ltb rec.expires_at now
    then raise invalid_token
    else (gets (find_agent rec.agent_id) >>= agent_of rec)

abbrev pub check_agent_token : Option AgentAuthToken → M Agent
check_agent_token none = raise invalid_token
check_agent_token (some rec) =
    if rec.revoked then raise invalid_token else (utcnow >>= check_expiry rec)

unfoldable pub get_agent_by_token : Text → M Agent
get_agent_by_token [] = raise (http 401 (codes "missing token"))
get_agent_by_token (c ∷ token) = gets (find_token (c ∷ token)) >>= check_agent_token

abbrev pub token_row : Text → ℕ → ℕ → Time → Time → AgentAuthToken
token_row token agent_id organization_id expires_at created_at = record {
  token = token;
  agent_id = agent_id;
  organization_id = organization_id;
  expires_at = expires_at;
  revoked = false;
  created_at = created_at;
}

-- A token is good for 24 hours.
unfoldable pub lifetime : ℕ
lifetime = 24 * 60 * 60 * second
