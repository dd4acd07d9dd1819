-- ===== src/Tests/Agents.antt =====
-- The theorems on the agents' interface, at small inputs.
use compliance_pulse.Prelude.{
  ℕ, ◌≡◌, refl, arith, none, some, List, true, [], ◌∷◌, codes, first_by, first_where, text_eq,
  update_where, where_rows,
}
use compliance_pulse.Models.Scanning.{flag, text, encoded, pending}
use compliance_pulse.Models.Agents.{Agent, AgentJob, AgentResultUpload, online}
use compliance_pulse.Session.World.{World, get_row, sees, select_rows}
use compliance_pulse.Session.Monad.{ok, draw, utcnow}
use compliance_pulse.Agents.Tokens.{get_agent_by_token, lifetime}
use compliance_pulse.Agents.Enrolment.{issue_token}
use compliance_pulse.Agents.Jobs.{AgentJobPayload, next_for, hydrate}
use compliance_pulse.Agents.Uploads.{Intake, result_for}
use compliance_pulse.Agents.Access.{
  IsAdmitted, get_agent_by_token-IsAdmitted, issue_token-get_agent_by_token,
}
use compliance_pulse.Agents.Dispatch.{IsDispatched, next_for-IsDispatched}
use compliance_pulse.Agents.Once.{
  Contact, ask, upload, AreDifferent, handed_out, handed_out-AreDifferent,
}
use compliance_pulse.Agents.Accepted.{IsSettled, result_for-IsSettled}
use compliance_pulse.Tests.{world}

abbrev agent : Agent
agent = record {
  id = 3;
  organization_id = 1;
  uuid = codes "u";
  hostname = codes "h";
  ip = none;
  os = none;
  version = none;
  first_seen = 0;
  last_seen = 0;
  status = online;
  tags_json = encoded [];
}

abbrev waiting : ℕ → ℕ → AgentJob
waiting id created_at = record {
  id = id;
  organization_id = 1;
  agent_id = 3;
  benchmark_id = codes "b";
  rules_json = encoded [];
  created_at = created_at;
  status = pending;
  dispatched_at = none;
  completed_at = none;
}

-- An agent with two waiting jobs, the younger one stored first
abbrev agent_world : World
agent_world = record world { agents = agent ∷ []; agent_jobs = waiting 5 20 ∷ waiting 6 10 ∷ [] }

abbrev with_token : World
with_token = (issue_token 3 1 agent_world).1

get_agent_by_token-IsAdmitted_example :
    IsAdmitted
      (codes "abcdefghijklmnop")
      with_token
      agent
      (get_agent_by_token (codes "abcdefghijklmnop") with_token).1
unfolding get_agent_by_token get_row issue_token draw utcnow first_where where_rows text_eq lifetime
get_agent_by_token-IsAdmitted_example =
    get_agent_by_token-IsAdmitted (codes "abcdefghijklmnop") with_token
      (get_agent_by_token (codes "abcdefghijklmnop") with_token).1 agent refl

issue_token-get_agent_by_token_example :
    (get_agent_by_token (codes "abcdefghijklmnop") with_token).0 ≡ ok agent
unfolding issue_token draw utcnow lifetime sees get_row first_where where_rows
issue_token-get_agent_by_token_example =
    issue_token-get_agent_by_token 3 1 (codes "abcdefghijklmnop") 86400000100 agent_world with_token
      with_token agent refl tt refl refl refl (omega arith) refl

abbrev first_payload : AgentJobPayload
first_payload = record { id = 6; benchmark_id = codes "b"; rules = [] }

abbrev after_first : World
after_first = (next_for agent agent_world).1

next_for-IsDispatched_example : IsDispatched agent first_payload agent_world after_first
unfolding next_for first_by select_rows where_rows utcnow hydrate
next_for-IsDispatched_example =
    next_for-IsDispatched agent agent_world after_first first_payload refl

abbrev intake : Intake
intake = record {
  percent = λ a b. 50;
  hundredths = λ score. 0;
  column_text = λ v. ok none;
  dumps = λ v. encoded [];
}

abbrev results : AgentResultUpload
results = record {
  status = codes "completed";
  score = none;
  results =
      ((codes "id", text (codes "r")) ∷ (codes "passed", flag true) ∷ [])
      ∷ ((codes "severity", text (codes "HIGH")) ∷ [])
      ∷ [];
}

result_for-IsSettled_example :
    IsSettled intake 6 results agent agent_world (result_for intake 6 results agent agent_world)
result_for-IsSettled_example = result_for-IsSettled intake 6 results agent agent_world

abbrev contacts : List Contact
contacts =
    ask (some 1) agent
    ∷ upload (some 1) 6 results agent
    ∷ ask (some 1) agent
    ∷ ask (some 1) agent
    ∷ []

both_handed_out :
    handed_out intake (ask (some 1) agent ∷ ask (some 1) agent ∷ ask none agent ∷ []) agent_world
    ≡ 6 ∷ 5 ∷ []
unfolding next_for first_by select_rows where_rows utcnow hydrate update_where sees
both_handed_out = refl

handed_out-AreDifferent_example : AreDifferent (handed_out intake contacts agent_world)
handed_out-AreDifferent_example = handed_out-AreDifferent intake contacts agent_world
