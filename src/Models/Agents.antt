-- ===== src/Models/Agents.antt =====
-- The remote agents' tables of backend/app/models/domain.py.
use compliance_pulse.Prelude.{ℕ, Text, Bool, Option, List}
use compliance_pulse.Models.Scanning.{Time, Column, Status, Metadata}

pub data Presence : Type 0 where
  offline online : Presence

pub record Agent : Type 0 where
  pub id : ℕ
  pub organization_id : ℕ
  pub uuid : Text
  pub hostname : Text
  pub ip : Option Text
  pub os : Option Text
  pub version : Option Text
  pub first_seen : Time
  pub last_seen : Time
  pub status : Presence
  pub tags_json : Column (List Text)

pub record AgentAuthToken : Type 0 where
  pub token : Text
  pub agent_id : ℕ
  pub organization_id : ℕ
  pub expires_at : Time
  pub revoked : Bool
  pub created_at : Time

pub record AgentJob : Type 0 where
  pub id : ℕ
  pub organization_id : ℕ
  pub agent_id : ℕ
  pub benchmark_id : Text
  pub rules_json : Column (List Metadata)
  pub created_at : Time
  pub status : Status
  pub dispatched_at : Option Time
  pub completed_at : Option Time

-- `AgentResultUpload` of backend/app/schemas/agent.py, whose score is held as the JSON number's text
pub record AgentResultUpload : Type 0 where
  pub status : Text
  pub score : Option Text
  pub results : List Metadata

pub record AgentResult : Type 0 where
  pub id : ℕ
  pub organization_id : ℕ
  pub agent_job_id : ℕ
  pub raw_json : Column AgentResultUpload
  pub html_report : Option Text
  pub pdf_report : Option Text
  pub status : Text
  pub score : ℕ
  pub created_at : Time
