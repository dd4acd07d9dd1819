-- ===== src/Models/Accounts.antt =====
-- The accounts, membership, key and audit tables of backend/app/models/domain.py.
use compliance_pulse.Prelude.{ℕ, Text, Bool, Option}
use compliance_pulse.Models.Scanning.{Time, Metadata}

pub data MembershipRole : Type 0 where
  owner admin member : MembershipRole

pub record Organization : Type 0 where
  pub id : ℕ
  pub name : Text
  pub slug : Text
  pub created_at : Time
  pub updated_at : Time

pub record User : Type 0 where
  pub id : ℕ
  pub email : Text
  pub hashed_password : Text
  pub is_active : Bool
  pub is_verified : Bool
  pub created_at : Time
  pub updated_at : Time

pub record UserOrganization : Type 0 where
  pub user_id : ℕ
  pub organization_id : ℕ
  pub role : MembershipRole
  pub joined_at : Time

pub record AuditLog : Type 0 where
  pub id : ℕ
  pub timestamp : Time
  pub user_id : Option Text
  pub organization_id : Option Text
  pub action_type : Text
  pub resource_type : Option Text
  pub resource_id : Option Text
  pub ip_address : Option Text
  pub user_agent : Option Text
  pub metadata_json : Metadata

pub record ApiKey : Type 0 where
  pub id : ℕ
  pub organization_id : Option Text
  pub name : Text
  pub hashed_key : Text
  pub prefix : Text
  pub created_at : Time
  pub last_used_at : Option Time
  pub is_active : Bool
  pub scopes_json : Text
