-- ===== src/Security/Audit.antt =====
-- `log_action` of backend/app/security/audit.py. Its session is its own, so an entry is stored
-- whatever the caller's transaction does; a failure is swallowed.
use compliance_pulse.Prelude.{
  suc, ◌≡◌, refl, ap, Text, Bool, true, false, Option, List, [], ◌∷◌, ◌++◌, if◌then◌else◌,
}
use compliance_pulse.Models.Scanning.{Metadata}
use compliance_pulse.Models.Accounts.{AuditLog}
use compliance_pulse.Session.World.{World}
use compliance_pulse.Session.Monad.{M, ok, ◌>>=◌, modify, utcnow, fresh_id}
use compliance_pulse.Security.Masking.{Request, sanitize_metadata, get_client_context}

append_audit : AuditLog → World → World
append_audit entry w = if w.audit_up then record w { audit = w.audit ++ entry ∷ [] } else w

-- `user` and `org` are the text of their `id`, if they are given.
unfoldable pub log_action :
    Text
    → Option Text
    → Option Text
    → Option Request
    → Option Text
    → Option Text
    → Option Metadata
    → M (Unit {0})
unfolding append_audit utcnow fresh_id
log_action action_type resource_type resource_id request user org metadata = do
  let (ip_address, user_agent) = get_client_context request
  timestamp ← utcnow
  id ← fresh_id
  modify (
      append_audit (record {
        id = id;
        timestamp = timestamp;
        user_id = user;
        organization_id = org;
        action_type = action_type;
        resource_type = resource_type;
        resource_id = resource_id;
        ip_address = ip_address;
        user_agent = user_agent;
        metadata_json = sanitize_metadata metadata;
      }))

append_audit-audit :
    (entry : AuditLog) (w : World)
    → append_audit entry w
      ≡ record w { audit = if w.audit_up then w.audit ++ entry ∷ [] else w.audit }
unfolding append_audit
append_audit-audit entry w = appended_if w.audit_up
  where
    appended_if :
        (b : Bool)
        → (if b then record w { audit = w.audit ++ entry ∷ [] } else w)
          ≡ record w { audit = if b then w.audit ++ entry ∷ [] else w.audit }
    appended_if true = refl
    appended_if false = refl

-- Logging does not raise, and changes the audit log, the keys and the clock alone.
pub log_action-quiet :
    (action_type : Text) (resource_type resource_id : Option Text) (request : Option Request)
    (user org : Option Text) (metadata : Option Metadata) (w : World)
    → (entries : List AuditLog) × (log_action action_type resource_type resource_id request user org
          metadata w
        ≡ (ok tt, record w { audit = entries; reads = suc w.reads; next_id = suc w.next_id }))
unfolding log_action utcnow fresh_id
log_action-quiet action_type resource_type resource_id request user org metadata w =
    (_, ap (λ (v : World). (ok tt, v)) (append_audit-audit _ _))
