-- ===== src/Tests/Services.antt =====
-- The theorems on schedules and signed values, at small inputs.
use compliance_pulse.Prelude.{
  ◌≡◌, ◌↔◌, refl, arith, some, none, none, true, false, [], ◌∷◌, codes, Text, pos, first_where,
  where_rows,
}
use compliance_pulse.Services.Schedules.{ScheduleCreate, create_schedule}
use compliance_pulse.Services.Schedules.Creation.{CreateOutcome, create_schedule-outcome}
use compliance_pulse.Auth.Signing.{Signer, get_signature, sign, unsign, signed_value}
use compliance_pulse.Auth.Signing.RoundTrip.{IsClean, unsign_iff}
use compliance_pulse.Models.Accounts.{UserOrganization, admin, member}
use compliance_pulse.Auth.Access.{
  Accounts, RequestState, authorize, get_session_data, get_optional_user,
  require_authenticated_user, get_current_organization, first_joined, get_current_membership,
  require_role, role_weight,
}
use compliance_pulse.Auth.Access.Guarded.{IsAuthorized, authorize-IsAuthorized}
use compliance_pulse.Tests.{world}

abbrev request : ScheduleCreate
request = record {
  name = codes "n";
  group_id = 7;
  frequency = codes "custom";
  interval_minutes = some (pos 2);
  enabled = true;
}

create_schedule-outcome_example : CreateOutcome 1 request world (create_schedule 1 request world)
create_schedule-outcome_example = create_schedule-outcome 1 request world

-- A signer whose signature is one letter for an empty value and another for all else
abbrev letter : Text → Text
letter [] = codes "e"
letter (c ∷ cs) = codes "f"

abbrev signer : Signer
signer = record { secret_key = codes "k"; sep = b'.'; digest = λ key value. letter value }

letter-IsClean : IsClean signer
unfolding get_signature
letter-IsClean [] = ((refl, omega arith), tt)
letter-IsClean (c ∷ cs) = ((refl, omega arith), tt)

unsign_iff_example :
    (unsign signer (codes "ab.f") ≡ signed_value (codes "ab"))
    ↔ (codes "ab.f" ≡ sign signer (codes "ab"))
unsign_iff_example = unsign_iff signer (codes "ab.f") (codes "ab") letter-IsClean

abbrev admin_of_one : UserOrganization
admin_of_one = record { user_id = 4; organization_id = 1; role = admin; joined_at = 0 }

abbrev accounts : Accounts
accounts = record {
  users =
      record {
        id = 4;
        email = codes "e";
        hashed_password = codes "h";
        is_active = true;
        is_verified = true;
        created_at = 0;
        updated_at = 0;
      }
      ∷ [];
  organizations =
      record { id = 1; name = codes "o"; slug = codes "o"; created_at = 0; updated_at = 0 } ∷ [];
  memberships = admin_of_one ∷ [];
}

abbrev signed_in : RequestState
signed_in = record {
  session_data = some (record {
    user_id = some 4;
    organization_id = none;
    csrf_token = codes "t";
    created_at = 0;
    expires_at = 1;
  });
  session_dirty = false;
  current_user = none;
  current_organization = none;
  current_membership = none;
}

authorize-IsAuthorized_example : IsAuthorized accounts member signed_in admin_of_one
unfolding authorize get_session_data get_optional_user require_authenticated_user
    get_current_organization first_joined get_current_membership require_role role_weight
    first_where where_rows
authorize-IsAuthorized_example =
    authorize-IsAuthorized accounts member signed_in _ admin_of_one refl refl
