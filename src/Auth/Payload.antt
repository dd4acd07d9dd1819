-- ===== src/Auth/Payload.antt =====
-- `SessionData.to_json` and `SessionData.from_json` of backend/app/auth/utils.py
use compliance_pulse.Prelude.{
  ℕ, pos, negsuc, ◌≡◌, ◌≢◌, refl, Text, Option, none, some, [], ◌∷◌, codes, lookup, text_eq,
}
use compliance_pulse.Models.Scanning.{Time, Value, null, text, number, flag, other, Metadata}
use compliance_pulse.Session.Monad.{Result, ok, err, value_error, other_error}
use compliance_pulse.Auth.Access.{SessionData}

-- `datetime.isoformat` and `fromisoformat`, `json.dumps` and `loads` of a dictionary; `none` is an
-- exception.
pub record Codec : Type 0 where
  pub isoformat : Time → Text
  pub fromisoformat : Text → Option Time
  pub dumps : Metadata → Text
  pub loads : Text → Option Metadata

-- Both read back what they wrote, and a dictionary is not written as the empty text.
pub record IsCodec (codec : Codec) : Type 0 where
  pub time_read : (t : Time) → codec.fromisoformat (codec.isoformat t) ≡ some t
  pub data_read : (entries : Metadata) → codec.loads (codec.dumps entries) ≡ some entries
  pub full : (entries : Metadata) → codec.dumps entries ≢ []

abbrev id_value : Option ℕ → Value
id_value none = null
id_value (some i) = number (pos i)

unfoldable pub to_json : Codec → SessionData → Text
to_json codec session = codec.dumps (
    (codes "user_id", id_value session.user_id)
    ∷ (codes "organization_id", id_value session.organization_id)
    ∷ (codes "csrf_token", text session.csrf_token)
    ∷ (codes "created_at", text (codec.isoformat session.created_at))
    ∷ (codes "expires_at", text (codec.isoformat session.expires_at))
    ∷ [])

-- `data.get(key)` of an id, for which the store writes a number or null; another value, which Python
-- would carry along, is taken as an error.
abbrev id_of : Option Value → Result (Option ℕ)
id_of none = ok none
id_of (some null) = ok none
id_of (some (number (pos i))) = ok (some i)
id_of (some (number (negsuc i))) = err (other_error (codes "TypeError"))
id_of (some (text t)) = err (other_error (codes "TypeError"))
id_of (some (flag b)) = err (other_error (codes "TypeError"))
id_of (some (other t)) = err (other_error (codes "TypeError"))

-- `data[key]` of a text
abbrev text_of : Option Value → Result Text
text_of none = err (other_error (codes "KeyError"))
text_of (some (text t)) = ok t
text_of (some null) = err (other_error (codes "TypeError"))
text_of (some (number n)) = err (other_error (codes "TypeError"))
text_of (some (flag b)) = err (other_error (codes "TypeError"))
text_of (some (other t)) = err (other_error (codes "TypeError"))

abbrev parsed_time : Option Time → Result Time
parsed_time none = err (value_error (codes "Invalid isoformat string"))
parsed_time (some t) = ok t

abbrev time_of : Codec → Result Text → Result Time
time_of codec (err e) = err e
time_of codec (ok t) = parsed_time (codec.fromisoformat t)

-- The first field that cannot be read is the error.
abbrev session_of :
    Result (Option ℕ)
    → Result (Option ℕ)
    → Result Text
    → Result Time
    → Result Time
    → Result SessionData
session_of (err e) organization csrf created expires = err e
session_of (ok user) (err e) csrf created expires = err e
session_of (ok user) (ok organization) (err e) created expires = err e
session_of (ok user) (ok organization) (ok csrf) (err e) expires = err e
session_of (ok user) (ok organization) (ok csrf) (ok created) (err e) = err e
session_of (ok user) (ok organization) (ok csrf) (ok created) (ok expires) = ok (record {
  user_id = user;
  organization_id = organization;
  csrf_token = csrf;
  created_at = created;
  expires_at = expires;
})

abbrev of_data : Codec → Option Metadata → Result SessionData
of_data codec none = err (value_error (codes "JSONDecodeError"))
of_data codec (some entries) =
    session_of (id_of (lookup (codes "user_id") entries))
      (id_of (lookup (codes "organization_id") entries))
      (text_of (lookup (codes "csrf_token") entries))
      (time_of codec (text_of (lookup (codes "created_at") entries)))
      (time_of codec (text_of (lookup (codes "expires_at") entries)))

unfoldable pub from_json : Codec → Text → Result SessionData
from_json codec payload = of_data codec (codec.loads payload)

id_of-id_value : (i : Option ℕ) → id_of (some (id_value i)) ≡ ok i
id_of-id_value none = refl
id_of-id_value (some i) = refl

pub from_json-to_json :
    (codec : Codec) (session : SessionData)
    → IsCodec codec
    → from_json codec (to_json codec session) ≡ ok session
unfolding from_json to_json lookup text_eq
from_json-to_json codec session laws = rw (laws.data_read _) (
    rw (id_of-id_value session.user_id) (
      rw (id_of-id_value session.organization_id)
        (rw (laws.time_read session.created_at) (rw (laws.time_read session.expires_at) refl))))
