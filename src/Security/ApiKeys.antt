-- ===== src/Security/ApiKeys.antt =====
-- backend/app/security/api_keys.py and the key views of backend/app/schemas/security.py. The table of
-- keys carries no tenant filter.
pub mod Lifecycle
pub mod Revoked
pub mod Scopes
pub mod Verified
use compliance_pulse.Prelude.{
  ℕ, Text, Bool, true, false, Option, none, some, List, [], ◌∷◌, ◌++◌, codes, not, ◌&&◌, ◌==◌,
  is_empty, decimal, map, take, lower, strip, starts_with, split_on, text_eq, where_rows,
  first_where, update_where, if◌then◌else◌,
}
use compliance_pulse.Models.Scanning.{Time, text, Metadata}
use compliance_pulse.Models.Accounts.{ApiKey}
use compliance_pulse.Session.World.{World}
use compliance_pulse.Session.Monad.{
  M, Result, ok, err, http, lift, or_raise, gets, modify, pure, raise, utcnow, fresh_id, draw,
  ◌>>=◌, ◌>>◌,
}
use compliance_pulse.Security.Settings.{SecuritySettings}
use compliance_pulse.Security.RateLimit.{enforce_api_key_limit}
use compliance_pulse.Security.Audit.{log_action}
use compliance_pulse.Security.Masking.{mask_secret}
use compliance_pulse.Engine.Scoring.{sorted_union}
use compliance_pulse.Services.Schedules.{newest_first}

-- The settings and the digest: `hmac_sha256 salt message` is the hexadecimal digest.
pub record Keys : Type 0 where
  pub settings : SecuritySettings
  pub hmac_sha256 : Text → Text → Text

pub record ApiKeyView : Type 0 where
  pub id : ℕ
  pub organization_id : Option Text
  pub name : Text
  pub prefix : Text
  pub created_at : Time
  pub last_used_at : Option Time
  pub is_active : Bool
  pub scopes : List Text

pub record ApiKeyCreateResponse : Type 0 where
  pub id : ℕ
  pub name : Text
  pub prefix : Text
  pub api_key : Text
  pub masked_key : Text

-- `_hash_api_key`
unfoldable pub hash_api_key : Keys → Text → Text
hash_api_key x raw_key = x.hmac_sha256 x.settings.api_key_hash_salt raw_key

-- `",".join(scopes)`
unfoldable pub join_commas : List Text → Text
join_commas [] = []
join_commas (scope ∷ []) = scope
join_commas (scope ∷ next ∷ scopes) = scope ++ b',' ∷ join_commas (next ∷ scopes)

-- `_encode_scopes`
unfoldable pub encode_scopes : List Text → Text
encode_scopes scopes = join_commas (sorted_union scopes [])

-- `_decode_scopes` and `ApiKey.scopes`
unfoldable pub decode_scopes : Text → List Text
decode_scopes scopes = where_rows (λ scope. not (is_empty scope)) (split_on b',' scopes)

-- `ApiKeyView.from_orm`
unfoldable pub key_view : ApiKey → ApiKeyView
key_view obj = record {
  id = obj.id;
  organization_id = obj.organization_id;
  name = obj.name;
  prefix = obj.prefix;
  created_at = obj.created_at;
  last_used_at = obj.last_used_at;
  is_active = obj.is_active;
  scopes = decode_scopes obj.scopes_json;
}

-- `ApiKeyCreateResponse.from_pair`
unfoldable pub create_response : Text → ApiKey → ApiKeyCreateResponse
create_response api_key key = record {
  id = key.id;
  name = key.name;
  prefix = key.prefix;
  api_key = api_key;
  masked_key = mask_secret api_key 4;
}

unfoldable pub list_keys : M (List ApiKeyView)
list_keys = gets (λ w. map key_view (newest_first (λ (k : ApiKey). k.created_at) w.api_keys))

abbrev pub prefix_of : Text → Text
prefix_of raw_key = take 12 raw_key

abbrev pub log_key : Text → ApiKey → Metadata → M (Unit {0})
log_key action_type key metadata =
    log_action action_type (some (codes "API_KEY")) (some (decimal key.id)) none none none
      (some metadata)

abbrev pub new_key : Keys → Option Text → Text → List Text → Text → Time → ℕ → ApiKey
new_key x organization_id name scopes raw_key created_at id = record {
  id = id;
  organization_id = organization_id;
  name = name;
  hashed_key = hash_api_key x raw_key;
  prefix = prefix_of raw_key;
  created_at = created_at;
  last_used_at = none;
  is_active = true;
  scopes_json = encode_scopes scopes;
}

abbrev pub add_key : ApiKey → World → World
add_key key w = record w { api_keys = w.api_keys ++ key ∷ [] }

abbrev pub save_key : ApiKey → World → World
save_key key w = record w { api_keys = update_where (λ k. k.id == key.id) (λ _. key) w.api_keys }

-- `scopes or []` is the list given, or the empty one.
unfoldable pub create_key : Keys → Option Text → Text → List Text → M (Text × ApiKey)
create_key x organization_id name scopes = do
  raw_key ← draw
  created_at ← utcnow
  id ← fresh_id
  let key = new_key x organization_id name scopes raw_key created_at id
  modify (add_key key)
  log_key (codes "API_KEY_CREATE") key
      ((codes "name", text name) ∷ (codes "prefix", text key.prefix) ∷ [])
  pure (raw_key, key)

abbrev pub revoked_key : ApiKey → ApiKey
revoked_key key = record key { is_active = false }

-- The part of `revoke_key` behind the lookup
abbrev pub store_revoked : ApiKey → M ApiKey
store_revoked key = do
  modify (save_key (revoked_key key))
  log_key (codes "API_KEY_REVOKE") key ((codes "prefix", text key.prefix) ∷ [])
  pure (revoked_key key)

abbrev pub find_key : ℕ → World → Option ApiKey
find_key key_id w = first_where (λ k. k.id == key_id) w.api_keys

unfoldable pub revoke_key : ℕ → M ApiKey
revoke_key key_id = do
  found ← gets (find_key key_id)
  key ← lift (or_raise (http 404 (codes "API key not found")) found)
  store_revoked key

-- `time.time()` is the next reading of the clock.
abbrev pub limit_at : Keys → Text → Time → M (Unit {0})
limit_at x prefix now w =
    let (answer, hits) = enforce_api_key_limit x.settings prefix now w.hits in
    (answer, record w { hits = hits })

abbrev pub log_usage : ApiKey → M (Option ApiKey)
log_usage key = do
  log_key (codes "API_KEY_USAGE") key ((codes "prefix", text (mask_secret key.prefix 4)) ∷ [])
  pure (some key)

-- The part of `verify_api_key` behind the comparison: the use is stored before the limit is checked.
abbrev pub use_key : Keys → ApiKey → M (Option ApiKey)
use_key x candidate = do
  last_used_at ← utcnow
  let key = record candidate { last_used_at = some last_used_at }
  modify (save_key key)
  now ← utcnow
  limit_at x key.prefix now
  log_usage key

abbrev pub check_hash : Keys → Text → Option ApiKey → M (Option ApiKey)
check_hash x raw_key none = pure none
check_hash x raw_key (some candidate) =
    if text_eq candidate.hashed_key (hash_api_key x raw_key) then use_key x candidate else pure none

abbrev pub is_candidate : Text → ApiKey → Bool
is_candidate raw_key k = text_eq k.prefix (prefix_of raw_key) && k.is_active

unfoldable pub verify_api_key : Keys → Text → M (Option ApiKey)
verify_api_key x raw_key = do
  candidate ← gets (λ w. first_where (is_candidate raw_key) w.api_keys)
  check_hash x raw_key candidate

-- `text.split(" ", 1)[1]` of a text with a space
unfoldable pub after_space : Text → Text
after_space [] = []
after_space (c ∷ rest) = if c == b' ' then rest else after_space rest

-- `authorization and authorization.lower().startswith("bearer ")`
abbrev pub bearer : Option Text → Option Text
bearer none = none
bearer (some authorization) =
    if starts_with (codes "bearer ") (lower authorization)
    then some (after_space authorization)
    else none

abbrev stripped : Option Text → Option Text
stripped none = none
stripped (some token) = some (strip token)

-- `_extract_api_key`
unfoldable pub extract_api_key : Option Text → Option Text → Option Text
extract_api_key authorization none = stripped (bearer authorization)
extract_api_key authorization (some []) = stripped (bearer authorization)
extract_api_key authorization (some (c ∷ header)) = some (strip (c ∷ header))

abbrev verified : Keys → Text → M ApiKey
verified x token = do
  key ← verify_api_key x token
  lift (or_raise (http 401 (codes "Invalid API key")) key)

abbrev required : Keys → Option Text → M ApiKey
required x none = raise (http 401 (codes "API key required"))
required x (some []) = raise (http 401 (codes "API key required"))
required x (some (c ∷ token)) = verified x (c ∷ token)

unfoldable pub get_api_key_from_request : Keys → Option Text → Option Text → M ApiKey
get_api_key_from_request x authorization api_key_header =
    required x (extract_api_key authorization api_key_header)

abbrev optional : Keys → Option Text → M (Option ApiKey)
optional x none = pure none
optional x (some []) = pure none
optional x (some (c ∷ token)) = do key ← verified x (c ∷ token); pure (some key)

unfoldable pub get_optional_api_key : Keys → Option Text → Option Text → M (Option ApiKey)
get_optional_api_key x authorization api_key_header =
    optional x (extract_api_key authorization api_key_header)
