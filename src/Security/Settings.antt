-- ===== src/Security/Settings.antt =====
-- backend/app/security/config.py
use compliance_pulse.Prelude.{
  ℕ, Text, Bool, Option, none, some, List, [], ◌∷◌, ◌++◌, map, codes, is_empty, not, strip,
  split_on, where_rows, if◌then◌else◌, text_mem, lower, ◌&&◌,
}
use compliance_pulse.Session.Monad.{Result, ok, err, runtime_error}

pub record SecuritySettings : Type 0 where
  pub session_secret_key : Text
  pub stripe_webhook_secret : Option Text
  pub api_key_hash_salt : Text
  pub security_test_mode : Bool
  pub allowed_commands : List Text
  pub max_scan_runtime_per_job : ℕ
  pub max_concurrent_jobs_per_org : ℕ
  pub api_key_rate_limit : ℕ
  pub api_key_rate_window_seconds : ℕ

abbrev pub default_commands : List Text
default_commands =
    codes "cat"
    ∷ codes "grep"
    ∷ codes "rpm"
    ∷ codes "dpkg"
    ∷ codes "stat"
    ∷ codes "systemctl"
    ∷ codes "test"
    ∷ []

-- `[item.strip() for item in value.split(",") if item.strip()]`
comma_list : Text → List Text
comma_list value = where_rows (λ item. not (is_empty item)) (map strip (split_on b',' value))

-- The validator of `allowed_commands`. Its argument is `some` list if the field's value is a list;
-- the second argument is `ALLOWED_COMMANDS`.
unfoldable pub parse_allowed_commands : Option (List Text) → Option Text → List Text
unfolding comma_list
parse_allowed_commands (some value) env_value = value
parse_allowed_commands none none = default_commands
parse_allowed_commands none (some env_value) =
    if is_empty env_value then default_commands else comma_list env_value

-- `value or default` for a variable that may be unset
abbrev set_or : Option Text → Text → Text
set_or none default = default
set_or (some value) default = value

-- `_derive_required_secret`: the variable, and outside production the default.
unfoldable pub derive_required_secret : Text → Option Text → Option Text → Text → Result Text
derive_required_secret name environment env_value default =
    let env = lower (set_or environment (codes "development")) in
    let value = set_or env_value [] in
    if not (is_empty value)
    then ok value
    else if text_mem env (codes "development" ∷ codes "test" ∷ codes "testing" ∷ [])
        && not (is_empty default)
    then ok default
    else err (runtime_error (codes "Missing required security environment variable: " ++ name))

-- The field's own default, an empty list, is what the validator is given where the settings are
-- made, since `security_settings` passes no `allowed_commands`.
unfoldable pub load_allowed_commands : Option Text → List Text
unfolding parse_allowed_commands
load_allowed_commands env_value = parse_allowed_commands (some []) env_value
