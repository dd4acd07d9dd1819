-- ===== src/Security/Sandbox.antt =====
-- `ensure_command_allowed` of backend/app/security/utils.py, with the standard library's
-- `shlex.split` and `Path.name`.
mod Shlex
pub mod Policy
pub use Shlex.{path_name}
unfoldable pub use Shlex.{shlex_split}
use compliance_pulse.Prelude.{
  ℕ, Text, Bool, true, false, List, [], ◌∷◌, ◌++◌, codes, text_mem, contains, any, not, ◌&&◌, ◌||◌,
  if◌then◌else◌,
}
use compliance_pulse.Session.Monad.{Result, ok, err, value_error, permission_error}
use compliance_pulse.Security.Settings.{SecuritySettings}

abbrev pub forbidden_tokens : List Text
forbidden_tokens = codes ";" ∷ codes "&&" ∷ codes "||" ∷ codes "`" ∷ codes "$(" ∷ []

unfoldable pub is_chained : Text → Bool
is_chained command = any (λ token. contains token command) forbidden_tokens

-- The tests on the first token, and the search for chaining tokens in the whole command.
unfoldable pub check_tokens : SecuritySettings → Text → List Text → Result (Unit {0})
check_tokens s command [] = err (value_error (codes "Command cannot be empty"))
check_tokens s command (binary ∷ rest) =
    if not (text_mem (path_name binary) s.allowed_commands)
      && not (text_mem binary s.allowed_commands)
    then err (
        permission_error
          (codes "Command '" ++ (path_name binary ++ codes "' is not permitted by sandbox policy")))
    else if is_chained command
    then err
        (permission_error (codes "Pipelining and command chaining are disallowed in sandbox mode"))
    else ok tt

abbrev bind_tokens : SecuritySettings → Text → Result (List Text) → Result (Unit {0})
bind_tokens s command (ok tokens) = check_tokens s command tokens
bind_tokens s command (err e) = err e

unfoldable pub ensure_command_allowed : SecuritySettings → Text → Result (Unit {0})
ensure_command_allowed s command =
    if s.security_test_mode then ok tt else bind_tokens s command (shlex_split command)
