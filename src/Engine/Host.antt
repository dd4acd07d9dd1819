-- ===== src/Engine/Host.antt =====
-- What the rule engine uses of the machine that it runs on: the file system, processes, sockets
-- and the regular expressions of the standard library, as parameters.
use compliance_pulse.Prelude.{ℕ, ℤ, Text, Bool, Option}
use compliance_pulse.Models.Scanning.{Value}
use compliance_pulse.Session.Monad.{Result}
use compliance_pulse.Security.Settings.{SecuritySettings}

-- `subprocess.CompletedProcess`
pub record Process : Type 0 where
  pub returncode : ℤ
  pub stdout : Text
  pub stderr : Text

-- `run command timeout` is `subprocess.run`, which raises when the time is up. `connect` is a
-- socket's `connect` under a timeout: `some` text is an `OSError`, any other exception is raised.
-- `search` is `re.search`, which raises on a malformed pattern.
pub record Host : Type 0 where
  pub settings : SecuritySettings
  pub shell_timeout : ℕ
  pub path_exists : Text → Bool
  pub which : Text → Bool
  pub run : Text → Value → Result Process
  pub connect : Value → ℤ → Value → Result (Option Text)
  pub search : Text → Text → Result Bool
