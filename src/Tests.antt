-- ===== src/Tests.antt =====
-- A small world to run the development on: one organization with one rule, group, schedule and job.
pub mod Accounts
pub mod Agents
pub mod Scans
pub mod Schedules
pub mod Codec
pub mod Engine
pub mod Entry
pub mod Passwords
pub mod Policy
pub mod Services
use compliance_pulse.Prelude.{
  ℕ, suc, ◌+◌, ◌*◌, ◌≡◌, refl, Text, Bool, true, false, Option, none, some, List, [], ◌∷◌, codes,
  pos,
}
use compliance_pulse.Models.Scanning.{
  Time, Rule, RuleGroup, Schedule, ScanJob, pending, encoded, Value,
}
use compliance_pulse.Session.World.{World}
use compliance_pulse.Session.Monad.{Result, ok}
use compliance_pulse.Security.Settings.{SecuritySettings}
use compliance_pulse.Engine.Host.{Process, Host}
use compliance_pulse.Engine.Executor.Steps.{Executor}
use compliance_pulse.Engine.Executor.Loop.{IsQuiet}

abbrev pub settings : SecuritySettings
settings = record {
  session_secret_key = codes "key";
  stripe_webhook_secret = none;
  api_key_hash_salt = codes "salt";
  security_test_mode = false;
  allowed_commands = codes "cat" ∷ codes "grep" ∷ [];
  max_scan_runtime_per_job = 300;
  max_concurrent_jobs_per_org = 2;
  api_key_rate_limit = 2;
  api_key_rate_window_seconds = 60;
}

abbrev pub rule : Rule
rule = record {
  id = codes "r1";
  organization_id = 1;
  benchmark_id = codes "b";
  title = codes "Title";
  description = [];
  severity = codes "High";
  remediation = [];
  references_json = encoded [];
  metadata_json = encoded [];
  tags_json = encoded (codes "ssh" ∷ []);
  check_type = codes "shell";
  command = codes "cat f";
  expect_type = codes "contains";
  expect_value = codes "no";
  timeout_seconds = 10;
  status = codes "active";
  last_run = none;
  created_at = 0;
}

abbrev pub group : RuleGroup
group = record {
  id = 7;
  organization_id = 1;
  name = codes "g";
  benchmark_id = codes "b";
  description = none;
  rule_ids_json = encoded [];
  default_hostname = codes "host";
  default_ip = none;
  tags_json = encoded [];
  last_run = none;
  created_at = 0;
  updated_at = 0;
}

abbrev pub schedule : Schedule
schedule = record {
  id = 3;
  organization_id = 1;
  name = codes "s";
  group_id = 7;
  frequency = codes "daily";
  interval_minutes = 60;
  enabled = true;
  timezone = codes "UTC";
  next_run = none;
  last_run = none;
  created_at = 0;
  updated_at = 0;
}

abbrev pub job : ScanJob
job = record {
  id = 5;
  organization_id = 1;
  group_id = 7;
  schedule_id = some 3;
  hostname = codes "host";
  triggered_by = codes "manual";
  status = pending;
  error = none;
  created_at = 4;
  started_at = none;
  completed_at = none;
  scan_id = none;
}

-- A session without a tenant whose clock counts its readings
abbrev pub world : World
world = record {
  organization_id = none;
  get_filtered = true;
  clock = λ n. 100 + n;
  reads = 0;
  commits = λ n. true;
  attempts = 0;
  audit_up = true;
  benchmarks = [];
  rules = rule ∷ [];
  groups = group ∷ [];
  scans = [];
  results = [];
  reports = [];
  schedules = schedule ∷ [];
  jobs = job ∷ [];
  audit = [];
  organizations = [];
  api_keys = [];
  agents = [];
  agent_tokens = [];
  agent_jobs = [];
  agent_results = [];
  hits = [];
  random = λ n. codes "abcdefghijklmnop";
  draws = 0;
  next_id = 9;
}

abbrev pub tenant_world : World
tenant_world = record world { organization_id = some 1 }

-- An executor whose rules all pass
abbrev pub executor : Executor
executor = record {
  organization_id = 1;
  evaluate = λ rule w. (
    ok (record {
      rule_id = rule.id;
      passed = true;
      stdout = some [];
      stderr = none;
      details = [];
      started_at = 0;
      completed_at = 1;
      runtime_ms = pos 1;
    }),
    w,
  );
  percent = λ a b. 100;
  logs_dir = codes "l";
  artifacts_dir = codes "a";
  write_text = λ path. ok tt;
}

pub executor-IsQuiet : IsQuiet executor
executor-IsQuiet = record { clock_only = λ rule w. (w.reads, refl) }

-- A machine on which each command prints "no"
abbrev pub host : Host
host = record {
  settings = settings;
  shell_timeout = 15;
  path_exists = λ path. false;
  which = λ command. false;
  run = λ command timeout. ok (record { returncode = pos 0; stdout = codes "no"; stderr = [] });
  connect = λ address port timeout. ok none;
  search = λ pattern subject. ok false;
}
