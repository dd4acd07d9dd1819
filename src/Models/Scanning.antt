-- ===== src/Models/Scanning.antt =====
-- The benchmark, rule, scan, report, schedule and job tables of backend/app/models/domain.py.
use compliance_pulse.Prelude.{ℕ, Text, Bool, Option, none, some, List, ℤ, Dict}

-- Microseconds since the epoch.
abbrev pub Time : Type 0
Time = ℕ

-- A text column that holds JSON: the empty text, a text that is no JSON, or the
-- text of a value.
pub data Column {ℓ} (A : Type ℓ) : Type ℓ where
  blank malformed : Column A
  encoded : A → Column A

-- `json.loads(column or default)`; `none` is a `JSONDecodeError`.
abbrev pub loads {ℓ} : {A : Type ℓ} → A → Column A → Option A
loads default blank = some default
loads default malformed = none
loads default (encoded a) = some a

-- A value of a Python dictionary of mixed values. `other` is any further object that is neither
-- empty nor false, by its `str`.
pub data Value : Type 0 where
  null : Value
  text : Text → Value
  number : ℤ → Value
  flag : Bool → Value
  other : Text → Value

abbrev pub Metadata : Type 0
Metadata = Dict Value

pub record Benchmark : Type 0 where
  pub id : Text
  pub title : Text
  pub description : Text
  pub version : Text
  pub os_target : Text
  pub maintainer : Option Text
  pub source : Option Text
  pub tags_json : Column (List Text)
  pub schema_version : Text
  pub created_at : Time
  pub updated_at : Time

pub record Rule : Type 0 where
  pub id : Text
  pub organization_id : ℕ
  pub benchmark_id : Text
  pub title : Text
  pub description : Text
  pub severity : Text
  pub remediation : Text
  pub references_json : Column (List Text)
  pub metadata_json : Column Metadata
  pub tags_json : Column (List Text)
  pub check_type : Text
  pub command : Text
  pub expect_type : Text
  pub expect_value : Text
  pub timeout_seconds : ℕ
  pub status : Text
  pub last_run : Option Time
  pub created_at : Time

pub record RuleGroup : Type 0 where
  pub id : ℕ
  pub organization_id : ℕ
  pub name : Text
  pub benchmark_id : Text
  pub description : Option Text
  pub rule_ids_json : Column (List Text)
  pub default_hostname : Text
  pub default_ip : Option Text
  pub tags_json : Column (List Text)
  pub last_run : Option Time
  pub created_at : Time
  pub updated_at : Time

-- The life of a job or a scan.
pub data Status : Type 0 where
  pending running completed failed : Status

pub data ResultStatus : Type 0 where
  pending passed failed : ResultStatus

pub data ReportStatus : Type 0 where
  generated passed attention : ReportStatus

-- The narrative that `summarize_scan` returns.
pub record Summary : Type 0 where
  pub summary : Text
  pub key_findings : List Text
  pub remediations : List Text

pub record Scan : Type 0 where
  pub id : ℕ
  pub organization_id : ℕ
  pub hostname : Text
  pub ip : Option Text
  pub benchmark_id : Text
  pub group_id : Option ℕ
  pub status : Status
  pub severity : Text
  pub tags_json : Column (List Text)
  pub summary : Option Text
  pub ai_summary_json : Column Summary
  pub started_at : Time
  pub completed_at : Option Time
  pub last_run : Option Time
  pub total_rules : ℕ
  pub passed_rules : ℕ
  pub output_path : Option Text
  pub triggered_by : Text
  pub compliance_score : ℕ

pub record ScanResult : Type 0 where
  pub id : ℕ
  pub organization_id : ℕ
  pub scan_id : ℕ
  pub rule_id : Text
  pub rule_title : Text
  pub severity : Text
  pub status : ResultStatus
  pub passed : Bool
  pub stdout : Option Text
  pub stderr : Option Text
  pub details_json : Column Metadata
  pub executed_at : Time
  pub completed_at : Option Time
  pub runtime_ms : Option ℤ

pub record Report : Type 0 where
  pub id : ℕ
  pub organization_id : ℕ
  pub scan_id : ℕ
  pub benchmark_id : Text
  pub hostname : Text
  pub score : ℕ
  pub summary : Text
  pub status : ReportStatus
  pub severity : Text
  pub tags_json : Column (List Text)
  pub output_path : Option Text
  pub last_run : Option Time
  pub created_at : Time
  pub key_findings_json : Column (List Text)
  pub remediations_json : Column (List Text)

pub record Schedule : Type 0 where
  pub id : ℕ
  pub organization_id : ℕ
  pub name : Text
  pub group_id : ℕ
  pub frequency : Text
  pub interval_minutes : ℕ
  pub enabled : Bool
  pub timezone : Text
  pub next_run : Option Time
  pub last_run : Option Time
  pub created_at : Time
  pub updated_at : Time

pub record ScanJob : Type 0 where
  pub id : ℕ
  pub organization_id : ℕ
  pub group_id : ℕ
  pub schedule_id : Option ℕ
  pub hostname : Text
  pub triggered_by : Text
  pub status : Status
  pub error : Option Text
  pub created_at : Time
  pub started_at : Option Time
  pub completed_at : Option Time
  pub scan_id : Option ℕ
