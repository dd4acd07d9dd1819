-- ===== src/Agents/Uploads.antt =====
-- `agent_job_result` of backend/app/api/agent_machine.py. Scores are in hundredths.
use compliance_pulse.Prelude.{
  ℕ, ◌+◌, Text, Bool, Option, none, some, List, [], ◌∷◌, ◌++◌, codes, decimal, length, ◌==◌,
  text_eq, lookup, if◌then◌else◌,
}
use compliance_pulse.Models.Scanning.{
  Time, Column, encoded, Status, completed, failed, ResultStatus, Value, null, text, Metadata, Scan,
  ScanResult, Report,
}
use compliance_pulse.Models.Agents.{Agent, AgentJob, AgentResult, AgentResultUpload}
use compliance_pulse.Session.World.{World, get_row}
use compliance_pulse.Session.Monad.{
  M, Result, ok, err, lift, http, raise, pure, gets, modify, utcnow, fresh_id, draw, ◌>>=◌, ◌>>◌,
}
use compliance_pulse.Security.Masking.{value_text}
use compliance_pulse.Engine.Scoring.{rule_weight}
use compliance_pulse.Engine.Executor.Steps.{report_status, add_scan, add_report}
use compliance_pulse.Models.Values.{truthy, or_value}
use compliance_pulse.Agents.Tokens.{get_agent_by_token, bearer_token}
use compliance_pulse.Agents.Jobs.{save_agent_job}

-- What the endpoint uses of its surroundings: `round(a / b * 100, 2)`, the hundredths that stand for
-- the float of a JSON number, what the database driver stores for a value of a text column, which
-- raises for a list or a dictionary, and the column that `json.dumps` of a value makes.
pub record Intake : Type 0 where
  pub percent : ℕ → ℕ → ℕ
  pub hundredths : Text → ℕ
  pub column_text : Value → Result (Option Text)
  pub dumps : Value → Column Metadata

pub record UploadReply : Type 0 where
  pub job_id : ℕ
  pub scan_id : ℕ

abbrev pub item_passed : Metadata → Bool
item_passed it = truthy (lookup (codes "passed") it)

-- `str(it.get("severity", "info"))`
abbrev severity_text : Option Value → Text
severity_text none = codes "info"
severity_text (some value) = value_text value

abbrev pub item_weight : Metadata → ℕ
item_weight it = rule_weight (severity_text (lookup (codes "severity") it))

-- The counters of the first loop
pub record Points : Type 0 where
  pub passed : ℕ
  pub w_pass : ℕ
  pub w_total : ℕ

abbrev pub no_points : Points
no_points = record { passed = 0; w_pass = 0; w_total = 0 }

abbrev pub add_item : Metadata → Points → Points
add_item it p = record {
  passed = if item_passed it then p.passed + 1 else p.passed;
  w_pass = if item_passed it then p.w_pass + item_weight it else p.w_pass;
  w_total = p.w_total + item_weight it;
}

unfoldable pub count_items : List Metadata → Points → Points
count_items [] p = p
count_items (it ∷ items) p = count_items items (add_item it p)

-- `payload.score or 0.0`
abbrev pub score_or_zero : Intake → Option Text → ℕ
score_or_zero x none = 0
score_or_zero x (some score) = x.hundredths score

unfoldable pub upload_score : Intake → AgentResultUpload → Points → ℕ
upload_score x payload p =
    if p.w_total == 0 then score_or_zero x payload.score else x.percent p.w_pass p.w_total

-- `"completed" if payload.status == "completed" else "failed"`
abbrev pub upload_status : Text → Status
upload_status status = if text_eq status (codes "completed") then completed else failed

abbrev pub raw_result : Intake → ℕ → Time → Agent → AgentJob → AgentResultUpload → AgentResult
raw_result x id created_at agent job payload = record {
  id = id;
  organization_id = agent.organization_id;
  agent_job_id = job.id;
  raw_json = encoded payload;
  html_report = none;
  pdf_report = none;
  status = payload.status;
  score = score_or_zero x payload.score;
  created_at = created_at;
}

abbrev pub agent_scan : ℕ → Time → Time → Time → Agent → AgentJob → AgentResultUpload → ℕ → ℕ → Scan
agent_scan id started_at completed_at last_run agent job payload passed score = record {
  id = id;
  organization_id = agent.organization_id;
  hostname = agent.hostname;
  ip = agent.ip;
  benchmark_id = job.benchmark_id;
  group_id = none;
  status = upload_status payload.status;
  severity = codes "info";
  tags_json = agent.tags_json;
  summary = none;
  ai_summary_json = Column.blank;
  started_at = started_at;
  completed_at = some completed_at;
  last_run = some last_run;
  total_rules = length payload.results;
  passed_rules = passed;
  output_path = none;
  triggered_by = codes "agent";
  compliance_score = score;
}

-- `str(it.get(first) or it.get(second) or default)`
abbrev pub first_of : Text → Text → Text → Metadata → Text
first_of first second default it =
    value_text (or_value (or_value (text default) (lookup second it)) (lookup first it))

-- `secrets.token_hex(6)` is drawn for an item without an id.
abbrev pub item_id : Metadata → M Text
item_id it =
    if truthy
      (some (or_value (or_value null (lookup (codes "rule_id") it)) (lookup (codes "id") it)))
    then pure (first_of (codes "id") (codes "rule_id") [] it)
    else draw

abbrev text_or_none : Result (Option Text) → Option Text
text_or_none (ok stored) = stored
text_or_none (err e) = none

-- The column of a value; what the driver refuses shows at the commit.
abbrev field : Intake → Option Value → Option Text
field x none = none
field x (some value) = text_or_none (x.column_text value)

abbrev pub and_then : Result (Option Text) → Result (Unit {0}) → Result (Unit {0})
and_then (ok stored) rest = rest
and_then (err e) rest = err e

abbrev pub driven : Intake → Option Value → Result (Option Text)
driven x none = ok none
driven x (some value) = x.column_text value

-- The driver's answer to the rows of the items, at the commit
unfoldable pub check_items : Intake → List Metadata → Result (Unit {0})
check_items x [] = ok tt
check_items x (it ∷ items) =
    and_then (driven x (lookup (codes "stdout") it))
      (and_then (driven x (lookup (codes "stderr") it)) (check_items x items))

-- `json.dumps(it.get("details") or {})`
abbrev details_of : Intake → Option Value → Column Metadata
details_of x none = encoded []
details_of x (some value) = if truthy (some value) then x.dumps value else encoded []

abbrev pub result_row : Intake → ℕ → ℕ → ℕ → Metadata → Text → Time → Time → ScanResult
result_row x id organization_id scan_id it rule_id executed_at completed_at = record {
  id = id;
  organization_id = organization_id;
  scan_id = scan_id;
  rule_id = rule_id;
  rule_title = first_of (codes "title") (codes "rule_title") (codes "rule") it;
  severity = value_text (or_value (text (codes "info")) (lookup (codes "severity") it));
  status = if item_passed it then ResultStatus.passed else ResultStatus.failed;
  passed = item_passed it;
  stdout = field x (lookup (codes "stdout") it);
  stderr = field x (lookup (codes "stderr") it);
  details_json = details_of x (lookup (codes "details") it);
  executed_at = executed_at;
  completed_at = some completed_at;
  runtime_ms = none;
}

abbrev pub add_result : ScanResult → World → World
add_result sr w = record w { results = w.results ++ sr ∷ [] }

-- The second loop
unfoldable pub store_items : Intake → ℕ → ℕ → List Metadata → M (Unit {0})
store_items x organization_id scan_id [] = pure tt
store_items x organization_id scan_id (it ∷ items) = do
  rule_id ← item_id it
  executed_at ← utcnow
  completed_at ← utcnow
  id ← fresh_id
  modify (add_result (result_row x id organization_id scan_id it rule_id executed_at completed_at))
  store_items x organization_id scan_id items

abbrev pub agent_report : ℕ → Time → Scan → Report
agent_report id created_at scan = record {
  id = id;
  organization_id = scan.organization_id;
  scan_id = scan.id;
  benchmark_id = scan.benchmark_id;
  hostname = scan.hostname;
  score = scan.compliance_score;
  summary =
      codes "Agent scan completed with "
      ++ (decimal scan.passed_rules ++ (b'/' ∷ decimal scan.total_rules ++ codes " passing"));
  status = report_status scan.total_rules scan.passed_rules;
  severity = scan.severity;
  tags_json = scan.tags_json;
  output_path = none;
  last_run = scan.completed_at;
  created_at = created_at;
  key_findings_json = encoded [];
  remediations_json = encoded [];
}

abbrev pub closed : AgentJob → AgentResultUpload → Time → AgentJob
closed job payload now = record job {
  status = upload_status payload.status;
  completed_at = some now;
}

abbrev add_raw : AgentResult → World → World
add_raw result w = record w { agent_results = w.agent_results ++ result ∷ [] }

-- The raw result is stored and the job closed.
unfoldable pub close_job : Intake → Agent → AgentJob → AgentResultUpload → M (Unit {0})
close_job x agent job payload = do
  created_at ← utcnow
  now ← utcnow
  id ← fresh_id
  modify (add_raw (raw_result x id created_at agent job payload))
  modify (save_agent_job (closed job payload now))

abbrev pub make_scan : Intake → Agent → AgentJob → AgentResultUpload → M Scan
make_scan x agent job payload = do
  started_at ← utcnow
  completed_at ← utcnow
  last_run ← utcnow
  id ← fresh_id
  let p = count_items payload.results no_points
  let scan =
      agent_scan id started_at completed_at last_run agent job payload p.passed
        (upload_score x payload p)
  modify (add_scan scan)
  pure scan

abbrev pub make_report : AgentJob → Scan → M UploadReply
make_report job scan = do
  created_at ← utcnow
  id ← fresh_id
  modify (add_report (agent_report id created_at scan))
  pure (record { job_id = job.id; scan_id = scan.id })

-- The results and the report, which one commit stores
abbrev pub store_report : Intake → Agent → AgentJob → AgentResultUpload → Scan → M UploadReply
store_report x agent job payload scan = do
  store_items x agent.organization_id scan.id payload.results
  reply ← make_report job scan
  lift (check_items x payload.results)
  pure reply

-- A commit that raises stores none of its rows.
abbrev pub or_undone : {A : Type 0} → World → Result A × World → Result A × World
or_undone w (ok a, w') = (ok a, w')
or_undone w (err e, w') = (err e, record w { reads = w'.reads; draws = w'.draws })

abbrev pub commit_report : Intake → Agent → AgentJob → AgentResultUpload → Scan → M UploadReply
commit_report x agent job payload scan w = or_undone w (store_report x agent job payload scan w)

-- The scan, which a commit of its own stores, then its results and its report
unfoldable pub integrate : Intake → Agent → AgentJob → AgentResultUpload → M UploadReply
integrate x agent job payload = make_scan x agent job payload >>= commit_report x agent job payload

abbrev pub find_agent_job : ℕ → World → Option AgentJob
find_agent_job job_id w = get_row (λ j. j.organization_id) (λ j. j.id == job_id) w w.agent_jobs

abbrev pub accept : Intake → AgentResultUpload → Agent → Option AgentJob → M UploadReply
accept x payload agent none = raise (http 404 (codes "job not found"))
accept x payload agent (some job) =
    if job.agent_id == agent.id
    then (close_job x agent job payload >> integrate x agent job payload)
    else raise (http 404 (codes "job not found"))

-- What follows the check of the token
unfoldable pub result_for : Intake → ℕ → AgentResultUpload → Agent → M UploadReply
result_for x job_id payload agent = gets (find_agent_job job_id) >>= accept x payload agent

unfoldable pub agent_job_result :
    Intake → Option Text → Option Text → ℕ → AgentResultUpload → M UploadReply
agent_job_result x authorization x_agent_auth job_id payload =
    get_agent_by_token (bearer_token authorization x_agent_auth) >>= result_for x job_id payload
