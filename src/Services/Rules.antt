-- ===== src/Services/Rules.antt =====
-- The rule endpoints of backend/app/api/rules.py with JSON in and out, and the rule views of
-- backend/app/api/benchmarks.py and backend/app/schemas/benchmark.py.
pub mod Validity
pub mod Requests
use compliance_pulse.Prelude.{
  ℕ, Text, Bool, true, false, Option, none, some, List, [], ◌∷◌, ◌++◌, codes, not, ◌&&◌, ◌==◌,
  is_empty, length, lower, strip, split_on, map, text_eq, text_mem, where_rows, first_where,
  update_where, lookup, or_else, if◌then◌else◌,
}
use compliance_pulse.Models.Scanning.{
  Time, Column, encoded, loads, Value, text, Metadata, Benchmark, Rule,
}
use compliance_pulse.Models.Values.{truthy, or_value, value_or}
use compliance_pulse.Session.World.{World, select_rows, get_row}
use compliance_pulse.Session.Monad.{
  M, Result, ok, err, Error, http, other_error, lift, or_raise, gets, modify, pure, raise, utcnow,
  ◌>>=◌, ◌>>◌,
}
use compliance_pulse.Security.Masking.{value_text}
use compliance_pulse.Security.ApiKeys.{join_commas}
use compliance_pulse.Services.Benchmarks.{clashing}

pub record RuleSummary : Type 0 where
  pub id : Text
  pub benchmark_id : Text
  pub title : Text
  pub severity : Text
  pub status : Text
  pub tags : List Text
  pub last_run : Option Time

pub record RuleDetail : Type 0 where
  pub summary : RuleSummary
  pub description : Text
  pub remediation : Text
  pub references : List Text
  pub metadata : Metadata
  pub check_type : Text
  pub command : Text
  pub expect_type : Text
  pub expect_value : Text
  pub timeout_seconds : ℕ

abbrev pub decoded : {A : Type 0} → A → Column A → Result A
decoded default column = or_raise (other_error (codes "JSONDecodeError")) (loads default column)

abbrev next : {A B : Type 0} → Result A → (A → Result B) → Result B
next (err e) f = err e
next (ok a) f = f a

-- `_rule_to_summary`
unfoldable pub rule_to_summary : Rule → Result RuleSummary
rule_to_summary rule = next (decoded [] rule.tags_json) (λ tags. ok (record {
  id = rule.id;
  benchmark_id = rule.benchmark_id;
  title = rule.title;
  severity = rule.severity;
  status = rule.status;
  tags = tags;
  last_run = rule.last_run;
}))

-- `_rule_to_detail`
unfoldable pub rule_to_detail : Rule → Result RuleDetail
rule_to_detail rule = next (rule_to_summary rule) (λ summary.
    next (decoded [] rule.references_json) (λ references.
      next (decoded [] rule.metadata_json) (λ metadata. ok (record {
        summary = summary;
        description = rule.description;
        remediation = rule.remediation;
        references = references;
        metadata = metadata;
        check_type = rule.check_type;
        command = rule.command;
        expect_type = rule.expect_type;
        expect_value = rule.expect_value;
        timeout_seconds = rule.timeout_seconds;
      }))))

-- What an endpoint answers: the errors by field or a problem with its status, or the rule.
pub data Reply : Type 0 where
  errors : List (Text × Text) → Reply
  problem : ℕ → Text → Reply
  shown : RuleDetail → Reply
  deleted : Text → Reply

pub record RulePayload : Type 0 where
  pub rule_id : Text
  pub benchmark_id : Text
  pub title : Text
  pub severity : Text
  pub tags : Text
  pub description : Text
  pub remediation : Text
  pub command : Text
  pub expect_value : Text

-- `ALLOWED_SEVERITIES`
abbrev pub allowed_severities : List Text
allowed_severities = codes "low" ∷ codes "medium" ∷ codes "high" ∷ codes "critical" ∷ []

-- `str(form.get(key) or default)`
abbrev field_or : Metadata → Text → Text → Text
field_or form key default = value_text (value_or key form (text default))

-- The second result of `_validate_rule_payload`
unfoldable pub cleaned : Metadata → RulePayload
cleaned form = record {
  rule_id = strip (
      value_text (or_value (value_or (codes "id") form (text [])) (lookup (codes "rule_id") form)));
  benchmark_id = strip (field_or form (codes "benchmark_id") []);
  title = strip (field_or form (codes "title") []);
  severity = lower (strip (field_or form (codes "severity") (codes "low")));
  tags = field_or form (codes "tags") [];
  description = field_or form (codes "description") [];
  remediation = field_or form (codes "remediation") [];
  command = strip (field_or form (codes "command") []);
  expect_value = or_else (strip (field_or form (codes "expect_value") (codes "0"))) (codes "0");
}

abbrev pub error_if : Bool → Text → Text → List (Text × Text) → List (Text × Text)
error_if true field message rest = (field, message) ∷ rest
error_if false field message rest = rest

abbrev pub severity_message : Text
severity_message = codes "Severity must be one of: low, medium, high, critical"

-- The first result of `_validate_rule_payload`
unfoldable pub payload_errors : RulePayload → List (Text × Text)
payload_errors p = error_if (is_empty p.rule_id) (codes "rule_id") (codes "Rule ID is required") (
    error_if (is_empty p.benchmark_id) (codes "benchmark_id") (codes "Benchmark is required") (
      error_if (is_empty p.title) (codes "title") (codes "Title is required") (
        error_if (is_empty p.command) (codes "command") (codes "Command is required") (
          error_if (not (text_mem p.severity allowed_severities)) (codes "severity")
            severity_message []))))

-- `[t.strip() for t in tags.split(",") if t.strip()]`
unfoldable pub split_tags : Text → List Text
split_tags tags = where_rows (λ t. not (is_empty t)) (map strip (split_on b',' tags))

unfoldable pub ui_rule : RulePayload → ℕ → Time → Rule
ui_rule p organization_id created_at = record {
  id = p.rule_id;
  organization_id = organization_id;
  benchmark_id = p.benchmark_id;
  title = p.title;
  description = p.description;
  severity = p.severity;
  remediation = p.remediation;
  references_json = encoded [];
  metadata_json = encoded ((codes "source", text (codes "ui")) ∷ []);
  tags_json = encoded (split_tags p.tags);
  check_type = codes "shell";
  command = p.command;
  expect_type = codes "equals";
  expect_value = p.expect_value;
  timeout_seconds = 10;
  status = codes "active";
  last_run = none;
  created_at = created_at;
}

abbrev pub rule_by_id : Text → World → Option Rule
rule_by_id rule_id w =
    get_row (λ (r : Rule). r.organization_id) (λ r. text_eq r.id rule_id) w w.rules

abbrev pub benchmark_by_id : Text → World → Option Benchmark
benchmark_by_id benchmark_id w =
    first_where (λ (b : Benchmark). text_eq b.id benchmark_id) w.benchmarks

-- The commit refuses a key that a rule has which the session does not see.
abbrev pub insert_rule : Rule → M (Unit {0})
insert_rule rule w =
    if clashing (w.rules ++ rule ∷ [])
    then (err (other_error (codes "IntegrityError")), w)
    else (ok tt, record w { rules = w.rules ++ rule ∷ [] })

abbrev pub reply_rule : Rule → M Reply
reply_rule rule = do detail ← lift (rule_to_detail rule); pure (shown detail)

abbrev pub store_rule : RulePayload → Option ℕ → M Reply
store_rule p none = raise (http 401 (codes "unauthorized"))
store_rule p (some organization_id) = do
  created_at ← utcnow
  let rule = ui_rule p organization_id created_at
  insert_rule rule
  reply_rule rule

abbrev pub check_benchmark : RulePayload → Option ℕ → Option Benchmark → M Reply
check_benchmark p context none = pure (problem 404 (codes "Benchmark not found"))
check_benchmark p context (some benchmark) = store_rule p context

abbrev pub check_new : RulePayload → Option ℕ → Option Rule → M Reply
check_new p context (some rule) = pure (problem 400 (codes "Rule ID already exists"))
check_new p context none = gets (benchmark_by_id p.benchmark_id) >>= check_benchmark p context

abbrev pub check_errors : RulePayload → Option ℕ → List (Text × Text) → M Reply
check_errors p context (e ∷ es) = pure (errors (e ∷ es))
check_errors p context [] = gets (rule_by_id p.rule_id) >>= check_new p context

-- `create_rule`, for the organization of the page's context if there is one
unfoldable pub create_rule : Metadata → Option ℕ → M Reply
create_rule form context = let p = cleaned form in check_errors p context (payload_errors p)

-- `str(form.get(key, default))`
abbrev pub text_or_default : Metadata → Text → Text → Text
text_or_default form key default = given (lookup key form)
  where
    given : Option Value → Text
    given none = default
    given (some value) = value_text value

-- `str(...).strip() or old`
abbrev pub stripped_or : Metadata → Text → Text → Text
stripped_or form key old = or_else (strip (text_or_default form key old)) old

unfoldable pub updated : Metadata → Rule → Text → List Text → Rule
updated form rule severity tags = record rule {
  title = stripped_or form (codes "title") rule.title;
  severity = severity;
  description = text_or_default form (codes "description") rule.description;
  remediation = text_or_default form (codes "remediation") rule.remediation;
  command = stripped_or form (codes "command") rule.command;
  expect_value = stripped_or form (codes "expect_value") rule.expect_value;
  benchmark_id = stripped_or form (codes "benchmark_id") rule.benchmark_id;
  tags_json = encoded (split_tags (text_or_default form (codes "tags") (join_commas tags)));
}

abbrev pub save_rule : Rule → World → World
save_rule rule w = record w { rules = update_where (λ r. text_eq r.id rule.id) (λ _. rule) w.rules }

abbrev pub new_severity : Metadata → Rule → Text
new_severity form rule = lower (strip (text_or_default form (codes "severity") rule.severity))

abbrev pub store_update : Metadata → Rule → List Text → M Reply
store_update form rule tags = do
  let rule' = updated form rule (new_severity form rule) tags
  modify (save_rule rule')
  reply_rule rule'

abbrev pub update_found : Metadata → Rule → M Reply
update_found form rule =
    if text_mem (new_severity form rule) allowed_severities
    then (lift (decoded [] rule.tags_json) >>= store_update form rule)
    else pure (problem 400 severity_message)

unfoldable pub update_rule : Text → Metadata → M Reply
update_rule rule_id form = do
  found ← gets (rule_by_id rule_id)
  rule ← lift (or_raise (http 404 (codes "Rule not found")) found)
  update_found form rule

unfoldable pub delete_rule : Text → M Reply
delete_rule rule_id = do
  found ← gets (rule_by_id rule_id)
  rule ← lift (or_raise (http 404 (codes "Rule not found")) found)
  modify (λ w. record w { rules = where_rows (λ r. not (text_eq r.id rule.id)) w.rules })
  pure (deleted rule_id)

unfoldable pub get_rule : Text → M RuleDetail
get_rule rule_id = do
  found ← gets (rule_by_id rule_id)
  rule ← lift (or_raise (http 404 (codes "Rule not found")) found)
  lift (rule_to_detail rule)

abbrev matches : Option Text → Text → Bool
matches none value = true
matches (some []) value = true
matches (some (c ∷ wanted)) value = text_eq value (c ∷ wanted)

-- The count that `list_rules` answers
unfoldable pub list_rules : Option Text → Option Text → M ℕ
list_rules severity benchmark_id = gets (λ w. length (
    select_rows (λ (r : Rule). r.organization_id)
      (λ r. matches severity r.severity && matches benchmark_id r.benchmark_id) w w.rules))
