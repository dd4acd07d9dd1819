-- ===== src/Services/Benchmarks.antt =====
-- `PulseBenchmarkLoader` of backend/app/services/benchmark_loader.py, with the documents of
-- backend/app/schemas/benchmark.py. The files as YAML and pydantic read them are arguments.
pub mod Tenants
use compliance_pulse.Prelude.{
  ℕ, ℤ, int_text, Text, Bool, true, false, Option, none, some, List, [], ◌∷◌, ◌++◌, codes, decimal,
  not, ◌&&◌, ◌||◌, ◌==◌, any, text_eq, text_mem, where_rows, first_where, update_where, lookup,
  if◌then◌else◌,
}
use compliance_pulse.Models.Scanning.{Time, Column, encoded, Value, text, Metadata, Benchmark, Rule}
use compliance_pulse.Session.World.{World, select_rows}
use compliance_pulse.Session.Monad.{
  M, Result, ok, err, Error, value_error, other_error, lift, gets, modify, pure, raise, utcnow,
  ◌>>=◌, ◌>>◌,
}

pub record BenchmarkMetadata : Type 0 where
  pub maintainer : Option Text
  pub source : Option Text
  pub tags : List Text

-- The `value` of an expectation is a text or a number.
pub data Expected : Type 0 where
  word : Text → Expected
  count : ℤ → Expected

pub record ExpectationDefinition : Type 0 where
  pub type : Text
  pub value : Expected

pub record RuleCheckDefinition : Type 0 where
  pub type : Text
  pub command : Text
  pub timeout : ℕ
  pub expect : ExpectationDefinition

pub record RuleDefinition : Type 0 where
  pub id : Text
  pub title : Text
  pub description : Text
  pub severity : Text
  pub remediation : Text
  pub references : List Text
  pub metadata : Metadata
  pub check : RuleCheckDefinition

pub record BenchmarkBlock : Type 0 where
  pub id : Text
  pub title : Text
  pub description : Text
  pub version : Text
  pub os_target : Text
  pub metadata : BenchmarkMetadata

pub record BenchmarkDocument : Type 0 where
  pub schema_version : Text
  pub benchmark : BenchmarkBlock
  pub rules : List RuleDefinition

-- What becomes of a metadata value in a column: the JSON that `json.dumps` writes for tags, and the
-- text that the driver stores for a status.
pub record Columns : Type 0 where
  pub tags : Value → Column (List Text)
  pub status : Value → Text

abbrev supported_expectations : List Text
supported_expectations =
    codes "exit_code" ∷ codes "contains" ∷ codes "not_contains" ∷ codes "equals" ∷ []

abbrev supported_check_types : List Text
supported_check_types = codes "shell" ∷ []

-- `_validate_document`
unfoldable pub validate_rules : List RuleDefinition → Result (Unit {0})
validate_rules [] = ok tt
validate_rules (rule ∷ rules) =
    let rest = validate_rules rules in
    if not (text_mem rule.check.type supported_check_types)
    then err (value_error (codes "Unsupported check type: " ++ rule.check.type))
    else if not (text_mem rule.check.expect.type supported_expectations)
    then err (value_error (codes "Unsupported expectation type: " ++ rule.check.expect.type))
    else rest

abbrev checked_document : BenchmarkDocument → Result (Unit {0}) → Result BenchmarkDocument
checked_document document (ok _) = ok document
checked_document document (err e) = err e

abbrev parsed : Result BenchmarkDocument → Result BenchmarkDocument
parsed (ok document) = checked_document document (validate_rules document.rules)
parsed (err e) = err e

-- `parse`, on the document that the file's validation returned or its exception
unfoldable pub parse : Result BenchmarkDocument → Result BenchmarkDocument
parse file = parsed file

abbrev has_id : Text → Rule → Bool
has_id id r = text_eq r.id id

-- Some primary key stands twice in the rules.
unfoldable pub clashing : List Rule → Bool
clashing [] = false
clashing (r ∷ rules) = any (has_id r.id) rules || clashing rules

-- What is pending is sent to the database, which refuses a primary key that is there.
unfoldable pub flush : M (Unit {0})
flush w = if clashing w.rules then (err (other_error (codes "IntegrityError")), w) else (ok tt, w)

abbrev add_benchmark : Benchmark → World → World
add_benchmark b w = record w { benchmarks = w.benchmarks ++ b ∷ [] }

abbrev save_benchmark : Benchmark → World → World
save_benchmark b w = record w {
  benchmarks = update_where (λ (c : Benchmark). text_eq c.id b.id) (λ _. b) w.benchmarks;
}

abbrev benchmark_row : BenchmarkDocument → Time → Time → Benchmark
benchmark_row document created_at updated_at = record {
  id = document.benchmark.id;
  title = document.benchmark.title;
  description = document.benchmark.description;
  version = document.benchmark.version;
  os_target = document.benchmark.os_target;
  maintainer = document.benchmark.metadata.maintainer;
  source = document.benchmark.metadata.source;
  tags_json = encoded document.benchmark.metadata.tags;
  schema_version = document.schema_version;
  created_at = created_at;
  updated_at = updated_at;
}

abbrev pub upsert : BenchmarkDocument → Option Benchmark → M Benchmark
upsert document none = do
  updated_at ← utcnow
  created_at ← utcnow
  let benchmark = benchmark_row document created_at updated_at
  modify (add_benchmark benchmark)
  pure benchmark
upsert document (some old) = do
  updated_at ← utcnow
  let benchmark = record (benchmark_row document old.created_at updated_at) { id = old.id }
  modify (save_benchmark benchmark)
  pure benchmark

-- `_upsert_benchmark`
unfoldable pub upsert_benchmark : BenchmarkDocument → M Benchmark
upsert_benchmark document =
    gets (λ w. first_where (λ (b : Benchmark). text_eq b.id document.benchmark.id) w.benchmarks)
    >>= upsert document

abbrev expected_text : Expected → Text
expected_text (word t) = t
expected_text (count n) = int_text n

abbrev tags_column : Columns → Option Value → Column (List Text)
tags_column c none = encoded []
tags_column c (some tags) = c.tags tags

abbrev status_or : Columns → Option Value → Text
status_or c none = codes "active"
status_or c (some status) = c.status status

unfoldable pub rule_row : Columns → BenchmarkDocument → ℕ → RuleDefinition → Time → Rule
rule_row c document organization_id rule created_at = record {
  id = decimal organization_id ++ b':' ∷ rule.id;
  organization_id = organization_id;
  benchmark_id = document.benchmark.id;
  title = rule.title;
  description = rule.description;
  severity = rule.severity;
  remediation = rule.remediation;
  references_json = encoded rule.references;
  metadata_json = encoded rule.metadata;
  tags_json = tags_column c (lookup (codes "tags") rule.metadata);
  check_type = rule.check.type;
  command = rule.check.command;
  expect_type = rule.check.expect.type;
  expect_value = expected_text rule.check.expect.value;
  timeout_seconds = rule.check.timeout;
  status = status_or c (lookup (codes "status") rule.metadata);
  last_run = none;
  created_at = created_at;
}

abbrev pub add_row : Rule → World → World
add_row rule w = record w { rules = w.rules ++ rule ∷ [] }

unfoldable pub add_rules : Columns → BenchmarkDocument → ℕ → List RuleDefinition → M (Unit {0})
add_rules c document organization_id [] = pure tt
add_rules c document organization_id (rule ∷ rules) = do
  created_at ← utcnow
  modify (add_row (rule_row c document organization_id rule created_at))
  add_rules c document organization_id rules

abbrev pub is_replaced : BenchmarkDocument → ℕ → Rule → Bool
is_replaced document organization_id r =
    text_eq r.benchmark_id document.benchmark.id && r.organization_id == organization_id

abbrev pub delete_rules : BenchmarkDocument → ℕ → World → World
delete_rules document organization_id w = record w {
  rules = where_rows (λ r. not (is_replaced document organization_id r)) w.rules;
}

-- `_replace_rules`
unfoldable pub replace_rules : Columns → BenchmarkDocument → ℕ → M (Unit {0})
replace_rules c document organization_id = do
  modify (delete_rules document organization_id)
  add_rules c document organization_id document.rules

abbrev pub load_document : Columns → ℕ → BenchmarkDocument → M Benchmark
load_document c organization_id document = do
  flush
  benchmark ← upsert_benchmark document
  replace_rules c document organization_id
  pure benchmark

unfoldable pub load_files : Columns → ℕ → List (Result BenchmarkDocument) → M (List Benchmark)
load_files c organization_id [] = flush >> pure []
load_files c organization_id (file ∷ files) = do
  document ← lift (parse file)
  benchmark ← load_document c organization_id document
  benchmarks ← load_files c organization_id files
  pure (benchmark ∷ benchmarks)

-- Nothing is committed before the end: where the whole raises, the tables are as they were.
abbrev pub or_rolled_back : {A : Type 0} → World → Result A × World → Result A × World
or_rolled_back w (ok a, w') = (ok a, w')
or_rolled_back w (err e, w') = (err e, record w { reads = w'.reads })

unfoldable pub load_all : Columns → List (Result BenchmarkDocument) → ℕ → M (List Benchmark)
load_all c files organization_id w = or_rolled_back w (load_files c organization_id files w)

-- `get_rules_for_benchmark`
unfoldable pub get_rules_for_benchmark : Text → World → List Rule
get_rules_for_benchmark benchmark_id w =
    select_rows (λ (r : Rule). r.organization_id) (λ r. text_eq r.benchmark_id benchmark_id) w
      w.rules
