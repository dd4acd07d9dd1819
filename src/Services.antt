-- ===== src/Services.antt =====
-- backend/app/services and the rule endpoints: schedules, scans, benchmarks and rules.
pub mod Schedules
pub mod Scans
pub mod Benchmarks
pub mod Rules
pub mod RuleExecution
