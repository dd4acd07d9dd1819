-- ===== src/Engine.antt =====
-- backend/engine: the rule engine, the scan executor, the scheduler.
pub mod Host
pub mod RuleEngine
pub mod Summary
pub mod Scoring
pub mod Executor
pub mod Scheduler
