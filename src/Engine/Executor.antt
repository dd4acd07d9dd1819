-- ===== src/Engine/Executor.antt =====
-- backend/engine/scan_executor.py
pub mod Steps
pub mod Loop
pub mod Finishing
pub mod Completed
pub mod Groups
pub mod Frame
