-- ===== src/Session.antt =====
-- backend/app/database.py and the session that the engine works on: the rows of the scan tables
-- in the order in which they were stored, the tenant filter of `_add_tenant_filter`, the clock.
pub mod World
pub mod Monad
pub mod Frame
pub mod Rows
pub mod Preserve
