-- ===== src/Models.antt =====
-- backend/app/models/domain.py: the tables, one record for each row type. A row has its primary
-- key, since a model row is one that the database has stored. Times are whole microseconds, scores
-- hundredths of a percent. A JSON text column is a `Column` of the value that it encodes.
pub mod Scanning
pub mod Agents
pub mod Accounts
pub mod Limits
pub mod Values
