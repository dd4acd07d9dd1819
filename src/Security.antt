-- ===== src/Security.antt =====
-- backend/app/security: the settings, the sandbox policy for shell commands, the masking of
-- secrets, the audit log and the rate limiter.
pub mod Settings
pub mod Sandbox
pub mod Masking
pub mod ApiKeys
pub mod Audit
pub mod RateLimit
