-- ===== src/Models/Limits.antt =====
-- The state of the rate limiter: `MemoryRateLimitStore._hits` of backend/app/security/rate_limit.py.
use compliance_pulse.Prelude.{ℕ, Dict}
use compliance_pulse.Models.Scanning.{Time}

pub record Window : Type 0 where
  pub start : Time
  pub count : ℕ

-- `MemoryRateLimitStore._hits`
abbrev pub Store : Type 0
Store = Dict Window
