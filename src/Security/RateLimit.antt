-- ===== src/Security/RateLimit.antt =====
-- backend/app/security/rate_limit.py: a fixed-window counter for each key. `time.time()` is an
-- argument, in microseconds; the lock makes each hit one step.
pub mod Windows
use compliance_pulse.Models.Limits.{Window, Store}
use compliance_pulse.Prelude.{
  ℕ, suc, ◌+◌, ◌-◌, ◌*◌, ◌/◌, max, Text, Bool, true, false, Option, none, some, List, [], ◌∷◌, ◌++◌,
  codes, is_empty, decimal, leb, ltb, if◌then◌else◌, Dict, lookup, insert,
}
use compliance_pulse.Models.Scanning.{Time}
use compliance_pulse.Session.Monad.{Result, ok, err, Error, http}
use compliance_pulse.Security.Settings.{SecuritySettings}

abbrev pub second : ℕ
second = 1_000_000

-- `self._hits.get(key, (now, 0))`
abbrev pub window_or : Time → Option Window → Window
window_or now none = record { start = now; count = 0 }
window_or now (some w) = w

-- A window that has run out is opened anew.
unfoldable pub renewed : ℕ → Time → Window → Window
renewed window_seconds now w =
    if leb (w.start + window_seconds * second) now then record { start = now; count = 0 } else w

unfoldable pub bump : Window → Window
bump w = record w { count = w.count + 1 }

-- The answer for a window that already counts the hit: is it allowed, and when to come back.
unfoldable pub verdict : ℕ → ℕ → Time → Window → Bool × ℕ
verdict limit window_seconds now w =
    if ltb limit w.count
    then (false, max ((w.start + window_seconds * second - now) / second) 1)
    else (true, 0)

-- `MemoryRateLimitStore.hit`
unfoldable pub hit : Text → ℕ → ℕ → Time → Store → (Bool × ℕ) × Store
unfolding renewed bump verdict
hit key limit window_seconds now store =
    let w = bump (renewed window_seconds now (window_or now (lookup key store))) in
    (verdict limit window_seconds now w, insert key w store)

-- `MemoryRateLimitStore.reset`
unfoldable pub reset : Store → Store
reset store = []

-- `raise HTTPException(429)` when the hit is not allowed
abbrev admit : Text → Bool × ℕ → Result (Unit {0})
admit detail (allowed, retry_after) =
    if allowed
    then ok tt
    else err (http 429 (detail ++ (codes "; Retry-After: " ++ decimal retry_after)))

-- The caller's identity: the forwarding header, the peer's address, or "anonymous".
unfoldable pub identifier : Option Text → Option Text → Text
identifier none none = codes "anonymous"
identifier none (some host) = if is_empty host then codes "anonymous" else host
identifier (some forwarded) none = if is_empty forwarded then codes "anonymous" else forwarded
identifier (some forwarded) (some host) =
    if is_empty forwarded then (if is_empty host then codes "anonymous" else host) else forwarded

-- `rate_limit(name, limit, window_seconds)`
unfoldable pub rate_limit :
    Text → ℕ → ℕ → Option Text → Option Text → Time → Store → Result (Unit {0}) × Store
unfolding identifier
rate_limit name limit window_seconds forwarded host now store =
    let key = name ++ (codes ":" ++ identifier forwarded host) in
    let (answer, store') = hit key limit window_seconds now store in
    (admit (codes "Rate limit exceeded") answer, store')

abbrev pub api_key_bucket : Text → Text
api_key_bucket prefix = codes "api-key:" ++ prefix

unfoldable pub enforce_api_key_limit :
    SecuritySettings → Text → Time → Store → Result (Unit {0}) × Store
enforce_api_key_limit s prefix now store =
    let (answer, store') =
      hit (api_key_bucket prefix) s.api_key_rate_limit s.api_key_rate_window_seconds now store in
    (admit (codes "API key rate limit exceeded") answer, store')
