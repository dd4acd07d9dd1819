-- ===== src/Security/ApiKeys/Verified.antt =====
-- Which keys `verify_api_key` of backend/app/security/api_keys.py lets through.
use compliance_pulse.Prelude.{
  suc, ◌≡◌, refl, ap, ◌⊎◌, inl, inr, arith, Text, true, Option, none, some, List, codes, text_eq,
  text_eq_sound, first_where, first_where-Has, Has, Bool-cases,
}
use compliance_pulse.Models.Scanning.{Time}
use compliance_pulse.Models.Accounts.{ApiKey, AuditLog}
use compliance_pulse.Session.World.{World}
use compliance_pulse.Session.Monad.{Result, ok, err, pure, utcnow, continue}
use compliance_pulse.Security.RateLimit.{enforce_api_key_limit}
use compliance_pulse.Security.Audit.{log_action-quiet}
use compliance_pulse.Security.ApiKeys.{
  Keys, hash_api_key, prefix_of, save_key, log_usage, use_key, check_hash, is_candidate,
  verify_api_key,
}

-- A stored active key with the digest of the text
pub record Opens (x : Keys) (raw_key : Text) (w : World) (key : ApiKey) : Type 0 where
  pub row : ApiKey
  pub stored : Has row w.api_keys
  pub active : row.is_active ≡ true
  pub prefix : row.prefix ≡ prefix_of raw_key
  pub hashed : row.hashed_key ≡ hash_api_key x raw_key
  pub used : key ≡ record row { last_used_at = some (w.clock w.reads) }

pub log_usage-quiet :
    (key : ApiKey) (w : World)
    → (entries : List AuditLog) × (log_usage key w ≡ (
      ok (some key),
      record w { audit = entries; reads = suc w.reads; next_id = suc w.next_id },
    ))
log_usage-quiet key w =
    let (entries, e) =
      log_action-quiet (codes "API_KEY_USAGE") (some (codes "API_KEY")) _ none none none _ w in
    (entries, ap (λ r. continue r (λ _. pure (some key))) e)

-- What follows the limiter's answer
limited-answer :
    (answer : Result (Unit {0})) (key : ApiKey) (v : World)
    → ((answer ≡ ok tt) × ((continue (answer, v) (λ _. log_usage key)).0 ≡ ok (some key)))
      ⊎ ((e : _) × (answer ≡ err e) × (continue (answer, v) (λ _. log_usage key) ≡ (err e, v)))
limited-answer (ok _) key v =
    let (entries, e) = log_usage-quiet key v in inl (refl, ap (λ r. r.0) e)
limited-answer (err raised) key v = inr (raised, refl, refl)

abbrev pub used_at : Time → ApiKey → ApiKey
used_at now candidate = record candidate { last_used_at = some now }

use_key-answer :
    (x : Keys) (candidate : ApiKey) (w : World)
    → ((use_key x candidate w).0 ≡ ok (some (used_at (w.clock w.reads) candidate)))
      ⊎ ((e : _) × ((use_key x candidate w).0 ≡ err e))
unfolding utcnow
use_key-answer x candidate w =
    let key = used_at (w.clock w.reads) candidate in
    let (answer, hits) =
      enforce_api_key_limit x.settings candidate.prefix (w.clock (suc w.reads)) w.hits in
    let v = save_key key (record w { reads = suc (suc w.reads); hits = hits }) in
    elim (limited-answer answer key v) [
      | inl (_, e) ↦ inl e
      | inr (raised, _, e) ↦ inr (raised, ap (λ r. r.0) e)
    ]

-- A use that the limiter lets pass
pub use_key-admitted :
    (x : Keys) (candidate : ApiKey) (w : World)
    → (enforce_api_key_limit x.settings candidate.prefix (w.clock (suc w.reads)) w.hits).0 ≡ ok tt
    → (use_key x candidate w).0 ≡ ok (some (used_at (w.clock w.reads) candidate))
unfolding utcnow
use_key-admitted x candidate w admitted =
    let key = used_at (w.clock w.reads) candidate in
    let (answer, hits) =
      enforce_api_key_limit x.settings candidate.prefix (w.clock (suc w.reads)) w.hits in
    let v = save_key key (record w { reads = suc (suc w.reads); hits = hits }) in
    elim (limited-answer answer key v) [
      | inl (_, e) ↦ e
      | inr (raised, refused, e) ↦ absurd (cc (refused, admitted))
    ]

use_key-row :
    (x : Keys) (candidate : ApiKey) (w w' : World) (key : ApiKey)
    → use_key x candidate w ≡ (ok (some key), w')
    → key ≡ used_at (w.clock w.reads) candidate
use_key-row x candidate w w' key h = elim (use_key-answer x candidate w) [
  | inl e ↦ cc (ap (λ (r : Result (Option ApiKey) × World). r.0) h)
  | inr (raised, e) ↦ absurd (cc (ap (λ (r : Result (Option ApiKey) × World). r.0) h))
]

check_hash-Opens :
    (x : Keys) (raw_key : Text) (candidate : Option ApiKey) (w w' : World) (key : ApiKey)
    → first_where (is_candidate raw_key) w.api_keys ≡ candidate
    → check_hash x raw_key candidate w ≡ (ok (some key), w')
    → Opens x raw_key w key
check_hash-Opens x raw_key none w w' key found h = absurd (cc)
check_hash-Opens x raw_key (some candidate) w w' key found h =
    elim (Bool-cases (text_eq candidate.hashed_key (hash_api_key x raw_key))) [
      | inl same ↦
          let (stored, passes) = first_where-Has (is_candidate raw_key) w.api_keys found in
          record {
            row = candidate;
            stored = stored;
            active = ground arith;
            prefix = text_eq_sound candidate.prefix (prefix_of raw_key) (ground arith);
            hashed = text_eq_sound candidate.hashed_key (hash_api_key x raw_key) same;
            used = use_key-row x candidate w w' key (rw same at h);
          }
      | inr different ↦ absurd (cc (rw different at h))
    ]

-- A key that is verified is a stored one that is active, begins as the text does and has its digest;
-- it is answered as stored, with the time of its use.
pub verify_api_key-Opens :
    (x : Keys) (raw_key : Text) (w w' : World) (key : ApiKey)
    → verify_api_key x raw_key w ≡ (ok (some key), w')
    → Opens x raw_key w key
unfolding verify_api_key
verify_api_key-Opens x raw_key w w' key h = check_hash-Opens x raw_key _ w w' key refl h
