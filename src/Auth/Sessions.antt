-- ===== src/Auth/Sessions.antt =====
-- `SessionStore` of backend/app/auth/utils.py. `datetime.utcnow()` and what the `secrets` module draws
-- are arguments.
pub mod Backends
pub mod Refinement
use compliance_pulse.Prelude.{
  ℕ, ◌+◌, ◌*◌, ◌≡◌, Text, Bool, true, false, Option, none, some, [], ◌∷◌, codes, ltb, text_eq,
  if◌then◌else◌,
}
use compliance_pulse.Models.Scanning.{Time}
use compliance_pulse.Security.RateLimit.{second}
use compliance_pulse.Session.Monad.{Result, ok, err, other_error}
use compliance_pulse.Auth.Access.{SessionData}
use compliance_pulse.Auth.Payload.{Codec, IsCodec, to_json, from_json}
use compliance_pulse.Auth.Signing
use compliance_pulse.Auth.Signing.{Signer, Unsigned, type_error, bad_signature, signed_value}

-- The backends' three methods on payloads, and how a payload is written. `_MemoryBackend` is a
-- dictionary, in `Backends`; `_RedisBackend` is another, whose server also drops an entry that is out of
-- time.
pub record Backend (S : Type 0) : Type 0 where
  pub read : Text → S → Option Text
  pub write : Text → Text → ℕ → S → S
  pub delete : Text → S → S
  pub codec : Codec

-- What the store relies on: a read sees the last write under its key that was not deleted.
pub record IsBackend {S : Type 0} (b : Backend S) : Type 0 where
  pub read-write :
      (key other payload : Text) (ttl_seconds : ℕ) (s : S)
      → b.read other (b.write key payload ttl_seconds s)
        ≡ (if text_eq key other then some payload else b.read other s)
  pub read-delete :
      (key other : Text) (s : S)
      → b.read other (b.delete key s) ≡ (if text_eq key other then none else b.read other s)
  pub is_codec : IsCodec b.codec

-- `SessionData.touch`
abbrev pub touched : ℕ → Time → SessionData → SessionData
touched ttl_seconds now session = record session { expires_at = now + ttl_seconds * second }

-- The session that `create` stores
abbrev pub fresh_session : ℕ → Text → Time → Time → Option ℕ → Option ℕ → SessionData
fresh_session default_ttl csrf created_at now user_id organization_id = record {
  user_id = user_id;
  organization_id = organization_id;
  csrf_token = csrf;
  created_at = created_at;
  expires_at = now + default_ttl * second;
}

abbrev loaded_session : Result SessionData → Result (Option SessionData)
loaded_session (ok session) = ok (some session)
loaded_session (err e) = err e

-- An empty payload counts as none.
abbrev pub found_payload : Codec → Option Text → Result (Option SessionData)
found_payload codec none = ok none
found_payload codec (some []) = ok none
found_payload codec (some (c ∷ cs)) = loaded_session (from_json codec (c ∷ cs))

module _ {S : Type 0} (b : Backend S) (default_ttl : ℕ) where
  unfoldable pub save : Text → SessionData → S → S
  save session_id session s = b.write session_id (to_json b.codec session) default_ttl s

  -- The payload of a session, where there is one
  unfoldable pub read_session : Text → S → Result (Option SessionData)
  read_session session_id s = found_payload b.codec (b.read session_id s)

  -- `create`, where `session_id` and `csrf` are drawn
  unfoldable pub create : Text → Text → Time → Time → Option ℕ → Option ℕ → S → SessionData × S
  unfolding save
  create session_id csrf created_at now user_id organization_id s =
      let session = fresh_session default_ttl csrf created_at now user_id organization_id in
      (session, save session_id session s)

  unfoldable pub destroy : Text → S → S
  destroy session_id s = b.delete session_id s

  -- `data.touch(...)` and `save`, if asked for
  unfoldable pub touch_if : Bool → Text → Time → SessionData → S → Result (Option SessionData) × S
  unfolding save
  touch_if false session_id later session s = (ok (some session), s)
  touch_if true session_id later session s =
      let session' = touched default_ttl later session in
      (ok (some session'), save session_id session' s)

  -- What `get` makes of what it reads; `now` and `later` are its two readings of the clock. A payload
  -- that cannot be read raises.
  abbrev pub get_found :
      Bool → Text → Time → Time → Result (Option SessionData) → S → Result (Option SessionData) × S
  get_found touch session_id now later (err e) s = (err e, s)
  get_found touch session_id now later (ok none) s = (ok none, s)
  get_found touch session_id now later (ok (some session)) s =
      if ltb session.expires_at now
      then (ok none, b.delete session_id s)
      else touch_if touch session_id later session s

  unfoldable pub get : Bool → Text → Time → Time → S → Result (Option SessionData) × S
  unfolding read_session
  get touch session_id now later s =
      get_found touch session_id now later (read_session session_id s) s

  unfoldable pub rotate_csrf : Text → SessionData → Text → S → Text × S
  unfolding save
  rotate_csrf session_id session csrf s =
      (csrf, save session_id (record session { csrf_token = csrf }) s)

-- `SessionStore.sign` and `SessionStore.unsign`
unfoldable pub sign_session : Signer → Text → Text
sign_session signer session_id = Signing.sign signer session_id

abbrev pub value_of : Unsigned → Result (Option Text)
value_of type_error = err (other_error (codes "TypeError"))
value_of (bad_signature reason) = ok none
value_of (signed_value value) = ok (some value)

unfoldable pub unsign_session : Signer → Text → Result (Option Text)
unsign_session signer signed = value_of (Signing.unsign signer signed)
