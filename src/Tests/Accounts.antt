-- ===== src/Tests/Accounts.antt =====
-- The theorems on sessions and API keys, at small inputs.
use compliance_pulse.Auth.Sessions.{read_session}
use compliance_pulse.Security.RateLimit.{enforce_api_key_limit, hit}
use compliance_pulse.Security.Audit.{log_action}
use compliance_pulse.Prelude.{
  Bool, ◌≡◌, ◌≢◌, refl, some, none, true, false, List, [], ◌∷◌, codes, text_eq, lookup, insert,
  first_where, update_where, text_mem, ℕ, Text, leb, ◌&&◌, ◌||◌, ◌<◌, lower_code, length, split_on,
  where_rows, any, decimal, decimal_fuel, arith,
}
use compliance_pulse.Models.Accounts.{ApiKey, Organization}
use compliance_pulse.Session.World.{World}
use compliance_pulse.Session.Monad.{ok, draw, fresh_id, utcnow}
use compliance_pulse.Engine.Scoring.Tags.{IsSorted}
use compliance_pulse.Auth.Sessions.Backends.{memory_backend, memory_backend-IsBackend}
use compliance_pulse.Auth.Sessions.Refinement.{
  Call, create_session, get_session, destroy_session, Table, run, replay, Shows, run_refines,
}
use compliance_pulse.Auth.Slugs.{
  Unicode, slugify, try_slugs, ensure_unique_slug, cleaned_chars, join_dashes, is_taken, numbered,
}
use compliance_pulse.Auth.Slugs.Unique.{IsFirstFree, ensure_unique_slug-IsFirstFree}
use compliance_pulse.Security.ApiKeys.{
  Keys, new_key, create_key, revoke_key, verify_api_key, encode_scopes, decode_scopes, hash_api_key,
}
use compliance_pulse.Security.ApiKeys.Verified.{Opens, verify_api_key-Opens}
use compliance_pulse.Security.ApiKeys.Lifecycle.{create_key-verify_api_key}
use compliance_pulse.Security.ApiKeys.Revoked.{created, verified, revoke_key-verify_api_key}
use compliance_pulse.Security.ApiKeys.Scopes.{decode_scopes-encode_scopes}
use compliance_pulse.Tests.{settings, world}
use compliance_pulse.Tests.Codec.{codec, codec-IsCodec}

abbrev calls : List Call
calls =
    create_session (codes "a") (codes "t") 0 1 (some 4) none
    ∷ get_session true (codes "a") 2 3
    ∷ destroy_session (codes "a")
    ∷ get_session false (codes "a") 4 5
    ∷ []

abbrev no_sessions : Table
no_sessions key = none

run_refines_example :
    ((run (memory_backend codec) 10 calls []).0 ≡ (replay 10 calls no_sessions).0)
    × Shows
        (memory_backend codec)
        10
        (run (memory_backend codec) 10 calls []).1
        (replay 10 calls no_sessions).1
unfolding lookup read_session
run_refines_example =
    run_refines (memory_backend codec) 10 (memory_backend-IsBackend codec codec-IsCodec) calls []
      no_sessions (λ key. refl)

abbrev keys : Keys
keys = record { settings = settings; hmac_sha256 = λ salt message. message }

abbrev with_key : World
with_key = (create_key keys none (codes "n") [] world).1

abbrev key : ApiKey
key = new_key keys none (codes "n") [] (codes "abcdefghijklmnop") 100 9

create_key-verify_api_key_example :
    (verify_api_key keys (codes "abcdefghijklmnop") with_key).0
    ≡ ok (some (record key { last_used_at = some 102 }))
unfolding create_key draw utcnow fresh_id log_action enforce_api_key_limit hit lookup
create_key-verify_api_key_example =
    create_key-verify_api_key keys none (codes "n") [] world with_key (codes "abcdefghijklmnop") key
      tt refl refl

abbrev used_key : ApiKey
used_key = record key { last_used_at = some 102 }

abbrev after_use : World
after_use = (verify_api_key keys (codes "abcdefghijklmnop") with_key).1

verify_api_key-Opens_example : Opens keys (codes "abcdefghijklmnop") with_key used_key
unfolding verify_api_key first_where create_key draw utcnow fresh_id log_action text_eq hash_api_key
    enforce_api_key_limit hit lookup
verify_api_key-Opens_example =
    verify_api_key-Opens keys (codes "abcdefghijklmnop") with_key after_use used_key refl

-- Two keys, the first of which is revoked
abbrev other_key : ApiKey
other_key = record key { id = 8; prefix = codes "q"; hashed_key = codes "q" }

abbrev two_keys : World
two_keys = record world { api_keys = other_key ∷ key ∷ []; next_id = 10 }

abbrev used_early : ApiKey
used_early = record key { last_used_at = some 106 }

abbrev one_revoked : World
one_revoked = (revoke_key 8 two_keys).1

-- The other key is used, and a third one is made.
abbrev then_used : World
then_used = (verify_api_key keys (codes "abcdefghijklmnop") one_revoked).1

abbrev then_created : World
then_created = (create_key keys none (codes "m") [] then_used).1

revoke_key-verify_api_key_example : used_early.id ≢ 8
unfolding revoke_key first_where log_action verify_api_key update_where text_eq hash_api_key
    enforce_api_key_limit hit lookup insert create_key draw utcnow fresh_id
revoke_key-verify_api_key_example =
    revoke_key-verify_api_key keys 8 (codes "abcdefghijklmnop") two_keys one_revoked then_created
      (verify_api_key keys (codes "abcdefghijklmnop") then_created).1
      (then_used ∷ then_created ∷ []) (record other_key { is_active = false }) used_early
      (omega arith) refl
      (verified (codes "abcdefghijklmnop") refl, (created none (codes "m") [] refl, refl)) refl

decode_scopes-encode_scopes_example :
    IsSorted (decode_scopes (encode_scopes (codes "w" ∷ codes "r" ∷ codes "w" ∷ [])))
    × ((scope : Text)
        → text_mem scope (decode_scopes (encode_scopes (codes "w" ∷ codes "r" ∷ codes "w" ∷ [])))
          ≡ text_mem scope (codes "w" ∷ codes "r" ∷ codes "w" ∷ []))
decode_scopes-encode_scopes_example =
    decode_scopes-encode_scopes (codes "w" ∷ codes "r" ∷ codes "w" ∷ [])
      ((refl, (refl, tt)), ((refl, (refl, tt)), ((refl, (refl, tt)), tt)))

abbrev is_letter : ℕ → Bool
is_letter c = leb b'a' (lower_code c) && leb (lower_code c) b'z'

abbrev pub ascii : Unicode
ascii = record {
  is_alnum = λ c. is_letter c || leb b'0' c && leb c b'9';
  lower_char = λ c. lower_code c ∷ [];
}

abbrev named : ℕ → Text → Organization
named id slug = record { id = id; name = slug; slug = slug; created_at = 0; updated_at = 0 }

abbrev two_organizations : List Organization
two_organizations = named 1 (codes "the-pulse") ∷ named 2 (codes "the-pulse-1") ∷ []

second_number :
    ensure_unique_slug ascii (codes "0a1b2c3d") two_organizations (codes "The  Pulse!")
    ≡ some (codes "the-pulse-2")
unfolding ensure_unique_slug try_slugs slugify cleaned_chars join_dashes is_taken numbered
    lower_code split_on where_rows any text_eq decimal decimal_fuel
second_number = refl

ensure_unique_slug-IsFirstFree_example :
    IsFirstFree two_organizations
      (slugify ascii (codes "0a1b2c3d") (codes "The  Pulse!"))
      0
      (ensure_unique_slug ascii (codes "0a1b2c3d") two_organizations (codes "The  Pulse!"))
    × ((fuel : ℕ)
        → length two_organizations < fuel
        → try_slugs fuel two_organizations
            (slugify ascii (codes "0a1b2c3d") (codes "The  Pulse!"))
            (slugify ascii (codes "0a1b2c3d") (codes "The  Pulse!"))
            1
          ≡ ensure_unique_slug ascii (codes "0a1b2c3d") two_organizations (codes "The  Pulse!"))
ensure_unique_slug-IsFirstFree_example =
    ensure_unique_slug-IsFirstFree ascii (codes "0a1b2c3d") two_organizations (codes "The  Pulse!")
