-- ===== src/Tests/Entry.antt =====
-- Registration and login at a small site.
use compliance_pulse.Session.Monad.{ok}
use compliance_pulse.Auth.Signing.{sign, get_signature}
use compliance_pulse.Auth.Sessions.{sign_session}
use compliance_pulse.Services.Benchmarks.{clashing, flush, load_all, load_files}
use compliance_pulse.Auth.Passwords.{derive_key, hash}
use compliance_pulse.Auth.Slugs.{ensure_unique_slug}
use compliance_pulse.Prelude.{
  List, ◌∷◌, ◌≡◌, refl, arith, some, Text, true, false, none, [], codes, Dict, first_where, int_eq,
  strip, text_eq,
}
use compliance_pulse.Auth.Forms.{RegisterForm, register_form}
use compliance_pulse.Auth.Sessions.Backends.{memory_backend, memory_backend-IsBackend}
use compliance_pulse.Auth.Access.{SessionData}
use compliance_pulse.Auth.Entry.{Site, Draws, Visit, State, register, login, sign_in}
use compliance_pulse.Auth.Middleware.{open_visit}
use compliance_pulse.Auth.Middleware.Resumed.{found_as, open_visit-sign_in}
use compliance_pulse.Auth.Sessions.{create}
use compliance_pulse.Auth.Entry.Uniqueness.{
  AreUnique, AccountRequest, register_as, log_in, log_out, after_visits, after_visits-AreUnique,
}
use compliance_pulse.Auth.Entry.Returning.{credentials, login-register}
use compliance_pulse.Tests.{world}
use compliance_pulse.Tests.Codec.{codec, codec-IsCodec}
use compliance_pulse.Tests.Accounts.{ascii}
use compliance_pulse.Tests.Passwords.{library, hasher, library-IsLibrary}
use compliance_pulse.Tests.Scans.{columns}

abbrev site : Site (Dict Text)
site = record {
  backend = memory_backend codec;
  default_ttl = 10;
  cookie_secure = false;
  signer = record { secret_key = codes "k"; sep = b'.'; digest = λ key value. key };
  library = library;
  hasher = hasher;
  email_matches = λ email. true;
  encode_text = λ password. password;
  unicode = ascii;
  columns = columns;
  documents = [];
}

abbrev draws : Text → Draws
draws session_id = record {
  session_id = session_id;
  session_csrf = codes "t";
  rotated_csrf = codes "u";
  salt = codes "s";
  slug_token = codes "0a";
  organization_id = 4;
  user_id = 7;
  clock = λ n. n;
}

abbrev no_accounts : State (Dict Text)
no_accounts = record {
  accounts = record { users = []; organizations = []; memberships = [] };
  world = world;
  sessions = [];
}

abbrev first_visit : Visit
first_visit = record { session_id = none; session_data = none; is_https = true }

abbrev form : RegisterForm
form = record {
  email = codes " Ada@example.org";
  password = codes "password";
  confirm_password = codes "password";
  organization_name = codes "Pulse";
}

abbrev left_state : State (Dict Text)
left_state = (register site (draws (codes "a")) form first_visit no_accounts).1

login-register_example :
    login site (draws (codes "b")) (credentials form) first_visit left_state
    ≡ sign_in site (draws (codes "b")) true 7 4 first_visit left_state
unfolding register first_where register_form strip text_eq ensure_unique_slug hash derive_key int_eq
    load_all load_files flush clashing sign_in sign_session sign
login-register_example =
    login-register site (draws (codes "a")) (draws (codes "b")) form first_visit first_visit
      no_accounts left_state (codes "a.k") false library-IsLibrary
      (record {
        time = omega arith;
        memory = omega arith;
        parallel = omega arith;
        digest = omega arith;
      })
      refl refl

abbrev visits : List (AccountRequest × Draws × Visit)
visits =
    (register_as form, draws (codes "a"), first_visit)
    ∷ (log_out, draws (codes "b"), first_visit)
    ∷ (
      register_as (record form { email = codes "bob@example.org" }),
      draws (codes "c"),
      first_visit,
    )
    ∷ (log_in (credentials form), draws (codes "d"), first_visit)
    ∷ []

after_visits-AreUnique_example : AreUnique (after_visits site visits no_accounts).accounts
after_visits-AreUnique_example =
    after_visits-AreUnique site visits no_accounts (record { slugs = tt; emails = tt })

abbrev signed_state : State (Dict Text)
signed_state = (sign_in site (draws (codes "a")) true 7 4 first_visit no_accounts).1

open_visit-sign_in_example :
    (session : SessionData) × ((open_visit site
        (draws (codes "b"))
        (some (codes "a.k"))
        signed_state.sessions).0
      ≡ ok (found_as (codes "a") session))
    × (session.user_id ≡ some 7)
    × (session.organization_id ≡ some 4)
unfolding sign_in create get_signature sign_session sign
open_visit-sign_in_example =
    open_visit-sign_in site (draws (codes "a")) (draws (codes "b")) true true 7 4 first_visit
      no_accounts signed_state (codes "a.k") (memory_backend-IsBackend codec codec-IsCodec)
      (λ v. ((refl, omega arith), tt)) (λ e. cc) (omega arith) refl
