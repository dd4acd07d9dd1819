-- ===== src/Auth/Entry.antt =====
-- backend/app/auth/router.py: login and registration, behind their dependencies. Of an answer the
-- session cookie's value and whether it is secure are kept, of a refused form its status and message.
pub mod Organizations
pub mod Returning
pub mod Uniqueness
use compliance_pulse.Prelude.{
  ℕ, ◌+◌, ◌==◌, Text, Bool, true, false, Option, none, some, List, [], ◌∷◌, ◌++◌, codes, ◌&&◌, ◌||◌,
  leb, lower, strip, text_eq, is_empty, first_where, length, if◌then◌else◌,
}
use compliance_pulse.Auth.Forms.{LoginForm, RegisterForm, login_form, register_form}
use compliance_pulse.Models.Scanning.{Time}
use compliance_pulse.Models.Accounts.{owner, Organization, User, UserOrganization}
use compliance_pulse.Models.Scanning.{Benchmark}
use compliance_pulse.Session.World.{World}
use compliance_pulse.Session.Monad.{Result, ok, err, Error, http, other_error}
use compliance_pulse.Services.Benchmarks.{BenchmarkDocument, Columns, load_all}
use compliance_pulse.Auth.Access.{SessionData, Accounts}
use compliance_pulse.Auth.Signing.{Signer}
use compliance_pulse.Auth.Sessions.{Backend, create, save, destroy, rotate_csrf, sign_session}
use compliance_pulse.Auth.Passwords.{Library, PasswordHasher, hash, verify_password}
use compliance_pulse.Auth.Slugs.{Unicode, ensure_unique_slug}

-- What the endpoints are configured with: the session store, the hasher, `_EMAIL_RE.match`,
-- `str.encode`, and the benchmark files as the loader reads them
pub record Site (S : Type 0) : Type 0 where
  pub backend : Backend S
  pub default_ttl : ℕ
  pub cookie_secure : Bool
  pub signer : Signer
  pub library : Library
  pub hasher : PasswordHasher
  pub email_matches : Text → Bool
  pub encode_text : Text → Text
  pub unicode : Unicode
  pub columns : Columns
  pub documents : List (Result BenchmarkDocument)

-- What a request draws from the `secrets` module, and the readings of the clock, by number
pub record Draws : Type 0 where
  pub session_id : Text
  pub session_csrf : Text
  pub rotated_csrf : Text
  pub salt : Text
  pub slug_token : Text
  pub organization_id : ℕ
  pub user_id : ℕ
  pub clock : ℕ → Time

-- `request.state.session_id` and `request.state.session_data`, and whether the header
-- `x-forwarded-proto` is "https" in lower case
pub record Visit : Type 0 where
  pub session_id : Option Text
  pub session_data : Option SessionData
  pub is_https : Bool

-- The database, in which `world` has the benchmarks and rules, and the sessions
pub record State (S : Type 0) : Type 0 where
  pub accounts : Accounts
  pub world : World
  pub sessions : S

pub data Page : Type 0 where
  refused : ℕ → Option Text → Page
  with_cookie : Text → Bool → Page

abbrev pub find_user : Text → List User → Option User
find_user email users = first_where (λ (u : User). text_eq u.email email) users

abbrev pub find_membership : ℕ → List UserOrganization → Option UserOrganization
find_membership user_id rows = first_where (λ (m : UserOrganization). m.user_id == user_id) rows

module _ {S : Type 0} (site : Site S) (d : Draws) where
  abbrev pub new_session : S → Text × SessionData × S
  new_session s =
      let (session, s') =
        create site.backend site.default_ttl d.session_id d.session_csrf (d.clock 0) (d.clock 1)
          none none s in
      (d.session_id, session, s')

  -- The visit's session, or a new one where the visit has none
  abbrev pub current_session : Option Text → Option SessionData → S → Text × SessionData × S
  current_session (some session_id) (some session) s =
      if is_empty session_id then new_session s else (session_id, session, s)
  current_session none session s = new_session s
  current_session (some session_id) none s = new_session s

  -- The session as changed gets a new CSRF token and is saved twice.
  abbrev pub save_rotated : (SessionData → SessionData) → Text × SessionData × S → Text × S
  save_rotated change (session_id, session, s) =
      let bound = change session in
      let (csrf, s') =
        rotate_csrf site.backend site.default_ttl session_id bound d.rotated_csrf s in
      (
        session_id,
        save site.backend site.default_ttl session_id (record bound { csrf_token = csrf }) s',
      )

  abbrev pub enter_as : ℕ → ℕ → SessionData → SessionData
  enter_as user_id organization_id session = record session {
    user_id = some user_id;
    organization_id = some organization_id;
  }

  abbrev pub redirect : Bool → State S → Text × S → Result Page × State S
  redirect secure st (session_id, s) =
      (ok (with_cookie (sign_session site.signer session_id) secure), record st { sessions = s })

  -- The end of `login` and of `register`
  unfoldable pub sign_in : Bool → ℕ → ℕ → Visit → State S → Result Page × State S
  sign_in secure user_id organization_id visit st = redirect secure st (
      save_rotated (enter_as user_id organization_id)
        (current_session visit.session_id visit.session_data st.sessions))

  abbrev pub login_member : User → Visit → State S → Option UserOrganization → Result Page × State S
  login_member user visit st none =
      (err (http 400 (codes "User has no organizations configured")), st)
  login_member user visit st (some membership) =
      sign_in (visit.is_https || site.cookie_secure) user.id membership.organization_id visit st

  abbrev pub login_verified : User → Visit → State S → Result Bool → Result Page × State S
  login_verified user visit st (err e) = (err e, st)
  login_verified user visit st (ok false) =
      (ok (refused 400 (some (codes "Invalid email or password"))), st)
  login_verified user visit st (ok true) =
      login_member user visit st (find_membership user.id st.accounts.memberships)

  abbrev pub login_user : Text → Visit → State S → Option User → Result Page × State S
  login_user password visit st none =
      (ok (refused 400 (some (codes "Invalid email or password"))), st)
  login_user password visit st (some user) =
      login_verified user visit st
        (verify_password site.library site.hasher (site.encode_text password) user.hashed_password)

  abbrev pub login_checked : Visit → State S → Option LoginForm → Result Page × State S
  login_checked visit st none = (ok (refused 400 none), st)
  login_checked visit st (some form) =
      login_user form.password visit st (find_user (lower form.email) st.accounts.users)

  unfoldable pub login : LoginForm → Visit → State S → Result Page × State S
  login raw visit st = login_checked visit st (login_form site.email_matches raw)

  -- The rows of `register` and of `create_org`
  abbrev pub organization_row : Text → Text → Organization
  organization_row name slug = record {
    id = d.organization_id;
    name = name;
    slug = slug;
    created_at = d.clock 2;
    updated_at = d.clock 3;
  }

  abbrev pub user_row : Text → Text → User
  user_row email hashed_password = record {
    id = d.user_id;
    email = email;
    hashed_password = hashed_password;
    is_active = true;
    is_verified = false;
    created_at = d.clock 4;
    updated_at = d.clock 5;
  }

  abbrev pub owner_row : ℕ → UserOrganization
  owner_row user_id = record {
    user_id = user_id;
    organization_id = d.organization_id;
    role = owner;
    joined_at = d.clock 6;
  }

  -- `loader.load_all(db, organization.id)`, and the rest of the request
  abbrev pub then_loaded :
      (State S → Result Page × State S)
      → State S
      → Result (List Benchmark) × World
      → Result Page × State S
  then_loaded next st (err e, w) = (err e, record st { world = w })
  then_loaded next st (ok benchmarks, w) = next (record st { world = w })

  abbrev pub load_benchmarks : (State S → Result Page × State S) → State S → Result Page × State S
  load_benchmarks next st =
      then_loaded next st (load_all site.columns site.documents d.organization_id st.world)

  abbrev pub registered : RegisterForm → Text → Text → State S → State S
  registered form slug hashed_password st = record st {
    accounts = record {
      users = st.accounts.users ++ user_row (lower form.email) hashed_password ∷ [];
      organizations =
          st.accounts.organizations ++ organization_row form.organization_name slug ∷ [];
      memberships = st.accounts.memberships ++ owner_row d.user_id ∷ [];
    };
  }

  -- The three rows, which one commit stores. A password that cannot be hashed ends the request
  -- before it.
  abbrev pub register_rows :
      RegisterForm → Visit → State S → Text → Result Text → Result Page × State S
  register_rows form visit st slug (err e) = (err e, st)
  register_rows form visit st slug (ok hashed_password) =
      load_benchmarks
        (sign_in (site.cookie_secure && visit.is_https) d.user_id d.organization_id visit)
        (registered form slug hashed_password st)

  -- The search for a slug always finds one, so that its `none` is not met.
  abbrev pub register_slug : RegisterForm → Visit → State S → Option Text → Result Page × State S
  register_slug form visit st none = (err (other_error (codes "no slug")), st)
  register_slug form visit st (some slug) =
      register_rows form visit st slug
        (hash site.library site.hasher d.salt (site.encode_text form.password))

  abbrev pub register_new : RegisterForm → Visit → State S → Option User → Result Page × State S
  register_new form visit st (some user) =
      (ok (refused 400 (some (codes "Email already registered"))), st)
  register_new form visit st none = register_slug form visit st (
      ensure_unique_slug site.unicode d.slug_token st.accounts.organizations form.organization_name)

  abbrev pub register_checked : Visit → State S → Option RegisterForm → Result Page × State S
  register_checked visit st none = (ok (refused 400 none), st)
  register_checked visit st (some form) =
      register_new form visit st (find_user (lower form.email) st.accounts.users)

  unfoldable pub register : RegisterForm → Visit → State S → Result Page × State S
  register raw visit st = register_checked visit st (register_form site.email_matches raw)
