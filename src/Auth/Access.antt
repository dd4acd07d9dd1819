-- ===== src/Auth/Access.antt =====
-- backend/app/auth/dependencies.py outside test mode: what a request passes before its endpoint.
-- A dependency is a step on the request's state that may raise; FastAPI hands each the values of
-- those that it depends on.
pub mod Guarded
use compliance_pulse.Prelude.{
  ℕ, zero, suc, Text, Bool, true, false, Option, none, some, List, [], ◌∷◌, codes, not, ◌&&◌, ◌||◌,
  ◌==◌, ltb, leb, is_empty, text_eq, text_mem, where_rows, first_where, if◌then◌else◌,
}
use compliance_pulse.Models.Scanning.{Time}
use compliance_pulse.Models.Accounts.{
  MembershipRole, owner, admin, member, Organization, User, UserOrganization,
}
use compliance_pulse.Session.Monad.{Result, ok, err, Error, http}

-- `SessionData` of backend/app/auth/utils.py
pub record SessionData : Type 0 where
  pub user_id : Option ℕ
  pub organization_id : Option ℕ
  pub csrf_token : Text
  pub created_at : Time
  pub expires_at : Time

-- `request.state`; an attribute that is not set is `none`.
pub record RequestState : Type 0 where
  pub session_data : Option SessionData
  pub session_dirty : Bool
  pub current_user : Option (Option User)
  pub current_organization : Option Organization
  pub current_membership : Option UserOrganization

pub record Accounts : Type 0 where
  pub users : List User
  pub organizations : List Organization
  pub memberships : List UserOrganization

abbrev pub Step : Type 0 → Type 0
Step A = RequestState → Result A × RequestState

abbrev pub then_with :
    {A B : Type 0} → (A → Step B) → Result A × RequestState → Result B × RequestState
then_with next (err raised, st) = (err raised, st)
then_with next (ok value, st) = next value st

-- `ROLE_WEIGHT`
unfoldable pub role_weight : MembershipRole → ℕ
role_weight member = 1
role_weight admin = 2
role_weight owner = 3

abbrev pub found_session : Option SessionData → Step SessionData
found_session none st = (err (http 401 (codes "Session unavailable")), st)
found_session (some session_data) st = (ok session_data, st)

-- The end of `get_session_data`
unfoldable pub get_session_data : Step SessionData
get_session_data st = found_session st.session_data st

-- An inactive user counts as none.
abbrev pub keep_if : Bool → User → Step (Option User)
keep_if true user st = (ok (some user), record st { current_user = some (some user) })
keep_if false user st = (ok none, st)

abbrev pub keep_user : Option User → Step (Option User)
keep_user none st = (ok none, st)
keep_user (some user) st = keep_if user.is_active user st

-- The lookup by `session_data.user_id`, where 0 counts as none
abbrev pub load_user : Accounts → Option ℕ → Step (Option User)
load_user db none st = (ok none, st)
load_user db (some zero) st = (ok none, st)
load_user db (some (suc i)) st = keep_user (first_where (λ u. u.id == suc i) db.users) st

abbrev pub cached_or : Option (Option User) → Step (Option User) → Step (Option User)
cached_or (some user) step st = (ok user, st)
cached_or none step st = step st

unfoldable pub get_optional_user : Accounts → SessionData → Step (Option User)
get_optional_user db session_data st =
    cached_or st.current_user (load_user db session_data.user_id) st

unfoldable pub require_authenticated_user : Option User → Step User
require_authenticated_user none st = (err (http 401 (codes "Authentication required")), st)
require_authenticated_user (some user) st = (ok user, st)

abbrev joined_before : UserOrganization → Option UserOrganization → UserOrganization
joined_before m none = m
joined_before m (some later) = if leb m.joined_at later.joined_at then m else later

-- `.order_by(UserOrganization.joined_at).first()`
unfoldable pub first_joined : List UserOrganization → Option UserOrganization
first_joined [] = none
first_joined (m ∷ rows) = some (joined_before m (first_joined rows))

abbrev pub found_organization : Option Organization → Step Organization
found_organization none st = (err (http 404 (codes "Organization not found")), st)
found_organization (some organization) st =
    (ok organization, record st { current_organization = some organization })

-- The organization by its key
abbrev pub load_organization : Accounts → ℕ → Step Organization
load_organization db org_id =
    found_organization (first_where (λ (o : Organization). o.id == org_id) db.organizations)

-- The organization that the user joined first becomes the session's.
abbrev pub assign_organization :
    Accounts → SessionData → Option UserOrganization → Step Organization
assign_organization db session_data none st =
    (err (http 400 (codes "User is not assigned to an organization")), st)
assign_organization db session_data (some membership) st =
    load_organization db membership.organization_id (record st {
      session_data =
          some (record session_data { organization_id = some membership.organization_id });
      session_dirty = true;
    })

abbrev pub choose_organization : Accounts → SessionData → User → Option ℕ → Step Organization
choose_organization db session_data user none =
    assign_organization db session_data
      (first_joined (where_rows (λ (m : UserOrganization). m.user_id == user.id) db.memberships))
choose_organization db session_data user (some zero) =
    assign_organization db session_data
      (first_joined (where_rows (λ (m : UserOrganization). m.user_id == user.id) db.memberships))
choose_organization db session_data user (some (suc o)) = load_organization db (suc o)

unfoldable pub get_current_organization : Accounts → SessionData → User → Step Organization
get_current_organization db session_data user =
    choose_organization db session_data user session_data.organization_id

abbrev pub found_membership : Option UserOrganization → Step UserOrganization
found_membership none st = (err (http 403 (codes "You are not a member of this organization")), st)
found_membership (some membership) st =
    (ok membership, record st { current_membership = some membership })

abbrev pub is_membership : User → Organization → UserOrganization → Bool
is_membership user organization m = m.user_id == user.id && m.organization_id == organization.id

unfoldable pub get_current_membership : Accounts → User → Organization → Step UserOrganization
get_current_membership db user organization =
    found_membership (first_where (is_membership user organization) db.memberships)

unfoldable pub require_role : MembershipRole → UserOrganization → Step (Unit {0})
require_role required membership st =
    if ltb (role_weight membership.role) (role_weight required)
    then (err (http 403 (codes "Insufficient permissions")), st)
    else (ok tt, st)

-- An endpoint behind `require_role`: the dependencies in their order, and the membership.
abbrev pub granted : UserOrganization → Unit {0} → Step UserOrganization
granted membership u st = (ok membership, st)

abbrev pub with_membership : MembershipRole → UserOrganization → Step UserOrganization
with_membership required membership st =
    then_with (granted membership) (require_role required membership st)

abbrev pub with_organization :
    Accounts → MembershipRole → User → Organization → Step UserOrganization
with_organization db required user organization st =
    then_with (with_membership required) (get_current_membership db user organization st)

abbrev pub with_user : Accounts → MembershipRole → SessionData → User → Step UserOrganization
with_user db required session_data user st =
    then_with (with_organization db required user)
      (get_current_organization db session_data user st)

abbrev pub with_optional_user :
    Accounts → MembershipRole → SessionData → Option User → Step UserOrganization
with_optional_user db required session_data found st =
    then_with (with_user db required session_data) (require_authenticated_user found st)

abbrev pub with_session : Accounts → MembershipRole → SessionData → Step UserOrganization
with_session db required session_data st =
    then_with (with_optional_user db required session_data) (get_optional_user db session_data st)

unfoldable pub authorize : Accounts → MembershipRole → Step UserOrganization
authorize db required st = then_with (with_session db required) (get_session_data st)

-- `request.method.upper() in {"GET", "HEAD", "OPTIONS"}`, of a method in capitals
abbrev safe_methods : List Text
safe_methods = codes "GET" ∷ codes "HEAD" ∷ codes "OPTIONS" ∷ []

-- `token or form token`, where an empty text counts as none
abbrev token_of : Option Text → Option Text → Option Text
token_of none form_token = form_token
token_of (some []) form_token = form_token
token_of (some (c ∷ cs)) form_token = some (c ∷ cs)

abbrev check_token : SessionData → Option Text → Result (Unit {0})
check_token session_data none = err (http 403 (codes "Invalid CSRF token"))
check_token session_data (some token) =
    if is_empty token || not (text_eq token session_data.csrf_token)
    then err (http 403 (codes "Invalid CSRF token"))
    else ok tt

-- `verify_csrf_token`, with the header's and the form's token
unfoldable pub verify_csrf_token :
    Text → Option Text → Option Text → SessionData → Result (Unit {0})
verify_csrf_token method header form_token session_data =
    if text_mem method safe_methods
    then ok tt
    else check_token session_data (token_of header form_token)
