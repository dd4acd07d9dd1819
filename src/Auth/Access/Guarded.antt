-- ===== src/Auth/Access/Guarded.antt =====
-- An endpoint behind `require_role` of backend/app/auth/dependencies.py: who gets through.
use compliance_pulse.Prelude.{
  ℕ, zero, suc, ◌≤◌, ◌≡◌, refl, sym, subst, ap, ◌∙◌, arith, Bool, true, false, Option, none, some,
  ◌&&◌, ◌==◌, Has, first_where, first_where-Has,
}
use mathlib.Core.Option.{some-injective}
use compliance_pulse.Models.Accounts.{MembershipRole, Organization, User, UserOrganization}
use compliance_pulse.Session.Monad.{Result, ok, err, ok-injective}
use compliance_pulse.Auth.Access.{
  SessionData, RequestState, Accounts, Step, then_with, role_weight, get_session_data, keep_if,
  keep_user, load_user, get_optional_user, require_authenticated_user, load_organization,
  get_current_organization, found_membership, is_membership, found_organization,
  assign_organization, choose_organization, get_current_membership, require_role, found_session,
  granted, cached_or, with_membership, with_organization, with_user, with_optional_user,
  with_session, authorize,
}

then_with-ok :
    {A B : Type 0} (next : A → Step B) (p : Result A × RequestState) {b : B} {st : RequestState}
    → then_with next p ≡ (ok b, st)
    → (a : A) × (u : RequestState) × (p ≡ (ok a, u)) × (next a u ≡ (ok b, st))
then_with-ok next (ok value, u) h = (value, u, refl, h)
then_with-ok next (err raised, u) h = absurd (cc)

returned_value :
    {A : Type 0} {a b : A} {st st' : RequestState}
    → ◌≡◌ {A = Result A × RequestState} (ok a, st) (ok b, st')
    → a ≡ b
returned_value {A} h = ok-injective (ap (λ (p : Result A × RequestState). p.0) h)

keep_if-active :
    (b : Bool) (u : User) (st st' : RequestState) {user : User}
    → u.is_active ≡ b
    → keep_if b u st ≡ (ok (some user), st')
    → (u ≡ user) × (user.is_active ≡ true)
keep_if-active true u st st' {user} e h =
    let same = some-injective u user (returned_value h) in
    (same, ap (λ (x : User). x.is_active) (sym same) ∙ e)
keep_if-active false u st st' {user} e h = absurd (cc)

keep_user-active :
    (o : Option User) (st st' : RequestState) {user : User}
    → keep_user o st ≡ (ok (some user), st')
    → (o ≡ some user) × (user.is_active ≡ true)
keep_user-active none st st' h = absurd (cc)
keep_user-active (some u) st st' {user} h =
    let (same, active) = keep_if-active u.is_active u st st' refl h in (ap some same, active)

-- A user that is stored under a key, and active
abbrev pub IsActive : Accounts → Option ℕ → User → Type 0
IsActive db key user = Has user db.users × (key ≡ some user.id) × (user.is_active ≡ true)

key-eq : (i k : ℕ) → (i == k) ≡ true → i ≡ k
key-eq i k h = ground arith

load_user-IsActive :
    (db : Accounts) (key : Option ℕ) (st st' : RequestState) {user : User}
    → load_user db key st ≡ (ok (some user), st')
    → IsActive db key user
load_user-IsActive db none st st' h = absurd (cc)
load_user-IsActive db (some zero) st st' h = absurd (cc)
load_user-IsActive db (some (suc i)) st st' {user} h =
    let (found, active) =
      keep_user-active (first_where (λ (u : User). u.id == suc i) db.users) st st' h in
    let (there, same) = first_where-Has (λ (u : User). u.id == suc i) db.users found in
    (there, ap some (sym (key-eq user.id (suc i) same)), active)

-- What a request that got through has: a session, an active user of it, a stored membership of
-- this user with a role that is weighty enough, and the organization of that membership.
pub record IsAuthorized (db : Accounts) (required : MembershipRole) (st : RequestState)
    (membership : UserOrganization) : Type 0 where
  pub session_data : SessionData
  pub user : User
  pub organization : Organization
  pub session_found : st.session_data ≡ some session_data
  pub active : IsActive db session_data.user_id user
  pub organization_found : Has organization db.organizations
  pub stored : Has membership db.memberships
  pub of_user : membership.user_id ≡ user.id
  pub of_organization : membership.organization_id ≡ organization.id
  pub role : role_weight required ≤ role_weight membership.role

require_role-ok :
    (required : MembershipRole) (m : UserOrganization) (st st' : RequestState) {u : Unit {0}}
    → require_role required m st ≡ (ok u, st')
    → role_weight required ≤ role_weight m.role
unfolding require_role
require_role-ok required m st st' h = ground arith

found_membership-ok :
    (o : Option UserOrganization) (st st' : RequestState) {m : UserOrganization}
    → found_membership o st ≡ (ok m, st')
    → o ≡ some m
found_membership-ok none st st' h = absurd (cc)
found_membership-ok (some n) st st' h = ap some (returned_value h)

both-true : (a b : Bool) → (a && b) ≡ true → (a ≡ true) × (b ≡ true)
both-true true b h = (refl, h)
both-true false b h = absurd (cc)

get_current_membership-ok :
    (db : Accounts) (user : User) (organization : Organization) (st st' : RequestState)
    {m : UserOrganization}
    → get_current_membership db user organization st ≡ (ok m, st')
    → Has m db.memberships × (m.user_id ≡ user.id) × (m.organization_id ≡ organization.id)
unfolding get_current_membership
get_current_membership-ok db user organization st st' {m} h =
    let found =
      found_membership-ok (first_where (is_membership user organization) db.memberships) st st' h in
    let (there, fits) = first_where-Has (is_membership user organization) db.memberships found in
    let (u, o) = both-true (m.user_id == user.id) (m.organization_id == organization.id) fits in
    (there, key-eq m.user_id user.id u, key-eq m.organization_id organization.id o)

found_organization-ok :
    (o : Option Organization) (st st' : RequestState) {organization : Organization}
    → found_organization o st ≡ (ok organization, st')
    → o ≡ some organization
found_organization-ok none st st' h = absurd (cc)
found_organization-ok (some n) st st' h = ap some (returned_value h)

load_organization-ok :
    (db : Accounts) (org_id : ℕ) (st st' : RequestState) {organization : Organization}
    → load_organization db org_id st ≡ (ok organization, st')
    → Has organization db.organizations
load_organization-ok db org_id st st' h =
    (first_where-Has (λ (o : Organization). o.id == org_id) db.organizations
      (found_organization-ok (first_where (λ (o : Organization). o.id == org_id) db.organizations)
        st st' h)).0

assign_organization-ok :
    (db : Accounts) (sd : SessionData) (o : Option UserOrganization) (st st' : RequestState)
    {organization : Organization}
    → assign_organization db sd o st ≡ (ok organization, st')
    → Has organization db.organizations
assign_organization-ok db sd none st st' h = absurd (cc)
assign_organization-ok db sd (some m) st st' h = load_organization-ok db m.organization_id _ st' h

choose_organization-ok :
    (db : Accounts) (sd : SessionData) (user : User) (key : Option ℕ) (st st' : RequestState)
    {organization : Organization}
    → choose_organization db sd user key st ≡ (ok organization, st')
    → Has organization db.organizations
choose_organization-ok db sd user none st st' h = assign_organization-ok db sd _ st st' h
choose_organization-ok db sd user (some zero) st st' h = assign_organization-ok db sd _ st st' h
choose_organization-ok db sd user (some (suc o)) st st' h = load_organization-ok db (suc o) st st' h

found_session-ok :
    (o : Option SessionData) (st u : RequestState) {sd : SessionData}
    → found_session o st ≡ (ok sd, u)
    → (o ≡ some sd) × (st ≡ u)
found_session-ok none st u h = absurd (cc)
found_session-ok (some x) st u h =
    (ap some (returned_value h), ap (λ (p : Result SessionData × RequestState). p.1) h)

require_authenticated_user-ok :
    (o : Option User) (st u : RequestState) {user : User}
    → require_authenticated_user o st ≡ (ok user, u)
    → o ≡ some user
unfolding require_authenticated_user
require_authenticated_user-ok none st u h = absurd (cc)
require_authenticated_user-ok (some x) st u h = ap some (returned_value h)

optional_user-IsActive :
    (db : Accounts) (sd : SessionData) (st st' : RequestState) {user : User}
    → st.current_user ≡ none
    → get_optional_user db sd st ≡ (ok (some user), st')
    → IsActive db sd.user_id user
unfolding get_optional_user
optional_user-IsActive db sd st st' fresh h =
    load_user-IsActive db sd.user_id st st'
      (sym (ap (λ (c : Option (Option User)). cached_or c (load_user db sd.user_id) st) fresh) ∙ h)

-- A request whose user is not known yet gets through to an endpoint behind a role only with a
-- session, whose user is stored and active, and with a stored membership of that user in a stored
-- organization whose role weighs no less than the one that the endpoint requires.
pub authorize-IsAuthorized :
    (db : Accounts) (required : MembershipRole) (st st' : RequestState) (m : UserOrganization)
    → st.current_user ≡ none
    → authorize db required st ≡ (ok m, st')
    → IsAuthorized db required st m
unfolding authorize get_session_data get_current_organization get_optional_user
authorize-IsAuthorized db required st st' m fresh h =
    let (sd, s1, h1, k1) = then_with-ok (with_session db required) (get_session_data st) h in
    let (session, same) = found_session-ok st.session_data st s1 h1 in
    let (o, s2, h2, k2) =
      then_with-ok (with_optional_user db required sd) (get_optional_user db sd s1) k1 in
    let (user, s3, h3, k3) =
      then_with-ok (with_user db required sd) (require_authenticated_user o s2) k2 in
    let (organization, s4, h4, k4) =
      then_with-ok (with_organization db required user) (get_current_organization db sd user s3)
        k3 in
    let (n, s5, h5, k5) =
      then_with-ok (with_membership required) (get_current_membership db user organization s4) k4 in
    let (u, s6, h6, k6) = then_with-ok (granted n) (require_role required n s5) k5 in
    let is_user = require_authenticated_user-ok o s2 s3 h3 in
    let is_m = returned_value k6 in
    let (stored, of_user, of_organization) =
      get_current_membership-ok db user organization s4 s5 h5 in
    record {
      session_data = sd;
      user = user;
      organization = organization;
      session_found = session;
      active =
          optional_user-IsActive db sd s1 s2
            (ap (λ (x : RequestState). x.current_user) (sym same) ∙ fresh)
            (h2 ∙ ap (λ (z : Option User). (ok z, s2)) is_user);
      organization_found = choose_organization-ok db sd user sd.organization_id s3 s4 h4;
      stored = subst (λ (x : UserOrganization). Has x db.memberships) is_m stored;
      of_user = ap (λ (x : UserOrganization). x.user_id) (sym is_m) ∙ of_user;
      of_organization =
          ap (λ (x : UserOrganization). x.organization_id) (sym is_m) ∙ of_organization;
      role =
          subst (λ (x : UserOrganization). role_weight required ≤ role_weight x.role) is_m
            (require_role-ok required n s5 s6 h6);
    }
