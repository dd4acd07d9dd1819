-- ===== src/Auth/Entry/Returning.antt =====
-- backend/app/auth/router.py: a user who registered comes back.
use compliance_pulse.Prelude.{
  ◌<◌, ◌≡◌, refl, sym, ap, ◌∙◌, Text, Bool, true, false, Option, none, some, List, [], ◌∷◌, ◌++◌,
  arith, lower, strip, text_eq, text_eq_refl, first_where, leb, length, ◌&&◌, ◌||◌, ◌==◌,
  if◌then◌else◌,
}
use mathlib.Core.Option.{some-injective}
use compliance_pulse.Models.Accounts.{User, UserOrganization}
use compliance_pulse.Session.Monad.{Result, ok, err}
use compliance_pulse.Session.World.{World}
use compliance_pulse.Models.Scanning.{Benchmark}
use compliance_pulse.Auth.Passwords.{PasswordHasher, hash, verify_password}
use compliance_pulse.Auth.Passwords.Verifies.{IsLibrary, hash-verify}
use compliance_pulse.Auth.Forms.{LoginForm, RegisterForm, login_form, register_form}
use compliance_pulse.Auth.Entry.{
  Site, Draws, Visit, State, Page, with_cookie, find_user, find_membership, sign_in, login,
  register, register_checked, register_new, register_slug, register_rows, then_loaded, user_row,
  owner_row, registered,
}
use compliance_pulse.Services.Benchmarks.{load_all}

first_where-last :
    {A : Type 0} (p : A → Bool) (xs : List A) (x : A)
    → first_where p xs ≡ none
    → p x ≡ true
    → first_where p (xs ++ x ∷ []) ≡ some x
unfolding first_where
first_where-last p [] x h e = rw e refl
first_where-last p (y ∷ xs) x h e = ground (arith, first_where-last p xs x)

kept_if :
    {A : Type 0} (test : Bool) (a b : A)
    → (if test then some a else none) ≡ some b
    → (test ≡ true) × (a ≡ b)
kept_if true a b h = (refl, some-injective a b h)
kept_if false a b h = absurd (cc)

pub record HasCosts (x : PasswordHasher) : Type 0 where
  pub time : 0 < x.time_cost
  pub memory : 0 < x.memory_cost
  pub parallel : 0 < x.parallelism
  pub digest : 0 < x.hash_len

-- What a user types to log in, of what was typed to register
abbrev pub credentials : RegisterForm → LoginForm
credentials form = record { email = form.email; password = form.password }

-- A form that registers logs in too.
login_form-register_form :
    (matches : Text → Bool) (raw form : RegisterForm)
    → register_form matches raw ≡ some form
    → login_form matches (credentials raw) ≡ some (credentials form)
unfolding login_form register_form
login_form-register_form matches raw form h =
    let (passes, same) = kept_if _ _ form h in
    let test : (leb 3 (length (strip raw.email))
          && leb (length (strip raw.email)) 254
          && matches (strip raw.email)
          && leb 1 (length raw.password))
        ≡ true =
      ground (arith, passes) in
    rw test (ap (λ (f : RegisterForm). some (credentials f)) same)

module _ {S : Type 0} (site : Site S) (d : Draws) (visit : Visit) (st' : State S) (cookie : Text)
    (secure : Bool) where
  abbrev Enters : Result Page × State S → Type 0
  Enters r = r ≡ (ok (with_cookie cookie secure), st')

  refused-Enters :
      (r : Result Page) (st : State S) → Enters (r, st) → r ≡ ok (with_cookie cookie secure)
  refused-Enters r st h = ap (λ a. a.0) h

  -- What a registration has found and stored when it succeeds
  abbrev IsRegistered : RegisterForm → State S → Type 0
  IsRegistered raw st =
      (form : RegisterForm) × (hashed_password : Text) × (register_form site.email_matches raw
        ≡ some form)
      × (find_user (lower form.email) st.accounts.users ≡ none)
      × (hash site.library site.hasher d.salt (site.encode_text form.password) ≡ ok hashed_password)
      × (st'.accounts.users
          ≡ st.accounts.users ++ user_row site d (lower form.email) hashed_password ∷ [])
      × (st'.accounts.memberships ≡ st.accounts.memberships ++ owner_row site d d.user_id ∷ [])

  loaded_accounts :
      (st : State S) (r : Result (List Benchmark) × World)
      → Enters (
          then_loaded site d
            (sign_in site d
              (site.cookie_secure && visit.is_https)
              d.user_id
              d.organization_id
              visit)
            st
            r)
      → st'.accounts ≡ st.accounts
  unfolding sign_in
  loaded_accounts st (err e, w) h = absurd (cc (refused-Enters (err e) _ h))
  loaded_accounts st (ok benchmarks, w) h = sym (ap (λ a. a.1.accounts) h)

  register-IsRegistered :
      (raw : RegisterForm) (st : State S)
      → Enters (register site d raw visit st)
      → IsRegistered raw st
  unfolding register
  register-IsRegistered raw st h = checked _ refl h
    where
      hashed :
          (form : RegisterForm) (slug : Text) (r : Result Text)
          → hash site.library site.hasher d.salt (site.encode_text form.password) ≡ r
          → register_form site.email_matches raw ≡ some form
          → find_user (lower form.email) st.accounts.users ≡ none
          → Enters (register_rows site d form visit st slug r)
          → IsRegistered raw st
      hashed form slug (err e) made valid fresh h = absurd (cc (refused-Enters (err e) st h))
      hashed form slug (ok hashed_password) made valid fresh h =
          let stored =
            loaded_accounts (registered site d form slug hashed_password st)
              (load_all site.columns site.documents d.organization_id st.world) h in
          (
            form,
            hashed_password,
            valid,
            fresh,
            made,
            ap (λ a. a.users) stored,
            ap (λ a. a.memberships) stored,
          )

      named :
          (form : RegisterForm) (slug : Option Text)
          → register_form site.email_matches raw ≡ some form
          → find_user (lower form.email) st.accounts.users ≡ none
          → Enters (register_slug site d form visit st slug)
          → IsRegistered raw st
      named form none valid fresh h = absurd (cc (refused-Enters _ st h))
      named form (some slug) valid fresh h = hashed form slug _ refl valid fresh h

      found :
          (form : RegisterForm) (user : Option User)
          → find_user (lower form.email) st.accounts.users ≡ user
          → register_form site.email_matches raw ≡ some form
          → Enters (register_new site d form visit st user)
          → IsRegistered raw st
      found form none fresh valid h = named form _ valid fresh h
      found form (some user) fresh valid h = absurd (cc (refused-Enters _ st h))

      checked :
          (form : Option RegisterForm)
          → register_form site.email_matches raw ≡ form
          → Enters (register_checked site d visit st form)
          → IsRegistered raw st
      checked none valid h = absurd (cc (refused-Enters _ st h))
      checked (some form) valid h = found form _ refl valid h

verified-ok :
    {S : Type 0} (site : Site S) (d : Draws) (password h : Text)
    → IsLibrary site.library
    → HasCosts site.hasher
    → hash site.library site.hasher d.salt password ≡ ok h
    → verify_password site.library site.hasher password h ≡ ok true
unfolding verify_password
verified-ok site d password h laws costs made =
    rw
      (hash-verify site.library site.hasher site.hasher d.salt password h laws costs.time
        costs.memory costs.parallel costs.digest made)
      refl

-- Who registers and is let in is let in again by the same email and password, on any later visit to
-- the state that the registration left, as the registered user in the registered organization. It
-- needs hashing costs and a digest's length that are not 0, and a new user's key that no membership
-- names.
pub login-register :
    {S : Type 0} (site : Site S) (d later : Draws) (raw : RegisterForm) (visit again : Visit)
    (st st' : State S) (cookie : Text) (secure : Bool)
    → IsLibrary site.library
    → HasCosts site.hasher
    → find_membership d.user_id st.accounts.memberships ≡ none
    → register site d raw visit st ≡ (ok (with_cookie cookie secure), st')
    → login site later (credentials raw) again st'
      ≡ sign_in site later
          (again.is_https || site.cookie_secure)
          d.user_id
          d.organization_id
          again
          st'
unfolding login
login-register site d later raw visit again st st' cookie secure laws costs fresh_key h =
    let (form, hashed_password, valid, fresh, made, users, memberships) =
      register-IsRegistered site d visit st' cookie secure raw st h in
    let found : find_user (lower form.email) st'.accounts.users
        ≡ some (user_row site d (lower form.email) hashed_password) =
      ap (find_user (lower form.email)) users
      ∙ first_where-last (λ (u : User). text_eq u.email (lower form.email)) st.accounts.users _
          fresh (text_eq_refl (lower form.email)) in
    let joined : find_membership d.user_id st'.accounts.memberships
        ≡ some (owner_row site d d.user_id) =
      ap (find_membership d.user_id) memberships
      ∙ first_where-last (λ (m : UserOrganization). m.user_id == d.user_id) st.accounts.memberships
          _ fresh_key (ground arith) in
    rw (login_form-register_form site.email_matches raw form valid) (
      rw found (
        rw (verified-ok site d (site.encode_text form.password) hashed_password laws costs made)
          (rw joined refl)))
