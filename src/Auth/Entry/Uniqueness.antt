-- ===== src/Auth/Entry/Uniqueness.antt =====
-- backend/app/auth/router.py and the unique columns of backend/app/models/domain.py: no request stores a
-- second organization under a slug or a second user under an email.
use compliance_pulse.Prelude.{
  ℕ, ◌≡◌, refl, sym, subst, Text, Bool, true, false, Option, none, some, List, [], ◌∷◌, codes, ◌++◌,
  ◌∙◌, ◌&&◌, All-append, inl, inr, text_eq, any-eq-false, first_where, All, Bool-cases, lower,
}
use mathlib.Core.Option.{some-injective}
use compliance_pulse.Services.Benchmarks.{load_all}
use compliance_pulse.Models.Scanning.{Benchmark}
use compliance_pulse.Models.Accounts.{Organization, User, UserOrganization}
use compliance_pulse.Session.World.{World}
use compliance_pulse.Session.Monad.{Result, ok, err}
use compliance_pulse.Auth.Access.{SessionData, Accounts}
use compliance_pulse.Auth.Passwords.{hash, verify_password}
use compliance_pulse.Auth.Slugs.{is_taken, slugify, ensure_unique_slug}
use compliance_pulse.Auth.Slugs.Unique.{candidate, ensure_unique_slug-IsFirstFree}
use compliance_pulse.Auth.Forms.{
  LoginForm, RegisterForm, login_form, register_form, organization_form,
}
use compliance_pulse.Auth.Entry.{
  Site, Draws, Visit, State, Page, find_user, find_membership, sign_in, login, login_checked,
  login_user, login_verified, login_member, register, register_checked, register_new, register_slug,
  register_rows, then_loaded, user_row, organization_row, registered,
}
use compliance_pulse.Auth.Entry.Organizations.{
  logout, switch_organization, switch_member, move_session, create_org, create_checked,
  create_with_slug, store_organization,
}

module _ {A : Type 0} (key : A → Text) where
  -- No two rows have the same key.
  abbrev pub DistinctBy : List A → Type 0
  DistinctBy [] = Unit
  DistinctBy (x ∷ xs) = All (λ y. text_eq (key x) (key y) ≡ false) xs × DistinctBy xs

  DistinctBy-append :
      (xs : List A) (x : A)
      → DistinctBy xs
      → All (λ y. text_eq (key y) (key x) ≡ false) xs
      → DistinctBy (xs ++ x ∷ [])
  DistinctBy-append [] x h fresh = (tt, tt)
  DistinctBy-append (y ∷ xs) x h fresh = (
    All-append (λ z. text_eq (key y) (key z) ≡ false) xs (x ∷ []) h.0 (fresh.0, tt),
    DistinctBy-append xs x h.1 fresh.1,
  )

first_where-none :
    {A : Type 0} (p : A → Bool) (xs : List A) → first_where p xs ≡ none → All (λ x. p x ≡ false) xs
unfolding first_where
first_where-none p [] h = tt
first_where-none p (x ∷ xs) h = elim (Bool-cases (p x)) [
  | inl e ↦ absurd (cc (rw e at h))
  | inr e ↦ (e, first_where-none p xs (rw e at h))
]

pub record AreUnique (accounts : Accounts) : Type 0 where
  pub slugs : DistinctBy (λ (o : Organization). o.slug) accounts.organizations
  pub emails : DistinctBy (λ (u : User). u.email) accounts.users

-- A slug that the search finds is no organization's.
slug_is_free :
    {S : Type 0} (site : Site S) (token name slug : Text) (organizations : List Organization)
    → ensure_unique_slug site.unicode token organizations name ≡ some slug
    → All (λ (o : Organization). text_eq o.slug slug ≡ false) organizations
unfolding is_taken
slug_is_free site token name slug organizations h =
    let ((k, e, le, free, before), any_fuel) =
      ensure_unique_slug-IsFirstFree site.unicode token organizations name in
    let same : candidate (slugify site.unicode token name) k ≡ slug =
      some-injective _ _ (sym e ∙ h) in
    any-eq-false (λ (o : Organization). text_eq o.slug slug) organizations
      (subst (λ t. is_taken organizations t ≡ false) same free)

module _ {S : Type 0} (site : Site S) (d : Draws) (visit : Visit) where
  abbrev Unique : Result Page × State S → Type 0
  Unique r = AreUnique r.1.accounts

  login-AreUnique :
      (raw : LoginForm) (st : State S) → AreUnique st.accounts → Unique (login site d raw visit st)
  unfolding login sign_in
  login-AreUnique raw st u = checked (login_form site.email_matches raw)
    where
      joined :
          (user : User) (m : Option UserOrganization) → Unique (login_member site d user visit st m)
      joined user none = u
      joined user (some m) = u

      verified : (user : User) (r : Result Bool) → Unique (login_verified site d user visit st r)
      verified user (err e) = u
      verified user (ok false) = u
      verified user (ok true) = joined user (find_membership user.id st.accounts.memberships)

      found :
          (password : Text) (user : Option User) → Unique (login_user site d password visit st user)
      found password none = u
      found password (some user) = verified user (
          verify_password site.library site.hasher (site.encode_text password) user.hashed_password)

      checked : (form : Option LoginForm) → Unique (login_checked site d visit st form)
      checked none = u
      checked (some form) = found form.password (find_user (lower form.email) st.accounts.users)

  loaded-AreUnique :
      (next : State S → Result Page × State S) (st : State S) (r : Result (List Benchmark) × World)
      → ((st : State S) → AreUnique st.accounts → Unique (next st))
      → AreUnique st.accounts
      → Unique (then_loaded site d next st r)
  loaded-AreUnique next st (err e, w) keeps u = u
  loaded-AreUnique next st (ok benchmarks, w) keeps u = keeps (record st { world = w }) u

  register-AreUnique :
      (raw : RegisterForm) (st : State S)
      → AreUnique st.accounts
      → Unique (register site d raw visit st)
  unfolding register sign_in
  register-AreUnique raw st u = checked (register_form site.email_matches raw)
    where
      hashed :
          (form : RegisterForm) (slug : Text) (r : Result Text)
          → All (λ (o : Organization). text_eq o.slug slug ≡ false) st.accounts.organizations
          → All (λ (x : User). text_eq x.email (lower form.email) ≡ false) st.accounts.users
          → Unique (register_rows site d form visit st slug r)
      hashed form slug (err e) free fresh = u
      hashed form slug (ok h) free fresh =
          loaded-AreUnique
            (sign_in site d (site.cookie_secure && visit.is_https) d.user_id d.organization_id
              visit)
            (registered site d form slug h st)
            (load_all site.columns site.documents d.organization_id st.world) (λ s v. v)
            (record {
              slugs =
                  DistinctBy-append (λ (o : Organization). o.slug) st.accounts.organizations
                    (organization_row site d form.organization_name slug) u.slugs free;
              emails =
                  DistinctBy-append (λ (x : User). x.email) st.accounts.users
                    (user_row site d (lower form.email) h) u.emails fresh;
            })

      named :
          (form : RegisterForm) (slug : Option Text)
          → ensure_unique_slug site.unicode d.slug_token st.accounts.organizations
              form.organization_name
            ≡ slug
          → All (λ (x : User). text_eq x.email (lower form.email) ≡ false) st.accounts.users
          → Unique (register_slug site d form visit st slug)
      named form none searched fresh = u
      named form (some slug) searched fresh =
          hashed form slug (hash site.library site.hasher d.salt (site.encode_text form.password))
            (slug_is_free site d.slug_token form.organization_name slug st.accounts.organizations
              searched)
            fresh

      found :
          (form : RegisterForm) (user : Option User)
          → find_user (lower form.email) st.accounts.users ≡ user
          → Unique (register_new site d form visit st user)
      found form (some user) searched = u
      found form none searched = named form _ refl (
          first_where-none (λ (x : User). text_eq x.email (lower form.email)) st.accounts.users
            searched)

      checked : (form : Option RegisterForm) → Unique (register_checked site d visit st form)
      checked none = u
      checked (some form) = found form _ refl

  moved-AreUnique :
      (missing : Text) (secure : Bool) (organization_id : ℕ) (session_id : Option Text)
      (session : Option SessionData) (st : State S)
      → AreUnique st.accounts
      → Unique (move_session site d missing secure organization_id session_id session st)
  moved-AreUnique missing secure organization_id none session st u = u
  moved-AreUnique missing secure organization_id (some session_id) none st u = u
  moved-AreUnique missing secure organization_id (some []) (some session) st u = u
  moved-AreUnique missing secure organization_id (some (c ∷ cs)) (some session) st u = u

  switch_organization-AreUnique :
      (user : User) (organization_id : ℕ) (st : State S)
      → AreUnique st.accounts
      → Unique (switch_organization site d user organization_id visit st)
  unfolding switch_organization
  switch_organization-AreUnique user organization_id st u = member _
    where
      member :
          (m : Option UserOrganization) → Unique (switch_member site d organization_id visit st m)
      member none = u
      member (some m) =
          moved-AreUnique (codes "Session missing") site.cookie_secure organization_id
            visit.session_id visit.session_data st u

  create_org-AreUnique :
      (user : User) (name : Text) (st : State S)
      → AreUnique st.accounts
      → Unique (create_org site d user name visit st)
  unfolding create_org
  create_org-AreUnique user raw st u = checked (organization_form raw)
    where
      named :
          (name : Text) (slug : Option Text)
          → ensure_unique_slug site.unicode d.slug_token st.accounts.organizations name ≡ slug
          → Unique (create_with_slug site d user name visit st slug)
      named name none searched = u
      named name (some slug) searched =
          loaded-AreUnique
            (move_session site d (codes "Session unavailable")
              (site.cookie_secure && visit.is_https) d.organization_id visit.session_id
              visit.session_data)
            (store_organization site d user name slug st)
            (load_all site.columns site.documents d.organization_id st.world)
            (λ s v.
              moved-AreUnique (codes "Session unavailable") (site.cookie_secure && visit.is_https)
                d.organization_id visit.session_id visit.session_data s v)
            (record {
              slugs =
                  DistinctBy-append (λ (o : Organization). o.slug) st.accounts.organizations
                    (organization_row site d name slug) u.slugs
                    (slug_is_free site d.slug_token name slug st.accounts.organizations searched);
              emails = u.emails;
            })

      checked : (name : Option Text) → Unique (create_checked site d user visit st name)
      checked none = u
      checked (some name) = named name _ refl

-- The requests that reach the account pages
pub data AccountRequest : Type 0 where
  log_in : LoginForm → AccountRequest
  register_as : RegisterForm → AccountRequest
  log_out : AccountRequest
  switch_to : User → ℕ → AccountRequest
  create_as : User → Text → AccountRequest

module _ {S : Type 0} (site : Site S) where
  abbrev pub serve : AccountRequest → Draws → Visit → State S → Result Page × State S
  serve (log_in raw) d visit st = login site d raw visit st
  serve (register_as raw) d visit st = register site d raw visit st
  serve log_out d visit st = logout site d visit st
  serve (switch_to user organization_id) d visit st =
      switch_organization site d user organization_id visit st
  serve (create_as user name) d visit st = create_org site d user name visit st

  -- One request after the other, each with its draws and its visit
  abbrev pub after_visits : List (AccountRequest × Draws × Visit) → State S → State S
  after_visits [] st = st
  after_visits ((request, d, visit) ∷ requests) st =
      after_visits requests (serve request d visit st).1

  serve-AreUnique :
      (request : AccountRequest) (d : Draws) (visit : Visit) (st : State S)
      → AreUnique st.accounts
      → AreUnique (serve request d visit st).1.accounts
  unfolding logout
  serve-AreUnique (log_in raw) d visit st u = login-AreUnique site d visit raw st u
  serve-AreUnique (register_as raw) d visit st u = register-AreUnique site d visit raw st u
  serve-AreUnique log_out d visit st u = u
  serve-AreUnique (switch_to user organization_id) d visit st u =
      switch_organization-AreUnique site d visit user organization_id st u
  serve-AreUnique (create_as user name) d visit st u =
      create_org-AreUnique site d visit user name st u

  -- Where no two organizations have one slug and no two users one email, so it is after any logins,
  -- registrations, logouts, switches and creations of organizations, whatever they hold and answer.
  pub after_visits-AreUnique :
      (requests : List (AccountRequest × Draws × Visit)) (st : State S)
      → AreUnique st.accounts
      → AreUnique (after_visits requests st).accounts
  after_visits-AreUnique [] st u = u
  after_visits-AreUnique ((request, d, visit) ∷ requests) st u =
      after_visits-AreUnique requests (serve request d visit st).1
        (serve-AreUnique request d visit st u)
