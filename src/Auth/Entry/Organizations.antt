-- ===== src/Auth/Entry/Organizations.antt =====
-- backend/app/auth/router.py: logout, the switch between organizations, and a further organization.
use compliance_pulse.Prelude.{
  ℕ, ◌==◌, ◌&&◌, Text, Bool, Option, none, some, [], ◌∷◌, ◌++◌, codes, is_empty, first_where,
  if◌then◌else◌,
}
use compliance_pulse.Models.Accounts.{User, UserOrganization}
use compliance_pulse.Session.Monad.{Result, ok, err, http, other_error}
use compliance_pulse.Auth.Access.{SessionData}
use compliance_pulse.Auth.Forms.{organization_form}
use compliance_pulse.Auth.Sessions.{destroy}
use compliance_pulse.Auth.Slugs.{ensure_unique_slug}
use compliance_pulse.Auth.Entry.{
  Site, Draws, Visit, State, Page, refused, new_session, save_rotated, redirect, organization_row,
  owner_row, load_benchmarks,
}

module _ {S : Type 0} (site : Site S) (d : Draws) where
  abbrev pub destroyed : Option Text → S → S
  destroyed none s = s
  destroyed (some session_id) s =
      if is_empty session_id then s else destroy site.backend site.default_ttl session_id s

  -- The old session goes, and an anonymous one comes.
  unfoldable pub logout : Visit → State S → Result Page × State S
  logout visit st =
      let (session_id, session, s) = new_session site d (destroyed visit.session_id st.sessions) in
      redirect site d (site.cookie_secure && visit.is_https) st (session_id, s)

  abbrev pub move_to : ℕ → SessionData → SessionData
  move_to organization_id session = record session { organization_id = some organization_id }

  -- The visit's session is moved to the organization; a visit without one is refused.
  abbrev pub move_session :
      Text → Bool → ℕ → Option Text → Option SessionData → State S → Result Page × State S
  move_session missing secure organization_id (some session_id) (some session) st =
      if is_empty session_id
      then (err (http 400 missing), st)
      else redirect site d secure st
          (save_rotated site d (move_to organization_id) (session_id, session, st.sessions))
  move_session missing secure organization_id none session st = (err (http 400 missing), st)
  move_session missing secure organization_id (some session_id) none st =
      (err (http 400 missing), st)

  abbrev pub switch_member : ℕ → Visit → State S → Option UserOrganization → Result Page × State S
  switch_member organization_id visit st none =
      (err (http 403 (codes "You do not belong to that organization")), st)
  switch_member organization_id visit st (some membership) =
      move_session (codes "Session missing") site.cookie_secure organization_id visit.session_id
        visit.session_data st

  unfoldable pub switch_organization : User → ℕ → Visit → State S → Result Page × State S
  switch_organization user organization_id visit st = switch_member organization_id visit st (
      first_where
        (λ (m : UserOrganization). m.organization_id == organization_id && m.user_id == user.id)
        st.accounts.memberships)

  abbrev pub store_organization : User → Text → Text → State S → State S
  store_organization user name slug st = record st {
    accounts = record st.accounts {
      organizations = st.accounts.organizations ++ organization_row site d name slug ∷ [];
      memberships = st.accounts.memberships ++ owner_row site d user.id ∷ [];
    };
  }

  abbrev pub create_with_slug : User → Text → Visit → State S → Option Text → Result Page × State S
  create_with_slug user name visit st none = (err (other_error (codes "no slug")), st)
  create_with_slug user name visit st (some slug) =
      load_benchmarks site d
        (move_session (codes "Session unavailable") (site.cookie_secure && visit.is_https)
          d.organization_id visit.session_id visit.session_data)
        (store_organization user name slug st)

  abbrev pub create_checked : User → Visit → State S → Option Text → Result Page × State S
  create_checked user visit st none = (ok (refused 400 none), st)
  create_checked user visit st (some name) =
      create_with_slug user name visit st
        (ensure_unique_slug site.unicode d.slug_token st.accounts.organizations name)

  -- The organization is stored before a visit without a session is refused.
  unfoldable pub create_org : User → Text → Visit → State S → Result Page × State S
  create_org user name visit st = create_checked user visit st (organization_form name)
