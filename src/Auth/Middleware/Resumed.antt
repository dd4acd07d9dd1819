-- ===== src/Auth/Middleware/Resumed.antt =====
-- The session behind a cookie: backend/app/main.py with the login of backend/app/auth/router.py.
use compliance_pulse.Prelude.{
  ℕ, ◌≤◌, ◌≡◌, ◌≢◌, refl, ap, subst, ◌∙◌, arith, Text, Bool, true, false, Option, none, some, [],
  ◌∷◌, ltb, text_eq_refl, if◌then◌else◌,
}
use mathlib.Core.Option.{some-injective}
use compliance_pulse.Session.Monad.{Result, ok, err, ok-injective}
use compliance_pulse.Auth.Access.{SessionData}
use compliance_pulse.Auth.Signing.{Signer, sign}
use compliance_pulse.Auth.Signing.RoundTrip.{IsClean, unsign_iff}
use compliance_pulse.Auth.Sessions.{
  IsBackend, read_session, touch_if, get_found, create, get, touched, save, rotate_csrf,
  sign_session, unsign_session, value_of,
}
use compliance_pulse.Auth.Sessions.Refinement.{read_session-save}
use compliance_pulse.Auth.Entry.{
  Site, Draws, Visit, State, Page, refused, with_cookie, sign_in, current_session, enter_as,
}
use compliance_pulse.Auth.Middleware.{Opened, open_visit, opened_by, resumed}

-- A request whose cookie was good
abbrev pub found_as : Text → SessionData → Opened
found_as session_id session = record {
  session_id = session_id;
  session_data = session;
  needs_cookie = false;
}

unsign_session-sign_session :
    (s : Signer) (session_id : Text)
    → IsClean s
    → unsign_session s (sign_session s session_id) ≡ ok (some session_id)
unfolding unsign_session sign_session
unsign_session-sign_session s session_id clean =
    ap value_of ((unsign_iff s (sign s session_id) session_id clean).1 refl)

module _ {S : Type 0} (site : Site S) (later : Draws) where
  get-live :
      (session_id : Text) (session : SessionData) (s : S)
      → read_session site.backend site.default_ttl session_id s ≡ ok (some session)
      → later.clock 7 ≤ session.expires_at
      → (get site.backend site.default_ttl true session_id (later.clock 7) (later.clock 8) s).0
        ≡ ok (some (touched site.default_ttl (later.clock 8) session))
  unfolding get touch_if
  get-live session_id session s stored live =
      let in_time : ltb session.expires_at (later.clock 7) ≡ false = ground arith in
      ap
        (λ r.
          (get_found site.backend site.default_ttl true session_id (later.clock 7) (later.clock 8) r
            s).0)
        stored
      ∙ rw in_time refl

  resumed-some :
      (session_id : Text) (session : SessionData) (r : Result (Option SessionData) × S)
      → r.0 ≡ ok (some session)
      → (resumed site later session_id r).0 ≡ ok (found_as session_id session)
  resumed-some session_id session (err e, s) h = absurd (cc h)
  resumed-some session_id session (ok none, s) h = absurd (cc (ok-injective h))
  resumed-some session_id session (ok (some found), s) h =
      ap (λ v. ok (found_as session_id v)) (some-injective found session (ok-injective h))

  open_visit-stored :
      (session_id : Text) (session : SessionData) (s : S)
      → IsClean site.signer
      → session_id ≢ []
      → read_session site.backend site.default_ttl session_id s ≡ ok (some session)
      → later.clock 7 ≤ session.expires_at
      → (open_visit site later (some (sign_session site.signer session_id)) s).0
        ≡ ok (found_as session_id (touched site.default_ttl (later.clock 8) session))
  unfolding open_visit sign_session sign
  open_visit-stored [] session s clean full stored live = absurd (full refl)
  open_visit-stored (c ∷ cs) session s clean full stored live =
      ap (λ o. (opened_by site later o s).0)
        (unsign_session-sign_session site.signer (c ∷ cs) clean)
      ∙ resumed-some (c ∷ cs) _ _ (get-live (c ∷ cs) session s stored live)

abbrev cookie_of : Result Page → Text
cookie_of (ok (with_cookie cookie secure)) = cookie
cookie_of (ok (refused status message)) = []
cookie_of (err e) = []

current-full :
    {S : Type 0} (site : Site S) (d : Draws) (i : Option Text) (session : Option SessionData)
    (s : S)
    → d.session_id ≢ []
    → (current_session site d i session s).0 ≢ []
unfolding create
current-full site d none session s full = full
current-full site d (some i) none s full = full
current-full site d (some []) (some session) s full = full
current-full site d (some (c ∷ cs)) (some session) s full = λ e. cc

-- The cookie that a login or a registration answers with opens its session in the next request, as
-- the user and in the organization that were signed in, and is not set again. It needs a backend that
-- keeps its contract, signatures of ASCII without the separator, a session's name that is drawn and not empty,
-- and a request before the session's time is out.
pub open_visit-sign_in :
    {S : Type 0} (site : Site S) (d later : Draws) (secure marked : Bool)
    (user_id organization_id : ℕ) (visit : Visit) (st st' : State S) (cookie : Text)
    → IsBackend site.backend
    → IsClean site.signer
    → d.session_id ≢ []
    → later.clock 7
      ≤ (current_session site d visit.session_id visit.session_data st.sessions).1.expires_at
    → sign_in site d secure user_id organization_id visit st ≡ (ok (with_cookie cookie marked), st')
    → (session : SessionData) × ((open_visit site later (some cookie) st'.sessions).0
        ≡ ok (
            found_as
              (current_session site d visit.session_id visit.session_data st.sessions).0
              session))
      × (session.user_id ≡ some user_id)
      × (session.organization_id ≡ some organization_id)
unfolding sign_in save rotate_csrf
open_visit-sign_in site d later secure marked user_id organization_id visit st st' cookie laws clean
      full live h =
    let (session_id, session, s) =
      current_session site d visit.session_id visit.session_data st.sessions in
    let bound = record (enter_as site d user_id organization_id session) {
      csrf_token = d.rotated_csrf;
    } in
    let once = save site.backend site.default_ttl session_id bound s in
    let twice = save site.backend site.default_ttl session_id bound once in
    let stored : read_session site.backend site.default_ttl session_id twice ≡ ok (some bound) =
      read_session-save site.backend site.default_ttl laws session_id session_id bound once
      ∙ ap
          (λ b.
            if b
            then ok (some bound)
            else read_session site.backend site.default_ttl session_id once)
          (text_eq_refl session_id) in
    let opened =
      open_visit-stored site later session_id bound twice clean
        (current-full site d visit.session_id visit.session_data st.sessions full) stored live in
    let same_cookie : sign_session site.signer session_id ≡ cookie = ap (λ r. cookie_of r.0) h in
    let same_sessions : twice ≡ st'.sessions = ap (λ r. r.1.sessions) h in
    (
      touched site.default_ttl (later.clock 8) bound,
      subst
          (λ c.
            (open_visit site later (some c) st'.sessions).0
            ≡ ok (found_as session_id (touched site.default_ttl (later.clock 8) bound)))
          same_cookie
          (subst
            (λ t.
              (open_visit site later (some (sign_session site.signer session_id)) t).0
              ≡ ok (found_as session_id (touched site.default_ttl (later.clock 8) bound)))
            same_sessions opened),
      refl,
      refl,
    )
