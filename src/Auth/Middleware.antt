-- ===== src/Auth/Middleware.antt =====
-- `session_middleware` of backend/app/main.py: the session of a request.
pub mod Resumed
use compliance_pulse.Prelude.{
  ℕ, Text, Bool, true, false, Option, none, some, [], ◌∷◌, ◌&&◌, if◌then◌else◌,
}
use compliance_pulse.Session.Monad.{Result, ok, err}
use compliance_pulse.Auth.Access.{SessionData}
use compliance_pulse.Auth.Sessions.{get, save, sign_session, unsign_session}
use compliance_pulse.Auth.Entry.{Site, Draws, Visit, State, Page, new_session}

-- The request's session, and whether the answer must carry its cookie
pub record Opened : Type 0 where
  pub session_id : Text
  pub session_data : SessionData
  pub needs_cookie : Bool

-- What the rest of the application leaves: its answer, whether the session is to be saved, and the
-- session, which it may have changed
pub record Answered : Type 0 where
  pub page : Result Page
  pub is_dirty : Bool
  pub session_data : SessionData

module _ {S : Type 0} (site : Site S) (d : Draws) where
  abbrev pub start_session : S → Result Opened × S
  start_session s =
      let (session_id, session, s') = new_session site d s in
      (ok (record { session_id = session_id; session_data = session; needs_cookie = true }), s')

  abbrev pub resumed : Text → Result (Option SessionData) × S → Result Opened × S
  resumed session_id (err e, s) = (err e, s)
  resumed session_id (ok none, s) = start_session s
  resumed session_id (ok (some session), s) =
      (ok (record { session_id = session_id; session_data = session; needs_cookie = false }), s)

  abbrev pub opened_by : Result (Option Text) → S → Result Opened × S
  opened_by (err e) s = (err e, s)
  opened_by (ok none) s = start_session s
  opened_by (ok (some [])) s = start_session s
  opened_by (ok (some (c ∷ cs))) s =
      resumed (c ∷ cs) (get site.backend site.default_ttl true (c ∷ cs) (d.clock 7) (d.clock 8) s)

  -- Before the rest of the application. A cookie whose signature is not of ASCII raises, and so does a
  -- payload that cannot be read.
  unfoldable pub open_visit : Option Text → S → Result Opened × S
  open_visit none s = start_session s
  open_visit (some []) s = start_session s
  open_visit (some (c ∷ cs)) s = opened_by (unsign_session site.signer (c ∷ cs)) s

  -- After it: the cookie with its mark, if one is set
  unfoldable pub close_visit : Opened → Bool → Bool → SessionData → S → Option (Text × Bool) × S
  close_visit opened is_https is_dirty session s =
      if opened.needs_cookie
      then (some (sign_session site.signer opened.session_id, site.cookie_secure && is_https), s)
      else if is_dirty
      then (none, save site.backend site.default_ttl opened.session_id session s)
      else (none, s)

  abbrev close_answer :
      Opened → Bool → Answered × State S → (Result Page × Option (Text × Bool)) × State S
  close_answer opened is_https (answer, st) =
      let (cookie, s) =
        close_visit opened is_https answer.is_dirty answer.session_data st.sessions in
      ((answer.page, cookie), record st { sessions = s })

  abbrev passed_on : Answered × State S → (Result Page × Option (Text × Bool)) × State S
  passed_on (answer, st) = ((answer.page, none), st)

  abbrev answer_opened :
      Bool
      → (Visit → State S → Answered × State S)
      → State S
      → Result Opened × S
      → (Result Page × Option (Text × Bool)) × State S
  answer_opened is_https call_next st (err e, s) = ((err e, none), record st { sessions = s })
  answer_opened is_https call_next st (ok opened, s) = close_answer opened is_https (
      call_next
        (record {
          session_id = some opened.session_id;
          session_data = some opened.session_data;
          is_https = is_https;
        })
        (record st { sessions = s }))

  -- In test mode a request has no session.
  unfoldable pub session_middleware :
      Bool
      → Option Text
      → Bool
      → (Visit → State S → Answered × State S)
      → State S
      → (Result Page × Option (Text × Bool)) × State S
  session_middleware true cookie is_https call_next st =
      passed_on
        (call_next (record { session_id = none; session_data = none; is_https = is_https }) st)
  session_middleware false cookie is_https call_next st =
      answer_opened is_https call_next st (open_visit cookie st.sessions)
