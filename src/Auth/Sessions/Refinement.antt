-- ===== src/Auth/Sessions/Refinement.antt =====
-- The session store of backend/app/auth/utils.py beside a table of sessions.
use compliance_pulse.Prelude.{
  ℕ, ◌+◌, ◌*◌, ◌≡◌, ◌≢◌, refl, sym, ap, ◌∙◌, Text, Bool, true, false, Option, none, some, List, [],
  ◌∷◌, ltb, text_eq, text_eq_sound, if◌then◌else◌, Bool-cases, inl, inr,
}
use compliance_pulse.Models.Scanning.{Time}
use compliance_pulse.Session.Monad.{Result, Error, ok, err}
use compliance_pulse.Auth.Payload.{to_json, from_json, from_json-to_json}
use compliance_pulse.Auth.Access.{SessionData}
use compliance_pulse.Auth.Sessions.{
  Backend, IsBackend, found_payload, read_session, touch_if, get_found, create, save, get, destroy,
  rotate_csrf,
}

-- A call of the store, with what it draws and the times that it reads
pub data Call : Type 0 where
  create_session : Text → Text → Time → Time → Option ℕ → Option ℕ → Call
  save_session : Text → SessionData → Call
  get_session : Bool → Text → Time → Time → Call
  destroy_session : Text → Call
  rotate_token : Text → SessionData → Text → Call

pub data Answer : Type 0 where
  session : Option SessionData → Answer
  token : Text → Answer
  nothing : Answer
  raised : Error → Answer

-- What a lookup answers
abbrev pub looked_up : Result (Option SessionData) → Answer
looked_up (ok found) = session found
looked_up (err e) = raised e

-- The abstract view: which session an id stands for.
abbrev pub Table : Type 0
Table = Text → Option SessionData

abbrev pub set_entry : Text → Option SessionData → Table → Table
set_entry key entry t other = if text_eq key other then entry else t other

abbrev pub unexpired : Time → Option SessionData → Option SessionData
unexpired now none = none
unexpired now (some v) = if ltb v.expires_at now then none else some v

abbrev pub renew : ℕ → Bool → Time → Option SessionData → Option SessionData
renew ttl touch later none = none
renew ttl touch later (some v) =
    if touch then some (record v { expires_at = later + ttl * 1_000_000 }) else some v

-- A call on the table: looking a session up leaves the entry that it answers.
unfoldable pub respond : ℕ → Call → Table → Answer × Table
respond ttl (create_session id csrf created_at now user organization) t =
    let v : SessionData = record {
      user_id = user;
      organization_id = organization;
      csrf_token = csrf;
      created_at = created_at;
      expires_at = now + ttl * 1_000_000;
    } in
    (session (some v), set_entry id (some v) t)
respond ttl (save_session id v) t = (nothing, set_entry id (some v) t)
respond ttl (get_session touch id now later) t =
    let entry = renew ttl touch later (unexpired now (t id)) in
    (session entry, set_entry id entry t)
respond ttl (destroy_session id) t = (nothing, set_entry id none t)
respond ttl (rotate_token id v csrf) t =
    (token csrf, set_entry id (some (record v { csrf_token = csrf })) t)

unfoldable pub replay : ℕ → List Call → Table → List Answer × Table
replay ttl [] t = ([], t)
replay ttl (c ∷ cs) t =
    let (a, t') = respond ttl c t in let (as', t'') = replay ttl cs t' in (a ∷ as', t'')

module _ {S : Type 0} (b : Backend S) (ttl : ℕ) where
  abbrev pub perform : Call → S → Answer × S
  perform (create_session id csrf created_at now user organization) s =
      let (v, s') = create b ttl id csrf created_at now user organization s in
      (session (some v), s')
  perform (save_session id v) s = (nothing, save b ttl id v s)
  perform (get_session touch id now later) s =
      let (found, s') = get b ttl touch id now later s in (looked_up found, s')
  perform (destroy_session id) s = (nothing, destroy b ttl id s)
  perform (rotate_token id v csrf) s =
      let (csrf', s') = rotate_csrf b ttl id v csrf s in (token csrf', s')

  unfoldable pub run : List Call → S → List Answer × S
  run [] s = ([], s)
  run (c ∷ cs) s = let (a, s') = perform c s in let (as', s'') = run cs s' in (a ∷ as', s'')

  abbrev pub Shows : S → Table → Type 0
  Shows s t = (key : Text) → read_session b ttl key s ≡ ok (t key)

  module _ (laws : IsBackend b) where
    found_payload-to_json :
        (v : SessionData) → found_payload b.codec (some (to_json b.codec v)) ≡ ok (some v)
    unfolding to_json
    found_payload-to_json v =
        unempty (to_json b.codec v) (laws.is_codec.full _)
          (from_json-to_json b.codec v laws.is_codec)
      where
        unempty :
            (payload : Text)
            → payload ≢ []
            → from_json b.codec payload ≡ ok v
            → found_payload b.codec (some payload) ≡ ok (some v)
        unempty [] full h = absurd (full refl)
        unempty (c ∷ cs) full h = rw h refl

    pub read_session-save :
        (key other : Text) (v : SessionData) (s : S)
        → read_session b ttl other (save b ttl key v s)
          ≡ (if text_eq key other then ok (some v) else read_session b ttl other s)
    unfolding read_session save
    read_session-save key other v s =
        ap (found_payload b.codec) (laws.read-write key other (to_json b.codec v) ttl s)
        ∙ chosen (text_eq key other)
      where
        chosen :
            (same : Bool)
            → found_payload b.codec (if same then some (to_json b.codec v) else b.read other s)
              ≡ (if same then ok (some v) else found_payload b.codec (b.read other s))
        chosen true = found_payload-to_json v
        chosen false = refl

    read_session-delete :
        (key other : Text) (s : S)
        → read_session b ttl other (b.delete key s)
          ≡ (if text_eq key other then ok none else read_session b ttl other s)
    unfolding read_session
    read_session-delete key other s =
        ap (found_payload b.codec) (laws.read-delete key other s) ∙ chosen (text_eq key other)
      where
        chosen :
            (same : Bool)
            → found_payload b.codec (if same then none else b.read other s)
              ≡ (if same then ok none else found_payload b.codec (b.read other s))
        chosen true = refl
        chosen false = refl

    entered :
        (same : Bool) (entry kept : Option SessionData)
        → ◌≡◌ {A = Result (Option SessionData)}
            (if same then ok entry else ok kept)
            (ok (if same then entry else kept))
    entered true entry kept = refl
    entered false entry kept = refl

    write-Shows :
        (key : Text) (v : SessionData) (s : S) (t : Table)
        → Shows s t
        → Shows (save b ttl key v s) (set_entry key (some v) t)
    write-Shows key v s t h other =
        read_session-save key other v s
        ∙ ap (λ e. if text_eq key other then ok (some v) else e) (h other)
        ∙ entered (text_eq key other) (some v) (t other)

    delete-Shows :
        (key : Text) (s : S) (t : Table) → Shows s t → Shows (b.delete key s) (set_entry key none t)
    delete-Shows key s t h other =
        read_session-delete key other s
        ∙ ap (λ e. if text_eq key other then ok none else e) (h other)
        ∙ entered (text_eq key other) none (t other)

    same-Shows :
        (key : Text) (s : S) (t : Table) (e : Option SessionData)
        → t key ≡ e
        → Shows s t
        → Shows s (set_entry key e t)
    same-Shows key s t e same h other = elim (Bool-cases (text_eq key other)) [
      | inl here ↦ rw here (h other ∙ ap ok (ap t (sym (text_eq_sound key other here)) ∙ same))
      | inr elsewhere ↦ rw elsewhere (h other)
    ]

    touch_if-Shows :
        (touch : Bool) (id : Text) (later : Time) (v : SessionData) (s : S) (t : Table)
        → t id ≡ some v
        → Shows s t
        → let entry = renew ttl touch later (some v) in
          ((touch_if b ttl touch id later v s).0 ≡ ok entry)
          × Shows (touch_if b ttl touch id later v s).1 (set_entry id entry t)
    unfolding touch_if
    touch_if-Shows false id later v s t same h = (refl, same-Shows id s t (some v) same h)
    touch_if-Shows true id later v s t same h = (refl, write-Shows id _ s t h)

    get_found-Shows :
        (touch : Bool) (id : Text) (now later : Time) (e : Option SessionData) (s : S) (t : Table)
        → t id ≡ e
        → Shows s t
        → let entry = renew ttl touch later (unexpired now e) in
          ((get_found b ttl touch id now later (ok e) s).0 ≡ ok entry)
          × Shows (get_found b ttl touch id now later (ok e) s).1 (set_entry id entry t)
    get_found-Shows touch id now later none s t same h = (refl, same-Shows id s t none same h)
    get_found-Shows touch id now later (some v) s t same h =
        elim (Bool-cases (ltb v.expires_at now)) [
          | inl late ↦ rw late ((refl, delete-Shows id s t h))
          | inr early ↦ rw early (touch_if-Shows touch id later v s t same h)
        ]

    perform-Shows :
        (c : Call) (s : S) (t : Table)
        → Shows s t
        → ((perform c s).0 ≡ (respond ttl c t).0) × Shows (perform c s).1 (respond ttl c t).1
    unfolding respond create save destroy rotate_csrf get
    perform-Shows (create_session id csrf created_at now user organization) s t h =
        (refl, write-Shows id _ s t h)
    perform-Shows (save_session id v) s t h = (refl, write-Shows id v s t h)
    perform-Shows (get_session touch id now later) s t h =
        let (same, shows) = get_found-Shows touch id now later (t id) s t refl h in
        rw (h id) ((ap looked_up same, shows))
    perform-Shows (destroy_session id) s t h = (refl, delete-Shows id s t h)
    perform-Shows (rotate_token id v csrf) s t h = (refl, write-Shows id _ s t h)

    -- Any sequence of calls on a store, over a backend that keeps its contract, is answered without an
    -- error as the table of sessions answers it, in which a lookup answers the unexpired session, if
    -- asked for renewed to the store's number of seconds from then on, and leaves that very entry;
    -- and afterwards the payloads that the backend holds are those of the table's sessions.
    pub run_refines :
        (cs : List Call) (s : S) (t : Table)
        → Shows s t
        → ((run cs s).0 ≡ (replay ttl cs t).0) × Shows (run cs s).1 (replay ttl cs t).1
    unfolding run replay
    run_refines [] s t h = (refl, h)
    run_refines (c ∷ cs) s t h =
        let (same, shows) = perform-Shows c s t h in
        let (rest, shows') = run_refines cs (perform c s).1 (respond ttl c t).1 shows in
        (cc (same, rest), shows')
