-- ===== src/Security/ApiKeys/Revoked.antt =====
-- What `revoke_key` of backend/app/security/api_keys.py leaves behind, for every later use of the keys.
use compliance_pulse.Prelude.{
  ℕ, suc, ◌≡◌, ◌≢◌, ◌≤◌, ◌<◌, refl, sym, ap, ◌∙◌, subst, inl, inr, arith, Text, true, false, Option,
  none, some, List, [], ◌∷◌, codes, ◌==◌, text_eq, first_where, update_where, first_where-Has, All,
  All-Has, All-append, Bool-cases,
}
use compliance_pulse.Models.Accounts.{ApiKey}
use compliance_pulse.Session.World.{World}
use compliance_pulse.Session.Monad.{
  Result, ok, err, http, lift, or_raise, pure, utcnow, fresh_id, draw, ◌>>=◌, continue,
}
use compliance_pulse.Security.RateLimit.{enforce_api_key_limit}
use compliance_pulse.Security.Audit.{log_action-quiet}
use compliance_pulse.Security.ApiKeys.{
  Keys, hash_api_key, new_key, add_key, save_key, create_key, revoke_key, revoked_key,
  store_revoked, find_key, log_usage, use_key, check_hash, is_candidate, verify_api_key,
}
use compliance_pulse.Security.ApiKeys.Verified.{verify_api_key-Opens, log_usage-quiet, used_at}

-- A row of this id is not active.
abbrev IsOff : ℕ → ApiKey → Type 0
IsOff key_id key = (key.id == key_id) ≡ true → key.is_active ≡ false

-- No row with this id is active, and the id was given out.
abbrev pub IsRevoked : ℕ → World → Type 0
IsRevoked key_id w = All (IsOff key_id) w.api_keys × (key_id < w.next_id)

-- What may happen between two states: a call of the keys' functions, whether it returns or raises, or
-- anything that leaves the keys alone and takes back no id
pub data KeyStep (x : Keys) (w v : World) : Type 0 where
  created :
      (organization_id : Option Text) (name : Text) (scopes : List Text)
      → v ≡ (create_key x organization_id name scopes w).1
      → KeyStep x w v
  revoked : (key_id : ℕ) → v ≡ (revoke_key key_id w).1 → KeyStep x w v
  verified : (raw_key : Text) → v ≡ (verify_api_key x raw_key w).1 → KeyStep x w v
  elsewhere : v.api_keys ≡ w.api_keys → w.next_id ≤ v.next_id → KeyStep x w v

-- The steps lead through the states of the list to the last one.
abbrev pub Leads : Keys → World → List World → World → Type 0
Leads x w [] later = later ≡ w
Leads x w (v ∷ vs) later = KeyStep x w v × Leads x v vs later

module _ (k : ℕ) where
  saved-IsOff :
      (i : ℕ) (key : ApiKey) (rows : List ApiKey)
      → IsOff k key
      → All (IsOff k) rows
      → All (IsOff k) (update_where (λ j. j.id == i) (λ _. key) rows)
  unfolding update_where
  saved-IsOff i key [] off h = tt
  saved-IsOff i key (j ∷ rows) off h = elim (Bool-cases (j.id == i)) [
    | inl same ↦ rw same ((off, saved-IsOff i key rows off h.1))
    | inr other ↦ rw other ((h.0, saved-IsOff i key rows off h.1))
  ]

  create_key-keeps :
      (x : Keys) (organization_id : Option Text) (name : Text) (scopes : List Text) (w : World)
      → IsRevoked k w
      → IsRevoked k (create_key x organization_id name scopes w).1
  unfolding create_key draw utcnow fresh_id
  create_key-keeps x organization_id name scopes w (h, given) =
      let key =
        new_key x organization_id name scopes (w.random w.draws) (w.clock w.reads) w.next_id in
      let answer : Text × ApiKey = (w.random w.draws, key) in
      let (entries, e) =
        log_action-quiet (codes "API_KEY_CREATE") (some (codes "API_KEY")) _ none none none _ (
          add_key key
            (record w { draws = suc w.draws; reads = suc w.reads; next_id = suc w.next_id })) in
      subst (λ r. IsRevoked k (continue r (λ _. pure answer)).1) (sym e)
        (
          All-append (IsOff k) w.api_keys _ h ((λ same. absurd (ground (arith, given, same))), tt),
          ground (arith, given),
        )

  store_revoked-keeps :
      (key : ApiKey) (w : World) → IsRevoked k w → IsRevoked k (store_revoked key w).1
  store_revoked-keeps key w (h, given) =
      let (entries, e) =
        log_action-quiet (codes "API_KEY_REVOKE") (some (codes "API_KEY")) _ none none none _
          (save_key (revoked_key key) w) in
      subst (λ r. IsRevoked k (continue r (λ _. pure (revoked_key key))).1) (sym e)
        (saved-IsOff key.id (revoked_key key) w.api_keys (λ _. refl) h, ground (arith, given))

  found-keeps :
      (found : Option ApiKey) (w : World)
      → IsRevoked k w
      → IsRevoked k
          ((lift (or_raise (http 404 (codes "API key not found")) found) >>= store_revoked) w).1
  found-keeps none w h = h
  found-keeps (some key) w h = store_revoked-keeps key w h

  revoke_key-keeps : (key_id : ℕ) (w : World) → IsRevoked k w → IsRevoked k (revoke_key key_id w).1
  unfolding revoke_key
  revoke_key-keeps key_id w h = found-keeps (find_key key_id w) w h

  limited-keeps :
      (answer : Result (Unit {0})) (key : ApiKey) (v : World)
      → IsRevoked k v
      → IsRevoked k (continue (answer, v) (λ _. log_usage key)).1
  limited-keeps (ok _) key v (h, given) =
      let (entries, e) = log_usage-quiet key v in
      subst (λ r. IsRevoked k r.1) (sym e) (h, ground (arith, given))
  limited-keeps (err e) key v h = h

  use_key-keeps :
      (x : Keys) (candidate : ApiKey) (w : World)
      → IsOff k candidate
      → IsRevoked k w
      → IsRevoked k (use_key x candidate w).1
  unfolding utcnow
  use_key-keeps x candidate w off (h, given) =
      let key = used_at (w.clock w.reads) candidate in
      let (answer, hits) =
        enforce_api_key_limit x.settings candidate.prefix (w.clock (suc w.reads)) w.hits in
      limited-keeps answer key (save_key key (record w { reads = suc (suc w.reads); hits = hits }))
        (saved-IsOff candidate.id key w.api_keys off h, given)

  check_hash-keeps :
      (x : Keys) (raw_key : Text) (found : Option ApiKey) (w : World)
      → first_where (is_candidate raw_key) w.api_keys ≡ found
      → IsRevoked k w
      → IsRevoked k (check_hash x raw_key found w).1
  check_hash-keeps x raw_key none w e h = h
  check_hash-keeps x raw_key (some key) w e h =
      let (there, passes) = first_where-Has (is_candidate raw_key) w.api_keys e in
      let off = All-Has (IsOff k) w.api_keys h.0 there in
      elim (Bool-cases (text_eq key.hashed_key (hash_api_key x raw_key))) [
        | inl same ↦ rw same (use_key-keeps x key w off h)
        | inr other ↦ rw other h
      ]

  verify_api_key-keeps :
      (x : Keys) (raw_key : Text) (w : World)
      → IsRevoked k w
      → IsRevoked k (verify_api_key x raw_key w).1
  unfolding verify_api_key
  verify_api_key-keeps x raw_key w h = check_hash-keeps x raw_key _ w refl h

  KeyStep-keeps : (x : Keys) (w v : World) → KeyStep x w v → IsRevoked k w → IsRevoked k v
  KeyStep-keeps x w v (created organization_id name scopes e) h =
      subst (IsRevoked k) (sym e) (create_key-keeps x organization_id name scopes w h)
  KeyStep-keeps x w v (revoked key_id e) h =
      subst (IsRevoked k) (sym e) (revoke_key-keeps key_id w h)
  KeyStep-keeps x w v (verified raw_key e) h =
      subst (IsRevoked k) (sym e) (verify_api_key-keeps x raw_key w h)
  KeyStep-keeps x w v (elsewhere same more) (h, given) =
      (subst (All (IsOff k)) (sym same) h, ground (arith, given, more))

  Leads-keep :
      (x : Keys) (w : World) (vs : List World) (later : World)
      → Leads x w vs later
      → IsRevoked k w
      → IsRevoked k later
  Leads-keep x w [] later e h = subst (IsRevoked k) (sym e) h
  Leads-keep x w (v ∷ vs) later (step, steps) h =
      Leads-keep x v vs later steps (KeyStep-keeps x w v step h)

update_where-revoked :
    (key_id : ℕ) (key : ApiKey) (rows : List ApiKey)
    → key.is_active ≡ false
    → All (IsOff key_id) (update_where (λ k. k.id == key_id) (λ _. key) rows)
unfolding update_where
update_where-revoked key_id key [] h = tt
update_where-revoked key_id key (k ∷ rows) h = elim (Bool-cases (k.id == key_id)) [
  | inl same ↦ rw same ((λ _. h, update_where-revoked key_id key rows h))
  | inr other ↦
      rw other ((λ same. absurd (cc (same, other)), update_where-revoked key_id key rows h))
]

store_revoked-IsRevoked :
    (key : ApiKey) (w : World) → key.id < w.next_id → IsRevoked key.id (store_revoked key w).1
store_revoked-IsRevoked key w given =
    let (entries, e) =
      log_action-quiet (codes "API_KEY_REVOKE") (some (codes "API_KEY")) _ none none none _
        (save_key (revoked_key key) w) in
    subst (λ r. IsRevoked key.id (continue r (λ _. pure (revoked_key key))).1) (sym e)
      (update_where-revoked key.id (revoked_key key) w.api_keys refl, ground (arith, given))

found-IsRevoked :
    (key_id : ℕ) (found : Option ApiKey) (w w' : World) (key : ApiKey)
    → key_id < w.next_id
    → find_key key_id w ≡ found
    → (lift (or_raise (http 404 (codes "API key not found")) found) >>= store_revoked) w
      ≡ (ok key, w')
    → IsRevoked key_id w'
found-IsRevoked key_id none w w' key given e h =
    absurd (cc (ap (λ (r : Result ApiKey × World). r.0) h))
found-IsRevoked key_id (some row) w w' key given e h =
    let (there, passes) = first_where-Has (λ (k : ApiKey). k.id == key_id) w.api_keys e in
    let same : row.id ≡ key_id = ground arith in
    subst (λ i. IsRevoked i w') same
      (subst (IsRevoked row.id) (ap (λ (r : Result ApiKey × World). r.1) h)
        (store_revoked-IsRevoked row w (subst (λ i. i < w.next_id) (sym same) given)))

revoke_key-IsRevoked :
    (key_id : ℕ) (w w' : World) (key : ApiKey)
    → key_id < w.next_id
    → revoke_key key_id w ≡ (ok key, w')
    → IsRevoked key_id w'
unfolding revoke_key
revoke_key-IsRevoked key_id w w' key given h = found-IsRevoked key_id _ w w' key given refl h

-- Once a key is revoked, whose id was given out, no text opens it any more, whatever calls create,
-- revoke or verify keys in between, and whatever else happens that leaves the keys alone and takes
-- back no id.
pub revoke_key-verify_api_key :
    (x : Keys) (key_id : ℕ) (raw_key : Text) (w w' later v : World) (states : List World)
    (key opened : ApiKey)
    → key_id < w.next_id
    → revoke_key key_id w ≡ (ok key, w')
    → Leads x w' states later
    → verify_api_key x raw_key later ≡ (ok (some opened), v)
    → opened.id ≢ key_id
revoke_key-verify_api_key x key_id raw_key w w' later v states key opened given gone steps h same =
    let o = verify_api_key-Opens x raw_key later v opened h in
    let id : o.row.id ≡ key_id = sym (ap (λ (k : ApiKey). k.id) o.used) ∙ same in
    let inactive =
      All-Has (IsOff key_id) later.api_keys
        (Leads-keep key_id x w' states later steps
          (revoke_key-IsRevoked key_id w w' key given gone)).0
        o.stored (ground (arith, id)) in
    cc (inactive, o.active)
