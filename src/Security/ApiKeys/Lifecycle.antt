-- ===== src/Security/ApiKeys/Lifecycle.antt =====
-- `create_key` of backend/app/security/api_keys.py beside `verify_api_key`.
use compliance_pulse.Prelude.{
  suc, ◌≡◌, refl, sym, ap, ◌∙◌, subst, arith, Text, true, false, Option, none, some, List, [], ◌∷◌,
  ◌++◌, codes, text_eq_refl, first_where, All,
}
use compliance_pulse.Models.Accounts.{ApiKey}
use compliance_pulse.Session.World.{World}
use compliance_pulse.Session.Rows.{first_where-last}
use compliance_pulse.Session.Monad.{
  Result, ok, pure, utcnow, fresh_id, draw, continue, returned-injective,
}
use compliance_pulse.Security.RateLimit.{enforce_api_key_limit}
use compliance_pulse.Security.Audit.{log_action-quiet}
use compliance_pulse.Security.ApiKeys.{
  Keys, hash_api_key, prefix_of, new_key, add_key, create_key, use_key, is_candidate,
  verify_api_key,
}
use compliance_pulse.Security.ApiKeys.Verified.{use_key-admitted}

abbrev created_key : Keys → Option Text → Text → List Text → World → ApiKey
created_key x organization_id name scopes w =
    new_key x organization_id name scopes (w.random w.draws) (w.clock w.reads) w.next_id

create_key-stores :
    (x : Keys) (organization_id : Option Text) (name : Text) (scopes : List Text) (w : World)
    → let key = created_key x organization_id name scopes w in
      (v : World) × (create_key x organization_id name scopes w ≡ (ok (w.random w.draws, key), v))
      × (v.api_keys ≡ w.api_keys ++ key ∷ [])
unfolding create_key draw utcnow fresh_id
create_key-stores x organization_id name scopes w =
    let key = created_key x organization_id name scopes w in
    let (entries, e) =
      log_action-quiet (codes "API_KEY_CREATE") (some (codes "API_KEY")) _ none none none _ (
        add_key key
          (record w { draws = suc w.draws; reads = suc w.reads; next_id = suc w.next_id })) in
    (_, ap (λ r. continue r (λ _. pure (w.random w.draws, key))) e, refl)

opens_last :
    (x : Keys) (raw_key : Text) (rows : List ApiKey) (key : ApiKey) (w : World)
    → w.api_keys ≡ rows ++ key ∷ []
    → All (λ k. is_candidate raw_key k ≡ false) rows
    → is_candidate raw_key key ≡ true
    → key.hashed_key ≡ hash_api_key x raw_key
    → verify_api_key x raw_key w ≡ use_key x key w
unfolding verify_api_key
opens_last x raw_key rows key w stored unused fits hashed =
    let e : first_where (is_candidate raw_key) w.api_keys ≡ some key =
      ap (first_where (is_candidate raw_key)) stored
      ∙ first_where-last (is_candidate raw_key) rows key unused fits in
    rw e (rw hashed (rw (text_eq_refl (hash_api_key x raw_key)) refl))

-- The text that `create_key` hands out opens the key that it stored, whose use is noted, unless an
-- active key with the same first twelve characters was there before or the limiter refuses.
pub create_key-verify_api_key :
    (x : Keys) (organization_id : Option Text) (name : Text) (scopes : List Text) (w w' : World)
    (raw_key : Text) (key : ApiKey)
    → All (λ k. is_candidate (w.random w.draws) k ≡ false) w.api_keys
    → create_key x organization_id name scopes w ≡ (ok (raw_key, key), w')
    → (enforce_api_key_limit x.settings key.prefix (w'.clock (suc w'.reads)) w'.hits).0 ≡ ok tt
    → (verify_api_key x raw_key w').0
      ≡ ok (some (record key { last_used_at = some (w'.clock w'.reads) }))
create_key-verify_api_key x organization_id name scopes w w' raw_key key unused created admitted =
    let (v, e, stored) = create_key-stores x organization_id name scopes w in
    let (same, world) = returned-injective (sym e ∙ created) in
    let fits : is_candidate (w.random w.draws) (created_key x organization_id name scopes w)
        ≡ true =
      ground (arith, text_eq_refl (prefix_of (w.random w.draws))) in
    let text_same : w.random w.draws ≡ raw_key = ap (λ (p : Text × ApiKey). p.0) same in
    let key_same : created_key x organization_id name scopes w ≡ key =
      ap (λ (p : Text × ApiKey). p.1) same in
    let run =
      opens_last x raw_key w.api_keys key w'
        (ap (λ (u : World). u.api_keys) (sym world)
          ∙ stored
          ∙ ap (λ k. w.api_keys ++ k ∷ []) key_same)
        (subst (λ t. All (λ k. is_candidate t k ≡ false) w.api_keys) text_same unused)
        (subst (λ (p : Text × ApiKey). is_candidate p.0 p.1 ≡ true) same fits)
        (subst (λ (p : Text × ApiKey). p.1.hashed_key ≡ hash_api_key x p.0) same refl) in
    ap (λ (r : Result (Option ApiKey) × World). r.0) run ∙ use_key-admitted x key w' admitted
