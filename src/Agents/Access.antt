-- ===== src/Agents/Access.antt =====
-- Whom the tokens of backend/app/api/agent_machine.py let in.
use compliance_pulse.Prelude.{
  ℕ, suc, ◌+◌, ◌*◌, ◌≤◌, ◌≡◌, refl, sym, ap, ◌∙◌, subst, arith, inl, inr, Text, Bool, true, false,
  Option, none, some, List, [], ◌∷◌, ◌++◌, ltb, text_eq, text_eq_sound, text_eq_refl, Has, All,
  Bool-cases, is_empty,
}
use compliance_pulse.Models.Agents.{Agent, AgentAuthToken}
use compliance_pulse.Session.World.{World, get_row, sees}
use compliance_pulse.Session.Rows.{get_row-Has, get_row-last}
use compliance_pulse.Session.Monad.{ok, utcnow, draw, returned-injective}
use compliance_pulse.Agents.Tokens.{
  find_token, find_agent, enter, agent_of, check_expiry, check_agent_token, get_agent_by_token,
  token_row, lifetime,
}
use compliance_pulse.Agents.Enrolment.{issue_token}

-- A stored token that is neither revoked nor out of time, of a stored agent, whose organization the
-- session is confined to from then on
pub record IsAdmitted (token : Text) (w : World) (agent : Agent) (w' : World) : Type 0 where
  pub row : AgentAuthToken
  pub stored : Has row w.agent_tokens
  pub text : row.token ≡ token
  pub not_revoked : row.revoked ≡ false
  pub in_time : w.clock w.reads ≤ row.expires_at
  pub agent_stored : Has agent w.agents
  pub agent_own : agent.id ≡ row.agent_id
  pub world : w' ≡ record w { reads = suc w.reads; organization_id = some row.organization_id }

agent_of-found :
    (rec : AgentAuthToken) (found : Option Agent) (w w' : World) (agent : Agent)
    → agent_of rec found w ≡ (ok agent, w')
    → (found ≡ some agent) × (w' ≡ enter rec.organization_id w)
agent_of-found rec none w w' agent h = absurd (cc)
agent_of-found rec (some other) w w' agent h =
    let (same, world) = returned-injective h in (ap some same, sym world)

check_expiry-found :
    (rec : AgentAuthToken) (w w' v : World) (agent : Agent) (late : Bool)
    → ltb rec.expires_at (w.clock w.reads) ≡ late
    → check_expiry rec (w.clock w.reads) v ≡ (ok agent, w')
    → (late ≡ false) × (find_agent rec.agent_id v ≡ some agent) × (w' ≡ enter rec.organization_id v)
check_expiry-found rec w w' v agent true e h = absurd (cc (rw e at h))
check_expiry-found rec w w' v agent false e h =
    let (found, world) = agent_of-found rec (find_agent rec.agent_id v) v w' agent (rw e at h) in
    (refl, found, world)

check_agent_token-IsAdmitted :
    (token : Text) (found : Option AgentAuthToken) (w w' : World) (agent : Agent)
    → find_token token w ≡ found
    → check_agent_token found w ≡ (ok agent, w')
    → IsAdmitted token w agent w'
unfolding utcnow
check_agent_token-IsAdmitted token none w w' agent e h = absurd (cc)
check_agent_token-IsAdmitted token (some rec) w w' agent e h = elim (Bool-cases rec.revoked) [
  | inl gone ↦ absurd (cc (rw gone at h))
  | inr good ↦
      let v = record w { reads = suc w.reads } in
      let (early, found, world) = check_expiry-found rec w w' v agent _ refl (rw good at h) in
      let (stored, text) =
        get_row-Has (λ (t : AgentAuthToken). t.organization_id) _ w w.agent_tokens e in
      let (agent_stored, own) = get_row-Has (λ (a : Agent). a.organization_id) _ v w.agents found in
      record {
        row = rec;
        stored = stored;
        text = text_eq_sound rec.token token text;
        not_revoked = good;
        in_time = ground (arith, early);
        agent_stored = agent_stored;
        agent_own = ground (arith, own);
        world = world;
      }
]

-- An agent is let in only by a stored token that is neither revoked nor out of time, as the stored
-- agent that the token was issued to, and the session is confined to the token's organization.
pub get_agent_by_token-IsAdmitted :
    (token : Text) (w w' : World) (agent : Agent)
    → get_agent_by_token token w ≡ (ok agent, w')
    → IsAdmitted token w agent w'
unfolding get_agent_by_token
get_agent_by_token-IsAdmitted [] w w' agent h = absurd (cc)
get_agent_by_token-IsAdmitted (c ∷ token) w w' agent h =
    check_agent_token-IsAdmitted (c ∷ token) _ w w' agent refl h

-- The row that `issue_token` stores
abbrev issued : ℕ → ℕ → World → AgentAuthToken
issued agent_id organization_id w =
    token_row (w.random w.draws) agent_id organization_id (w.clock w.reads + lifetime)
      (w.clock (suc w.reads))

check_agent_token-good :
    (rec : AgentAuthToken) (w : World) (agent : Agent)
    → rec.revoked ≡ false
    → w.clock w.reads ≤ rec.expires_at
    → find_agent rec.agent_id (record w { reads = suc w.reads }) ≡ some agent
    → (check_agent_token (some rec) w).0 ≡ ok agent
unfolding utcnow
check_agent_token-good rec w agent good early found =
    let late : ltb rec.expires_at (w.clock w.reads) ≡ false = ground arith in
    rw good (rw late (rw found refl))

issued-opens :
    (token : Text) (rec : AgentAuthToken) (rows : List AgentAuthToken) (w : World) (agent : Agent)
    → rec.token ≡ token
    → is_empty token ≡ false
    → w.agent_tokens ≡ rows ++ rec ∷ []
    → All (λ (t : AgentAuthToken). text_eq t.token token ≡ false) rows
    → sees w.organization_id rec.organization_id ≡ true
    → rec.revoked ≡ false
    → w.clock w.reads ≤ rec.expires_at
    → find_agent rec.agent_id (record w { reads = suc w.reads }) ≡ some agent
    → (get_agent_by_token token w).0 ≡ ok agent
unfolding get_agent_by_token
issued-opens [] rec rows w agent same full stored unused seen good early found = absurd (cc)
issued-opens (c ∷ token) rec rows w agent same full stored unused seen good early found =
    let fits : text_eq rec.token (c ∷ token) ≡ true = rw same (text_eq_refl (c ∷ token)) in
    let is_there : find_token (c ∷ token) w ≡ some rec =
      ap (get_row (λ (t : AgentAuthToken). t.organization_id) (λ t. text_eq t.token (c ∷ token)) w)
        stored
      ∙ get_row-last (λ (t : AgentAuthToken). t.organization_id) (λ t. text_eq t.token (c ∷ token))
          w rows rec unused fits seen in
    rw is_there (check_agent_token-good rec w agent good early found)

-- The text that was issued for an agent lets that agent in, in every later session that sees the
-- organization and the agent, for 24 hours, if it is not empty, no token had it before, and none was
-- stored since.
pub issue_token-get_agent_by_token :
    (agent_id organization_id : ℕ) (token : Text) (expires_at : ℕ) (w v later : World)
    (agent : Agent)
    → is_empty (w.random w.draws) ≡ false
    → All (λ (t : AgentAuthToken). text_eq t.token (w.random w.draws) ≡ false) w.agent_tokens
    → issue_token agent_id organization_id w ≡ (ok (token, expires_at), v)
    → later.agent_tokens ≡ v.agent_tokens
    → sees later.organization_id organization_id ≡ true
    → later.clock later.reads ≤ w.clock w.reads + 24 * 60 * 60 * 1_000_000
    → find_agent agent_id (record later { reads = suc later.reads }) ≡ some agent
    → (get_agent_by_token token later).0 ≡ ok agent
unfolding issue_token draw utcnow lifetime
issue_token-get_agent_by_token agent_id organization_id token expires_at w v later agent full unused
      made kept seen early found =
    let (same, world) = returned-injective made in
    let text : w.random w.draws ≡ token = ap (λ (p : Text × ℕ). p.0) same in
    subst (λ t. (get_agent_by_token t later).0 ≡ ok agent) text
      (issued-opens (w.random w.draws) (issued agent_id organization_id w) w.agent_tokens later
        agent refl full (kept ∙ ap (λ (u : World). u.agent_tokens) (sym world)) unused seen refl
        early found)
