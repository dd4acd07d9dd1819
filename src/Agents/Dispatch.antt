-- ===== src/Agents/Dispatch.antt =====
-- Which job `agent_next_job` of backend/app/api/agent_machine.py hands out, and how often.
use compliance_pulse.Prelude.{
  ℕ, suc, ◌≤◌, ◌≡◌, refl, sym, ap, ◌∙◌, subst, arith, inl, inr, true, false, Option, none, some,
  List, [], ◌∷◌, ◌&&◌, ◌==◌, update_where, Has, Has-where_rows, All, Bool-cases, first_by-IsLeast,
  IsLeast,
}
use compliance_pulse.Models.Scanning.{Column, blank, malformed, encoded, Metadata}
use compliance_pulse.Models.Agents.{Agent, AgentJob}
use compliance_pulse.Session.World.{World, select_rows, sees}
use compliance_pulse.Session.Monad.{
  M, Result, ok, err, modify, lift, pure, utcnow, continue, ◌>>=◌, returned-injective,
}
use compliance_pulse.Worker.{is_pending}
use compliance_pulse.Agents.Enrolment.{jobs_of}
use compliance_pulse.Agents.Jobs.{
  AgentJobPayload, oldest_job, rule_items, save_agent_job, hydrate, dispatched, dispatch, next_for,
}

-- No job with this id waits.
abbrev pub IsTaken : ℕ → World → Type 0
IsTaken job_id w =
    All (λ (j : AgentJob). (j.id == job_id) ≡ true → is_pending j.status ≡ false) w.agent_jobs

save_agent_job-IsTaken :
    (job : AgentJob) (rows : List AgentJob)
    → is_pending job.status ≡ false
    → All
        (λ (j : AgentJob). (j.id == job.id) ≡ true → is_pending j.status ≡ false)
        (update_where (λ j. j.id == job.id) (λ _. job) rows)
unfolding update_where
save_agent_job-IsTaken job [] h = tt
save_agent_job-IsTaken job (j ∷ rows) h = elim (Bool-cases (j.id == job.id)) [
  | inl same ↦ rw same ((λ _. h, save_agent_job-IsTaken job rows h))
  | inr other ↦ rw other ((λ same. absurd (cc (same, other)), save_agent_job-IsTaken job rows h))
]

-- Finding the rules keeps a job that is taken taken, whether or not it returns.
hydrate-IsTaken :
    (job : AgentJob) (column : Column (List Metadata)) (w : World)
    → is_pending job.status ≡ false
    → IsTaken job.id w
    → IsTaken job.id (hydrate job column w).1
unfolding hydrate
hydrate-IsTaken job (encoded rules) w h taken = taken
hydrate-IsTaken job malformed w h taken = taken
hydrate-IsTaken job blank w h taken = stored (rule_items _) h taken
  where
    stored :
        (items : Result (List Metadata))
        → is_pending job.status ≡ false
        → IsTaken job.id w
        → IsTaken job.id
            ((lift items >>= λ rules.
                modify (save_agent_job (record job { rules_json = encoded rules })) >>= λ _.
                pure rules)
              w).1
    stored (ok rules) h taken =
        save_agent_job-IsTaken (record job { rules_json = encoded rules }) w.agent_jobs h
    stored (err e) h taken = taken

-- The oldest of the agent's jobs that the session sees waiting
pub record IsNext (agent : Agent) (job : AgentJob) (w : World) : Type 0 where
  pub stored : Has job w.agent_jobs
  pub own : job.agent_id ≡ agent.id
  pub waiting : is_pending job.status ≡ true
  pub seen : sees w.organization_id job.organization_id ≡ true
  pub oldest : All (λ (j : AgentJob). job.created_at ≤ j.created_at) (jobs_of agent.id is_pending w)

found-IsNext :
    (agent : Agent) (w : World) (found : Option AgentJob) (job : AgentJob)
    → oldest_job (jobs_of agent.id is_pending w) ≡ found
    → found ≡ some job
    → IsNext agent job w
unfolding select_rows
found-IsNext agent w found job e f =
    let (there, least) =
      subst (λ o. IsLeast (λ (j : AgentJob). j.created_at) o (jobs_of agent.id is_pending w))
        (e ∙ f)
        (first_by-IsLeast (λ (j : AgentJob). j.created_at) (jobs_of agent.id is_pending w)) in
    let (visible, fits) =
      Has-where_rows (λ (j : AgentJob). j.agent_id == agent.id && is_pending j.status) _ there in
    let (stored, seen) =
      Has-where_rows (λ (j : AgentJob). sees w.organization_id j.organization_id) w.agent_jobs
        visible in
    record {
      stored = stored;
      own = ground (arith, fits);
      waiting = ground (arith, fits);
      seen = seen;
      oldest = least;
    }

-- The job is the one that is next, and waits no longer.
pub record IsDispatched (agent : Agent) (payload : AgentJobPayload) (w w' : World) : Type 0 where
  pub job : AgentJob
  pub next : IsNext agent job w
  pub id : payload.id ≡ job.id
  pub benchmark : payload.benchmark_id ≡ job.benchmark_id
  pub taken : IsTaken job.id w'

abbrev reply : AgentJob → List Metadata → M (Option AgentJobPayload)
reply job rules =
    pure (some (record { id = job.id; benchmark_id = job.benchmark_id; rules = rules }))

replied-world :
    (job : AgentJob) (r : Result (List Metadata) × World) → (continue r (reply job)).1 ≡ r.1
replied-world job (ok rules, w) = refl
replied-world job (err e, w) = refl

replied-id :
    (job : AgentJob) (r : Result (List Metadata) × World) (payload : AgentJobPayload) (w' : World)
    → continue r (reply job) ≡ (ok (some payload), w')
    → (payload.id ≡ job.id) × (payload.benchmark_id ≡ job.benchmark_id)
replied-id job (ok rules, w) payload w' h =
    let same = returned-injective h in (cc (same.0), cc (same.0))
replied-id job (err e, w) payload w' h = absurd (cc)

dispatch-IsDispatched :
    (agent : Agent) (found : Option AgentJob) (w w' : World) (payload : AgentJobPayload)
    → oldest_job (jobs_of agent.id is_pending w) ≡ found
    → dispatch found w ≡ (ok (some payload), w')
    → IsDispatched agent payload w w'
unfolding utcnow
dispatch-IsDispatched agent none w w' payload e h =
    absurd (cc (ap (λ (r : Result (Option AgentJobPayload) × World). r.0) h))
dispatch-IsDispatched agent (some old) w w' payload e h =
    let job = dispatched old (w.clock w.reads) in
    let v = save_agent_job job (record w { reads = suc w.reads }) in
    let (id, benchmark) = replied-id job (hydrate job job.rules_json v) payload w' h in
    let taken =
      hydrate-IsTaken job job.rules_json v refl (save_agent_job-IsTaken job w.agent_jobs refl) in
    let world =
      sym (replied-world job (hydrate job job.rules_json v))
      ∙ ap (λ (r : Result (Option AgentJobPayload) × World). r.1) h in
    record {
      job = old;
      next = found-IsNext agent w (some old) old e refl;
      id = id;
      benchmark = benchmark;
      taken = subst (IsTaken old.id) world taken;
    }

-- A job that is handed out is the agent's own, visible to its session and the oldest of those that
-- wait; no stored job with its id waits afterwards.
pub next_for-IsDispatched :
    (agent : Agent) (w w' : World) (payload : AgentJobPayload)
    → next_for agent w ≡ (ok (some payload), w')
    → IsDispatched agent payload w w'
unfolding next_for
next_for-IsDispatched agent w w' payload h = dispatch-IsDispatched agent _ w w' payload refl h
