-- ===== src/Agents/Once.antt =====
-- How often the endpoints of backend/app/api/agent_machine.py hand out a job.
use compliance_pulse.Prelude.{
  ℕ, ◌≡◌, ◌≢◌, refl, sym, ap, ◌∙◌, subst, arith, inl, inr, Text, true, false, Option, none, some,
  List, [], ◌∷◌, ◌++◌, ◌==◌, codes, text_eq, update_where, All, All-Has, All-append, Bool-cases,
}
use compliance_pulse.Models.Scanning.{Scan, Column, blank, malformed, encoded, Metadata}
use compliance_pulse.Models.Agents.{Agent, AgentJob, AgentResultUpload}
use compliance_pulse.Session.World.{World}
use compliance_pulse.Session.Monad.{Result, ok, err, modify, lift, pure, utcnow, ◌>>=◌}
use compliance_pulse.Session.Preserve.{Preserves, Preserves-gets, Preserves-bind}
use compliance_pulse.Worker.{is_pending}
use compliance_pulse.Agents.Jobs.{
  AgentJobPayload, rule_items, save_agent_job, hydrate, dispatched, dispatch, next_for,
}
use compliance_pulse.Agents.Dispatch.{IsTaken, next_for-IsDispatched}
use compliance_pulse.Agents.Uploads.{Intake, UploadReply, upload_status, result_for}
use compliance_pulse.Agents.Accepted.{
  IsSettled, refused, accepted, broken_off, IsScanned, result_for-IsSettled,
}

-- A request of an agent behind the check of its token, in a session that is confined to a tenant
pub data Contact : Type 0 where
  ask : Option ℕ → Agent → Contact
  upload : Option ℕ → ℕ → AgentResultUpload → Agent → Contact

-- The id of the job that an answer hands out
abbrev pub handed_by : Result (Option AgentJobPayload) → List ℕ
handed_by (ok (some payload)) = payload.id ∷ []
handed_by (ok none) = []
handed_by (err e) = []

abbrev confined : Option ℕ → World → World
confined tenant w = record w { organization_id = tenant }

abbrev pub answered : Intake → Contact → World → List ℕ × World
answered x (ask tenant agent) w =
    let (answer, w') = next_for agent (confined tenant w) in (handed_by answer, w')
answered x (upload tenant job_id payload agent) w =
    ([], (result_for x job_id payload agent (confined tenant w)).1)

-- The ids of the jobs that are handed out to a sequence of requests, in their order
abbrev pub handed_out : Intake → List Contact → World → List ℕ
handed_out x [] w = []
handed_out x (contact ∷ contacts) w =
    let (ids, w') = answered x contact w in ids ++ handed_out x contacts w'

abbrev pub AreDifferent : List ℕ → Type 0
AreDifferent [] = Unit
AreDifferent (i ∷ ids) = All (λ j. j ≢ i) ids × AreDifferent ids

-- A save of a job that does not wait leaves taken what is taken.
saved-taken :
    (k i : ℕ) (job : AgentJob) (rows : List AgentJob)
    → is_pending job.status ≡ false
    → All (λ (j : AgentJob). (j.id == k) ≡ true → is_pending j.status ≡ false) rows
    → All
        (λ (j : AgentJob). (j.id == k) ≡ true → is_pending j.status ≡ false)
        (update_where (λ j. j.id == i) (λ _. job) rows)
unfolding update_where
saved-taken k i job [] over h = tt
saved-taken k i job (j ∷ rows) over h = elim (Bool-cases (j.id == i)) [
  | inl same ↦ rw same ((λ _. over, saved-taken k i job rows over h.1))
  | inr other ↦ rw other ((h.0, saved-taken k i job rows over h.1))
]

module _ (k : ℕ) where
  hydrate-keeps :
      (job : AgentJob) (column : Column (List Metadata))
      → is_pending job.status ≡ false
      → Preserves (IsTaken k) (hydrate job column)
  unfolding hydrate
  hydrate-keeps job (encoded rules) over = record { at = λ w h. h }
  hydrate-keeps job malformed over = record { at = λ w h. h }
  hydrate-keeps job blank over = record { at = λ w h. stored (rule_items _) w h }
    where
      stored :
          (items : Result (List Metadata)) (w : World)
          → IsTaken k w
          → IsTaken k
              ((lift items >>= λ rules.
                  modify (save_agent_job (record job { rules_json = encoded rules })) >>= λ _.
                  pure rules)
                w).1
      stored (ok rules) w h =
          saved-taken k job.id (record job { rules_json = encoded rules }) w.agent_jobs over h
      stored (err e) w h = h

  dispatch-keeps : (found : Option AgentJob) → Preserves (IsTaken k) (dispatch found)
  unfolding utcnow
  dispatch-keeps none = record { at = λ w h. h }
  dispatch-keeps (some old) = record {
    at = λ w h.
        let job = dispatched old (w.clock w.reads) in
        (Preserves-bind (IsTaken k) (hydrate job job.rules_json) _
            (hydrate-keeps job job.rules_json refl) (λ rules. record { at = λ v g. g })).at
          _ (saved-taken k old.id job w.agent_jobs refl h);
  }

  next_for-keeps : (agent : Agent) → Preserves (IsTaken k) (next_for agent)
  unfolding next_for
  next_for-keeps agent =
      Preserves-bind (IsTaken k) _ _ (Preserves-gets (IsTaken k) _) dispatch-keeps

  upload_status-over : (status : Text) → is_pending (upload_status status) ≡ false
  upload_status-over status = elim (Bool-cases (text_eq status (codes "completed"))) [
    | inl e ↦ rw e refl
    | inr e ↦ rw e refl
  ]

  scanned-keeps :
      {x : Intake} {payload : AgentResultUpload} {agent : Agent} {job : AgentJob} {w w' : World}
      {scan : Scan}
      → IsScanned x payload agent job w scan w'
      → IsTaken k w
      → IsTaken k w'
  scanned-keeps {payload = payload} {job = job} {w = w} s h =
      subst (All (λ (j : AgentJob). (j.id == k) ≡ true → is_pending j.status ≡ false)) (sym s.jobs)
        (saved-taken k job.id s.shut w.agent_jobs
          (ap is_pending s.shut_status ∙ upload_status-over payload.status) h)

  settled-keeps :
      {x : Intake} {job_id : ℕ} {payload : AgentResultUpload} {agent : Agent} {w : World}
      {r : Result UploadReply × World}
      → IsSettled x job_id payload agent w r
      → IsTaken k w
      → IsTaken k r.1
  settled-keeps (refused message missing) h = h
  settled-keeps (accepted job reply w' stored same own accepts uploaded) h =
      scanned-keeps uploaded.scanned h
  settled-keeps (broken_off job e scan w' stored same own bad scanned results reports) h =
      scanned-keeps scanned h

  -- A job that is taken is not handed out any more, and stays taken.
  answered-keeps :
      (x : Intake) (contact : Contact) (w : World)
      → IsTaken k w
      → All (λ i. i ≢ k) (answered x contact w).0 × IsTaken k (answered x contact w).1
  answered-keeps x (ask tenant agent) w h = (
    not_handed (next_for agent (confined tenant w)) refl,
    (next_for-keeps agent).at (confined tenant w) h,
  )
    where
      not_handed :
          (r : Result (Option AgentJobPayload) × World)
          → next_for agent (confined tenant w) ≡ r
          → All (λ i. i ≢ k) (handed_by r.0)
      not_handed (err e, v) ran = tt
      not_handed (ok none, v) ran = tt
      not_handed (ok (some payload), v) ran =
          let d = next_for-IsDispatched agent (confined tenant w) v payload ran in
          (
            λ same.
                let there : (d.job.id == k) ≡ true = ground (arith, d.id, same) in
                cc (
                  All-Has (λ (j : AgentJob). (j.id == k) ≡ true → is_pending j.status ≡ false)
                      w.agent_jobs h d.next.stored there,
                  d.next.waiting,
                ),
            tt,
          )
  answered-keeps x (upload tenant job_id payload agent) w h =
      (tt, settled-keeps (result_for-IsSettled x job_id payload agent (confined tenant w)) h)

  handed_out-others :
      (x : Intake) (contacts : List Contact) (w : World)
      → IsTaken k w
      → All (λ i. i ≢ k) (handed_out x contacts w)
  handed_out-others x [] w h = tt
  handed_out-others x (contact ∷ contacts) w h =
      let (none_now, taken) = answered-keeps x contact w h in
      All-append (λ i. i ≢ k) (answered x contact w).0 _ none_now
        (handed_out-others x contacts (answered x contact w).1 taken)

-- No job is handed out twice: whatever the agents ask for and upload, in whatever order and
-- sessions, the ids of the jobs that they are given are all different.
pub handed_out-AreDifferent :
    (x : Intake) (contacts : List Contact) (w : World) → AreDifferent (handed_out x contacts w)
handed_out-AreDifferent x [] w = tt
handed_out-AreDifferent x (upload tenant job_id payload agent ∷ contacts) w =
    handed_out-AreDifferent x contacts (result_for x job_id payload agent (confined tenant w)).1
handed_out-AreDifferent x (ask tenant agent ∷ contacts) w =
    asked (next_for agent (confined tenant w)) refl
      (handed_out-AreDifferent x contacts (next_for agent (confined tenant w)).1)
  where
    asked :
        (r : Result (Option AgentJobPayload) × World)
        → next_for agent (confined tenant w) ≡ r
        → AreDifferent (handed_out x contacts r.1)
        → AreDifferent (handed_by r.0 ++ handed_out x contacts r.1)
    asked (err e, v) ran rest = rest
    asked (ok none, v) ran rest = rest
    asked (ok (some payload), v) ran rest =
        let d = next_for-IsDispatched agent (confined tenant w) v payload ran in
        (
          handed_out-others payload.id x contacts v (subst (λ i. IsTaken i v) (sym d.id) d.taken),
          rest,
        )
