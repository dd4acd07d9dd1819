-- ===== src/Agents/Accepted.antt =====
-- What `agent_job_result` of backend/app/api/agent_machine.py stores, and for whom.
use compliance_pulse.Prelude.{
  ℕ, suc, ◌≡◌, refl, sym, ap, ◌∙◌, arith, inl, inr, Text, true, false, Option, none, some, List, [],
  ◌∷◌, ◌++◌, ◌==◌, length, map, count_where, update_where, Has, All, Bool-cases, if◌then◌else◌, ◌⊎◌,
  codes, lookup,
}
use mathlib.Core.Option.{some-injective}
use compliance_pulse.Engine.Executor.Steps.{add_scan, add_report}
use compliance_pulse.Models.Scanning.{Scan, ScanResult, Report, Value, Metadata}
use compliance_pulse.Models.Agents.{Agent, AgentJob, AgentResult, AgentResultUpload}
use compliance_pulse.Session.World.{World}
use compliance_pulse.Session.Rows.{get_row-Has}
use compliance_pulse.Session.Monad.{Result, Error, ok, err, http, utcnow, fresh_id, ◌>>◌}
use compliance_pulse.Agents.Stored.{weight_of, items_counted, store_items-AreStored}
use compliance_pulse.Agents.Uploads.{
  raw_result, Intake, UploadReply, no_points, count_items, item_passed, score_or_zero, upload_score,
  upload_status, agent_scan, agent_report, closed, close_job, make_scan, make_report, integrate,
  driven, and_then, check_items, find_agent_job, accept, result_for,
}

-- The score that the items earn: the weight of those that passed in that of all
abbrev pub uploaded_score : Intake → AgentResultUpload → ℕ
uploaded_score x payload =
    if weight_of (λ _. true) payload.results == 0
    then score_or_zero x payload.score
    else x.percent (weight_of item_passed payload.results) (weight_of (λ _. true) payload.results)

-- What an upload of the agent's own job leaves behind in any case: the raw result, the scan, and the
-- job closed
pub record IsScanned (x : Intake) (payload : AgentResultUpload) (agent : Agent) (job : AgentJob)
    (w : World) (scan : Scan) (w' : World) : Type 0 where
  pub raw : AgentResult
  pub scans : w'.scans ≡ w.scans ++ scan ∷ []
  pub raws : w'.agent_results ≡ w.agent_results ++ raw ∷ []
  pub tenant : scan.organization_id ≡ agent.organization_id
  pub status : scan.status ≡ upload_status payload.status
  pub total : scan.total_rules ≡ length payload.results
  pub passed : scan.passed_rules ≡ count_where item_passed payload.results
  pub score : scan.compliance_score ≡ uploaded_score x payload
  pub raw_job : raw.agent_job_id ≡ job.id
  pub raw_tenant : raw.organization_id ≡ agent.organization_id
  pub shut : AgentJob
  pub shut_id : shut.id ≡ job.id
  pub shut_status : shut.status ≡ upload_status payload.status
  pub jobs : w'.agent_jobs ≡ update_where (λ j. j.id == job.id) (λ _. shut) w.agent_jobs

-- What it leaves behind where the driver stores all items
pub record IsUploaded (x : Intake) (payload : AgentResultUpload) (agent : Agent) (job : AgentJob)
    (w : World) (reply : UploadReply) (w' : World) : Type 0 where
  pub scan : Scan
  pub scanned : IsScanned x payload agent job w scan w'
  pub report : Report
  pub new : List ScanResult
  pub reports : w'.reports ≡ w.reports ++ report ∷ []
  pub results : w'.results ≡ w.results ++ new
  pub outcomes : map (λ (r : ScanResult). r.passed) new ≡ map item_passed payload.results
  pub own :
      All
        (λ (r : ScanResult). (r.scan_id ≡ scan.id) × (r.organization_id ≡ agent.organization_id))
        new
  pub report_scan : report.scan_id ≡ scan.id
  pub report_tenant : report.organization_id ≡ agent.organization_id
  pub report_score : report.score ≡ uploaded_score x payload
  pub reply_job : reply.job_id ≡ job.id
  pub reply_scan : reply.scan_id ≡ scan.id

-- The driver refuses the item's output or its error output.
pub record Refuses (x : Intake) (e : Error) (it : Metadata) : Type 0 where
  pub value : Value
  pub there : (lookup (codes "stdout") it ≡ some value) ⊎ (lookup (codes "stderr") it ≡ some value)
  pub refusal : x.column_text value ≡ err e

abbrev pub Accepts : Intake → List Metadata → Type 0
Accepts x items = All (λ it. (e : Error) → Refuses x e it → ⊥) items

abbrev pub SomeRefused : Intake → Error → List Metadata → Type 0
SomeRefused x e items = (it : Metadata) × Has it items × Refuses x e it

driven-some :
    (x : Intake) (found : Option Value) (e : Error)
    → driven x found ≡ err e
    → (v : Value) × (found ≡ some v) × (x.column_text v ≡ err e)
driven-some x none e h = absurd (cc)
driven-some x (some v) e h = (v, refl, h)

driven-accepts :
    (x : Intake) (it : Metadata) (out out' : Option Text)
    → driven x (lookup (codes "stdout") it) ≡ ok out
    → driven x (lookup (codes "stderr") it) ≡ ok out'
    → (e : Error) → Refuses x e it
    → ⊥
driven-accepts x it out out' h k e r = elim r.there [
  | inl there ↦ cc (sym (ap (driven x) there) ∙ h, r.refusal)
  | inr there ↦ cc (sym (ap (driven x) there) ∙ k, r.refusal)
]

check_items-cases :
    (x : Intake) (items : List Metadata)
    → ((check_items x items ≡ ok tt) × Accepts x items)
      ⊎ ((e : Error) × (check_items x items ≡ err e) × SomeRefused x e items)
unfolding check_items
check_items-cases x [] = inl (refl, tt)
check_items-cases x (it ∷ items) =
    checked (driven x (lookup (codes "stdout") it)) refl (driven x (lookup (codes "stderr") it))
      refl (check_items-cases x items)
  where
    checked :
        (out : Result (Option Text))
        → driven x (lookup (codes "stdout") it) ≡ out
        → (out' : Result (Option Text)) → driven x (lookup (codes "stderr") it) ≡ out'
        → ((check_items x items ≡ ok tt) × Accepts x items)
          ⊎ ((e : Error) × (check_items x items ≡ err e) × SomeRefused x e items)
        → ((and_then out (and_then out' (check_items x items)) ≡ ok tt) × Accepts x (it ∷ items))
          ⊎ ((e : Error) × (and_then out (and_then out' (check_items x items)) ≡ err e)
              × SomeRefused x e (it ∷ items))
    checked (err e) h out' k rest =
        let (v, there, refusal) = driven-some x _ e h in
        inr (e, refl, (it, inl refl, record { value = v; there = inl there; refusal = refusal }))
    checked (ok out) h (err e) k rest =
        let (v, there, refusal) = driven-some x _ e k in
        inr (e, refl, (it, inl refl, record { value = v; there = inr there; refusal = refusal }))
    checked (ok out) h (ok out') k (inl (good, accepts)) =
        inl (good, (driven-accepts x it out out' h k, accepts))
    checked (ok out) h (ok out') k (inr (e, bad, (other, there, refuses))) =
        inr (e, bad, (other, inr there, refuses))

upload_score-uploaded_score :
    (x : Intake) (payload : AgentResultUpload)
    → upload_score x payload (count_items payload.results no_points) ≡ uploaded_score x payload
unfolding upload_score
upload_score-uploaded_score x payload =
    let (_, b, c) = items_counted payload.results in rw (b, c) refl

module _ (x : Intake) (payload : AgentResultUpload) (agent : Agent) (job : AgentJob)
    (w : World) where
  -- The scan that is stored, and the session behind it
  new_scan : Scan
  new_scan =
      let r = w.reads in
      let p = count_items payload.results no_points in
      agent_scan (suc w.next_id) (w.clock (suc (suc r))) (w.clock (suc (suc (suc r))))
        (w.clock (suc (suc (suc (suc r))))) agent job payload p.passed (upload_score x payload p)

  behind_scan : World
  behind_scan = (make_scan x agent job payload (close_job x agent job payload w).1).1

  -- The scan stays as it is while nothing but the results and reports changes.
  scanned :
      (v : World)
      → v.scans ≡ behind_scan.scans
      → v.agent_results ≡ behind_scan.agent_results
      → v.agent_jobs ≡ behind_scan.agent_jobs
      → IsScanned x payload agent job w new_scan v
  unfolding new_scan behind_scan close_job utcnow fresh_id add_scan
  scanned v scans raws jobs =
      let (counted, _, _) = items_counted payload.results in
      record {
        raw = raw_result x w.next_id (w.clock w.reads) agent job payload;
        scans = scans;
        raws = raws;
        tenant = refl;
        status = refl;
        total = refl;
        passed = counted;
        score = upload_score-uploaded_score x payload;
        raw_job = refl;
        raw_tenant = refl;
        shut = closed job payload (w.clock (suc w.reads));
        shut_id = refl;
        shut_status = refl;
        jobs = jobs;
      }

  -- How the upload of an own job ends
  abbrev OwnOutcome : Result UploadReply × World → Type 0
  OwnOutcome r =
      ((reply : UploadReply) × (w' : World) × (r ≡ (ok reply, w'))
        × Accepts x payload.results
        × IsUploaded x payload agent job w reply w')
      ⊎ ((e : Error) × (scan : Scan) × (w' : World) × (r ≡ (err e, w'))
          × SomeRefused x e payload.results
          × IsScanned x payload agent job w scan w'
          × (w'.results ≡ w.results)
          × (w'.reports ≡ w.reports))

  accept-owned : OwnOutcome ((close_job x agent job payload >> integrate x agent job payload) w)
  unfolding new_scan behind_scan close_job integrate utcnow fresh_id add_scan add_report
  accept-owned =
      let (v, e, s) =
        store_items-AreStored x agent.organization_id new_scan.id payload.results behind_scan in
      let after : World = (make_report job new_scan v).1 in
      elim (check_items-cases x payload.results) [
        | inl (good, accepts) ↦ inl (
          record { job_id = job.id; scan_id = new_scan.id },
          after,
          rw e (rw good refl),
          accepts,
          record {
            scan = new_scan;
            scanned = scanned after s.scans s.agent_results s.agent_jobs;
            report = agent_report v.next_id (v.clock v.reads) new_scan;
            new = s.new;
            reports =
                ap
                  (λ (rs : List Report).
                    rs ++ agent_report v.next_id (v.clock v.reads) new_scan ∷ [])
                  s.reports;
            results = s.results;
            outcomes = s.outcomes;
            own = s.own;
            report_scan = refl;
            report_tenant = refl;
            report_score = upload_score-uploaded_score x payload;
            reply_job = refl;
            reply_scan = refl;
          },
        )
        | inr (error, bad, refused) ↦ inr (
          error,
          new_scan,
          record behind_scan { reads = after.reads; draws = after.draws },
          rw e (rw bad refl),
          refused,
          scanned _ refl refl refl,
          refl,
          refl,
        )
      ]

-- The ways in which an upload ends
pub data IsSettled (x : Intake) (job_id : ℕ) (payload : AgentResultUpload) (agent : Agent)
    (w : World) : Result UploadReply × World → Type 0 where
  refused :
      (message : Text)
      → ((job : AgentJob) → find_agent_job job_id w ≡ some job → (job.agent_id == agent.id) ≡ false)
      → IsSettled x job_id payload agent w (err (http 404 message), w)
  accepted :
      (job : AgentJob) (reply : UploadReply) (w' : World)
      → Has job w.agent_jobs
      → job.id ≡ job_id
      → job.agent_id ≡ agent.id
      → Accepts x payload.results
      → IsUploaded x payload agent job w reply w'
      → IsSettled x job_id payload agent w (ok reply, w')
  broken_off :
      (job : AgentJob) (e : Error) (scan : Scan) (w' : World)
      → Has job w.agent_jobs
      → job.id ≡ job_id
      → job.agent_id ≡ agent.id
      → SomeRefused x e payload.results
      → IsScanned x payload agent job w scan w'
      → w'.results ≡ w.results
      → w'.reports ≡ w.reports
      → IsSettled x job_id payload agent w (err e, w')

accept-IsSettled :
    (x : Intake) (job_id : ℕ) (payload : AgentResultUpload) (agent : Agent) (w : World)
    (found : Option AgentJob)
    → find_agent_job job_id w ≡ found
    → IsSettled x job_id payload agent w (accept x payload agent found w)
accept-IsSettled x job_id payload agent w none e = refused _ (λ job f. absurd (cc (e, f)))
accept-IsSettled x job_id payload agent w (some job) e =
    let (there, key) = get_row-Has (λ (j : AgentJob). j.organization_id) _ w w.agent_jobs e in
    let same : job.id ≡ job_id = ground (arith, key) in
    elim (Bool-cases (job.agent_id == agent.id)) [
      | inl own ↦ elim (accept-owned x payload agent job w) [
        | inl (reply, w', run, accepts, uploaded) ↦
            rw own
              (rw run (accepted job reply w' there same (ground (arith, own)) accepts uploaded))
        | inr (error, scan, w', run, bad, scanned, results, reports) ↦ rw own (
            rw run (
              broken_off job error scan w' there same (ground (arith, own)) bad scanned results
                reports))
      ]
      | inr foreign ↦ rw foreign (
          refused _ (λ other f.
            ap (λ (j : AgentJob). j.agent_id == agent.id) (some-injective other job (sym f ∙ e))
            ∙ foreign))
    ]

-- An upload is settled in one of three ways. Where the job is not found or is another agent's, the
-- answer is 404 and nothing changes. Otherwise the raw result and one scan with the counts and the
-- score that the items earn are stored behind the earlier rows for the agent's organization, and the
-- rows with the job's id are closed. Where the driver stores every item's output and error output, the upload succeeds,
-- and one result for each item with its outcome and one report are stored too; where it refuses one,
-- its error is raised, and neither a result nor a report is stored.
pub result_for-IsSettled :
    (x : Intake) (job_id : ℕ) (payload : AgentResultUpload) (agent : Agent) (w : World)
    → IsSettled x job_id payload agent w (result_for x job_id payload agent w)
unfolding result_for
result_for-IsSettled x job_id payload agent w = accept-IsSettled x job_id payload agent w _ refl
