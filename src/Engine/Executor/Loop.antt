-- ===== src/Engine/Executor/Loop.antt =====
-- The loop of `run_for_rules` in backend/engine/scan_executor.py: what it stores and counts.
use compliance_pulse.Prelude.{
  ℕ, ◌+◌, ◌≤◌, ◌≡◌, refl, sym, ◌∙◌, ap, arith, List, [], ◌∷◌, ◌++◌, append_assoc, append-nil,
  count_where, count_where-append, if◌then◌else◌,
}
use mathlib.Core.Path.{subst}
use compliance_pulse.Models.Scanning.{Rule, Scan, ScanResult, ResultStatus}
use compliance_pulse.Session.World.{World}
use compliance_pulse.Session.Monad.{Result, ok, >>=-eq-ok, returned-injective, ◌>>=◌}
use compliance_pulse.Engine.RuleEngine.{RuleEvaluation}
use compliance_pulse.Engine.Scoring.{rule_weight}
use compliance_pulse.Engine.Executor.Steps.{
  Executor, Tally, result_of, persist_result, count_result, run_rules,
}

-- A rule engine that changes nothing of the session but the clock.
pub record IsQuiet (x : Executor) : Type 0 where
  pub clock_only :
      (rule : Rule) (w : World) → (n : ℕ) × ((x.evaluate rule w).1 ≡ record w { reads = n })

unfoldable pub total_weight : List ScanResult → ℕ
total_weight [] = 0
total_weight (r ∷ rs) = rule_weight r.severity + total_weight rs

unfoldable pub passed_weight : List ScanResult → ℕ
passed_weight [] = 0
passed_weight (r ∷ rs) = (if r.passed then rule_weight r.severity else 0) + passed_weight rs

abbrev pub passed_count : List ScanResult → ℕ
passed_count = count_where (λ r. r.passed)

-- The counters agree with the results that they count.
pub record IsCounted (t : Tally) : Type 0 where
  pub passes : t.passed_rules ≡ passed_count t.results
  pub weight_pass : t.weighted_pass ≡ passed_weight t.results
  pub weight_total : t.weighted_total ≡ total_weight t.results

-- The result tells how the engine judged the rule, at some point of the scan.
pub record IsVerdict (x : Executor) (rule : Rule) (r : ScanResult) : Type 0 where
  pub before : World
  pub after : World
  pub evaluation : RuleEvaluation
  pub evaluated : x.evaluate rule before ≡ (ok evaluation, after)
  pub passed : r.passed ≡ evaluation.passed
  pub stdout : r.stdout ≡ evaluation.stdout
  pub stderr : r.stderr ≡ evaluation.stderr

-- The result is filed under the rule, the scan and the executor's organization, with its verdict.
abbrev pub Fits : Executor → ℕ → Rule → ScanResult → Type 0
Fits x scan_id rule r =
    (r.rule_id ≡ rule.id)
    × (r.severity ≡ rule.severity)
    × (r.organization_id ≡ x.organization_id)
    × (r.scan_id ≡ scan_id)
    × (r.status ≡ (if r.passed then ResultStatus.passed else ResultStatus.failed))
    × IsVerdict x rule r

-- One result for each rule, in the rules' order.
abbrev pub Matched : Executor → ℕ → List Rule → List ScanResult → Type 0
Matched x scan_id [] [] = Unit
Matched x scan_id [] (r ∷ rs) = ⊥
Matched x scan_id (rule ∷ rules) [] = ⊥
Matched x scan_id (rule ∷ rules) (r ∷ rs) = Fits x scan_id rule r × Matched x scan_id rules rs

total_weight-append :
    (xs ys : List ScanResult) → total_weight (xs ++ ys) ≡ total_weight xs + total_weight ys
unfolding total_weight
total_weight-append [] ys = omega arith
total_weight-append (x ∷ xs) ys = omega (arith, total_weight-append xs ys)

passed_weight-append :
    (xs ys : List ScanResult) → passed_weight (xs ++ ys) ≡ passed_weight xs + passed_weight ys
unfolding passed_weight
passed_weight-append [] ys = omega arith
passed_weight-append (x ∷ xs) ys = omega (arith, passed_weight-append xs ys)

count_result-IsCounted :
    (rule : Rule) (e : RuleEvaluation) (r : ScanResult) (t : Tally)
    → r.severity ≡ rule.severity
    → r.passed ≡ e.passed
    → IsCounted t
    → IsCounted (count_result rule e r t)
unfolding count_result count_where total_weight passed_weight
count_result-IsCounted rule e r t same told c = record {
  passes = ground (arith, count_where-append (λ (s : ScanResult). s.passed) t.results (r ∷ []));
  weight_pass = ground (arith, passed_weight-append t.results (r ∷ []), ap rule_weight same);
  weight_total = ground (arith, total_weight-append t.results (r ∷ []), ap rule_weight same);
}

-- What the loop leaves: the new results, matched with the rules, at the end of the tally's and of
-- the stored ones, and the scans, reports, groups and jobs as they were.
pub record Looped (x : Executor) (scan_id : ℕ) (rules : List Rule) (t t' : Tally) (w w' : World)
    : Type 0 where
  pub new : List ScanResult
  pub matched : Matched x scan_id rules new
  pub appended : t'.results ≡ t.results ++ new
  pub stored : w'.results ≡ w.results ++ new
  pub scans : w'.scans ≡ w.scans
  pub reports : w'.reports ≡ w.reports
  pub groups : w'.groups ≡ w.groups
  pub jobs : w'.jobs ≡ w.jobs
  pub schedules : w'.schedules ≡ w.schedules
  pub grown : w.next_id ≤ w'.next_id
  pub counted : IsCounted t → IsCounted t'

evaluated_world :
    (x : Executor) (rule : Rule) (w v : World) (e : RuleEvaluation)
    → IsQuiet x
    → x.evaluate rule w ≡ (ok e, v)
    → (n : ℕ) × (v ≡ record w { reads = n })
evaluated_world x rule w v e quiet h =
    let (n, same) = quiet.clock_only rule w in
    (n, sym (ap (λ (p : Result RuleEvaluation × World). p.1) h) ∙ same)

Looped-step :
    (x : Executor) (scan_id : ℕ) (rule : Rule) (rules : List Rule) (t t' : Tally) (w v u w' : World)
    (e : RuleEvaluation) (r : ScanResult)
    → Fits x scan_id rule r
    → r.passed ≡ e.passed
    → (n : ℕ) × (v ≡ record w { reads = n })
    → (u.results ≡ v.results ++ r ∷ [])
      × (u.scans ≡ v.scans)
      × (u.reports ≡ v.reports)
      × (u.groups ≡ v.groups)
      × (u.jobs ≡ v.jobs)
      × (u.schedules ≡ v.schedules)
      × (v.next_id ≤ u.next_id)
    → Looped x scan_id rules (count_result rule e r t) t' u w'
    → Looped x scan_id (rule ∷ rules) t t' w w'
unfolding count_result
Looped-step x scan_id rule rules t t' w v u w' e r fits told (n, same) (a, b, c, d, j, f, g) l =
    record {
      new = r ∷ l.new;
      matched = (fits, l.matched);
      appended = l.appended ∙ append_assoc t.results (r ∷ []) l.new;
      stored =
          l.stored
          ∙ ap (λ (rs : List ScanResult). rs ++ l.new) a
          ∙ append_assoc v.results (r ∷ []) l.new
          ∙ ap (λ (s : World). s.results ++ r ∷ l.new) same;
      scans = l.scans ∙ b ∙ ap (λ (s : World). s.scans) same;
      reports = l.reports ∙ c ∙ ap (λ (s : World). s.reports) same;
      groups = l.groups ∙ d ∙ ap (λ (s : World). s.groups) same;
      jobs = l.jobs ∙ j ∙ ap (λ (s : World). s.jobs) same;
      schedules = l.schedules ∙ f ∙ ap (λ (s : World). s.schedules) same;
      grown = omega (arith, l.grown, ap (λ (s : World). s.next_id) same);
      counted = λ k. l.counted (count_result-IsCounted rule e r t fits.1 told k);
    }

-- A loop that returns has stored one result for each rule, matched with it, and the counters count
-- what they ought to.
pub run_rules-Looped :
    (x : Executor) (scan : Scan) (rules : List Rule) (t t' : Tally) (w w' : World)
    → IsQuiet x
    → run_rules x scan rules t w ≡ (ok t', w')
    → Looped x scan.id rules t t' w w'
unfolding run_rules
run_rules-Looped x scan [] t t' w w' quiet h =
    let (same, still) = returned-injective h in
    record {
      new = [];
      matched = tt;
      appended = sym (ap (λ (s : Tally). s.results) same) ∙ sym (append-nil t.results);
      stored = sym (ap (λ (s : World). s.results) still) ∙ sym (append-nil w.results);
      scans = sym (ap (λ (s : World). s.scans) still);
      reports = sym (ap (λ (s : World). s.reports) still);
      groups = sym (ap (λ (s : World). s.groups) still);
      jobs = sym (ap (λ (s : World). s.jobs) still);
      schedules = sym (ap (λ (s : World). s.schedules) still);
      grown = omega (arith, ap (λ (s : World). s.next_id) still);
      counted = subst IsCounted same;
    }
run_rules-Looped x scan (rule ∷ rules) t t' w w' quiet h =
    let (e, v, ran, h') =
      >>=-eq-ok (x.evaluate rule)
        (λ e.
          persist_result x scan rule e >>= λ r. run_rules x scan rules (count_result rule e r t))
        w h in
    let r = result_of v.next_id x.organization_id scan.id rule e in
    let verdict : IsVerdict x rule r =
      unfold result_of in
      record {
        before = w;
        after = v;
        evaluation = e;
        evaluated = ran;
        passed = refl;
        stdout = refl;
        stderr = refl;
      } in
    Looped-step x scan.id rule rules t t' w v (persist_result x scan rule e v).1 w' e r
      (unfold result_of in (refl, refl, refl, refl, refl, verdict)) (unfold result_of in refl)
      (evaluated_world x rule w v e quiet ran)
      (unfold persist_result result_of in (refl, refl, refl, refl, refl, refl, omega arith))
      (run_rules-Looped x scan rules (count_result rule e r t) t' (persist_result x scan rule e v).1
        w' quiet (unfold persist_result result_of in h'))
