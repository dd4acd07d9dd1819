-- ===== src/Agents/Stored.antt =====
-- The items of an upload, counted and stored (backend/app/api/agent_machine.py).
use compliance_pulse.Prelude.{
  ℕ, suc, ◌+◌, ◌≡◌, refl, sym, ap, ◌∙◌, arith, inl, inr, Text, Bool, true, some, List, [], ◌∷◌,
  ◌++◌, codes, append-nil, append_assoc, map, count_where, lookup, All, Bool-cases, if◌then◌else◌,
}
use compliance_pulse.Models.Scanning.{Metadata, ScanResult, null}
use compliance_pulse.Models.Values.{truthy, or_value}
use compliance_pulse.Session.World.{World}
use compliance_pulse.Session.Monad.{ok, utcnow, fresh_id, draw}
use compliance_pulse.Agents.Uploads.{
  Intake, Points, no_points, add_item, count_items, item_passed, item_weight, item_id, first_of,
  result_row, add_result, store_items,
}

-- The weight of the items that pass a test
abbrev pub weight_of : (Metadata → Bool) → List Metadata → ℕ
weight_of test [] = 0
weight_of test (it ∷ items) =
    if test it then item_weight it + weight_of test items else weight_of test items

count_items-counts :
    (items : List Metadata) (p : Points)
    → ((count_items items p).passed ≡ p.passed + count_where item_passed items)
      × ((count_items items p).w_pass ≡ p.w_pass + weight_of item_passed items)
      × ((count_items items p).w_total ≡ p.w_total + weight_of (λ _. true) items)
unfolding count_items count_where
count_items-counts [] p = (omega arith, omega arith, omega arith)
count_items-counts (it ∷ items) p =
    let (a, b, c) = count_items-counts items (add_item it p) in
    (ground (arith, a), ground (arith, b), ground (arith, c))

pub items_counted :
    (items : List Metadata)
    → ((count_items items no_points).passed ≡ count_where item_passed items)
      × ((count_items items no_points).w_pass ≡ weight_of item_passed items)
      × ((count_items items no_points).w_total ≡ weight_of (λ _. true) items)
items_counted items =
    let (a, b, c) = count_items-counts items no_points in
    (omega (arith, a), omega (arith, b), omega (arith, c))

item_id-draws :
    (it : Metadata) (w : World)
    → (t : Text) × (d : ℕ) × (item_id it w ≡ (ok t, record w { draws = d }))
unfolding draw
item_id-draws it w =
    elim (Bool-cases (
      truthy
        (some (or_value (or_value null (lookup (codes "rule_id") it)) (lookup (codes "id") it))))) [
          | inl named ↦ (first_of (codes "id") (codes "rule_id") [] it, w.draws, rw named refl)
          | inr bare ↦ (w.random w.draws, suc w.draws, rw bare refl)
        ]

-- One stored result for each item, in their order, and no other table touched
pub record AreStored (organization_id scan_id : ℕ) (items : List Metadata) (w w' : World)
    : Type 0 where
  pub new : List ScanResult
  pub results : w'.results ≡ w.results ++ new
  pub outcomes : map (λ (r : ScanResult). r.passed) new ≡ map item_passed items
  pub own :
      All (λ (r : ScanResult). (r.scan_id ≡ scan_id) × (r.organization_id ≡ organization_id)) new
  pub scans : w'.scans ≡ w.scans
  pub reports : w'.reports ≡ w.reports
  pub agent_jobs : w'.agent_jobs ≡ w.agent_jobs
  pub agent_results : w'.agent_results ≡ w.agent_results

pub store_items-AreStored :
    (x : Intake) (organization_id scan_id : ℕ) (items : List Metadata) (w : World)
    → (w' : World) × (store_items x organization_id scan_id items w ≡ (ok tt, w'))
      × AreStored organization_id scan_id items w w'
unfolding store_items utcnow fresh_id
store_items-AreStored x organization_id scan_id [] w = (
  w,
  refl,
  record {
    new = [];
    results = sym (append-nil w.results);
    outcomes = refl;
    own = tt;
    scans = refl;
    reports = refl;
    agent_jobs = refl;
    agent_results = refl;
  },
)
store_items-AreStored x organization_id scan_id (it ∷ items) w =
    let (rule_id, d, drawn) = item_id-draws it w in
    let row =
      result_row x w.next_id organization_id scan_id it rule_id (w.clock w.reads)
        (w.clock (suc w.reads)) in
    let v =
      add_result row (record w { draws = d; reads = suc (suc w.reads); next_id = suc w.next_id }) in
    let (w', e, s) = store_items-AreStored x organization_id scan_id items v in
    (
      w',
      rw drawn e,
      record {
        new = row ∷ s.new;
        results = s.results ∙ append_assoc w.results (row ∷ []) s.new;
        outcomes = ap (λ bs. item_passed it ∷ bs) s.outcomes;
        own = ((refl, refl), s.own);
        scans = s.scans;
        reports = s.reports;
        agent_jobs = s.agent_jobs;
        agent_results = s.agent_results;
      },
    )
