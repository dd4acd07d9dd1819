-- ===== src/Services/Rules/Validity.antt =====
-- The rules that the endpoints of backend/app/api/rules.py store.
use compliance_pulse.Prelude.{
  ℕ, suc, ◌≡◌, refl, arith, inl, inr, Text, Bool, true, false, Option, none, some, List, [], ◌∷◌,
  ◌++◌, not, is_empty, or_else, codes, text_eq, text_mem, update_where, All, All-append, All-Has,
  Bool-cases,
}
use compliance_pulse.Models.Scanning.{Metadata, Benchmark, Rule}
use compliance_pulse.Session.World.{World}
use compliance_pulse.Session.Rows.{get_row-Has}
use compliance_pulse.Session.Preserve.{Preserves, Preserves-bind, Preserves-lift, Preserves-gets}
use compliance_pulse.Session.Monad.{M, http, lift, or_raise, gets, pure, utcnow, ◌>>=◌}
use compliance_pulse.Services.Benchmarks.{clashing}
use compliance_pulse.Services.Rules.{
  RuleDetail, rule_to_detail, shown, RulePayload, Reply, allowed_severities, cleaned, error_if,
  payload_errors, ui_rule, rule_by_id, benchmark_by_id, insert_rule, reply_rule, store_rule,
  check_benchmark, check_new, check_errors, create_rule, decoded, new_severity, updated, save_rule,
  store_update, update_found, update_rule,
}

-- A rule that can be scanned and scored: nothing that it needs is empty.
pub record IsSound (id benchmark_id title command severity : Text) : Type 0 where
  pub id_set : is_empty id ≡ false
  pub benchmark_set : is_empty benchmark_id ≡ false
  pub title_set : is_empty title ≡ false
  pub command_set : is_empty command ≡ false
  pub severity_allowed : text_mem severity allowed_severities ≡ true

abbrev pub IsSoundRule : Rule → Type 0
IsSoundRule r = IsSound r.id r.benchmark_id r.title r.command r.severity

abbrev pub AreSound : World → Type 0
AreSound w = All IsSoundRule w.rules

error_if-none :
    (b : Bool) (field message : Text) (rest : List (Text × Text))
    → error_if b field message rest ≡ []
    → (b ≡ false) × (rest ≡ [])
error_if-none true field message rest h = absurd (cc)
error_if-none false field message rest h = (refl, h)

payload_errors-IsSound :
    (p : RulePayload)
    → payload_errors p ≡ []
    → IsSound p.rule_id p.benchmark_id p.title p.command p.severity
unfolding payload_errors
payload_errors-IsSound p h =
    let (id, h1) = error_if-none (is_empty p.rule_id) _ _ _ h in
    let (benchmark, h2) = error_if-none (is_empty p.benchmark_id) _ _ _ h1 in
    let (title, h3) = error_if-none (is_empty p.title) _ _ _ h2 in
    let (command, h4) = error_if-none (is_empty p.command) _ _ _ h3 in
    let (severity, _) = error_if-none (not (text_mem p.severity allowed_severities)) _ _ _ h4 in
    record {
      id_set = id;
      benchmark_set = benchmark;
      title_set = title;
      command_set = command;
      severity_allowed = ground (arith, severity);
    }

abbrev reply_shown : RuleDetail → M Reply
reply_shown detail = pure (shown detail)

reply_rule-Preserves : (rule : Rule) → Preserves AreSound (reply_rule rule)
reply_rule-Preserves rule =
    Preserves-bind AreSound (lift (rule_to_detail rule)) reply_shown
      (Preserves-lift AreSound (rule_to_detail rule)) (λ detail. record { at = λ w h. h })

insert_rule-Preserves : (rule : Rule) → IsSoundRule rule → Preserves AreSound (insert_rule rule)
insert_rule-Preserves rule sound = record { at = λ w h. inserted w h }
  where
    inserted : (w : World) → AreSound w → AreSound (insert_rule rule w).1
    inserted w h = elim (Bool-cases (clashing (w.rules ++ rule ∷ []))) [
      | inl clash ↦ rw clash h
      | inr new ↦ rw new (All-append IsSoundRule w.rules (rule ∷ []) h (sound, tt))
    ]

store_rule-Preserves :
    (p : RulePayload) (context : Option ℕ)
    → payload_errors p ≡ []
    → Preserves AreSound (store_rule p context)
unfolding utcnow ui_rule
store_rule-Preserves p none valid = record { at = λ w h. h }
store_rule-Preserves p (some organization_id) valid = record {
  at = λ w h.
      (Preserves-bind AreSound (insert_rule (ui_rule p organization_id (w.clock w.reads)))
          (λ _. reply_rule (ui_rule p organization_id (w.clock w.reads)))
          (insert_rule-Preserves (ui_rule p organization_id (w.clock w.reads))
            (payload_errors-IsSound p valid))
          (λ _. reply_rule-Preserves (ui_rule p organization_id (w.clock w.reads)))).at
        (record w { reads = suc w.reads }) h;
}

check_benchmark-Preserves :
    (p : RulePayload) (context : Option ℕ) (found : Option Benchmark)
    → payload_errors p ≡ []
    → Preserves AreSound (check_benchmark p context found)
check_benchmark-Preserves p context none valid = record { at = λ w h. h }
check_benchmark-Preserves p context (some benchmark) valid = store_rule-Preserves p context valid

check_new-Preserves :
    (p : RulePayload) (context : Option ℕ) (found : Option Rule)
    → payload_errors p ≡ []
    → Preserves AreSound (check_new p context found)
check_new-Preserves p context (some rule) valid = record { at = λ w h. h }
check_new-Preserves p context none valid =
    Preserves-bind AreSound (gets (benchmark_by_id p.benchmark_id)) (check_benchmark p context)
      (Preserves-gets AreSound (benchmark_by_id p.benchmark_id))
      (λ found. check_benchmark-Preserves p context found valid)

check_errors-Preserves :
    (p : RulePayload) (context : Option ℕ) (es : List (Text × Text))
    → payload_errors p ≡ es
    → Preserves AreSound (check_errors p context es)
check_errors-Preserves p context (e ∷ es) valid = record { at = λ w h. h }
check_errors-Preserves p context [] valid =
    Preserves-bind AreSound (gets (rule_by_id p.rule_id)) (check_new p context)
      (Preserves-gets AreSound (rule_by_id p.rule_id))
      (λ found. check_new-Preserves p context found valid)

-- Creating a rule keeps the stored rules sound, whatever the request holds.
pub create_rule-AreSound :
    (form : Metadata) (context : Option ℕ) (w : World)
    → AreSound w
    → AreSound (create_rule form context w).1
unfolding create_rule
create_rule-AreSound form context w h =
    (check_errors-Preserves (cleaned form) context (payload_errors (cleaned form)) refl).at w h

or_else-set : (a b : Text) → is_empty b ≡ false → is_empty (or_else a b) ≡ false
or_else-set [] b h = h
or_else-set (c ∷ a) b h = refl

updated-IsSound :
    (form : Metadata) (rule : Rule) (tags : List Text)
    → IsSoundRule rule
    → text_mem (new_severity form rule) allowed_severities ≡ true
    → IsSoundRule (updated form rule (new_severity form rule) tags)
unfolding updated
updated-IsSound form rule tags sound allowed = record {
  id_set = sound.id_set;
  benchmark_set = or_else-set _ rule.benchmark_id sound.benchmark_set;
  title_set = or_else-set _ rule.title sound.title_set;
  command_set = or_else-set _ rule.command sound.command_set;
  severity_allowed = allowed;
}

saved-AreSound :
    (rule : Rule) (rows : List Rule)
    → IsSoundRule rule
    → All IsSoundRule rows
    → All IsSoundRule (update_where (λ r. text_eq r.id rule.id) (λ _. rule) rows)
unfolding update_where
saved-AreSound rule [] sound h = tt
saved-AreSound rule (r ∷ rows) sound h = elim (Bool-cases (text_eq r.id rule.id)) [
  | inl same ↦ rw same ((sound, saved-AreSound rule rows sound h.1))
  | inr other ↦ rw other ((h.0, saved-AreSound rule rows sound h.1))
]

store_update-Preserves :
    (form : Metadata) (rule : Rule) (tags : List Text)
    → IsSoundRule rule
    → text_mem (new_severity form rule) allowed_severities ≡ true
    → Preserves AreSound (store_update form rule tags)
unfolding updated
store_update-Preserves form rule tags sound allowed =
    let rule' = updated form rule (new_severity form rule) tags in
    record {
      at = λ w h.
          (reply_rule-Preserves rule').at (save_rule rule' w)
            (saved-AreSound rule' w.rules (updated-IsSound form rule tags sound allowed) h);
    }

update_found-AreSound :
    (form : Metadata) (rule : Rule) (w : World)
    → IsSoundRule rule
    → AreSound w
    → AreSound (update_found form rule w).1
update_found-AreSound form rule w sound h =
    elim (Bool-cases (text_mem (new_severity form rule) allowed_severities)) [
      | inl allowed ↦ rw allowed (
          (Preserves-bind AreSound (lift (decoded [] rule.tags_json)) (store_update form rule)
              (Preserves-lift AreSound (decoded [] rule.tags_json))
              (λ tags. store_update-Preserves form rule tags sound allowed)).at
            w h)
      | inr refused ↦ rw refused h
    ]

update_opened-AreSound :
    (form : Metadata) (found : Option Rule) (w : World)
    → ((rule : Rule) → found ≡ some rule → IsSoundRule rule)
    → AreSound w
    → AreSound
        ((lift (or_raise (http 404 (codes "Rule not found")) found) >>= update_found form) w).1
update_opened-AreSound form none w sound h = h
update_opened-AreSound form (some rule) w sound h =
    update_found-AreSound form rule w (sound rule refl) h

-- Updating a rule keeps the stored rules sound, whatever the request holds.
pub update_rule-AreSound :
    (rule_id : Text) (form : Metadata) (w : World)
    → AreSound w
    → AreSound (update_rule rule_id form w).1
unfolding update_rule
update_rule-AreSound rule_id form w h =
    update_opened-AreSound form (rule_by_id rule_id w) w
      (λ rule found.
        All-Has IsSoundRule w.rules h
          (get_row-Has (λ (r : Rule). r.organization_id) (λ r. text_eq r.id rule_id) w w.rules
            found).0)
      h
