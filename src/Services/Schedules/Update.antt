-- ===== src/Services/Schedules/Update.antt =====
-- `update_schedule` of backend/app/api/schedules.py, behind its checks of the session. A form's values
-- are texts.
use compliance_pulse.Prelude.{
  ℕ, ℤ, pos, Text, Bool, false, Option, none, some, [], ◌∷◌, codes, strip, or_else, text_mem,
  is_empty, parse_int, int_eq, ◌||◌, at_least, ◌==◌, update_where, Dict, lookup, if◌then◌else◌,
}
use compliance_pulse.Models.Scanning.{Schedule}
use compliance_pulse.Session.World.{World}
use compliance_pulse.Session.Monad.{
  M, Result, ok, err, http, value_error, other_error, lift, or_raise, gets, modify, raise, ◌>>=◌,
}
use compliance_pulse.Services.Schedules.{find_schedule}

-- `str(form.get(key, default))`
abbrev pub form_text : Dict Text → Text → Text → Text
form_text form key default = given (lookup key form)
  where
    given : Option Text → Text
    given none = default
    given (some value) = value

abbrev pub int_of : Text → Result ℤ
int_of value = or_raise (value_error (codes "invalid literal for int()")) (parse_int value)

abbrev some_int : Result ℤ → Result (Option ℤ)
some_int (ok n) = ok (some n)
some_int (err e) = err e

-- `int(interval) if interval else None`
abbrev pub form_interval : Option Text → Result (Option ℤ)
form_interval none = ok none
form_interval (some []) = ok none
form_interval (some (c ∷ value)) = some_int (int_of (c ∷ value))

-- `form.get("enabled") in ("on", "true", "1")`
abbrev is_enabled : Option Text → Bool
is_enabled none = false
is_enabled (some value) = text_mem value (codes "on" ∷ codes "true" ∷ codes "1" ∷ [])

-- What the form says
pub record ScheduleForm : Type 0 where
  pub name : Text
  pub frequency : Text
  pub interval : Option ℤ
  pub group : ℤ
  pub enabled : Bool

abbrev pub scanned : Dict Text → Option ℤ → ℤ → ScheduleForm
scanned form interval group = record {
  name = strip (form_text form (codes "name") []);
  frequency = or_else (strip (form_text form (codes "frequency") (codes "daily"))) (codes "daily");
  interval = interval;
  group = group;
  enabled = is_enabled (lookup (codes "enabled") form);
}

-- `not name or not group_id`
abbrev pub is_incomplete : ScheduleForm → Bool
is_incomplete f = is_empty f.name || int_eq f.group (pos 0)

abbrev pub interval_or : Option ℤ → ℕ → ℕ
interval_or none old = old
interval_or (some n) old = at_least 5 n

unfoldable pub updated_schedule : ScheduleForm → ℕ → Schedule → Schedule
updated_schedule f group_id sched = record sched {
  name = f.name;
  group_id = group_id;
  frequency = f.frequency;
  interval_minutes = interval_or f.interval sched.interval_minutes;
  enabled = f.enabled;
}

abbrev pub save_schedule : Schedule → World → World
save_schedule sched w = record w {
  schedules = update_where (λ (s : Schedule). s.id == sched.id) (λ _. sched) w.schedules;
}

-- `stored_key` is the group's key as the database stores it, or none where it refuses the key.
abbrev pub commit_update : ScheduleForm → Option ℕ → Schedule → M (Unit {0})
commit_update f none sched = raise (other_error (codes "IntegrityError"))
commit_update f (some group_id) sched = modify (save_schedule (updated_schedule f group_id sched))

abbrev pub update_schedule_found : (ℤ → Option ℕ) → ScheduleForm → Option Schedule → M (Unit {0})
update_schedule_found stored_key f none = raise (http 404 (codes "Schedule not found"))
update_schedule_found stored_key f (some sched) = commit_update f (stored_key f.group) sched

abbrev pub check_form : (ℤ → Option ℕ) → ℕ → ScheduleForm → M (Unit {0})
check_form stored_key schedule_id f =
    if is_incomplete f
    then raise (http 400 (codes "Name and group are required"))
    else (gets (find_schedule schedule_id) >>= update_schedule_found stored_key f)

unfoldable pub update_schedule : (ℤ → Option ℕ) → ℕ → Dict Text → M (Unit {0})
update_schedule stored_key schedule_id form = do
  interval ← lift (form_interval (lookup (codes "interval_minutes") form))
  group ← lift (int_of (form_text form (codes "group_id") (codes "0")))
  check_form stored_key schedule_id (scanned form interval group)
