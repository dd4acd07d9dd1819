-- ===== src/Services/Schedules.antt =====
-- `ScheduleService` of backend/app/services/schedule_service.py, with the views and the request of
-- backend/app/schemas/schedule.py. A view is what the endpoint shows.
pub mod Creation
pub mod Update
pub mod Spacing
use compliance_pulse.Prelude.{
  ℕ, ◌+◌, ◌*◌, Text, Bool, true, false, Option, none, some, List, [], ◌∷◌, ◌++◌, codes, not, map,
  where_rows, text_eq, leb, ◌==◌, length, ℤ, at_least, if◌then◌else◌,
}
use compliance_pulse.Models.Scanning.{Time, RuleGroup, Schedule, loads}
use compliance_pulse.Session.World.{World, select_rows, get_row}
use compliance_pulse.Session.Monad.{
  M, Result, ok, err, value_error, other_error, lift, or_raise, gets, modify, pure, raise, utcnow,
  fresh_id, ◌>>=◌, ◌>>◌,
}
use compliance_pulse.Engine.Scheduler.{minute}
use compliance_pulse.Engine.Executor.Groups.{group_rule_ids}

pub record ScheduleCreate : Type 0 where
  pub name : Text
  pub group_id : ℕ
  pub frequency : Text
  pub interval_minutes : Option ℤ
  pub enabled : Bool

pub record ScheduleView : Type 0 where
  pub id : ℕ
  pub name : Text
  pub group_id : ℕ
  pub group_name : Text
  pub frequency : Text
  pub interval_minutes : ℕ
  pub enabled : Bool
  pub next_run : Option Time
  pub last_run : Option Time
  pub timezone : Text

pub record RuleGroupView : Type 0 where
  pub id : ℕ
  pub name : Text
  pub benchmark_id : Text
  pub description : Option Text
  pub default_hostname : Text
  pub default_ip : Option Text
  pub tags : List Text
  pub rule_count : ℕ
  pub last_run : Option Time

abbrev pub find_by_id : ℕ → World → Option RuleGroup
find_by_id i w = get_row (λ g. g.organization_id) (λ g. g.id == i) w w.groups

abbrev pub find_schedule : ℕ → World → Option Schedule
find_schedule i w = get_row (λ s. s.organization_id) (λ s. s.id == i) w w.schedules

-- `_resolve_interval`
unfoldable pub resolve_interval : ScheduleCreate → Result ℕ
resolve_interval payload =
    if text_eq payload.frequency (codes "hourly")
    then ok 60
    else if text_eq payload.frequency (codes "daily")
    then ok (60 * 24)
    else elim payload.interval_minutes [
      | none ↦ err (value_error (codes "Custom schedules require interval_minutes"))
      | some n ↦ ok (at_least 5 n)
    ]

-- `group.name if group else "unknown"`
abbrev group_name_of : Option RuleGroup → Text
group_name_of none = codes "unknown"
group_name_of (some group) = group.name

abbrev view_named : Schedule → Text → ScheduleView
view_named schedule group_name = record {
  id = schedule.id;
  name = schedule.name;
  group_id = schedule.group_id;
  group_name = group_name;
  frequency = schedule.frequency;
  interval_minutes = schedule.interval_minutes;
  enabled = schedule.enabled;
  next_run = schedule.next_run;
  last_run = schedule.last_run;
  timezone = schedule.timezone;
}

-- `_build_schedule_view` with the group or with none at hand
unfoldable pub build_schedule_view : Schedule → Option RuleGroup → World → ScheduleView
build_schedule_view schedule (some group) w = view_named schedule group.name
build_schedule_view schedule none w =
    view_named schedule (group_name_of (find_by_id schedule.group_id w))

-- `_build_group_view`: tags that are no JSON raise, rule ids that are none count as no ids.
unfoldable pub build_group_view : RuleGroup → Result RuleGroupView
build_group_view group = elim (loads [] group.tags_json) [
  | none ↦ err (other_error (codes "JSONDecodeError"))
  | some tags ↦ ok (record {
    id = group.id;
    name = group.name;
    benchmark_id = group.benchmark_id;
    description = group.description;
    default_hostname = group.default_hostname;
    default_ip = group.default_ip;
    tags = tags;
    rule_count = length (group_rule_ids group);
    last_run = group.last_run;
  })
]

-- A row's place in `.order_by(created_at.desc())`
unfoldable pub insert_newest : {A : Type 0} → (A → Time) → A → List A → List A
insert_newest created a [] = a ∷ []
insert_newest created a (b ∷ rows) =
    let rest = insert_newest created a rows in
    if leb (created b) (created a) then a ∷ b ∷ rows else b ∷ rest

unfoldable pub newest_first : {A : Type 0} → (A → Time) → List A → List A
newest_first created [] = []
newest_first created (a ∷ rows) = insert_newest created a (newest_first created rows)

unfoldable pub build_views : List RuleGroup → Result (List RuleGroupView)
build_views [] = ok []
build_views (group ∷ groups) = elim (build_group_view group) [
  | err e ↦ err e
  | ok view ↦ elim (build_views groups) [ err e ↦ err e | ok views ↦ ok (view ∷ views) ]
]

unfoldable pub list_rule_groups : M (List RuleGroupView)
list_rule_groups = do
  groups ← gets (λ w.
      newest_first (λ (g : RuleGroup). g.created_at)
        (select_rows (λ g. g.organization_id) (λ g. true) w w.groups))
  lift (build_views groups)

unfoldable pub list_schedules : M (List ScheduleView)
list_schedules = gets (λ w.
    map (λ s. build_schedule_view s none w)
      (newest_first (λ (s : Schedule). s.created_at)
        (select_rows (λ s. s.organization_id) (λ s. true) w w.schedules)))

-- `ORDER BY next_run`: the database decides whether a row without a time is first or last.
abbrev runs_before : Bool → Option Time → Option Time → Bool
runs_before nulls_first none none = true
runs_before nulls_first none (some t) = nulls_first
runs_before nulls_first (some t) none = not nulls_first
runs_before nulls_first (some t) (some u) = leb t u

abbrev sooner : Bool → Schedule → Option Schedule → Schedule
sooner nulls_first s none = s
sooner nulls_first s (some t) = if runs_before nulls_first s.next_run t.next_run then s else t

unfoldable pub soonest : Bool → List Schedule → Option Schedule
soonest nulls_first [] = none
soonest nulls_first (s ∷ rows) = some (sooner nulls_first s (soonest nulls_first rows))

unfoldable pub get_next_schedule : Bool → M (Option ScheduleView)
get_next_schedule nulls_first = gets (λ w.
    elim (soonest nulls_first
      (select_rows (λ s. s.organization_id) (λ s. s.enabled) w w.schedules)) [
        | none ↦ none
        | some s ↦ some (build_schedule_view s none w)
      ])

-- `not group or group.organization_id != self.organization_id`
abbrev own_group : ℕ → Option RuleGroup → Result RuleGroup
own_group organization_id none = err (value_error (codes "Rule group not found"))
own_group organization_id (some group) =
    if group.organization_id == organization_id
    then ok group
    else err (value_error (codes "Rule group not found"))

unfoldable pub schedule_of : ℕ → ℕ → ScheduleCreate → RuleGroup → ℕ → Time → Time → Time → Schedule
schedule_of id organization_id payload group interval now created_at updated_at = record {
  id = id;
  organization_id = organization_id;
  name = payload.name;
  group_id = group.id;
  frequency = payload.frequency;
  interval_minutes = interval;
  enabled = payload.enabled;
  timezone = codes "UTC";
  next_run = some (now + interval * minute);
  last_run = none;
  created_at = created_at;
  updated_at = updated_at;
}

-- The part of `create_schedule` behind its checks
unfoldable pub store_schedule : ℕ → ScheduleCreate → RuleGroup → ℕ → M ScheduleView
store_schedule organization_id payload group interval = do
  now ← utcnow
  created_at ← utcnow
  updated_at ← utcnow
  id ← fresh_id
  let schedule = schedule_of id organization_id payload group interval now created_at updated_at
  modify (λ w. record w { schedules = w.schedules ++ schedule ∷ [] })
  gets (build_schedule_view schedule (some group))

unfoldable pub create_schedule : ℕ → ScheduleCreate → M ScheduleView
create_schedule organization_id payload = do
  found ← gets (find_by_id payload.group_id)
  group ← lift (own_group organization_id found)
  interval ← lift (resolve_interval payload)
  store_schedule organization_id payload group interval

unfoldable pub delete_schedule : ℕ → M (Unit {0})
delete_schedule schedule_id = do
  found ← gets (find_schedule schedule_id)
  schedule ← lift (or_raise (value_error (codes "Schedule not found")) found)
  modify (λ w. record w { schedules = where_rows (λ s. not (s.id == schedule.id)) w.schedules })
