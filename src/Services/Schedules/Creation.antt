-- ===== src/Services/Schedules/Creation.antt =====
-- `create_schedule` of backend/app/services/schedule_service.py: what a request may create.
use compliance_pulse.Prelude.{
  ℕ, ◌+◌, ◌*◌, ◌≤◌, ◌≡◌, refl, sym, subst, ◌∙◌, arith, ◌⊎◌, inl, inr, Bool, true, false, Option,
  none, some, [], ◌∷◌, ◌++◌, codes, ℤ, pos, negsuc, at_least, text_eq, ◌==◌, Bool-cases,
}
use mathlib.Core.Option.{some-injective}
use compliance_pulse.Models.Scanning.{RuleGroup, Schedule}
use compliance_pulse.Session.World.{World}
use compliance_pulse.Session.Monad.{Result, ok, err, lift, utcnow, fresh_id, ◌>>=◌}
use compliance_pulse.Engine.Scheduler.{minute, interval_of}
use compliance_pulse.Services.Schedules.{
  ScheduleCreate, ScheduleView, find_by_id, resolve_interval, build_schedule_view, own_group,
  schedule_of, store_schedule, create_schedule,
}

-- The request names no group of the organization, or a custom frequency without an interval.
abbrev pub Unacceptable : ℕ → ScheduleCreate → World → Type 0
Unacceptable organization_id payload w =
    ((group : RuleGroup)
      → find_by_id payload.group_id w ≡ some group
      → (group.organization_id == organization_id) ≡ false)
    ⊎ ((text_eq payload.frequency (codes "hourly") ≡ false)
        × (text_eq payload.frequency (codes "daily") ≡ false)
        × (payload.interval_minutes ≡ none))

pub record IsCreated (organization_id : ℕ) (payload : ScheduleCreate) (w v : World)
    (view : ScheduleView) : Type 0 where
  pub group : RuleGroup
  pub schedule : Schedule
  pub found : find_by_id payload.group_id w ≡ some group
  pub group_own : group.organization_id ≡ organization_id
  pub own : schedule.organization_id ≡ organization_id
  pub key : schedule.id ≡ w.next_id
  pub for_group : schedule.group_id ≡ group.id
  pub interval : 5 ≤ schedule.interval_minutes
  pub repeated : interval_of schedule ≡ schedule.interval_minutes
  pub first_run : schedule.next_run ≡ some (w.clock w.reads + schedule.interval_minutes * minute)
  pub stored : v.schedules ≡ w.schedules ++ schedule ∷ []
  pub jobs : v.jobs ≡ w.jobs
  pub view_key : view.id ≡ schedule.id
  pub view_group : view.group_name ≡ group.name

abbrev pub CreateOutcome : ℕ → ScheduleCreate → World → Result ScheduleView × World → Type 0
CreateOutcome organization_id payload w (err e, v) =
    (v ≡ w) × Unacceptable organization_id payload w
CreateOutcome organization_id payload w (ok view, v) = IsCreated organization_id payload w v view

pub at_least-le : (floor : ℕ) (n : ℤ) → floor ≤ at_least floor n
unfolding at_least
at_least-le floor (pos n) = ground arith
at_least-le floor (negsuc n) = omega arith

-- An interval of five minutes or more, or the one reason why there is none.
abbrev IntervalOutcome : ScheduleCreate → Result ℕ → Type 0
IntervalOutcome payload (ok n) = 5 ≤ n
IntervalOutcome payload (err e) =
    (text_eq payload.frequency (codes "hourly") ≡ false)
    × (text_eq payload.frequency (codes "daily") ≡ false)
    × (payload.interval_minutes ≡ none)

custom_interval :
    (payload : ScheduleCreate) (o : Option ℤ)
    → text_eq payload.frequency (codes "hourly") ≡ false
    → text_eq payload.frequency (codes "daily") ≡ false
    → payload.interval_minutes ≡ o
    → IntervalOutcome payload (resolve_interval (record payload { interval_minutes = o }))
unfolding resolve_interval
custom_interval payload none h d e = rw (h, d) (h, d, e)
custom_interval payload (some n) h d e = rw (h, d) (at_least-le 5 n)

resolve_interval-outcome :
    (payload : ScheduleCreate) → IntervalOutcome payload (resolve_interval payload)
unfolding resolve_interval
resolve_interval-outcome payload = elim (Bool-cases (text_eq payload.frequency (codes "hourly"))) [
  | inl hourly ↦ rw hourly (omega arith)
  | inr h ↦ elim (Bool-cases (text_eq payload.frequency (codes "daily"))) [
    | inl daily ↦ rw (h, daily) (omega arith)
    | inr d ↦ custom_interval payload payload.interval_minutes h d refl
  ]
]

interval_of-same :
    (schedule : Schedule)
    → 5 ≤ schedule.interval_minutes
    → interval_of schedule ≡ schedule.interval_minutes
unfolding interval_of
interval_of-same schedule h = ground (arith, h)

store_schedule-IsCreated :
    (organization_id : ℕ) (payload : ScheduleCreate) (group : RuleGroup) (w : World) (r : Result ℕ)
    → find_by_id payload.group_id w ≡ some group
    → (group.organization_id == organization_id) ≡ true
    → IntervalOutcome payload r
    → CreateOutcome organization_id payload w
        ((lift r >>= store_schedule organization_id payload group) w)
unfolding store_schedule schedule_of utcnow fresh_id build_schedule_view
store_schedule-IsCreated organization_id payload group w (err e) found own h = (refl, inr h)
store_schedule-IsCreated organization_id payload group w (ok n) found own h = record {
  group = group;
  schedule = schedule_of w.next_id organization_id payload group n (w.clock w.reads) _ _;
  found = found;
  group_own = ground (arith, own);
  own = refl;
  key = refl;
  for_group = refl;
  interval = h;
  repeated = interval_of-same _ h;
  first_run = refl;
  stored = refl;
  jobs = refl;
  view_key = refl;
  view_group = refl;
}

foreign_only :
    (organization_id : ℕ) (payload : ScheduleCreate) (group : RuleGroup) (w : World)
    → find_by_id payload.group_id w ≡ some group
    → (group.organization_id == organization_id) ≡ false
    → (g : RuleGroup) → find_by_id payload.group_id w ≡ some g
    → (g.organization_id == organization_id) ≡ false
foreign_only organization_id payload group w found foreign g h =
    subst (λ (x : RuleGroup). (x.organization_id == organization_id) ≡ false)
      (some-injective group g (sym found ∙ h)) foreign

create_if-outcome :
    (organization_id : ℕ) (payload : ScheduleCreate) (group : RuleGroup) (w : World) (b : Bool)
    → find_by_id payload.group_id w ≡ some group
    → (group.organization_id == organization_id) ≡ b
    → CreateOutcome organization_id payload w (
        (lift (own_group organization_id (some group)) >>= λ g.
        lift (resolve_interval payload) >>= store_schedule organization_id payload g)
          w)
create_if-outcome organization_id payload group w true found own = rw own (
    store_schedule-IsCreated organization_id payload group w (resolve_interval payload) found own
      (resolve_interval-outcome payload))
create_if-outcome organization_id payload group w false found foreign =
    rw foreign (refl, inl (foreign_only organization_id payload group w found foreign))

create_found-outcome :
    (organization_id : ℕ) (payload : ScheduleCreate) (w : World) (o : Option RuleGroup)
    → find_by_id payload.group_id w ≡ o
    → CreateOutcome organization_id payload w (
        (lift (own_group organization_id o) >>= λ g.
        lift (resolve_interval payload) >>= store_schedule organization_id payload g)
          w)
create_found-outcome organization_id payload w none missing = (refl, inl λ g h. absurd (cc))
create_found-outcome organization_id payload w (some group) found =
    create_if-outcome organization_id payload group w _ found refl

-- A request for a schedule either raises and changes nothing, because the group is not one of the organization's
-- or a custom frequency comes without an interval, or it stores one schedule of the organization
-- with the next key, for the group that it names. That schedule has an interval of five minutes or more, which
-- is also the interval at which the scheduler repeats it, runs first one interval after the clock's time, and is the one
-- that the answer shows under the group's name; the jobs are as they were.
pub create_schedule-outcome :
    (organization_id : ℕ) (payload : ScheduleCreate) (w : World)
    → CreateOutcome organization_id payload w (create_schedule organization_id payload w)
unfolding create_schedule
create_schedule-outcome organization_id payload w =
    create_found-outcome organization_id payload w (find_by_id payload.group_id w) refl
