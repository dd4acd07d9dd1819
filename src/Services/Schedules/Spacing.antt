-- ===== src/Services/Schedules/Spacing.antt =====
-- How often schedules run, whatever backend/app/services/schedule_service.py and
-- backend/app/api/schedules.py are asked for.
use compliance_pulse.Prelude.{
  ℕ, ℤ, subst, sym, not, where_rows, All-append, All-where_rows, ◌≤◌, ◌≡◌, refl, inl, inr, Text,
  Option, none, some, List, [], ◌∷◌, codes, ◌==◌, update_where, Dict, lookup, All, All-Has,
  Bool-cases,
}
use compliance_pulse.Models.Scanning.{Schedule}
use compliance_pulse.Session.World.{World}
use compliance_pulse.Session.Rows.{get_row-Has}
use compliance_pulse.Session.Preserve.{Preserves, Preserves-bind, Preserves-lift}
use compliance_pulse.Session.Monad.{M, Result, ok, err, value_error, lift, or_raise, modify, ◌>>=◌}
use compliance_pulse.Services.Schedules.{find_schedule}
use compliance_pulse.Services.Schedules.{
  ScheduleCreate, ScheduleView, create_schedule, delete_schedule,
}
use compliance_pulse.Services.Schedules.Creation.{
  CreateOutcome, create_schedule-outcome, at_least-le,
}
use compliance_pulse.Services.Schedules.Update.{
  form_text, int_of, form_interval, ScheduleForm, scanned, is_incomplete, interval_or,
  updated_schedule, commit_update, update_schedule_found, check_form, update_schedule,
}

-- No schedule runs more often than every five minutes.
abbrev pub AreSpaced : World → Type 0
AreSpaced w = All (λ (s : Schedule). 5 ≤ s.interval_minutes) w.schedules

interval_or-le : (n : Option ℤ) (old : ℕ) → 5 ≤ old → 5 ≤ interval_or n old
interval_or-le none old h = h
interval_or-le (some n) old h = at_least-le 5 n

saved-AreSpaced :
    (sched : Schedule) (rows : List Schedule)
    → 5 ≤ sched.interval_minutes
    → All (λ (s : Schedule). 5 ≤ s.interval_minutes) rows
    → All
        (λ (s : Schedule). 5 ≤ s.interval_minutes)
        (update_where (λ (s : Schedule). s.id == sched.id) (λ _. sched) rows)
unfolding update_where
saved-AreSpaced sched [] h k = tt
saved-AreSpaced sched (s ∷ rows) h k = elim (Bool-cases (s.id == sched.id)) [
  | inl same ↦ rw same ((h, saved-AreSpaced sched rows h k.1))
  | inr other ↦ rw other ((k.0, saved-AreSpaced sched rows h k.1))
]

commit_update-AreSpaced :
    (f : ScheduleForm) (key : Option ℕ) (sched : Schedule) (w : World)
    → 5 ≤ sched.interval_minutes
    → AreSpaced w
    → AreSpaced (commit_update f key sched w).1
unfolding updated_schedule
commit_update-AreSpaced f none sched w h k = k
commit_update-AreSpaced f (some group_id) sched w h k =
    saved-AreSpaced (updated_schedule f group_id sched) w.schedules
      (interval_or-le f.interval sched.interval_minutes h) k

update_schedule_found-AreSpaced :
    (stored_key : ℤ → Option ℕ) (f : ScheduleForm) (found : Option Schedule) (w : World)
    → ((sched : Schedule) → found ≡ some sched → 5 ≤ sched.interval_minutes)
    → AreSpaced w
    → AreSpaced (update_schedule_found stored_key f found w).1
update_schedule_found-AreSpaced stored_key f none w h k = k
update_schedule_found-AreSpaced stored_key f (some sched) w h k =
    commit_update-AreSpaced f (stored_key f.group) sched w (h sched refl) k

check_form-AreSpaced :
    (stored_key : ℤ → Option ℕ) (schedule_id : ℕ) (f : ScheduleForm)
    → Preserves AreSpaced (check_form stored_key schedule_id f)
check_form-AreSpaced stored_key schedule_id f = record { at = λ w k. kept w k }
  where
    kept : (w : World) → AreSpaced w → AreSpaced (check_form stored_key schedule_id f w).1
    kept w k = elim (Bool-cases (is_incomplete f)) [
      | inl bad ↦ rw bad k
      | inr good ↦ rw good (
          update_schedule_found-AreSpaced stored_key f (find_schedule schedule_id w) w
            (λ sched found.
              All-Has (λ (s : Schedule). 5 ≤ s.interval_minutes) w.schedules k
                (get_row-Has (λ (s : Schedule). s.organization_id) (λ s. s.id == schedule_id) w
                  w.schedules found).0)
            k)
    ]

abbrev with_interval : (ℤ → Option ℕ) → ℕ → Dict Text → Option ℤ → M (Unit {0})
with_interval stored_key schedule_id form interval = do
  group ← lift (int_of (form_text form (codes "group_id") (codes "0")))
  check_form stored_key schedule_id (scanned form interval group)

update_schedule-AreSpaced :
    (stored_key : ℤ → Option ℕ) (schedule_id : ℕ) (form : Dict Text) (w : World)
    → AreSpaced w
    → AreSpaced (update_schedule stored_key schedule_id form w).1
unfolding update_schedule
update_schedule-AreSpaced stored_key schedule_id form w h =
    (Preserves-bind AreSpaced (lift (form_interval (lookup (codes "interval_minutes") form)))
        (with_interval stored_key schedule_id form)
        (Preserves-lift AreSpaced (form_interval (lookup (codes "interval_minutes") form)))
        (λ interval.
          Preserves-bind AreSpaced (lift (int_of (form_text form (codes "group_id") (codes "0"))))
            (λ group. check_form stored_key schedule_id (scanned form interval group))
            (Preserves-lift AreSpaced (int_of (form_text form (codes "group_id") (codes "0"))))
            (λ group.
              check_form-AreSpaced stored_key schedule_id (scanned form interval group)))).at
      w h

created-AreSpaced :
    (organization_id : ℕ) (payload : ScheduleCreate) (w : World) (r : Result ScheduleView × World)
    → CreateOutcome organization_id payload w r
    → AreSpaced w
    → AreSpaced r.1
created-AreSpaced organization_id payload w (ok view, v) c h =
    subst (All (λ (s : Schedule). 5 ≤ s.interval_minutes)) (sym c.stored) (
      All-append (λ (s : Schedule). 5 ≤ s.interval_minutes) w.schedules (c.schedule ∷ []) h
        (c.interval, tt))
created-AreSpaced organization_id payload w (err e, v) (same, _) h = subst AreSpaced (sym same) h

abbrev remove_schedule : Schedule → M (Unit {0})
remove_schedule schedule = modify (λ w. record w {
  schedules = where_rows (λ (s : Schedule). not (s.id == schedule.id)) w.schedules;
})

deleted-AreSpaced :
    (found : Option Schedule) (w : World)
    → AreSpaced w
    → AreSpaced
        ((lift (or_raise (value_error (codes "Schedule not found")) found) >>= remove_schedule) w).1
deleted-AreSpaced none w h = h
deleted-AreSpaced (some schedule) w h =
    All-where_rows (λ (s : Schedule). 5 ≤ s.interval_minutes)
      (λ (s : Schedule). not (s.id == schedule.id)) w.schedules h

-- What the schedules can be asked for
pub data ScheduleRequest : Type 0 where
  create : ℕ → ScheduleCreate → ScheduleRequest
  update : ℕ → Dict Text → ScheduleRequest
  delete : ℕ → ScheduleRequest

-- The session after one request, returned or refused
abbrev pub after_request : (ℤ → Option ℕ) → ScheduleRequest → World → World
after_request stored_key (create organization_id payload) w =
    (create_schedule organization_id payload w).1
after_request stored_key (update schedule_id form) w =
    (update_schedule stored_key schedule_id form w).1
after_request stored_key (delete schedule_id) w = (delete_schedule schedule_id w).1

unfoldable pub after_requests : (ℤ → Option ℕ) → List ScheduleRequest → World → World
after_requests stored_key [] w = w
after_requests stored_key (r ∷ requests) w =
    after_requests stored_key requests (after_request stored_key r w)

after_request-AreSpaced :
    (stored_key : ℤ → Option ℕ) (r : ScheduleRequest) (w : World)
    → AreSpaced w
    → AreSpaced (after_request stored_key r w)
unfolding delete_schedule
after_request-AreSpaced stored_key (create organization_id payload) w h =
    created-AreSpaced organization_id payload w _
      (create_schedule-outcome organization_id payload w) h
after_request-AreSpaced stored_key (update schedule_id form) w h =
    update_schedule-AreSpaced stored_key schedule_id form w h
after_request-AreSpaced stored_key (delete schedule_id) w h =
    deleted-AreSpaced (find_schedule schedule_id w) w h

-- Where every schedule has an interval of five minutes or more, so it is after any requests to create,
-- update or delete schedules, whatever they hold and whether they are refused.
pub after_requests-AreSpaced :
    (stored_key : ℤ → Option ℕ) (requests : List ScheduleRequest) (w : World)
    → AreSpaced w
    → AreSpaced (after_requests stored_key requests w)
unfolding after_requests
after_requests-AreSpaced stored_key [] w h = h
after_requests-AreSpaced stored_key (r ∷ requests) w h =
    after_requests-AreSpaced stored_key requests (after_request stored_key r w)
      (after_request-AreSpaced stored_key r w h)
