-- ===== src/Leave/Tests.antt =====
-- Leaves on the sample directory, and the theorems on them.
use hrm_backend.Prelude.{
  ℕ, ◌+◌, ◌-◌, ◌*◌, ◌/◌, ◌%◌, ◌==◌, if◌then◌else◌, ◌≤◌, ◌<◌, ◌≡◌, refl, true, false, none, some,
  String, List, [], ◌∷◌, any, all, map, ok, err, bad_request, arith, distinct, sort, insert, trim,
  is_space, Result,
}
use hrm_backend.UnitName.{strip_end, normalize_unit_name, same_unit}
use hrm_backend.Requisition.Model.{Status, Requisition, Actor}
use hrm_backend.Requisition.Samples.{sample}
use hrm_backend.Rbac.{LeavePeriod, is_on_leave, is_active_at}
use hrm_backend.Rbac.Permissions.Holders.{
  role_holder_user_ids, holder_assignments, unit_ids_named, factory_hr_queue, job_analysis_owners,
}
use hrm_backend.Rbac.Samples.{as_is, no_order, mill}
use hrm_backend.Leave.{
  Problem, not_recruiter, Store, StartLeave, active_period, is_on_desk, is_covered_by, start,
  begin_leave, apply_covers, check_cover, write_cover, covered, moved_on, reroute_job_analyses, end,
}
use hrm_backend.Leave.Dates.{
  day, resolve_leave_end, leave_days_left, leave_days_left_bounds,
  leave_days_left-resolve_leave_end,
}
use hrm_backend.Leave.Periods.{running, start-is_on_leave, end-is_on_leave}
use hrm_backend.Leave.Runs.{Call, IsChronological, after, after-running}
use hrm_backend.Leave.Covers.{cover_is_sound, start-covers, start-desk}

abbrev no_text : ℕ → String
no_text t = ""

leave_days_left_bounds_example :
    (1 ≤ 2) × (100000000 ≤ 1000 + 2 * day) × (1000 + 2 * day < 100000000 + day)
unfolding leave_days_left
leave_days_left_bounds_example = leave_days_left_bounds 100000000 1000 2 (omega arith) refl

-- Dhaka's clock is six hours ahead; the leave is set in the evening there.
leave_days_left-resolve_leave_end_example :
    (ends : ℕ) × (resolve_leave_end (λ text. none) 21600000 (some (2 + 1)) none 159198005000
      ≡ ok (some ends))
    × ((ends + 21600000) / day ≡ (159198005000 + 21600000) / day + 2)
    × ((ends + 21600000) % day ≡ day - 1)
    × (leave_days_left (some ends) 159198005000
        ≡ some (if (159198005000 + 21600000) % day == day - 1 then 2 else 2 + 1))
leave_days_left-resolve_leave_end_example =
    leave_days_left-resolve_leave_end (λ text. none) 21600000 2 159198005000

three_days : leave_days_left (some 159386399999) 159198005000 ≡ some 3
unfolding leave_days_left
three_days = refl

ends_at_midnight :
    resolve_leave_end (λ text. none) 21600000 (some 3) none 159198005000 ≡ ok (some 159386399999)
unfolding resolve_leave_end
ends_at_midnight = refl

-- Rahim is asked for a job analysis and recruits for another requisition.
abbrev asked : Requisition
asked = record (sample Status.pending_job_analysis [] []) { job_analysis_assignee_id = some 1 }

abbrev recruiting : Requisition
recruiting = record (sample Status.posted [] []) { id = 2; recruiter_id = some 1 }

abbrev tables : Store
tables = record { directory = mill; requisitions = asked ∷ recruiting ∷ []; sent = [] }

abbrev rahim : Actor
rahim = record { id = 1; name = "Rahim" }

abbrev karim : Actor
karim = record { id = 2; name = "Karim" }

abbrev away : StartLeave
away = record {
  days = some 3;
  until = none;
  note = none;
  covers = record { requisition_id = 2; cover_recruiter_id = 3 } ∷ [];
}

abbrev set : Store × Result Problem (Unit {0})
set = start as_is no_order 500 no_text 31 away rahim (ok (some 900)) tables

covered_by_salma :
    map (λ (r : Requisition). r.cover_recruiter_id) set.0.requisitions ≡ none ∷ some 3 ∷ []
unfolding distinct start active_period sort insert begin_leave apply_covers check_cover write_cover
    covered reroute_job_analyses is_on_desk moved_on role_holder_user_ids holder_assignments
    unit_ids_named is_on_leave is_active_at same_unit normalize_unit_name strip_end trim is_space
    job_analysis_owners factory_hr_queue
covered_by_salma = refl

-- The second choice is not Rahim's to hand over; the leave and the first cover are written by then.
abbrev two_choices : StartLeave
two_choices = record away {
  covers =
      record { requisition_id = 2; cover_recruiter_id = 3 }
      ∷ record { requisition_id = 1; cover_recruiter_id = 3 }
      ∷ [];
}

abbrev refused : Store × Result Problem (Unit {0})
refused = start as_is no_order 500 no_text 31 two_choices rahim (ok (some 900)) tables

second_refused : refused.1 ≡ err (bad_request not_recruiter)
unfolding distinct start active_period sort insert begin_leave apply_covers check_cover write_cover
    covered reroute_job_analyses is_on_desk moved_on role_holder_user_ids holder_assignments
    unit_ids_named is_on_leave is_active_at same_unit normalize_unit_name strip_end trim is_space
    job_analysis_owners factory_hr_queue
second_refused = refl

start-is_on_leave_example : is_on_leave refused.0.directory 500 1 ≡ true
unfolding active_period is_active_at sort
start-is_on_leave_example =
    start-is_on_leave as_is no_order 500 no_text 31 two_choices rahim (some 900) tables refl refl

-- Rahim goes away, comes back and goes away again, and Karim's request in between is another's.
abbrev quiet : Store
quiet = record tables { directory = record mill { leaves = [] } }

abbrev calls : List Call
calls =
    Call.starts 500 31 away rahim (ok (some 900))
    ∷ Call.starts 510 32 away rahim (ok none)
    ∷ Call.ends 520 rahim
    ∷ Call.starts 530 33 two_choices rahim (ok none)
    ∷ Call.starts 530 34 away karim (ok none)
    ∷ []

calls-IsChronological : IsChronological 0 calls 600
unfolding IsChronological
calls-IsChronological =
    (omega arith, (omega arith, (omega arith, (omega arith, (omega arith, omega arith)))))

after-running_example :
    running 700 1 (after as_is no_order no_text calls quiet).directory.leaves ≤ 1
after-running_example =
    after-running as_is no_order no_text calls 600 700 1 quiet refl calls-IsChronological
      (omega arith)

-- Two requests of Rahim's that both read that he is on duty write a leave each.
both_written : Store
both_written =
    (begin_leave as_is no_order 500 no_text 36 away rahim (some 900)
      (begin_leave as_is no_order 500 no_text 35 away rahim (some 900) quiet).0).0

two_running : running 600 1 both_written.directory.leaves ≡ 2
unfolding both_written begin_leave apply_covers check_cover write_cover distinct active_period sort
    insert covered reroute_job_analyses is_on_desk moved_on role_holder_user_ids holder_assignments
    unit_ids_named is_on_leave is_active_at same_unit normalize_unit_name strip_end trim is_space
    job_analysis_owners factory_hr_queue
two_running = refl

start-covers_example :
    all
      (cover_is_sound as_is no_order 500 no_text refused.0.directory rahim 31)
      refused.0.requisitions
    ≡ true
start-covers_example =
    start-covers as_is no_order 500 no_text 31 two_choices rahim (ok (some 900)) tables refl refl

start-desk_example : any (is_on_desk 1) set.0.requisitions ≡ false
unfolding active_period is_active_at sort
start-desk_example = start-desk as_is no_order 500 no_text 31 away rahim (some 900) tables refl

back : Store
unfolding end active_period
back = elim (end as_is no_order 500 no_text karim tables) [ ok left ↦ left | err e ↦ tables ]

end-is_on_leave_example :
    (is_on_leave back.directory 500 2 ≡ false)
    × (l : LeavePeriod) × (active_period mill 500 2 ≡ some l)
    × (any (is_covered_by l.id) back.requisitions ≡ false)
unfolding back end active_period is_active_at sort insert
end-is_on_leave_example = end-is_on_leave as_is no_order 500 no_text karim tables (omega arith) refl
