-- ===== src/Leave.antt =====
-- Being away, and who picks up the work (src/modules/leave/leave.service.ts). A handler answers with
-- the tables it leaves also when it throws, since its writes are in no transaction.
pub mod Dates
pub mod Tests
pub mod Periods
pub mod Covers
pub mod Runs
use hrm_backend.Prelude.{
  ℕ, String, Bool, true, false, ◌&&◌, not, Option, none, some, List, [], ◌∷◌, ◌++◌, map, find, keep,
  any, ◌==◌, ltb, is_id, is_some, is_nil, includes, or_null, or_else, trim, ◌+++◌, if◌then◌else◌,
  sort, Result, ok, err, guard, or_throw, ◌>>=◌, ◌>>◌, bad_request, not_found,
}
use hrm_backend.Requisition.Model.{Status, LogAction, Activity, Requisition, Actor, Effect}
use hrm_backend.Requisition.Access.{is_pending_job_analysis}
use hrm_backend.Rbac.{LeavePeriod, User, Directory, is_active_at, is_on_leave}
use hrm_backend.Rbac.Permissions.Holders.{Owners, job_analysis_owners, role_holder_user_ids}

pub data Problem : Type 0 where
  already_on_leave not_on_leave date_unreadable requisition_missing not_recruiter : Problem
  covers_self not_corporate_recruiter cover_on_leave : Problem

-- The tables of the service. A requisition that was deleted is not among them.
pub record Store : Type 0 where
  pub directory : Directory
  pub requisitions : List Requisition
  pub sent : List Effect

pub record CoverChoice : Type 0 where
  pub requisition_id : ℕ
  pub cover_recruiter_id : ℕ

pub record StartLeave : Type 0 where
  pub days : Option ℕ
  pub until : Option String
  pub note : Option String
  pub covers : List CoverChoice

abbrev pub first_of : List LeavePeriod → Option LeavePeriod
first_of [] = none
first_of (l ∷ ls) = some l

abbrev pub is_of : ℕ → ℕ → LeavePeriod → Bool
is_of now user l = is_active_at now l && l.user_id == user

-- `orderBy: { startsAt: 'desc' }`
abbrev pub latest_first : LeavePeriod → LeavePeriod → Bool
latest_first a b = ltb b.starts_at a.starts_at

-- The latest of the periods that run.
unfoldable pub active_period : Directory → ℕ → ℕ → Option LeavePeriod
active_period d now user = first_of (sort latest_first (keep (is_of now user) d.leaves))

abbrev pub update_requisition :
    ℕ → (Requisition → Requisition) → List Requisition → List Requisition
update_requisition id f = map (λ (r : Requisition). if r.id == id then f r else r)

abbrev logged : String → String → Requisition → Requisition
logged actor note r = record r {
  activities =
      r.activities ++ record { actor = actor; action = LogAction.edited; note = note } ∷ [];
}

abbrev pub with_leaves : List LeavePeriod → Store → Store
with_leaves ls s = record s { directory = record s.directory { leaves = ls } }

-- A job analysis on the desk of the one who leaves.
unfoldable pub is_on_desk : ℕ → Requisition → Bool
is_on_desk user r = is_pending_job_analysis r.status && is_id r.job_analysis_assignee_id user

abbrev pub is_covered_by : ℕ → Requisition → Bool
is_covered_by leave_id r = is_id r.cover_leave_id leave_id

abbrev pub lapsed : ℕ → Requisition → Requisition
lapsed leave_id r =
    if is_covered_by leave_id r
    then record r { cover_recruiter_id = none; cover_leave_id = none; cover_until = none }
    else r

abbrev pub ended : (now : ℕ) → ℕ → LeavePeriod → LeavePeriod
ended now leave_id l = if l.id == leave_id then record l { ended_at = some now } else l

abbrev pub new_leave : (now id : ℕ) → StartLeave → Actor → Option ℕ → LeavePeriod
new_leave now id dto actor ends_at = record {
  id = id;
  user_id = actor.id;
  starts_at = now;
  ends_at = ends_at;
  ended_at = none;
  note = or_null (trim (or_else dto.note ""));
  set_by_id = actor.id;
}

-- The outside world: `lower`, `byName` (localeCompare), the instant, and `formatDay`.
module _ (lower : String → String) (by_name : String → String → Bool) (now : ℕ)
    (format_day : ℕ → String) where
  abbrev until_text : LeavePeriod → String
  until_text leave = elim leave.ends_at [ none ↦ "" | some t ↦ " until " +++ format_day t ]

  -- Nobody is ever named as the assignee.
  abbrev destination : Owners → String → String
  destination owners unit_name =
      if owners.via_factory_hr
      then "Factory HR for " +++ unit_name
      else "Head of Talent Acquisition / the Corporate Recruiters"

  abbrev told : Owners → List Effect
  told owners =
      if is_nil owners.user_ids
      then []
      else Effect.notify owners.user_ids "requisition_pending" ∷ []

  unfoldable pub moved_on : Directory → Actor → LeavePeriod → Requisition → Requisition
  moved_on d actor leave r =
      let owners = job_analysis_owners lower by_name now d r.unit_factory in
      logged actor.name
        ("Job analysis moved to "
          +++ destination owners r.unit_factory
          +++ " — "
          +++ actor.name
          +++ " is on leave"
          +++ until_text leave
          +++ ".")
        (record r { job_analysis_assignee_id = owners.assignee_id })

  abbrev reroute_effects : Directory → List Requisition → List Effect
  reroute_effects d [] = []
  reroute_effects d (r ∷ rs) =
      told (job_analysis_owners lower by_name now d r.unit_factory)
      ++ Effect.broadcast "job_analysis_reassigned" ∷ reroute_effects d rs

  unfoldable pub reroute_job_analyses : Actor → LeavePeriod → Store → Store
  unfolding is_on_desk moved_on
  reroute_job_analyses actor leave s = record s {
    requisitions =
        map (λ r. if is_on_desk actor.id r then moved_on s.directory actor leave r else r)
          s.requisitions;
    sent = s.sent ++ reroute_effects s.directory (keep (is_on_desk actor.id) s.requisitions);
  }

  -- The checks of one choice, up to the write.
  unfoldable pub check_cover :
      Directory → List Requisition → Actor → CoverChoice → Result Problem Requisition
  unfolding is_on_leave
  check_cover d rs actor choice = do
    r ←
        or_throw (find (λ (r : Requisition). r.id == choice.requisition_id) rs)
          (not_found requisition_missing)
    guard (is_id r.recruiter_id actor.id) (bad_request not_recruiter)
    guard (not (choice.cover_recruiter_id == actor.id)) (bad_request covers_self)
    guard
        (includes choice.cover_recruiter_id
          (role_holder_user_ids lower d "corporate_recruiter" r.unit_factory))
        (bad_request not_corporate_recruiter)
    guard (not (is_on_leave d now choice.cover_recruiter_id)) (bad_request cover_on_leave)
    ok r

  abbrev name_of : Directory → ℕ → String
  name_of d id = elim (find (λ (u : User). u.id == id) d.users) [
    | none ↦ "A Corporate Recruiter"
    | some u ↦ u.name
  ]

  unfoldable pub covered : Directory → Actor → LeavePeriod → CoverChoice → Requisition → Requisition
  covered d actor leave choice r =
      logged actor.name
        (name_of d choice.cover_recruiter_id
          +++ " is covering recruitment while "
          +++ actor.name
          +++ " is on leave"
          +++ until_text leave
          +++ ".")
        (record r {
          cover_recruiter_id = some choice.cover_recruiter_id;
          cover_leave_id = some leave.id;
          cover_until = leave.ends_at;
        })

  unfoldable pub write_cover : Actor → LeavePeriod → CoverChoice → ℕ → Store → Store
  unfolding covered
  write_cover actor leave choice id s = record s {
    requisitions = update_requisition id (covered s.directory actor leave choice) s.requisitions;
    sent =
        s.sent
        ++ Effect.notify (choice.cover_recruiter_id ∷ []) "requisition_pending"
          ∷ Effect.broadcast "cover_assigned"
          ∷ [];
  }

  -- One choice after the other; the first that is refused ends the request, and the writes of
  -- those before it stay.
  unfoldable pub apply_covers :
      Actor → LeavePeriod → List CoverChoice → Store → Store × Result Problem (Unit {0})
  unfolding check_cover write_cover
  apply_covers actor leave [] s = (s, ok tt)
  apply_covers actor leave (choice ∷ choices) s =
      elim (check_cover s.directory s.requisitions actor choice) [
        | err refused ↦ (s, err refused)
        | ok r ↦ apply_covers actor leave choices (write_cover actor leave choice r.id s)
      ]

  -- What follows the checks of `start`.
  unfoldable pub begin_leave :
      (id : ℕ) → StartLeave → Actor → Option ℕ → Store → Store × Result Problem (Unit {0})
  unfolding reroute_job_analyses apply_covers
  begin_leave id dto actor ends_at s =
      let leave = new_leave now id dto actor ends_at in
      apply_covers actor leave dto.covers
        (reroute_job_analyses actor leave (with_leaves (s.directory.leaves ++ leave ∷ []) s))

  -- `ends_at` is what resolveLeaveEnd made of the request; `id` is the new row's.
  unfoldable pub start :
      (id : ℕ)
      → StartLeave
      → Actor
      → Result Problem (Option ℕ)
      → Store
      → Store × Result Problem (Unit {0})
  unfolding begin_leave active_period
  start id dto actor resolved s =
      if is_some (active_period s.directory now actor.id)
      then (s, err (bad_request already_on_leave))
      else elim resolved [
        | err refused ↦ (s, err refused)
        | ok ends_at ↦ begin_leave id dto actor ends_at s
      ]

  abbrev end_effects : ℕ → List Requisition → List Effect
  end_effects leave_id [] = []
  end_effects leave_id (r ∷ rs) =
      let rest = end_effects leave_id rs in
      if is_covered_by leave_id r
      then (elim r.cover_recruiter_id [
        | none ↦ rest
        | some user ↦
            Effect.notify (user ∷ []) "requisition_info" ∷ Effect.broadcast "cover_ended" ∷ rest
      ])
      else rest

  -- The two updates are one transaction.
  unfoldable pub end : Actor → Store → Result Problem Store
  unfolding active_period
  end actor s = do
    active ← or_throw (active_period s.directory now actor.id) (bad_request not_on_leave)
    ok (record s {
      directory = record s.directory { leaves = map (ended now active.id) s.directory.leaves };
      requisitions = map (lapsed active.id) s.requisitions;
      sent = s.sent ++ end_effects active.id s.requisitions;
    })
