-- ===== src/Rbac/Permissions/Holders.antt =====
-- Who holds a role for a unit, the Factory HR queue, and who owns a job analysis
-- (src/modules/rbac/permissions.service.ts).
use hrm_backend.Prelude.{
  ℕ, String, Bool, true, false, ◌&&◌, ◌||◌, not, Option, none, some, List, [], ◌∷◌, ◌++◌, map, find,
  keep, any, ◌==◌, ◌===◌, is_nil, is_some, is_id, ltb, distinct, includes, if◌then◌else◌, sort,
}
use hrm_backend.UnitName.{same_unit}
use hrm_backend.ApprovalPaths.{UnitRow}
use hrm_backend.Rbac.{Assignment, User, LeavePeriod, Directory, is_on_leave, is_active_at}
use hrm_backend.Rbac.Permissions.{is_super_user, has_role_for_unit_name}

pub record QueueRow : Type 0 where
  pub id : ℕ
  pub name : String
  pub employee_code : String
  pub priority : Option ℕ
  pub on_leave : Bool
  pub leave_ends_at : Option ℕ
  pub assignment_id : Option ℕ

pub record Owners : Type 0 where
  pub assignee_id : Option ℕ
  pub user_ids : List ℕ
  pub via_factory_hr : Bool

-- A stand-in and the date it lasts to.
pub record Cover : Type 0 where
  pub user_id : Option ℕ
  pub until : Option ℕ

-- `!cover.until || cover.until.getTime() > Date.now()`
abbrev pub runs_at : ℕ → Option ℕ → Bool
runs_at now none = true
runs_at now (some t) = ltb now t

abbrev pub assigned_to : List ℕ → Assignment → Bool
assigned_to ids a = elim a.unit_id [ none ↦ true | some id ↦ includes id ids ]

abbrev pub id_of : UnitRow → ℕ
id_of u = u.id

abbrev pub holder_id : Assignment → ℕ
holder_id a = a.user_id

abbrev rank : Option ℕ → ℕ
rank none = 9007199254740991
rank (some p) = p

abbrev pub row_of : List Assignment → ℕ → Option Assignment
row_of [] user = none
row_of (a ∷ rest) user =
    let later = row_of rest user in
    if is_some later then later else if a.user_id == user then some a else none

-- The end of a user's leave, as the map of leaves by user keeps it: that of the last row.
abbrev ends_of : List LeavePeriod → ℕ → Option ℕ
ends_of [] user = none
ends_of (l ∷ rest) user =
    let later = ends_of rest user in
    if any (λ (m : LeavePeriod). m.user_id == user) rest
    then later
    else if l.user_id == user
    then l.ends_at
    else none

abbrev priority_of : Option Assignment → Option ℕ
priority_of none = none
priority_of (some a) = a.priority

abbrev assignment_id_of : Option Assignment → Option ℕ
assignment_id_of none = none
assignment_id_of (some a) = some a.id

-- `[...new Set(names)]`
without_name : String → List String → List String
without_name s [] = []
without_name s (x ∷ xs) = let rest = without_name s xs in if x === s then rest else x ∷ rest

distinct_names : List String → List String
unfolding without_name
distinct_names [] = []
distinct_names (x ∷ xs) = x ∷ without_name x (distinct_names xs)

-- `add`
abbrev pub add_recipient : Option ℕ → List ℕ → List ℕ
add_recipient none ids = ids
add_recipient (some id) ids = if includes id ids then ids else ids ++ id ∷ []

module _ (lower : String → String) where
  unfoldable pub unit_ids_named : Directory → String → List ℕ
  unit_ids_named d unit_name =
      map id_of (keep (λ (u : UnitRow). same_unit lower u.name unit_name) d.units)

  unfoldable pub holder_assignments : Directory → String → String → List Assignment
  unfolding unit_ids_named
  holder_assignments d role_key unit_name =
      keep
        (λ (a : Assignment). a.role.key === role_key && assigned_to (unit_ids_named d unit_name) a)
        d.assignments

  unfoldable pub role_holder_user_ids : Directory → String → String → List ℕ
  unfolding holder_assignments
  role_holder_user_ids d role_key unit_name =
      distinct (map holder_id (holder_assignments d role_key unit_name))

  abbrev name_of_user : Directory → Assignment → String
  name_of_user d a = elim (find (λ (u : User). u.id == a.user_id) d.users) [
    | none ↦ ""
    | some u ↦ u.name
  ]

  unfoldable pub role_holder_names : Directory → String → String → List String
  unfolding holder_assignments distinct_names
  role_holder_names d role_key unit_name =
      distinct_names (map (name_of_user d) (holder_assignments d role_key unit_name))

-- `by_name a b` is `a.localeCompare(b) < 0`.
module _ (lower : String → String) (by_name : String → String → Bool) (now : ℕ) where
  -- The active ones among them.
  unfoldable pub role_holders : Directory → String → String → List User
  unfolding role_holder_user_ids
  role_holders d role_key unit_name =
      let ids = role_holder_user_ids lower d role_key unit_name in
      sort (λ (a b : User). by_name a.name b.name)
        (keep (λ (u : User). includes u.id ids && u.is_active) d.users)

  abbrev pub earlier_in_queue : QueueRow → QueueRow → Bool
  earlier_in_queue a b =
      ltb (rank a.priority) (rank b.priority)
      || (rank a.priority == rank b.priority && by_name a.name b.name)

  abbrev pub queue_row : Directory → List Assignment → User → QueueRow
  queue_row d assignments u = record {
    id = u.id;
    name = u.name;
    employee_code = u.employee_code;
    priority = priority_of (row_of assignments u.id);
    on_leave = is_on_leave d now u.id;
    leave_ends_at = ends_of (keep (is_active_at now) d.leaves) u.id;
    assignment_id = assignment_id_of (row_of assignments u.id);
  }

  unfoldable pub factory_hr_queue : Directory → String → List QueueRow
  unfolding holder_assignments is_on_leave
  factory_hr_queue d unit_name =
      let assignments = holder_assignments lower d "factory_hr" unit_name in
      let ids = distinct (map holder_id assignments) in
      sort earlier_in_queue
        (map (queue_row d assignments) (keep (λ (u : User). includes u.id ids) d.users))

  abbrev pub available : List QueueRow → List QueueRow
  available = keep (λ h. not h.on_leave)

  unfoldable pub job_analysis_owners : Directory → String → Owners
  unfolding factory_hr_queue role_holder_user_ids
  job_analysis_owners d unit_name =
      let on_duty = available (factory_hr_queue d unit_name) in
      if is_nil on_duty
      then record {
        assignee_id = none;
        user_ids = distinct (
            role_holder_user_ids lower d "corporate_hr" unit_name
            ++ role_holder_user_ids lower d "corporate_recruiter" unit_name);
        via_factory_hr = false;
      }
      else record {
        assignee_id = none;
        user_ids = map (λ (h : QueueRow). h.id) on_duty;
        via_factory_hr = true;
      }

  unfoldable pub can_complete_job_analysis : Directory → ℕ → String → Option ℕ → Bool
  unfolding job_analysis_owners
  can_complete_job_analysis d user unit_name assignee_id =
      is_super_user d user || elim assignee_id [
        | some named ↦ named == user
        | none ↦ includes user (job_analysis_owners d unit_name).user_ids
      ]

module _ (lower : String → String) (now : ℕ) where
  unfoldable pub can_run_recruitment : Directory → ℕ → String → Option ℕ → Cover → Bool
  can_run_recruitment d user unit_name recruiter_id cover =
      is_id recruiter_id user
      || (is_id cover.user_id user && runs_at now cover.until)
      || has_role_for_unit_name lower d user "corporate_hr" unit_name
      || has_role_for_unit_name lower d user "chro" unit_name

  unfoldable pub recruitment_recipients : Directory → String → Option ℕ → Cover → List ℕ
  unfolding role_holder_user_ids
  recruitment_recipients d unit_name recruiter_id cover =
      let ids =
        add_recipient recruiter_id (role_holder_user_ids lower d "corporate_hr" unit_name) in
      let joined = add_recipient cover.user_id ids in
      if runs_at now cover.until then joined else ids
