-- ===== src/Rbac/Removal.antt =====
-- Removing a role assignment, and what it was holding up: approval paths and job analyses
-- (deleteAssignment and reindexPaths of src/modules/rbac/rbac.service.ts).
pub mod Laws
use hrm_backend.Prelude.{
  ℕ, suc, ◌+◌, String, Bool, true, false, ◌&&◌, not, Option, none, some, List, [], ◌∷◌, map, find,
  keep, any, ◌==◌, ◌===◌, is_id, ltb, length, if◌then◌else◌, sort, Result, ok, or_throw, ◌>>=◌,
  not_found,
}
use hrm_backend.UnitName.{same_unit}
use hrm_backend.ApprovalPaths.{UnitRow, Level, ApprovalPath}
use hrm_backend.Requisition.Model.{Status, Requisition}
use hrm_backend.Requisition.Access.{is_pending_job_analysis}
use hrm_backend.Rbac.{Role, Assignment, Directory, unit_of}
use hrm_backend.Rbac.Layering.{Problem, layered_after, assignment_missing}

-- The tables that a removal writes.
pub record Store : Type 0 where
  pub directory : Directory
  pub paths : List ApprovalPath
  pub requisitions : List Requisition

pub record Removed : Type 0 where
  pub paths : ℕ
  pub levels : ℕ
  pub job_analyses : ℕ

-- `deleteMany({ where: { unitId, raiserId } })`
abbrev pub is_of_raiser : ℕ → ℕ → ApprovalPath → Bool
is_of_raiser unit raiser p = p.unit_id == unit && p.raiser_id == raiser

abbrev lower_level : Level → Level → Bool
lower_level a b = ltb a.order_index b.order_index

abbrev pub numbered_from : ℕ → List Level → List Level
numbered_from k [] = []
numbered_from k (l ∷ ls) = record l { order_index = k } ∷ numbered_from (suc k) ls

unfoldable pub reindexed : List Level → List Level
reindexed levels = numbered_from 0 (sort lower_level levels)

abbrev pub is_level_of : ℕ → Level → Bool
is_level_of user l = l.user_id == user

-- A path of the unit that names the user loses those levels and is numbered again.
unfoldable pub without_approver : ℕ → ℕ → ApprovalPath → ApprovalPath
unfolding reindexed
without_approver unit user p =
    if p.unit_id == unit && any (is_level_of user) p.levels
    then record p { levels = reindexed (keep (λ l. not (is_level_of user l)) p.levels) }
    else p

abbrev count_levels : ℕ → ℕ → List ApprovalPath → ℕ
count_levels unit user [] = 0
count_levels unit user (p ∷ ps) =
    let rest = count_levels unit user ps in
    if p.unit_id == unit then length (keep (is_level_of user) p.levels) + rest else rest

abbrev pub has_id : ℕ → Assignment → Bool
has_id id a = a.id == id

module _ (lower : String → String) where
  -- A job analysis of the unit that is addressed to the user.
  unfoldable pub is_addressed : ℕ → String → Requisition → Bool
  is_addressed user unit_name r =
      is_pending_job_analysis r.status
      && is_id r.job_analysis_assignee_id user
      && same_unit lower r.unit_factory unit_name

  abbrev released_from : ℕ → Option UnitRow → List Requisition → List Requisition
  released_from user none rs = rs
  released_from user (some unit) rs =
      map
        (λ r.
          if is_addressed user unit.name r then record r { job_analysis_assignee_id = none } else r)
        rs

  abbrev count_addressed : ℕ → Option UnitRow → List Requisition → ℕ
  count_addressed user none rs = 0
  count_addressed user (some unit) rs = length (keep (is_addressed user unit.name) rs)

  -- What goes with an assignment that was held on a unit, by its role.
  unfoldable pub cascade : Store → Assignment → ℕ → Store × Removed
  unfolding without_approver is_addressed unit_of
  cascade s a unit =
      let paths = keep (λ p. not (is_of_raiser unit a.user_id p)) s.paths in
      let chains = map (without_approver unit a.user_id) s.paths in
      let desk = unit_of s.directory a in
      if a.role.key === "requisition_raiser"
      then (
        record s { paths = paths },
        record {
          paths = length (keep (is_of_raiser unit a.user_id) s.paths);
          levels = 0;
          job_analyses = 0;
        },
      )
      else if a.role.key === "unit_approver"
      then (
        record s { paths = chains },
        record { paths = 0; levels = count_levels unit a.user_id s.paths; job_analyses = 0 },
      )
      else if a.role.key === "factory_hr"
      then (
        record s { requisitions = released_from a.user_id desk s.requisitions },
        record {
          paths = 0;
          levels = 0;
          job_analyses = count_addressed a.user_id desk s.requisitions;
        },
      )
      else (s, record { paths = 0; levels = 0; job_analyses = 0 })

  abbrev cascade_at : Store → Assignment → Option ℕ → Store × Removed
  cascade_at s a none = (s, record { paths = 0; levels = 0; job_analyses = 0 })
  cascade_at s a (some unit) = cascade s a unit

  abbrev cascade_for : Store → Assignment → Store × Removed
  cascade_for s a = cascade_at s a a.unit_id

  unfoldable pub delete_assignment : Store → ℕ → Result Problem (Store × Removed)
  unfolding cascade
  delete_assignment s id = do
    a ← or_throw (find (has_id id) s.directory.assignments) (not_found assignment_missing)
    let (left, removed) = cascade_for s a
    let rows = keep (λ b. not (has_id id b)) s.directory.assignments
    ok (
      record left {
        directory = record s.directory { assignments = layered_after a.role a.unit_id rows };
      },
      removed,
    )
