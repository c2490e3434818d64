-- ===== src/Rbac/Tests.antt =====
-- Runs on the sample directory, and the theorems on it.
use hrm_backend.Prelude.{
  ℕ, ◌≡◌, refl, true, false, ◌&&◌, ◌||◌, none, some, [], ◌∷◌, any, map, includes, if◌then◌else◌, ok,
  err, ◌===◌, sort, insert, arith, trim, is_space, distinct, ◌==◌, All,
}
use hrm_backend.UnitName.{strip_end, normalize_unit_name, same_unit}
use hrm_backend.ApprovalPaths.{ApprovalPath, Level}
use hrm_backend.ApprovalPaths.Laws.{PathIsValid}
use hrm_backend.Requisition.Model.{Status, Requisition}
use hrm_backend.Requisition.Access.{is_own_business, may_open}
use hrm_backend.Requisition.Samples.{sample}
use hrm_backend.Rbac.{Assignment, User, is_on_leave, is_active_at, unit_of}
use hrm_backend.Rbac.Permissions.{
  holds_role, counts_for, load_user_permissions, effective_role, get_unit_access_scope,
  is_super_user, cv_submitter_role,
}
use hrm_backend.Rbac.Permissions.Holders.{
  role_holder_user_ids, holder_assignments, unit_ids_named, factory_hr_queue, job_analysis_owners,
  can_complete_job_analysis, can_run_recruitment, recruitment_recipients,
}
use hrm_backend.Rbac.Permissions.Agreement.{IsKeyed, holds_role_eq}
use hrm_backend.Rbac.Permissions.Owners.{is_on_duty, job_analysis_owners_lem}
use hrm_backend.Rbac.Permissions.Recipients.{recipient_runs}
use hrm_backend.Rbac.Grants.{access_of, lists}
use hrm_backend.Rbac.Layering.{set_layering_order, place_in}
use hrm_backend.Rbac.Layering.Order.{IsNumbered}
use hrm_backend.Rbac.Layering.Writes.{delete_assignment-IsNumbered}
use hrm_backend.Rbac.Removal.{Store, has_id, is_of_raiser, delete_assignment, is_addressed}
use hrm_backend.Rbac.Removal.Laws.{names, delete_assignment-PathIsValid, delete_assignment_complete}
use hrm_backend.Rbac.Samples.{as_is, no_order, mill}

mill-IsKeyed : IsKeyed mill
mill-IsKeyed = record {
  apart = (refl, (refl, tt));
  placed = (
    (refl, refl),
    ((refl, refl), ((tt, refl), ((tt, refl), ((refl, refl), ((refl, refl), tt))))),
  );
}

holds_role_eq_example :
    holds_role as_is mill 1 "factory_hr" "Mill"
    ≡ includes 1 (role_holder_user_ids as_is mill "factory_hr" "Mill")
holds_role_eq_example = holds_role_eq as_is mill 1 "factory_hr" "Mill" mill-IsKeyed

rahim_owns : (job_analysis_owners as_is no_order 500 mill "Mill").user_ids ≡ 1 ∷ []
unfolding distinct job_analysis_owners factory_hr_queue role_holder_user_ids holder_assignments
    unit_ids_named sort insert is_on_leave is_active_at same_unit normalize_unit_name strip_end trim
    is_space
rahim_owns = refl

job_analysis_owners_lem_example :
    (includes 2 (job_analysis_owners as_is no_order 500 mill "Mill").user_ids ≡ (
      if any (λ (v : User). is_on_duty as_is 500 mill "Mill" v.id) mill.users
      then is_on_duty as_is 500 mill "Mill" 2
      else includes 2 (role_holder_user_ids as_is mill "corporate_hr" "Mill")
        || includes 2 (role_holder_user_ids as_is mill "corporate_recruiter" "Mill")))
    × ((job_analysis_owners as_is no_order 500 mill "Mill").via_factory_hr
        ≡ any (λ (v : User). is_on_duty as_is 500 mill "Mill" v.id) mill.users)
    × ((job_analysis_owners as_is no_order 500 mill "Mill").assignee_id ≡ none)
job_analysis_owners_lem_example = job_analysis_owners_lem as_is no_order 500 mill "Mill" 2

recipient_runs_example :
    can_run_recruitment as_is 500 mill 3 "Mill" none (record { user_id = some 3; until = some 900 })
    ≡ true
unfolding distinct recruitment_recipients role_holder_user_ids holder_assignments unit_ids_named
    same_unit normalize_unit_name strip_end trim is_space
recipient_runs_example =
    recipient_runs as_is 500 mill "Mill" none (record { user_id = some 3; until = some 900 }) 3
      mill-IsKeyed refl

-- Salma stood in until 400; at 500 nothing has tidied the row.
abbrev lapsed : Requisition
lapsed = record (sample Status.posted [] []) { cover_recruiter_id = some 3; cover_until = some 400 }

lapsed_listed : lists as_is no_order 500 mill 3 lapsed ≡ true
unfolding lists get_unit_access_scope load_user_permissions
lapsed_listed = refl

lapsed_closed : may_open (access_of as_is no_order 500 mill) lapsed 3 ≡ false
unfolding may_open is_own_business access_of get_unit_access_scope cv_submitter_role holds_role
    counts_for load_user_permissions effective_role unit_of
lapsed_closed = refl

-- Rahim is Factory HR for the mill, and raises for the dye works.
at_dye_works : Requisition
at_dye_works = record (sample Status.pending_job_analysis [] []) {
  unit_factory = "Dye";
  raised_by_id = some 9;
}

elsewhere_listed : lists as_is no_order 500 mill 1 at_dye_works ≡ true
unfolding at_dye_works lists get_unit_access_scope load_user_permissions effective_role unit_of
    is_on_leave is_active_at
elsewhere_listed = refl

elsewhere_closed : may_open (access_of as_is no_order 500 mill) at_dye_works 1 ≡ false
unfolding distinct at_dye_works may_open is_own_business access_of get_unit_access_scope
    cv_submitter_role holds_role counts_for load_user_permissions effective_role unit_of
    can_complete_job_analysis is_super_user job_analysis_owners factory_hr_queue
    role_holder_user_ids holder_assignments unit_ids_named sort insert is_on_leave is_active_at
    same_unit normalize_unit_name strip_end trim is_space
elsewhere_closed = refl

-- An id sent twice takes the last of its places, and nobody is first.
first_missing :
    set_layering_order mill 1 1 (11 ∷ 11 ∷ 12 ∷ [])
    ≡ ok (record mill {
      assignments =
          map
            (λ (a : Assignment).
              if a.id == 11
              then record a { priority = some 2 }
              else if a.id == 12
              then record a { priority = some 3 }
              else a)
            mill.assignments;
    })
unfolding set_layering_order place_in
first_missing = refl

mill-IsNumbered : IsNumbered 1 1 mill.assignments
mill-IsNumbered j = ground arith

abbrev level : ℕ → ℕ → Level
level index user = record { order_index = index; user_id = user; title = "T"; subtitle = "" }

abbrev dye_path : ApprovalPath
dye_path = record {
  unit_id = 2;
  raiser_id = 1;
  department = "";
  updated_by = 5;
  levels = level 0 2 ∷ level 1 4 ∷ [];
}

abbrev tables : Store
tables = record { directory = mill; paths = dye_path ∷ []; requisitions = at_dye_works ∷ [] }

after : ℕ → Store
unfolding delete_assignment
after id = elim (delete_assignment as_is tables id) [ ok left ↦ left.0 | err refused ↦ tables ]

delete_assignment-PathIsValid_example : All PathIsValid (after 16).paths
unfolding after delete_assignment
delete_assignment-PathIsValid_example =
    delete_assignment-PathIsValid as_is tables 16
      ((record { numbered = (refl, (refl, tt)); not_own = refl; once = refl }), tt) refl

delete_assignment_complete_example :
    (("unit_approver" === "requisition_raiser" && any (is_of_raiser 2 2) (after 16).paths) ≡ false)
    × (("unit_approver" === "unit_approver" && any (names 2 2) (after 16).paths) ≡ false)
    × (("unit_approver" === "factory_hr"
          && any (is_addressed as_is 2 "Dye") (after 16).requisitions)
        ≡ false)
    × (any (has_id 16) (after 16).directory.assignments ≡ false)
unfolding after delete_assignment unit_of
delete_assignment_complete_example =
    delete_assignment_complete as_is tables 16 2 (record { id = 2; name = "Dye" }) refl refl refl
      refl

delete_assignment-IsNumbered_example : IsNumbered 1 1 (after 11).directory.assignments
unfolding after delete_assignment
delete_assignment-IsNumbered_example =
    delete_assignment-IsNumbered 1 1 as_is tables 11 refl refl mill-IsNumbered refl
