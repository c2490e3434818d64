-- ===== src/Requisition/Create.antt =====
-- Raising a requisition (`create`, requisition.service.ts), for the columns that the model keeps. Its
-- code and its ids are the database's; `Code` says which codes the service asks for.
pub mod Laws
use hrm_backend.Prelude.{
  ℕ, String, Bool, true, false, ◌&&◌, ◌||◌, not, Option, none, some, List, [], ◌∷◌, all, is_some,
  if◌then◌else◌, nonempty, ok, err, guard, ◌>>=◌, ◌>>◌, bad_request, forbidden, Result,
}
use hrm_backend.Requisition.Model.{
  Status, LogAction, Step, Replacement, Requisition, Actor, Outcome, Reply, Effect, broadcast,
  not_raiser, replaced_missing, separation_missing, no_approval_path,
}
use hrm_backend.Requisition.Access.{Access}
use hrm_backend.Requisition.Return.{notify_job_analysis_owners}
use hrm_backend.Requisition.Intake.{ReplacementInput, normalise_alternates, normalise_replacements}
use hrm_backend.ApprovalPaths.{Answer, Directory, Rights}
use hrm_backend.ApprovalPaths.Chain.{build_steps_for_raiser}

-- CreateRequisitionDto
pub record NewRequisition : Type 0 where
  pub designation : String
  pub alternate_designations : Option (List String)
  pub is_new_headcount : Bool
  pub replaced : ReplacementInput
  pub unit_factory : String
  pub department : String
  pub place_of_posting : String
  pub required_posts : ℕ
  pub department_head_name : String

-- What a create meets beside the permissions: the JavaScript functions, the approval paths, the
-- organogram's look-up (which may throw), the owner of the unit's job analysis, and the database's
-- code and ids.
pub record Office : Type 0 where
  pub lower : String → String
  pub parse_date : String → Option ℕ
  pub rights : Rights
  pub directory : Directory
  pub lookup : String → String → String → ℕ → Outcome (Unit {0})
  pub job_analysis_assignee : String → Option ℕ
  pub id : ℕ
  pub code : String
  pub step_ids : ℕ → ℕ

-- The refusal of the approval paths is passed on.
abbrev passed_on : Answer (List Step) → Outcome (List Step)
passed_on (ok steps) = ok steps
passed_on (err e) = err (bad_request no_approval_path)

abbrev replaced_by : Office → NewRequisition → List Replacement
replaced_by o dto =
    if dto.is_new_headcount then [] else normalise_replacements o.lower o.parse_date dto.replaced

abbrev is_there : List Replacement → Bool
is_there [] = false
is_there (r ∷ rs) = true

abbrev raised : Office → NewRequisition → Actor → List Step → Requisition
raised o dto raiser steps =
    let raised_by =
      if nonempty dto.department_head_name then dto.department_head_name else raiser.name in
    record {
      id = o.id;
      code = o.code;
      designation = dto.designation;
      alternate_designations =
          normalise_alternates o.lower o.parse_date dto.designation dto.alternate_designations;
      unit_factory = dto.unit_factory;
      department = dto.department;
      place_of_posting = dto.place_of_posting;
      required_posts = dto.required_posts;
      replacements = replaced_by o dto;
      job_description = "";
      education = "";
      experience = "";
      others = none;
      status = Status.pending_job_analysis;
      raised_by = raised_by;
      raised_by_id = some raiser.id;
      steps = steps;
      activities =
          record {
            actor = raised_by;
            action = LogAction.approved;
            note = "Raised & signed by the Requisition Raiser — awaiting job analysis";
          }
          ∷ [];
      votes = [];
      job_analysis_assignee_id = o.job_analysis_assignee dto.unit_factory;
      job_analysis_by_id = none;
      job_analysis_at = none;
      job_analysis_returned_at = none;
      job_analysis_return_note = none;
      recruiter_id = none;
      recruiter_assigned_at = none;
      recruiter_assigned_by_id = none;
      cover_recruiter_id = none;
      cover_leave_id = none;
      cover_until = none;
      cv_sources = [];
      cv_sources_set_at = none;
      cv_sources_set_by = none;
      role_profile = none;
      posting = none;
    }

unfoldable pub create : Access → Office → NewRequisition → Actor → Reply
create a o dto raiser = do
  guard (a.has_role_for_unit raiser.id "requisition_raiser" dto.unit_factory) (forbidden not_raiser)
  o.lookup dto.unit_factory dto.department dto.designation raiser.id
  let replaced = replaced_by o dto
  guard (dto.is_new_headcount || is_there replaced) (bad_request replaced_missing)
  guard (dto.is_new_headcount || all (λ (r : Replacement). is_some r.separation_reason) replaced)
      (bad_request separation_missing)
  steps ← passed_on (
      build_steps_for_raiser o.lower o.step_ids o.rights o.directory dto.unit_factory raiser.id
        dto.department)
  let r = raised o dto raiser steps
  ok (r, broadcast "created" ∷ notify_job_analysis_owners a r)
