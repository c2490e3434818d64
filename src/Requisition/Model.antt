-- ===== src/Requisition/Model.antt =====
-- The requisition row, its approval steps, activity log and board votes, as the service reads and
-- writes them (src/modules/requisition, prisma/schema.prisma). Ids are numbers, compared only for
-- equality; an instant is a number of milliseconds.
use hrm_backend.Prelude.{ℕ, String, Option, List, Result}

pub data Status : Type 0 where
  draft pending_job_analysis pending_approval approved rejected profile_generated posted : Status

pub data StepStatus : Type 0 where
  pending approved rejected info_requested : StepStatus

pub data ApprovalRole : Type 0 where
  department_head factory_hr sbu_head corporate_hr chro board : ApprovalRole

-- What an approver sends.
pub data Decision : Type 0 where
  approved rejected need_more_info escalate send_to_board : Decision

-- What the activity log records.
pub data LogAction : Type 0 where
  approved rejected need_more_info escalated edited : LogAction

pub data VoteStatus : Type 0 where
  pending approved rejected : VoteStatus

pub data CvSource : Type 0 where
  linkedin bdjobs head_hunting social_media career_site campus internal_posting cv_bank talent_pool
        employee_referral :
      CvSource

pub record Step : Type 0 where
  pub id : ℕ
  pub order_index : ℕ
  pub role : Option ApprovalRole
  pub approver_user_id : Option ℕ
  pub title : String
  pub subtitle : String
  pub assignee : String
  pub status : StepStatus
  pub note : String
  pub acted_at : Option ℕ

pub record Activity : Type 0 where
  pub actor : String
  pub action : LogAction
  pub note : String

pub record BoardVote : Type 0 where
  pub id : ℕ
  pub step_id : ℕ
  pub user_id : ℕ
  pub token_hash : ℕ
  pub token_expires_at : ℕ
  pub status : VoteStatus
  pub notes : Option String
  pub responded_at : Option ℕ

pub data GeneratedBy : Type 0 where
  template ai job_analysis manual : GeneratedBy

pub record RoleProfile : Type 0 where
  pub summary : String
  pub job_description : String
  pub responsibilities : List String
  pub requirements : List String
  pub generated_at : ℕ
  pub generated_by : GeneratedBy

pub record Posting : Type 0 where
  pub sources : List String
  pub closing_date : String
  pub posted_at : ℕ

-- An employee whom the requisition replaces.
pub record Replacement : Type 0 where
  pub employee_name : String
  pub employee_code : Option String
  pub separation_reason : Option String
  pub vacant_date : Option ℕ
  pub remarks : Option String
  pub order_index : ℕ

pub record Requisition : Type 0 where
  pub id : ℕ
  pub code : String
  pub designation : String
  pub alternate_designations : List String
  pub unit_factory : String
  pub department : String
  pub place_of_posting : String
  pub required_posts : ℕ
  pub replacements : List Replacement
  pub job_description : String
  pub education : String
  pub experience : String
  pub others : Option String
  pub status : Status
  pub raised_by : String
  pub raised_by_id : Option ℕ
  pub steps : List Step
  pub activities : List Activity
  pub votes : List BoardVote
  pub job_analysis_assignee_id : Option ℕ
  pub job_analysis_by_id : Option ℕ
  pub job_analysis_at : Option ℕ
  pub job_analysis_returned_at : Option ℕ
  pub job_analysis_return_note : Option String
  pub recruiter_id : Option ℕ
  pub recruiter_assigned_at : Option ℕ
  pub recruiter_assigned_by_id : Option ℕ
  pub cover_recruiter_id : Option ℕ
  pub cover_leave_id : Option ℕ
  pub cover_until : Option ℕ
  pub cv_sources : List CvSource
  pub cv_sources_set_at : Option ℕ
  pub cv_sources_set_by : Option String
  pub role_profile : Option RoleProfile
  pub posting : Option Posting

pub record Actor : Type 0 where
  pub id : ℕ
  pub name : String

-- The reason a handler throws for; the wording of its message is left out.
pub data Reason : Type 0 where
  sent_back no_pending_step already_actioned not_this_approver board_only_from_chro
        already_with_chro only_final_escalates unique_violation :
      Reason
  not_awaiting_approval not_awaiting_clarification only_raiser_resends : Reason
  not_awaiting_job_analysis not_job_analysis_owner job_analysis_incomplete return_note_missing
        not_returned :
      Reason
  not_approved_yet not_recruitment no_role_profile not_lead no_cv_source cv_sources_missing : Reason
  recruiter_missing recruiter_inactive recruiter_without_role : Reason
  not_chro_step not_chro no_member not_board_member member_without_email : Reason
  link_invalid link_expired reason_missing : Reason
  requisition_missing cannot_open closed_after_approval with_job_analysis only_raiser_edits
        not_editable attachments_closed :
      Reason
  not_raiser replaced_missing separation_missing no_approval_path : Reason

abbrev pub Outcome : Type 0 → Type 0
Outcome = Result Reason

-- What a handler sends out beside its reply: a live update with its action word, a notification to
-- users with its type, the Talent Bank match, and the Drive workspace set-up that runs after a post.
pub data Effect : Type 0 where
  broadcast : String → Effect
  notify : List ℕ → String → Effect
  talent_bank_match : Effect
  drive_workspace : Effect

-- The requisition after a handler, and what was sent out, in order.
abbrev pub Reply : Type 0
Reply = Outcome (Requisition × List Effect)
