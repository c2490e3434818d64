-- ===== src/Requisition/Lifecycle.antt =====
-- The requests on an existing requisition, as RequisitionController sends each to its handler, and
-- the life of a row under them (requisition.controller.ts).
pub mod Reachable
use hrm_backend.Prelude.{ℕ, String, Bool, Option, none, some, List, [], ok, trim, or_else}
use hrm_backend.Requisition.Model.{Decision, Requisition, Actor, Reply}
use hrm_backend.Requisition.Access.{Access}
use hrm_backend.Requisition.Profile.{Ai}
use hrm_backend.Requisition.Decision.{act}
use hrm_backend.Requisition.Return.{
  resubmit, return_job_analysis_to_raiser, resend_for_job_analysis,
}
use hrm_backend.Requisition.JobAnalysis.{JobAnalysis, save_job_analysis}
use hrm_backend.Requisition.Recruitment.{
  ProfileEdit, UserRow, generate_role_profile, update_role_profile, post, set_cv_sources,
  assign_recruiter,
}
use hrm_backend.Requisition.Board.{Member, send_to_board}

-- What a request meets: the permissions, the AI, the members of the boards and the users' table.
pub record World : Type 0 where
  pub access : Access
  pub model : Ai
  pub board : List Member
  pub users : ℕ → Option UserRow

-- ApprovalActionDto
pub record ApprovalAction : Type 0 where
  pub decision : Decision
  pub note : Option String
  pub board_member_ids : Option (List ℕ)

-- The requests that move a requisition on; the edits of its text and facilities, its attachments and
-- its deletion are left out. `new_id` is the id that the database gives to a step which
-- the request appends; `keys` are the ids of the vote rows and the hashes of their links' tokens.
pub data Request : Type 0 where
  approval : ApprovalAction → (new_id : ℕ) → (keys : List (ℕ × ℕ)) → Request
  resubmission : Request
  job_analysis : JobAnalysis → Request
  return_to_raiser : String → Request
  resend : Request
  generate_profile : Request
  edit_profile : ProfileEdit → Request
  posting : (closing_date : String) → Request
  cv_sources : List String → Request
  recruiter : Option ℕ → Request

-- `PATCH :id/approval`: the hand-off to the board lives in its own service.
unfoldable pub approve_route :
    World → Requisition → Decision → ApprovalAction → Actor → (new_id : ℕ) → List (ℕ × ℕ) → Reply
approve_route w row Decision.send_to_board dto actor new_id keys =
    send_to_board w.access w.model w.board row (or_else dto.board_member_ids [])
      (trim (or_else dto.note "")) actor new_id keys
approve_route w row d dto actor new_id keys =
    act w.access w.model row d (or_else dto.note "") actor new_id

unfoldable pub handle : World → Requisition → Request → Actor → Reply
unfolding approve_route
handle w row (approval dto new_id keys) actor =
    approve_route w row dto.decision dto actor new_id keys
handle w row resubmission actor = resubmit w.access row actor
handle w row (job_analysis dto) actor = save_job_analysis w.access row dto actor
handle w row (return_to_raiser note) actor = return_job_analysis_to_raiser w.access row note actor
handle w row resend actor = resend_for_job_analysis w.access row actor
handle w row generate_profile actor = generate_role_profile w.access w.model row actor
handle w row (edit_profile dto) actor = update_role_profile w.access row dto actor
handle w row (posting closing_date) actor = post w.access row closing_date actor
handle w row (cv_sources sources) actor = set_cv_sources w.access row sources actor
handle w row (recruiter user) actor = assign_recruiter w.access w.users row user actor
