-- ===== src/Sheets.antt =====
-- Hiring Approval Sheets: candidates put before the CHRO and the board together, and the votes by
-- e-mailed link (src/modules/board/board.service.ts). The handlers write in no transaction, so that
-- one which fails after a write answers with the tables beside the refusal.
pub mod Handlers
pub mod Signed
pub mod Steps
pub mod Runs
pub mod Single
pub mod Answers
pub mod Decided
pub mod Tests
use hrm_backend.Prelude.{
  ℕ, String, Bool, true, false, ◌&&◌, ◌||◌, not, Option, none, some, List, [], ◌∷◌, ◌++◌, map, keep,
  any, find, ◌==◌, is_id, is_some, includes, if◌then◌else◌, Result,
}

pub data Stage : Type 0 where
  corporate_hr chro board : Stage

pub data Status : Type 0 where
  pending approved rejected : Status

pub data Problem : Type 0 where
  not_allowed approval_missing already_on_sheet no_candidate no_member not_waiting : Problem
  not_chro salary_not_fixed no_recipient sheet_missing already_decided all_responded : Problem
  link_invalid link_expired reason_missing : Problem
  attachment_missing attachment_not_stored candidate_missing not_onboarding no_holder : Problem
  already_approved link_of_sheet : Problem

-- A BoardApproval row: one candidate's request.
pub record Approval : Type 0 where
  pub id : ℕ
  pub candidate_id : ℕ
  pub requested_by_id : ℕ
  pub status : Status
  pub current_stage : Stage
  pub corporate_hr_id : Option ℕ
  pub chro_id : Option ℕ
  pub board_member_ids : List ℕ
  pub batch_id : Option ℕ
  pub rejected_reason : Option String
  pub rejected_at : Option ℕ
  pub hr_approved_by_id : Option ℕ
  pub hr_approved_at : Option ℕ
  pub hr_approval_note : Option String
  pub hr_approval_attachment : Option String
  pub sheet_education : Option String
  pub sheet_experience : Option String
  pub sheet_last_org : Option String

-- A BoardApprovalBatch row: one sheet.
pub record Sheet : Type 0 where
  pub id : ℕ
  pub reference : String
  pub created_by_id : ℕ
  pub status : Status
  pub current_stage : Stage
  pub chro_id : Option ℕ
  pub board_member_ids : List ℕ
  pub rejected_reason : Option String
  pub rejected_at : Option ℕ

-- A BoardApprovalVote row of a sheet.
pub record Vote : Type 0 where
  pub id : ℕ
  pub batch_id : ℕ
  pub user_id : ℕ
  pub token_hash : ℕ
  pub token_expires_at : ℕ
  pub stage : Stage
  pub status : Status
  pub notes : Option String
  pub responded_at : Option ℕ

-- A BoardApprovalVote row of one candidate's request.
pub record LinkVote : Type 0 where
  pub id : ℕ
  pub approval_id : ℕ
  pub user_id : ℕ
  pub token_hash : ℕ
  pub token_expires_at : ℕ
  pub stage : Stage
  pub status : Status
  pub notes : Option String
  pub responded_at : Option ℕ

-- The approvals stand in the order in which they were made.
pub record Tables : Type 0 where
  pub approvals : List Approval
  pub sheets : List Sheet
  pub votes : List Vote
  pub link_votes : List LinkVote

pub record User : Type 0 where
  pub id : ℕ
  pub name : String
  pub has_email : Bool

pub record Candidate : Type 0 where
  pub id : ℕ
  pub unit_factory : String
  pub is_onboarding : Bool

-- What the handlers ask of the other services and of the clock. `issue` gives the id and the token's
-- hash of the vote that is mailed to a user.
pub record World : Type 0 where
  pub now : ℕ
  pub may_manage : ℕ → Bool
  pub may_manage_candidate : ℕ → ℕ → Bool
  pub candidates : List Candidate
  pub holders : Stage → String → List ℕ
  pub fixed_salary : ℕ → Option ℕ
  pub chro_holders : List ℕ
  pub users : List User
  pub issue : ℕ → ℕ × ℕ

abbrev pub is_pending : Status → Bool
is_pending Status.pending = true
is_pending _ = false

abbrev pub is_approved : Status → Bool
is_approved Status.approved = true
is_approved _ = false

abbrev pub is_board : Stage → Bool
is_board Stage.board = true
is_board _ = false

abbrev pub is_chro : Stage → Bool
is_chro Stage.chro = true
is_chro _ = false

abbrev pub same_stage : Stage → Stage → Bool
same_stage Stage.corporate_hr Stage.corporate_hr = true
same_stage Stage.chro Stage.chro = true
same_stage Stage.board Stage.board = true
same_stage a b = false

-- `updateMany({ where: { batchId } })`
abbrev pub on_sheet : ℕ → Approval → Bool
on_sheet id a = is_id a.batch_id id

abbrev pub update_sheet : ℕ → (Sheet → Sheet) → List Sheet → List Sheet
update_sheet id f = map (λ (b : Sheet). if b.id == id then f b else b)

abbrev pub update_approvals : ℕ → (Approval → Approval) → List Approval → List Approval
update_approvals id f = map (λ (a : Approval). if on_sheet id a then f a else a)
