-- ===== src/Requisition/Samples.antt =====
-- Sample permissions, steps and requisitions for the tests.
use hrm_backend.Prelude.{ℕ, refl, true, false, Option, none, some, List, [], ◌∷◌, ok, err}
use hrm_backend.Requisition.Model.{
  Status, StepStatus, ApprovalRole, VoteStatus, CvSource, Step, BoardVote, Requisition, Actor,
  Outcome, Reply, Effect,
}
use hrm_backend.Requisition.Access.{Access}
use hrm_backend.Requisition.Profile.{Ai}
use hrm_backend.Requisition.Board.{VoteReply}
use hrm_backend.Requisition.Recruitment.{UserRow}
use hrm_backend.Requisition.Lifecycle.{World}

-- Everybody holds every role, and nobody is a super user.
abbrev pub everybody : Access
everybody = record {
  now = 1000;
  is_super_user = λ u. false;
  has_role_for_unit = λ u k n. true;
  sees_all_units = λ u. true;
  can_complete_job_analysis = λ u n x. true;
  can_run_recruitment = λ u n x y z. true;
  sends_cvs = λ u n. false;
  job_analysis_owners = λ n. [];
  role_holder_user_ids = λ k n. [];
  role_holder_names = λ k n. [];
  super_has_role = λ u k n h. refl;
  super_sees_all = λ u h. refl;
  lead_recruits = λ u n r c t h. refl;
}

abbrev pub step : ℕ → ℕ → Option ApprovalRole → Option ℕ → StepStatus → Step
step id index role user status = record {
  id = id;
  order_index = index;
  role = role;
  approver_user_id = user;
  title = "Step";
  subtitle = "";
  assignee = "Somebody";
  status = status;
  note = "";
  acted_at = none;
}

abbrev pub sample : Status → List Step → List BoardVote → Requisition
sample status steps votes = record {
  id = 1;
  code = "REQ-2026-001";
  designation = "Engineer";
  alternate_designations = [];
  unit_factory = "Mill";
  department = "IT";
  place_of_posting = "Dhaka";
  required_posts = 1;
  replacements = [];
  job_description = "Writes programs";
  education = "BSc";
  experience = "Two years";
  others = none;
  status = status;
  raised_by = "Rahim";
  raised_by_id = some 1;
  steps = steps;
  activities = [];
  votes = votes;
  job_analysis_assignee_id = none;
  job_analysis_by_id = none;
  job_analysis_at = none;
  job_analysis_returned_at = none;
  job_analysis_return_note = none;
  recruiter_id = none;
  recruiter_assigned_at = none;
  recruiter_assigned_by_id = none;
  cover_recruiter_id = none;
  cover_leave_id = none;
  cover_until = none;
  cv_sources = CvSource.bdjobs ∷ [];
  cv_sources_set_at = none;
  cv_sources_set_by = none;
  role_profile = none;
  posting = none;
}

abbrev pub raiser : Actor
raiser = record { id = 1; name = "Rahim" }

abbrev pub approver : Actor
approver = record { id = 2; name = "Karim" }

abbrev pub no_ai : Ai
no_ai = record {
  is_configured = false;
  auto_role_profile = false;
  generate = λ r. none;
  label = λ d ds. d;
}

-- The first of two steps is over, and the last is open.
abbrev pub at_last_step : StepStatus → List Step
at_last_step status =
    step 10 0 none (some 2) status
    ∷ step 11 1 (some ApprovalRole.corporate_hr) none StepStatus.pending
    ∷ []

-- An open vote of user 7 on a step.
abbrev pub open_vote : ℕ → ℕ → ℕ → BoardVote
open_vote id on hash = record {
  id = id;
  step_id = on;
  user_id = 7;
  token_hash = hash;
  token_expires_at = 2000;
  status = VoteStatus.pending;
  notes = none;
  responded_at = none;
}

abbrev pub with_board : List Step
with_board = step 12 0 (some ApprovalRole.board) none StepStatus.pending ∷ []

abbrev pub recruiters : ℕ → Option UserRow
recruiters u = some (record { id = u; name = "Salma"; is_active = true })

abbrev pub world : World
world = record { access = everybody; model = no_ai; board = []; users = recruiters }

-- The row and the effects of a reply, for runs that succeed.
abbrev pub row_of : Reply → Requisition
row_of (ok (r, sent)) = r
row_of (err e) = sample Status.draft [] []

abbrev pub sent_of : Reply → List Effect
sent_of (ok (r, sent)) = sent
sent_of (err e) = []

abbrev pub vote_row : Outcome (VoteReply × (Requisition × List Effect)) → Requisition
vote_row (ok (reply, (r, sent))) = r
vote_row (err e) = sample Status.draft [] []

abbrev pub vote_sent : Outcome (VoteReply × (Requisition × List Effect)) → List Effect
vote_sent (ok (reply, (r, sent))) = sent
vote_sent (err e) = []
