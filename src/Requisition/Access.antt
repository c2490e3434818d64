-- ===== src/Requisition/Access.antt =====
-- What the requisition service asks of the permissions service at one instant, and its own gates:
-- who may open, act on and edit a requisition (requisition.service.ts).
pub mod Laws
use hrm_backend.Prelude.{
  ℕ, String, ◌≡◌, Bool, true, false, ◌&&◌, ◌||◌, not, Option, none, some, List, any, is_id, is_some,
  ltb, ◌==◌, if◌then◌else◌, Result, ok, err, guard, or_throw, ◌>>=◌, ◌>>◌, bad_request, forbidden,
  not_found,
}
use hrm_backend.Requisition.Model.{
  Status, ApprovalRole, Step, Requisition, Outcome, no_pending_step, not_this_approver, cannot_open,
  closed_after_approval, with_job_analysis, only_raiser_edits, not_editable, attachments_closed,
  not_recruitment, not_lead, requisition_missing,
}
use hrm_backend.Requisition.Steps.{first_pending, parked}

-- The answers of PermissionsService; its own model fills this record.
pub record Access : Type 0 where
  pub now : ℕ
  pub is_super_user : ℕ → Bool
  pub has_role_for_unit : ℕ → String → String → Bool
  pub sees_all_units : ℕ → Bool
  pub can_complete_job_analysis : ℕ → String → Option ℕ → Bool
  pub can_run_recruitment : ℕ → String → Option ℕ → Option ℕ → Option ℕ → Bool
  pub sends_cvs : ℕ → String → Bool
  pub job_analysis_owners : String → List ℕ
  pub role_holder_user_ids : String → String → List ℕ
  pub role_holder_names : String → String → List String
  pub super_has_role :
      (u : ℕ) (k n : String) → is_super_user u ≡ true → has_role_for_unit u k n ≡ true
  pub super_sees_all : (u : ℕ) → is_super_user u ≡ true → sees_all_units u ≡ true
  pub lead_recruits :
      (u : ℕ) (n : String) (r c t : Option ℕ)
      → (has_role_for_unit u "corporate_hr" n || has_role_for_unit u "chro" n) ≡ true
      → can_run_recruitment u n r c t ≡ true

-- On what footing an edit is made.
pub data Footing : Type 0 where
  holder hr super : Footing

-- `step.role.toLowerCase()`
abbrev pub role_key : ApprovalRole → String
role_key ApprovalRole.department_head = "department_head"
role_key ApprovalRole.factory_hr = "factory_hr"
role_key ApprovalRole.sbu_head = "sbu_head"
role_key ApprovalRole.corporate_hr = "corporate_hr"
role_key ApprovalRole.chro = "chro"
role_key ApprovalRole.board = "board"

abbrev pub is_pending_job_analysis : Status → Bool
is_pending_job_analysis Status.pending_job_analysis = true
is_pending_job_analysis _ = false

abbrev pub is_pending_approval : Status → Bool
is_pending_approval Status.pending_approval = true
is_pending_approval _ = false

abbrev pub is_posted : Status → Bool
is_posted Status.posted = true
is_posted _ = false

-- `isApproved`: past its chain.
abbrev pub is_approved : Status → Bool
is_approved Status.approved = true
is_approved Status.profile_generated = true
is_approved Status.posted = true
is_approved _ = false

-- A cover counts until its date, or for ever without one.
abbrev pub cover_holds : ℕ → Option ℕ → Bool
cover_holds now none = true
cover_holds now (some t) = ltb now t

module _ (a : Access) where
  open a use {is_super_user, has_role_for_unit}

  unfoldable pub can_act_on_step : Step → String → ℕ → Bool
  can_act_on_step step unit user = elim step.approver_user_id [
    | some named ↦ named == user || is_super_user user
    | none ↦ elim step.role [
      | none ↦ is_super_user user
      | some role ↦ has_role_for_unit user (role_key role) unit
    ]
  ]

  unfoldable pub is_own_business : Requisition → ℕ → Bool
  is_own_business r user =
      is_id r.raised_by_id user
      || is_id r.recruiter_id user
      || is_id r.job_analysis_by_id user
      || is_id r.job_analysis_assignee_id user
      || (is_id r.cover_recruiter_id user && cover_holds a.now r.cover_until)
      || any (λ s. is_id s.approver_user_id user) r.steps

  unfoldable pub may_open : Requisition → ℕ → Bool
  unfolding is_own_business
  may_open r user =
      is_own_business r user
      || a.sees_all_units user
      || (is_pending_job_analysis r.status
          && a.can_complete_job_analysis user r.unit_factory r.job_analysis_assignee_id)
      || (is_posted r.status && a.sends_cvs user r.unit_factory)

  -- With no user the check is skipped.
  unfoldable pub load : Option Requisition → Option ℕ → Outcome Requisition
  unfolding may_open
  load none user = err (not_found requisition_missing)
  load (some r) none = ok r
  load (some r) (some user) = if may_open r user then ok r else err (forbidden cannot_open)

  is_raiser_or_super : Requisition → ℕ → Bool
  is_raiser_or_super r user = is_id r.raised_by_id user || is_super_user user

  require_current_approver : Requisition → ℕ → Outcome (Unit {0})
  unfolding is_raiser_or_super can_act_on_step
  require_current_approver r user =
      if is_pending_job_analysis r.status
      then (do
        guard (is_some r.job_analysis_returned_at) (bad_request with_job_analysis)
        guard (is_raiser_or_super r user) (forbidden only_raiser_edits))
      else (do
        guard (is_pending_approval r.status) (bad_request not_editable)
        if parked r.steps
            then guard (is_raiser_or_super r user) (forbidden only_raiser_edits)
            else do
              found ← or_throw (first_pending r.steps) (bad_request no_pending_step)
              guard (can_act_on_step found.1 r.unit_factory user) (forbidden not_this_approver))

  unfoldable pub require_edit_access : Requisition → ℕ → Outcome Footing
  unfolding require_current_approver
  require_edit_access r user =
      if is_super_user user
      then ok super
      else if has_role_for_unit user "corporate_hr" r.unit_factory
          || has_role_for_unit user "chro" r.unit_factory
          || is_id r.recruiter_id user
          || (is_id r.cover_recruiter_id user && cover_holds a.now r.cover_until)
      then ok hr
      else if has_role_for_unit user "factory_hr" r.unit_factory
      then (if is_pending_job_analysis r.status || is_pending_approval r.status
          then ok hr
          else err (forbidden closed_after_approval))
      else (do require_current_approver r user; ok holder)

  -- The refusal of the edit gate is passed on as a forbidden one.
  as_forbidden : Outcome Footing → Outcome (Unit {0})
  as_forbidden (ok f) = ok tt
  as_forbidden (err (bad_request e)) = err (forbidden e)
  as_forbidden (err e) = err e

  require_attachment_access : Requisition → ℕ → Outcome (Unit {0})
  unfolding as_forbidden
  require_attachment_access r user = do
    guard (is_pending_job_analysis r.status) (forbidden attachments_closed)
    as_forbidden (require_edit_access r user)

  -- `requireRecruitmentAccess`, with the requisition's recruiter and cover.
  unfoldable pub require_recruitment_access : Requisition → ℕ → Outcome (Unit {0})
  require_recruitment_access r user =
      guard
        (a.can_run_recruitment user r.unit_factory r.recruiter_id r.cover_recruiter_id
          r.cover_until)
        (forbidden not_recruitment)

  unfoldable pub require_recruitment_lead : Requisition → ℕ → Outcome (Unit {0})
  require_recruitment_lead r user =
      guard
        (has_role_for_unit user "corporate_hr" r.unit_factory
          || has_role_for_unit user "chro" r.unit_factory)
        (forbidden not_lead)
