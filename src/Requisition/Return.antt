-- ===== src/Requisition/Return.antt =====
-- The ways back to the raiser: `resubmit` after a request for information, and the job-analysis
-- stage's own return and resend (requisition.service.ts).
use hrm_backend.Prelude.{
  ℕ, String, ◌&&◌, ◌||◌, none, some, List, [], ◌∷◌, ◌++◌, map, is_id, is_some, if◌then◌else◌,
  nonempty, trim, ◌+++◌, ok, guard, ◌>>=◌, ◌>>◌, bad_request, forbidden,
}
use hrm_backend.Requisition.Model.{
  StepStatus, LogAction, Step, Requisition, Actor, Outcome, Reply, Effect, broadcast, notify,
  not_awaiting_approval, not_awaiting_clarification, only_raiser_resends, not_awaiting_job_analysis,
  not_job_analysis_owner, return_note_missing, not_returned,
}
use hrm_backend.Requisition.Steps.{parked, add_activity}
use hrm_backend.Requisition.Access.{Access, load, is_pending_approval, is_pending_job_analysis}
use hrm_backend.Requisition.Decision.{notify_pending_approver, notify_raiser}

abbrev pub reset_step : Step → Step
reset_step s = record s { status = StepStatus.pending; note = ""; acted_at = none }

-- The transaction of `resubmit`, in which every approval given before is cleared.
abbrev pub restarted : Actor → Requisition → Requisition
restarted actor r =
    add_activity
      (record {
        actor = actor.name;
        action = LogAction.edited;
        note = "Clarified and resent for approval — chain restarted from the first step.";
      })
      (record r { steps = map reset_step r.steps })

unfoldable pub resubmit : Access → Requisition → Actor → Reply
resubmit a row actor = do
  r ← load a (some row) (some actor.id)
  guard (is_pending_approval r.status) (bad_request not_awaiting_approval)
  guard (parked r.steps) (bad_request not_awaiting_clarification)
  guard (is_id r.raised_by_id actor.id || a.is_super_user actor.id) (forbidden only_raiser_resends)
  updated ← load a (some (restarted actor r)) (some actor.id)
  ok (updated, notify_pending_approver a updated ++ broadcast "resubmitted" ∷ [])

-- Whoever owns the job analysis: the stored assignee before today's answer.
pub notify_job_analysis_owners : Access → Requisition → List Effect
notify_job_analysis_owners a r =
    let owners : List ℕ = elim r.job_analysis_assignee_id [
      | some u ↦ u ∷ []
      | none ↦ a.job_analysis_owners r.unit_factory
    ] in
    if is_some r.job_analysis_returned_at
    then []
    else elim owners [ [] ↦ [] | u ∷ us ↦ notify (u ∷ us) "requisition_pending" ∷ [] ]

unfoldable pub require_job_analysis_access : Access → Requisition → ℕ → Outcome (Unit {0})
require_job_analysis_access a r user =
    guard (a.can_complete_job_analysis user r.unit_factory r.job_analysis_assignee_id)
      (forbidden not_job_analysis_owner)

unfoldable pub return_job_analysis_to_raiser : Access → Requisition → String → Actor → Reply
return_job_analysis_to_raiser a row note actor = do
  r ← load a (some row) (some actor.id)
  guard (is_pending_job_analysis r.status) (bad_request not_awaiting_job_analysis)
  require_job_analysis_access a r actor.id
  let reason = trim note
  guard (nonempty reason) (bad_request return_note_missing)
  let updated =
      add_activity
        (record {
          actor = actor.name;
          action = LogAction.need_more_info;
          note = "Returned to the requisitioner before job analysis: " +++ reason;
        })
        (record r { job_analysis_returned_at = some a.now; job_analysis_return_note = some reason })
  ok (updated, broadcast "returned_to_raiser" ∷ notify_raiser updated "requisition_info_requested")

unfoldable pub resend_for_job_analysis : Access → Requisition → Actor → Reply
resend_for_job_analysis a row actor = do
  r ← load a (some row) (some actor.id)
  guard (is_pending_job_analysis r.status && is_some r.job_analysis_returned_at)
      (bad_request not_returned)
  guard (is_id r.raised_by_id actor.id || a.is_super_user actor.id) (forbidden only_raiser_resends)
  let updated =
      add_activity
        (record {
          actor = actor.name;
          action = LogAction.edited;
          note = "Amended and resent for job analysis";
        })
        (record r { job_analysis_returned_at = none; job_analysis_return_note = none })
  ok (updated, broadcast "resubmitted" ∷ notify_job_analysis_owners a updated)
