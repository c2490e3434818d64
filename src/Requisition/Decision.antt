-- ===== src/Requisition/Decision.antt =====
-- Acting on the current sign-off (`act`): the checks on the requisition as it was read, the
-- transaction on the row as it is by then, and what follows a decision (`finishDecision`).
pub mod Checked
use hrm_backend.Prelude.{
  ℕ, ◌-◌, String, Bool, true, false, ◌&&◌, ◌||◌, not, Option, none, some, List, [], ◌∷◌, ◌++◌, ◌==◌,
  if◌then◌else◌, length, join, Result, ok, err, guard, or_throw, ◌>>=◌, ◌>>◌, bad_request,
  forbidden,
}
use hrm_backend.Requisition.Model.{
  Status, StepStatus, ApprovalRole, Decision, LogAction, Step, Requisition, Actor, Outcome, Reply,
  Effect, broadcast, notify, talent_bank_match, sent_back, no_pending_step, already_actioned,
  not_this_approver, board_only_from_chro, already_with_chro, only_final_escalates,
}
use hrm_backend.Requisition.Steps.{
  first_pending, parked, update_step, claim_count, create_step, add_activity,
}
use hrm_backend.Requisition.Access.{Access, role_key, can_act_on_step, load}
use hrm_backend.Requisition.Profile.{Ai, build_role_profile}

-- What the checks settle before the transaction: the step to claim, its place, and the number of
-- steps that the row had when it was read.
pub record Plan : Type 0 where
  pub step : ℕ
  pub index : ℕ
  pub count : ℕ
  pub decision : Decision
  pub note : String
  pub actor : String
  pub chro_assignee : String

abbrev is_escalate : Decision → Bool
is_escalate Decision.escalate = true
is_escalate _ = false

abbrev is_send_to_board : Decision → Bool
is_send_to_board Decision.send_to_board = true
is_send_to_board _ = false

abbrev is_need_more_info : Decision → Bool
is_need_more_info Decision.need_more_info = true
is_need_more_info _ = false

abbrev pub with_chro : Option ApprovalRole → Bool
with_chro (some ApprovalRole.chro) = true
with_chro (some ApprovalRole.board) = true
with_chro _ = false

-- `send_to_board` was refused before.
abbrev pub log_action : Decision → LogAction
log_action Decision.approved = LogAction.approved
log_action Decision.rejected = LogAction.rejected
log_action Decision.need_more_info = LogAction.need_more_info
log_action Decision.escalate = LogAction.escalated
log_action Decision.send_to_board = LogAction.edited

-- The word that a live update carries.
abbrev decision_word : Decision → String
decision_word Decision.approved = "approved"
decision_word Decision.rejected = "rejected"
decision_word Decision.need_more_info = "need_more_info"
decision_word Decision.escalate = "escalate"
decision_word Decision.send_to_board = "send_to_board"

-- The checks of `act` before its transaction.
unfoldable pub act_check : Access → Requisition → Decision → String → Actor → Outcome Plan
act_check a row decision note actor = do
  r ← load a (some row) (some actor.id)
  guard (not (parked r.steps)) (bad_request sent_back)
  found ← or_throw (first_pending r.steps) (bad_request no_pending_step)
  let current = found.1
  guard (can_act_on_step a current r.unit_factory actor.id) (forbidden not_this_approver)
  guard (not (is_send_to_board decision)) (bad_request board_only_from_chro)
  guard (not (is_escalate decision && with_chro current.role)) (bad_request already_with_chro)
  guard (not (is_escalate decision && not (found.0 == length r.steps - 1)))
      (bad_request only_final_escalates)
  ok (record {
    step = current.id;
    index = found.0;
    count = length r.steps;
    decision = decision;
    note = note;
    actor = actor.name;
    chro_assignee =
        if is_escalate decision then join ", " (a.role_holder_names "chro" r.unit_factory) else "";
  })

abbrev pub sign : Plan → StepStatus → ℕ → Step → Step
sign p status now s = record s {
  status = status;
  assignee = p.actor;
  note = p.note;
  acted_at = some now;
}

-- A rejection leaves the assignee as it was.
abbrev pub turn_down : Plan → ℕ → Step → Step
turn_down p now s = record s { status = StepStatus.rejected; note = p.note; acted_at = some now }

abbrev pub set_step : Plan → (Step → Step) → Requisition → Requisition
set_step p f r = record r { steps = update_step p.step f r.steps }

abbrev pub chro_step : Plan → ℕ → Step
chro_step p new_id = record {
  id = new_id;
  order_index = p.count;
  role = some ApprovalRole.chro;
  approver_user_id = none;
  title = "CHRO";
  subtitle = "Escalated final approval";
  assignee = p.chro_assignee;
  status = StepStatus.pending;
  note = "";
  acted_at = none;
}

-- The branches of the transaction, after the claim and the log entry.
unfoldable pub settle : Decision → Plan → ℕ → ℕ → Requisition → Outcome Requisition
settle Decision.escalate p new_id now r = do
  let r' = set_step p (sign p StepStatus.approved now) r
  steps ← create_step (chro_step p new_id) r'.steps
  ok (record r' { steps = steps })
settle Decision.rejected p new_id now r =
    ok (record (set_step p (turn_down p now) r) { status = Status.rejected })
settle Decision.need_more_info p new_id now r =
    ok (set_step p (sign p StepStatus.info_requested now) r)
settle _ p new_id now r =
    let r' = set_step p (sign p StepStatus.approved now) r in
    if p.index == p.count - 1 then ok (record r' { status = Status.approved }) else ok r'

-- The transaction of `act`, on the row as it stands when it runs.
unfoldable pub act_commit : Plan → ℕ → ℕ → Requisition → Outcome Requisition
unfolding settle
act_commit p new_id now r = do
  guard (claim_count p.step r.steps == 1) (bad_request already_actioned)
  settle p.decision p new_id now
      (add_activity (record { actor = p.actor; action = log_action p.decision; note = p.note }) r)

-- Whoever must act next, unless the requisition is parked with the raiser.
unfoldable pub notify_pending_approver : Access → Requisition → List Effect
notify_pending_approver a r = if parked r.steps then [] else elim (first_pending r.steps) [
  | none ↦ []
  | some (i, s) ↦ elim s.approver_user_id [
    | some named ↦ notify (named ∷ []) "requisition_pending" ∷ []
    | none ↦ elim s.role [
      | some role ↦
          notify (a.role_holder_user_ids (role_key role) r.unit_factory) "requisition_pending" ∷ []
      | none ↦ notify [] "requisition_pending" ∷ []
    ]
  ]
]

abbrev pub notify_raiser : Requisition → String → List Effect
notify_raiser r kind = elim r.raised_by_id [ none ↦ [] | some u ↦ notify (u ∷ []) kind ∷ [] ]

pub notify_after_action : Access → Decision → Requisition → List Effect
notify_after_action a decision r = broadcast (decision_word decision) ∷ (elim r.status [
  | Status.approved ↦ notify_raiser r "requisition_approved"
  | Status.rejected ↦ notify_raiser r "requisition_rejected"
  | _ ↦
      (if is_need_more_info decision then notify_raiser r "requisition_info" else [])
      ++ notify_pending_approver a r
])

abbrev is_fully_approved : Status → Bool
is_fully_approved Status.approved = true
is_fully_approved _ = false

unfoldable pub finish_decision :
    Access → Ai → ℕ → Decision → Requisition → Requisition × List Effect
finish_decision a model now decision r =
    let sent = notify_after_action a decision r in
    if is_fully_approved r.status
    then (if model.is_configured && model.auto_role_profile
        then (
          record r {
            role_profile = some (build_role_profile model r now);
            status = Status.profile_generated;
          },
          sent ++ talent_bank_match ∷ broadcast "role_profile_generated" ∷ [],
        )
        else (r, sent ++ talent_bank_match ∷ []))
    else (r, sent)

-- `act`, with no other request between its checks and its transaction.
unfoldable pub act : Access → Ai → Requisition → Decision → String → Actor → ℕ → Reply
act a model row decision note actor new_id = do
  plan ← act_check a row decision note actor
  r ← act_commit plan new_id a.now row
  ok (finish_decision a model a.now decision r)
