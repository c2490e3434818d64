-- ===== src/Requisition/Race.antt =====
-- The transactions that decide a step (`act`, `sendToBoard`, `vote`), run one after the other on
-- the same row, as the database orders two requests that read the row at the same time.
use hrm_backend.Prelude.{
  ℕ, String, ◌≡◌, refl, ◌≢◌, Bool, true, false, Option, none, some, ok, err, arith, ◌==◌, Refusal,
  guard, ◌>>◌, ap, >>=-eq-ok,
}
use hrm_backend.Requisition.Model.{Decision, StepStatus, Requisition, Outcome, Reason}
use hrm_backend.Requisition.Steps.{claim_count, create_step, add_activity}
use hrm_backend.Requisition.Steps.Laws.{claim-update, claim-create}
use hrm_backend.Requisition.Decision.{
  Plan, settle, act_commit, chro_step, log_action, set_step, sign, turn_down,
}
use hrm_backend.Requisition.Board.{board_commit, vote_commit, board_step, board_answer, chro_signs}

-- A transaction with all that it was given when its handler had made its checks.
pub data Transaction : Type 0 where
  acting : Plan → (new_id now : ℕ) → Transaction
  to_board : (step index new_id now : ℕ) → (actor note names : String) → Transaction
  voting : (step : ℕ) → (approve : Bool) → (reason voter : String) → (now : ℕ) → Transaction

abbrev decides : Transaction → ℕ
decides (acting p new_id now) = p.step
decides (to_board step index new_id now actor note names) = step
decides (voting step approve reason voter now) = step

-- The id that the database gives to a step which the transaction appends.
abbrev appends : Transaction → Option ℕ
appends (acting p new_id now) = some new_id
appends (to_board step index new_id now actor note names) = some new_id
appends (voting step approve reason voter now) = none

abbrev landed : Outcome Requisition → Option Requisition
landed (ok r) = some r
landed (err e) = none

-- The row after the transaction, or none where it was refused and rolled back.
unfoldable pub run : Transaction → Requisition → Option Requisition
run (acting p new_id now) r = landed (act_commit p new_id now r)
run (to_board step index new_id now actor note names) r =
    landed (board_commit step index new_id now actor note names r)
run (voting step approve reason voter now) r = vote_commit step approve reason voter now r

-- A transaction needs its step to be pending still.
needs_claim :
    (t : Transaction) (r : Requisition) → claim_count (decides t) r.steps ≡ 0 → run t r ≡ none
unfolding run act_commit board_commit vote_commit
needs_claim (acting p new_id now) r e = rw e
needs_claim (to_board step index new_id now actor note names) r e = rw e
needs_claim (voting step approve reason voter now) r e = rw e

settled_claim :
    (d : Decision) (p : Plan) (new_id now : ℕ) (r : Requisition) {r' : Requisition}
    → new_id ≢ p.step
    → settle d p new_id now r ≡ ok r'
    → claim_count p.step r'.steps ≡ 0
unfolding settle
settled_claim Decision.approved p new_id now r {r'} h e =
    ground (arith, claim-update p.step (sign p StepStatus.approved now) r.steps (λ s. refl))
settled_claim Decision.send_to_board p new_id now r {r'} h e =
    ground (arith, claim-update p.step (sign p StepStatus.approved now) r.steps (λ s. refl))
settled_claim Decision.rejected p new_id now r {r'} h e =
    ground (arith, claim-update p.step (turn_down p now) r.steps (λ s. refl))
settled_claim Decision.need_more_info p new_id now r h e =
    ground (arith, claim-update p.step (sign p StepStatus.info_requested now) r.steps (λ s. refl))
settled_claim Decision.escalate p new_id now r {r'} h e =
    let (ss, made, done) =
      >>=-eq-ok
        (create_step (chro_step p new_id) (set_step p (sign p StepStatus.approved now) r).steps) _
        e in
    ground (
      arith,
      claim-create p.step (chro_step p new_id) _ ss h made,
      claim-update p.step (sign p StepStatus.approved now) r.steps (λ s. refl),
    )

-- The guard of a transaction passed.
past_guard :
    (b : Bool) (x : Refusal Reason) (m : Outcome Requisition) {r : Requisition}
    → (guard b x >> m) ≡ ok r
    → m ≡ ok r
past_guard true x m e = e
past_guard false x m e = cc

acted_claim :
    (p : Plan) (new_id now : ℕ) (r : Requisition) {r' : Requisition}
    → new_id ≢ p.step
    → act_commit p new_id now r ≡ ok r'
    → claim_count p.step r'.steps ≡ 0
unfolding act_commit
acted_claim p new_id now r h e =
    settled_claim p.decision p new_id now
      (add_activity (record { actor = p.actor; action = log_action p.decision; note = p.note }) r) h
      (past_guard (claim_count p.step r.steps == 1) _ _ e)

boarded_claim :
    (step index new_id now : ℕ) (actor note names : String) (r : Requisition) {r' : Requisition}
    → new_id ≢ step
    → board_commit step index new_id now actor note names r ≡ ok r'
    → claim_count step r'.steps ≡ 0
unfolding board_commit
boarded_claim step index new_id now actor note names r {r'} h e =
    let (ss, made, done) =
      >>=-eq-ok (create_step (board_step new_id index names) _) _
        (past_guard (claim_count step r.steps == 1) _ _ e) in
    ground (
      arith,
      claim-create step (board_step new_id index names) _ ss h made,
      claim-update step (chro_signs actor note now) r.steps (λ s. refl),
    )

voted_claim :
    (step : ℕ) (approve : Bool) (reason voter : String) (now : ℕ) (r : Requisition)
    {r' : Requisition}
    → vote_commit step approve reason voter now r ≡ some r'
    → claim_count step r'.steps ≡ 0
unfolding vote_commit
voted_claim step true reason voter now r {r'} e =
    ground (arith, claim-update step (board_answer true reason voter now) r.steps (λ s. refl))
voted_claim step false reason voter now r {r'} e =
    ground (arith, claim-update step (board_answer false reason voter now) r.steps (λ s. refl))

landed-eq : (m : Outcome Requisition) {r : Requisition} → landed m ≡ some r → m ≡ ok r
landed-eq (ok x) e = cc
landed-eq (err x) e = cc

leaves_none :
    (t : Transaction) (r : Requisition) {r' : Requisition}
    → appends t ≢ some (decides t)
    → run t r ≡ some r'
    → claim_count (decides t) r'.steps ≡ 0
unfolding run
leaves_none (acting p new_id now) r h e =
    acted_claim p new_id now r (λ q. h (ap some q)) (landed-eq _ e)
leaves_none (to_board step index new_id now actor note names) r h e =
    boarded_claim step index new_id now actor note names r (λ q. h (ap some q)) (landed-eq _ e)
leaves_none (voting step approve reason voter now) r h e =
    voted_claim step approve reason voter now r e

-- Of two transactions on one step, whichever of the three kinds each is, only the first to run takes
-- effect: the second is refused, if the first gave a step that it appended an id of its own.
pub one_decision :
    (first second : Transaction) (r r' : Requisition)
    → appends first ≢ some (decides first)
    → decides second ≡ decides first
    → run first r ≡ some r'
    → run second r' ≡ none
one_decision first second r r' h same e = needs_claim second r' (rw same (leaves_none first r h e))
