-- ===== src/Requisition/Finality.antt =====
-- The requests on a requisition that is past its chain.
use hrm_backend.Prelude.{
  ℕ, String, ◌≡◌, ◌∙◌, true, some, List, [], ok, arith, >>=-eq-ok, or_else, trim,
}
use hrm_backend.Requisition.Model.{Decision, Requisition, Actor, Effect}
use hrm_backend.Requisition.Steps.Current.{current-not_AllSettled}
use hrm_backend.Requisition.Access.{Access, load, is_approved}
use hrm_backend.Requisition.Access.Laws.{load-eq}
use hrm_backend.Requisition.Profile.{Ai}
use hrm_backend.Requisition.Decision.{act}
use hrm_backend.Requisition.Return.{resubmit}
use hrm_backend.Requisition.Board.{Member, require_chro_step, send_to_board}
use hrm_backend.Requisition.Lifecycle.{
  World, ApprovalAction, Request, approval, resubmission, job_analysis, return_to_raiser, resend,
  generate_profile, edit_profile, posting, cv_sources, recruiter, approve_route, handle,
}
use hrm_backend.Requisition.Invariant.{WellFormed}
use hrm_backend.Requisition.Invariant.Handlers.{
  KeepsChain, return-KeepsChain, resend-KeepsChain, save-KeepsChain, generate-KeepsChain,
  edit-KeepsChain, post-KeepsChain, cv_sources-KeepsChain, assign-KeepsChain,
}
use hrm_backend.Requisition.Invariant.Returns.{resubmit-Resubmitted}
use hrm_backend.Requisition.Invariant.BoardSteps.{chro_step-IsLastOpen}
use hrm_backend.Requisition.Approval.{act_authorised}

module _ (a : Access) (model : Ai) (r : Requisition) (w : WellFormed r)
    (over : is_approved r.status ≡ true) where
  act_is_over :
      (d : Decision) (note : String) (actor : Actor) (new_id : ℕ) {r' : Requisition}
      {sent : List Effect}
      → act a model r d note actor new_id ≡ ok (r', sent)
      → ⊥
  act_is_over d note actor new_id e =
      let (i, c, found, p, q, x, y, z) = act_authorised a model r d note actor new_id e in
      current-not_AllSettled i c r.steps found (w.settled over)

  send_is_over :
      (board : List Member) (ids : List ℕ) (note : String) (actor : Actor) (new_id : ℕ)
      (keys : List (ℕ × ℕ)) {r' : Requisition} {sent : List Effect}
      → send_to_board a model board r ids note actor new_id keys ≡ ok (r', sent)
      → ⊥
  unfolding send_to_board
  send_is_over board ids note actor new_id keys e =
      let (q, opened, rest) = >>=-eq-ok (load a (some r) (some actor.id)) _ e in
      let (c, chro, rest) = >>=-eq-ok (require_chro_step a q actor.id) _ rest in
      let o = chro_step-IsLastOpen a q actor.id chro in
      let same : q ≡ r = load-eq a r actor.id opened in
      current-not_AllSettled o.index o.current q.steps o.is_current (rw same (w.settled over))

  resubmit_is_over :
      (actor : Actor) {r' : Requisition} {sent : List Effect}
      → resubmit a r actor ≡ ok (r', sent)
      → ⊥
  resubmit_is_over actor e =
      let h = resubmit-Resubmitted a r actor e in ground (arith, h.awaiting, over)

still_over :
    (r r' : Requisition)
    → KeepsChain r r'
    → is_approved r.status ≡ true
    → (is_approved r'.status ≡ true) × (r'.steps ≡ r.steps)
still_over r r' k over = (k.stage ∙ over, k.steps)

approve_is_over :
    (w : World) (r : Requisition) (d : Decision) (dto : ApprovalAction) (actor : Actor) (new_id : ℕ)
    (keys : List (ℕ × ℕ)) {r' : Requisition} {sent : List Effect}
    → WellFormed r
    → is_approved r.status ≡ true
    → approve_route w r d dto actor new_id keys ≡ ok (r', sent)
    → ⊥
unfolding approve_route
approve_is_over w r Decision.approved dto actor new_id keys h over e =
    act_is_over w.access w.model r h over Decision.approved (or_else dto.note "") actor new_id e
approve_is_over w r Decision.rejected dto actor new_id keys h over e =
    act_is_over w.access w.model r h over Decision.rejected (or_else dto.note "") actor new_id e
approve_is_over w r Decision.need_more_info dto actor new_id keys h over e =
    act_is_over w.access w.model r h over Decision.need_more_info (or_else dto.note "") actor new_id
      e
approve_is_over w r Decision.escalate dto actor new_id keys h over e =
    act_is_over w.access w.model r h over Decision.escalate (or_else dto.note "") actor new_id e
approve_is_over w r Decision.send_to_board dto actor new_id keys h over e =
    send_is_over w.access w.model r h over w.board (or_else dto.board_member_ids [])
      (trim (or_else dto.note "")) actor new_id keys e

-- An approval is never undone: a requisition past its chain that keeps the invariant stays past it
-- with the same steps, whatever request succeeds on it.
pub approval_is_final :
    (w : World) (r : Requisition) (request : Request) (actor : Actor) {r' : Requisition}
    {sent : List Effect}
    → WellFormed r
    → is_approved r.status ≡ true
    → handle w r request actor ≡ ok (r', sent)
    → (is_approved r'.status ≡ true) × (r'.steps ≡ r.steps)
unfolding handle
approval_is_final w r (approval dto new_id keys) actor h over e =
    absurd (approve_is_over w r dto.decision dto actor new_id keys h over e)
approval_is_final w r resubmission actor h over e =
    absurd (resubmit_is_over w.access w.model r h over actor e)
approval_is_final w r (job_analysis dto) actor {r'} h over e =
    still_over r r' (save-KeepsChain w.access r actor dto e) over
approval_is_final w r (return_to_raiser note) actor {r'} h over e =
    still_over r r' (return-KeepsChain w.access r actor note e) over
approval_is_final w r resend actor {r'} h over e =
    still_over r r' (resend-KeepsChain w.access r actor e) over
approval_is_final w r generate_profile actor {r'} h over e =
    still_over r r' (generate-KeepsChain w.access r actor w.model e) over
approval_is_final w r (edit_profile dto) actor {r'} h over e =
    still_over r r' (edit-KeepsChain w.access r actor dto e) over
approval_is_final w r (posting date) actor {r'} h over e =
    still_over r r' (post-KeepsChain w.access r actor date e) over
approval_is_final w r (cv_sources sources) actor {r'} h over e =
    still_over r r' (cv_sources-KeepsChain w.access r actor sources e) over
approval_is_final w r (recruiter user) actor {r'} h over e =
    still_over r r' (assign-KeepsChain w.access r actor w.users user e) over
