-- ===== src/Requisition/Lifecycle/Reachable.antt =====
-- The invariant under every request, and the rows that requests lead to.
use hrm_backend.Prelude.{ℕ, String, ◌≡◌, Bool, Option, some, List, [], ok, trim, or_else}
use hrm_backend.Requisition.Model.{Decision, BoardVote, Requisition, Actor, Effect}
use hrm_backend.Requisition.Steps.Laws.{Fresh}
use hrm_backend.Requisition.Board.{VoteReply, find_vote, vote}
use hrm_backend.Requisition.Invariant.{WellFormed}
use hrm_backend.Requisition.Invariant.Decisions.{act-WellFormed}
use hrm_backend.Requisition.Invariant.Handlers.{
  KeepsChain-WellFormed, return-KeepsChain, resend-KeepsChain, save-KeepsChain, generate-KeepsChain,
  edit-KeepsChain, post-KeepsChain, cv_sources-KeepsChain, assign-KeepsChain,
}
use hrm_backend.Requisition.Invariant.Returns.{resubmit-Resubmitted, Resubmitted-WellFormed}
use hrm_backend.Requisition.Invariant.BoardSteps.{
  IsLastOpen, send_to_board-WellFormed, vote-WellFormed,
}
use hrm_backend.Requisition.Lifecycle.{
  World, ApprovalAction, Request, approval, resubmission, job_analysis, return_to_raiser, resend,
  generate_profile, edit_profile, posting, cv_sources, recruiter, approve_route, handle,
}

-- The id that a request's new step would get, where it may append one, is new to the chain.
abbrev IdIsNew : Request → Requisition → Type 0
IdIsNew (approval dto new_id keys) r = Fresh new_id r.steps
IdIsNew _ r = Unit

approve_route-WellFormed :
    (w : World) (r : Requisition) (d : Decision) (dto : ApprovalAction) (actor : Actor) (new_id : ℕ)
    (keys : List (ℕ × ℕ)) {r' : Requisition} {sent : List Effect}
    → WellFormed r
    → Fresh new_id r.steps
    → approve_route w r d dto actor new_id keys ≡ ok (r', sent)
    → WellFormed r'
unfolding approve_route
approve_route-WellFormed w r Decision.approved dto actor new_id keys h fresh e =
    act-WellFormed w.access w.model r Decision.approved (or_else dto.note "") actor new_id h fresh e
approve_route-WellFormed w r Decision.rejected dto actor new_id keys h fresh e =
    act-WellFormed w.access w.model r Decision.rejected (or_else dto.note "") actor new_id h fresh e
approve_route-WellFormed w r Decision.need_more_info dto actor new_id keys h fresh e =
    act-WellFormed w.access w.model r Decision.need_more_info (or_else dto.note "") actor new_id h
      fresh e
approve_route-WellFormed w r Decision.escalate dto actor new_id keys h fresh e =
    act-WellFormed w.access w.model r Decision.escalate (or_else dto.note "") actor new_id h fresh e
approve_route-WellFormed w r Decision.send_to_board dto actor new_id keys h fresh e =
    send_to_board-WellFormed w.access w.model w.board r (or_else dto.board_member_ids [])
      (trim (or_else dto.note "")) actor new_id keys h fresh e

-- A request that succeeds keeps the invariant, if the id of a step that it appends is a new one.
pub handle-WellFormed :
    (w : World) (r : Requisition) (request : Request) (actor : Actor) {r' : Requisition}
    {sent : List Effect}
    → WellFormed r
    → IdIsNew request r
    → handle w r request actor ≡ ok (r', sent)
    → WellFormed r'
unfolding handle
handle-WellFormed w r (approval dto new_id keys) actor h fresh e =
    approve_route-WellFormed w r dto.decision dto actor new_id keys h fresh e
handle-WellFormed w r resubmission actor {r'} h fresh e =
    Resubmitted-WellFormed w.access actor r r' (resubmit-Resubmitted w.access r actor e) h
handle-WellFormed w r (job_analysis dto) actor {r'} h fresh e =
    KeepsChain-WellFormed r r' (save-KeepsChain w.access r actor dto e) h
handle-WellFormed w r (return_to_raiser note) actor {r'} h fresh e =
    KeepsChain-WellFormed r r' (return-KeepsChain w.access r actor note e) h
handle-WellFormed w r resend actor {r'} h fresh e =
    KeepsChain-WellFormed r r' (resend-KeepsChain w.access r actor e) h
handle-WellFormed w r generate_profile actor {r'} h fresh e =
    KeepsChain-WellFormed r r' (generate-KeepsChain w.access r actor w.model e) h
handle-WellFormed w r (edit_profile dto) actor {r'} h fresh e =
    KeepsChain-WellFormed r r' (edit-KeepsChain w.access r actor dto e) h
handle-WellFormed w r (posting date) actor {r'} h fresh e =
    KeepsChain-WellFormed r r' (post-KeepsChain w.access r actor date e) h
handle-WellFormed w r (cv_sources sources) actor {r'} h fresh e =
    KeepsChain-WellFormed r r' (cv_sources-KeepsChain w.access r actor sources e) h
handle-WellFormed w r (recruiter user) actor {r'} h fresh e =
    KeepsChain-WellFormed r r' (assign-KeepsChain w.access r actor w.users user e) h

-- The rows that a row may become: each request meets a world of its own, and a vote's step is
-- the current one and the last.
pub data Leads (r : Requisition) : Requisition → Type 0 where
  stays : Leads r r
  handles :
      (w : World) (q : Requisition) (request : Request) (actor : Actor) (q' : Requisition)
      (sent : List Effect)
      → Leads r q
      → IdIsNew request q
      → handle w q request actor ≡ ok (q', sent)
      → Leads r q'
  votes :
      (w : World) (names : ℕ → String) (q : Requisition) (hash : ℕ) (approve : Bool)
      (remark : Option String) (reply : VoteReply) (q' : Requisition) (sent : List Effect)
      → Leads r q
      → ((v : BoardVote) → find_vote hash q ≡ some v → IsLastOpen q v.step_id)
      → vote w.access w.model names q hash approve remark ≡ ok (reply, (q', sent))
      → Leads r q'

-- Whatever requests come, in whatever order and in whatever worlds, a requisition that kept the
-- invariant keeps it, where each appended step has a new id and each vote is on a step that is the
-- current one and the last.
pub reachable-WellFormed :
    (r : Requisition) {r' : Requisition} → WellFormed r → Leads r r' → WellFormed r'
reachable-WellFormed r h stays = h
reachable-WellFormed r h (handles w q request actor q' sent before fresh e) =
    handle-WellFormed w q request actor (reachable-WellFormed r h before) fresh e
reachable-WellFormed r h (votes w names q hash approve remark reply q' sent before open_step e) =
    vote-WellFormed w.access w.model names q hash approve remark open_step
      (reachable-WellFormed r h before) e
