-- ===== src/Requisition/Board.antt =====
-- The board after the CHRO: sending a requisition to its members, and their emailed votes
-- (requisition-board.service.ts).
use hrm_backend.Prelude.{
  ℕ, ◌-◌, ◌+◌, ◌*◌, String, Bool, true, false, ◌&&◌, ◌||◌, not, Option, none, some, List, [], ◌∷◌,
  ◌++◌, map, keep, find, any, is_nil, includes, distinct, ltb, leb, ◌==◌, if◌then◌else◌, length,
  nonempty, trim, text_length, text_take, or_null, or_else, join, ◌+++◌, ok, guard, or_throw, ◌>>=◌,
  ◌>>◌, bad_request, forbidden, not_found,
}
use hrm_backend.Requisition.Model.{
  Status, StepStatus, ApprovalRole, Decision, LogAction, VoteStatus, Step, BoardVote, Requisition,
  Actor, Outcome, Reply, Effect, sent_back, already_actioned, not_chro_step, not_chro, no_member,
  not_board_member, member_without_email, link_invalid, link_expired, reason_missing,
}
use hrm_backend.Requisition.Steps.{
  first_pending, parked, is_pending, update_step, claim_count, create_step, add_activity,
}
use hrm_backend.Requisition.Access.{Access, can_act_on_step, load}
use hrm_backend.Requisition.Profile.{Ai}
use hrm_backend.Requisition.Decision.{finish_decision}

-- A user of a board group, as `boardGroupMember` and `user` give it.
pub record Member : Type 0 where
  pub id : ℕ
  pub name : String
  pub email : Option String
  pub is_active : Bool

abbrev pub vote_ttl_ms : ℕ
vote_ttl_ms = 14 * 86_400_000

abbrev is_chro : Option ApprovalRole → Bool
is_chro (some ApprovalRole.chro) = true
is_chro _ = false

-- The pending CHRO step that this user may act on.
unfoldable pub require_chro_step : Access → Requisition → ℕ → Outcome Step
require_chro_step a r user = do
  guard (not (parked r.steps)) (bad_request sent_back)
  found ← or_throw (first_pending r.steps) (bad_request not_chro_step)
  guard (is_chro found.1.role && found.0 == length r.steps - 1) (bad_request not_chro_step)
  guard (can_act_on_step a found.1 r.unit_factory user) (forbidden not_chro)
  ok found.1

-- The members chosen, in the order of the users' table: on a board, and active.
abbrev pub chosen : List Member → List ℕ → List Member
chosen board ids = keep (λ m. m.is_active && includes m.id ids) board

-- The tokens of the links and the ids of the vote rows are made outside: one pair for each member.
pub cast_votes : ℕ → ℕ → List Member → List (ℕ × ℕ) → List BoardVote
cast_votes step expires [] keys = []
cast_votes step expires (m ∷ ms) [] = []
cast_votes step expires (m ∷ ms) ((id, hash) ∷ keys) =
    record {
      id = id;
      step_id = step;
      user_id = m.id;
      token_hash = hash;
      token_expires_at = expires;
      status = VoteStatus.pending;
      notes = none;
      responded_at = none;
    }
    ∷ cast_votes step expires ms keys

abbrev pub board_step : ℕ → ℕ → String → Step
board_step new_id index names = record {
  id = new_id;
  order_index = index;
  role = some ApprovalRole.board;
  approver_user_id = none;
  title = "Board";
  subtitle = "Board approval by email";
  assignee = text_take 150 names;
  status = StepStatus.pending;
  note = "";
  acted_at = none;
}

abbrev pub chro_signs : String → String → ℕ → Step → Step
chro_signs actor note now s = record s {
  status = StepStatus.approved;
  assignee = actor;
  note = note;
  acted_at = some now;
}

-- The transaction: claim and sign the CHRO's step, log, and append the board's. `index` is the
-- number of steps that the row had when it was read.
unfoldable pub board_commit :
    ℕ → ℕ → ℕ → ℕ → String → String → String → Requisition → Outcome Requisition
board_commit step index new_id now actor note names r = do
  guard (claim_count step r.steps == 1) (bad_request already_actioned)
  steps ←
      create_step (board_step new_id index names)
        (update_step step (chro_signs actor note now) r.steps)
  ok (
      add_activity
        (record {
          actor = actor;
          action = LogAction.escalated;
          note =
              "Sent to the Board ("
              +++ names
              +++ ")"
              +++ (if nonempty note then " — " +++ note else "");
        })
        (record r { steps = steps }))

unfoldable pub send_to_board :
    Access → Ai → List Member → Requisition → List ℕ → String → Actor → ℕ → List (ℕ × ℕ) → Reply
send_to_board a model board row member_ids note actor new_id keys = do
  r ← load a (some row) (some actor.id)
  current ← require_chro_step a r actor.id
  let ids = distinct member_ids
  guard (not (is_nil ids)) (bad_request no_member)
  let members = chosen board ids
  guard (length members == length ids) (bad_request not_board_member)
  guard (not (any (λ m. not (nonempty (or_else m.email ""))) members))
      (bad_request member_without_email)
  r' ←
      board_commit current.id (length r.steps) new_id a.now actor.name note
        (join ", " (map (λ (m : Member). m.name) members)) r
  let voted = record r' { votes = r'.votes ++ cast_votes new_id (a.now + vote_ttl_ms) members keys }
  ok (finish_decision a model a.now Decision.escalate voted)

unfoldable pub find_vote : ℕ → Requisition → Option BoardVote
find_vote hash r = find (λ v. v.token_hash == hash) r.votes

abbrev pub is_vote_pending : VoteStatus → Bool
is_vote_pending VoteStatus.pending = true
is_vote_pending _ = false

-- The votes still open under an id, as `updateMany` counts them.
unfoldable pub vote_count : ℕ → List BoardVote → ℕ
vote_count id votes = length (keep (λ v. v.id == id && is_vote_pending v.status) votes)

unfoldable pub answer_vote : ℕ → Bool → String → ℕ → List BoardVote → List BoardVote
answer_vote id approve reason now votes =
    map
      (λ v.
        if v.id == id && is_vote_pending v.status
        then record v {
          status = if approve then VoteStatus.approved else VoteStatus.rejected;
          notes = or_null reason;
          responded_at = some now;
        }
        else v)
      votes

abbrev pub board_answer : Bool → String → String → ℕ → Step → Step
board_answer approve reason voter now s = record s {
  status = if approve then StepStatus.approved else StepStatus.rejected;
  assignee = voter;
  note = reason;
  acted_at = some now;
}

-- The deciding transaction of a vote: claim the step, or find that somebody else decided.
unfoldable pub vote_commit : ℕ → Bool → String → String → ℕ → Requisition → Option Requisition
vote_commit step approve reason voter now r =
    if claim_count step r.steps == 1
    then some (
        add_activity
          (record {
            actor = voter +++ " (Board)";
            action = if approve then LogAction.approved else LogAction.rejected;
            note = reason;
          })
          (record r {
            steps = update_step step (board_answer approve reason voter now) r.steps;
            status = if approve then Status.approved else Status.rejected;
          }))
    else none

pub data VoteReply : Type 0 where
  decided already_voted already_decided : VoteReply

-- The step that a vote decides still stands open.
abbrev pub step_open : ℕ → Requisition → Bool
step_open step r = any (λ s. s.id == step && is_pending s.status) r.steps

-- What follows the deciding transaction: nothing where somebody else decided first.
unfoldable pub conclude :
    Access
    → Ai
    → Bool
    → Requisition
    → Option Requisition
    → Outcome (VoteReply × (Requisition × List Effect))
conclude a model approve answered none = ok (already_decided, (answered, []))
conclude a model approve answered (some r) = ok (
  decided,
  finish_decision a model a.now (if approve then Decision.approved else Decision.rejected) r,
)

unfoldable pub cast_vote :
    Access
    → Ai
    → (ℕ → String)
    → Requisition
    → BoardVote
    → Bool
    → String
    → Outcome (VoteReply × (Requisition × List Effect))
cast_vote a model name_of r v approve reason =
    if not (is_vote_pending v.status)
    then ok (already_voted, (r, []))
    else if not (step_open v.step_id r)
    then ok (already_decided, (r, []))
    else do
      guard (approve || leb 2 (text_length reason)) (bad_request reason_missing)
      if not (vote_count v.id r.votes == 1)
          then ok (already_voted, (r, []))
          else let answered = record r { votes = answer_vote v.id approve reason a.now r.votes } in
            conclude a model approve answered
              (vote_commit v.step_id approve reason (name_of v.user_id) a.now answered)

-- `approve` is the decision; `name_of` gives the voter's name.
unfoldable pub vote :
    Access
    → Ai
    → (ℕ → String)
    → Requisition
    → ℕ
    → Bool
    → Option String
    → Outcome (VoteReply × (Requisition × List Effect))
vote a model name_of r hash approve note = do
  v ← or_throw (find_vote hash r) (not_found link_invalid)
  guard (not (ltb v.token_expires_at a.now)) (bad_request link_expired)
  cast_vote a model name_of r v approve (trim (or_else note ""))
