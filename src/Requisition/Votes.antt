-- ===== src/Requisition/Votes.antt =====
-- About the board's votes: the one that decides, and those after it.
pub mod Exact
use hrm_backend.Prelude.{
  ℕ, String, ◌≡◌, refl, ◌≢◌, ◌⊎◌, inl, inr, Bool, true, false, ◌||◌, not, Option, none, some, List,
  [], ◌+++◌, ok, arith, leb, ltb, ◌==◌, if◌then◌else◌, trim, or_else, text_length, Bool-cases,
  guard, bad_request, >>=-eq-ok, Returns, Returns-ok,
}
use hrm_backend.Requisition.Model.{
  Status, Decision, LogAction, BoardVote, Requisition, Effect, link_expired,
}
use hrm_backend.Requisition.Steps.{update_step, claim_count, add_activity}
use hrm_backend.Requisition.Steps.Laws.{open-update}
use hrm_backend.Requisition.Access.{Access, is_approved}
use hrm_backend.Requisition.Profile.{Ai}
use hrm_backend.Requisition.Decision.{finish_decision}
use hrm_backend.Requisition.Board.{
  VoteReply, decided, already_voted, already_decided, find_vote, vote_count, answer_vote,
  is_vote_pending, step_open, board_answer, vote_commit, conclude, cast_vote, vote,
}
use hrm_backend.Requisition.Approval.{finish_steps, finish_approved}

-- Where a vote decided, its step is not open after it.
abbrev Closes : ℕ → VoteReply × (Requisition × List Effect) → Type 0
Closes step x = x.0 ≡ decided → step_open step x.1.0 ≡ false

commit_closes :
    (step : ℕ) (approve : Bool) (reason voter : String) (now : ℕ) (r : Requisition)
    {r' : Requisition}
    → vote_commit step approve reason voter now r ≡ some r'
    → step_open step r' ≡ false
unfolding vote_commit
commit_closes step approve reason voter now r e =
    ground
      (arith, open-update step (board_answer approve reason voter now) r.steps (λ s. ground arith))

module _ (a : Access) (model : Ai) (approve : Bool) where
  conclude-Closes :
      (step : ℕ) (answered : Requisition) (m : Option Requisition)
      → ((r' : Requisition) → m ≡ some r' → step_open step r' ≡ false)
      → Returns (Closes step) (conclude a model approve answered m)
  unfolding conclude
  conclude-Closes step answered none h = λ e. cc
  conclude-Closes step answered (some r') h = λ e.
      rw (finish_steps a model a.now (if approve then Decision.approved else Decision.rejected) r')
        (h r' refl)

  cast-Closes :
      (names : ℕ → String) (r : Requisition) (v : BoardVote) (reason : String)
      → Returns (Closes v.step_id) (cast_vote a model names r v approve reason)
  unfolding cast_vote
  cast-Closes names r v reason = elim (Bool-cases (is_vote_pending v.status)) [
    | inr p ↦ rw p (λ e. cc)
    | inl p ↦ rw p (elim (Bool-cases (step_open v.step_id r)) [
      | inr q ↦ rw q (λ e. cc)
      | inl q ↦ rw q (elim (Bool-cases (approve || leb 2 (text_length reason))) [
        | inr x ↦ rw x tt
        | inl x ↦ rw x (elim (Bool-cases (vote_count v.id r.votes == 1)) [
          | inr y ↦ rw y (λ e. cc)
          | inl y ↦ rw y (
              conclude-Closes v.step_id _ _
                (λ r' e. commit_closes v.step_id approve reason (names v.user_id) a.now _ e))
        ])
      ])
    ])
  ]

  cast_on_closed :
      (names : ℕ → String) (r : Requisition) (v : BoardVote) (reason : String)
      → step_open v.step_id r ≡ false
      → (cast_vote a model names r v approve reason ≡ ok (already_voted, (r, [])))
        ⊎ (cast_vote a model names r v approve reason ≡ ok (already_decided, (r, [])))
  unfolding cast_vote
  cast_on_closed names r v reason shut = elim (Bool-cases (is_vote_pending v.status)) [
    | inr p ↦ inl (rw p refl)
    | inl p ↦ inr (rw (p, shut) refl)
  ]

  vote_as_cast :
      (names : ℕ → String) (r : Requisition) (hash : ℕ) (remark : Option String) (v : BoardVote)
      {x : VoteReply × (Requisition × List Effect)}
      → find_vote hash r ≡ some v
      → vote a model names r hash approve remark ≡ ok x
      → cast_vote a model names r v approve (trim (or_else remark "")) ≡ ok x
  unfolding vote
  vote_as_cast names r hash remark v found e =
      let (u, live, done) =
        >>=-eq-ok (guard (not (ltb v.token_expires_at a.now)) (bad_request link_expired)) _
          (rw found at e) in
      done

-- The first answer decides: once a vote has decided a requisition, no later vote on the same step
-- decides it, and such a vote changes nothing and sends nothing.
pub first_answer_decides :
    (a b : Access) (model : Ai) (names : ℕ → String) (r : Requisition) (first second : ℕ)
    (approve approve' : Bool) (remark remark' : Option String) (v v' : BoardVote)
    {r' r'' : Requisition} {sent sent' : List Effect} {reply : VoteReply}
    → find_vote first r ≡ some v
    → vote a model names r first approve remark ≡ ok (decided, (r', sent))
    → find_vote second r' ≡ some v'
    → v'.step_id ≡ v.step_id
    → vote b model names r' second approve' remark' ≡ ok (reply, (r'', sent'))
    → (reply ≢ decided) × (r'' ≡ r') × (sent' ≡ [])
first_answer_decides a b model names r first second approve approve' remark remark' v v' {r'} found
      e found' same e' =
    let shut : step_open v.step_id r' ≡ false =
      Returns-ok (Closes v.step_id) (cast_vote a model names r v approve (trim (or_else remark "")))
        (cast-Closes a model approve names r v (trim (or_else remark "")))
        (vote_as_cast a model approve names r first remark v found e) refl in
    let done = vote_as_cast b model approve' names r' second remark' v' found' e' in
    elim (cast_on_closed b model approve' names r' v' (trim (or_else remark' "")) (rw same shut)) [
      | inl q ↦ ((λ z. cc), cc, cc)
      | inr q ↦ ((λ z. cc), cc, cc)
    ]
