-- ===== src/Requisition/BoardTests.antt =====
-- Runs of the board's votes and of competing transactions, and their theorems at sample data.
use hrm_backend.Prelude.{
  ℕ, String, ◌≡◌, refl, ◌≢◌, ◌↔◌, or_else, true, false, Option, none, some, List, [], ◌∷◌, ok,
  arith, trim,
}
use hrm_backend.Requisition.Model.{
  Status, StepStatus, ApprovalRole, Decision, BoardVote, Requisition, Effect,
}
use hrm_backend.Requisition.Steps.{first_pending, update_step, claim_count}
use hrm_backend.Requisition.Decision.{Plan, act_commit, settle, finish_decision}
use hrm_backend.Requisition.Board.{
  VoteReply, decided, already_decided, find_vote, vote_count, answer_vote, vote_commit, conclude,
  cast_vote, vote,
}
use hrm_backend.Requisition.Invariant.{WellFormed}
use hrm_backend.Requisition.Invariant.BoardSteps.{IsLastOpen, vote-WellFormed}
use hrm_backend.Requisition.Race.{acting, voting, run, one_decision}
use hrm_backend.Requisition.Votes.{first_answer_decides}
use hrm_backend.Requisition.Votes.Exact.{OneRowEach, Verdict, may_decide, vote_decides_iff}
use hrm_backend.Requisition.Samples.{
  everybody, step, sample, no_ai, open_vote, with_board, vote_row, vote_sent,
}

-- Two board members are asked about the requisition's only step.
abbrev asked : Requisition
asked = sample Status.pending_approval with_board (open_vote 1 12 71 ∷ open_vote 2 12 72 ∷ [])

abbrev names : ℕ → String
names u = "Member"

abbrev first_run : VoteReply × (Requisition × List Effect) → Requisition
first_run x = x.1.0

voting_runs :
    vote everybody no_ai names asked 71 true none
    ≡ ok (
      decided,
      (
        vote_row (vote everybody no_ai names asked 71 true none),
        vote_sent (vote everybody no_ai names asked 71 true none),
      ),
    )
unfolding vote cast_vote find_vote vote_count vote_commit conclude claim_count finish_decision trim
voting_runs = refl

found_vote : find_vote 71 asked ≡ some (open_vote 1 12 71)
unfolding find_vote
found_vote = refl

on_last : (v : BoardVote) → find_vote 71 asked ≡ some v → IsLastOpen asked v.step_id
unfolding find_vote first_pending
on_last v e = record {
  index = 0;
  current = step 12 0 (some ApprovalRole.board) none StepStatus.pending;
  is_current = refl;
  is_step = cc;
  free = refl;
  last = refl;
}

asked-WellFormed : WellFormed asked
asked-WellFormed = record {
  numbered = (refl, tt);
  distinct = (tt, tt);
  in_order = tt;
  settled = λ h. cc;
}

vote-WellFormed_example : WellFormed (vote_row (vote everybody no_ai names asked 71 true none))
vote-WellFormed_example =
    vote-WellFormed everybody no_ai names asked 71 true none on_last asked-WellFormed voting_runs

asked-OneRowEach : OneRowEach asked.votes
asked-OneRowEach = (((omega arith), tt), (tt, tt))

vote_decides_iff_example :
    (may_decide everybody.now (open_vote 1 12 71) asked true (trim (or_else none "")) ≡ true) ↔ (
      (r' : Requisition) × (sent : List Effect) × (vote everybody no_ai names asked 71 true none
        ≡ ok (decided, (r', sent)))
      × Verdict true r')
vote_decides_iff_example =
    vote_decides_iff everybody no_ai names asked 71 true none (open_vote 1 12 71)
      asked-WellFormed.distinct asked-OneRowEach found_vote

-- The second member answers after the first.
abbrev answered : Requisition
answered = vote_row (vote everybody no_ai names asked 71 true none)

later_found : find_vote 72 answered ≡ some (open_vote 2 12 72)
unfolding vote cast_vote find_vote vote_count vote_commit conclude claim_count finish_decision
    answer_vote trim
later_found = refl

later_runs :
    vote everybody no_ai names answered 72 false (some "No need")
    ≡ ok (
      already_decided,
      (
        vote_row (vote everybody no_ai names answered 72 false (some "No need")),
        vote_sent (vote everybody no_ai names answered 72 false (some "No need")),
      ),
    )
unfolding vote cast_vote find_vote vote_count vote_commit conclude claim_count update_step
    finish_decision answer_vote trim
later_runs = refl

first_answer_decides_example :
    (already_decided ≢ decided)
    × (vote_row (vote everybody no_ai names answered 72 false (some "No need")) ≡ answered)
    × (vote_sent (vote everybody no_ai names answered 72 false (some "No need")) ≡ [])
first_answer_decides_example =
    first_answer_decides everybody everybody no_ai names asked 71 72 true false none
      (some "No need") (open_vote 1 12 71) (open_vote 2 12 72) found_vote voting_runs later_found
      refl later_runs

abbrev sign_off : Plan
sign_off = record {
  step = 12;
  index = 0;
  count = 1;
  decision = Decision.approved;
  note = "";
  actor = "Karim";
  chro_assignee = "";
}

abbrev row_or_asked : Option Requisition → Requisition
row_or_asked none = asked
row_or_asked (some r) = r

signing_runs :
    run (acting sign_off 99 1000) asked ≡ some (row_or_asked (run (acting sign_off 99 1000) asked))
unfolding run act_commit settle claim_count
signing_runs = refl

-- A board member votes on the step that a super user signed in the meantime.
one_decision_example :
    run (voting 12 true "" "Member" 1000) (row_or_asked (run (acting sign_off 99 1000) asked))
    ≡ none
one_decision_example =
    one_decision (acting sign_off 99 1000) (voting 12 true "" "Member" 1000) asked
      (row_or_asked (run (acting sign_off 99 1000) asked)) (λ e. absurd (ground arith)) refl
      signing_runs
