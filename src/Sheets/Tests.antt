-- ===== src/Sheets/Tests.antt =====
-- A sheet from its sending to the board's answers, and the theorems on it.
use hrm_backend.Prelude.{
  ℕ, ◌+◌, ◌≡◌, refl, true, none, some, is_some, [], ◌∷◌, any, ok, err, Result, arith, trim,
}
use hrm_backend.Sheets.{Stage, Status, Problem, Vote, LinkVote, Tables, World}
use hrm_backend.Sheets.Handlers.{
  Decision, VoteReply, send_sheet, check_sheet, open_sheet_stage, ask, submit_sheet_vote,
  check_sheet_vote, check_link, commit_sheet_vote, settle_vote,
}
use hrm_backend.Sheets.Signed.{chro_yes, board_yes}
use hrm_backend.Sheets.Runs.{Run, begins, sends, answers, approved_sheet_signed}
use hrm_backend.Sheets.Answers.{one_answer}
use hrm_backend.Sheets.Single.{
  latest, check_request, send_for_approval, settle_link, commit_link, submit_vote,
}
use hrm_backend.Sheets.Single.Laws.{
  IsRestarted, link_decided, send_for_approval-IsRestarted, submit_vote-decides,
}
use hrm_backend.Sheets.Decided.{all_decided, board_answer_decides}

abbrev world : ℕ → World
world round = record {
  now = 100;
  may_manage = λ u. true;
  may_manage_candidate = λ u c. true;
  candidates = record { id = 11; unit_factory = "Mill"; is_onboarding = true } ∷ [];
  holders = λ s unit. 6 ∷ [];
  fixed_salary = λ c. some 50000;
  chro_holders = 7 ∷ [];
  users =
      record { id = 7; name = "Chro"; has_email = true }
      ∷ record { id = 8; name = "Member"; has_email = true }
      ∷ record { id = 9; name = "Other"; has_email = true }
      ∷ [];
  issue = λ u. (round + u, round + u + 50);
}

abbrev waiting : Tables
waiting = record {
  approvals =
      record {
        id = 1;
        candidate_id = 11;
        requested_by_id = 3;
        status = Status.pending;
        current_stage = Stage.corporate_hr;
        corporate_hr_id = none;
        chro_id = none;
        board_member_ids = [];
        batch_id = none;
        rejected_reason = none;
        rejected_at = none;
        hr_approved_by_id = none;
        hr_approved_at = none;
        hr_approval_note = none;
        hr_approval_attachment = none;
        sheet_education = none;
        sheet_experience = none;
        sheet_last_org = none;
      }
      ∷ [];
  sheets = [];
  votes = [];
  link_votes = [];
}

-- The links are 100 + 7 + 50 for the CHRO, and 1000 + 8 + 50 and 1000 + 9 + 50 for the board.
sent : Tables
unfolding send_sheet check_sheet open_sheet_stage ask
sent = (send_sheet (world 100) 5 "HAS-2026-0001" (1 ∷ []) 7 (8 ∷ 9 ∷ []) 4 waiting).0

with_board : Tables
unfolding sent submit_sheet_vote check_sheet_vote check_link commit_sheet_vote settle_vote
with_board = (submit_sheet_vote (world 1000) 157 none Decision.approve sent).0

refused : Tables
unfolding with_board
refused = (submit_sheet_vote (world 2000) 1058 (some "Too dear") Decision.reject with_board).0

overruled : Tables
unfolding refused
overruled = (submit_sheet_vote (world 2000) 1059 none Decision.approve refused).0

-- One member has refused the sheet, and another's open link approves it all the same.
still_approved : all_decided 5 Status.approved overruled ≡ true
unfolding overruled all_decided trim
still_approved = refl

was_refused : all_decided 5 Status.rejected refused ≡ true
unfolding refused all_decided trim
was_refused = refl

run : Run overruled
unfolding overruled trim
run = answers (world 2000) 1059 none Decision.approve (
    answers (world 2000) 1058 (some "Too dear") Decision.reject (
      answers (world 1000) 157 none Decision.approve
        (sends (world 100) 5 "HAS-2026-0001" (1 ∷ []) 7 (8 ∷ 9 ∷ []) 4 (begins waiting refl refl))))

approved_sheet_signed_example :
    (any (chro_yes 5) overruled.votes ≡ true) × (any (board_yes 5) overruled.votes ≡ true)
unfolding overruled trim
approved_sheet_signed_example = approved_sheet_signed 5 run refl

board_answer_decides_example : all_decided 5 Status.approved overruled ≡ true
unfolding overruled trim
board_answer_decides_example =
    board_answer_decides (world 2000) 1059 none Decision.approve refused refl refl refl

abbrev chro_link : Vote
chro_link = record {
  id = 107;
  batch_id = 5;
  user_id = 7;
  token_hash = 157;
  token_expires_at = 5184000100;
  stage = Stage.chro;
  status = Status.pending;
  notes = none;
  responded_at = none;
}

one_answer_example :
    commit_sheet_vote
      (world 3000)
      chro_link
      Decision.reject
      (some "No")
      (commit_sheet_vote (world 1000) chro_link Decision.approve none sent).0
    ≡ (
      (commit_sheet_vote (world 1000) chro_link Decision.approve none sent).0,
      ok VoteReply.already_voted,
    )
one_answer_example =
    one_answer (world 1000) chro_link (λ u. ground arith) (world 3000) Decision.approve
      Decision.reject none (some "No") sent

-- The request outside a sheet: asked for anew, while a link of the older one is left.
abbrev member_link : ℕ → ℕ → LinkVote
member_link user token = record {
  id = user + 200;
  approval_id = 1;
  user_id = user;
  token_hash = token;
  token_expires_at = 5000;
  stage = Stage.board;
  status = Status.pending;
  notes = none;
  responded_at = none;
}

abbrev linked : Tables
linked = record waiting { link_votes = member_link 8 308 ∷ member_link 9 309 ∷ [] }

asked : Result Problem Tables
unfolding send_for_approval check_request latest
asked = send_for_approval (world 100) 2 11 3 linked

abbrev asked_tables : Tables
unfolding asked
asked_tables = elim asked [ ok t ↦ t | err _ ↦ waiting ]

asked_runs : send_for_approval (world 100) 2 11 3 linked ≡ ok asked_tables
unfolding asked
asked_runs = refl

send_for_approval-IsRestarted_example :
    IsRestarted 11 3 asked_tables
    × ((world 100).may_manage_candidate 3 11 ≡ true)
    × (is_some ((world 100).fixed_salary 11) ≡ true)
send_for_approval-IsRestarted_example =
    send_for_approval-IsRestarted (world 100) 2 11 3 linked refl asked_runs

rejected_link : Tables
unfolding submit_vote commit_link settle_link trim
rejected_link = (submit_vote (world 100) 308 (some "Too dear") Decision.reject linked).0

-- A member has refused the request, and another's open link approves it all the same.
submit_vote-decides_example :
    (link_decided 1 Status.approved
        (submit_vote (world 100) 309 none Decision.approve rejected_link).0.approvals
      ≡ true)
    × ((submit_vote (world 100) 309 none Decision.approve rejected_link).1 ≡ ok VoteReply.decided)
unfolding rejected_link
submit_vote-decides_example =
    submit_vote-decides (world 100) 309 none Decision.approve rejected_link refl refl refl refl refl

was_rejected : link_decided 1 Status.rejected rejected_link.approvals ≡ true
unfolding rejected_link
was_rejected = refl
