-- ===== src/Sheets/Single.antt =====
-- One candidate's request outside a sheet: sendForApproval, hrApprove, openStage and submitVote
-- (src/modules/board/board.service.ts).
pub mod Laws
use hrm_backend.Prelude.{
  ℕ, ◌+◌, String, Bool, true, false, ◌&&◌, ◌||◌, not, Option, none, some, List, [], ◌∷◌, ◌++◌, map,
  keep, any, find, ◌==◌, ltb, is_id, is_nil, is_some, includes, if◌then◌else◌, Result, ok, err,
  guard, or_throw, ◌>>=◌, ◌>>◌, bad_request, forbidden, not_found, nonempty, trim, or_else,
}
use hrm_backend.Sheets.{
  Stage, Status, Problem, Approval, LinkVote, Tables, User, Vote, World, Candidate, is_pending,
  is_approved, same_stage, not_allowed, attachment_missing, attachment_not_stored,
  candidate_missing, not_onboarding, no_holder, already_approved, already_on_sheet, link_of_sheet,
  salary_not_fixed, no_recipient, approval_missing, no_member, link_invalid, link_expired,
  reason_missing,
}
use hrm_backend.Sheets.Handlers.{token_valid, Decision, status_of, is_reject, trimmed, VoteReply}

abbrev pub is_of_candidate : ℕ → Approval → Bool
is_of_candidate id a = a.candidate_id == id

-- `findFirst({ where: { candidateId }, orderBy: { createdAt: 'desc' } })`
unfoldable pub latest : ℕ → List Approval → Option Approval
latest candidate [] = none
latest candidate (a ∷ as_) =
    let later = latest candidate as_ in
    if is_some later then later else if is_of_candidate candidate a then some a else none

abbrev pub update_approval : ℕ → (Approval → Approval) → List Approval → List Approval
update_approval id f = map (λ (a : Approval). if a.id == id then f a else a)

abbrev pub is_link_of : ℕ → LinkVote → Bool
is_link_of approval v = v.approval_id == approval

-- The link that follows a stage.
abbrev next_stage : Stage → Option Stage
next_stage Stage.corporate_hr = some Stage.chro
next_stage Stage.chro = some Stage.board
next_stage Stage.board = none

abbrev pub asked_again : ℕ → Approval → Approval
asked_again by a = record a {
  requested_by_id = by;
  status = Status.pending;
  current_stage = Stage.corporate_hr;
  corporate_hr_id = none;
  chro_id = none;
  board_member_ids = [];
  batch_id = none;
  rejected_reason = none;
  rejected_at = none;
}

abbrev pub new_approval : (id : ℕ) → ℕ → ℕ → Approval
new_approval id candidate by = record {
  id = id;
  candidate_id = candidate;
  requested_by_id = by;
  status = Status.pending;
  current_stage = Stage.corporate_hr;
  corporate_hr_id = none;
  chro_id = none;
  board_member_ids = [];
  batch_id = none;
  rejected_reason = none;
  rejected_at = none;
  hr_approved_by_id = none;
  hr_approved_at = none;
  hr_approval_note = none;
  hr_approval_attachment = none;
  sheet_education = none;
  sheet_experience = none;
  sheet_last_org = none;
}

abbrev blocked : Option Approval → Result Problem (Unit {0})
blocked none = ok tt
blocked (some a) = do
  guard (not (is_approved a.status)) (bad_request already_approved)
  guard (not (is_pending a.status && is_some a.batch_id)) (bad_request already_on_sheet)

abbrev pub requested : (id : ℕ) → ℕ → ℕ → Option Approval → Tables → Tables
requested id candidate by none t = record t {
  approvals = t.approvals ++ new_approval id candidate by ∷ [];
}
requested id candidate by (some a) t = record t {
  approvals = update_approval a.id (asked_again by) t.approvals;
  link_votes = keep (λ v. not (is_link_of a.id v)) t.link_votes;
}

module _ (w : World) where
  -- The checks of sendForApproval.
  unfoldable pub check_request : ℕ → ℕ → Tables → Result Problem (Unit {0})
  check_request candidate by t = do
    guard (w.may_manage_candidate by candidate) (forbidden not_allowed)
    c ←
        or_throw (find (λ (c : Candidate). c.id == candidate) w.candidates)
          (not_found candidate_missing)
    guard c.is_onboarding (bad_request not_onboarding)
    guard (is_some (w.fixed_salary candidate)) (bad_request salary_not_fixed)
    guard (not (is_nil (w.holders Stage.corporate_hr c.unit_factory))) (bad_request no_holder)
    blocked (latest candidate t.approvals)

  -- `id` is the new row's.
  unfoldable pub send_for_approval : (id : ℕ) → ℕ → ℕ → Tables → Result Problem Tables
  unfolding check_request latest
  send_for_approval id candidate by t = do
    check_request candidate by t
    ok (requested id candidate by (latest candidate t.approvals) t)

  abbrev approved_by_hr : ℕ → Option String → String → Approval → Approval
  approved_by_hr user note file a = record a {
    status = Status.approved;
    hr_approved_by_id = some user;
    hr_approved_at = some w.now;
    hr_approval_note = note;
    hr_approval_attachment = some file;
  }

  -- `file` is the attachment, and `stored` says whether Drive took it.
  unfoldable pub hr_approve :
      (id : ℕ)
      → ℕ
      → ℕ
      → Option String
      → Option String
      → (stored : Bool) → Tables
      → Result Problem Tables
  hr_approve id candidate user note file stored t = do
    name ← or_throw file (bad_request attachment_missing)
    c ←
        or_throw (find (λ (c : Candidate). c.id == candidate) w.candidates)
          (not_found candidate_missing)
    guard (w.may_manage_candidate user candidate) (forbidden not_allowed)
    guard c.is_onboarding (bad_request not_onboarding)
    guard stored (bad_request attachment_not_stored)
    ok (elim (find (is_of_candidate candidate) t.approvals) [
      | some a ↦ record t {
        approvals = update_approval a.id (approved_by_hr user note name) t.approvals;
      }
      | none ↦ record t {
        approvals =
            t.approvals
            ++ approved_by_hr user note name
                (record (new_approval id candidate user) { current_stage = Stage.board })
              ∷ [];
      }
    ])

  abbrev named_or : Option ℕ → List ℕ → List ℕ
  named_or none ids = ids
  named_or (some id) ids = id ∷ []

  abbrev unit_of : ℕ → String
  unit_of candidate = elim (find (λ (c : Candidate). c.id == candidate) w.candidates) [
    | none ↦ ""
    | some c ↦ c.unit_factory
  ]

  abbrev link_recipients : Approval → Stage → List ℕ
  link_recipients a Stage.board = a.board_member_ids
  link_recipients a Stage.corporate_hr =
      named_or a.corporate_hr_id (w.holders Stage.corporate_hr (unit_of a.candidate_id))
  link_recipients a Stage.chro = named_or a.chro_id (w.holders Stage.chro (unit_of a.candidate_id))

  abbrev link_mailed : ℕ → Stage → User → LinkVote
  link_mailed approval stage u = record {
    id = (w.issue u.id).0;
    approval_id = approval;
    user_id = u.id;
    token_hash = (w.issue u.id).1;
    token_expires_at = w.now + token_valid;
    stage = stage;
    status = Status.pending;
    notes = none;
    responded_at = none;
  }

  abbrev is_stale_link : ℕ → Stage → LinkVote → Bool
  is_stale_link approval stage v =
      v.approval_id == approval && same_stage v.stage stage && is_pending v.status

  -- Everything that may refuse comes before the writes.
  unfoldable pub open_stage : ℕ → Stage → Tables → Result Problem Tables
  open_stage id stage t = do
    a ← or_throw (find (λ (a : Approval). a.id == id) t.approvals) (not_found approval_missing)
    let ids = link_recipients a stage
    guard (not (is_nil ids)) (bad_request no_recipient)
    guard (is_some (w.fixed_salary a.candidate_id)) (bad_request salary_not_fixed)
    ok (record t {
      approvals = update_approval id (λ x. record x { current_stage = stage }) t.approvals;
      link_votes =
          keep (λ v. not (is_stale_link id stage v)) t.link_votes
          ++ map (link_mailed id stage)
              (keep (λ (u : User). includes u.id ids && u.has_email) w.users);
    })

  abbrev answered_link : ℕ → Decision → Option String → LinkVote → LinkVote
  answered_link id decision notes v =
      if v.id == id && is_pending v.status
      then record v { status = status_of decision; notes = notes; responded_at = some w.now }
      else v

  abbrev turned_down : Option String → Approval → Approval
  turned_down notes a = record a {
    status = Status.rejected;
    rejected_reason = trimmed w notes;
    rejected_at = some w.now;
  }

  -- A stage that cannot be opened leaves the claim written.
  abbrev handed_on : ℕ → Stage → Tables → Tables × Result Problem VoteReply
  handed_on id stage t = elim (open_stage id stage t) [
    | err refused ↦ (t, err refused)
    | ok t' ↦ (t', ok VoteReply.decided)
  ]

  unfoldable pub settle_link :
      LinkVote → Decision → Option String → Tables → Tables × Result Problem VoteReply
  unfolding open_stage
  settle_link v Decision.reject notes t = (
    record t { approvals = update_approval v.approval_id (turned_down notes) t.approvals },
    ok VoteReply.decided,
  )
  settle_link v Decision.approve notes t = elim (next_stage v.stage) [
    | some stage ↦ handed_on v.approval_id stage t
    | none ↦ (
      record t {
        approvals =
            update_approval v.approval_id (λ a. record a { status = Status.approved }) t.approvals;
      },
      ok VoteReply.decided,
    )
  ]

  unfoldable pub commit_link :
      LinkVote → Decision → Option String → Tables → Tables × Result Problem VoteReply
  unfolding settle_link
  commit_link v decision notes t =
      if any (λ (x : LinkVote). x.id == v.id && is_pending x.status) t.link_votes
      then settle_link v decision notes
          (record t { link_votes = map (answered_link v.id decision notes) t.link_votes })
      else (t, ok VoteReply.already_voted)

  abbrev lacks_reason : Decision → Option String → Bool
  lacks_reason decision notes = is_reject decision && not (nonempty (trim (or_else notes "")))

  -- A link of a sheet is turned away, but only after the other checks.
  abbrev answer_elsewhere : Vote → Decision → Option String → Result Problem VoteReply
  answer_elsewhere v decision notes =
      if ltb v.token_expires_at w.now
      then err (bad_request link_expired)
      else if is_pending v.status
      then (if lacks_reason decision notes
          then err (bad_request reason_missing)
          else err (bad_request link_of_sheet))
      else ok VoteReply.already_voted

  unfoldable pub submit_vote :
      ℕ → Option String → Decision → Tables → Tables × Result Problem VoteReply
  unfolding commit_link
  submit_vote token notes decision t =
      elim (find (λ (v : LinkVote). v.token_hash == token) t.link_votes) [
        | none ↦ elim (find (λ (v : Vote). v.token_hash == token) t.votes) [
          | none ↦ (t, err (not_found link_invalid))
          | some v ↦ (t, answer_elsewhere v decision notes)
        ]
        | some v ↦
            if ltb v.token_expires_at w.now
            then (t, err (bad_request link_expired))
            else if not (is_pending v.status)
            then (t, ok VoteReply.already_voted)
            else if lacks_reason decision notes
            then (t, err (bad_request reason_missing))
            else commit_link v decision notes t
      ]
