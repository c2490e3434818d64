-- ===== src/Sheets/Handlers.antt =====
-- The handlers of the sheets: updateSheetRow, sendSheet, openSheetStage, resendSheet and
-- submitSheetVote (src/modules/board/board.service.ts).
use hrm_backend.Prelude.{
  ℕ, ◌+◌, String, Bool, true, false, ◌&&◌, not, Option, none, some, List, [], ◌∷◌, ◌++◌, map, keep,
  all, any, find, ◌==◌, ltb, is_nil, is_some, includes, length, if◌then◌else◌, Result, ok, err,
  guard, or_throw, ◌>>=◌, ◌>>◌, bad_request, forbidden, not_found, nonempty, trim, or_else, or_null,
}
use hrm_backend.Sheets.{
  Stage, Status, Problem, not_allowed, approval_missing, already_on_sheet, no_candidate, no_member,
  not_waiting, not_chro, salary_not_fixed, no_recipient, sheet_missing, already_decided,
  all_responded, link_invalid, link_expired, reason_missing, Approval, Sheet, Vote, Tables, User,
  World, is_pending, is_chro, same_stage, update_sheet, update_approvals,
}

-- BOARD_TOKEN_VALID_MS
abbrev pub token_valid : ℕ
token_valid = 5184000000

-- `v === undefined ? undefined : v?.trim() ? v.trim() : null`; a column that is not sent stays.
abbrev clean : Option (Option String) → Option String → Option String
clean none stored = stored
clean (some none) stored = none
clean (some (some text)) stored = or_null (trim text)

pub record RowPatch : Type 0 where
  pub education : Option (Option String)
  pub total_experience : Option (Option String)
  pub last_organization : Option (Option String)

abbrev patched : RowPatch → Approval → Approval
patched patch a = record a {
  sheet_education = clean patch.education a.sheet_education;
  sheet_experience = clean patch.total_experience a.sheet_experience;
  sheet_last_org = clean patch.last_organization a.sheet_last_org;
}

-- The people a stage of a sheet is mailed to.
abbrev pub recipients : Sheet → Stage → List ℕ
recipients b Stage.board = b.board_member_ids
recipients b _ = elim b.chro_id [ none ↦ [] | some id ↦ id ∷ [] ]

abbrev pub is_stale : ℕ → Stage → Vote → Bool
is_stale id stage v = v.batch_id == id && same_stage v.stage stage && is_pending v.status

abbrev pub at_stage : Stage → Sheet → Sheet
at_stage stage b = record b { current_stage = stage }

abbrev approval_at : Stage → Approval → Approval
approval_at stage a = record a { current_stage = stage }

-- The decision that a link carries.
pub data Decision : Type 0 where
  approve reject : Decision

abbrev pub status_of : Decision → Status
status_of Decision.approve = Status.approved
status_of Decision.reject = Status.rejected

abbrev pub is_reject : Decision → Bool
is_reject Decision.reject = true
is_reject Decision.approve = false

pub data VoteReply : Type 0 where
  already_voted decided : VoteReply

module _ (w : World) where
  abbrev pub mailed : ℕ → Stage → User → Vote
  mailed id stage u = record {
    id = (w.issue u.id).0;
    batch_id = id;
    user_id = u.id;
    token_hash = (w.issue u.id).1;
    token_expires_at = w.now + token_valid;
    stage = stage;
    status = Status.pending;
    notes = none;
    responded_at = none;
  }

  -- A user without an address is skipped.
  abbrev pub to_mail : List ℕ → List User
  to_mail ids = keep (λ (u : User). includes u.id ids && u.has_email) w.users

  abbrev pub new_votes : ℕ → Stage → List ℕ → List Vote
  new_votes id stage ids = map (mailed id stage) (to_mail ids)

  -- Stale votes go, and everyone named is asked.
  unfoldable pub ask : ℕ → Stage → List ℕ → List Vote → List Vote
  ask id stage ids votes = keep (λ v. not (is_stale id stage v)) votes ++ new_votes id stage ids

  unfoldable pub open_sheet_stage : ℕ → Stage → Tables → Tables × Result Problem (Unit {0})
  unfolding ask
  open_sheet_stage id stage t = elim (find (λ (b : Sheet). b.id == id) t.sheets) [
    | none ↦ (t, err (not_found sheet_missing))
    | some b ↦ if is_nil (recipients b stage) then (t, err (bad_request no_recipient)) else (
      record t {
        approvals = update_approvals id (approval_at stage) t.approvals;
        sheets = update_sheet id (at_stage stage) t.sheets;
        votes = ask id stage (recipients b stage) t.votes;
      },
      ok tt,
    )
  ]

  unfoldable pub update_sheet_row : ℕ → ℕ → RowPatch → Tables → Result Problem Tables
  update_sheet_row approval_id user patch t = do
    guard (w.may_manage user) (forbidden not_allowed)
    a ←
        or_throw (find (λ (a : Approval). a.id == approval_id) t.approvals)
          (not_found approval_missing)
    guard (not (is_some a.batch_id)) (bad_request already_on_sheet)
    ok (record t {
      approvals =
          map (λ (x : Approval). if x.id == approval_id then patched patch x else x) t.approvals;
    })

  abbrev waits : List ℕ → Approval → Bool
  waits ids a = includes a.id ids && is_pending a.status && not (is_some a.batch_id)

  abbrev pub put_on : ℕ → ℕ → List ℕ → Approval → Approval
  put_on id user ids a =
      if includes a.id ids
      then record a {
        batch_id = some id;
        current_stage = Stage.chro;
        hr_approved_by_id = some user;
        hr_approved_at = some w.now;
      }
      else a

  abbrev pub new_sheet : (id : ℕ) → String → ℕ → List ℕ → ℕ → Sheet
  new_sheet id reference chro members user = record {
    id = id;
    reference = reference;
    created_by_id = user;
    status = Status.pending;
    current_stage = Stage.chro;
    chro_id = some chro;
    board_member_ids = members;
    rejected_reason = none;
    rejected_at = none;
  }

  -- The checks of sendSheet, all before its first write.
  unfoldable pub check_sheet : List ℕ → ℕ → List ℕ → ℕ → Tables → Result Problem (Unit {0})
  check_sheet ids chro members user t = do
    guard (w.may_manage user) (forbidden not_allowed)
    guard (not (is_nil ids)) (bad_request no_candidate)
    guard (not (is_nil members)) (bad_request no_member)
    let approvals = keep (waits ids) t.approvals
    guard (length approvals == length ids) (bad_request not_waiting)
    guard (includes chro w.chro_holders) (bad_request not_chro)
    guard (all (λ (a : Approval). is_some (w.fixed_salary a.candidate_id)) approvals)
        (bad_request salary_not_fixed)

  -- `id` and `reference` are the new row's.
  unfoldable pub send_sheet :
      (id : ℕ) → String → List ℕ → ℕ → List ℕ → ℕ → Tables → Tables × Result Problem (Unit {0})
  unfolding check_sheet open_sheet_stage
  send_sheet id reference ids chro members user t = elim (check_sheet ids chro members user t) [
    | err refused ↦ (t, err refused)
    | ok done ↦ open_sheet_stage id Stage.chro (record t {
      approvals = map (put_on id user ids) t.approvals;
      sheets = t.sheets ++ new_sheet id reference chro members user ∷ [];
    })
  ]

  abbrev pub settled : Sheet → List Vote → ℕ → Bool
  settled b votes user =
      any
        (λ (v : Vote).
          v.batch_id == b.id
          && same_stage v.stage b.current_stage
          && not (is_pending v.status)
          && v.user_id == user)
        votes

  unfoldable pub resend_sheet : ℕ → ℕ → Tables → Result Problem Tables
  unfolding ask
  resend_sheet id user t = do
    guard (w.may_manage user) (forbidden not_allowed)
    b ← or_throw (find (λ (b : Sheet). b.id == id) t.sheets) (not_found sheet_missing)
    guard (is_pending b.status) (bad_request already_decided)
    let targets = keep (λ u. not (settled b t.votes u)) (recipients b b.current_stage)
    guard (not (is_nil targets)) (bad_request all_responded)
    ok (record t { votes = ask b.id b.current_stage targets t.votes })

  -- `updateMany({ where: { id, status: 'pending' } })`
  abbrev pub answered : ℕ → Decision → Option String → Vote → Vote
  answered id decision notes v =
      if v.id == id && is_pending v.status
      then record v { status = status_of decision; notes = notes; responded_at = some w.now }
      else v

  abbrev pub with_status : Status → Option String → Option ℕ → Sheet → Sheet
  with_status status reason at b = record b {
    status = status;
    rejected_reason = reason;
    rejected_at = at;
  }

  abbrev pub approval_with : Status → Option String → Option ℕ → Approval → Approval
  approval_with status reason at a = record a {
    status = status;
    rejected_reason = reason;
    rejected_at = at;
  }

  abbrev pub trimmed : Option String → Option String
  trimmed none = none
  trimmed (some text) = some (trim text)

  -- A rejection stops the sheet and every candidate on it.
  abbrev pub stopped : ℕ → Option String → Tables → Tables
  stopped id notes t = record t {
    sheets = update_sheet id (with_status Status.rejected (trimmed notes) (some w.now)) t.sheets;
    approvals =
        update_approvals id (approval_with Status.rejected (trimmed notes) (some w.now))
          t.approvals;
  }

  -- The board's approval completes the sheet; the columns of a rejection stay as they are.
  abbrev pub cleared : ℕ → Tables → Tables
  cleared id t = record t {
    sheets = update_sheet id (λ b. record b { status = Status.approved }) t.sheets;
    approvals = update_approvals id (λ a. record a { status = Status.approved }) t.approvals;
  }

  -- What a claimed vote decides.
  unfoldable pub settle_vote :
      Vote → Decision → Option String → Tables → Tables × Result Problem VoteReply
  unfolding open_sheet_stage
  settle_vote v Decision.reject notes t = (stopped v.batch_id notes t, ok VoteReply.decided)
  settle_vote v Decision.approve notes t =
      let opened = open_sheet_stage v.batch_id Stage.board t in
      if is_chro v.stage
      then (opened.0, opened.1 >> ok VoteReply.decided)
      else (cleared v.batch_id t, ok VoteReply.decided)

  -- From the claim on, for a vote that was read before.
  unfoldable pub commit_sheet_vote :
      Vote → Decision → Option String → Tables → Tables × Result Problem VoteReply
  unfolding settle_vote
  commit_sheet_vote v decision notes t =
      if any (λ (x : Vote). x.id == v.id && is_pending x.status) t.votes
      then settle_vote v decision notes
          (record t { votes = map (answered v.id decision notes) t.votes })
      else (t, ok VoteReply.already_voted)

  -- Why a link is refused, once its vote is found.
  unfoldable pub check_link : Vote → Option String → Decision → Tables → Result Problem (Unit {0})
  check_link v notes decision t = do
    guard (any (λ (b : Sheet). b.id == v.batch_id) t.sheets) (not_found link_invalid)
    guard (not (ltb v.token_expires_at w.now)) (bad_request link_expired)
    guard
        (not
          (is_pending v.status && is_reject decision && not (nonempty (trim (or_else notes "")))))
        (bad_request reason_missing)

  unfoldable pub check_sheet_vote : ℕ → Option String → Decision → Tables → Result Problem Vote
  unfolding check_link
  check_sheet_vote token notes decision t = do
    v ← or_throw (find (λ (v : Vote). v.token_hash == token) t.votes) (not_found link_invalid)
    check_link v notes decision t
    ok v

  unfoldable pub submit_sheet_vote :
      ℕ → Option String → Decision → Tables → Tables × Result Problem VoteReply
  unfolding commit_sheet_vote check_sheet_vote
  submit_sheet_vote token notes decision t = elim (check_sheet_vote token notes decision t) [
    | err refused ↦ (t, err refused)
    | ok v ↦
        if is_pending v.status
        then commit_sheet_vote v decision notes t
        else (t, ok VoteReply.already_voted)
  ]
