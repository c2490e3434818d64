-- ===== src/Sheets/Decided.antt =====
-- What one answer of the board decides (submitSheetVote of src/modules/board/board.service.ts).
use hrm_backend.Prelude.{
  ℕ, String, ◌≡◌, refl, Bool, true, false, ◌&&◌, ◌||◌, not, Option, some, List, [], ◌∷◌, all, any,
  ◌==◌, ==_refl, arith, ok, Bool-cases, inl, inr,
}
use hrm_backend.Sheets.{
  Status, Approval, Sheet, Vote, Tables, World, is_pending, is_chro, on_sheet, update_sheet,
  update_approvals,
}
use hrm_backend.Sheets.Handlers.{
  Decision, status_of, approval_with, with_status, trimmed, settle_vote, commit_sheet_vote,
  check_sheet_vote, submit_sheet_vote,
}
use hrm_backend.Sheets.Signed.{find-any}
use hrm_backend.Sheets.Steps.{check_sheet_vote-found}

abbrev pub same_status : Status → Status → Bool
same_status Status.pending Status.pending = true
same_status Status.approved Status.approved = true
same_status Status.rejected Status.rejected = true
same_status a b = false

-- Every candidate on the sheet, and the sheet, stands as decided.
unfoldable pub all_decided : ℕ → Status → Tables → Bool
all_decided id s t =
    all (λ (a : Approval). not (on_sheet id a) || same_status a.status s) t.approvals
    && all (λ (b : Sheet). not (b.id == id) || same_status b.status s) t.sheets

approvals_decided :
    (id : ℕ) (s : Status) (f : Approval → Approval) (as_ : List Approval)
    → ((a : Approval) → on_sheet id a ≡ true → same_status (f a).status s ≡ true)
    → all
        (λ (a : Approval). not (on_sheet id a) || same_status a.status s)
        (update_approvals id f as_)
      ≡ true
approvals_decided id s f [] h = refl
approvals_decided id s f (a ∷ as_) h =
    let rest = approvals_decided id s f as_ h in
    elim (Bool-cases (on_sheet id a)) [
      | inl e ↦ rw e (ground (arith, h a e, rest))
      | inr e ↦ rw e (ground (arith, e, rest))
    ]

sheets_decided :
    (id : ℕ) (s : Status) (f : Sheet → Sheet) (bs : List Sheet)
    → ((b : Sheet) → same_status (f b).status s ≡ true)
    → all (λ (b : Sheet). not (b.id == id) || same_status b.status s) (update_sheet id f bs) ≡ true
sheets_decided id s f [] h = refl
sheets_decided id s f (b ∷ bs) h =
    let rest = sheets_decided id s f bs h in
    elim (Bool-cases (b.id == id)) [
      | inl e ↦ rw e (ground (arith, h b, rest))
      | inr e ↦ rw e (ground (arith, e, rest))
    ]

module _ (w : World) where
  settle_vote-decides :
      (v : Vote) (decision : Decision) (notes : Option String) (t : Tables)
      → is_chro v.stage ≡ false
      → all_decided v.batch_id (status_of decision) (settle_vote w v decision notes t).0 ≡ true
  unfolding settle_vote all_decided
  settle_vote-decides v Decision.reject notes t board = ground (
    arith,
    approvals_decided v.batch_id Status.rejected
        (approval_with w Status.rejected (trimmed w notes) (some w.now)) t.approvals (λ a e. refl),
    sheets_decided v.batch_id Status.rejected
        (with_status w Status.rejected (trimmed w notes) (some w.now)) t.sheets (λ b. refl),
  )
  settle_vote-decides v Decision.approve notes t board =
      rw (settle_vote, board)
        (ground (
          arith,
          approvals_decided v.batch_id Status.approved (λ a. record a { status = Status.approved })
              t.approvals (λ a e. refl),
          sheets_decided v.batch_id Status.approved (λ b. record b { status = Status.approved })
              t.sheets (λ b. refl),
        ))

  -- An open link of the board decides the sheet and every candidate on it by itself, for or against,
  -- whatever they stood at before and whatever the other members answered.
  pub board_answer_decides :
      (token : ℕ) (notes : Option String) (decision : Decision) (t : Tables) {v : Vote}
      → check_sheet_vote w token notes decision t ≡ ok v
      → is_pending v.status ≡ true
      → is_chro v.stage ≡ false
      → all_decided v.batch_id (status_of decision) (submit_sheet_vote w token notes decision t).0
        ≡ true
  unfolding submit_sheet_vote commit_sheet_vote
  board_answer_decides token notes decision t {v = v} checked waiting board =
      let there : any (λ (x : Vote). x.id == v.id && is_pending x.status) t.votes ≡ true =
        find-any _ _ t.votes (check_sheet_vote-found w 0 token notes decision t checked)
          (ground (arith, ==_refl v.id, waiting)) in
      rw (submit_sheet_vote, checked, waiting, commit_sheet_vote, there)
        (settle_vote-decides v decision notes _ board)
