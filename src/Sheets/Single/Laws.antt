-- ===== src/Sheets/Single/Laws.antt =====
-- A candidate's request made anew, and the links that are left of an older one
-- (src/modules/board/board.service.ts).
use hrm_backend.Prelude.{
  ℕ, String, ◌≡◌, refl, ◌∙◌, subst, Bool, true, false, ◌&&◌, ◌||◌, not, Option, none, some, List,
  [], ◌∷◌, ◌++◌, map, keep, all, any, find, ◌==◌, ltb, is_some, if◌then◌else◌, ok, ok_eq, or_throw,
  >>=-eq-ok, guard-eq-ok, arith, Bool-cases, Option-cases, inl, inr, ==_refl, forbidden,
  bad_request, not_found,
}
use hrm_backend.Sheets.{
  Stage, Status, Approval, LinkVote, Tables, World, Candidate, is_pending, not_allowed,
  candidate_missing, not_onboarding, salary_not_fixed,
}
use hrm_backend.Sheets.Handlers.{Decision, VoteReply, status_of}
use hrm_backend.Sheets.Signed.{find-any}
use hrm_backend.Sheets.Decided.{same_status}
use hrm_backend.Sheets.Single.{
  is_of_candidate, latest, update_approval, is_link_of, asked_again, new_approval, requested,
  check_request, send_for_approval, settle_link, commit_link, submit_vote, lacks_reason,
}

abbrev mapped : (Approval → Approval) → Option Approval → Option Approval
mapped f none = none
mapped f (some a) = some (f a)

latest-map :
    (candidate : ℕ) (f : Approval → Approval) (rows : List Approval)
    → ((a : Approval) → (f a).candidate_id ≡ a.candidate_id)
    → latest candidate (map f rows) ≡ mapped f (latest candidate rows)
unfolding latest
latest-map candidate f [] same = refl
latest-map candidate f (a ∷ rows) same =
    let rest = latest-map candidate f rows same in
    elim (Option-cases (latest candidate rows)) [
      | inr (b, e) ↦ rw (rest, e) refl
      | inl e ↦ elim (Bool-cases (is_of_candidate candidate a)) [
        | inl g ↦ simp (rest, e, same a, g)
        | inr g ↦ simp (rest, e, same a, g)
      ]
    ]

latest-append :
    (candidate : ℕ) (rows : List Approval) (a : Approval)
    → is_of_candidate candidate a ≡ true
    → latest candidate (rows ++ a ∷ []) ≡ some a
unfolding latest
latest-append candidate [] a h = rw h refl
latest-append candidate (b ∷ rows) a h = rw (latest-append candidate rows a h) refl

none_left {ℓ} : {A : Type ℓ} (p : A → Bool) (xs : List A) → any p (keep (λ x. not (p x)) xs) ≡ false
none_left p [] = refl
none_left p (x ∷ xs) = ground (arith, none_left p xs)

keeps_candidate :
    (b : Bool) (by : ℕ) (a : Approval)
    → (if b then asked_again by a else a).candidate_id ≡ a.candidate_id
keeps_candidate true by a = refl
keeps_candidate false by a = refl

-- A request that starts over.
pub record IsRestarted (candidate by : ℕ) (t : Tables) : Type 0 where
  pub row : Approval
  pub is_latest : latest candidate t.approvals ≡ some row
  pub asker : row.requested_by_id ≡ by
  pub waits : row.status ≡ Status.pending
  pub at_hr : row.current_stage ≡ Stage.corporate_hr
  pub off_sheet : row.batch_id ≡ none
  pub no_links : any (is_link_of row.id) t.link_votes ≡ false

requested-IsRestarted :
    (id candidate by : ℕ) (t : Tables)
    → any (is_link_of id) t.link_votes ≡ false
    → IsRestarted candidate by (requested id candidate by (latest candidate t.approvals) t)
requested-IsRestarted id candidate by t fresh = elim (Option-cases (latest candidate t.approvals)) [
  | inl e ↦ rw e (record {
    row = new_approval id candidate by;
    is_latest =
        latest-append candidate t.approvals (new_approval id candidate by) (==_refl candidate);
    asker = refl;
    waits = refl;
    at_hr = refl;
    off_sheet = refl;
    no_links = fresh;
  })
  | inr (a, e) ↦
      let moved : latest candidate (update_approval a.id (asked_again by) t.approvals)
          ≡ some (asked_again by a) =
        latest-map candidate _ t.approvals (λ x. keeps_candidate (x.id == a.id) by x)
        ∙ rw (e, ==_refl a.id) refl in
      rw e (record {
        row = asked_again by a;
        is_latest = moved;
        asker = refl;
        waits = refl;
        at_hr = refl;
        off_sheet = refl;
        no_links = none_left (is_link_of a.id) t.link_votes;
      })
]

-- Every row of a request stands as decided.
abbrev pub link_decided : ℕ → Status → List Approval → Bool
link_decided id s = all (λ (a : Approval). not (a.id == id) || same_status a.status s)

rows_decided :
    (id : ℕ) (s : Status) (f : Approval → Approval) (rows : List Approval)
    → ((a : Approval) → same_status (f a).status s ≡ true)
    → link_decided id s (update_approval id f rows) ≡ true
rows_decided id s f [] h = refl
rows_decided id s f (a ∷ rows) h =
    let rest = rows_decided id s f rows h in
    elim (Bool-cases (a.id == id)) [
      | inl e ↦ rw e (ground (arith, h a, rest))
      | inr e ↦ rw e (ground (arith, e, rest))
    ]

module _ (w : World) where
  -- A request that is sent for approval starts over: made by somebody who may manage the candidate,
  -- whose salary is fixed, it waits at the Head of Talent Acquisition, on no sheet, and no link of an
  -- earlier request is left to answer it. The id of a new row has no links yet.
  pub send_for_approval-IsRestarted :
      (id candidate by : ℕ) (t : Tables) {t' : Tables}
      → any (is_link_of id) t.link_votes ≡ false
      → send_for_approval w id candidate by t ≡ ok t'
      → IsRestarted candidate by t'
        × (w.may_manage_candidate by candidate ≡ true)
        × (is_some (w.fixed_salary candidate) ≡ true)
  unfolding send_for_approval check_request
  send_for_approval-IsRestarted id candidate by t {t' = t'} fresh e =
      let (u, checked, done) = >>=-eq-ok (check_request w candidate by t) _ e in
      let (g1, e1) =
        guard-eq-ok (w.may_manage_candidate by candidate) (forbidden not_allowed) _ checked in
      let (c, found, e2) =
        >>=-eq-ok {A = Candidate}
          (or_throw (find (λ (x : Candidate). x.id == candidate) w.candidates)
            (not_found candidate_missing))
          _ e1 in
      let (g2, e3) = guard-eq-ok c.is_onboarding (bad_request not_onboarding) _ e2 in
      let (g3, e4) =
        guard-eq-ok (is_some (w.fixed_salary candidate)) (bad_request salary_not_fixed) _ e3 in
      (
        subst (IsRestarted candidate by) (ok_eq _ t' done)
            (requested-IsRestarted id candidate by t fresh),
        g1,
        g3,
      )

  settle_link-decides :
      (v : LinkVote) (decision : Decision) (notes : Option String) (t : Tables)
      → v.stage ≡ Stage.board
      → (link_decided v.approval_id
            (status_of decision)
            (settle_link w v decision notes t).0.approvals
          ≡ true)
        × ((settle_link w v decision notes t).1 ≡ ok VoteReply.decided)
  unfolding settle_link
  settle_link-decides v Decision.reject notes t board =
      (rows_decided v.approval_id Status.rejected _ t.approvals (λ a. refl), refl)
  settle_link-decides v Decision.approve notes t board = rw board (
    rows_decided v.approval_id Status.approved (λ a. record a { status = Status.approved })
        t.approvals (λ a. refl),
    refl,
  )

  -- An open link of the board's stage that is answered in time, a rejection with a reason, decides
  -- its request, for or against, whatever the request stood at before.
  pub submit_vote-decides :
      (token : ℕ) (notes : Option String) (decision : Decision) (t : Tables) {v : LinkVote}
      → find (λ (x : LinkVote). x.token_hash == token) t.link_votes ≡ some v
      → ltb v.token_expires_at w.now ≡ false
      → is_pending v.status ≡ true
      → lacks_reason w decision notes ≡ false
      → v.stage ≡ Stage.board
      → (link_decided v.approval_id
            (status_of decision)
            (submit_vote w token notes decision t).0.approvals
          ≡ true)
        × ((submit_vote w token notes decision t).1 ≡ ok VoteReply.decided)
  unfolding submit_vote commit_link
  submit_vote-decides token notes decision t {v = v} found in_time waiting reason board =
      let there : any (λ (x : LinkVote). x.id == v.id && is_pending x.status) t.link_votes ≡ true =
        find-any _ _ t.link_votes found (ground (arith, ==_refl v.id, waiting)) in
      rw (submit_vote, found, in_time, waiting, reason, commit_link, there)
        (settle_link-decides v decision notes _ board)
