-- ===== src/Requisition/Votes/Exact.antt =====
-- Exactly when a board member's vote decides a requisition, and as what (vote of
-- requisition-board.service.ts).
use hrm_backend.Prelude.{
  ℕ, String, ◌≡◌, refl, sym, subst, ◌≢◌, ◌↔◌, inl, inr, Bool, true, false, ◌&&◌, ◌||◌, not, Option,
  some, List, [], ◌∷◌, ◌+++◌, All, any, find, ok, arith, leb, ltb, ◌==◌, ==_iff, if◌then◌else◌,
  trim, or_else, text_length, Bool-cases, bad_request, guard-eq-ok,
}
use hrm_backend.Requisition.Model.{
  Status, Decision, LogAction, Step, BoardVote, Requisition, Effect, link_expired, reason_missing,
}
use hrm_backend.Requisition.Steps.{is_pending, update_step, claim_count, add_activity}
use hrm_backend.Requisition.Steps.Laws.{Fresh, DistinctIds}
use hrm_backend.Requisition.Steps.Current.{claim_of_Fresh}
use hrm_backend.Requisition.Access.{Access, is_approved}
use hrm_backend.Requisition.Profile.{Ai}
use hrm_backend.Requisition.Decision.{finish_decision}
use hrm_backend.Requisition.Board.{
  decided, find_vote, vote_count, answer_vote, is_vote_pending, step_open, board_answer,
  vote_commit, conclude, cast_vote, vote,
}
use hrm_backend.Requisition.Approval.{finish_approved}

-- The rows of the votes have ids of their own.
abbrev pub OneRowEach : List BoardVote → Type 0
OneRowEach [] = Unit
OneRowEach (v ∷ vs) = All (λ w. w.id ≢ v.id) vs × OneRowEach vs

open_of_Fresh :
    (id : ℕ) (ss : List Step)
    → Fresh id ss
    → any (λ s. s.id == id && is_pending s.status) ss ≡ false
open_of_Fresh id [] h = refl
open_of_Fresh id (s ∷ ss) h = ground (arith, open_of_Fresh id ss h.1)

-- The claims count one row where ids are distinct.
claim_of_open :
    (id : ℕ) (ss : List Step)
    → DistinctIds ss
    → any (λ s. s.id == id && is_pending s.status) ss ≡ true
    → claim_count id ss ≡ 1
unfolding claim_count
claim_of_open id [] d h = cc
claim_of_open id (s ∷ ss) (fresh, d) h = elim (Bool-cases (s.id == id)) [
  | inl e ↦
      let same : s.id ≡ id = (==_iff _ _).0 e in
      let none_else : claim_count id ss ≡ 0 =
        subst (λ x. claim_count x ss ≡ 0) same (claim_of_Fresh s.id ss fresh) in
      elim (Bool-cases (is_pending s.status)) [
        | inl p ↦ ground (arith, none_else, e, p)
        | inr p ↦
            let shut : any (λ t. t.id == id && is_pending t.status) ss ≡ false =
              subst (λ x. any (λ t. t.id == x && is_pending t.status) ss ≡ false) same
                (open_of_Fresh s.id ss fresh) in
            ground (arith, h, shut, e, p)
      ]
  | inr e ↦ ground (arith, e, h, claim_of_open id ss d)
]

count_of_others : (id : ℕ) (vs : List BoardVote) → All (λ w. w.id ≢ id) vs → vote_count id vs ≡ 0
unfolding vote_count
count_of_others id [] h = refl
count_of_others id (v ∷ vs) h = ground (arith, count_of_others id vs h.1)

some_vote : (a b : BoardVote) → some a ≡ some b → a ≡ b
some_vote a b q = cc

found_of_All :
    (P : BoardVote → Type 0) (f : BoardVote → Bool) (vs : List BoardVote) {v : BoardVote}
    → All P vs
    → find f vs ≡ some v
    → P v
found_of_All P f [] h e = cc
found_of_All P f (w ∷ ws) {v} h e = elim (Bool-cases (f w)) [
  | inl here ↦ subst P (some_vote w v (rw here at e)) h.0
  | inr later ↦ found_of_All P f ws h.1 (rw later at e)
]

head_count :
    (v : BoardVote) (vs : List BoardVote)
    → is_vote_pending v.status ≡ true
    → All (λ w. w.id ≢ v.id) vs
    → vote_count v.id (v ∷ vs) ≡ 1
unfolding vote_count
head_count v vs pending apart = ground (arith, count_of_others v.id vs apart, pending)

found_count :
    (f : BoardVote → Bool) (vs : List BoardVote) {v : BoardVote}
    → OneRowEach vs
    → find f vs ≡ some v
    → is_vote_pending v.status ≡ true
    → vote_count v.id vs ≡ 1
unfolding vote_count
found_count f [] h e pending = cc
found_count f (w ∷ ws) {v} (apart, h) e pending = elim (Bool-cases (f w)) [
  | inl here ↦
      let same : w ≡ v = some_vote w v (rw here at e) in
      let open_head : is_vote_pending w.status ≡ true =
        subst (λ (x : BoardVote). is_vote_pending x.status ≡ true) (sym same) pending in
      subst (λ (x : BoardVote). vote_count x.id (w ∷ ws) ≡ 1) same (head_count w ws open_head apart)
  | inr later ↦
      let tail : find f ws ≡ some v = rw later at e in
      let differ : w.id ≢ v.id = λ q. found_of_All (λ x. x.id ≢ w.id) f ws apart tail (sym q) in
      ground (arith, differ, found_count f ws h tail pending)
]

-- What a deciding vote makes of the requisition.
abbrev pub Verdict : Bool → Requisition → Type 0
Verdict true r = is_approved r.status ≡ true
Verdict false r = r.status ≡ Status.rejected

finish-Verdict :
    (a : Access) (model : Ai) (approve : Bool) (r : Requisition)
    → r.status ≡ (if approve then Status.approved else Status.rejected)
    → Verdict approve
        (finish_decision a model a.now
          (if approve then Decision.approved else Decision.rejected)
          r).0
unfolding finish_decision
finish-Verdict a model true r e = finish_approved a model a.now Decision.approved r e
finish-Verdict a model false r e = ground (arith, e)

-- The link is live and was not answered, its step waits, and a refusal has a reason.
abbrev pub may_decide : ℕ → BoardVote → Requisition → Bool → String → Bool
may_decide now v r approve reason =
    not (ltb v.token_expires_at now)
    && (is_vote_pending v.status
        && (step_open v.step_id r && (approve || leb 2 (text_length reason))))

module _ (a : Access) (model : Ai) (names : ℕ → String) (r : Requisition) (v : BoardVote)
    (approve : Bool) (reason : String) where
  cast_decides :
      vote_count v.id r.votes ≡ 1
      → claim_count v.step_id r.steps ≡ 1
      → is_vote_pending v.status ≡ true
      → step_open v.step_id r ≡ true
      → (approve || leb 2 (text_length reason)) ≡ true
      → (r' : Requisition) × (sent : List Effect) × (cast_vote a model names r v approve reason
          ≡ ok (decided, (r', sent)))
        × Verdict approve r'
  unfolding cast_vote vote_commit conclude
  cast_decides one claimed pending waits reasoned =
      let d : Decision = if approve then Decision.approved else Decision.rejected in
      let q : Requisition =
        add_activity
          (record {
            actor = names v.user_id +++ " (Board)";
            action = if approve then LogAction.approved else LogAction.rejected;
            note = reason;
          })
          (record r {
            votes = answer_vote v.id approve reason a.now r.votes;
            steps =
                update_step v.step_id (board_answer approve reason (names v.user_id) a.now) r.steps;
            status = if approve then Status.approved else Status.rejected;
          }) in
      (
        (finish_decision a model a.now d q).0,
        (finish_decision a model a.now d q).1,
        rw (pending, waits, reasoned, one, claimed) refl,
        finish-Verdict a model approve q refl,
      )

  cast_decided :
      {x : Requisition × List Effect}
      → cast_vote a model names r v approve reason ≡ ok (decided, x)
      → (is_vote_pending v.status
          && (step_open v.step_id r && (approve || leb 2 (text_length reason))))
        ≡ true
  unfolding cast_vote
  cast_decided e = elim (Bool-cases (is_vote_pending v.status)) [
    | inr p ↦ absurd (ground (arith, rw p at e))
    | inl p ↦ elim (Bool-cases (step_open v.step_id r)) [
      | inr q ↦ absurd (ground (arith, rw (p, q) at e))
      | inl q ↦
          let (reasoned, rest) =
            guard-eq-ok (approve || leb 2 (text_length reason)) (bad_request reason_missing) _
              (rw (p, q) at e) in
          rw (p, q, reasoned) refl
    ]
  ]

and_parts :
    (x y z u : Bool)
    → (x && (y && (z && u))) ≡ true
    → (x ≡ true) × (y ≡ true) × (z ≡ true) × (u ≡ true)
and_parts x y z u h = (ground (arith, h), ground (arith, h), ground (arith, h), ground (arith, h))

both_true : (x : Bool) {y : Bool} → x ≡ true → y ≡ true → (x && y) ≡ true
both_true x h k = ground (arith, h, k)

-- Where the steps and the votes have ids of their own, a vote decides the requisition exactly when its
-- link is live and was not answered, its step waits, and a refusal has a reason of two characters: an
-- approval then takes the requisition past its chain and a refusal rejects it, by itself, whatever the
-- other steps, the other votes and the status were.
pub vote_decides_iff :
    (a : Access) (model : Ai) (names : ℕ → String) (r : Requisition) (hash : ℕ) (approve : Bool)
    (remark : Option String) (v : BoardVote)
    → DistinctIds r.steps
    → OneRowEach r.votes
    → find_vote hash r ≡ some v
    → ((may_decide a.now v r approve (trim (or_else remark "")) ≡ true) ↔ (
        (r' : Requisition) × (sent : List Effect) × (vote a model names r hash approve remark
          ≡ ok (decided, (r', sent)))
        × Verdict approve r'))
unfolding vote find_vote
vote_decides_iff a model names r hash approve remark v steps votes found = (
  (λ may.
      let reason = trim (or_else remark "") in
      let (live, pending, waits, reasoned) =
        and_parts (not (ltb v.token_expires_at a.now)) (is_vote_pending v.status)
          (step_open v.step_id r) (approve || leb 2 (text_length reason)) may in
      let (r', sent, cast, verdict) =
        cast_decides a model names r v approve reason (found_count _ r.votes votes found pending)
          (claim_of_open v.step_id r.steps steps waits) pending waits reasoned in
      (r', sent, rw (found, live) cast, verdict)),
  (λ (r', sent, e, verdict).
      let (live, done) =
        guard-eq-ok (not (ltb v.token_expires_at a.now)) (bad_request link_expired) _
          (rw found at e) in
      both_true (not (ltb v.token_expires_at a.now)) live
        (cast_decided a model names r v approve (trim (or_else remark "")) done)),
)
