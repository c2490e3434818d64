-- ===== src/Requisition/Invariant/BoardSteps.antt =====
-- The invariant under `sendToBoard` and `vote`.
use hrm_backend.Prelude.{
  ℕ, ◌+◌, String, ◌≡◌, refl, ap, ◌⊎◌, inl, inr, Bool, true, false, not, Option, none, some, List,
  ◌++◌, map, ok, arith, length, any, leb, text_length, trim, ◌||◌, is_nil, distinct, ◌==◌,
  if◌then◌else◌, nonempty, or_else, join, guard, or_throw, bad_request, not_found, ltb, Bool-cases,
  Option-cases, Returns, Returns-ok, >>=-eq-ok, ok_eq, or_throw-some, subst,
}
use hrm_backend.Requisition.Model.{
  Decision, Step, BoardVote, Requisition, Actor, Effect, no_member, not_board_member,
  member_without_email, link_invalid, link_expired,
}
use hrm_backend.Requisition.Steps.{parked, first_pending, update_step, claim_count}
use hrm_backend.Requisition.Steps.Laws.{
  is_settled, AllSettled, Numbered, Fresh, create_step-append, Numbered-append, Numbered-update,
  length-update, DistinctIds-update, DistinctIds-append, Fresh-update,
}
use hrm_backend.Requisition.Steps.Current.{
  current-lt, current-not_AllSettled, InOrder-append, decide-InOrder, decide_last-AllSettled,
}
use hrm_backend.Requisition.Access.{Access, load}
use hrm_backend.Requisition.Access.Laws.{load-eq}
use hrm_backend.Requisition.Profile.{Ai}
use hrm_backend.Requisition.Decision.{finish_decision}
use hrm_backend.Requisition.Board.{
  Member, chosen, chro_signs, board_step, board_answer, require_chro_step, board_commit,
  vote_commit, send_to_board, cast_votes, vote_ttl_ms, vote, cast_vote, conclude, find_vote,
  answer_vote, VoteReply, is_vote_pending, step_open, vote_count,
}
use hrm_backend.Requisition.Invariant.{WellFormed}
use hrm_backend.Requisition.Invariant.Decisions.{finish_decision-WellFormed}

-- The step is the current one, and the last.
pub record IsLastOpen (r : Requisition) (step : ℕ) : Type 0 where
  pub index : ℕ
  pub current : Step
  pub is_current : first_pending r.steps ≡ some (index, current)
  pub is_step : current.id ≡ step
  pub free : parked r.steps ≡ false
  pub last : length r.steps ≡ index + 1

abbrev settled_after :
    (r : Requisition) (step : ℕ) (f : Step → Step)
    → IsLastOpen r step
    → WellFormed r
    → ((s : Step) → is_settled (f s).status ≡ true)
    → AllSettled (update_step step f r.steps)
settled_after r step f o w q =
    rw (← o.is_step)
      (decide_last-AllSettled o.index o.current f r.steps q o.is_current o.free w.distinct o.last)

-- The CHRO's signature and the board's step after it.
board_commit-WellFormed :
    (step new_id now : ℕ) (actor note names : String) (r : Requisition)
    → IsLastOpen r step
    → Fresh new_id r.steps
    → WellFormed r
    → Returns WellFormed (board_commit step (length r.steps) new_id now actor note names r)
unfolding board_commit
board_commit-WellFormed step new_id now actor note names r o fresh w =
    elim (Bool-cases (claim_count step r.steps == 1)) [
      | inl claimed ↦
          rw
            (
              claimed,
              create_step-append added signed numbered
                  (omega (arith, length-update step (chro_signs actor note now) r.steps)),
            )
            (record {
              numbered =
                  Numbered-append 0 added signed numbered
                    (omega (arith, length-update step (chro_signs actor note now) r.steps));
              distinct =
                  DistinctIds-append added signed
                    (DistinctIds-update step (chro_signs actor note now) r.steps (λ s. refl)
                      w.distinct)
                    (Fresh-update new_id step (chro_signs actor note now) r.steps (λ s. refl)
                      fresh);
              in_order =
                  InOrder-append added signed
                    (settled_after r step (chro_signs actor note now) o w (λ s. refl));
              settled = λ h.
                  absurd
                    (current-not_AllSettled o.index o.current r.steps o.is_current (w.settled h));
            })
      | inr gone ↦ rw gone tt
    ]
  where
    added : Step
    added = board_step new_id (length r.steps) names

    signed : List Step
    signed = update_step step (chro_signs actor note now) r.steps

    numbered : Numbered 0 signed
    numbered = Numbered-update 0 step (chro_signs actor note now) r.steps (λ s. refl) w.numbered

-- A vote on the step that is open, and last, decides the requisition.
vote_commit-WellFormed :
    (step : ℕ) (approve : Bool) (reason voter : String) (now : ℕ) (r : Requisition)
    {r' : Requisition}
    → IsLastOpen r step
    → WellFormed r
    → vote_commit step approve reason voter now r ≡ some r'
    → WellFormed r'
unfolding vote_commit
vote_commit-WellFormed step approve reason voter now r {r'} o w e =
    let steps : r'.steps ≡ update_step step (board_answer approve reason voter now) r.steps =
      ground arith in
    record {
      numbered = rw steps (
          Numbered-update 0 step (board_answer approve reason voter now) r.steps (λ s. refl)
            w.numbered);
      distinct = rw steps (
          DistinctIds-update step (board_answer approve reason voter now) r.steps (λ s. refl)
            w.distinct);
      in_order =
          rw (steps, ← o.is_step)
            (decide-InOrder o.index o.current (board_answer approve reason voter now) r.steps
              o.is_current o.free w.distinct w.in_order);
      settled = λ h.
          rw steps
            (settled_after r step (board_answer approve reason voter now) o w (λ s. ground arith));
    }

first_cases :
    (ss : List Step)
    → (first_pending ss ≡ none) ⊎ ((i : ℕ) × (c : Step) × (first_pending ss ≡ some (i, c)))
first_cases ss = elim (Option-cases (first_pending ss)) [
  | inl e ↦ inl e
  | inr ((i, c), e) ↦ inr (i, c, e)
]

-- The board is reached from the CHRO's step alone, as the last of the chain.
pub chro_step-IsLastOpen :
    (a : Access) (r : Requisition) (user : ℕ) {c : Step}
    → require_chro_step a r user ≡ ok c
    → IsLastOpen r c.id
unfolding require_chro_step
chro_step-IsLastOpen a r user {c} e = elim (first_cases r.steps) [
  | inl gone ↦ absurd (ground arith)
  | inr (i, d, found) ↦
      let lt = current-lt i d r.steps found in
      record {
        index = i;
        current = d;
        is_current = found;
        is_step = ground arith;
        free = ground arith;
        last = ground arith;
      }
]

-- Votes that are cast, and what follows the escalation, leave the invariant.
voted_decided :
    (a : Access) (model : Ai) (votes : List BoardVote) (r : Requisition) {r' : Requisition}
    {sent : List Effect}
    → WellFormed r
    → finish_decision a model a.now Decision.escalate (record r { votes = votes }) ≡ (r', sent)
    → WellFormed r'
voted_decided a model votes r w e = subst WellFormed (ap (λ x. x.0) e) (
    finish_decision-WellFormed a model a.now Decision.escalate (record r { votes = votes })
      (record {
        numbered = w.numbered;
        distinct = w.distinct;
        in_order = w.in_order;
        settled = w.settled;
      }))

-- Sending a requisition to the board keeps the invariant, if the database gives the new step an id
-- that no step of the chain has.
pub send_to_board-WellFormed :
    (a : Access) (model : Ai) (board : List Member) (r : Requisition) (member_ids : List ℕ)
    (note : String) (actor : Actor) (new_id : ℕ) (keys : List (ℕ × ℕ)) {r' : Requisition}
    {sent : List Effect}
    → WellFormed r
    → Fresh new_id r.steps
    → send_to_board a model board r member_ids note actor new_id keys ≡ ok (r', sent)
    → WellFormed r'
unfolding send_to_board
send_to_board-WellFormed a model board r member_ids note actor new_id keys {r'} {sent} w fresh e =
    let (q, opened, rest) = >>=-eq-ok (load a (some r) (some actor.id)) _ e in
    let same : q ≡ r = load-eq a r actor.id opened in
    let (c, chro, rest) = >>=-eq-ok (require_chro_step a q actor.id) _ rest in
    let ids = distinct member_ids in
    let (u, some_ids, rest) = >>=-eq-ok (guard (not (is_nil ids)) (bad_request no_member)) _ rest in
    let members = chosen board ids in
    let (v, all_found, rest) =
      >>=-eq-ok (guard (length members == length ids) (bad_request not_board_member)) _ rest in
    let (x, mailable, rest) =
      >>=-eq-ok
        (guard (not (any (λ (m : Member). not (nonempty (or_else m.email ""))) members))
          (bad_request member_without_email))
        _ rest in
    let names = join ", " (map (λ (m : Member). m.name) members) in
    let (q', landed, done) =
      >>=-eq-ok (board_commit c.id (length q.steps) new_id a.now actor.name note names q) _ rest in
    let kept : WellFormed q' =
      Returns-ok WellFormed
        (board_commit c.id (length q.steps) new_id a.now actor.name note names q)
        (board_commit-WellFormed c.id new_id a.now actor.name note names q
          (chro_step-IsLastOpen a q actor.id chro) (rw same fresh) (rw same w))
        landed in
    voted_decided a model (q'.votes ++ cast_votes new_id (a.now + vote_ttl_ms) members keys) q'
      {sent = sent} kept (ok_eq _ _ done)

abbrev KeptBy : VoteReply × (Requisition × List Effect) → Type 0
KeptBy x = WellFormed x.1.0

module _ (a : Access) (model : Ai) (name_of : ℕ → String) (r : Requisition) (v : BoardVote)
    (approve : Bool) (reason : String) (o : IsLastOpen r v.step_id) (w : WellFormed r) where
  answered : Requisition
  answered = record r { votes = answer_vote v.id approve reason a.now r.votes }

  answered-WellFormed : WellFormed answered
  unfolding answered
  answered-WellFormed = record {
    numbered = w.numbered;
    distinct = w.distinct;
    in_order = w.in_order;
    settled = w.settled;
  }

  answered-IsLastOpen : IsLastOpen answered v.step_id
  unfolding answered
  answered-IsLastOpen = record {
    index = o.index;
    current = o.current;
    is_current = o.is_current;
    is_step = o.is_step;
    free = o.free;
    last = o.last;
  }

  conclude-WellFormed :
      (m : Option Requisition)
      → ((r' : Requisition) → m ≡ some r' → WellFormed r')
      → Returns KeptBy (conclude a model approve answered m)
  unfolding conclude
  conclude-WellFormed none kept = answered-WellFormed
  conclude-WellFormed (some r') kept =
      finish_decision-WellFormed a model a.now
        (if approve then Decision.approved else Decision.rejected) r' (kept r' refl)

  cast_vote-WellFormed : Returns KeptBy (cast_vote a model name_of r v approve reason)
  unfolding cast_vote answered
  cast_vote-WellFormed = elim (Bool-cases (is_vote_pending v.status)) [
    | inr p ↦ rw p w
    | inl p ↦ rw p (elim (Bool-cases (step_open v.step_id r)) [
      | inr q ↦ rw q w
      | inl q ↦ rw q (elim (Bool-cases (approve || leb 2 (text_length reason))) [
        | inr x ↦ rw x tt
        | inl x ↦ rw x (elim (Bool-cases (vote_count v.id r.votes == 1)) [
          | inr y ↦ rw y w
          | inl y ↦ rw y (
              conclude-WellFormed
                (vote_commit v.step_id approve reason (name_of v.user_id) a.now answered)
                (λ r' done.
                  vote_commit-WellFormed v.step_id approve reason (name_of v.user_id) a.now answered
                    answered-IsLastOpen answered-WellFormed done))
        ])
      ])
    ])
  ]

-- A vote keeps the invariant where its step is the current one, and the last.
pub vote-WellFormed :
    (a : Access) (model : Ai) (name_of : ℕ → String) (r : Requisition) (hash : ℕ) (approve : Bool)
    (remark : Option String) {reply : VoteReply} {r' : Requisition} {sent : List Effect}
    → ((v : BoardVote) → find_vote hash r ≡ some v → IsLastOpen r v.step_id)
    → WellFormed r
    → vote a model name_of r hash approve remark ≡ ok (reply, (r', sent))
    → WellFormed r'
unfolding vote
vote-WellFormed a model name_of r hash approve remark {reply} {r'} o w e =
    let (v, found, rest) = >>=-eq-ok (or_throw (find_vote hash r) (not_found link_invalid)) _ e in
    let (u, live, done) =
      >>=-eq-ok (guard (not (ltb v.token_expires_at a.now)) (bad_request link_expired)) _ rest in
    Returns-ok KeptBy (cast_vote a model name_of r v approve (trim (or_else remark "")))
      (cast_vote-WellFormed a model name_of r v approve (trim (or_else remark ""))
        (o v (or_throw-some (find_vote hash r) (not_found link_invalid) found)) w)
      done
