-- ===== src/Requisition/Approval.antt =====
-- About `act` on the approval chain: who decides, and what a last approval makes.
use hrm_backend.Prelude.{
  ℕ, ◌+◌, ◌-◌, String, ◌≡◌, refl, sym, ap, ◌∙◌, subst, ◌≢◌, true, false, some, List, ok, err, arith,
  length, ◌==◌, ==_iff, bad_request, >>=-eq-ok, guard-eq-ok, ok_eq,
}
use hrm_backend.Requisition.Model.{
  Status, StepStatus, ApprovalRole, Decision, Step, Requisition, Actor, Effect, sent_back,
  already_actioned,
}
use hrm_backend.Requisition.Steps.{first_pending, parked, update_step, claim_count, create_step}
use hrm_backend.Requisition.Steps.Laws.{AllSettled}
use hrm_backend.Requisition.Steps.Current.{claim_current, decide_last-AllSettled}
use hrm_backend.Requisition.Access.{Access, can_act_on_step, may_open, is_approved}
use hrm_backend.Requisition.Profile.{Ai}
use hrm_backend.Requisition.Decision.{
  Plan, with_chro, sign, turn_down, chro_step, settle, act_check, act_commit, act, finish_decision,
}
use hrm_backend.Requisition.Decision.Checked.{
  approval_plan, act_check-Checked, act_check-parked, act_check-approved,
}
use hrm_backend.Requisition.Invariant.{WellFormed}

-- What a decision makes of the step it is about.
abbrev pub answer_of : Decision → StepStatus
answer_of Decision.approved = StepStatus.approved
answer_of Decision.rejected = StepStatus.rejected
answer_of Decision.need_more_info = StepStatus.info_requested
answer_of Decision.escalate = StepStatus.approved
answer_of Decision.send_to_board = StepStatus.approved

-- A step that carries the answer to `d`, given now with the note.
abbrev pub Carries : Decision → String → ℕ → Step → Type 0
Carries d note now s = (s.status ≡ answer_of d) × (s.note ≡ note) × (s.acted_at ≡ some now)

-- An escalation adds a CHRO step that waits; nothing else adds a step.
abbrev pub Extends : Decision → List Step → List Step → Type 0
Extends Decision.escalate before after =
    (t : Step) × (t.role ≡ some ApprovalRole.chro)
    × (t.status ≡ StepStatus.pending)
    × (create_step t before ≡ ok after)
Extends _ before after = after ≡ before

-- The steps after an answer to the step of an id, which stood open once.
pub record Answers (d : Decision) (step : ℕ) (note : String) (now : ℕ) (before after : List Step)
    : Type 0 where
  pub answer : Step → Step
  pub carries : (s : Step) → Carries d note now (answer s)
  pub was_open : claim_count step before ≡ 1
  pub extends : Extends d (update_step step answer before) after

settle-Answers :
    (d : Decision) (p : Plan) (new_id now : ℕ) (r : Requisition) {q : Requisition}
    → claim_count p.step r.steps ≡ 1
    → settle d p new_id now r ≡ ok q
    → Answers d p.step p.note now r.steps q.steps
unfolding settle
settle-Answers Decision.escalate p new_id now r claimed e =
    let (steps, made, done) =
      >>=-eq-ok
        (create_step (chro_step p new_id)
          (update_step p.step (sign p StepStatus.approved now) r.steps))
        _ e in
    record {
      answer = sign p StepStatus.approved now;
      carries = λ s. (refl, refl, refl);
      was_open = claimed;
      extends = (
        chro_step p new_id,
        refl,
        refl,
        made ∙ ap (λ (x : Requisition). ok x.steps) (ok_eq _ _ done),
      );
    }
settle-Answers Decision.rejected p new_id now r claimed e = record {
  answer = turn_down p now;
  carries = λ s. (refl, refl, refl);
  was_open = claimed;
  extends = ap (λ (x : Requisition). x.steps) (sym (ok_eq _ _ e));
}
settle-Answers Decision.need_more_info p new_id now r claimed e = record {
  answer = sign p StepStatus.info_requested now;
  carries = λ s. (refl, refl, refl);
  was_open = claimed;
  extends = ap (λ (x : Requisition). x.steps) (sym (ok_eq _ _ e));
}
settle-Answers Decision.approved p new_id now r claimed e = record {
  answer = sign p StepStatus.approved now;
  carries = λ s. (refl, refl, refl);
  was_open = claimed;
  extends = ground arith;
}
settle-Answers Decision.send_to_board p new_id now r claimed e = record {
  answer = sign p StepStatus.approved now;
  carries = λ s. (refl, refl, refl);
  was_open = claimed;
  extends = ground arith;
}

act_commit-Answers :
    (p : Plan) (new_id now : ℕ) (r : Requisition) {q : Requisition}
    → act_commit p new_id now r ≡ ok q
    → Answers p.decision p.step p.note now r.steps q.steps
unfolding act_commit
act_commit-Answers p new_id now r e =
    let (one, done) =
      guard-eq-ok (claim_count p.step r.steps == 1) (bad_request already_actioned) _ e in
    settle-Answers p.decision p new_id now _ ((==_iff _ _).0 one) done

Answers-subst :
    {d d' : Decision} {step step' : ℕ} {note note' : String} {now : ℕ}
    {before after after' : List Step}
    → d ≡ d'
    → step ≡ step'
    → note ≡ note'
    → after ≡ after'
    → Answers d step note now before after
    → Answers d' step' note' now before after'
Answers-subst {d} {d'} {step} {step'} {note} {note'} {now} {before} {after} {after'} e f g h
      answered =
    subst (λ x. Answers x step' note' now before after') e
      (subst (λ x. Answers d x note' now before after') f
        (subst (λ x. Answers d step x now before after') g
          (subst (λ x. Answers d step note now before x) h answered)))

pub finish_steps :
    (a : Access) (model : Ai) (now : ℕ) (d : Decision) (r : Requisition)
    → (finish_decision a model now d r).0.steps ≡ r.steps
unfolding finish_decision
finish_steps a model now d r = ground arith

-- An action that succeeds answers the current step of a chain that is not parked, which stood open
-- and on which the actor may act: under its id, and no other, the decision, its note and its instant
-- are written. It is no hand-off to the board; and an escalation is made on the last step only, not
-- from the CHRO or the board, and adds a CHRO step that waits, where every other decision adds none.
pub act_authorised :
    (a : Access) (model : Ai) (r : Requisition) (d : Decision) (note : String) (actor : Actor)
    (new_id : ℕ) {r' : Requisition} {sent : List Effect}
    → act a model r d note actor new_id ≡ ok (r', sent)
    → (i : ℕ) × (c : Step) × (first_pending r.steps ≡ some (i, c))
      × (parked r.steps ≡ false)
      × (can_act_on_step a c r.unit_factory actor.id ≡ true)
      × (d ≢ Decision.send_to_board)
      × (d ≡ Decision.escalate → (i ≡ length r.steps - 1) × (with_chro c.role ≡ false))
      × Answers d c.id note a.now r.steps r'.steps
unfolding act
act_authorised a model r d note actor new_id {r' = r'} e =
    let (p, checked, rest) = >>=-eq-ok (act_check a r d note actor) _ e in
    let c = act_check-Checked a r d note actor checked in
    let (q, landed, done) = >>=-eq-ok (act_commit p new_id a.now r) _ rest in
    let kept : q.steps ≡ r'.steps =
      sym (finish_steps a model a.now d q)
      ∙ ap (λ (x : Requisition × List Effect). x.0.steps) (ok_eq _ _ done) in
    let answered : Answers p.decision p.step p.note a.now r.steps q.steps =
      act_commit-Answers p new_id a.now r landed in
    (
      p.index,
      c.current,
      c.is_current,
      c.free,
      c.allowed,
      c.in_app,
      (λ q. (c.final q, c.below_chro q)),
      Answers-subst c.decision c.step c.written kept answered,
    )

-- While a requisition is with its raiser for clarification, whoever may open it is refused every
-- action on it.
pub parked_refuses :
    (a : Access) (model : Ai) (r : Requisition) (d : Decision) (note : String) (actor : Actor)
    (new_id : ℕ)
    → may_open a r actor.id ≡ true
    → parked r.steps ≡ true
    → act a model r d note actor new_id ≡ err (bad_request sent_back)
unfolding act
parked_refuses a model r d note actor new_id opens p =
    rw (act_check-parked a r d note actor opens p) refl

commit_last :
    (p : Plan) (new_id now : ℕ) (r : Requisition)
    → p.decision ≡ Decision.approved
    → (p.index == p.count - 1) ≡ true
    → claim_count p.step r.steps ≡ 1
    → (q : Requisition) × (act_commit p new_id now r ≡ ok q)
      × (q.status ≡ Status.approved)
      × (q.steps ≡ update_step p.step (sign p StepStatus.approved now) r.steps)
unfolding act_commit settle
commit_last p new_id now r d last claimed = rw (claimed, d, last) (_, refl, refl, refl)

pub finish_approved :
    (a : Access) (model : Ai) (now : ℕ) (d : Decision) (r : Requisition)
    → r.status ≡ Status.approved
    → is_approved (finish_decision a model now d r).0.status ≡ true
unfolding finish_decision
finish_approved a model now d r e = ground arith

-- Whoever may open a requisition that keeps the invariant and is not parked, and may act on its
-- current step, can approve that step where it is the last one: the requisition is past its
-- chain then with every step over, whatever its status was before.
pub approve_last :
    (a : Access) (model : Ai) (r : Requisition) (note : String) (actor : Actor) (new_id i : ℕ)
    (c : Step)
    → WellFormed r
    → may_open a r actor.id ≡ true
    → parked r.steps ≡ false
    → first_pending r.steps ≡ some (i, c)
    → can_act_on_step a c r.unit_factory actor.id ≡ true
    → i + 1 ≡ length r.steps
    → (r' : Requisition) × (sent : List Effect) × (act a model r Decision.approved note actor new_id
        ≡ ok (r', sent))
      × (is_approved r'.status ≡ true)
      × AllSettled r'.steps
unfolding act
approve_last a model r note actor new_id i c w opens free found allowed last =
    let (q, landed, approved, steps) =
      commit_last (approval_plan r i c note actor) new_id a.now r refl
        ((==_iff _ _).1 (omega arith)) (claim_current i c r.steps found w.distinct) in
    let end : Requisition × List Effect = finish_decision a model a.now Decision.approved q in
    (
      end.0,
      end.1,
      rw (act_check-approved a r note actor i c opens free found allowed, landed) refl,
      finish_approved a model a.now Decision.approved q approved,
      rw (finish_steps a model a.now Decision.approved q, steps)
          (decide_last-AllSettled i c _ r.steps (λ s. refl) found free w.distinct (omega arith)),
    )
