-- ===== src/Requisition/Invariant/Decisions.antt =====
-- The invariant under `act`.
use hrm_backend.Prelude.{
  ℕ, ◌-◌, ◌≡◌, refl, sym, inl, inr, true, false, some, List, ok, arith, length, ◌==◌, Bool-cases,
  ==_iff, Returns, Returns-ok, >>=-eq-ok, String, ◌∙◌, subst,
}
use hrm_backend.Requisition.Model.{
  Status, StepStatus, Decision, Step, Requisition, Actor, Activity, Effect,
}
use hrm_backend.Requisition.Steps.{first_pending, parked, update_step, claim_count, add_activity}
use hrm_backend.Requisition.Steps.Laws.{
  is_settled, AllSettled, Fresh, create_step-append, Numbered-append, Numbered-update,
  length-update, DistinctIds-update, DistinctIds-append, Fresh-update,
}
use hrm_backend.Requisition.Steps.Current.{
  current-lt, current-not_AllSettled, InOrder-append, decide-InOrder, decide_last-AllSettled,
}
use hrm_backend.Requisition.Access.{Access, is_approved}
use hrm_backend.Requisition.Decision.{
  Plan, sign, set_step, settle, act_check, act_commit, act, finish_decision, chro_step, log_action,
}
use hrm_backend.Requisition.Profile.{Ai}
use hrm_backend.Requisition.Decision.Checked.{Checked, act_check-Checked}
use hrm_backend.Requisition.Invariant.{WellFormed}

-- Deciding the current step without appending one.
decided-WellFormed :
    (r : Requisition) (i : ℕ) (c : Step) (f : Step → Step) (status : Status)
    → ((s : Step) → (f s).order_index ≡ s.order_index)
    → ((s : Step) → (f s).id ≡ s.id)
    → first_pending r.steps ≡ some (i, c)
    → parked r.steps ≡ false
    → (is_approved status ≡ true → AllSettled (update_step c.id f r.steps))
    → WellFormed r
    → WellFormed (record r { steps = update_step c.id f r.steps; status = status })
decided-WellFormed r i c f status o q e p k w = record {
  numbered = Numbered-update 0 c.id f r.steps o w.numbered;
  distinct = DistinctIds-update c.id f r.steps q w.distinct;
  in_order = decide-InOrder i c f r.steps e p w.distinct w.in_order;
  settled = k;
}

module _ (p : Plan) (new_id now : ℕ) (r : Requisition) (c : Step)
    (is_current : first_pending r.steps ≡ some (p.index, c)) (free : parked r.steps ≡ false)
    (step : p.step ≡ c.id) (count : p.count ≡ length r.steps) (w : WellFormed r) where
  -- A requisition with a current step is not past its chain.
  not_approved : is_approved r.status ≡ true → ⊥
  not_approved h = current-not_AllSettled p.index c r.steps is_current (w.settled h)

  still_open :
      (f : Step → Step)
      → ((s : Step) → (f s).order_index ≡ s.order_index)
      → ((s : Step) → (f s).id ≡ s.id)
      → WellFormed (set_step p f r)
  still_open f o q = rw step (
      decided-WellFormed r p.index c f r.status o q is_current free (λ h. absurd (not_approved h))
        w)

  last_settled :
      (f : Step → Step)
      → ((s : Step) → is_settled (f s).status ≡ true)
      → p.index ≡ p.count - 1
      → AllSettled (update_step c.id f r.steps)
  last_settled f q last =
      decide_last-AllSettled p.index c f r.steps q is_current free w.distinct
        (omega (arith, current-lt p.index c r.steps is_current))

  settle_approved : Returns WellFormed (settle Decision.approved p new_id now r)
  unfolding settle
  settle_approved = elim (Bool-cases (p.index == p.count - 1)) [
    | inl last ↦
        rw (last, step)
          (decided-WellFormed r p.index c _ Status.approved (λ s. refl) (λ s. refl) is_current free
            (λ h. last_settled _ (λ s. refl) ((==_iff _ _).0 last)) w)
    | inr more ↦ rw more (still_open _ (λ s. refl) (λ s. refl))
  ]

  settle_rejected : Returns WellFormed (settle Decision.rejected p new_id now r)
  unfolding settle
  settle_rejected = rw step (
      decided-WellFormed r p.index c _ Status.rejected (λ s. refl) (λ s. refl) is_current free
        (λ h. cc) w)

  settle_info : Returns WellFormed (settle Decision.need_more_info p new_id now r)
  unfolding settle
  settle_info = still_open _ (λ s. refl) (λ s. refl)

  -- The CHRO's step comes after the last, which is then over.
  settle_escalate :
      p.index ≡ length r.steps - 1
      → Fresh new_id r.steps
      → Returns WellFormed (settle Decision.escalate p new_id now r)
  unfolding settle
  settle_escalate final fresh =
      rw
        (create_step-append (chro_step p new_id) _ signed.numbered
          (omega (arith, length-update p.step (sign p StepStatus.approved now) r.steps)))
        (record {
          numbered =
              Numbered-append 0 (chro_step p new_id) _ signed.numbered
                (omega (arith, length-update p.step (sign p StepStatus.approved now) r.steps));
          distinct =
              DistinctIds-append (chro_step p new_id) _ signed.distinct
                (Fresh-update new_id p.step _ r.steps (λ s. refl) fresh);
          in_order =
              InOrder-append (chro_step p new_id)
                (update_step p.step (sign p StepStatus.approved now) r.steps)
                (rw step (last_settled _ (λ s. refl) (omega arith)));
          settled = λ h. absurd (not_approved h);
        })
    where
      signed : WellFormed (set_step p (sign p StepStatus.approved now) r)
      signed = still_open _ (λ s. refl) (λ s. refl)

  settle-WellFormed :
      (d : Decision)
      → (d ≡ Decision.escalate → p.index ≡ length r.steps - 1)
      → Fresh new_id r.steps
      → Returns WellFormed (settle d p new_id now r)
  unfolding settle
  settle-WellFormed Decision.approved final fresh = settle_approved
  settle-WellFormed Decision.rejected final fresh = settle_rejected
  settle-WellFormed Decision.need_more_info final fresh = settle_info
  settle-WellFormed Decision.escalate final fresh = settle_escalate (final refl) fresh
  settle-WellFormed Decision.send_to_board final fresh = settle_approved

act_commit-WellFormed :
    (a : Access) (d : Decision) {note : String} (actor : Actor) (p : Plan) (new_id now : ℕ)
    (r : Requisition)
    → Checked a r d note actor p
    → Fresh new_id r.steps
    → WellFormed r
    → Returns WellFormed (act_commit p new_id now r)
unfolding act_commit
act_commit-WellFormed a d actor p new_id now r c fresh w =
    elim (Bool-cases (claim_count p.step r.steps == 1)) [
      | inl claimed ↦ rw claimed (
          settle-WellFormed p new_id now (add_activity entry r) c.current c.is_current c.free c.step
            c.count
            (record {
              numbered = w.numbered;
              distinct = w.distinct;
              in_order = w.in_order;
              settled = w.settled;
            })
            p.decision (λ e. c.final (sym c.decision ∙ e)) fresh)
      | inr gone ↦ rw gone tt
    ]
  where
    entry : Activity
    entry = record { actor = p.actor; action = log_action p.decision; note = p.note }

pub finish_decision-WellFormed :
    (a : Access) (model : Ai) (now : ℕ) (d : Decision) (r : Requisition)
    → WellFormed r
    → WellFormed (finish_decision a model now d r).0
unfolding finish_decision
finish_decision-WellFormed a model now d r w = ground (arith, w.settled)

-- Acting on a sign-off keeps the invariant, whatever the decision, if the database gives a new step
-- an id that no step of the chain has.
pub act-WellFormed :
    (a : Access) (model : Ai) (r : Requisition) (d : Decision) (note : String) (actor : Actor)
    (new_id : ℕ) {r' : Requisition} {sent : List Effect}
    → WellFormed r
    → Fresh new_id r.steps
    → act a model r d note actor new_id ≡ ok (r', sent)
    → WellFormed r'
unfolding act
act-WellFormed a model r d note actor new_id {r'} w fresh e =
    let (p, checked, rest) = >>=-eq-ok (act_check a r d note actor) _ e in
    let (q, landed, done) = >>=-eq-ok (act_commit p new_id a.now r) _ rest in
    let kept : WellFormed q =
      Returns-ok WellFormed (act_commit p new_id a.now r)
        (act_commit-WellFormed a d actor p new_id a.now r
          (act_check-Checked a r d note actor checked) fresh w)
        landed in
    let same : (finish_decision a model a.now d q).0 ≡ r' = cc in
    subst WellFormed same (finish_decision-WellFormed a model a.now d q kept)
