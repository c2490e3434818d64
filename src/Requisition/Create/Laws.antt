-- ===== src/Requisition/Create/Laws.antt =====
-- The invariant of a new requisition, and of what becomes of it (`create`).
use hrm_backend.Prelude.{
  ℕ, ◌≡◌, ◌⊎◌, true, ◌||◌, some, List, all, is_some, ok, err, guard, forbidden, bad_request,
  >>=-eq-ok, ok_eq, subst, sym, ap, guard-true, or-cases,
}
use hrm_backend.Requisition.Model.{
  Status, Step, Replacement, Requisition, Actor, Effect, not_raiser, replaced_missing,
  separation_missing,
}
use hrm_backend.Requisition.Steps.Current.{AllPending-InOrder}
use hrm_backend.Requisition.Access.{Access}
use hrm_backend.Requisition.Create.{
  NewRequisition, Office, passed_on, replaced_by, is_there, raised, create,
}
use hrm_backend.Requisition.Invariant.{WellFormed}
use hrm_backend.Requisition.Lifecycle.Reachable.{Leads, reachable-WellFormed}
use hrm_backend.ApprovalPaths.{Answer}
use hrm_backend.ApprovalPaths.Laws.{IsValid}
use hrm_backend.ApprovalPaths.Chain.{build_steps_for_raiser}
use hrm_backend.ApprovalPaths.ChainLaws.{ChainIsValid, build_steps-ChainIsValid}

passed_on-ok : (m : Answer (List Step)) {steps : List Step} → passed_on m ≡ ok steps → m ≡ ok steps
passed_on-ok (ok xs) e = ap ok (ok_eq xs _ e)
passed_on-ok (err x) e = cc

chain-WellFormed :
    (o : Office) (dto : NewRequisition) (raiser : Actor) (steps : List Step)
    → ChainIsValid raiser.id steps
    → WellFormed (raised o dto raiser steps)
chain-WellFormed o dto raiser steps h = record {
  numbered = h.numbered;
  distinct = h.distinct;
  in_order = AllPending-InOrder steps h.pending;
  settled = λ e. cc;
}

-- Where the directory of approval paths is valid and the new steps get distinct ids, a create
-- that succeeds was made by a raiser of the unit, and makes a requisition that waits for its
-- job analysis, in the raiser's name, with a valid chain and the invariant, and, unless it is a
-- new headcount, with a separation reason for everyone it replaces.
pub create-raises :
    (a : Access) (o : Office) (dto : NewRequisition) (raiser : Actor) {r : Requisition}
    {sent : List Effect}
    → ((j k : ℕ) → o.step_ids j ≡ o.step_ids k → j ≡ k)
    → IsValid o.directory
    → create a o dto raiser ≡ ok (r, sent)
    → (a.has_role_for_unit raiser.id "requisition_raiser" dto.unit_factory ≡ true)
      × (r.status ≡ Status.pending_job_analysis)
      × (r.raised_by_id ≡ some raiser.id)
      × ChainIsValid raiser.id r.steps
      × WellFormed r
      × ((dto.is_new_headcount ≡ true)
          ⊎ (all (λ (x : Replacement). is_some x.separation_reason) r.replacements ≡ true))
unfolding create
create-raises a o dto raiser {r} apart v e =
    let (u, allowed, rest) =
      >>=-eq-ok
        (guard (a.has_role_for_unit raiser.id "requisition_raiser" dto.unit_factory)
          (forbidden not_raiser))
        _ e in
    let (x, looked, rest) =
      >>=-eq-ok (o.lookup dto.unit_factory dto.department dto.designation raiser.id) _ rest in
    let (y, named, rest) =
      >>=-eq-ok
        (guard (dto.is_new_headcount || is_there (replaced_by o dto))
          (bad_request replaced_missing))
        _ rest in
    let (z, reasons, rest) =
      >>=-eq-ok
        (guard
          (dto.is_new_headcount
            || all (λ (x : Replacement). is_some x.separation_reason) (replaced_by o dto))
          (bad_request separation_missing))
        _ rest in
    let (steps, built, done) =
      >>=-eq-ok
        (passed_on (
          build_steps_for_raiser o.lower o.step_ids o.rights o.directory dto.unit_factory raiser.id
            dto.department))
        _ rest in
    let chain : ChainIsValid raiser.id steps =
      build_steps-ChainIsValid o.lower o.step_ids o.rights o.directory dto.unit_factory raiser.id
        dto.department apart v (passed_on-ok _ built) in
    let same : raised o dto raiser steps ≡ r = ap (λ x. x.0) (ok_eq _ _ done) in
    (
      guard-true _ _ allowed,
      ap (λ (x : Requisition). x.status) (sym same),
      ap (λ (x : Requisition). x.raised_by_id) (sym same),
      subst (λ (x : Requisition). ChainIsValid raiser.id x.steps) same chain,
      subst WellFormed same (chain-WellFormed o dto raiser steps chain),
      subst
          (λ (x : Requisition).
            (dto.is_new_headcount ≡ true)
            ⊎ (all (λ (x : Replacement). is_some x.separation_reason) x.replacements ≡ true))
          same (or-cases _ _ (guard-true _ _ reasons)),
    )

-- Whatever requests follow a create that succeeds, in whatever order, the requisition keeps the
-- invariant, where the directory of approval paths is valid, the new steps get distinct ids,
-- each appended step has a new id, and each vote is on a step that is the current one and the
-- last.
pub created-WellFormed :
    (a : Access) (o : Office) (dto : NewRequisition) (raiser : Actor) {r r' : Requisition}
    {sent : List Effect}
    → ((j k : ℕ) → o.step_ids j ≡ o.step_ids k → j ≡ k)
    → IsValid o.directory
    → create a o dto raiser ≡ ok (r, sent)
    → Leads r r'
    → WellFormed r'
created-WellFormed a o dto raiser {r} apart v e leads =
    reachable-WellFormed r (create-raises a o dto raiser apart v e).4 leads
