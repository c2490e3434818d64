-- ===== src/Requisition/Invariant/Returns.antt =====
-- The invariant under `resubmit`, and what it makes of the chain.
use hrm_backend.Prelude.{
  ℕ, suc, ◌≡◌, refl, ◌∙◌, ◌⊎◌, true, ◌||◌, some, List, [], ◌∷◌, map, ok, arith, is_id, guard,
  bad_request, forbidden, >>=-eq-ok,
}
use hrm_backend.Requisition.Model.{
  Status, Step, Requisition, Actor, Effect, not_awaiting_approval, not_awaiting_clarification,
  only_raiser_resends,
}
use hrm_backend.Requisition.Steps.{parked}
use hrm_backend.Requisition.Steps.Laws.{AllPending, Numbered, Fresh, DistinctIds}
use hrm_backend.Requisition.Steps.Current.{AllPending-InOrder}
use hrm_backend.Requisition.Access.{Access, load, is_pending_approval}
use hrm_backend.Requisition.Access.Laws.{load-eq}
use hrm_backend.Requisition.Return.{reset_step, restarted, resubmit}
use hrm_backend.Requisition.Invariant.{WellFormed}

reset-AllPending : (ss : List Step) → AllPending (map reset_step ss)
reset-AllPending [] = tt
reset-AllPending (s ∷ ss) = (refl, reset-AllPending ss)

reset-Numbered : (k : ℕ) (ss : List Step) → Numbered k ss → Numbered k (map reset_step ss)
reset-Numbered k [] h = tt
reset-Numbered k (s ∷ ss) h = (h.0, reset-Numbered (suc k) ss h.1)

reset-Fresh : (n : ℕ) (ss : List Step) → Fresh n ss → Fresh n (map reset_step ss)
reset-Fresh n [] h = tt
reset-Fresh n (s ∷ ss) h = (h.0, reset-Fresh n ss h.1)

reset-DistinctIds : (ss : List Step) → DistinctIds ss → DistinctIds (map reset_step ss)
reset-DistinctIds [] h = tt
reset-DistinctIds (s ∷ ss) h = (reset-Fresh s.id ss h.0, reset-DistinctIds ss h.1)

reset-ids :
    (ss : List Step) → map (λ (s : Step). s.id) (map reset_step ss) ≡ map (λ (s : Step). s.id) ss
reset-ids [] = refl
reset-ids (s ∷ ss) = rw (reset-ids ss)

-- What a resubmission was allowed for, and what it made.
pub record Resubmitted (a : Access) (actor : Actor) (r r' : Requisition) : Type 0 where
  pub awaiting : r.status ≡ Status.pending_approval
  pub parked : parked r.steps ≡ true
  pub by_raiser : (is_id r.raised_by_id actor.id || a.is_super_user actor.id) ≡ true
  pub steps : r'.steps ≡ map reset_step r.steps
  pub status : r'.status ≡ r.status

pub resubmit-Resubmitted :
    (a : Access) (r : Requisition) (actor : Actor) {r' : Requisition} {sent : List Effect}
    → resubmit a r actor ≡ ok (r', sent)
    → Resubmitted a actor r r'
unfolding resubmit
resubmit-Resubmitted a r actor {r'} e =
    let (q, opened, rest) = >>=-eq-ok (load a (some r) (some actor.id)) _ e in
    let (u, awaiting, rest) =
      >>=-eq-ok (guard (is_pending_approval q.status) (bad_request not_awaiting_approval)) _ rest in
    let (v, parked, rest) =
      >>=-eq-ok (guard (parked q.steps) (bad_request not_awaiting_clarification)) _ rest in
    let (x, raiser, rest) =
      >>=-eq-ok
        (guard (is_id q.raised_by_id actor.id || a.is_super_user actor.id)
          (forbidden only_raiser_resends))
        _ rest in
    let (q', reopened, done) =
      >>=-eq-ok (load a (some (restarted actor q)) (some actor.id)) _ rest in
    ground (arith, load-eq a r actor.id opened, load-eq a (restarted actor q) actor.id reopened)

pub Resubmitted-WellFormed :
    (a : Access) (actor : Actor) (r r' : Requisition)
    → Resubmitted a actor r r'
    → WellFormed r
    → WellFormed r'
Resubmitted-WellFormed a actor r r' h w = record {
  numbered = rw h.steps (reset-Numbered 0 r.steps w.numbered);
  distinct = rw h.steps (reset-DistinctIds r.steps w.distinct);
  in_order = rw h.steps (AllPending-InOrder _ (reset-AllPending r.steps));
  settled = λ e. ground (arith, h.status, h.awaiting);
}

-- After a request for information only the raiser or a super user resends the requisition, and
-- then it waits for approval with the same steps under the same ids, every one of them pending.
pub resubmit_restarts :
    (a : Access) (r : Requisition) (actor : Actor) {r' : Requisition} {sent : List Effect}
    → resubmit a r actor ≡ ok (r', sent)
    → ((r.raised_by_id ≡ some actor.id) ⊎ (a.is_super_user actor.id ≡ true))
      × (parked r.steps ≡ true)
      × (r'.status ≡ Status.pending_approval)
      × AllPending r'.steps
      × (map (λ (s : Step). s.id) r'.steps ≡ map (λ (s : Step). s.id) r.steps)
resubmit_restarts a r actor {r'} e =
    let h = resubmit-Resubmitted a r actor e in
    (
      ground (arith, h.by_raiser),
      h.parked,
      h.status ∙ h.awaiting,
      rw h.steps (reset-AllPending r.steps),
      rw h.steps (reset-ids r.steps),
    )
