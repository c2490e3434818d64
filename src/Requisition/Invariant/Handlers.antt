-- ===== src/Requisition/Invariant/Handlers.antt =====
-- The invariant under the handlers that leave the chain alone.
use hrm_backend.Prelude.{
  ℕ, String, ◌≡◌, Option, some, List, ok, arith, ◌&&◌, not, is_some, is_nil, guard, bad_request,
  >>=-eq-ok,
}
use hrm_backend.Requisition.Model.{
  CvSource, Requisition, Actor, Effect, not_approved_yet, cv_sources_missing,
}
use hrm_backend.Requisition.Access.{Access, load, is_approved, require_recruitment_lead}
use hrm_backend.Requisition.Access.Laws.{load-eq}
use hrm_backend.Requisition.Profile.{Ai}
use hrm_backend.Requisition.Return.{return_job_analysis_to_raiser, resend_for_job_analysis}
use hrm_backend.Requisition.JobAnalysis.{JobAnalysis, save_job_analysis}
use hrm_backend.Requisition.Recruitment.{
  ProfileEdit, UserRow, generate_role_profile, update_role_profile, post, set_cv_sources,
  assign_recruiter, replace_sources, normalise_cv_sources, assigned, named_recruiter,
}
use hrm_backend.Requisition.Invariant.{WellFormed}

-- The chain is as it was, and so is whether the requisition is past it.
pub record KeepsChain (r r' : Requisition) : Type 0 where
  pub steps : r'.steps ≡ r.steps
  pub stage : is_approved r'.status ≡ is_approved r.status

pub KeepsChain-WellFormed : (r r' : Requisition) → KeepsChain r r' → WellFormed r → WellFormed r'
KeepsChain-WellFormed r r' k w = record {
  numbered = rw k.steps w.numbered;
  distinct = rw k.steps w.distinct;
  in_order = rw k.steps w.in_order;
  settled = λ h. rw k.steps (w.settled (rw k.stage at h));
}

replace-KeepsChain :
    (a : Access) (actor : Actor) (next : List CvSource) (r : Requisition)
    → KeepsChain r (replace_sources a actor next r).0
unfolding replace_sources
replace-KeepsChain a actor next r = ground arith

module _ (a : Access) (r : Requisition) (actor : Actor) {r' : Requisition}
    {sent : List Effect} where
  pub return-KeepsChain :
      (note : String)
      → return_job_analysis_to_raiser a r note actor ≡ ok (r', sent)
      → KeepsChain r r'
  unfolding return_job_analysis_to_raiser
  return-KeepsChain note e =
      let (q, opened, rest) = >>=-eq-ok (load a (some r) (some actor.id)) _ e in
      ground (arith, load-eq a r actor.id opened)

  pub resend-KeepsChain : resend_for_job_analysis a r actor ≡ ok (r', sent) → KeepsChain r r'
  unfolding resend_for_job_analysis
  resend-KeepsChain e =
      let (q, opened, rest) = >>=-eq-ok (load a (some r) (some actor.id)) _ e in
      ground (arith, load-eq a r actor.id opened)

  pub save-KeepsChain :
      (dto : JobAnalysis) → save_job_analysis a r dto actor ≡ ok (r', sent) → KeepsChain r r'
  unfolding save_job_analysis
  save-KeepsChain dto e =
      let (q, opened, rest) = >>=-eq-ok (load a (some r) (some actor.id)) _ e in
      ground (arith, load-eq a r actor.id opened)

  pub generate-KeepsChain :
      (model : Ai) → generate_role_profile a model r actor ≡ ok (r', sent) → KeepsChain r r'
  unfolding generate_role_profile
  generate-KeepsChain model e =
      let (q, opened, rest) = >>=-eq-ok (load a (some r) (some actor.id)) _ e in
      ground (arith, load-eq a r actor.id opened)

  pub edit-KeepsChain :
      (dto : ProfileEdit) → update_role_profile a r dto actor ≡ ok (r', sent) → KeepsChain r r'
  unfolding update_role_profile
  edit-KeepsChain dto e =
      let (q, opened, rest) = >>=-eq-ok (load a (some r) (some actor.id)) _ e in
      ground (arith, load-eq a r actor.id opened)

  pub post-KeepsChain : (date : String) → post a r date actor ≡ ok (r', sent) → KeepsChain r r'
  unfolding post
  post-KeepsChain date e =
      let (q, opened, rest) = >>=-eq-ok (load a (some r) (some actor.id)) _ e in
      ground (arith, load-eq a r actor.id opened)

  pub cv_sources-KeepsChain :
      (sources : List String) → set_cv_sources a r sources actor ≡ ok (r', sent) → KeepsChain r r'
  unfolding set_cv_sources
  cv_sources-KeepsChain sources e =
      let (q, opened, rest) = >>=-eq-ok (load a (some r) (some actor.id)) _ e in
      ground (
        arith,
        load-eq a r actor.id opened,
        replace-KeepsChain a actor (normalise_cv_sources sources) q,
      )

  pub assign-KeepsChain :
      (users : ℕ → Option UserRow) (recruiter : Option ℕ)
      → assign_recruiter a users r recruiter actor ≡ ok (r', sent)
      → KeepsChain r r'
  unfolding assign_recruiter
  assign-KeepsChain users recruiter e =
      let (q, opened, rest) = >>=-eq-ok (load a (some r) (some actor.id)) _ e in
      let (u, lead, rest) = >>=-eq-ok (require_recruitment_lead a q actor.id) _ rest in
      let (v, stage, rest) =
        >>=-eq-ok (guard (is_approved q.status) (bad_request not_approved_yet)) _ rest in
      let (x, ticked, rest) =
        >>=-eq-ok
          (guard (not (is_some recruiter && is_nil q.cv_sources)) (bad_request cv_sources_missing))
          _ rest in
      let (name, checked, rest) = >>=-eq-ok (named_recruiter a users q recruiter) _ rest in
      let (q', reopened, done) =
        >>=-eq-ok (load a (some (assigned a actor recruiter name q)) (some actor.id)) _ rest in
      ground (
        arith,
        load-eq a r actor.id opened,
        load-eq a (assigned a actor recruiter name q) actor.id reopened,
      )
