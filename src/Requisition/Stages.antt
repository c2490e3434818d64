-- ===== src/Requisition/Stages.antt =====
-- About the handlers before and after the approval chain: the job analysis, who may edit, the CV
-- sources and the recruiter.
use hrm_backend.Prelude.{
  ℕ, ◌≤◌, String, ◌≡◌, ◌⊎◌, inl, inr, true, false, ◌&&◌, ◌||◌, not, Option, none, some, List, ok,
  arith, or_else, nonempty, text_length, is_some, is_nil, keep-cong, Bool-cases, guard, bad_request,
  >>=-eq-ok, or_throw, or_throw-some, guard-true, not_found,
}
use hrm_backend.Requisition.Model.{
  Status, Requisition, Actor, Effect, not_approved_yet, cv_sources_missing, recruiter_missing,
}
use hrm_backend.Requisition.Access.{
  Access, Footing, load, is_approved, cover_holds, require_edit_access, require_recruitment_lead,
}
use hrm_backend.Requisition.Access.Laws.{load-eq}
use hrm_backend.Requisition.Return.{require_job_analysis_access}
use hrm_backend.Requisition.JobAnalysis.{
  JobAnalysis, written, is_complete, released, save_job_analysis,
}
use hrm_backend.Requisition.Recruitment.{
  UserRow, named_recruiter, check_recruiter, assigned, assign_recruiter, cv_source_catalogue,
  cv_source_key, ticked, normalise_cv_sources,
}

-- A job analysis that is saved was saved before the chain by someone who may complete it. If it
-- was submitted, the requisition waits for approval then, signed and dated and no longer
-- returned, with a description of at least five characters, an education and an experience; if
-- it was a draft, it still waits for its job analysis.
pub save_job_analysis_stages :
    (a : Access) (r : Requisition) (dto : JobAnalysis) (actor : Actor) {r' : Requisition}
    {sent : List Effect}
    → save_job_analysis a r dto actor ≡ ok (r', sent)
    → (r.status ≡ Status.pending_job_analysis)
      × (a.can_complete_job_analysis actor.id r.unit_factory r.job_analysis_assignee_id ≡ true)
      × (or_else dto.submit true ≡ true
          → (r'.status ≡ Status.pending_approval)
            × (r'.job_analysis_by_id ≡ some actor.id)
            × (r'.job_analysis_at ≡ some a.now)
            × (r'.job_analysis_returned_at ≡ none)
            × (5 ≤ text_length r'.job_description)
            × (nonempty r'.education ≡ true)
            × (nonempty r'.experience ≡ true))
      × (or_else dto.submit true ≡ false → r'.status ≡ Status.pending_job_analysis)
unfolding save_job_analysis require_job_analysis_access written is_complete released
save_job_analysis_stages a r dto actor e =
    let (q, opened, rest) = >>=-eq-ok (load a (some r) (some actor.id)) _ e in
    let same = load-eq a r actor.id opened in
    (
      ground (arith, same),
      ground (arith, same),
      (λ h. (
        ground (arith, same),
        ground (arith, same),
        ground (arith, same),
        ground (arith, same),
        ground (arith, same),
        ground (arith, same),
        ground (arith, same),
      )),
      λ h. ground (arith, same),
    )

-- Once a requisition is past its chain, only three sorts of people may edit it: a super user, the
-- Head of Talent Acquisition or the CHRO of its unit, and its recruiter or the recruiter who covers
-- for them while the cover lasts.
pub edit_after_approval :
    (a : Access) (r : Requisition) (user : ℕ) (f : Footing)
    → is_approved r.status ≡ true
    → require_edit_access a r user ≡ ok f
    → (a.is_super_user user ≡ true)
      ⊎ ((a.has_role_for_unit user "corporate_hr" r.unit_factory
            || a.has_role_for_unit user "chro" r.unit_factory)
          ≡ true)
      ⊎ (r.recruiter_id ≡ some user)
      ⊎ ((r.cover_recruiter_id ≡ some user) × (cover_holds a.now r.cover_until ≡ true))
unfolding require_edit_access
edit_after_approval a r user f over e = elim (Bool-cases (a.is_super_user user)) [
  | inl x ↦ inl x
  | inr x ↦ inr (ground arith)
]

-- The user row that a recruiter is vetted by.
abbrev Vetted : Access → (ℕ → Option UserRow) → Requisition → ℕ → Type 0
Vetted a users r u =
    (row : UserRow) × (users u ≡ some row)
    × (row.is_active ≡ true)
    × (a.has_role_for_unit row.id "corporate_recruiter" r.unit_factory ≡ true)

named_recruiter-Vetted :
    (a : Access) (users : ℕ → Option UserRow) (r : Requisition) (recruiter : Option ℕ)
    {name : String}
    → named_recruiter a users r recruiter ≡ ok name
    → (u : ℕ) → recruiter ≡ some u
    → Vetted a users r u
unfolding named_recruiter check_recruiter
named_recruiter-Vetted a users r none e u p = cc
named_recruiter-Vetted a users r (some v) e u p =
    let (row, found, rest) = >>=-eq-ok (or_throw (users v) (not_found recruiter_missing)) _ e in
    (
      row,
      or_throw-some (users u) (not_found recruiter_missing) (ground arith),
      ground arith,
      ground arith,
    )

-- A recruiter is set or cleared by a lead alone and past the chain, which ends a cover; one who
-- is set is an active user with the recruiter's role in the unit, and CV sources are chosen
-- already.
pub assign_recruiter_checked :
    (a : Access) (users : ℕ → Option UserRow) (r : Requisition) (recruiter : Option ℕ)
    (actor : Actor) {r' : Requisition} {sent : List Effect}
    → assign_recruiter a users r recruiter actor ≡ ok (r', sent)
    → ((a.has_role_for_unit actor.id "corporate_hr" r.unit_factory
          || a.has_role_for_unit actor.id "chro" r.unit_factory)
        ≡ true)
      × (r'.recruiter_id ≡ recruiter)
      × (r'.cover_recruiter_id ≡ none)
      × (is_approved r.status ≡ true)
      × ((u : ℕ) → recruiter ≡ some u → (is_nil r.cv_sources ≡ false) × Vetted a users r u)
unfolding assign_recruiter require_recruitment_lead
assign_recruiter_checked a users r recruiter actor e =
    let (q, opened, rest) = >>=-eq-ok (load a (some r) (some actor.id)) _ e in
    let (u, lead, rest) = >>=-eq-ok (require_recruitment_lead a q actor.id) _ rest in
    let (v, stage, rest) =
      >>=-eq-ok (guard (is_approved q.status) (bad_request not_approved_yet)) _ rest in
    let (x, sources, rest) =
      >>=-eq-ok
        (guard (not (is_some recruiter && is_nil q.cv_sources)) (bad_request cv_sources_missing)) _
        rest in
    let (name, checked, rest) = >>=-eq-ok (named_recruiter a users q recruiter) _ rest in
    let (q', reopened, done) =
      >>=-eq-ok (load a (some (assigned a actor recruiter name q)) (some actor.id)) _ rest in
    let same = load-eq a r actor.id opened in
    let same' = load-eq a (assigned a actor recruiter name q) actor.id reopened in
    (
      rw (← same) (guard-true _ _ lead),
      ground (arith, same'),
      ground (arith, same'),
      ground (arith, same),
      λ u p. (
        ground (arith, same),
        rw (← same) (named_recruiter-Vetted a users q recruiter checked u p),
      ),
    )

-- The stored CV sources depend on which keys were ticked, not on their order or repeats.
pub cv_sources_by_ticks :
    (xs ys : List String)
    → ((key : String) → ticked xs key ≡ ticked ys key)
    → normalise_cv_sources xs ≡ normalise_cv_sources ys
unfolding normalise_cv_sources
cv_sources_by_ticks xs ys h = keep-cong cv_source_catalogue (λ s. h (cv_source_key s))
