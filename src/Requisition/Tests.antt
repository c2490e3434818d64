-- ===== src/Requisition/Tests.antt =====
-- Runs of the requisition's handlers, and its theorems at sample data.
use hrm_backend.Prelude.{
  ℕ, ◌-◌, String, ◌≡◌, refl, ◌≢◌, ◌⊎◌, true, false, ◌||◌, none, some, List, [], ◌∷◌, map, ok, arith,
  length, trim, trim_start, trim_end, is_space,
}
use hrm_backend.Requisition.Model.{
  Status, StepStatus, ApprovalRole, Decision, Step, Requisition, Effect,
}
use hrm_backend.Requisition.Steps.{first_pending, parked, update_step, claim_count}
use hrm_backend.Requisition.Steps.Laws.{AllSettled, AllPending, InOrder}
use hrm_backend.Requisition.Access.{
  hr, cover_holds, load, may_open, is_own_business, can_act_on_step, is_approved,
  require_edit_access, require_recruitment_lead, require_recruitment_access,
}
use hrm_backend.Requisition.Decision.{
  with_chro, act_check, act_commit, settle, act, finish_decision, notify_pending_approver,
}
use hrm_backend.Requisition.Return.{resubmit, require_job_analysis_access}
use hrm_backend.Requisition.Lifecycle.{Request, approval, posting, approve_route, handle}
use hrm_backend.Requisition.Recruitment.{
  post, assign_recruiter, named_recruiter, check_recruiter, ticked,
}
use hrm_backend.Requisition.JobAnalysis.{
  JobAnalysis, save_job_analysis, written, is_complete, released, continuing,
}
use hrm_backend.Requisition.Invariant.{WellFormed}
use hrm_backend.Requisition.Invariant.Returns.{resubmit_restarts}
use hrm_backend.Requisition.Lifecycle.Reachable.{handle-WellFormed}
use hrm_backend.Requisition.Approval.{act_authorised, Answers, approve_last}
use hrm_backend.Requisition.Finality.{approval_is_final}
use hrm_backend.Requisition.Stages.{save_job_analysis_stages, edit_after_approval}
use hrm_backend.Requisition.Samples.{
  everybody, step, sample, raiser, approver, no_ai, at_last_step, with_board, world, recruiters,
  row_of, sent_of,
}

-- A rejected requisition, the last step of which is still pending.
abbrev refused_row : Requisition
refused_row = sample Status.rejected (at_last_step StepStatus.rejected) []

abbrev waiting_row : Requisition
waiting_row = sample Status.pending_approval (at_last_step StepStatus.approved) []

abbrev parked_row : Requisition
parked_row = sample Status.pending_approval (at_last_step StepStatus.info_requested) []

abbrev last_step : Step
last_step = step 11 1 (some ApprovalRole.corporate_hr) none StepStatus.pending

abbrev posted_row : Requisition
posted_row = sample Status.posted (step 10 0 none (some 2) StepStatus.approved ∷ []) []

at_last-WellFormed :
    (status : Status) (s : StepStatus)
    → InOrder (at_last_step s)
    → is_approved status ≡ false
    → WellFormed (sample status (at_last_step s) [])
at_last-WellFormed status s in_order unapproved = record {
  numbered = (refl, (refl, tt));
  distinct = (((omega arith), tt), (tt, tt));
  in_order = in_order;
  settled = λ h. cc;
}

approving_runs :
    act everybody no_ai waiting_row Decision.approved "Fine" approver 99
    ≡ ok (
      row_of (act everybody no_ai waiting_row Decision.approved "Fine" approver 99),
      sent_of (act everybody no_ai waiting_row Decision.approved "Fine" approver 99),
    )
unfolding act act_check load may_open is_own_business first_pending can_act_on_step act_commit
    claim_count settle update_step finish_decision
approving_runs = refl

act_authorised_example :
    (i : ℕ) × (c : Step) × (first_pending waiting_row.steps ≡ some (i, c))
    × (parked waiting_row.steps ≡ false)
    × (can_act_on_step everybody c "Mill" 2 ≡ true)
    × (Decision.approved ≢ Decision.send_to_board)
    × (Decision.approved ≡ Decision.escalate
        → (i ≡ length waiting_row.steps - 1) × (with_chro c.role ≡ false))
    × Answers Decision.approved c.id "Fine" everybody.now waiting_row.steps
        (row_of (act everybody no_ai waiting_row Decision.approved "Fine" approver 99)).steps
act_authorised_example =
    act_authorised everybody no_ai waiting_row Decision.approved "Fine" approver 99 approving_runs

opens_refused : may_open everybody refused_row 2 ≡ true
unfolding may_open is_own_business
opens_refused = refl

found_last : first_pending refused_row.steps ≡ some (1, last_step)
unfolding first_pending
found_last = refl

may_act : can_act_on_step everybody last_step "Mill" 2 ≡ true
unfolding can_act_on_step
may_act = refl

approve_last_example :
    (r' : Requisition) × (sent : List Effect) × (act everybody no_ai refused_row Decision.approved
        "" approver 99
      ≡ ok (r', sent))
    × (is_approved r'.status ≡ true)
    × AllSettled r'.steps
approve_last_example =
    approve_last everybody no_ai refused_row "" approver 99 1 last_step
      (at_last-WellFormed Status.rejected StepStatus.rejected tt refl) opens_refused refl found_last
      may_act refl

opens_parked : may_open everybody parked_row 2 ≡ true
unfolding may_open is_own_business
opens_parked = refl

abbrev approve_it : Request
approve_it =
    approval (record { decision = Decision.approved; note = some "Fine"; board_member_ids = none })
      99 []

handling_runs :
    handle world waiting_row approve_it approver
    ≡ ok (
      row_of (handle world waiting_row approve_it approver),
      sent_of (handle world waiting_row approve_it approver),
    )
unfolding handle approve_route act act_check load may_open is_own_business first_pending
    can_act_on_step act_commit claim_count settle update_step finish_decision
handling_runs = refl

handle-WellFormed_example : WellFormed (row_of (handle world waiting_row approve_it approver))
handle-WellFormed_example =
    handle-WellFormed world waiting_row approve_it approver
      (at_last-WellFormed Status.pending_approval StepStatus.approved tt refl)
      ((omega arith), ((omega arith), tt)) handling_runs

posted-WellFormed : WellFormed posted_row
posted-WellFormed = record {
  numbered = (refl, tt);
  distinct = (tt, tt);
  in_order = tt;
  settled = λ h. (refl, tt);
}

posting_runs :
    handle world posted_row (posting "2026-12-31") approver
    ≡ ok (
      row_of (handle world posted_row (posting "2026-12-31") approver),
      sent_of (handle world posted_row (posting "2026-12-31") approver),
    )
unfolding handle post load may_open is_own_business require_recruitment_access
posting_runs = refl

approval_is_final_example :
    (is_approved (row_of (handle world posted_row (posting "2026-12-31") approver)).status ≡ true)
    × ((row_of (handle world posted_row (posting "2026-12-31") approver)).steps ≡ posted_row.steps)
approval_is_final_example =
    approval_is_final world posted_row (posting "2026-12-31") approver posted-WellFormed refl
      posting_runs

resubmit_runs :
    resubmit everybody parked_row raiser
    ≡ ok (
      row_of (resubmit everybody parked_row raiser),
      sent_of (resubmit everybody parked_row raiser),
    )
unfolding resubmit load may_open is_own_business notify_pending_approver first_pending
resubmit_runs = refl

resubmit_restarts_example :
    ((parked_row.raised_by_id ≡ some 1) ⊎ (everybody.is_super_user 1 ≡ true))
    × (parked parked_row.steps ≡ true)
    × ((row_of (resubmit everybody parked_row raiser)).status ≡ Status.pending_approval)
    × AllPending (row_of (resubmit everybody parked_row raiser)).steps
    × (map (λ (s : Step). s.id) (row_of (resubmit everybody parked_row raiser)).steps
        ≡ map (λ (s : Step). s.id) parked_row.steps)
resubmit_restarts_example = resubmit_restarts everybody parked_row raiser resubmit_runs

abbrev written_dto : JobAnalysis
written_dto = record {
  job_description = some "Keeps the looms";
  education = none;
  experience = none;
  others = none;
  submit = none;
}

abbrev new_row : Requisition
new_row = sample Status.pending_job_analysis with_board []

save_runs :
    save_job_analysis everybody new_row written_dto approver
    ≡ ok (
      row_of (save_job_analysis everybody new_row written_dto approver),
      sent_of (save_job_analysis everybody new_row written_dto approver),
    )
unfolding save_job_analysis load may_open is_own_business require_job_analysis_access written
    is_complete released continuing trim trim_start trim_end is_space
save_runs = refl

save_job_analysis_stages_example :
    (row_of (save_job_analysis everybody new_row written_dto approver)).status
    ≡ Status.pending_approval
save_job_analysis_stages_example =
    ((save_job_analysis_stages everybody new_row written_dto approver save_runs).2 refl).0

edit_runs : require_edit_access everybody posted_row 2 ≡ ok hr
unfolding require_edit_access
edit_runs = refl

edit_after_approval_example :
    (everybody.is_super_user 2 ≡ true)
    ⊎ ((everybody.has_role_for_unit 2 "corporate_hr" "Mill"
          || everybody.has_role_for_unit 2 "chro" "Mill")
        ≡ true)
    ⊎ (posted_row.recruiter_id ≡ some 2)
    ⊎ ((posted_row.cover_recruiter_id ≡ some 2) × (cover_holds 1000 posted_row.cover_until ≡ true))
edit_after_approval_example = edit_after_approval everybody posted_row 2 hr refl edit_runs

assign_runs :
    assign_recruiter everybody recruiters posted_row (some 5) approver
    ≡ ok (
      row_of (assign_recruiter everybody recruiters posted_row (some 5) approver),
      sent_of (assign_recruiter everybody recruiters posted_row (some 5) approver),
    )
unfolding assign_recruiter load may_open is_own_business require_recruitment_lead named_recruiter
    check_recruiter
assign_runs = refl

swapped_ticks :
    (key : String)
    → ticked ("bdjobs" ∷ "campus" ∷ []) key ≡ ticked ("campus" ∷ "bdjobs" ∷ "campus" ∷ []) key
swapped_ticks key = ground arith
