-- ===== src/Delegation/Tests.antt =====
-- A delegation with one live round and one that was missed, and the theorems on it.
use hrm_backend.Prelude.{ℕ, ◌≤◌, ◌≡◌, refl, ◌||◌, any, keep, none, some, [], ◌∷◌, arith}
use hrm_backend.Delegation.{
  CandidateStage, InterviewStatus, DelegationStage, Round, ProgressInput, is_decided, is_live,
  is_evaluated, interviewed, earlier, earliest, of_live, delegation_progress,
}
use hrm_backend.Delegation.Progress.{rank, progress_forward, progress-complete}

abbrev round : InterviewStatus → ℕ → Round
round status at = record { status = status; scheduled_at = some at; evaluation_count = 0 }

abbrev delegated : ProgressInput
delegated = record {
  candidate_stage = CandidateStage.interview;
  rejected_at = none;
  rounds = round InterviewStatus.absent 100 ∷ round InterviewStatus.scheduled 500 ∷ [];
}

before_the_slot : (delegation_progress delegated 200).stage ≡ DelegationStage.scheduled
unfolding delegation_progress of_live earliest earlier
before_the_slot = refl

after_the_slot : (delegation_progress delegated 500).stage ≡ interviewed
unfolding delegation_progress of_live
after_the_slot = refl

progress_forward_example :
    rank (delegation_progress delegated 200).stage ≤ rank (delegation_progress delegated 500).stage
progress_forward_example = progress_forward delegated 200 500 (omega arith)

progress-complete_example :
    (delegation_progress delegated 200).complete
    ≡ (is_decided delegated || any is_evaluated (keep is_live delegated.rounds))
progress-complete_example = progress-complete delegated 200
