-- ===== src/Delegation.antt =====
-- How far a delegated candidate has got (src/modules/assessment/delegation-progress.ts). Instants are
-- numbers of milliseconds; the labels and the ISO form of an instant are left out.
pub mod Progress
mod Tests
use hrm_backend.Prelude.{
  ℕ, Bool, true, false, ◌||◌, Option, none, some, List, [], ◌∷◌, keep, find, leb, ltb,
  if◌then◌else◌,
}

pub data CandidateStage : Type 0 where
  applied ai_shortlisted shortlisted interview final selected rejected : CandidateStage

pub data InterviewStatus : Type 0 where
  scheduled completed cancelled absent : InterviewStatus

-- DELEGATION_STAGES, in order.
pub data DelegationStage : Type 0 where
  sent scheduled interviewed marked decided : DelegationStage

pub record Round : Type 0 where
  pub status : InterviewStatus
  pub scheduled_at : Option ℕ
  pub evaluation_count : ℕ

pub record ProgressInput : Type 0 where
  pub candidate_stage : CandidateStage
  pub rejected_at : Option ℕ
  pub rounds : List Round

pub record DelegationProgress : Type 0 where
  pub stage : DelegationStage
  pub complete : Bool
  pub scheduled_at : Option ℕ

abbrev ends : CandidateStage → Bool
ends CandidateStage.final = true
ends CandidateStage.selected = true
ends CandidateStage.rejected = true
ends _ = false

abbrev pub is_decided : ProgressInput → Bool
is_decided input = elim input.rejected_at [ some t ↦ true | none ↦ ends input.candidate_stage ]

-- Not in NOT_LIVE.
abbrev pub is_live : Round → Bool
is_live r = elim r.status [
  | InterviewStatus.cancelled ↦ false
  | InterviewStatus.absent ↦ false
  | _ ↦ true
]

abbrev pub is_evaluated : Round → Bool
is_evaluated r = ltb 0 r.evaluation_count

abbrev past : ℕ → Option ℕ → Bool
past now none = false
past now (some t) = leb t now

abbrev over : InterviewStatus → Bool
over InterviewStatus.completed = true
over _ = false

abbrev pub is_held : ℕ → Round → Bool
is_held now r = over r.status || past now r.scheduled_at

abbrev pub ends_work : DelegationStage → Bool
ends_work decided = true
ends_work marked = true
ends_work _ = false

abbrev pub done : DelegationStage → Option ℕ → DelegationProgress
done stage at = record { stage = stage; complete = ends_work stage; scheduled_at = at }

-- The first of the sort by date, among the rounds that have one.
unfoldable pub earlier : Option ℕ → Option ℕ → Option ℕ
earlier none later = later
earlier (some t) none = some t
earlier (some t) (some u) = if leb t u then some t else some u

unfoldable pub earliest : List Round → Option ℕ
unfolding earlier
earliest [] = none
earliest (r ∷ rs) = earlier r.scheduled_at (earliest rs)

abbrev upcoming : Option ℕ → DelegationProgress
upcoming none = done sent none
upcoming (some t) = done DelegationStage.scheduled (some t)

abbrev held_or : Option Round → DelegationProgress → DelegationProgress
held_or none p = p
held_or (some r) p = done interviewed r.scheduled_at

abbrev marked_or : Option Round → DelegationProgress → DelegationProgress
marked_or none p = p
marked_or (some r) p = done marked r.scheduled_at

-- The stage by the rounds that are live.
unfoldable pub of_live : ℕ → List Round → DelegationProgress
of_live now [] = done sent none
of_live now (r ∷ rs) =
    marked_or (find is_evaluated (r ∷ rs))
      (held_or (find (is_held now) (r ∷ rs)) (upcoming (earliest (r ∷ rs))))

unfoldable pub delegation_progress : ProgressInput → ℕ → DelegationProgress
delegation_progress input now =
    if is_decided input then done decided none else of_live now (keep is_live input.rounds)
