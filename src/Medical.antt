-- ===== src/Medical.antt =====
-- The medical step of onboarding (src/modules/onboarding/medical-approval.ts, and setMedical,
-- decideMedical, decideMedicalMany and decideOne of onboarding.service.ts). The wording of
-- notifications is left out.
pub mod Laws
pub mod Tests
use hrm_backend.Prelude.{
  ℕ, ◌≤◌, String, Bool, true, false, ◌&&◌, ◌||◌, not, Option, none, some, List, [], ◌∷◌, map, find,
  ◌==◌, ltb, is_nil, is_some, if◌then◌else◌, Result, ok, err, guard, or_throw, ◌>>=◌, ◌>>◌,
  forbidden, bad_request, not_found, nonempty, trim, or_else, text_length,
}

pub data MedicalStatus : Type 0 where
  pending : MedicalStatus
  submitted : MedicalStatus
  cleared : MedicalStatus
  rejected : MedicalStatus

pub data CmoDecision : Type 0 where
  approve : CmoDecision
  reject : CmoDecision
  return : CmoDecision

-- What is put to the record: MedicalDto's `status`.
pub data Finding : Type 0 where
  pending : Finding
  cleared : Finding
  rejected : Finding

pub data Stage : Type 0 where
  docs_pending : Stage
  docs_submitted : Stage
  offer_sent : Stage
  offer_accepted : Stage
  medical : Stage
  hr_final : Stage
  onboarded : Stage

pub data Problem : Type 0 where
  not_allowed : Problem
  onboarding_missing : Problem
  note_missing : Problem
  exam_incomplete : Problem
  nothing_submitted : Problem
  already_decided : Problem
  no_finding : Problem
  reason_missing : Problem

-- The onboarding row, of which `exam_missing` are the required fields of the exam without a value.
pub record Onboarding : Type 0 where
  pub id : ℕ
  pub status : Stage
  pub medical_status : MedicalStatus
  pub medical_proposed : Option MedicalStatus
  pub medical_submitted_at : Option ℕ
  pub medical_submitted_by_id : Option ℕ
  pub medical_approved_at : Option ℕ
  pub medical_approved_by_id : Option ℕ
  pub medical_cmo_note : Option String
  pub medical_note : Option String
  pub medical_cleared_at : Option ℕ
  pub medical_cleared_by_id : Option ℕ
  pub medical_manual : Bool
  pub exam_missing : List String

pub record MedicalDto : Type 0 where
  pub finding : Finding
  pub note : Option String
  pub manual : Bool

-- What the permissions service says of a user.
pub record Rights : Type 0 where
  pub has_medical_role : ℕ → Bool
  pub has_recruitment_access : ℕ → Bool
  pub is_central_medical_officer : ℕ → Bool

abbrev pub status_of : Finding → MedicalStatus
status_of Finding.pending = MedicalStatus.pending
status_of Finding.cleared = MedicalStatus.cleared
status_of Finding.rejected = MedicalStatus.rejected

abbrev pub is_pending : Finding → Bool
is_pending Finding.pending = true
is_pending f = false

abbrev pub is_cleared : MedicalStatus → Bool
is_cleared MedicalStatus.cleared = true
is_cleared s = false

abbrev pub after_finding : Stage → Stage
after_finding Stage.offer_accepted = Stage.medical
after_finding s = s

abbrev pub given : Option String → Bool
given note = nonempty (trim (or_else note ""))

-- The write of setMedical.
unfoldable pub recorded : (now : ℕ) → (user : ℕ) → MedicalDto → Onboarding → Onboarding
recorded now user dto ob =
    let awaits_cmo = not (is_pending dto.finding) && not dto.manual in
    record ob {
      medical_status = if awaits_cmo then MedicalStatus.submitted else status_of dto.finding;
      medical_proposed = if awaits_cmo then some (status_of dto.finding) else none;
      medical_submitted_at = if awaits_cmo then some now else none;
      medical_submitted_by_id = if awaits_cmo then some user else none;
      medical_approved_at = none;
      medical_approved_by_id = none;
      medical_cmo_note = none;
      medical_note = dto.note;
      medical_cleared_at =
          if not awaits_cmo && is_cleared (status_of dto.finding) then some now else none;
      medical_manual = if is_pending dto.finding then false else dto.manual;
      medical_cleared_by_id = if is_pending dto.finding then none else some user;
      status = after_finding ob.status;
    }

unfoldable pub set_medical :
    Rights → (now : ℕ) → MedicalDto → (user : ℕ) → Onboarding → Result Problem Onboarding
unfolding recorded
set_medical rights now dto user ob = do
  guard (rights.has_medical_role user || (dto.manual && rights.has_recruitment_access user))
      (forbidden not_allowed)
  guard (not (dto.manual && not (is_pending dto.finding) && not (given dto.note)))
      (bad_request note_missing)
  guard (not (is_cleared (status_of dto.finding) && not dto.manual && not (is_nil ob.exam_missing)))
      (bad_request exam_incomplete)
  ok (recorded now user dto ob)

abbrev pub decision_note_error : CmoDecision → Option String → Option Problem
decision_note_error CmoDecision.approve text = none
decision_note_error decision text =
    if ltb (text_length (trim (or_else text ""))) 3 then some reason_missing else none

pub record MedicalTransition : Type 0 where
  pub status : MedicalStatus
  pub decided : Bool

abbrev pub apply_cmo_decision : CmoDecision → MedicalStatus → MedicalTransition
apply_cmo_decision CmoDecision.approve proposed = record { status = proposed; decided = true }
apply_cmo_decision CmoDecision.reject proposed = record {
  status = MedicalStatus.rejected;
  decided = true;
}
apply_cmo_decision CmoDecision.return proposed = record {
  status = MedicalStatus.pending;
  decided = false;
}

abbrev pub finding_blocker : Option MedicalStatus → Option Problem
finding_blocker (some MedicalStatus.cleared) = none
finding_blocker (some MedicalStatus.rejected) = none
finding_blocker proposed = some no_finding

abbrev pub submission_blocker : MedicalStatus → Option MedicalStatus → Option Problem
submission_blocker MedicalStatus.submitted proposed = finding_blocker proposed
submission_blocker MedicalStatus.pending proposed = some nothing_submitted
submission_blocker status proposed = some already_decided

-- The write of decideOne.
unfoldable pub decided_row :
    (now : ℕ) → (user : ℕ) → Option String → MedicalTransition → Onboarding → Onboarding
decided_row now user note next ob = record ob {
  medical_status = next.status;
  medical_cmo_note = if given note then some (trim (or_else note "")) else none;
  medical_proposed = if next.decided then ob.medical_proposed else none;
  medical_submitted_at = if next.decided then ob.medical_submitted_at else none;
  medical_submitted_by_id = if next.decided then ob.medical_submitted_by_id else none;
  medical_approved_at = if next.decided then some now else none;
  medical_approved_by_id = if next.decided then some user else none;
  medical_cleared_at = if is_cleared next.status then some now else none;
  medical_cleared_by_id = if next.decided then ob.medical_cleared_by_id else none;
}

-- A row as it is left, and what stood in the way.
unfoldable pub decide_one :
    (now : ℕ) → (user : ℕ) → CmoDecision → Option String → Onboarding → Onboarding × Option Problem
unfolding decided_row
decide_one now user decision note ob =
    elim (submission_blocker ob.medical_status ob.medical_proposed) [
      | some blocker ↦ (ob, some blocker)
      | none ↦ elim (decision_note_error decision note) [
        | some problem ↦ (ob, some problem)
        | none ↦ (
          decided_row now user note
              (apply_cmo_decision decision (or_else ob.medical_proposed MedicalStatus.pending)) ob,
          none,
        )
      ]
    ]

-- A refusal of the whole request, or the answer for its row.
unfoldable pub decide_medical :
    Rights
    → (now : ℕ) → (user : ℕ) → CmoDecision
    → Option String
    → Onboarding
    → Onboarding × Option Problem
unfolding decide_one
decide_medical rights now user decision note ob =
    if rights.is_central_medical_officer user
    then decide_one now user decision note ob
    else (ob, some not_allowed)
