-- ===== src/Medical/Tests.antt =====
-- A finding that is submitted, sent back, put again and confirmed (src/modules/onboarding).
use hrm_backend.Prelude.{◌≡◌, refl, true, false, ◌==◌, none, some, List, [], ◌∷◌, trim}
use hrm_backend.Medical.{
  MedicalStatus, CmoDecision, Finding, Stage, Onboarding, MedicalDto, Rights, set_medical, recorded,
  decide_medical, decide_one, decided_row,
}
use hrm_backend.Medical.Laws.{Call, is_sound, after, after-is_sound}

abbrev rights : Rights
rights = record {
  has_medical_role = λ u. u == 4;
  has_recruitment_access = λ u. u == 5;
  is_central_medical_officer = λ u. u == 6;
}

abbrev fresh : Onboarding
fresh = record {
  id = 1;
  status = Stage.offer_accepted;
  medical_status = MedicalStatus.pending;
  medical_proposed = none;
  medical_submitted_at = none;
  medical_submitted_by_id = none;
  medical_approved_at = none;
  medical_approved_by_id = none;
  medical_cmo_note = none;
  medical_note = none;
  medical_cleared_at = none;
  medical_cleared_by_id = none;
  medical_manual = false;
  exam_missing = [];
}

abbrev fit : MedicalDto
fit = record { finding = Finding.cleared; note = none; manual = false }

abbrev calls : List Call
calls =
    Call.finds 100 4 fit
    ∷ Call.decides 110 4 CmoDecision.approve none
    ∷ Call.decides 120 6 CmoDecision.return (some "Blood test")
    ∷ Call.decides 130 6 CmoDecision.approve none
    ∷ Call.finds 140 4 fit
    ∷ Call.decides 150 6 CmoDecision.approve none
    ∷ []

abbrev done : Onboarding
unfolding after set_medical recorded decide_medical decide_one decided_row trim
done = after rights calls fresh

confirmed : done.medical_status ≡ MedicalStatus.cleared
unfolding done after set_medical recorded decide_medical decide_one decided_row trim
confirmed = refl

signed_by : done.medical_approved_by_id ≡ some 6
unfolding done after set_medical recorded decide_medical decide_one decided_row trim
signed_by = refl

-- A Central Medical Officer on the medical team may confirm a finding of their own.
abbrev both : Rights
both = record rights { has_medical_role = λ u. u == 6 }

own_finding :
    (after both
      (Call.finds 100 6 fit ∷ Call.decides 110 6 CmoDecision.approve none ∷ [])
      fresh).medical_status
    ≡ MedicalStatus.cleared
unfolding after set_medical recorded decide_medical decide_one decided_row trim
own_finding = refl

fresh-is_sound : is_sound rights fresh ≡ true
unfolding is_sound
fresh-is_sound = refl

after-is_sound_example : is_sound rights (after rights calls fresh) ≡ true
after-is_sound_example = after-is_sound rights calls fresh fresh-is_sound
