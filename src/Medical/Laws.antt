-- ===== src/Medical/Laws.antt =====
-- Who stands behind a medical result (src/modules/onboarding/medical-approval.ts,
-- onboarding.service.ts).
use hrm_backend.Prelude.{
  ℕ, String, ◌≡◌, refl, sym, ap, subst, Bool, true, false, ◌&&◌, ◌||◌, not, Option, none, some,
  List, [], ◌∷◌, ◌⊎◌, inl, inr, if◌then◌else◌, Result, ok, err, Bool-cases, Option-cases, is_some,
  or_else, guard-eq-ok, arith, Result-cases, ok_eq, forbidden, bad_request,
}
use hrm_backend.Medical.{
  MedicalStatus, CmoDecision, Finding, Onboarding, MedicalDto, Rights, is_pending, given, recorded,
  set_medical, decision_note_error, apply_cmo_decision, submission_blocker, decided_row, decide_one,
  decide_medical, not_allowed, note_missing, exam_incomplete,
}

abbrev pub holds : (ℕ → Bool) → Option ℕ → Bool
holds may none = false
holds may (some user) = may user

abbrev pub proposes_clearance : Option MedicalStatus → Bool
proposes_clearance (some MedicalStatus.cleared) = true
proposes_clearance p = false

-- A result on paper: by the medical team or recruitment, with a note, and with no sign-off.
abbrev pub on_paper : Rights → Onboarding → Bool
on_paper rights ob =
    holds (λ u. rights.has_medical_role u || rights.has_recruitment_access u)
      ob.medical_cleared_by_id
    && given ob.medical_note
    && not (is_some ob.medical_approved_by_id)

-- A result of the form: submitted by the medical team, decided by a Central Medical Officer.
abbrev pub signed_off : Rights → Onboarding → Bool
signed_off rights ob =
    holds rights.has_medical_role ob.medical_submitted_by_id
    && holds rights.is_central_medical_officer ob.medical_approved_by_id

abbrev pub sound_at : Rights → MedicalStatus → Onboarding → Bool
sound_at rights MedicalStatus.pending ob = not (is_some ob.medical_approved_by_id)
sound_at rights MedicalStatus.submitted ob =
    not ob.medical_manual
    && holds rights.has_medical_role ob.medical_submitted_by_id
    && not (is_some ob.medical_approved_by_id)
sound_at rights MedicalStatus.cleared ob =
    if ob.medical_manual
    then on_paper rights ob
    else signed_off rights ob && proposes_clearance ob.medical_proposed
sound_at rights MedicalStatus.rejected ob =
    if ob.medical_manual then on_paper rights ob else signed_off rights ob

-- Every result has those behind it whom its kind asks for.
unfoldable pub is_sound : Rights → Onboarding → Bool
is_sound rights ob = sound_at rights ob.medical_status ob

-- The requests that change a medical result.
pub data Call : Type 0 where
  finds : (now : ℕ) → (user : ℕ) → MedicalDto → Call
  decides : (now : ℕ) → (user : ℕ) → CmoDecision → Option String → Call

abbrev or_left : {E : Type 0} → Onboarding → Result E Onboarding → Onboarding
or_left ob (ok ob') = ob'
or_left ob (err _) = ob

-- A row after one request and another, refused ones among them.
unfoldable pub after : Rights → List Call → Onboarding → Onboarding
unfolding set_medical decide_medical
after rights [] ob = ob
after rights (Call.finds now user dto ∷ calls) ob =
    after rights calls (or_left ob (set_medical rights now dto user ob))
after rights (Call.decides now user decision note ∷ calls) ob =
    after rights calls (decide_medical rights now user decision note ob).0

recorded-is_sound :
    (rights : Rights) (now user : ℕ) (f : Finding) (note : Option String) (manual : Bool)
    (ob : Onboarding)
    → (rights.has_medical_role user || (manual && rights.has_recruitment_access user)) ≡ true
    → not (manual && not (is_pending f) && not (given note)) ≡ true
    → is_sound rights (recorded now user (record { finding = f; note = note; manual = manual }) ob)
      ≡ true
unfolding is_sound recorded
recorded-is_sound rights now user Finding.pending _ manual ob allowed noted = refl
recorded-is_sound rights now user Finding.cleared text true ob allowed noted =
    ground (arith, allowed, noted)
recorded-is_sound rights now user Finding.cleared text false ob allowed noted =
    ground (arith, allowed)
recorded-is_sound rights now user Finding.rejected text true ob allowed noted =
    ground (arith, allowed, noted)
recorded-is_sound rights now user Finding.rejected text false ob allowed noted =
    ground (arith, allowed)

set_medical-is_sound :
    (rights : Rights) (now user : ℕ) (dto : MedicalDto) (ob : Onboarding)
    → is_sound rights ob ≡ true
    → is_sound rights (or_left ob (set_medical rights now dto user ob)) ≡ true
unfolding set_medical
set_medical-is_sound rights now user dto ob sound =
    elim (Result-cases (set_medical rights now dto user ob)) [
      | inr (refused, e) ↦ rw e sound
      | inl (ob', e) ↦
          let (g1, e1) =
            guard-eq-ok
              (rights.has_medical_role user || (dto.manual && rights.has_recruitment_access user))
              (forbidden not_allowed) _ e in
          let (g2, e2) =
            guard-eq-ok (not (dto.manual && not (is_pending dto.finding) && not (given dto.note)))
              (bad_request note_missing) _ e1 in
          let (g3, e3) = guard-eq-ok _ (bad_request exam_incomplete) _ e2 in
          rw e (
            subst (λ o. is_sound rights o ≡ true) (ok_eq _ ob' e3)
              (recorded-is_sound rights now user dto.finding dto.note dto.manual ob g1 g2))
    ]

-- What may be decided.
submission_blocker-none :
    (s : MedicalStatus) (p : Option MedicalStatus)
    → submission_blocker s p ≡ none
    → (s ≡ MedicalStatus.submitted)
      × ((p ≡ some MedicalStatus.cleared) ⊎ (p ≡ some MedicalStatus.rejected))
submission_blocker-none MedicalStatus.submitted (some MedicalStatus.cleared) e = (refl, inl refl)
submission_blocker-none MedicalStatus.submitted (some MedicalStatus.rejected) e = (refl, inr refl)
submission_blocker-none MedicalStatus.submitted none e = ground (arith, e)
submission_blocker-none MedicalStatus.submitted (some MedicalStatus.pending) e = ground (arith, e)
submission_blocker-none MedicalStatus.submitted (some MedicalStatus.submitted) e = ground (arith, e)
submission_blocker-none MedicalStatus.pending p e = ground (arith, e)
submission_blocker-none MedicalStatus.cleared p e = ground (arith, e)
submission_blocker-none MedicalStatus.rejected p e = ground (arith, e)

decided_row-is_sound :
    (rights : Rights) (now user : ℕ) (note : Option String) (decision : CmoDecision)
    (p : MedicalStatus) (ob : Onboarding)
    → rights.is_central_medical_officer user ≡ true
    → sound_at rights MedicalStatus.submitted ob ≡ true
    → ob.medical_proposed ≡ some p
    → (p ≡ MedicalStatus.cleared) ⊎ (p ≡ MedicalStatus.rejected)
    → is_sound rights (decided_row now user note (apply_cmo_decision decision p) ob) ≡ true
unfolding is_sound decided_row
decided_row-is_sound rights now user text CmoDecision.approve MedicalStatus.cleared ob cmo sound
      proposed kind =
    let clear : proposes_clearance ob.medical_proposed ≡ true = ap proposes_clearance proposed in
    ground (arith, cmo, sound, clear)
decided_row-is_sound rights now user text CmoDecision.approve MedicalStatus.rejected ob cmo sound
      proposed kind =
    ground (arith, cmo, sound)
decided_row-is_sound rights now user text CmoDecision.approve MedicalStatus.pending ob cmo sound
      proposed kind =
    ground (arith, kind)
decided_row-is_sound rights now user text CmoDecision.approve MedicalStatus.submitted ob cmo sound
      proposed kind =
    ground (arith, kind)
decided_row-is_sound rights now user text CmoDecision.reject p ob cmo sound proposed kind =
    ground (arith, cmo, sound)
decided_row-is_sound rights now user text CmoDecision.return p ob cmo sound proposed kind = refl

-- The same of the row as decideOne reads its finding.
decided-is_sound :
    (rights : Rights) (now user : ℕ) (note : Option String) (decision : CmoDecision)
    (p : MedicalStatus) (ob : Onboarding)
    → rights.is_central_medical_officer user ≡ true
    → sound_at rights MedicalStatus.submitted ob ≡ true
    → ob.medical_proposed ≡ some p
    → (p ≡ MedicalStatus.cleared) ⊎ (p ≡ MedicalStatus.rejected)
    → is_sound rights (
        decided_row now user note
          (apply_cmo_decision decision (or_else ob.medical_proposed MedicalStatus.pending))
          ob)
      ≡ true
decided-is_sound rights now user note decision p ob cmo sound proposed kind =
    subst
      (λ q. is_sound rights (decided_row now user note (apply_cmo_decision decision q) ob) ≡ true)
      (sym (ap (λ o. or_else o MedicalStatus.pending) proposed))
      (decided_row-is_sound rights now user note decision p ob cmo sound proposed kind)

decide_one-is_sound :
    (rights : Rights) (now user : ℕ) (decision : CmoDecision) (note : Option String)
    (ob : Onboarding)
    → rights.is_central_medical_officer user ≡ true
    → is_sound rights ob ≡ true
    → is_sound rights (decide_one now user decision note ob).0 ≡ true
unfolding decide_one is_sound
decide_one-is_sound rights now user decision note ob cmo sound =
    elim (Option-cases (submission_blocker ob.medical_status ob.medical_proposed)) [
      | inr (blocker, e) ↦ rw (decide_one, e) sound
      | inl e ↦ elim (Option-cases (decision_note_error decision note)) [
        | inr (problem, g) ↦ rw (decide_one, e, g) sound
        | inl g ↦
            let (at_desk, kind) = submission_blocker-none ob.medical_status ob.medical_proposed e in
            let waits : sound_at rights MedicalStatus.submitted ob ≡ true =
              subst (λ s. sound_at rights s ob ≡ true) at_desk sound in
            rw (decide_one, e, g)
              (elim kind [
                | inl k ↦
                    decided-is_sound rights now user note decision MedicalStatus.cleared ob cmo
                      waits k (inl refl)
                | inr k ↦
                    decided-is_sound rights now user note decision MedicalStatus.rejected ob cmo
                      waits k (inr refl)
              ])
      ]
    ]

decide_medical-is_sound :
    (rights : Rights) (now user : ℕ) (decision : CmoDecision) (note : Option String)
    (ob : Onboarding)
    → is_sound rights ob ≡ true
    → is_sound rights (decide_medical rights now user decision note ob).0 ≡ true
unfolding decide_medical
decide_medical-is_sound rights now user decision note ob sound =
    elim (Bool-cases (rights.is_central_medical_officer user)) [
      | inl cmo ↦
          rw (decide_medical, cmo) (decide_one-is_sound rights now user decision note ob cmo sound)
      | inr other ↦ rw (decide_medical, other) sound
    ]

-- Whatever findings and decisions follow, refused ones among them, a medical result has behind it whom
-- its kind asks for: a result on paper the medical team or recruitment and a note, a clearance of the
-- form a submission of the medical team that proposed it and a Central Medical Officer's sign-off.
pub after-is_sound :
    (rights : Rights) (calls : List Call) (ob : Onboarding)
    → is_sound rights ob ≡ true
    → is_sound rights (after rights calls ob) ≡ true
unfolding after
after-is_sound rights [] ob sound = sound
after-is_sound rights (Call.finds now user dto ∷ calls) ob sound =
    after-is_sound rights calls (or_left ob (set_medical rights now dto user ob))
      (set_medical-is_sound rights now user dto ob sound)
after-is_sound rights (Call.decides now user decision note ∷ calls) ob sound =
    after-is_sound rights calls (decide_medical rights now user decision note ob).0
      (decide_medical-is_sound rights now user decision note ob sound)
