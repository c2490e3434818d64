-- ===== src/ApprovalPaths/ChainLaws.antt =====
-- About the chain of a new requisition: its order, its last step and its approvers
-- (buildStepsForRaiser).
use hrm_backend.Prelude.{
  ℕ, suc, ◌+◌, ◌≢◌, ◌≤◌, ◌<◌, String, ◌≡◌, refl, ap, subst, Bool, true, false, ◌||◌, Bool-cases,
  ◌⊎◌, inl, inr, Option, none, some, List, [], ◌∷◌, ◌++◌, keep, find, All, is_some, includes,
  length, trim, ok, guard, or_throw, >>=-eq-ok, ok_eq, arith, bad_request,
}
use hrm_backend.UnitName.{same_unit}
use hrm_backend.Requisition.Model.{ApprovalRole, StepStatus, Step}
use hrm_backend.Requisition.Steps.Laws.{
  AllPending, Numbered, Fresh, DistinctIds, Numbered-append, DistinctIds-append,
}
use hrm_backend.ApprovalPaths.{UnitRow, Level, ApprovalPath, Directory, Rights, no_path_configured}
use hrm_backend.ApprovalPaths.Laws.{approvers, LevelsNumbered, PathIsValid, IsValid}
use hrm_backend.ApprovalPaths.Chain.{
  or_this, level_steps, corporate_hr_step, is_candidate, is_own, is_default, chosen_path, levels_of,
  chain_steps, build_steps_for_raiser,
}

-- What holds of the steps that a new requisition starts with.
pub record ChainIsValid (raiser : ℕ) (steps : List Step) : Type 0 where
  pub numbered : Numbered 0 steps
  pub distinct : DistinctIds steps
  pub pending : AllPending steps
  pub not_own : All (λ s. s.approver_user_id ≢ some raiser) steps
  pub last :
      (front : List Step) × (s : Step) × (steps ≡ front ++ s ∷ [])
      × (s.role ≡ some ApprovalRole.corporate_hr)

module _ (ids : ℕ → ℕ) (apart : (j k : ℕ) → ids j ≡ ids k → j ≡ k) (d : Directory) where
  levels-Numbered :
      (k : ℕ) (ls : List Level) → LevelsNumbered k ls → Numbered k (level_steps ids d k ls)
  levels-Numbered k [] h = tt
  levels-Numbered k (l ∷ ls) h = (h.0, levels-Numbered (suc k) ls h.1)

  levels-length : (k : ℕ) (ls : List Level) → length (level_steps ids d k ls) ≡ length ls
  levels-length k [] = refl
  levels-length k (l ∷ ls) = ap suc (levels-length (suc k) ls)

  before-Fresh : (j k : ℕ) (ls : List Level) → j < k → Fresh (ids j) (level_steps ids d k ls)
  before-Fresh j k [] h = tt
  before-Fresh j k (l ∷ ls) h =
      ((λ e. let same = apart k j e in omega arith), before-Fresh j (suc k) ls (omega arith))

  after-Fresh :
      (j k : ℕ) (ls : List Level) → k + length ls ≤ j → Fresh (ids j) (level_steps ids d k ls)
  after-Fresh j k [] h = tt
  after-Fresh j k (l ∷ ls) h =
      ((λ e. let same = apart k j e in omega arith), after-Fresh j (suc k) ls (omega arith))

  levels-DistinctIds : (k : ℕ) (ls : List Level) → DistinctIds (level_steps ids d k ls)
  levels-DistinctIds k [] = tt
  levels-DistinctIds k (l ∷ ls) =
      (before-Fresh k (suc k) ls (omega arith), levels-DistinctIds (suc k) ls)

  levels-pending :
      (k : ℕ) (ls : List Level) (s : Step)
      → s.status ≡ StepStatus.pending
      → AllPending (level_steps ids d k ls ++ s ∷ [])
  levels-pending k [] s e = (e, tt)
  levels-pending k (l ∷ ls) s e = (refl, levels-pending (suc k) ls s e)

  levels-not_own :
      (raiser k : ℕ) (ls : List Level) (s : Step)
      → s.approver_user_id ≡ none
      → includes raiser (approvers ls) ≡ false
      → All (λ t. t.approver_user_id ≢ some raiser) (level_steps ids d k ls ++ s ∷ [])
  levels-not_own raiser k [] s e h = ((λ q. cc), tt)
  levels-not_own raiser k (l ∷ ls) s e h =
      ((λ q. ground arith), levels-not_own raiser (suc k) ls s e (ground arith))

  chain-IsValid :
      (rights : Rights) (unit : UnitRow) (raiser : ℕ) (ls : List Level)
      → LevelsNumbered 0 ls
      → includes raiser (approvers ls) ≡ false
      → ChainIsValid raiser (chain_steps ids rights d unit ls)
  chain-IsValid rights unit raiser ls numbered not_own = record {
    numbered =
        Numbered-append 0 (corporate_hr_step ids rights unit.name (length ls)) _
          (levels-Numbered 0 ls numbered) (omega (arith, levels-length 0 ls));
    distinct =
        DistinctIds-append (corporate_hr_step ids rights unit.name (length ls)) _
          (levels-DistinctIds 0 ls) (after-Fresh (length ls) 0 ls (omega arith));
    pending = levels-pending 0 ls _ refl;
    not_own = levels-not_own raiser 0 ls _ refl not_own;
    last = (_, _, refl, refl);
  }

some_eq : {A : Type 0} (x y : A) → some x ≡ some y → x ≡ y
some_eq x y e = cc

-- What is found among the elements kept was kept.
find-keep :
    {A : Type 0} (P : A → Type 0) (f g : A → Bool) (xs : List A) {x : A}
    → All P xs
    → find f (keep g xs) ≡ some x
    → P x × (g x ≡ true)
find-keep P f g [] h e = cc
find-keep P f g (y ∷ ys) {x} h e = elim (Bool-cases (g y)) [
  | inr n ↦ find-keep P f g ys h.1 (rw n at e)
  | inl k ↦ elim (Bool-cases (f y)) [
    | inl here ↦
        let same : y ≡ x = some_eq y x (rw (k, here) at e) in
        subst (λ z. P z × (g z ≡ true)) same (h.0, k)
    | inr later ↦ find-keep P f g ys h.1 (rw (k, later) at e)
  ]
]

or_this-cases :
    {A : Type 0} (a b : Option A) {x : A} → or_this a b ≡ some x → (a ≡ some x) ⊎ (b ≡ some x)
or_this-cases none b e = inr e
or_this-cases (some a) b e = inl e

chosen-PathIsValid :
    (d : Directory) (unit raiser : ℕ) (dept : String) {p : ApprovalPath}
    → IsValid d
    → chosen_path d unit raiser dept ≡ some p
    → PathIsValid p × (p.raiser_id ≡ raiser)
unfolding chosen_path
chosen-PathIsValid d unit raiser dept {p} v e =
    elim (or_this-cases (find (is_own dept) (keep (is_candidate unit raiser dept) d.paths))
      (find is_default (keep (is_candidate unit raiser dept) d.paths)) e) [
        | inl q ↦ candidate (is_own dept) q
        | inr q ↦ candidate is_default q
      ]
  where
    candidate :
        (f : ApprovalPath → Bool) {p : ApprovalPath}
        → find f (keep (is_candidate unit raiser dept) d.paths) ≡ some p
        → PathIsValid p × (p.raiser_id ≡ raiser)
    candidate f {p} q =
        let (valid, kept) =
          find-keep PathIsValid f (is_candidate unit raiser dept) d.paths {x = p} v.each q in
        (valid, ground arith)

chosen-levels :
    (d : Directory) (raiser : ℕ) (m : Option ApprovalPath)
    → ((p : ApprovalPath) → m ≡ some p → PathIsValid p × (p.raiser_id ≡ raiser))
    → LevelsNumbered 0 (levels_of m) × (includes raiser (approvers (levels_of m)) ≡ false)
chosen-levels d raiser none h = (tt, refl)
chosen-levels d raiser (some p) h =
    let (valid, own) = h p refl in (valid.numbered, rw (← own) valid.not_own)

-- Where the directory is valid and the rows get distinct ids, the chain that is built for a raiser is
-- numbered in order with every step pending, ends with the step of the Head of Talent Acquisition's
-- role, and names the raiser as approver on no step.
pub build_steps-ChainIsValid :
    (lower : String → String) (ids : ℕ → ℕ) (rights : Rights) (d : Directory) (unit_name : String)
    (raiser : ℕ) (department : String) {steps : List Step}
    → ((j k : ℕ) → ids j ≡ ids k → j ≡ k)
    → IsValid d
    → build_steps_for_raiser lower ids rights d unit_name raiser department ≡ ok steps
    → ChainIsValid raiser steps
unfolding build_steps_for_raiser
build_steps-ChainIsValid lower ids rights d unit_name raiser department apart v e =
    let (unit, found, rest) =
      >>=-eq-ok
        (or_throw (find (λ (u : UnitRow). same_unit lower u.name unit_name) d.units)
          (bad_request no_path_configured))
        _ e in
    let path = chosen_path d unit.id raiser (trim department) in
    let (u, allowed, done) =
      >>=-eq-ok
        (guard (is_some path || rights.is_super_user raiser) (bad_request no_path_configured)) _
        rest in
    let (numbered, not_own) =
      chosen-levels d raiser path
        (λ p q. chosen-PathIsValid d unit.id raiser (trim department) v q) in
    subst (ChainIsValid raiser) (ok_eq _ _ done)
      (chain-IsValid ids apart d rights unit raiser (levels_of path) numbered not_own)
