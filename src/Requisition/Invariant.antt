-- ===== src/Requisition/Invariant.antt =====
-- The invariant of a requisition row: its approval steps are numbered in order under distinct ids,
-- they are decided from the first to the last, and nothing is left open once it is approved.
pub mod Decisions
pub mod Handlers
pub mod Returns
pub mod BoardSteps
use hrm_backend.Prelude.{◌≡◌, true}
use hrm_backend.Requisition.Model.{Requisition}
use hrm_backend.Requisition.Steps.Laws.{AllSettled, InOrder, Numbered, DistinctIds}
use hrm_backend.Requisition.Access.{is_approved}

pub record WellFormed (r : Requisition) : Type 0 where
  pub numbered : Numbered 0 r.steps
  pub distinct : DistinctIds r.steps
  pub in_order : InOrder r.steps
  pub settled : is_approved r.status ≡ true → AllSettled r.steps
