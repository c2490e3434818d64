-- ===== src/Requisition/Steps.antt =====
-- The approval chain as a table of steps in order: reading the current step, claiming it, updating
-- and appending.
pub mod Laws
pub mod Current
use hrm_backend.Prelude.{
  ℕ, suc, ◌+◌, Bool, true, false, ◌&&◌, Option, none, some, List, [], ◌∷◌, ◌++◌, ltb, ◌==◌,
  if◌then◌else◌, any, ok, err, failed,
}
use hrm_backend.Requisition.Model.{
  Step, StepStatus, Requisition, Activity, Outcome, unique_violation,
}

abbrev pub is_pending : StepStatus → Bool
is_pending StepStatus.pending = true
is_pending _ = false

abbrev is_info_requested : StepStatus → Bool
is_info_requested StepStatus.info_requested = true
is_info_requested _ = false

abbrev next_index : Option (ℕ × Step) → Option (ℕ × Step)
next_index none = none
next_index (some (i, s)) = some (i + 1, s)

-- `findIndex((s) => s.status === 'PENDING')`, with the step found there.
unfoldable pub first_pending : List Step → Option (ℕ × Step)
first_pending [] = none
first_pending (s ∷ ss) =
    let later = next_index (first_pending ss) in if is_pending s.status then some (0, s) else later

abbrev pub parked : List Step → Bool
parked = any (λ s. is_info_requested s.status)

-- `update({ where: { id } })`
unfoldable pub update_step : ℕ → (Step → Step) → List Step → List Step
update_step id f [] = []
update_step id f (s ∷ ss) =
    let rest = update_step id f ss in if s.id == id then f s ∷ rest else s ∷ rest

-- The rows that `updateMany({ where: { id, status: 'PENDING' } })` counts.
unfoldable pub claim_count : ℕ → List Step → ℕ
claim_count id [] = 0
claim_count id (s ∷ ss) =
    let rest = claim_count id ss in if s.id == id && is_pending s.status then suc rest else rest

-- Rows are read back in their order index.
insert_step : Step → List Step → List Step
insert_step s [] = s ∷ []
insert_step s (t ∷ ts) =
    let rest = insert_step s ts in if ltb s.order_index t.order_index then s ∷ t ∷ ts else t ∷ rest

-- A row whose order index another step has is refused by the table's unique constraint.
pub create_step : Step → List Step → Outcome (List Step)
unfolding insert_step
create_step s steps =
    if any (λ t. t.order_index == s.order_index) steps
    then err (failed unique_violation)
    else ok (insert_step s steps)

abbrev pub add_activity : Activity → Requisition → Requisition
add_activity a r = record r { activities = r.activities ++ a ∷ [] }
