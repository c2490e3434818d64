-- ===== src/ApprovalPaths/Chain.antt =====
-- The chain that a new requisition follows (`buildStepsForRaiser`): the raiser's own levels, and the
-- Head of Talent Acquisition last.
use hrm_backend.Prelude.{
  ℕ, suc, String, Bool, ◌&&◌, ◌||◌, Option, none, some, List, [], ◌∷◌, ◌++◌, keep, find, is_some,
  ◌==◌, if◌then◌else◌, length, nonempty, trim, join, ◌===◌, ok, guard, or_throw, ◌>>=◌, ◌>>◌,
  bad_request,
}
use hrm_backend.UnitName.{same_unit}
use hrm_backend.Requisition.Model.{ApprovalRole, StepStatus, Step}
use hrm_backend.ApprovalPaths.{
  Answer, UnitRow, Person, Level, ApprovalPath, Directory, Rights, no_path_configured,
}

-- `a ?? b`
abbrev pub or_this {ℓ} : {A : Type ℓ} → Option A → Option A → Option A
or_this none b = b
or_this (some a) b = some a

-- The `include` of a level's user, whom the foreign key keeps in the table.
abbrev name_of : Directory → ℕ → String
name_of d user = elim (find (λ (p : Person). p.id == user) d.people) [ none ↦ "" | some p ↦ p.name ]

-- The payload of a step row has no id of its own; the database gives the k-th row the id `ids k`.
abbrev level_step : (ids : ℕ → ℕ) → Directory → ℕ → Level → Step
level_step ids d k l = record {
  id = ids k;
  order_index = l.order_index;
  role = none;
  approver_user_id = some l.user_id;
  title = l.title;
  subtitle = l.subtitle;
  assignee = name_of d l.user_id;
  status = StepStatus.pending;
  note = "";
  acted_at = none;
}

abbrev pub level_steps : (ids : ℕ → ℕ) → Directory → ℕ → List Level → List Step
level_steps ids d k [] = []
level_steps ids d k (l ∷ ls) = level_step ids d k l ∷ level_steps ids d (suc k) ls

abbrev pub corporate_hr_step : (ids : ℕ → ℕ) → Rights → String → ℕ → Step
corporate_hr_step ids rights unit k = record {
  id = ids k;
  order_index = k;
  role = some ApprovalRole.corporate_hr;
  approver_user_id = none;
  title = "Head of Talent Acquisition";
  subtitle = "Final approval to commence hiring";
  assignee = join ", " (rights.role_holder_names "corporate_hr" unit);
  status = StepStatus.pending;
  note = "";
  acted_at = none;
}

-- The `where` of the candidates' query.
abbrev pub is_candidate : ℕ → ℕ → String → ApprovalPath → Bool
is_candidate unit raiser dept p =
    p.unit_id == unit
    && p.raiser_id == raiser
    && (if nonempty dept then p.department === dept || p.department === "" else p.department === "")

abbrev pub is_own : String → ApprovalPath → Bool
is_own dept p = nonempty dept && p.department === dept

abbrev pub is_default : ApprovalPath → Bool
is_default p = p.department === ""

-- A department's own chain wins over the unit-wide default.
unfoldable pub chosen_path : Directory → ℕ → ℕ → String → Option ApprovalPath
chosen_path d unit raiser dept =
    let candidates = keep (is_candidate unit raiser dept) d.paths in
    or_this (find (is_own dept) candidates) (find is_default candidates)

abbrev pub levels_of : Option ApprovalPath → List Level
levels_of none = []
levels_of (some p) = p.levels

abbrev pub chain_steps : (ids : ℕ → ℕ) → Rights → Directory → UnitRow → List Level → List Step
chain_steps ids rights d unit levels =
    level_steps ids d 0 levels ++ corporate_hr_step ids rights unit.name (length levels) ∷ []

-- `lower` is JavaScript's `toLowerCase`, for the units' names.
unfoldable pub build_steps_for_raiser :
    (lower : String → String) (ids : ℕ → ℕ)
    → Rights
    → Directory
    → String
    → ℕ
    → String
    → Answer (List Step)
build_steps_for_raiser lower ids rights d unit_name raiser department = do
  unit ←
      or_throw (find (λ (u : UnitRow). same_unit lower u.name unit_name) d.units)
        (bad_request no_path_configured)
  let path = chosen_path d unit.id raiser (trim department)
  guard (is_some path || rights.is_super_user raiser) (bad_request no_path_configured)
  ok (chain_steps ids rights d unit (levels_of path))
