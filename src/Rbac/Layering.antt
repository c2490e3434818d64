-- ===== src/Rbac/Layering.antt =====
-- HR layering: the priority order of a unit's Factory HR, and the assignments' own writes
-- (src/modules/rbac/layering.ts, src/modules/rbac/rbac.service.ts).
pub mod Order
pub mod Writes
use hrm_backend.Prelude.{
  ℕ, suc, String, Bool, true, false, ◌&&◌, ◌||◌, not, Option, none, some, List, [], ◌∷◌, ◌++◌, map,
  find, keep, any, all, ◌==◌, ◌===◌, ltb, includes, is_id, is_some, if◌then◌else◌, sort, Result, ok,
  err, guard, or_throw, ◌>>=◌, ◌>>◌, bad_request, not_found, conflict,
}
use hrm_backend.ApprovalPaths.{UnitRow}
use hrm_backend.Rbac.{RoleScope, Role, Assignment, User, Directory}

pub data Problem : Type 0 where
  role_missing user_missing unit_missing unit_required already_assigned not_in_unit : Problem
  assignment_missing : Problem

-- LAYERED_ROLE_KEYS
abbrev pub is_layered : String → Bool
is_layered key = key === "factory_hr"

-- The comparator of layerOrder: ordered rows first, by priority, then by age.
abbrev pub layered_before : Assignment → Assignment → Bool
layered_before a b = elim a.priority [
  | none ↦ elim b.priority [ none ↦ ltb a.created_at b.created_at | some q ↦ false ]
  | some p ↦ elim b.priority [
    | none ↦ true
    | some q ↦ ltb p q || (p == q && ltb a.created_at b.created_at)
  ]
]

abbrev pub id_of : Assignment → ℕ
id_of a = a.id

unfoldable pub layer_order : List Assignment → List ℕ
layer_order rows = map id_of (sort layered_before rows)

-- The place of an id in a list of ids, from 1 on: the last one, as `new Map` keeps it.
unfoldable pub place_in : ℕ → ℕ → List ℕ → Option ℕ
place_in from id [] = none
place_in from id (x ∷ xs) =
    let later = place_in (suc from) id xs in
    if is_some later then later else if x == id then some (suc from) else none

abbrev pub in_layer : ℕ → ℕ → Assignment → Bool
in_layer role_id unit_id a = a.role.id == role_id && is_id a.unit_id unit_id

-- Each row of the layer gets its place; the rows whose priority is that place already are not
-- written, which leaves them as they are.
abbrev pub placed_by : List ℕ → Assignment → Assignment
placed_by ids a = record a { priority = place_in 0 a.id ids }

abbrev pub in_places : ℕ → ℕ → List ℕ → List Assignment → List Assignment
in_places role_id unit_id ids = map (λ a. if in_layer role_id unit_id a then placed_by ids a else a)

unfoldable pub renumber_layer : ℕ → ℕ → List Assignment → List Assignment
unfolding layer_order
renumber_layer role_id unit_id rows =
    in_places role_id unit_id (layer_order (keep (in_layer role_id unit_id) rows)) rows

unfoldable pub set_layering_order : Directory → ℕ → ℕ → List ℕ → Result Problem Directory
set_layering_order d role_id unit_id assignment_ids = do
  let known = map id_of (keep (in_layer role_id unit_id) d.assignments)
  guard (all (λ id. includes id known) assignment_ids) (bad_request not_in_unit)
  ok (record d { assignments = in_places role_id unit_id assignment_ids d.assignments })

pub record NewAssignment : Type 0 where
  pub role_id : ℕ
  pub user_id : ℕ
  pub unit_id : Option ℕ

-- The unit an assignment is made for: none for a global role.
abbrev placed_unit : Role → Option ℕ → Option ℕ
placed_unit role unit_id = elim role.scope [
  | RoleScope.global ↦ none
  | RoleScope.per_unit ↦ unit_id
]

abbrev is_per_unit : Role → Bool
is_per_unit role = elim role.scope [ RoleScope.global ↦ false | RoleScope.per_unit ↦ true ]

abbrev same_place : Option ℕ → Option ℕ → Bool
same_place none none = false
same_place none (some b) = false
same_place (some a) none = false
same_place (some a) (some b) = a == b

abbrev unit_there : Directory → Option ℕ → Bool
unit_there d none = true
unit_there d (some id) = any (λ (u : UnitRow). u.id == id) d.units

-- A holder of a layered role joins the end of the unit's layer.
abbrev pub layered_after : Role → Option ℕ → List Assignment → List Assignment
layered_after role none rows = rows
layered_after role (some unit_id) rows =
    let numbered = renumber_layer role.id unit_id rows in
    if is_layered role.key then numbered else rows

-- Why an assignment is refused, once its role is found; a null unit never collides.
unfoldable pub check_assignment : Directory → NewAssignment → Role → Result Problem (Unit {0})
check_assignment d dto role = do
  guard (any (λ (u : User). u.id == dto.user_id) d.users) (not_found user_missing)
  guard (not (is_per_unit role && not (is_some dto.unit_id))) (bad_request unit_required)
  let unit_id = placed_unit role dto.unit_id
  guard (unit_there d unit_id) (not_found unit_missing)
  guard
      (not (
        any
          (λ (a : Assignment).
            a.role.id == dto.role_id && a.user_id == dto.user_id && same_place a.unit_id unit_id)
          d.assignments))
      (conflict already_assigned)

abbrev pub assignment_of : (id now : ℕ) → NewAssignment → (by : ℕ) → Role → Assignment
assignment_of id now dto by role = record {
  id = id;
  role = role;
  user_id = dto.user_id;
  unit_id = placed_unit role dto.unit_id;
  priority = none;
  assigned_by_id = by;
  created_at = now;
}

-- `id` and `now` are the key and the time the database gives the row.
unfoldable pub create_assignment :
    (id now : ℕ) → Directory → NewAssignment → (by : ℕ) → Result Problem Directory
unfolding renumber_layer check_assignment
create_assignment id now d dto by = do
  role ← or_throw (find (λ (r : Role). r.id == dto.role_id) d.roles) (not_found role_missing)
  check_assignment d dto role
  let row = assignment_of id now dto by role
  ok (record d { assignments = layered_after role row.unit_id (d.assignments ++ row ∷ []) })
