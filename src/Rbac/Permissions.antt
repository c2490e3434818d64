-- ===== src/Rbac/Permissions.antt =====
-- The questions that the other services ask (src/modules/rbac/permissions.service.ts).
pub mod Holders
pub mod Agreement
pub mod Owners
pub mod Recipients
use hrm_backend.Prelude.{
  ℕ, String, Bool, true, false, ◌&&◌, ◌||◌, Option, none, some, List, [], ◌∷◌, map, find, keep, any,
  ◌==◌, ◌===◌, or_else, nonempty, is_some, distinct, if◌then◌else◌, includes,
}
use hrm_backend.UnitName.{same_unit}
use hrm_backend.ApprovalPaths.{UnitRow}
use hrm_backend.Rbac.{RoleScope, Role, Assignment, User, Directory, unit_of}

pub record EffectiveRole : Type 0 where
  pub key : String
  pub name : String
  pub scope : RoleScope
  pub unit_id : Option ℕ
  pub unit_name : Option String

pub record UserPermissions : Type 0 where
  pub is_super_user : Bool
  pub roles : List EffectiveRole
  pub unit_ids : List ℕ

pub record UnitAccessScope : Type 0 where
  pub all_units : Bool
  pub unit_names : List String

abbrev name_of : Option UnitRow → Option String
name_of none = none
name_of (some u) = some u.name

unfoldable pub effective_role : Directory → Assignment → EffectiveRole
unfolding unit_of
effective_role d a = record {
  key = a.role.key;
  name = a.role.name;
  scope = a.role.scope;
  unit_id = a.unit_id;
  unit_name = name_of (unit_of d a);
}

-- `.filter((id) => Boolean(id))`
abbrev present : List (Option ℕ) → List ℕ
present [] = []
present (none ∷ os) = present os
present (some n ∷ os) = n ∷ present os

abbrev pub assignments_of : Directory → ℕ → List Assignment
assignments_of d user = keep (λ (a : Assignment). a.user_id == user) d.assignments

abbrev no_permissions : UserPermissions
no_permissions = record { is_super_user = false; roles = []; unit_ids = [] }

unfoldable pub load_user_permissions : Directory → ℕ → UserPermissions
unfolding effective_role
load_user_permissions d user = elim (find (λ (u : User). u.id == user) d.users) [
  | none ↦ no_permissions
  | some found ↦ record {
    is_super_user =
        found.is_admin
        || any (λ (a : Assignment). a.role.key === "super_user") (assignments_of d user);
    roles = map (effective_role d) (assignments_of d user);
    unit_ids = distinct (present (map (λ (a : Assignment). a.unit_id) (assignments_of d user)));
  }
]

unfoldable pub is_super_user : Directory → ℕ → Bool
unfolding load_user_permissions
is_super_user d user = (load_user_permissions d user).is_super_user

-- The names that are there and not empty; the `Set` on them is left to its uses, which only search.
abbrev named : List EffectiveRole → List String
named [] = []
named (r ∷ rs) =
    let rest = named rs in
    elim r.unit_name [ none ↦ rest | some n ↦ if nonempty n then n ∷ rest else rest ]

-- ALL_UNIT_ACCESS_ROLE_KEYS
abbrev sees_every_unit : EffectiveRole → Bool
sees_every_unit r = r.key === "corporate_hr" || r.key === "chro"

unfoldable pub get_unit_access_scope : Directory → ℕ → UnitAccessScope
unfolding load_user_permissions
get_unit_access_scope d user =
    let permissions = load_user_permissions d user in
    record {
      all_units = permissions.is_super_user || any sees_every_unit permissions.roles;
      unit_names = named permissions.roles;
    }

abbrev is_global : RoleScope → Bool
is_global RoleScope.global = true
is_global RoleScope.per_unit = false

unfoldable pub get_org_stats_scope : Directory → ℕ → UnitAccessScope
unfolding get_unit_access_scope
get_org_stats_scope d user =
    let permissions = load_user_permissions d user in
    let own = get_unit_access_scope d user in
    if permissions.is_super_user || any (λ (r : EffectiveRole). is_global r.scope) permissions.roles
    then record { all_units = true; unit_names = [] }
    else own

-- EMPLOYEE_ADMIN_ROLES
abbrev administers_employees : EffectiveRole → Bool
administers_employees r =
    r.key === "corporate_hr" || r.key === "chro" || r.key === "corporate_recruiter"

unfoldable pub is_employee_admin : Directory → ℕ → Bool
unfolding is_super_user
is_employee_admin d user =
    is_super_user d user || any administers_employees (load_user_permissions d user).roles

module _ (lower : String → String) where
  unfoldable pub reaches : UnitAccessScope → String → Bool
  reaches scope unit_name =
      scope.all_units || any (λ name. same_unit lower name unit_name) scope.unit_names

  unfoldable pub can_access_unit_name : Directory → ℕ → String → Bool
  unfolding reaches
  can_access_unit_name d user unit_name = reaches (get_unit_access_scope d user) unit_name

  unfoldable pub can_see_unit_org_stats : Directory → ℕ → String → Bool
  unfolding reaches
  can_see_unit_org_stats d user unit_name = reaches (get_org_stats_scope d user) unit_name

  -- `r.key === roleKey && (r.unitId === null || normalizeUnitName(r.unitName) === target)`
  unfoldable pub counts_for : String → String → EffectiveRole → Bool
  counts_for role_key unit_name r =
      r.key === role_key
      && (not_scoped r.unit_id || same_unit lower (or_else r.unit_name "") unit_name)
    where
      not_scoped : Option ℕ → Bool
      not_scoped none = true
      not_scoped (some id) = false

  unfoldable pub has_role_for_unit_name : Directory → ℕ → String → String → Bool
  unfolding counts_for
  has_role_for_unit_name d user role_key unit_name =
      let permissions = load_user_permissions d user in
      permissions.is_super_user || any (counts_for role_key unit_name) permissions.roles

  -- `holds` of cvSubmitterRole: super users are not let through.
  unfoldable pub holds_role : Directory → ℕ → String → String → Bool
  unfolding counts_for
  holds_role d user role_key unit_name =
      any (counts_for role_key unit_name) (load_user_permissions d user).roles

  unfoldable pub cv_submitter_role : Directory → ℕ → String → Option String
  unfolding holds_role
  cv_submitter_role d user unit_name =
      if holds_role d user "factory_hr_head" unit_name
      then some "factory_hr_head"
      else if holds_role d user "factory_hr" unit_name
      then some "factory_hr"
      else none
