-- ===== src/Rbac.antt =====
-- Role-based access: who holds which role, where, and who is away
-- (src/modules/rbac and the leave periods it reads). The role cache is left out: answers are read
-- from the rows.
pub mod Permissions
pub mod Samples
pub mod Tests
pub mod Grants
pub mod Layering
pub mod Removal
pub mod Visibility
use hrm_backend.Prelude.{
  ℕ, String, Bool, true, false, ◌&&◌, ◌||◌, Option, none, some, List, map, find, keep, any, ◌==◌,
  ltb, leb, ◌===◌, is_nil, is_some,
}
use hrm_backend.ApprovalPaths.{UnitRow}

pub data RoleScope : Type 0 where
  global per_unit : RoleScope

pub record Role : Type 0 where
  pub id : ℕ
  pub key : String
  pub name : String
  pub scope : RoleScope

-- A RoleAssignment row, read with its role.
pub record Assignment : Type 0 where
  pub id : ℕ
  pub role : Role
  pub user_id : ℕ
  pub unit_id : Option ℕ
  pub priority : Option ℕ
  pub assigned_by_id : ℕ
  pub created_at : ℕ

pub record User : Type 0 where
  pub id : ℕ
  pub name : String
  pub employee_code : String
  pub is_admin : Bool
  pub is_active : Bool

pub record LeavePeriod : Type 0 where
  pub id : ℕ
  pub user_id : ℕ
  pub starts_at : ℕ
  pub ends_at : Option ℕ
  pub ended_at : Option ℕ
  pub note : Option String
  pub set_by_id : ℕ

pub record Directory : Type 0 where
  pub units : List UnitRow
  pub users : List User
  pub roles : List Role
  pub assignments : List Assignment
  pub leaves : List LeavePeriod

-- `endedAt: null, startsAt: { lte: now }, OR: [{ endsAt: null }, { endsAt: { gt: now } }]`
unfoldable pub is_active_at : ℕ → LeavePeriod → Bool
is_active_at now l = is_nil_at l.ended_at && leb l.starts_at now && runs l.ends_at
  where
    is_nil_at : Option ℕ → Bool
    is_nil_at none = true
    is_nil_at (some t) = false

    runs : Option ℕ → Bool
    runs none = true
    runs (some t) = ltb now t

-- `onLeaveUserIds().has(user)`
unfoldable pub is_on_leave : Directory → ℕ → ℕ → Bool
unfolding is_active_at
is_on_leave d now user = any (λ (l : LeavePeriod). is_active_at now l && l.user_id == user) d.leaves

-- The unit that an assignment refers to.
unfoldable pub unit_of : Directory → Assignment → Option UnitRow
unit_of d a = elim a.unit_id [ none ↦ none | some id ↦ find (λ (u : UnitRow). u.id == id) d.units ]
