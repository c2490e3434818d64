-- ===== src/ApprovalPaths.antt =====
-- Approval paths: who may raise requisitions for a unit, and through whom they go
-- (src/modules/approval-paths/approval-paths.service.ts).
pub mod Laws
pub mod Chain
pub mod ChainLaws
use hrm_backend.Prelude.{
  ℕ, zero, suc, ◌+◌, String, Bool, true, false, ◌&&◌, ◌||◌, not, Option, none, some, List, [], ◌∷◌,
  ◌++◌, map, keep, find, any, all, is_nil, is_some, includes, repeats, ◌==◌, if◌then◌else◌, length,
  nonempty, trim, or_else, join, ◌===◌, Result, ok, err, guard, or_throw, ◌>>=◌, ◌>>◌, bad_request,
  forbidden, not_found,
}
use hrm_backend.UnitName.{same_unit}

pub data Problem : Type 0 where
  not_configurator unit_missing person_missing person_inactive already_raiser path_missing : Problem
  not_a_raiser raiser_approves duplicate_approver approver_missing approver_inactive : Problem
  no_path_configured : Problem

abbrev pub Answer : Type 0 → Type 0
Answer = Result Problem

pub record UnitRow : Type 0 where
  pub id : ℕ
  pub name : String

pub record Person : Type 0 where
  pub id : ℕ
  pub name : String
  pub is_active : Bool

pub record Level : Type 0 where
  pub order_index : ℕ
  pub user_id : ℕ
  pub title : String
  pub subtitle : String

-- A department of "" is the unit-wide default.
pub record ApprovalPath : Type 0 where
  pub unit_id : ℕ
  pub raiser_id : ℕ
  pub department : String
  pub updated_by : ℕ
  pub levels : List Level

-- A role that is held on a unit.
pub record Grant : Type 0 where
  pub role : String
  pub user_id : ℕ
  pub unit_id : ℕ
  pub granted_by : ℕ

pub record Directory : Type 0 where
  pub units : List UnitRow
  pub people : List Person
  pub paths : List ApprovalPath
  pub grants : List Grant

-- The permissions service, as this service asks it; `reaches_unit` is canAccessUnitName.
pub record Rights : Type 0 where
  pub is_super_user : ℕ → Bool
  pub role_keys : ℕ → List String
  pub reaches_unit : ℕ → String → Bool
  pub role_holder_names : String → String → List String

pub record LevelInput : Type 0 where
  pub user_id : ℕ
  pub title : String
  pub subtitle : Option String

abbrev is_path : ℕ → ℕ → String → ApprovalPath → Bool
is_path unit raiser dept p = p.unit_id == unit && p.raiser_id == raiser && p.department === dept

unfoldable pub find_path : Directory → ℕ → ℕ → String → Option ApprovalPath
find_path d unit raiser dept = find (is_path unit raiser dept) d.paths

unfoldable pub validate_levels : Directory → List LevelInput → ℕ → Answer (Unit {0})
validate_levels d levels raiser_id = do
  let ids = map (λ (l : LevelInput). l.user_id) levels
  guard (not (includes raiser_id ids)) (bad_request raiser_approves)
  guard (not (repeats ids)) (bad_request duplicate_approver)
  let users = keep (λ (p : Person). includes p.id ids) d.people
  guard (all (λ id. any (λ (p : Person). p.id == id) users) ids) (bad_request approver_missing)
  guard (all (λ (p : Person). p.is_active) users) (bad_request approver_inactive)

abbrev as_levels : ℕ → List LevelInput → List Level
as_levels index [] = []
as_levels index (l ∷ ls) =
    record {
      order_index = index;
      user_id = l.user_id;
      title = trim l.title;
      subtitle = trim (or_else l.subtitle "");
    }
    ∷ as_levels (suc index) ls

-- A nomination starts with no levels.
abbrev nominated : Directory → ℕ → ℕ → String → ℕ → Directory
nominated d unit raiser dept user = record d {
  paths =
      d.paths
      ++ record {
        unit_id = unit;
        raiser_id = raiser;
        department = dept;
        updated_by = user;
        levels = [];
      }
        ∷ [];
}

-- The levels of one path, written anew.
abbrev rewritten : Directory → ℕ → ℕ → String → List LevelInput → ℕ → Directory
rewritten d unit raiser dept levels user = record d {
  paths =
      map
        (λ p.
          if is_path unit raiser dept p
          then record p { levels = as_levels 0 levels; updated_by = user }
          else p)
        d.paths;
}

module _ (rights : Rights) where
  unfoldable pub require_config_access : ℕ → Answer (Unit {0})
  require_config_access user =
      if rights.is_super_user user
      then ok tt
      else guard (any (λ k. k === "corporate_hr" || k === "chro") (rights.role_keys user))
          (forbidden not_configurator)

  -- Both roles are taken to exist.
  pub grant_role : String → ℕ → UnitRow → ℕ → Directory → Directory
  grant_role role user unit by d =
      if any (λ g. g.role === role && g.user_id == user && g.unit_id == unit.id) d.grants
      then d
      else if role === "unit_approver" && rights.reaches_unit user unit.name
      then d
      else record d {
        grants =
            d.grants
            ++ record { role = role; user_id = user; unit_id = unit.id; granted_by = by } ∷ [];
      }

  unfoldable pub add_raiser : Directory → ℕ → ℕ → ℕ → String → Answer Directory
  unfolding find_path
  add_raiser d unit_id raiser_id user department = do
    require_config_access user
    unit ← or_throw (find (λ (u : UnitRow). u.id == unit_id) d.units) (not_found unit_missing)
    raiser ← or_throw (find (λ (p : Person). p.id == raiser_id) d.people) (not_found person_missing)
    guard raiser.is_active (bad_request person_inactive)
    let dept = trim department
    guard (not (is_some (find_path d unit_id raiser_id dept))) (bad_request already_raiser)
    ok (
        grant_role "requisition_raiser" raiser_id unit user
          (nominated d unit_id raiser_id dept user))

  unfoldable pub remove_raiser : Directory → ℕ → ℕ → ℕ → Option String → Bool → Answer Directory
  remove_raiser d unit_id raiser_id user department every = do
    require_config_access user
    ok (record d {
      paths =
          keep
            (λ p. not (
              p.unit_id == unit_id
              && p.raiser_id == raiser_id
              && (every || p.department === trim (or_else department ""))))
            d.paths;
    })

  pub grant_all : List LevelInput → UnitRow → ℕ → Directory → Directory
  grant_all [] unit by d = d
  grant_all (l ∷ ls) unit by d =
      grant_all ls unit by (grant_role "unit_approver" l.user_id unit by d)

  unfoldable pub replace : Directory → ℕ → ℕ → List LevelInput → ℕ → String → Answer Directory
  replace d unit_id raiser_id levels user department = do
    require_config_access user
    unit ← or_throw (find (λ (u : UnitRow). u.id == unit_id) d.units) (not_found unit_missing)
    let dept = trim department
    found ← or_throw (find_path d unit_id raiser_id dept) (not_found not_a_raiser)
    validate_levels d levels raiser_id
    ok (grant_all levels unit user (rewritten d unit_id raiser_id dept levels user))
