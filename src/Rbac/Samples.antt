-- ===== src/Rbac/Samples.antt =====
-- A directory with a unit whose Factory HR are two, one of them away.
use hrm_backend.Prelude.{ℕ, String, Bool, true, false, Option, none, some, [], ◌∷◌}
use hrm_backend.Rbac.{RoleScope, Role, Assignment, User, Directory}

abbrev pub as_is : String → String
as_is s = s

abbrev pub no_order : String → String → Bool
no_order a b = false

abbrev pub role : ℕ → String → RoleScope → Role
role id key scope = record { id = id; key = key; name = key; scope = scope }

abbrev pub factory_hr : Role
factory_hr = role 1 "factory_hr" RoleScope.per_unit

abbrev pub assigned : ℕ → Role → ℕ → Option ℕ → Option ℕ → Assignment
assigned id r user unit priority = record {
  id = id;
  role = r;
  user_id = user;
  unit_id = unit;
  priority = priority;
  assigned_by_id = 5;
  created_at = id;
}

abbrev user : ℕ → String → Bool → User
user id name admin = record {
  id = id;
  name = name;
  employee_code = "E";
  is_admin = admin;
  is_active = true;
}

abbrev pub mill : Directory
mill = record {
  units = record { id = 1; name = "Mill" } ∷ record { id = 2; name = "Dye" } ∷ [];
  users =
      user 1 "Rahim" false
      ∷ user 2 "Karim" false
      ∷ user 3 "Salma" false
      ∷ user 4 "Head" false
      ∷ user 5 "Admin" true
      ∷ [];
  roles = factory_hr ∷ role 2 "corporate_recruiter" RoleScope.global ∷ [];
  assignments =
      assigned 11 factory_hr 1 (some 1) (some 1)
      ∷ assigned 12 factory_hr 2 (some 1) (some 2)
      ∷ assigned 13 (role 2 "corporate_recruiter" RoleScope.global) 3 none none
      ∷ assigned 14 (role 3 "corporate_hr" RoleScope.global) 4 none none
      ∷ assigned 15 (role 4 "requisition_raiser" RoleScope.per_unit) 1 (some 2) none
      ∷ assigned 16 (role 5 "unit_approver" RoleScope.per_unit) 2 (some 2) none
      ∷ [];
  leaves =
      record {
        id = 21;
        user_id = 2;
        starts_at = 100;
        ends_at = some 900;
        ended_at = none;
        note = none;
        set_by_id = 2;
      }
      ∷ [];
}
