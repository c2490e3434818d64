-- ===== src/Rbac/Visibility.antt =====
-- The requisitions that a user's list shows, beside those that open for the user
-- (src/modules/rbac/permissions.service.ts, src/modules/requisition/requisition.service.ts).
use hrm_backend.Prelude.{ℕ, String, ◌≡◌, Bool, true, ◌||◌, arith}
use hrm_backend.Requisition.Model.{Requisition}
use hrm_backend.Requisition.Access.{is_own_business}
use hrm_backend.Rbac.{Directory}
use hrm_backend.Rbac.Grants.{access_of, lists}

module _ (lower : String → String) (by_name : String → String → Bool) (now : ℕ)
    (d : Directory) where
  -- A user's list of requisitions shows every one that is the user's own business, and shows them
  -- all to a user who sees every unit: none of those that open for the user on these grounds is
  -- left out.
  pub own_business_listed :
      (user : ℕ) (r : Requisition)
      → (is_own_business (access_of lower by_name now d) r user
          || (access_of lower by_name now d).sees_all_units user)
        ≡ true
      → lists lower by_name now d user r ≡ true
  unfolding lists is_own_business access_of
  own_business_listed user r h = ground arith
