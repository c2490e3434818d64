-- ===== src/Rbac/Grants.antt =====
-- What the permissions service answers to the requisition service, and which requisitions it lists
-- for a user (src/modules/rbac/permissions.service.ts).
use hrm_backend.Prelude.{
  ℕ, String, ◌≡◌, Bool, true, false, ◌&&◌, ◌||◌, not, Option, none, some, List, any, is_id, is_some,
  ◌===◌, nonempty, if◌then◌else◌, arith,
}
use hrm_backend.Requisition.Model.{ApprovalRole, Step, Requisition}
use hrm_backend.Requisition.Access.{Access, is_pending_job_analysis, is_posted, role_key}
use hrm_backend.Rbac.{Assignment, Directory, is_on_leave, unit_of}
use hrm_backend.Rbac.Permissions.{
  EffectiveRole, load_user_permissions, is_super_user, get_unit_access_scope,
  has_role_for_unit_name, cv_submitter_role,
}
use hrm_backend.Rbac.Permissions.Holders.{
  Cover, role_holder_user_ids, job_analysis_owners, can_complete_job_analysis, can_run_recruitment,
  role_holder_names,
}

module _ (lower : String → String) (by_name : String → String → Bool) (now : ℕ)
    (d : Directory) where
  pub super_has_role :
      (u : ℕ) (k n : String)
      → is_super_user d u ≡ true
      → has_role_for_unit_name lower d u k n ≡ true
  unfolding is_super_user has_role_for_unit_name
  super_has_role u k n h = ground arith

  pub super_sees_all :
      (u : ℕ) → is_super_user d u ≡ true → (get_unit_access_scope d u).all_units ≡ true
  unfolding is_super_user get_unit_access_scope
  super_sees_all u h = ground arith

  pub lead_recruits :
      (u : ℕ) (n : String) (recruiter : Option ℕ) (cover : Cover)
      → (has_role_for_unit_name lower d u "corporate_hr" n
          || has_role_for_unit_name lower d u "chro" n)
        ≡ true
      → can_run_recruitment lower now d u n recruiter cover ≡ true
  unfolding can_run_recruitment
  lead_recruits u n recruiter cover h = ground arith

  -- The record that the requisition service works against.
  unfoldable pub access_of : Access
  access_of = record {
    now = now;
    is_super_user = is_super_user d;
    has_role_for_unit = has_role_for_unit_name lower d;
    sees_all_units = λ u. (get_unit_access_scope d u).all_units;
    can_complete_job_analysis = can_complete_job_analysis lower by_name now d;
    can_run_recruitment = λ u unit recruiter stand_in until.
        can_run_recruitment lower now d u unit recruiter
          (record { user_id = stand_in; until = until });
    sends_cvs = λ u unit. is_some (cv_submitter_role lower d u unit);
    job_analysis_owners = λ unit. (job_analysis_owners lower by_name now d unit).user_ids;
    role_holder_user_ids = role_holder_user_ids lower d;
    role_holder_names = role_holder_names lower d;
    super_has_role = super_has_role;
    super_sees_all = super_sees_all;
    lead_recruits = λ u n recruiter stand_in until h.
        lead_recruits u n recruiter (record { user_id = stand_in; until = until }) h;
  }

  -- LEGACY_STEP_ROLE_BY_KEY
  abbrev legacy_role : String → Option ApprovalRole
  legacy_role key =
      if key === "requisition_raiser"
      then some ApprovalRole.department_head
      else if key === "factory_hr"
      then some ApprovalRole.factory_hr
      else if key === "sbu_head"
      then some ApprovalRole.sbu_head
      else if key === "corporate_hr"
      then some ApprovalRole.corporate_hr
      else if key === "chro"
      then some ApprovalRole.chro
      else none

  abbrev has_key : String → EffectiveRole → Bool
  has_key key r = r.key === key

  abbrev same_role : ApprovalRole → ApprovalRole → Bool
  same_role a b = role_key a === role_key b

  abbrev names_role : Option ApprovalRole → EffectiveRole → Bool
  names_role none r = false
  names_role (some role) r = elim (legacy_role r.key) [
    | none ↦ false
    | some legacy ↦ same_role legacy role
  ]

  -- A step that no person is named on and that one of the user's roles could act on.
  abbrev is_legacy_step : List EffectiveRole → Step → Bool
  is_legacy_step roles s = not (is_some s.approver_user_id) && any (names_role s.role) roles

  abbrev is_in : String → List String → Bool
  is_in name names = any (λ other. other === name) names

  -- `unitNamesWithFactoryHr().includes(name)`
  unfoldable pub has_factory_hr : String → Bool
  unfolding unit_of is_on_leave
  has_factory_hr unit_name =
      any
        (λ (a : Assignment).
          a.role.key === "factory_hr" && not (is_on_leave d now a.user_id) && (elim (unit_of d a) [
            | none ↦ false
            | some u ↦ nonempty u.name && u.name === unit_name
          ]))
        d.assignments

  abbrev names_user : Requisition → ℕ → Bool
  names_user r user =
      is_id r.raised_by_id user
      || any (λ (s : Step). is_id s.approver_user_id user) r.steps
      || is_id r.recruiter_id user
      || is_id r.job_analysis_by_id user
      || is_id r.job_analysis_assignee_id user
      || is_id r.cover_recruiter_id user

  abbrev is_unaddressed : Requisition → Bool
  is_unaddressed r = is_pending_job_analysis r.status && not (is_some r.job_analysis_assignee_id)

  -- The rows that the filter of requisitionVisibility selects.
  unfoldable pub lists : ℕ → Requisition → Bool
  unfolding get_unit_access_scope load_user_permissions has_factory_hr is_on_leave
  lists user r =
      let scope = get_unit_access_scope d user in
      let roles = (load_user_permissions d user).roles in
      let here = is_in r.unit_factory scope.unit_names in
      scope.all_units
      || names_user r user
      || (any (has_key "factory_hr") roles
          && not (is_on_leave d now user)
          && is_unaddressed r
          && here)
      || ((any (has_key "factory_hr") roles || any (has_key "factory_hr_head") roles)
          && is_posted r.status
          && here)
      || (any (has_key "corporate_recruiter") roles
          && is_unaddressed r
          && not (has_factory_hr r.unit_factory))
      || (here && any (is_legacy_step roles) r.steps)
