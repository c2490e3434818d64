-- ===== src/Rbac/Permissions/Recipients.antt =====
-- Who is told of a requisition's recruitment, and who may run it
-- (src/modules/rbac/permissions.service.ts).
use hrm_backend.Prelude.{
  ℕ, String, ◌≡◌, ◌∙◌, true, ◌&&◌, ◌||◌, Option, none, some, List, is_id, includes, includes-append,
  arith, ◌==◌, Bool-cases, subst, sym, ==_iff, [], ◌∷◌, inl, inr,
}
use hrm_backend.Rbac.{Directory}
use hrm_backend.Rbac.Permissions.{has_role_for_unit_name, holds_role}
use hrm_backend.Rbac.Permissions.Holders.{
  Cover, runs_at, role_holder_user_ids, add_recipient, recruitment_recipients, can_run_recruitment,
}
use hrm_backend.Rbac.Permissions.Agreement.{IsKeyed, holds_role_eq}

add_recipient-includes :
    (u : ℕ) (o : Option ℕ) (ids : List ℕ)
    → includes u (add_recipient o ids) ≡ (includes u ids || is_id o u)
add_recipient-includes u none ids = ground arith
add_recipient-includes u (some id) ids = elim (Bool-cases (includes id ids)) [
  | inl e ↦ rw e (elim (Bool-cases (id == u)) [
    | inl same ↦
        rw same (ground (arith, subst (λ i. includes i ids ≡ true) ((==_iff id u).0 same) e))
    | inr other ↦ ground arith
  ])
  | inr e ↦ rw (e, includes-append u ids (id ∷ [])) (ground arith)
]

recruitment_recipients_lem :
    (lower : String → String) (now : ℕ) (d : Directory) (unit_name : String) (recruiter : Option ℕ)
    (cover : Cover) (u : ℕ)
    → includes u (recruitment_recipients lower now d unit_name recruiter cover) ≡ (
        includes u (role_holder_user_ids lower d "corporate_hr" unit_name)
        || is_id recruiter u
        || (is_id cover.user_id u && runs_at now cover.until))
unfolding recruitment_recipients
recruitment_recipients_lem lower now d unit_name recruiter cover u =
    let ids = role_holder_user_ids lower d "corporate_hr" unit_name in
    let base : includes u (add_recipient recruiter ids) ≡ (includes u ids || is_id recruiter u) =
      add_recipient-includes u recruiter ids in
    let joined : includes u (add_recipient cover.user_id (add_recipient recruiter ids))
        ≡ (includes u (add_recipient recruiter ids) || is_id cover.user_id u) =
      add_recipient-includes u cover.user_id (add_recipient recruiter ids) in
    elim (Bool-cases (runs_at now cover.until)) [
      | inl e ↦ rw (e, joined, base) (ground arith)
      | inr e ↦ rw (e, base) (ground arith)
    ]

holder_runs :
    (lower : String → String) (now : ℕ) (d : Directory) (unit_name : String) (recruiter : Option ℕ)
    (cover : Cover) (u : ℕ)
    → (holds_role lower d u "corporate_hr" unit_name
        || is_id recruiter u
        || (is_id cover.user_id u && runs_at now cover.until))
      ≡ true
    → can_run_recruitment lower now d u unit_name recruiter cover ≡ true
unfolding can_run_recruitment has_role_for_unit_name holds_role
holder_runs lower now d unit_name recruiter cover u h = ground arith

-- Where the directory is keyed, everyone who is told of a requisition's recruitment may run it.
pub recipient_runs :
    (lower : String → String) (now : ℕ) (d : Directory) (unit_name : String) (recruiter : Option ℕ)
    (cover : Cover) (u : ℕ)
    → IsKeyed d
    → includes u (recruitment_recipients lower now d unit_name recruiter cover) ≡ true
    → can_run_recruitment lower now d u unit_name recruiter cover ≡ true
recipient_runs lower now d unit_name recruiter cover u v h =
    let told = sym (recruitment_recipients_lem lower now d unit_name recruiter cover u) ∙ h in
    holder_runs lower now d unit_name recruiter cover u
      (rw (holds_role_eq lower d u "corporate_hr" unit_name v) told)
