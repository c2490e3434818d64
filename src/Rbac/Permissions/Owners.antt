-- ===== src/Rbac/Permissions/Owners.antt =====
-- Who a job analysis belongs to: jobAnalysisOwners and canCompleteJobAnalysis
-- (src/modules/rbac/permissions.service.ts).
use hrm_backend.Prelude.{
  ℕ, String, ◌≡◌, refl, ◌∙◌, ap, Bool, true, ◌&&◌, ◌||◌, not, List, [], ◌∷◌, map, keep, any, is_nil,
  ◌==◌, includes, arith, any-keep, any-map, includes-map, includes-distinct, includes-append,
  if◌then◌else◌, any-sort, none, any-cong, All, ==_refl, ◌++◌, any-ext, distinct, ==_iff,
  Bool-cases, inl, inr,
}
use hrm_backend.Rbac.{User, Directory, is_on_leave}
use hrm_backend.Rbac.Permissions.Holders.{
  QueueRow, holder_id, holder_assignments, role_holder_user_ids, factory_hr_queue, available,
  earlier_in_queue, queue_row, job_analysis_owners,
}

abbrev has_id : ℕ → User → Bool
has_id id u = u.id == id

-- A user of the system, who is Factory HR for the unit and not away.
pub is_on_duty : (String → String) → ℕ → Directory → String → ℕ → Bool
is_on_duty lower now d unit_name u =
    any (has_id u) d.users
    && (includes u (role_holder_user_ids lower d "factory_hr" unit_name)
        && not (is_on_leave d now u))

any_at :
    (q : ℕ → Bool) (u : ℕ) (users : List User)
    → any (λ v. q v.id && (v.id == u)) users ≡ (any (has_id u) users && q u)
any_at q u [] = refl
any_at q u (v ∷ vs) = elim (Bool-cases (v.id == u)) [
  | inl e ↦ let same : q v.id ≡ q u = ap q ((==_iff v.id u).0 e) in ground (arith, any_at q u vs)
  | inr e ↦ ground (arith, any_at q u vs)
]

is_nil_iff {ℓ} : {A : Type ℓ} (xs : List A) → is_nil xs ≡ not (any (λ x. true) xs)
is_nil_iff [] = refl
is_nil_iff (x ∷ xs) = refl

present :
    (us vs : List User)
    → ((i : ℕ) → any (has_id i) vs ≡ true → any (has_id i) us ≡ true)
    → All (λ (v : User). any (has_id v.id) us ≡ true) vs
present us [] later = tt
present us (v ∷ vs) later =
    (later v.id (rw (==_refl v.id) refl), present us vs (λ i h. later i (ground arith)))

module _ (lower : String → String) (by_name : String → String → Bool) (now : ℕ) (d : Directory)
    (unit_name : String) where
  -- The rows of the queue that are not away, searched by the id alone.
  any-available :
      (q : ℕ → Bool)
      → any
          (λ (h : QueueRow). q h.id)
          (available lower by_name now (factory_hr_queue lower by_name now d unit_name))
        ≡ any
            (λ (v : User).
              includes v.id (role_holder_user_ids lower d "factory_hr" unit_name)
              && (not (is_on_leave d now v.id) && q v.id))
            d.users
  unfolding factory_hr_queue role_holder_user_ids
  any-available q =
      let rows = holder_assignments lower d "factory_hr" unit_name in
      let held : User → Bool = λ v. includes v.id (distinct (map holder_id rows)) in
      let row = queue_row lower by_name now d rows in
      any-keep (λ (h : QueueRow). q h.id) (λ (h : QueueRow). not h.on_leave)
        (factory_hr_queue lower by_name now d unit_name)
      ∙ any-sort (earlier_in_queue lower by_name now) (λ (h : QueueRow). not h.on_leave && q h.id)
          (map row (keep held d.users))
      ∙ any-map (λ (h : QueueRow). not h.on_leave && q h.id) row (keep held d.users)
      ∙ any-keep (λ v. not (row v).on_leave && q (row v).id) held d.users

  on_duty-includes :
      (u : ℕ)
      → includes u (
          map
            (λ (h : QueueRow). h.id)
            (available lower by_name now (factory_hr_queue lower by_name now d unit_name)))
        ≡ is_on_duty lower now d unit_name u
  unfolding is_on_duty
  on_duty-includes u =
      let free : ℕ → Bool = λ i.
        includes i (role_holder_user_ids lower d "factory_hr" unit_name)
        && not (is_on_leave d now i) in
      includes-map (λ (h : QueueRow). h.id) u
        (available lower by_name now (factory_hr_queue lower by_name now d unit_name))
      ∙ any-available (λ i. i == u)
      ∙ any-ext d.users (λ v. ground arith)
      ∙ any_at free u d.users

  on_duty-any :
      any
        (λ (h : QueueRow). true)
        (available lower by_name now (factory_hr_queue lower by_name now d unit_name))
      ≡ any (λ (v : User). is_on_duty lower now d unit_name v.id) d.users
  unfolding is_on_duty
  on_duty-any =
      any-available (λ i. true)
      ∙ any-cong (λ (v : User). any (has_id v.id) d.users ≡ true) d.users (λ v here. ground arith)
          (present d.users d.users (λ i h. h))

  -- A job analysis belongs to the unit's Factory HR who are on duty, to all of them and to nobody
  -- else; only where none of them is on duty does it belong to Corporate HR and to the Corporate
  -- Recruiters. It is addressed to no single person.
  pub job_analysis_owners_lem :
      (u : ℕ)
      → (includes u (job_analysis_owners lower by_name now d unit_name).user_ids ≡ (
          if any (λ (v : User). is_on_duty lower now d unit_name v.id) d.users
          then is_on_duty lower now d unit_name u
          else includes u (role_holder_user_ids lower d "corporate_hr" unit_name)
            || includes u (role_holder_user_ids lower d "corporate_recruiter" unit_name)))
        × ((job_analysis_owners lower by_name now d unit_name).via_factory_hr
            ≡ any (λ (v : User). is_on_duty lower now d unit_name v.id) d.users)
        × ((job_analysis_owners lower by_name now d unit_name).assignee_id ≡ none)
  unfolding job_analysis_owners
  job_analysis_owners_lem u =
      let on_duty = available lower by_name now (factory_hr_queue lower by_name now d unit_name) in
      let none_left : is_nil on_duty
          ≡ not (any (λ (v : User). is_on_duty lower now d unit_name v.id) d.users) =
        is_nil_iff on_duty ∙ ap not on_duty-any in
      elim (Bool-cases (any (λ (v : User). is_on_duty lower now d unit_name v.id) d.users)) [
        | inl e ↦ rw (job_analysis_owners, none_left, e) (on_duty-includes u, refl, refl)
        | inr e ↦
            rw (job_analysis_owners, none_left, e)
              (
                includes-distinct u (
                      role_holder_user_ids lower d "corporate_hr" unit_name
                      ++ role_holder_user_ids lower d "corporate_recruiter" unit_name)
                    ∙ includes-append u (role_holder_user_ids lower d "corporate_hr" unit_name)
                        (role_holder_user_ids lower d "corporate_recruiter" unit_name),
                refl,
                refl,
              )
      ]
