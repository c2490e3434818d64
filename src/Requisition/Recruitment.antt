-- ===== src/Requisition/Recruitment.antt =====
-- After approval: the role profile, posting, the CV collection sources and the recruiter
-- (requisition.service.ts, cv-sources.ts).
use hrm_backend.Prelude.{
  ℕ, String, Bool, true, false, ◌&&◌, not, Option, none, some, List, [], ◌∷◌, ◌++◌, map, keep, any,
  is_nil, is_some, if◌then◌else◌, nonempty, trim, join, ◌===◌, ◌+++◌, ok, guard, or_throw, ◌>>=◌,
  ◌>>◌, bad_request, not_found,
}
use hrm_backend.Requisition.Model.{
  Status, LogAction, CvSource, RoleProfile, Posting, Requisition, Actor, Outcome, Reply, Effect,
  broadcast, notify, talent_bank_match, drive_workspace, job_analysis, manual, linkedin, bdjobs,
  head_hunting, social_media, career_site, campus, internal_posting, cv_bank, talent_pool,
  employee_referral, not_approved_yet, no_role_profile, no_cv_source, cv_sources_missing,
  recruiter_missing, recruiter_inactive, recruiter_without_role,
}
use hrm_backend.Requisition.Steps.{add_activity}
use hrm_backend.Requisition.Access.{
  Access, load, is_approved, require_recruitment_access, require_recruitment_lead,
}
use hrm_backend.Requisition.Profile.{Ai, build_role_profile}
use hrm_backend.Requisition.Decision.{notify_raiser}

abbrev has_profile_stage : Status → Bool
has_profile_stage Status.approved = true
has_profile_stage Status.profile_generated = true
has_profile_stage _ = false

abbrev can_be_posted : Status → Bool
can_be_posted Status.profile_generated = true
can_be_posted Status.posted = true
can_be_posted _ = false

unfoldable pub generate_role_profile : Access → Ai → Requisition → Actor → Reply
generate_role_profile a model row actor = do
  r ← load a (some row) (some actor.id)
  guard (has_profile_stage r.status) (bad_request not_approved_yet)
  require_recruitment_access a r actor.id
  let updated = record r {
    role_profile = some (build_role_profile model r a.now);
    status = Status.profile_generated;
  }
  ok (updated, broadcast "role_profile_generated" ∷ notify_raiser updated "requisition_profile")

pub record ProfileEdit : Type 0 where
  pub summary : String
  pub job_description : String
  pub responsibilities : List String
  pub requirements : List String
  pub from_job_analysis : Bool

abbrev clean : List String → List String
clean lines = keep nonempty (map trim lines)

unfoldable pub update_role_profile : Access → Requisition → ProfileEdit → Actor → Reply
update_role_profile a row dto actor = do
  r ← load a (some row) (some actor.id)
  guard (has_profile_stage r.status) (bad_request not_approved_yet)
  require_recruitment_access a r actor.id
  let profile : RoleProfile = record {
    summary = trim dto.summary;
    job_description = trim dto.job_description;
    responsibilities = clean dto.responsibilities;
    requirements = clean dto.requirements;
    generated_at = a.now;
    generated_by = if dto.from_job_analysis then job_analysis else manual;
  }
  ok (
    record r { role_profile = some profile; status = Status.profile_generated },
    broadcast "role_profile_updated" ∷ [],
  )

-- The Drive workspace is set up in the background, after the reply.
unfoldable pub post : Access → Requisition → String → Actor → Reply
post a row closing_date actor = do
  r ← load a (some row) (some actor.id)
  guard (can_be_posted r.status) (bad_request no_role_profile)
  require_recruitment_access a r actor.id
  let posting : Posting = record {
    sources = "career_page" ∷ [];
    closing_date = closing_date;
    posted_at = a.now;
  }
  ok (
    record r { posting = some posting; status = Status.posted },
    drive_workspace ∷ talent_bank_match ∷ [],
  )

-- CV_SOURCES, the catalogue.
abbrev pub cv_source_catalogue : List CvSource
cv_source_catalogue =
    linkedin ∷ bdjobs ∷ head_hunting ∷ social_media ∷ career_site ∷ campus ∷ internal_posting
    ∷ cv_bank ∷ talent_pool ∷ employee_referral ∷ []

abbrev pub cv_source_key : CvSource → String
cv_source_key linkedin = "linkedin"
cv_source_key bdjobs = "bdjobs"
cv_source_key head_hunting = "head_hunting"
cv_source_key social_media = "social_media"
cv_source_key career_site = "career_site"
cv_source_key campus = "campus"
cv_source_key internal_posting = "internal_posting"
cv_source_key cv_bank = "cv_bank"
cv_source_key talent_pool = "talent_pool"
cv_source_key employee_referral = "employee_referral"

abbrev cv_source_label : CvSource → String
cv_source_label linkedin = "LinkedIn"
cv_source_label bdjobs = "BDJobs"
cv_source_label head_hunting = "Head Hunting"
cv_source_label social_media = "Social media"
cv_source_label career_site = "Career Site"
cv_source_label campus = "Campus"
cv_source_label internal_posting = "Internal Posting"
cv_source_label cv_bank = "CV Bank"
cv_source_label talent_pool = "Talent Pool"
cv_source_label employee_referral = "Employee Referral"

abbrev pub ticked : List String → String → Bool
ticked input key = any (λ t. t === key) input

unfoldable pub normalise_cv_sources : List String → List CvSource
normalise_cv_sources input = keep (λ s. ticked input (cv_source_key s)) cv_source_catalogue

abbrev cv_source_names : List CvSource → String
cv_source_names sources = join ", " (map cv_source_label sources)

abbrev same_sources : List CvSource → List CvSource → Bool
same_sources xs ys = join "|" (map cv_source_key xs) === join "|" (map cv_source_key ys)

-- The same list again changes nothing and is not logged.
unfoldable pub replace_sources :
    Access → Actor → List CvSource → Requisition → Requisition × List Effect
replace_sources a actor next r = if same_sources next r.cv_sources then (r, []) else (
  add_activity
      (record {
        actor = actor.name;
        action = LogAction.edited;
        note =
            if is_nil r.cv_sources
            then "CV collection sources set: " +++ cv_source_names next
            else "CV collection sources changed: "
              +++ cv_source_names r.cv_sources
              +++ " → "
              +++ cv_source_names next;
      })
      (record r {
        cv_sources = next;
        cv_sources_set_at = some a.now;
        cv_sources_set_by = some actor.name;
      }),
  broadcast "updated" ∷ [],
)

unfoldable pub set_cv_sources : Access → Requisition → List String → Actor → Reply
set_cv_sources a row sources actor = do
  r ← load a (some row) (some actor.id)
  require_recruitment_lead a r actor.id
  guard (is_approved r.status) (bad_request not_approved_yet)
  let next = normalise_cv_sources sources
  guard (not (is_nil next)) (bad_request no_cv_source)
  ok (replace_sources a actor next r)

-- The user row that `assignRecruiter` looks up.
pub record UserRow : Type 0 where
  pub id : ℕ
  pub name : String
  pub is_active : Bool

unfoldable pub check_recruiter : Access → Requisition → Option UserRow → Outcome String
check_recruiter a r user = do
  u ← or_throw user (not_found recruiter_missing)
  guard u.is_active (bad_request recruiter_inactive)
  guard (a.has_role_for_unit u.id "corporate_recruiter" r.unit_factory)
      (bad_request recruiter_without_role)
  ok u.name

unfoldable pub named_recruiter :
    Access → (ℕ → Option UserRow) → Requisition → Option ℕ → Outcome String
unfolding check_recruiter
named_recruiter a users r none = ok ""
named_recruiter a users r (some u) = check_recruiter a r (users u)

-- Assigning ends a cover, which stood in for the recruiter before.
abbrev pub assigned : Access → Actor → Option ℕ → String → Requisition → Requisition
assigned a actor recruiter name r =
    add_activity
      (record {
        actor = actor.name;
        action = LogAction.edited;
        note =
            if is_some recruiter
            then "Assigned " +++ name +++ " as Corporate Recruiter"
            else "Cleared the assigned Corporate Recruiter";
      })
      (record r {
        recruiter_id = recruiter;
        recruiter_assigned_at = if is_some recruiter then some a.now else none;
        recruiter_assigned_by_id = if is_some recruiter then some actor.id else none;
        cover_recruiter_id = none;
        cover_leave_id = none;
        cover_until = none;
      })

-- `users` is the lookup of a user row by its id.
unfoldable pub assign_recruiter :
    Access → (ℕ → Option UserRow) → Requisition → Option ℕ → Actor → Reply
assign_recruiter a users row recruiter actor = do
  r ← load a (some row) (some actor.id)
  require_recruitment_lead a r actor.id
  guard (is_approved r.status) (bad_request not_approved_yet)
  guard (not (is_some recruiter && is_nil r.cv_sources)) (bad_request cv_sources_missing)
  name ← named_recruiter a users r recruiter
  updated ← load a (some (assigned a actor recruiter name r)) (some actor.id)
  let told : List Effect = elim recruiter [
    | none ↦ []
    | some u ↦ notify (u ∷ []) "requisition_recruiter_assigned" ∷ []
  ]
  ok (updated, told ++ broadcast "updated" ∷ [])
