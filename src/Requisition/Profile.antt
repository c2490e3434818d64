-- ===== src/Requisition/Profile.antt =====
-- The role profile: the deterministic template (requisition.workflow.ts) and the configured model's
-- text over it, field by field (`buildRoleProfile`). The language model is a parameter.
use hrm_backend.Prelude.{
  ℕ, String, Bool, Option, none, some, List, [], ◌∷◌, ◌++◌, if◌then◌else◌, nonempty, ◌+++◌,
}
use hrm_backend.Decimal.{decimal}
use hrm_backend.Requisition.Model.{Requisition, RoleProfile, template, ai}

-- What AiGraderService.generateRoleProfile returns.
pub record AiProfile : Type 0 where
  pub summary : String
  pub job_description : String
  pub responsibilities : List String
  pub requirements : List String

-- `generate` is none where the call throws; `label` names every level the post may be filled at.
pub record Ai : Type 0 where
  pub is_configured : Bool
  pub auto_role_profile : Bool
  pub generate : Requisition → Option AiProfile
  pub label : String → List String → String

-- `s || d` and `xs.length ? xs : d`
abbrev text_or : String → String → String
text_or s d = if nonempty s then s else d

abbrev lines_or : List String → List String → List String
lines_or [] d = d
lines_or (x ∷ xs) d = x ∷ xs

-- `...(others ? [others] : [])`
abbrev optional_line : Option String → List String
optional_line none = []
optional_line (some s) = if nonempty s then s ∷ [] else []

synthesize_role_profile : Requisition → ℕ → RoleProfile
synthesize_role_profile r now = record {
  summary =
      r.designation +++ " supporting " +++ r.department +++ " at " +++ r.unit_factory
      +++ ", based in " +++ r.place_of_posting +++ ".";
  job_description = text_or r.job_description (
      r.unit_factory +++ " is seeking a " +++ r.designation +++ " for the " +++ r.department
      +++ " department.");
  responsibilities =
      ("Deliver " +++ r.department +++ " outcomes for " +++ r.unit_factory)
      ∷ "Maintain quality, safety and compliance standards"
      ∷ "Collaborate with cross-functional teams"
      ∷ "Report progress and escalate risks"
      ∷ [];
  requirements =
      ("Education: " +++ r.education)
      ∷ ("Experience: " +++ r.experience)
      ∷ (optional_line r.others
          ++ ("Suitable for " +++ decimal r.required_posts +++ " position(s)") ∷ []);
  generated_at = now;
  generated_by = template;
}

over_template : RoleProfile → Option AiProfile → ℕ → RoleProfile
over_template base none now = base
over_template base (some p) now = record {
  summary = text_or p.summary base.summary;
  job_description = text_or p.job_description base.job_description;
  responsibilities = lines_or p.responsibilities base.responsibilities;
  requirements = lines_or p.requirements base.requirements;
  generated_at = now;
  generated_by = ai;
}

pub build_role_profile : Ai → Requisition → ℕ → RoleProfile
unfolding synthesize_role_profile over_template
build_role_profile model row now =
    let r = record row { designation = model.label row.designation row.alternate_designations } in
    let base = synthesize_role_profile r now in
    if model.is_configured then over_template base (model.generate r) now else base
