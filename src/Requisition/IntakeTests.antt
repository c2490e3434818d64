-- ===== src/Requisition/IntakeTests.antt =====
-- Runs of a create, of the approval paths and of the codes, and their theorems at sample data.
use hrm_backend.Prelude.{
  ℕ, ◌+◌, ◌<◌, ◌≤◌, ◌==◌, String, ◌≡◌, refl, ◌⊎◌, true, false, Option, none, some, List, [], ◌∷◌,
  ok, err, arith, trim, trim_start, trim_end, is_space, if◌then◌else◌, Result, All, failed,
}
use hrm_backend.Requisition.Model.{Step, Requisition}
use hrm_backend.Requisition.Access.{load, may_open, is_own_business}
use hrm_backend.Requisition.Code.{
  scan_all, code_sequence, format_requisition_code, next_requisition_code,
}
use hrm_backend.Requisition.Code.RoundTrip.{code_sequence-format, next_requisition_code-above}
use hrm_backend.Requisition.Code.Fresh.{
  tried, collided, with_fresh_code, with_fresh_code-tried, DriverError, Target, is_code_collision,
}
use hrm_backend.Requisition.Intake.{
  clean, replacements_after, ReplacedEmployee, ReplacementInput, normalise_replacements,
}
use hrm_backend.Requisition.Create.{NewRequisition, Office, create}
use hrm_backend.Requisition.Create.Laws.{create-raises, created-WellFormed}
use hrm_backend.Requisition.Invariant.{WellFormed}
use hrm_backend.Requisition.Lifecycle.{Request, return_to_raiser, handle}
use hrm_backend.Requisition.Lifecycle.Reachable.{Leads, stays, handles}
use hrm_backend.Requisition.Return.{return_job_analysis_to_raiser, require_job_analysis_access}
use hrm_backend.Requisition.Samples.{everybody, raiser, approver, world, row_of, sent_of}
use hrm_backend.UnitName.{same_unit, normalize_unit_name, strip_end}
use hrm_backend.ApprovalPaths.{
  Answer, UnitRow, Directory, Rights, LevelInput, add_raiser, remove_raiser, replace,
  require_config_access, validate_levels, find_path,
}
use hrm_backend.ApprovalPaths.Laws.{IsValid, replace-IsValid}
use hrm_backend.ApprovalPaths.Chain.{chosen_path, build_steps_for_raiser}
use hrm_backend.ApprovalPaths.ChainLaws.{ChainIsValid, build_steps-ChainIsValid}

abbrev same_text : String → String
same_text s = s

abbrev no_date : String → Option ℕ
no_date s = none

abbrev shifted : ℕ → ℕ
shifted k = k + 50

shifted-apart : (j k : ℕ) → shifted j ≡ shifted k → j ≡ k
shifted-apart j k e = omega arith

abbrev free_rights : Rights
free_rights = record {
  is_super_user = λ u. u == 9;
  role_keys = λ u. [];
  reaches_unit = λ u n. false;
  role_holder_names = λ k n. "Head" ∷ [];
}

abbrev mill : UnitRow
mill = record { id = 3; name = "Mill" }

-- User 1 raises for the mill, through user 2.
abbrev directory : Directory
directory = record {
  units = mill ∷ [];
  people =
      record { id = 1; name = "Rahim"; is_active = true }
      ∷ record { id = 2; name = "Karim"; is_active = true }
      ∷ [];
  paths =
      record {
        unit_id = 3;
        raiser_id = 1;
        department = "";
        updated_by = 9;
        levels = record { order_index = 0; user_id = 2; title = "Head"; subtitle = "" } ∷ [];
      }
      ∷ [];
  grants = [];
}

directory-IsValid : IsValid directory
directory-IsValid = record {
  each = ((record { numbered = (refl, tt); not_own = refl; once = refl }), tt);
  one_each = (refl, tt);
}

abbrev or_directory : Answer Directory → Directory
or_directory (ok d) = d
or_directory (err e) = directory

adding_runs :
    add_raiser free_rights directory 3 2 9 "IT"
    ≡ ok (or_directory (add_raiser free_rights directory 3 2 9 "IT"))
unfolding add_raiser require_config_access find_path
adding_runs = refl

removing_runs :
    remove_raiser free_rights directory 3 1 9 none true
    ≡ ok (or_directory (remove_raiser free_rights directory 3 1 9 none true))
unfolding remove_raiser require_config_access
removing_runs = refl

abbrev new_levels : List LevelInput
new_levels = record { user_id = 2; title = "Unit Head"; subtitle = none } ∷ []

replacing_runs :
    replace free_rights directory 3 1 new_levels 9 ""
    ≡ ok (or_directory (replace free_rights directory 3 1 new_levels 9 ""))
unfolding replace require_config_access find_path validate_levels trim
replacing_runs = refl

replace-IsValid_example : IsValid (or_directory (replace free_rights directory 3 1 new_levels 9 ""))
replace-IsValid_example =
    replace-IsValid free_rights directory 3 1 new_levels 9 "" directory-IsValid replacing_runs

abbrev or_steps : Answer (List Step) → List Step
or_steps (ok steps) = steps
or_steps (err e) = []

building_runs :
    build_steps_for_raiser same_text shifted free_rights directory "Mill" 1 "IT"
    ≡ ok (or_steps (build_steps_for_raiser same_text shifted free_rights directory "Mill" 1 "IT"))
unfolding build_steps_for_raiser chosen_path same_unit normalize_unit_name strip_end trim trim_start
    trim_end is_space
building_runs = refl

build_steps-ChainIsValid_example :
    ChainIsValid 1
      (or_steps (build_steps_for_raiser same_text shifted free_rights directory "Mill" 1 "IT"))
build_steps-ChainIsValid_example =
    build_steps-ChainIsValid same_text shifted free_rights directory "Mill" 1 "IT" shifted-apart
      directory-IsValid building_runs

abbrev office : Office
office = record {
  lower = same_text;
  parse_date = no_date;
  rights = free_rights;
  directory = directory;
  lookup = λ u d n r. ok tt;
  job_analysis_assignee = λ u. none;
  id = 1;
  code = "REQ-2026-001";
  step_ids = shifted;
}

abbrev leaver : String → ReplacedEmployee
leaver name = record {
  employee_name = some name;
  employee_code = some "E-7";
  separation_reason = some "Resigned";
  vacant_date = none;
  remarks = none;
}

abbrev leavers : ReplacementInput
leavers = record {
  replacements = some (leaver "Anis" ∷ leaver "Anis Ahmed" ∷ []);
  single = leaver "";
}

abbrev form : NewRequisition
form = record {
  designation = "Engineer";
  alternate_designations = some ("Executive" ∷ "Engineer" ∷ []);
  is_new_headcount = false;
  replaced = leavers;
  unit_factory = "Mill";
  department = "IT";
  place_of_posting = "Dhaka";
  required_posts = 1;
  department_head_name = "";
}

creating_runs :
    create everybody office form raiser
    ≡ ok (
      row_of (create everybody office form raiser),
      sent_of (create everybody office form raiser),
    )
unfolding create build_steps_for_raiser chosen_path same_unit normalize_unit_name strip_end trim
    trim_start trim_end is_space normalise_replacements replacements_after clean
creating_runs = refl

create-raises_example : ChainIsValid 1 (row_of (create everybody office form raiser)).steps
create-raises_example =
    (create-raises everybody office form raiser shifted-apart directory-IsValid creating_runs).3

abbrev new_row : Requisition
new_row = row_of (create everybody office form raiser)

abbrev send_back : Request
send_back = return_to_raiser "Which loom?"

returning_runs :
    handle world new_row send_back approver
    ≡ ok (
      row_of (handle world new_row send_back approver),
      sent_of (handle world new_row send_back approver),
    )
unfolding handle return_job_analysis_to_raiser require_job_analysis_access load may_open
    is_own_business create build_steps_for_raiser chosen_path same_unit normalize_unit_name
    strip_end trim trim_start trim_end is_space normalise_replacements replacements_after clean
returning_runs = refl

returned : Leads new_row (row_of (handle world new_row send_back approver))
returned = handles world new_row send_back approver _ _ stays tt returning_runs

created-WellFormed_example : WellFormed (row_of (handle world new_row send_back approver))
created-WellFormed_example =
    created-WellFormed everybody office form raiser shifted-apart directory-IsValid creating_runs
      returned

code_sequence-format_example : code_sequence (format_requisition_code 2026 15) ≡ 15
code_sequence-format_example = code_sequence-format 2026 15

abbrev codes : List String
codes = "REQ-2026-001" ∷ "REQ-2026-015" ∷ "OLD" ∷ []

code_sequence_runs : code_sequence "REQ-2026-015 " ≡ 15
unfolding code_sequence scan_all is_space
code_sequence_runs = refl

next_requisition_code-above_example :
    All (λ c. code_sequence c < code_sequence (next_requisition_code codes 2027)) codes
next_requisition_code-above_example = next_requisition_code-above codes 2027

-- The first create meets a taken code.
abbrev taken : DriverError
taken = record { code = some "P2002"; target = Target.columns ("code" ∷ []) }

abbrev creates : ℕ → String → Result DriverError String
creates attempt code = if attempt == 1 then err (failed taken) else ok code

taken_collides : is_code_collision taken ≡ true
unfolding is_code_collision
taken_collides = refl

other_table :
    is_code_collision (record { code = some "P2002"; target = Target.one_text "unit_name" }) ≡ false
unfolding is_code_collision
other_table = refl

abbrev seen_codes : ℕ → List String
seen_codes attempt = codes

with_fresh_code-tried_example :
    (k : ℕ) × (1 ≤ k)
    × (k ≤ 5)
    × (with_fresh_code 2027 seen_codes creates ≡ tried 2027 seen_codes creates k)
    × ((j : ℕ)
        → 1 ≤ j
        → j < k
        → collided 2027 seen_codes creates (tried 2027 seen_codes creates j) ≡ true)
    × ((collided 2027 seen_codes creates (tried 2027 seen_codes creates k) ≡ false) ⊎ (k ≡ 5))
with_fresh_code-tried_example = with_fresh_code-tried 2027 seen_codes creates
