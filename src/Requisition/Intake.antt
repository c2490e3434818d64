-- ===== src/Requisition/Intake.antt =====
-- What the requisition form sends, made into what is stored (requisition-inputs.ts).
pub mod Unique
use hrm_backend.Prelude.{
  ℕ, suc, ◌+◌, String, Bool, true, false, ◌||◌, Option, none, some, List, [], ◌∷◌, any,
  if◌then◌else◌, nonempty, trim, text_take, or_else, ◌===◌, join,
}
use hrm_backend.Requisition.Model.{Replacement}

-- `clean`: trimmed and cut, or none where nothing is left.
unfoldable pub clean : ℕ → Option String → Option String
clean max none = none
clean max (some v) = let t = trim v in if nonempty t then some (text_take max t) else none

abbrev has : String → List String → Bool
has key = any (λ k. k === key)

-- One row of the form's list.
pub record ReplacedEmployee : Type 0 where
  pub employee_name : Option String
  pub employee_code : Option String
  pub separation_reason : Option String
  pub vacant_date : Option String
  pub remarks : Option String

-- The list that the form sends, or the single fields of an older client.
pub record ReplacementInput : Type 0 where
  pub replacements : Option (List ReplacedEmployee)
  pub single : ReplacedEmployee

-- `lower` is JavaScript's `toLowerCase`, and `parse_date` its `Date`, with none for an invalid one.
module _ (lower : String → String) (parse_date : String → Option ℕ) where
  alternates_after : List String → List String → List String
  alternates_after seen [] = []
  alternates_after seen (raw ∷ rest) = elim (clean 150 (some raw)) [
    | none ↦ alternates_after seen rest
    | some v ↦ elim (has (lower v) seen) [
      | true ↦ alternates_after seen rest
      | false ↦ v ∷ alternates_after (lower v ∷ seen) rest
    ]
  ]

  pub normalise_alternates : String → Option (List String) → List String
  normalise_alternates primary none = []
  normalise_alternates primary (some alternates) =
      alternates_after (lower (trim primary) ∷ []) alternates

  designation_label : String → Option (List String) → String
  unfolding normalise_alternates
  designation_label primary alternates =
      join " / " (trim primary ∷ normalise_alternates primary alternates)

  abbrev to_date : Option String → Option ℕ
  to_date v = elim (clean 40 v) [ none ↦ none | some t ↦ parse_date t ]

  abbrev identity : Option String → String → String
  identity code name = lower (or_else code name)

  abbrev stored : ReplacedEmployee → String → ℕ → Replacement
  stored row name index = record {
    employee_name = name;
    employee_code = clean 50 row.employee_code;
    separation_reason = clean 120 row.separation_reason;
    vacant_date = to_date row.vacant_date;
    remarks = clean 500 row.remarks;
    order_index = index;
  }

  -- `index` is the length of the output so far.
  unfoldable pub replacements_after : ℕ → List String → List ReplacedEmployee → List Replacement
  replacements_after index seen [] = []
  replacements_after index seen (row ∷ rest) = elim (clean 150 row.employee_name) [
    | none ↦ replacements_after index seen rest
    | some name ↦ elim (has (identity (clean 50 row.employee_code) name) seen) [
      | true ↦ replacements_after index seen rest
      | false ↦
          stored row name index
          ∷ replacements_after (suc index) (identity (clean 50 row.employee_code) name ∷ seen) rest
    ]
  ]

  unfoldable pub normalise_replacements : ReplacementInput → List Replacement
  normalise_replacements input =
      replacements_after 0 [] (or_else input.replacements (input.single ∷ []))
