-- ===== src/Requisition/Intake/Unique.antt =====
-- Repeats among the alternate designations and the employees replaced (requisition-inputs.ts).
use hrm_backend.Prelude.{
  ℕ, suc, String, ◌≡◌, refl, false, Bool-cases, Option-cases, inl, inr, Option, none, some, List,
  [], ◌∷◌, trim, or_else,
}
use hrm_backend.Requisition.Model.{Replacement}
use hrm_backend.Requisition.Intake.{
  clean, has, ReplacedEmployee, ReplacementInput, alternates_after, normalise_alternates, identity,
  replacements_after, normalise_replacements,
}

-- No key of the list is among `seen`, or there twice.
abbrev pub NewKeys {ℓ} : {A : Type ℓ} → (A → String) → List String → List A → Type 0
NewKeys key seen [] = Unit
NewKeys key seen (x ∷ xs) = (has (key x) seen ≡ false) × NewKeys key (key x ∷ seen) xs

abbrev pub Ordered : ℕ → List Replacement → Type 0
Ordered k [] = Unit
Ordered k (x ∷ xs) = (x.order_index ≡ k) × Ordered (suc k) xs

module _ (lower : String → String) (parse_date : String → Option ℕ) where
  alternates_after-NewKeys :
      (seen raws : List String) → NewKeys lower seen (alternates_after lower parse_date seen raws)
  unfolding alternates_after
  alternates_after-NewKeys seen [] = tt
  alternates_after-NewKeys seen (raw ∷ rest) = elim (Option-cases (clean 150 (some raw))) [
    | inl e ↦ rw (NewKeys, e) (alternates_after-NewKeys seen rest)
    | inr (v, e) ↦
        rw (NewKeys, e)
          (elim (Bool-cases (has (lower v) seen)) [
            | inl h ↦ rw h (alternates_after-NewKeys seen rest)
            | inr h ↦ rw h (h, alternates_after-NewKeys (lower v ∷ seen) rest)
          ])
  ]

  -- The alternate designations differ from the primary one and from each other, the case of their
  -- letters aside.
  pub normalise_alternates-NewKeys :
      (primary : String) (alternates : Option (List String))
      → NewKeys lower
          (lower (trim primary) ∷ [])
          (normalise_alternates lower parse_date primary alternates)
  unfolding normalise_alternates
  normalise_alternates-NewKeys primary none = tt
  normalise_alternates-NewKeys primary (some alternates) =
      alternates_after-NewKeys (lower (trim primary) ∷ []) alternates

  -- A stored row is known by its employee code, or by its name where it has none.
  abbrev pub known_by : Replacement → String
  known_by r = identity lower parse_date r.employee_code r.employee_name

  replacements_after-valid :
      (index : ℕ) (seen : List String) (rows : List ReplacedEmployee)
      → NewKeys known_by seen (replacements_after lower parse_date index seen rows)
        × Ordered index (replacements_after lower parse_date index seen rows)
  unfolding replacements_after
  replacements_after-valid index seen [] = (tt, tt)
  replacements_after-valid index seen (row ∷ rest) =
      elim (Option-cases (clean 150 row.employee_name)) [
        | inl e ↦ rw (NewKeys, Ordered, e) (replacements_after-valid index seen rest)
        | inr (name, e) ↦
            rw (NewKeys, Ordered, e)
              (elim (Bool-cases
                (has (identity lower parse_date (clean 50 row.employee_code) name) seen)) [
                  | inl h ↦ rw h (replacements_after-valid index seen rest)
                  | inr h ↦
                      let (keys, order) =
                        replacements_after-valid (suc index)
                          (identity lower parse_date (clean 50 row.employee_code) name ∷ seen)
                          rest in
                      rw h ((h, keys), (refl, order))
                ])
      ]

  -- The employees replaced are numbered in order, and no two of them have one employee code, or one
  -- name where they have none, the case of letters aside.
  pub normalise_replacements-valid :
      (input : ReplacementInput)
      → NewKeys known_by [] (normalise_replacements lower parse_date input)
        × Ordered 0 (normalise_replacements lower parse_date input)
  unfolding normalise_replacements
  normalise_replacements-valid input =
      replacements_after-valid 0 [] (or_else input.replacements (input.single ∷ []))
