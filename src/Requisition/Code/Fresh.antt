-- ===== src/Requisition/Code/Fresh.antt =====
-- `withFreshCode`: the create is run again with the next code while its code was taken, five times at
-- most (requisition.service.ts).
use hrm_backend.Prelude.{
  ℕ, zero, suc, ◌+◌, ◌≤◌, ◌<◌, String, ◌≡◌, refl, ◌⊎◌, inl, inr, Bool, true, false, Bool-cases,
  if◌then◌else◌, ◌||◌, ◌===◌, Option, or_else, any, List, Result, ok, err, failed, arith,
}
use Prim.Native.String.{[], ◌∷◌}
use text.Mathlib.Text.{starts_with}
use hrm_backend.Requisition.Code.{next_requisition_code}

-- What `meta.target` of an error of the database driver holds: the columns, or one text.
pub data Target : Type 0 where
  columns : List String → Target
  one_text : String → Target
  missing : Target

-- An error of the driver: its code, and the target of its details.
pub record DriverError : Type 0 where
  pub code : Option String
  pub target : Target

-- `text.includes(part)`
text_includes : String → String → Bool
text_includes part [] = starts_with "" part
text_includes part (c ∷ s) = let later = text_includes part s in starts_with (c ∷ s) part || later

abbrev names_code : Target → Bool
names_code (Target.columns names) = any (λ name. name === "code") names
names_code (Target.one_text name) = text_includes "code" name
names_code Target.missing = false

unfoldable pub is_code_collision : DriverError → Bool
unfolding text_includes
is_code_collision e = if or_else e.code "" === "P2002" then names_code e.target else false

-- `codes` and `create` stand for the database at each attempt: the codes that the attempt reads,
-- and what the create with a code comes to. Only an error of the driver has its codes.
module _ {A : Type 0} (year : ℕ) (codes : ℕ → List String)
    (create : ℕ → String → Result DriverError A) where
  pub tried : ℕ → Result DriverError A
  tried attempt = create attempt (next_requisition_code (codes attempt) year)

  pub collided : Result DriverError A → Bool
  unfolding is_code_collision
  collided (ok x) = false
  collided (err (failed e)) = is_code_collision e
  collided (err e) = false

  attempts : (left attempt : ℕ) → Result DriverError A
  unfolding collided
  attempts zero attempt = tried attempt
  attempts (suc left) attempt =
      let later = attempts left (suc attempt) in
      if collided (tried attempt) then later else tried attempt

  pub with_fresh_code : Result DriverError A
  with_fresh_code = attempts 4 1

  attempts-tried :
      (left attempt : ℕ)
      → (k : ℕ) × (attempt ≤ k)
        × (k ≤ attempt + left)
        × (attempts left attempt ≡ tried k)
        × ((j : ℕ) → attempt ≤ j → j < k → collided (tried j) ≡ true)
        × ((collided (tried k) ≡ false) ⊎ (k ≡ attempt + left))
  unfolding attempts
  attempts-tried zero attempt =
      (attempt, omega arith, omega arith, refl, (λ j p q. absurd (omega arith)), inr (omega arith))
  attempts-tried (suc left) attempt = elim (Bool-cases (collided (tried attempt))) [
    | inr p ↦ (attempt, omega arith, omega arith, rw p refl, (λ j x y. absurd (omega arith)), inl p)
    | inl p ↦
        let (k, low, high, same, before, end) = attempts-tried left (suc attempt) in
        (
          k,
          omega arith,
          omega arith,
          rw p same,
          (λ j x y. ground (arith, before j, p)),
          (elim end [ inl e ↦ inl e | inr e ↦ inr (omega arith) ]),
        )
  ]

  -- The create ends as one of the first five attempts did: every attempt before it met a taken
  -- code, and either it did not, or it is the fifth.
  pub with_fresh_code-tried :
      (k : ℕ) × (1 ≤ k)
      × (k ≤ 5)
      × (with_fresh_code ≡ tried k)
      × ((j : ℕ) → 1 ≤ j → j < k → collided (tried j) ≡ true)
      × ((collided (tried k) ≡ false) ⊎ (k ≡ 5))
  unfolding with_fresh_code
  with_fresh_code-tried = attempts-tried 4 1
