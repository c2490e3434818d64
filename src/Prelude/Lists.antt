-- ===== src/Prelude/Lists.antt =====
-- Lists measured by native numbers, Boolean searches, and predicates over every element.
use Prim.Native.Nat.{ℕ, suc, ◌+◌}
use mathlib.Core.Path.{◌≡◌, refl}
use mathlib.Core.Bool.{Bool, true, false, ◌&&◌, ◌||◌, not}
use mathlib.Core.List.{List, [], ◌∷◌, ◌++◌, map}
use mathlib.Core.Option.{Option, none, some}
use native.Mathlib.Omega.{arith}
use hrm_backend.Prelude.Tests.{◌==◌, if◌then◌else◌}

module _ {ℓ} {A : Type ℓ} where
  abbrev pub length : List A → ℕ
  length [] = 0
  length (x ∷ xs) = suc (length xs)

  length-append : (xs ys : List A) → length (xs ++ ys) ≡ length xs + length ys
  length-append [] ys = omega arith
  length-append (x ∷ xs) ys = omega (arith, length-append xs ys)

  abbrev pub is_nil : List A → Bool
  is_nil [] = true
  is_nil (x ∷ xs) = false

  -- `xs.some(p)`
  abbrev pub any : (A → Bool) → List A → Bool
  any p [] = false
  any p (x ∷ xs) = p x || any p xs

  -- `xs.every(p)`
  abbrev pub all : (A → Bool) → List A → Bool
  all p [] = true
  all p (x ∷ xs) = p x && all p xs

  -- `xs.filter(p)`
  abbrev pub keep : (A → Bool) → List A → List A
  keep p [] = []
  keep p (x ∷ xs) = let rest = keep p xs in if p x then x ∷ rest else rest

  -- `xs.find(p)`
  abbrev pub find : (A → Bool) → List A → Option A
  find p [] = none
  find p (x ∷ xs) = if p x then some x else find p xs

pub keep-cong {ℓ} :
    {A : Type ℓ} {p q : A → Bool} (xs : List A) → ((x : A) → p x ≡ q x) → keep p xs ≡ keep q xs
keep-cong [] h = refl
keep-cong (x ∷ xs) h = rw (h x, keep-cong xs h)

abbrev pub All {ℓ κ} : {A : Type ℓ} → (A → Type κ) → List A → Type κ
All P [] = Unit
All P (x ∷ xs) = P x × All P xs

-- `ids.includes(u)`
abbrev pub includes : ℕ → List ℕ → Bool
includes u [] = false
includes u (x ∷ xs) = x == u || includes u xs

-- `new Set(ids).size !== ids.length`
abbrev pub repeats : List ℕ → Bool
repeats [] = false
repeats (x ∷ xs) = includes x xs || repeats xs

-- `[...new Set(ids)]`: the first of each, in the order met.
without : ℕ → List ℕ → List ℕ
without u [] = []
without u (x ∷ xs) = let rest = without u xs in if x == u then rest else x ∷ rest

unfoldable pub distinct : List ℕ → List ℕ
unfolding without
distinct [] = []
distinct (x ∷ xs) = x ∷ without x (distinct xs)

without-includes :
    (u x : ℕ) (xs : List ℕ) → includes u (without x xs) ≡ (not (x == u) && includes u xs)
unfolding without
without-includes u x [] = ground arith
without-includes u x (y ∷ ys) = ground (arith, without-includes u x ys)

pub includes-distinct : (u : ℕ) (xs : List ℕ) → includes u (distinct xs) ≡ includes u xs
unfolding distinct
includes-distinct u [] = refl
includes-distinct u (x ∷ xs) =
    rw (without-includes u x (distinct xs), includes-distinct u xs) (ground arith)

pub includes-append :
    (u : ℕ) (xs ys : List ℕ) → includes u (xs ++ ys) ≡ (includes u xs || includes u ys)
includes-append u [] ys = refl
includes-append u (x ∷ xs) ys = rw (includes-append u xs ys) (ground arith)

module _ {ℓ} {A : Type ℓ} where
  pub includes-map :
      (f : A → ℕ) (u : ℕ) (xs : List A) → includes u (map f xs) ≡ any (λ x. f x == u) xs
  includes-map f u [] = refl
  includes-map f u (x ∷ xs) = rw (includes-map f u xs) refl

  pub any-keep : (p q : A → Bool) (xs : List A) → any p (keep q xs) ≡ any (λ x. q x && p x) xs
  any-keep p q [] = refl
  any-keep p q (x ∷ xs) = ground (arith, any-keep p q xs)

  pub any-ext : {p q : A → Bool} (xs : List A) → ((x : A) → p x ≡ q x) → any p xs ≡ any q xs
  any-ext [] same = refl
  any-ext (x ∷ xs) same = rw (same x, any-ext xs same) refl

  -- Two tests that agree on every element of a kind find alike.
  pub any-cong {κ} :
      (P : A → Type κ) {p q : A → Bool} (xs : List A)
      → ((x : A) → P x → p x ≡ q x)
      → All P xs
      → any p xs ≡ any q xs
  any-cong P [] same h = refl
  any-cong P (x ∷ xs) same (now, later) = rw (same x now, any-cong P xs same later) refl

  pub any_never : (xs : List A) → any (λ x. false) xs ≡ false
  any_never [] = refl
  any_never (x ∷ xs) = any_never xs

pub any-map {ℓ κ} :
    {A : Type ℓ} {B : Type κ} (p : B → Bool) (f : A → B) (xs : List A)
    → any p (map f xs) ≡ any (λ x. p (f x)) xs
any-map p f [] = refl
any-map p f (x ∷ xs) = rw (any-map p f xs) refl

pub any-append {ℓ} :
    {A : Type ℓ} (p : A → Bool) (xs ys : List A) → any p (xs ++ ys) ≡ (any p xs || any p ys)
any-append p [] ys = refl
any-append p (x ∷ xs) ys = ground (arith, any-append p xs ys)
