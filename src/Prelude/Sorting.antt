-- ===== src/Prelude/Sorting.antt =====
-- `[...xs].sort(…)`, which is stable: an insertion sort by the strict half of a comparator.
use mathlib.Core.Path.{◌≡◌, refl, sym, ap, ◌∙◌}
use mathlib.Core.Bool.{Bool, false, ◌||◌}
use mathlib.Core.List.{List, [], ◌∷◌, map}
use native.Mathlib.Omega.{arith}
use hrm_backend.Prelude.Tests.{◌==◌, if◌then◌else◌}
use hrm_backend.Prelude.Lists.{any, length, includes, repeats, includes-map}
use Prim.Native.Nat.{ℕ, suc}

module _ {ℓ} {A : Type ℓ} (precedes : A → A → Bool) where
  unfoldable pub insert : A → List A → List A
  insert x [] = x ∷ []
  insert x (y ∷ ys) = let later = insert x ys in if precedes y x then y ∷ later else x ∷ y ∷ ys

  unfoldable pub sort : List A → List A
  unfolding insert
  sort [] = []
  sort (x ∷ xs) = insert x (sort xs)

  -- No element precedes the one before it.
  abbrev pub Ordered : List A → Type 0
  Ordered [] = Unit
  Ordered (x ∷ xs) = elim xs [ [] ↦ Unit | y ∷ ys ↦ (precedes y x ≡ false) × Ordered xs ]

  any-insert : (p : A → Bool) (x : A) (xs : List A) → any p (insert x xs) ≡ (p x || any p xs)
  unfolding insert
  any-insert p x [] = refl
  any-insert p x (y ∷ ys) = ground (arith, any-insert p x ys)

  pub any-sort : (p : A → Bool) (xs : List A) → any p (sort xs) ≡ any p xs
  unfolding sort
  any-sort p [] = refl
  any-sort p (x ∷ xs) = rw (any-insert p x (sort xs), any-sort p xs) refl

  length-insert : (x : A) (xs : List A) → length (insert x xs) ≡ suc (length xs)
  unfolding insert
  length-insert x [] = refl
  length-insert x (y ∷ ys) = ground (arith, length-insert x ys)

  pub length-sort : (xs : List A) → length (sort xs) ≡ length xs
  unfolding sort
  length-sort [] = refl
  length-sort (x ∷ xs) = rw (length-insert x (sort xs), length-sort xs) refl

  -- A sorting keeps the ids apart.
  repeats-insert :
      (f : A → ℕ) (x : A) (xs : List A)
      → repeats (map f (insert x xs)) ≡ (includes (f x) (map f xs) || repeats (map f xs))
  unfolding insert
  repeats-insert f x [] = refl
  repeats-insert f x (y ∷ ys) =
      let inside : includes (f y) (map f (insert x ys))
          ≡ ((f x == f y) || includes (f y) (map f ys)) =
        includes-map f (f y) (insert x ys)
        ∙ any-insert (λ z. f z == f y) x ys
        ∙ ap (λ b. (f x == f y) || b) (sym (includes-map f (f y) ys)) in
      ground (arith, inside, repeats-insert f x ys)

  includes-sort :
      (f : A → ℕ) (u : ℕ) (xs : List A) → includes u (map f (sort xs)) ≡ includes u (map f xs)
  includes-sort f u xs =
      includes-map f u (sort xs) ∙ any-sort (λ z. f z == u) xs ∙ sym (includes-map f u xs)

  pub repeats-sort : (f : A → ℕ) (xs : List A) → repeats (map f (sort xs)) ≡ repeats (map f xs)
  unfolding sort
  repeats-sort f [] = refl
  repeats-sort f (x ∷ xs) =
      rw (repeats-insert f x (sort xs), includes-sort f (f x) xs, repeats-sort f xs) refl

  -- Sorting leaves a list in order as it is.
  pub sort-Ordered : (xs : List A) → Ordered xs → sort xs ≡ xs
  unfolding sort insert
  sort-Ordered [] h = refl
  sort-Ordered (x ∷ []) h = refl
  sort-Ordered (x ∷ y ∷ ys) (first, later) = rw (sort-Ordered (y ∷ ys) later, first) refl
