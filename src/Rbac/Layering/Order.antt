-- ===== src/Rbac/Layering/Order.antt =====
-- The numbers that a renumbered layer has (src/modules/rbac/layering.ts, rbac.service.ts).
use hrm_backend.Prelude.{
  ℕ, suc, ◌+◌, ◌≡◌, refl, sym, ap, ◌∙◌, Bool, true, false, ◌&&◌, ◌||◌, some, List, [], ◌∷◌, map,
  keep, any, All, is_id, is_some, includes, repeats, ◌==◌, leb, length, arith, any-map, any-cong,
  any-sort, length-sort, repeats-sort, sort, Bool-cases, ==_refl, inl, inr,
}
use hrm_backend.Rbac.{Assignment}
use hrm_backend.Rbac.Layering.{
  layered_before, id_of, layer_order, place_in, in_layer, placed_by, in_places, renumber_layer,
}

abbrev pub layer : ℕ → ℕ → List Assignment → List Assignment
layer role_id unit_id = keep (in_layer role_id unit_id)

abbrev pub has_priority : ℕ → Assignment → Bool
has_priority j a = is_id a.priority j

-- The priorities of the layer are the numbers from 1 to the number of its rows.
abbrev pub IsNumbered : ℕ → ℕ → List Assignment → Type 0
IsNumbered role_id unit_id rows =
    (j : ℕ)
    → any (has_priority j) (layer role_id unit_id rows)
      ≡ (leb 1 j && leb j (length (layer role_id unit_id rows)))

layer-in_places :
    (r u : ℕ) (ids : List ℕ) (rows : List Assignment)
    → layer r u (in_places r u ids rows) ≡ map (placed_by ids) (layer r u rows)
layer-in_places r u ids [] = refl
layer-in_places r u ids (a ∷ rows) = elim (Bool-cases (in_layer r u a)) [
  | inl e ↦ rw (e, e, layer-in_places r u ids rows) refl
  | inr e ↦ rw (e, e, layer-in_places r u ids rows) refl
]

place_in-includes : (k i : ℕ) (ids : List ℕ) → is_some (place_in k i ids) ≡ includes i ids
unfolding place_in
place_in-includes k i [] = refl
place_in-includes k i (x ∷ xs) = ground (arith, place_in-includes (suc k) i xs)

place_in-step :
    (k i x : ℕ) (xs : List ℕ) → includes i xs ≡ true → place_in k i (x ∷ xs) ≡ place_in (suc k) i xs
unfolding place_in
place_in-step k i x xs h = rw (place_in-includes (suc k) i xs, h) refl

all_included :
    (us vs : List ℕ)
    → ((i : ℕ) → includes i vs ≡ true → includes i us ≡ true)
    → All (λ i. includes i us ≡ true) vs
all_included us [] later = tt
all_included us (v ∷ vs) later =
    (later v (ground arith), all_included us vs (λ i h. later i (ground arith)))

-- Ids that are apart have the places from `k + 1` on.
places :
    (k j : ℕ) (ids : List ℕ)
    → repeats ids ≡ false
    → any (λ i. is_id (place_in k i ids) j) ids ≡ (leb (suc k) j && leb j (k + length ids))
unfolding place_in
places k j [] h = ground arith
places k j (x ∷ xs) h =
    let apart : includes x xs ≡ false = ground arith in
    let first : place_in k x (x ∷ xs) ≡ some (suc k) =
      rw (place_in-includes (suc k) x xs, apart, ==_refl x) refl in
    let rest : any (λ i. is_id (place_in k i (x ∷ xs)) j) xs
        ≡ any (λ i. is_id (place_in (suc k) i xs) j) xs =
      any-cong (λ i. includes i xs ≡ true) xs
        (λ i here. ap (λ o. is_id o j) (place_in-step k i x xs here))
        (all_included xs xs (λ i here. here)) in
    let later = places (suc k) j xs (ground arith) in
    ap (λ b. b || any (λ i. is_id (place_in k i (x ∷ xs)) j) xs) (ap (λ o. is_id o j) first)
    ∙ ap (λ b. (suc k == j) || b) (rest ∙ later)
    ∙ ground arith

length-map {ℓ κ} :
    {A : Type ℓ} {B : Type κ} (f : A → B) (xs : List A) → length (map f xs) ≡ length xs
length-map f [] = refl
length-map f (x ∷ xs) = ap suc (length-map f xs)

-- Where the ids of a layer's rows are apart, renumbering gives its rows the priorities 1, 2, and so
-- on to their number, each to one row.
pub renumber_layer-IsNumbered :
    (r u : ℕ) (rows : List Assignment)
    → repeats (map id_of (layer r u rows)) ≡ false
    → IsNumbered r u (renumber_layer r u rows)
unfolding renumber_layer layer_order
renumber_layer-IsNumbered r u rows apart j =
    let held = layer r u rows in
    let sorted = sort layered_before held in
    let ids = map id_of sorted in
    let size : length ids ≡ length held =
      length-map id_of sorted ∙ length-sort layered_before held in
    let from_zero : 0 + length ids ≡ length held = omega (arith, size) in
    let numbered = layer-in_places r u ids rows in
    let found : any (has_priority j) (map (placed_by ids) held)
        ≡ (leb 1 j && leb j (0 + length ids)) =
      any-map (has_priority j) (placed_by ids) held
      ∙ sym (any-sort layered_before (λ a. is_id (place_in 0 a.id ids) j) held)
      ∙ sym (any-map (λ i. is_id (place_in 0 i ids) j) id_of sorted)
      ∙ places 0 j ids (repeats-sort layered_before id_of held ∙ apart) in
    ap (any (has_priority j)) numbered
    ∙ found
    ∙ ap (λ n. leb 1 j && leb j n)
        (from_zero ∙ sym (ap length numbered ∙ length-map (placed_by ids) held))
