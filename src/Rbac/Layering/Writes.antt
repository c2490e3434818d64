-- ===== src/Rbac/Layering/Writes.antt =====
-- The writes of assignments keep every layer numbered
-- (createAssignment and deleteAssignment of src/modules/rbac/rbac.service.ts).
use hrm_backend.Prelude.{
  ℕ, String, ◌≡◌, refl, sym, ap, ◌∙◌, subst, Bool, true, false, ◌&&◌, ◌||◌, not, Option, none, some,
  List, [], ◌∷◌, ◌++◌, map, find, keep, any, all, is_id, includes, repeats, ◌==◌, if◌then◌else◌, ok,
  ok_eq, leb, length, or_throw, or_throw-some, >>=-eq-ok, >>-eq-ok, arith, Bool-cases, inl, inr,
  ==_iff, includes-map, any-append,
}
use hrm_backend.Rbac.{Role, Assignment, Directory}
use hrm_backend.Rbac.Layering.{
  NewAssignment, id_of, in_layer, is_layered, in_places, layered_after, renumber_layer,
  check_assignment, assignment_of, create_assignment,
}
use hrm_backend.Rbac.Removal.{Store, Removed, delete_assignment}
use hrm_backend.Rbac.Removal.Laws.{delete_assignment_ok}
use hrm_backend.Rbac.Layering.Order.{layer, IsNumbered, has_priority, renumber_layer-IsNumbered}

one_layer :
    (id r u r' u' : ℕ) (o : Option ℕ)
    → (id == r && is_id o u) ≡ true
    → (id == r' && is_id o u') ≡ true
    → (r == r' && u == u') ≡ true
one_layer id r u r' u' none h h' = ground arith
one_layer id r u r' u' (some v) h h' = ground arith

-- Renumbering one layer leaves the others as they are.
other-layer :
    (r u r' u' : ℕ) (ids : List ℕ) (rows : List Assignment)
    → (r == r' && u == u') ≡ false
    → layer r u (in_places r' u' ids rows) ≡ layer r u rows
other-layer r u r' u' ids [] apart = refl
other-layer r u r' u' ids (a ∷ rows) apart = elim (Bool-cases (in_layer r' u' a)) [
  | inl e ↦ elim (Bool-cases (in_layer r u a)) [
    | inl f ↦ let both = one_layer a.role.id r u r' u' a.unit_id f e in cc
    | inr f ↦ rw (e, f, other-layer r u r' u' ids rows apart) refl
  ]
  | inr e ↦ rw (e, other-layer r u r' u' ids rows apart) refl
]

keep-ids :
    (p : Assignment → Bool) (id : ℕ) (rows : List Assignment)
    → includes id (map id_of rows) ≡ false
    → includes id (map id_of (keep p rows)) ≡ false
keep-ids p id [] h = refl
keep-ids p id (a ∷ rows) h = ground (arith, keep-ids p id rows)

keep-apart :
    (p : Assignment → Bool) (rows : List Assignment)
    → repeats (map id_of rows) ≡ false
    → repeats (map id_of (keep p rows)) ≡ false
keep-apart p [] h = refl
keep-apart p (a ∷ rows) h = ground (arith, keep-apart p rows, keep-ids p a.id rows)

apart-append :
    (rows : List Assignment) (a : Assignment)
    → repeats (map id_of rows) ≡ false
    → includes a.id (map id_of rows) ≡ false
    → repeats (map id_of (rows ++ a ∷ [])) ≡ false
apart-append [] a h fresh = refl
apart-append (b ∷ rows) a h fresh =
    let inside : includes b.id (map id_of (rows ++ a ∷ []))
        ≡ (includes b.id (map id_of rows) || a.id == b.id) =
      includes-map id_of b.id (rows ++ a ∷ [])
      ∙ any-append (λ x. x.id == b.id) rows (a ∷ [])
      ∙ (rw (includes-map id_of b.id rows) (ground arith)) in
    ground (arith, inside, apart-append rows a)

layer-append :
    (p : Assignment → Bool) (rows : List Assignment) (a : Assignment)
    → p a ≡ false
    → keep p (rows ++ a ∷ []) ≡ keep p rows
layer-append p [] a h = rw h refl
layer-append p (b ∷ rows) a h = rw (layer-append p rows a h) refl

-- One row of the table carries the id, so the rows of a layer it is not in stay.
abbrev has_id : ℕ → Assignment → Bool
has_id id a = a.id == id

keep-others :
    (p : Assignment → Bool) (id : ℕ) (rows : List Assignment)
    → includes id (map id_of rows) ≡ false
    → keep p (keep (λ b. not (has_id id b)) rows) ≡ keep p rows
keep-others p id [] h = refl
keep-others p id (b ∷ rows) h = ground (arith, keep-others p id rows)

option_eq {ℓ} : {A : Type ℓ} (a b : A) → some a ≡ some b → a ≡ b
option_eq a b e = cc

layer-without :
    (p : Assignment → Bool) (id : ℕ) (rows : List Assignment) {a : Assignment}
    → repeats (map id_of rows) ≡ false
    → find (has_id id) rows ≡ some a
    → p a ≡ false
    → keep p (keep (λ b. not (has_id id b)) rows) ≡ keep p rows
layer-without p id [] apart found out = refl
layer-without p id (b ∷ rows) {a = a} apart found out = elim (Bool-cases (b.id == id)) [
  | inl e ↦
      let same : b ≡ a = option_eq b a (rw (sym found, e) refl) in
      let gone : p b ≡ false = ap p same ∙ out in
      let later : includes id (map id_of rows) ≡ false =
        subst (λ i. includes i (map id_of rows) ≡ false) ((==_iff b.id id).0 e) (ground arith) in
      rw (e, gone) (keep-others p id rows later)
  | inr e ↦
      let rest =
        layer-without p id rows (ground arith)
          (subst (λ t. (if t then some b else find (has_id id) rows) ≡ some a) e found) out in
      rw (e, rest) refl
]

module _ (r u : ℕ) where
  -- The numbering reads only the rows of the layer.
  with_layer :
      (rows rows' : List Assignment)
      → layer r u rows' ≡ layer r u rows
      → IsNumbered r u rows
      → IsNumbered r u rows'
  with_layer rows rows' same h =
      subst (λ held. (j : ℕ) → any (has_priority j) held ≡ (leb 1 j && leb j (length held)))
        (sym same) h

  inside-IsNumbered :
      (role : Role) (o : Option ℕ) (rows : List Assignment)
      → (role.id == r && is_id o u) ≡ true
      → is_layered role.key ≡ true
      → repeats (map id_of rows) ≡ false
      → IsNumbered r u (layered_after role o rows)
  inside-IsNumbered role none rows here layered apart = ground arith
  inside-IsNumbered role (some v) rows here layered apart =
      let same_role : role.id ≡ r = (==_iff role.id r).0 (ground arith) in
      let same_unit : v ≡ u = (==_iff v u).0 (ground arith) in
      let numbered : IsNumbered r u (renumber_layer r u rows) =
        renumber_layer-IsNumbered r u rows (keep-apart (in_layer r u) rows apart) in
      rw (layered, same_role, same_unit) numbered

  outside-IsNumbered :
      (role : Role) (o : Option ℕ) (rows : List Assignment)
      → (role.id == r && is_id o u) ≡ false
      → IsNumbered r u rows
      → IsNumbered r u (layered_after role o rows)
  unfolding renumber_layer
  outside-IsNumbered role none rows out h = h
  outside-IsNumbered role (some v) rows out h = elim (Bool-cases (is_layered role.key)) [
    | inl e ↦
        let moved : layer r u (renumber_layer role.id v rows) ≡ layer r u rows =
          other-layer r u role.id v _ rows (ground arith) in
        rw (layered_after, e) (with_layer rows (renumber_layer role.id v rows) moved h)
    | inr e ↦ rw (layered_after, e) h
  ]

-- Every role with the id `r` is a layered one.
abbrev is_layered_as : ℕ → Role → Bool
is_layered_as r role = not (role.id == r) || is_layered role.key

find-all {ℓ} :
    {A : Type ℓ} (p q : A → Bool) (xs : List A) {x : A}
    → all q xs ≡ true
    → find p xs ≡ some x
    → q x ≡ true
find-all p q [] h found = cc
find-all p q (y ∷ ys) {x = x} h found = elim (Bool-cases (p y)) [
  | inl e ↦
      subst (λ z. q z ≡ true)
        (option_eq y x (subst (λ t. (if t then some y else find p ys) ≡ some x) e found))
        (ground arith)
  | inr e ↦
      find-all p q ys (ground arith)
        (subst (λ t. (if t then some y else find p ys) ≡ some x) e found)
]

create_assignment_ok :
    (id now : ℕ) (d : Directory) (dto : NewAssignment) (by : ℕ) {d' : Directory}
    → create_assignment id now d dto by ≡ ok d'
    → (role : Role) × (row : Assignment) × (find (λ (x : Role). x.id == dto.role_id) d.roles
        ≡ some role)
      × (row.id ≡ id)
      × (row.role ≡ role)
      × (d'.assignments ≡ layered_after role row.unit_id (d.assignments ++ row ∷ []))
unfolding create_assignment
create_assignment_ok id now d dto by e =
    let (role, found, e1) = >>=-eq-ok (or_throw _ _) _ e in
    let done = >>-eq-ok (check_assignment d dto role) _ e1 in
    (
      role,
      assignment_of id now dto by role,
      or_throw-some _ _ found,
      refl,
      refl,
      ap (λ (x : Directory). x.assignments) (sym (ok_eq _ _ done)),
    )

-- A new assignment keeps every layer numbered 1 to n: where the ids of the rows are apart and the
-- new id is fresh, a unit's layer of a layered role that is numbered is so again after any
-- assignment that is made.
pub create_assignment-IsNumbered :
    (r u : ℕ) (id now : ℕ) (d : Directory) (dto : NewAssignment) (by : ℕ) {d' : Directory}
    → all (is_layered_as r) d.roles ≡ true
    → repeats (map id_of d.assignments) ≡ false
    → includes id (map id_of d.assignments) ≡ false
    → IsNumbered r u d.assignments
    → create_assignment id now d dto by ≡ ok d'
    → IsNumbered r u d'.assignments
create_assignment-IsNumbered r u id now d dto by {d' = d'} layered apart fresh h e =
    let (role, row, found, own, as_role, rows) = create_assignment_ok id now d dto by e in
    let kind : is_layered_as r role ≡ true = find-all _ (is_layered_as r) d.roles layered found in
    let all_apart : repeats (map id_of (d.assignments ++ row ∷ [])) ≡ false =
      apart-append d.assignments row apart
        (subst (λ i. includes i (map id_of d.assignments) ≡ false) (sym own) fresh) in
    subst (IsNumbered r u) (sym rows) (elim (Bool-cases (role.id == r && is_id row.unit_id u)) [
      | inl e ↦ inside-IsNumbered r u role row.unit_id _ e (ground arith) all_apart
      | inr e ↦ outside-IsNumbered r u role row.unit_id _ e (
          with_layer r u d.assignments _
            (layer-append (in_layer r u) d.assignments row
              (ap (λ (x : Role). x.id == r && is_id row.unit_id u) as_role ∙ e))
            h)
    ])

-- So does a removal: the gap it leaves is closed.
pub delete_assignment-IsNumbered :
    (r u : ℕ) (lower : String → String) (s : Store) (id : ℕ) {left : Store} {removed : Removed}
    → all (λ (a : Assignment). is_layered_as r a.role) s.directory.assignments ≡ true
    → repeats (map id_of s.directory.assignments) ≡ false
    → IsNumbered r u s.directory.assignments
    → delete_assignment lower s id ≡ ok (left, removed)
    → IsNumbered r u left.directory.assignments
delete_assignment-IsNumbered r u lower s id layered apart h e =
    let (a, found, paths, forms, rows) = delete_assignment_ok lower s id e in
    let kind : is_layered_as r a.role ≡ true =
      find-all _ (λ (b : Assignment). is_layered_as r b.role) s.directory.assignments layered
        found in
    subst (IsNumbered r u) (sym rows) (elim (Bool-cases (a.role.id == r && is_id a.unit_id u)) [
      | inl e ↦
          inside-IsNumbered r u a.role a.unit_id _ e (ground arith)
            (keep-apart (λ b. not (has_id id b)) s.directory.assignments apart)
      | inr e ↦ outside-IsNumbered r u a.role a.unit_id _ e (
          with_layer r u s.directory.assignments _
            (layer-without (in_layer r u) id s.directory.assignments apart found e) h)
    ])
