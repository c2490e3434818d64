-- ===== src/Rbac/Permissions/Agreement.antt =====
-- The permission set of a user beside the rows that the holders are read from.
use hrm_backend.Prelude.{
  ℕ, String, ◌≡◌, refl, ◌∙◌, sym, ap, Bool, true, false, ◌&&◌, Option, none, some, List, [], ◌∷◌,
  map, find, keep, any, All, ◌==◌, ◌===◌, includes, arith, Option-cases, inl, inr, subst, ==_iff,
  if◌then◌else◌, Bool-cases, any-keep, any-cong, any-map, includes-map, includes-distinct,
}
use hrm_backend.UnitName.{same_unit}
use hrm_backend.ApprovalPaths.{UnitRow}
use hrm_backend.Rbac.{Assignment, User, Directory, unit_of}
use hrm_backend.Rbac.Permissions.{
  assignments_of, load_user_permissions, effective_role, counts_for, holds_role,
}
use hrm_backend.Rbac.Permissions.Holders.{
  id_of, holder_id, assigned_to, unit_ids_named, holder_assignments, role_holder_user_ids,
}

abbrev has_unit : ℕ → UnitRow → Bool
has_unit id u = u.id == id

abbrev has_id : ℕ → User → Bool
has_id id u = u.id == id

abbrev UnitsApart : List UnitRow → Type 0
UnitsApart [] = Unit
UnitsApart (u ∷ us) = (any (has_unit u.id) us ≡ false) × UnitsApart us

abbrev UnitExists : List UnitRow → Option ℕ → Type 0
UnitExists us none = Unit
UnitExists us (some id) = any (has_unit id) us ≡ true

-- The keys that the database keeps: unit ids differ, and an assignment's unit and user exist.
pub record IsKeyed (d : Directory) : Type 0 where
  pub apart : UnitsApart d.units
  pub placed :
      All
        (λ (a : Assignment). UnitExists d.units a.unit_id × (any (has_id a.user_id) d.users ≡ true))
        d.assignments

some_eq : (x y : UnitRow) → some x ≡ some y → x ≡ y
some_eq x y e = cc

any_swap {ℓ} :
    {A : Type ℓ} (p q : A → Bool) (xs : List A)
    → any (λ x. p x && q x) xs ≡ any (λ x. q x && p x) xs
any_swap p q [] = refl
any_swap p q (x ∷ xs) = ground (arith, any_swap p q xs)

module _ (p : UnitRow → Bool) (id : ℕ) where
  none_named :
      (us : List UnitRow)
      → any (has_unit id) us ≡ false
      → includes id (map id_of (keep p us)) ≡ false
  none_named [] h = refl
  none_named (u ∷ us) h = ground (arith, none_named us)

  named_iff :
      (us : List UnitRow) {w : UnitRow}
      → UnitsApart us
      → find (has_unit id) us ≡ some w
      → includes id (map id_of (keep p us)) ≡ p w
  named_iff [] apart h = cc
  named_iff (u ∷ us) {w = w} (now, later) h = elim (Bool-cases (u.id == id)) [
    | inl e ↦
        let same : u ≡ w = some_eq u w (rw (sym h, e) refl) in
        let none_later : includes id (map id_of (keep p us)) ≡ false =
          none_named us (subst (λ i. any (has_unit i) us ≡ false) ((==_iff u.id id).0 e) now) in
        rw (sym same) (ground (arith, none_later))
    | inr e ↦
        let rest : includes id (map id_of (keep p us)) ≡ p w =
          named_iff us later
            (subst (λ b. (if b then some u else find (has_unit id) us) ≡ some w) e h) in
        ground (arith, rest, e)
  ]

find_unit :
    (id : ℕ) (us : List UnitRow)
    → any (has_unit id) us ≡ true
    → (w : UnitRow) × (find (has_unit id) us ≡ some w)
find_unit id [] h = cc
find_unit id (u ∷ us) h = elim (Bool-cases (u.id == id)) [
  | inl e ↦ (u, rw e refl)
  | inr e ↦ rw e (find_unit id us (ground arith))
]

abbrev KeyedRow : Directory → Assignment → Type 0
KeyedRow d a = UnitExists d.units a.unit_id × (any (has_id a.user_id) d.users ≡ true)

-- What one assignment grants, read either way.
counts_same :
    (lower : String → String) (d : Directory) (k n : String) (a : Assignment)
    → UnitsApart d.units
    → UnitExists d.units a.unit_id
    → counts_for lower k n (effective_role d a)
      ≡ (a.role.key === k && assigned_to (unit_ids_named lower d n) a)
unfolding counts_for effective_role unit_of unit_ids_named
counts_same lower d k n a apart there = elim (Option-cases a.unit_id) [
  | inl e ↦ rw e refl
  | inr (id, e) ↦
      let (w, found) = find_unit id d.units (subst (UnitExists d.units) e there) in
      let here = named_iff (λ u. same_unit lower u.name n) id d.units apart found in
      rw (e, found, here) refl
]

absent : (u : ℕ) (us : List User) → find (has_id u) us ≡ none → any (has_id u) us ≡ false
absent u [] h = refl
absent u (v ∷ vs) h = elim (Bool-cases (v.id == u)) [
  | inl e ↦ absurd (subst (λ b. (if b then some v else find (has_id u) vs) ≡ none) e h)
  | inr e ↦ rw e (absent u vs (subst (λ b. (if b then some v else find (has_id u) vs) ≡ none) e h))
]
  where
    absurd : some v ≡ none → any (has_id u) (v ∷ vs) ≡ false
    absurd h = cc

-- Nobody is assigned a role whose own row is missing.
unassigned :
    (d : Directory) (u : ℕ) (q : Assignment → Bool) (rows : List Assignment)
    → All (KeyedRow d) rows
    → any (has_id u) d.users ≡ false
    → any (λ (a : Assignment). (a.user_id == u) && q a) rows ≡ false
unassigned d u q [] h missing = refl
unassigned d u q (a ∷ rows) ((place, holder), later) missing = elim (Bool-cases (a.user_id == u)) [
  | inl e ↦
      let found : any (has_id u) d.users ≡ true =
        subst (λ i. any (has_id i) d.users ≡ true) ((==_iff a.user_id u).0 e) holder in
      cc
  | inr e ↦ rw (e, unassigned d u q rows later missing) refl
]

includes_holders :
    (lower : String → String) (d : Directory) (u : ℕ) (k n : String)
    → includes u (role_holder_user_ids lower d k n)
      ≡ any
          (λ (a : Assignment).
            (a.user_id == u) && (a.role.key === k && assigned_to (unit_ids_named lower d n) a))
          d.assignments
unfolding role_holder_user_ids holder_assignments
includes_holders lower d u k n =
    let held : Assignment → Bool =
      λ a. a.role.key === k && assigned_to (unit_ids_named lower d n) a in
    includes-distinct u (map holder_id (keep held d.assignments))
    ∙ includes-map holder_id u (keep held d.assignments)
    ∙ any-keep (λ a. holder_id a == u) held d.assignments
    ∙ any_swap held (λ a. a.user_id == u) d.assignments

-- The roles that a user's permission set counts for a unit are those of whose holders, as the
-- notifications read them, the user is one: the two readings of the rows agree.
pub holds_role_eq :
    (lower : String → String) (d : Directory) (u : ℕ) (k n : String)
    → IsKeyed d
    → holds_role lower d u k n ≡ includes u (role_holder_user_ids lower d k n)
unfolding holds_role load_user_permissions
holds_role_eq lower d u k n v = elim (Option-cases (find (has_id u) d.users)) [
  | inl e ↦
      rw (holds_role, load_user_permissions, e, includes_holders lower d u k n)
        (sym (unassigned d u _ d.assignments v.placed (absent u d.users e)))
  | inr (w, e) ↦
      rw (holds_role, load_user_permissions, e, includes_holders lower d u k n)
        (any-map (counts_for lower k n) (effective_role d) (assignments_of d u)
          ∙ any-keep (λ a. counts_for lower k n (effective_role d a))
              (λ (a : Assignment). a.user_id == u) d.assignments
          ∙ any-cong (KeyedRow d) d.assignments
              (λ a h. ap (λ b. (a.user_id == u) && b) (counts_same lower d k n a v.apart h.0))
              v.placed)
]
