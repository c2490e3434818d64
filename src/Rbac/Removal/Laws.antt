-- ===== src/Rbac/Removal/Laws.antt =====
-- What a removal leaves behind: approval paths that are still valid, and nothing that was held up
-- by the assignment (deleteAssignment of src/modules/rbac/rbac.service.ts).
use hrm_backend.Prelude.{
  ℕ, suc, String, ◌≡◌, ◌<◌, refl, sym, ap, ◌∙◌, subst, Bool, false, ◌&&◌, not, none, some, List, [],
  ◌∷◌, map, find, keep, any, All, ◌==◌, ◌===◌, includes, repeats, sort, sort-Ordered, Ordered,
  if◌then◌else◌, ok, ok_eq, or_throw, or_throw-some, >>=-eq-ok, arith, any-sort, any-map, any-ext,
  any_never, Bool-cases, eq_iff, Option, inl, inr,
}
use hrm_backend.ApprovalPaths.{UnitRow, Level, ApprovalPath}
use hrm_backend.ApprovalPaths.Laws.{approvers, LevelsNumbered, PathIsValid}
use hrm_backend.Requisition.Model.{Requisition}
use hrm_backend.Rbac.{Role, Assignment, unit_of}
use hrm_backend.Rbac.Layering.{layered_after, renumber_layer, is_layered}
use hrm_backend.Rbac.Removal.{
  Store, Removed, is_of_raiser, lower_level, numbered_from, reindexed, is_level_of,
  without_approver, is_addressed, cascade, cascade_at, cascade_for, has_id, delete_assignment,
}

numbered_from-LevelsNumbered : (k : ℕ) (ls : List Level) → LevelsNumbered k (numbered_from k ls)
numbered_from-LevelsNumbered k [] = tt
numbered_from-LevelsNumbered k (l ∷ ls) = (refl, numbered_from-LevelsNumbered (suc k) ls)

numbered_from-approvers : (k : ℕ) (ls : List Level) → approvers (numbered_from k ls) ≡ approvers ls
numbered_from-approvers k [] = refl
numbered_from-approvers k (l ∷ ls) = rw (numbered_from-approvers (suc k) ls) refl

-- What is kept of numbered levels is still in order.
after_level :
    (p : Level → Bool) (k : ℕ) (l : Level) (ls : List Level)
    → l.order_index < k
    → LevelsNumbered k ls
    → Ordered lower_level (l ∷ keep p ls)
after_level p k l [] less h = tt
after_level p k l (m ∷ ms) less (here, later) = elim (Bool-cases (p m)) [
  | inl e ↦ rw e (ground (arith), after_level p (suc k) m ms (omega (arith, here)) later)
  | inr e ↦ rw e (after_level p (suc k) l ms (omega (arith)) later)
]

keep-Ordered :
    (p : Level → Bool) (k : ℕ) (ls : List Level)
    → LevelsNumbered k ls
    → Ordered lower_level (keep p ls)
keep-Ordered p k [] h = tt
keep-Ordered p k (l ∷ ls) (here, later) = elim (Bool-cases (p l)) [
  | inl e ↦ rw e (after_level p (suc k) l ls (omega (arith, here)) later)
  | inr e ↦ rw e (keep-Ordered p (suc k) ls later)
]

includes-keep :
    (p : Level → Bool) (u : ℕ) (ls : List Level)
    → includes u (approvers ls) ≡ false
    → includes u (approvers (keep p ls)) ≡ false
includes-keep p u [] h = refl
includes-keep p u (l ∷ ls) h = ground (arith, includes-keep p u ls)

repeats-keep :
    (p : Level → Bool) (ls : List Level)
    → repeats (approvers ls) ≡ false
    → repeats (approvers (keep p ls)) ≡ false
repeats-keep p [] h = refl
repeats-keep p (l ∷ ls) h = ground (arith, repeats-keep p ls, includes-keep p l.user_id ls)

without_approver-PathIsValid :
    (unit user : ℕ) (p : ApprovalPath) → PathIsValid p → PathIsValid (without_approver unit user p)
unfolding without_approver reindexed
without_approver-PathIsValid unit user p v =
    elim (Bool-cases (p.unit_id == unit && any (is_level_of user) p.levels)) [
      | inl e ↦
          let left = keep (λ l. not (is_level_of user l)) p.levels in
          let same : approvers (reindexed left) ≡ approvers left =
            numbered_from-approvers 0 (sort lower_level left)
            ∙ ap approvers (sort-Ordered lower_level left (keep-Ordered _ 0 p.levels v.numbered)) in
          rw e (record {
            numbered = numbered_from-LevelsNumbered 0 (sort lower_level left);
            not_own =
                ap (includes p.raiser_id) same ∙ includes-keep _ p.raiser_id p.levels v.not_own;
            once = ap repeats same ∙ repeats-keep _ p.levels v.once;
          })
      | inr e ↦ rw e v
    ]

All-keep {ℓ κ} :
    {A : Type ℓ} (P : A → Type κ) (p : A → Bool) (xs : List A) → All P xs → All P (keep p xs)
All-keep P p [] h = tt
All-keep P p (x ∷ xs) (now, later) = elim (Bool-cases (p x)) [
  | inl e ↦ rw e (now, All-keep P p xs later)
  | inr e ↦ rw e (All-keep P p xs later)
]

All-map {ℓ κ} :
    {A : Type ℓ} (P : A → Type κ) (f : A → A) (xs : List A)
    → ((x : A) → P x → P (f x))
    → All P xs
    → All P (map f xs)
All-map P f [] step h = tt
All-map P f (x ∷ xs) step (now, later) = (step x now, All-map P f xs step later)

any-none {ℓ} : {A : Type ℓ} (p : A → Bool) (xs : List A) → any p (keep (λ x. not (p x)) xs) ≡ false
any-none p [] = refl
any-none p (x ∷ xs) = ground (arith, any-none p xs)

any-numbered :
    (user k : ℕ) (ls : List Level)
    → any (is_level_of user) (numbered_from k ls) ≡ any (is_level_of user) ls
any-numbered user k [] = refl
any-numbered user k (l ∷ ls) = rw (any-numbered user (suc k) ls) refl

abbrev pub names : ℕ → ℕ → ApprovalPath → Bool
names unit user p = p.unit_id == unit && any (is_level_of user) p.levels

without_approver-names :
    (unit user : ℕ) (p : ApprovalPath) → names unit user (without_approver unit user p) ≡ false
unfolding without_approver reindexed
without_approver-names unit user p = elim (Bool-cases (names unit user p)) [
  | inl e ↦
      let left = keep (λ l. not (is_level_of user l)) p.levels in
      rw e (
        ap (λ b. p.unit_id == unit && b)
          (any-numbered user 0 (sort lower_level left)
            ∙ any-sort lower_level (is_level_of user) left
            ∙ any-none (is_level_of user) p.levels)
        ∙ ground arith)
  | inr e ↦ rw e e
]

map-none {ℓ} :
    {A : Type ℓ} (p : A → Bool) (f : A → A) (xs : List A)
    → ((x : A) → p (f x) ≡ false)
    → any p (map f xs) ≡ false
map-none p f xs h = any-map p f xs ∙ any-ext xs h ∙ any_never xs

some_eq : (x y : Assignment) → some x ≡ some y → x ≡ y
some_eq x y e = cc

layered_after-has_id :
    (role : Role) (o : Option ℕ) (id : ℕ) (rows : List Assignment)
    → any (has_id id) (layered_after role o rows) ≡ any (has_id id) rows
unfolding renumber_layer
layered_after-has_id role none id rows = refl
layered_after-has_id role (some unit) id rows = elim (Bool-cases (is_layered role.key)) [
  | inl e ↦ rw (layered_after, e) (any-map _ _ rows ∙ any-ext rows (λ a. ground arith))
  | inr e ↦ rw (layered_after, e) refl
]

module _ (lower : String → String) where
  -- What a removal that succeeds went through.
  pub delete_assignment_ok :
      (s : Store) (id : ℕ) {left : Store} {removed : Removed}
      → delete_assignment lower s id ≡ ok (left, removed)
      → (a : Assignment) × (find (has_id id) s.directory.assignments ≡ some a)
        × (left.paths ≡ (cascade_for lower s a).0.paths)
        × (left.requisitions ≡ (cascade_for lower s a).0.requisitions)
        × (left.directory.assignments
            ≡ layered_after a.role a.unit_id
                (keep (λ b. not (has_id id b)) s.directory.assignments))
  unfolding delete_assignment
  delete_assignment_ok s id e =
      let (a, found, done) = >>=-eq-ok (or_throw _ _) _ e in
      let same = ok_eq _ _ done in
      (
        a,
        or_throw-some _ _ found,
        ap (λ (x : Store × Removed). x.0.paths) (sym same),
        ap (λ (x : Store × Removed). x.0.requisitions) (sym same),
        ap (λ (x : Store × Removed). x.0.directory.assignments) (sym same),
      )

  cascade-PathIsValid :
      (s : Store) (a : Assignment) (unit : ℕ)
      → All PathIsValid s.paths
      → All PathIsValid (cascade lower s a unit).0.paths
  unfolding cascade
  cascade-PathIsValid s a unit v = elim (Bool-cases (a.role.key === "requisition_raiser")) [
    | inl e ↦ rw (cascade, e) (All-keep PathIsValid _ s.paths v)
    | inr e ↦ elim (Bool-cases (a.role.key === "unit_approver")) [
      | inl f ↦
          rw (cascade, e, f)
            (All-map PathIsValid _ s.paths (without_approver-PathIsValid unit a.user_id) v)
      | inr f ↦ elim (Bool-cases (a.role.key === "factory_hr")) [
        | inl g ↦ rw (cascade, e, f, g) v
        | inr g ↦ rw (cascade, e, f, g) v
      ]
    ]
  ]

  cascade_at-PathIsValid :
      (s : Store) (a : Assignment) (o : Option ℕ)
      → All PathIsValid s.paths
      → All PathIsValid (cascade_at lower s a o).0.paths
  cascade_at-PathIsValid s a none v = v
  cascade_at-PathIsValid s a (some unit) v = cascade-PathIsValid s a unit v

  -- A removal that succeeds keeps every approval path valid: its levels are numbered from 0 without
  -- a gap, nobody is on them twice, and the raiser is not among them.
  pub delete_assignment-PathIsValid :
      (s : Store) (id : ℕ) {left : Store} {removed : Removed}
      → All PathIsValid s.paths
      → delete_assignment lower s id ≡ ok (left, removed)
      → All PathIsValid left.paths
  delete_assignment-PathIsValid s id v e =
      let (a, found, paths, forms, rows) = delete_assignment_ok s id e in
      subst (All PathIsValid) (sym paths) (cascade_at-PathIsValid s a a.unit_id v)

  release : ℕ → String → Requisition → Requisition
  release user unit_name r =
      if is_addressed lower user unit_name r
      then record r { job_analysis_assignee_id = none }
      else r

  unassigned-is_addressed :
      (user : ℕ) (unit_name : String) (r : Requisition)
      → is_addressed lower user unit_name (record r { job_analysis_assignee_id = none }) ≡ false
  unfolding is_addressed
  unassigned-is_addressed user unit_name r = ground arith

  release-is_addressed :
      (user : ℕ) (unit_name : String) (r : Requisition)
      → is_addressed lower user unit_name (release user unit_name r) ≡ false
  unfolding release
  release-is_addressed user unit_name r = elim (Bool-cases (is_addressed lower user unit_name r)) [
    | inl e ↦ rw (release, e) (unassigned-is_addressed user unit_name r)
    | inr e ↦ rw (release, e) e
  ]

  module _ (s : Store) (a : Assignment) (unit : ℕ) where
    raiser-paths :
        (a.role.key === "requisition_raiser"
          && any (is_of_raiser unit a.user_id) (cascade lower s a unit).0.paths)
        ≡ false
    unfolding cascade
    raiser-paths = elim (Bool-cases (a.role.key === "requisition_raiser")) [
      | inl e ↦ rw (cascade, e) (any-none (is_of_raiser unit a.user_id) s.paths)
      | inr e ↦ rw e refl
    ]

    approver-paths :
        (a.role.key === "unit_approver"
          && any (names unit a.user_id) (cascade lower s a unit).0.paths)
        ≡ false
    unfolding cascade
    approver-paths = elim (Bool-cases (a.role.key === "unit_approver")) [
      | inl e ↦
          let other : (a.role.key === "requisition_raiser") ≡ false =
            subst (λ k. (k === "requisition_raiser") ≡ false) (sym ((eq_iff _ _).0 e)) refl in
          rw (cascade, other, e)
            (map-none (names unit a.user_id) (without_approver unit a.user_id) s.paths
              (without_approver-names unit a.user_id))
      | inr e ↦ rw e refl
    ]

    factory-requisitions :
        (desk : UnitRow)
        → unit_of s.directory a ≡ some desk
        → (a.role.key === "factory_hr"
            && any (is_addressed lower a.user_id desk.name) (cascade lower s a unit).0.requisitions)
          ≡ false
    unfolding cascade release
    factory-requisitions desk there = elim (Bool-cases (a.role.key === "factory_hr")) [
      | inl e ↦
          let first : (a.role.key === "requisition_raiser") ≡ false =
            subst (λ k. (k === "requisition_raiser") ≡ false) (sym ((eq_iff _ _).0 e)) refl in
          let second : (a.role.key === "unit_approver") ≡ false =
            subst (λ k. (k === "unit_approver") ≡ false) (sym ((eq_iff _ _).0 e)) refl in
          rw (cascade, first, second, e, there)
            (map-none (is_addressed lower a.user_id desk.name) (release a.user_id desk.name)
              s.requisitions (release-is_addressed a.user_id desk.name))
      | inr e ↦ rw e refl
    ]

  -- Of a removal that succeeds, the assignment and everything that rested on it are gone: the chains
  -- of a raiser in the unit, the levels of an approver on the unit's paths, and the job analyses of
  -- the unit addressed to a Factory HR.
  pub delete_assignment_complete :
      (s : Store) (id unit : ℕ) (desk : UnitRow) {left : Store} {removed : Removed} {a : Assignment}
      → find (has_id id) s.directory.assignments ≡ some a
      → a.unit_id ≡ some unit
      → unit_of s.directory a ≡ some desk
      → delete_assignment lower s id ≡ ok (left, removed)
      → ((a.role.key === "requisition_raiser" && any (is_of_raiser unit a.user_id) left.paths)
          ≡ false)
        × ((a.role.key === "unit_approver" && any (names unit a.user_id) left.paths) ≡ false)
        × ((a.role.key === "factory_hr"
              && any (is_addressed lower a.user_id desk.name) left.requisitions)
            ≡ false)
        × (any (has_id id) left.directory.assignments ≡ false)
  delete_assignment_complete s id unit desk {left = left} {a = a} found held there done =
      let (b, again, paths, forms, rows) = delete_assignment_ok s id done in
      let same : b ≡ a = some_eq b a (sym again ∙ found) in
      let here : cascade_for lower s b ≡ cascade lower s a unit =
        ap (cascade_for lower s) same ∙ ap (cascade_at lower s a) held in
      let paths' = paths ∙ ap (λ (x : Store × Removed). x.0.paths) here in
      let forms' = forms ∙ ap (λ (x : Store × Removed). x.0.requisitions) here in
      (
        ap (λ ps. a.role.key === "requisition_raiser" && any (is_of_raiser unit a.user_id) ps)
              paths'
            ∙ raiser-paths s a unit,
        ap (λ ps. a.role.key === "unit_approver" && any (names unit a.user_id) ps) paths'
            ∙ approver-paths s a unit,
        ap (λ rs. a.role.key === "factory_hr" && any (is_addressed lower a.user_id desk.name) rs)
              forms'
            ∙ factory-requisitions s a unit desk there,
        ap (any (has_id id)) rows
            ∙ layered_after-has_id b.role b.unit_id id _
            ∙ any-none (has_id id) s.directory.assignments,
      )
