-- ===== src/ApprovalPaths/Laws.antt =====
-- The validity of the directory of approval paths, and its writes (addRaiser, removeRaiser, replace).
use hrm_backend.Prelude.{
  ℕ, suc, String, ◌≡◌, refl, ◌∙◌, Bool, true, false, not, Bool-cases, inl, inr, Option, List, [],
  ◌∷◌, ◌++◌, map, keep, find, any, All, is_some, includes, repeats, ◌==◌, if◌then◌else◌, trim,
  ◌===◌, ok, guard, or_throw, >>=-eq-ok, ok_eq, subst, sym, eq_iff, arith, bad_request, not_found,
}
use hrm_backend.ApprovalPaths.{
  UnitRow, Person, Level, ApprovalPath, Directory, Rights, LevelInput, is_path, find_path,
  grant_role, add_raiser, nominated, rewritten, remove_raiser, validate_levels, as_levels,
  grant_all, replace, require_config_access, unit_missing, not_a_raiser, person_missing,
  person_inactive, already_raiser,
}

abbrev pub approvers : List Level → List ℕ
approvers = map (λ (l : Level). l.user_id)

abbrev pub LevelsNumbered : ℕ → List Level → Type 0
LevelsNumbered k [] = Unit
LevelsNumbered k (l ∷ ls) = (l.order_index ≡ k) × LevelsNumbered (suc k) ls

pub record PathIsValid (p : ApprovalPath) : Type 0 where
  pub numbered : LevelsNumbered 0 p.levels
  pub not_own : includes p.raiser_id (approvers p.levels) ≡ false
  pub once : repeats (approvers p.levels) ≡ false

abbrev same_key : ApprovalPath → ApprovalPath → Bool
same_key p q = is_path p.unit_id p.raiser_id p.department q

-- No two paths have one key.
abbrev OneEach : List ApprovalPath → Type 0
OneEach [] = Unit
OneEach (p ∷ ps) = (any (same_key p) ps ≡ false) × OneEach ps

pub record IsValid (d : Directory) : Type 0 where
  pub each : All PathIsValid d.paths
  pub one_each : OneEach d.paths

as_levels-numbered : (k : ℕ) (ls : List LevelInput) → LevelsNumbered k (as_levels k ls)
as_levels-numbered k [] = tt
as_levels-numbered k (l ∷ ls) = (refl, as_levels-numbered (suc k) ls)

as_levels-approvers :
    (k : ℕ) (ls : List LevelInput)
    → approvers (as_levels k ls) ≡ map (λ (l : LevelInput). l.user_id) ls
as_levels-approvers k [] = refl
as_levels-approvers k (l ∷ ls) = rw (as_levels-approvers (suc k) ls)

-- Granting a role leaves the paths alone.
grant_role-paths :
    (rights : Rights) (role : String) (user : ℕ) (unit : UnitRow) (by : ℕ) (d : Directory)
    → (grant_role rights role user unit by d).paths ≡ d.paths
unfolding grant_role
grant_role-paths rights role user unit by d = ground arith

grant_all-paths :
    (rights : Rights) (ls : List LevelInput) (unit : UnitRow) (by : ℕ) (d : Directory)
    → (grant_all rights ls unit by d).paths ≡ d.paths
unfolding grant_all
grant_all-paths rights [] unit by d = refl
grant_all-paths rights (l ∷ ls) unit by d =
    grant_all-paths rights ls unit by (grant_role rights "unit_approver" l.user_id unit by d)
    ∙ grant_role-paths rights "unit_approver" l.user_id unit by d

is_path_iff :
    (unit raiser : ℕ) (dept : String) (p : ApprovalPath)
    → is_path unit raiser dept p ≡ true
    → (p.unit_id ≡ unit) × (p.raiser_id ≡ raiser) × (p.department ≡ dept)
is_path_iff unit raiser dept p h =
    let same : (p.department === dept) ≡ true = ground arith in
    (ground arith, ground arith, (eq_iff p.department dept).0 same)

-- Two paths with one key have it both ways.
same_key-sym : (p q : ApprovalPath) → same_key q p ≡ false → same_key p q ≡ false
same_key-sym p q h = elim (Bool-cases (same_key p q)) [
  | inr apart ↦ apart
  | inl both ↦
      let (u, r, d) = is_path_iff p.unit_id p.raiser_id p.department q both in
      let back : same_key q p ≡ true =
        let same = (eq_iff p.department q.department).1 (sym d) in ground arith in
      cc
]

any-append :
    {A : Type 0} (f : A → Bool) (xs : List A) (y : A)
    → any f xs ≡ false
    → f y ≡ false
    → any f (xs ++ y ∷ []) ≡ false
any-append f [] y h e = ground arith
any-append f (x ∷ xs) y h e = ground (arith, any-append f xs y)

any-keep :
    {A : Type 0} (f g : A → Bool) (xs : List A) → any f xs ≡ false → any f (keep g xs) ≡ false
any-keep f g [] h = refl
any-keep f g (x ∷ xs) h = ground (arith, any-keep f g xs)

-- A new chain comes last, where its key had none.
append-OneEach :
    (ps : List ApprovalPath) (q : ApprovalPath)
    → OneEach ps
    → any (same_key q) ps ≡ false
    → OneEach (ps ++ q ∷ [])
append-OneEach [] q h e = (refl, tt)
append-OneEach (p ∷ ps) q h e = (
  any-append (same_key p) ps q h.0 (same_key-sym p q (ground arith)),
  append-OneEach ps q h.1 (ground arith),
)

keep-OneEach : (g : ApprovalPath → Bool) (ps : List ApprovalPath) → OneEach ps → OneEach (keep g ps)
keep-OneEach g [] h = tt
keep-OneEach g (p ∷ ps) h = elim (Bool-cases (g p)) [
  | inl y ↦ rw y (any-keep (same_key p) g ps h.0, keep-OneEach g ps h.1)
  | inr n ↦ rw n (keep-OneEach g ps h.1)
]

keep-All : {A : Type 0} (P : A → Type 0) (g : A → Bool) (xs : List A) → All P xs → All P (keep g xs)
keep-All P g [] h = tt
keep-All P g (x ∷ xs) h = elim (Bool-cases (g x)) [
  | inl y ↦ rw y (h.0, keep-All P g xs h.1)
  | inr n ↦ rw n (keep-All P g xs h.1)
]

append-All :
    {A : Type 0} (P : A → Type 0) (xs : List A) (y : A) → All P xs → P y → All P (xs ++ y ∷ [])
append-All P [] y h e = (e, tt)
append-All P (x ∷ xs) y h e = (h.0, append-All P xs y h.1 e)

find-any : {A : Type 0} (f : A → Bool) (xs : List A) → is_some (find f xs) ≡ any f xs
find-any f [] = refl
find-any f (x ∷ xs) = ground (arith, find-any f xs)

-- Removing a raiser's chains keeps the directory valid.
pub remove_raiser-IsValid :
    (rights : Rights) (d : Directory) (unit raiser user : ℕ) (dept : Option String) (every : Bool)
    {d' : Directory}
    → IsValid d
    → remove_raiser rights d unit raiser user dept every ≡ ok d'
    → IsValid d'
unfolding remove_raiser
remove_raiser-IsValid rights d unit raiser user dept every v e =
    let (u, allowed, done) = >>=-eq-ok (require_config_access rights user) _ e in
    subst IsValid (ok_eq _ _ done) (record {
      each = keep-All PathIsValid _ d.paths v.each;
      one_each = keep-OneEach _ d.paths v.one_each;
    })

with_paths : (d d' : Directory) → d'.paths ≡ d.paths → IsValid d → IsValid d'
with_paths d d' e v = record { each = rw e v.each; one_each = rw e v.one_each }

-- Nominating a raiser keeps the directory valid: no key gets a second chain.
pub add_raiser-IsValid :
    (rights : Rights) (d : Directory) (unit raiser user : ℕ) (dept : String) {d' : Directory}
    → IsValid d
    → add_raiser rights d unit raiser user dept ≡ ok d'
    → IsValid d'
unfolding add_raiser find_path
add_raiser-IsValid rights d unit raiser user dept v e =
    let (u, allowed, rest) = >>=-eq-ok (require_config_access rights user) _ e in
    let (row, found, rest) =
      >>=-eq-ok (or_throw (find (λ (u : UnitRow). u.id == unit) d.units) (not_found unit_missing)) _
        rest in
    let (person, known, rest) =
      >>=-eq-ok
        (or_throw (find (λ (p : Person). p.id == raiser) d.people) (not_found person_missing)) _
        rest in
    let (x, active, rest) =
      >>=-eq-ok (guard person.is_active (bad_request person_inactive)) _ rest in
    let (y, fresh, done) =
      >>=-eq-ok
        (guard (not (is_some (find (is_path unit raiser (trim dept)) d.paths)))
          (bad_request already_raiser))
        _ rest in
    let none_yet : any (is_path unit raiser (trim dept)) d.paths ≡ false =
      ground (arith, find-any (is_path unit raiser (trim dept)) d.paths) in
    let next : Directory = nominated d unit raiser (trim dept) user in
    subst IsValid (ok_eq _ _ done) (
      with_paths next _ (grant_role-paths rights "requisition_raiser" raiser row user next)
        (record {
          each =
              append-All PathIsValid d.paths _ v.each
                (record { numbered = tt; not_own = refl; once = refl });
          one_each = append-OneEach d.paths _ v.one_each none_yet;
        }))

any-rewritten :
    (q : ApprovalPath) (unit raiser user : ℕ) (dept : String) (levels : List LevelInput)
    (ps : List ApprovalPath)
    → any (same_key q) (
        map
          (λ p.
            if is_path unit raiser dept p
            then record p { levels = as_levels 0 levels; updated_by = user }
            else p)
          ps)
      ≡ any (same_key q) ps
any-rewritten q unit raiser user dept levels [] = refl
any-rewritten q unit raiser user dept levels (p ∷ ps) =
    elim (Bool-cases (is_path unit raiser dept p)) [
      | inl y ↦ rw (y, any-rewritten q unit raiser user dept levels ps) refl
      | inr n ↦ rw (n, any-rewritten q unit raiser user dept levels ps) refl
    ]

module _ (unit raiser user : ℕ) (dept : String) (levels : List LevelInput)
    (not_own : includes raiser (map (λ (l : LevelInput). l.user_id) levels) ≡ false)
    (once : repeats (map (λ (l : LevelInput). l.user_id) levels) ≡ false) where
  rewritten-each :
      (ps : List ApprovalPath)
      → All PathIsValid ps
      → All PathIsValid (
          map
            (λ p.
              if is_path unit raiser dept p
              then record p { levels = as_levels 0 levels; updated_by = user }
              else p)
            ps)
  rewritten-each [] h = tt
  rewritten-each (p ∷ ps) h = elim (Bool-cases (is_path unit raiser dept p)) [
    | inr n ↦ rw n (h.0, rewritten-each ps h.1)
    | inl y ↦ rw y (
      record {
        numbered = as_levels-numbered 0 levels;
        not_own = rw (as_levels-approvers 0 levels, (is_path_iff unit raiser dept p y).1) not_own;
        once = rw (as_levels-approvers 0 levels) once;
      },
      rewritten-each ps h.1,
    )
  ]

  rewritten-OneEach :
      (ps : List ApprovalPath)
      → OneEach ps
      → OneEach (
          map
            (λ p.
              if is_path unit raiser dept p
              then record p { levels = as_levels 0 levels; updated_by = user }
              else p)
            ps)
  rewritten-OneEach [] h = tt
  rewritten-OneEach (p ∷ ps) h = elim (Bool-cases (is_path unit raiser dept p)) [
    | inr n ↦
        rw (n, any-rewritten p unit raiser user dept levels ps) (h.0, rewritten-OneEach ps h.1)
    | inl y ↦
        rw (y, any-rewritten p unit raiser user dept levels ps) (h.0, rewritten-OneEach ps h.1)
  ]

-- Replacing a chain keeps the directory valid: every chain numbered in order, with nobody on it
-- twice and never its own raiser, and one chain for each key.
pub replace-IsValid :
    (rights : Rights) (d : Directory) (unit raiser : ℕ) (levels : List LevelInput) (user : ℕ)
    (dept : String) {d' : Directory}
    → IsValid d
    → replace rights d unit raiser levels user dept ≡ ok d'
    → IsValid d'
unfolding replace validate_levels
replace-IsValid rights d unit raiser levels user dept v e =
    let (u, allowed, rest) = >>=-eq-ok (require_config_access rights user) _ e in
    let (row, found, rest) =
      >>=-eq-ok (or_throw (find (λ (u : UnitRow). u.id == unit) d.units) (not_found unit_missing)) _
        rest in
    let (p, named, rest) =
      >>=-eq-ok (or_throw (find_path d unit raiser (trim dept)) (not_found not_a_raiser)) _ rest in
    let (x, valid, done) = >>=-eq-ok (validate_levels d levels raiser) _ rest in
    let next : Directory = rewritten d unit raiser (trim dept) levels user in
    subst IsValid (ok_eq _ _ done) (
      with_paths next _ (grant_all-paths rights levels row user next) (record {
        each =
            rewritten-each unit raiser user (trim dept) levels (ground arith) (ground arith) d.paths
              v.each;
        one_each =
            rewritten-OneEach unit raiser user (trim dept) levels (ground arith) (ground arith)
              d.paths v.one_each;
      }))
