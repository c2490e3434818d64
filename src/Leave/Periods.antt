-- ===== src/Leave/Periods.antt =====
-- Who is away before and after a leave is set or ended (src/modules/leave/leave.service.ts).
use hrm_backend.Prelude.{
  ℕ, ◌+◌, ◌≤◌, String, ◌≡◌, refl, sym, ap, ◌∙◌, subst, Bool, true, false, ◌||◌, Option, none, some,
  List, [], ◌∷◌, ◌++◌, map, keep, any, All, length, ◌==◌, is_some, if◌then◌else◌, sort, insert,
  Result, ok, or_throw, or_throw-some, >>=-eq-ok, ok_eq, Result-cases, arith, Bool-cases,
  Option-cases, any-sort, ==_iff, ==_refl, if◌then◌else◌, inl, inr, any-append,
}
use hrm_backend.Requisition.Model.{Actor, Requisition}
use hrm_backend.Rbac.{LeavePeriod, Directory, is_active_at, is_on_leave}
use hrm_backend.Rbac.Permissions.Holders.{runs_at}
use hrm_backend.Leave.{
  Problem, Store, CoverChoice, StartLeave, is_of, first_of, latest_first, active_period,
  check_cover, write_cover, apply_covers, reroute_job_analyses, new_leave, begin_leave, start,
  is_covered_by, lapsed, ended, end,
}

-- The user's periods that run at an instant.
abbrev pub running : ℕ → ℕ → List LeavePeriod → ℕ
running t user ls = length (keep (is_of t user) ls)

abbrev pub StartedBy : ℕ → LeavePeriod → Type 0
StartedBy now l = l.starts_at ≤ now

still_over :
    (now t user : ℕ) (l : LeavePeriod)
    → l.starts_at ≤ now
    → now ≤ t
    → is_of now user l ≡ false
    → is_of t user l ≡ false
unfolding is_active_at
still_over now t user l started later h = elim (Option-cases l.ended_at) [
  | inr (t', e) ↦ rw e refl
  | inl e ↦ elim (Option-cases l.ends_at) [ inl f ↦ ground arith | inr (t', f) ↦ ground arith ]
]

running-later :
    (now t user : ℕ) (ls : List LeavePeriod)
    → All (StartedBy now) ls
    → now ≤ t
    → running t user ls ≤ running now user ls
running-later now t user [] h later = omega arith
running-later now t user (l ∷ ls) (started, rest) later =
    let tail = running-later now t user ls rest later in
    elim (Bool-cases (is_of now user l)) [
      | inl e ↦ elim (Bool-cases (is_of t user l)) [
        | inl f ↦ rw (e, f) (omega (arith, tail))
        | inr f ↦ rw (e, f) (omega (arith, tail))
      ]
      | inr e ↦ rw (e, still_over now t user l started later e) tail
    ]

first_of-some : (ls : List LeavePeriod) → is_some (first_of ls) ≡ any (λ l. true) ls
first_of-some [] = refl
first_of-some (l ∷ ls) = refl

none_left : (ls : List LeavePeriod) → any (λ l. true) ls ≡ false → length ls ≡ 0
none_left [] h = refl
none_left (l ∷ ls) h = cc

running-append :
    (t user : ℕ) (ls : List LeavePeriod) (l : LeavePeriod)
    → running t user (ls ++ l ∷ []) ≡ running t user ls + running t user (l ∷ [])
running-append t user [] l = omega arith
running-append t user (m ∷ ls) l = elim (Bool-cases (is_of t user m)) [
  | inl e ↦ rw e (omega (arith, running-append t user ls l))
  | inr e ↦ rw e (running-append t user ls l)
]

running-single : (t user : ℕ) (l : LeavePeriod) → running t user (l ∷ []) ≤ 1
running-single t user l = ground arith

not_of : (t user : ℕ) (l : LeavePeriod) → (l.user_id == user) ≡ false → running t user (l ∷ []) ≡ 0
not_of t user l h = ground arith

le_trans : {a b c : ℕ} → a ≤ b → b ≤ c → a ≤ c
le_trans h k = omega arith

pub started-append :
    (now : ℕ) (ls : List LeavePeriod) (l : LeavePeriod)
    → All (StartedBy now) ls
    → l.starts_at ≤ now
    → All (StartedBy now) (ls ++ l ∷ [])
started-append now [] l h started = (started, tt)
started-append now (m ∷ ls) l (first, rest) started = (first, started-append now ls l rest started)

ended-not_of :
    (now id user : ℕ) (l : LeavePeriod)
    → is_of now user l ≡ false
    → is_of now user (ended now id l) ≡ false
unfolding is_active_at
ended-not_of now id user l h = elim (Bool-cases (l.id == id)) [
  | inl e ↦ rw (ended, e) refl
  | inr e ↦ rw (ended, e) h
]

all_over :
    (now id user : ℕ) (ls : List LeavePeriod)
    → keep (is_of now user) ls ≡ []
    → any (is_of now user) (map (ended now id) ls) ≡ false
unfolding is_active_at
all_over now id user [] h = refl
all_over now id user (l ∷ ls) h = elim (Bool-cases (is_of now user l)) [
  | inl e ↦ ground (arith, e)
  | inr e ↦ rw (ended-not_of now id user l e) (
      all_over now id user ls (
        subst (λ b. (if b then l ∷ keep (is_of now user) ls else keep (is_of now user) ls) ≡ []) e
          h))
]

cons_eq :
    (m : LeavePeriod) (ls : List LeavePeriod) (l : LeavePeriod)
    → m ∷ ls ≡ l ∷ []
    → (m ≡ l) × (ls ≡ [])
cons_eq m ls l h = (cc, cc)

ended-own : (now user : ℕ) (l : LeavePeriod) → is_of now user (ended now l.id l) ≡ false
unfolding is_active_at
ended-own now user l = rw (ended, ==_refl l.id) refl

one_over :
    (now user : ℕ) (l : LeavePeriod) (ls : List LeavePeriod)
    → keep (is_of now user) ls ≡ l ∷ []
    → any (is_of now user) (map (ended now l.id) ls) ≡ false
one_over now user l [] h = refl
one_over now user l (m ∷ ls) h = elim (Bool-cases (is_of now user m)) [
  | inl e ↦
      let (same, rest) = cons_eq m (keep (is_of now user) ls) l (
        subst (λ b. (if b then m ∷ keep (is_of now user) ls else keep (is_of now user) ls) ≡ l ∷ [])
          e h) in
      let own : is_of now user (ended now l.id m) ≡ false =
        subst (λ (x : LeavePeriod). is_of now user (ended now x.id m) ≡ false) same
          (ended-own now user m) in
      rw own (all_over now l.id user ls rest)
  | inr e ↦ rw (ended-not_of now l.id user m e) (
      one_over now user l ls (
        subst (λ b. (if b then m ∷ keep (is_of now user) ls else keep (is_of now user) ls) ≡ l ∷ [])
          e h))
]

or_right : (a : Bool) {b : Bool} → b ≡ true → (a || (b || false)) ≡ true
or_right a h = ground arith

new-is_of :
    (now id : ℕ) (dto : StartLeave) (actor : Actor) (ends_at : Option ℕ)
    → runs_at now ends_at ≡ true
    → is_of now actor.id (new_leave now id dto actor ends_at) ≡ true
unfolding is_active_at
new-is_of now id dto actor none runs = ground arith
new-is_of now id dto actor (some t) runs = ground arith

only_one :
    (l : LeavePeriod) (ls : List LeavePeriod)
    → length ls ≤ 1
    → first_of (sort latest_first ls) ≡ some l
    → ls ≡ l ∷ []
unfolding sort insert
only_one l [] one h = cc
only_one l (m ∷ []) one h = cc
only_one l (m ∷ n ∷ ls) one h = ground arith

none_covered :
    (id : ℕ) (rs : List Requisition) → any (is_covered_by id) (map (lapsed id) rs) ≡ false
none_covered id [] = refl
none_covered id (r ∷ rs) = elim (Bool-cases (is_covered_by id r)) [
  | inl e ↦ rw (lapsed, e) (none_covered id rs)
  | inr e ↦ rw (lapsed, e) (rw e (none_covered id rs))
]

module _ (lower : String → String) (by_name : String → String → Bool) (now : ℕ)
    (format_day : ℕ → String) where
  pub apply_covers-directory :
      (actor : Actor) (leave : LeavePeriod) (choices : List CoverChoice) (s : Store)
      → (apply_covers lower by_name now format_day actor leave choices s).0.directory ≡ s.directory
  unfolding apply_covers write_cover
  apply_covers-directory actor leave [] s = refl
  apply_covers-directory actor leave (choice ∷ choices) s =
      elim (Result-cases
        (check_cover lower by_name now format_day s.directory s.requisitions actor choice)) [
          | inl (r, e) ↦ rw (apply_covers, e) (apply_covers-directory actor leave choices _)
          | inr (r, e) ↦ rw (apply_covers, e) refl
        ]

  pub begin_leave-leaves :
      (id : ℕ) (dto : StartLeave) (actor : Actor) (ends_at : Option ℕ) (s : Store)
      → (begin_leave lower by_name now format_day id dto actor ends_at s).0.directory.leaves
        ≡ s.directory.leaves ++ new_leave now id dto actor ends_at ∷ []
  unfolding begin_leave reroute_job_analyses
  begin_leave-leaves id dto actor ends_at s =
      let leave = new_leave now id dto actor ends_at in
      ap (λ (d : Directory). d.leaves) (apply_covers-directory actor leave dto.covers _)

  nobody_active :
      (d : Directory) (user : ℕ)
      → is_some (active_period d now user) ≡ false
      → running now user d.leaves ≡ 0
  unfolding active_period
  nobody_active d user h = none_left (keep (is_of now user) d.leaves) (
      sym (any-sort latest_first (λ l. true) (keep (is_of now user) d.leaves))
      ∙ sym (first_of-some (sort latest_first (keep (is_of now user) d.leaves)))
      ∙ h)

  -- A user with no period that runs gets one, and nobody else does.
  running-new :
      (id : ℕ) (dto : StartLeave) (actor : Actor) (ends_at : Option ℕ) (d : Directory) (user : ℕ)
      → is_some (active_period d now actor.id) ≡ false
      → running now user d.leaves ≤ 1
      → running now user (d.leaves ++ new_leave now id dto actor ends_at ∷ []) ≤ 1
  running-new id dto actor ends_at d user free h =
      let leave = new_leave now id dto actor ends_at in
      let total = running-append now user d.leaves leave in
      elim (Bool-cases (actor.id == user)) [
        | inl e ↦
            let idle : running now user d.leaves ≡ 0 =
              subst (λ u. running now u d.leaves ≡ 0) ((==_iff actor.id user).0 e)
                (nobody_active d actor.id free) in
            omega (arith, total, idle, running-single now user leave)
        | inr e ↦
            let absent : running now user (leave ∷ []) ≡ 0 = not_of now user leave e in
            omega (arith, total, absent, h)
      ]

  -- Setting a leave, whether or not the request is refused on the way, leaves nobody with two leaves
  -- that run, at that instant or at any later one: where every period has started by then and nobody
  -- had two that ran.
  pub start-running :
      (id : ℕ) (dto : StartLeave) (actor : Actor) (resolved : Result Problem (Option ℕ)) (s : Store)
      (t user : ℕ)
      → All (StartedBy now) s.directory.leaves
      → running now user s.directory.leaves ≤ 1
      → now ≤ t
      → running t user
          (start lower by_name now format_day id dto actor resolved s).0.directory.leaves
        ≤ 1
  unfolding start
  start-running id dto actor resolved s t user started one later =
      let before = running-later now t user s.directory.leaves started later in
      elim (Bool-cases (is_some (active_period s.directory now actor.id))) [
        | inl e ↦ rw (start, e) (omega (arith, before, one))
        | inr e ↦ elim (Result-cases resolved) [
          | inr (refused, f) ↦ rw (start, e, f) (omega (arith, before, one))
          | inl (ends_at, f) ↦
              let leave = new_leave now id dto actor ends_at in
              let here : now ≤ now = omega arith in
              rw (start, e, f, begin_leave-leaves id dto actor ends_at s)
                (le_trans
                  (running-later now t user (s.directory.leaves ++ leave ∷ [])
                    (started-append now s.directory.leaves leave started here) later)
                  (running-new id dto actor ends_at s.directory user e one))
        ]
      ]

  -- A leave that is set makes its owner away, even where the request is then refused over a cover:
  -- with no period running before, and an end that has not passed.
  pub start-is_on_leave :
      (id : ℕ) (dto : StartLeave) (actor : Actor) (ends_at : Option ℕ) (s : Store)
      → is_some (active_period s.directory now actor.id) ≡ false
      → runs_at now ends_at ≡ true
      → is_on_leave
          (start lower by_name now format_day id dto actor (ok ends_at) s).0.directory
          now
          actor.id
        ≡ true
  unfolding start is_on_leave
  start-is_on_leave id dto actor ends_at s free runs =
      let leave = new_leave now id dto actor ends_at in
      rw (start, free, is_on_leave, begin_leave-leaves id dto actor ends_at s)
        (any-append (is_of now actor.id) s.directory.leaves (leave ∷ [])
          ∙ or_right _ (new-is_of now id dto actor ends_at runs))

  -- Coming back ends the leave: where no two periods of the user ran, none does then, and no
  -- requisition is covered by that leave any more.
  pub end-is_on_leave :
      (actor : Actor) (s : Store) {left : Store}
      → running now actor.id s.directory.leaves ≤ 1
      → end lower by_name now format_day actor s ≡ ok left
      → (is_on_leave left.directory now actor.id ≡ false)
        × (l : LeavePeriod) × (active_period s.directory now actor.id ≡ some l)
        × (any (is_covered_by l.id) left.requisitions ≡ false)
  unfolding end is_on_leave
  end-is_on_leave actor s {left = left} one e =
      let (l, found, done) = >>=-eq-ok (or_throw _ _) _ e in
      let active = or_throw-some _ _ found in
      let same = ok_eq _ _ done in
      let alone : keep (is_of now actor.id) s.directory.leaves ≡ l ∷ [] =
        only_one l (keep (is_of now actor.id) s.directory.leaves) one active in
      (
        ap (λ (x : Store). is_on_leave x.directory now actor.id) (sym same)
            ∙ one_over now actor.id l s.directory.leaves alone,
        l,
        active,
        ap (λ (x : Store). any (is_covered_by l.id) x.requisitions) (sym same)
            ∙ none_covered l.id s.requisitions,
      )
