-- ===== src/Leave/Runs.antt =====
-- Leaves that are set and ended, one request after another (src/modules/leave/leave.service.ts).
use hrm_backend.Prelude.{
  ℕ, ◌≤◌, String, ◌≡◌, sym, ap, subst, Bool, Option, ◌==◌, List, [], ◌∷◌, map, All, is_some, Result,
  ok, err, or_throw, bad_request, >>=-eq-ok, ok_eq, Result-cases, arith, Bool-cases, inl, inr,
}
use hrm_backend.Requisition.Model.{Actor}
use hrm_backend.Rbac.{LeavePeriod, is_active_at}
use hrm_backend.Leave.{
  Problem, not_on_leave, Store, StartLeave, is_of, active_period, new_leave, start, ended, end,
}
use hrm_backend.Leave.Periods.{
  running, StartedBy, started-append, begin_leave-leaves, start-running,
}

-- The requests of anyone, each at its instant and each run to its end before the next.
pub data Call : Type 0 where
  starts : (now id : ℕ) → StartLeave → Actor → Result Problem (Option ℕ) → Call
  ends : (now : ℕ) → Actor → Call

abbrev pub instant : Call → ℕ
instant (Call.starts now id dto actor resolved) = now
instant (Call.ends now actor) = now

-- From `now` on, in the order of the clock, to a last instant.
unfoldable pub IsChronological : ℕ → List Call → ℕ → Type 0
IsChronological now [] last = now ≤ last
IsChronological now (c ∷ cs) last = (now ≤ instant c) × IsChronological (instant c) cs last

abbrev or_left : Store → Result Problem Store → Store
or_left s (ok left) = left
or_left s (err _) = s

later_started :
    (now t : ℕ) (ls : List LeavePeriod) → now ≤ t → All (StartedBy now) ls → All (StartedBy t) ls
later_started now t [] h started = tt
later_started now t (l ∷ ls) h (first, rest) = (omega arith, later_started now t ls h rest)

ended-started :
    (now id t : ℕ) (ls : List LeavePeriod)
    → All (StartedBy t) ls
    → All (StartedBy t) (map (ended now id) ls)
ended-started now id t [] started = tt
ended-started now id t (l ∷ ls) (first, rest) =
    (ground (arith, first), ended-started now id t ls rest)

-- Ending a period makes nobody away.
running-ended :
    (now id t user : ℕ) (ls : List LeavePeriod)
    → running t user (map (ended now id) ls) ≤ running t user ls
unfolding is_active_at
running-ended now id t user [] = omega arith
running-ended now id t user (l ∷ ls) =
    let rest = running-ended now id t user ls in
    elim (Bool-cases (l.id == id)) [
      | inl e ↦ elim (Bool-cases (is_of t user l)) [
        | inl f ↦ rw (ended, e, f) (omega (arith, rest))
        | inr f ↦ rw (ended, e, f) rest
      ]
      | inr e ↦ elim (Bool-cases (is_of t user l)) [
        | inl f ↦ rw (ended, e, f) (omega (arith, rest))
        | inr f ↦ rw (ended, e, f) rest
      ]
    ]

-- Nobody has two leaves that run, at an instant or later.
abbrev IsAlone : ℕ → List LeavePeriod → Type 0
IsAlone now ls = All (StartedBy now) ls × ((t user : ℕ) → now ≤ t → running t user ls ≤ 1)

ended-IsAlone :
    (now id : ℕ) (ls : List LeavePeriod)
    → All (StartedBy now) ls
    → ((t user : ℕ) → now ≤ t → running t user ls ≤ 1)
    → IsAlone now (map (ended now id) ls)
ended-IsAlone now id ls started alone = (
  ended-started now id now ls started,
  λ t user h. omega (arith, running-ended now id t user ls, alone t user h),
)

module _ (lower : String → String) (by_name : String → String → Bool)
    (format_day : ℕ → String) where
  unfoldable pub after : List Call → Store → Store
  unfolding start end
  after [] s = s
  after (Call.starts now id dto actor resolved ∷ cs) s =
      after cs (start lower by_name now format_day id dto actor resolved s).0
  after (Call.ends now actor ∷ cs) s =
      after cs (or_left s (end lower by_name now format_day actor s))

  start-started :
      (now id : ℕ) (dto : StartLeave) (actor : Actor) (resolved : Result Problem (Option ℕ))
      (s : Store)
      → All (StartedBy now) s.directory.leaves
      → All
          (StartedBy now)
          (start lower by_name now format_day id dto actor resolved s).0.directory.leaves
  unfolding start
  start-started now id dto actor resolved s started =
      elim (Bool-cases (is_some (active_period s.directory now actor.id))) [
        | inl e ↦ rw (start, e) started
        | inr e ↦ elim (Result-cases resolved) [
          | inr (refused, f) ↦ rw (start, e, f) started
          | inl (ends_at, f) ↦
              rw
                (
                  start,
                  e,
                  f,
                  begin_leave-leaves lower by_name now format_day id dto actor ends_at s,
                )
                (started-append now s.directory.leaves (new_leave now id dto actor ends_at) started
                  (omega arith))
        ]
      ]

  -- Coming back ends one period, and touches no other.
  end-leaves :
      (now : ℕ) (actor : Actor) (s : Store) {left : Store}
      → end lower by_name now format_day actor s ≡ ok left
      → (l : LeavePeriod) × (left.directory.leaves ≡ map (ended now l.id) s.directory.leaves)
  unfolding end
  end-leaves now actor s {left = left} e =
      let (l, found, done) =
        >>=-eq-ok {A = LeavePeriod}
          (or_throw (active_period s.directory now actor.id) (bad_request not_on_leave)) _ e in
      let same = ok_eq _ _ done in (l, ap (λ (x : Store). x.directory.leaves) (sym same))

  end-IsAlone :
      (now : ℕ) (actor : Actor) (s : Store)
      → IsAlone now s.directory.leaves
      → IsAlone now (or_left s (end lower by_name now format_day actor s)).directory.leaves
  unfolding end
  end-IsAlone now actor s (started, alone) =
      elim (Result-cases (end lower by_name now format_day actor s)) [
        | inr (refused, e) ↦ rw e (started, alone)
        | inl (left, e) ↦
            let (l, leaves) = end-leaves now actor s e in
            rw (e, leaves) (ended-IsAlone now l.id s.directory.leaves started alone)
      ]

  later_IsAlone : (now t : ℕ) (ls : List LeavePeriod) → now ≤ t → IsAlone now ls → IsAlone t ls
  later_IsAlone now t ls h (started, alone) =
      (later_started now t ls h started, λ u user later. alone u user (omega arith))

  after-IsAlone :
      (now : ℕ) (cs : List Call) (last : ℕ) (s : Store)
      → IsChronological now cs last
      → IsAlone now s.directory.leaves
      → IsAlone last (after cs s).directory.leaves
  unfolding after IsChronological
  after-IsAlone now [] last s order alone = later_IsAlone now last s.directory.leaves order alone
  after-IsAlone now (Call.starts t id dto actor resolved ∷ cs) last s (h, order) alone =
      let (started, one) = later_IsAlone now t s.directory.leaves h alone in
      after-IsAlone t cs last (start lower by_name t format_day id dto actor resolved s).0 order (
        start-started t id dto actor resolved s started,
        λ u user later.
            start-running lower by_name t format_day id dto actor resolved s u user started
              (one t user (omega arith)) later,
      )
  after-IsAlone now (Call.ends t actor ∷ cs) last s (h, order) alone =
      after-IsAlone t cs last (or_left s (end lower by_name t format_day actor s)) order
        (end-IsAlone t actor s (later_IsAlone now t s.directory.leaves h alone))

  -- Where there were no leaves, and requests to set and to end a leave follow, in the order of the
  -- clock and each run to its end before the next, refused ones among them, nobody has two leaves that
  -- run at the last instant or at any later one.
  pub after-running :
      (cs : List Call) (last t user : ℕ) (s : Store)
      → s.directory.leaves ≡ []
      → IsChronological 0 cs last
      → last ≤ t
      → running t user (after cs s).directory.leaves ≤ 1
  after-running cs last t user s none_yet order later =
      let (started, alone) =
        after-IsAlone 0 cs last s order
          (subst (IsAlone 0) (sym none_yet) (tt, λ u v h. omega arith)) in
      alone t user later
