-- ===== src/Delegation/Progress.antt =====
-- The stage that `delegationProgress` derives, against the rounds and the time.
use hrm_backend.Prelude.{
  ℕ, ◌≤◌, ◌≡◌, refl, ◌∙◌, is_some, ◌||◌, inl, inr, true, false, Bool-cases, Option-cases, Option,
  none, some, List, [], ◌∷◌, keep, find, any, arith,
}
use hrm_backend.Delegation.{
  DelegationStage, Round, ProgressInput, is_decided, is_live, is_evaluated, is_held, sent,
  interviewed, marked, decided, held_or, marked_or, upcoming, earliest, of_live, DelegationProgress,
  delegation_progress,
}

abbrev pub rank : DelegationStage → ℕ
rank sent = 0
rank DelegationStage.scheduled = 1
rank interviewed = 2
rank marked = 3
rank decided = 4

keep-keep : (rs : List Round) → keep is_live (keep is_live rs) ≡ keep is_live rs
keep-keep [] = refl
keep-keep (r ∷ rs) = elim (Bool-cases (is_live r)) [
  | inl y ↦ rw (y, y, keep-keep rs) refl
  | inr n ↦ rw (n, keep-keep rs) refl
]

-- Rounds that were called off or missed count for nothing: without them the progress is the same.
pub progress_of_live :
    (input : ProgressInput) (now : ℕ)
    → delegation_progress (record input { rounds = keep is_live input.rounds }) now
      ≡ delegation_progress input now
unfolding delegation_progress
progress_of_live input now = rw (keep-keep input.rounds) refl

held_later :
    (now later : ℕ) (r : Round) → now ≤ later → is_held now r ≡ true → is_held later r ≡ true
held_later now later r h e = elim (Option-cases r.scheduled_at) [
  | inl p ↦ ground arith
  | inr (t, p) ↦ ground arith
]

found_later :
    (now later : ℕ) (rs : List Round) (r : Round)
    → now ≤ later
    → find (is_held now) rs ≡ some r
    → (q : Round) × (find (is_held later) rs ≡ some q)
found_later now later [] r h e = absurd (ground arith)
found_later now later (s ∷ rs) r h e = elim (Bool-cases (is_held later s)) [
  | inl y ↦ (s, rw y refl)
  | inr n ↦ elim (Bool-cases (is_held now s)) [
    | inl x ↦ absurd (ground (arith, held_later now later s h x))
    | inr x ↦ let (q, found) = found_later now later rs r h (rw x at e) in (q, rw n found)
  ]
]

upcoming-rank : (m : Option ℕ) → rank (upcoming m).stage ≤ 1
upcoming-rank none = omega arith
upcoming-rank (some t) = omega arith

-- Among the live rounds: what is marked stays marked, and what was held stays held.
of_live-rank :
    (now later : ℕ) (rs : List Round)
    → now ≤ later
    → rank (of_live now rs).stage ≤ rank (of_live later rs).stage
unfolding of_live
of_live-rank now later [] h = omega arith
of_live-rank now later (r ∷ rs) h = elim (Option-cases (find is_evaluated (r ∷ rs))) [
  | inr (q, e) ↦ rw e (omega arith)
  | inl e ↦ rw e (elim (Option-cases (find (is_held now) (r ∷ rs))) [
    | inr (q, x) ↦ let (q', y) = found_later now later (r ∷ rs) q h x in rw (x, y) (omega arith)
    | inl x ↦ rw x (elim (Option-cases (find (is_held later) (r ∷ rs))) [
      | inr (q, y) ↦ rw y (omega (arith, upcoming-rank (earliest (r ∷ rs))))
      | inl y ↦ rw y (omega arith)
    ])
  ])
]

-- Time alone never takes a delegation back: at a later moment its stage is the same or further on.
pub progress_forward :
    (input : ProgressInput) (now later : ℕ)
    → now ≤ later
    → rank (delegation_progress input now).stage ≤ rank (delegation_progress input later).stage
unfolding delegation_progress
progress_forward input now later h = elim (Bool-cases (is_decided input)) [
  | inl y ↦ rw y (omega arith)
  | inr n ↦ rw n (of_live-rank now later (keep is_live input.rounds) h)
]

any-find : (rs : List Round) → is_some (find is_evaluated rs) ≡ any is_evaluated rs
any-find [] = refl
any-find (r ∷ rs) = ground (arith, any-find rs)

marked_or-complete :
    (m : Option Round) (p : DelegationProgress)
    → p.complete ≡ false
    → (marked_or m p).complete ≡ is_some m
marked_or-complete none p h = h
marked_or-complete (some r) p h = refl

held_or-complete : (m : Option Round) (n : Option ℕ) → (held_or m (upcoming n)).complete ≡ false
held_or-complete none none = refl
held_or-complete none (some t) = refl
held_or-complete (some r) n = refl

of_live-complete : (now : ℕ) (rs : List Round) → (of_live now rs).complete ≡ any is_evaluated rs
unfolding of_live
of_live-complete now [] = refl
of_live-complete now (r ∷ rs) =
    marked_or-complete (find is_evaluated (r ∷ rs)) _
      (held_or-complete (find (is_held now) (r ∷ rs)) (earliest (r ∷ rs)))
    ∙ any-find (r ∷ rs)

-- Nothing more is owed by the interviewer when the candidate is decided or one of the live rounds has
-- an evaluation, and only then, whatever the time is.
pub progress-complete :
    (input : ProgressInput) (now : ℕ)
    → (delegation_progress input now).complete
      ≡ (is_decided input || any is_evaluated (keep is_live input.rounds))
unfolding delegation_progress
progress-complete input now = elim (Bool-cases (is_decided input)) [
  | inl y ↦ rw y refl
  | inr n ↦ rw n (of_live-complete now (keep is_live input.rounds))
]
