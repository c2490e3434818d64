-- ===== src/Requisition/Steps/Current.antt =====
-- The current step of a chain that is in order, and what deciding it makes of the chain.
use hrm_backend.Prelude.{
  ℕ, ◌+◌, ◌<◌, ◌≡◌, refl, ◌∙◌, ◌≢◌, ◌⊎◌, inl, inr, true, false, Bool-cases, Option, none, some,
  List, [], ◌∷◌, ◌++◌, arith, length,
}
use hrm_backend.Requisition.Model.{Step, StepStatus}
use hrm_backend.Requisition.Steps.{
  is_pending, next_index, first_pending, parked, update_step, claim_count,
}
use hrm_backend.Requisition.Steps.Laws.{
  is_settled, AllSettled, AllPending, InOrder, Fresh, DistinctIds,
}

-- Where the current step stands: at the head, or further on behind one that is not pending.
abbrev IsAt : ℕ → Step → Step → List Step → Type 0
IsAt i c s ss =
    ((is_pending s.status ≡ true) × (i ≡ 0) × (c ≡ s))
    ⊎ ((j : ℕ) × (is_pending s.status ≡ false) × (first_pending ss ≡ some (j, c)) × (i ≡ j + 1))

later-IsAt :
    (i : ℕ) (c s : Step) (ss : List Step) (later : Option (ℕ × Step))
    → first_pending ss ≡ later
    → is_pending s.status ≡ false
    → next_index later ≡ some (i, c)
    → IsAt i c s ss
later-IsAt i c s ss none e p h = cc
later-IsAt i c s ss (some (j, d)) e p h = inr (j, p, ground arith, ground arith)

current-cases :
    (i : ℕ) (c s : Step) (ss : List Step) → first_pending (s ∷ ss) ≡ some (i, c) → IsAt i c s ss
unfolding first_pending
current-cases i c s ss e = elim (Bool-cases (is_pending s.status)) [
  | inl p ↦ inl (p, ground arith, ground arith)
  | inr p ↦ later-IsAt i c s ss (first_pending ss) refl p (rw p at e)
]

-- The current step is a step of the list.
current-Fresh :
    (n i : ℕ) (c : Step) (ss : List Step) → first_pending ss ≡ some (i, c) → Fresh n ss → c.id ≢ n
current-Fresh n i c [] e h = unfold first_pending in cc
current-Fresh n i c (s ∷ ss) e h = elim (current-cases i c s ss e) [
  | inl (p, z, same) ↦ rw same h.0
  | inr (j, p, found, z) ↦ current-Fresh n j c ss found h.1
]

current-pending :
    (i : ℕ) (c : Step) (ss : List Step)
    → first_pending ss ≡ some (i, c)
    → c.status ≡ StepStatus.pending
current-pending i c [] e = unfold first_pending in cc
current-pending i c (s ∷ ss) e = elim (current-cases i c s ss e) [
  | inl (p, z, same) ↦ rw same (ground arith)
  | inr (j, p, found, z) ↦ current-pending j c ss found
]

pub current-lt :
    (i : ℕ) (c : Step) (ss : List Step) → first_pending ss ≡ some (i, c) → i < length ss
current-lt i c [] e = unfold first_pending in cc
current-lt i c (s ∷ ss) e = elim (current-cases i c s ss e) [
  | inl (p, z, same) ↦ omega arith
  | inr (j, p, found, z) ↦ omega (arith, current-lt j c ss found)
]

-- A chain with a current step is not over.
pub current-not_AllSettled :
    (i : ℕ) (c : Step) (ss : List Step) → first_pending ss ≡ some (i, c) → ¬ (AllSettled ss)
current-not_AllSettled i c [] e h = unfold first_pending in cc
current-not_AllSettled i c (s ∷ ss) e h = elim (current-cases i c s ss e) [
  | inl (p, z, same) ↦ ground arith
  | inr (j, p, found, z) ↦ current-not_AllSettled j c ss found h.1
]

-- A pending step may follow steps that are over.
pub InOrder-append : (s : Step) (ss : List Step) → AllSettled ss → InOrder (ss ++ s ∷ [])
InOrder-append s [] h = ground arith
InOrder-append s (t ∷ ts) h = ground (arith, InOrder-append s ts h.1)

update_of_Fresh :
    (id : ℕ) (f : Step → Step) (ss : List Step) → Fresh id ss → update_step id f ss ≡ ss
unfolding update_step
update_of_Fresh id f [] h = refl
update_of_Fresh id f (s ∷ ss) h = ground (arith, update_of_Fresh id f ss h.1)

pub AllPending-InOrder : (ss : List Step) → AllPending ss → InOrder ss
AllPending-InOrder [] h = tt
AllPending-InOrder (s ∷ ss) h = ground arith

update_head :
    (f : Step → Step) (s : Step) (ss : List Step)
    → Fresh s.id ss
    → update_step s.id f (s ∷ ss) ≡ f s ∷ ss
unfolding update_step
update_head f s ss h = ground (arith, update_of_Fresh s.id f ss h)

update_tail :
    (id : ℕ) (f : Step → Step) (s : Step) (ss : List Step)
    → id ≢ s.id
    → update_step id f (s ∷ ss) ≡ s ∷ update_step id f ss
unfolding update_step
update_tail id f s ss h = ground arith

before_pending : (s : Step) (ss : List Step) → AllPending ss → InOrder (s ∷ ss)
before_pending s ss h = ground (arith, AllPending-InOrder ss)

after_over :
    (s : Step) (ss xs : List Step)
    → is_pending s.status ≡ false
    → parked (s ∷ ss) ≡ false
    → InOrder (s ∷ ss)
    → (InOrder ss → InOrder xs)
    → InOrder (s ∷ xs)
after_over s ss xs o p h k = ground arith

after_pending :
    (s : Step) (ss : List Step) → is_pending s.status ≡ true → InOrder (s ∷ ss) → AllPending ss
after_pending s ss o h = ground arith

-- Deciding the current step, one way or another, keeps the chain in order.
pub decide-InOrder :
    (i : ℕ) (c : Step) (f : Step → Step) (ss : List Step)
    → first_pending ss ≡ some (i, c)
    → parked ss ≡ false
    → DistinctIds ss
    → InOrder ss
    → InOrder (update_step c.id f ss)
decide-InOrder i c f [] e p d h = unfold update_step in tt
decide-InOrder i c f (s ∷ ss) e p d h = elim (current-cases i c s ss e) [
  | inl (pending, z, same) ↦
      rw same (rw (update_head f s ss d.0) (before_pending (f s) ss (after_pending s ss pending h)))
  | inr (j, over, found, z) ↦
      rw (update_tail c.id f s ss (current-Fresh s.id j c ss found d.0))
        (after_over s ss _ over p h (decide-InOrder j c f ss found (ground arith) d.1))
]

-- Approving or rejecting the last step, as the current one, leaves every step over.
pub decide_last-AllSettled :
    (i : ℕ) (c : Step) (f : Step → Step) (ss : List Step)
    → ((s : Step) → is_settled (f s).status ≡ true)
    → first_pending ss ≡ some (i, c)
    → parked ss ≡ false
    → DistinctIds ss
    → length ss ≡ i + 1
    → AllSettled (update_step c.id f ss)
decide_last-AllSettled i c f [] q e p d n = unfold update_step in tt
decide_last-AllSettled i c f (s ∷ []) q e p d n = elim (current-cases i c s [] e) [
  | inl (pending, z, same) ↦ rw same (rw (update_head f s [] tt) (q s, tt))
  | inr (j, over, found, z) ↦ unfold first_pending in cc
]
decide_last-AllSettled i c f (s ∷ t ∷ ts) q e p d n = elim (current-cases i c s (t ∷ ts) e) [
  | inl (pending, z, same) ↦ absurd (omega arith)
  | inr (j, over, found, z) ↦
      rw (update_tail c.id f s (t ∷ ts) (current-Fresh s.id j c (t ∷ ts) found d.0)) (
        ground arith,
        decide_last-AllSettled j c f (t ∷ ts) q found (ground arith) d.1 (omega arith),
      )
]

pub claim_of_Fresh : (id : ℕ) (ss : List Step) → Fresh id ss → claim_count id ss ≡ 0
unfolding claim_count
claim_of_Fresh id [] h = refl
claim_of_Fresh id (s ∷ ss) h = ground (arith, claim_of_Fresh id ss h.1)

claim_head :
    (s : Step) (ss : List Step)
    → is_pending s.status ≡ true
    → Fresh s.id ss
    → claim_count s.id (s ∷ ss) ≡ 1
unfolding claim_count
claim_head s ss p h = ground (arith, claim_of_Fresh s.id ss h)

claim_tail :
    (id : ℕ) (s : Step) (ss : List Step)
    → is_pending s.status ≡ false
    → claim_count id (s ∷ ss) ≡ claim_count id ss
unfolding claim_count
claim_tail id s ss p = ground arith

-- The current step can be claimed, once.
pub claim_current :
    (i : ℕ) (c : Step) (ss : List Step)
    → first_pending ss ≡ some (i, c)
    → DistinctIds ss
    → claim_count c.id ss ≡ 1
claim_current i c [] e d = unfold first_pending in cc
claim_current i c (s ∷ ss) e d = elim (current-cases i c s ss e) [
  | inl (p, z, same) ↦ rw same (claim_head s ss p d.0)
  | inr (j, p, found, z) ↦ claim_tail c.id s ss p ∙ claim_current j c ss found d.1
]
