-- ===== src/Requisition/Steps/Laws.antt =====
-- Laws of the table of steps.
use hrm_backend.Prelude.{
  ℕ, suc, ◌+◌, ◌≤◌, ◌≡◌, refl, ◌≢◌, sym, Bool, true, false, ◌&&◌, List, [], ◌∷◌, ◌++◌, arith, ◌==◌,
  length, any, All, ok,
}
use hrm_backend.Requisition.Model.{Step, StepStatus}
use hrm_backend.Requisition.Steps.{is_pending, update_step, claim_count, insert_step, create_step}

-- A step is over once it was approved or rejected.
abbrev pub is_settled : StepStatus → Bool
is_settled StepStatus.approved = true
is_settled StepStatus.rejected = true
is_settled _ = false

abbrev pub AllSettled : List Step → Type 0
AllSettled = All (λ s. is_settled s.status ≡ true)

abbrev pub AllPending : List Step → Type 0
AllPending = All (λ s. s.status ≡ StepStatus.pending)

-- Over steps come first; then at most one that waits for the raiser; then pending ones only.
abbrev pub InOrder : List Step → Type 0
InOrder [] = Unit
InOrder (s ∷ ss) = elim s.status [
  | StepStatus.pending ↦ AllPending ss
  | StepStatus.info_requested ↦ AllPending ss
  | _ ↦ InOrder ss
]

-- The order indices run on from `k`.
abbrev pub Numbered : ℕ → List Step → Type 0
Numbered k [] = Unit
Numbered k (s ∷ ss) = (s.order_index ≡ k) × Numbered (suc k) ss

-- No step has this id.
abbrev pub Fresh : ℕ → List Step → Type 0
Fresh id = All (λ s. s.id ≢ id)

abbrev pub DistinctIds : List Step → Type 0
DistinctIds [] = Unit
DistinctIds (s ∷ ss) = Fresh s.id ss × DistinctIds ss

-- An update that leaves no pending row leaves none to claim.
pub claim-update :
    (id : ℕ) (f : Step → Step) (ss : List Step)
    → ((s : Step) → is_pending (f s).status ≡ false)
    → claim_count id (update_step id f ss) ≡ 0
unfolding claim_count update_step
claim-update id f [] h = refl
claim-update id f (s ∷ ss) h = ground (arith, h s, claim-update id f ss h)

-- Nor is the step still pending.
pub open-update :
    (id : ℕ) (f : Step → Step) (ss : List Step)
    → ((s : Step) → is_pending (f s).status ≡ false)
    → any (λ s. s.id == id && is_pending s.status) (update_step id f ss) ≡ false
unfolding update_step
open-update id f [] h = refl
open-update id f (s ∷ ss) h = ground (arith, h s, open-update id f ss h)

claim-insert :
    (id : ℕ) (s : Step) (ss : List Step)
    → s.id ≢ id
    → claim_count id (insert_step s ss) ≡ claim_count id ss
unfolding claim_count insert_step
claim-insert id s [] h = ground arith
claim-insert id s (t ∷ ts) h = ground (arith, claim-insert id s ts h)

pub claim-create :
    (id : ℕ) (s : Step) (ss ss' : List Step)
    → s.id ≢ id
    → create_step s ss ≡ ok ss'
    → claim_count id ss' ≡ claim_count id ss
unfolding create_step
claim-create id s ss ss' h e = ground (arith, claim-insert id s ss h)

-- A new last step goes to the end.
Numbered-any :
    (k n : ℕ) (ss : List Step)
    → Numbered k ss
    → k + length ss ≤ n
    → any (λ t. t.order_index == n) ss ≡ false
Numbered-any k n [] h e = refl
Numbered-any k n (s ∷ ss) h e = ground (arith, Numbered-any (suc k) n ss h.1)

insert-append :
    (k : ℕ) (s : Step) (ss : List Step)
    → Numbered k ss
    → s.order_index ≡ k + length ss
    → insert_step s ss ≡ ss ++ s ∷ []
unfolding insert_step
insert-append k s [] h e = refl
insert-append k s (t ∷ ts) h e = ground (arith, insert-append (suc k) s ts h.1)

pub create_step-append :
    (s : Step) (ss : List Step)
    → Numbered 0 ss
    → s.order_index ≡ length ss
    → create_step s ss ≡ ok (ss ++ s ∷ [])
unfolding create_step
create_step-append s ss h e =
    ground (arith, Numbered-any 0 s.order_index ss h, insert-append 0 s ss h)

pub Numbered-append :
    (k : ℕ) (s : Step) (ss : List Step)
    → Numbered k ss
    → s.order_index ≡ k + length ss
    → Numbered k (ss ++ s ∷ [])
Numbered-append k s [] h e = (omega arith, tt)
Numbered-append k s (t ∷ ts) h e = (h.0, Numbered-append (suc k) s ts h.1 (omega arith))

pub Numbered-update :
    (k id : ℕ) (f : Step → Step) (ss : List Step)
    → ((s : Step) → (f s).order_index ≡ s.order_index)
    → Numbered k ss
    → Numbered k (update_step id f ss)
unfolding update_step
Numbered-update k id f [] e h = tt
Numbered-update k id f (s ∷ ss) e h = ground (arith, e s, Numbered-update (suc k) id f ss e h.1)

pub length-update :
    (id : ℕ) (f : Step → Step) (ss : List Step) → length (update_step id f ss) ≡ length ss
unfolding update_step
length-update id f [] = refl
length-update id f (s ∷ ss) = ground (arith, length-update id f ss)

pub Fresh-update :
    (n id : ℕ) (f : Step → Step) (ss : List Step)
    → ((s : Step) → (f s).id ≡ s.id)
    → Fresh n ss
    → Fresh n (update_step id f ss)
unfolding update_step
Fresh-update n id f [] e h = tt
Fresh-update n id f (s ∷ ss) e h = ground (arith, e s, Fresh-update n id f ss e h.1)

pub DistinctIds-update :
    (id : ℕ) (f : Step → Step) (ss : List Step)
    → ((s : Step) → (f s).id ≡ s.id)
    → DistinctIds ss
    → DistinctIds (update_step id f ss)
unfolding update_step
DistinctIds-update id f [] e h = tt
DistinctIds-update id f (s ∷ ss) e h = ground (
  arith,
  e s,
  Fresh-update s.id id f ss e h.0,
  Fresh-update (f s).id id f ss e,
  DistinctIds-update id f ss e h.1,
)

Fresh-append : (n : ℕ) (s : Step) (ss : List Step) → Fresh n ss → s.id ≢ n → Fresh n (ss ++ s ∷ [])
Fresh-append n s [] h e = (e, tt)
Fresh-append n s (t ∷ ts) h e = (h.0, Fresh-append n s ts h.1 e)

pub DistinctIds-append :
    (s : Step) (ss : List Step) → DistinctIds ss → Fresh s.id ss → DistinctIds (ss ++ s ∷ [])
DistinctIds-append s [] h e = (tt, tt)
DistinctIds-append s (t ∷ ts) h e =
    (Fresh-append t.id s ts h.0 (λ p. e.0 (sym p)), DistinctIds-append s ts h.1 e.1)
