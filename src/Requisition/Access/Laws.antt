-- ===== src/Requisition/Access/Laws.antt =====
-- Lemmas on the requisition's gates.
use hrm_backend.Prelude.{ℕ, String, ◌≡◌, refl, inl, inr, true, some, Option-cases, ok, arith}
use hrm_backend.Requisition.Model.{Requisition, Step}
use hrm_backend.Requisition.Access.{Access, role_key, can_act_on_step, may_open, load}

module _ (a : Access) where
  -- A row that opens is the row that was found.
  pub load-eq :
      (r : Requisition) (u : ℕ) {r' : Requisition} → load a (some r) (some u) ≡ ok r' → r' ≡ r
  unfolding load
  load-eq r u e = ground arith

  load_opens :
      (r : Requisition) (u : ℕ) {r' : Requisition}
      → load a (some r) (some u) ≡ ok r'
      → may_open a r u ≡ true
  unfolding load
  load_opens r u e = ground (arith)

  pub load_open :
      (r : Requisition) (u : ℕ) → may_open a r u ≡ true → load a (some r) (some u) ≡ ok r
  unfolding load
  load_open r u h = rw h refl

  -- A super user may act on every step.
  super_acts :
      (s : Step) (unit : String) (u : ℕ)
      → a.is_super_user u ≡ true
      → can_act_on_step a s unit u ≡ true
  unfolding can_act_on_step
  super_acts s unit u h = elim (Option-cases s.role) [
    | inl e ↦ ground arith
    | inr (x, e) ↦ ground (arith, a.super_has_role u (role_key x) unit)
  ]
