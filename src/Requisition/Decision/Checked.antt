-- ===== src/Requisition/Decision/Checked.antt =====
-- What the checks of `act` establish before the transaction starts.
use hrm_backend.Prelude.{
  ℕ, ◌-◌, String, ◌≡◌, refl, ◌≢◌, true, false, ◌⊎◌, inl, inr, none, some, List, Option-cases, ok,
  err, arith, length, >>=-eq-ok, bad_request,
}
use hrm_backend.Requisition.Model.{Decision, Step, Requisition, Actor, sent_back}
use hrm_backend.Requisition.Steps.{first_pending, parked}
use hrm_backend.Requisition.Access.{Access, can_act_on_step, may_open, load}
use hrm_backend.Requisition.Access.Laws.{load-eq, load_open}
use hrm_backend.Requisition.Decision.{Plan, with_chro, act_check}

pub record Checked (a : Access) (r : Requisition) (d : Decision) (note : String) (actor : Actor)
    (p : Plan) : Type 0 where
  pub current : Step
  pub is_current : first_pending r.steps ≡ some (p.index, current)
  pub step : p.step ≡ current.id
  pub count : p.count ≡ length r.steps
  pub decision : p.decision ≡ d
  pub written : p.note ≡ note
  pub free : parked r.steps ≡ false
  pub allowed : can_act_on_step a current r.unit_factory actor.id ≡ true
  pub in_app : d ≢ Decision.send_to_board
  pub final : d ≡ Decision.escalate → p.index ≡ length r.steps - 1
  pub below_chro : d ≡ Decision.escalate → with_chro current.role ≡ false

first_cases :
    (ss : List Step)
    → (first_pending ss ≡ none) ⊎ ((i : ℕ) × (c : Step) × (first_pending ss ≡ some (i, c)))
first_cases ss = elim (Option-cases (first_pending ss)) [
  | inl e ↦ inl e
  | inr ((i, c), e) ↦ inr (i, c, e)
]

pub act_check-Checked :
    (a : Access) (r : Requisition) (d : Decision) (note : String) (actor : Actor) {p : Plan}
    → act_check a r d note actor ≡ ok p
    → Checked a r d note actor p
unfolding act_check
act_check-Checked a r d note actor {p} e =
    let (r', opened, rest) = >>=-eq-ok (load a (some r) (some actor.id)) _ e in
    let same : r' ≡ r = load-eq a r actor.id opened in
    elim (first_cases r'.steps) [
      | inl none_left ↦ absurd (ground arith)
      | inr (i, c, found) ↦ record {
        current = c;
        is_current = ground arith;
        step = ground arith;
        count = ground arith;
        decision = ground arith;
        written = ground arith;
        free = ground arith;
        allowed = ground arith;
        in_app = ground arith;
        final = ground arith;
        below_chro = ground arith;
      }
    ]

pub act_check-parked :
    (a : Access) (r : Requisition) (d : Decision) (note : String) (actor : Actor)
    → may_open a r actor.id ≡ true
    → parked r.steps ≡ true
    → act_check a r d note actor ≡ err (bad_request sent_back)
unfolding act_check
act_check-parked a r d note actor opens p = rw (load_open a r actor.id opens, p) refl

-- The plan of an approval, once the checks pass.
abbrev pub approval_plan : Requisition → ℕ → Step → String → Actor → Plan
approval_plan r i c note actor = record {
  step = c.id;
  index = i;
  count = length r.steps;
  decision = Decision.approved;
  note = note;
  actor = actor.name;
  chro_assignee = "";
}

pub act_check-approved :
    (a : Access) (r : Requisition) (note : String) (actor : Actor) (i : ℕ) (c : Step)
    → may_open a r actor.id ≡ true
    → parked r.steps ≡ false
    → first_pending r.steps ≡ some (i, c)
    → can_act_on_step a c r.unit_factory actor.id ≡ true
    → act_check a r Decision.approved note actor ≡ ok (approval_plan r i c note actor)
unfolding act_check
act_check-approved a r note actor i c opens free found allowed =
    rw (load_open a r actor.id opens, free, found, allowed) refl
