-- ===== src/Leave/Covers.antt =====
-- What a leave hands over: the job analyses on the desk, and the requisitions that get a stand-in
-- (rerouteJobAnalyses and applyCovers of src/modules/leave/leave.service.ts).
use hrm_backend.Prelude.{
  ℕ, String, ◌≡◌, refl, sym, ap, ◌∙◌, subst, Bool, true, false, ◌&&◌, ◌||◌, not, Option, none, some,
  List, [], ◌∷◌, ◌++◌, map, find, any, all, is_id, is_some, includes, repeats, ◌==◌, if◌then◌else◌,
  Result, ok, guard-eq-ok, bad_request, or_throw, or_throw-some, >>=-eq-ok, ok_eq, Result-cases,
  any-map, any-ext, any_never, arith, Bool-cases, inl, inr, ==_iff,
}
use hrm_backend.Requisition.Model.{Actor, Requisition}
use hrm_backend.Rbac.{LeavePeriod, Directory, is_on_leave}
use hrm_backend.Rbac.Permissions.Holders.{role_holder_user_ids}
use hrm_backend.Rbac.Permissions.Owners.{job_analysis_owners_lem}
use hrm_backend.Leave.{
  Problem, not_recruiter, covers_self, not_corporate_recruiter, cover_on_leave, Store, CoverChoice,
  StartLeave, active_period, with_leaves, is_on_desk, moved_on, reroute_job_analyses, check_cover,
  covered, write_cover, apply_covers, new_leave, begin_leave, start, is_covered_by,
  update_requisition,
}
use hrm_backend.Leave.Periods.{apply_covers-directory}

abbrev pub req_id : Requisition → ℕ
req_id r = r.id

abbrev has_id : ℕ → Requisition → Bool
has_id id r = r.id == id

req_eq : (x y : Requisition) → some x ≡ some y → x ≡ y
req_eq x y e = cc

-- An update by id changes the one row with that id.
module _ (p : Requisition → Bool) (f : Requisition → Requisition) (id : ℕ) where
  update-absent :
      (rs : List Requisition)
      → includes id (map req_id rs) ≡ false
      → all p (update_requisition id f rs) ≡ all p rs
  update-absent [] h = refl
  update-absent (r ∷ rs) h = elim (Bool-cases (r.id == id)) [
    | inl e ↦ ground (arith, e)
    | inr e ↦ rw (e, update-absent rs (ground arith)) refl
  ]

  update-all :
      (rs : List Requisition) {r : Requisition}
      → repeats (map req_id rs) ≡ false
      → find (has_id id) rs ≡ some r
      → all p rs ≡ true
      → p (f r) ≡ true
      → all p (update_requisition id f rs) ≡ true
  update-all [] apart found h new = refl
  update-all (x ∷ rs) {r = r} apart found h new = elim (Bool-cases (x.id == id)) [
    | inl e ↦
        let same : x ≡ r =
          req_eq x r (subst (λ b. (if b then some x else find (has_id id) rs) ≡ some r) e found) in
        let written : p (f x) ≡ true = ap (λ y. p (f y)) same ∙ new in
        let others : includes id (map req_id rs) ≡ false =
          subst (λ i. includes i (map req_id rs) ≡ false) ((==_iff x.id id).0 e) (ground arith) in
        rw (e, written, update-absent rs others) (ground arith)
    | inr e ↦
        let rest =
          update-all rs (ground arith)
            (subst (λ b. (if b then some x else find (has_id id) rs) ≡ some r) e found)
            (ground arith) new in
        rw (e, rest) (ground arith)
  ]

find-id :
    (id : ℕ) (rs : List Requisition) {r : Requisition} → find (has_id id) rs ≡ some r → r.id ≡ id
find-id id [] h = cc
find-id id (x ∷ rs) {r = r} h = elim (Bool-cases (x.id == id)) [
  | inl e ↦
      let same : x ≡ r =
        req_eq x r (subst (λ b. (if b then some x else find (has_id id) rs) ≡ some r) e h) in
      ap req_id (sym same) ∙ (==_iff x.id id).0 e
  | inr e ↦ find-id id rs (subst (λ b. (if b then some x else find (has_id id) rs) ≡ some r) e h)
]

map-ids :
    (f : Requisition → Requisition) (rs : List Requisition)
    → ((r : Requisition) → (f r).id ≡ r.id)
    → map req_id (map f rs) ≡ map req_id rs
map-ids f [] h = refl
map-ids f (r ∷ rs) h = rw (h r, map-ids f rs h) refl

when_id :
    (b : Bool) (f : Requisition → Requisition) (x : Requisition)
    → (f x).id ≡ x.id
    → (if b then f x else x).id ≡ x.id
when_id true f x h = h
when_id false f x h = refl

any-update :
    (p : Requisition → Bool) (f : Requisition → Requisition) (id : ℕ) (rs : List Requisition)
    → ((r : Requisition) → p (f r) ≡ p r)
    → any p (update_requisition id f rs) ≡ any p rs
any-update p f id [] same = refl
any-update p f id (r ∷ rs) same = elim (Bool-cases (r.id == id)) [
  | inl e ↦ rw (e, same r, any-update p f id rs same) refl
  | inr e ↦ rw (e, any-update p f id rs same) refl
]

module _ (lower : String → String) (by_name : String → String → Bool) (now : ℕ)
    (format_day : ℕ → String) where
  -- Somebody else, who recruits for the unit and is there.
  pub may_stand_in : Directory → Actor → String → ℕ → Bool
  may_stand_in d actor unit_name user =
      not (user == actor.id)
      && includes user (role_holder_user_ids lower d "corporate_recruiter" unit_name)
      && not (is_on_leave d now user)

  -- A requisition that a leave hands over has a stand-in who may be one.
  pub cover_is_sound : Directory → Actor → ℕ → Requisition → Bool
  unfolding may_stand_in
  cover_is_sound d actor leave_id r = not (is_covered_by leave_id r) || (elim r.cover_recruiter_id [
    | none ↦ false
    | some user ↦ may_stand_in d actor r.unit_factory user
  ])

  check_cover_ok :
      (d : Directory) (rs : List Requisition) (actor : Actor) (choice : CoverChoice)
      {r : Requisition}
      → check_cover lower by_name now format_day d rs actor choice ≡ ok r
      → (find (has_id choice.requisition_id) rs ≡ some r)
        × (may_stand_in d actor r.unit_factory choice.cover_recruiter_id ≡ true)
  unfolding check_cover may_stand_in
  check_cover_ok d rs actor choice {r = r} e =
      let (x, found, e1) = >>=-eq-ok (or_throw _ _) _ e in
      let (g1, e2) = guard-eq-ok (is_id x.recruiter_id actor.id) (bad_request not_recruiter) _ e1 in
      let (g2, e3) =
        guard-eq-ok (not (choice.cover_recruiter_id == actor.id)) (bad_request covers_self) _ e2 in
      let (g3, e4) =
        guard-eq-ok
          (includes choice.cover_recruiter_id
            (role_holder_user_ids lower d "corporate_recruiter" x.unit_factory))
          (bad_request not_corporate_recruiter) _ e3 in
      let (g4, e5) =
        guard-eq-ok (not (is_on_leave d now choice.cover_recruiter_id)) (bad_request cover_on_leave)
          _ e4 in
      let same : x ≡ r = ok_eq x r e5 in
      (
        or_throw-some _ _ found ∙ ap some same,
        subst
            (λ (y : Requisition).
              may_stand_in d actor y.unit_factory choice.cover_recruiter_id ≡ true)
            same (ground (arith, g2, g3, g4)),
      )

  covered-is_sound :
      (d : Directory) (actor : Actor) (leave : LeavePeriod) (choice : CoverChoice) (r : Requisition)
      → may_stand_in d actor r.unit_factory choice.cover_recruiter_id ≡ true
      → cover_is_sound d actor leave.id
          (covered lower by_name now format_day d actor leave choice r)
        ≡ true
  unfolding cover_is_sound covered
  covered-is_sound d actor leave choice r h = rw h (ground arith)

  apply_covers-all :
      (actor : Actor) (leave : LeavePeriod) (choices : List CoverChoice) (s : Store)
      → repeats (map req_id s.requisitions) ≡ false
      → all (cover_is_sound s.directory actor leave.id) s.requisitions ≡ true
      → all
          (cover_is_sound s.directory actor leave.id)
          (apply_covers lower by_name now format_day actor leave choices s).0.requisitions
        ≡ true
  unfolding apply_covers write_cover covered
  apply_covers-all actor leave [] s apart h = h
  apply_covers-all actor leave (choice ∷ choices) s apart h =
      elim (Result-cases
        (check_cover lower by_name now format_day s.directory s.requisitions actor choice)) [
          | inr (refused, e) ↦ rw (apply_covers, e) h
          | inl (r, e) ↦
              let (found, sound) = check_cover_ok s.directory s.requisitions actor choice e in
              let write = covered lower by_name now format_day s.directory actor leave choice in
              let own : r.id ≡ choice.requisition_id =
                find-id choice.requisition_id s.requisitions found in
              let here : find (has_id r.id) s.requisitions ≡ some r =
                subst (λ i. find (has_id i) s.requisitions ≡ some r) (sym own) found in
              let kept =
                map-ids (λ x. if x.id == r.id then write x else x) s.requisitions
                  (λ x. when_id (x.id == r.id) write x refl) in
              rw (apply_covers, e)
                (apply_covers-all actor leave choices
                  (write_cover lower by_name now format_day actor leave choice r.id s)
                  (ap repeats kept ∙ apart)
                  (update-all (cover_is_sound s.directory actor leave.id) write r.id s.requisitions
                    apart here h (covered-is_sound s.directory actor leave choice r sound)))
        ]

  uncovered-is_sound :
      (d : Directory) (actor : Actor) (leave_id : ℕ) (rs : List Requisition)
      → any (is_covered_by leave_id) rs ≡ false
      → all (cover_is_sound d actor leave_id) rs ≡ true
  unfolding cover_is_sound
  uncovered-is_sound d actor leave_id [] h = refl
  uncovered-is_sound d actor leave_id (r ∷ rs) h =
      ground (arith, uncovered-is_sound d actor leave_id rs)

  abbrev rerouted : Directory → Actor → LeavePeriod → Requisition → Requisition
  rerouted d actor leave r =
      if is_on_desk actor.id r then moved_on lower by_name now format_day d actor leave r else r

  rerouted-covers :
      (d : Directory) (actor : Actor) (leave : LeavePeriod) (leave_id : ℕ) (r : Requisition)
      → is_covered_by leave_id (rerouted d actor leave r) ≡ is_covered_by leave_id r
  unfolding moved_on
  rerouted-covers d actor leave leave_id r = elim (Bool-cases (is_on_desk actor.id r)) [
    | inl e ↦ rw (rerouted, e) refl
    | inr e ↦ rw (rerouted, e) refl
  ]

  rerouted-id :
      (d : Directory) (actor : Actor) (leave : LeavePeriod) (r : Requisition)
      → (rerouted d actor leave r).id ≡ r.id
  unfolding moved_on
  rerouted-id d actor leave r =
      when_id (is_on_desk actor.id r) (moved_on lower by_name now format_day d actor leave) r refl

  rerouted-desk :
      (d : Directory) (actor : Actor) (leave : LeavePeriod) (r : Requisition)
      → is_on_desk actor.id (rerouted d actor leave r) ≡ false
  unfolding moved_on is_on_desk
  rerouted-desk d actor leave r = elim (Bool-cases (is_on_desk actor.id r)) [
    | inl e ↦
        let free = (job_analysis_owners_lem lower by_name now d r.unit_factory actor.id).2 in
        rw (rerouted, e, free) (ground arith)
    | inr e ↦ rw (rerouted, e) e
  ]

  -- The requisitions that a leave hands over have somebody else to stand in, who recruits for their
  -- unit and is not away; also where a later choice of the request is refused. The leave's id is new
  -- and the ids of the requisitions are apart.
  pub start-covers :
      (id : ℕ) (dto : StartLeave) (actor : Actor) (resolved : Result Problem (Option ℕ)) (s : Store)
      → repeats (map req_id s.requisitions) ≡ false
      → any (is_covered_by id) s.requisitions ≡ false
      → all
          (cover_is_sound
            (start lower by_name now format_day id dto actor resolved s).0.directory
            actor
            id)
          (start lower by_name now format_day id dto actor resolved s).0.requisitions
        ≡ true
  unfolding start begin_leave reroute_job_analyses
  start-covers id dto actor resolved s apart fresh =
      elim (Bool-cases (is_some (active_period s.directory now actor.id))) [
        | inl e ↦ rw (start, e) (uncovered-is_sound s.directory actor id s.requisitions fresh)
        | inr e ↦ elim (Result-cases resolved) [
          | inr (refused, f) ↦
              rw (start, e, f) (uncovered-is_sound s.directory actor id s.requisitions fresh)
          | inl (ends_at, f) ↦
              let leave = new_leave now id dto actor ends_at in
              let away = with_leaves (s.directory.leaves ++ leave ∷ []) s in
              let moved = reroute_job_analyses lower by_name now format_day actor leave away in
              rw
                (
                  start,
                  e,
                  f,
                  apply_covers-directory lower by_name now format_day actor leave dto.covers moved,
                )
                (apply_covers-all actor leave dto.covers moved
                  (ap repeats (
                      map-ids (rerouted away.directory actor leave) s.requisitions
                        (rerouted-id away.directory actor leave))
                    ∙ apart)
                  (uncovered-is_sound away.directory actor id moved.requisitions (
                    any-map (is_covered_by id) (rerouted away.directory actor leave) s.requisitions
                    ∙ any-ext s.requisitions (rerouted-covers away.directory actor leave id)
                    ∙ fresh)))
        ]
      ]

  apply_covers-desk :
      (actor : Actor) (leave : LeavePeriod) (choices : List CoverChoice) (s : Store) (user : ℕ)
      → any
          (is_on_desk user)
          (apply_covers lower by_name now format_day actor leave choices s).0.requisitions
        ≡ any (is_on_desk user) s.requisitions
  unfolding apply_covers write_cover covered is_on_desk
  apply_covers-desk actor leave [] s user = refl
  apply_covers-desk actor leave (choice ∷ choices) s user =
      elim (Result-cases
        (check_cover lower by_name now format_day s.directory s.requisitions actor choice)) [
          | inr (refused, e) ↦ rw (apply_covers, e) refl
          | inl (r, e) ↦
              let write = covered lower by_name now format_day s.directory actor leave choice in
              rw (apply_covers, e)
                (apply_covers-desk actor leave choices
                    (write_cover lower by_name now format_day actor leave choice r.id s) user
                  ∙ any-update (is_on_desk user) write r.id s.requisitions (λ x. refl))
        ]

  -- No job analysis that is still to be written stays on the desk of somebody whose leave was set.
  pub start-desk :
      (id : ℕ) (dto : StartLeave) (actor : Actor) (ends_at : Option ℕ) (s : Store)
      → is_some (active_period s.directory now actor.id) ≡ false
      → any
          (is_on_desk actor.id)
          (start lower by_name now format_day id dto actor (ok ends_at) s).0.requisitions
        ≡ false
  unfolding start begin_leave reroute_job_analyses
  start-desk id dto actor ends_at s free =
      let leave = new_leave now id dto actor ends_at in
      let away = with_leaves (s.directory.leaves ++ leave ∷ []) s in
      let moved = reroute_job_analyses lower by_name now format_day actor leave away in
      rw (start, free)
        (apply_covers-desk actor leave dto.covers moved actor.id
          ∙ any-map (is_on_desk actor.id) (rerouted away.directory actor leave) s.requisitions
          ∙ any-ext s.requisitions (rerouted-desk away.directory actor leave)
          ∙ any_never s.requisitions)
