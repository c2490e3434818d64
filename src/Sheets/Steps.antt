-- ===== src/Sheets/Steps.antt =====
-- What each handler does to the signatures behind a sheet (src/modules/board/board.service.ts).
use hrm_backend.Prelude.{
  ℕ, String, ◌≡◌, refl, sym, ap, ◌∙◌, subst, Bool, true, false, ◌&&◌, ◌||◌, not, Option, some, List,
  [], ◌∷◌, ◌++◌, map, keep, any, find, ◌==◌, ==_iff, ==_refl, is_nil, is_some, ok, arith,
  Bool-cases, Option-cases, Result-cases, inl, inr, any-map, any-ext, any-append, or_throw,
  or_throw-some, >>=-eq-ok, >>-eq-ok, guard-eq-ok, ok_eq, forbidden, bad_request, not_found,
}
use hrm_backend.Sheets.{
  Stage, Status, Approval, Sheet, Vote, Tables, World, is_pending, is_approved, is_chro,
  update_sheet, not_allowed, approval_missing, already_decided, all_responded, already_on_sheet,
}
use hrm_backend.Sheets.Handlers.{
  RowPatch, Decision, recipients, at_stage, open_sheet_stage, update_sheet_row, new_sheet,
  check_sheet, send_sheet, resend_sheet, answered, stopped, cleared, settle_vote, commit_sheet_vote,
  check_link, check_sheet_vote, submit_sheet_vote, put_on, settled,
}
use hrm_backend.Sheets.Signed.{
  board_vote, board_yes, chro_yes, past_chro, is_cleared, implies, IsSigned, keeps, any_mono,
  find-any, ask-chro, ask-yes, ask-board,
}

-- An update of one sheet that makes a test true of it only where `r` holds.
update-implies :
    (p : Sheet → Bool) (f : Sheet → Sheet) (sheet : ℕ) (r : Bool) (bs : List Sheet)
    → ((b : Sheet) → (b.id == sheet) ≡ true → implies (p (f b)) (p b || r) ≡ true)
    → implies (any p (update_sheet sheet f bs)) (any p bs || r) ≡ true
update-implies p f sheet r [] h = refl
update-implies p f sheet r (b ∷ bs) h =
    let rest = update-implies p f sheet r bs h in
    elim (Bool-cases (b.id == sheet)) [
      | inl e ↦ rw e (ground (arith, h b e, rest))
      | inr e ↦ rw e (ground (arith, rest))
    ]

self : (b : Bool) → implies b b ≡ true
self true = refl
self false = refl

self_or : (b c : Bool) → implies b (b || c) ≡ true
self_or true c = refl
self_or false c = refl

pending_open : (s : Status) → is_pending s ≡ true → is_approved s ≡ false
pending_open Status.pending h = refl
pending_open Status.approved h = refl_absurd h
  where
    refl_absurd : false ≡ true → true ≡ false
    refl_absurd e = sym e
pending_open Status.rejected h = refl

module _ (w : World) (id : ℕ) where
  at_stage-past :
      (sheet : ℕ) (stage : Stage) (b : Sheet)
      → (b.id == sheet) ≡ true
      → implies
          (past_chro id (at_stage stage b))
          (past_chro id b || (sheet == id && not (is_chro stage)))
        ≡ true
  at_stage-past sheet stage b e = rw ((==_iff b.id sheet).0 e) (ground arith)

  at_stage-cleared :
      (sheet : ℕ) (stage : Stage) (c : Bool) (b : Sheet)
      → implies (is_cleared id (at_stage stage b)) (is_cleared id b || c) ≡ true
  at_stage-cleared sheet stage c b = self_or (is_cleared id b) c

  open_sheet_stage-IsSigned :
      (sheet : ℕ) (stage : Stage) (t : Tables)
      → implies (sheet == id && not (is_chro stage)) (any (chro_yes id) t.votes) ≡ true
      → IsSigned id t
      → IsSigned id (open_sheet_stage w sheet stage t).0
  unfolding open_sheet_stage
  open_sheet_stage-IsSigned sheet stage t due v =
      elim (Option-cases (find (λ (b : Sheet). b.id == sheet) t.sheets)) [
        | inl e ↦ rw (open_sheet_stage, e) v
        | inr (b, e) ↦ elim (Bool-cases (is_nil (recipients b stage))) [
          | inl f ↦ rw (open_sheet_stage, e, f) v
          | inr f ↦
              let ids = recipients b stage in
              let chro = ask-chro w id sheet stage ids t.votes in
              let signed = ask-yes w id sheet stage ids t.votes in
              let asked = ask-board w id sheet stage ids t.votes in
              let moved =
                update-implies (past_chro id) (at_stage stage) sheet
                  (sheet == id && not (is_chro stage)) t.sheets (at_stage-past sheet stage) in
              let done = any (chro_yes id) t.votes && any (board_yes id) t.votes in
              let same =
                update-implies (is_cleared id) (at_stage stage) sheet done t.sheets
                  (λ x k. at_stage-cleared sheet stage done x) in
              rw (open_sheet_stage, e, f)
                (keeps w id t _
                  (ap (implies (any (chro_yes id) t.votes)) chro ∙ self (any (chro_yes id) t.votes))
                  (ap (implies (any (board_yes id) t.votes)) signed
                    ∙ self (any (board_yes id) t.votes))
                  (ground (arith, chro, asked, due)) (ground (arith, chro, moved, due))
                  (ground (arith, chro, signed, same)) v)
        ]
      ]

  module _ (key : ℕ) (decision : Decision) (notes : Option String) where
    -- The claim of a vote loses no signature, and asks nobody.
    answered-keeps :
        (v : Vote)
        → (implies (chro_yes id v) (chro_yes id (answered w key decision notes v)) ≡ true)
          × (implies (board_yes id v) (board_yes id (answered w key decision notes v)) ≡ true)
          × (board_vote id (answered w key decision notes v) ≡ board_vote id v)
    answered-keeps v = elim (Bool-cases (v.id == key && is_pending v.status)) [
      | inl e ↦
          let open_ : is_approved v.status ≡ false = pending_open v.status (ground arith) in
          rw e (ground (arith, open_), ground (arith, open_), refl)
      | inr e ↦ rw e (self (chro_yes id v), self (board_yes id v), refl)
    ]

    claimed-IsSigned :
        (t : Tables)
        → IsSigned id t
        → IsSigned id (record t { votes = map (answered w key decision notes) t.votes })
    claimed-IsSigned t v =
        let after = map (answered w key decision notes) t.votes in
        let same : any (board_vote id) after ≡ any (board_vote id) t.votes =
          any-map (board_vote id) (answered w key decision notes) t.votes
          ∙ any-ext t.votes (λ x. (answered-keeps x).2) in
        keeps w id t _
          (any_mono (chro_yes id) (chro_yes id) (answered w key decision notes) t.votes
            (λ x. (answered-keeps x).0))
          (any_mono (board_yes id) (board_yes id) (answered w key decision notes) t.votes
            (λ x. (answered-keeps x).1))
          (ground (arith, same)) (self_or (any (past_chro id) t.sheets) (any (chro_yes id) after))
          (self_or (any (is_cleared id) t.sheets)
            (any (chro_yes id) after && any (board_yes id) after))
          v

  stopped-IsSigned :
      (sheet : ℕ) (notes : Option String) (t : Tables)
      → IsSigned id t
      → IsSigned id (stopped w sheet notes t)
  stopped-IsSigned sheet notes t v =
      let chro = any (chro_yes id) t.votes in
      let both = any (chro_yes id) t.votes && any (board_yes id) t.votes in
      keeps w id t _ (self chro) (self (any (board_yes id) t.votes))
        (self_or (any (board_vote id) t.votes) chro)
        (update-implies (past_chro id) _ sheet chro t.sheets (λ b e. self_or (past_chro id b) chro))
        (update-implies (is_cleared id) _ sheet both t.sheets (λ b e. ground arith)) v

  cleared-IsSigned :
      (sheet : ℕ) (t : Tables)
      → implies (sheet == id) (any (chro_yes id) t.votes && any (board_yes id) t.votes) ≡ true
      → IsSigned id t
      → IsSigned id (cleared w sheet t)
  cleared-IsSigned sheet t due v =
      let chro = any (chro_yes id) t.votes in
      let both = any (chro_yes id) t.votes && any (board_yes id) t.votes in
      keeps w id t _ (self chro) (self (any (board_yes id) t.votes))
        (self_or (any (board_vote id) t.votes) chro)
        (update-implies (past_chro id) _ sheet chro t.sheets (λ b e. self_or (past_chro id b) chro))
        (update-implies (is_cleared id) (λ b. record b { status = Status.approved }) sheet both
          t.sheets (λ b e. rw ((==_iff b.id sheet).0 e) (ground (arith, due))))
        v

  -- An approving vote that is in the table when it is claimed.
  module _ (v : Vote) (notes : Option String) (votes : List Vote) (token : ℕ)
      (found : find (λ (x : Vote). x.token_hash == token) votes ≡ some v)
      (waiting : is_pending v.status ≡ true) where
    own-answer : (answered w v.id Decision.approve notes v).status ≡ Status.approved
    own-answer = rw (==_refl v.id, waiting) refl

    claimed-chro :
        is_chro v.stage ≡ true
        → implies
            (v.batch_id == id)
            (any (chro_yes id) (map (answered w v.id Decision.approve notes) votes))
          ≡ true
    claimed-chro chro = elim (Bool-cases (v.batch_id == id)) [
      | inl e ↦
          let own : chro_yes id (answered w v.id Decision.approve notes v) ≡ true =
            rw (==_refl v.id, waiting) (ground (arith, e, chro)) in
          let there =
            find-any _ (λ x. chro_yes id (answered w v.id Decision.approve notes x)) votes found
              own in
          rw (e, any-map (chro_yes id) (answered w v.id Decision.approve notes) votes ∙ there) refl
      | inr e ↦ rw e refl
    ]

    claimed-board :
        is_chro v.stage ≡ false
        → implies
            (v.batch_id == id)
            (any (board_yes id) (map (answered w v.id Decision.approve notes) votes))
          ≡ true
    claimed-board board = elim (Bool-cases (v.batch_id == id)) [
      | inl e ↦
          let own : board_yes id (answered w v.id Decision.approve notes v) ≡ true =
            rw (==_refl v.id, waiting) (ground (arith, e, board)) in
          let there =
            find-any _ (λ x. board_yes id (answered w v.id Decision.approve notes x)) votes found
              own in
          rw (e, any-map (board_yes id) (answered w v.id Decision.approve notes) votes ∙ there) refl
      | inr e ↦ rw e refl
    ]

    claimed-asked :
        is_chro v.stage ≡ false → implies (v.batch_id == id) (any (board_vote id) votes) ≡ true
    claimed-asked board = elim (Bool-cases (v.batch_id == id)) [
      | inl e ↦
          let there : any (board_vote id) votes ≡ true =
            find-any _ (board_vote id) votes found (ground (arith, e, board)) in
          rw (e, there) refl
      | inr e ↦ rw e refl
    ]

  settle_vote-IsSigned :
      (v : Vote) (decision : Decision) (notes : Option String) (t : Tables) (token : ℕ)
      → find (λ (x : Vote). x.token_hash == token) t.votes ≡ some v
      → is_pending v.status ≡ true
      → IsSigned id t
      → IsSigned id
          (settle_vote w v decision notes
            (record t { votes = map (answered w v.id decision notes) t.votes })).0
  unfolding settle_vote
  settle_vote-IsSigned v Decision.reject notes t token found waiting signed =
      stopped-IsSigned v.batch_id notes
        (record t { votes = map (answered w v.id Decision.reject notes) t.votes })
        (claimed-IsSigned v.id Decision.reject notes t signed)
  settle_vote-IsSigned v Decision.approve notes t token found waiting signed =
      let after = record t { votes = map (answered w v.id Decision.approve notes) t.votes } in
      let kept = claimed-IsSigned v.id Decision.approve notes t signed in
      elim (Bool-cases (is_chro v.stage)) [
        | inl e ↦
            let due = claimed-chro v notes t.votes token found waiting e in
            rw (settle_vote, e)
              (open_sheet_stage-IsSigned v.batch_id Stage.board after (ground (arith, due)) kept)
        | inr e ↦
            let asked = claimed-asked v notes t.votes token found waiting e in
            let own = claimed-board v notes t.votes token found waiting e in
            let mono =
              any_mono (chro_yes id) (chro_yes id) (answered w v.id Decision.approve notes) t.votes
                (λ x. (answered-keeps v.id Decision.approve notes x).0) in
            rw (settle_vote, e)
              (cleared-IsSigned v.batch_id after (ground (arith, asked, own, mono, signed.asked))
                kept)
      ]

  commit-IsSigned :
      (v : Vote) (decision : Decision) (notes : Option String) (t : Tables) (token : ℕ)
      → find (λ (x : Vote). x.token_hash == token) t.votes ≡ some v
      → is_pending v.status ≡ true
      → IsSigned id t
      → IsSigned id (commit_sheet_vote w v decision notes t).0
  unfolding commit_sheet_vote
  commit-IsSigned v decision notes t token found waiting signed =
      elim (Bool-cases (any (λ (x : Vote). x.id == v.id && is_pending x.status) t.votes)) [
        | inr e ↦ rw (commit_sheet_vote, e) signed
        | inl e ↦
            rw (commit_sheet_vote, e)
              (settle_vote-IsSigned v decision notes t token found waiting signed)
      ]

  pub check_sheet_vote-found :
      (token : ℕ) (notes : Option String) (decision : Decision) (t : Tables) {v : Vote}
      → check_sheet_vote w token notes decision t ≡ ok v
      → find (λ (x : Vote). x.token_hash == token) t.votes ≡ some v
  unfolding check_sheet_vote
  check_sheet_vote-found token notes decision t {v = v} e =
      let (x, found, e1) = >>=-eq-ok (or_throw _ _) _ e in
      let same : x ≡ v = ok_eq x v (>>-eq-ok (check_link w x notes decision t) _ e1) in
      or_throw-some _ _ found ∙ ap some same

  pub submit-IsSigned :
      (token : ℕ) (notes : Option String) (decision : Decision) (t : Tables)
      → IsSigned id t
      → IsSigned id (submit_sheet_vote w token notes decision t).0
  unfolding submit_sheet_vote
  submit-IsSigned token notes decision t signed =
      elim (Result-cases (check_sheet_vote w token notes decision t)) [
        | inr (refused, e) ↦ rw (submit_sheet_vote, e) signed
        | inl (v, e) ↦ elim (Bool-cases (is_pending v.status)) [
          | inr f ↦ rw (submit_sheet_vote, e, f) signed
          | inl f ↦
              rw (submit_sheet_vote, e, f)
                (commit-IsSigned v decision notes t token
                  (check_sheet_vote-found token notes decision t e) f signed)
        ]
      ]

  pub send_sheet-IsSigned :
      (new : ℕ) (reference : String) (ids : List ℕ) (chro : ℕ) (members : List ℕ) (user : ℕ)
      (t : Tables)
      → IsSigned id t
      → IsSigned id (send_sheet w new reference ids chro members user t).0
  unfolding send_sheet
  send_sheet-IsSigned new reference ids chro members user t v =
      elim (Result-cases (check_sheet w ids chro members user t)) [
        | inr (refused, e) ↦ rw (send_sheet, e) v
        | inl (done, e) ↦
            let sheet = new_sheet w new reference chro members user in
            let moved : any (past_chro id) (t.sheets ++ sheet ∷ []) ≡ any (past_chro id) t.sheets =
              any-append (past_chro id) t.sheets (sheet ∷ []) ∙ ground arith in
            let same : any (is_cleared id) (t.sheets ++ sheet ∷ []) ≡ any (is_cleared id) t.sheets =
              any-append (is_cleared id) t.sheets (sheet ∷ []) ∙ ground arith in
            rw (send_sheet, e)
              (open_sheet_stage-IsSigned new Stage.chro
                (record t {
                  approvals = map (put_on w new user ids) t.approvals;
                  sheets = t.sheets ++ sheet ∷ [];
                })
                (ground arith)
                (record {
                  asked = v.asked;
                  moved = ground (arith, moved, v.moved);
                  signed = ground (arith, same, v.signed);
                }))
      ]

  pub resend_sheet-IsSigned :
      (sheet user : ℕ) (t : Tables) {t' : Tables}
      → resend_sheet w sheet user t ≡ ok t'
      → IsSigned id t
      → IsSigned id t'
  unfolding resend_sheet
  resend_sheet-IsSigned sheet user t {t' = t'} e v =
      let (g1, e1) = guard-eq-ok (w.may_manage user) (forbidden not_allowed) _ e in
      let (b, found, e2) = >>=-eq-ok (or_throw _ _) _ e1 in
      let (g3, e3) = guard-eq-ok (is_pending b.status) (bad_request already_decided) _ e2 in
      let targets = keep (λ u. not (settled w b t.votes u)) (recipients b b.current_stage) in
      let (g4, e4) = guard-eq-ok (not (is_nil targets)) (bad_request all_responded) _ e3 in
      let chro = ask-chro w id b.id b.current_stage targets t.votes in
      let signed = ask-yes w id b.id b.current_stage targets t.votes in
      let asked = ask-board w id b.id b.current_stage targets t.votes in
      let here : implies (b.id == id && not (is_chro b.current_stage)) (any (past_chro id) t.sheets)
          ≡ true =
        past_found b (or_throw-some _ _ found) in
      subst (IsSigned id) (ok_eq _ t' e4) (
        keeps w id t _
          (ap (implies (any (chro_yes id) t.votes)) chro ∙ self (any (chro_yes id) t.votes))
          (ap (implies (any (board_yes id) t.votes)) signed ∙ self (any (board_yes id) t.votes))
          (ground (arith, chro, asked, here, v.moved)) (self_or (any (past_chro id) t.sheets) _)
          (self_or (any (is_cleared id) t.sheets) _) v)
    where
      past_found :
          (b : Sheet)
          → find (λ (x : Sheet). x.id == sheet) t.sheets ≡ some b
          → implies (past_chro id b) (any (past_chro id) t.sheets) ≡ true
      past_found b found = elim (Bool-cases (past_chro id b)) [
        | inl e ↦ rw (e, find-any _ (past_chro id) t.sheets found e) refl
        | inr e ↦ rw e refl
      ]

  pub update_sheet_row-IsSigned :
      (approval user : ℕ) (patch : RowPatch) (t : Tables) {t' : Tables}
      → update_sheet_row w approval user patch t ≡ ok t'
      → IsSigned id t
      → IsSigned id t'
  unfolding update_sheet_row
  update_sheet_row-IsSigned approval user patch t {t' = t'} e v =
      let (g1, e1) = guard-eq-ok (w.may_manage user) (forbidden not_allowed) _ e in
      let (a, found, e2) =
        >>=-eq-ok {A = Approval}
          (or_throw (find (λ (x : Approval). x.id == approval) t.approvals)
            (not_found approval_missing))
          _ e1 in
      let (g3, e3) = guard-eq-ok (not (is_some a.batch_id)) (bad_request already_on_sheet) _ e2 in
      subst (IsSigned id) (ok_eq _ t' e3)
        (record { asked = v.asked; moved = v.moved; signed = v.signed })
