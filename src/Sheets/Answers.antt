-- ===== src/Sheets/Answers.antt =====
-- One link of a sheet, answered once and again (src/modules/board/board.service.ts).
use hrm_backend.Prelude.{
  ℕ, String, ◌≡◌, refl, ◌∙◌, Bool, false, ◌&&◌, not, Option, List, [], ◌∷◌, map, keep, any, find,
  ◌==◌, arith, ok, is_nil, Bool-cases, Option-cases, inl, inr, any-map, any-append,
}
use hrm_backend.Sheets.{Stage, Sheet, Vote, Tables, User, World, is_pending, is_chro}
use hrm_backend.Sheets.Handlers.{
  Decision, VoteReply, answered, status_of, is_stale, mailed, to_mail, new_votes, ask, recipients,
  open_sheet_stage, settle_vote, commit_sheet_vote,
}
use hrm_backend.Sheets.Signed.{any_fewer}

abbrev is_open : ℕ → Vote → Bool
is_open key v = v.id == key && is_pending v.status

any-none {ℓ} :
    {A : Type ℓ} (p : A → Bool) (xs : List A) → ((x : A) → p x ≡ false) → any p xs ≡ false
any-none p [] h = refl
any-none p (x ∷ xs) h = ground (arith, h x, any-none p xs h)

settled_now : (d : Decision) → is_pending (status_of d) ≡ false
settled_now Decision.approve = refl
settled_now Decision.reject = refl

module _ (w : World) (key : ℕ) where
  answered-open :
      (decision : Decision) (notes : Option String) (v : Vote)
      → is_open key (answered w key decision notes v) ≡ false
  answered-open decision notes v = elim (Bool-cases (v.id == key && is_pending v.status)) [
    | inl e ↦ rw e (ground (arith, settled_now decision))
    | inr e ↦ rw e e
  ]

  claimed-open :
      (decision : Decision) (notes : Option String) (votes : List Vote)
      → any (is_open key) (map (answered w key decision notes) votes) ≡ false
  claimed-open decision notes votes =
      any-map (is_open key) (answered w key decision notes) votes
      ∙ any-none _ votes (answered-open decision notes)

  new_votes-open :
      (sheet : ℕ) (stage : Stage) (us : List User)
      → ((u : ℕ) → ((w.issue u).0 == key) ≡ false)
      → any (is_open key) (map (mailed w sheet stage) us) ≡ false
  new_votes-open sheet stage [] fresh = refl
  new_votes-open sheet stage (u ∷ us) fresh =
      ground (arith, fresh u.id, new_votes-open sheet stage us fresh)

  ask-open :
      (sheet : ℕ) (stage : Stage) (ids : List ℕ) (votes : List Vote)
      → ((u : ℕ) → ((w.issue u).0 == key) ≡ false)
      → any (is_open key) votes ≡ false
      → any (is_open key) (ask w sheet stage ids votes) ≡ false
  unfolding ask
  ask-open sheet stage ids votes fresh closed =
      let left = keep (λ v. not (is_stale sheet stage v)) votes in
      any-append (is_open key) left (new_votes w sheet stage ids)
      ∙ ground (
        arith,
        any_fewer (is_open key) (λ v. not (is_stale sheet stage v)) votes,
        new_votes-open sheet stage (to_mail w ids) fresh,
      )

  open_sheet_stage-open :
      (sheet : ℕ) (stage : Stage) (t : Tables)
      → ((u : ℕ) → ((w.issue u).0 == key) ≡ false)
      → any (is_open key) t.votes ≡ false
      → any (is_open key) (open_sheet_stage w sheet stage t).0.votes ≡ false
  unfolding open_sheet_stage
  open_sheet_stage-open sheet stage t fresh closed =
      elim (Option-cases (find (λ (b : Sheet). b.id == sheet) t.sheets)) [
        | inl e ↦ rw (open_sheet_stage, e) closed
        | inr (b, e) ↦ elim (Bool-cases (is_nil (recipients b stage))) [
          | inl f ↦ rw (open_sheet_stage, e, f) closed
          | inr f ↦
              rw (open_sheet_stage, e, f)
                (ask-open sheet stage (recipients b stage) t.votes fresh closed)
        ]
      ]

module _ (w : World) (v : Vote) (fresh : (u : ℕ) → ((w.issue u).0 == v.id) ≡ false) where
  settle_vote-open :
      (decision : Decision) (notes : Option String) (t : Tables)
      → any (is_open v.id) t.votes ≡ false
      → any (is_open v.id) (settle_vote w v decision notes t).0.votes ≡ false
  unfolding settle_vote
  settle_vote-open Decision.reject notes t closed = closed
  settle_vote-open Decision.approve notes t closed = elim (Bool-cases (is_chro v.stage)) [
    | inl e ↦
        rw (settle_vote, e) (open_sheet_stage-open w v.id v.batch_id Stage.board t fresh closed)
    | inr e ↦ rw (settle_vote, e) closed
  ]

  commit-open :
      (decision : Decision) (notes : Option String) (t : Tables)
      → any (is_open v.id) (commit_sheet_vote w v decision notes t).0.votes ≡ false
  unfolding commit_sheet_vote
  commit-open decision notes t = elim (Bool-cases (any (is_open v.id) t.votes)) [
    | inl e ↦
        rw (commit_sheet_vote, e)
          (settle_vote-open decision notes _ (claimed-open w v.id decision notes t.votes))
    | inr e ↦ rw (commit_sheet_vote, e) e
  ]

  -- Of two submissions of one link that both read it as open, the second changes nothing and is told
  -- that the vote was cast; new votes get ids of their own.
  pub one_answer :
      (w' : World) (first second : Decision) (notes notes' : Option String) (t : Tables)
      → commit_sheet_vote w' v second notes' (commit_sheet_vote w v first notes t).0
        ≡ ((commit_sheet_vote w v first notes t).0, ok VoteReply.already_voted)
  unfolding commit_sheet_vote
  one_answer w' first second notes notes' t =
      once w' second notes' (commit_sheet_vote w v first notes t).0 (commit-open first notes t)
    where
      once :
          (w' : World) (second : Decision) (notes' : Option String) (t : Tables)
          → any (is_open v.id) t.votes ≡ false
          → commit_sheet_vote w' v second notes' t ≡ (t, ok VoteReply.already_voted)
      once w' second notes' t closed = rw (commit_sheet_vote, closed) refl
