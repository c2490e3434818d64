-- ===== src/Sheets/Signed.antt =====
-- What signatures stand behind a sheet that is approved (src/modules/board/board.service.ts).
use hrm_backend.Prelude.{
  ℕ, ◌≡◌, refl, ap, ◌∙◌, subst, Bool, true, false, ◌&&◌, ◌||◌, not, some, List, [], ◌∷◌, map, keep,
  any, find, ◌==◌, if◌then◌else◌, arith, Bool-cases, inl, inr, any-append,
}
use hrm_backend.Sheets.{
  Stage, Status, Sheet, Vote, Tables, User, World, is_pending, is_approved, is_chro, same_stage,
}
use hrm_backend.Sheets.Handlers.{is_stale, mailed, to_mail, new_votes, ask}

-- A vote of the sheet beyond the CHRO: a sheet knows two stages, the CHRO's and the board's.
abbrev pub board_vote : ℕ → Vote → Bool
board_vote id v = v.batch_id == id && not (is_chro v.stage)

abbrev pub board_yes : ℕ → Vote → Bool
board_yes id v = board_vote id v && is_approved v.status

abbrev pub chro_yes : ℕ → Vote → Bool
chro_yes id v = v.batch_id == id && is_chro v.stage && is_approved v.status

abbrev pub past_chro : ℕ → Sheet → Bool
past_chro id b = b.id == id && not (is_chro b.current_stage)

abbrev pub is_cleared : ℕ → Sheet → Bool
is_cleared id b = b.id == id && is_approved b.status

abbrev pub implies : Bool → Bool → Bool
implies a b = not a || b

-- The board is asked after the CHRO has signed, and a sheet is approved after both.
pub record IsSigned (id : ℕ) (t : Tables) : Type 0 where
  pub asked : implies (any (board_vote id) t.votes) (any (chro_yes id) t.votes) ≡ true
  pub moved : implies (any (past_chro id) t.sheets) (any (chro_yes id) t.votes) ≡ true
  pub signed :
      implies
        (any (is_cleared id) t.sheets)
        (any (chro_yes id) t.votes && any (board_yes id) t.votes)
      ≡ true

option_eq {ℓ} : {A : Type ℓ} (a b : A) → some a ≡ some b → a ≡ b
option_eq a b e = cc

module _ {ℓ} {A : Type ℓ} where
  pub any_mono :
      (p q : A → Bool) (f : A → A) (xs : List A)
      → ((x : A) → implies (p x) (q (f x)) ≡ true)
      → implies (any p xs) (any q (map f xs)) ≡ true
  any_mono p q f [] h = refl
  any_mono p q f (x ∷ xs) h = ground (arith, h x, any_mono p q f xs h)

  pub any_kept :
      (p q : A → Bool) (xs : List A)
      → ((x : A) → implies (p x) (q x) ≡ true)
      → any p (keep q xs) ≡ any p xs
  any_kept p q [] h = refl
  any_kept p q (x ∷ xs) h = ground (arith, h x, any_kept p q xs h)

  pub any_fewer : (p q : A → Bool) (xs : List A) → implies (any p (keep q xs)) (any p xs) ≡ true
  any_fewer p q [] = refl
  any_fewer p q (x ∷ xs) = ground (arith, any_fewer p q xs)

  pub find-any :
      (p q : A → Bool) (xs : List A) {x : A} → find p xs ≡ some x → q x ≡ true → any q xs ≡ true
  find-any p q [] e h = cc
  find-any p q (y ∷ ys) {x = x} e h = elim (Bool-cases (p y)) [
    | inl f ↦
        let same : y ≡ x =
          option_eq y x (subst (λ b. (if b then some y else find p ys) ≡ some x) f e) in
        rw (ap q same ∙ h) refl
    | inr f ↦
        let rest =
          find-any p q ys (subst (λ b. (if b then some y else find p ys) ≡ some x) f e) h in
        ground (arith, rest)
  ]

module _ (id : ℕ) where
  status-not_both : (s : Status) (b : Bool) → (is_approved s && (b && is_pending s)) ≡ false
  status-not_both Status.pending b = refl
  status-not_both Status.approved b = ground arith
  status-not_both Status.rejected b = refl

  chro-kept :
      (sheet : ℕ) (stage : Stage) (v : Vote)
      → implies (chro_yes id v) (not (is_stale sheet stage v)) ≡ true
  chro-kept sheet stage v =
      ground (arith, status-not_both v.status (v.batch_id == sheet && same_stage v.stage stage))

  board-kept :
      (sheet : ℕ) (stage : Stage) (v : Vote)
      → implies (board_yes id v) (not (is_stale sheet stage v)) ≡ true
  board-kept sheet stage v =
      ground (arith, status-not_both v.status (v.batch_id == sheet && same_stage v.stage stage))

module _ (w : World) (id : ℕ) where
  -- Asking again touches no signature, and puts nobody before the CHRO.
  new_votes-chro :
      (sheet : ℕ) (stage : Stage) (us : List User)
      → any (chro_yes id) (map (mailed w sheet stage) us) ≡ false
  new_votes-chro sheet stage [] = refl
  new_votes-chro sheet stage (u ∷ us) = ground (arith, new_votes-chro sheet stage us)

  new_votes-board :
      (sheet : ℕ) (stage : Stage) (us : List User)
      → implies
          (any (board_vote id) (map (mailed w sheet stage) us))
          (sheet == id && not (is_chro stage))
        ≡ true
  new_votes-board sheet stage [] = refl
  new_votes-board sheet stage (u ∷ us) = ground (arith, new_votes-board sheet stage us)

  new_votes-yes :
      (sheet : ℕ) (stage : Stage) (us : List User)
      → any (board_yes id) (map (mailed w sheet stage) us) ≡ false
  new_votes-yes sheet stage [] = refl
  new_votes-yes sheet stage (u ∷ us) = ground (arith, new_votes-yes sheet stage us)

  pub ask-chro :
      (sheet : ℕ) (stage : Stage) (ids : List ℕ) (votes : List Vote)
      → any (chro_yes id) (ask w sheet stage ids votes) ≡ any (chro_yes id) votes
  unfolding ask
  ask-chro sheet stage ids votes =
      let left = keep (λ v. not (is_stale sheet stage v)) votes in
      let kept : any (chro_yes id) left ≡ any (chro_yes id) votes =
        any_kept (chro_yes id) (λ v. not (is_stale sheet stage v)) votes
          (λ v. chro-kept id sheet stage v) in
      any-append (chro_yes id) left (new_votes w sheet stage ids)
      ∙ ground (arith, kept, new_votes-chro sheet stage (to_mail w ids))

  pub ask-yes :
      (sheet : ℕ) (stage : Stage) (ids : List ℕ) (votes : List Vote)
      → any (board_yes id) (ask w sheet stage ids votes) ≡ any (board_yes id) votes
  unfolding ask
  ask-yes sheet stage ids votes =
      let left = keep (λ v. not (is_stale sheet stage v)) votes in
      let kept : any (board_yes id) left ≡ any (board_yes id) votes =
        any_kept (board_yes id) (λ v. not (is_stale sheet stage v)) votes
          (λ v. board-kept id sheet stage v) in
      any-append (board_yes id) left (new_votes w sheet stage ids)
      ∙ ground (arith, kept, new_votes-yes sheet stage (to_mail w ids))

  pub ask-board :
      (sheet : ℕ) (stage : Stage) (ids : List ℕ) (votes : List Vote)
      → implies
          (any (board_vote id) (ask w sheet stage ids votes))
          (any (board_vote id) votes || (sheet == id && not (is_chro stage)))
        ≡ true
  unfolding ask
  ask-board sheet stage ids votes =
      let left = keep (λ v. not (is_stale sheet stage v)) votes in
      let total = any-append (board_vote id) left (new_votes w sheet stage ids) in
      ground (
        arith,
        total,
        any_fewer (board_vote id) (λ v. not (is_stale sheet stage v)) votes,
        new_votes-board sheet stage (to_mail w ids),
      )

  -- What a step must not lose, for the signatures to stand after it.
  pub keeps :
      (t t' : Tables)
      → implies (any (chro_yes id) t.votes) (any (chro_yes id) t'.votes) ≡ true
      → implies (any (board_yes id) t.votes) (any (board_yes id) t'.votes) ≡ true
      → implies
          (any (board_vote id) t'.votes)
          (any (board_vote id) t.votes || any (chro_yes id) t'.votes)
        ≡ true
      → implies
          (any (past_chro id) t'.sheets)
          (any (past_chro id) t.sheets || any (chro_yes id) t'.votes)
        ≡ true
      → implies (any (is_cleared id) t'.sheets) (
          any (is_cleared id) t.sheets
          || (any (chro_yes id) t'.votes && any (board_yes id) t'.votes))
        ≡ true
      → IsSigned id t
      → IsSigned id t'
  keeps t t' chro yes_ asked moved cleared_ v = record {
    asked = ground (arith, chro, asked, v.asked);
    moved = ground (arith, chro, moved, v.moved);
    signed = ground (arith, chro, yes_, cleared_, v.signed);
  }
