-- ===== src/Sheets/Runs.antt =====
-- Sheets through any run of their handlers (src/modules/board/board.service.ts).
use hrm_backend.Prelude.{ℕ, String, ◌≡◌, refl, true, Option, List, [], any, arith, ok}
use hrm_backend.Sheets.{Tables, World}
use hrm_backend.Sheets.Handlers.{
  RowPatch, Decision, update_sheet_row, send_sheet, resend_sheet, submit_sheet_vote,
}
use hrm_backend.Sheets.Signed.{board_yes, chro_yes, is_cleared, IsSigned}
use hrm_backend.Sheets.Steps.{
  send_sheet-IsSigned, resend_sheet-IsSigned, update_sheet_row-IsSigned, submit-IsSigned,
}

-- The tables that calls may leave, each in its own permissions and at its own time, from none of
-- them on.
pub data Run : Tables → Type 0 where
  begins : (t : Tables) → t.sheets ≡ [] → t.votes ≡ [] → Run t
  sends :
      {t : Tables} (w : World) (id : ℕ) (reference : String) (ids : List ℕ) (chro : ℕ)
      (members : List ℕ) (user : ℕ)
      → Run t
      → Run (send_sheet w id reference ids chro members user t).0
  resends :
      {t t' : Tables} (w : World) (sheet user : ℕ)
      → Run t
      → resend_sheet w sheet user t ≡ ok t'
      → Run t'
  edits :
      {t t' : Tables} (w : World) (approval user : ℕ) (patch : RowPatch)
      → Run t
      → update_sheet_row w approval user patch t ≡ ok t'
      → Run t'
  answers :
      {t : Tables} (w : World) (token : ℕ) (notes : Option String) (decision : Decision)
      → Run t
      → Run (submit_sheet_vote w token notes decision t).0

empty-IsSigned : (id : ℕ) (t : Tables) → t.sheets ≡ [] → t.votes ≡ [] → IsSigned id t
empty-IsSigned id t sheets votes = record {
  asked = rw (votes) refl;
  moved = rw (sheets) refl;
  signed = rw (sheets) refl;
}

run-IsSigned : (id : ℕ) {t : Tables} → Run t → IsSigned id t
run-IsSigned id (begins t sheets votes) = empty-IsSigned id t sheets votes
run-IsSigned id (sends {t = t} w new reference ids chro members user run) =
    send_sheet-IsSigned w id new reference ids chro members user t (run-IsSigned id run)
run-IsSigned id (resends {t = t} w sheet user run done) =
    resend_sheet-IsSigned w id sheet user t done (run-IsSigned id run)
run-IsSigned id (edits {t = t} w approval user patch run done) =
    update_sheet_row-IsSigned w id approval user patch t done (run-IsSigned id run)
run-IsSigned id (answers {t = t} w token notes decision run) =
    submit-IsSigned w id token notes decision t (run-IsSigned id run)

-- Whatever sheets are sent, sent again, corrected and answered, in whatever order: a sheet that is
-- approved carries an approval of the CHRO's stage and one of the board's.
pub approved_sheet_signed :
    (id : ℕ) {t : Tables}
    → Run t
    → any (is_cleared id) t.sheets ≡ true
    → (any (chro_yes id) t.votes ≡ true) × (any (board_yes id) t.votes ≡ true)
approved_sheet_signed id run cleared =
    let v = run-IsSigned id run in (ground (arith, v.signed), ground (arith, v.signed))
