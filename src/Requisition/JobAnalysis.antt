-- ===== src/Requisition/JobAnalysis.antt =====
-- Writing the job analysis, as a draft or released to the approval chain (`saveJobAnalysis`).
use text.Mathlib.Text.{starts_with}
use hrm_backend.Prelude.{
  String, Bool, true, false, ◌&&◌, ◌||◌, not, Option, none, some, List, [], ◌∷◌, ◌++◌, find, ltb,
  ◌==◌, if◌then◌else◌, nonempty, trim, text_length, or_else, or_null, ◌===◌, ◌+++◌, ok, guard,
  ◌>>=◌, ◌>>◌, bad_request,
}
use mathlib.Core.List.{reverse}
use hrm_backend.Requisition.Model.{
  Status, LogAction, Requisition, Actor, Reply, Effect, broadcast, notify,
  not_awaiting_job_analysis, job_analysis_incomplete,
}
use hrm_backend.Requisition.Steps.{add_activity}
use hrm_backend.Requisition.Access.{Access, load, is_pending_job_analysis}
use hrm_backend.Requisition.Decision.{notify_pending_approver}
use hrm_backend.Requisition.Return.{require_job_analysis_access}

-- JobAnalysisDto; a field left out is none.
pub record JobAnalysis : Type 0 where
  pub job_description : Option String
  pub education : Option String
  pub experience : Option String
  pub others : Option String
  pub submit : Option Bool

-- Whoever carried the job analysis last, if that was somebody else.
unfoldable pub continuing : Requisition → String → String
continuing r name = elim (find (λ e. starts_with e.note "Job analysis") (reverse r.activities)) [
  | none ↦ ""
  | some e ↦ if e.actor === name then "" else " (continuing from " +++ e.actor +++ ")"
]

-- Section B after the edit, trimmed; a blank `others` is cleared.
unfoldable pub written : Requisition → JobAnalysis → Requisition
written r dto = record r {
  job_description = trim (or_else dto.job_description r.job_description);
  education = trim (or_else dto.education r.education);
  experience = trim (or_else dto.experience r.experience);
  others = or_null (trim (or_else dto.others (or_else r.others "")));
}

is_changed : Requisition → Requisition → Bool
is_changed r w =
    not (w.job_description === trim r.job_description)
    || not (w.education === trim r.education)
    || not (w.experience === trim r.experience)
    || not (or_else w.others "" === trim (or_else r.others ""))

unfoldable pub is_complete : Requisition → Bool
is_complete w =
    not (ltb (text_length w.job_description) 5) && nonempty w.education && nonempty w.experience

abbrev log_edit : Actor → String → Requisition → Requisition
log_edit actor note =
    add_activity (record { actor = actor.name; action = LogAction.edited; note = note })

draft_saved : Actor → Requisition → Requisition → Requisition
unfolding is_changed continuing
draft_saved actor r w =
    if is_changed r w
    then log_edit actor ("Job analysis draft saved" +++ continuing r actor.name) w
    else w

unfoldable pub released : Access → Actor → Requisition → Requisition → Requisition
unfolding continuing
released a actor r w =
    log_edit actor
      ("Job analysis completed — sent to the approval chain" +++ continuing r actor.name)
      (record w {
        status = Status.pending_approval;
        job_analysis_by_id = some actor.id;
        job_analysis_at = some a.now;
        job_analysis_returned_at = none;
        job_analysis_return_note = none;
      })

abbrev notify_other_raiser : Requisition → Actor → List Effect
notify_other_raiser r actor = elim r.raised_by_id [
  | none ↦ []
  | some u ↦ elim (u == actor.id) [ true ↦ [] | false ↦ notify (u ∷ []) "requisition_info" ∷ [] ]
]

unfoldable pub save_job_analysis : Access → Requisition → JobAnalysis → Actor → Reply
unfolding written is_complete draft_saved released
save_job_analysis a row dto actor = do
  r ← load a (some row) (some actor.id)
  guard (is_pending_job_analysis r.status) (bad_request not_awaiting_job_analysis)
  require_job_analysis_access a r actor.id
  let w = written r dto
  if or_else dto.submit true
      then (do
        guard (is_complete w) (bad_request job_analysis_incomplete)
        let updated = released a actor r w
        ok (
          updated,
          broadcast "job_analysis_completed"
              ∷ (notify_pending_approver a updated ++ notify_other_raiser updated actor),
        ))
      else ok (draft_saved actor r w, broadcast "updated" ∷ [])
