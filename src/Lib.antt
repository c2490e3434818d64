-- ===== src/Lib.antt =====
-- The approval of manpower requisitions in the HRM backend (a NestJS service over a database), with the
-- roles, leaves and cache it rests on, the board's sign-off of candidates and their medical.
--
-- A raiser states a vacancy (`create`). The unit's Factory HR writes the job analysis and releases the
-- requisition to the chain of approvers that was configured for the raiser; the approvers decide one
-- after the other, the last of them may escalate to the CHRO, and the CHRO to the board, whose members
-- vote by e-mail. An approved requisition gets a role profile, CV sources and a recruiter, and is
-- posted.
--
-- The files and the code they model, with paths from the repository's root:
--   Requisition/Model, Steps: the row with its steps, activity log and votes (prisma/schema.prisma),
--     and the queries on the steps: `first_pending` is the code's findIndex, `claim_count` and
--     `update_step` the conditional and the plain updates, `create_step` the insert under the unique
--     order index;
--   Requisition/Access: what the service asks of the permissions service, an interface with the laws
--     that the code relies on, and the gates (load, canActOnStep, requireEditAccess,
--     requireCurrentApprover, requireAttachmentAccess);
--   Requisition/Decision, Return: act, finishDecision and the notifications; resubmit and the job
--     analysis' return and resend;
--   Requisition/JobAnalysis, Recruitment, Profile: saveJobAnalysis, generateRoleProfile,
--     updateRoleProfile, post, setCvSources, assignRecruiter (src/modules/requisition/
--     requisition.service.ts, cv-sources.ts, requisition.workflow.ts);
--   Requisition/Board: sendToBoard and vote (requisition-board.service.ts);
--   Requisition/Lifecycle: the controller's routes as one data type of requests (`handle`);
--   Requisition/Intake, Code, Create: requisition-inputs.ts, requisition-code.ts, nextCode,
--     withFreshCode and create;
--   ApprovalPaths, UnitName: src/modules/approval-paths/approval-paths.service.ts and
--     src/common/util/normalize-unit.ts;
--   Rbac: roles, assignments, leaves and units as the permissions service reads them;
--     Rbac/Permissions and Holders its questions, Rbac/Grants the record of answers that
--     Requisition/Access asks for and the filter of the requisition list (requisitionVisibility),
--     Rbac/Layering and Removal the writes of assignments (src/modules/rbac/permissions.service.ts,
--     rbac.service.ts, layering.ts);
--   Leave: src/modules/leave/leave.service.ts and leave-dates.ts;
--   Sheets: the Hiring Approval Sheets of src/modules/board/board.service.ts, with the step relation
--     of their handlers (Sheets/Runs), and the request of one candidate outside a sheet
--     (Sheets/Single: sendForApproval, hrApprove, openStage, submitVote);
--   Delegation: src/modules/assessment/delegation-progress.ts;
--   Cache: src/common/cache/memory-cache.service.ts, with its contract (Cache/Refines);
--   Medical: the medical step of onboarding, src/modules/onboarding/medical-approval.ts and setMedical,
--     decideMedical and decideOne of onboarding.service.ts.
-- The proofs stand in the child modules and in Requisition/Invariant, Race, Approval, Finality, Votes
-- and Stages; runs and sample data in Requisition/Samples and the modules named Tests.
--
-- A handler is a function from the permissions at one instant, the row and the request to a refusal or
-- the new row with the effects it sends out (live updates, notifications). A handler that checks first
-- and then writes in a transaction is split there (`act_check` and `act_commit`), so that two requests
-- may interleave between the two. Refusals carry the kind of the exception and a reason in place of
-- its wording. Setting a leave and answering a sheet write before they have checked everything, in no
-- transaction, so they return the tables beside the refusal. JavaScript's texts are native strings
-- whose characters are UTF-16 units; toLowerCase, date parsing, the language model, the organogram's
-- look-up, and the ids, codes, tokens and hashes that are made outside are parameters. The days of a
-- leave are those of the server's zone, which is taken to keep its offset (Leave/Dates). `decimal`
-- prints with n + 1 rounds, more than n has digits; `with_fresh_code` makes five attempts as the code
-- does. Numbers are unbounded: a sequence beyond 2^53 is outside the model.
--
-- Not modelled: the edits of a requisition's text and facilities with their log, attachments, deletion,
-- statistics, serialization, e-mails, the roles' own table, what the services keep in the cache (an
-- answer is read from the rows), what a leave would hand over, the interleaving of two requests on
-- leaves (Leave/Tests shows one), a server's zone that changes its offset, the board groups, and the
-- other modules of the service (candidates, the rest of assessment, salary fixation, the rest of
-- onboarding, auth, integrations and the rest).
pub mod Prelude
pub mod Decimal
pub mod Requisition
pub mod UnitName
pub mod Rbac
pub mod Leave
pub mod Sheets
pub mod ApprovalPaths
pub mod Delegation
pub mod Cache
pub mod Medical
