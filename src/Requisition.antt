-- ===== src/Requisition.antt =====
-- The requisition service (src/modules/requisition): its data, handlers, and what holds of them.
pub mod Model
pub mod Steps
pub mod Access
pub mod Profile
pub mod Decision
pub mod Return
pub mod JobAnalysis
pub mod Recruitment
pub mod Board
pub mod Invariant
pub mod Approval
pub mod Finality
pub mod Votes
pub mod Stages
pub mod Code
pub mod Intake
pub mod Create
pub mod Samples
mod Tests
mod BoardTests
mod IntakeTests
pub mod Race
pub mod Lifecycle
