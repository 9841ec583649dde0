-- ===== src/Synthetic.antt =====
-- src/daemon/synthetic_input.rs: the keys that the daemon presses itself, and the promise that each
-- of them comes up again.
pub mod Errors
pub mod KeyLedger
pub mod KeyLedgerLaws
pub mod LedgerCases
pub mod Coverage
pub mod CoverageSteps
pub mod CoverageOperation
pub mod SessionCases
pub mod CoverageRestore
pub mod CoverageFinish
pub mod CoverageDrain
pub mod Release
pub mod Settling
pub mod ReleaseOrder
pub mod Outcome
pub mod Modifiers
pub mod SessionLedger
pub mod Operation
pub mod Finish
