-- ===== src/Tests.antt =====
-- Runs of the definitions at concrete inputs, and the theorems applied there.
mod DeferredInput
mod WordHeuristics
mod Corrections
mod SyntheticInput
mod GuardianInput
mod Settings
mod Configuration
mod Layouts
mod SessionActivity
mod WriterTransactions
