-- ===== src/Layout.antt =====
-- src/layout_backend: the layouts of the system, how a setup is detected from their codes, which of its
-- layouts is the current one, and which features a setup allows.
pub mod Layouts
pub mod Detection
pub mod Policy
pub mod DetectionLaws
pub mod CurrentLaws
pub mod Sources
pub mod Snapshots
pub mod SnapshotLaws
