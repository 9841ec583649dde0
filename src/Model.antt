-- ===== src/Model.antt =====
-- src/model.rs: the hotkeys, the settings and their patches, and the estimate of a correction's time.
pub mod Names
pub mod Hotkeys
pub mod HotkeyLaws
pub mod Combos
pub mod ComboLaws
pub mod Schedule
pub mod ScheduleLaws
pub mod Settings
pub mod Patches
pub mod PatchLaws
pub mod PatchBits
pub mod Validation
pub mod PatchOrder
