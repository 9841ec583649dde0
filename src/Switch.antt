-- ===== src/Switch.antt =====
-- src/daemon/switch_logic.rs: whether a word was typed in the wrong layout or with the wrong case,
-- and the keystrokes that correct it.
pub mod Keymap
pub mod Cases
pub mod Split
pub mod Plans
pub mod Words
pub mod Texts
pub mod Heuristics
pub mod SplitLaws
pub mod CaseLaws
pub mod Mistakes
pub mod ReplayLaws
pub mod PlanLaws
pub mod CasePlanLaws
pub mod TextLaws
pub mod DirectionLaws
pub mod AnyCase
pub mod CapsRetyping
