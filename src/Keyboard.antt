-- ===== src/Keyboard.antt =====
-- src/daemon/keyboard.rs: the transactions of the thread that types.
pub mod Control
pub mod History
pub mod Replies
pub mod Closing
pub mod Sleep
pub mod Endings
pub mod Modifiers
pub mod ModifierLaws
pub mod Completions
pub mod CompletionLaws
