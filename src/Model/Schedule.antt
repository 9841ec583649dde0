-- ===== src/Model/Schedule.antt =====
-- src/model.rs, `estimated_correction_schedule_ms`: an estimate in milliseconds, in checked `u64`
-- arithmetic. A `usize` has at most 64 bits, so its conversion to `u64` succeeds.
use open_switcher.Prelude.{ℕ, Bool, Option, none, some, if◌then◌else◌, checked_add, checked_mul}

-- The operator `?`.
infixl 5 ◌>>=◌
abbrev pub ◌>>=◌ : {A B : Type 0} → Option A → (A → Option B) → Option B
o >>= f = elim o [ none ↦ none | some a ↦ f a ]

abbrev pub correction_modifier_sync_ms : ℕ
correction_modifier_sync_ms = 20

abbrev pub correction_key_tap_ms : ℕ
correction_key_tap_ms = 2

abbrev pub correction_shift_settle_ms : ℕ
correction_shift_settle_ms = 1

unfoldable pub estimated_correction_schedule_ms : ℕ → ℕ → ℕ → ℕ → ℕ → Bool → Option ℕ
unfolding checked_add checked_mul
estimated_correction_schedule_ms strokes extra layout_delay_ms backspace_ms typing_ms
      switch_layout =
    do
      backspaces ← checked_add strokes extra
      per_backspace ← checked_add correction_key_tap_ms backspace_ms
      backspace_work ← checked_mul backspaces per_backspace
      settled ← checked_add correction_key_tap_ms correction_shift_settle_ms
      per_stroke ← checked_add settled typing_ms
      typing_work ← checked_mul strokes per_stroke
      layout_work ← if switch_layout then checked_mul layout_delay_ms 2 else some 0
      synced ← checked_add correction_modifier_sync_ms backspace_work
      worked ← checked_add synced typing_work
      checked_add worked layout_work
