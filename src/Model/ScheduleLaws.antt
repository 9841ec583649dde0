-- ===== src/Model/ScheduleLaws.antt =====
-- The estimate against the exact sum.
use open_switcher.Prelude.{
  ℕ, zero, suc, ◌+◌, ◌*◌, ◌≤◌, ◌<◌, ◌≡◌, Bool, true, false, none, some, arith, leb, if◌then◌else◌,
  checked_add, checked_mul, u64_max,
}
use open_switcher.Model.Schedule.{estimated_correction_schedule_ms}

-- The exact estimate, without a bound.
abbrev pub exact_ms : ℕ → ℕ → ℕ → ℕ → ℕ → Bool → ℕ
exact_ms strokes extra layout_delay_ms backspace_ms typing_ms switch_layout =
    20
    + (strokes + extra) * (2 + backspace_ms)
    + strokes * (3 + typing_ms)
    + (if switch_layout then layout_delay_ms * 2 else 0)

factor_le : (a b : ℕ) → 0 < a → b ≤ a * b
factor_le zero b h = absurd (omega arith)
factor_le (suc a) b h = omega arith

factor_le_left : (a b : ℕ) → 0 < b → a ≤ a * b
factor_le_left zero b h = omega arith
factor_le_left (suc a) b h = omega (arith, factor_le_left a b h)

-- For at least one stroke, the estimate is the exact sum when that fits 64 bits, and nothing when it
-- does not: no step on the way overflows alone.
pub estimated-exact_ms :
    (strokes extra layout_delay_ms backspace_ms typing_ms : ℕ) (switch_layout : Bool)
    → 0 < strokes
    → let exact = exact_ms strokes extra layout_delay_ms backspace_ms typing_ms switch_layout in
      estimated_correction_schedule_ms strokes extra layout_delay_ms backspace_ms typing_ms
        switch_layout
      ≡ (if leb exact u64_max then some exact else none)
unfolding estimated_correction_schedule_ms checked_add checked_mul
estimated-exact_ms s e l b t true h = ground (
  arith,
  factor_le (s + e) (2 + b) (omega arith),
  factor_le_left (s + e) (2 + b) (omega arith),
  factor_le s (3 + t) h,
)
estimated-exact_ms s e l b t false h = ground (
  arith,
  factor_le (s + e) (2 + b) (omega arith),
  factor_le_left (s + e) (2 + b) (omega arith),
  factor_le s (3 + t) h,
)
