-- ===== src/Prelude/Machine.antt =====
-- The machine integers of the source: `u64` arithmetic that saturates or is checked.
use Prim.Native.Nat.{ℕ, ◌+◌, ◌*◌, min}
use mathlib.Core.Option.{Option, none, some}
use open_switcher.Prelude.Tests.{leb, if◌then◌else◌, Bool-cases}
use mathlib.Core.Path.{◌≡◌, refl}
use mathlib.Core.Logic.{◌⊎◌, inl, inr}

-- `u64::MAX`.
abbrev pub u64_max : ℕ
u64_max = 18446744073709551615

-- `saturating_add`, at any width's greatest value.
abbrev pub saturating_add : ℕ → ℕ → ℕ → ℕ
saturating_add top a b = min (a + b) top

-- `checked_add` and `checked_mul` of `u64`.
unfoldable pub checked_add : ℕ → ℕ → Option ℕ
checked_add a b = if leb (a + b) u64_max then some (a + b) else none

unfoldable pub checked_mul : ℕ → ℕ → Option ℕ
checked_mul a b = if leb (a * b) u64_max then some (a * b) else none

pub checked_add-cases : (a b : ℕ) → (checked_add a b ≡ none) ⊎ (checked_add a b ≡ some (a + b))
unfolding checked_add
checked_add-cases a b = elim (Bool-cases (leb (a + b) u64_max)) [
  | inl e ↦ inr (rw (checked_add, e) refl)
  | inr e ↦ inl (rw (checked_add, e) refl)
]
