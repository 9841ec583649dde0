-- ===== src/Config/Budget.antt =====
-- The time that a valid configuration leaves for a correction.
use open_switcher.Prelude.{
  ℕ, ap, ◌∙◌, ◌+◌, ◌≤◌, ◌<◌, ◌≡◌, refl, Bool, true, false, Option, none, some, arith, leb, Result,
  ok, err, u64_max, if◌then◌else◌,
}
use native.Mathlib.Nat.{mul-le-mul_right}
use open_switcher.Model.Schedule.{estimated_correction_schedule_ms}
use open_switcher.Model.ScheduleLaws.{exact_ms, estimated-exact_ms}
use open_switcher.Model.Settings
use open_switcher.Config.{
  AppConfig, settings, validate, check_delays, check_schedule, or_max, ◌>>=◌, delay_fields,
  longest_schedule,
}

check_schedule-within :
    (exact : ℕ) (o : Option ℕ) (u : Unit {0})
    → o ≡ (if leb exact u64_max then some exact else none)
    → check_schedule (or_max o) ≡ ok u
    → exact ≤ 4000
check_schedule-within exact o u e h = ground (arith, e, h)

pub after_ok :
    {A B E : Type 0} (r : Result A E) (f : A → Result B E) (b : B)
    → (r >>= f) ≡ ok b
    → (a : A) × (r ≡ ok a) × (f a ≡ ok b)
after_ok (ok a) f b h = (a, refl, h)
after_ok (err e) f b h = absurd (ground (arith, h))

validate-schedule :
    (c : AppConfig) (u : Unit {0})
    → validate c ≡ ok u
    → exact_ms 128 1 c.layout.delay_ms c.delays.backspace_ms c.delays.typing_ms true ≤ 4000
unfolding validate
validate-schedule c u h =
    let first = after_ok (Settings.validate (settings c)) _ u h in
    let second =
      after_ok (check_delays (delay_fields c)) (λ _. check_schedule (or_max (longest_schedule c))) u
        first.2 in
    check_schedule-within
      (exact_ms 128 1 c.layout.delay_ms c.delays.backspace_ms c.delays.typing_ms true)
      (longest_schedule c) u
      (estimated-exact_ms 128 1 c.layout.delay_ms c.delays.backspace_ms c.delays.typing_ms true
        (omega arith))
      second.2

exact_ms_le :
    (s e d b t : ℕ) (switch_layout : Bool)
    → s ≤ 128
    → e ≤ 1
    → exact_ms s e d b t switch_layout ≤ exact_ms 128 1 d b t true
exact_ms_le s e d b t true hs he = omega (
  arith,
  mul-le-mul_right {m = s + e} {n = 129} (2 + b) (omega arith),
  mul-le-mul_right (3 + t) hs,
)
exact_ms_le s e d b t false hs he = omega (
  arith,
  mul-le-mul_right {m = s + e} {n = 129} (2 + b) (omega arith),
  mul-le-mul_right (3 + t) hs,
)

-- With a valid configuration, every correction of 1 to 128 strokes with at most one extra backspace has
-- an estimate, whether it switches the layout or not, and the estimate is at most 4000 ms.
pub estimated-within :
    (c : AppConfig) (u : Unit {0}) (strokes extra : ℕ) (switch_layout : Bool)
    → validate c ≡ ok u
    → 0 < strokes
    → strokes ≤ 128
    → extra ≤ 1
    → (ms : ℕ) × (estimated_correction_schedule_ms strokes extra c.layout.delay_ms
          c.delays.backspace_ms c.delays.typing_ms switch_layout
        ≡ some ms)
      × (ms ≤ 4000)
estimated-within c u strokes extra switch_layout h pos hs he =
    let d = c.layout.delay_ms in
    let b = c.delays.backspace_ms in
    let t = c.delays.typing_ms in
    let exact = exact_ms strokes extra d b t switch_layout in
    let within : exact ≤ 4000 =
      omega (arith, exact_ms_le strokes extra d b t switch_layout hs he, validate-schedule c u h) in
    let fits : leb exact u64_max ≡ true = ground (arith, within) in
    (
      exact,
      estimated-exact_ms strokes extra d b t switch_layout pos
          ∙ ap (λ x. if x then some exact else none) fits,
      within,
    )
