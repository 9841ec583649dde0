-- ===== src/Layout/SnapshotLaws.antt =====
-- What an authorization that a snapshot gave is worth later.
use open_switcher.Prelude.{ℕ, ◌+◌, ◌-◌, ◌≤◌, ◌<◌, ◌≡◌, true, Option, some, arith}
use open_switcher.Layout.Snapshots.{
  InputRuntimeSnapshot, input_layout_freshness, LayoutSetupRetry, record_failure, retry_delay,
  is_due,
}

pub record Honours {C F : Type 0} (s s' : InputRuntimeSnapshot C F) (epoch now' epoch' : ℕ)
    : Type 0 where
  pub same_config : s'.config_generation ≡ s.config_generation
  pub same_layout : s'.layout_generation ≡ s.layout_generation
  pub same_epoch : epoch' ≡ epoch
  pub in_epoch : s'.confirmed_layout_epoch ≡ epoch
  pub recent : (t : ℕ) × (s'.confirmed_at ≡ some t) × (now' - t < input_layout_freshness)

-- `Instant::checked_add` of a clock that does not end.
abbrev pub exact : ℕ → ℕ → Option ℕ
exact a b = some (a + b)

-- On a clock that does not end, a failure is followed by a retry not before 2 and not after 30 seconds,
-- and the more failures there were the later it is.
pub record_failure-due :
    (r r' : LayoutSetupRetry) (now later : ℕ)
    → r.failures ≤ r'.failures
    → (is_due (record_failure exact r now) later ≡ true → now + 2000 ≤ later)
      × (now + 30000 ≤ later → is_due (record_failure exact r now) later ≡ true)
      × (is_due (record_failure exact r' now) later ≡ true
          → is_due (record_failure exact r now) later ≡ true)
unfolding record_failure is_due retry_delay
record_failure-due r r' now later h = (λ d. ground arith, λ d. ground arith, λ d. ground arith)
