-- ===== src/Layout/Snapshots.antt =====
-- src/daemon/input_snapshot.rs: what a decision on a word knows of the current layout, and for how long
-- it may act on it; src/daemon/layout_setup_retry.rs: when a setup that was not detected is looked for
-- again. Instants are milliseconds; the configuration `C` and the features `F` are only carried along.
use open_switcher.Prelude.{
  ℕ, ◌-◌, Bool, not, ◌&&◌, Option, none, some, leb, ◌==◌, min, if◌then◌else◌, is_some_and,
  saturating_add, u64_max,
}
use open_switcher.Switch.Keymap
use open_switcher.Switch.Keymap.{AppLayoutKind}
use open_switcher.Model.Settings.{SessionType}
use open_switcher.Layout.Layouts.{CurrentLayoutState, known, unknown_layout}
use open_switcher.Layout.Detection.{LayoutSetupDetection, confirmed}

abbrev pub input_layout_freshness : ℕ
input_layout_freshness = 1000

pub data InputLayoutStatus : Type 0 where
  fresh awaiting_confirmation stale unknown : InputLayoutStatus

pub record SnapshotAuthorization : Type 0 where
  pub config_generation : ℕ
  pub layout_generation : ℕ
  pub layout_epoch : ℕ

pub record InputRuntimeSnapshot (C F : Type 0) : Type 0 where
  pub config : C
  pub enabled : Bool
  pub features : F
  pub session_type : SessionType
  pub layout_state : CurrentLayoutState
  pub config_generation : ℕ
  pub layout_generation : ℕ
  pub confirmed_layout_epoch : ℕ
  pub confirmed_at : Option ℕ

abbrev pub current_layout_kind : CurrentLayoutState → AppLayoutKind
current_layout_kind (known layout sure) = layout.kind
current_layout_kind (unknown_layout reason) = Keymap.unknown

module _ {C F : Type 0} (s : InputRuntimeSnapshot C F) where
  -- `checked_duration_since(..).unwrap_or_default()` is a subtraction that stops at 0.
  unfoldable pub layout_status_at : ℕ → ℕ → InputLayoutStatus
  layout_status_at now current_layout_epoch =
      if not (s.confirmed_layout_epoch == current_layout_epoch)
      then awaiting_confirmation
      else elim s.layout_state [
        | unknown_layout reason ↦ unknown
        | known layout sure ↦ elim s.confirmed_at [
          | none ↦ unknown
          | some t ↦ if leb input_layout_freshness (now - t) then stale else fresh
        ]
      ]

  unfoldable pub layout_kind_for_decision_at : ℕ → ℕ → Option AppLayoutKind
  unfolding layout_status_at
  layout_kind_for_decision_at now current_layout_epoch =
      elim (layout_status_at now current_layout_epoch) [
        | fresh ↦ some (current_layout_kind s.layout_state)
        | _ ↦ none
      ]

  unfoldable pub authorization_at : ℕ → ℕ → Option SnapshotAuthorization
  unfolding layout_kind_for_decision_at
  authorization_at now current_layout_epoch =
      elim (layout_kind_for_decision_at now current_layout_epoch) [
        | none ↦ none
        | some kind ↦ some (record {
          config_generation = s.config_generation;
          layout_generation = s.layout_generation;
          layout_epoch = current_layout_epoch;
        })
      ]

  abbrev same_authorization : SnapshotAuthorization → SnapshotAuthorization → Bool
  same_authorization a b =
      a.config_generation == b.config_generation
      && a.layout_generation == b.layout_generation
      && a.layout_epoch == b.layout_epoch

  unfoldable pub authorizes_at : SnapshotAuthorization → ℕ → ℕ → Bool
  unfolding authorization_at
  authorizes_at a now current_layout_epoch =
      is_some_and (λ b. same_authorization b a) (authorization_at now current_layout_epoch)

-- 1, 2, 5, 10 and 30 seconds.
unfoldable pub retry_delay : ℕ → ℕ
retry_delay index =
    if index == 0
    then 1000
    else if index == 1
    then 2000
    else if index == 2
    then 5000
    else if index == 3
    then 10000
    else 30000

pub record LayoutSetupRetry : Type 0 where
  pub failures : ℕ
  pub next_due : Option ℕ

abbrev pub retry_confirmed : LayoutSetupRetry
retry_confirmed = record { failures = 0; next_due = none }

-- `Instant::checked_add` is a parameter.
module _ (instant_add : ℕ → ℕ → Option ℕ) where
  unfoldable pub pending_at : ℕ → LayoutSetupRetry
  pending_at now = record { failures = 0; next_due = instant_add now (retry_delay 0) }

  abbrev pub from_detection : LayoutSetupDetection → ℕ → LayoutSetupRetry
  from_detection (confirmed setup) now = retry_confirmed
  from_detection detection now = pending_at now

  unfoldable pub record_failure : LayoutSetupRetry → ℕ → LayoutSetupRetry
  record_failure r now =
      let failures = saturating_add u64_max r.failures 1 in
      record { failures = failures; next_due = instant_add now (retry_delay (min failures 4)) }

abbrev pub record_confirmed : LayoutSetupRetry → LayoutSetupRetry
record_confirmed r = record { failures = 0; next_due = none }

unfoldable pub force_due : ℕ → LayoutSetupRetry → LayoutSetupRetry
force_due now r = record r { next_due = some now }

unfoldable pub is_due : LayoutSetupRetry → ℕ → Bool
is_due r now = is_some_and (λ due. leb due now) r.next_due
