-- ===== src/Synthetic/Operation.antt =====
-- src/daemon/synthetic_input.rs, `SyntheticOperation`: one operation on a key sink. The sink, the
-- clock and the flags that other threads set are parameters; what one call of `ensure_active` reads
-- of them is one observation. The session ledger that the finishing methods borrow is the field
-- `restored`. A mutex is its content; that the sink panics is left out.
use open_switcher.Key.{Key}
use open_switcher.Prelude.{
  ℕ, suc, ◌+◌, Bool, true, false, ◌&&◌, ◌||◌, List, [], Option, leb, if◌then◌else◌, ok, err, is_ok,
  length,
}
use open_switcher.Synthetic.Errors.{
  SwitcherError, input_safety, operation_cancelled, operation_timed_out, Fallible, Status,
}
use open_switcher.Synthetic.KeyLedger.{
  SyntheticKeyLedger, new_ledger, begin_down, mark_possibly_down, acknowledge_up, token_of,
  debt_count,
}
use open_switcher.Synthetic.Modifiers.{
  FrozenPhysicalSnapshot, PhysicalRestorePlan, record_release, contains_key,
}
use open_switcher.Synthetic.SessionLedger.{SessionModifierLedger}

pub data TerminalProof : Type 0 where
  reconciled : TerminalProof
  owner_generation_destroyed : ℕ → TerminalProof
  unreconciled : ℕ → TerminalProof

-- The trait of a key sink: X11 or uinput.
pub record SyntheticKeySink : Type 1 where
  pub Token : Type 0
  pub Device : Type 0
  pub prepare_down : Device → Key → Device × Fallible Token
  pub attempt_down : Device → Token → Device × Status
  pub attempt_up : Device → Token → Device × Status
  pub synchronize : Device → Device × Status
  pub terminal_proof : Device → ℕ → TerminalProof

pub data RestoreDownMode : Type 0 where
  success_cleanup soft_cancel_cleanup : RestoreDownMode

-- What one look at the flags and the clock shows.
pub record Observation : Type 0 where
  pub cancelled : Bool
  pub additional_cancelled : Bool
  pub failure_reported : Bool
  pub now : ℕ

pub record OperationControl : Type 0 where
  pub deadline : ℕ
  pub observe : ℕ → Observation
  pub restore_down_authorizer : RestoreDownMode → Status

unfoldable pub in_time : OperationControl → ℕ → Observation → Status
in_time control operation_id o =
    if leb control.deadline o.now
    then err (input_safety (operation_timed_out operation_id))
    else ok tt

unfoldable pub ensure_active : OperationControl → ℕ → Observation → Status
ensure_active control operation_id o =
    if o.cancelled || o.additional_cancelled || o.failure_reported
    then err (input_safety (operation_cancelled operation_id))
    else in_time control operation_id o

unfoldable pub ensure_cleanup_active : OperationControl → ℕ → Observation → Status
ensure_cleanup_active control operation_id o =
    if o.additional_cancelled || o.failure_reported
    then err (input_safety (operation_cancelled operation_id))
    else in_time control operation_id o

pub record DropCleanupReport : Type 0 where
  pub cleanup : Option SwitcherError
  pub proof : TerminalProof

pub record SyntheticOperation (S : SyntheticKeySink) : Type 0 where
  pub id : ℕ
  pub sink : S.Device
  pub ledger : SyntheticKeyLedger S.Token
  pub control : OperationControl
  pub frozen_physical : FrozenPhysicalSnapshot
  pub restore_plan : PhysicalRestorePlan
  pub release_only_fallback : List S.Token
  pub failure_latch : Option DropCleanupReport
  pub finalized : Bool
  pub reads : ℕ
  pub restored : SessionModifierLedger S.Token

-- A step of an operation: it changes the operation, and returns a value or an error.
abbrev pub Step : SyntheticKeySink → Type 0 → Type 0
Step S A = SyntheticOperation S → SyntheticOperation S × Fallible A

infixl 5 ◌>>=◌ ◌>>◌
unfoldable pub ◌>>=◌ : {S : SyntheticKeySink} {A B : Type 0} → Step S A → (A → Step S B) → Step S B
◌>>=◌ m f op = let (op', r) = m op in elim r [ ok a ↦ f a op' | err e ↦ (op', err e) ]

abbrev pub ◌>>◌ : {S : SyntheticKeySink} {A B : Type 0} → Step S A → Step S B → Step S B
◌>>◌ m k = m >>= λ _. k

module _ (S : SyntheticKeySink) where
  unfoldable pub new_operation :
      ℕ
      → S.Device
      → OperationControl
      → FrozenPhysicalSnapshot
      → Option DropCleanupReport
      → SessionModifierLedger S.Token
      → SyntheticOperation S
  unfolding new_ledger
  new_operation id sink control frozen latch restored = record {
    id = id;
    sink = sink;
    ledger = new_ledger S.Token;
    control = control;
    frozen_physical = frozen;
    restore_plan = [];
    release_only_fallback = [];
    failure_latch = latch;
    finalized = false;
    reads = 0;
    restored = restored;
  }

  abbrev pub raise : {A : Type 0} → Fallible A → Step S A
  raise r op = (op, r)

  -- The result of a step as a value: the later steps are made whether it failed or not.
  abbrev pub attempt : {A : Type 0} → Step S A → Step S (Fallible A)
  attempt m op = let (op', r) = m op in (op', ok r)

  abbrev pub on_sink : {A : Type 0} → (S.Device → S.Device × Fallible A) → Step S A
  on_sink f op = let (device, r) = f op.sink in (record op { sink = device }, r)

  abbrev pub on_ledger :
      {A : Type 0}
      → (SyntheticKeyLedger S.Token → SyntheticKeyLedger S.Token × Fallible A)
      → Step S A
  on_ledger f op = let (ledger, r) = f op.ledger in (record op { ledger = ledger }, r)

  abbrev pub check_active : Step S (Unit {0})
  check_active op = (
    record op { reads = suc op.reads },
    ensure_active op.control op.id (op.control.observe op.reads),
  )

  abbrev pub check_cleanup_active : Step S (Unit {0})
  check_cleanup_active op = (
    record op { reads = suc op.reads },
    ensure_cleanup_active op.control op.id (op.control.observe op.reads),
  )

  abbrev pub prepare : Key → Step S S.Token
  prepare key = on_sink (λ d. S.prepare_down d key)

  abbrev pub send_down : S.Token → Step S (Unit {0})
  send_down token = on_sink (λ d. S.attempt_down d token)

  abbrev pub send_up : S.Token → Step S (Unit {0})
  send_up token = on_sink (λ d. S.attempt_up d token)

  abbrev pub synchronize : Step S (Unit {0})
  synchronize = on_sink S.synchronize

  unfoldable pub press : Key → Step S ℕ
  press key = do
    check_active
    token ← prepare key
    check_active
    press_id ← on_ledger (λ l. begin_down l token)
    down_result ← attempt (send_down token)
    on_ledger (λ l. mark_possibly_down l press_id)
    raise down_result
    check_active
    synchronize
    check_active
    raise (ok press_id)

  abbrev pub plan_release : Key → Step S (Unit {0})
  plan_release key op =
      let (plan, r) = record_release op.id op.frozen_physical op.restore_plan key in
      (record op { restore_plan = plan }, r)

  unfoldable pub temporarily_release_physical_modifier : Key → Step S (Unit {0})
  temporarily_release_physical_modifier key = do
    check_active
    token ← prepare key
    check_active
    plan_release key
    send_up token
    check_active
    synchronize
    check_active

  unfoldable pub has_planned_modifier_restore : SyntheticOperation S → Key → Bool
  has_planned_modifier_restore op key = contains_key op.restore_plan key

  -- `if control_error.is_none() { control_error = … }`.
  abbrev pub check_unless : Status → Step S Status
  check_unless (err e) = raise (ok (err e))
  check_unless (ok _) = attempt check_active

  abbrev pub acknowledge_if : Bool → ℕ → Step S (Unit {0})
  acknowledge_if true press_id = on_ledger (λ l. acknowledge_up l press_id)
  acknowledge_if false press_id = raise (ok tt)

  unfoldable pub release : ℕ → Step S (Unit {0})
  release press_id = do
    token ← on_ledger (λ l. (l, token_of l press_id))
    before ← attempt check_active
    release_result ← attempt (send_up token)
    between ← check_unless before
    synchronize_result ← attempt synchronize
    after ← check_unless between
    acknowledge_if (is_ok release_result && is_ok synchronize_result) press_id
    raise release_result
    raise synchronize_result
    raise after

  unfoldable pub remaining_debt : SyntheticOperation S → ℕ
  remaining_debt op = debt_count op.ledger + length op.release_only_fallback
