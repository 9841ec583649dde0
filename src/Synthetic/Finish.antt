-- ===== src/Synthetic/Finish.antt =====
-- src/daemon/synthetic_input.rs, the ends of a `SyntheticOperation`: success, a soft cancellation,
-- a hard failure, and `drop`.
use mathlib.Core.List.{reverse}
use open_switcher.Key.{Key}
use open_switcher.Prelude.{
  ℕ, Bool, true, false, not, ◌&&◌, ◌||◌, List, [], ◌∷◌, ◌++◌, Option, none, some, if◌then◌else◌, ok,
  err, is_ok, is_some,
}
use open_switcher.Synthetic.Errors.{SwitcherError, input_safety, reconciliation, Fallible, Status}
use open_switcher.Synthetic.KeyLedger.{
  SyntheticDebt, begin_down, mark_possibly_down, acknowledge_up, cancel_unattempted_down, transfer,
  begin_terminal, reverse_snapshot,
}
use open_switcher.Synthetic.Modifiers.{restore_order}
use open_switcher.Synthetic.SessionLedger.{begin_restore, adopt_restored, SessionModifierLedger}
use open_switcher.Synthetic.Operation.{
  SyntheticKeySink, SyntheticOperation, TerminalProof, reconciled, unreconciled,
  owner_generation_destroyed, RestoreDownMode, success_cleanup, soft_cancel_cleanup,
  DropCleanupReport, Step, ◌>>=◌, ◌>>◌, raise, attempt, on_ledger, check_cleanup_active, prepare,
  send_down, send_up, synchronize, remaining_debt,
}

pub data OperationOutcome : Type 0 where
  success soft_cancelled hard_failed : OperationOutcome

pub record OperationTerminalReport : Type 0 where
  pub outcome : OperationOutcome
  pub primary : Option SwitcherError
  pub cleanup : Option SwitcherError
  pub proof : TerminalProof

unfoldable pub keep_first_error : Option SwitcherError → Status → Option SwitcherError
keep_first_error none (err e) = some e
keep_first_error none (ok _) = none
keep_first_error (some e) r = some e

-- `SyntheticFailureLatch::fail`: the first report stays.
unfoldable pub fail_latch : Option DropCleanupReport → DropCleanupReport → Option DropCleanupReport
fail_latch none report = some report
fail_latch (some first) report = some first

unfoldable pub is_unreconciled : TerminalProof → Bool
is_unreconciled reconciled = false
is_unreconciled (owner_generation_destroyed g) = false
is_unreconciled (unreconciled n) = true

unfoldable pub is_reconciled : TerminalProof → Bool
is_reconciled reconciled = true
is_reconciled (owner_generation_destroyed g) = false
is_reconciled (unreconciled n) = false

module _ (S : SyntheticKeySink) where
  -- `Option<SwitcherError>` as what is left of a cleanup.
  abbrev pub Cleanup : Type 0
  Cleanup = SyntheticOperation S × Option SwitcherError

  -- One round of `release_all`: the acknowledgement's own result is dropped.
  unfoldable pub release_debt :
      SyntheticOperation S → SyntheticDebt S.Token → Option SwitcherError → Cleanup
  release_debt op debt first =
      let (op1, released) = send_up S debt.token op in
      let (op2, synchronized) = synchronize S op1 in
      (
        if is_ok released && is_ok synchronized
            then record op2 { ledger = (acknowledge_up op2.ledger debt.press_id).0 }
            else op2,
        keep_first_error (keep_first_error first released) synchronized,
      )

  unfoldable pub release_debts :
      SyntheticOperation S → List (SyntheticDebt S.Token) → Option SwitcherError → Cleanup
  release_debts op [] first = (op, first)
  release_debts op (debt ∷ debts) first =
      let (op', first') = release_debt op debt first in release_debts op' debts first'

  abbrev pub release_all : SyntheticOperation S → Cleanup
  release_all op = release_debts op (reverse_snapshot op.ledger) none

  -- One round of `drain_release_only_fallback`: a token that is not released is kept for later.
  unfoldable pub drain_token :
      SyntheticOperation S
      → S.Token
      → List S.Token
      → Option SwitcherError
      → SyntheticOperation S × List S.Token × Option SwitcherError
  drain_token op token retained first =
      let (op1, released) = send_up S token op in
      let (op2, synchronized) = synchronize S op1 in
      (
        op2,
        (if is_ok released && is_ok synchronized then retained else retained ++ token ∷ []),
        keep_first_error (keep_first_error first released) synchronized,
      )

  -- The loop takes the tokens from the end; its drop puts the retained ones back.
  unfoldable pub drain_tokens :
      SyntheticOperation S → List S.Token → List S.Token → Option SwitcherError → Cleanup
  drain_tokens op [] retained first =
      (record op { release_only_fallback = op.release_only_fallback ++ retained }, first)
  drain_tokens op (token ∷ pending) retained first =
      let (op', retained', first') = drain_token op token retained first in
      drain_tokens op' pending retained' first'

  abbrev pub drain_release_only_fallback : SyntheticOperation S → Cleanup
  drain_release_only_fallback op =
      drain_tokens (record op { release_only_fallback = [] }) (reverse op.release_only_fallback) []
        none

  abbrev pub option_status : Option SwitcherError → Status
  option_status none = ok tt
  option_status (some e) = err e

  -- The part that all ends share: no further key goes down, everything is released, what is left
  -- is counted. `first` is the error so far.
  unfoldable pub settle : SyntheticOperation S → Option SwitcherError → Cleanup
  settle op first =
      let (op1, released) = release_all (record op { ledger = begin_terminal op.ledger }) in
      let (op2, drained) = drain_release_only_fallback op1 in
      let (op3, synchronized) = synchronize S op2 in
      (
        op3,
        keep_first_error
            (keep_first_error (keep_first_error first (option_status released))
              (option_status drained))
            synchronized,
      )

  abbrev pub proof_of : SyntheticOperation S → TerminalProof
  proof_of op = S.terminal_proof op.sink (remaining_debt S op)

  unfoldable pub record_reconciliation_failure :
      SyntheticOperation S → TerminalProof → SyntheticOperation S
  record_reconciliation_failure op proof = record op {
    failure_latch = fail_latch op.failure_latch (record {
      cleanup = some (input_safety (reconciliation op.id (remaining_debt S op)));
      proof = proof;
    });
  }

  unfoldable pub finish_hard_failure :
      SyntheticOperation S → SwitcherError → SyntheticOperation S × OperationTerminalReport
  finish_hard_failure op primary =
      let (settled, cleanup) = settle op none in
      let proof = proof_of settled in
      let latched =
        if is_some cleanup || is_unreconciled proof
        then record_reconciliation_failure settled proof
        else settled in
      (
        record latched { finalized = true },
        record { outcome = hard_failed; primary = some primary; cleanup = cleanup; proof = proof },
      )

  abbrev pub on_restored :
      {A : Type 0}
      → (SessionModifierLedger S.Token → SessionModifierLedger S.Token × Fallible A)
      → Step S A
  on_restored f op = let (restored, r) = f op.restored in (record op { restored = restored }, r)

  -- `if let Err(error) = restored.begin_restore(key) { cancel?; return Err(error) }`.
  abbrev pub or_cancel : Status → ℕ → Step S (Unit {0})
  or_cancel (ok _) press_id = raise S (ok tt)
  or_cancel (err e) press_id = do
    on_ledger S (λ l. cancel_unattempted_down l press_id)
    raise S (err e)

  -- `PendingTransfer`: a token that is not adopted falls back to the release-only list.
  abbrev pub fall_back : Status → S.Token → Step S (Unit {0})
  fall_back (ok _) token op = (op, ok tt)
  fall_back (err e) token op =
      (record op { release_only_fallback = op.release_only_fallback ++ token ∷ [] }, err e)

  unfoldable pub restore_one_modifier : Key → RestoreDownMode → Step S (Unit {0})
  restore_one_modifier key mode = do
    check_cleanup_active S
    token ← prepare S key
    check_cleanup_active S
    λ op. raise S (op.control.restore_down_authorizer mode) op
    press_id ← on_ledger S (λ l. begin_down l token)
    begun ← attempt S (on_restored (λ r. begin_restore r key))
    or_cancel begun press_id
    down_result ← attempt S (send_down S token)
    on_ledger S (λ l. mark_possibly_down l press_id)
    raise S down_result
    check_cleanup_active S
    synchronize S
    check_cleanup_active S
    moved ← on_ledger S (λ l. transfer l press_id)
    adoption ← attempt S (on_restored (λ r. adopt_restored r key moved))
    fall_back adoption moved

  unfoldable pub restore_modifiers : SyntheticOperation S → List Key → RestoreDownMode → Cleanup
  restore_modifiers op [] mode = (op, none)
  restore_modifiers op (key ∷ keys) mode =
      let (op', r) = restore_one_modifier key mode op in
      let rest = restore_modifiers op' keys mode in elim r [ ok _ ↦ rest | err e ↦ (op', some e) ]

  abbrev pub restore_planned_modifiers : SyntheticOperation S → RestoreDownMode → Cleanup
  restore_planned_modifiers op mode = restore_modifiers op (restore_order op.restore_plan) mode

  abbrev pub mode_of : OperationOutcome → RestoreDownMode
  mode_of success = success_cleanup
  mode_of soft_cancelled = soft_cancel_cleanup
  mode_of hard_failed = success_cleanup

  -- `is_personally_cancelled` is one more look at the flags.
  abbrev pub clean_outcome : OperationOutcome → SyntheticOperation S → OperationOutcome
  clean_outcome success op =
      if (op.control.observe op.reads).cancelled then soft_cancelled else success
  clean_outcome soft_cancelled op = soft_cancelled
  clean_outcome hard_failed op = hard_failed

  unfoldable pub finish_with_restore :
      SyntheticOperation S → OperationOutcome → SyntheticOperation S × OperationTerminalReport
  finish_with_restore op requested =
      let (restored, unrestored) = restore_planned_modifiers op (mode_of requested) in
      let (settled, cleanup) = settle restored unrestored in
      let proof = proof_of settled in
      let clean = not (is_some cleanup) && is_reconciled proof in
      let latched = if clean then settled else record_reconciliation_failure settled proof in
      (
        record latched { finalized = true },
        record {
          outcome = if clean then clean_outcome requested settled else hard_failed;
          primary = none;
          cleanup = cleanup;
          proof = proof;
        },
      )

  unfoldable pub finish_success :
      SyntheticOperation S → SyntheticOperation S × OperationTerminalReport
  unfolding finish_with_restore
  finish_success op = finish_with_restore op success

  unfoldable pub finish_soft_cancel :
      SyntheticOperation S → SyntheticOperation S × OperationTerminalReport
  unfolding finish_with_restore
  finish_soft_cancel op = finish_with_restore op soft_cancelled

  -- `Drop`, for an operation that no method has finished.
  unfoldable pub drop_operation : SyntheticOperation S → SyntheticOperation S
  drop_operation op =
      let (settled, cleanup) = settle op none in
      if op.finalized then op else record settled {
        failure_latch =
            fail_latch settled.failure_latch
              (record { cleanup = cleanup; proof = proof_of settled });
        finalized = true;
      }
