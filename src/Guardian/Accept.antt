-- ===== src/Guardian/Accept.antt =====
-- src/daemon/xtest_guardian/protocol.rs: the requests that a `ProtocolState` accepts. All checks of a
-- request stand before its writes; a refused request leaves the state that it found.
use open_switcher.Prelude.{
  ℕ, Bool, true, false, not, ◌||◌, [], none, some, all, leb, ◌==◌, if◌then◌else◌, ok, err, is_some,
}
use open_switcher.Synthetic.Errors.{Fallible, Status}
use open_switcher.Synthetic.KeyLedger.{broken}
use open_switcher.Guardian.Wire.{
  ProtocolSession, PreparedToken, ReleaseDeadline, mutation, cleanup, Request, hello, prepare_key,
  execute_down, key_up, synchronize, transfer_to_physical_debt, physical_release_committed,
  cancel_and_drain, release_all_and_exit, max_active_debts,
}
use open_switcher.Guardian.State.{
  TrackedTokenState, prepared, attempting_down, possibly_down, physical_debt, PendingSyncKind, down,
  up, PendingSync, ProtocolState, is_prepared, is_possibly_down, is_debt_of, same_token, find_first,
  write_first, remove_first, has_id, debt_count, ◌>>=◌, ◌>>◌, refuse_if, or_refuse,
  validate_normal_deadline, validate_cleanup_deadline, validate_operation_deadline,
  validate_release_deadline, validate_active_operation, validate_prepare_operation,
  validate_token_identity, find_token,
}

unfoldable pub ready_state : ProtocolSession → Fallible ProtocolState
ready_state session = do
  refuse_if (all (λ b. b == 0) session.session) "XTEST guardian session identifier must be nonzero"
  refuse_if (all (λ b. b == 0) session.epoch) "XTEST guardian server epoch must be nonzero"
  ok record {
    session = session;
    last_sequence = 0;
    last_operation = 0;
    active_operation = none;
    operation_deadline = none;
    last_prepared_token_id = 0;
    last_physical_release_sequence = 0;
    pending_prepare = none;
    pending_sync = none;
    tokens = [];
    terminal = false;
    cleanup_deadline = none;
  }

unfoldable pub ready_after_handshake : ProtocolSession → ℕ → Fallible ProtocolState
unfolding ready_state
ready_after_handshake session handshake_sequence = do
  refuse_if (handshake_sequence == 0) "XTEST guardian handshake sequence must be nonzero"
  state ← ready_state session
  ok record state { last_sequence = handshake_sequence }

-- The writes of a method, after its checks.
abbrev pub commit :
    {A : Type 0} → ProtocolState → Fallible A → (A → ProtocolState) → ProtocolState × Status
commit s (ok a) f = (f a, ok tt)
commit s (err e) f = (s, err e)

abbrev pub in_flight : ProtocolState → Bool
in_flight s = is_some s.pending_prepare || is_some s.pending_sync

unfoldable pub apply_cleanup_deadline : ProtocolState → ℕ → Bool → ProtocolState
apply_cleanup_deadline s deadline starts_terminal =
    record (if starts_terminal then record s { cleanup_deadline = some deadline } else s) {
      terminal = true;
    }

abbrev pub start_operation : ProtocolState → ℕ → ℕ → Bool → ProtocolState
start_operation s operation deadline true = record s {
  last_operation = operation;
  active_operation = some operation;
  operation_deadline = some deadline;
}
start_operation s operation deadline false = s

abbrev pub check_prepare : ProtocolState → ℕ → ℕ → ℕ → ℕ → Fallible Bool
check_prepare s operation evdev_code deadline now_ns = do
  validate_normal_deadline s deadline now_ns
  refuse_if (evdev_code == 0) "XTEST guardian evdev key code must be nonzero"
  refuse_if (in_flight s) "XTEST guardian accepts only one request in flight"
  starts_operation ← validate_prepare_operation s operation
  (if starts_operation then ok tt else validate_operation_deadline s operation deadline)
  ok starts_operation

unfoldable pub accept_prepare : ProtocolState → ℕ → ℕ → ℕ → ℕ → ProtocolState × Status
accept_prepare s operation evdev_code deadline now_ns =
    commit s (check_prepare s operation evdev_code deadline now_ns) λ starts_operation.
      record (start_operation s operation deadline starts_operation) {
        pending_prepare = some (record { operation = operation; evdev_code = evdev_code });
      }

abbrev pub sync_of : ℕ → ℕ → PendingSyncKind → PendingSync
sync_of operation token_id kind = record {
  operation = operation;
  token_id = token_id;
  kind = kind;
  request_accepted = false;
}

abbrev pub check_execute_down : ProtocolState → ℕ → PreparedToken → ℕ → ℕ → Status
check_execute_down s operation token deadline now_ns = do
  validate_normal_deadline s deadline now_ns
  validate_active_operation s operation
  validate_operation_deadline s operation deadline
  validate_token_identity s token
  refuse_if (in_flight s) "XTEST guardian accepts only one request in flight"
  tracked ← find_token s token
  refuse_if (not (tracked.operation == operation) || not (is_prepared tracked.state))
      "XTEST guardian down token is not prepared for this operation"
  refuse_if (leb max_active_debts (debt_count s)) "XTEST guardian active debt capacity exceeded"

unfoldable pub accept_execute_down :
    ProtocolState → ℕ → PreparedToken → ℕ → ℕ → ProtocolState × Status
accept_execute_down s operation token deadline now_ns =
    commit s (check_execute_down s operation token deadline now_ns) λ _. record s {
      tokens = write_first (λ t. same_token t.token token) attempting_down s.tokens;
      pending_sync = some (sync_of operation token.token_id down);
    }

-- The cases of `match self.tokens[index].state`.
abbrev pub check_owner : TrackedTokenState → Bool → Status
check_owner prepared owned =
    refuse_if (not owned) "XTEST guardian physical release operation does not own prepared token"
check_owner attempting_down owned = broken "XTEST guardian cannot release a down still in flight"
check_owner possibly_down owned =
    refuse_if (not owned) "XTEST guardian release operation does not own token"
check_owner (physical_debt g) owned = ok tt

abbrev pub check_key_up : ProtocolState → ℕ → PreparedToken → ReleaseDeadline → ℕ → Fallible Bool
check_key_up s operation token deadline now_ns = do
  validate_active_operation s operation
  validate_token_identity s token
  refuse_if (in_flight s) "XTEST guardian accepts only one request in flight"
  tracked ← find_token s token
  check_owner tracked.state (tracked.operation == operation)
  validate_release_deadline s operation deadline now_ns

-- `if let ReleaseDeadline::Cleanup(deadline) = deadline`.
abbrev pub apply_release_deadline : ProtocolState → ReleaseDeadline → Bool → ProtocolState
apply_release_deadline s (mutation deadline) starts_terminal = s
apply_release_deadline s (cleanup deadline) starts_terminal =
    apply_cleanup_deadline s deadline starts_terminal

unfoldable pub accept_key_up :
    ProtocolState → ℕ → PreparedToken → ReleaseDeadline → ℕ → ProtocolState × Status
accept_key_up s operation token deadline now_ns =
    commit s (check_key_up s operation token deadline now_ns) λ starts_terminal.
      record (apply_release_deadline s deadline starts_terminal) {
        pending_sync = some (sync_of operation token.token_id up);
      }

abbrev pub check_sync_token : ProtocolState → ℕ → PendingSyncKind → Status
check_sync_token s token_id up = ok tt
check_sync_token s token_id down = do
  tracked ←
      or_refuse (find_first (has_id token_id) s.tokens) "XTEST guardian synchronize lost its token"
  refuse_if (not (is_possibly_down tracked.state))
      "XTEST guardian down did not finish before synchronize"

abbrev pub check_synchronize :
    ProtocolState → ℕ → ℕ → ReleaseDeadline → ℕ → Fallible (Bool × PendingSync)
check_synchronize s operation token_id deadline now_ns = do
  validate_active_operation s operation
  refuse_if (token_id == 0) "XTEST guardian synchronize token must be nonzero"
  pending ← or_refuse s.pending_sync "XTEST guardian synchronize has no preceding mutation"
  refuse_if
      (not (pending.operation == operation)
        || not (pending.token_id == token_id)
        || pending.request_accepted)
      "XTEST guardian synchronize does not match mutation"
  check_sync_token s token_id pending.kind
  starts_terminal ← validate_release_deadline s operation deadline now_ns
  ok (starts_terminal, pending)

unfoldable pub accept_synchronize :
    ProtocolState → ℕ → ℕ → ReleaseDeadline → ℕ → ProtocolState × Status
accept_synchronize s operation token_id deadline now_ns =
    commit s (check_synchronize s operation token_id deadline now_ns) λ p.
      record (apply_release_deadline s deadline p.0) {
        pending_sync = some (record p.1 { request_accepted = true });
      }

abbrev pub check_transfer : ProtocolState → ℕ → PreparedToken → ℕ → ℕ → ℕ → Status
check_transfer s operation token input_generation deadline now_ns = do
  validate_normal_deadline s deadline now_ns
  validate_active_operation s operation
  validate_operation_deadline s operation deadline
  validate_token_identity s token
  refuse_if (input_generation == 0) "XTEST guardian input generation must be nonzero"
  refuse_if (in_flight s) "XTEST guardian cannot transfer an in-flight mutation"
  tracked ← find_token s token
  refuse_if (not (tracked.operation == operation) || not (is_possibly_down tracked.state))
      "XTEST guardian transfer token is not owned by operation"

unfoldable pub accept_transfer :
    ProtocolState → ℕ → PreparedToken → ℕ → ℕ → ℕ → ProtocolState × Status
accept_transfer s operation token input_generation deadline now_ns =
    commit s (check_transfer s operation token input_generation deadline now_ns) λ _. record s {
      tokens =
          write_first (λ t. same_token t.token token) (physical_debt input_generation) s.tokens;
    }

abbrev pub check_physical_release : ProtocolState → ℕ → PreparedToken → ℕ → ℕ → ℕ → Status
check_physical_release s sequence token input_generation deadline now_ns = do
  validate_normal_deadline s deadline now_ns
  validate_token_identity s token
  refuse_if (input_generation == 0) "XTEST guardian input generation must be nonzero"
  refuse_if (sequence == 0 || leb sequence s.last_physical_release_sequence)
      "XTEST guardian physical release sequence is stale or zero"
  refuse_if (is_some s.pending_sync) "XTEST guardian cannot commit release during synchronization"
  tracked ← find_token s token
  refuse_if (not (is_debt_of input_generation tracked.state))
      "XTEST guardian physical release generation does not match debt"

unfoldable pub accept_physical_release :
    ProtocolState → ℕ → PreparedToken → ℕ → ℕ → ℕ → ProtocolState × Status
accept_physical_release s sequence token input_generation deadline now_ns =
    commit s (check_physical_release s sequence token input_generation deadline now_ns) λ _.
      record s {
        tokens = remove_first (λ t. same_token t.token token) s.tokens;
        last_physical_release_sequence = sequence;
      }

abbrev pub drained_state : ProtocolState → ℕ → Bool → ProtocolState
drained_state s deadline starts_terminal =
    record (apply_cleanup_deadline s deadline starts_terminal) {
      pending_prepare = none;
      pending_sync = none;
    }

unfoldable pub accept_cancel_and_drain : ProtocolState → ℕ → ℕ → ℕ → ProtocolState × Status
accept_cancel_and_drain s operation deadline now_ns =
    commit s (validate_active_operation s operation >> validate_cleanup_deadline s deadline now_ns)
      λ starts_terminal. drained_state s deadline starts_terminal

unfoldable pub accept_release_all : ProtocolState → ℕ → ℕ → ProtocolState × Status
accept_release_all s deadline now_ns =
    commit s (validate_cleanup_deadline s deadline now_ns)
      λ starts_terminal. drained_state s deadline starts_terminal

unfoldable pub accept_request : ProtocolState → Request → ℕ → ProtocolState × Status
accept_request s (hello daemon_nonce deadline) now_ns =
    (s, broken "XTEST guardian ready session cannot accept another hello")
accept_request s (prepare_key operation evdev_code deadline) now_ns =
    accept_prepare s operation evdev_code deadline now_ns
accept_request s (execute_down operation token deadline) now_ns =
    accept_execute_down s operation token deadline now_ns
accept_request s (key_up operation token deadline) now_ns =
    accept_key_up s operation token deadline now_ns
accept_request s (synchronize operation token_id deadline) now_ns =
    accept_synchronize s operation token_id deadline now_ns
accept_request s (transfer_to_physical_debt operation token input_generation deadline) now_ns =
    accept_transfer s operation token input_generation deadline now_ns
accept_request s (physical_release_committed sequence token input_generation deadline) now_ns =
    accept_physical_release s sequence token input_generation deadline now_ns
accept_request s (cancel_and_drain operation deadline) now_ns =
    accept_cancel_and_drain s operation deadline now_ns
accept_request s (release_all_and_exit deadline) now_ns = accept_release_all s deadline now_ns

abbrev pub sequenced : ℕ → ProtocolState × Status → ProtocolState × Status
sequenced sequence (s, ok u) = (record s { last_sequence = sequence }, ok tt)
sequenced sequence (s, err e) = (s, err e)

unfoldable pub accept : ProtocolState → ℕ → Request → ℕ → ProtocolState × Status
accept s sequence request now_ns =
    if sequence == 0 || leb sequence s.last_sequence
    then (s, broken "XTEST guardian request sequence is stale or zero")
    else sequenced sequence (accept_request s request now_ns)
