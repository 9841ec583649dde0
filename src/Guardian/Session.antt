-- ===== src/Guardian/Session.antt =====
-- src/daemon/xtest_guardian/service.rs: `GuardianSession`, which carries out the requests of one
-- connection on the X server. The executor that talks to the X server, and the clock, are parameters:
-- the n-th reading of the clock is `clock n`, and `readings` counts them.
use open_switcher.Prelude.{
  ℕ, suc, Bool, true, false, ◌&&◌, ◌||◌, List, [], ◌∷◌, Option, none, some, leb, ◌==◌,
  if◌then◌else◌, Result, ok, err, is_ok, is_some, String, checked_add, saturating_add, u64_max,
}
use open_switcher.Switch.Keymap.{codes}
use open_switcher.Switch.Texts
use open_switcher.Synthetic.Errors.{
  SwitcherError, input_safety, invariant, oversized_frame, Fallible, Status,
}
use open_switcher.Synthetic.Operation
use open_switcher.Synthetic.Operation.{TerminalProof}
use open_switcher.Guardian.Wire
use open_switcher.Guardian.Wire.{
  ProtocolSession, PreparedToken, FatalCode, WireTerminalProof, Request, hello, prepare_key,
  execute_down, key_up, synchronize, transfer_to_physical_debt, physical_release_committed,
  cancel_and_drain, release_all_and_exit, Response, ready, prepared, down_ack, up_ack, sync_ack,
  transfer_ack, release_commit_ack, drained, stopped, max_release_cleanup_ns,
}
use open_switcher.Guardian.State.{ProtocolState, same_bytes, debt_count}
use open_switcher.Guardian.Accept.{accept}
use open_switcher.Guardian.Outcomes.{
  record_prepared, record_down_attempt, complete_synchronize, begin_terminal,
  cleanup_tokens_reverse, acknowledge_cleanup_release,
}

pub record X11ServerIdentity : Type 0 where
  pub epoch : List ℕ
  pub epoch_window : ℕ
  pub epoch_nonce : List ℕ

-- The trait of the X server's client; its errors come from outside this file.
pub record XtestExecutor : Type 1 where
  pub Device : Type 0
  pub server_identity : Device → X11ServerIdentity
  pub prepare_key : Device → ℕ → Device × Fallible (ℕ × List ℕ)
  pub key_down : Device → ℕ → Device × Status
  pub key_up : Device → ℕ → Device × Status
  pub synchronize : Device → Device × Status

pub data StopReason : Type 0 where
  peer_eof signal protocol_violation backend_failure requested dropped : StopReason

pub record TerminalRecord : Type 0 where
  pub reason : StopReason
  pub proof : TerminalProof

pub record RequestFailure : Type 0 where
  pub code : FatalCode
  pub reason : StopReason
  pub error : SwitcherError

abbrev says : String → String → Bool
says context word = Texts.contains (codes context) (codes word)

-- The code that a refusal is reported by.
unfoldable pub fatal_code_for : String → FatalCode
fatal_code_for context =
    if says context "expired"
    then Wire.deadline_expired
    else if says context "too far"
    then Wire.deadline_too_far
    else if says context "capacity" || says context "too large"
    then Wire.capacity_exceeded
    else Wire.protocol_violation

unfoldable pub protocol_fatal_code : SwitcherError → FatalCode
unfolding fatal_code_for
protocol_fatal_code (input_safety (oversized_frame _ _)) = Wire.capacity_exceeded
protocol_fatal_code (input_safety (invariant context)) = fatal_code_for context
protocol_fatal_code _ = Wire.protocol_violation

unfoldable pub protocol_failure : SwitcherError → RequestFailure
unfolding protocol_fatal_code
protocol_failure error = record {
  code = protocol_fatal_code error;
  reason = protocol_violation;
  error = error;
}

unfoldable pub backend_error : SwitcherError → RequestFailure
backend_error error = record {
  code = Wire.backend_failure;
  reason = backend_failure;
  error = error;
}

abbrev pub safety : String → SwitcherError
safety context = input_safety (invariant context)

-- `u16::try_from(remaining).unwrap_or(u16::MAX)`.
unfoldable pub wire_terminal_proof : TerminalProof → WireTerminalProof
wire_terminal_proof Operation.reconciled = Wire.reconciled
wire_terminal_proof (Operation.owner_generation_destroyed g) = Wire.owner_generation_destroyed g
wire_terminal_proof (Operation.unreconciled n) =
    Wire.unreconciled (if leb n 65535 then n else 65535)

unfoldable pub proof_for : ℕ → TerminalProof
proof_for remaining =
    if remaining == 0 then Operation.reconciled else Operation.unreconciled remaining

pub record GuardianSession (E : XtestExecutor) : Type 0 where
  pub executor : E.Device
  pub protocol : ProtocolState
  pub next_token_id : ℕ
  pub terminal : Option TerminalRecord
  pub readings : ℕ

module _ (E : XtestExecutor) where
  abbrev pub Reply : Type 0
  Reply = GuardianSession E × Result Response RequestFailure

  abbrev pub with_executor : GuardianSession E → E.Device → GuardianSession E
  with_executor s device = record s { executor = device }

  abbrev pub with_protocol : GuardianSession E → ProtocolState → GuardianSession E
  with_protocol s protocol = record s { protocol = protocol }

  unfoldable pub ready_with_protocol :
      ProtocolSession → E.Device → ProtocolState → Fallible (GuardianSession E)
  ready_with_protocol session device protocol =
      if same_bytes (E.server_identity device).epoch session.epoch
      then ok record {
        executor = device;
        protocol = protocol;
        next_token_id = 1;
        terminal = none;
        readings = 0;
      }
      else err (safety "XTEST executor epoch does not match guardian session")

  unfoldable pub ready_response : GuardianSession E → Response
  ready_response s =
      let identity = E.server_identity s.executor in
      ready s.protocol.session.session identity.epoch identity.epoch_window identity.epoch_nonce

  abbrev pub token_for : GuardianSession E → ℕ → ℕ → List ℕ → PreparedToken
  token_for s evdev_code x11_keycode epoch = record {
    session = s.protocol.session.session;
    epoch = epoch;
    token_id = s.next_token_id;
    evdev_code = evdev_code;
    x11_keycode = x11_keycode;
  }

  -- The new token, once its id is known not to be the last one.
  abbrev pub record_token : GuardianSession E → ℕ → PreparedToken → Option ℕ → Reply
  record_token s operation token none =
      (s, err (backend_error (safety "XTEST guardian token identifier exhausted")))
  record_token s operation token (some next) =
      let (protocol, r) = record_prepared s.protocol operation token in
      (
        record s { protocol = protocol; next_token_id = next },
        elim r [ ok _ ↦ ok (prepared operation token) | err e ↦ err (protocol_failure e) ],
      )

  abbrev pub prepare_token : GuardianSession E → ℕ → ℕ → Fallible (ℕ × List ℕ) → Reply
  prepare_token s operation evdev_code (err e) = (s, err (backend_error e))
  prepare_token s operation evdev_code (ok (x11_keycode, epoch)) =
      if same_bytes epoch (E.server_identity s.executor).epoch
      then record_token s operation (token_for s evdev_code x11_keycode epoch)
          (checked_add s.next_token_id 1)
      else (s, err (backend_error (safety "XTEST mapping epoch changed during key preparation")))

  -- The record of the attempt stands before the result of the press is looked at.
  abbrev pub press_result : ℕ → PreparedToken → Status → Status → Result Response RequestFailure
  press_result operation token (err e) pressed = err (protocol_failure e)
  press_result operation token (ok _) (err e) = err (backend_error e)
  press_result operation token (ok _) (ok _) = ok (down_ack operation token.token_id)

  abbrev pub synchronized : GuardianSession E → ℕ → ℕ → Status → Reply
  synchronized s operation token_id (err e) = (s, err (backend_error e))
  synchronized s operation token_id (ok _) =
      let (protocol, r) = complete_synchronize s.protocol token_id in
      (
        with_protocol s protocol,
        elim r [ ok _ ↦ ok (sync_ack operation token_id) | err e ↦ err (protocol_failure e) ],
      )

  module _ (clock : ℕ → ℕ) where
    -- The loop over the tokens of the cleanup: it stops when the deadline is reached, before a release
    -- or between it and its synchronization.
    abbrev pub acknowledged : GuardianSession E → ℕ → Bool → GuardianSession E
    acknowledged s token_id true =
        with_protocol s (acknowledge_cleanup_release s.protocol token_id).0
    acknowledged s token_id false = s

    unfoldable pub release_tokens : GuardianSession E → ℕ → List PreparedToken → GuardianSession E
    release_tokens s deadline_ns [] = s
    release_tokens s deadline_ns (token ∷ tokens) =
        let started = record s { readings = suc s.readings } in
        let (device, released) = E.key_up s.executor token.x11_keycode in
        let lifted = record started { executor = device; readings = suc started.readings } in
        let (device', synced) = E.synchronize device in
        let next =
          acknowledged (with_executor lifted device') token.token_id
            (is_ok released && is_ok synced) in
        let rest = release_tokens next deadline_ns tokens in
        if leb deadline_ns (clock s.readings)
        then started
        else if leb deadline_ns (clock started.readings)
        then lifted
        else rest

    abbrev pub terminated : GuardianSession E → StopReason → GuardianSession E
    terminated s reason = record s {
      terminal = some (record { reason = reason; proof = proof_for (debt_count s.protocol) });
    }

    -- `finish_until_with_clock_and_observer`, on a session that has not ended; the observer is left
    -- out, since it does not see the session.
    unfoldable pub finish_now : GuardianSession E → StopReason → ℕ → GuardianSession E
    unfolding release_tokens proof_for
    finish_now s reason deadline_ns =
        let begun = with_protocol s (begin_terminal s.protocol) in
        terminated (release_tokens begun deadline_ns (cleanup_tokens_reverse begun.protocol)) reason

    unfoldable pub finish_until : GuardianSession E → StopReason → ℕ → GuardianSession E
    unfolding finish_now
    finish_until s reason deadline_ns =
        if is_some s.terminal then s else finish_now s reason deadline_ns

    unfoldable pub finish_with_clock : GuardianSession E → StopReason → GuardianSession E
    unfolding finish_until
    finish_with_clock s reason =
        if is_some s.terminal
        then s
        else finish_until (record s { readings = suc s.readings }) reason
            (saturating_add u64_max (clock s.readings) max_release_cleanup_ns)

    -- The proof that a finishing method returns.
    abbrev pub final_proof : Option TerminalRecord → ℕ → TerminalProof
    final_proof none remaining = Operation.unreconciled remaining
    final_proof (some r) remaining = r.proof

    unfoldable pub perform : GuardianSession E → Request → Reply
    perform s (hello _ _) = (
      s,
      err (protocol_failure (safety "XTEST guardian ready session cannot accept another hello")),
    )
    perform s (prepare_key operation evdev_code _) =
        let (device, r) = E.prepare_key s.executor evdev_code in
        prepare_token (with_executor s device) operation evdev_code r
    perform s (execute_down operation token _) =
        let (device, pressed) = E.key_down s.executor token.x11_keycode in
        let (protocol, recorded) = record_down_attempt s.protocol token.token_id in
        (
          record s { executor = device; protocol = protocol },
          press_result operation token recorded pressed,
        )
    perform s (key_up operation token _) =
        let (device, released) = E.key_up s.executor token.x11_keycode in
        (
          with_executor s device,
          elim released [
            | ok _ ↦ ok (up_ack operation token.token_id)
            | err e ↦ err (backend_error e)
          ],
        )
    perform s (synchronize operation token_id _) =
        let (device, r) = E.synchronize s.executor in
        synchronized (with_executor s device) operation token_id r
    perform s (transfer_to_physical_debt operation token _ _) =
        (s, ok (transfer_ack operation token.token_id))
    perform s (physical_release_committed sequence token _ _) =
        (s, ok (release_commit_ack sequence token.token_id))
    perform s (cancel_and_drain operation deadline) =
        let ended = finish_until s requested deadline in
        (
          ended,
          ok (
              drained operation
                (wire_terminal_proof (final_proof ended.terminal (debt_count ended.protocol)))),
        )
    perform s (release_all_and_exit deadline) =
        let ended = finish_until s requested deadline in
        (
          ended,
          ok (
              stopped
                (wire_terminal_proof (final_proof ended.terminal (debt_count ended.protocol)))),
        )

    abbrev pub accepted : GuardianSession E → Request → ProtocolState × Status → Reply
    accepted s request (protocol, ok _) = perform (with_protocol s protocol) request
    accepted s request (protocol, err e) = (with_protocol s protocol, err (protocol_failure e))

    unfoldable pub handle_request : GuardianSession E → ℕ → Request → ℕ → Reply
    unfolding perform
    handle_request s sequence request now_ns =
        if is_some s.terminal
        then (
          s,
          err (
              protocol_failure (safety "XTEST guardian request arrived after session termination")),
        )
        else accepted s request (accept s.protocol sequence request now_ns)
