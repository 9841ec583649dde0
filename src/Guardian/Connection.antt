-- ===== src/Guardian/Connection.antt =====
-- src/daemon/xtest_guardian/service.rs, `run_connection_with_receiver`: the handshake, and the loop
-- over the frames of a connection. What the socket, the signals and the clock give is a list of
-- happenings: a frame stands with the time that is read for it and whether its answer can be sent.
use open_switcher.Prelude.{
  ℕ, ◌-◌, Bool, true, false, List, [], ◌∷◌, Option, none, some, all, leb, ltb, ◌==◌, if◌then◌else◌,
  ok, err, is_empty,
}
use open_switcher.Synthetic.Errors.{SwitcherError, Fallible, Status, external}
use open_switcher.Synthetic.Operation
use open_switcher.Synthetic.KeyLedger.{broken}
use open_switcher.Guardian.Wire.{
  ProtocolSession, hello, Response, drained, stopped, request, response, DecodedFrame,
  max_transaction_timeout_ns,
}
use open_switcher.Guardian.State.{debt_count, ◌>>=◌, ◌>>◌}
use open_switcher.Guardian.Accept.{ready_after_handshake}
use open_switcher.Guardian.Decode.{decode_frame}
use open_switcher.Guardian.Session.{
  XtestExecutor, StopReason, peer_eof, signal, protocol_violation, requested, dropped,
  TerminalRecord, GuardianSession, Reply, ready_with_protocol, finish_with_clock, handle_request,
  safety,
}

unfoldable pub validate_hello : List ℕ → ℕ → ℕ → Status
validate_hello daemon_nonce deadline now_ns =
    if all (λ b. b == 0) daemon_nonce
    then broken "XTEST guardian daemon nonce must be nonzero"
    else if leb deadline now_ns
    then broken "XTEST guardian hello deadline expired"
    else if ltb max_transaction_timeout_ns (deadline - now_ns)
    then broken "XTEST guardian hello deadline is too far in the future"
    else ok tt

pub data Happening : Type 0 where
  -- A received frame, the time when it is handled, and whether the answer is sent.
  frame : List ℕ → ℕ → Bool → Happening
  -- A received frame for which the clock cannot be read.
  frame_without_time : List ℕ → Happening
  stop_signal receive_error : Happening

abbrev pub is_terminal_response : Response → Bool
is_terminal_response (drained _ _) = true
is_terminal_response (stopped _) = true
is_terminal_response _ = false

-- How a connection ends: with a record, with an error, after which the session is dropped, or not
-- yet.
pub data Ending : Type 0 where
  recorded : TerminalRecord → Ending
  failed : SwitcherError → Ending
  waiting : Ending

module _ (E : XtestExecutor) (clock : ℕ → ℕ) where
  -- `terminal_record().cloned().unwrap_or_else(…)`.
  abbrev pub record_of : GuardianSession E → StopReason → Option TerminalRecord → TerminalRecord
  record_of s reason (some r) = r
  record_of s reason none = record {
    reason = reason;
    proof = Operation.unreconciled (debt_count s.protocol);
  }

  unfoldable pub finish_record : GuardianSession E → StopReason → GuardianSession E × Ending
  finish_record s reason =
      let ended = finish_with_clock E clock s reason in
      (ended, recorded (record_of ended reason ended.terminal))

  -- `drop` of a session that has not ended.
  unfoldable pub drop_session : GuardianSession E → GuardianSession E
  drop_session s = finish_with_clock E clock s dropped

  -- After an answer: the loop goes on, or it ends.
  pub data Turn : Type 0 where
    goes_on : GuardianSession E → Turn
    ends : GuardianSession E × Ending → Turn

  abbrev pub answered : GuardianSession E → Response → Bool → Turn
  answered s answer false = ends (finish_record s peer_eof)
  answered s answer true =
      if is_terminal_response answer
      then ends (s, recorded (record_of s requested s.terminal))
      else goes_on s

  abbrev pub replied : Reply E → Bool → Turn
  replied (s, ok answer) sent = answered s answer sent
  replied (s, err failure) sent = ends (finish_record s failure.reason)

  abbrev pub serve_frame : GuardianSession E → Fallible DecodedFrame → ℕ → Bool → Turn
  serve_frame s (err e) now_ns sent = ends (finish_record s protocol_violation)
  serve_frame s (ok f) now_ns sent = elim (f.message) [
    | response r ↦ ends (finish_record s protocol_violation)
    | request r ↦ replied (handle_request E clock s f.sequence r now_ns) sent
  ]

  -- A frame that is a request, for which the clock fails, drops the session.
  abbrev pub serve_without_time : GuardianSession E → Fallible DecodedFrame → Turn
  serve_without_time s (err e) = ends (finish_record s protocol_violation)
  serve_without_time s (ok f) = elim (f.message) [
    | response r ↦ ends (finish_record s protocol_violation)
    | request r ↦ ends (drop_session s, failed (external 0))
  ]

  unfoldable pub turn : GuardianSession E → Happening → Turn
  turn s stop_signal = ends (finish_record s signal)
  turn s receive_error = ends (finish_record s peer_eof)
  turn s (frame bytes now_ns sent) =
      if is_empty bytes
      then ends (finish_record s peer_eof)
      else serve_frame s (decode_frame bytes) now_ns sent
  turn s (frame_without_time bytes) =
      if is_empty bytes
      then ends (finish_record s peer_eof)
      else serve_without_time s (decode_frame bytes)

  unfoldable pub serve : GuardianSession E → List Happening → GuardianSession E × Ending
  serve s [] = (s, waiting)
  serve s (h ∷ hs) = elim (turn s h) [ goes_on s' ↦ serve s' hs | ends x ↦ x ]

  -- The first frame of a connection.
  abbrev pub check_hello :
      ProtocolSession → E.Device → DecodedFrame → ℕ → Fallible (GuardianSession E)
  check_hello protocol_session device f now_ns = elim (f.message) [
    | response r ↦ err (safety "XTEST guardian first frame is not a hello request")
    | request r ↦ elim r [
      | hello daemon_nonce deadline ↦ do
        validate_hello daemon_nonce deadline now_ns
        protocol ← ready_after_handshake protocol_session f.sequence
        ready_with_protocol E protocol_session device protocol
      | _ ↦ err (safety "XTEST guardian first frame is not a hello request")
    ]
  ]

  unfoldable pub greet : ProtocolSession → E.Device → List ℕ → ℕ → Fallible (GuardianSession E)
  greet protocol_session device bytes now_ns =
      if is_empty bytes
      then err (safety "XTEST guardian peer closed before handshake")
      else do f ← decode_frame bytes; check_hello protocol_session device f now_ns

  -- The device after the connection, which the session only borrows, and how the connection ended.
  abbrev pub device_after : GuardianSession E × Ending → E.Device × Ending
  device_after (s, ending) = (s.executor, ending)

  abbrev pub greeted :
      E.Device → Fallible (GuardianSession E) → Bool → List Happening → E.Device × Ending
  greeted device (err e) sent hs = (device, failed e)
  greeted device (ok s) false hs = ((drop_session s).executor, failed (external 0))
  greeted device (ok s) true hs = device_after (serve s hs)

  -- Without a time, the first frame fails at the latest when the clock is read; before that, it fails
  -- as it does at any time if it is no hello.
  unfoldable pub greet_without_time : List ℕ → SwitcherError
  greet_without_time bytes =
      if is_empty bytes
      then safety "XTEST guardian peer closed before handshake"
      else elim (decode_frame bytes) [
        | err e ↦ e
        | ok f ↦ elim (f.message) [
          | request (hello daemon_nonce deadline) ↦ external 0
          | _ ↦ safety "XTEST guardian first frame is not a hello request"
        ]
      ]

  unfoldable pub run_connection : ProtocolSession → E.Device → List Happening → E.Device × Ending
  unfolding serve greet
  run_connection protocol_session device [] = (device, waiting)
  run_connection protocol_session device (stop_signal ∷ hs) =
      (device, recorded record { reason = signal; proof = Operation.reconciled })
  run_connection protocol_session device (receive_error ∷ hs) = (device, failed (external 0))
  run_connection protocol_session device (frame_without_time bytes ∷ hs) =
      (device, failed (greet_without_time bytes))
  run_connection protocol_session device (frame bytes now_ns sent ∷ hs) =
      greeted device (greet protocol_session device bytes now_ns) sent hs
