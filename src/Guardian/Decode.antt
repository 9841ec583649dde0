-- ===== src/Guardian/Decode.antt =====
-- src/daemon/xtest_guardian/protocol.rs: `decode_message` and `decode_frame`.
use open_switcher.Prelude.{
  ℕ, ◌+◌, String, Bool, false, ◌&&◌, List, [], ◌∷◌, length, ltb, ◌==◌, if◌then◌else◌, ok, err, not,
}
use open_switcher.Synthetic.Errors.{Fallible}
use open_switcher.Synthetic.KeyLedger.{broken}
use open_switcher.Guardian.Bytes.{
  Get, ◌>>=◌, yields, read_array, read_u8, read_u16, read_u32, read_u64, finish,
}
use open_switcher.Guardian.Encode.{magic}
use open_switcher.Guardian.Wire.{
  PreparedToken, ReleaseDeadline, mutation, cleanup, WireTerminalProof, reconciled,
  owner_generation_destroyed, unreconciled, FatalCode, protocol_violation, deadline_expired,
  deadline_too_far, capacity_exceeded, backend_unavailable, backend_failure, unreconciled_owner,
  hello, prepare_key, execute_down, key_up, synchronize, transfer_to_physical_debt,
  physical_release_committed, cancel_and_drain, release_all_and_exit, Response, ready, prepared,
  down_ack, up_ack, sync_ack, transfer_ack, release_commit_ack, drained, stopped, fatal, Message,
  request, response, DecodedFrame, header_bytes, max_frame_bytes, protocol_version,
}

abbrev pub refuse : {A : Type 0} → String → Get A
refuse context bytes = broken context

unfoldable pub decode_token : Get PreparedToken
decode_token = do
  session ← read_array 16
  epoch ← read_array 16
  token_id ← read_u64
  evdev_code ← read_u16
  x11_keycode ← read_u8
  yields record {
    session = session;
    epoch = epoch;
    token_id = token_id;
    evdev_code = evdev_code;
    x11_keycode = x11_keycode;
  }

unfoldable pub release_deadline_of : ℕ → Get ReleaseDeadline
release_deadline_of tag =
    if tag == 1
    then (do deadline ← read_u64; yields (mutation deadline))
    else if tag == 2
    then (do deadline ← read_u64; yields (cleanup deadline))
    else refuse "XTEST guardian release deadline kind is unknown"

unfoldable pub decode_release_deadline : Get ReleaseDeadline
unfolding release_deadline_of
decode_release_deadline = do tag ← read_u8; release_deadline_of tag

unfoldable pub terminal_proof_of : ℕ → Get WireTerminalProof
terminal_proof_of tag =
    if tag == 1
    then yields reconciled
    else if tag == 2
    then (do generation ← read_u64; yields (owner_generation_destroyed generation))
    else if tag == 3
    then (do remaining ← read_u16; yields (unreconciled remaining))
    else refuse "XTEST guardian terminal proof kind is unknown"

unfoldable pub decode_terminal_proof : Get WireTerminalProof
unfolding terminal_proof_of
decode_terminal_proof = do tag ← read_u8; terminal_proof_of tag

unfoldable pub fatal_code_of : ℕ → Get FatalCode
fatal_code_of tag =
    if tag == 1
    then yields protocol_violation
    else if tag == 2
    then yields deadline_expired
    else if tag == 3
    then yields deadline_too_far
    else if tag == 4
    then yields capacity_exceeded
    else if tag == 5
    then yields backend_unavailable
    else if tag == 6
    then yields backend_failure
    else if tag == 7
    then yields unreconciled_owner
    else refuse "XTEST guardian fatal code is unknown"

unfoldable pub decode_fatal_code : Get FatalCode
unfolding fatal_code_of
decode_fatal_code = do tag ← read_u8; fatal_code_of tag

-- The cases of `decode_message`, each by its name.

unfoldable pub decode_hello : Get Message
decode_hello = do
  daemon_nonce ← read_array 16
  deadline ← read_u64
  yields (request (hello daemon_nonce deadline))

unfoldable pub decode_prepare_key : Get Message
decode_prepare_key = do
  operation ← read_u64
  evdev_code ← read_u16
  deadline ← read_u64
  yields (request (prepare_key operation evdev_code deadline))

unfoldable pub decode_execute_down : Get Message
decode_execute_down = do
  operation ← read_u64
  token ← decode_token
  deadline ← read_u64
  yields (request (execute_down operation token deadline))

unfoldable pub decode_key_up : Get Message
decode_key_up = do
  operation ← read_u64
  token ← decode_token
  deadline ← decode_release_deadline
  yields (request (key_up operation token deadline))

unfoldable pub decode_synchronize : Get Message
decode_synchronize = do
  operation ← read_u64
  token_id ← read_u64
  deadline ← decode_release_deadline
  yields (request (synchronize operation token_id deadline))

unfoldable pub decode_transfer_to_physical_debt : Get Message
decode_transfer_to_physical_debt = do
  operation ← read_u64
  token ← decode_token
  input_generation ← read_u64
  deadline ← read_u64
  yields (request (transfer_to_physical_debt operation token input_generation deadline))

unfoldable pub decode_physical_release_committed : Get Message
decode_physical_release_committed = do
  sequence ← read_u64
  token ← decode_token
  input_generation ← read_u64
  deadline ← read_u64
  yields (request (physical_release_committed sequence token input_generation deadline))

unfoldable pub decode_cancel_and_drain : Get Message
decode_cancel_and_drain = do
  operation ← read_u64
  deadline ← read_u64
  yields (request (cancel_and_drain operation deadline))

unfoldable pub decode_release_all_and_exit : Get Message
decode_release_all_and_exit = do
  deadline ← read_u64
  yields (request (release_all_and_exit deadline))

-- The acknowledgements, which have the same fields: an operation or a sequence, and a token.
unfoldable pub decode_ack : (ℕ → ℕ → Response) → Get Message
decode_ack ack = do owner ← read_u64; token_id ← read_u64; yields (response (ack owner token_id))

unfoldable pub decode_ready : Get Message
decode_ready = do
  session ← read_array 16
  epoch ← read_array 16
  epoch_window ← read_u32
  epoch_nonce ← read_array 16
  yields (response (ready session epoch epoch_window epoch_nonce))

unfoldable pub decode_prepared : Get Message
decode_prepared = do
  operation ← read_u64
  token ← decode_token
  yields (response (prepared operation token))

unfoldable pub decode_drained : Get Message
decode_drained = do
  operation ← read_u64
  proof ← decode_terminal_proof
  yields (response (drained operation proof))

unfoldable pub decode_stopped : Get Message
decode_stopped = do proof ← decode_terminal_proof; yields (response (stopped proof))

unfoldable pub decode_fatal : Get Message
decode_fatal = do code ← decode_fatal_code; yields (response (fatal code))

unfoldable pub decode_message : ℕ → Get Message
decode_message kind =
    if kind == 1
    then decode_hello
    else if kind == 2
    then decode_prepare_key
    else if kind == 3
    then decode_execute_down
    else if kind == 4
    then decode_key_up
    else if kind == 5
    then decode_synchronize
    else if kind == 6
    then decode_transfer_to_physical_debt
    else if kind == 7
    then decode_physical_release_committed
    else if kind == 8
    then decode_cancel_and_drain
    else if kind == 9
    then decode_release_all_and_exit
    else if kind == 101
    then decode_ready
    else if kind == 102
    then decode_prepared
    else if kind == 103
    then decode_ack down_ack
    else if kind == 104
    then decode_ack up_ack
    else if kind == 105
    then decode_ack sync_ack
    else if kind == 106
    then decode_ack transfer_ack
    else if kind == 107
    then decode_ack release_commit_ack
    else if kind == 108
    then decode_drained
    else if kind == 109
    then decode_stopped
    else if kind == 110
    then decode_fatal
    else refuse "XTEST guardian message kind is unknown"

-- The fields of a header, whose bytes are all read.
abbrev pub Header : Type 0
Header = ℕ × ℕ × ℕ

-- `array != MAGIC`.
unfoldable pub is_magic : List ℕ → Bool
is_magic (a ∷ b ∷ c ∷ d ∷ []) = a == b'O' && b == b'S' && c == b'X' && d == b'G'
is_magic _ = false

unfoldable pub expect : Bool → String → Get (Unit {0})
expect b context = if b then yields tt else refuse context

unfoldable pub read_header : Get Header
unfolding is_magic expect
read_header = do
  magic ← read_array 4
  _ ← expect (is_magic magic) "XTEST guardian frame magic is invalid"
  version ← read_u16
  _ ← expect (version == protocol_version) "XTEST guardian protocol version is unsupported"
  kind ← read_u8
  payload_len ← read_u16
  sequence ← read_u64
  yields (kind, payload_len, sequence)

unfoldable pub decode_payload : ℕ → ℕ → List ℕ → Fallible DecodedFrame
decode_payload kind sequence payload = elim (decode_message kind payload) [
  | err e ↦ err e
  | ok (message, rest) ↦ finish (record { sequence = sequence; message = message }) rest
]

-- The source reads the header from the first 17 bytes and the payload from the others; the checks
-- of the sequence and of the length stand between.
unfoldable pub decode_frame : List ℕ → Fallible DecodedFrame
unfolding decode_payload
decode_frame frame =
    if ltb max_frame_bytes (length frame)
    then broken "XTEST guardian frame is too large"
    else if ltb (length frame) header_bytes
    then broken "XTEST guardian frame header is truncated"
    else elim (read_header frame) [
      | err e ↦ err e
      | ok ((kind, payload_len, sequence), payload) ↦
          if sequence == 0
          then broken "XTEST guardian sequence must be nonzero"
          else if not (header_bytes + payload_len == length frame)
          then broken "XTEST guardian payload length does not match frame"
          else decode_payload kind sequence payload
    ]
