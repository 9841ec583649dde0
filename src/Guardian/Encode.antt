-- ===== src/Guardian/Encode.antt =====
-- src/daemon/xtest_guardian/protocol.rs: `encode_message` and `encode_frame`.
use open_switcher.Prelude.{ℕ, ◌+◌, List, [], ◌∷◌, ◌++◌, length, leb, ◌==◌, if◌then◌else◌, ok, err}
use open_switcher.Synthetic.Errors.{Fallible}
use open_switcher.Synthetic.KeyLedger.{broken}
use open_switcher.Guardian.Bytes.{
  Put, ◌>>◌, push_bytes, push_u8, push_u16, push_u32, push_u64, to_be_bytes,
}
use open_switcher.Guardian.Wire.{
  PreparedToken, ReleaseDeadline, mutation, cleanup, WireTerminalProof, reconciled,
  owner_generation_destroyed, unreconciled, FatalCode, protocol_violation, deadline_expired,
  deadline_too_far, capacity_exceeded, backend_unavailable, backend_failure, unreconciled_owner,
  Request, hello, prepare_key, execute_down, key_up, synchronize, transfer_to_physical_debt,
  physical_release_committed, cancel_and_drain, release_all_and_exit, Response, ready, prepared,
  down_ack, up_ack, sync_ack, transfer_ack, release_commit_ack, drained, stopped, fatal, Message,
  request, response, kind_of, header_bytes, max_frame_bytes, protocol_version,
}

unfoldable pub encode_token : PreparedToken → Put
encode_token token = do
  push_bytes token.session
  push_bytes token.epoch
  push_u64 token.token_id
  push_u16 token.evdev_code
  push_u8 token.x11_keycode

unfoldable pub encode_release_deadline : ReleaseDeadline → Put
encode_release_deadline (mutation deadline) = do push_u8 1; push_u64 deadline
encode_release_deadline (cleanup deadline) = do push_u8 2; push_u64 deadline

unfoldable pub encode_terminal_proof : WireTerminalProof → Put
encode_terminal_proof reconciled = push_u8 1
encode_terminal_proof (owner_generation_destroyed generation) = do push_u8 2; push_u64 generation
encode_terminal_proof (unreconciled remaining) = do push_u8 3; push_u16 remaining

abbrev pub code_of : FatalCode → ℕ
code_of protocol_violation = 1
code_of deadline_expired = 2
code_of deadline_too_far = 3
code_of capacity_exceeded = 4
code_of backend_unavailable = 5
code_of backend_failure = 6
code_of unreconciled_owner = 7

unfoldable pub encode_fatal_code : FatalCode → Put
encode_fatal_code code = push_u8 (code_of code)

unfoldable pub encode_request : Request → Put
encode_request (hello daemon_nonce deadline) = do push_bytes daemon_nonce; push_u64 deadline
encode_request (prepare_key operation evdev_code deadline) = do
  push_u64 operation
  push_u16 evdev_code
  push_u64 deadline
encode_request (execute_down operation token deadline) = do
  push_u64 operation
  encode_token token
  push_u64 deadline
encode_request (key_up operation token deadline) = do
  push_u64 operation
  encode_token token
  encode_release_deadline deadline
encode_request (synchronize operation token_id deadline) = do
  push_u64 operation
  push_u64 token_id
  encode_release_deadline deadline
encode_request (transfer_to_physical_debt operation token input_generation deadline) = do
  push_u64 operation
  encode_token token
  push_u64 input_generation
  push_u64 deadline
encode_request (physical_release_committed sequence token input_generation deadline) = do
  push_u64 sequence
  encode_token token
  push_u64 input_generation
  push_u64 deadline
encode_request (cancel_and_drain operation deadline) = do push_u64 operation; push_u64 deadline
encode_request (release_all_and_exit deadline) = push_u64 deadline

unfoldable pub encode_response : Response → Put
encode_response (ready session epoch epoch_window epoch_nonce) = do
  push_bytes session
  push_bytes epoch
  push_u32 epoch_window
  push_bytes epoch_nonce
encode_response (prepared operation token) = do push_u64 operation; encode_token token
encode_response (down_ack operation token_id) = do push_u64 operation; push_u64 token_id
encode_response (up_ack operation token_id) = do push_u64 operation; push_u64 token_id
encode_response (sync_ack operation token_id) = do push_u64 operation; push_u64 token_id
encode_response (transfer_ack operation token_id) = do push_u64 operation; push_u64 token_id
encode_response (release_commit_ack sequence token_id) = do push_u64 sequence; push_u64 token_id
encode_response (drained operation proof) = do push_u64 operation; encode_terminal_proof proof
encode_response (stopped proof) = encode_terminal_proof proof
encode_response (fatal code) = encode_fatal_code code

abbrev pub encode_body : Message → Put
encode_body (request r) = encode_request r
encode_body (response r) = encode_response r

-- The kind is a constant of each case, and the bytes are those of an encoder that starts empty.
unfoldable pub encode_message : Message → Fallible (ℕ × List ℕ)
encode_message m = elim (encode_body m []) [ err e ↦ err e | ok bytes ↦ ok (kind_of m, bytes) ]

abbrev pub magic : List ℕ
magic = b'O' ∷ b'S' ∷ b'X' ∷ b'G' ∷ []

abbrev pub header : ℕ → ℕ → ℕ → List ℕ
header kind payload_len sequence =
    magic
    ++ (to_be_bytes 2 protocol_version
        ++ (kind ∷ (to_be_bytes 2 payload_len ++ to_be_bytes 8 sequence)))

-- `u16::try_from` and the sum of the lengths.
unfoldable pub frame_of : ℕ → ℕ → List ℕ → Fallible (List ℕ)
frame_of sequence kind payload =
    if leb 65536 (length payload)
    then broken "XTEST guardian payload length overflow"
    else if leb (header_bytes + length payload) max_frame_bytes
    then ok (header kind (length payload) sequence ++ payload)
    else broken "XTEST guardian frame is too large"

unfoldable pub encode_frame : ℕ → Message → Fallible (List ℕ)
unfolding frame_of
encode_frame sequence m =
    if sequence == 0
    then broken "XTEST guardian sequence must be nonzero"
    else elim (encode_message m) [
      | err e ↦ err e
      | ok (kind, payload) ↦ frame_of sequence kind payload
    ]
