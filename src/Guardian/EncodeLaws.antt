-- ===== src/Guardian/EncodeLaws.antt =====
-- What the encoders write: the payload of each message.
use open_switcher.Guardian.Encode.{
  encode_token, encode_release_deadline, encode_terminal_proof, encode_fatal_code, encode_request,
  encode_response, encode_body, code_of,
}
use open_switcher.Guardian.Codes.{
  Encodes, Encodes-then, push_bytes-Encodes, push_u8-Encodes, push_u16-Encodes, push_u32-Encodes,
  push_u64-Encodes, u8,
}
use open_switcher.Guardian.Payload.{token_bytes, deadline_bytes, proof_bytes, payload_of}
use open_switcher.Guardian.Wire.{
  PreparedToken, ReleaseDeadline, mutation, cleanup, WireTerminalProof, reconciled,
  owner_generation_destroyed, unreconciled, FatalCode, hello, prepare_key, execute_down, key_up,
  synchronize, transfer_to_physical_debt, physical_release_committed, cancel_and_drain,
  release_all_and_exit, ready, prepared, down_ack, up_ack, sync_ack, transfer_ack,
  release_commit_ack, drained, stopped, fatal, Message, request, response,
}

encode_token-Encodes : (t : PreparedToken) → Encodes (encode_token t) (token_bytes t)
unfolding encode_token token_bytes
encode_token-Encodes t = Encodes-then (push_bytes-Encodes t.session) (
    Encodes-then (push_bytes-Encodes t.epoch) (
      Encodes-then (push_u64-Encodes t.token_id)
        (Encodes-then (push_u16-Encodes t.evdev_code) (push_u8-Encodes t.x11_keycode))))

encode_release_deadline-Encodes :
    (d : ReleaseDeadline) → Encodes (encode_release_deadline d) (deadline_bytes d)
unfolding encode_release_deadline deadline_bytes
encode_release_deadline-Encodes (mutation d) = Encodes-then (push_u8-Encodes 1) (push_u64-Encodes d)
encode_release_deadline-Encodes (cleanup d) = Encodes-then (push_u8-Encodes 2) (push_u64-Encodes d)

encode_terminal_proof-Encodes :
    (p : WireTerminalProof) → Encodes (encode_terminal_proof p) (proof_bytes p)
unfolding encode_terminal_proof proof_bytes
encode_terminal_proof-Encodes reconciled = push_u8-Encodes 1
encode_terminal_proof-Encodes (owner_generation_destroyed g) =
    Encodes-then (push_u8-Encodes 2) (push_u64-Encodes g)
encode_terminal_proof-Encodes (unreconciled n) =
    Encodes-then (push_u8-Encodes 3) (push_u16-Encodes n)

encode_fatal_code-Encodes : (c : FatalCode) → Encodes (encode_fatal_code c) (u8 (code_of c))
unfolding encode_fatal_code
encode_fatal_code-Encodes c = push_u8-Encodes (code_of c)

pub encode_body-Encodes : (m : Message) → Encodes (encode_body m) (payload_of m)
unfolding encode_request encode_response payload_of
encode_body-Encodes (request (hello daemon_nonce deadline)) =
    Encodes-then (push_bytes-Encodes daemon_nonce) (push_u64-Encodes deadline)
encode_body-Encodes (request (prepare_key operation evdev_code deadline)) =
    Encodes-then (push_u64-Encodes operation)
      (Encodes-then (push_u16-Encodes evdev_code) (push_u64-Encodes deadline))
encode_body-Encodes (request (execute_down operation token deadline)) =
    Encodes-then (push_u64-Encodes operation)
      (Encodes-then (encode_token-Encodes token) (push_u64-Encodes deadline))
encode_body-Encodes (request (key_up operation token deadline)) =
    Encodes-then (push_u64-Encodes operation)
      (Encodes-then (encode_token-Encodes token) (encode_release_deadline-Encodes deadline))
encode_body-Encodes (request (synchronize operation token_id deadline)) =
    Encodes-then (push_u64-Encodes operation)
      (Encodes-then (push_u64-Encodes token_id) (encode_release_deadline-Encodes deadline))
encode_body-Encodes
      (request (transfer_to_physical_debt operation token input_generation deadline)) =
    Encodes-then (push_u64-Encodes operation) (
      Encodes-then (encode_token-Encodes token)
        (Encodes-then (push_u64-Encodes input_generation) (push_u64-Encodes deadline)))
encode_body-Encodes
      (request (physical_release_committed sequence token input_generation deadline)) =
    Encodes-then (push_u64-Encodes sequence) (
      Encodes-then (encode_token-Encodes token)
        (Encodes-then (push_u64-Encodes input_generation) (push_u64-Encodes deadline)))
encode_body-Encodes (request (cancel_and_drain operation deadline)) =
    Encodes-then (push_u64-Encodes operation) (push_u64-Encodes deadline)
encode_body-Encodes (request (release_all_and_exit deadline)) = push_u64-Encodes deadline
encode_body-Encodes (response (ready session epoch epoch_window epoch_nonce)) =
    Encodes-then (push_bytes-Encodes session) (
      Encodes-then (push_bytes-Encodes epoch)
        (Encodes-then (push_u32-Encodes epoch_window) (push_bytes-Encodes epoch_nonce)))
encode_body-Encodes (response (prepared operation token)) =
    Encodes-then (push_u64-Encodes operation) (encode_token-Encodes token)
encode_body-Encodes (response (down_ack operation token_id)) =
    Encodes-then (push_u64-Encodes operation) (push_u64-Encodes token_id)
encode_body-Encodes (response (up_ack operation token_id)) =
    Encodes-then (push_u64-Encodes operation) (push_u64-Encodes token_id)
encode_body-Encodes (response (sync_ack operation token_id)) =
    Encodes-then (push_u64-Encodes operation) (push_u64-Encodes token_id)
encode_body-Encodes (response (transfer_ack operation token_id)) =
    Encodes-then (push_u64-Encodes operation) (push_u64-Encodes token_id)
encode_body-Encodes (response (release_commit_ack sequence token_id)) =
    Encodes-then (push_u64-Encodes sequence) (push_u64-Encodes token_id)
encode_body-Encodes (response (drained operation proof)) =
    Encodes-then (push_u64-Encodes operation) (encode_terminal_proof-Encodes proof)
encode_body-Encodes (response (stopped proof)) = encode_terminal_proof-Encodes proof
encode_body-Encodes (response (fatal code)) = encode_fatal_code-Encodes code
