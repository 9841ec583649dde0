-- ===== src/Guardian/DecodeLaws.antt =====
-- What the decoders read: each message from its payload.
use open_switcher.Prelude.{ℕ, ◌≡◌, refl, ◌++◌}
use open_switcher.Guardian.Bytes.{Get, to_be_bytes, ◌>>=◌, yields, read_number}
use open_switcher.Guardian.Encode.{code_of}
use open_switcher.Guardian.Decode.{
  decode_token, release_deadline_of, decode_release_deadline, terminal_proof_of,
  decode_terminal_proof, fatal_code_of, decode_fatal_code, decode_ack, decode_message, decode_hello,
  decode_prepare_key, decode_execute_down, decode_key_up, decode_synchronize,
  decode_transfer_to_physical_debt, decode_physical_release_committed, decode_cancel_and_drain,
  decode_release_all_and_exit, decode_ready, decode_prepared, decode_drained, decode_stopped,
  decode_fatal,
}
use open_switcher.Guardian.Codes.{
  Decodes, Decodes-bind, Decodes-last, read_array-Decodes, read_number-Decodes, read_tag-Decodes,
  u8,
}
use open_switcher.Guardian.Payload.{
  IsU64, IsToken, IsDeadline, IsProof, IsMessage, token_bytes, deadline_bytes, proof_bytes,
  payload_of,
}
use open_switcher.Guardian.Wire.{
  PreparedToken, ReleaseDeadline, mutation, cleanup, WireTerminalProof, reconciled,
  owner_generation_destroyed, unreconciled, FatalCode, protocol_violation, deadline_expired,
  deadline_too_far, capacity_exceeded, backend_unavailable, backend_failure, unreconciled_owner,
  hello, prepare_key, execute_down, key_up, synchronize, transfer_to_physical_debt,
  physical_release_committed, cancel_and_drain, release_all_and_exit, Response, ready, prepared,
  down_ack, up_ack, sync_ack, transfer_ack, release_commit_ack, drained, stopped, fatal, Message,
  request, response, kind_of,
}

decode_token-Decodes : (t : PreparedToken) → IsToken t → Decodes decode_token (token_bytes t) t
unfolding decode_token token_bytes
decode_token-Decodes t h = Decodes-bind _ (read_array-Decodes 16 t.session h.0) (
    Decodes-bind _ (read_array-Decodes 16 t.epoch h.1) (
      Decodes-bind _ (read_number-Decodes 8 t.token_id h.2) (
        Decodes-bind _ (read_number-Decodes 2 t.evdev_code h.3)
          (Decodes-last _ (read_tag-Decodes t.x11_keycode)))))

decode_release_deadline-Decodes :
    (d : ReleaseDeadline) → IsDeadline d → Decodes decode_release_deadline (deadline_bytes d) d
unfolding decode_release_deadline release_deadline_of deadline_bytes
decode_release_deadline-Decodes (mutation d) h =
    Decodes-bind release_deadline_of (read_tag-Decodes 1)
      (Decodes-last mutation (read_number-Decodes 8 d h))
decode_release_deadline-Decodes (cleanup d) h =
    Decodes-bind release_deadline_of (read_tag-Decodes 2)
      (Decodes-last cleanup (read_number-Decodes 8 d h))

-- A tag that stands for a value with no further bytes.
tag_only :
    {A : Type 0} (f : ℕ → Get A) (v : ℕ) (a : A)
    → f v ≡ yields a
    → Decodes (read_number 1 >>= f) (u8 v) a
unfolding ◌>>=◌
tag_only f v a e = record { reads = λ rest. rw ((read_tag-Decodes v).reads rest, ◌>>=◌, e) refl }

decode_terminal_proof-Decodes :
    (p : WireTerminalProof) → IsProof p → Decodes decode_terminal_proof (proof_bytes p) p
unfolding decode_terminal_proof terminal_proof_of proof_bytes
decode_terminal_proof-Decodes reconciled h = tag_only terminal_proof_of 1 reconciled refl
decode_terminal_proof-Decodes (owner_generation_destroyed g) h =
    Decodes-bind terminal_proof_of (read_tag-Decodes 2)
      (Decodes-last owner_generation_destroyed (read_number-Decodes 8 g h))
decode_terminal_proof-Decodes (unreconciled n) h =
    Decodes-bind terminal_proof_of (read_tag-Decodes 3)
      (Decodes-last unreconciled (read_number-Decodes 2 n h))

fatal_code_of-code_of : (c : FatalCode) → fatal_code_of (code_of c) ≡ yields c
unfolding fatal_code_of
fatal_code_of-code_of protocol_violation = refl
fatal_code_of-code_of deadline_expired = refl
fatal_code_of-code_of deadline_too_far = refl
fatal_code_of-code_of capacity_exceeded = refl
fatal_code_of-code_of backend_unavailable = refl
fatal_code_of-code_of backend_failure = refl
fatal_code_of-code_of unreconciled_owner = refl

decode_fatal_code-Decodes : (c : FatalCode) → Decodes decode_fatal_code (u8 (code_of c)) c
unfolding decode_fatal_code
decode_fatal_code-Decodes c = tag_only fatal_code_of (code_of c) c (fatal_code_of-code_of c)

decode_ack-Decodes :
    (ack : ℕ → ℕ → Response) (owner token_id : ℕ)
    → IsU64 owner
    → IsU64 token_id
    → Decodes
        (decode_ack ack)
        (to_be_bytes 8 owner ++ to_be_bytes 8 token_id)
        (response (ack owner token_id))
unfolding decode_ack
decode_ack-Decodes ack owner token_id h k =
    Decodes-bind _ (read_number-Decodes 8 owner h)
      (Decodes-last _ (read_number-Decodes 8 token_id k))

pub decode_message-Decodes :
    (m : Message) → IsMessage m → Decodes (decode_message (kind_of m)) (payload_of m) m
unfolding decode_message payload_of decode_hello decode_prepare_key decode_execute_down
    decode_key_up decode_synchronize decode_transfer_to_physical_debt
    decode_physical_release_committed decode_cancel_and_drain decode_release_all_and_exit
    decode_ready decode_prepared decode_drained decode_stopped decode_fatal
decode_message-Decodes (request (hello daemon_nonce deadline)) h =
    Decodes-bind _ (read_array-Decodes 16 daemon_nonce h.0)
      (Decodes-last _ (read_number-Decodes 8 deadline h.1))
decode_message-Decodes (request (prepare_key operation evdev_code deadline)) h =
    Decodes-bind _ (read_number-Decodes 8 operation h.0) (
      Decodes-bind _ (read_number-Decodes 2 evdev_code h.1)
        (Decodes-last _ (read_number-Decodes 8 deadline h.2)))
decode_message-Decodes (request (execute_down operation token deadline)) h =
    Decodes-bind _ (read_number-Decodes 8 operation h.0) (
      Decodes-bind _ (decode_token-Decodes token h.1)
        (Decodes-last _ (read_number-Decodes 8 deadline h.2)))
decode_message-Decodes (request (key_up operation token deadline)) h =
    Decodes-bind _ (read_number-Decodes 8 operation h.0) (
      Decodes-bind _ (decode_token-Decodes token h.1)
        (Decodes-last _ (decode_release_deadline-Decodes deadline h.2)))
decode_message-Decodes (request (synchronize operation token_id deadline)) h =
    Decodes-bind _ (read_number-Decodes 8 operation h.0) (
      Decodes-bind _ (read_number-Decodes 8 token_id h.1)
        (Decodes-last _ (decode_release_deadline-Decodes deadline h.2)))
decode_message-Decodes
      (request (transfer_to_physical_debt operation token input_generation deadline)) h =
    Decodes-bind _ (read_number-Decodes 8 operation h.0) (
      Decodes-bind _ (decode_token-Decodes token h.1) (
        Decodes-bind _ (read_number-Decodes 8 input_generation h.2)
          (Decodes-last _ (read_number-Decodes 8 deadline h.3))))
decode_message-Decodes
      (request (physical_release_committed sequence token input_generation deadline)) h =
    Decodes-bind _ (read_number-Decodes 8 sequence h.0) (
      Decodes-bind _ (decode_token-Decodes token h.1) (
        Decodes-bind _ (read_number-Decodes 8 input_generation h.2)
          (Decodes-last _ (read_number-Decodes 8 deadline h.3))))
decode_message-Decodes (request (cancel_and_drain operation deadline)) h =
    Decodes-bind _ (read_number-Decodes 8 operation h.0)
      (Decodes-last _ (read_number-Decodes 8 deadline h.1))
decode_message-Decodes (request (release_all_and_exit deadline)) h =
    Decodes-last _ (read_number-Decodes 8 deadline h)
decode_message-Decodes (response (ready session epoch epoch_window epoch_nonce)) h =
    Decodes-bind _ (read_array-Decodes 16 session h.0) (
      Decodes-bind _ (read_array-Decodes 16 epoch h.1) (
        Decodes-bind _ (read_number-Decodes 4 epoch_window h.2)
          (Decodes-last _ (read_array-Decodes 16 epoch_nonce h.3))))
decode_message-Decodes (response (prepared operation token)) h =
    Decodes-bind _ (read_number-Decodes 8 operation h.0)
      (Decodes-last _ (decode_token-Decodes token h.1))
decode_message-Decodes (response (down_ack operation token_id)) h =
    decode_ack-Decodes down_ack operation token_id h.0 h.1
decode_message-Decodes (response (up_ack operation token_id)) h =
    decode_ack-Decodes up_ack operation token_id h.0 h.1
decode_message-Decodes (response (sync_ack operation token_id)) h =
    decode_ack-Decodes sync_ack operation token_id h.0 h.1
decode_message-Decodes (response (transfer_ack operation token_id)) h =
    decode_ack-Decodes transfer_ack operation token_id h.0 h.1
decode_message-Decodes (response (release_commit_ack sequence token_id)) h =
    decode_ack-Decodes release_commit_ack sequence token_id h.0 h.1
decode_message-Decodes (response (drained operation proof)) h =
    Decodes-bind _ (read_number-Decodes 8 operation h.0)
      (Decodes-last _ (decode_terminal_proof-Decodes proof h.1))
decode_message-Decodes (response (stopped proof)) h =
    Decodes-last _ (decode_terminal_proof-Decodes proof h)
decode_message-Decodes (response (fatal code)) h = Decodes-last _ (decode_fatal_code-Decodes code)
