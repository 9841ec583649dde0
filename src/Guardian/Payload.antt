-- ===== src/Guardian/Payload.antt =====
-- The bytes of each message, as one list, and what makes a message fit its frame: numbers within
-- their widths, and arrays of 16 bytes.
use open_switcher.Prelude.{ℕ, ◌<◌, ◌≡◌, List, ◌++◌, length}
use open_switcher.Guardian.Bytes.{to_be_bytes}
use open_switcher.Guardian.Codes.{u8}
use open_switcher.Guardian.Encode.{code_of}
use open_switcher.Guardian.Wire.{
  PreparedToken, ReleaseDeadline, mutation, cleanup, WireTerminalProof, reconciled,
  owner_generation_destroyed, unreconciled, hello, prepare_key, execute_down, key_up, synchronize,
  transfer_to_physical_debt, physical_release_committed, cancel_and_drain, release_all_and_exit,
  ready, prepared, down_ack, up_ack, sync_ack, transfer_ack, release_commit_ack, drained, stopped,
  fatal, Message, request, response,
}

abbrev pub IsU16 : ℕ → Type 0
IsU16 v = v < 65536

abbrev pub IsU32 : ℕ → Type 0
IsU32 v = v < 4294967296

abbrev pub IsU64 : ℕ → Type 0
IsU64 v = v < 18446744073709551616

abbrev pub IsToken : PreparedToken → Type 0
IsToken t =
    (length t.session ≡ 16)
    × (length t.epoch ≡ 16)
    × IsU64 t.token_id
    × IsU16 t.evdev_code
    × (t.x11_keycode < 256)

abbrev pub IsDeadline : ReleaseDeadline → Type 0
IsDeadline (mutation d) = IsU64 d
IsDeadline (cleanup d) = IsU64 d

abbrev pub IsProof : WireTerminalProof → Type 0
IsProof reconciled = Unit {0}
IsProof (owner_generation_destroyed g) = IsU64 g
IsProof (unreconciled n) = IsU16 n

abbrev pub IsMessage : Message → Type 0
IsMessage (request (hello daemon_nonce deadline)) = (length daemon_nonce ≡ 16) × IsU64 deadline
IsMessage (request (prepare_key operation evdev_code deadline)) =
    IsU64 operation × IsU16 evdev_code × IsU64 deadline
IsMessage (request (execute_down operation token deadline)) =
    IsU64 operation × IsToken token × IsU64 deadline
IsMessage (request (key_up operation token deadline)) =
    IsU64 operation × IsToken token × IsDeadline deadline
IsMessage (request (synchronize operation token_id deadline)) =
    IsU64 operation × IsU64 token_id × IsDeadline deadline
IsMessage (request (transfer_to_physical_debt operation token input_generation deadline)) =
    IsU64 operation × IsToken token × IsU64 input_generation × IsU64 deadline
IsMessage (request (physical_release_committed sequence token input_generation deadline)) =
    IsU64 sequence × IsToken token × IsU64 input_generation × IsU64 deadline
IsMessage (request (cancel_and_drain operation deadline)) = IsU64 operation × IsU64 deadline
IsMessage (request (release_all_and_exit deadline)) = IsU64 deadline
IsMessage (response (ready session epoch epoch_window epoch_nonce)) =
    (length session ≡ 16) × (length epoch ≡ 16) × IsU32 epoch_window × (length epoch_nonce ≡ 16)
IsMessage (response (prepared operation token)) = IsU64 operation × IsToken token
IsMessage (response (down_ack operation token_id)) = IsU64 operation × IsU64 token_id
IsMessage (response (up_ack operation token_id)) = IsU64 operation × IsU64 token_id
IsMessage (response (sync_ack operation token_id)) = IsU64 operation × IsU64 token_id
IsMessage (response (transfer_ack operation token_id)) = IsU64 operation × IsU64 token_id
IsMessage (response (release_commit_ack sequence token_id)) = IsU64 sequence × IsU64 token_id
IsMessage (response (drained operation proof)) = IsU64 operation × IsProof proof
IsMessage (response (stopped proof)) = IsProof proof
IsMessage (response (fatal code)) = Unit {0}

unfoldable pub token_bytes : PreparedToken → List ℕ
token_bytes t =
    t.session
    ++ (t.epoch ++ (to_be_bytes 8 t.token_id ++ (to_be_bytes 2 t.evdev_code ++ u8 t.x11_keycode)))

unfoldable pub deadline_bytes : ReleaseDeadline → List ℕ
deadline_bytes (mutation d) = u8 1 ++ to_be_bytes 8 d
deadline_bytes (cleanup d) = u8 2 ++ to_be_bytes 8 d

unfoldable pub proof_bytes : WireTerminalProof → List ℕ
proof_bytes reconciled = u8 1
proof_bytes (owner_generation_destroyed g) = u8 2 ++ to_be_bytes 8 g
proof_bytes (unreconciled n) = u8 3 ++ to_be_bytes 2 n

unfoldable pub payload_of : Message → List ℕ
payload_of (request (hello daemon_nonce deadline)) = daemon_nonce ++ (to_be_bytes 8 deadline)
payload_of (request (prepare_key operation evdev_code deadline)) =
    to_be_bytes 8 operation ++ (to_be_bytes 2 evdev_code ++ (to_be_bytes 8 deadline))
payload_of (request (execute_down operation token deadline)) =
    to_be_bytes 8 operation ++ (token_bytes token ++ (to_be_bytes 8 deadline))
payload_of (request (key_up operation token deadline)) =
    to_be_bytes 8 operation ++ (token_bytes token ++ (deadline_bytes deadline))
payload_of (request (synchronize operation token_id deadline)) =
    to_be_bytes 8 operation ++ (to_be_bytes 8 token_id ++ (deadline_bytes deadline))
payload_of (request (transfer_to_physical_debt operation token input_generation deadline)) =
    to_be_bytes 8 operation
    ++ (token_bytes token ++ (to_be_bytes 8 input_generation ++ (to_be_bytes 8 deadline)))
payload_of (request (physical_release_committed sequence token input_generation deadline)) =
    to_be_bytes 8 sequence
    ++ (token_bytes token ++ (to_be_bytes 8 input_generation ++ (to_be_bytes 8 deadline)))
payload_of (request (cancel_and_drain operation deadline)) =
    to_be_bytes 8 operation ++ (to_be_bytes 8 deadline)
payload_of (request (release_all_and_exit deadline)) = to_be_bytes 8 deadline
payload_of (response (ready session epoch epoch_window epoch_nonce)) =
    session ++ (epoch ++ (to_be_bytes 4 epoch_window ++ (epoch_nonce)))
payload_of (response (prepared operation token)) = to_be_bytes 8 operation ++ (token_bytes token)
payload_of (response (down_ack operation token_id)) =
    to_be_bytes 8 operation ++ (to_be_bytes 8 token_id)
payload_of (response (up_ack operation token_id)) =
    to_be_bytes 8 operation ++ (to_be_bytes 8 token_id)
payload_of (response (sync_ack operation token_id)) =
    to_be_bytes 8 operation ++ (to_be_bytes 8 token_id)
payload_of (response (transfer_ack operation token_id)) =
    to_be_bytes 8 operation ++ (to_be_bytes 8 token_id)
payload_of (response (release_commit_ack sequence token_id)) =
    to_be_bytes 8 sequence ++ (to_be_bytes 8 token_id)
payload_of (response (drained operation proof)) = to_be_bytes 8 operation ++ (proof_bytes proof)
payload_of (response (stopped proof)) = proof_bytes proof
payload_of (response (fatal code)) = u8 (code_of code)
