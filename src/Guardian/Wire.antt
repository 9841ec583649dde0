-- ===== src/Guardian/Wire.antt =====
-- src/daemon/xtest_guardian/protocol.rs: the messages. An identifier, a deadline and a sequence are
-- their numbers; an array of bytes is a list of numbers.
use open_switcher.Prelude.{ℕ, List}

pub record ProtocolSession : Type 0 where
  pub session : List ℕ
  pub epoch : List ℕ

pub data ReleaseDeadline : Type 0 where
  mutation cleanup : ℕ → ReleaseDeadline

pub record PreparedToken : Type 0 where
  pub session : List ℕ
  pub epoch : List ℕ
  pub token_id : ℕ
  pub evdev_code : ℕ
  pub x11_keycode : ℕ

pub data WireTerminalProof : Type 0 where
  reconciled : WireTerminalProof
  owner_generation_destroyed : ℕ → WireTerminalProof
  unreconciled : ℕ → WireTerminalProof

pub data FatalCode : Type 0 where
  protocol_violation deadline_expired deadline_too_far capacity_exceeded : FatalCode
  backend_unavailable backend_failure unreconciled_owner : FatalCode

-- Each constructor has the fields of the source, in their order.
pub data Request : Type 0 where
  hello : List ℕ → ℕ → Request
  prepare_key : ℕ → ℕ → ℕ → Request
  execute_down : ℕ → PreparedToken → ℕ → Request
  key_up : ℕ → PreparedToken → ReleaseDeadline → Request
  synchronize : ℕ → ℕ → ReleaseDeadline → Request
  transfer_to_physical_debt : ℕ → PreparedToken → ℕ → ℕ → Request
  physical_release_committed : ℕ → PreparedToken → ℕ → ℕ → Request
  cancel_and_drain : ℕ → ℕ → Request
  release_all_and_exit : ℕ → Request

pub data Response : Type 0 where
  ready : List ℕ → List ℕ → ℕ → List ℕ → Response
  prepared : ℕ → PreparedToken → Response
  down_ack up_ack sync_ack transfer_ack release_commit_ack : ℕ → ℕ → Response
  drained : ℕ → WireTerminalProof → Response
  stopped : WireTerminalProof → Response
  fatal : FatalCode → Response

pub data Message : Type 0 where
  request : Request → Message
  response : Response → Message

pub record DecodedFrame : Type 0 where
  pub sequence : ℕ
  pub message : Message

-- The kinds of the messages.
abbrev pub kind_of : Message → ℕ
kind_of (request (hello _ _)) = 1
kind_of (request (prepare_key _ _ _)) = 2
kind_of (request (execute_down _ _ _)) = 3
kind_of (request (key_up _ _ _)) = 4
kind_of (request (synchronize _ _ _)) = 5
kind_of (request (transfer_to_physical_debt _ _ _ _)) = 6
kind_of (request (physical_release_committed _ _ _ _)) = 7
kind_of (request (cancel_and_drain _ _)) = 8
kind_of (request (release_all_and_exit _)) = 9
kind_of (response (ready _ _ _ _)) = 101
kind_of (response (prepared _ _)) = 102
kind_of (response (down_ack _ _)) = 103
kind_of (response (up_ack _ _)) = 104
kind_of (response (sync_ack _ _)) = 105
kind_of (response (transfer_ack _ _)) = 106
kind_of (response (release_commit_ack _ _)) = 107
kind_of (response (drained _ _)) = 108
kind_of (response (stopped _)) = 109
kind_of (response (fatal _)) = 110

abbrev pub header_bytes : ℕ
header_bytes = 17

abbrev pub max_frame_bytes : ℕ
max_frame_bytes = 128

abbrev pub protocol_version : ℕ
protocol_version = 1

abbrev pub max_prepared_tokens : ℕ
max_prepared_tokens = 512

abbrev pub max_active_debts : ℕ
max_active_debts = 32

abbrev pub max_transaction_timeout_ns : ℕ
max_transaction_timeout_ns = 5000000000

abbrev pub max_release_cleanup_ns : ℕ
max_release_cleanup_ns = 1000000000
