-- ===== src/Tests/GuardianInput.antt =====
-- The XTest guardian: one key, prepared, pressed, synchronized and released.
use open_switcher.Prelude.{
  ℕ, ◌≤◌, ◌≡◌, refl, arith, true, false, List, [], ◌∷◌, none, some, length, ok,
}
use open_switcher.Synthetic.KeyLedger.{broken}
use open_switcher.Guardian.Wire.{
  ProtocolSession, PreparedToken, prepare_key, execute_down, synchronize, mutation, cleanup, key_up,
  Message, request, down_ack, response,
}
use open_switcher.Guardian.State.{
  ProtocolState, debt_count, validate_normal_deadline, validate_future_deadline,
  validate_prepare_operation, validate_token_identity, same_bytes, validate_active_operation,
  validate_operation_deadline, validate_release_deadline, find_token, find_first, write_first,
  remove_first,
}
use open_switcher.Guardian.Encode.{encode_frame}
use open_switcher.Guardian.Decode.{decode_frame}
use open_switcher.Guardian.Accept.{
  accept, accept_request, accept_prepare, accept_execute_down, accept_synchronize, accept_key_up,
  ready_after_handshake,
}
use open_switcher.Guardian.Outcomes.{
  complete_synchronize, record_down_attempt, record_prepared, response_matches,
}
use open_switcher.Guardian.RoundTrip.{decode_frame-encode_frame}
use open_switcher.Guardian.Bounded.{IsBounded}
use open_switcher.Guardian.History.{
  Event, accepts, prepares, attempts_down, completes, on_event, on_events, on_events-Bounded,
}
use open_switcher.Guardian.Refusals.{Answered, accept-Answered, accept_terminal}

abbrev sixteen : List ℕ
sixteen = 1 ∷ 2 ∷ 3 ∷ 4 ∷ 5 ∷ 6 ∷ 7 ∷ 8 ∷ 9 ∷ 10 ∷ 11 ∷ 12 ∷ 13 ∷ 14 ∷ 15 ∷ 16 ∷ []

abbrev session : ProtocolSession
session = record { session = sixteen; epoch = sixteen }

abbrev token : PreparedToken
token = record {
  session = sixteen;
  epoch = sixteen;
  token_id = 1;
  evdev_code = 30;
  x11_keycode = 38;
}

abbrev pressing : Message
pressing = request (execute_down 7 token 5000)

decode_frame-encode_frame_example :
    (bytes : List ℕ) × (encode_frame 9 pressing ≡ ok bytes)
    × (length bytes ≤ 85)
    × (decode_frame bytes ≡ ok (record { sequence = 9; message = pressing }))
decode_frame-encode_frame_example =
    decode_frame-encode_frame 9 pressing (omega arith) (omega arith)
      (omega arith, (refl, refl, omega arith, omega arith, omega arith), omega arith)

short_frame : decode_frame (1 ∷ 2 ∷ []) ≡ broken "XTEST guardian frame header is truncated"
unfolding decode_frame
short_frame = refl

abbrev greeted : ProtocolState
greeted = record {
  session = session;
  last_sequence = 1;
  last_operation = 0;
  active_operation = none;
  operation_deadline = none;
  last_prepared_token_id = 0;
  last_physical_release_sequence = 0;
  pending_prepare = none;
  pending_sync = none;
  tokens = [];
  terminal = false;
  cleanup_deadline = none;
}

-- The key goes down and is synchronized; its release is accepted but not synchronized.
abbrev held : List Event
held =
    accepts 2 (prepare_key 7 30 5000) 10
    ∷ prepares 7 token
    ∷ accepts 3 (execute_down 7 token 5000) 20
    ∷ attempts_down 1
    ∷ accepts 4 (synchronize 7 1 (mutation 5000)) 30
    ∷ completes 1
    ∷ accepts 5 (key_up 7 token (mutation 5000)) 40
    ∷ []

greeted_after_handshake : ready_after_handshake session 1 ≡ ok greeted
unfolding ready_after_handshake
greeted_after_handshake = refl

held_debt : debt_count (on_events greeted held) ≡ 1
unfolding on_events on_event debt_count accept accept_request accept_prepare accept_execute_down
    accept_synchronize accept_key_up complete_synchronize record_down_attempt record_prepared
    validate_normal_deadline validate_future_deadline validate_prepare_operation
    validate_token_identity same_bytes validate_active_operation validate_operation_deadline
    validate_release_deadline find_token find_first write_first remove_first
held_debt = refl

on_events-Bounded_example : IsBounded (on_events greeted held)
on_events-Bounded_example = on_events-Bounded session 1 greeted held greeted_after_handshake

accept-Answered_example :
    Answered
      (on_events greeted held)
      6
      (accept (on_events greeted held) 6 (synchronize 7 1 (mutation 5000)) 50)
accept-Answered_example =
    accept-Answered (on_events greeted held) 6 (synchronize 7 1 (mutation 5000)) 50

abbrev ending : ProtocolState
ending = record greeted { terminal = true; cleanup_deadline = some 900 }

accept_terminal_example :
    ((accept ending 3 (execute_down 7 token 5000) 20).0.terminal ≡ true)
    × ((accept ending 3 (execute_down 7 token 5000) 20).0.tokens ≡ ending.tokens)
accept_terminal_example = accept_terminal ending 3 (execute_down 7 token 5000) 20 refl

wrong_answer :
    response_matches 9
      (key_up 7 token (cleanup 900))
      (record { sequence = 9; message = response (down_ack 7 1) })
    ≡ broken "XTEST guardian response does not match request"
unfolding response_matches
wrong_answer = refl
