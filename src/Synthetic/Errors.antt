-- ===== src/Synthetic/Errors.antt =====
-- src/error/input_safety_error.rs, and the part of `SwitcherError` that
-- src/daemon/synthetic_input.rs makes.
use open_switcher.Prelude.{ℕ, String, Result}

pub data InputSafetyError : Type 0 where
  invalid_entrypoint : InputSafetyError
  invariant : String → InputSafetyError
  protocol_violation : ℕ → String → InputSafetyError
  session_modifier_protocol_violation : ℕ → String → InputSafetyError
  operation_cancelled : ℕ → InputSafetyError
  operation_timed_out : ℕ → InputSafetyError
  reconciliation : ℕ → ℕ → InputSafetyError
  guardian_unavailable : String → InputSafetyError
  guardian_request_timed_out : ℕ → InputSafetyError
  guardian_protocol : String → InputSafetyError
  guardian_emergency_timed_out : ℕ → InputSafetyError
  oversized_frame : ℕ → ℕ → InputSafetyError

-- `external` stands for the errors of a key sink, which come from outside this file.
pub data SwitcherError : Type 0 where
  input_safety : InputSafetyError → SwitcherError
  external : ℕ → SwitcherError

abbrev pub Fallible : Type 0 → Type 0
Fallible A = Result A SwitcherError

abbrev pub Status : Type 0
Status = Fallible (Unit {0})
