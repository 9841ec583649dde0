-- ===== src/Keyboard/Control.antt =====
-- src/daemon/keyboard.rs: `WriterTransactionControl`. Each method that writes holds the lock
-- `terminal_gate`, which all transactions of one writer share, so each is one step on the state. The
-- clock is read once in a method and is an argument, as are the two answers of the session's lease.
use open_switcher.Prelude.{
  ℕ, Option, none, some, Bool, true, false, not, ◌||◌, String, leb, ◌==◌, if◌then◌else◌, Result, ok,
  err,
}

pub data WriterTransactionState : Type 0 where
  pending completed timed_out : WriterTransactionState

-- The error types of the session's lease are those of `E`.
pub data WriterError (E : Type 0) : Type 0 where
  session_error : E → WriterError E
  transaction_timed_out : (request_id : ℕ) → WriterError E
  writer_disconnected : WriterError E
  transaction_cancelled : (request_id : ℕ) → WriterError E
  transaction_failed : (request_id : ℕ) → String → WriterError E

-- `Completed`, `Cancelled` and `ReceiverDisconnected`.
pub data WriterCompletionPublication : Type 0 where
  published cancelled receiver_disconnected : WriterCompletionPublication

pub data WriterSoftCancelRequest : Type 0 where
  requested already_requested already_completed terminal : WriterSoftCancelRequest

-- What all transactions of one writer share. No failure is 0.
pub record WriterShared : Type 0 where
  pub failure_request_id : ℕ
  pub stop_requested : Bool

pub record WriterTransactionControl : Type 0 where
  pub request_id : ℕ
  pub deadline : ℕ
  pub state : WriterTransactionState
  pub soft_cancel_requested : Bool
  pub mutation_authorized : Bool
  pub shared : WriterShared
  pub open shared use *

-- `Instant::checked_add` is a parameter; where it has no answer the clock is read once more.
unfoldable pub new_with_writer_state :
    (ℕ → ℕ → Option ℕ) → ℕ → ℕ → ℕ → ℕ → WriterShared → WriterTransactionControl
new_with_writer_state instant_add now later request_id timeout shared = record {
  request_id = request_id;
  deadline = elim (instant_add now timeout) [ some t ↦ t | none ↦ later ];
  state = pending;
  soft_cancel_requested = false;
  mutation_authorized = false;
  shared = shared;
}

abbrev pub is_pending : WriterTransactionState → Bool
is_pending pending = true
is_pending _ = false

abbrev pub is_timed_out : WriterTransactionState → Bool
is_timed_out timed_out = true
is_timed_out _ = false

unfoldable pub is_cancelled : WriterTransactionControl → Bool
is_cancelled c =
    is_timed_out c.state
    || c.soft_cancel_requested
    || c.stop_requested
    || not (c.failure_request_id == 0)

unfoldable pub timed_out_error : {E : Type 0} → WriterTransactionControl → WriterError E
timed_out_error c =
    transaction_timed_out (if c.failure_request_id == 0 then c.request_id else c.failure_request_id)

unfoldable pub cancellation_error : {E : Type 0} → WriterTransactionControl → WriterError E
unfolding timed_out_error
cancellation_error c =
    if is_timed_out c.state || not (c.failure_request_id == 0)
    then timed_out_error c
    else if c.stop_requested
    then writer_disconnected
    else if c.soft_cancel_requested
    then transaction_cancelled c.request_id
    else timed_out_error c

-- The state and the first failure of the writer, set by a transaction that is not over.
abbrev timed_out_control : WriterTransactionControl → WriterTransactionControl
timed_out_control c = record c {
  state = timed_out;
  shared = record c.shared {
    failure_request_id = if c.failure_request_id == 0 then c.request_id else c.failure_request_id;
  };
}

unfoldable pub try_mark_timed_out : WriterTransactionControl → WriterTransactionControl × Bool
try_mark_timed_out c =
    if c.stop_requested || not (is_pending c.state) then (c, false) else (timed_out_control c, true)

-- The source takes the lock for each of the two parts; here no other thread has it in between.
unfoldable pub mark_timed_out :
    {E : Type 0} → WriterTransactionControl → WriterTransactionControl × WriterError E
unfolding try_mark_timed_out cancellation_error
mark_timed_out c = let c' = (try_mark_timed_out c).0 in (c', cancellation_error c')

abbrev pub stopped_or_failed : WriterTransactionControl → Bool
stopped_or_failed c = c.stop_requested || not (c.failure_request_id == 0)

unfoldable pub request_soft_cancel :
    ℕ → WriterTransactionControl → WriterTransactionControl × WriterSoftCancelRequest
unfolding try_mark_timed_out
request_soft_cancel now c = if stopped_or_failed c then (c, terminal) else elim c.state [
  | completed ↦ (c, already_completed)
  | timed_out ↦ (c, terminal)
  | pending ↦ if leb c.deadline now then ((try_mark_timed_out c).0, terminal) else (
    record c { soft_cancel_requested = true },
    if c.soft_cancel_requested then already_requested else requested,
  )
]

-- The part that the three publications share. `refused` is the test of the soft cancellation, and
-- `publish_reply` the effect on the channel `R` of the one who waits, and whether it took the reply.
module _ {R : Type 0} (publish_reply : R → R × Bool) where
  abbrev publish_now :
      R → WriterTransactionControl → WriterTransactionControl × R × WriterCompletionPublication
  publish_now r c =
      let (r', delivered) = publish_reply r in
      if delivered
      then (record c { state = completed }, r', published)
      else (c, r', receiver_disconnected)

  unfoldable pub publish_unless :
      (WriterTransactionControl → Bool)
      → ℕ
      → R
      → WriterTransactionControl
      → WriterTransactionControl × R × WriterCompletionPublication
  unfolding try_mark_timed_out
  publish_unless refused now r c =
      if stopped_or_failed c || not (is_pending c.state)
      then (c, r, cancelled)
      else if leb c.deadline now
      then ((try_mark_timed_out c).0, r, cancelled)
      else if refused c
      then (c, r, cancelled)
      else publish_now r c

  abbrev pub publish_completed_with :
      ℕ → R → WriterTransactionControl → WriterTransactionControl × R × WriterCompletionPublication
  publish_completed_with = publish_unless λ c. c.soft_cancel_requested

  abbrev pub publish_soft_cancelled_with :
      ℕ → R → WriterTransactionControl → WriterTransactionControl × R × WriterCompletionPublication
  publish_soft_cancelled_with = publish_unless λ c. not c.soft_cancel_requested

  abbrev pub publish_failed_with :
      ℕ → R → WriterTransactionControl → WriterTransactionControl × R × WriterCompletionPublication
  publish_failed_with = publish_unless λ c. false

abbrev pub Checked : Type 0 → Type 0
Checked E = WriterTransactionControl × Result (Unit {0}) (WriterError E)

abbrev fail : {E : Type 0} → WriterTransactionControl → WriterError E → Checked E
fail c e = (c, err e)

module _ {E : Type 0} where
  unfoldable pub authorize_cleanup_mutation_start : ℕ → WriterTransactionControl → Checked E
  unfolding try_mark_timed_out timed_out_error
  authorize_cleanup_mutation_start now c =
      let marked = (try_mark_timed_out c).0 in
      if c.stop_requested
      then fail c writer_disconnected
      else if not (c.failure_request_id == 0)
      then fail marked (timed_out_error marked)
      else elim c.state [
        | timed_out ↦ fail c (timed_out_error c)
        | completed ↦ fail c (transaction_failed c.request_id "transaction is already completed")
        | pending ↦ if leb c.deadline now then fail marked (timed_out_error marked) else (c, ok tt)
      ]

  -- The tests of `authorize_cleanup_mutation_start` stand here once more, then those that are its own.
  unfoldable pub ensure_active :
      Result (Unit {0}) E → ℕ → Result (Unit {0}) E → WriterTransactionControl → Checked E
  unfolding authorize_cleanup_mutation_start
  ensure_active first now last c = elim first [
    | err e ↦ fail c (session_error e)
    | ok _ ↦
        let (c', checked) = authorize_cleanup_mutation_start now c in
        elim checked [
          | err e ↦ fail c' e
          | ok _ ↦
              if c'.soft_cancel_requested
              then fail c' (transaction_cancelled c'.request_id)
              else elim last [ err e ↦ fail c' (session_error e) | ok _ ↦ (c', ok tt) ]
        ]
  ]

  unfoldable pub authorize_mutation_start :
      Result (Unit {0}) E → ℕ → Result (Unit {0}) E → WriterTransactionControl → Checked E
  unfolding ensure_active
  authorize_mutation_start first now last c =
      let (c', checked) = ensure_active first now last c in
      elim checked [ err e ↦ fail c' e | ok _ ↦ (record c' { mutation_authorized = true }, ok tt) ]

unfoldable pub try_request_stop_for_input_worker_loss :
    ℕ → WriterTransactionControl → WriterTransactionControl × Bool
unfolding try_mark_timed_out
try_request_stop_for_input_worker_loss now c =
    if stopped_or_failed c || not (is_pending c.state)
    then (c, false)
    else if leb c.deadline now
    then ((try_mark_timed_out c).0, false)
    else (record c { shared = record c.shared { stop_requested = true } }, true)
