-- ===== src/Keyboard/Completions.antt =====
-- src/daemon/keyboard.rs: how the thread that types tells the end of a manual correction to its owner.
use open_switcher.Prelude.{
  ℕ, Bool, true, false, ◌&&◌, List, [], ◌∷◌, ◌++◌, Option, none, some, is_some, String, ◌==◌,
  if◌then◌else◌, Result, ok, err,
}
use open_switcher.Switch.Plans.{CorrectionPlan}
use open_switcher.Keyboard.Control.{
  WriterError, writer_disconnected, transaction_cancelled, transaction_failed,
  WriterCompletionPublication, published, cancelled, receiver_disconnected,
  WriterTransactionControl, cancellation_error, publish_completed_with, publish_soft_cancelled_with,
  publish_failed_with,
}

pub data ManualCurrentWordOutcome : Type 0 where
  succeeded : CorrectionPlan → ManualCurrentWordOutcome
  soft_cancelled : ManualCurrentWordOutcome
  failed_after_mutation : String → ManualCurrentWordOutcome

pub record ManualCurrentWordCompletion : Type 0 where
  pub request_id : ℕ
  pub outcome : ManualCurrentWordOutcome

-- The owner's channel takes a completion as long as the owner listens.
abbrev pub send :
    Bool
    → ManualCurrentWordCompletion
    → List ManualCurrentWordCompletion
    → List ManualCurrentWordCompletion × Bool
send listening completion sent =
    if listening then (sent ++ completion ∷ [], true) else (sent, false)

abbrev pub is_soft_cancelled : ManualCurrentWordOutcome → Bool
is_soft_cancelled soft_cancelled = true
is_soft_cancelled _ = false

abbrev pub is_refused : WriterCompletionPublication → Bool
is_refused cancelled = true
is_refused _ = false

module _ {E : Type 0} where
  abbrev pub cancels : ℕ → WriterError E → Bool
  cancels request_id (transaction_cancelled id) = id == request_id
  cancels request_id _ = false

  -- The text of an error is a parameter.
  unfoldable pub classify_manual_current_word_result :
      {A : Type 0}
      → (WriterError E → String)
      → ℕ
      → CorrectionPlan
      → Result A (WriterError E)
      → ManualCurrentWordOutcome × Option String
  classify_manual_current_word_result to_text request_id plan (ok a) = (succeeded plan, none)
  classify_manual_current_word_result to_text request_id plan (err e) =
      if cancels request_id e
      then (soft_cancelled, none)
      else (failed_after_mutation (to_text e), some (to_text e))

-- The control, what was sent, and whether that was published.
abbrev pub Publication : Type 0
Publication =
    WriterTransactionControl × List ManualCurrentWordCompletion × WriterCompletionPublication

-- `others` and `others'` are what other threads do to the control between the two publications, each
-- before one of the two times that this one takes the lock again.
module _ (E : Type 0) (others others' : WriterTransactionControl → WriterTransactionControl) where
  unfoldable pub publish_success :
      ℕ
      → ℕ
      → Bool
      → ManualCurrentWordCompletion
      → List ManualCurrentWordCompletion
      → WriterTransactionControl
      → Publication
  unfolding cancellation_error
  publish_success now now' listening completion sent c =
      let (c', sent', publication) =
        publish_completed_with (send listening completion) now sent c in
      let seen = others c' in
      if is_refused publication && cancels c.request_id (cancellation_error {E = E} seen)
      then publish_soft_cancelled_with
          (send listening (record { request_id = c.request_id; outcome = soft_cancelled })) now'
          sent' (others' seen)
      else (c', sent', publication)

  unfoldable pub publish_completion :
      ℕ
      → ℕ
      → Bool
      → ManualCurrentWordCompletion
      → Option String
      → List ManualCurrentWordCompletion
      → WriterTransactionControl
      → Publication
  unfolding publish_success
  publish_completion now now' listening completion failure_reason sent c =
      if is_soft_cancelled completion.outcome
      then publish_soft_cancelled_with (send listening completion) now sent c
      else if is_some failure_reason
      then publish_failed_with (send listening completion) now sent c
      else publish_success now now' listening completion sent c

  -- The answer to the thread's own loop. `last` is the control when it is looked at for the last time.
  unfoldable pub completion_answer :
      WriterTransactionControl
      → Option String
      → WriterCompletionPublication
      → Result (Unit {0}) (WriterError E)
  completion_answer last (some reason) published = err (transaction_failed last.request_id reason)
  completion_answer last none published = ok tt
  completion_answer last failure_reason cancelled = err (cancellation_error last)
  completion_answer last failure_reason receiver_disconnected = err writer_disconnected
