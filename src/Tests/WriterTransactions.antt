-- ===== src/Tests/WriterTransactions.antt =====
-- Calls on the transactions of a writer, and a sleep.
use open_switcher.Prelude.{
  none, ℕ, suc, ◌+◌, ◌*◌, ◌≡◌, refl, arith, true, false, not, ◌||◌, List, [], ◌∷◌, Option, some,
  ◌==◌, ok, is_some, ℕ_discrete,
}
use open_switcher.Activity.Publication.{SessionError}
use open_switcher.Keyboard.Control.{
  pending, is_timed_out, is_pending, WriterTransactionControl, new_with_writer_state,
  request_soft_cancel, cancellation_error, publish_unless, ensure_active, authorize_mutation_start,
}
use open_switcher.Keyboard.History.{
  completion, cancellation, soft_cancels, publishes, checks, authorizes, act, Writer, Event, calls,
  step, run, WriterRequest, new_writer, running,
}
use open_switcher.Key.{key_leftalt, key_leftshift}
use open_switcher.Model.Combos.{alt_shift}
use open_switcher.Keyboard.Modifiers.{
  ModifierState, update, matches_layout_switch_combo, keeps_layout_switch_combo_active, to_bits,
  from_bits,
}
use open_switcher.Keyboard.Completions.{
  ManualCurrentWordOutcome, failed_after_mutation, ManualCurrentWordCompletion, Publication,
  publish_completion, publish_success,
}
use open_switcher.Keyboard.CompletionLaws.{Told, publish_completion-Told}
use open_switcher.Keyboard.ModifierLaws.{matches-keeps_shared}
use open_switcher.Keyboard.Replies.{settled, run-settled}
use open_switcher.Keyboard.Closing.{closed_writer_types_nothing}
use open_switcher.Keyboard.Endings.{timed_out_fails_writer}
use open_switcher.Keyboard.Sleep.{Round, Ticks, sleep_interruptibly, sleep_interruptibly_returns}

abbrev add : ℕ → ℕ → Option ℕ
add a b = some (a + b)

abbrev request_at : ℕ → WriterRequest
request_at i = record { now = 0; later = 0; request_id = suc i; timeout = 100 }

abbrev two_calls : List (Event SessionError)
two_calls =
    calls 0 (authorizes (ok tt) 1 (ok tt))
    ∷ calls 1 (soft_cancels 2)
    ∷ calls 0 (publishes completion 3 true)
    ∷ calls 1 (publishes completion 4 true)
    ∷ calls 1 (publishes cancellation 5 true)
    ∷ []

abbrev after_two : Writer
after_two = run (new_writer add request_at) two_calls

-- The first is completed, the second is answered by a cancellation only.
two_answered : (after_two.replies 0 ≡ completion ∷ []) × (after_two.replies 1 ≡ cancellation ∷ [])
unfolding run step act new_writer ℕ_discrete publish_unless request_soft_cancel
    authorize_mutation_start new_with_writer_state
two_answered = (refl, refl)

run-settled_example :
    settled
      (after_two.transactions 1).state
      (after_two.transactions 1).soft_cancel_requested
      (after_two.replies 1)
    ≡ true
run-settled_example = run-settled add request_at two_calls 1

abbrev late : List (Event SessionError)
late = calls 0 (checks (ok tt) 100 (ok tt)) ∷ []

abbrev late_writer : Writer
late_writer = run (new_writer add request_at) late

late_timed : is_timed_out (late_writer.transactions 0).state ≡ true
unfolding run step act new_writer ensure_active ℕ_discrete new_with_writer_state
late_timed = refl

timed_out_fails_writer_example : (late_writer.failure_request_id == 0) ≡ false
timed_out_fails_writer_example =
    timed_out_fails_writer add request_at late (λ i. ground arith) 0 late_timed

late_closed : (late_writer.stop_requested || not (late_writer.failure_request_id == 0)) ≡ true
unfolding run step act new_writer ensure_active ℕ_discrete new_with_writer_state
late_closed = refl

closed_writer_types_nothing_example :
    (((run late_writer two_calls).transactions 1).mutation_authorized
      ≡ (late_writer.transactions 1).mutation_authorized)
    × ((run late_writer two_calls).replies 1 ≡ late_writer.replies 1)
closed_writer_types_nothing_example =
    closed_writer_types_nothing late_writer two_calls 1 late_closed

late_ended : is_pending (late_writer.transactions 0).state ≡ false
unfolding run step act new_writer ensure_active ℕ_discrete new_with_writer_state
late_ended = refl

-- A clock that each round finds where the sleep before it ended.
abbrev quantum_rounds : ℕ → Round SessionError
quantum_rounds k = record {
  state = pending;
  soft_cancel_requested = false;
  shared = running;
  first = ok tt;
  checked_at = 5000000 * k;
  last = ok tt;
  now = 5000000 * k;
}

abbrev long_transaction : WriterTransactionControl
long_transaction = new_with_writer_state add 0 0 1 100000000 running

quantum_rounds-Ticks : Ticks add quantum_rounds long_transaction (0 + 9000000)
unfolding new_with_writer_state
quantum_rounds-Ticks = record { forward = λ k. omega arith; slept = λ k. omega arith }

sleep_interruptibly_returns_example :
    is_some (sleep_interruptibly add quantum_rounds (suc 2) long_transaction 0 9000000) ≡ true
sleep_interruptibly_returns_example =
    sleep_interruptibly_returns add quantum_rounds 2 long_transaction 0 9000000 refl
      quantum_rounds-Ticks (omega arith) (omega arith)

-- Left Alt is held and left Shift is pressed.
abbrev alt_and_shift : ModifierState
alt_and_shift = update key_leftshift 1 (update key_leftalt 1 (from_bits 0))

alt_shift_matched : matches_layout_switch_combo alt_and_shift alt_shift key_leftshift 1 ≡ true
unfolding matches_layout_switch_combo update from_bits
alt_shift_matched = refl

matches-keeps_shared_example :
    keeps_layout_switch_combo_active (from_bits (to_bits alt_and_shift)) alt_shift ≡ true
matches-keeps_shared_example =
    matches-keeps_shared alt_and_shift alt_shift key_leftshift 1 alt_shift_matched λ e. cc

-- A correction that is done, and that its owner asked to cancel in the meantime.
abbrev done : ManualCurrentWordCompletion
done = record { request_id = 1; outcome = failed_after_mutation "" }

abbrev cancelled_transaction : WriterTransactionControl
cancelled_transaction = (request_soft_cancel 1 long_transaction).0

abbrev told : Publication
told = publish_completion SessionError (λ c. c) (λ c. c) 2 3 true done none [] cancelled_transaction

cancellation_told :
    told.1 ≡ record { request_id = 1; outcome = ManualCurrentWordOutcome.soft_cancelled } ∷ []
unfolding publish_completion publish_success publish_unless request_soft_cancel
    new_with_writer_state cancellation_error
cancellation_told = refl

publish_completion-Told_example : Told [] done told.1 told.2
unfolding request_soft_cancel new_with_writer_state
publish_completion-Told_example =
    publish_completion-Told SessionError (λ c. c) (λ c. c) 2 3 true done none []
      cancelled_transaction refl
