-- ===== src/Keyboard/Replies.antt =====
-- What a transaction answers, whatever the calls on it and on the others.
use open_switcher.Prelude.{
  ℕ, Option, Bool, true, false, not, List, [], ◌∷◌, ◌≡◌, refl, arith, ℕ_discrete,
}
use open_switcher.Keyboard.Control.{
  WriterTransactionState, completed, WriterTransactionControl, new_with_writer_state,
  try_mark_timed_out, request_soft_cancel, publish_unless, authorize_cleanup_mutation_start,
  ensure_active, authorize_mutation_start, try_request_stop_for_input_worker_loss,
}
use open_switcher.Keyboard.History.{
  Reply, completion, cancellation, failure, Call, act, Writer, control_of, Event, calls, stops,
  step, run, WriterRequest, new_writer,
}

-- A completion answers a transaction that nobody asked to cancel, a cancellation one that somebody did.
abbrev reply_fits : Bool → Reply → Bool
reply_fits soft completion = not soft
reply_fits soft cancellation = soft
reply_fits soft failure = true

-- One fitting reply for a transaction that is completed, and none for another.
unfoldable pub settled : WriterTransactionState → Bool → List Reply → Bool
settled completed soft (reply ∷ []) = reply_fits soft reply
settled completed soft _ = false
settled _ soft [] = true
settled _ soft _ = false

act-settled :
    {E : Type 0} (call : Call E) (c : WriterTransactionControl) (rs : List Reply)
    → settled c.state c.soft_cancel_requested rs ≡ true
    → settled (act call c rs).0.state (act call c rs).0.soft_cancel_requested (act call c rs).1
      ≡ true
unfolding act request_soft_cancel try_mark_timed_out publish_unless ensure_active
    authorize_mutation_start authorize_cleanup_mutation_start try_request_stop_for_input_worker_loss
    settled
act-settled call c rs h = ground arith

abbrev Settled : Writer → ℕ → Type 0
Settled w j =
    settled (w.transactions j).state (w.transactions j).soft_cancel_requested (w.replies j) ≡ true

step-Settled :
    {E : Type 0} (w : Writer) (e : Event E)
    → ((j : ℕ) → Settled w j)
    → (j : ℕ) → Settled (step w e) j
unfolding step
step-Settled w (calls i call) h j =
    let done = act-settled call (control_of w i) (w.replies i) (h i) in
    elim (ℕ_discrete i j) [
      | yes here ↦ ground (arith, done, here)
      | no other ↦ ground (arith, other, h j)
    ]
step-Settled w stops h j = h j

run-Settled :
    {E : Type 0} (w : Writer) (es : List (Event E))
    → ((j : ℕ) → Settled w j)
    → (j : ℕ) → Settled (run w es) j
unfolding run
run-Settled w [] h j = h j
run-Settled w (e ∷ es) h j = run-Settled (step w e) es (step-Settled w e h) j

-- Whatever calls threads make on the transactions of a new writer, the one who waits for a transaction
-- gets one reply if it is completed and none otherwise, and that reply is a cancellation only if the
-- cancellation was asked for, and a completion only if it was not.
pub run-settled :
    {E : Type 0} (instant_add : ℕ → ℕ → Option ℕ) (requests : ℕ → WriterRequest)
    (es : List (Event E)) (j : ℕ)
    → let w = run (new_writer instant_add requests) es in
      settled (w.transactions j).state (w.transactions j).soft_cancel_requested (w.replies j) ≡ true
unfolding new_writer new_with_writer_state settled
run-settled instant_add requests es j =
    run-Settled (new_writer instant_add requests) es (λ i. refl) j
