-- ===== src/Keyboard/Endings.antt =====
-- The ends of a transaction: it has one, and a timeout is one of the whole writer.
use open_switcher.Prelude.{ℕ, Option, true, false, List, [], ◌∷◌, ◌≡◌, arith, ◌==◌}
use open_switcher.Keyboard.Control.{
  is_pending, is_timed_out, WriterTransactionControl, new_with_writer_state, try_mark_timed_out,
  request_soft_cancel, publish_unless, authorize_cleanup_mutation_start, ensure_active,
  authorize_mutation_start, try_request_stop_for_input_worker_loss,
}
use open_switcher.Keyboard.History.{
  Reply, Call, act, update_at, Writer, control_of, Event, calls, stops, step, run, WriterRequest,
  new_writer,
}

-- What a call leaves: an end that was there, the first failure of the writer, and a timeout only with a
-- failure.
record Kept (c c' : WriterTransactionControl) : Type 0 where
  named : c'.request_id ≡ c.request_id
  ended : is_pending c.state ≡ false → c'.state ≡ c.state
  failed : (c.failure_request_id == 0) ≡ false → c'.failure_request_id ≡ c.failure_request_id
  timed :
      (c.request_id == 0) ≡ false
      → (is_timed_out c.state ≡ true → (c.failure_request_id == 0) ≡ false)
      → is_timed_out c'.state ≡ true
      → (c'.failure_request_id == 0) ≡ false

act-Kept :
    {E : Type 0} (call : Call E) (c : WriterTransactionControl) (rs : List Reply)
    → Kept c (act call c rs).0
unfolding act request_soft_cancel try_mark_timed_out publish_unless ensure_active
    authorize_mutation_start authorize_cleanup_mutation_start try_request_stop_for_input_worker_loss
act-Kept call c rs = record {
  named = ground arith;
  ended = λ h. ground arith;
  failed = λ h. ground arith;
  timed = λ h k t. ground arith;
}

-- A transaction that is timed out, with a writer that has failed.
record Timed (w : Writer) (j : ℕ) : Type 0 where
  named : ((w.transactions j).request_id == 0) ≡ false
  failed : is_timed_out (w.transactions j).state ≡ true → (w.failure_request_id == 0) ≡ false

step-Timed :
    {E : Type 0} (w : Writer) (e : Event E) → ((j : ℕ) → Timed w j) → (j : ℕ) → Timed (step w e) j
unfolding step
step-Timed w (calls i call) h j =
    let kept = act-Kept call (control_of w i) (w.replies i) in
    let shared' = (act call (control_of w i) (w.replies i)).0.shared in
    record {
      named =
          update_at (λ c. (c.request_id == 0) ≡ false) w.transactions i j _
            (λ _. rw kept.named (h i).named) (h j).named;
      failed =
          update_at (λ c. is_timed_out c.state ≡ true → (shared'.failure_request_id == 0) ≡ false)
            w.transactions i j _ (λ _. kept.timed (h i).named (h i).failed)
            λ t. rw (kept.failed ((h j).failed t)) ((h j).failed t);
    }
step-Timed w stops h j = record { named = (h j).named; failed = (h j).failed }

run-Timed :
    {E : Type 0} (w : Writer) (es : List (Event E))
    → ((j : ℕ) → Timed w j)
    → (j : ℕ) → Timed (run w es) j
unfolding run
run-Timed w [] h j = h j
run-Timed w (e ∷ es) h j = run-Timed (step w e) es (step-Timed w e h) j

-- Where no transaction of a new writer has the identifier 0, a timeout of one, at any time, is recorded
-- as the writer's failure.
pub timed_out_fails_writer :
    {E : Type 0} (instant_add : ℕ → ℕ → Option ℕ) (requests : ℕ → WriterRequest)
    (es : List (Event E))
    → ((i : ℕ) → ((requests i).request_id == 0) ≡ false)
    → (j : ℕ)
    → is_timed_out ((run (new_writer instant_add requests) es).transactions j).state ≡ true
    → ((run (new_writer instant_add requests) es).failure_request_id == 0) ≡ false
unfolding new_writer new_with_writer_state
timed_out_fails_writer instant_add requests es named j =
    (run-Timed (new_writer instant_add requests) es
      (λ i. record { named = named i; failed = λ t. cc }) j).failed
