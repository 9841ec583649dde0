-- ===== src/Keyboard/Closing.antt =====
-- What a timeout or a stop leaves: a writer that types nothing more.
use open_switcher.Prelude.{ℕ, true, not, ◌||◌, List, [], ◌∷◌, ◌≡◌, refl, ◌∙◌, arith, ◌==◌}
use open_switcher.Keyboard.Control.{
  WriterTransactionControl, stopped_or_failed, try_mark_timed_out, request_soft_cancel,
  publish_unless, authorize_cleanup_mutation_start, ensure_active, authorize_mutation_start,
  try_request_stop_for_input_worker_loss,
}
use open_switcher.Keyboard.History.{
  Reply, Call, act, update_at, Writer, control_of, Event, calls, stops, step, run,
}

-- What no call may change of a transaction once its writer has failed or stops.
record Frozen (c c' : WriterTransactionControl) (rs rs' : List Reply) : Type 0 where
  closed : stopped_or_failed c' ≡ true
  authorized : c'.mutation_authorized ≡ c.mutation_authorized
  answered : rs' ≡ rs

act-Frozen :
    {E : Type 0} (call : Call E) (c : WriterTransactionControl) (rs : List Reply)
    → stopped_or_failed c ≡ true
    → Frozen c (act call c rs).0 rs (act call c rs).1
unfolding act request_soft_cancel try_mark_timed_out publish_unless ensure_active
    authorize_mutation_start authorize_cleanup_mutation_start try_request_stop_for_input_worker_loss
act-Frozen call c rs h = record {
  closed = ground arith;
  authorized = ground arith;
  answered = ground arith;
}

-- The same of every transaction of a writer.
record FrozenWriter (w w' : Writer) : Type 0 where
  closed : stopped_or_failed (control_of w' 0) ≡ true
  authorized :
      (j : ℕ) → (w'.transactions j).mutation_authorized ≡ (w.transactions j).mutation_authorized
  answered : (j : ℕ) → w'.replies j ≡ w.replies j

step-FrozenWriter :
    {E : Type 0} (w : Writer) (e : Event E)
    → stopped_or_failed (control_of w 0) ≡ true
    → FrozenWriter w (step w e)
unfolding step
step-FrozenWriter w (calls i call) h =
    let frozen = act-Frozen call (control_of w i) (w.replies i) h in
    record {
      closed = frozen.closed;
      authorized = λ j.
          update_at (λ c. c.mutation_authorized ≡ (w.transactions j).mutation_authorized)
            w.transactions i j _ (λ here. rw (← here) frozen.authorized) refl;
      answered = λ j.
          update_at (λ rs. rs ≡ w.replies j) w.replies i j _ (λ here. rw (← here) frozen.answered)
            refl;
    }
step-FrozenWriter w stops h = record { closed = refl; authorized = λ j. refl; answered = λ j. refl }

run-FrozenWriter :
    {E : Type 0} (w : Writer) (es : List (Event E))
    → stopped_or_failed (control_of w 0) ≡ true
    → FrozenWriter w (run w es)
unfolding run
run-FrozenWriter w [] h = record { closed = h; authorized = λ j. refl; answered = λ j. refl }
run-FrozenWriter w (e ∷ es) h =
    let first = step-FrozenWriter w e h in
    let rest = run-FrozenWriter (step w e) es first.closed in
    record {
      closed = rest.closed;
      authorized = λ j. rest.authorized j ∙ first.authorized j;
      answered = λ j. rest.answered j ∙ first.answered j;
    }

-- Once a writer has failed or was asked to stop, no call permits another transaction to type and nobody
-- gets another reply, whatever threads call afterwards.
pub closed_writer_types_nothing :
    {E : Type 0} (w : Writer) (es : List (Event E)) (j : ℕ)
    → (w.stop_requested || not (w.failure_request_id == 0)) ≡ true
    → (((run w es).transactions j).mutation_authorized ≡ (w.transactions j).mutation_authorized)
      × ((run w es).replies j ≡ w.replies j)
closed_writer_types_nothing w es j h =
    let frozen = run-FrozenWriter w es h in (frozen.authorized j, frozen.answered j)
