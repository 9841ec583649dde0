-- ===== src/Tests/DeferredInput.antt =====
-- The deferred input ledger, on a small pair of limits.
use open_switcher.Key.{key_a, key_b, key_tab}
use open_switcher.Prelude.{
  ℕ, ◌+◌, ◌≤◌, ◌≡◌, refl, List, [], ◌∷◌, ◌++◌, map, length, arith, Result, err, none,
}
use open_switcher.Deferred.{
  DeferredInputEvent, Call, admits, acknowledges, finishes, step, run, with_limits, acknowledge,
  reconcile_all, finish_drained, peek, key_event, other_event, drain_deferred_head_with, InputEvent,
}
use open_switcher.Deferred.Accounting.{run-Accounted_report}
use open_switcher.Deferred.Order.{all_entered, all_left, run-order}
use open_switcher.Deferred.Cancellation.{cancellations, cycles, cancellations_once}
use open_switcher.Deferred.Draining.{Explained, drain_deferred_head_with-Explained}

abbrev event : ℕ → DeferredInputEvent
event n = record { sequence_id = n; key = key_a; value = 1; timestamp = 0 }

-- Two limits of 1 and 3: five events are offered, and the last two are refused.
abbrev burst : List Call
burst =
    admits (event 10)
    ∷ admits (event 11)
    ∷ acknowledges 11
    ∷ acknowledges 10
    ∷ admits (event 12)
    ∷ admits (event 13)
    ∷ finishes
    ∷ admits (event 14)
    ∷ []

burst_queue : map (λ e. e.sequence_id) (run (with_limits 1 3) burst).queue ≡ 11 ∷ 12 ∷ 13 ∷ []
unfolding run with_limits step
burst_queue = refl

ack_out_of_turn :
    (acknowledge (run (with_limits 1 3) burst) 12).1 ≡ err (record { expected = 11; received = 12 })
unfolding run with_limits step acknowledge
ack_out_of_turn = refl

run-Accounted_report_example :
    let l = run (with_limits 1 3) burst in
    let report = (reconcile_all l).1 in
    (l.accepted ≡ l.acknowledged + length l.queue)
    × (length l.queue ≤ l.hard_limit)
    × (report.accepted ≡ report.acknowledged + report.reconciled + report.queued_now)
    × (report.queued_now ≡ 0)
    × (peek l ≡ none
        → let drained = (finish_drained l).1 in
          (drained.accepted ≡ drained.acknowledged)
          × (drained.reconciled ≡ 0)
          × (drained.queued_now ≡ 0))
run-Accounted_report_example = run-Accounted_report 1 3 burst (omega arith) (omega arith)

run-order_example :
    all_entered (with_limits 1 3) burst
    ≡ all_left (with_limits 1 3) burst ++ (run (with_limits 1 3) burst).queue
unfolding with_limits
run-order_example = run-order (with_limits 1 3) burst

cancellations_once_example :
    cancellations (with_limits 1 3) burst ≤ 1 + cycles (with_limits 1 3) burst
cancellations_once_example = cancellations_once (with_limits 1 3) burst

abbrev refuse : DeferredInputEvent → Result (Unit {0}) ℕ
refuse e = err e.sequence_id

drain_deferred_head_with-Explained_example :
    let l = run (with_limits 1 3) burst in
    let done = drain_deferred_head_with l refuse in Explained refuse l done.0 done.1
drain_deferred_head_with-Explained_example =
    drain_deferred_head_with-Explained refuse (run (with_limits 1 3) burst)

abbrev fetched : List InputEvent
fetched = key_event key_a 1 5 ∷ other_event ∷ key_event key_b 1 6 ∷ key_event key_tab 0 7 ∷ []
