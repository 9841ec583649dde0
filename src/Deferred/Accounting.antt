-- ===== src/Deferred/Accounting.antt =====
-- The counters of the ledger: every event that it accepted is acknowledged, reconciled or queued.
use open_switcher.Prelude.{
  ℕ, suc, ◌+◌, ◌≤◌, ◌≡◌, ◌≢◌, List, [], ◌∷◌, length, length-append, All, arith, u64_max, refl,
  Option, none, some,
}
use open_switcher.Deferred.{
  DeferredInputLedger, DeferredInputEvent, Call, admits, acknowledges, reconciles, finishes, admit,
  acknowledge, step, run, with_limits, reconcile_all, finish_drained, finish_when_drained, peek,
}

-- The counters balance, have room for `n` further events, and the queue is within its limit.
pub record Accounted (n : ℕ) (l : DeferredInputLedger) : Type 0 where
  pub balanced : l.accepted ≡ l.acknowledged + length l.queue
  pub room : l.accepted + n ≤ u64_max
  pub within : length l.queue ≤ l.hard_limit

-- Sequence numbers start from 1: no event is acknowledged as 0.
abbrev pub IsNumbered : Call → Type 0
IsNumbered (admits e) = e.sequence_id ≢ 0
IsNumbered (acknowledges id) = id ≢ 0
IsNumbered reconciles = Unit
IsNumbered finishes = Unit

admit-Accounted :
    (n : ℕ) (l : DeferredInputLedger) (e : DeferredInputEvent)
    → Accounted (suc n) l
    → Accounted n (admit l e).0
unfolding admit
admit-Accounted n l e a = ground (arith, length-append l.queue (e ∷ []))

acknowledge-Accounted :
    (n id : ℕ) (l : DeferredInputLedger)
    → id ≢ 0
    → Accounted (suc n) l
    → Accounted n (acknowledge l id).0
unfolding acknowledge
acknowledge-Accounted n id l h a = ground arith

finish-Accounted :
    (n : ℕ) (l : DeferredInputLedger) (o : Option DeferredInputEvent)
    → peek l ≡ o
    → Accounted (suc n) l
    → Accounted n (finish_when_drained l o)
unfolding peek finish_when_drained
finish-Accounted n l none e a = ground (arith, e, a)
finish-Accounted n l (some x) e a = ground (arith, a)

step-Accounted :
    (n : ℕ) (l : DeferredInputLedger) (c : Call)
    → IsNumbered c
    → Accounted (suc n) l
    → Accounted n (step l c)
unfolding step
step-Accounted n l (admits e) h a = admit-Accounted n l e a
step-Accounted n l (acknowledges id) h a = acknowledge-Accounted n id l h a
step-Accounted n l reconciles h a = ground arith
step-Accounted n l finishes h a = finish-Accounted n l (peek l) refl a

run-Accounted :
    (l : DeferredInputLedger) (cs : List Call)
    → All IsNumbered cs
    → Accounted (length cs) l
    → Accounted 0 (run l cs)
unfolding run
run-Accounted l [] h a = a
run-Accounted l (c ∷ cs) h a =
    run-Accounted (step l c) cs h.1 (step-Accounted (length cs) l c h.0 a)

drained :
    (l : DeferredInputLedger)
    → Accounted 0 l
    → peek l ≡ none
    → (l.accepted ≡ l.acknowledged) × (length l.queue ≡ 0)
unfolding peek
drained l a e = ground (arith, a, e)

-- From a new ledger, after any sequence of fewer than 2^64 admissions, acknowledgements,
-- reconciliations and ends of a drain whose sequence numbers are not 0: the events accepted since
-- the last report are the acknowledged and the queued ones, no more than `hard_limit` events are
-- queued, the report of a reconciliation accounts for each accepted event once and leaves none
-- queued, and so does the report of a drain that ends with an empty queue, with nothing to
-- reconcile.
pub run-Accounted_report :
    (soft hard : ℕ) (cs : List Call)
    → All IsNumbered cs
    → length cs ≤ u64_max
    → let l = run (with_limits soft hard) cs in
      let report = (reconcile_all l).1 in
      (l.accepted ≡ l.acknowledged + length l.queue)
      × (length l.queue ≤ l.hard_limit)
      × (report.accepted ≡ report.acknowledged + report.reconciled + report.queued_now)
      × (report.queued_now ≡ 0)
      × (peek l ≡ none
          → let drained = (finish_drained l).1 in
            (drained.accepted ≡ drained.acknowledged)
            × (drained.reconciled ≡ 0)
            × (drained.queued_now ≡ 0))
unfolding with_limits reconcile_all finish_drained peek
run-Accounted_report soft hard cs h m =
    let a = run-Accounted (with_limits soft hard) cs h (ground arith) in
    (
      ground (arith, a),
      ground (arith, a),
      ground (arith, a),
      refl,
      λ empty. let d = drained (run (with_limits soft hard) cs) a empty in (d.0, refl, d.1),
    )
