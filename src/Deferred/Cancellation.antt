-- ===== src/Deferred/Cancellation.antt =====
-- When an admission asks for the running correction to be cancelled.
use open_switcher.Prelude.{ℕ, ◌+◌, ◌≤◌, Bool, true, false, List, [], ◌∷◌, arith, Option, none, some}
use open_switcher.Deferred.{
  DeferredInputLedger, DeferredInputEvent, DeferredAdmission, queued, request_cancellation,
  capacity_exceeded, Call, admits, acknowledges, reconciles, finishes, admit, peek,
  finish_when_drained, step,
}

abbrev requests : DeferredAdmission → ℕ
requests queued = 0
requests request_cancellation = 1
requests (capacity_exceeded limit) = 0

abbrev requests_of : DeferredInputLedger → Call → ℕ
requests_of l (admits e) = requests (admit l e).1
requests_of l (acknowledges id) = 0
requests_of l reconciles = 0
requests_of l finishes = 0

-- How often a sequence of calls is answered by a request to cancel, and how often it ends a cycle:
-- by a reconciliation, or by the end of a drain, which needs an empty queue.
unfoldable pub cancellations : DeferredInputLedger → List Call → ℕ
cancellations l [] = 0
cancellations l (c ∷ cs) = requests_of l c + cancellations (step l c) cs

abbrev drains : Option DeferredInputEvent → ℕ
drains none = 1
drains (some e) = 0

abbrev ends_cycle : DeferredInputLedger → Call → ℕ
ends_cycle l (admits e) = 0
ends_cycle l (acknowledges id) = 0
ends_cycle l reconciles = 1
ends_cycle l finishes = drains (peek l)

unfoldable pub cycles : DeferredInputLedger → List Call → ℕ
cycles l [] = 0
cycles l (c ∷ cs) = ends_cycle l c + cycles (step l c) cs

abbrev reported : Bool → ℕ
reported true = 1
reported false = 0

finish-requests :
    (l : DeferredInputLedger) (o : Option DeferredInputEvent)
    → reported l.soft_limit_reported
      ≤ reported (finish_when_drained l o).soft_limit_reported + drains o
unfolding finish_when_drained
finish-requests l none = ground arith
finish-requests l (some e) = ground arith

step-requests :
    (l : DeferredInputLedger) (c : Call)
    → requests_of l c + reported l.soft_limit_reported
      ≤ reported (step l c).soft_limit_reported + ends_cycle l c
unfolding step
step-requests l (admits e) = unfold admit in ground arith
step-requests l (acknowledges id) = ground arith
step-requests l reconciles = ground arith
step-requests l finishes = omega (arith, finish-requests l (peek l))

reported_le : (b : Bool) → reported b ≤ 1
reported_le b = ground arith

cancellations_le :
    (l : DeferredInputLedger) (cs : List Call)
    → cancellations l cs + reported l.soft_limit_reported ≤ 1 + cycles l cs
unfolding cancellations cycles
cancellations_le l [] = omega (arith, reported_le l.soft_limit_reported)
cancellations_le l (c ∷ cs) = omega (arith, step-requests l c, cancellations_le (step l c) cs)

-- Between two ends of a cycle, each a reconciliation or the end of a drain, cancellation is
-- requested at most once, whatever the calls.
pub cancellations_once :
    (l : DeferredInputLedger) (cs : List Call) → cancellations l cs ≤ 1 + cycles l cs
cancellations_once l cs = omega (arith, cancellations_le l cs)
