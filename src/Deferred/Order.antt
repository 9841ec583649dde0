-- ===== src/Deferred/Order.antt =====
-- The ledger as a queue: events leave it in the order in which they entered.
use open_switcher.Prelude.{
  Result, ℕ, ◌≡◌, refl, ap, sym, ◌∙◌, List, [], ◌∷◌, ◌++◌, append-nil, append_assoc, arith, ok, err,
  Option, none, some,
}
use open_switcher.Deferred.{
  DeferredInputLedger, DeferredInputEvent, DeferredAdmission, queued, request_cancellation,
  capacity_exceeded, Call, admits, acknowledges, reconciles, finishes, admit, acknowledge, peek,
  step, run, finish_when_drained,
}

-- Whether the ledger took the event over.
abbrev taken : DeferredInputEvent → DeferredAdmission → List DeferredInputEvent
taken e (capacity_exceeded limit) = []
taken e queued = e ∷ []
taken e request_cancellation = e ∷ []

-- The events that a call hands to the ledger.
unfoldable pub entered : DeferredInputLedger → Call → List DeferredInputEvent
entered l (admits e) = taken e (admit l e).1
entered l (acknowledges id) = []
entered l reconciles = []
entered l finishes = []

abbrev released {ℓ κ} :
    {A : Type ℓ} {E : Type κ} → Option DeferredInputEvent → Result A E → List DeferredInputEvent
released none r = []
released (some e) (ok a) = e ∷ []
released (some e) (err x) = []

-- The events that a call takes out: the head that `peek` shows, if its acknowledgement is
-- accepted; all of the queue at a reconciliation.
unfoldable pub left : DeferredInputLedger → Call → List DeferredInputEvent
left l (admits e) = []
left l (acknowledges id) = released (peek l) (acknowledge l id).1
left l reconciles = l.queue
left l finishes = []

unfoldable pub all_entered : DeferredInputLedger → List Call → List DeferredInputEvent
all_entered l [] = []
all_entered l (c ∷ cs) = entered l c ++ all_entered (step l c) cs

unfoldable pub all_left : DeferredInputLedger → List Call → List DeferredInputEvent
all_left l [] = []
all_left l (c ∷ cs) = left l c ++ all_left (step l c) cs

acknowledge-order :
    (id : ℕ) (l : DeferredInputLedger)
    → l.queue ≡ left l (acknowledges id) ++ (acknowledge l id).0.queue
unfolding left peek acknowledge
acknowledge-order id l = ground arith

finish-order :
    (l : DeferredInputLedger) (o : Option DeferredInputEvent)
    → l.queue ≡ (finish_when_drained l o).queue
unfolding finish_when_drained
finish-order l none = refl
finish-order l (some e) = refl

step-order :
    (l : DeferredInputLedger) (c : Call) → l.queue ++ entered l c ≡ left l c ++ (step l c).queue
unfolding step entered left
step-order l (admits e) = unfold admit in ground (arith, append-nil l.queue)
step-order l (acknowledges id) = append-nil l.queue ∙ acknowledge-order id l
step-order l reconciles = refl
step-order l finishes = append-nil l.queue ∙ finish-order l (peek l)

-- First in, first out: whatever calls are made, the queue at the start followed by the events
-- taken in is the events let out followed by the queue at the end. So nothing is lost, repeated or
-- reordered, and an event that is refused never enters.
pub run-order :
    (l : DeferredInputLedger) (cs : List Call)
    → l.queue ++ all_entered l cs ≡ all_left l cs ++ (run l cs).queue
unfolding run all_entered all_left
run-order l [] = append-nil l.queue
run-order l (c ∷ cs) =
    sym (append_assoc l.queue (entered l c) (all_entered (step l c) cs))
    ∙ ap (λ q. q ++ all_entered (step l c) cs) (step-order l c)
    ∙ append_assoc (left l c) (step l c).queue (all_entered (step l c) cs)
    ∙ ap (◌++◌ (left l c)) (run-order (step l c) cs)
    ∙ sym (append_assoc (left l c) (all_left (step l c) cs) (run (step l c) cs).queue)
