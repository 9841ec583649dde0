-- ===== src/Deferred.antt =====
-- src/daemon/deferred_input.rs: the ledger that owns the physical input which arrives while a
-- correction is in flight; and from src/daemon/service.rs the numbering of fetched events and the
-- draining of the ledger's head. A method that takes `&mut self` returns the new record. `usize`
-- lengths do not wrap; the `u64` counters saturate as in the source. The `debug_assert`s are no
-- part of the definitions.
pub mod Accounting
pub mod Order
pub mod Cancellation
pub mod Draining
pub mod Numbering
use open_switcher.Key.{Key}
use open_switcher.Prelude.{
  ℕ, ◌+◌, ◌%◌, ◌^◌, Bool, true, false, not, ◌&&◌, List, [], ◌∷◌, ◌++◌, Option, none, some, length,
  is_empty, leb, ltb, ◌==◌, if◌then◌else◌, Result, ok, err, u64_max, saturating_add,
}

pub record DeferredInputEvent : Type 0 where
  pub sequence_id : ℕ
  pub key : Key
  pub value : ℕ
  pub timestamp : ℕ

pub data DeferredAdmission : Type 0 where
  queued : DeferredAdmission
  request_cancellation : DeferredAdmission
  capacity_exceeded : ℕ → DeferredAdmission

pub record DeferredAckError : Type 0 where
  pub expected : ℕ
  pub received : ℕ

pub record DeferredReconciliationReport : Type 0 where
  pub accepted : ℕ
  pub acknowledged : ℕ
  pub reconciled : ℕ
  pub queued_now : ℕ

pub record DeferredInputLedger : Type 0 where
  pub queue : List DeferredInputEvent
  pub accepted : ℕ
  pub acknowledged : ℕ
  pub soft_limit_reported : Bool
  pub soft_limit : ℕ
  pub hard_limit : ℕ

unfoldable pub with_limits : ℕ → ℕ → DeferredInputLedger
with_limits soft hard = record {
  queue = [];
  accepted = 0;
  acknowledged = 0;
  soft_limit_reported = false;
  soft_limit = soft;
  hard_limit = hard;
}

abbrev pub deferred_input_soft_limit : ℕ
deferred_input_soft_limit = 256

abbrev pub deferred_input_hard_limit : ℕ
deferred_input_hard_limit = 16_384

unfoldable pub default : DeferredInputLedger
unfolding with_limits
default = with_limits deferred_input_soft_limit deferred_input_hard_limit

unfoldable pub admit :
    DeferredInputLedger → DeferredInputEvent → DeferredInputLedger × DeferredAdmission
admit l event =
    if leb l.hard_limit (length l.queue)
    then (l, capacity_exceeded l.hard_limit)
    else let pushed = record l {
      queue = l.queue ++ event ∷ [];
      accepted = saturating_add u64_max l.accepted 1;
    } in
      if not l.soft_limit_reported && ltb l.soft_limit (length pushed.queue)
      then (record pushed { soft_limit_reported = true }, request_cancellation)
      else (pushed, queued)

-- `VecDeque::front` and what `pop_front` leaves.
abbrev pub front {ℓ} : {A : Type ℓ} → List A → Option A
front [] = none
front (x ∷ xs) = some x

abbrev pub rest {ℓ} : {A : Type ℓ} → List A → List A
rest [] = []
rest (x ∷ xs) = xs

unfoldable pub peek : DeferredInputLedger → Option DeferredInputEvent
peek l = front l.queue

-- `.front().map(|event| event.sequence_id).unwrap_or(0)`.
abbrev pub expected_id : List DeferredInputEvent → ℕ
expected_id [] = 0
expected_id (e ∷ es) = e.sequence_id

unfoldable pub acknowledge :
    DeferredInputLedger → ℕ → DeferredInputLedger × Result (Unit {0}) DeferredAckError
acknowledge l id =
    if expected_id l.queue == id
    then (
      record l { queue = rest l.queue; acknowledged = saturating_add u64_max l.acknowledged 1 },
      ok tt,
    )
    else (l, err (record { expected = expected_id l.queue; received = id }))

unfoldable pub finish_report :
    DeferredInputLedger → ℕ → DeferredInputLedger × DeferredReconciliationReport
finish_report l n = (
  record l { accepted = 0; acknowledged = 0; soft_limit_reported = false },
  record {
    accepted = l.accepted;
    acknowledged = l.acknowledged;
    reconciled = n;
    queued_now = length l.queue;
  },
)

unfoldable pub reconcile_all :
    DeferredInputLedger → DeferredInputLedger × DeferredReconciliationReport
unfolding finish_report
reconcile_all l = finish_report (record l { queue = [] }) (length l.queue)

unfoldable pub finish_drained :
    DeferredInputLedger → DeferredInputLedger × DeferredReconciliationReport
unfolding finish_report
finish_drained l = finish_report l 0

-- What the daemon asks of a ledger while a correction is in flight, and at its end.
pub data Call : Type 0 where
  admits : DeferredInputEvent → Call
  acknowledges : ℕ → Call
  reconciles : Call
  finishes : Call

-- service.rs, drain_one_deferred_input_event: it returns before its end if `peek` shows an event
-- (which it handles and acknowledges), so `finish_drained` is called on an empty queue only.
unfoldable pub finish_when_drained :
    DeferredInputLedger → Option DeferredInputEvent → DeferredInputLedger
unfolding finish_drained
finish_when_drained l none = (finish_drained l).0
finish_when_drained l (some event) = l

unfoldable pub step : DeferredInputLedger → Call → DeferredInputLedger
unfolding admit acknowledge reconcile_all peek finish_when_drained
step l (admits event) = (admit l event).0
step l (acknowledges id) = (acknowledge l id).0
step l reconciles = (reconcile_all l).0
step l finishes = finish_when_drained l (peek l)

unfoldable pub run : DeferredInputLedger → List Call → DeferredInputLedger
run l [] = l
run l (c ∷ cs) = run (step l c) cs

-- service.rs: `handle` is the caller's closure. `panicked` is the `expect`.
pub data Drained {ℓ} (E : Type ℓ) : Type ℓ where
  idle : Drained E
  handled : DeferredInputEvent → Drained E
  failed : E → Drained E
  panicked : Drained E

abbrev pub settle {ℓ} :
    {E : Type ℓ}
    → DeferredInputEvent
    → DeferredInputLedger × Result (Unit {0}) DeferredAckError
    → DeferredInputLedger × Drained E
settle event (l, ok _) = (l, handled event)
settle event (l, err _) = (l, panicked)

unfoldable pub drain_deferred_head_with {ℓ} :
    {E : Type ℓ}
    → DeferredInputLedger
    → (DeferredInputEvent → Result (Unit {0}) E)
    → DeferredInputLedger × Drained E
unfolding peek
drain_deferred_head_with l handle = elim (peek l) [
  | none ↦ (l, idle)
  | some event ↦ elim (handle event) [
    | err e ↦ (l, failed e)
    | ok _ ↦ settle event (acknowledge l event.sequence_id)
  ]
]

-- The number of an event, and the counter after it; `wrapping_add` of `u64`.
unfoldable pub take_next_nonzero_physical_sequence_id : ℕ → ℕ × ℕ
take_next_nonzero_physical_sequence_id next =
    let id = if ltb next 1 then 1 else next in
    let wrapped = (id + 1) % (u64_max + 1) in (id, if wrapped == 0 then 1 else wrapped)

-- `evdev::InputEvent`, as far as the source reads it: a key event or one of another kind.
pub data InputEvent : Type 0 where
  key_event : Key → ℕ → ℕ → InputEvent
  other_event : InputEvent

unfoldable pub sequence_fetched_physical_input_events :
    List InputEvent → ℕ → List DeferredInputEvent × ℕ
sequence_fetched_physical_input_events [] next = ([], next)
sequence_fetched_physical_input_events (other_event ∷ es) next =
    sequence_fetched_physical_input_events es next
sequence_fetched_physical_input_events (key_event k v t ∷ es) next =
    let (id, next') = take_next_nonzero_physical_sequence_id next in
    let (sequenced, last) = sequence_fetched_physical_input_events es next' in
    (record { sequence_id = id; key = k; value = v; timestamp = t } ∷ sequenced, last)
