-- ===== src/Keyboard/History.antt =====
-- src/daemon/keyboard.rs: the calls that threads make on the transactions of one writer, in any order.
use mathlib.Core.Logic.{ite, if_pos, if_neg}
use open_switcher.Prelude.{
  ℕ, Option, Bool, true, false, List, [], ◌∷◌, ◌++◌, ◌≡◌, if◌then◌else◌, Result, ℕ_discrete,
}
use open_switcher.Keyboard.Control.{
  WriterCompletionPublication, WriterShared, WriterTransactionControl, new_with_writer_state,
  try_mark_timed_out, request_soft_cancel, publish_completed_with, publish_soft_cancelled_with,
  publish_failed_with, authorize_cleanup_mutation_start, ensure_active, authorize_mutation_start,
  try_request_stop_for_input_worker_loss,
}

-- Which publication sent a reply.
pub data Reply : Type 0 where
  completion cancellation failure : Reply

-- The channel of the one who waits: the replies that it took. It takes none once it is gone.
abbrev pub deliver : Reply → Bool → List Reply → List Reply × Bool
deliver reply listening replies =
    if listening then (replies ++ reply ∷ [], true) else (replies, false)

-- The lease's answers are a success or an error of type `E`.
pub data Call (E : Type 0) : Type 0 where
  soft_cancels : (now : ℕ) → Call E
  times_out : Call E
  publishes : Reply → (now : ℕ) → (listening : Bool) → Call E
  checks : Result (Unit {0}) E → (now : ℕ) → Result (Unit {0}) E → Call E
  authorizes : Result (Unit {0}) E → (now : ℕ) → Result (Unit {0}) E → Call E
  authorizes_cleanup : (now : ℕ) → Call E
  loses_input : (now : ℕ) → Call E

abbrev pub publish :
    Reply
    → ℕ
    → Bool
    → List Reply
    → WriterTransactionControl
    → WriterTransactionControl × List Reply × WriterCompletionPublication
publish completion now listening = publish_completed_with (deliver completion listening) now
publish cancellation now listening =
    publish_soft_cancelled_with (deliver cancellation listening) now
publish failure now listening = publish_failed_with (deliver failure listening) now

-- One call on one transaction.
unfoldable pub act :
    {E : Type 0}
    → Call E
    → WriterTransactionControl
    → List Reply
    → WriterTransactionControl × List Reply
act (soft_cancels now) c rs = ((request_soft_cancel now c).0, rs)
act times_out c rs = ((try_mark_timed_out c).0, rs)
act (publishes reply now listening) c rs =
    let (c', rs', publication) = publish reply now listening rs c in (c', rs')
act (checks first now last) c rs = ((ensure_active first now last c).0, rs)
act (authorizes first now last) c rs = ((authorize_mutation_start first now last c).0, rs)
act {E} (authorizes_cleanup now) c rs = ((authorize_cleanup_mutation_start {E = E} now c).0, rs)
act (loses_input now) c rs = ((try_request_stop_for_input_worker_loss now c).0, rs)

-- A writer and its transactions. One that no call has named yet may start later.
pub record Writer : Type 0 where
  pub shared : WriterShared
  pub open shared use *
  pub transactions : ℕ → WriterTransactionControl
  pub replies : ℕ → List Reply

abbrev pub update {ℓ} : {A : Type ℓ} → (ℕ → A) → ℕ → A → ℕ → A
update f i a j = ite (ℕ_discrete i j) a (f j)

pub update_at {ℓ κ} :
    {A : Type ℓ} (P : A → Type κ) (f : ℕ → A) (i j : ℕ) (a : A)
    → (i ≡ j → P a)
    → P (f j)
    → P (update f i a j)
update_at P f i j a here other = elim (ℕ_discrete i j) [
  | yes e ↦ rw (if_pos (ℕ_discrete i j) e) (here e)
  | no n ↦ rw (if_neg (ℕ_discrete i j) n) other
]

abbrev pub control_of : Writer → ℕ → WriterTransactionControl
control_of w i = record (w.transactions i) { shared = w.shared }

-- A call on one transaction, or `request_stop` of the writer's owner.
pub data Event (E : Type 0) : Type 0 where
  calls : ℕ → Call E → Event E
  stops : Event E

unfoldable pub step : {E : Type 0} → Writer → Event E → Writer
step w (calls i call) =
    let (c, rs) = act call (control_of w i) (w.replies i) in
    record {
      shared = c.shared;
      transactions = update w.transactions i c;
      replies = update w.replies i rs;
    }
step w stops = record w { shared = record w.shared { stop_requested = true } }

unfoldable pub run : {E : Type 0} → Writer → List (Event E) → Writer
run w [] = w
run w (e ∷ es) = run (step w e) es

-- What a transaction is made from: the two looks at the clock, its identifier and its timeout.
pub record WriterRequest : Type 0 where
  pub now : ℕ
  pub later : ℕ
  pub request_id : ℕ
  pub timeout : ℕ

abbrev pub running : WriterShared
running = record { failure_request_id = 0; stop_requested = false }

unfoldable pub new_writer : (ℕ → ℕ → Option ℕ) → (ℕ → WriterRequest) → Writer
new_writer instant_add requests = record {
  shared = running;
  transactions = λ i.
      let q = requests i in
      new_with_writer_state instant_add q.now q.later q.request_id q.timeout running;
  replies = λ i. [];
}
