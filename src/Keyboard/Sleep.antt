-- ===== src/Keyboard/Sleep.antt =====
-- src/daemon/keyboard.rs: `sleep_interruptibly`, a sleep in short steps that looks at its transaction
-- before each. Times are nanoseconds.
use open_switcher.Prelude.{
  ℕ, zero, suc, ◌+◌, ◌-◌, ◌*◌, ◌≤◌, ◌≡◌, ◌⊎◌, inl, inr, Bool, true, false, Option, none, some,
  is_some, leb, min, ◌==◌, if◌then◌else◌, Result, ok, err, is_ok, arith, dec_lt,
}
use open_switcher.Keyboard.Control.{
  WriterTransactionState, WriterShared, WriterTransactionControl, WriterError, Checked,
  ensure_active, authorize_cleanup_mutation_start, mark_timed_out,
}

-- 5 milliseconds.
abbrev pub transaction_sleep_quantum : ℕ
transaction_sleep_quantum = 5000000

-- One round: what the check finds in the fields that other threads write, its look at the clock and its
-- lease's answers, and the loop's own look at the clock.
pub record Round (E : Type 0) : Type 0 where
  pub state : WriterTransactionState
  pub soft_cancel_requested : Bool
  pub shared : WriterShared
  pub first : Result (Unit {0}) E
  pub checked_at : ℕ
  pub last : Result (Unit {0}) E
  pub now : ℕ

module _ {E : Type 0} (instant_add : ℕ → ℕ → Option ℕ) (rounds : ℕ → Round E) where
  abbrev pub found : WriterTransactionControl → ℕ → WriterTransactionControl
  found c k =
      let r = rounds k in
      record c {
        state = r.state;
        soft_cancel_requested = r.soft_cancel_requested;
        shared = r.shared;
      }

  abbrev pub checked_by : WriterTransactionControl → ℕ → Checked E
  checked_by c k = let r = rounds k in ensure_active r.first r.checked_at r.last (found c k)

  abbrev pub sleep_step : ℕ → ℕ → ℕ → ℕ
  sleep_step sleep_deadline deadline now =
      min (min (sleep_deadline - now) (deadline - now)) transaction_sleep_quantum

  -- What a round does with the answer of its check; `rest` are the rounds after it.
  unfoldable pub after_check :
      WriterTransactionControl
      → Result (Unit {0}) (WriterError E)
      → ℕ
      → ℕ
      → Option (Result (Unit {0}) (WriterError E))
      → Option (Result (Unit {0}) (WriterError E))
  unfolding mark_timed_out
  after_check c checked sleep_deadline now rest = elim checked [
    | err e ↦ some (err e)
    | ok _ ↦
        if leb sleep_deadline now
        then some (ok tt)
        else if sleep_step sleep_deadline c.deadline now == 0
        then some (err (mark_timed_out c).1)
        else rest
  ]

  -- The rounds from round `k` on; no answer where the fuel is not enough.
  unfoldable pub sleep_rounds :
      ℕ → WriterTransactionControl → ℕ → ℕ → Option (Result (Unit {0}) (WriterError E))
  unfolding ensure_active after_check
  sleep_rounds zero c sleep_deadline k = none
  sleep_rounds (suc fuel) c sleep_deadline k =
      let (c', checked) = checked_by c k in
      after_check c' checked sleep_deadline (rounds k).now
        (sleep_rounds fuel c sleep_deadline (suc k))

  unfoldable pub sleep_interruptibly :
      ℕ → WriterTransactionControl → ℕ → ℕ → Option (Result (Unit {0}) (WriterError E))
  sleep_interruptibly fuel c start duration =
      sleep_rounds fuel c (elim (instant_add start duration) [ some t ↦ t | none ↦ c.deadline ]) 0

  -- The clock does not go back, and a sleep takes at least as long as it is asked for.
  pub record Ticks (c : WriterTransactionControl) (sleep_deadline : ℕ) : Type 0 where
    pub forward : (k : ℕ) → (rounds k).checked_at ≤ (rounds k).now
    pub slept :
        (k : ℕ)
        → (rounds k).now + sleep_step sleep_deadline c.deadline (rounds k).now
          ≤ (rounds (suc k)).checked_at

  ensure_active_late :
      (c : WriterTransactionControl) (first : Result (Unit {0}) E) (now : ℕ)
      (last : Result (Unit {0}) E)
      → c.deadline ≤ now
      → is_ok (ensure_active first now last c).1 ≡ false
  unfolding ensure_active authorize_cleanup_mutation_start
  ensure_active_late c first now last late = ground arith

  after_check_ends :
      (c : WriterTransactionControl) (checked : Result (Unit {0}) (WriterError E)) (sd now : ℕ)
      (rest : Option (Result (Unit {0}) (WriterError E)))
      → (is_ok checked ≡ false) ⊎ (sd ≤ now) ⊎ (is_some rest ≡ true)
      → is_some (after_check c checked sd now rest) ≡ true
  unfolding after_check
  after_check_ends c checked sd now rest h = ground arith

  round_ends :
      (fuel : ℕ) (c : WriterTransactionControl) (sd k : ℕ)
      → (is_ok (checked_by c k).1 ≡ false)
        ⊎ (sd ≤ (rounds k).now)
        ⊎ (is_some (sleep_rounds fuel c sd (suc k)) ≡ true)
      → is_some (sleep_rounds (suc fuel) c sd k) ≡ true
  unfolding sleep_rounds
  round_ends fuel c sd k h =
      after_check_ends (checked_by c k).0 (checked_by c k).1 sd (rounds k).now
        (sleep_rounds fuel c sd (suc k)) h

  -- Enough rounds are left for the rest of the sleep, or the transaction's time is over.
  abbrev Near : WriterTransactionControl → ℕ → ℕ → ℕ → Type 0
  Near c sd fuel t = (sd ≤ t + transaction_sleep_quantum * fuel) ⊎ (c.deadline ≤ t)

  next-Near :
      (c : WriterTransactionControl) (sd fuel t now t' : ℕ)
      → sd ≤ t + transaction_sleep_quantum * suc fuel
      → t ≤ now
      → now + sleep_step sd c.deadline now ≤ t'
      → Near c sd fuel t'
  next-Near c sd fuel t now t' near forward slept = elim (dec_lt t' c.deadline) [
    | yes early ↦ inl (omega arith)
    | no late ↦ inr (omega arith)
  ]

  sleep_rounds_end :
      (fuel : ℕ) (c : WriterTransactionControl) (sd k : ℕ)
      → Ticks c sd
      → Near c sd fuel (rounds k).checked_at
      → is_some (sleep_rounds (suc fuel) c sd k) ≡ true
  unfolding sleep_rounds
  sleep_rounds_end fuel c sd k ticks (inr late) =
      let r = rounds k in
      round_ends fuel c sd k (inl (ensure_active_late (found c k) r.first r.checked_at r.last late))
  sleep_rounds_end zero c sd k ticks (inl near) =
      round_ends zero c sd k (inr (inl (omega (arith, ticks.forward k))))
  sleep_rounds_end (suc fuel) c sd k ticks (inl near) =
      let next = next-Near c sd fuel _ _ _ near (ticks.forward k) (ticks.slept k) in
      round_ends (suc fuel) c sd k (inr (inr (sleep_rounds_end fuel c sd (suc k) ticks next)))

  -- With a clock that does not go back and a sleep that takes at least as long as it is asked for, a
  -- transaction's sleep of at most `n` quanta returns within `n + 1` rounds, whatever other threads do.
  pub sleep_interruptibly_returns :
      (n : ℕ) (c : WriterTransactionControl) (start duration : ℕ)
      → instant_add start duration ≡ some (start + duration)
      → Ticks c (start + duration)
      → start ≤ (rounds 0).checked_at
      → duration ≤ transaction_sleep_quantum * n
      → is_some (sleep_interruptibly (suc n) c start duration) ≡ true
  unfolding sleep_interruptibly
  sleep_interruptibly_returns n c start duration added ticks begun few =
      rw added (sleep_rounds_end n c (start + duration) 0 ticks (inl (omega arith)))
