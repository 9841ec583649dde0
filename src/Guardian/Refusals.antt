-- ===== src/Guardian/Refusals.antt =====
-- What a refused request leaves, and what the guardian accepts once its cleanup has begun.
use open_switcher.Prelude.{
  ℕ, ◌<◌, ◌≡◌, refl, ◌⊎◌, inl, inr, Bool, true, false, ◌||◌, List, arith, leb, ◌==◌, Bool-cases, ok,
  err, is_ok,
}
use open_switcher.Synthetic.Errors.{Fallible, Status}
use open_switcher.Guardian.Wire.{
  PreparedToken, ReleaseDeadline, mutation, cleanup, Request, hello, prepare_key, execute_down,
  key_up, synchronize, transfer_to_physical_debt, physical_release_committed, cancel_and_drain,
  release_all_and_exit,
}
use open_switcher.Guardian.State.{
  ProtocolState, PendingSync, TrackedToken, validate_normal_deadline,
}
use open_switcher.Guardian.Accept.{
  commit, apply_cleanup_deadline, apply_release_deadline, start_operation, check_execute_down,
  check_transfer, check_physical_release, accept_prepare, accept_execute_down, accept_key_up,
  accept_synchronize, accept_transfer, accept_physical_release, accept_cancel_and_drain,
  accept_release_all, accept_request, accept, sequenced,
}
use open_switcher.Guardian.Bounded.{commit_keeps}

-- A method that fails changes nothing.
abbrev Atomic : ProtocolState → ProtocolState × Status → Type 0
Atomic s x = (is_ok x.1 ≡ true) ⊎ ((is_ok x.1 ≡ false) × (x.0 ≡ s))

commit-Atomic :
    {A : Type 0} (s : ProtocolState) (r : Fallible A) (f : A → ProtocolState)
    → Atomic s (commit s r f)
commit-Atomic s (ok a) f = inl refl
commit-Atomic s (err e) f = inr (refl, refl)

accept_request-Atomic :
    (s : ProtocolState) (r : Request) (now_ns : ℕ) → Atomic s (accept_request s r now_ns)
unfolding accept_request accept_prepare accept_execute_down accept_key_up accept_synchronize
    accept_transfer accept_physical_release accept_cancel_and_drain accept_release_all
accept_request-Atomic s (hello nonce deadline) now_ns = inr (refl, refl)
accept_request-Atomic s (prepare_key operation evdev_code deadline) now_ns = commit-Atomic s _ _
accept_request-Atomic s (execute_down operation token deadline) now_ns = commit-Atomic s _ _
accept_request-Atomic s (key_up operation token deadline) now_ns = commit-Atomic s _ _
accept_request-Atomic s (synchronize operation token_id deadline) now_ns = commit-Atomic s _ _
accept_request-Atomic s (transfer_to_physical_debt o t g d) now_ns = commit-Atomic s _ _
accept_request-Atomic s (physical_release_committed q t g d) now_ns = commit-Atomic s _ _
accept_request-Atomic s (cancel_and_drain operation deadline) now_ns = commit-Atomic s _ _
accept_request-Atomic s (release_all_and_exit deadline) now_ns = commit-Atomic s _ _

-- An accepted request has a later sequence, which becomes the last one; a refused one changes nothing.
abbrev pub Answered : ProtocolState → ℕ → ProtocolState × Status → Type 0
Answered s sequence x =
    ((is_ok x.1 ≡ true) × (s.last_sequence < sequence) × (x.0.last_sequence ≡ sequence))
    ⊎ ((is_ok x.1 ≡ false) × (x.0 ≡ s))

sequenced-Answered :
    (s : ProtocolState) (sequence : ℕ) (x : ProtocolState × Status)
    → s.last_sequence < sequence
    → Atomic s x
    → Answered s sequence (sequenced sequence x)
sequenced-Answered s sequence (s', ok u) h a = inl (refl, h, refl)
sequenced-Answered s sequence (s', err e) h (inl bad) = ground (arith, bad)
sequenced-Answered s sequence (s', err e) h (inr same) = inr same

-- Every request is either accepted, with a sequence above the last one, which it becomes; or it is
-- refused, and then the state is what it was.
pub accept-Answered :
    (s : ProtocolState) (sequence : ℕ) (r : Request) (now_ns : ℕ)
    → Answered s sequence (accept s sequence r now_ns)
unfolding accept
accept-Answered s sequence r now_ns =
    elim (Bool-cases (sequence == 0 || leb sequence s.last_sequence)) [
      | inl e ↦ rw (accept, e) (inr (refl, refl))
      | inr e ↦
          rw (accept, e)
            (sequenced-Answered s sequence (accept_request s r now_ns) (ground (arith, e))
              (accept_request-Atomic s r now_ns))
    ]

-- The tokens after the cleanup has begun.
abbrev Frozen : List TrackedToken → ProtocolState → Type 0
Frozen ts s = (s.terminal ≡ true) × (s.tokens ≡ ts)

execute_down-refused :
    (s : ProtocolState) (o : ℕ) (t : PreparedToken) (d n : ℕ) (u : Unit {0})
    → s.terminal ≡ true
    → check_execute_down s o t d n ≡ ok u
    → ⊥
unfolding validate_normal_deadline
execute_down-refused s o t d n u e h = ground (arith, h)

transfer-refused :
    (s : ProtocolState) (o : ℕ) (t : PreparedToken) (g d n : ℕ) (u : Unit {0})
    → s.terminal ≡ true
    → check_transfer s o t g d n ≡ ok u
    → ⊥
unfolding validate_normal_deadline
transfer-refused s o t g d n u e h = ground (arith, h)

physical_release-refused :
    (s : ProtocolState) (q : ℕ) (t : PreparedToken) (g d n : ℕ) (u : Unit {0})
    → s.terminal ≡ true
    → check_physical_release s q t g d n ≡ ok u
    → ⊥
unfolding validate_normal_deadline
physical_release-refused s q t g d n u e h = ground (arith, h)

release-Frozen :
    (s : ProtocolState) (deadline : ReleaseDeadline) (starts : Bool)
    → s.terminal ≡ true
    → Frozen s.tokens (apply_release_deadline s deadline starts)
unfolding apply_cleanup_deadline
release-Frozen s (mutation d) starts t = (t, refl)
release-Frozen s (cleanup d) true t = (refl, refl)
release-Frozen s (cleanup d) false t = (refl, refl)

start-Frozen :
    (s : ProtocolState) (operation deadline : ℕ) (starts : Bool)
    → s.terminal ≡ true
    → Frozen s.tokens (start_operation s operation deadline starts)
start-Frozen s operation deadline true t = (t, refl)
start-Frozen s operation deadline false t = (t, refl)

accept_request-Frozen :
    (s : ProtocolState) (r : Request) (now_ns : ℕ)
    → s.terminal ≡ true
    → Frozen s.tokens (accept_request s r now_ns).0
unfolding accept_request accept_prepare accept_execute_down accept_key_up accept_synchronize
    accept_transfer accept_physical_release accept_cancel_and_drain accept_release_all
accept_request-Frozen s (hello nonce deadline) now_ns t = (t, refl)
accept_request-Frozen s (prepare_key operation evdev_code deadline) now_ns t =
    commit_keeps {A = Bool} (Frozen s.tokens) s _ _ (t, refl)
      (λ starts h. start-Frozen s operation deadline starts t)
accept_request-Frozen s (execute_down o token d) now_ns t =
    commit_keeps (Frozen s.tokens) s _ _ (t, refl)
      (λ u h. absurd (execute_down-refused s o token d now_ns u t h))
accept_request-Frozen s (key_up operation token deadline) now_ns t =
    commit_keeps (Frozen s.tokens) s _ _ (t, refl) (λ starts h. release-Frozen s deadline starts t)
accept_request-Frozen s (synchronize operation token_id deadline) now_ns t =
    commit_keeps {A = Bool × PendingSync} (Frozen s.tokens) s _ _ (t, refl)
      (λ p h. release-Frozen s deadline p.0 t)
accept_request-Frozen s (transfer_to_physical_debt o token g d) now_ns t =
    commit_keeps (Frozen s.tokens) s _ _ (t, refl)
      (λ u h. absurd (transfer-refused s o token g d now_ns u t h))
accept_request-Frozen s (physical_release_committed q token g d) now_ns t =
    commit_keeps (Frozen s.tokens) s _ _ (t, refl)
      (λ u h. absurd (physical_release-refused s q token g d now_ns u t h))
accept_request-Frozen s (cancel_and_drain operation deadline) now_ns t =
    commit_keeps (Frozen s.tokens) s _ _ (t, refl)
      (λ starts h. release-Frozen s (cleanup deadline) starts t)
accept_request-Frozen s (release_all_and_exit deadline) now_ns t =
    commit_keeps (Frozen s.tokens) s _ _ (t, refl)
      (λ starts h. release-Frozen s (cleanup deadline) starts t)

sequenced-Frozen :
    (ts : List TrackedToken) (sequence : ℕ) (x : ProtocolState × Status)
    → Frozen ts x.0
    → Frozen ts (sequenced sequence x).0
sequenced-Frozen ts sequence (s, ok u) h = h
sequenced-Frozen ts sequence (s, err e) h = h

-- Once the state is terminal, no request changes its tokens, so none goes down any more, and it stays
-- terminal.
pub accept_terminal :
    (s : ProtocolState) (sequence : ℕ) (r : Request) (now_ns : ℕ)
    → s.terminal ≡ true
    → ((accept s sequence r now_ns).0.terminal ≡ true)
      × ((accept s sequence r now_ns).0.tokens ≡ s.tokens)
unfolding accept
accept_terminal s sequence r now_ns t =
    elim (Bool-cases (sequence == 0 || leb sequence s.last_sequence)) [
      | inl e ↦ rw (accept, e) (t, refl)
      | inr e ↦
          rw (accept, e)
            (sequenced-Frozen s.tokens sequence (accept_request s r now_ns)
              (accept_request-Frozen s r now_ns t))
    ]
