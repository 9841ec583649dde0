-- ===== src/Guardian/Bounded.antt =====
-- The bounds of a `ProtocolState`: at most 512 tokens, of which at most 32 may be down, and token ids
-- that rise, over all that the guardian does with it.
use open_switcher.Prelude.{
  Option-cases, ℕ, ◌+◌, ◌≤◌, ◌<◌, ◌≡◌, refl, ap, Bool, true, false, List, [], ◌∷◌, ◌++◌, some,
  length, arith, if◌then◌else◌, inl, inr, ok, err, Result-cases,
}
use open_switcher.Synthetic.Errors.{Fallible}
use open_switcher.Guardian.Wire.{
  PreparedToken, ReleaseDeadline, mutation, cleanup, Request, hello, prepare_key, execute_down,
  key_up, synchronize, transfer_to_physical_debt, physical_release_committed, cancel_and_drain,
  release_all_and_exit,
}
use open_switcher.Guardian.State.{
  PendingSync, TrackedTokenState, TrackedToken, attempting_down, possibly_down, physical_debt,
  ProtocolState, is_debt, is_possibly_down, is_attempting_down, debts_in, debt_count, same_token,
  has_id, find_first, find_token, write_first, remove_first,
}
use open_switcher.Guardian.Accept.{
  commit, apply_cleanup_deadline, apply_release_deadline, start_operation, check_execute_down,
  check_transfer, accept_prepare, accept_execute_down, accept_key_up, accept_synchronize,
  accept_transfer, accept_physical_release, accept_cancel_and_drain, accept_release_all,
  accept_request,
}
use open_switcher.Guardian.Outcomes.{
  record_down_attempt, check_prepared, check_down_attempt, tracked_token,
}
use open_switcher.Guardian.TokenLaws.{
  IdsRise, IdsRise-write, IdsRise-remove, length-write, remove_le, debts_in-write,
  debts_in-write_debt,
}

-- The bounds, of the tokens and the last id alone.
abbrev pub TokensBounded : ℕ → List TrackedToken → Type 0
TokensBounded last ts = (length ts ≤ 512) × (debts_in ts ≤ 32) × IdsRise 0 last ts

abbrev pub IsBounded : ProtocolState → Type 0
IsBounded s = TokensBounded s.last_prepared_token_id s.tokens

-- What the checks of a method leave.
execute_down-room :
    (s : ProtocolState) (operation : ℕ) (token : PreparedToken) (deadline now_ns : ℕ) (u : Unit {0})
    → check_execute_down s operation token deadline now_ns ≡ ok u
    → debt_count s < 32
execute_down-room s operation token deadline now_ns u h = ground (arith, h)

transfer-found :
    (s : ProtocolState) (operation : ℕ) (token : PreparedToken) (generation deadline now_ns : ℕ)
    (u : Unit {0})
    → check_transfer s operation token generation deadline now_ns ≡ ok u
    → (t : TrackedToken) × (find_token s token ≡ ok t) × (is_possibly_down t.state ≡ true)
transfer-found s operation token generation deadline now_ns u h =
    elim (Result-cases (find_token s token)) [
      | inl (t, e) ↦ (t, e, ground (arith, h, e))
      | inr (x, e) ↦ absurd (ground (arith, h, e))
    ]

down_attempt-found :
    (s : ProtocolState) (token_id : ℕ) (u : Unit {0})
    → check_down_attempt s token_id ≡ ok u
    → (t : TrackedToken) × (find_first (has_id token_id) s.tokens ≡ some t)
      × (is_attempting_down t.state ≡ true)
down_attempt-found s token_id u h = elim (Option-cases (find_first (has_id token_id) s.tokens)) [
  | inr (t, e) ↦ (t, e, ground (arith, h, e))
  | inl e ↦ absurd (ground (arith, h, e))
]

pub prepared-fresh :
    (s : ProtocolState) (operation : ℕ) (token : PreparedToken) (u : Unit {0})
    → check_prepared s operation token ≡ ok u
    → (s.last_prepared_token_id < token.token_id) × (length s.tokens < 512)
prepared-fresh s operation token u h = (ground (arith, h), ground (arith, h))

-- A method keeps what its writes keep.
pub commit_keeps :
    {A : Type 0} (P : ProtocolState → Type 0) (s : ProtocolState) (r : Fallible A)
    (f : A → ProtocolState)
    → P s
    → ((a : A) → r ≡ ok a → P (f a))
    → P (commit s r f).0
commit_keeps P s (ok a) f h k = k a refl
commit_keeps P s (err e) f h k = h

write-Bounded :
    (p : TrackedToken → Bool) (state : TrackedTokenState) (last : ℕ) (ts : List TrackedToken)
    → TokensBounded last ts
    → debts_in (write_first p state ts) ≤ 32
    → TokensBounded last (write_first p state ts)
write-Bounded p state last ts b d =
    (omega (arith, length-write p state ts, b.0), d, IdsRise-write p state 0 last ts b.2)

pub remove-Bounded :
    (p : TrackedToken → Bool) (last : ℕ) (ts : List TrackedToken)
    → TokensBounded last ts
    → TokensBounded last (remove_first p ts)
remove-Bounded p last ts b = (
  omega (arith, remove_le p ts, b.0),
  omega (arith, remove_le p ts, b.1),
  IdsRise-remove p 0 last ts b.2,
)

accept_execute_down-Bounded :
    (s : ProtocolState) (operation : ℕ) (token : PreparedToken) (deadline now_ns : ℕ)
    → IsBounded s
    → IsBounded (accept_execute_down s operation token deadline now_ns).0
unfolding accept_execute_down debt_count
accept_execute_down-Bounded s operation token deadline now_ns b =
    commit_keeps IsBounded s (check_execute_down s operation token deadline now_ns) _ b λ u h.
      write-Bounded (λ t. same_token t.token token) attempting_down s.last_prepared_token_id
        s.tokens b
        (omega (
          arith,
          debts_in-write (λ t. same_token t.token token) attempting_down s.tokens,
          execute_down-room s operation token deadline now_ns u h,
        ))

possibly_down-is_debt : (t : TrackedToken) → is_possibly_down t.state ≡ true → is_debt t ≡ true
possibly_down-is_debt t h = ground (arith, h)

attempting_down-is_debt : (t : TrackedToken) → is_attempting_down t.state ≡ true → is_debt t ≡ true
attempting_down-is_debt t h = ground (arith, h)

found-first :
    (s : ProtocolState) (token : PreparedToken) (t : TrackedToken)
    → find_token s token ≡ ok t
    → find_first (λ x. same_token x.token token) s.tokens ≡ some t
unfolding find_token
found-first s token t h = ground (arith, h)

accept_transfer-Bounded :
    (s : ProtocolState) (operation : ℕ) (token : PreparedToken) (generation deadline now_ns : ℕ)
    → IsBounded s
    → IsBounded (accept_transfer s operation token generation deadline now_ns).0
unfolding accept_transfer
accept_transfer-Bounded s operation token generation deadline now_ns b =
    commit_keeps IsBounded s (check_transfer s operation token generation deadline now_ns) _ b
      λ u h.
        let (t, found, down) = transfer-found s operation token generation deadline now_ns u h in
        write-Bounded (λ t. same_token t.token token) (physical_debt generation)
          s.last_prepared_token_id s.tokens b
          (omega (
            arith,
            b.1,
            debts_in-write_debt (λ t. same_token t.token token) (physical_debt generation) s.tokens
                t (found-first s token t found) (possibly_down-is_debt t down),
          ))

pub record_down_attempt-Bounded :
    (s : ProtocolState) (token_id : ℕ) → IsBounded s → IsBounded (record_down_attempt s token_id).0
unfolding record_down_attempt
record_down_attempt-Bounded s token_id b =
    commit_keeps IsBounded s (check_down_attempt s token_id) _ b λ u h.
      let (t, found, down) = down_attempt-found s token_id u h in
      write-Bounded (has_id token_id) possibly_down s.last_prepared_token_id s.tokens b (
        omega (
          arith,
          b.1,
          debts_in-write_debt (has_id token_id) possibly_down s.tokens t found
              (attempting_down-is_debt t down),
        ))

pub debts_in-prepared :
    (operation : ℕ) (token : PreparedToken) (ts : List TrackedToken)
    → debts_in (ts ++ tracked_token operation token ∷ []) ≡ debts_in ts
debts_in-prepared operation token [] = refl
debts_in-prepared operation token (t ∷ ts) =
    ap (λ n. (if is_debt t then 1 else 0) + n) (debts_in-prepared operation token ts)

apply_release-Bounded :
    (s : ProtocolState) (deadline : ReleaseDeadline) (b : Bool)
    → IsBounded s
    → IsBounded (apply_release_deadline s deadline b)
unfolding apply_cleanup_deadline
apply_release-Bounded s (mutation d) b h = h
apply_release-Bounded s (cleanup d) true h = h
apply_release-Bounded s (cleanup d) false h = h

start-Bounded :
    (s : ProtocolState) (operation deadline : ℕ) (starts : Bool)
    → IsBounded s
    → IsBounded (start_operation s operation deadline starts)
start-Bounded s operation deadline true b = b
start-Bounded s operation deadline false b = b

-- Each request keeps the bounds.
pub accept_request-Bounded :
    (s : ProtocolState) (r : Request) (now_ns : ℕ)
    → IsBounded s
    → IsBounded (accept_request s r now_ns).0
unfolding accept_request accept_prepare accept_key_up accept_synchronize accept_physical_release
    accept_cancel_and_drain accept_release_all apply_cleanup_deadline
accept_request-Bounded s (hello nonce deadline) now_ns b = b
accept_request-Bounded s (prepare_key operation evdev_code deadline) now_ns b =
    commit_keeps {A = Bool} IsBounded s _ _ b
      (λ starts h. start-Bounded s operation deadline starts b)
accept_request-Bounded s (execute_down operation token deadline) now_ns b =
    accept_execute_down-Bounded s operation token deadline now_ns b
accept_request-Bounded s (key_up operation token deadline) now_ns b =
    commit_keeps IsBounded s _ _ b (λ starts h. apply_release-Bounded s deadline starts b)
accept_request-Bounded s (synchronize operation token_id deadline) now_ns b =
    commit_keeps {A = Bool × PendingSync} IsBounded s _ _ b
      (λ p h. apply_release-Bounded s deadline p.0 b)
accept_request-Bounded s (transfer_to_physical_debt operation token generation deadline) now_ns b =
    accept_transfer-Bounded s operation token generation deadline now_ns b
accept_request-Bounded s (physical_release_committed sequence token generation deadline) now_ns b =
    commit_keeps IsBounded s _ _ b
      (λ u h. remove-Bounded (λ t. same_token t.token token) s.last_prepared_token_id s.tokens b)
accept_request-Bounded s (cancel_and_drain operation deadline) now_ns b =
    commit_keeps IsBounded s _ _ b (λ starts h. apply_release-Bounded s (cleanup deadline) starts b)
accept_request-Bounded s (release_all_and_exit deadline) now_ns b =
    commit_keeps IsBounded s _ _ b (λ starts h. apply_release-Bounded s (cleanup deadline) starts b)
