-- ===== src/Guardian/History.antt =====
-- The bounds of a `ProtocolState` over any history.
use open_switcher.Prelude.{
  ◌||◌, ℕ, ◌≡◌, Bool, true, false, List, [], ◌∷◌, length-append, arith, leb, ◌==◌, if◌then◌else◌,
  Bool-cases, inl, inr, ok, err,
}
use open_switcher.Synthetic.Errors.{Status}
use open_switcher.Guardian.Wire.{ProtocolSession, PreparedToken, Request}
use open_switcher.Guardian.State.{ProtocolState, is_debt, has_id, remove_first}
use open_switcher.Guardian.Accept.{
  ready_after_handshake, ready_state, accept_request, accept, sequenced,
}
use open_switcher.Guardian.Outcomes.{
  record_prepared, record_down_attempt, complete_synchronize, begin_terminal,
  acknowledge_cleanup_release, is_cleanup_of, check_prepared, tracked_token,
}
use open_switcher.Guardian.TokenLaws.{IdsRise-snoc, IdsRise-retain, retain_le}
use open_switcher.Guardian.Bounded.{
  TokensBounded, IsBounded, commit_keeps, remove-Bounded, record_down_attempt-Bounded,
  prepared-fresh, debts_in-prepared, accept_request-Bounded,
}

sequenced-Bounded :
    (sequence : ℕ) (x : ProtocolState × Status) → IsBounded x.0 → IsBounded (sequenced sequence x).0
sequenced-Bounded sequence (s, ok u) b = b
sequenced-Bounded sequence (s, err e) b = b

-- All that the guardian does with its state.
pub data Event : Type 0 where
  accepts : ℕ → Request → ℕ → Event
  prepares : ℕ → PreparedToken → Event
  attempts_down completes releases : ℕ → Event
  terminates : Event

unfoldable pub on_event : ProtocolState → Event → ProtocolState
on_event s (accepts sequence r now_ns) = (accept s sequence r now_ns).0
on_event s (prepares operation token) = (record_prepared s operation token).0
on_event s (attempts_down token_id) = (record_down_attempt s token_id).0
on_event s (completes token_id) = (complete_synchronize s token_id).0
on_event s (releases token_id) = (acknowledge_cleanup_release s token_id).0
on_event s terminates = begin_terminal s

unfoldable pub on_events : ProtocolState → List Event → ProtocolState
on_events s [] = s
on_events s (e ∷ es) = on_events (on_event s e) es

accept-Bounded :
    (s : ProtocolState) (sequence : ℕ) (r : Request) (now_ns : ℕ)
    → IsBounded s
    → IsBounded (accept s sequence r now_ns).0
unfolding accept
accept-Bounded s sequence r now_ns b =
    elim (Bool-cases (sequence == 0 || leb sequence s.last_sequence)) [
      | inl e ↦ rw (accept, e) b
      | inr e ↦
          rw (accept, e)
            (sequenced-Bounded sequence (accept_request s r now_ns)
              (accept_request-Bounded s r now_ns b))
    ]

on_event-Bounded : (s : ProtocolState) (e : Event) → IsBounded s → IsBounded (on_event s e)
unfolding on_event record_prepared complete_synchronize acknowledge_cleanup_release begin_terminal
on_event-Bounded s (accepts sequence r now_ns) b = accept-Bounded s sequence r now_ns b
on_event-Bounded s (prepares operation token) b =
    commit_keeps IsBounded s (check_prepared s operation token) _ b λ u h.
      let fresh = prepared-fresh s operation token u h in
      (
        omega (arith, length-append s.tokens (tracked_token operation token ∷ []), fresh.1),
        omega (arith, debts_in-prepared operation token s.tokens, b.1),
        IdsRise-snoc 0 s.last_prepared_token_id s.tokens (tracked_token operation token) fresh.0
            b.2,
      )
on_event-Bounded s (attempts_down token_id) b = record_down_attempt-Bounded s token_id b
on_event-Bounded s (completes token_id) b = commit_keeps {A = Bool} IsBounded s _ _ b (λ released h.
    elim released
      as (λ x.
        TokensBounded s.last_prepared_token_id
          (if x then remove_first (has_id token_id) s.tokens else s.tokens)) [
            | true ↦ remove-Bounded (has_id token_id) s.last_prepared_token_id s.tokens b
            | false ↦ b
          ])
on_event-Bounded s (releases token_id) b =
    commit_keeps IsBounded s _ _ b
      (λ u h. remove-Bounded (is_cleanup_of token_id) s.last_prepared_token_id s.tokens b)
on_event-Bounded s terminates b = (
  omega (arith, retain_le is_debt s.tokens, b.0),
  omega (arith, retain_le is_debt s.tokens, b.1),
  IdsRise-retain is_debt 0 s.last_prepared_token_id s.tokens b.2,
)

events-Bounded : (s : ProtocolState) (es : List Event) → IsBounded s → IsBounded (on_events s es)
unfolding on_events
events-Bounded s [] b = b
events-Bounded s (e ∷ es) b = events-Bounded (on_event s e) es (on_event-Bounded s e b)

ready-Bounded :
    (session : ProtocolSession) (sequence : ℕ) (s : ProtocolState)
    → ready_after_handshake session sequence ≡ ok s
    → IsBounded s
unfolding ready_after_handshake ready_state
ready-Bounded session sequence s h = ground (arith, h)

-- From the state after a handshake on, over any requests and records: at most 512 tokens are tracked,
-- at most 32 of them may be down, and their ids rise strictly from above 0 to at most the last one
-- that was prepared.
pub on_events-Bounded :
    (session : ProtocolSession) (sequence : ℕ) (s : ProtocolState) (es : List Event)
    → ready_after_handshake session sequence ≡ ok s
    → IsBounded (on_events s es)
on_events-Bounded session sequence s es h = events-Bounded s es (ready-Bounded session sequence s h)
