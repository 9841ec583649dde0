-- ===== src/Guardian/State.antt =====
-- src/daemon/xtest_guardian/protocol.rs: `ProtocolState`, and the checks that its methods make before
-- they change it. The two types of deadlines, and the identifiers, are numbers.
use open_switcher.Prelude.{
  ℕ, ◌-◌, Bool, true, false, not, ◌&&◌, ◌||◌, List, [], ◌∷◌, Option, none, some, any, count_if, leb,
  ltb, ◌==◌, if◌then◌else◌, ok, err, String, is_some_and,
}
use open_switcher.Synthetic.Errors.{Fallible, Status}
use open_switcher.Synthetic.KeyLedger.{broken}
use open_switcher.Guardian.Wire.{
  ProtocolSession, PreparedToken, ReleaseDeadline, mutation, cleanup, max_transaction_timeout_ns,
  max_release_cleanup_ns,
}

pub data TrackedTokenState : Type 0 where
  prepared attempting_down possibly_down : TrackedTokenState
  physical_debt : ℕ → TrackedTokenState

pub record TrackedToken : Type 0 where
  pub operation : ℕ
  pub token : PreparedToken
  pub state : TrackedTokenState

pub record PendingPrepare : Type 0 where
  pub operation : ℕ
  pub evdev_code : ℕ

pub data PendingSyncKind : Type 0 where
  down up : PendingSyncKind

pub record PendingSync : Type 0 where
  pub operation : ℕ
  pub token_id : ℕ
  pub kind : PendingSyncKind
  pub request_accepted : Bool

pub record ProtocolState : Type 0 where
  pub session : ProtocolSession
  pub last_sequence : ℕ
  pub last_operation : ℕ
  pub active_operation : Option ℕ
  pub operation_deadline : Option ℕ
  pub last_prepared_token_id : ℕ
  pub last_physical_release_sequence : ℕ
  pub pending_prepare : Option PendingPrepare
  pub pending_sync : Option PendingSync
  pub tokens : List TrackedToken
  pub terminal : Bool
  pub cleanup_deadline : Option ℕ

-- The tests on states that the source writes by `matches!` and `==`.
abbrev pub is_prepared : TrackedTokenState → Bool
is_prepared prepared = true
is_prepared _ = false

abbrev pub is_attempting_down : TrackedTokenState → Bool
is_attempting_down attempting_down = true
is_attempting_down _ = false

abbrev pub is_possibly_down : TrackedTokenState → Bool
is_possibly_down possibly_down = true
is_possibly_down _ = false

abbrev pub is_physical_debt : TrackedTokenState → Bool
is_physical_debt (physical_debt g) = true
is_physical_debt _ = false

abbrev pub is_debt_of : ℕ → TrackedTokenState → Bool
is_debt_of generation (physical_debt g) = g == generation
is_debt_of generation _ = false

abbrev pub is_up : PendingSyncKind → Bool
is_up up = true
is_up down = false

unfoldable pub same_bytes : List ℕ → List ℕ → Bool
same_bytes [] [] = true
same_bytes (a ∷ as') (b ∷ bs) = a == b && same_bytes as' bs
same_bytes _ _ = false

-- `==` of two tokens.
abbrev pub same_token : PreparedToken → PreparedToken → Bool
same_token a b =
    a.token_id == b.token_id
    && a.evdev_code == b.evdev_code
    && a.x11_keycode == b.x11_keycode
    && same_bytes a.session b.session
    && same_bytes a.epoch b.epoch

-- `find`, and what a write to the place that `position` finds, or a removal there, leaves.
unfoldable pub find_first : (TrackedToken → Bool) → List TrackedToken → Option TrackedToken
find_first p [] = none
find_first p (t ∷ ts) = if p t then some t else find_first p ts

unfoldable pub write_first :
    (TrackedToken → Bool) → TrackedTokenState → List TrackedToken → List TrackedToken
write_first p state [] = []
write_first p state (t ∷ ts) =
    if p t then record t { state = state } ∷ ts else t ∷ write_first p state ts

unfoldable pub remove_first : (TrackedToken → Bool) → List TrackedToken → List TrackedToken
remove_first p [] = []
remove_first p (t ∷ ts) = if p t then ts else t ∷ remove_first p ts

abbrev pub has_id : ℕ → TrackedToken → Bool
has_id token_id t = t.token.token_id == token_id

abbrev pub is_debt : TrackedToken → Bool
is_debt t = not (is_prepared t.state)

abbrev pub debts_in : List TrackedToken → ℕ
debts_in = count_if is_debt

unfoldable pub debt_count : ProtocolState → ℕ
debt_count s = debts_in s.tokens

-- A chain of checks.
infixl 5 ◌>>=◌ ◌>>◌
abbrev pub ◌>>=◌ : {A B : Type 0} → Fallible A → (A → Fallible B) → Fallible B
◌>>=◌ r f = elim r [ ok a ↦ f a | err e ↦ err e ]

abbrev pub ◌>>◌ : {A B : Type 0} → Fallible A → Fallible B → Fallible B
r >> q = r >>= λ _. q

abbrev pub refuse_if : Bool → String → Status
refuse_if true context = broken context
refuse_if false context = ok tt

abbrev pub or_refuse : {A : Type 0} → Option A → String → Fallible A
or_refuse none context = broken context
or_refuse (some a) context = ok a

unfoldable pub validate_future_deadline : ℕ → ℕ → ℕ → String → String → Status
validate_future_deadline deadline_ns now_ns maximum_delta_ns expired too_far =
    if leb deadline_ns now_ns
    then broken expired
    else if ltb maximum_delta_ns (deadline_ns - now_ns)
    then broken too_far
    else ok tt

unfoldable pub validate_normal_deadline : ProtocolState → ℕ → ℕ → Status
unfolding validate_future_deadline
validate_normal_deadline s deadline now_ns = do
  refuse_if s.terminal "XTEST guardian normal mutation attempted after terminal transition"
  validate_future_deadline deadline now_ns max_transaction_timeout_ns
      "XTEST guardian mutation deadline expired"
      "XTEST guardian mutation deadline is too far in the future"

-- Whether this request is the one that starts the cleanup.
abbrev pub starts_cleanup : Option ℕ → ℕ → Fallible Bool
starts_cleanup none deadline = ok true
starts_cleanup (some existing) deadline =
    if existing == deadline
    then ok false
    else broken "XTEST guardian cleanup deadline cannot be changed"

unfoldable pub validate_cleanup_deadline : ProtocolState → ℕ → ℕ → Fallible Bool
unfolding validate_future_deadline
validate_cleanup_deadline s deadline now_ns = do
  validate_future_deadline deadline now_ns max_release_cleanup_ns
      "XTEST guardian cleanup deadline expired"
      "XTEST guardian cleanup deadline is too far in the future"
  starts_cleanup s.cleanup_deadline deadline

unfoldable pub validate_operation_deadline : ProtocolState → ℕ → ℕ → Status
validate_operation_deadline s operation deadline =
    refuse_if
      (not (is_some_and (λ x. x == operation) s.active_operation)
        || not (is_some_and (λ x. x == deadline) s.operation_deadline))
      "XTEST guardian operation mutation deadline cannot be changed"

unfoldable pub validate_release_deadline : ProtocolState → ℕ → ReleaseDeadline → ℕ → Fallible Bool
unfolding validate_normal_deadline validate_operation_deadline validate_cleanup_deadline
validate_release_deadline s operation (mutation deadline) now_ns = do
  validate_normal_deadline s deadline now_ns
  validate_operation_deadline s operation deadline
  ok false
validate_release_deadline s operation (cleanup deadline) now_ns =
    validate_cleanup_deadline s deadline now_ns

unfoldable pub validate_active_operation : ProtocolState → ℕ → Status
validate_active_operation s operation =
    refuse_if (operation == 0 || not (is_some_and (λ x. x == operation) s.active_operation))
      "XTEST guardian request operation is stale or inactive"

-- Whether the request starts a new operation.
unfoldable pub validate_prepare_operation : ProtocolState → ℕ → Fallible Bool
validate_prepare_operation s operation =
    if operation == 0
    then broken "XTEST guardian operation identifier must be nonzero"
    else if ltb operation s.last_operation
    then broken "XTEST guardian operation identifier is stale"
    else if operation == s.last_operation
    then if is_some_and (λ x. x == operation) s.active_operation
      then ok false
      else broken "XTEST guardian completed operation cannot be reused"
    else if any (λ t. not (is_physical_debt t.state)) s.tokens
    then broken "XTEST guardian previous operation has transient tokens"
    else ok true

unfoldable pub validate_token_identity : ProtocolState → PreparedToken → Status
unfolding same_bytes
validate_token_identity s token = do
  refuse_if
      (not (same_bytes token.session s.session.session)
        || not (same_bytes token.epoch s.session.epoch))
      "XTEST guardian token belongs to another session or epoch"
  refuse_if (token.token_id == 0 || token.evdev_code == 0 || token.x11_keycode == 0)
      "XTEST guardian token contains a zero identifier"

unfoldable pub find_token : ProtocolState → PreparedToken → Fallible TrackedToken
unfolding find_first
find_token s token =
    or_refuse (find_first (λ t. same_token t.token token) s.tokens)
      "XTEST guardian token is unknown or stale"
