-- ===== src/Guardian/Outcomes.antt =====
-- src/daemon/xtest_guardian/protocol.rs: what a `ProtocolState` records of the requests that it
-- accepted, its cleanup, and which response fits a request.
use mathlib.Core.List.{reverse}
use open_switcher.Prelude.{
  ℕ, Bool, true, false, not, ◌&&◌, ◌||◌, List, [], ◌∷◌, ◌++◌, map, none, length, any, leb, ◌==◌,
  if◌then◌else◌, ok,
}
use open_switcher.Synthetic.Errors.{Fallible, Status}
use open_switcher.Synthetic.KeyLedger.{broken}
use open_switcher.Guardian.Wire.{
  PreparedToken, Request, hello, prepare_key, execute_down, key_up, synchronize,
  transfer_to_physical_debt, physical_release_committed, cancel_and_drain, release_all_and_exit,
  Response, ready, prepared, down_ack, up_ack, sync_ack, transfer_ack, release_commit_ack, drained,
  stopped, fatal, Message, request, response, DecodedFrame, max_prepared_tokens,
}
use open_switcher.Guardian.State
use open_switcher.Guardian.State.{
  possibly_down, TrackedToken, PendingPrepare, PendingSyncKind, down, up, PendingSync,
  ProtocolState, is_attempting_down, is_up, find_first, write_first, remove_first, has_id, is_debt,
  ◌>>=◌, ◌>>◌, refuse_if, or_refuse, validate_token_identity,
}
use open_switcher.Guardian.Accept.{commit}

abbrev pub check_prepared : ProtocolState → ℕ → PreparedToken → Status
check_prepared s operation token = do
  pending ← or_refuse s.pending_prepare "XTEST guardian prepared token has no matching request"
  refuse_if (not (pending.operation == operation) || not (pending.evdev_code == token.evdev_code))
      "XTEST guardian prepared token does not match request"
  validate_token_identity s token
  refuse_if (leb token.token_id s.last_prepared_token_id)
      "XTEST guardian prepared token identifier is stale"
  refuse_if (leb max_prepared_tokens (length s.tokens))
      "XTEST guardian prepared token capacity exceeded"
  refuse_if (any (has_id token.token_id) s.tokens)
      "XTEST guardian prepared token identifier is duplicated"

abbrev pub tracked_token : ℕ → PreparedToken → TrackedToken
tracked_token operation token = record {
  operation = operation;
  token = token;
  state = State.prepared;
}

unfoldable pub record_prepared : ProtocolState → ℕ → PreparedToken → ProtocolState × Status
record_prepared s operation token = commit s (check_prepared s operation token) λ _. record s {
  tokens = s.tokens ++ tracked_token operation token ∷ [];
  last_prepared_token_id = token.token_id;
  pending_prepare = none;
}

abbrev pub check_down_attempt : ProtocolState → ℕ → Status
check_down_attempt s token_id = do
  pending ← or_refuse s.pending_sync "XTEST guardian down attempt has no matching request"
  refuse_if (is_up pending.kind || not (pending.token_id == token_id) || pending.request_accepted)
      "XTEST guardian down attempt does not match request"
  tracked ←
      or_refuse (find_first (has_id token_id) s.tokens) "XTEST guardian down attempt lost its token"
  refuse_if (not (is_attempting_down tracked.state))
      "XTEST guardian down attempt token is not attempting"

unfoldable pub record_down_attempt : ProtocolState → ℕ → ProtocolState × Status
record_down_attempt s token_id =
    commit s (check_down_attempt s token_id)
      λ _. record s { tokens = write_first (has_id token_id) possibly_down s.tokens }

-- Whether a released token is to be removed.
abbrev pub check_complete : ProtocolState → ℕ → Fallible Bool
check_complete s token_id = do
  pending ← or_refuse s.pending_sync "XTEST guardian synchronize completion has no request"
  refuse_if (not (pending.token_id == token_id) || not pending.request_accepted)
      "XTEST guardian synchronize completion does not match request"
  refuse_if (is_up pending.kind && not (any (has_id token_id) s.tokens))
      "XTEST guardian release completion lost its token"
  ok (is_up pending.kind)

unfoldable pub complete_synchronize : ProtocolState → ℕ → ProtocolState × Status
complete_synchronize s token_id = commit s (check_complete s token_id) λ released. record s {
  tokens = if released then remove_first (has_id token_id) s.tokens else s.tokens;
  pending_sync = none;
}

-- `retain`.
unfoldable pub retain : (TrackedToken → Bool) → List TrackedToken → List TrackedToken
retain p [] = []
retain p (t ∷ ts) = if p t then t ∷ retain p ts else retain p ts

unfoldable pub begin_terminal : ProtocolState → ProtocolState
unfolding retain
begin_terminal s = record s {
  terminal = true;
  pending_prepare = none;
  pending_sync = none;
  tokens = retain is_debt s.tokens;
}

unfoldable pub cleanup_tokens_reverse : ProtocolState → List PreparedToken
unfolding retain
cleanup_tokens_reverse s = map (λ t. t.token) (retain is_debt (reverse s.tokens))

abbrev pub is_cleanup_of : ℕ → TrackedToken → Bool
is_cleanup_of token_id t = has_id token_id t && is_debt t

unfoldable pub acknowledge_cleanup_release : ProtocolState → ℕ → ProtocolState × Status
acknowledge_cleanup_release s token_id =
    commit s
      (refuse_if (not (any (is_cleanup_of token_id) s.tokens))
        "XTEST guardian cleanup lost its token")
      λ _. record s { tokens = remove_first (is_cleanup_of token_id) s.tokens }

-- The cases of the `match` on a request and a response.
unfoldable pub fits : Request → Response → Bool
fits (hello _ _) (ready _ _ _ _) = true
fits (prepare_key operation evdev_code _) (prepared operation' token) =
    operation == operation' && evdev_code == token.evdev_code
fits (execute_down operation token _) (down_ack operation' token_id) =
    operation == operation' && token.token_id == token_id
fits (key_up operation token _) (up_ack operation' token_id) =
    operation == operation' && token.token_id == token_id
fits (synchronize operation token_id _) (sync_ack operation' token_id') =
    operation == operation' && token_id == token_id'
fits (transfer_to_physical_debt operation token _ _) (transfer_ack operation' token_id) =
    operation == operation' && token.token_id == token_id
fits (physical_release_committed sequence token _ _) (release_commit_ack sequence' token_id) =
    sequence == sequence' && token.token_id == token_id
fits (cancel_and_drain operation _) (drained operation' proof) = operation == operation'
fits (release_all_and_exit _) (stopped proof) = true
fits _ _ = false

unfoldable pub response_of : Request → Message → Status
unfolding fits
response_of r (request q) = broken "XTEST guardian peer returned a request as a response"
response_of r (response (fatal code)) = ok tt
response_of r (response answer) =
    refuse_if (not (fits r answer)) "XTEST guardian response does not match request"

unfoldable pub response_matches : ℕ → Request → DecodedFrame → Status
unfolding response_of
response_matches request_sequence r answer =
    if not (answer.sequence == request_sequence)
    then broken "XTEST guardian response sequence does not match request"
    else response_of r answer.message
