-- ===== src/Guardian/Lengths.antt =====
-- The payloads fit a frame.
use open_switcher.Prelude.{ℕ, List, ◌++◌, ◌+◌, ◌≤◌, ◌≡◌, length, length-append, arith, refl}
use open_switcher.Guardian.Numbers.{length-to_be_bytes}
use open_switcher.Guardian.Codes.{u8}
use open_switcher.Guardian.Payload.{
  IsToken, IsMessage, token_bytes, deadline_bytes, proof_bytes, payload_of,
}
use open_switcher.Guardian.Wire.{
  PreparedToken, ReleaseDeadline, mutation, cleanup, WireTerminalProof, reconciled,
  owner_generation_destroyed, unreconciled, hello, prepare_key, execute_down, key_up, synchronize,
  transfer_to_physical_debt, physical_release_committed, cancel_and_drain, release_all_and_exit,
  ready, prepared, down_ack, up_ack, sync_ack, transfer_ack, release_commit_ack, drained, stopped,
  fatal, Message, request, response,
}

length-u8 : (v : ℕ) → length (u8 v) ≡ 1
unfolding u8
length-u8 v = refl

-- `length-append` for bytes, for a ruleset.
length-join : (xs ys : List ℕ) → length (xs ++ ys) ≡ length xs + length ys
length-join = length-append

ruleset lengths = (arith, length-join, length-to_be_bytes, length-u8)

length-token_bytes : (t : PreparedToken) → IsToken t → length (token_bytes t) ≡ 43
unfolding token_bytes
length-token_bytes t h = omega lengths

length-deadline_bytes : (d : ReleaseDeadline) → length (deadline_bytes d) ≡ 9
unfolding deadline_bytes
length-deadline_bytes (mutation d) = omega lengths
length-deadline_bytes (cleanup d) = omega lengths

length-proof_bytes : (p : WireTerminalProof) → length (proof_bytes p) ≤ 9
unfolding proof_bytes
length-proof_bytes reconciled = omega lengths
length-proof_bytes (owner_generation_destroyed g) = omega lengths
length-proof_bytes (unreconciled n) = omega lengths

pub length-payload_of : (m : Message) → IsMessage m → length (payload_of m) ≤ 68
unfolding payload_of
length-payload_of (request (hello a b)) h = omega (lengths)
length-payload_of (request (prepare_key a b c)) h = omega (lengths)
length-payload_of (request (execute_down a b c)) h = omega (lengths, length-token_bytes b h.1)
length-payload_of (request (key_up a b c)) h =
    omega (lengths, length-token_bytes b h.1, length-deadline_bytes c)
length-payload_of (request (synchronize a b c)) h = omega (lengths, length-deadline_bytes c)
length-payload_of (request (transfer_to_physical_debt a b c d)) h =
    omega (lengths, length-token_bytes b h.1)
length-payload_of (request (physical_release_committed a b c d)) h =
    omega (lengths, length-token_bytes b h.1)
length-payload_of (request (cancel_and_drain a b)) h = omega (lengths)
length-payload_of (request (release_all_and_exit a)) h = omega (lengths)
length-payload_of (response (ready a b c d)) h = omega (lengths)
length-payload_of (response (prepared a b)) h = omega (lengths, length-token_bytes b h.1)
length-payload_of (response (down_ack a b)) h = omega (lengths)
length-payload_of (response (up_ack a b)) h = omega (lengths)
length-payload_of (response (sync_ack a b)) h = omega (lengths)
length-payload_of (response (transfer_ack a b)) h = omega (lengths)
length-payload_of (response (release_commit_ack a b)) h = omega (lengths)
length-payload_of (response (drained a b)) h = omega (lengths, length-proof_bytes b)
length-payload_of (response (stopped a)) h = omega (lengths, length-proof_bytes a)
length-payload_of (response (fatal a)) h = omega (lengths)
