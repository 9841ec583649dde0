-- ===== src/Activity/Publication.antt =====
-- src/daemon/session_activity/mod.rs: `SessionAccessPublication`, the state that the monitor's thread
-- writes, one store after another, under the lock of the session.
use open_switcher.Prelude.{
  ℕ, ◌+◌, ◌-◌, ◌%◌, ◌^◌, Bool, true, false, not, ◌&&◌, List, [], ◌∷◌, Option, none, some, leb,
  if◌then◌else◌, is_some_and,
}
use open_switcher.Switch.Texts.{same_text}
use open_switcher.Activity.Decisions.{AuthorizedSession, SessionDecision, authorized, unauthorized}

pub data SessionError : Type 0 where
  session_monitor_stopped input_session_inactive : SessionError

pub record SessionAccess : Type 0 where
  pub authorized : Bool
  pub generation : ℕ
  pub confirmed_at_ms : ℕ
  pub worker_alive : Bool
  pub lease_ttl_ms : ℕ
  pub session : Option AuthorizedSession

-- 3 seconds.
abbrev pub session_lease_ttl_ms : ℕ
session_lease_ttl_ms = 3000

unfoldable pub with_lease_ttl : ℕ → SessionAccess
with_lease_ttl lease_ttl_ms = record {
  authorized = false;
  generation = 1;
  confirmed_at_ms = 0;
  worker_alive = true;
  lease_ttl_ms = lease_ttl_ms;
  session = none;
}

-- One store to the shared fields.
pub data Store : Type 0 where
  withdraw bump allow die : Store
  assign : Option AuthorizedSession → Store
  confirm : (at_ms : ℕ) → Store

unfoldable pub store : SessionAccess → Store → SessionAccess
store p withdraw = record p { authorized = false }
store p bump = record p { generation = (p.generation + 1) % 2 ^ 64 }
store p allow = record p { authorized = true }
store p die = record p { worker_alive = false }
store p (assign session) = record p { session = session }
store p (confirm at_ms) = record p { confirmed_at_ms = at_ms }

abbrev same_session : AuthorizedSession → AuthorizedSession → Bool
same_session a b = same_text a.session_id b.session_id && same_text a.seat b.seat

-- The stores of `publish`, in their order.
unfoldable pub publish : SessionAccess → SessionDecision → ℕ → List Store
publish p (authorized session) at_ms =
    if not p.worker_alive
    then []
    else if p.authorized && is_some_and (λ current. same_session current session) p.session
    then confirm at_ms ∷ []
    else withdraw ∷ bump ∷ assign (some session) ∷ confirm at_ms ∷ allow ∷ []
publish p (unauthorized reason) at_ms =
    if not p.worker_alive then [] else withdraw ∷ bump ∷ assign none ∷ confirm at_ms ∷ []

abbrev pub mark_worker_stopped : List Store
mark_worker_stopped = withdraw ∷ bump ∷ assign none ∷ die ∷ []

-- Subtraction stops at 0, as the source's does.
abbrev pub is_fresh : SessionAccess → ℕ → Bool
is_fresh p now_ms = leb (now_ms - p.confirmed_at_ms) p.lease_ttl_ms

pub record SessionLease : Type 0 where
  pub generation : ℕ
  pub session : AuthorizedSession
