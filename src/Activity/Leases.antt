-- ===== src/Activity/Leases.antt =====
-- src/daemon/session_activity/mod.rs: a thread that obtains a lease and checks it, one load after another,
-- while the monitor's thread stores.
use open_switcher.Prelude.{ℕ, List, [], ◌∷◌, Option, none, some, ◌==◌, if◌then◌else◌}
use open_switcher.Activity.Decisions.{AuthorizedSession, SessionDecision}
use open_switcher.Activity.Publication.{
  SessionAccess, with_lease_ttl, Store, store, publish, mark_worker_stopped, is_fresh, SessionLease,
}

-- Why a thread checks that the session is available: at the start of `backend_lease`, at its end, or in
-- `ensure_current`.
pub data Purpose : Type 0 where
  obtaining : Purpose
  confirming checking : SessionLease → Purpose

-- Where the thread stands: what it loads next, and the lease in its hands. `succeeded` is the answer `Ok`
-- of the call that its last load ended: the lease of `backend_lease`, or that of `ensure_current`.
pub data Reader : Type 0 where
  resting : Option SessionLease → Reader
  succeeded : SessionLease → Reader
  loads_authorized loads_confirmed : Purpose → (now_ms : ℕ) → Reader
  loads_generation : (now_ms : ℕ) → Reader
  loads_session : (now_ms generation : ℕ) → Reader
  loads_alive : SessionLease → (now_ms : ℕ) → Reader
  compares : Purpose → Reader

pub record World : Type 0 where
  pub access : SessionAccess
  -- what the call that holds the lock has still to store
  pub unstored : List Store
  pub reader : Reader

pub data Turn : Type 0 where
  publishes : SessionDecision → (at_ms : ℕ) → Turn
  stops writes reads : Turn
  calls_backend_lease calls_ensure_current : (now_ms : ℕ) → Turn

-- A failed check gives no lease, or leaves the lease that was checked.
abbrev pub refused : Purpose → Reader
refused obtaining = resting none
refused (confirming lease) = resting none
refused (checking lease) = resting (some lease)

abbrev pub available : Purpose → ℕ → Reader
available obtaining now_ms = loads_generation now_ms
available (confirming lease) now_ms = compares (confirming lease)
available (checking lease) now_ms = compares (checking lease)

abbrev pub checks_alive : SessionAccess → Purpose → ℕ → Reader
checks_alive p why now_ms = if p.worker_alive then loads_authorized why now_ms else refused why

abbrev pub session_read : ℕ → ℕ → Option AuthorizedSession → Reader
session_read now_ms g none = resting none
session_read now_ms g (some s) = loads_alive (record { generation = g; session = s }) now_ms

-- The last comparison of `backend_lease`.
abbrev pub obtained : SessionAccess → SessionLease → Reader
obtained p lease = if p.generation == lease.generation then succeeded lease else resting none

-- The comparison of `ensure_current`: the caller keeps a lease that is no longer current.
abbrev pub checked : SessionAccess → SessionLease → Reader
checked p lease = if p.generation == lease.generation then succeeded lease else resting (some lease)

-- The last load of a call. Nothing is compared where a lease is still to be obtained.
abbrev pub compared : SessionAccess → Purpose → Reader
compared p obtaining = resting none
compared p (confirming lease) = obtained p lease
compared p (checking lease) = checked p lease

unfoldable pub load : SessionAccess → List Store → Reader → Reader
load p ss (resting held) = resting held
load p ss (succeeded lease) = resting (some lease)
load p ss (loads_authorized why now_ms) =
    if p.authorized then loads_confirmed why now_ms else refused why
load p ss (loads_confirmed why now_ms) =
    if is_fresh p now_ms then available why now_ms else refused why
load p ss (loads_generation now_ms) = loads_session now_ms p.generation
load p [] (loads_session now_ms g) = session_read now_ms g p.session
load p (s ∷ ss) (loads_session now_ms g) = loads_session now_ms g
load p ss (loads_alive lease now_ms) = checks_alive p (confirming lease) now_ms
load p ss (compares why) = compared p why

-- A call of a thread that still has one under way waits, and so does one for a lock that is held.
abbrev pub start_backend_lease : SessionAccess → ℕ → Reader → Reader
start_backend_lease p now_ms (resting held) = checks_alive p obtaining now_ms
start_backend_lease p now_ms (succeeded lease) = checks_alive p obtaining now_ms
start_backend_lease p now_ms r = r

abbrev pub start_ensure_current : SessionAccess → ℕ → Reader → Reader
start_ensure_current p now_ms (resting (some lease)) = checks_alive p (checking lease) now_ms
start_ensure_current p now_ms (succeeded lease) = checks_alive p (checking lease) now_ms
start_ensure_current p now_ms r = r

abbrev pub take_lock : List Store → List Store → List Store
take_lock [] next = next
take_lock (s ∷ ss) next = s ∷ ss

abbrev pub store_next : World → List Store → World
store_next w [] = w
store_next w (s ∷ ss) = record w { access = store w.access s; unstored = ss }

unfoldable pub turn : World → Turn → World
unfolding store load
turn w (publishes decision at_ms) = record w {
  unstored = take_lock w.unstored (publish w.access decision at_ms);
}
turn w stops = record w { unstored = take_lock w.unstored mark_worker_stopped }
turn w writes = store_next w w.unstored
turn w reads = record w { reader = load w.access w.unstored w.reader }
turn w (calls_backend_lease now_ms) = record w {
  reader = start_backend_lease w.access now_ms w.reader;
}
turn w (calls_ensure_current now_ms) = record w {
  reader = start_ensure_current w.access now_ms w.reader;
}

unfoldable pub turns : World → List Turn → World
unfolding turn
turns w [] = w
turns w (t ∷ ts) = turns (turn w t) ts

abbrev pub new_world : ℕ → World
new_world lease_ttl_ms = record {
  access = with_lease_ttl lease_ttl_ms;
  unstored = [];
  reader = resting none;
}
