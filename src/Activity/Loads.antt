-- ===== src/Activity/Loads.antt =====
-- What a thread knows of its lease after a load, or at the start of a call.
use open_switcher.Prelude.{
  ℕ, ◌^◌, ◌<◌, ◌≡◌, refl, Bool, true, false, List, [], ◌∷◌, Option, none, some, ◌==◌, if◌then◌else◌,
  arith,
}
use open_switcher.Activity.Decisions.{AuthorizedSession}
use open_switcher.Activity.Publication.{SessionAccess, Store, is_fresh}
use open_switcher.Activity.Known.{Since, NamesFor, Knows}
use open_switcher.Activity.Leases.{
  Purpose, obtaining, confirming, checking, Reader, resting, succeeded, loads_authorized,
  loads_confirmed, loads_generation, loads_session, loads_alive, compares, load, session_read,
  checks_alive, compared, start_backend_lease, start_ensure_current, refused, available,
}

pub refused-Knows :
    (n : ℕ) (p : SessionAccess) (ss : List Store) (why : Purpose)
    → NamesFor n p ss why
    → Knows n p ss (refused why)
refused-Knows n p ss obtaining k = tt
refused-Knows n p ss (confirming lease) k = tt
refused-Knows n p ss (checking lease) k = k

pub available-Knows :
    (n now_ms : ℕ) (p : SessionAccess) (ss : List Store) (why : Purpose)
    → NamesFor n p ss why
    → Knows n p ss (available why now_ms)
available-Knows n now_ms p ss obtaining k = tt
available-Knows n now_ms p ss (confirming lease) k = k
available-Knows n now_ms p ss (checking lease) k = k

pub if-Knows :
    (n : ℕ) (p : SessionAccess) (ss : List Store) (b : Bool) (r r' : Reader)
    → Knows n p ss r
    → Knows n p ss r'
    → Knows n p ss (if b then r else r')
if-Knows n p ss true r r' k k' = k
if-Knows n p ss false r r' k k' = k'

pub session_read-Knows :
    (n now_ms g : ℕ) (p : SessionAccess) (o : Option AuthorizedSession)
    → p.session ≡ o
    → Since n g p (Unit {0})
    → Knows n p [] (session_read now_ms g o)
session_read-Knows n now_ms g p none e k = tt
session_read-Knows n now_ms g p (some s) e k = record {
  changes = k.changes;
  few = k.few;
  small = k.small;
  counted = k.counted;
  same = λ z. (e, refl);
}

pub compared-Knows :
    (n : ℕ) (p : SessionAccess) (ss : List Store) (why : Purpose)
    → NamesFor n p ss why
    → Knows n p ss (compared p why)
compared-Knows n p ss obtaining k = tt
compared-Knows n p ss (confirming lease) k =
    if-Knows n p ss (p.generation == lease.generation) (succeeded lease) (resting none) k tt
compared-Knows n p ss (checking lease) k =
    if-Knows n p ss (p.generation == lease.generation) (succeeded lease) (resting (some lease)) k k

pub checks_alive-Knows :
    (n now_ms : ℕ) (p : SessionAccess) (ss : List Store) (why : Purpose)
    → NamesFor n p ss why
    → Knows n p ss (checks_alive p why now_ms)
checks_alive-Knows n now_ms p ss why k =
    if-Knows n p ss p.worker_alive (loads_authorized why now_ms) (refused why) k
      (refused-Knows n p ss why k)

pub load-Knows :
    (n : ℕ) (p : SessionAccess) (ss : List Store) (r : Reader)
    → p.generation < 2 ^ 64
    → Knows n p ss r
    → Knows n p ss (load p ss r)
unfolding load
load-Knows n p ss (resting held) small k = k
load-Knows n p ss (succeeded lease) small k = k
load-Knows n p ss (loads_authorized why now_ms) small k =
    if-Knows n p ss p.authorized (loads_confirmed why now_ms) (refused why) k
      (refused-Knows n p ss why k)
load-Knows n p ss (loads_confirmed why now_ms) small k =
    if-Knows n p ss (is_fresh p now_ms) (available why now_ms) (refused why)
      (available-Knows n now_ms p ss why k) (refused-Knows n p ss why k)
load-Knows n p ss (loads_generation now_ms) small k = record {
  changes = 0;
  few = omega arith;
  small = small;
  counted = omega (arith, small);
  same = λ z. tt;
}
load-Knows n p [] (loads_session now_ms g) small k =
    session_read-Knows n now_ms g p p.session refl k
load-Knows n p (s ∷ ss) (loads_session now_ms g) small k = k
load-Knows n p ss (loads_alive lease now_ms) small k =
    checks_alive-Knows n now_ms p ss (confirming lease) k
load-Knows n p ss (compares why) small k = compared-Knows n p ss why k

pub start_backend_lease-Knows :
    (n now_ms : ℕ) (p : SessionAccess) (ss : List Store) (r : Reader)
    → Knows n p ss r
    → Knows n p ss (start_backend_lease p now_ms r)
start_backend_lease-Knows n now_ms p ss (resting held) k =
    checks_alive-Knows n now_ms p ss obtaining tt
start_backend_lease-Knows n now_ms p ss (succeeded lease) k =
    checks_alive-Knows n now_ms p ss obtaining tt
start_backend_lease-Knows n now_ms p ss (loads_authorized why t) k = k
start_backend_lease-Knows n now_ms p ss (loads_confirmed why t) k = k
start_backend_lease-Knows n now_ms p ss (loads_generation t) k = k
start_backend_lease-Knows n now_ms p ss (loads_session t g) k = k
start_backend_lease-Knows n now_ms p ss (loads_alive lease t) k = k
start_backend_lease-Knows n now_ms p ss (compares why) k = k

pub start_ensure_current-Knows :
    (n now_ms : ℕ) (p : SessionAccess) (ss : List Store) (r : Reader)
    → Knows n p ss r
    → Knows n p ss (start_ensure_current p now_ms r)
start_ensure_current-Knows n now_ms p ss (resting none) k = k
start_ensure_current-Knows n now_ms p ss (resting (some lease)) k =
    checks_alive-Knows n now_ms p ss (checking lease) k
start_ensure_current-Knows n now_ms p ss (succeeded lease) k =
    checks_alive-Knows n now_ms p ss (checking lease) k
start_ensure_current-Knows n now_ms p ss (loads_authorized why t) k = k
start_ensure_current-Knows n now_ms p ss (loads_confirmed why t) k = k
start_ensure_current-Knows n now_ms p ss (loads_generation t) k = k
start_ensure_current-Knows n now_ms p ss (loads_session t g) k = k
start_ensure_current-Knows n now_ms p ss (loads_alive lease t) k = k
start_ensure_current-Knows n now_ms p ss (compares why) k = k
