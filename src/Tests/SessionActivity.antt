-- ===== src/Tests/SessionActivity.antt =====
-- The choice of a session, and a lease in an interleaving of its thread with the monitor's.
use open_switcher.Prelude.{inr, ◌≡◌, refl, arith, true, false, List, [], ◌∷◌, ◌++◌, some}
use open_switcher.Switch.Keymap.{codes}
use open_switcher.Switch.Texts.{same_text}
use open_switcher.Activity.Decisions.{
  SessionRecord, AuthorizedSession, authorized, unauthorized, ambiguous, is_candidate, IsCandidate,
  decide_session, session_of, OnlyCandidate, here, there, decide_session_iff,
}
use open_switcher.Activity.Publication.{with_lease_ttl, publish, store}
use open_switcher.Activity.Leases.{
  Turn, publishes, writes, reads, calls_backend_lease, calls_ensure_current, turns, new_world, turn,
  succeeded, resting, load,
}
use open_switcher.Activity.Safety.{successful_lease_names_session}

abbrev local_session : SessionRecord
local_session = record {
  id = codes "2";
  uid = 1000;
  seat = codes "seat0";
  session_type = codes "wayland";
  session_class = codes "user";
  active = true;
  remote = false;
}

abbrev remote_session : SessionRecord
remote_session = record local_session { id = codes "5"; remote = true }

local_chosen :
    decide_session 1000 (remote_session ∷ local_session ∷ [])
    ≡ authorized (session_of local_session)
unfolding decide_session is_candidate same_text
local_chosen = refl

two_ambiguous : decide_session 1000 (local_session ∷ local_session ∷ []) ≡ unauthorized ambiguous
unfolding decide_session is_candidate same_text
two_ambiguous = refl

local-IsCandidate : IsCandidate 1000 local_session
local-IsCandidate = record {
  of_user = refl;
  is_active = refl;
  is_local = refl;
  user_class = refl;
  graphical = inr refl;
  seated = λ e. cc;
}

only_local : OnlyCandidate 1000 local_session (remote_session ∷ local_session ∷ [])
only_local = there (λ c. cc (c.is_local)) (here local-IsCandidate tt)

decide_session_iff_example :
    decide_session 1000 (remote_session ∷ local_session ∷ [])
    ≡ authorized (session_of local_session)
decide_session_iff_example =
    (decide_session_iff 1000 (remote_session ∷ local_session ∷ []) (session_of local_session)).1
      (local_session, only_local, refl)

abbrev first_session : AuthorizedSession
first_session = session_of local_session

-- The monitor publishes a session; a thread obtains a lease of it, and checks it once more.
abbrev lease_turns : List Turn
lease_turns =
    publishes (authorized first_session) 10
    ∷ writes
    ∷ writes
    ∷ writes
    ∷ writes
    ∷ writes
    ∷ calls_backend_lease 20
    ∷ reads
    ∷ reads
    ∷ reads
    ∷ reads
    ∷ reads
    ∷ reads
    ∷ reads
    ∷ reads
    ∷ calls_ensure_current 30
    ∷ reads
    ∷ reads
    ∷ []

lease_confirmed :
    (turn (turns (new_world 3000) lease_turns) reads).reader
    ≡ succeeded (record { generation = 2; session = first_session })
unfolding turns turn load store publish with_lease_ttl
lease_confirmed = refl

-- A decision of which two stores are done refuses the lease.
lease_overtaken :
    (turn
      (turns
        (new_world 3000)
        (lease_turns ++ publishes (unauthorized ambiguous) 31 ∷ writes ∷ writes ∷ []))
      reads).reader
    ≡ resting (some (record { generation = 2; session = first_session }))
unfolding turns turn load store publish with_lease_ttl
lease_overtaken = refl

successful_lease_names_session_example :
    (turn (turns (new_world 3000) lease_turns) reads).access.session ≡ some first_session
successful_lease_names_session_example =
    successful_lease_names_session 3000 lease_turns
      (record { generation = 2; session = first_session }) (omega arith) lease_confirmed
