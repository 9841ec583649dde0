-- ===== src/Activity/Safety.antt =====
-- A lease that is still current names the session of the last decision.
use open_switcher.Prelude.{
  ℕ, suc, ◌+◌, ◌≢◌, ap, Bool, false, Option, none, if◌then◌else◌, ◌^◌, ◌<◌, ◌≡◌, refl, true, List,
  [], ◌∷◌, some, ◌==◌, length, arith, ◌∙◌, subst, inl, inr, Bool-cases,
}
use open_switcher.Activity.Decisions.{AuthorizedSession, SessionDecision, authorized, unauthorized}
use open_switcher.Activity.Publication.{
  SessionAccess, with_lease_ttl, Store, withdraw, bump, allow, die, assign, confirm, store, publish,
  SessionLease, is_fresh,
}
use open_switcher.Activity.Known.{
  guarded, Names, Knows, Since-later, store-Names, store-Since, map-Knows,
}
use open_switcher.Activity.Loads.{load-Knows, start_backend_lease-Knows, start_ensure_current-Knows}
use open_switcher.Activity.Leases.{
  obtaining, confirming, checking, Reader, resting, loads_authorized, loads_confirmed,
  loads_generation, loads_session, loads_alive, compares, World, Turn, publishes, stops, writes,
  reads, calls_backend_lease, calls_ensure_current, turn, turns, new_world, succeeded, refused,
  available, session_read, Purpose, load, store_next, take_lock,
}

locked-Names :
    (n : ℕ) (p : SessionAccess) (ss next : List Store) (lease : SessionLease)
    → guarded next ≡ true
    → Names n p ss lease
    → Names (suc n) p (take_lock ss next) lease
locked-Names n p [] next lease g k = Since-later refl (λ (e, _). (e, g)) k
locked-Names n p (s ∷ ss) next lease g k = Since-later refl (λ c. c) k

publish-guarded :
    (p : SessionAccess) (decision : SessionDecision) (at_ms : ℕ)
    → guarded (publish p decision at_ms) ≡ true
unfolding publish
publish-guarded p (authorized session) at_ms = ground arith
publish-guarded p (unauthorized reason) at_ms = ground arith

store-small :
    (p : SessionAccess) (s : Store) → p.generation < 2 ^ 64 → (store p s).generation < 2 ^ 64
unfolding store
store-small p bump h = omega arith
store-small p (assign session) h = h
store-small p withdraw h = h
store-small p allow h = h
store-small p die h = h
store-small p (confirm at_ms) h = h

abbrev Known : ℕ → World → Type 0
Known n w = (w.access.generation < 2 ^ 64) × Knows n w.access w.unstored w.reader

-- One more turn, in which nothing is stored.
later-Knows :
    (n : ℕ) (p : SessionAccess) (ss : List Store) (r : Reader)
    → Knows n p ss r
    → Knows (suc n) p ss r
later-Knows n p ss r k =
    map-Knows n (suc n) p p ss ss (λ lease. Since-later refl (λ c. c))
      (λ g. Since-later refl (λ c. c)) r k

locked-Knows :
    (n : ℕ) (p : SessionAccess) (ss next : List Store) (r : Reader)
    → guarded next ≡ true
    → Knows n p ss r
    → Knows (suc n) p (take_lock ss next) r
locked-Knows n p ss next r g k =
    map-Knows n (suc n) p p ss (take_lock ss next) (λ lease. locked-Names n p ss next lease g)
      (λ g. Since-later refl (λ c. c)) r k

written-Known :
    (n : ℕ) (p : SessionAccess) (ss : List Store) (r : Reader)
    → p.generation < 2 ^ 64
    → Knows n p ss r
    → Known (suc n) (store_next (record { access = p; unstored = ss; reader = r }) ss)
written-Known n p [] r small k = (small, later-Knows n p [] r k)
written-Known n p (s ∷ ss) r small k = (
  store-small p s small,
  map-Knows n (suc n) p (store p s) (s ∷ ss) ss (store-Names n p s ss) (λ g. store-Since n g p s) r
      k,
)

turn-Known : (n : ℕ) (w : World) (t : Turn) → Known n w → Known (suc n) (turn w t)
unfolding turn
turn-Known n w (publishes decision at_ms) (small, k) = (
  small,
  locked-Knows n w.access w.unstored _ w.reader (publish-guarded w.access decision at_ms) k,
)
turn-Known n w stops (small, k) = (small, locked-Knows n w.access w.unstored _ w.reader refl k)
turn-Known n w writes (small, k) = written-Known n w.access w.unstored w.reader small k
turn-Known n w reads (small, k) =
    (small, later-Knows n w.access w.unstored _ (load-Knows n w.access w.unstored w.reader small k))
turn-Known n w (calls_backend_lease now_ms) (small, k) = (
  small,
  later-Knows n w.access w.unstored _
      (start_backend_lease-Knows n now_ms w.access w.unstored w.reader k),
)
turn-Known n w (calls_ensure_current now_ms) (small, k) = (
  small,
  later-Knows n w.access w.unstored _
      (start_ensure_current-Knows n now_ms w.access w.unstored w.reader k),
)

turns-Known : (n : ℕ) (w : World) (ts : List Turn) → Known n w → Known (n + length ts) (turns w ts)
unfolding turns
turns-Known n w [] k = subst (λ m. Known m w) (omega arith) k
turns-Known n w (t ∷ ts) k =
    subst (λ m. Known m (turns (turn w t) ts)) (omega arith)
      (turns-Known (suc n) (turn w t) ts (turn-Known n w t k))

-- A load does not end a call with success, but for a comparison that finds the generation unchanged.
named_session :
    (n : ℕ) (p : SessionAccess) (ss : List Store) (lease : SessionLease)
    → n < 2 ^ 64
    → Names n p ss lease
    → (p.generation == lease.generation) ≡ true
    → p.session ≡ some lease.session
named_session n p ss lease few k hit =
    let unchanged : k.changes ≡ 0 = grind (arith, k.few, k.small, k.counted, hit) in
    (k.same unchanged).0

refused-succeeded : (why : Purpose) (lease : SessionLease) → refused why ≢ succeeded lease
refused-succeeded obtaining lease e = cc
refused-succeeded (confirming l) lease e = cc
refused-succeeded (checking l) lease e = cc

available-succeeded :
    (why : Purpose) (now_ms : ℕ) (lease : SessionLease) → available why now_ms ≢ succeeded lease
available-succeeded obtaining now_ms lease e = cc
available-succeeded (confirming l) now_ms lease e = cc
available-succeeded (checking l) now_ms lease e = cc

if-succeeded :
    (b : Bool) (r r' : Reader) (lease : SessionLease)
    → r ≢ succeeded lease
    → r' ≢ succeeded lease
    → (if b then r else r') ≢ succeeded lease
if-succeeded true r r' lease n n' e = n e
if-succeeded false r r' lease n n' e = n' e

session_read-succeeded :
    (now_ms g : ℕ) (o : Option AuthorizedSession) (lease : SessionLease)
    → session_read now_ms g o ≢ succeeded lease
session_read-succeeded now_ms g none lease e = cc
session_read-succeeded now_ms g (some s) lease e = cc

compared-session :
    (n : ℕ) (p : SessionAccess) (ss : List Store) (l lease : SessionLease) (failed : Reader)
    → n < 2 ^ 64
    → Names n p ss l
    → failed ≢ succeeded lease
    → (if p.generation == l.generation then succeeded l else failed) ≡ succeeded lease
    → p.session ≡ some lease.session
compared-session n p ss l lease failed few k other e =
    elim (Bool-cases (p.generation == l.generation)) [
      | inl hit ↦
          let same : succeeded l ≡ succeeded lease = rw hit at e in
          let same_lease : l ≡ lease = cc in
          named_session n p ss l few k hit ∙ ap (λ x. some x.session) same_lease
      | inr miss ↦ absurd (other (rw miss at e))
    ]

succeeded-session :
    (n : ℕ) (p : SessionAccess) (ss : List Store) (r : Reader) (lease : SessionLease)
    → n < 2 ^ 64
    → Knows n p ss r
    → load p ss r ≡ succeeded lease
    → p.session ≡ some lease.session
unfolding load
succeeded-session n p ss (compares (confirming l)) lease few k e =
    compared-session n p ss l lease (resting none) few k (λ f. cc) e
succeeded-session n p ss (compares (checking l)) lease few k e =
    compared-session n p ss l lease (resting (some l)) few k (λ f. cc) e
succeeded-session n p ss (compares obtaining) lease few k e = cc
succeeded-session n p ss (resting held) lease few k e = cc
succeeded-session n p ss (succeeded l) lease few k e = cc
succeeded-session n p ss (loads_authorized why t) lease few k e = absurd (
    if-succeeded p.authorized (loads_confirmed why t) (refused why) lease (λ f. cc)
      (refused-succeeded why lease) e)
succeeded-session n p ss (loads_confirmed why t) lease few k e = absurd (
    if-succeeded (is_fresh p t) (available why t) (refused why) lease
      (available-succeeded why t lease) (refused-succeeded why lease) e)
succeeded-session n p ss (loads_generation t) lease few k e = cc
succeeded-session n p [] (loads_session t g) lease few k e =
    absurd (session_read-succeeded t g p.session lease e)
succeeded-session n p (s ∷ ss) (loads_session t g) lease few k e = cc
succeeded-session n p ss (loads_alive l t) lease few k e = absurd (
    if-succeeded p.worker_alive (loads_authorized (confirming l) t) (refused (confirming l)) lease
      (λ f. cc) (refused-succeeded (confirming l) lease) e)

-- In whatever order the monitor's stores and a thread's loads fall, over fewer than 2 ^ 64 turns: when a
-- load ends `backend_lease` or `ensure_current` with success, the session of the lease is the one that is
-- stored at that moment.
pub successful_lease_names_session :
    (lease_ttl_ms : ℕ) (ts : List Turn) (lease : SessionLease)
    → length ts < 2 ^ 64
    → (turn (turns (new_world lease_ttl_ms) ts) reads).reader ≡ succeeded lease
    → (turn (turns (new_world lease_ttl_ms) ts) reads).access.session ≡ some lease.session
unfolding with_lease_ttl turn
successful_lease_names_session lease_ttl_ms ts lease few e =
    let w = turns (new_world lease_ttl_ms) ts in
    let known = turns-Known 0 (new_world lease_ttl_ms) ts (omega arith, tt) in
    succeeded-session (0 + length ts) w.access w.unstored w.reader lease (omega (arith, few))
      known.1 e
