-- ===== src/Activity/Known.antt =====
-- What a thread may know of the leases in its hands while the monitor's thread stores.
use open_switcher.Prelude.{
  ℕ, suc, ◌+◌, ◌%◌, ◌^◌, ◌≤◌, ◌<◌, ◌≡◌, refl, Bool, true, false, List, [], ◌∷◌, none, some, arith,
  ◌∙◌,
}
use open_switcher.Activity.Publication.{
  SessionAccess, Store, withdraw, bump, allow, die, assign, confirm, store, SessionLease,
}
use open_switcher.Activity.Leases.{
  Purpose, obtaining, confirming, checking, Reader, resting, succeeded, loads_authorized,
  loads_confirmed, loads_generation, loads_session, loads_alive, compares,
}

-- No session is stored before the generation changes.
abbrev pub guarded : List Store → Bool
guarded [] = true
guarded (bump ∷ ss) = true
guarded (assign session ∷ ss) = false
guarded (s ∷ ss) = guarded ss

-- The generation is `g`, but for at most `n` changes since it was loaded; `current` holds as long as
-- there was none.
pub record Since (n g : ℕ) (p : SessionAccess) (current : Type 0) : Type 0 where
  pub changes : ℕ
  pub few : changes ≤ n
  pub small : g < 2 ^ 64
  pub counted : p.generation ≡ (g + changes) % 2 ^ 64
  pub same : changes ≡ 0 → current

abbrev pub Names : ℕ → SessionAccess → List Store → SessionLease → Type 0
Names n p ss lease =
    Since n lease.generation p ((p.session ≡ some lease.session) × (guarded ss ≡ true))

abbrev pub NamesFor : ℕ → SessionAccess → List Store → Purpose → Type 0
NamesFor n p ss obtaining = Unit {0}
NamesFor n p ss (confirming lease) = Names n p ss lease
NamesFor n p ss (checking lease) = Names n p ss lease

-- What is known of the lease that a thread has in its hands, or of the parts of one.
abbrev pub Knows : ℕ → SessionAccess → List Store → Reader → Type 0
Knows n p ss (resting none) = Unit {0}
Knows n p ss (resting (some lease)) = Names n p ss lease
Knows n p ss (succeeded lease) = Names n p ss lease
Knows n p ss (loads_authorized why now_ms) = NamesFor n p ss why
Knows n p ss (loads_confirmed why now_ms) = NamesFor n p ss why
Knows n p ss (loads_generation now_ms) = Unit {0}
Knows n p ss (loads_session now_ms g) = Since n g p (Unit {0})
Knows n p ss (loads_alive lease now_ms) = Names n p ss lease
Knows n p ss (compares why) = NamesFor n p ss why

pub Since-later :
    {n g : ℕ} {p p' : SessionAccess} {C C' : Type 0}
    → p'.generation ≡ p.generation
    → (C → C')
    → Since n g p C
    → Since (suc n) g p' C'
Since-later e f k = record {
  changes = k.changes;
  few = omega (arith, k.few);
  small = k.small;
  counted = e ∙ k.counted;
  same = λ z. f (k.same z);
}

Since-bumped :
    {n g : ℕ} {p p' : SessionAccess} {C C' : Type 0}
    → p'.generation ≡ (p.generation + 1) % 2 ^ 64
    → Since n g p C
    → Since (suc n) g p' C'
Since-bumped e k = record {
  changes = suc k.changes;
  few = omega (arith, k.few);
  small = k.small;
  counted = omega (arith, e, k.counted, k.small);
  same = λ z. cc;
}

-- A store keeps what is known, with one more change at most.
pub store-Names :
    (n : ℕ) (p : SessionAccess) (s : Store) (ss : List Store) (lease : SessionLease)
    → Names n p (s ∷ ss) lease
    → Names (suc n) (store p s) ss lease
unfolding store
store-Names n p bump ss lease k = Since-bumped refl k
store-Names n p (assign session) ss lease k = Since-later refl (λ (e, g). cc) k
store-Names n p withdraw ss lease k = Since-later refl (λ c. c) k
store-Names n p allow ss lease k = Since-later refl (λ c. c) k
store-Names n p die ss lease k = Since-later refl (λ c. c) k
store-Names n p (confirm at_ms) ss lease k = Since-later refl (λ c. c) k

pub store-Since :
    (n g : ℕ) (p : SessionAccess) (s : Store)
    → Since n g p (Unit {0})
    → Since (suc n) g (store p s) (Unit {0})
unfolding store
store-Since n g p bump k = Since-bumped refl k
store-Since n g p (assign session) k = Since-later refl (λ c. c) k
store-Since n g p withdraw k = Since-later refl (λ c. c) k
store-Since n g p allow k = Since-later refl (λ c. c) k
store-Since n g p die k = Since-later refl (λ c. c) k
store-Since n g p (confirm at_ms) k = Since-later refl (λ c. c) k

-- What is known of leases and of a loaded generation carries over to what is known of a thread.
module _ (n m : ℕ) (p p' : SessionAccess) (ss ss' : List Store)
    (names : (lease : SessionLease) → Names n p ss lease → Names m p' ss' lease)
    (since : (g : ℕ) → Since n g p (Unit {0}) → Since m g p' (Unit {0})) where
  map-NamesFor : (why : Purpose) → NamesFor n p ss why → NamesFor m p' ss' why
  map-NamesFor obtaining k = tt
  map-NamesFor (confirming lease) k = names lease k
  map-NamesFor (checking lease) k = names lease k

  pub map-Knows : (r : Reader) → Knows n p ss r → Knows m p' ss' r
  map-Knows (resting none) k = tt
  map-Knows (resting (some lease)) k = names lease k
  map-Knows (succeeded lease) k = names lease k
  map-Knows (loads_authorized why now_ms) k = map-NamesFor why k
  map-Knows (loads_confirmed why now_ms) k = map-NamesFor why k
  map-Knows (loads_generation now_ms) k = tt
  map-Knows (loads_session now_ms g) k = since g k
  map-Knows (loads_alive lease now_ms) k = names lease k
  map-Knows (compares why) k = map-NamesFor why k
