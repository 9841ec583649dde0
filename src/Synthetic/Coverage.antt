-- ===== src/Synthetic/Coverage.antt =====
-- The promise of src/daemon/synthetic_input.rs: a key that may be down is on a list of keys to
-- release. What a key sink must do for it, the invariant of an operation, and how steps keep it.
use open_switcher.Key.{Key}
use open_switcher.Prelude.{ℕ, ◌≡◌, ◌⊎◌, List, [], ◌∷◌, ok, err}
use open_switcher.Synthetic.Errors.{Fallible}
use open_switcher.Synthetic.KeyLedger.{SyntheticDebt}
use open_switcher.Synthetic.KeyLedgerLaws.{In, tokens, Rising}
use open_switcher.Synthetic.SessionLedger.{
  SessionModifierDebt, SessionModifierState, owned_down, temporarily_released,
  restoring_possibly_down,
}
use open_switcher.Synthetic.Operation.{
  SyntheticKeySink, SyntheticOperation, Step, ◌>>=◌, reconciled,
}

-- What a key sink does, with `IsDown d t` for a key that may be down on the device `d`.
pub record SinkLaws (S : SyntheticKeySink) : Type 1 where
  pub IsDown : S.Device → S.Token → Type 0
  pub prepare_keeps :
      (d : S.Device) (k : Key) (t : S.Token) → IsDown (S.prepare_down d k).0 t → IsDown d t
  pub down_adds :
      (d : S.Device) (u t : S.Token) → IsDown (S.attempt_down d u).0 t → (t ≡ u) ⊎ IsDown d t
  pub up_keeps : (d : S.Device) (u t : S.Token) → IsDown (S.attempt_up d u).0 t → IsDown d t
  pub synchronize_keeps : (d : S.Device) (t : S.Token) → IsDown (S.synchronize d).0 t → IsDown d t
  -- A release that is acknowledged and synchronized has happened.
  pub up_releases :
      (d : S.Device) (u : S.Token)
      → (S.attempt_up d u).1 ≡ ok tt
      → (S.synchronize (S.attempt_up d u).0).1 ≡ ok tt
      → ¬ IsDown (S.synchronize (S.attempt_up d u).0).0 u
  -- The sink calls an operation reconciled only when nothing is left.
  pub proof_counts : (d : S.Device) (n : ℕ) → S.terminal_proof d n ≡ reconciled → n ≡ 0

-- The tokens that a session ledger holds down for the user.
abbrev pub own : {T : Type 0} → SessionModifierState → T → List T → List T
own owned_down t ts = t ∷ ts
own temporarily_released t ts = ts
own restoring_possibly_down t ts = ts

abbrev pub owned_tokens : {T : Type 0} → List (SessionModifierDebt T) → List T
owned_tokens [] = []
owned_tokens (e ∷ es) = own e.state e.token (owned_tokens es)

module _ (S : SyntheticKeySink) (laws : SinkLaws S) (Before : S.Token → Type 0) where
  -- Where a key that may be down is noted: among `debts`, among those that are only to be released,
  -- among those held for the user; or it was down before.
  abbrev pub Noted : SyntheticOperation S → List (SyntheticDebt S.Token) → S.Token → Type 0
  Noted op debts t =
      In t (tokens debts)
      ⊎ In t op.release_only_fallback
      ⊎ In t (owned_tokens op.restored.entries)
      ⊎ Before t

  abbrev pub CoveredBy : SyntheticOperation S → List (SyntheticDebt S.Token) → Type 0
  CoveredBy op debts = (t : S.Token) → laws.IsDown op.sink t → Noted op debts t

  abbrev pub Ordered : SyntheticOperation S → Type 0
  Ordered op = Rising 0 op.ledger.next_press_id op.ledger.debts

  -- The invariant of an operation.
  abbrev pub Covered : SyntheticOperation S → Type 0
  Covered op = Ordered op × CoveredBy op op.ledger.debts

  -- What holds after a step: `Q` of its value, and the invariant if it fails.
  abbrev pub After :
      {A : Type 0}
      → (A → SyntheticOperation S → Type 0)
      → SyntheticOperation S × Fallible A
      → Type 0
  After Q (op, ok a) = Q a op
  After Q (op, err e) = Covered op

  abbrev pub Triple :
      {A : Type 0}
      → (SyntheticOperation S → Type 0)
      → Step S A
      → (A → SyntheticOperation S → Type 0)
      → Type 0
  Triple P m Q = (op : SyntheticOperation S) → P op → After Q (m op)

  pub after_bind :
      {A B : Type 0} (Q : A → SyntheticOperation S → Type 0) (R : B → SyntheticOperation S → Type 0)
      (x : SyntheticOperation S × Fallible A) (f : A → Step S B)
      → After Q x
      → ((a : A) → Triple (Q a) (f a) R)
      → After R (let (op', r) = x in elim r [ ok a ↦ f a op' | err e ↦ (op', err e) ])
  after_bind Q R (op, ok a) f h k = k a op h
  after_bind Q R (op, err e) f h k = h

  pub Triple-bind :
      {A B : Type 0} (P : SyntheticOperation S → Type 0) (Q : A → SyntheticOperation S → Type 0)
      (R : B → SyntheticOperation S → Type 0) (m : Step S A) (f : A → Step S B)
      → Triple P m Q
      → ((a : A) → Triple (Q a) (f a) R)
      → Triple P (m >>= f) R
  unfolding ◌>>=◌
  Triple-bind P Q R m f h k op p = after_bind Q R (m op) f (h op p) k

  -- A step keeps `P` whether it fails or not.
  abbrev pub Keeps : {A : Type 0} → Step S A → Type 0
  Keeps m = (op : SyntheticOperation S) → Covered op → Covered (m op).0

  pub Covered-after :
      {A : Type 0} (x : SyntheticOperation S × Fallible A)
      → After (λ _ op. Covered op) x
      → Covered x.0
  Covered-after (op, ok a) h = h
  Covered-after (op, err e) h = h

  pub after-Covered :
      {A : Type 0} (x : SyntheticOperation S × Fallible A)
      → Covered x.0
      → After (λ _ op. Covered op) x
  after-Covered (op, ok a) h = h
  after-Covered (op, err e) h = h

  -- The keys that were noted stay noted when none is added to those down.
  pub CoveredBy-sink :
      (op : SyntheticOperation S) (ds : List (SyntheticDebt S.Token)) (device : S.Device)
      → ((t : S.Token) → laws.IsDown device t → laws.IsDown op.sink t)
      → CoveredBy op ds
      → CoveredBy (record op { sink = device }) ds
  CoveredBy-sink op ds device h c t down = c t (h t down)
