-- ===== src/Synthetic/CoverageOperation.antt =====
-- The methods of `SyntheticOperation` keep the keys that may be down on its lists.
use open_switcher.Key.{Key}
use open_switcher.Prelude.{ℕ, ◌≡◌, refl, subst, some, ok, err, ◌&&◌, is_ok, arith}
use open_switcher.Synthetic.Errors.{Status}
use open_switcher.Synthetic.KeyLedger.{SyntheticDebt, SyntheticKeyLedger, find_debt, token_of}
use open_switcher.Synthetic.Operation.{
  SyntheticKeySink, SyntheticOperation, Step, ◌>>=◌, raise, on_ledger, check_active, press,
  temporarily_release_physical_modifier, release, acknowledge_if, check_unless,
}
use open_switcher.Synthetic.Coverage.{
  SinkLaws, Covered, After, Triple-bind, Keeps, Covered-after, after-Covered,
}
use open_switcher.Synthetic.CoverageSteps.{
  after_any, Pressing, begin_down-Pressing, send_down-Covered, mark-Covered, prepare-Covered,
  send_up-Covered, synchronize-Covered, acknowledge-Covered,
}

module _ {T : Type 0} where
  token_of-found :
      (l : SyntheticKeyLedger T) (id : ℕ) (token : T) (d : SyntheticDebt T)
      → token_of l id ≡ ok token
      → find_debt id l.debts ≡ some d
      → d.token ≡ token
  unfolding token_of
  token_of-found l id token d h found = ground (arith, h, found)

module _ (S : SyntheticKeySink) (laws : SinkLaws S) (Before : S.Token → Type 0) where
  abbrev pub Ok : {A : Type 0} → A → SyntheticOperation S → Type 0
  Ok a op = Covered S laws Before op

  -- One step of a method after another.
  pub bind :
      {A B : Type 0} (Q : A → SyntheticOperation S → Type 0) (m : Step S A) (f : A → Step S B)
      (op : SyntheticOperation S)
      → After S laws Before Q (m op)
      → ((a : A) (op' : SyntheticOperation S) → Q a op' → After S laws Before {A = B} Ok (f a op'))
      → After S laws Before {A = B} Ok ((m >>= f) op)
  bind Q m f op h k =
      Triple-bind S laws Before (λ op'. After S laws Before Q (m op')) Q Ok m f (λ op' p. p) k op h

  pub step :
      {A B : Type 0} (m : Step S A) (f : A → Step S B) (op : SyntheticOperation S)
      → Covered S laws Before (m op).0
      → ((a : A) (op' : SyntheticOperation S)
          → Covered S laws Before op'
          → After S laws Before {A = B} Ok (f a op'))
      → After S laws Before {A = B} Ok ((m >>= f) op)
  step m f op c k = bind Ok m f op (after-Covered S laws Before (m op) c) k

  press-After :
      (key : Key) (op : SyntheticOperation S)
      → Covered S laws Before op
      → After S laws Before {A = ℕ} Ok (press S key op)
  unfolding press
  press-After key op c = step _ _ op c λ _ op c.
      step _ _ op (prepare-Covered S laws Before key op c) λ token op c. step _ _ op c λ _ op c.
        bind (Pressing S laws Before token) _ _ op (begin_down-Pressing S laws Before token op c)
          λ id op p. step _ _ op (send_down-Covered S laws Before token id op p) λ result op c.
            step _ _ op (mark-Covered S laws Before id op c) λ _ op c. step _ _ op c λ _ op c.
              step _ _ op c λ _ op c.
                step _ _ op (synchronize-Covered S laws Before op c)
                  λ _ op c. step _ _ op c λ _ op c. c

  temporarily_release-After :
      (key : Key) (op : SyntheticOperation S)
      → Covered S laws Before op
      → After S laws Before {A = Unit {0}} Ok (temporarily_release_physical_modifier S key op)
  unfolding temporarily_release_physical_modifier
  temporarily_release-After key op c = step _ _ op c λ _ op c.
      step _ _ op (prepare-Covered S laws Before key op c) λ token op c. step _ _ op c λ _ op c.
        step _ _ op c λ _ op c. step _ _ op (send_up-Covered S laws Before token op c) λ _ op c.
          step _ _ op c λ _ op c.
            step _ _ op (synchronize-Covered S laws Before op c)
              λ _ op c. after-Covered S laws Before (check_active S op) c

  -- What `release` knows between its release and its synchronization, and after them.
  abbrev Releasing : ℕ → S.Token → Status → SyntheticOperation S → Type 0
  Releasing id token released op =
      Covered S laws Before op
      × (token_of op.ledger id ≡ ok token)
      × (released ≡ ok tt
          → (S.synchronize op.sink).1 ≡ ok tt
          → ¬ laws.IsDown (S.synchronize op.sink).0 token)

  abbrev Released : ℕ → S.Token → Status → Status → SyntheticOperation S → Type 0
  Released id token released synchronized op =
      Covered S laws Before op
      × (token_of op.ledger id ≡ ok token)
      × (released ≡ ok tt → synchronized ≡ ok tt → ¬ laws.IsDown op.sink token)

  acknowledge_if-After :
      (id : ℕ) (token : S.Token) (released synchronized : Status) (op : SyntheticOperation S)
      → Released id token released synchronized op
      → Covered S laws Before (acknowledge_if S (is_ok released && is_ok synchronized) id op).0
  acknowledge_if-After id token (ok u) (ok v) op h =
      acknowledge-Covered S laws Before id op
        (λ d found down.
          h.2 refl refl (
            subst (λ u. laws.IsDown op.sink u) (token_of-found op.ledger id token d h.1 found)
              down))
        h.0
  acknowledge_if-After id token (ok u) (err e) op h = h.0
  acknowledge_if-After id token (err e) synchronized op h = h.0

  check_unless-After :
      (Q : SyntheticOperation S → Type 0) (before : Status) (op : SyntheticOperation S)
      → Q op
      → Q (check_active S op).0
      → After S laws Before {A = Status} (λ _ op'. Q op') (check_unless S before op)
  check_unless-After Q (ok u) op h h' = h'
  check_unless-After Q (err e) op h h' = h

  release-After :
      (id : ℕ) (op : SyntheticOperation S)
      → Covered S laws Before op
      → After S laws Before {A = Unit {0}} Ok (release S id op)
  unfolding release
  release-After id op c =
      bind (λ token op. Covered S laws Before op × (token_of op.ledger id ≡ ok token)) _ _ op
        (after_any S laws Before
          (λ token op. Covered S laws Before op × (token_of op.ledger id ≡ ok token))
          (on_ledger S (λ l. (l, token_of l id)) op) (λ _ e. (c, e)) c)
        λ token op h.
          bind (λ _ op. Covered S laws Before op × (token_of op.ledger id ≡ ok token)) _ _ op h
            λ before op h.
              bind (λ r op. Releasing id token r op) _ _ op
                (send_up-Covered S laws Before token op h.0, h.1, laws.up_releases op.sink token)
                λ released op h.
                  bind (λ _ op. Releasing id token released op) _ _ op
                    (check_unless-After (Releasing id token released) before op h h)
                    λ between op h.
                      bind (λ r op. Released id token released r op) _ _ op
                        (synchronize-Covered S laws Before op h.0, h.1, h.2)
                        λ synchronized op h.
                          bind (λ _ op. Released id token released synchronized op) _ _ op
                            (check_unless-After (Released id token released synchronized) between op
                              h h)
                            λ after op h.
                              step _ _ op (acknowledge_if-After id token released synchronized op h)
                                λ _ op c. step _ _ op c λ _ op c.
                                  step _ _ op c
                                    λ _ op c. after-Covered S laws Before (raise S after op) c

  pub press-Covered : (key : Key) → Keeps S laws Before (press S key)
  press-Covered key op c = Covered-after S laws Before (press S key op) (press-After key op c)

  pub release-Covered : (id : ℕ) → Keeps S laws Before (release S id)
  release-Covered id op c = Covered-after S laws Before (release S id op) (release-After id op c)

  pub temporarily_release-Covered :
      (key : Key) → Keeps S laws Before (temporarily_release_physical_modifier S key)
  temporarily_release-Covered key op c =
      Covered-after S laws Before (temporarily_release_physical_modifier S key op)
        (temporarily_release-After key op c)
