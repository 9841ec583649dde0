-- ===== src/Synthetic/CoverageFinish.antt =====
-- The cleanup at the end of an operation keeps the keys that may be down on its lists.
use mathlib.Core.List.{reverse}
use open_switcher.Prelude.{
  ℕ, ◌≡◌, refl, sym, ◌∙◌, subst, inl, inr, List, [], ◌∷◌, Option, none, some, ok, err, ◌&&◌, is_ok,
  All, ◌==◌, if◌then◌else◌, arith, Bool-cases,
}
use open_switcher.Synthetic.Errors.{SwitcherError, Status}
use open_switcher.Synthetic.KeyLedger.{SyntheticDebt, find_debt, remove_debt, acknowledge_up}
use open_switcher.Synthetic.KeyLedgerLaws.{In, Rising, In-reverse, find-In, find-remove}
use open_switcher.Synthetic.LedgerCases.{acknowledge-cases}
use open_switcher.Synthetic.Operation.{
  SyntheticKeySink, SyntheticOperation, on_ledger, send_up, synchronize,
}
use open_switcher.Synthetic.Finish.{release_debt, release_debts, release_all}
use open_switcher.Synthetic.Coverage.{SinkLaws, Covered}
use open_switcher.Synthetic.CoverageSteps.{
  send_up-Covered, synchronize-Covered, acknowledge-Covered,
}

module _ {T : Type 0} where
  -- A debt that is still found under its id is the same one.
  abbrev pub Faithful : List (SyntheticDebt T) → SyntheticDebt T → Type 0
  Faithful ds d = (x : SyntheticDebt T) → find_debt d.press_id ds ≡ some x → x.token ≡ d.token

  debt_token : (d e : SyntheticDebt T) → some d ≡ some e → e.token ≡ d.token
  debt_token d e h = ground (arith, h)

  Faithful-In :
      (hi : ℕ) (ds : List (SyntheticDebt T)) (d : SyntheticDebt T)
      → Rising 0 hi ds
      → In d ds
      → Faithful ds d
  Faithful-In hi ds d r h x found = debt_token d x (sym (find-In 0 hi ds d r h) ∙ found)

  Faithful-remove :
      (id hi : ℕ) (ds : List (SyntheticDebt T)) (d : SyntheticDebt T)
      → Rising 0 hi ds
      → Faithful ds d
      → Faithful (remove_debt id ds) d
  Faithful-remove id hi ds d r f x found = elim (Bool-cases (d.press_id == id)) [
    | inl e ↦ ground (arith, sym (find-remove d.press_id id 0 hi ds r) ∙ found, e)
    | inr e ↦ f x (ground (arith, sym (find-remove d.press_id id 0 hi ds r) ∙ found, e))
  ]

  All-In :
      (P : SyntheticDebt T → Type 0) (ds : List (SyntheticDebt T))
      → ((d : SyntheticDebt T) → In d ds → P d)
      → All P ds
  All-In P [] f = tt
  All-In P (d ∷ ds) f = (f d (inl refl), All-In P ds (λ x h. f x (inr h)))

  All-weaken :
      (P Q : SyntheticDebt T → Type 0) (ds : List (SyntheticDebt T))
      → ((d : SyntheticDebt T) → P d → Q d)
      → All P ds
      → All Q ds
  All-weaken P Q [] f h = tt
  All-weaken P Q (d ∷ ds) f h = (f d h.0, All-weaken P Q ds f h.1)

module _ (S : SyntheticKeySink) (laws : SinkLaws S) (Before : S.Token → Type 0) where
  -- What the cleanup knows of the debts that it has still to release.
  abbrev pub Cleaning : List (SyntheticDebt S.Token) → SyntheticOperation S → Type 0
  Cleaning ds op = Covered S laws Before op × All (Faithful op.ledger.debts) ds

  acknowledge-Cleaning :
      (id : ℕ) (ds : List (SyntheticDebt S.Token)) (op : SyntheticOperation S)
      → ((d : SyntheticDebt S.Token)
          → find_debt id op.ledger.debts ≡ some d
          → ¬ laws.IsDown op.sink d.token)
      → Cleaning ds op
      → Cleaning ds (on_ledger S (λ l. acknowledge_up l id) op).0
  acknowledge-Cleaning id ds op up c = (
    acknowledge-Covered S laws Before id op up c.0,
    elim (acknowledge-cases op.ledger id) [
      | inr (e, eq) ↦ rw eq (c.1)
      | inl (d, found, eq) ↦ rw eq (
          All-weaken (Faithful op.ledger.debts) (Faithful (remove_debt id op.ledger.debts)) ds
            (λ x f. Faithful-remove id op.ledger.next_press_id op.ledger.debts x c.0.0 f) c.1)
    ],
  )

  round-Cleaning :
      (released synchronized : Status) (debt : SyntheticDebt S.Token)
      (ds : List (SyntheticDebt S.Token)) (op : SyntheticOperation S)
      → Cleaning (debt ∷ ds) op
      → (released ≡ ok tt → synchronized ≡ ok tt → ¬ laws.IsDown op.sink debt.token)
      → Cleaning ds (
          if is_ok released && is_ok synchronized
          then record op { ledger = (acknowledge_up op.ledger debt.press_id).0 }
          else op)
  round-Cleaning (ok u) (ok v) debt ds op c up =
      acknowledge-Cleaning debt.press_id ds op
        (λ d found down. up refl refl (subst (λ t. laws.IsDown op.sink t) (c.1.0 d found) down))
        (c.0, c.1.1)
  round-Cleaning (ok u) (err e) debt ds op c up = (c.0, c.1.1)
  round-Cleaning (err e) synchronized debt ds op c up = (c.0, c.1.1)

  release_debt-Cleaning :
      (debt : SyntheticDebt S.Token) (ds : List (SyntheticDebt S.Token)) (op : SyntheticOperation S)
      (first : Option SwitcherError)
      → Cleaning (debt ∷ ds) op
      → Cleaning ds (release_debt S op debt first).0
  unfolding release_debt
  release_debt-Cleaning debt ds op first c =
      round-Cleaning (S.attempt_up op.sink debt.token).1
        (S.synchronize (S.attempt_up op.sink debt.token).0).1 debt ds
        (synchronize S (send_up S debt.token op).0).0
        (
          synchronize-Covered S laws Before (send_up S debt.token op).0
              (send_up-Covered S laws Before debt.token op c.0),
          c.1,
        )
        (laws.up_releases op.sink debt.token)

  pub release_debts-Covered :
      (ds : List (SyntheticDebt S.Token)) (op : SyntheticOperation S) (first : Option SwitcherError)
      → Cleaning ds op
      → Covered S laws Before (release_debts S op ds first).0
  unfolding release_debts
  release_debts-Covered [] op first c = c.0
  release_debts-Covered (debt ∷ ds) op first c =
      release_debts-Covered ds (release_debt S op debt first).0 (release_debt S op debt first).1
        (release_debt-Cleaning debt ds op first c)

  pub release_all-Covered :
      (op : SyntheticOperation S)
      → Covered S laws Before op
      → Covered S laws Before (release_all S op).0
  release_all-Covered op c = release_debts-Covered (reverse op.ledger.debts) op none (
    c,
    All-In (Faithful op.ledger.debts) (reverse op.ledger.debts) (λ d h.
        Faithful-In op.ledger.next_press_id op.ledger.debts d c.0 (In-reverse d op.ledger.debts h)),
  )
