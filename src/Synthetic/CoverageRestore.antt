-- ===== src/Synthetic/CoverageRestore.antt =====
-- The restoring of a modifier at the end of an operation keeps the keys that may be down on a list:
-- a key moves from the debts of the operation to the session's, or to the release-only list.
use open_switcher.Key.{Key}
use open_switcher.Prelude.{
  ℕ, ◌≡◌, refl, sym, subst, inl, inr, true, List, [], ◌∷◌, ◌++◌, some, ok, err, is_ok,
}
use open_switcher.Synthetic.Errors.{Status}
use open_switcher.Synthetic.KeyLedger.{SyntheticDebt, remove_debt, cancel_unattempted_down}
use open_switcher.Synthetic.KeyLedgerLaws.{In, In-append_left, In-append_right}
use open_switcher.Synthetic.SessionLedger.{begin_restore, adopt_restored}
use open_switcher.Synthetic.Operation.{
  SyntheticKeySink, SyntheticOperation, RestoreDownMode, raise, on_ledger,
}
use open_switcher.Synthetic.Finish.{
  on_restored, or_cancel, fall_back, restore_one_modifier, restore_modifiers, Cleanup,
}
use open_switcher.Synthetic.Coverage.{
  SinkLaws, Noted, Covered, After, Triple-bind, Covered-after, after-Covered, owned_tokens,
}
use open_switcher.Synthetic.CoverageSteps.{
  Pressing, begin_down-Pressing, send_down-Covered, mark-Covered, prepare-Covered,
  synchronize-Covered, cancel-Covered, Moving, transfer-Moving,
}
use open_switcher.Synthetic.CoverageOperation.{Ok, bind, step}
use open_switcher.Synthetic.SessionCases.{begin_restore-owned, adopt_restored-owned}

module _ (S : SyntheticKeySink) (laws : SinkLaws S) (Before : S.Token → Type 0) where
  Noted-begin_restore :
      (op : SyntheticOperation S) (key : Key) (ds : List (SyntheticDebt S.Token)) (t : S.Token)
      → Noted S laws Before op ds t
      → Noted S laws Before (on_restored S (λ r. begin_restore r key) op).0 ds t
  Noted-begin_restore op key ds t (inl h) = inl h
  Noted-begin_restore op key ds t (inr (inl h)) = inr (inl h)
  Noted-begin_restore op key ds t (inr (inr (inl h))) =
      inr (inr (inl (begin_restore-owned op.restored key t h)))
  Noted-begin_restore op key ds t (inr (inr (inr h))) = inr (inr (inr h))

  begin_restore-Pressing :
      (key : Key) (token : S.Token) (id : ℕ) (op : SyntheticOperation S)
      → Pressing S laws Before token id op
      → Pressing S laws Before token id (on_restored S (λ r. begin_restore r key) op).0
  begin_restore-Pressing key token id op p =
      (p.0, p.1, λ t h. Noted-begin_restore op key (remove_debt id op.ledger.debts) t (p.2 t h))

  or_cancel-After :
      (begun : Status) (token : S.Token) (id : ℕ) (op : SyntheticOperation S)
      → Pressing S laws Before token id op
      → After S laws Before {A = Unit {0}}
          (λ _. Pressing S laws Before token id)
          (or_cancel S begun id op)
  or_cancel-After (ok u) token id op p = p
  or_cancel-After (err e) token id op p =
      Triple-bind S laws Before (λ op'. Pressing S laws Before token id op')
        (λ _ op'. Covered S laws Before op') (λ _. Pressing S laws Before token id)
        (on_ledger S (λ l. cancel_unattempted_down l id)) (λ _. raise S (err e))
        (λ op' p'.
          after-Covered S laws Before (on_ledger S (λ l. cancel_unattempted_down l id) op')
            (cancel-Covered S laws Before token id op' p'))
        (λ _ op' c. c) op p

  -- What a key that moves finds: after the adoption it is held down, otherwise only to be released.
  Noted-adopted :
      (op : SyntheticOperation S) (key : Key) (token t : S.Token)
      → Noted S laws Before op op.ledger.debts t
      → Noted S laws Before (on_restored S (λ r. adopt_restored r key token) op).0 op.ledger.debts t
  Noted-adopted op key token t (inl h) = inl h
  Noted-adopted op key token t (inr (inl h)) = inr (inl h)
  Noted-adopted op key token t (inr (inr (inl h))) =
      inr (inr (inl ((adopt_restored-owned op.restored key token t).0 h)))
  Noted-adopted op key token t (inr (inr (inr h))) = inr (inr (inr h))

  -- A key that moves, with the result of its adoption.
  abbrev Adopted : S.Token → Status → SyntheticOperation S → Type 0
  Adopted token result op =
      Moving S laws Before token op
      × (is_ok result ≡ true → In token (owned_tokens op.restored.entries))

  adopt-Adopted :
      (key : Key) (token : S.Token) (op : SyntheticOperation S)
      → Moving S laws Before token op
      → Adopted token
          (adopt_restored op.restored key token).1
          (on_restored S (λ r. adopt_restored r key token) op).0
  adopt-Adopted key token op m = (
    (
      m.0,
      λ t down. elim (m.1 t down) [
        | inl same ↦ inl same
        | inr n ↦ inr (Noted-adopted op key token t n)
      ],
    ),
    (adopt_restored-owned op.restored key token token).1,
  )

  Noted-fallback :
      (op : SyntheticOperation S) (token t : S.Token)
      → Noted S laws Before op op.ledger.debts t
      → Noted S laws Before
          (record op { release_only_fallback = op.release_only_fallback ++ token ∷ [] })
          op.ledger.debts
          t
  Noted-fallback op token t (inl h) = inl h
  Noted-fallback op token t (inr (inl h)) =
      inr (inl (In-append_left t op.release_only_fallback (token ∷ []) h))
  Noted-fallback op token t (inr (inr h)) = inr (inr h)

  fall_back-Covered :
      (result : Status) (token : S.Token) (op : SyntheticOperation S)
      → Adopted token result op
      → Covered S laws Before (fall_back S result token op).0
  fall_back-Covered (ok u) token op a = (
    a.0.0,
    λ t down. elim (a.0.1 t down) [
      | inl same ↦
          inr
            (inr (inl (subst (λ x. In x (owned_tokens op.restored.entries)) (sym same) (a.1 refl))))
      | inr n ↦ n
    ],
  )
  fall_back-Covered (err e) token op a = (
    a.0.0,
    λ t down. elim (a.0.1 t down) [
      | inl same ↦ inr (inl (In-append_right t op.release_only_fallback (token ∷ []) (inl same)))
      | inr n ↦ Noted-fallback op token t n
    ],
  )

  restore_one-After :
      (key : Key) (mode : RestoreDownMode) (op : SyntheticOperation S)
      → Covered S laws Before op
      → After S laws Before {A = Unit {0}} (Ok S laws Before) (restore_one_modifier S key mode op)
  unfolding restore_one_modifier
  restore_one-After key mode op c = step S laws Before _ _ op c λ _ op c.
      step S laws Before _ _ op (prepare-Covered S laws Before key op c) λ token op c.
        step S laws Before _ _ op c λ _ op c. step S laws Before _ _ op c λ _ op c.
          bind S laws Before (Pressing S laws Before token) _ _ op
            (begin_down-Pressing S laws Before token op c)
            λ id op p.
              bind S laws Before (λ _. Pressing S laws Before token id) _ _ op
                (begin_restore-Pressing key token id op p)
                λ begun op p.
                  bind S laws Before (λ _. Pressing S laws Before token id) _ _ op
                    (or_cancel-After begun token id op p)
                    λ _ op p.
                      step S laws Before _ _ op (send_down-Covered S laws Before token id op p)
                        λ result op c.
                          step S laws Before _ _ op (mark-Covered S laws Before id op c) λ _ op c.
                            step S laws Before _ _ op c λ _ op c.
                              step S laws Before _ _ op c λ _ op c.
                                step S laws Before _ _ op (synchronize-Covered S laws Before op c)
                                  λ _ op c. step S laws Before _ _ op c λ _ op c.
                                    bind S laws Before (Moving S laws Before) _ _ op
                                      (transfer-Moving S laws Before id op c)
                                      λ moved op m.
                                        bind S laws Before (λ r. Adopted moved r) _ _ op
                                          (adopt-Adopted key moved op m)
                                          λ r op a.
                                            after-Covered S laws Before (fall_back S r moved op)
                                              (fall_back-Covered r moved op a)

  pub restore_modifiers-Covered :
      (op : SyntheticOperation S) (keys : List Key) (mode : RestoreDownMode)
      → Covered S laws Before op
      → Covered S laws Before (restore_modifiers S op keys mode).0
  unfolding restore_modifiers
  restore_modifiers-Covered op [] mode c = c
  restore_modifiers-Covered op (key ∷ keys) mode c =
      let here =
        Covered-after S laws Before (restore_one_modifier S key mode op)
          (restore_one-After key mode op c) in
      elim ((restore_one_modifier S key mode op).1)
        as (λ r.
          Covered S laws Before
            (elim r as (λ _. Cleanup S) [
              | ok u ↦ restore_modifiers S (restore_one_modifier S key mode op).0 keys mode
              | err e ↦ ((restore_one_modifier S key mode op).0, some e)
            ]).0) [
              | ok u ↦
                  restore_modifiers-Covered (restore_one_modifier S key mode op).0 keys mode here
              | err e ↦ here
            ]
