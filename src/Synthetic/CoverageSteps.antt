-- ===== src/Synthetic/CoverageSteps.antt =====
-- Each step of an operation keeps the keys that may be down on its lists.
use open_switcher.Key.{Key}
use open_switcher.Prelude.{
  ℕ, ◌+◌, ◌≡◌, refl, sym, subst, ◌⊎◌, inl, inr, List, [], ◌∷◌, some, ok, err, arith, Bool-cases,
  ◌==◌, map-append,
}
use open_switcher.Synthetic.Errors.{Fallible}
use open_switcher.Synthetic.KeyLedger.{
  SyntheticDebt, SyntheticKeyLedger, remove_debt, find_debt, begin_down, mark_possibly_down,
  acknowledge_up, transfer, cancel_unattempted_down,
}
use open_switcher.Synthetic.KeyLedgerLaws.{
  In, tokens, Rising, In-append_right, In-remove, Rising-snoc, Rising-remove, Rising-mark,
  tokens-mark, find-snoc,
}
use open_switcher.Synthetic.LedgerCases.{
  begun, after_begin, begin_down-cases, mark-cases, acknowledge-cases, transfer-cases, cancel-cases,
}
use open_switcher.Synthetic.Operation.{
  SyntheticKeySink, SyntheticOperation, on_sink, on_ledger, prepare, send_down, send_up,
  synchronize,
}
use open_switcher.Synthetic.Coverage.{
  SinkLaws, Noted, CoveredBy, Ordered, Covered, After, Keeps, CoveredBy-sink,
}

module _ {T : Type 0} where
  -- What is left after a removal was there before.
  pub remove_In :
      (id : ℕ) (ds : List (SyntheticDebt T)) (t : T)
      → In t (tokens (remove_debt id ds))
      → In t (tokens ds)
  unfolding remove_debt
  remove_In id [] t h = h
  remove_In id (d ∷ ds) t h = elim (Bool-cases (d.press_id == id)) [
    | inl e ↦ inr (rw e at h)
    | inr e ↦ elim (rw e at h) [ inl u ↦ inl u | inr u ↦ inr (remove_In id ds t u) ]
  ]

  In-begun : (l : SyntheticKeyLedger T) (token : T) → In token (tokens (after_begin l token).debts)
  In-begun l token =
      rw (map-append (λ d. d.token) l.debts (begun l token ∷ []))
        (In-append_right token (tokens l.debts) (token ∷ []) (inl refl))

  removed_begun :
      (l : SyntheticKeyLedger T) (token : T)
      → Rising 0 l.next_press_id l.debts
      → remove_debt l.next_press_id (after_begin l token).debts ≡ l.debts
  removed_begun l token r = (find-snoc 0 l.next_press_id l.debts (begun l token) r refl).1

module _ (S : SyntheticKeySink) (laws : SinkLaws S) (Before : S.Token → Type 0) where
  pub after_any :
      {A : Type 0} (Q : A → SyntheticOperation S → Type 0) (x : SyntheticOperation S × Fallible A)
      → ((a : A) → x.1 ≡ ok a → Q a x.0)
      → Covered S laws Before x.0
      → After S laws Before Q x
  after_any Q (op, ok a) h c = h a refl
  after_any Q (op, err e) h c = c

  -- A key on the way down: its debt is noted, and the others are covered without it.
  abbrev pub Pressing : S.Token → ℕ → SyntheticOperation S → Type 0
  Pressing token id op =
      Ordered S laws Before op
      × In token (tokens op.ledger.debts)
      × CoveredBy S laws Before op (remove_debt id op.ledger.debts)

  pub Noted-remove :
      (op : SyntheticOperation S) (id : ℕ) (t : S.Token)
      → Noted S laws Before op (remove_debt id op.ledger.debts) t
      → Noted S laws Before op op.ledger.debts t
  Noted-remove op id t (inl h) = inl (remove_In id op.ledger.debts t h)
  Noted-remove op id t (inr h) = inr h

  pub Pressing-Covered :
      (token : S.Token) (id : ℕ) (op : SyntheticOperation S)
      → Pressing token id op
      → Covered S laws Before op
  Pressing-Covered token id op p = (p.0, λ t h. Noted-remove op id t (p.2 t h))

  -- The pressed key is the last of the debts.
  pub begin_down-Pressing :
      (token : S.Token) (op : SyntheticOperation S)
      → Covered S laws Before op
      → After S laws Before (Pressing token) (on_ledger S (λ l. begin_down l token) op)
  begin_down-Pressing token op c = elim (begin_down-cases op.ledger token) [
    | inr (e, eq) ↦ rw eq c
    | inl eq ↦ rw eq (
      Rising-snoc 0 op.ledger.next_press_id (op.ledger.next_press_id + 1) op.ledger.debts
          (begun op.ledger token) (omega arith) refl (omega arith) c.0,
      In-begun op.ledger token,
      λ t h. elim (c.1 t h) [
        | inl n ↦ inl (subst (λ ds. In t (tokens ds)) (sym (removed_begun op.ledger token c.0)) n)
        | inr n ↦ inr n
      ],
    )
  ]

  pub send_down-Covered :
      (token : S.Token) (id : ℕ) (op : SyntheticOperation S)
      → Pressing token id op
      → Covered S laws Before (send_down S token op).0
  send_down-Covered token id op p = (
    p.0,
    λ t h. elim (laws.down_adds op.sink token t h) [
      | inl e ↦ inl (subst (λ u. In u (tokens op.ledger.debts)) (sym e) p.1)
      | inr before ↦ Noted-remove op id t (p.2 t before)
    ],
  )

  pub mark-Covered :
      (id : ℕ) (op : SyntheticOperation S)
      → Covered S laws Before op
      → Covered S laws Before (on_ledger S (λ l. mark_possibly_down l id) op).0
  mark-Covered id op c = elim (mark-cases op.ledger id) [
    | inr (e, eq) ↦ rw eq c
    | inl eq ↦ rw eq (
      Rising-mark id 0 op.ledger.next_press_id op.ledger.debts c.0,
      λ t h. elim (c.1 t h) [
        | inl n ↦ inl (subst (In t) (sym (tokens-mark id op.ledger.debts)) n)
        | inr n ↦ inr n
      ],
    )
  ]

  -- An operation of the sink that presses nothing.
  pub on_sink-Covered :
      {A : Type 0} (f : S.Device → S.Device × Fallible A)
      → ((d : S.Device) (t : S.Token) → laws.IsDown (f d).0 t → laws.IsDown d t)
      → Keeps S laws Before (on_sink S f)
  on_sink-Covered f h op c =
      (c.0, CoveredBy-sink S laws Before op op.ledger.debts (f op.sink).0 (h op.sink) c.1)

  pub prepare-Covered : (key : Key) → Keeps S laws Before (prepare S key)
  prepare-Covered key op c =
      on_sink-Covered (λ d. S.prepare_down d key) (λ d t h. laws.prepare_keeps d key t h) op c

  pub send_up-Covered : (token : S.Token) → Keeps S laws Before (send_up S token)
  send_up-Covered token op c =
      on_sink-Covered (λ d. S.attempt_up d token) (λ d t h. laws.up_keeps d token t h) op c

  pub synchronize-Covered : Keeps S laws Before (synchronize S)
  synchronize-Covered op c =
      on_sink-Covered S.synchronize (λ d t h. laws.synchronize_keeps d t h) op c

  -- The removal of a debt whose key is up, or whose key is noted elsewhere.
  pub removed-Covered :
      (id : ℕ) (d : SyntheticDebt S.Token) (op : SyntheticOperation S)
      → find_debt id op.ledger.debts ≡ some d
      → Covered S laws Before op
      → ((t : S.Token)
          → laws.IsDown op.sink t
          → (t ≡ d.token) ⊎ Noted S laws Before op (remove_debt id op.ledger.debts) t)
  removed-Covered id d op e c t down = elim (c.1 t down) [
    | inl n ↦ elim (In-remove id op.ledger.debts d t e n) [
      | inl same ↦ inl same
      | inr kept ↦ inr (inl kept)
    ]
    | inr n ↦ inr (inr n)
  ]

  pub acknowledge-Covered :
      (id : ℕ) (op : SyntheticOperation S)
      → ((d : SyntheticDebt S.Token)
          → find_debt id op.ledger.debts ≡ some d
          → ¬ laws.IsDown op.sink d.token)
      → Covered S laws Before op
      → Covered S laws Before (on_ledger S (λ l. acknowledge_up l id) op).0
  acknowledge-Covered id op up c = elim (acknowledge-cases op.ledger id) [
    | inr (e, eq) ↦ rw eq c
    | inl (d, found, eq) ↦ rw eq (
      Rising-remove id 0 op.ledger.next_press_id op.ledger.debts c.0,
      λ t down. elim (removed-Covered id d op found c t down) [
        | inl same ↦ absurd (up d found (subst (λ u. laws.IsDown op.sink u) same down))
        | inr n ↦ n
      ],
    )
  ]

  pub cancel-Covered :
      (token : S.Token) (id : ℕ) (op : SyntheticOperation S)
      → Pressing token id op
      → Covered S laws Before (on_ledger S (λ l. cancel_unattempted_down l id) op).0
  cancel-Covered token id op p = elim (cancel-cases op.ledger id) [
    | inr (e, eq) ↦ rw eq (Pressing-Covered token id op p)
    | inl eq ↦ rw eq (Rising-remove id 0 op.ledger.next_press_id op.ledger.debts p.0, p.2)
  ]

  -- A key that was taken from the debts and is not yet noted elsewhere.
  abbrev pub Moving : S.Token → SyntheticOperation S → Type 0
  Moving token op =
      Ordered S laws Before op
      × ((t : S.Token)
          → laws.IsDown op.sink t
          → (t ≡ token) ⊎ Noted S laws Before op op.ledger.debts t)

  pub transfer-Moving :
      (id : ℕ) (op : SyntheticOperation S)
      → Covered S laws Before op
      → After S laws Before Moving (on_ledger S (λ l. transfer l id) op)
  transfer-Moving id op c = elim (transfer-cases op.ledger id) [
    | inr (e, eq) ↦ rw eq c
    | inl (d, found, eq) ↦ rw eq (
      Rising-remove id 0 op.ledger.next_press_id op.ledger.debts c.0,
      removed-Covered id d op found c,
    )
  ]
