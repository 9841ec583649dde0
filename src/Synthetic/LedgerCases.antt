-- ===== src/Synthetic/LedgerCases.antt =====
-- The calls on a key ledger that src/daemon/synthetic_input.rs makes, each by what it can leave.
use open_switcher.Prelude.{
  ℕ, ◌+◌, ◌≡◌, refl, ◌⊎◌, inl, inr, [], ◌∷◌, ◌++◌, some, ok, err, Bool-cases, Option-cases,
  checked_add-cases,
}
use open_switcher.Synthetic.Errors.{SwitcherError, input_safety, invariant}
use open_switcher.Synthetic.KeyLedger.{
  SyntheticDebt, SyntheticKeyLedger, attempting_down, with_debts, remove_debt, mark_debt, find_debt,
  begin_down, mark_possibly_down, acknowledge_up, transfer, cancel_unattempted_down,
  is_possibly_down,
}

module _ {T : Type 0} where
  -- The debt that `begin_down` notes.
  abbrev pub begun : SyntheticKeyLedger T → T → SyntheticDebt T
  begun l token = record { press_id = l.next_press_id; token = token; state = attempting_down }

  abbrev pub after_begin : SyntheticKeyLedger T → T → SyntheticKeyLedger T
  after_begin l token = record l {
    next_press_id = l.next_press_id + 1;
    debts = l.debts ++ begun l token ∷ [];
  }

  pub begin_down-cases :
      (l : SyntheticKeyLedger T) (token : T)
      → (begin_down l token ≡ (after_begin l token, ok l.next_press_id))
        ⊎ ((e : SwitcherError) × (begin_down l token ≡ (l, err e)))
  unfolding begin_down
  begin_down-cases l token = elim (Bool-cases l.terminal) [
    | inl e ↦ inr (input_safety (invariant "mutation after terminal state"), simp (begin_down, e))
    | inr e ↦ elim (checked_add-cases l.next_press_id 1) [
      | inl n ↦ inr (input_safety (invariant "press id exhausted"), simp (begin_down, e, n))
      | inr s ↦ inl (simp (begin_down, e, s))
    ]
  ]

  pub mark-cases :
      (l : SyntheticKeyLedger T) (id : ℕ)
      → (mark_possibly_down l id ≡ (with_debts l (mark_debt id l.debts), ok tt))
        ⊎ ((e : SwitcherError) × (mark_possibly_down l id ≡ (l, err e)))
  unfolding mark_possibly_down
  mark-cases l id = elim (Option-cases (find_debt id l.debts)) [
    | inl e ↦ inr (
      input_safety (invariant "press id does not belong to ledger"),
      rw (mark_possibly_down, e) refl,
    )
    | inr (d, e) ↦ inl (rw (mark_possibly_down, e) refl)
  ]

  pub acknowledge-cases :
      (l : SyntheticKeyLedger T) (id : ℕ)
      → ((d : SyntheticDebt T) × (find_debt id l.debts ≡ some d)
          × (acknowledge_up l id ≡ (with_debts l (remove_debt id l.debts), ok tt)))
        ⊎ ((e : SwitcherError) × (acknowledge_up l id ≡ (l, err e)))
  unfolding acknowledge_up
  acknowledge-cases l id = elim (Option-cases (find_debt id l.debts)) [
    | inl e ↦ inr (
      input_safety (invariant "release id does not belong to ledger"),
      rw (acknowledge_up, e) refl,
    )
    | inr (d, e) ↦ inl (d, e, rw (acknowledge_up, e) refl)
  ]

  pub transfer-cases :
      (l : SyntheticKeyLedger T) (id : ℕ)
      → ((d : SyntheticDebt T) × (find_debt id l.debts ≡ some d)
          × (transfer l id ≡ (with_debts l (remove_debt id l.debts), ok d.token)))
        ⊎ ((e : SwitcherError) × (transfer l id ≡ (l, err e)))
  unfolding transfer
  transfer-cases l id = elim (Bool-cases l.terminal) [
    | inl y ↦ inr (input_safety (invariant "transfer after terminal state"), simp (transfer, y))
    | inr y ↦ elim (Option-cases (find_debt id l.debts)) [
      | inl e ↦
          inr (
            input_safety (invariant "transfer id does not belong to ledger"),
            simp (transfer, y, e),
          )
      | inr (d, e) ↦ elim (Bool-cases (is_possibly_down d.state)) [
        | inl z ↦ inl (d, e, simp (transfer, y, e, z))
        | inr z ↦ inr (
          input_safety (invariant "only a possibly-down token can be transferred"),
          simp (transfer, y, e, z),
        )
      ]
    ]
  ]

  pub cancel-cases :
      (l : SyntheticKeyLedger T) (id : ℕ)
      → (cancel_unattempted_down l id ≡ (with_debts l (remove_debt id l.debts), ok tt))
        ⊎ ((e : SwitcherError) × (cancel_unattempted_down l id ≡ (l, err e)))
  unfolding cancel_unattempted_down
  cancel-cases l id = elim (Option-cases (find_debt id l.debts)) [
    | inl e ↦ inr (
      input_safety (invariant "cancelled press id does not belong to ledger"),
      rw (cancel_unattempted_down, e) refl,
    )
    | inr (d, e) ↦ elim (Bool-cases (is_possibly_down d.state)) [
      | inl z ↦ inr (
        input_safety (invariant "only an unattempted down can be cancelled"),
        rw (cancel_unattempted_down, e, z) refl,
      )
      | inr z ↦ inl (rw (cancel_unattempted_down, e, z) refl)
    ]
  ]
