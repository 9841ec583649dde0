-- ===== src/Synthetic/Settling.antt =====
-- The cleanup of an operation on a sink whose releases succeed leaves nothing to release, and the
-- outcome that the end of an operation reports.
use mathlib.Core.List.{reverse}
use open_switcher.Prelude.{
  ℕ, suc, ◌+◌, ◌≤◌, ◌≡◌, ◌≢◌, refl, sym, ap, ◌∙◌, inl, inr, List, [], ◌∷◌, ◌++◌, Option, none,
  length, arith, ◌==◌, Bool-cases, ok, Option-cases,
}
use open_switcher.Synthetic.Errors.{SwitcherError, Status}
use open_switcher.Synthetic.KeyLedger.{
  SyntheticDebt, SyntheticKeyLedger, find_debt, remove_debt, acknowledge_up, begin_terminal,
}
use open_switcher.Synthetic.KeyLedgerLaws.{In, Rising, Rising-remove, In-reverse_of}
use open_switcher.Synthetic.Operation.{SyntheticKeySink, SyntheticOperation, remaining_debt}
use open_switcher.Synthetic.Finish.{
  release_debt, release_debts, release_all, drain_token, drain_tokens, drain_release_only_fallback,
  settle, option_status, keep_first_error,
}

module _ {T : Type 0} where
  find_none-remove :
      (id : ℕ) (ds : List (SyntheticDebt T)) → find_debt id ds ≡ none → remove_debt id ds ≡ ds
  unfolding find_debt remove_debt
  find_none-remove id [] e = refl
  find_none-remove id (d ∷ ds) e = elim (Bool-cases (d.press_id == id)) [
    | inl y ↦ ground (arith, e, y)
    | inr y ↦ rw y (ap (λ xs. d ∷ xs) (find_none-remove id ds (rw y at e)))
  ]

  -- An acknowledgement removes the debt with that id, when there is one.
  acknowledge_up-debts :
      (l : SyntheticKeyLedger T) (id : ℕ) → (acknowledge_up l id).0.debts ≡ remove_debt id l.debts
  unfolding acknowledge_up
  acknowledge_up-debts l id = elim (Option-cases (find_debt id l.debts)) [
    | inl e ↦ rw (acknowledge_up, e) (sym (find_none-remove id l.debts e))
    | inr (d, e) ↦ rw (acknowledge_up, e) refl
  ]

  above :
      (lo hi : ℕ) (ds : List (SyntheticDebt T)) (x : SyntheticDebt T)
      → Rising lo hi ds
      → In x ds
      → lo ≤ x.press_id
  above lo hi [] x r h = absurd h
  above lo hi (d ∷ ds) x r (inl e) = ground (arith, e)
  above lo hi (d ∷ ds) x r (inr h) = omega (arith, above (suc d.press_id) hi ds x r.2 h, r.0)

  -- After a removal the debts are those with another id.
  removed_In :
      (id lo hi : ℕ) (ds : List (SyntheticDebt T)) (x : SyntheticDebt T)
      → Rising lo hi ds
      → In x (remove_debt id ds)
      → In x ds × (x.press_id ≢ id)
  unfolding remove_debt
  removed_In id lo hi [] x r h = absurd h
  removed_In id lo hi (d ∷ ds) x r h = elim (Bool-cases (d.press_id == id)) [
    | inl y ↦
        (inr (rw y at h), λ e. ground (arith, above (suc d.press_id) hi ds x r.2 (rw y at h), e, y))
    | inr y ↦ elim (rw y at h) [
      | inl e ↦ (inl e, λ f. ground (arith, ap (λ z. z.press_id) e, f, y))
      | inr u ↦ (
        inr (removed_In id (suc d.press_id) hi ds x r.2 u).0,
        (removed_In id (suc d.press_id) hi ds x r.2 u).1,
      )
    ]
  ]

  nothing_left : (ds : List (SyntheticDebt T)) → ((x : SyntheticDebt T) → ¬ In x ds) → length ds ≡ 0
  nothing_left [] f = refl
  nothing_left (d ∷ ds) f = absurd (f d (inl refl))

sums : {a b : ℕ} → a ≡ 0 → b ≡ 0 → a + b ≡ 0
sums h k = omega (arith, h, k)

quiet :
    {a b c : Status}
    → a ≡ ok tt
    → b ≡ ok tt
    → c ≡ ok tt
    → keep_first_error (keep_first_error (keep_first_error none a) b) c ≡ none
unfolding keep_first_error
quiet h k l = rw (h, k, l) refl

module _ (S : SyntheticKeySink)
    (up_succeeds : (d : S.Device) (t : S.Token) → (S.attempt_up d t).1 ≡ ok tt)
    (synchronize_succeeds : (d : S.Device) → (S.synchronize d).1 ≡ ok tt) where
  release_debt-removes :
      (op : SyntheticOperation S) (debt : SyntheticDebt S.Token) (first : Option SwitcherError)
      → ((release_debt S op debt first).0.ledger.debts ≡ remove_debt debt.press_id op.ledger.debts)
        × (first ≡ none → (release_debt S op debt first).1 ≡ none)
  unfolding release_debt keep_first_error
  release_debt-removes op debt first =
      rw (up_succeeds op.sink debt.token, synchronize_succeeds (S.attempt_up op.sink debt.token).0)
        (acknowledge_up-debts op.ledger debt.press_id, λ e. rw e refl)

  -- The debts are all among those that are still to be released.
  abbrev Within : List (SyntheticDebt S.Token) → SyntheticOperation S → Type 0
  Within ds op = (x : SyntheticDebt S.Token) → In x op.ledger.debts → In x ds

  Within-release_debt :
      (hi : ℕ) (op : SyntheticOperation S) (debt : SyntheticDebt S.Token)
      (ds : List (SyntheticDebt S.Token)) (first : Option SwitcherError)
      → Rising 0 hi op.ledger.debts
      → Within (debt ∷ ds) op
      → Within ds (release_debt S op debt first).0
  Within-release_debt hi op debt ds first r w x h =
      let left =
        removed_In debt.press_id 0 hi op.ledger.debts x r
          (rw (release_debt-removes op debt first).0 at h) in
      elim (w x left.0) [ inl e ↦ absurd (left.1 (ap (λ z. z.press_id) e)) | inr u ↦ u ]

  release_debts-empties :
      (hi : ℕ) (ds : List (SyntheticDebt S.Token)) (op : SyntheticOperation S)
      (first : Option SwitcherError)
      → Rising 0 hi op.ledger.debts
      → Within ds op
      → first ≡ none
      → (length (release_debts S op ds first).0.ledger.debts ≡ 0)
        × ((release_debts S op ds first).1 ≡ none)
  unfolding release_debts
  release_debts-empties hi [] op first r w e = (nothing_left op.ledger.debts w, e)
  release_debts-empties hi (debt ∷ ds) op first r w e =
      release_debts-empties hi ds (release_debt S op debt first).0 (release_debt S op debt first).1
        (rw (release_debt-removes op debt first).0
          (Rising-remove debt.press_id 0 hi op.ledger.debts r))
        (Within-release_debt hi op debt ds first r w) ((release_debt-removes op debt first).1 e)

  drain_token-drops :
      (op : SyntheticOperation S) (token : S.Token) (retained : List S.Token)
      (first : Option SwitcherError)
      → ((drain_token S op token retained first).0.ledger ≡ op.ledger)
        × ((drain_token S op token retained first).0.release_only_fallback
            ≡ op.release_only_fallback)
        × ((drain_token S op token retained first).1 ≡ retained)
        × (first ≡ none → (drain_token S op token retained first).2 ≡ none)
  unfolding drain_token keep_first_error
  drain_token-drops op token retained first =
      rw (up_succeeds op.sink token, synchronize_succeeds (S.attempt_up op.sink token).0)
        (refl, refl, refl, λ e. rw e refl)

  drain_tokens-empties :
      (pending retained : List S.Token) (op : SyntheticOperation S) (first : Option SwitcherError)
      → op.release_only_fallback ≡ []
      → retained ≡ []
      → first ≡ none
      → ((drain_tokens S op pending retained first).0.ledger ≡ op.ledger)
        × ((drain_tokens S op pending retained first).0.release_only_fallback ≡ [])
        × ((drain_tokens S op pending retained first).1 ≡ none)
  unfolding drain_tokens
  drain_tokens-empties [] retained op first none_left none_kept e =
      (refl, ap (λ xs. xs ++ retained) none_left ∙ none_kept, e)
  drain_tokens-empties (token ∷ pending) retained op first none_left none_kept e =
      let drops = drain_token-drops op token retained first in
      let rest =
        drain_tokens-empties pending (drain_token S op token retained first).1
          (drain_token S op token retained first).0 (drain_token S op token retained first).2
          (drops.1 ∙ none_left) (drops.2 ∙ none_kept) (drops.3 e) in
      (rest.0 ∙ drops.0, rest.1, rest.2)

  -- The whole cleanup, from any operation whose ids are in order.
  pub settle-empties :
      (op : SyntheticOperation S)
      → Rising 0 op.ledger.next_press_id op.ledger.debts
      → (remaining_debt S (settle S op none).0 ≡ 0) × ((settle S op none).1 ≡ none)
  unfolding settle begin_terminal remaining_debt keep_first_error
  settle-empties op r =
      let terminal = record op { ledger = begin_terminal op.ledger } in
      let released =
        release_debts-empties op.ledger.next_press_id (reverse op.ledger.debts) terminal none r
          (λ x h. In-reverse_of x op.ledger.debts h) refl in
      let all = (release_all S terminal).0 in
      let drained =
        drain_tokens-empties (reverse all.release_only_fallback) []
          (record all { release_only_fallback = [] }) none refl refl refl in
      (
        sums (ap (λ l. length l.debts) drained.0 ∙ released.0) (ap length drained.1),
        quiet (ap (λ o. option_status S o) released.1) (ap (λ o. option_status S o) drained.2) (
            synchronize_succeeds (drain_release_only_fallback S (release_all S terminal).0).0.sink),
      )
