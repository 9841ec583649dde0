-- ===== src/Synthetic/Release.antt =====
-- What the user of src/daemon/synthetic_input.rs can rely on: no key stays down without a note of
-- it, and an operation that ends reconciled leaves no key down of its own.
use open_switcher.Key.{Key}
use open_switcher.Prelude.{
  ℕ, ◌≡◌, ◌∙◌, refl, subst, ◌⊎◌, inl, inr, Bool, true, false, not, ◌&&◌, ◌||◌, List, [], ◌∷◌,
  Option, none, is_some, ok, length, arith, if◌then◌else◌,
}
use open_switcher.Synthetic.Errors.{SwitcherError}
use open_switcher.Synthetic.KeyLedger.{SyntheticDebt}
use open_switcher.Synthetic.KeyLedgerLaws.{In, tokens}
use open_switcher.Synthetic.Modifiers.{FrozenPhysicalSnapshot, restore_order}
use open_switcher.Synthetic.SessionLedger.{SessionModifierLedger}
use open_switcher.Synthetic.Operation.{
  SyntheticKeySink, SyntheticOperation, OperationControl, DropCleanupReport, new_operation, press,
  release, temporarily_release_physical_modifier, reconciled, remaining_debt,
}
use open_switcher.Synthetic.Finish.{
  OperationOutcome, settle, finish_with_restore, finish_hard_failure, record_reconciliation_failure,
  restore_planned_modifiers, mode_of, proof_of, is_reconciled, is_unreconciled,
}
use open_switcher.Synthetic.Coverage.{SinkLaws, Noted, Covered, owned_tokens}
use open_switcher.Synthetic.CoverageOperation.{
  press-Covered, release-Covered, temporarily_release-Covered,
}
use open_switcher.Synthetic.CoverageRestore.{restore_modifiers-Covered}
use open_switcher.Synthetic.Settling.{settle-empties}
use open_switcher.Synthetic.CoverageDrain.{settle-Covered}

-- The calls that a client makes on a running operation, whatever they return.
pub data Call : Type 0 where
  press_key : Key → Call
  release_key : ℕ → Call
  release_modifier : Key → Call

module _ (S : SyntheticKeySink) where
  unfoldable pub call : SyntheticOperation S → Call → SyntheticOperation S
  call op (press_key key) = (press S key op).0
  call op (release_key id) = (release S id op).0
  call op (release_modifier key) = (temporarily_release_physical_modifier S key op).0

  unfoldable pub calls : SyntheticOperation S → List Call → SyntheticOperation S
  calls op [] = op
  calls op (c ∷ cs) = calls (call op c) cs

module _ {T : Type 0} where
  nothing_In : (ds : List (SyntheticDebt T)) (t : T) → length ds ≡ 0 → ¬ In t (tokens ds)
  nothing_In [] t e h = h
  nothing_In (d ∷ ds) t e h = ground (arith, e)

  nothing_In_list : (ts : List T) (t : T) → length ts ≡ 0 → ¬ In t ts
  nothing_In_list [] t e h = h
  nothing_In_list (u ∷ ts) t e h = ground (arith, e)

module _ (S : SyntheticKeySink) where
  latched_debt :
      (latched kept : SyntheticOperation S) (b : Bool)
      → remaining_debt S latched ≡ remaining_debt S kept
      → remaining_debt S kept ≡ 0
      → remaining_debt S (record (if b then latched else kept) { finalized = true }) ≡ 0
  unfolding remaining_debt
  latched_debt latched kept true same e = same ∙ e
  latched_debt latched kept false same e = e

module _ (S : SyntheticKeySink) (laws : SinkLaws S) (Before : S.Token → Type 0) where
  calls-Covered :
      (op : SyntheticOperation S) (cs : List Call)
      → Covered S laws Before op
      → Covered S laws Before (calls S op cs)
  unfolding calls call
  calls-Covered op [] c = c
  calls-Covered op (press_key key ∷ cs) c =
      calls-Covered (press S key op).0 cs (press-Covered S laws Before key op c)
  calls-Covered op (release_key id ∷ cs) c =
      calls-Covered (release S id op).0 cs (release-Covered S laws Before id op c)
  calls-Covered op (release_modifier key ∷ cs) c =
      calls-Covered (temporarily_release_physical_modifier S key op).0 cs
        (temporarily_release-Covered S laws Before key op c)

  -- Without a debt, a key that is down is held for the user or was down before.
  without_debt :
      (op : SyntheticOperation S) (t : S.Token)
      → Covered S laws Before op
      → remaining_debt S op ≡ 0
      → laws.IsDown op.sink t
      → In t (owned_tokens op.restored.entries) ⊎ Before t
  unfolding remaining_debt
  without_debt op t c e down = elim (c.1 t down) [
    | inl n ↦ absurd (nothing_In op.ledger.debts t (omega (arith, e)) n)
    | inr (inl n) ↦ absurd (nothing_In_list op.release_only_fallback t (omega (arith, e)) n)
    | inr (inr n) ↦ n
  ]

  -- Such an end changes the failure latch at most.
  ended :
      (latched kept : SyntheticOperation S) (b : Bool) (t : S.Token)
      → (latched.sink ≡ kept.sink)
      → (latched.restored ≡ kept.restored)
      → Covered S laws Before kept
      → remaining_debt S kept ≡ 0
      → laws.IsDown (if b then latched else kept).sink t
      → In t (owned_tokens (if b then latched else kept).restored.entries) ⊎ Before t
  ended latched kept true t same restored c e down =
      rw restored (without_debt kept t c e (subst (λ d. laws.IsDown d t) same down))
  ended latched kept false t same restored c e down = without_debt kept t c e down

  ended_clean :
      (latched kept : SyntheticOperation S) (b : Bool) (t : S.Token)
      → (latched.sink ≡ kept.sink)
      → (latched.restored ≡ kept.restored)
      → Covered S laws Before kept
      → remaining_debt S kept ≡ 0
      → laws.IsDown (if b then kept else latched).sink t
      → In t (owned_tokens (if b then kept else latched).restored.entries) ⊎ Before t
  ended_clean latched kept false t same restored c e down =
      rw restored (without_debt kept t c e (subst (λ d. laws.IsDown d t) same down))
  ended_clean latched kept true t same restored c e down = without_debt kept t c e down

module _ (S : SyntheticKeySink) (laws : SinkLaws S) (id : ℕ) (device : S.Device)
    (control : OperationControl) (frozen : FrozenPhysicalSnapshot)
    (latch : Option DropCleanupReport) (restored : SessionModifierLedger S.Token) where
  abbrev pub fresh : SyntheticOperation S
  fresh = new_operation S id device control frozen latch restored

  fresh-Covered : Covered S laws (laws.IsDown device) fresh
  unfolding new_operation
  fresh-Covered = (tt, λ t down. inr (inr (inr down)))

  -- After any calls on a new operation, failed ones included, on a sink that obeys its laws: a key
  -- that may be down is the token of a debt, or is on the release-only list, or is held for the
  -- user, or was down on the device before the operation.
  pub pressed_keys-Noted :
      (cs : List Call) (t : S.Token)
      → laws.IsDown (calls S fresh cs).sink t
      → Noted S laws (laws.IsDown device) (calls S fresh cs) (calls S fresh cs).ledger.debts t
  pressed_keys-Noted cs t = (calls-Covered S laws (laws.IsDown device) fresh cs fresh-Covered).1 t

  -- After any calls on a new operation, on a sink that obeys its laws: when the operation ends with
  -- a restore, whatever outcome was asked for, and its report says that it is reconciled, then a key
  -- that is down is held for the user by the session ledger, or was down before the operation.
  pub reconciled_finish_releases :
      (cs : List Call) (requested : OperationOutcome) (t : S.Token)
      → (finish_with_restore S (calls S fresh cs) requested).1.proof ≡ reconciled
      → laws.IsDown (finish_with_restore S (calls S fresh cs) requested).0.sink t
      → In t (owned_tokens (finish_with_restore S (calls S fresh cs) requested).0.restored.entries)
        ⊎ laws.IsDown device t
  unfolding finish_with_restore record_reconciliation_failure
  reconciled_finish_releases cs requested t e down =
      let start = restore_planned_modifiers S (calls S fresh cs) (mode_of S requested) in
      let settled = settle S start.0 start.1 in
      ended_clean S laws (laws.IsDown device)
        (record_reconciliation_failure S settled.0 (proof_of S settled.0)) settled.0
        (not (is_some settled.1) && is_reconciled (proof_of S settled.0)) t refl refl
        (settle-Covered S laws (laws.IsDown device) start.0 start.1 (
          restore_modifiers-Covered S laws (laws.IsDown device) (calls S fresh cs)
            (restore_order (calls S fresh cs).restore_plan) (mode_of S requested)
            (calls-Covered S laws (laws.IsDown device) fresh cs fresh-Covered)))
        (laws.proof_counts settled.0.sink (remaining_debt S settled.0) e) down

  -- The same for an operation that ends with a hard failure.
  pub reconciled_failure_releases :
      (cs : List Call) (primary : SwitcherError) (t : S.Token)
      → (finish_hard_failure S (calls S fresh cs) primary).1.proof ≡ reconciled
      → laws.IsDown (finish_hard_failure S (calls S fresh cs) primary).0.sink t
      → In t (owned_tokens (finish_hard_failure S (calls S fresh cs) primary).0.restored.entries)
        ⊎ laws.IsDown device t
  unfolding finish_hard_failure record_reconciliation_failure
  reconciled_failure_releases cs primary t e down =
      let settled = settle S (calls S fresh cs) none in
      ended S laws (laws.IsDown device)
        (record_reconciliation_failure S settled.0 (proof_of S settled.0)) settled.0
        (is_some settled.1 || is_unreconciled (proof_of S settled.0)) t refl refl
        (settle-Covered S laws (laws.IsDown device) (calls S fresh cs) none
          (calls-Covered S laws (laws.IsDown device) fresh cs fresh-Covered))
        (laws.proof_counts settled.0.sink (remaining_debt S settled.0) e) down

  -- After any calls on a new operation, on a sink that obeys its laws and on which every release and
  -- every synchronization succeeds: the end by a hard failure has no cleanup error, and leaves
  -- nothing to release.
  pub failure-releases_all :
      (up_succeeds : (d : S.Device) (t : S.Token) → (S.attempt_up d t).1 ≡ ok tt)
      → (synchronize_succeeds : (d : S.Device) → (S.synchronize d).1 ≡ ok tt)
      → (cs : List Call) (primary : SwitcherError)
      → ((finish_hard_failure S (calls S fresh cs) primary).1.cleanup ≡ none)
        × (remaining_debt S (finish_hard_failure S (calls S fresh cs) primary).0 ≡ 0)
  unfolding finish_hard_failure record_reconciliation_failure remaining_debt
  failure-releases_all up_succeeds synchronize_succeeds cs primary =
      let covered = calls-Covered S laws (laws.IsDown device) fresh cs fresh-Covered in
      let settled = settle S (calls S fresh cs) none in
      let empty = settle-empties S up_succeeds synchronize_succeeds (calls S fresh cs) covered.0 in
      (
        empty.1,
        latched_debt S (record_reconciliation_failure S settled.0 (proof_of S settled.0)) settled.0
            (is_some settled.1 || is_unreconciled (proof_of S settled.0)) refl empty.0,
      )
