-- ===== src/Synthetic/Outcome.antt =====
-- What the outcome says that the end of an operation with a restore reports.
use open_switcher.Prelude.{
  ◌≡◌, ◌≢◌, refl, ◌⊎◌, inl, inr, Bool, true, false, not, ◌&&◌, List, Option, none, some, is_some,
  arith, Bool-cases, if◌then◌else◌, ℕ,
}
use open_switcher.Synthetic.Errors.{SwitcherError}
use open_switcher.Synthetic.KeyLedgerLaws.{In}
use open_switcher.Synthetic.Modifiers.{FrozenPhysicalSnapshot}
use open_switcher.Synthetic.SessionLedger.{SessionModifierLedger}
use open_switcher.Synthetic.Operation.{
  SyntheticKeySink, SyntheticOperation, OperationControl, DropCleanupReport, TerminalProof,
  reconciled, unreconciled, owner_generation_destroyed, remaining_debt,
}
use open_switcher.Synthetic.Finish.{
  OperationOutcome, OperationTerminalReport, success, soft_cancelled, hard_failed, settle,
  finish_with_restore, record_reconciliation_failure, restore_planned_modifiers, mode_of, proof_of,
  is_reconciled, clean_outcome, fail_latch,
}
use open_switcher.Synthetic.Coverage.{SinkLaws, owned_tokens}
use open_switcher.Synthetic.Release.{Call, calls, fresh, reconciled_finish_releases}

-- What a reported outcome says of the outcome that was asked for and of the user's cancellation.
abbrev pub Means : OperationOutcome → Bool → OperationOutcome → Type 0
Means requested cancelled success = (requested ≡ success) × (cancelled ≡ false)
Means requested cancelled soft_cancelled =
    (requested ≡ soft_cancelled) ⊎ ((requested ≡ success) × (cancelled ≡ true))
Means requested cancelled hard_failed = ⊥

-- The failure latch has a report, and the cleanup failed or the sink was not reconciled.
abbrev pub Failed : (S : SyntheticKeySink) → SyntheticOperation S × OperationTerminalReport → Type 0
Failed S done =
    (done.1.outcome ≡ hard_failed)
    × (is_some done.0.failure_latch ≡ true)
    × ¬ ((done.1.cleanup ≡ none) × (done.1.proof ≡ reconciled))

-- Without a cleanup error and with nothing left to release.
abbrev pub Clean :
    (S : SyntheticKeySink)
    → OperationOutcome
    → SyntheticOperation S × OperationTerminalReport
    → Type 0
Clean S requested done =
    (done.1.cleanup ≡ none)
    × Means requested (done.0.control.observe done.0.reads).cancelled done.1.outcome
    × (remaining_debt S done.0 ≡ 0)

module _ (S : SyntheticKeySink) where
  clean_outcome-Means :
      (requested : OperationOutcome) (op : SyntheticOperation S)
      → requested ≢ hard_failed
      → Means requested (op.control.observe op.reads).cancelled (clean_outcome S requested op)
  clean_outcome-Means success op h = elim (Bool-cases (op.control.observe op.reads).cancelled) [
    | inl e ↦ rw e (inr (refl, refl))
    | inr e ↦ rw e (refl, refl)
  ]
  clean_outcome-Means soft_cancelled op h = inl refl
  clean_outcome-Means hard_failed op h = absurd (h refl)

  latch_set :
      (latch : Option DropCleanupReport) (r : DropCleanupReport)
      → is_some (fail_latch latch r) ≡ true
  unfolding fail_latch
  latch_set none r = refl
  latch_set (some first) r = refl

  abbrev finished :
      SyntheticOperation S
      → OperationOutcome
      → Option SwitcherError
      → TerminalProof
      → SyntheticOperation S × OperationTerminalReport
  finished settled requested cleanup proof =
      let clean = not (is_some cleanup) && is_reconciled proof in
      let latched = if clean then settled else record_reconciliation_failure S settled proof in
      (
        record latched { finalized = true },
        record {
          outcome = if clean then clean_outcome S requested settled else hard_failed;
          primary = none;
          cleanup = cleanup;
          proof = proof;
        },
      )

  finished-cases :
      (settled : SyntheticOperation S) (requested : OperationOutcome)
      (cleanup : Option SwitcherError) (proof : TerminalProof)
      → requested ≢ hard_failed
      → (proof ≡ reconciled → remaining_debt S settled ≡ 0)
      → Failed S (finished settled requested cleanup proof)
        ⊎ (Clean S requested (finished settled requested cleanup proof) × (proof ≡ reconciled))
  unfolding is_reconciled record_reconciliation_failure remaining_debt
  finished-cases settled requested none reconciled h debt =
      inr ((refl, clean_outcome-Means requested settled h, debt refl), refl)
  finished-cases settled requested none (owner_generation_destroyed g) h debt =
      inl (refl, latch_set settled.failure_latch _, λ c. ground (arith, c.1))
  finished-cases settled requested none (unreconciled k) h debt =
      inl (refl, latch_set settled.failure_latch _, λ c. ground (arith, c.1))
  finished-cases settled requested (some e) proof h debt =
      inl (refl, latch_set settled.failure_latch _, λ c. ground (arith, c.0))

module _ (S : SyntheticKeySink) (laws : SinkLaws S) (id : ℕ) (device : S.Device)
    (control : OperationControl) (frozen : FrozenPhysicalSnapshot)
    (latch : Option DropCleanupReport) (restored : SessionModifierLedger S.Token) where
  finish-cases :
      (op : SyntheticOperation S) (requested : OperationOutcome)
      → requested ≢ hard_failed
      → Failed S (finish_with_restore S op requested)
        ⊎ (Clean S requested (finish_with_restore S op requested)
            × ((finish_with_restore S op requested).1.proof ≡ reconciled))
  unfolding finish_with_restore
  finish-cases op requested h =
      let start = restore_planned_modifiers S op (mode_of S requested) in
      let settled = settle S start.0 start.1 in
      finished-cases S settled.0 requested settled.1 (proof_of S settled.0) h
        (laws.proof_counts settled.0.sink (remaining_debt S settled.0))

  -- After any calls on a new operation, on a sink that obeys its laws, an end with a restore that
  -- is asked for success or for a soft cancellation is reported in one of two ways. As a hard
  -- failure, with a report in the failure latch, and then the cleanup failed or the sink was not
  -- reconciled. Or as a success, if that was asked for and the user has not cancelled, or as a soft
  -- cancellation, if that was asked for or the user has cancelled; and then there is no cleanup
  -- error, nothing is left to release, and a key that is down is held for the user by the session
  -- ledger or was down before the operation.
  pub reported_outcome_holds :
      (cs : List Call) (requested : OperationOutcome)
      → requested ≢ hard_failed
      → let done =
          finish_with_restore S
            (calls S (fresh S laws id device control frozen latch restored) cs)
            requested in
        Failed S done
        ⊎ (Clean S requested done
            × ((t : S.Token)
                → laws.IsDown done.0.sink t
                → In t (owned_tokens done.0.restored.entries) ⊎ laws.IsDown device t))
  reported_outcome_holds cs requested h =
      let op = fresh S laws id device control frozen latch restored in
      elim (finish-cases (calls S op cs) requested h) [
        | inl failed ↦ inl failed
        | inr (clean, proof) ↦ inr (
          clean,
          λ t down.
              reconciled_finish_releases S laws id device control frozen latch restored cs requested
                t proof down,
        )
      ]
