-- ===== src/Tests/SyntheticInput.antt =====
-- An operation on a small key sink: the tokens are numbers, and the
-- device is the set of the tokens that are down.
use open_switcher.Key.{Key, key_leftshift, key_leftctrl}
use open_switcher.Prelude.{
  ℕ, zero, suc, ◌≡◌, refl, ◌⊎◌, Bool, true, false, not, ◌&&◌, ◌||◌, List, [], ◌∷◌, none, ◌==◌,
  ==-refl, checked_add, ok, arith,
}
use open_switcher.Synthetic.Errors.{external}
use open_switcher.Synthetic.Modifiers.{
  FrozenPhysicalSnapshot, modifier_bit, record_release, holds_modifier, contains_key,
}
use open_switcher.Synthetic.SessionLedger.{
  PhysicalReleaseCommit, commit_physical_release, validate_physical_release, SessionModifierLedger,
  begin_restore, contains, find_entry, adopt_restored,
}
use open_switcher.Synthetic.KeyLedger.{
  new_ledger, begin_down, find_debt, mark_possibly_down, mark_debt, transfer, remove_debt,
  begin_terminal, acknowledge_up,
}
use open_switcher.Synthetic.KeyLedgerLaws.{In}
use open_switcher.Synthetic.Finish.{
  success, soft_cancelled, finish_with_restore, finish_hard_failure, restore_modifiers,
  restore_one_modifier, settle, release_debts, release_debt, drain_tokens, drain_token,
  keep_first_error, is_reconciled, is_unreconciled, record_reconciliation_failure,
}
use open_switcher.Synthetic.Operation.{
  ensure_cleanup_active, remaining_debt, SyntheticKeySink, OperationControl, TerminalProof,
  reconciled, unreconciled, SyntheticOperation, press, temporarily_release_physical_modifier,
  new_operation, ◌>>=◌, ensure_active, in_time,
}
use open_switcher.Synthetic.Coverage.{SinkLaws, Noted, owned_tokens}
use open_switcher.Synthetic.ReleaseOrder.{RisesAbove, accepted, accepted-RisesAbove}
use open_switcher.Synthetic.Release.{
  Call, call, calls, press_key, release_modifier, fresh, pressed_keys-Noted,
  reconciled_finish_releases, reconciled_failure_releases, failure-releases_all,
}
use open_switcher.Synthetic.Outcome.{Failed, Clean, reported_outcome_holds}

abbrev token_for : Key → ℕ
token_for Key.key_leftctrl = 1
token_for Key.key_leftshift = 2
token_for _ = 0

abbrev proof_for : ℕ → TerminalProof
proof_for zero = reconciled
proof_for (suc n) = unreconciled (suc n)

abbrev small_sink : SyntheticKeySink
small_sink = record {
  Token = ℕ;
  Device = ℕ → Bool;
  prepare_down = λ d key. (d, ok (token_for key));
  attempt_down = λ d token. ((λ t. (t == token) || d t), ok tt);
  attempt_up = λ d token. ((λ t. not (t == token) && d t), ok tt);
  synchronize = λ d. (d, ok tt);
  terminal_proof = λ d n. proof_for n;
}

proof_for_zero : (n : ℕ) → proof_for n ≡ reconciled → n ≡ 0
proof_for_zero zero e = refl
proof_for_zero (suc n) e = ground (arith, e)

down_or_before : (d : ℕ → Bool) (u t : ℕ) → ((t == u) || d t) ≡ true → (t ≡ u) ⊎ (d t ≡ true)
down_or_before d u t h = ground arith

still_down : (d : ℕ → Bool) (u t : ℕ) → (not (t == u) && d t) ≡ true → d t ≡ true
still_down d u t h = ground arith

up_now : (d : ℕ → Bool) (u : ℕ) → ¬ ((not (u == u) && d u) ≡ true)
up_now d u h = ground (arith, ==-refl u)

small_sink_laws : SinkLaws small_sink
small_sink_laws = record {
  IsDown = λ d t. d t ≡ true;
  prepare_keeps = λ d key t h. h;
  down_adds = λ d u t h. down_or_before d u t h;
  up_keeps = λ d u t h. still_down d u t h;
  synchronize_keeps = λ d t h. h;
  up_releases = λ d u a b h. up_now d u h;
  proof_counts = λ d n e. proof_for_zero n e;
}

abbrev no_keys : ℕ → Bool
no_keys t = false

-- Left Shift is held by the user.
abbrev shift_held : ℕ → Bool
shift_held t = t == 2

abbrev calm : OperationControl
calm = record {
  deadline = 100;
  observe = λ n. record {
    cancelled = false;
    additional_cancelled = false;
    failure_reported = false;
    now = n;
  };
  restore_down_authorizer = λ mode. ok tt;
}

abbrev shift_frozen : FrozenPhysicalSnapshot
shift_frozen = record { modifier_bits = 4; caps_lock_active = false }

abbrev empty_session : SessionModifierLedger ℕ
empty_session = record { generation = 1; last_release_sequence = 0; entries = [] }

-- Shift is let go for a while, and Control is pressed and not released.
abbrev typed_operation : SyntheticOperation small_sink
typed_operation = fresh small_sink small_sink_laws 7 shift_held calm shift_frozen none empty_session

abbrev typed : List Call
typed = release_modifier key_leftshift ∷ press_key key_leftctrl ∷ []

pressed_keys-Noted_example :
    Noted small_sink small_sink_laws
      (small_sink_laws.IsDown shift_held)
      (calls small_sink typed_operation typed)
      (calls small_sink typed_operation typed).ledger.debts
      1
unfolding small_sink_laws calls call press temporarily_release_physical_modifier ◌>>=◌ new_operation
    new_ledger ensure_active in_time record_release holds_modifier modifier_bit contains_key
    begin_down checked_add find_debt mark_possibly_down mark_debt
pressed_keys-Noted_example =
    pressed_keys-Noted small_sink small_sink_laws 7 shift_held calm shift_frozen none empty_session
      typed 1 refl

reconciled_finish_releases_example :
    In 2 (
      owned_tokens
        (finish_with_restore small_sink
          (calls small_sink typed_operation typed)
          success).0.restored.entries)
    ⊎ small_sink_laws.IsDown shift_held 2
unfolding small_sink_laws calls call press temporarily_release_physical_modifier ◌>>=◌ new_operation
    new_ledger ensure_active in_time record_release holds_modifier modifier_bit contains_key
    begin_down checked_add find_debt mark_possibly_down mark_debt finish_with_restore
    restore_modifiers restore_one_modifier ensure_cleanup_active begin_restore contains find_entry
    adopt_restored transfer remove_debt settle begin_terminal release_debts release_debt
    acknowledge_up drain_tokens drain_token keep_first_error remaining_debt is_reconciled
    record_reconciliation_failure
reconciled_finish_releases_example =
    reconciled_finish_releases small_sink small_sink_laws 7 shift_held calm shift_frozen none
      empty_session typed success 2 refl refl

-- Shift stays down while Control is pressed, and the operation fails.
abbrev pressed : List Call
pressed = press_key key_leftctrl ∷ []

reconciled_failure_releases_example :
    In 2 (
      owned_tokens
        (finish_hard_failure small_sink
          (calls small_sink typed_operation pressed)
          (external 1)).0.restored.entries)
    ⊎ small_sink_laws.IsDown shift_held 2
unfolding small_sink_laws calls call press ◌>>=◌ new_operation new_ledger ensure_active in_time
    begin_down checked_add find_debt mark_possibly_down mark_debt finish_hard_failure remove_debt
    settle begin_terminal release_debts release_debt acknowledge_up drain_tokens drain_token
    keep_first_error remaining_debt is_unreconciled record_reconciliation_failure
reconciled_failure_releases_example =
    reconciled_failure_releases small_sink small_sink_laws 7 shift_held calm shift_frozen none
      empty_session pressed (external 1) 2 refl refl

failure-releases_all_example :
    ((finish_hard_failure small_sink
        (calls small_sink typed_operation typed)
        (external 1)).1.cleanup
      ≡ none)
    × (remaining_debt small_sink
          (finish_hard_failure small_sink (calls small_sink typed_operation typed) (external 1)).0
        ≡ 0)
failure-releases_all_example =
    failure-releases_all small_sink small_sink_laws 7 shift_held calm shift_frozen none
      empty_session (λ d t. refl) (λ d. refl) typed (external 1)

reported_outcome_holds_example :
    let done =
      finish_with_restore small_sink (calls small_sink typed_operation typed) soft_cancelled in
    Failed small_sink done
    ⊎ (Clean small_sink soft_cancelled done
        × ((t : ℕ)
            → small_sink_laws.IsDown done.0.sink t
            → In t (owned_tokens done.0.restored.entries) ⊎ small_sink_laws.IsDown shift_held t))
reported_outcome_holds_example =
    reported_outcome_holds small_sink small_sink_laws 7 shift_held calm shift_frozen none
      empty_session typed soft_cancelled (ground arith)

abbrev release_of : ℕ → Key → PhysicalReleaseCommit
release_of n key = record { generation = 1; sequence = n; key = key }

-- The second commit is a repetition, and the third comes too late.
abbrev releases : List PhysicalReleaseCommit
releases =
    release_of 4 key_leftshift
    ∷ release_of 4 key_leftshift
    ∷ release_of 3 key_leftctrl
    ∷ release_of 6 key_leftctrl
    ∷ []

accepted_releases : accepted empty_session releases ≡ 4 ∷ 6 ∷ []
unfolding accepted commit_physical_release validate_physical_release find_entry
accepted_releases = refl

accepted-RisesAbove_example : RisesAbove 0 (accepted empty_session releases)
accepted-RisesAbove_example = accepted-RisesAbove empty_session releases
