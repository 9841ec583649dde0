-- ===== src/Synthetic/SessionLedger.antt =====
-- src/daemon/synthetic_input.rs, `SessionModifierLedger`: the modifiers that the daemon holds down
-- for the user after an operation, until the physical key comes up. `T` is the sink's token.
use mathlib.Core.Logic.{ite}
use open_switcher.Key.{Key, Key-discrete}
use open_switcher.Prelude.{
  ℕ, Bool, true, false, not, List, [], ◌∷◌, ◌++◌, Option, none, some, leb, ◌==◌, if◌then◌else◌, ok,
  err, String, is_some,
}
use open_switcher.Synthetic.Errors.{
  input_safety, session_modifier_protocol_violation, Fallible, Status,
}
use open_switcher.Synthetic.Modifiers.{modifier_bit}

pub data SessionModifierState : Type 0 where
  owned_down temporarily_released restoring_possibly_down : SessionModifierState

unfoldable pub SessionModifierState-discrete : Discrete SessionModifierState
SessionModifierState-discrete = hlevel

abbrev pub may_be_down : SessionModifierState → Bool
may_be_down owned_down = true
may_be_down temporarily_released = false
may_be_down restoring_possibly_down = true

pub record PhysicalReleaseCommit : Type 0 where
  pub generation : ℕ
  pub sequence : ℕ
  pub key : Key

pub record SessionModifierDebt (T : Type 0) : Type 0 where
  pub key : Key
  pub token : T
  pub state : SessionModifierState

pub record SessionModifierLedger (T : Type 0) : Type 0 where
  pub generation : ℕ
  pub last_release_sequence : ℕ
  pub entries : List (SessionModifierDebt T)

unfoldable pub new_session : (T : Type 0) → ℕ → SessionModifierLedger T
new_session T generation = record {
  generation = generation;
  last_release_sequence = 0;
  entries = [];
}

module _ {T : Type 0} where
  -- `iter().find(|entry| entry.key == key)`, and what is left after a write to that entry and after
  -- its removal.
  unfoldable pub find_entry : Key → List (SessionModifierDebt T) → Option (SessionModifierDebt T)
  find_entry key [] = none
  find_entry key (e ∷ es) = ite (Key-discrete e.key key) (some e) (find_entry key es)

  unfoldable pub write_entry :
      Key
      → (SessionModifierDebt T → SessionModifierDebt T)
      → List (SessionModifierDebt T)
      → List (SessionModifierDebt T)
  write_entry key f [] = []
  write_entry key f (e ∷ es) = ite (Key-discrete e.key key) (f e ∷ es) (e ∷ write_entry key f es)

  unfoldable pub remove_entry : Key → List (SessionModifierDebt T) → List (SessionModifierDebt T)
  remove_entry key [] = []
  remove_entry key (e ∷ es) = ite (Key-discrete e.key key) es (e ∷ remove_entry key es)

module _ {T : Type 0} where
  abbrev pub protocol_error : {A : Type 0} → SessionModifierLedger T → String → Fallible A
  protocol_error l context =
      err (input_safety (session_modifier_protocol_violation l.generation context))

  abbrev pub with_entries :
      SessionModifierLedger T → List (SessionModifierDebt T) → SessionModifierLedger T
  with_entries l es = record l { entries = es }

module _ {T : Type 0} where
  abbrev pub adopted : Key → T → SessionModifierDebt T
  adopted key token = record { key = key; token = token; state = owned_down }

  unfoldable pub adopt_restored :
      SessionModifierLedger T → Key → T → SessionModifierLedger T × Status
  adopt_restored l key token =
      if not (is_some (modifier_bit key))
      then (l, protocol_error l "session debt requires a modifier key")
      else elim (find_entry key l.entries) [
        | some entry ↦
            ite (SessionModifierState-discrete entry.state restoring_possibly_down)
              (
                with_entries l (
                    write_entry key (λ e. record e { token = token; state = owned_down })
                      l.entries),
                ok tt,
              )
              (l, protocol_error l "restored modifier already has an incompatible session debt")
        | none ↦ (with_entries l (l.entries ++ adopted key token ∷ []), ok tt)
      ]

  unfoldable pub transition :
      SessionModifierLedger T
      → Key
      → SessionModifierState
      → SessionModifierState
      → String
      → SessionModifierLedger T × Status
  transition l key expected next context = elim (find_entry key l.entries) [
    | none ↦ (l, protocol_error l "modifier has no session debt")
    | some entry ↦
        ite (SessionModifierState-discrete entry.state expected)
          (with_entries l (write_entry key (λ e. record e { state = next }) l.entries), ok tt)
          (l, protocol_error l context)
  ]

  unfoldable pub mark_temporarily_released :
      SessionModifierLedger T → Key → SessionModifierLedger T × Status
  unfolding transition
  mark_temporarily_released l key =
      transition l key owned_down temporarily_released
        "only an owned-down modifier can be temporarily released"

  unfoldable pub mark_restoring : SessionModifierLedger T → Key → SessionModifierLedger T × Status
  unfolding transition
  mark_restoring l key =
      transition l key temporarily_released restoring_possibly_down
        "only a temporarily released modifier can begin restoring"

  unfoldable pub mark_owned_down : SessionModifierLedger T → Key → SessionModifierLedger T × Status
  unfolding transition
  mark_owned_down l key =
      transition l key restoring_possibly_down owned_down
        "only a restoring modifier can become owned-down"

  -- The entry whose place `validate_physical_release` returns.
  unfoldable pub validate_physical_release :
      SessionModifierLedger T → PhysicalReleaseCommit → Fallible (Option (SessionModifierDebt T))
  validate_physical_release l commit =
      if not (commit.generation == l.generation)
      then protocol_error l "physical release generation does not match"
      else if leb commit.sequence l.last_release_sequence
      then protocol_error l "physical release sequence is stale"
      else elim (find_entry commit.key l.entries) [
        | none ↦ ok none
        | some entry ↦
            ite (SessionModifierState-discrete entry.state owned_down) (ok (some entry))
              (protocol_error l "physical release cannot commit an in-flight modifier transition")
      ]

  -- `index.map(|index| self.entries.remove(index).token)`.
  abbrev pub committed :
      SessionModifierLedger T
      → PhysicalReleaseCommit
      → Fallible (Option (SessionModifierDebt T))
      → SessionModifierLedger T × Fallible (Option T)
  committed l commit (err e) = (l, err e)
  committed l commit (ok none) = (record l { last_release_sequence = commit.sequence }, ok none)
  committed l commit (ok (some entry)) = (
    record l {
      last_release_sequence = commit.sequence;
      entries = remove_entry commit.key l.entries;
    },
    ok (some entry.token),
  )

  unfoldable pub commit_physical_release :
      SessionModifierLedger T
      → PhysicalReleaseCommit
      → SessionModifierLedger T × Fallible (Option T)
  commit_physical_release l commit = committed l commit (validate_physical_release l commit)

  unfoldable pub preview_physical_release :
      SessionModifierLedger T → PhysicalReleaseCommit → Fallible (Option T)
  preview_physical_release l commit = elim (validate_physical_release l commit) [
    | err e ↦ err e
    | ok none ↦ ok none
    | ok (some entry) ↦ ok (some entry.token)
  ]

  unfoldable pub contains : SessionModifierLedger T → Key → Bool
  contains l key = is_some (find_entry key l.entries)

  unfoldable pub authorize_synthetic_down : SessionModifierLedger T → Key → Status
  authorize_synthetic_down l key = elim (find_entry key l.entries) [
    | none ↦ ok tt
    | some entry ↦
        ite (SessionModifierState-discrete entry.state owned_down)
          (protocol_error l "synthetic down cannot cross an owned session modifier") (ok tt)
  ]

  unfoldable pub state_of : SessionModifierLedger T → Key → Option SessionModifierState
  state_of l key = elim (find_entry key l.entries) [ none ↦ none | some entry ↦ some entry.state ]

  unfoldable pub token_for_key : SessionModifierLedger T → Key → Option T
  token_for_key l key = elim (find_entry key l.entries) [
    | none ↦ none
    | some entry ↦ some entry.token
  ]

  -- The filter and the map of `release_only_snapshot`.
  unfoldable pub down_tokens : List (SessionModifierDebt T) → List T
  down_tokens [] = []
  down_tokens (e ∷ es) = if may_be_down e.state then e.token ∷ down_tokens es else down_tokens es

  unfoldable pub release_only_snapshot : SessionModifierLedger T → List T
  unfolding down_tokens
  release_only_snapshot l = down_tokens l.entries

  -- `RestoredModifierTarget`: the part before the key goes down again.
  unfoldable pub begin_restore : SessionModifierLedger T → Key → SessionModifierLedger T × Status
  begin_restore l key = if contains l key then mark_restoring l key else (l, ok tt)
