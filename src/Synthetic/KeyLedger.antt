-- ===== src/Synthetic/KeyLedger.antt =====
-- src/daemon/synthetic_input.rs, `SyntheticKeyLedger`: the presses of one operation that may be
-- down. `T` is the sink's token. A method that takes `&mut self` returns the new ledger.
use open_switcher.Prelude.{
  ℕ, Bool, true, false, List, [], ◌∷◌, ◌++◌, Option, none, some, length, ◌==◌, if◌then◌else◌, ok,
  err, checked_add, String,
}
use mathlib.Core.List.{reverse}
use open_switcher.Synthetic.Errors.{input_safety, invariant, Fallible, Status}

pub data DownState : Type 0 where
  attempting_down possibly_down : DownState

abbrev pub is_possibly_down : DownState → Bool
is_possibly_down attempting_down = false
is_possibly_down possibly_down = true

-- A `PressId` is its number.
pub record SyntheticDebt (T : Type 0) : Type 0 where
  pub press_id : ℕ
  pub token : T
  pub state : DownState

pub record SyntheticKeyLedger (T : Type 0) : Type 0 where
  pub next_press_id : ℕ
  pub debts : List (SyntheticDebt T)
  pub terminal : Bool

abbrev pub broken : {A : Type 0} → String → Fallible A
broken context = err (input_safety (invariant context))

module _ {T : Type 0} where
  -- `iter().find(|debt| debt.press_id == press_id)`.
  unfoldable pub find_debt : ℕ → List (SyntheticDebt T) → Option (SyntheticDebt T)
  find_debt id [] = none
  find_debt id (d ∷ ds) = if d.press_id == id then some d else find_debt id ds

  -- What `find` and a write through `iter_mut` leave: the first debt with that id is marked.
  unfoldable pub mark_debt : ℕ → List (SyntheticDebt T) → List (SyntheticDebt T)
  mark_debt id [] = []
  mark_debt id (d ∷ ds) =
      if d.press_id == id then record d { state = possibly_down } ∷ ds else d ∷ mark_debt id ds

  -- What `position` and `remove` leave: the first debt with that id is gone.
  unfoldable pub remove_debt : ℕ → List (SyntheticDebt T) → List (SyntheticDebt T)
  remove_debt id [] = []
  remove_debt id (d ∷ ds) = if d.press_id == id then ds else d ∷ remove_debt id ds

module _ {T : Type 0} where
  abbrev pub with_debts : SyntheticKeyLedger T → List (SyntheticDebt T) → SyntheticKeyLedger T
  with_debts l ds = record l { debts = ds }

unfoldable pub new_ledger : (T : Type 0) → SyntheticKeyLedger T
new_ledger T = record { next_press_id = 1; debts = []; terminal = false }

module _ {T : Type 0} where
  unfoldable pub begin_down : SyntheticKeyLedger T → T → SyntheticKeyLedger T × Fallible ℕ
  begin_down l token =
      if l.terminal
      then (l, broken "mutation after terminal state")
      else elim (checked_add l.next_press_id 1) [
        | none ↦ (l, broken "press id exhausted")
        | some next ↦ (
          record l {
            next_press_id = next;
            debts =
                l.debts
                ++ record { press_id = l.next_press_id; token = token; state = attempting_down }
                  ∷ [];
          },
          ok l.next_press_id,
        )
      ]

  unfoldable pub mark_possibly_down : SyntheticKeyLedger T → ℕ → SyntheticKeyLedger T × Status
  mark_possibly_down l id = elim (find_debt id l.debts) [
    | some d ↦ (with_debts l (mark_debt id l.debts), ok tt)
    | none ↦ (l, broken "press id does not belong to ledger")
  ]

  unfoldable pub acknowledge_up : SyntheticKeyLedger T → ℕ → SyntheticKeyLedger T × Status
  acknowledge_up l id = elim (find_debt id l.debts) [
    | some d ↦ (with_debts l (remove_debt id l.debts), ok tt)
    | none ↦ (l, broken "release id does not belong to ledger")
  ]

  unfoldable pub transfer : SyntheticKeyLedger T → ℕ → SyntheticKeyLedger T × Fallible T
  transfer l id =
      if l.terminal
      then (l, broken "transfer after terminal state")
      else elim (find_debt id l.debts) [
        | none ↦ (l, broken "transfer id does not belong to ledger")
        | some d ↦
            if is_possibly_down d.state
            then (with_debts l (remove_debt id l.debts), ok d.token)
            else (l, broken "only a possibly-down token can be transferred")
      ]

  unfoldable pub cancel_unattempted_down : SyntheticKeyLedger T → ℕ → SyntheticKeyLedger T × Status
  cancel_unattempted_down l id = elim (find_debt id l.debts) [
    | none ↦ (l, broken "cancelled press id does not belong to ledger")
    | some d ↦
        if is_possibly_down d.state
        then (l, broken "only an unattempted down can be cancelled")
        else (with_debts l (remove_debt id l.debts), ok tt)
  ]

  unfoldable pub begin_terminal : SyntheticKeyLedger T → SyntheticKeyLedger T
  begin_terminal l = record l { terminal = true }

  unfoldable pub token_of : SyntheticKeyLedger T → ℕ → Fallible T
  token_of l id = elim (find_debt id l.debts) [
    | some d ↦ ok d.token
    | none ↦ broken "release id does not belong to ledger"
  ]

  abbrev pub reverse_snapshot : SyntheticKeyLedger T → List (SyntheticDebt T)
  reverse_snapshot l = reverse l.debts

  abbrev pub debt_count : SyntheticKeyLedger T → ℕ
  debt_count l = length l.debts
