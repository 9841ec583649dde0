-- ===== src/Synthetic/Modifiers.antt =====
-- src/daemon/synthetic_input.rs: the modifiers that the user holds, and those that an operation
-- lets go for a while.
use mathlib.Core.List.{reverse}
use mathlib.Core.Logic.{ite}
use Prim.Native.Nat.{bit_and, bit_or}
use open_switcher.Key.{Key, Key-discrete}
use open_switcher.Prelude.{
  ℕ, Bool, true, false, not, List, [], ◌∷◌, ◌++◌, Option, none, some, ◌==◌, if◌then◌else◌, ok, err,
}
use open_switcher.Synthetic.Errors.{input_safety, invariant, protocol_violation, Fallible, Status}

-- The `u16` of a `1 << k`.
unfoldable pub modifier_bit : Key → Option ℕ
modifier_bit Key.key_leftctrl = some 1
modifier_bit Key.key_rightctrl = some 2
modifier_bit Key.key_leftshift = some 4
modifier_bit Key.key_rightshift = some 8
modifier_bit Key.key_leftalt = some 16
modifier_bit Key.key_rightalt = some 32
modifier_bit Key.key_leftmeta = some 64
modifier_bit Key.key_rightmeta = some 128
modifier_bit _ = none

pub record FrozenPhysicalSnapshot : Type 0 where
  pub modifier_bits : ℕ
  pub caps_lock_active : Bool

-- The loop over `keys`, with the bits so far.
unfoldable pub pressed_bits : ℕ → List Key → Fallible ℕ
pressed_bits bits [] = ok bits
pressed_bits bits (key ∷ keys) = elim (modifier_bit key) [
  | none ↦ err (input_safety (invariant "frozen snapshot contains a non-modifier key"))
  | some bit ↦ pressed_bits (bit_or bits bit) keys
]

unfoldable pub from_pressed_modifiers : List Key → Bool → Fallible FrozenPhysicalSnapshot
from_pressed_modifiers keys caps_lock_active = elim (pressed_bits 0 keys) [
  | err e ↦ err e
  | ok bits ↦ ok (record { modifier_bits = bits; caps_lock_active = caps_lock_active })
]

unfoldable pub holds_modifier : FrozenPhysicalSnapshot → Key → Bool
holds_modifier snapshot key = elim (modifier_bit key) [
  | none ↦ false
  | some bit ↦ not (bit_and snapshot.modifier_bits bit == 0)
]

-- `temporarily_released`, in the order of the releases.
abbrev pub PhysicalRestorePlan : Type 0
PhysicalRestorePlan = List Key

-- `Vec::contains`.
unfoldable pub contains_key : List Key → Key → Bool
contains_key [] key = false
contains_key (k ∷ ks) key = ite (Key-discrete k key) true (contains_key ks key)

unfoldable pub record_release :
    ℕ → FrozenPhysicalSnapshot → PhysicalRestorePlan → Key → PhysicalRestorePlan × Status
record_release operation_id snapshot plan key =
    if not (holds_modifier snapshot key)
    then (
      plan,
      err (
          input_safety
            (protocol_violation operation_id "temporary release requires a frozen held modifier")),
    )
    else if contains_key plan key
    then (
      plan,
      err (
          input_safety
            (protocol_violation operation_id "modifier was already temporarily released")),
    )
    else (plan ++ key ∷ [], ok tt)

-- The latest release is restored first.
abbrev pub restore_order : PhysicalRestorePlan → List Key
restore_order plan = reverse plan
