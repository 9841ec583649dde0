-- ===== src/Keyboard/Modifiers.antt =====
-- src/daemon/keyboard.rs: `ModifierState`, what the physical modifiers and Caps Lock are at the moment,
-- and the byte in which `SharedModifierState` keeps the modifiers for other threads.
use Prim.Native.Nat.{bit_and, bit_or}
use open_switcher.Prelude.{ℕ, ◌*◌, Bool, true, false, not, xor, ◌&&◌, ◌||◌, ◌==◌}
use open_switcher.Key.{
  Key, key_leftctrl, key_rightctrl, key_leftshift, key_rightshift, key_leftalt, key_rightalt,
  key_leftmeta, key_rightmeta, key_capslock, key_space,
}
use open_switcher.Model.Combos.{
  LayoutSwitchCombo, ctrl_shift, alt_shift, caps_lock, ctrl_space, super_space,
  left_ctrl_left_shift, right_ctrl_right_shift, left_alt_left_shift, right_alt_right_shift,
}

pub record ModifierState : Type 0 where
  pub left_ctrl : Bool
  pub right_ctrl : Bool
  pub left_shift : Bool
  pub right_shift : Bool
  pub left_alt : Bool
  pub right_alt : Bool
  pub left_meta : Bool
  pub right_meta : Bool
  pub caps_lock_active : Bool

abbrev pub pressed : ℕ → Bool
pressed value = value == 1 || value == 2

-- The value of an event is 0 for a release, 1 for a press and 2 for a repeat.
unfoldable pub update : Key → ℕ → ModifierState → ModifierState
update key_leftctrl value m = record m { left_ctrl = pressed value }
update key_rightctrl value m = record m { right_ctrl = pressed value }
update key_leftshift value m = record m { left_shift = pressed value }
update key_rightshift value m = record m { right_shift = pressed value }
update key_leftalt value m = record m { left_alt = pressed value }
update key_rightalt value m = record m { right_alt = pressed value }
update key_leftmeta value m = record m { left_meta = pressed value }
update key_rightmeta value m = record m { right_meta = pressed value }
update key_capslock value m = record m { caps_lock_active = xor (value == 1) m.caps_lock_active }
update _ value m = m

module _ (m : ModifierState) where
  abbrev pub is_shift_pressed : Bool
  is_shift_pressed = m.left_shift || m.right_shift

  abbrev pub is_ctrl_pressed : Bool
  is_ctrl_pressed = m.left_ctrl || m.right_ctrl

  abbrev pub is_alt_pressed : Bool
  is_alt_pressed = m.left_alt || m.right_alt

  abbrev pub is_meta_pressed : Bool
  is_meta_pressed = m.left_meta || m.right_meta

  unfoldable pub keeps_layout_switch_combo_active : LayoutSwitchCombo → Bool
  keeps_layout_switch_combo_active ctrl_shift = is_ctrl_pressed && is_shift_pressed
  keeps_layout_switch_combo_active alt_shift = is_alt_pressed && is_shift_pressed
  keeps_layout_switch_combo_active caps_lock = false
  keeps_layout_switch_combo_active ctrl_space = is_ctrl_pressed
  keeps_layout_switch_combo_active super_space = is_meta_pressed
  keeps_layout_switch_combo_active left_ctrl_left_shift = m.left_ctrl && m.left_shift
  keeps_layout_switch_combo_active right_ctrl_right_shift = m.right_ctrl && m.right_shift
  keeps_layout_switch_combo_active left_alt_left_shift = m.left_alt && m.left_shift
  keeps_layout_switch_combo_active right_alt_right_shift = m.right_alt && m.right_shift

abbrev is_left_ctrl : Key → Bool
is_left_ctrl key_leftctrl = true
is_left_ctrl _ = false

abbrev is_right_ctrl : Key → Bool
is_right_ctrl key_rightctrl = true
is_right_ctrl _ = false

abbrev is_left_shift : Key → Bool
is_left_shift key_leftshift = true
is_left_shift _ = false

abbrev is_right_shift : Key → Bool
is_right_shift key_rightshift = true
is_right_shift _ = false

abbrev is_left_alt : Key → Bool
is_left_alt key_leftalt = true
is_left_alt _ = false

abbrev is_right_alt : Key → Bool
is_right_alt key_rightalt = true
is_right_alt _ = false

abbrev is_space : Key → Bool
is_space key_space = true
is_space _ = false

abbrev is_capslock : Key → Bool
is_capslock key_capslock = true
is_capslock _ = false

abbrev is_shift : Key → Bool
is_shift k = is_left_shift k || is_right_shift k

-- The key that may complete a combination, and what must be held with it.
abbrev pub completes : LayoutSwitchCombo → Key → Bool
completes ctrl_shift k = is_left_ctrl k || is_right_ctrl k || is_shift k
completes alt_shift k = is_left_alt k || is_right_alt k || is_shift k
completes caps_lock k = is_capslock k
completes ctrl_space k = is_space k
completes super_space k = is_space k
completes left_ctrl_left_shift k = is_left_ctrl k || is_left_shift k
completes right_ctrl_right_shift k = is_right_ctrl k || is_right_shift k
completes left_alt_left_shift k = is_left_alt k || is_left_shift k
completes right_alt_right_shift k = is_right_alt k || is_right_shift k

unfoldable pub matches_layout_switch_combo : ModifierState → LayoutSwitchCombo → Key → ℕ → Bool
matches_layout_switch_combo m ctrl_shift k value =
    value == 1 && completes ctrl_shift k && is_ctrl_pressed m && is_shift_pressed m
matches_layout_switch_combo m alt_shift k value =
    value == 1 && completes alt_shift k && is_alt_pressed m && is_shift_pressed m
matches_layout_switch_combo m caps_lock k value = value == 1 && completes caps_lock k
matches_layout_switch_combo m ctrl_space k value =
    value == 1 && completes ctrl_space k && is_ctrl_pressed m
matches_layout_switch_combo m super_space k value =
    value == 1 && completes super_space k && is_meta_pressed m
matches_layout_switch_combo m left_ctrl_left_shift k value =
    value == 1 && completes left_ctrl_left_shift k && m.left_ctrl && m.left_shift
matches_layout_switch_combo m right_ctrl_right_shift k value =
    value == 1 && completes right_ctrl_right_shift k && m.right_ctrl && m.right_shift
matches_layout_switch_combo m left_alt_left_shift k value =
    value == 1 && completes left_alt_left_shift k && m.left_alt && m.left_shift
matches_layout_switch_combo m right_alt_right_shift k value =
    value == 1 && completes right_alt_right_shift k && m.right_alt && m.right_shift

abbrev as_u8 : Bool → ℕ
as_u8 true = 1
as_u8 false = 0

unfoldable pub to_bits : ModifierState → ℕ
to_bits m =
    bit_or
      (bit_or
        (bit_or
          (bit_or
            (bit_or
              (bit_or (bit_or (as_u8 m.left_ctrl) (as_u8 m.right_ctrl * 2))
                (as_u8 m.left_shift * 4))
              (as_u8 m.right_shift * 8))
            (as_u8 m.left_alt * 16))
          (as_u8 m.right_alt * 32))
        (as_u8 m.left_meta * 64))
      (as_u8 m.right_meta * 128)

abbrev has_bit : ℕ → ℕ → Bool
has_bit bits mask = not (bit_and bits mask == 0)

unfoldable pub from_bits : ℕ → ModifierState
from_bits bits = record {
  left_ctrl = has_bit bits 1;
  right_ctrl = has_bit bits 2;
  left_shift = has_bit bits 4;
  right_shift = has_bit bits 8;
  left_alt = has_bit bits 16;
  right_alt = has_bit bits 32;
  left_meta = has_bit bits 64;
  right_meta = has_bit bits 128;
  caps_lock_active = false;
}
