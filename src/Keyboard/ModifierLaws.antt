-- ===== src/Keyboard/ModifierLaws.antt =====
-- The modifiers after any events, and what their byte keeps.
use open_switcher.Prelude.{ℕ, Bool, true, false, ◌≡◌, ◌≢◌, refl, arith}
use open_switcher.Key.{Key}
use open_switcher.Model.Combos.{LayoutSwitchCombo, caps_lock}
use open_switcher.Model.Hotkeys.{same_bool}
use open_switcher.Model.PatchBits.{both, both_sound, each_mask, each_mask_sound}
use open_switcher.Model.Validation.{same_bool-eq}
use open_switcher.Keyboard.Modifiers.{
  ModifierState, keeps_layout_switch_combo_active, matches_layout_switch_combo, to_bits, from_bits,
}

-- A state without Caps Lock, by its modifiers.
abbrev modifiers_of : Bool → Bool → Bool → Bool → Bool → Bool → Bool → Bool → ModifierState
modifiers_of a b c d e f g h = record {
  left_ctrl = a;
  right_ctrl = b;
  left_shift = c;
  right_shift = d;
  left_alt = e;
  right_alt = f;
  left_meta = g;
  right_meta = h;
  caps_lock_active = false;
}

abbrev through : ModifierState → ModifierState
through m = from_bits (to_bits m)

abbrev same_at :
    (ModifierState → Bool) → Bool → Bool → Bool → Bool → Bool → Bool → Bool → Bool → Bool
same_at field a b c d e f g h =
    let m = modifiers_of a b c d e f g h in same_bool (field (through m)) (field m)

-- A field of every state is the same after the byte.
abbrev same_after : (ModifierState → Bool) → Bool
same_after field = both λ a. each_mask (same_at field a)

module _ (m : ModifierState) where
  field_kept :
      (field : ModifierState → Bool)
      → same_after field ≡ true
      → field (through (record m { caps_lock_active = false }))
        ≡ field (record m { caps_lock_active = false })
  field_kept field table = same_bool-eq _ _ (
      each_mask_sound (same_at field m.left_ctrl) m.right_ctrl m.left_shift m.right_shift m.left_alt
        m.right_alt m.left_meta m.right_meta
        (both_sound (λ x. each_mask (same_at field x)) m.left_ctrl table))

left_ctrl_table : same_after (λ m. m.left_ctrl) ≡ true
unfolding to_bits from_bits same_bool
left_ctrl_table = refl

right_ctrl_table : same_after (λ m. m.right_ctrl) ≡ true
unfolding to_bits from_bits same_bool
right_ctrl_table = refl

left_shift_table : same_after (λ m. m.left_shift) ≡ true
unfolding to_bits from_bits same_bool
left_shift_table = refl

right_shift_table : same_after (λ m. m.right_shift) ≡ true
unfolding to_bits from_bits same_bool
right_shift_table = refl

left_alt_table : same_after (λ m. m.left_alt) ≡ true
unfolding to_bits from_bits same_bool
left_alt_table = refl

right_alt_table : same_after (λ m. m.right_alt) ≡ true
unfolding to_bits from_bits same_bool
right_alt_table = refl

left_meta_table : same_after (λ m. m.left_meta) ≡ true
unfolding to_bits from_bits same_bool
left_meta_table = refl

right_meta_table : same_after (λ m. m.right_meta) ≡ true
unfolding to_bits from_bits same_bool
right_meta_table = refl

-- The byte of the modifiers keeps all of them, and forgets Caps Lock.
pub from_bits-to_bits :
    (m : ModifierState) → from_bits (to_bits m) ≡ record m { caps_lock_active = false }
unfolding to_bits from_bits
from_bits-to_bits m = λ i. record {
  left_ctrl = field_kept m (λ n. n.left_ctrl) left_ctrl_table i;
  right_ctrl = field_kept m (λ n. n.right_ctrl) right_ctrl_table i;
  left_shift = field_kept m (λ n. n.left_shift) left_shift_table i;
  right_shift = field_kept m (λ n. n.right_shift) right_shift_table i;
  left_alt = field_kept m (λ n. n.left_alt) left_alt_table i;
  right_alt = field_kept m (λ n. n.right_alt) right_alt_table i;
  left_meta = field_kept m (λ n. n.left_meta) left_meta_table i;
  right_meta = field_kept m (λ n. n.right_meta) right_meta_table i;
  caps_lock_active = false;
}

keeps_without_caps :
    (m : ModifierState) (combo : LayoutSwitchCombo)
    → keeps_layout_switch_combo_active (record m { caps_lock_active = false }) combo
      ≡ keeps_layout_switch_combo_active m combo
unfolding keeps_layout_switch_combo_active
keeps_without_caps m combo = ground arith

matches-keeps :
    (m : ModifierState) (combo : LayoutSwitchCombo) (key : Key) (value : ℕ)
    → matches_layout_switch_combo m combo key value ≡ true
    → combo ≢ caps_lock
    → keeps_layout_switch_combo_active m combo ≡ true
unfolding matches_layout_switch_combo keeps_layout_switch_combo_active
matches-keeps m combo key value h n = ground arith

-- A combination other than Caps Lock that a press completes is active in the modifiers that other
-- threads read from the byte.
pub matches-keeps_shared :
    (m : ModifierState) (combo : LayoutSwitchCombo) (key : Key) (value : ℕ)
    → matches_layout_switch_combo m combo key value ≡ true
    → combo ≢ caps_lock
    → keeps_layout_switch_combo_active (from_bits (to_bits m)) combo ≡ true
matches-keeps_shared m combo key value h n =
    rw (from_bits-to_bits m, keeps_without_caps m combo) (matches-keeps m combo key value h n)
