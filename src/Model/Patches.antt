-- ===== src/Model/Patches.antt =====
-- src/model.rs: `SettingsFieldMask`, and the patches of settings that the settings window sends.
use Prim.Native.Nat.{bit_and, bit_or}
use open_switcher.Prelude.{
  ℕ, Bool, true, false, not, ℕ_discrete, ◌==◌, if◌then◌else◌, Result, ok, err,
}
use open_switcher.Model.Hotkeys.{HotkeySpec-discrete}
use open_switcher.Model.Settings.{
  Settings, LayoutSwitchSetting-discrete, ValidationError, unknown_settings_patch_fields, validate,
}

abbrev pub auto_switch_enabled_bit : ℕ
auto_switch_enabled_bit = 1

abbrev pub fix_two_capitals_bit : ℕ
fix_two_capitals_bit = 2

abbrev pub fix_accidental_caps_lock_bit : ℕ
fix_accidental_caps_lock_bit = 4

abbrev pub layout_delay_ms_bit : ℕ
layout_delay_ms_bit = 8

abbrev pub manual_correction_hotkey_bit : ℕ
manual_correction_hotkey_bit = 16

abbrev pub selected_text_hotkey_bit : ℕ
selected_text_hotkey_bit = 32

abbrev pub layout_switch_bit : ℕ
layout_switch_bit = 64

abbrev pub all_bits : ℕ
all_bits = 127

-- `!Self::ALL_BITS`, on 16 bits.
abbrev pub unknown_bits : ℕ
unknown_bits = 65408

unfoldable pub contains : ℕ → ℕ → Bool
contains mask field = not (bit_and mask field == 0)

-- `insert`, under the condition of its call.
unfoldable pub insert_if : Bool → ℕ → ℕ → ℕ
insert_if c field mask = if c then bit_or mask field else mask

unfoldable pub validate_mask : ℕ → Result ℕ ValidationError
validate_mask mask =
    if bit_and mask unknown_bits == 0
    then ok mask
    else err (unknown_settings_patch_fields (bit_and mask unknown_bits))

-- `SettingsPatchDto` has the same fields.
pub record SettingsPatch : Type 0 where
  pub changed : ℕ
  pub values : Settings

unfoldable pub Bool-discrete : Discrete Bool
Bool-discrete = hlevel

-- `!=`.
abbrev pub differ : {A : Type 0} → Discrete A → A → A → Bool
differ d a b = elim (d a b) [ yes _ ↦ false | no _ ↦ true ]

-- The seven tests of `between`, in their order, from the innermost call on.
unfoldable pub changed_mask : Bool → Bool → Bool → Bool → Bool → Bool → Bool → ℕ
unfolding insert_if
changed_mask b0 b1 b2 b3 b4 b5 b6 = insert_if b6 layout_switch_bit (
    insert_if b5 selected_text_hotkey_bit (
      insert_if b4 manual_correction_hotkey_bit (
        insert_if b3 layout_delay_ms_bit (
          insert_if b2 fix_accidental_caps_lock_bit
            (insert_if b1 fix_two_capitals_bit (insert_if b0 auto_switch_enabled_bit 0))))))

unfoldable pub between : Settings → Settings → SettingsPatch
unfolding changed_mask
between base desired = record {
  changed =
      changed_mask (differ Bool-discrete base.auto_switch_enabled desired.auto_switch_enabled)
        (differ Bool-discrete base.fix_two_capitals desired.fix_two_capitals)
        (differ Bool-discrete base.fix_accidental_caps_lock desired.fix_accidental_caps_lock)
        (differ ℕ_discrete base.layout_delay_ms desired.layout_delay_ms)
        (differ HotkeySpec-discrete base.manual_correction_hotkey desired.manual_correction_hotkey)
        (differ HotkeySpec-discrete base.selected_text_hotkey desired.selected_text_hotkey)
        (differ LayoutSwitchSetting-discrete base.layout_switch desired.layout_switch);
  values = desired;
}

unfoldable pub all_fields : Settings → SettingsPatch
all_fields values = record { changed = all_bits; values = values }

-- The writes of `apply_to`, each to its own field.
unfoldable pub merge : SettingsPatch → Settings → Settings
unfolding contains
merge p current = record {
  auto_switch_enabled =
      if contains p.changed auto_switch_enabled_bit
      then p.values.auto_switch_enabled
      else current.auto_switch_enabled;
  fix_two_capitals =
      if contains p.changed fix_two_capitals_bit
      then p.values.fix_two_capitals
      else current.fix_two_capitals;
  fix_accidental_caps_lock =
      if contains p.changed fix_accidental_caps_lock_bit
      then p.values.fix_accidental_caps_lock
      else current.fix_accidental_caps_lock;
  layout_delay_ms =
      if contains p.changed layout_delay_ms_bit
      then p.values.layout_delay_ms
      else current.layout_delay_ms;
  manual_correction_hotkey =
      if contains p.changed manual_correction_hotkey_bit
      then p.values.manual_correction_hotkey
      else current.manual_correction_hotkey;
  selected_text_hotkey =
      if contains p.changed selected_text_hotkey_bit
      then p.values.selected_text_hotkey
      else current.selected_text_hotkey;
  layout_switch =
      if contains p.changed layout_switch_bit
      then p.values.layout_switch
      else current.layout_switch;
}

unfoldable pub apply_to : SettingsPatch → Settings → Result Settings ValidationError
unfolding merge validate
apply_to p current = validate (merge p current)

-- `try_from` of what was received: the values are not checked before they are applied.
unfoldable pub received : SettingsPatch → Result SettingsPatch ValidationError
unfolding validate_mask
received dto = elim (validate_mask dto.changed) [
  | ok mask ↦ ok record { changed = mask; values = dto.values }
  | err e ↦ err e
]
