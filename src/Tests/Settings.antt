-- ===== src/Tests/Settings.antt =====
-- Hotkeys, settings and their patches at concrete values.
use open_switcher.Prelude.{
  ℕ_discrete, ◌≡◌, ◌≢◌, ◌↔◌, ◌≤◌, refl, arith, true, false, none, some, ok, err, leb, if◌then◌else◌,
  u64_max,
}
use open_switcher.Switch.Keymap.{codes}
use open_switcher.Model.Hotkeys.{
  HotkeySpec, HotkeySpec-discrete, f12, modifiers, parse, compact, default_manual_correction_hotkey,
  default_selected_text_hotkey, unsupported_modifier,
}
use open_switcher.Model.Names.{trim}
use open_switcher.Model.HotkeyLaws.{compact_text, parse-compact}
use open_switcher.Model.Combos.{
  LayoutSwitchCombo-discrete, UndoKey, SelectedTextHotkey, parse_undo_key,
  parse_selected_text_hotkey, hotkey_of_undo, hotkey_of_selected,
}
use open_switcher.Model.ComboLaws.{parse-migrates}
use open_switcher.Model.Schedule.{estimated_correction_schedule_ms}
use open_switcher.Model.ScheduleLaws.{exact_ms, estimated-exact_ms}
use open_switcher.Model.Settings.{
  Settings, validate, default_layout_switch, LayoutSwitchSetting-discrete,
  AutoDetectedLayoutSwitch-discrete, SystemContext-discrete,
}
use open_switcher.Model.Validation.{validate-accepts}
use open_switcher.Model.Patches.{Bool-discrete, between, received, apply_to}
use open_switcher.Model.PatchLaws.{Merged, apply_to-Merged}
use open_switcher.Model.PatchOrder.{apply_to-between}

abbrev shift_f12 : HotkeySpec
shift_f12 = record { modifiers = modifiers true false false; trigger = f12 }

parse-compact_example :
    (parse (codes " Shift-F12 ") ≡ ok shift_f12)
    ↔ (compact (trim (codes " Shift-F12 ")) ≡ compact_text shift_f12)
parse-compact_example = parse-compact (codes " Shift-F12 ") shift_f12

wrong_order : parse (codes "ctrl+shift+f9") ≡ err (unsupported_modifier (codes "ctrl+shift+f9"))
unfolding parse
wrong_order = refl

parse-migrates_example :
    ((key : UndoKey)
      → parse_undo_key (codes "ScrollLock") ≡ ok key
      → parse (codes "ScrollLock") ≡ ok (hotkey_of_undo key))
    × ((h : SelectedTextHotkey)
        → parse_selected_text_hotkey (codes "ScrollLock") ≡ ok h
        → parse (codes "ScrollLock") ≡ ok (hotkey_of_selected h))
parse-migrates_example = parse-migrates (codes "ScrollLock")

estimated-exact_ms_example :
    let exact = exact_ms 5 1 30 2 3 true in
    estimated_correction_schedule_ms 5 1 30 2 3 true
    ≡ (if leb exact u64_max then some exact else none)
estimated-exact_ms_example = estimated-exact_ms 5 1 30 2 3 true (omega arith)

estimated_total : estimated_correction_schedule_ms 5 1 30 2 3 true ≡ some 134
unfolding estimated_correction_schedule_ms
estimated_total = refl

abbrev base : Settings
base = record {
  auto_switch_enabled = true;
  fix_two_capitals = false;
  fix_accidental_caps_lock = false;
  layout_delay_ms = 30;
  manual_correction_hotkey = default_manual_correction_hotkey;
  selected_text_hotkey = default_selected_text_hotkey;
  layout_switch = default_layout_switch;
}

-- One patch sets the delay, the other the hotkey of the correction.
abbrev slower : Settings
slower = record base { layout_delay_ms = 90 }

abbrev rebound : Settings
rebound = record base { manual_correction_hotkey = shift_f12 }

abbrev both_changed : Settings
both_changed = record base { layout_delay_ms = 90; manual_correction_hotkey = shift_f12 }

validate-accepts_example : (validate base ≡ ok base) ↔ (
    (base ≡ base)
    × (base.layout_delay_ms ≤ 500)
    × (base.manual_correction_hotkey ≢ base.selected_text_hotkey))
validate-accepts_example = validate-accepts base base

slower_valid : validate slower ≡ ok slower
unfolding validate
slower_valid = refl

apply_to-between_example :
    (received (between base slower) ≡ ok (between base slower))
    × (apply_to (between base slower) base ≡ ok slower)
apply_to-between_example = apply_to-between base slower slower_valid

rebound_applied : apply_to (between base rebound) base ≡ ok rebound
unfolding apply_to between LayoutSwitchSetting-discrete LayoutSwitchCombo-discrete
    default_layout_switch AutoDetectedLayoutSwitch-discrete SystemContext-discrete
    HotkeySpec-discrete ℕ_discrete Bool-discrete
rebound_applied = refl

slower_then_rebound : apply_to (between base rebound) slower ≡ ok both_changed
unfolding apply_to between LayoutSwitchSetting-discrete LayoutSwitchCombo-discrete
    default_layout_switch AutoDetectedLayoutSwitch-discrete SystemContext-discrete
    HotkeySpec-discrete ℕ_discrete Bool-discrete
slower_then_rebound = refl

rebound_then_slower : apply_to (between base slower) rebound ≡ ok both_changed
unfolding apply_to between LayoutSwitchSetting-discrete LayoutSwitchCombo-discrete
    default_layout_switch AutoDetectedLayoutSwitch-discrete SystemContext-discrete
    HotkeySpec-discrete ℕ_discrete Bool-discrete
rebound_then_slower = refl

slower_applied : apply_to (between base slower) base ≡ ok slower
unfolding apply_to between LayoutSwitchSetting-discrete LayoutSwitchCombo-discrete
    default_layout_switch AutoDetectedLayoutSwitch-discrete SystemContext-discrete
    HotkeySpec-discrete ℕ_discrete Bool-discrete
slower_applied = refl

apply_to-Merged_example :
    Merged base rebound slower both_changed
    × (both_changed.layout_delay_ms ≤ 500)
    × (both_changed.manual_correction_hotkey ≢ both_changed.selected_text_hotkey)
apply_to-Merged_example = apply_to-Merged base rebound slower both_changed slower_then_rebound
