-- ===== src/Model/Combos.antt =====
-- src/model.rs: `UndoKey`, `SelectedTextHotkey` and `LayoutSwitchCombo`, the older names of keys, which
-- are still read.
use open_switcher.Prelude.{
  ℕ, Bool, true, false, ◌&&◌, List, [], ◌∷◌, Option, none, some, String, Result, ok, err,
}
use open_switcher.Model.Names.{find_text}
use open_switcher.Model.Hotkeys
use open_switcher.Model.Hotkeys.{HotkeyTrigger, HotkeySpec, modifiers}

pub data UndoKey : Type 0 where
  pause f12 scroll_lock : UndoKey

pub data SelectedTextHotkey : Type 0 where
  shift_pause ctrl_pause alt_pause shift_f12 ctrl_f12 alt_f12 : SelectedTextHotkey
  shift_scroll_lock ctrl_scroll_lock alt_scroll_lock : SelectedTextHotkey

pub data LayoutSwitchCombo : Type 0 where
  ctrl_shift alt_shift caps_lock ctrl_space super_space : LayoutSwitchCombo
  left_ctrl_left_shift right_ctrl_right_shift : LayoutSwitchCombo
  left_alt_left_shift right_alt_right_shift : LayoutSwitchCombo

unfoldable pub LayoutSwitchCombo-discrete : Discrete LayoutSwitchCombo
LayoutSwitchCombo-discrete = hlevel

unfoldable pub as_str : UndoKey → String
as_str pause = "Pause"
as_str f12 = "F12"
as_str scroll_lock = "ScrollLock"

unfoldable pub trigger_key : SelectedTextHotkey → UndoKey
trigger_key shift_pause = pause
trigger_key ctrl_pause = pause
trigger_key alt_pause = pause
trigger_key shift_f12 = f12
trigger_key ctrl_f12 = f12
trigger_key alt_f12 = f12
trigger_key shift_scroll_lock = scroll_lock
trigger_key ctrl_scroll_lock = scroll_lock
trigger_key alt_scroll_lock = scroll_lock

unfoldable pub uses_shift : SelectedTextHotkey → Bool
uses_shift shift_pause = true
uses_shift shift_f12 = true
uses_shift shift_scroll_lock = true
uses_shift _ = false

unfoldable pub uses_ctrl : SelectedTextHotkey → Bool
uses_ctrl ctrl_pause = true
uses_ctrl ctrl_f12 = true
uses_ctrl ctrl_scroll_lock = true
uses_ctrl _ = false

unfoldable pub uses_alt : SelectedTextHotkey → Bool
uses_alt alt_pause = true
uses_alt alt_f12 = true
uses_alt alt_scroll_lock = true
uses_alt _ = false

unfoldable pub selected_value : SelectedTextHotkey → String
selected_value shift_pause = "ShiftPause"
selected_value ctrl_pause = "CtrlPause"
selected_value alt_pause = "AltPause"
selected_value shift_f12 = "ShiftF12"
selected_value ctrl_f12 = "CtrlF12"
selected_value alt_f12 = "AltF12"
selected_value shift_scroll_lock = "ShiftScrollLock"
selected_value ctrl_scroll_lock = "CtrlScrollLock"
selected_value alt_scroll_lock = "AltScrollLock"

unfoldable pub selected_label : SelectedTextHotkey → String
selected_label shift_pause = "Shift+Pause"
selected_label ctrl_pause = "Ctrl+Pause"
selected_label alt_pause = "Alt+Pause"
selected_label shift_f12 = "Shift+F12"
selected_label ctrl_f12 = "Ctrl+F12"
selected_label alt_f12 = "Alt+F12"
selected_label shift_scroll_lock = "Shift+ScrollLock"
selected_label ctrl_scroll_lock = "Ctrl+ScrollLock"
selected_label alt_scroll_lock = "Alt+ScrollLock"

unfoldable pub trigger_of : UndoKey → HotkeyTrigger
trigger_of pause = Hotkeys.pause
trigger_of f12 = Hotkeys.f12
trigger_of scroll_lock = Hotkeys.scroll_lock

unfoldable pub hotkey_of_undo : UndoKey → HotkeySpec
unfolding trigger_of
hotkey_of_undo key = record { modifiers = modifiers false false false; trigger = trigger_of key }

unfoldable pub hotkey_of_selected : SelectedTextHotkey → HotkeySpec
unfolding uses_shift uses_ctrl uses_alt trigger_of trigger_key
hotkey_of_selected h = record {
  modifiers = modifiers (uses_shift h) (uses_ctrl h) (uses_alt h);
  trigger = trigger_of (trigger_key h);
}

unfoldable pub combo_value : LayoutSwitchCombo → String
combo_value ctrl_shift = "CtrlShift"
combo_value alt_shift = "AltShift"
combo_value caps_lock = "CapsLock"
combo_value ctrl_space = "CtrlSpace"
combo_value super_space = "SuperSpace"
combo_value left_ctrl_left_shift = "LeftCtrlLeftShift"
combo_value right_ctrl_right_shift = "RightCtrlRightShift"
combo_value left_alt_left_shift = "LeftAltLeftShift"
combo_value right_alt_right_shift = "RightAltRightShift"

unfoldable pub combo_label : LayoutSwitchCombo → String
combo_label ctrl_shift = "Ctrl+Shift"
combo_label alt_shift = "Alt+Shift"
combo_label caps_lock = "CapsLock"
combo_label ctrl_space = "Ctrl+Space"
combo_label super_space = "Super+Space"
combo_label left_ctrl_left_shift = "Left Ctrl+Left Shift"
combo_label right_ctrl_right_shift = "Right Ctrl+Right Shift"
combo_label left_alt_left_shift = "Left Alt+Left Shift"
combo_label right_alt_right_shift = "Right Alt+Right Shift"

unfoldable pub xkb_option : LayoutSwitchCombo → String
xkb_option ctrl_shift = "grp:ctrl_shift_toggle"
xkb_option alt_shift = "grp:alt_shift_toggle"
xkb_option caps_lock = "grp:caps_toggle"
xkb_option ctrl_space = "grp:ctrl_space_toggle"
xkb_option super_space = "grp:win_space_toggle"
xkb_option left_ctrl_left_shift = "grp:lctrl_lshift_toggle"
xkb_option right_ctrl_right_shift = "grp:rctrl_rshift_toggle"
xkb_option left_alt_left_shift = "grp:lalt_lshift_toggle"
xkb_option right_alt_right_shift = "grp:ralt_rshift_toggle"

abbrev pub undo_names : List (String × UndoKey)
undo_names = ("Pause", pause) ∷ ("F12", f12) ∷ ("ScrollLock", scroll_lock) ∷ []

-- Two names in one arm are two rows.
abbrev pub selected_names : List (String × SelectedTextHotkey)
selected_names =
    ("ShiftPause", shift_pause)
    ∷ ("Shift+Pause", shift_pause)
    ∷ ("CtrlPause", ctrl_pause)
    ∷ ("Ctrl+Pause", ctrl_pause)
    ∷ ("AltPause", alt_pause)
    ∷ ("Alt+Pause", alt_pause)
    ∷ ("ShiftF12", shift_f12)
    ∷ ("Shift+F12", shift_f12)
    ∷ ("CtrlF12", ctrl_f12)
    ∷ ("Ctrl+F12", ctrl_f12)
    ∷ ("AltF12", alt_f12)
    ∷ ("Alt+F12", alt_f12)
    ∷ ("ShiftScrollLock", shift_scroll_lock)
    ∷ ("Shift+ScrollLock", shift_scroll_lock)
    ∷ ("CtrlScrollLock", ctrl_scroll_lock)
    ∷ ("Ctrl+ScrollLock", ctrl_scroll_lock)
    ∷ ("AltScrollLock", alt_scroll_lock)
    ∷ ("Alt+ScrollLock", alt_scroll_lock)
    ∷ []

abbrev pub combo_names : List (String × LayoutSwitchCombo)
combo_names =
    ("CtrlShift", ctrl_shift)
    ∷ ("Ctrl+Shift", ctrl_shift)
    ∷ ("AltShift", alt_shift)
    ∷ ("Alt+Shift", alt_shift)
    ∷ ("CapsLock", caps_lock)
    ∷ ("CtrlSpace", ctrl_space)
    ∷ ("Ctrl+Space", ctrl_space)
    ∷ ("SuperSpace", super_space)
    ∷ ("Super+Space", super_space)
    ∷ ("LeftCtrlLeftShift", left_ctrl_left_shift)
    ∷ ("Left Ctrl+Left Shift", left_ctrl_left_shift)
    ∷ ("RightCtrlRightShift", right_ctrl_right_shift)
    ∷ ("Right Ctrl+Right Shift", right_ctrl_right_shift)
    ∷ ("LeftAltLeftShift", left_alt_left_shift)
    ∷ ("Left Alt+Left Shift", left_alt_left_shift)
    ∷ ("RightAltRightShift", right_alt_right_shift)
    ∷ ("Right Alt+Right Shift", right_alt_right_shift)
    ∷ []

-- `from_str` of the three: a text that is no name is the error.
abbrev pub or_unsupported : {A : Type 0} → List ℕ → Option A → Result A (List ℕ)
or_unsupported value none = err value
or_unsupported value (some a) = ok a

unfoldable pub parse_undo_key : List ℕ → Result UndoKey (List ℕ)
unfolding find_text
parse_undo_key value = or_unsupported value (find_text undo_names value)

unfoldable pub parse_selected_text_hotkey : List ℕ → Result SelectedTextHotkey (List ℕ)
unfolding find_text
parse_selected_text_hotkey value = or_unsupported value (find_text selected_names value)

unfoldable pub parse_layout_switch_combo : List ℕ → Result LayoutSwitchCombo (List ℕ)
unfolding find_text
parse_layout_switch_combo value = or_unsupported value (find_text combo_names value)

-- `has_layout_switch_prefix_conflict`.
unfoldable pub has_layout_switch_prefix_conflict : HotkeySpec → LayoutSwitchCombo → Bool
has_layout_switch_prefix_conflict h ctrl_shift = h.modifiers.ctrl && h.modifiers.shift
has_layout_switch_prefix_conflict h alt_shift = h.modifiers.alt && h.modifiers.shift
has_layout_switch_prefix_conflict h left_ctrl_left_shift = h.modifiers.ctrl && h.modifiers.shift
has_layout_switch_prefix_conflict h right_ctrl_right_shift = h.modifiers.ctrl && h.modifiers.shift
has_layout_switch_prefix_conflict h left_alt_left_shift = h.modifiers.alt && h.modifiers.shift
has_layout_switch_prefix_conflict h right_alt_right_shift = h.modifiers.alt && h.modifiers.shift
has_layout_switch_prefix_conflict h _ = false
