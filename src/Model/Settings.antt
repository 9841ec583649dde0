-- ===== src/Model/Settings.antt =====
-- src/model.rs: the settings, their validation, and what is sent of them over D-Bus.
use open_switcher.Prelude.{
  ℕ, String, Bool, true, false, not, ◌&&◌, List, leb, if◌then◌else◌, Result, ok, err,
}
use open_switcher.Model.Hotkeys.{
  HotkeySpec, conflicts_exact, to_text, default_manual_correction_hotkey,
  default_selected_text_hotkey,
}
use open_switcher.Model.Combos.{LayoutSwitchCombo, ctrl_shift, LayoutSwitchCombo-discrete}

pub data SessionType : Type 0 where
  x11 wayland unknown_session : SessionType

pub data DesktopEnvironment : Type 0 where
  cinnamon gnome xfce kde unknown_desktop : DesktopEnvironment

pub data DistroKind : Type 0 where
  linux_mint ubuntu debian unknown_distro : DistroKind

pub record SystemContext : Type 0 where
  pub session_type : SessionType
  pub desktop_environment : DesktopEnvironment
  pub distro : DistroKind

pub data LayoutSwitchSource : Type 0 where
  unknown_source manual auto_detected auto_fallback : LayoutSwitchSource

pub data DetectionStrategy : Type 0 where
  no_supported_strategy xfce_x11_xfconf_keyboard_layout : DetectionStrategy
  xfce_x11_set_xkbmap_query cinnamon_x11_gsettings_xkb_options : DetectionStrategy
  gnome_wayland_gsettings_wm_keybindings : DetectionStrategy

pub data DetectionConfidence : Type 0 where
  unsupported low high : DetectionConfidence

pub record AutoDetectedLayoutSwitch : Type 0 where
  pub strategy : DetectionStrategy
  pub confidence : DetectionConfidence
  pub context : SystemContext

pub record LayoutSwitchSetting : Type 0 where
  pub combo : LayoutSwitchCombo
  pub source : LayoutSwitchSource
  pub auto_detected : AutoDetectedLayoutSwitch

unfoldable pub SystemContext-discrete : Discrete SystemContext
SystemContext-discrete = hlevel

unfoldable pub AutoDetectedLayoutSwitch-discrete : Discrete AutoDetectedLayoutSwitch
AutoDetectedLayoutSwitch-discrete = hlevel SystemContext-discrete

unfoldable pub LayoutSwitchSetting-discrete : Discrete LayoutSwitchSetting
LayoutSwitchSetting-discrete =
    hlevel (LayoutSwitchCombo-discrete, AutoDetectedLayoutSwitch-discrete)

unfoldable pub default_layout_switch : LayoutSwitchSetting
default_layout_switch = record {
  combo = ctrl_shift;
  source = unknown_source;
  auto_detected = record {
    strategy = no_supported_strategy;
    confidence = unsupported;
    context = record {
      session_type = unknown_session;
      desktop_environment = unknown_desktop;
      distro = unknown_distro;
    };
  };
}

unfoldable pub is_locked_by_auto_detection : LayoutSwitchSetting → Bool
is_locked_by_auto_detection s = elim (s.source) [
  | auto_detected ↦ elim (s.auto_detected.confidence) [ high ↦ true | _ ↦ false ]
  | _ ↦ false
]

unfoldable pub is_fallback_for_unsupported_context : LayoutSwitchSetting → Bool
is_fallback_for_unsupported_context s = elim (s.source) [
  | auto_fallback ↦ elim (s.auto_detected.strategy) [
    | no_supported_strategy ↦ elim (s.auto_detected.confidence) [ unsupported ↦ true | _ ↦ false ]
    | _ ↦ false
  ]
  | _ ↦ false
]

-- `SettingsDto` has the same fields, and its conversion from `Settings` copies each.
pub record Settings : Type 0 where
  pub auto_switch_enabled : Bool
  pub fix_two_capitals : Bool
  pub fix_accidental_caps_lock : Bool
  pub layout_delay_ms : ℕ
  pub manual_correction_hotkey : HotkeySpec
  pub selected_text_hotkey : HotkeySpec
  pub layout_switch : LayoutSwitchSetting

pub data ValidationError : Type 0 where
  layout_delay_out_of_range : ℕ → ℕ → ℕ → ValidationError
  input_delay_out_of_range : String → ℕ → ℕ → ValidationError
  input_correction_schedule_too_long : ℕ → ℕ → ValidationError
  input_correction_plan_too_large : ℕ → ℕ → ℕ → ℕ → ValidationError
  duplicate_hotkey : List ℕ → ValidationError
  unknown_settings_patch_fields : ℕ → ValidationError

abbrev pub layout_delay_min_ms : ℕ
layout_delay_min_ms = 0

abbrev pub layout_delay_max_ms : ℕ
layout_delay_max_ms = 500

unfoldable pub default_settings : Settings
unfolding default_layout_switch
default_settings = record {
  auto_switch_enabled = true;
  fix_two_capitals = false;
  fix_accidental_caps_lock = false;
  layout_delay_ms = 30;
  manual_correction_hotkey = default_manual_correction_hotkey;
  selected_text_hotkey = default_selected_text_hotkey;
  layout_switch = default_layout_switch;
}

unfoldable pub validate_hotkey_conflicts :
    HotkeySpec → HotkeySpec → Result (Unit {0}) ValidationError
unfolding conflicts_exact
validate_hotkey_conflicts manual_hotkey selected_hotkey =
    if conflicts_exact manual_hotkey selected_hotkey
    then err (duplicate_hotkey (to_text manual_hotkey))
    else ok tt

unfoldable pub validate : Settings → Result Settings ValidationError
unfolding validate_hotkey_conflicts
validate s =
    if not (leb layout_delay_min_ms s.layout_delay_ms && leb s.layout_delay_ms layout_delay_max_ms)
    then err (layout_delay_out_of_range layout_delay_min_ms layout_delay_max_ms s.layout_delay_ms)
    else elim (validate_hotkey_conflicts s.manual_correction_hotkey s.selected_text_hotkey) [
      | ok _ ↦ ok s
      | err e ↦ err e
    ]
