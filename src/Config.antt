-- ===== src/Config.antt =====
-- src/config.rs: the configuration, its validation, and its form in the file. The errors of the file
-- system and of the TOML library are numbers.
pub mod Budget
pub mod Storage
use open_switcher.Prelude.{
  ℕ, Bool, true, false, not, ◌&&◌, List, [], ◌∷◌, Option, none, some, String, leb, ltb, u64_max,
  if◌then◌else◌, Result, ok, err, is_some,
}
use open_switcher.Model.Hotkeys.{
  HotkeySpec, default_manual_correction_hotkey, default_selected_text_hotkey,
}
use open_switcher.Model.Combos.{LayoutSwitchCombo, ctrl_shift}
use open_switcher.Model.Schedule.{estimated_correction_schedule_ms}
use open_switcher.Model.Settings
use open_switcher.Model.Settings.{
  AutoDetectedLayoutSwitch, default_layout_switch, LayoutSwitchSource, unknown_source,
  auto_detected, auto_fallback, Settings, ValidationError, input_delay_out_of_range,
  input_correction_schedule_too_long,
}

pub record LayoutConfig : Type 0 where
  pub switch_combo : LayoutSwitchCombo
  pub switch_source : LayoutSwitchSource
  pub auto_detected : AutoDetectedLayoutSwitch
  pub delay_ms : ℕ

pub record DelaysConfig : Type 0 where
  pub backspace_ms : ℕ
  pub typing_ms : ℕ

pub record FeaturesConfig : Type 0 where
  pub auto_switch_enabled : Bool
  pub fix_two_capitals : Bool
  pub fix_accidental_caps_lock : Bool
  pub manual_correction_hotkey : HotkeySpec
  pub selected_text_switch_hotkey : HotkeySpec

pub record AppConfig : Type 0 where
  pub layout : LayoutConfig
  pub delays : DelaysConfig
  pub features : FeaturesConfig

pub data ConfigError : Type 0 where
  io parse serialize system_context layout_auto_detect : ℕ → ConfigError
  validation : ValidationError → ConfigError
  legacy_format_unsupported lock_poisoned : ConfigError
  missing_required_field : String → ConfigError

abbrev pub default_auto_detected : AutoDetectedLayoutSwitch
default_auto_detected = default_layout_switch.auto_detected

unfoldable pub default_config : AppConfig
default_config = record {
  layout = record {
    switch_combo = ctrl_shift;
    switch_source = unknown_source;
    auto_detected = default_auto_detected;
    delay_ms = 30;
  };
  delays = record { backspace_ms = 0; typing_ms = 0 };
  features = record {
    auto_switch_enabled = true;
    fix_two_capitals = false;
    fix_accidental_caps_lock = false;
    manual_correction_hotkey = default_manual_correction_hotkey;
    selected_text_switch_hotkey = default_selected_text_hotkey;
  };
}

unfoldable pub settings : AppConfig → Settings
settings c = record {
  auto_switch_enabled = c.features.auto_switch_enabled;
  fix_two_capitals = c.features.fix_two_capitals;
  fix_accidental_caps_lock = c.features.fix_accidental_caps_lock;
  layout_delay_ms = c.layout.delay_ms;
  manual_correction_hotkey = c.features.manual_correction_hotkey;
  selected_text_hotkey = c.features.selected_text_switch_hotkey;
  layout_switch = record {
    combo = c.layout.switch_combo;
    source = c.layout.switch_source;
    auto_detected = c.layout.auto_detected;
  };
}

unfoldable pub apply_settings : AppConfig → Settings → AppConfig
apply_settings c s = record c {
  layout = record {
    switch_combo = s.layout_switch.combo;
    switch_source = s.layout_switch.source;
    auto_detected = s.layout_switch.auto_detected;
    delay_ms = s.layout_delay_ms;
  };
  features = record {
    auto_switch_enabled = s.auto_switch_enabled;
    fix_two_capitals = s.fix_two_capitals;
    fix_accidental_caps_lock = s.fix_accidental_caps_lock;
    manual_correction_hotkey = s.manual_correction_hotkey;
    selected_text_switch_hotkey = s.selected_text_hotkey;
  };
}

abbrev pub input_key_delay_max_ms : ℕ
input_key_delay_max_ms = 10

abbrev pub max_correction_keystrokes : ℕ
max_correction_keystrokes = 128

abbrev pub max_correction_extra_backspaces : ℕ
max_correction_extra_backspaces = 1

abbrev pub max_correction_schedule_ms : ℕ
max_correction_schedule_ms = 4000

abbrev pub Checked : Type 0
Checked = Result (Unit {0}) ValidationError

-- The operator `?`.
infixl 5 ◌>>=◌ ◌>>◌
abbrev pub ◌>>=◌ : {A B E : Type 0} → Result A E → (A → Result B E) → Result B E
r >>= f = elim r [ ok a ↦ f a | err e ↦ err e ]

abbrev pub ◌>>◌ : {A B E : Type 0} → Result A E → Result B E → Result B E
r >> q = r >>= λ _. q

unfoldable pub check_delays : List (String × ℕ) → Checked
check_delays [] = ok tt
check_delays ((field, found) ∷ rest) =
    if ltb input_key_delay_max_ms found
    then err (input_delay_out_of_range field input_key_delay_max_ms found)
    else check_delays rest

abbrev pub or_max : Option ℕ → ℕ
or_max none = u64_max
or_max (some n) = n

abbrev pub check_schedule : ℕ → Checked
check_schedule found_ms =
    if ltb max_correction_schedule_ms found_ms
    then err (input_correction_schedule_too_long max_correction_schedule_ms found_ms)
    else ok tt

abbrev pub delay_fields : AppConfig → List (String × ℕ)
delay_fields c = ("backspace_ms", c.delays.backspace_ms) ∷ ("typing_ms", c.delays.typing_ms) ∷ []

abbrev pub longest_schedule : AppConfig → Option ℕ
longest_schedule c =
    estimated_correction_schedule_ms max_correction_keystrokes max_correction_extra_backspaces
      c.layout.delay_ms c.delays.backspace_ms c.delays.typing_ms true

unfoldable pub validate : AppConfig → Checked
unfolding settings check_delays
validate c = do
  Settings.validate (settings c)
  check_delays (delay_fields c)
  check_schedule (or_max (longest_schedule c))

-- The form in the file.
pub record LayoutConfigFile : Type 0 where
  pub switch_combo : Option LayoutSwitchCombo
  pub switch_source : LayoutSwitchSource
  pub auto_detected : Option AutoDetectedLayoutSwitch
  pub keys : Option (List String)
  pub delay_ms : ℕ

pub record AppConfigFile : Type 0 where
  pub layout : LayoutConfigFile
  pub delays : DelaysConfig
  pub features : FeaturesConfig

abbrev pub is_automatic : LayoutSwitchSource → Bool
is_automatic auto_detected = true
is_automatic auto_fallback = true
is_automatic _ = false

unfoldable pub to_file : AppConfig → AppConfigFile
to_file c = record {
  layout = record {
    switch_combo = some c.layout.switch_combo;
    switch_source = c.layout.switch_source;
    auto_detected =
        if is_automatic c.layout.switch_source then some c.layout.auto_detected else none;
    keys = none;
    delay_ms = c.layout.delay_ms;
  };
  delays = c.delays;
  features = c.features;
}

abbrev pub or_default : Option AutoDetectedLayoutSwitch → AutoDetectedLayoutSwitch
or_default none = default_auto_detected
or_default (some a) = a

abbrev pub config_of : AppConfigFile → LayoutSwitchCombo → AppConfig
config_of f combo = record {
  layout = record {
    switch_combo = combo;
    switch_source = f.layout.switch_source;
    auto_detected = or_default f.layout.auto_detected;
    delay_ms = f.layout.delay_ms;
  };
  delays = f.delays;
  features = f.features;
}

abbrev pub checked_config : AppConfig → Checked → Result AppConfig ConfigError
checked_config c (ok _) = ok c
checked_config c (err e) = err (validation e)

abbrev pub with_combo : AppConfigFile → Option LayoutSwitchCombo → Result AppConfig ConfigError
with_combo f none = err (missing_required_field "layout.switch_combo")
with_combo f (some combo) = checked_config (config_of f combo) (validate (config_of f combo))

unfoldable pub from_file : AppConfigFile → Result AppConfig ConfigError
unfolding validate
from_file f =
    if is_some f.layout.keys && not (is_some f.layout.switch_combo)
    then err legacy_format_unsupported
    else with_combo f f.layout.switch_combo

-- What `atomic_replace` may do, and the file at a path: its content, where it exists.
pub data ConfigCommitOutcome : Type 0 where
  committed : ConfigCommitOutcome
  committed_durability_uncertain : ℕ → ConfigCommitOutcome

abbrev pub File : Type 0
File = Option (List ℕ)

-- The TOML library, and the file system: `replace` makes the directory and replaces the file.
module _ (print : AppConfigFile → Result (List ℕ) ConfigError)
    (parse : List ℕ → Result AppConfigFile ConfigError)
    (replace : File → List ℕ → File × Result ConfigCommitOutcome ConfigError)
    (read : List ℕ → Result (List ℕ) ConfigError) where
  abbrev pub write_content :
      File → Result (List ℕ) ConfigError → File × Result ConfigCommitOutcome ConfigError
  write_content file (err e) = (file, err e)
  write_content file (ok content) = replace file content

  unfoldable pub save_to_path : File → AppConfig → File × Result ConfigCommitOutcome ConfigError
  unfolding to_file validate
  save_to_path file c = elim (validate c) [
    | ok _ ↦ write_content file (print (to_file c))
    | err e ↦ (file, err (validation e))
  ]

  abbrev pub created :
      File × Result ConfigCommitOutcome ConfigError → File × Result AppConfig ConfigError
  created (file, ok _) = (file, ok default_config)
  created (file, err e) = (file, err e)

  unfoldable pub load_or_create : File → File × Result AppConfig ConfigError
  unfolding save_to_path default_config from_file
  load_or_create none = created (save_to_path none default_config)
  load_or_create (some stored) =
      (some stored, do content ← read stored; f ← parse content; from_file f)
