-- ===== src/Model/Hotkeys.antt =====
-- src/model.rs: `HotkeyModifiers`, `HotkeyTrigger` and `HotkeySpec`, with their parsing and printing.
use open_switcher.Prelude.{
  ℕ, Bool, true, false, not, ◌&&◌, ◌||◌, List, [], ◌∷◌, ◌++◌, Option, none, some, String, map, ◌==◌,
  if◌then◌else◌, Result, ok, err, is_empty,
}
use open_switcher.Switch.Keymap.{codes}
use open_switcher.Switch.Texts.{to_lowercase}
use open_switcher.Model.Names.{find_text, strip_suffix, trim, filter}

pub record HotkeyModifiers : Type 0 where
  pub shift : Bool
  pub ctrl : Bool
  pub alt : Bool

abbrev pub modifiers : Bool → Bool → Bool → HotkeyModifiers
modifiers shift ctrl alt = record { shift = shift; ctrl = ctrl; alt = alt }

abbrev pub prefixes : List (String × HotkeyModifiers)
prefixes =
    ("", modifiers false false false)
    ∷ ("shift", modifiers true false false)
    ∷ ("ctrl", modifiers false true false)
    ∷ ("alt", modifiers false false true)
    ∷ ("shiftctrl", modifiers true true false)
    ∷ ("shiftalt", modifiers true false true)
    ∷ ("ctrlalt", modifiers false true true)
    ∷ ("shiftctrlalt", modifiers true true true)
    ∷ []

unfoldable pub from_compact_prefix : List ℕ → Option HotkeyModifiers
unfolding find_text
from_compact_prefix prefix = find_text prefixes prefix

pub data HotkeyTrigger : Type 0 where
  f9 f10 f12 pause scroll_lock insert menu : HotkeyTrigger

unfoldable pub HotkeyTrigger-discrete : Discrete HotkeyTrigger
HotkeyTrigger-discrete = hlevel

unfoldable pub config_value : HotkeyTrigger → String
config_value f9 = "f9"
config_value f10 = "f10"
config_value f12 = "f12"
config_value pause = "pause"
config_value scroll_lock = "scroll_lock"
config_value insert = "insert"
config_value menu = "menu"

unfoldable pub trigger_label : HotkeyTrigger → String
trigger_label f9 = "F9"
trigger_label f10 = "F10"
trigger_label f12 = "F12"
trigger_label pause = "Pause"
trigger_label scroll_lock = "ScrollLock"
trigger_label insert = "Insert"
trigger_label menu = "Menu"

unfoldable pub compact_alias : HotkeyTrigger → String
compact_alias f9 = "f9"
compact_alias f10 = "f10"
compact_alias f12 = "f12"
compact_alias pause = "pause"
compact_alias scroll_lock = "scrolllock"
compact_alias insert = "insert"
compact_alias menu = "menu"

unfoldable pub first_suffix : List HotkeyTrigger → List ℕ → Option (HotkeyTrigger × List ℕ)
unfolding strip_suffix compact_alias
first_suffix [] value = none
first_suffix (trigger ∷ rest) value = elim (strip_suffix value (codes (compact_alias trigger))) [
  | some prefix ↦ some (trigger, prefix)
  | none ↦ first_suffix rest value
]

abbrev pub suffix_order : List HotkeyTrigger
suffix_order = scroll_lock ∷ insert ∷ pause ∷ menu ∷ f10 ∷ f12 ∷ f9 ∷ []

unfoldable pub from_compact_suffix : List ℕ → Option (HotkeyTrigger × List ℕ)
unfolding first_suffix
from_compact_suffix value = first_suffix suffix_order value

pub record HotkeySpec : Type 0 where
  pub modifiers : HotkeyModifiers
  pub trigger : HotkeyTrigger

unfoldable pub HotkeySpec-discrete : Discrete HotkeySpec
HotkeySpec-discrete = hlevel

abbrev pub shown_if : Bool → String → List ℕ
shown_if true text = codes text
shown_if false text = []

-- `Display`, which `config_value` of a hotkey uses.
unfoldable pub to_text : HotkeySpec → List ℕ
unfolding config_value
to_text h =
    shown_if h.modifiers.shift "shift+"
    ++ (shown_if h.modifiers.ctrl "ctrl+"
        ++ (shown_if h.modifiers.alt "alt+" ++ codes (config_value h.trigger)))

-- `parts.join("+")`, where only the trigger's part has no "+" after it.
unfoldable pub hotkey_label : HotkeySpec → List ℕ
unfolding trigger_label
hotkey_label h =
    shown_if h.modifiers.ctrl "Ctrl+"
    ++ (shown_if h.modifiers.alt "Alt+"
        ++ (shown_if h.modifiers.shift "Shift+" ++ codes (trigger_label h.trigger)))

pub data HotkeySpecParseError : Type 0 where
  empty : HotkeySpecParseError
  unsupported_trigger unsupported_modifier : List ℕ → HotkeySpecParseError

abbrev pub is_separator : ℕ → Bool
is_separator c = c == b'+' || c == b'_' || c == b'-' || c == b' '

unfoldable pub compact : List ℕ → List ℕ
unfolding to_lowercase filter
compact raw = filter (λ c. not (is_separator c)) (map to_lowercase raw)

abbrev pub parse_prefix :
    List ℕ → HotkeyTrigger → Option HotkeyModifiers → Result HotkeySpec HotkeySpecParseError
parse_prefix value trigger none = err (unsupported_modifier value)
parse_prefix value trigger (some m) = ok record { modifiers = m; trigger = trigger }

abbrev pub parse_suffix :
    List ℕ → Option (HotkeyTrigger × List ℕ) → Result HotkeySpec HotkeySpecParseError
parse_suffix value none = err (unsupported_trigger value)
parse_suffix value (some (trigger, prefix)) =
    parse_prefix value trigger (from_compact_prefix prefix)

abbrev pub parse_trimmed : List ℕ → List ℕ → Result HotkeySpec HotkeySpecParseError
parse_trimmed value raw =
    if is_empty raw then err empty else parse_suffix value (from_compact_suffix (compact raw))

-- `from_str`.
unfoldable pub parse : List ℕ → Result HotkeySpec HotkeySpecParseError
unfolding trim compact from_compact_suffix from_compact_prefix
parse value = parse_trimmed value (trim value)

-- The exact match of a pressed key and the held modifiers.
unfoldable pub same_bool : Bool → Bool → Bool
same_bool true b = b
same_bool false b = not b

unfoldable pub same_trigger : HotkeyTrigger → HotkeyTrigger → Bool
unfolding HotkeyTrigger-discrete
same_trigger a b = elim (HotkeyTrigger-discrete a b) [ yes _ ↦ true | no _ ↦ false ]

unfoldable pub matches : HotkeySpec → HotkeyTrigger → HotkeyModifiers → Bool
unfolding same_bool same_trigger
matches h trigger held =
    same_trigger h.trigger trigger
    && same_bool h.modifiers.shift held.shift
    && same_bool h.modifiers.ctrl held.ctrl
    && same_bool h.modifiers.alt held.alt

unfoldable pub conflicts_exact : HotkeySpec → HotkeySpec → Bool
unfolding same_bool same_trigger
conflicts_exact h other =
    same_trigger h.trigger other.trigger
    && same_bool h.modifiers.shift other.modifiers.shift
    && same_bool h.modifiers.ctrl other.modifiers.ctrl
    && same_bool h.modifiers.alt other.modifiers.alt

abbrev pub default_manual_correction_hotkey : HotkeySpec
default_manual_correction_hotkey = record {
  modifiers = modifiers false false false;
  trigger = pause;
}

abbrev pub default_selected_text_hotkey : HotkeySpec
default_selected_text_hotkey = record { modifiers = modifiers true false false; trigger = pause }
