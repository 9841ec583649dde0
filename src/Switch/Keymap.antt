-- ===== src/Switch/Keymap.antt =====
-- src/daemon/switch_logic.rs: what a keystroke shows, in the English and in the Russian layout; and
-- `replay_shift_for_stroke` of src/daemon/keyboard.rs. A `char` is its code point.
use Prim.Native.Char.{code}
use open_switcher.Key.{Key}
use open_switcher.Prelude.{
  ℕ, ◌-◌, Bool, true, false, ◌&&◌, ◌||◌, xor, List, [], ◌∷◌, Option, none, some, String, leb, ◌==◌,
  is_some_and, if◌then◌else◌,
}

pub record Keystroke : Type 0 where
  pub key : Key
  pub shift : Bool
  pub caps_lock : Bool

-- layout_backend/model.rs.
pub data AppLayoutKind : Type 0 where
  english russian other_layout unknown : AppLayoutKind

-- The code points of a text.
abbrev pub codes : String → List ℕ
codes String.[] = []
codes (String.◌∷◌ c s) = code c ∷ codes s

-- `to_ascii_uppercase`.
abbrev pub to_ascii_uppercase : ℕ → ℕ
to_ascii_uppercase c = if leb b'a' c && leb c b'z' then c - 32 else c

unfoldable pub letter : ℕ → Bool → Bool → ℕ
letter base shift caps_lock = if xor shift caps_lock then to_ascii_uppercase base else base

unfoldable pub key_to_char : Key → Bool → Bool → Option ℕ
unfolding letter
key_to_char Key.key_a shift caps_lock = some (letter b'a' shift caps_lock)
key_to_char Key.key_b shift caps_lock = some (letter b'b' shift caps_lock)
key_to_char Key.key_c shift caps_lock = some (letter b'c' shift caps_lock)
key_to_char Key.key_d shift caps_lock = some (letter b'd' shift caps_lock)
key_to_char Key.key_e shift caps_lock = some (letter b'e' shift caps_lock)
key_to_char Key.key_f shift caps_lock = some (letter b'f' shift caps_lock)
key_to_char Key.key_g shift caps_lock = some (letter b'g' shift caps_lock)
key_to_char Key.key_h shift caps_lock = some (letter b'h' shift caps_lock)
key_to_char Key.key_i shift caps_lock = some (letter b'i' shift caps_lock)
key_to_char Key.key_j shift caps_lock = some (letter b'j' shift caps_lock)
key_to_char Key.key_k shift caps_lock = some (letter b'k' shift caps_lock)
key_to_char Key.key_l shift caps_lock = some (letter b'l' shift caps_lock)
key_to_char Key.key_m shift caps_lock = some (letter b'm' shift caps_lock)
key_to_char Key.key_n shift caps_lock = some (letter b'n' shift caps_lock)
key_to_char Key.key_o shift caps_lock = some (letter b'o' shift caps_lock)
key_to_char Key.key_p shift caps_lock = some (letter b'p' shift caps_lock)
key_to_char Key.key_q shift caps_lock = some (letter b'q' shift caps_lock)
key_to_char Key.key_r shift caps_lock = some (letter b'r' shift caps_lock)
key_to_char Key.key_s shift caps_lock = some (letter b's' shift caps_lock)
key_to_char Key.key_t shift caps_lock = some (letter b't' shift caps_lock)
key_to_char Key.key_u shift caps_lock = some (letter b'u' shift caps_lock)
key_to_char Key.key_v shift caps_lock = some (letter b'v' shift caps_lock)
key_to_char Key.key_w shift caps_lock = some (letter b'w' shift caps_lock)
key_to_char Key.key_x shift caps_lock = some (letter b'x' shift caps_lock)
key_to_char Key.key_y shift caps_lock = some (letter b'y' shift caps_lock)
key_to_char Key.key_z shift caps_lock = some (letter b'z' shift caps_lock)
key_to_char Key.key_0 shift caps_lock = some (if shift then b')' else b'0')
key_to_char Key.key_1 shift caps_lock = some (if shift then b'!' else b'1')
key_to_char Key.key_2 shift caps_lock = some (if shift then b'@' else b'2')
key_to_char Key.key_3 shift caps_lock = some (if shift then b'#' else b'3')
key_to_char Key.key_4 shift caps_lock = some (if shift then b'$' else b'4')
key_to_char Key.key_5 shift caps_lock = some (if shift then b'%' else b'5')
key_to_char Key.key_6 shift caps_lock = some (if shift then b'^' else b'6')
key_to_char Key.key_7 shift caps_lock = some (if shift then b'&' else b'7')
key_to_char Key.key_8 shift caps_lock = some (if shift then b'*' else b'8')
key_to_char Key.key_9 shift caps_lock = some (if shift then b'(' else b'9')
key_to_char Key.key_space shift caps_lock = some b' '
key_to_char Key.key_dot shift caps_lock = some (if shift then b'>' else b'.')
key_to_char Key.key_comma shift caps_lock = some (if shift then b'<' else b',')
key_to_char Key.key_semicolon shift caps_lock = some (if shift then b':' else b';')
key_to_char Key.key_apostrophe shift caps_lock = some (if shift then b'"' else b'\'')
key_to_char Key.key_grave shift caps_lock = some (if shift then b'~' else b'`')
key_to_char Key.key_leftbrace shift caps_lock = some (if shift then b'{' else b'[')
key_to_char Key.key_rightbrace shift caps_lock = some (if shift then b'}' else b']')
key_to_char Key.key_slash shift caps_lock = some (if shift then b'?' else b'/')
key_to_char Key.key_minus shift caps_lock = some (if shift then b'_' else b'-')
key_to_char Key.key_equal shift caps_lock = some (if shift then b'+' else b'=')
key_to_char _ shift caps_lock = none

unfoldable pub visible_char_for_keystroke : Keystroke → Option ℕ
unfolding key_to_char
visible_char_for_keystroke stroke = key_to_char stroke.key stroke.shift stroke.caps_lock

-- The arms of the `match`, as two texts: the character at a place of the first is shown as the
-- character at that place of the second.
abbrev pub english_positions : List ℕ
english_positions = codes "qQwWeErRtTyYuUiIoOpP`~[{]}aAsSdDfFgGhHjJkKlL;:'\"zZxXcCvVbBnNmM,<.>/?\\|"

abbrev pub russian_positions : List ℕ
russian_positions = codes "йЙцЦуУкКеЕнНгГшШщЩзЗёЁхХъЪфФыЫвВаАпПрРоОлЛдДжЖэЭяЯчЧсСмМиИтТьЬбБюЮ.,\\/"

unfoldable pub char_at_position : List ℕ → List ℕ → ℕ → ℕ
char_at_position (a ∷ shown) (b ∷ instead) ch =
    if a == ch then b else char_at_position shown instead ch
char_at_position _ _ ch = ch

unfoldable pub russian_visible_char_for_keyboard_position : ℕ → ℕ
unfolding char_at_position
russian_visible_char_for_keyboard_position ch =
    char_at_position english_positions russian_positions ch

abbrev pub show_in : AppLayoutKind → ℕ → ℕ
show_in english ch = ch
show_in other_layout ch = ch
show_in unknown ch = ch
show_in russian ch = russian_visible_char_for_keyboard_position ch

abbrev pub map_char : (ℕ → ℕ) → Option ℕ → Option ℕ
map_char f none = none
map_char f (some c) = some (f c)

unfoldable pub visible_char_for_layout : Keystroke → AppLayoutKind → Option ℕ
visible_char_for_layout stroke kind = map_char (show_in kind) (visible_char_for_keystroke stroke)

unfoldable pub is_trailing_tail_punctuation_char : ℕ → Bool
is_trailing_tail_punctuation_char ch =
    ch == b',' || ch == b'.' || ch == b';' || ch == b':' || ch == b'!' || ch == b'?'

unfoldable pub is_trailing_tail_punctuation : Keystroke → AppLayoutKind → Bool
is_trailing_tail_punctuation stroke kind =
    is_some_and is_trailing_tail_punctuation_char (visible_char_for_layout stroke kind)

-- а..я, А..Я, ё and Ё.
unfoldable pub is_russian_letter : ℕ → Bool
is_russian_letter ch =
    leb 0x430 ch && leb ch 0x44f || leb 0x410 ch && leb ch 0x42f || ch == 0x451 || ch == 0x401

-- `if let Some(ch) = … { result.push(ch) }`.
abbrev pub pushed : Option ℕ → List ℕ → List ℕ
pushed none cs = cs
pushed (some c) cs = c ∷ cs

unfoldable pub keys_to_string : List Keystroke → List ℕ
keys_to_string [] = []
keys_to_string (k ∷ ks) = pushed (visible_char_for_keystroke k) (keys_to_string ks)

unfoldable pub keys_to_visible_string : List Keystroke → AppLayoutKind → List ℕ
keys_to_visible_string [] kind = []
keys_to_visible_string (k ∷ ks) kind =
    pushed (visible_char_for_layout k kind) (keys_to_visible_string ks kind)

unfoldable pub is_case_fix_letter_key : Key → Bool
is_case_fix_letter_key Key.key_a = true
is_case_fix_letter_key Key.key_b = true
is_case_fix_letter_key Key.key_c = true
is_case_fix_letter_key Key.key_d = true
is_case_fix_letter_key Key.key_e = true
is_case_fix_letter_key Key.key_f = true
is_case_fix_letter_key Key.key_g = true
is_case_fix_letter_key Key.key_h = true
is_case_fix_letter_key Key.key_i = true
is_case_fix_letter_key Key.key_j = true
is_case_fix_letter_key Key.key_k = true
is_case_fix_letter_key Key.key_l = true
is_case_fix_letter_key Key.key_m = true
is_case_fix_letter_key Key.key_n = true
is_case_fix_letter_key Key.key_o = true
is_case_fix_letter_key Key.key_p = true
is_case_fix_letter_key Key.key_q = true
is_case_fix_letter_key Key.key_r = true
is_case_fix_letter_key Key.key_s = true
is_case_fix_letter_key Key.key_t = true
is_case_fix_letter_key Key.key_u = true
is_case_fix_letter_key Key.key_v = true
is_case_fix_letter_key Key.key_w = true
is_case_fix_letter_key Key.key_x = true
is_case_fix_letter_key Key.key_y = true
is_case_fix_letter_key Key.key_z = true
is_case_fix_letter_key Key.key_grave = true
is_case_fix_letter_key Key.key_leftbrace = true
is_case_fix_letter_key Key.key_rightbrace = true
is_case_fix_letter_key Key.key_semicolon = true
is_case_fix_letter_key Key.key_apostrophe = true
is_case_fix_letter_key Key.key_comma = true
is_case_fix_letter_key Key.key_dot = true
is_case_fix_letter_key _ = false

-- keyboard.rs.
unfoldable pub is_case_sensitive_letter_key : Key → Bool
is_case_sensitive_letter_key Key.key_a = true
is_case_sensitive_letter_key Key.key_b = true
is_case_sensitive_letter_key Key.key_c = true
is_case_sensitive_letter_key Key.key_d = true
is_case_sensitive_letter_key Key.key_e = true
is_case_sensitive_letter_key Key.key_f = true
is_case_sensitive_letter_key Key.key_g = true
is_case_sensitive_letter_key Key.key_h = true
is_case_sensitive_letter_key Key.key_i = true
is_case_sensitive_letter_key Key.key_j = true
is_case_sensitive_letter_key Key.key_k = true
is_case_sensitive_letter_key Key.key_l = true
is_case_sensitive_letter_key Key.key_m = true
is_case_sensitive_letter_key Key.key_n = true
is_case_sensitive_letter_key Key.key_o = true
is_case_sensitive_letter_key Key.key_p = true
is_case_sensitive_letter_key Key.key_q = true
is_case_sensitive_letter_key Key.key_r = true
is_case_sensitive_letter_key Key.key_s = true
is_case_sensitive_letter_key Key.key_t = true
is_case_sensitive_letter_key Key.key_u = true
is_case_sensitive_letter_key Key.key_v = true
is_case_sensitive_letter_key Key.key_w = true
is_case_sensitive_letter_key Key.key_x = true
is_case_sensitive_letter_key Key.key_y = true
is_case_sensitive_letter_key Key.key_z = true
is_case_sensitive_letter_key Key.key_grave = true
is_case_sensitive_letter_key Key.key_leftbrace = true
is_case_sensitive_letter_key Key.key_rightbrace = true
is_case_sensitive_letter_key Key.key_semicolon = true
is_case_sensitive_letter_key Key.key_apostrophe = true
is_case_sensitive_letter_key Key.key_comma = true
is_case_sensitive_letter_key Key.key_dot = true
is_case_sensitive_letter_key _ = false

-- Whether a stroke of a plan is replayed with Shift, while Caps Lock is on or off.
unfoldable pub replay_shift_for_stroke : Keystroke → Bool → Bool
unfolding is_case_sensitive_letter_key
replay_shift_for_stroke stroke caps_lock =
    if is_case_sensitive_letter_key stroke.key then xor stroke.shift caps_lock else stroke.shift
