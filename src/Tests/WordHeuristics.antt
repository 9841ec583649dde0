-- ===== src/Tests/WordHeuristics.antt =====
-- The word heuristics on words that the source's own tests name.
use open_switcher.Key.{Key}
use open_switcher.Prelude.{◌≡◌, refl, Bool, true, false, xor, List, [], ◌∷◌}
use open_switcher.Switch.Keymap.{
  Keystroke, AppLayoutKind, english, russian, visible_char_for_layout, visible_char_for_keystroke,
  is_trailing_tail_punctuation, is_trailing_tail_punctuation_char, keys_to_string,
  keys_to_visible_string, is_russian_letter, russian_visible_char_for_keyboard_position,
}
use open_switcher.Switch.Split.{
  split_word_core_and_trailing_tail, split_physical_english_core_and_trailing_tail, split_by, take,
  rposition,
}
use open_switcher.Switch.Texts.{is_ascii_alphabetic}
use open_switcher.Switch.Heuristics.{
  should_switch, should_switch_english_to_russian, should_switch_russian_to_english,
  is_english_layout_technical_token, normalize_word_for_switch_heuristics, is_likely_english,
  english_layout_russian_physical_score, is_confident_english_for_russian_layout,
}

abbrev plain : Key → Keystroke
plain k = record { key = k; shift = false; caps_lock = false }

-- `should_switch` with all that it calls open.
switches : List Keystroke → AppLayoutKind → Bool
unfolding should_switch should_switch_english_to_russian should_switch_russian_to_english
    split_word_core_and_trailing_tail split_physical_english_core_and_trailing_tail split_by take
    rposition is_trailing_tail_punctuation visible_char_for_layout visible_char_for_keystroke
    is_trailing_tail_punctuation_char xor is_english_layout_technical_token
    normalize_word_for_switch_heuristics keys_to_string is_likely_english
    english_layout_russian_physical_score keys_to_visible_string is_russian_letter
    is_confident_english_for_russian_layout is_ascii_alphabetic
    russian_visible_char_for_keyboard_position
switches buffer kind = should_switch buffer kind

ghbdtn_english :
    should_switch
      (plain Key.key_g
        ∷ plain Key.key_h
        ∷ plain Key.key_b
        ∷ plain Key.key_d
        ∷ plain Key.key_t
        ∷ plain Key.key_n
        ∷ [])
      english
    ≡ true
unfolding switches
ghbdtn_english = refl

hello_english :
    should_switch
      (plain Key.key_h ∷ plain Key.key_e ∷ plain Key.key_l ∷ plain Key.key_l ∷ plain Key.key_o ∷ [])
      english
    ≡ false
unfolding switches
hello_english = refl

cargo_english :
    should_switch
      (plain Key.key_c ∷ plain Key.key_a ∷ plain Key.key_r ∷ plain Key.key_g ∷ plain Key.key_o ∷ [])
      english
    ≡ false
unfolding switches
cargo_english = refl

system_russian :
    should_switch
      (plain Key.key_s
        ∷ plain Key.key_y
        ∷ plain Key.key_s
        ∷ plain Key.key_t
        ∷ plain Key.key_e
        ∷ plain Key.key_m
        ∷ [])
      russian
    ≡ true
unfolding switches
system_russian = refl

kexit_russian :
    should_switch
      (plain Key.key_k ∷ plain Key.key_e ∷ plain Key.key_x ∷ plain Key.key_i ∷ plain Key.key_t ∷ [])
      russian
    ≡ false
unfolding switches
kexit_russian = refl
