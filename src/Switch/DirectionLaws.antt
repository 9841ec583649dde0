-- ===== src/Switch/DirectionLaws.antt =====
-- Words that the heuristics protect, or correct, whatever their case.
use open_switcher.Prelude.{
  ℕ, ◌≡◌, refl, ◌⊎◌, inl, inr, Bool, true, ◌&&◌, ◌||◌, List, some, all, length, arith, leb,
}
use open_switcher.Switch.Keymap.{Keystroke, russian, codes, keys_to_string}
use open_switcher.Switch.Split.{split_physical_english_core_and_trailing_tail}
use open_switcher.Switch.Texts.{is_one_of, is_ascii_alphabetic}
use open_switcher.Switch.Words.{technical_english_words, ru_layout_common_english_words}
use open_switcher.Switch.Heuristics.{
  russian_to_english, normalize_word_for_switch_heuristics, is_confident_english_for_russian_layout,
  should_switch_russian_to_english, layout_correction_direction,
}
use open_switcher.Switch.TextLaws.{
  of_is_one_of, length-keys_to_string, length-normalize_word, any_russian,
}

abbrev pub physical_core : List Keystroke → List Keystroke
physical_core buffer = (split_physical_english_core_and_trailing_tail buffer).core

abbrev pub physical_word : List Keystroke → List ℕ
physical_word buffer = normalize_word_for_switch_heuristics (keys_to_string (physical_core buffer))

-- Long enough, spelled with letters, and accepted as English.
abbrev accepted : List ℕ → Bool
accepted w =
    leb 3 (length w) && all is_ascii_alphabetic w && is_confident_english_for_russian_layout w

technical_accepted : all (λ w. accepted (codes w)) technical_english_words ≡ true
unfolding is_confident_english_for_russian_layout is_ascii_alphabetic
technical_accepted = refl

common_accepted : all (λ w. accepted (codes w)) ru_layout_common_english_words ≡ true
unfolding is_confident_english_for_russian_layout is_ascii_alphabetic
common_accepted = refl

accepted_switches :
    (buffer : List Keystroke)
    → accepted (physical_word buffer) ≡ true
    → layout_correction_direction buffer russian ≡ some russian_to_english
unfolding layout_correction_direction should_switch_russian_to_english
accepted_switches buffer h = ground (
  arith,
  any_russian (physical_core buffer),
  length-keys_to_string (physical_core buffer),
  length-normalize_word (keys_to_string (physical_core buffer)),
)

or_cases : (a b : Bool) → (a || b) ≡ true → (a ≡ true) ⊎ (b ≡ true)
or_cases a b h = ground arith

-- A technical or common English word, typed in any case while the Russian layout is active, is
-- always corrected to English.
pub english_words_corrected :
    (buffer : List Keystroke)
    → (is_one_of technical_english_words (physical_word buffer)
        || is_one_of ru_layout_common_english_words (physical_word buffer))
      ≡ true
    → layout_correction_direction buffer russian ≡ some russian_to_english
english_words_corrected buffer h = accepted_switches buffer (elim (or_cases _ _ h) [
  | inl t ↦
      of_is_one_of accepted technical_english_words (physical_word buffer) technical_accepted t
  | inr c ↦
      of_is_one_of accepted ru_layout_common_english_words (physical_word buffer) common_accepted c
])
