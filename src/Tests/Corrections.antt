-- ===== src/Tests/Corrections.antt =====
-- Corrections of single words, and the theorems of switch_logic.rs applied to them.
use open_switcher.Key.{
  Key, key_a, key_c, key_d, key_e, key_g, key_h, key_l, key_n, key_o, key_r, key_t, key_comma,
  key_apostrophe, Key-discrete,
}
use open_switcher.Prelude.{
  ℕ, ◌≡◌, ◌≢◌, ◌↔◌, refl, Bool, true, false, List, [], ◌∷◌, map, Option, none, some, length, xor,
  ℕ_discrete,
}
use open_switcher.Switch.Keymap.{
  Keystroke, english, russian, key_to_char, is_trailing_tail_punctuation,
  is_trailing_tail_punctuation_char, visible_char_for_layout, visible_char_for_keystroke,
  is_case_fix_letter_key, keys_to_string,
}
use open_switcher.Switch.Cases.{
  upper, lower, letter_case_for_stroke, case_pattern, normalize_stroke, apply_case_fixes_to_strokes,
  capitalize, has_accidental_caps_lock, has_two_capitals, corrected_case_pattern, with_cases,
  lower_second,
}
use open_switcher.Switch.Split.{
  split_word_core_and_trailing_tail, split_physical_english_core_and_trailing_tail, split_by,
  rposition, take, drop,
}
use open_switcher.Switch.Plans.{
  manual_correction_plan, same_layout_case_correction_plan, CorrectionPlan, Keystrokes-discrete,
  Keystroke-discrete,
}
use open_switcher.Switch.Texts.{is_one_of, is_ascii_alphabetic}
use open_switcher.Switch.Heuristics.{
  layout_correction_direction, russian_to_english, normalize_word_for_switch_heuristics,
}
use open_switcher.Switch.CaseLaws.{keys_of}
use open_switcher.Switch.ReplayLaws.{typed, replayed}
use open_switcher.Switch.PlanLaws.{core_of, manual_correction_plan_retypes}
use open_switcher.Switch.Mistakes.{Mistaken}
use open_switcher.Switch.CasePlanLaws.{
  same_layout_case_correction_plan_iff, same_layout_case_correction_plan_writes,
}
use open_switcher.Switch.DirectionLaws.{english_words_corrected}
use open_switcher.Switch.AnyCase.{plain, layout_correction_direction-plain}
use open_switcher.Switch.CapsRetyping.{accidental_caps_lock_retypes}

abbrev stroke : Key → Bool → Bool → Keystroke
stroke k s c = record { key = k; shift = s; caps_lock = c }

-- "HEllo," with Shift held for two letters.
abbrev two_capitals : List Keystroke
two_capitals =
    stroke key_h true false
    ∷ stroke key_e true false
    ∷ stroke key_l false false
    ∷ stroke key_l false false
    ∷ stroke key_o false false
    ∷ stroke key_comma false false
    ∷ []

-- "dON'T" with Caps Lock on.
abbrev dont : List Keystroke
dont =
    stroke key_d true true
    ∷ stroke key_o false true
    ∷ stroke key_n false true
    ∷ stroke key_apostrophe false true
    ∷ stroke key_t false true
    ∷ []

abbrev unshifted : List Key → List Keystroke
unshifted = map (λ k. stroke k false false)

-- Opens what a split computes with.
split_english : List Keystroke → List Keystroke
unfolding split_word_core_and_trailing_tail split_by rposition take drop
    is_trailing_tail_punctuation is_trailing_tail_punctuation_char visible_char_for_layout
    visible_char_for_keystroke
split_english ks = (split_word_core_and_trailing_tail ks english).core

two_capitals_core : length (split_english two_capitals) ≡ 5
unfolding split_english xor
two_capitals_core = refl

same_layout_case_correction_plan_iff_example :
    (same_layout_case_correction_plan two_capitals english true false ≢ none)
    ↔ Mistaken (core_of two_capitals english) true false
same_layout_case_correction_plan_iff_example =
    same_layout_case_correction_plan_iff two_capitals english true false

-- What is shown, with Caps Lock on, for a key with or without Shift.
abbrev shown : List (Key × Bool) → List (Option ℕ)
shown = map (λ k. key_to_char k.0 k.1 true)

accidental_caps_lock_retypes_example :
    replayed true (apply_case_fixes_to_strokes dont false true)
    ≡ (key_d, false) ∷ (key_o, true) ∷ (key_n, true) ∷ (key_apostrophe, true) ∷ (key_t, true) ∷ []
unfolding case_pattern letter_case_for_stroke is_case_fix_letter_key has_accidental_caps_lock xor
accidental_caps_lock_retypes_example =
    accidental_caps_lock_retypes (stroke key_d true true)
      (stroke key_o false true
        ∷ stroke key_n false true
        ∷ stroke key_apostrophe false true
        ∷ stroke key_t false true
        ∷ [])
      (lower ∷ upper ∷ upper ∷ upper ∷ upper ∷ []) false refl refl

-- The apostrophe of "dON'T" comes back as a quotation mark.
dont-typed : shown (typed dont) ≡ some b'd' ∷ some b'O' ∷ some b'N' ∷ some b'\'' ∷ some b'T' ∷ []
unfolding key_to_char xor
dont-typed = refl

dont_retyped :
    shown
      ((key_d, false) ∷ (key_o, true) ∷ (key_n, true) ∷ (key_apostrophe, true) ∷ (key_t, true) ∷ [])
    ≡ some b'D' ∷ some b'o' ∷ some b'n' ∷ some b'"' ∷ some b't' ∷ []
unfolding key_to_char xor
dont_retyped = refl

-- The equations below are found by computation, with what they compute with open.
cargo : List Keystroke
cargo = stroke key_c true false ∷ unshifted (key_a ∷ key_r ∷ key_g ∷ key_o ∷ key_comma ∷ [])

cache : List Keystroke
cache = stroke key_c true true ∷ unshifted (key_a ∷ key_c ∷ key_h ∷ key_e ∷ [])

english_words_corrected_example :
    layout_correction_direction cache russian ≡ some russian_to_english
unfolding cache split_physical_english_core_and_trailing_tail split_by rposition take drop
    is_trailing_tail_punctuation_char visible_char_for_keystroke
    normalize_word_for_switch_heuristics keys_to_string is_one_of xor
english_words_corrected_example = english_words_corrected cache refl

ruku : List Keystroke
ruku = unshifted (key_h ∷ key_e ∷ key_r ∷ key_e ∷ [])

layout_correction_direction-plain_example :
    layout_correction_direction cache russian
    ≡ layout_correction_direction (map plain cache) russian
unfolding cache key_to_char is_ascii_alphabetic xor
layout_correction_direction-plain_example =
    layout_correction_direction-plain cache russian (refl, (refl, (refl, (refl, (refl, tt)))))

abbrev two_capitals_plan : CorrectionPlan
two_capitals_plan = record {
  buffer = stroke key_h true false ∷ unshifted (key_e ∷ key_l ∷ key_l ∷ key_o ∷ key_comma ∷ []);
  extra_backspaces = 0;
}

two_capitals_planned :
    same_layout_case_correction_plan two_capitals english true false ≡ some two_capitals_plan
unfolding same_layout_case_correction_plan apply_case_fixes_to_strokes case_pattern
    split_word_core_and_trailing_tail split_by take rposition is_trailing_tail_punctuation
    visible_char_for_layout visible_char_for_keystroke is_trailing_tail_punctuation_char xor
    normalize_stroke drop letter_case_for_stroke is_case_fix_letter_key key_to_char
    Keystrokes-discrete Keystroke-discrete Key-discrete ℕ_discrete corrected_case_pattern
    has_two_capitals has_accidental_caps_lock with_cases lower_second capitalize
two_capitals_planned = refl

same_layout_case_correction_plan_writes_example :
    keys_of two_capitals_plan.buffer ≡ keys_of two_capitals
same_layout_case_correction_plan_writes_example =
    (same_layout_case_correction_plan_writes two_capitals english true false two_capitals_planned).5

-- "dO" with Caps Lock on, followed by a separator.
abbrev last_word : List Keystroke
last_word = stroke key_d true true ∷ stroke key_o false true ∷ []

abbrev last_word_plan : CorrectionPlan
last_word_plan = record {
  buffer = stroke key_d false false ∷ stroke key_o true false ∷ [];
  extra_backspaces = 1;
}

last_word_planned : manual_correction_plan [] last_word true english ≡ some last_word_plan
unfolding manual_correction_plan split_word_core_and_trailing_tail split_by take rposition
    is_trailing_tail_punctuation visible_char_for_layout visible_char_for_keystroke
    is_trailing_tail_punctuation_char xor normalize_stroke drop letter_case_for_stroke
    is_case_fix_letter_key key_to_char
last_word_planned = refl

manual_correction_plan_retypes_example :
    (replayed true last_word_plan.buffer ≡ (key_d, true) ∷ (key_o, false) ∷ [])
    × (last_word_plan.extra_backspaces ≡ 1)
manual_correction_plan_retypes_example =
    manual_correction_plan_retypes [] last_word true true english last_word_planned
      (refl, (refl, tt))
