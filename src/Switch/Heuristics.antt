-- ===== src/Switch/Heuristics.antt =====
-- src/daemon/switch_logic.rs: whether a word looks English or Russian, and the direction of a
-- correction. The scores are sums of small constants, far below the bounds of `i32` and `usize`.
use open_switcher.Key.{Key}
use open_switcher.Prelude.{
  ℕ, ◌+◌, ◌*◌, Bool, true, false, not, ◌&&◌, ◌||◌, List, [], ◌∷◌, map, Option, none, some, length,
  any, all, count_if, is_empty, is_some_and, leb, ltb, ◌==◌, if◌then◌else◌,
}
use open_switcher.Switch.Keymap.{
  Keystroke, AppLayoutKind, english, russian, other_layout, unknown, codes, keys_to_string,
  keys_to_visible_string, visible_char_for_keystroke, is_russian_letter,
}
use open_switcher.Switch.Split.{
  split_word_core_and_trailing_tail, split_physical_english_core_and_trailing_tail,
}
use open_switcher.Switch.Texts.{
  contains, ends_with, is_one_of, trim_end_matches, to_lowercase, is_ascii_alphabetic,
}
use open_switcher.Switch.Words.{
  excluded_words, technical_english_words, english_layout_no_vowel_technical_words,
  russian_priority_physical_words, ru_layout_common_english_words, strong_suffixes, strong_trigrams,
  common_bigrams, common_trigrams, unlikely_short_clusters, common_english_suffixes,
  common_english_bigrams,
}

pub data LayoutCorrectionDirection : Type 0 where
  english_to_russian russian_to_english : LayoutCorrectionDirection

unfoldable pub normalize_word_for_switch_heuristics : List ℕ → List ℕ
unfolding to_lowercase
normalize_word_for_switch_heuristics word = map to_lowercase word

abbrev pub is_latin_vowel : ℕ → Bool
is_latin_vowel c = c == b'a' || c == b'e' || c == b'i' || c == b'o' || c == b'u'

abbrev pub is_latin_vowel_or_y : ℕ → Bool
is_latin_vowel_or_y c = is_latin_vowel c || c == b'y'

unfoldable pub contains_latin_vowel : List ℕ → Bool
contains_latin_vowel word = any is_latin_vowel word

unfoldable pub count_latin_vowels_without_y : List ℕ → ℕ
count_latin_vowels_without_y word = count_if is_latin_vowel word

unfoldable pub has_strong_english_signal : List ℕ → Bool
unfolding contains ends_with
has_strong_english_signal word =
    any (λ s. ends_with word (codes s)) strong_suffixes
    || any (λ t. contains word (codes t)) strong_trigrams

unfoldable pub english_pattern_score : List ℕ → ℕ
unfolding contains
english_pattern_score word =
    count_if (λ b. contains word (codes b)) common_bigrams
    + count_if (λ t. contains word (codes t)) common_trigrams * 2

unfoldable pub has_short_unlikely_english_cluster : List ℕ → Bool
unfolding contains ends_with
has_short_unlikely_english_cluster word =
    ends_with word (codes "f")
    || ends_with word (codes "j")
    || any (λ c. contains word (codes c)) unlikely_short_clusters

unfoldable pub has_common_english_suffix : List ℕ → Bool
unfolding ends_with
has_common_english_suffix word = any (λ s. ends_with word (codes s)) common_english_suffixes

unfoldable pub has_common_english_bigram : List ℕ → Bool
unfolding contains
has_common_english_bigram word = any (λ b. contains word (codes b)) common_english_bigrams

unfoldable pub is_explicit_english_guard_word : List ℕ → Bool
unfolding is_one_of
is_explicit_english_guard_word word =
    ltb (length word) 3 || is_one_of excluded_words word || is_one_of technical_english_words word

abbrev pub is_english_punctuation : ℕ → Bool
is_english_punctuation c =
    c == b'.' || c == b',' || c == b';' || c == b'\'' || c == b'`' || c == b'[' || c == b']'

unfoldable pub is_likely_english : List ℕ → Bool
unfolding trim_end_matches is_explicit_english_guard_word has_common_english_suffix
    has_common_english_bigram
is_likely_english word =
    let clean_word = trim_end_matches is_english_punctuation word in
    let eng_vowels = count_if is_latin_vowel_or_y clean_word in
    is_explicit_english_guard_word clean_word
    || leb 2 eng_vowels && leb (length clean_word) 5
    || leb 2 eng_vowels && has_common_english_suffix clean_word
    || leb 1 eng_vowels && has_common_english_bigram clean_word

unfoldable pub is_confident_english_for_russian_layout : List ℕ → Bool
unfolding is_one_of contains_latin_vowel english_pattern_score has_short_unlikely_english_cluster
    has_strong_english_signal count_latin_vowels_without_y is_likely_english
is_confident_english_for_russian_layout word =
    if is_one_of russian_priority_physical_words word
    then false
    else if is_one_of ru_layout_common_english_words word
    then true
    else if is_one_of technical_english_words word
    then true
    else if not (contains_latin_vowel word)
    then false
    else let pattern_score = english_pattern_score word in
      if leb (length word) 5
      then leb 3 pattern_score && not (has_short_unlikely_english_cluster word)
      else if has_strong_english_signal word && leb 2 pattern_score
      then true
      else leb 4 pattern_score
        || leb 2 (count_latin_vowels_without_y word)
          && leb 3 pattern_score
          && is_likely_english word

-- '0'..='9', '/', ':', '_', '.' and '-'.
abbrev pub is_structural_char : ℕ → Bool
is_structural_char c =
    leb b'0' c && leb c b'9' || c == b'/' || c == b':' || c == b'_' || c == b'.' || c == b'-'

unfoldable pub is_structural_code_token_stroke : Keystroke → Bool
is_structural_code_token_stroke stroke =
    is_some_and is_structural_char (visible_char_for_keystroke stroke)

unfoldable pub is_english_layout_technical_token : List Keystroke → List ℕ → Bool
unfolding is_one_of is_structural_code_token_stroke
is_english_layout_technical_token core word =
    is_one_of english_layout_no_vowel_technical_words word
    || any is_structural_code_token_stroke core

unfoldable pub is_russian_vowel_key : Key → Bool
is_russian_vowel_key Key.key_f = true
is_russian_vowel_key Key.key_t = true
is_russian_vowel_key Key.key_grave = true
is_russian_vowel_key Key.key_b = true
is_russian_vowel_key Key.key_j = true
is_russian_vowel_key Key.key_e = true
is_russian_vowel_key Key.key_s = true
is_russian_vowel_key Key.key_apostrophe = true
is_russian_vowel_key Key.key_dot = true
is_russian_vowel_key Key.key_z = true
is_russian_vowel_key _ = false

unfoldable pub count_russian_vowels : List Keystroke → ℕ
unfolding is_russian_vowel_key
count_russian_vowels keys = count_if (λ stroke. is_russian_vowel_key stroke.key) keys

-- The score of one key; `last` says that `index < core.len() - 1` fails.
unfoldable pub key_score : Key → Bool → ℕ
key_score Key.key_leftbrace last = 15
key_score Key.key_rightbrace last = 15
key_score Key.key_semicolon last = 15
key_score Key.key_apostrophe last = 15
key_score Key.key_grave last = 15
key_score Key.key_comma last = if last then 5 else 15
key_score Key.key_dot last = if last then 5 else 15
key_score _ last = 0

unfoldable pub keys_score : List Keystroke → ℕ
unfolding key_score
keys_score [] = 0
keys_score (k ∷ ks) = key_score k.key (is_empty ks) + keys_score ks

unfoldable pub english_layout_russian_physical_score : List Keystroke → List ℕ → ℕ
unfolding keys_score count_russian_vowels
english_layout_russian_physical_score core word =
    let rus_vowels = count_russian_vowels core in
    let eng_vowels = count_if is_latin_vowel_or_y word in
    keys_score core
    + (if ltb eng_vowels rus_vowels then 10 else 0)
    + (if eng_vowels == 0 then 12 else 0)

unfoldable pub should_switch_english_to_russian : List Keystroke → Bool
should_switch_english_to_russian buffer =
    let core = (split_word_core_and_trailing_tail buffer english).core in
    let word = normalize_word_for_switch_heuristics (keys_to_string core) in
    if ltb (length core) 3
    then false
    else if is_english_layout_technical_token core word
    then false
    else if is_likely_english word
    then false
    else leb 10 (english_layout_russian_physical_score core word)

unfoldable pub should_switch_russian_to_english : List Keystroke → Bool
should_switch_russian_to_english buffer =
    let core = (split_physical_english_core_and_trailing_tail buffer).core in
    let word = normalize_word_for_switch_heuristics (keys_to_string core) in
    if ltb (length core) 3
    then false
    else if not (all is_ascii_alphabetic word)
    then false
    else if not (any is_russian_letter (keys_to_visible_string core russian))
    then false
    else is_confident_english_for_russian_layout word

-- `.then_some`.
abbrev pub then_some {ℓ} : {A : Type ℓ} → Bool → A → Option A
then_some true a = some a
then_some false a = none

unfoldable pub layout_correction_direction :
    List Keystroke → AppLayoutKind → Option LayoutCorrectionDirection
layout_correction_direction buffer english =
    then_some (should_switch_english_to_russian buffer) english_to_russian
layout_correction_direction buffer russian =
    then_some (should_switch_russian_to_english buffer) russian_to_english
layout_correction_direction buffer other_layout = none
layout_correction_direction buffer unknown = none

unfoldable pub should_switch : List Keystroke → AppLayoutKind → Bool
unfolding layout_correction_direction
should_switch buffer kind = elim (layout_correction_direction buffer kind) [
  | none ↦ false
  | some direction ↦ true
]
