-- ===== src/Switch/AnyCase.antt =====
-- Shift and Caps Lock do not matter to the direction of a correction, of a word of Latin letter keys.
use open_switcher.Key.{Key}
use open_switcher.Prelude.{
  ℕ, ◌≡◌, refl, sym, ap, subst, ◌∙◌, Bool, true, false, ◌&&◌, xor, List, [], ◌∷◌, ◌++◌, map, none,
  All, any, all, length, arith, is_empty, is_some_and, ltb, ◌+◌, length-map, not, if◌then◌else◌,
  append-nil, ◌≢◌,
}
use open_switcher.Switch.Keymap.{
  Keystroke, AppLayoutKind, english, russian, other_layout, unknown, key_to_char, map_char,
  visible_char_for_keystroke, visible_char_for_layout, keys_to_string, is_trailing_tail_punctuation,
  is_trailing_tail_punctuation_char,
}
use open_switcher.Switch.Split.{is_physical_tail, WordCoreAndTrailingTail}
use open_switcher.Switch.Texts.{to_lowercase, is_ascii_alphabetic}
use open_switcher.Switch.Heuristics.{
  normalize_word_for_switch_heuristics, is_structural_char, is_structural_code_token_stroke,
  keys_score, is_russian_vowel_key, count_russian_vowels, english_layout_russian_physical_score,
  is_english_layout_technical_token, should_switch_english_to_russian,
  should_switch_russian_to_english, layout_correction_direction,
  is_confident_english_for_russian_layout,
}
use open_switcher.Switch.SplitLaws.{Splits, split-Splits}
use open_switcher.Switch.PlanLaws.{core_of}
use open_switcher.Switch.DirectionLaws.{physical_core}
use open_switcher.Switch.TextLaws.{any_russian}

abbrev pub is_latin_key : Key → Bool
is_latin_key k = is_some_and is_ascii_alphabetic (key_to_char k false false)

-- The stroke without Shift and Caps Lock.
abbrev pub plain : Keystroke → Keystroke
plain k = record k { shift = false; caps_lock = false }

char_in_lowercase :
    (k : Key) (shift caps : Bool)
    → is_latin_key k ≡ true
    → map_char to_lowercase (key_to_char k shift caps) ≡ key_to_char k false false
unfolding key_to_char is_ascii_alphabetic to_lowercase xor
char_in_lowercase Key.key_a true true h = refl
char_in_lowercase _ _ _ h = ground arith

not_structural :
    (k : Key) (shift caps : Bool)
    → is_latin_key k ≡ true
    → (is_some_and is_structural_char (key_to_char k shift caps) ≡ false)
      × (is_some_and is_trailing_tail_punctuation_char (key_to_char k shift caps) ≡ false)
unfolding key_to_char is_ascii_alphabetic is_trailing_tail_punctuation_char xor
not_structural Key.key_a true true h = (refl, refl)
not_structural _ _ _ h = ground arith

abbrev pub IsLatin : List Keystroke → Type 0
IsLatin = All (λ k. is_latin_key k.key ≡ true)

-- The word spelled in small letters depends on the keys alone.
pub normalize-plain :
    (ks : List Keystroke)
    → IsLatin ks
    → normalize_word_for_switch_heuristics (keys_to_string (map plain ks))
      ≡ normalize_word_for_switch_heuristics (keys_to_string ks)
unfolding normalize_word_for_switch_heuristics keys_to_string visible_char_for_keystroke
normalize-plain [] h = refl
normalize-plain (k ∷ ks) h = ground (
  arith,
  char_in_lowercase k.key k.shift k.caps_lock h.0,
  char_in_lowercase k.key false false h.0,
  normalize-plain ks h.1,
)

module _ (is_tail : Keystroke → Bool) where
  All-right :
      (xs ys : List Keystroke)
      → All (λ k. is_tail k ≡ false) (xs ++ ys)
      → All (λ k. is_tail k ≡ false) ys
  All-right [] ys h = h
  All-right (x ∷ xs) ys h = All-right xs ys h.1

  no_tail :
      (core tail : List Keystroke)
      → All (λ k. is_tail k ≡ true) tail
      → All (λ k. is_tail k ≡ false) (core ++ tail)
      → tail ≡ []
  no_tail core [] t h = refl
  no_tail core (k ∷ tail) t h = cc (t.0, (All-right core (k ∷ tail) h).0)

-- A word without punctuation strokes is all core.
core_whole :
    (is_tail : Keystroke → Bool) (ks : List Keystroke) (s : WordCoreAndTrailingTail)
    → Splits is_tail ks s
    → All (λ k. is_tail k ≡ false) ks
    → s.core ≡ ks
core_whole is_tail ks s p h =
    let nothing =
      no_tail is_tail s.core s.trailing_tail p.tail_only
        (subst (All (λ k. is_tail k ≡ false)) (sym p.joined) h) in
    sym (append-nil s.core) ∙ ap (◌++◌ s.core) (sym nothing) ∙ p.joined

not_tail :
    (ks : List Keystroke)
    → IsLatin ks
    → All (λ k. is_trailing_tail_punctuation k english ≡ false) ks
      × All (λ k. is_physical_tail k ≡ false) ks
unfolding is_trailing_tail_punctuation visible_char_for_layout visible_char_for_keystroke
not_tail [] h = (tt, tt)
not_tail (k ∷ ks) h =
    let (e, p) = not_tail ks h.1 in
    let quiet = not_structural k.key k.shift k.caps_lock h.0 in
    ((ground (arith, quiet), e), (ground (arith, quiet), p))

pub core_of-latin : (ks : List Keystroke) → IsLatin ks → core_of ks english ≡ ks
core_of-latin ks h = core_whole _ ks _ (split-Splits ks english).0 (not_tail ks h).0

pub physical_core-latin : (ks : List Keystroke) → IsLatin ks → physical_core ks ≡ ks
physical_core-latin ks h = core_whole _ ks _ (split-Splits ks english).1 (not_tail ks h).1

plain-IsLatin : (ks : List Keystroke) → IsLatin ks → IsLatin (map plain ks)
plain-IsLatin [] h = tt
plain-IsLatin (k ∷ ks) h = (h.0, plain-IsLatin ks h.1)

no_structural : (ks : List Keystroke) → IsLatin ks → any is_structural_code_token_stroke ks ≡ false
unfolding is_structural_code_token_stroke visible_char_for_keystroke
no_structural [] h = refl
no_structural (k ∷ ks) h =
    ground (arith, not_structural k.key k.shift k.caps_lock h.0, no_structural ks h.1)

is_empty-map : (ks : List Keystroke) → is_empty (map plain ks) ≡ is_empty ks
is_empty-map [] = refl
is_empty-map (k ∷ ks) = refl

keys_score-plain : (ks : List Keystroke) → keys_score (map plain ks) ≡ keys_score ks
unfolding keys_score
keys_score-plain [] = refl
keys_score-plain (k ∷ ks) = rw (is_empty-map ks, keys_score-plain ks)

vowels-plain : (ks : List Keystroke) → count_russian_vowels (map plain ks) ≡ count_russian_vowels ks
unfolding count_russian_vowels
vowels-plain [] = refl
vowels-plain (k ∷ ks) =
    ap (λ (n : ℕ). (if is_russian_vowel_key k.key then 1 else 0) + n) (vowels-plain ks)

score-plain :
    (ks : List Keystroke) (word : List ℕ)
    → english_layout_russian_physical_score (map plain ks) word
      ≡ english_layout_russian_physical_score ks word
unfolding english_layout_russian_physical_score
score-plain ks word = rw (keys_score-plain ks, vowels-plain ks)

english-plain :
    (ks : List Keystroke)
    → IsLatin ks
    → should_switch_english_to_russian (map plain ks) ≡ should_switch_english_to_russian ks
unfolding should_switch_english_to_russian is_english_layout_technical_token
english-plain ks h = rw (
  core_of-latin (map plain ks) (plain-IsLatin ks h),
  core_of-latin ks h,
  normalize-plain ks h,
  length-map plain ks,
  no_structural (map plain ks) (plain-IsLatin ks h),
  no_structural ks h,
  score-plain ks,
)

shows_something :
    (k : Key) (shift caps : Bool) → is_latin_key k ≡ true → key_to_char k shift caps ≢ none
unfolding key_to_char
shows_something Key.key_a true true h = λ e. cc
shows_something _ _ _ h = λ e. ground arith

length-latin : (ks : List Keystroke) → IsLatin ks → length (keys_to_string ks) ≡ length ks
unfolding keys_to_string visible_char_for_keystroke
length-latin [] h = refl
length-latin (k ∷ ks) h =
    ground (arith, shows_something k.key k.shift k.caps_lock h.0, length-latin ks h.1)

-- The last two tests of `should_switch_russian_to_english`, at a core that shows a Russian letter
-- if it is spelled in Latin letters.
russian_tests :
    (ks : List Keystroke)
    → IsLatin ks
    → should_switch_russian_to_english ks ≡ (
        not (ltb (length ks) 3)
        && (all is_ascii_alphabetic (normalize_word_for_switch_heuristics (keys_to_string ks))
            && is_confident_english_for_russian_layout
                (normalize_word_for_switch_heuristics (keys_to_string ks))))
unfolding should_switch_russian_to_english
russian_tests ks h =
    rw (physical_core-latin ks h) (ground (arith, any_russian ks, length-latin ks h))

russian-plain :
    (ks : List Keystroke)
    → IsLatin ks
    → should_switch_russian_to_english (map plain ks) ≡ should_switch_russian_to_english ks
russian-plain ks h = rw (
  russian_tests (map plain ks) (plain-IsLatin ks h),
  russian_tests ks h,
  normalize-plain ks h,
  length-map plain ks,
)

-- Of a word whose strokes are all Latin letter keys, the direction of the correction depends on the
-- keys alone, in every layout: Shift and Caps Lock may be held or not at each stroke.
pub layout_correction_direction-plain :
    (ks : List Keystroke) (kind : AppLayoutKind)
    → IsLatin ks
    → layout_correction_direction ks kind ≡ layout_correction_direction (map plain ks) kind
unfolding layout_correction_direction
layout_correction_direction-plain ks english h = rw (english-plain ks h)
layout_correction_direction-plain ks russian h = rw (russian-plain ks h)
layout_correction_direction-plain ks other_layout h = refl
layout_correction_direction-plain ks unknown h = refl
