-- ===== src/Switch/Cases.antt =====
-- src/daemon/switch_logic.rs: the case of a stroke, the form in which strokes are replayed, and the
-- two case corrections.
use open_switcher.Prelude.{
  Bool, true, false, ◌&&◌, xor, List, [], ◌∷◌, map, Option, none, some, all, if◌then◌else◌,
}
use open_switcher.Switch.Keymap.{Keystroke, is_case_fix_letter_key}

pub data LetterCase : Type 0 where
  upper lower : LetterCase

abbrev pub is_upper : LetterCase → Bool
is_upper upper = true
is_upper lower = false

abbrev pub is_lower : LetterCase → Bool
is_lower upper = false
is_lower lower = true

unfoldable pub letter_case_for_stroke : Keystroke → Option LetterCase
letter_case_for_stroke stroke =
    if is_case_fix_letter_key stroke.key
    then some (if xor stroke.shift stroke.caps_lock then upper else lower)
    else none

-- The closure of `normalize_strokes_for_replay`.
abbrev pub replayed_as : Keystroke → Option LetterCase → Keystroke
replayed_as stroke (some upper) = record stroke { shift = true; caps_lock = false }
replayed_as stroke (some lower) = record stroke { shift = false; caps_lock = false }
replayed_as stroke none = record stroke { caps_lock = false }

unfoldable pub normalize_stroke : Keystroke → Keystroke
normalize_stroke stroke = replayed_as stroke (letter_case_for_stroke stroke)

abbrev pub normalize_strokes_for_replay : List Keystroke → List Keystroke
normalize_strokes_for_replay = map normalize_stroke

-- `.collect::<Option<Vec<_>>>()`: every stroke must have a case.
abbrev pub with_case : Option LetterCase → Option (List LetterCase) → Option (List LetterCase)
with_case none cs = none
with_case (some c) none = none
with_case (some c) (some cs) = some (c ∷ cs)

unfoldable pub case_pattern : List Keystroke → Option (List LetterCase)
case_pattern [] = some []
case_pattern (k ∷ ks) = with_case (letter_case_for_stroke k) (case_pattern ks)

-- `pattern.len() >= 3`, two capitals, then small letters only.
unfoldable pub has_two_capitals : List LetterCase → Bool
has_two_capitals (a ∷ b ∷ c ∷ cs) = is_upper a && is_upper b && all is_lower (c ∷ cs)
has_two_capitals _ = false

-- `pattern.len() >= 2`, a small letter, then capitals only.
unfoldable pub has_accidental_caps_lock : List LetterCase → Bool
has_accidental_caps_lock (a ∷ b ∷ cs) = is_lower a && all is_upper (b ∷ cs)
has_accidental_caps_lock _ = false

-- `corrected[1] = Lower`.
unfoldable pub lower_second : List LetterCase → List LetterCase
lower_second (a ∷ b ∷ cs) = a ∷ lower ∷ cs
lower_second cs = cs

-- `corrected[0] = Upper`, and `Lower` in the rest.
unfoldable pub capitalize : List LetterCase → List LetterCase
capitalize [] = []
capitalize (a ∷ cs) = upper ∷ map (λ _. lower) cs

unfoldable pub corrected_case_pattern : List LetterCase → Bool → Bool → Option (List LetterCase)
corrected_case_pattern pattern fix_two_capitals fix_accidental_caps_lock =
    if fix_two_capitals && has_two_capitals pattern
    then some (lower_second pattern)
    else if fix_accidental_caps_lock && has_accidental_caps_lock pattern
    then some (capitalize pattern)
    else none

-- The loop over `corrected.iter_mut().zip(corrected_pattern)`: `zip` stops at the shorter.
unfoldable pub with_cases : List Keystroke → List LetterCase → List Keystroke
with_cases (k ∷ ks) (c ∷ cs) = record k { shift = is_upper c; caps_lock = false } ∷ with_cases ks cs
with_cases ks _ = ks

abbrev pub with_pattern : List Keystroke → Option (List LetterCase) → List Keystroke
with_pattern normalized none = normalized
with_pattern normalized (some corrected) = with_cases normalized corrected

abbrev pub corrected_pattern : Option (List LetterCase) → Bool → Bool → Option (List LetterCase)
corrected_pattern none two caps = none
corrected_pattern (some pattern) two caps = corrected_case_pattern pattern two caps

unfoldable pub apply_case_fixes_to_strokes : List Keystroke → Bool → Bool → List Keystroke
apply_case_fixes_to_strokes buffer fix_two_capitals fix_accidental_caps_lock =
    with_pattern (normalize_strokes_for_replay buffer)
      (corrected_pattern (case_pattern buffer) fix_two_capitals fix_accidental_caps_lock)
