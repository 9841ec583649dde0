-- ===== src/Switch/CapsRetyping.antt =====
-- The correction of an accidental Caps Lock, as it is retyped while Caps Lock is still on.
use open_switcher.Key.{Key}
use open_switcher.Prelude.{◌≡◌, refl, ap₂, Bool, true, false, xor, List, [], ◌∷◌, map, some, arith}
use open_switcher.Switch.Keymap.{Keystroke, is_case_fix_letter_key, replay_shift_for_stroke}
use open_switcher.Switch.Cases.{
  LetterCase, upper, lower, is_upper, is_lower, letter_case_for_stroke, case_pattern,
  has_accidental_caps_lock, capitalize, with_cases, normalize_stroke, normalize_strokes_for_replay,
  apply_case_fixes_to_strokes, corrected_case_pattern,
}
use open_switcher.Switch.CaseLaws.{
  corrected_case_pattern-capitalize, with_case-inv, key-normalize_stroke,
}
use open_switcher.Switch.ReplayLaws.{replayed, letter_keys_agree}

letter_of_case :
    (k : Keystroke) (a : LetterCase)
    → letter_case_for_stroke k ≡ some a
    → is_case_fix_letter_key k.key ≡ true
unfolding letter_case_for_stroke
letter_of_case k a h = ground arith

retyped_stroke :
    (k : Keystroke) (a c : LetterCase)
    → letter_case_for_stroke k ≡ some a
    → ◌≡◌ {A = Key × Bool}
        (
          (normalize_stroke k).key,
          replay_shift_for_stroke
              (record (normalize_stroke k) { shift = is_upper c; caps_lock = false })
              true,
        )
        (k.key, is_lower c)
unfolding replay_shift_for_stroke xor
retyped_stroke k a c h = ground (
  arith,
  letter_of_case k a h,
  letter_keys_agree (normalize_stroke k).key,
  key-normalize_stroke k,
)

-- Strokes that are rewritten as small letters are all retyped with Shift.
retyped_lower :
    (ks : List Keystroke) (ps : List LetterCase)
    → case_pattern ks ≡ some ps
    → replayed true (with_cases (normalize_strokes_for_replay ks) (map (λ _. lower) ps))
      ≡ map (λ k. (k.key, true)) ks
unfolding case_pattern with_cases
retyped_lower [] ps h = refl
retyped_lower (k ∷ ks) ps h =
    let (a, as', o, os, e) = with_case-inv (letter_case_for_stroke k) (case_pattern ks) ps h in
    rw e (ap₂ ◌∷◌ (retyped_stroke k a lower o) (retyped_lower ks as' os))

two_or_caps :
    (ps : List LetterCase) (two : Bool)
    → has_accidental_caps_lock ps ≡ true
    → corrected_case_pattern ps two true ≡ some (capitalize ps)
two_or_caps ps two h = rw (corrected_case_pattern-capitalize ps two true, h) (ground arith)

-- A word that looks like an accidental Caps Lock is retyped, while Caps Lock is on, with its first
-- key without Shift and every other key with Shift, whatever that key is. A letter so becomes
-- small; a key that shows no letter in the active layout is shifted too.
pub accidental_caps_lock_retypes :
    (k : Keystroke) (ks : List Keystroke) (ps : List LetterCase) (two : Bool)
    → case_pattern (k ∷ ks) ≡ some ps
    → has_accidental_caps_lock ps ≡ true
    → replayed true (apply_case_fixes_to_strokes (k ∷ ks) two true)
      ≡ (k.key, false) ∷ map (λ l. (l.key, true)) ks
unfolding apply_case_fixes_to_strokes case_pattern with_cases capitalize
accidental_caps_lock_retypes k ks ps two h accident =
    let (a, as', o, os, e) = with_case-inv (letter_case_for_stroke k) (case_pattern ks) ps h in
    rw (h, two_or_caps ps two accident, e)
      (ap₂ ◌∷◌ (retyped_stroke k a upper o) (retyped_lower ks as' os))
