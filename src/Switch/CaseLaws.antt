-- ===== src/Switch/CaseLaws.antt =====
-- The case corrections: they keep the keys, capitalise the word, and change nothing a second time.
use open_switcher.Key.{Key}
use open_switcher.Prelude.{
  suc, ◌≡◌, refl, sym, ap, ◌∙◌, inl, inr, Bool, true, false, ◌&&◌, ◌||◌, xor, List, [], ◌∷◌, map,
  Option, none, some, all, length, arith, Option-cases, Bool-cases, if◌then◌else◌,
}
use open_switcher.Switch.Keymap.{Keystroke}
use open_switcher.Switch.Cases.{
  LetterCase, upper, lower, is_upper, is_lower, letter_case_for_stroke, normalize_stroke,
  normalize_strokes_for_replay, with_case, case_pattern, has_two_capitals, has_accidental_caps_lock,
  lower_second, capitalize, corrected_case_pattern, with_cases, corrected_pattern,
  apply_case_fixes_to_strokes,
}

abbrev pub keys_of : List Keystroke → List Key
keys_of = map (λ k. k.key)

pub key-normalize_stroke : (k : Keystroke) → (normalize_stroke k).key ≡ k.key
unfolding normalize_stroke letter_case_for_stroke
key-normalize_stroke k = ground arith

pub keys_of-normalize :
    (ks : List Keystroke) → keys_of (normalize_strokes_for_replay ks) ≡ keys_of ks
keys_of-normalize [] = refl
keys_of-normalize (k ∷ ks) = cc (key-normalize_stroke k, keys_of-normalize ks)

keys_of-with_cases :
    (ks : List Keystroke) (cs : List LetterCase) → keys_of (with_cases ks cs) ≡ keys_of ks
unfolding with_cases
keys_of-with_cases [] cs = refl
keys_of-with_cases (k ∷ ks) [] = refl
keys_of-with_cases (k ∷ ks) (c ∷ cs) = ap (◌∷◌ k.key) (keys_of-with_cases ks cs)

pub keys_of-apply :
    (ks : List Keystroke) (two caps : Bool)
    → keys_of (apply_case_fixes_to_strokes ks two caps) ≡ keys_of ks
unfolding apply_case_fixes_to_strokes
keys_of-apply ks two caps = elim (Option-cases (corrected_pattern (case_pattern ks) two caps)) [
  | inl e ↦ rw e (keys_of-normalize ks)
  | inr (cs, e) ↦
      rw e (keys_of-with_cases (normalize_strokes_for_replay ks) cs ∙ keys_of-normalize ks)
]

letter_case-normalize :
    (k : Keystroke) → letter_case_for_stroke (normalize_stroke k) ≡ letter_case_for_stroke k
unfolding normalize_stroke letter_case_for_stroke xor
letter_case-normalize k = ground arith

pub case_pattern-normalize :
    (ks : List Keystroke) → case_pattern (normalize_strokes_for_replay ks) ≡ case_pattern ks
unfolding case_pattern
case_pattern-normalize [] = refl
case_pattern-normalize (k ∷ ks) = rw (letter_case-normalize k, case_pattern-normalize ks)

letter_case-written :
    (k : Keystroke) (a c : LetterCase)
    → letter_case_for_stroke k ≡ some a
    → letter_case_for_stroke (record k { shift = is_upper c; caps_lock = false }) ≡ some c
unfolding letter_case_for_stroke xor
letter_case-written k a c h = ground arith

pub with_case-inv :
    (o : Option LetterCase) (os : Option (List LetterCase)) (ps : List LetterCase)
    → with_case o os ≡ some ps
    → (a : LetterCase) × (as' : List LetterCase) × (o ≡ some a) × (os ≡ some as') × (ps ≡ a ∷ as')
with_case-inv none os ps h = cc
with_case-inv (some a) none ps h = cc
with_case-inv (some a) (some as') ps h = (a, as', refl, refl, cc)

case_pattern-with_cases :
    (ks : List Keystroke) (ps cs : List LetterCase)
    → case_pattern ks ≡ some ps
    → length cs ≡ length ps
    → case_pattern (with_cases ks cs) ≡ some cs
unfolding case_pattern with_cases
case_pattern-with_cases [] ps [] h n = refl
case_pattern-with_cases [] ps (c ∷ cs) h n = ground arith
case_pattern-with_cases (k ∷ ks) ps [] h n =
    let (a, as', o, os, e) = with_case-inv (letter_case_for_stroke k) (case_pattern ks) ps h in
    absurd (omega (arith, ap length e))
case_pattern-with_cases (k ∷ ks) ps (c ∷ cs) h n =
    let (a, as', o, os, e) = with_case-inv (letter_case_for_stroke k) (case_pattern ks) ps h in
    rw (
      letter_case-written k a c o,
      case_pattern-with_cases ks as' cs os (omega (arith, ap length e)),
    )

length-map_lower : (ps : List LetterCase) → length (map (λ _. lower) ps) ≡ length ps
length-map_lower [] = refl
length-map_lower (a ∷ ps) = ap suc (length-map_lower ps)

length-capitalize : (ps : List LetterCase) → length (capitalize ps) ≡ length ps
unfolding capitalize
length-capitalize [] = refl
length-capitalize (a ∷ ps) = ap suc (length-map_lower ps)

pub all_lower : (ps : List LetterCase) → all is_lower ps ≡ true → map (λ _. lower) ps ≡ ps
all_lower [] h = refl
all_lower (upper ∷ ps) h = cc
all_lower (lower ∷ ps) h = ap (◌∷◌ lower) (all_lower ps h)

lower_second-capitalize :
    (ps : List LetterCase) → has_two_capitals ps ≡ true → lower_second ps ≡ capitalize ps
unfolding has_two_capitals lower_second capitalize
lower_second-capitalize [] h = cc
lower_second-capitalize (a ∷ []) h = cc
lower_second-capitalize (a ∷ b ∷ []) h = cc
lower_second-capitalize (upper ∷ upper ∷ c ∷ ps) h =
    sym (ap (λ cs. upper ∷ lower ∷ cs) (all_lower (c ∷ ps) h))
lower_second-capitalize (upper ∷ lower ∷ c ∷ ps) h = cc
lower_second-capitalize (lower ∷ b ∷ c ∷ ps) h = cc

-- Both corrections make the word start with a capital and go on in small letters; they apply
-- exactly to the two patterns, each if its setting is on.
pub corrected_case_pattern-capitalize :
    (ps : List LetterCase) (two caps : Bool)
    → corrected_case_pattern ps two caps ≡ (
        if two && has_two_capitals ps || caps && has_accidental_caps_lock ps
        then some (capitalize ps)
        else none)
unfolding corrected_case_pattern
corrected_case_pattern-capitalize ps two caps = ground (arith, lower_second-capitalize ps)

-- A capitalised word is neither pattern.
capitalize_stable :
    (ps : List LetterCase)
    → (has_two_capitals (capitalize ps) ≡ false)
      × (has_accidental_caps_lock (capitalize ps) ≡ false)
unfolding has_two_capitals has_accidental_caps_lock capitalize
capitalize_stable [] = (refl, refl)
capitalize_stable (a ∷ []) = (refl, refl)
capitalize_stable (a ∷ b ∷ []) = (refl, refl)
capitalize_stable (a ∷ b ∷ c ∷ ps) = (refl, refl)

-- Whether one of the corrections is due to a word with this pattern.
abbrev pub is_due : List LetterCase → Bool → Bool → Bool
is_due ps two caps = two && has_two_capitals ps || caps && has_accidental_caps_lock ps

-- The case of the strokes after the correction: of a word of letters, the capitalised pattern if a
-- correction is due, and otherwise the pattern as it was typed.
pub case_pattern-apply :
    (ks : List Keystroke) (ps : List LetterCase) (two caps : Bool)
    → case_pattern ks ≡ some ps
    → case_pattern (apply_case_fixes_to_strokes ks two caps)
      ≡ some (if is_due ps two caps then capitalize ps else ps)
unfolding apply_case_fixes_to_strokes
case_pattern-apply ks ps two caps h =
    rw (h, corrected_case_pattern-capitalize ps two caps)
      (elim (Bool-cases (is_due ps two caps)) [
        | inl due ↦ rw due (
            case_pattern-with_cases (normalize_strokes_for_replay ks) ps (capitalize ps)
              (case_pattern-normalize ks ∙ h) (length-capitalize ps))
        | inr not_due ↦ rw not_due (case_pattern-normalize ks ∙ h)
      ])

not_due :
    (ps : List LetterCase) (two caps : Bool)
    → is_due (if is_due ps two caps then capitalize ps else ps) two caps ≡ false
not_due ps two caps = ground (arith, capitalize_stable ps)

corrected_none :
    (ps : List LetterCase) (two caps : Bool)
    → is_due ps two caps ≡ false
    → corrected_case_pattern ps two caps ≡ none
corrected_none ps two caps h = rw (corrected_case_pattern-capitalize ps two caps, h)

case_pattern-apply_none :
    (ks : List Keystroke) (two caps : Bool)
    → case_pattern ks ≡ none
    → case_pattern (apply_case_fixes_to_strokes ks two caps) ≡ none
unfolding apply_case_fixes_to_strokes
case_pattern-apply_none ks two caps e = rw e (case_pattern-normalize ks ∙ e)

settled :
    (ks : List Keystroke) (two caps : Bool)
    → corrected_pattern (case_pattern (apply_case_fixes_to_strokes ks two caps)) two caps ≡ none
settled ks two caps = elim (Option-cases (case_pattern ks)) [
  | inl e ↦ rw (case_pattern-apply_none ks two caps e)
  | inr (ps, e) ↦
      rw (case_pattern-apply ks ps two caps e) (corrected_none _ two caps (not_due ps two caps))
]
