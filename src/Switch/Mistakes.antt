-- ===== src/Switch/Mistakes.antt =====
-- The two typing mistakes that a case correction mends, said of the keys, Shift and Caps Lock.
use open_switcher.Prelude.{
  ℕ, zero, suc, ◌≡◌, refl, ap, ◌⊎◌, inl, inr, Bool, true, false, xor, List, [], ◌∷◌, some, all,
  arith, Bool-cases,
}
use open_switcher.Switch.Keymap.{Keystroke, is_case_fix_letter_key}
use open_switcher.Switch.Cases.{
  LetterCase, upper, lower, is_upper, is_lower, letter_case_for_stroke, case_pattern,
  has_two_capitals, has_accidental_caps_lock,
}
use open_switcher.Switch.CaseLaws.{with_case-inv, is_due}

-- A letter key, with one of Shift and Caps Lock for a capital, and with both or none otherwise.
abbrev pub Writes : Keystroke → LetterCase → Type 0
Writes k upper = (is_case_fix_letter_key k.key ≡ true) × (xor k.shift k.caps_lock ≡ true)
Writes k lower = (is_case_fix_letter_key k.key ≡ true) × (xor k.shift k.caps_lock ≡ false)

abbrev pub AllWrite : List Keystroke → List LetterCase → Type 0
AllWrite [] [] = Unit {0}
AllWrite (k ∷ ks) (c ∷ cs) = Writes k c × AllWrite ks cs
AllWrite _ _ = ⊥

abbrev pub repeat : ℕ → LetterCase → List LetterCase
repeat zero c = []
repeat (suc n) c = c ∷ repeat n c

-- Two capitals and then small letters, or a small letter and then capitals; at least one letter
-- follows the start, and the setting for the mistake is on.
abbrev pub IsMistake : Bool → Bool → List LetterCase → Type 0
IsMistake two caps ps =
    (n : ℕ) × (((two ≡ true) × (ps ≡ upper ∷ upper ∷ lower ∷ repeat n lower))
      ⊎ ((caps ≡ true) × (ps ≡ lower ∷ upper ∷ repeat n upper)))

-- The strokes show one of the two mistakes.
abbrev pub Mistaken : List Keystroke → Bool → Bool → Type 0
Mistaken ks two caps = (ps : List LetterCase) × AllWrite ks ps × IsMistake two caps ps

letter_case-Writes :
    (k : Keystroke) (c : LetterCase) → letter_case_for_stroke k ≡ some c → Writes k c
unfolding letter_case_for_stroke
letter_case-Writes k upper h = (ground (arith, h), ground (arith, h))
letter_case-Writes k lower h = (ground (arith, h), ground (arith, h))

Writes-letter_case :
    (k : Keystroke) (c : LetterCase) → Writes k c → letter_case_for_stroke k ≡ some c
unfolding letter_case_for_stroke
Writes-letter_case k upper w = rw (w.0, w.1) refl
Writes-letter_case k lower w = rw (w.0, w.1) refl

pub case_pattern-AllWrite :
    (ks : List Keystroke) (ps : List LetterCase) → case_pattern ks ≡ some ps → AllWrite ks ps
unfolding case_pattern
case_pattern-AllWrite [] [] h = tt
case_pattern-AllWrite [] (c ∷ cs) h = ground (arith, h)
case_pattern-AllWrite (k ∷ ks) [] h =
    let (a, as', o, os, e) = with_case-inv (letter_case_for_stroke k) (case_pattern ks) [] h in
    ground (arith, e)
case_pattern-AllWrite (k ∷ ks) (c ∷ cs) h =
    let (a, as', o, os, e) =
      with_case-inv (letter_case_for_stroke k) (case_pattern ks) (c ∷ cs) h in
    (
      letter_case-Writes k c (ground (arith, o, e)),
      case_pattern-AllWrite ks cs (ground (arith, os, e)),
    )

pub AllWrite-case_pattern :
    (ks : List Keystroke) (ps : List LetterCase) → AllWrite ks ps → case_pattern ks ≡ some ps
unfolding case_pattern
AllWrite-case_pattern [] [] w = refl
AllWrite-case_pattern [] (c ∷ cs) w = absurd w
AllWrite-case_pattern (k ∷ ks) [] w = absurd w
AllWrite-case_pattern (k ∷ ks) (c ∷ cs) w =
    rw (Writes-letter_case k c w.0, AllWrite-case_pattern ks cs w.1) refl

all_lower : (cs : List LetterCase) → all is_lower cs ≡ true → (n : ℕ) × (cs ≡ repeat n lower)
all_lower [] h = (0, refl)
all_lower (upper ∷ cs) h = absurd (ground (arith, h))
all_lower (lower ∷ cs) h =
    let (n, e) = all_lower cs (ground (arith, h)) in (suc n, ap (λ x. lower ∷ x) e)

all_upper : (cs : List LetterCase) → all is_upper cs ≡ true → (n : ℕ) × (cs ≡ repeat n upper)
all_upper [] h = (0, refl)
all_upper (lower ∷ cs) h = absurd (ground (arith, h))
all_upper (upper ∷ cs) h =
    let (n, e) = all_upper cs (ground (arith, h)) in (suc n, ap (λ x. upper ∷ x) e)

all-repeat_lower : (n : ℕ) → all is_lower (repeat n lower) ≡ true
all-repeat_lower zero = refl
all-repeat_lower (suc n) = all-repeat_lower n

all-repeat_upper : (n : ℕ) → all is_upper (repeat n upper) ≡ true
all-repeat_upper zero = refl
all-repeat_upper (suc n) = all-repeat_upper n

two_capitals-IsMistake :
    (ps : List LetterCase)
    → has_two_capitals ps ≡ true
    → (n : ℕ) × (ps ≡ upper ∷ upper ∷ lower ∷ repeat n lower)
unfolding has_two_capitals
two_capitals-IsMistake [] h = absurd (ground (arith, h))
two_capitals-IsMistake (a ∷ []) h = absurd (ground (arith, h))
two_capitals-IsMistake (a ∷ b ∷ []) h = absurd (ground (arith, h))
two_capitals-IsMistake (upper ∷ upper ∷ lower ∷ cs) h =
    let (n, e) = all_lower cs h in (n, ap (λ x. upper ∷ upper ∷ lower ∷ x) e)
two_capitals-IsMistake (upper ∷ upper ∷ upper ∷ cs) h = absurd (ground (arith, h))
two_capitals-IsMistake (upper ∷ lower ∷ c ∷ cs) h = absurd (ground (arith, h))
two_capitals-IsMistake (lower ∷ b ∷ c ∷ cs) h = absurd (ground (arith, h))

caps_lock-IsMistake :
    (ps : List LetterCase)
    → has_accidental_caps_lock ps ≡ true
    → (n : ℕ) × (ps ≡ lower ∷ upper ∷ repeat n upper)
unfolding has_accidental_caps_lock
caps_lock-IsMistake [] h = absurd (ground (arith, h))
caps_lock-IsMistake (a ∷ []) h = absurd (ground (arith, h))
caps_lock-IsMistake (lower ∷ upper ∷ cs) h =
    let (n, e) = all_upper cs h in (n, ap (λ x. lower ∷ upper ∷ x) e)
caps_lock-IsMistake (lower ∷ lower ∷ cs) h = absurd (ground (arith, h))
caps_lock-IsMistake (upper ∷ b ∷ cs) h = absurd (ground (arith, h))

pub is_due-IsMistake :
    (ps : List LetterCase) (two caps : Bool) → is_due ps two caps ≡ true → IsMistake two caps ps
is_due-IsMistake ps two caps h = elim (Bool-cases (has_two_capitals ps)) [
  | inl e ↦ elim (Bool-cases two) [
    | inl on ↦ let (n, same) = two_capitals-IsMistake ps e in (n, inl (on, same))
    | inr off ↦
        let on : caps ≡ true = ground (arith, off, h) in
        let c : has_accidental_caps_lock ps ≡ true = ground (arith, off, h) in
        let (n, same) = caps_lock-IsMistake ps c in (n, inr (on, same))
  ]
  | inr e ↦
      let on : caps ≡ true = ground (arith, e, h) in
      let c : has_accidental_caps_lock ps ≡ true = ground (arith, e, h) in
      let (n, same) = caps_lock-IsMistake ps c in (n, inr (on, same))
]

pub IsMistake-is_due :
    (ps : List LetterCase) (two caps : Bool) → IsMistake two caps ps → is_due ps two caps ≡ true
unfolding has_two_capitals has_accidental_caps_lock
IsMistake-is_due ps two caps (n, inl (on, same)) =
    rw (same, on) (ground (arith, all-repeat_lower n))
IsMistake-is_due ps two caps (n, inr (on, same)) =
    rw (same, on) (ground (arith, all-repeat_upper n))
