-- ===== src/Switch/CasePlanLaws.antt =====
-- The plan of a case correction: when there is one, and what it writes.
use mathlib.Core.Logic.{if_pos, if_neg}
use open_switcher.Prelude.{
  ◌≡◌, refl, sym, ap, ap₂, ◌∙◌, ◌↔◌, ◌⊎◌, inl, inr, ◌≢◌, Bool, true, false, List, [], ◌∷◌, ◌++◌,
  map-append, none, some, is_empty, arith, Bool-cases, Option-cases,
}
use open_switcher.Switch.Keymap.{Keystroke, AppLayoutKind}
use open_switcher.Switch.Cases.{
  LetterCase, normalize_strokes_for_replay, apply_case_fixes_to_strokes, case_pattern, capitalize,
  corrected_pattern, has_two_capitals, has_accidental_caps_lock,
}
use open_switcher.Switch.Plans.{
  CorrectionPlan, same_layout_case_correction_plan, Keystrokes-discrete,
}
use open_switcher.Switch.CaseLaws.{
  keys_of, keys_of-normalize, keys_of-apply, is_due, case_pattern-apply,
  corrected_case_pattern-capitalize, case_pattern-normalize,
}
use open_switcher.Switch.Mistakes.{
  Mistaken, case_pattern-AllWrite, AllWrite-case_pattern, is_due-IsMistake, IsMistake-is_due,
}
use open_switcher.Switch.PlanLaws.{core_of, tail_of, core-tail}

capitalize_due :
    (ps : List LetterCase) (two caps : Bool) → is_due ps two caps ≡ true → capitalize ps ≢ ps
unfolding capitalize has_two_capitals has_accidental_caps_lock
capitalize_due [] two caps h = ground arith
capitalize_due (a ∷ []) two caps h = ground arith
capitalize_due (a ∷ b ∷ []) two caps h = ground arith
capitalize_due (a ∷ b ∷ c ∷ ps) two caps h = ground arith

apply_changes :
    (ks : List Keystroke) (ps : List LetterCase) (two caps : Bool)
    → case_pattern ks ≡ some ps
    → is_due ps two caps ≡ true
    → apply_case_fixes_to_strokes ks two caps ≢ normalize_strokes_for_replay ks
apply_changes ks ps two caps e due same = capitalize_due ps two caps due (
    ground (
      arith,
      case_pattern-apply ks ps two caps e,
      case_pattern-normalize ks,
      ap case_pattern same,
      due,
    ))

apply_keeps :
    (ks : List Keystroke) (two caps : Bool)
    → corrected_pattern (case_pattern ks) two caps ≡ none
    → apply_case_fixes_to_strokes ks two caps ≡ normalize_strokes_for_replay ks
unfolding apply_case_fixes_to_strokes
apply_keeps ks two caps e = rw e

-- Whether the core of a word is due for a correction.
abbrev IsDue : List Keystroke → Bool → Bool → Type 0
IsDue core two caps =
    (ps : List LetterCase) × (case_pattern core ≡ some ps) × (is_due ps two caps ≡ true)

not_due_corrected :
    (ks : List Keystroke) (two caps : Bool)
    → ¬ IsDue ks two caps
    → corrected_pattern (case_pattern ks) two caps ≡ none
not_due_corrected ks two caps h = elim (Option-cases (case_pattern ks)) [
  | inl e ↦ rw e
  | inr (ps, e) ↦ elim (Bool-cases (is_due ps two caps)) [
    | inl due ↦ absurd (h (ps, e, due))
    | inr no_rule ↦ rw (e, corrected_case_pattern-capitalize ps two caps, no_rule)
  ]
]

-- What a case correction writes for a word that is due.
abbrev case_plan : List Keystroke → AppLayoutKind → Bool → Bool → CorrectionPlan
case_plan buffer kind two caps = record {
  buffer =
      apply_case_fixes_to_strokes (core_of buffer kind) two caps
      ++ normalize_strokes_for_replay (tail_of buffer kind);
  extra_backspaces = 0;
}

due_not_empty :
    (core : List Keystroke) (two caps : Bool) → IsDue core two caps → is_empty core ≡ false
unfolding case_pattern has_two_capitals has_accidental_caps_lock
due_not_empty [] two caps (ps, e, d) = ground arith
due_not_empty (k ∷ ks) two caps d = refl

same_layout_due :
    (buffer : List Keystroke) (kind : AppLayoutKind) (two caps : Bool)
    → IsDue (core_of buffer kind) two caps
    → same_layout_case_correction_plan buffer kind two caps ≡ some (case_plan buffer kind two caps)
unfolding same_layout_case_correction_plan
same_layout_due buffer kind two caps d = rw (due_not_empty (core_of buffer kind) two caps d) (
    if_neg (Keystrokes-discrete _ _) (apply_changes (core_of buffer kind) d.0 two caps d.1 d.2) _ _)

same_layout_not_due :
    (buffer : List Keystroke) (kind : AppLayoutKind) (two caps : Bool)
    → ¬ IsDue (core_of buffer kind) two caps
    → same_layout_case_correction_plan buffer kind two caps ≡ none
unfolding same_layout_case_correction_plan
same_layout_not_due buffer kind two caps h = elim (Bool-cases (is_empty (core_of buffer kind))) [
  | inl e ↦ rw e
  | inr e ↦ rw e (
      if_pos (Keystrokes-discrete _ _)
        (apply_keeps (core_of buffer kind) two caps
          (not_due_corrected (core_of buffer kind) two caps h))
        _ _)
]

IsDue-cases :
    (core : List Keystroke) (two caps : Bool) → IsDue core two caps ⊎ ¬ IsDue core two caps
IsDue-cases core two caps = elim (Option-cases (case_pattern core)) [
  | inl e ↦ inr (λ d. cc (e, d.1))
  | inr (ps, e) ↦ elim (Bool-cases (is_due ps two caps)) [
    | inl due ↦ inl (ps, e, due)
    | inr no_rule ↦ inr (λ d. ground (arith, d.1, d.2))
  ]
]

-- A case correction is planned exactly if the core of the word is typed on letter keys only and
-- shows one of two mistakes, with its setting on: two capitals before small letters, or a small
-- letter before capitals; at least three and at least two letters.
pub same_layout_case_correction_plan_iff :
    (buffer : List Keystroke) (kind : AppLayoutKind) (two caps : Bool)
    → (same_layout_case_correction_plan buffer kind two caps ≢ none)
      ↔ Mistaken (core_of buffer kind) two caps
same_layout_case_correction_plan_iff buffer kind two caps = (planned, wanted)
  where
    planned :
        same_layout_case_correction_plan buffer kind two caps ≢ none
        → Mistaken (core_of buffer kind) two caps
    planned h = elim (IsDue-cases (core_of buffer kind) two caps) [
      | inl (ps, e, due) ↦
          (ps, case_pattern-AllWrite (core_of buffer kind) ps e, is_due-IsMistake ps two caps due)
      | inr n ↦ absurd (h (same_layout_not_due buffer kind two caps n))
    ]

    wanted :
        Mistaken (core_of buffer kind) two caps
        → same_layout_case_correction_plan buffer kind two caps ≢ none
    wanted (ps, w, m) e = cc (
        same_layout_due buffer kind two caps
          (ps, AllWrite-case_pattern (core_of buffer kind) ps w, IsMistake-is_due ps two caps m))

keys_of-case_plan :
    (buffer : List Keystroke) (kind : AppLayoutKind) (two caps : Bool)
    → keys_of (case_plan buffer kind two caps).buffer ≡ keys_of buffer
keys_of-case_plan buffer kind two caps =
    map-append _ (apply_case_fixes_to_strokes (core_of buffer kind) two caps)
      (normalize_strokes_for_replay (tail_of buffer kind))
    ∙ ap₂ ◌++◌ (keys_of-apply (core_of buffer kind) two caps)
        (keys_of-normalize (tail_of buffer kind))
    ∙ sym (map-append _ (core_of buffer kind) (tail_of buffer kind))
    ∙ ap keys_of (core-tail buffer kind)

-- A planned case correction presses the keys that were typed, in order, deletes nothing beyond
-- them, writes the core with a capital and then small letters, and leaves the tail behind it.
pub same_layout_case_correction_plan_writes :
    (buffer : List Keystroke) (kind : AppLayoutKind) (two caps : Bool) {plan : CorrectionPlan}
    → same_layout_case_correction_plan buffer kind two caps ≡ some plan
    → (ps : List LetterCase) × (core : List Keystroke) × (case_pattern (core_of buffer kind)
        ≡ some ps)
      × (plan.buffer ≡ core ++ normalize_strokes_for_replay (tail_of buffer kind))
      × (case_pattern core ≡ some (capitalize ps))
      × (keys_of plan.buffer ≡ keys_of buffer)
      × (plan.extra_backspaces ≡ 0)
same_layout_case_correction_plan_writes buffer kind two caps {plan} h =
    elim (IsDue-cases (core_of buffer kind) two caps) [
      | inr n ↦ cc (same_layout_not_due buffer kind two caps n)
      | inl (ps, e, due) ↦
          let same : plan ≡ case_plan buffer kind two caps =
            cc (same_layout_due buffer kind two caps (ps, e, due)) in
          (
            ps,
            apply_case_fixes_to_strokes (core_of buffer kind) two caps,
            e,
            ap (λ p. p.buffer) same,
            case_pattern-apply (core_of buffer kind) ps two caps e ∙ rw due,
            ap (λ p. keys_of p.buffer) same ∙ keys_of-case_plan buffer kind two caps,
            ap (λ p. p.extra_backspaces) same,
          )
    ]
