-- ===== src/Switch/PlanLaws.antt =====
-- What the plans of a correction retype.
use open_switcher.Prelude.{
  ℕ, ◌≡◌, sym, ap, ◌∙◌, Bool, List, [], ◌∷◌, ◌++◌, map-append, some, is_empty, arith, if◌then◌else◌,
}
use open_switcher.Switch.Keymap.{Keystroke, AppLayoutKind}
use open_switcher.Switch.Cases.{normalize_strokes_for_replay}
use open_switcher.Switch.Split.{split_word_core_and_trailing_tail}
use open_switcher.Switch.Plans.{CorrectionPlan, from_bool, plan_for, manual_correction_plan}
use open_switcher.Switch.SplitLaws.{split-Splits}
use open_switcher.Switch.ReplayLaws.{typed, replayed, TypedUnder, replayed-normalize}

abbrev pub core_of : List Keystroke → AppLayoutKind → List Keystroke
core_of word kind = (split_word_core_and_trailing_tail word kind).core

abbrev pub tail_of : List Keystroke → AppLayoutKind → List Keystroke
tail_of word kind = (split_word_core_and_trailing_tail word kind).trailing_tail

pub core-tail :
    (word : List Keystroke) (kind : AppLayoutKind) → core_of word kind ++ tail_of word kind ≡ word
core-tail word kind = (split-Splits word kind).0.joined

-- The normalised core followed by the normalised tail is the normalised word.
normalize-core-tail :
    (word : List Keystroke) (kind : AppLayoutKind)
    → normalize_strokes_for_replay (core_of word kind)
        ++ normalize_strokes_for_replay (tail_of word kind)
      ≡ normalize_strokes_for_replay word
normalize-core-tail word kind =
    sym (map-append _ (core_of word kind) (tail_of word kind))
    ∙ ap normalize_strokes_for_replay (core-tail word kind)

-- The word that a manual correction is about.
abbrev pub chosen : List Keystroke → List Keystroke → List Keystroke
chosen current last = if is_empty current then last else current

plan_for-some :
    (word : List Keystroke) (n : ℕ) (kind : AppLayoutKind) {plan : CorrectionPlan}
    → plan_for word n kind ≡ some plan
    → (plan.buffer ≡ normalize_strokes_for_replay word) × (plan.extra_backspaces ≡ n)
unfolding plan_for
plan_for-some word n kind h = ground (arith, normalize-core-tail word kind)

-- A manual correction is about the word being typed, or, if there is none, about the last word. Its
-- plan, replayed while Caps Lock stands as it stood for the whole word, presses the keys of that
-- word in order, each with or without Shift as it was typed; it deletes one character more than
-- the word has exactly if it is about the last word and a separator followed it.
pub manual_correction_plan_retypes :
    (current last : List Keystroke) (separator caps : Bool) (kind : AppLayoutKind)
    {plan : CorrectionPlan}
    → manual_correction_plan current last separator kind ≡ some plan
    → TypedUnder caps (chosen current last)
    → (replayed caps plan.buffer ≡ typed (chosen current last))
      × (plan.extra_backspaces ≡ (if is_empty current then from_bool separator else 0))
unfolding manual_correction_plan
manual_correction_plan_retypes [] [] separator caps kind {plan} h t = cc
manual_correction_plan_retypes [] (k ∷ ks) separator caps kind {plan} h t =
    let (b, e) = plan_for-some (k ∷ ks) (from_bool separator) kind h in
    (ap (replayed caps) b ∙ replayed-normalize (k ∷ ks) caps t, e)
manual_correction_plan_retypes (k ∷ ks) last separator caps kind {plan} h t =
    let (b, e) = plan_for-some (k ∷ ks) 0 kind h in
    (ap (replayed caps) b ∙ replayed-normalize (k ∷ ks) caps t, e)
