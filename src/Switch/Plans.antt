-- ===== src/Switch/Plans.antt =====
-- src/daemon/switch_logic.rs: the plans of a manual correction and of a case correction.
use open_switcher.Prelude.{
  ℕ, Bool, true, false, not, List, ◌++◌, Option, none, some, is_empty, if◌then◌else◌,
}
use mathlib.Core.Logic.{ite}
use open_switcher.Key.{Key-discrete}
use open_switcher.Switch.Keymap.{Keystroke, AppLayoutKind}
use open_switcher.Switch.Cases.{normalize_strokes_for_replay, apply_case_fixes_to_strokes}
use open_switcher.Switch.Split.{split_word_core_and_trailing_tail}

pub record CorrectionPlan : Type 0 where
  pub buffer : List Keystroke
  pub extra_backspaces : ℕ

-- `usize::from`.
abbrev pub from_bool : Bool → ℕ
from_bool true = 1
from_bool false = 0

-- The part below the choice of the buffer.
unfoldable pub plan_for : List Keystroke → ℕ → AppLayoutKind → Option CorrectionPlan
plan_for buffer extra_backspaces kind =
    let split = split_word_core_and_trailing_tail buffer kind in
    if is_empty split.core
    then none
    else some (record {
      buffer =
          normalize_strokes_for_replay split.core
          ++ normalize_strokes_for_replay split.trailing_tail;
      extra_backspaces = extra_backspaces;
    })

unfoldable pub manual_correction_plan :
    List Keystroke → List Keystroke → Bool → AppLayoutKind → Option CorrectionPlan
unfolding plan_for
manual_correction_plan current_buffer last_word_buffer last_word_followed_by_separator kind =
    if not (is_empty current_buffer)
    then plan_for current_buffer 0 kind
    else if not (is_empty last_word_buffer)
    then plan_for last_word_buffer (from_bool last_word_followed_by_separator) kind
    else none

-- The derived equality of strokes.
unfoldable pub Keystroke-discrete : Discrete Keystroke
Keystroke-discrete = hlevel Key-discrete

unfoldable pub Keystrokes-discrete : Discrete (List Keystroke)
Keystrokes-discrete = hlevel Keystroke-discrete

unfoldable pub same_layout_case_correction_plan :
    List Keystroke → AppLayoutKind → Bool → Bool → Option CorrectionPlan
same_layout_case_correction_plan buffer kind fix_two_capitals fix_accidental_caps_lock =
    let split = split_word_core_and_trailing_tail buffer kind in
    let normalized_core = normalize_strokes_for_replay split.core in
    let corrected_core =
      apply_case_fixes_to_strokes split.core fix_two_capitals fix_accidental_caps_lock in
    if is_empty split.core
    then none
    else ite (Keystrokes-discrete corrected_core normalized_core) none (
        some (record {
          buffer = corrected_core ++ normalize_strokes_for_replay split.trailing_tail;
          extra_backspaces = 0;
        }))
