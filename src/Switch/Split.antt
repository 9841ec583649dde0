-- ===== src/Switch/Split.antt =====
-- src/daemon/switch_logic.rs: a word and the punctuation behind it.
use open_switcher.Prelude.{
  ℕ, zero, suc, Bool, not, List, [], ◌∷◌, Option, none, some, if◌then◌else◌, is_some_and,
}
use open_switcher.Switch.Keymap.{
  Keystroke, AppLayoutKind, is_trailing_tail_punctuation, is_trailing_tail_punctuation_char,
  visible_char_for_keystroke,
}

pub record WordCoreAndTrailingTail : Type 0 where
  pub core : List Keystroke
  pub trailing_tail : List Keystroke

module _ {ℓ} {A : Type ℓ} where
  -- The last place at which the test holds.
  unfoldable pub rposition : (A → Bool) → List A → Option ℕ
  rposition f [] = none
  rposition f (x ∷ xs) = elim (rposition f xs) [
    | some i ↦ some (suc i)
    | none ↦ if f x then some 0 else none
  ]

  -- `&buffer[..n]` and `&buffer[n..]`.
  unfoldable pub take : ℕ → List A → List A
  take zero xs = []
  take (suc n) [] = []
  take (suc n) (x ∷ xs) = x ∷ take n xs

  unfoldable pub drop : ℕ → List A → List A
  drop zero xs = xs
  drop (suc n) [] = []
  drop (suc n) (x ∷ xs) = drop n xs

-- `.map_or(0, |index| index + 1)`.
abbrev pub tail_start : Option ℕ → ℕ
tail_start none = 0
tail_start (some i) = suc i

-- The two functions differ in the test of a stroke.
unfoldable pub split_by : (Keystroke → Bool) → List Keystroke → WordCoreAndTrailingTail
split_by is_tail buffer =
    let start = tail_start (rposition (λ k. not (is_tail k)) buffer) in
    record { core = take start buffer; trailing_tail = drop start buffer }

unfoldable pub split_word_core_and_trailing_tail :
    List Keystroke → AppLayoutKind → WordCoreAndTrailingTail
split_word_core_and_trailing_tail buffer kind =
    split_by (λ k. is_trailing_tail_punctuation k kind) buffer

abbrev pub is_physical_tail : Keystroke → Bool
is_physical_tail k = is_some_and is_trailing_tail_punctuation_char (visible_char_for_keystroke k)

unfoldable pub split_physical_english_core_and_trailing_tail :
    List Keystroke → WordCoreAndTrailingTail
split_physical_english_core_and_trailing_tail buffer = split_by is_physical_tail buffer
