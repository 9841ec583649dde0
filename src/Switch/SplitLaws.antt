-- ===== src/Switch/SplitLaws.antt =====
-- The split of a word: its parts make up the word, and the tail is all of the punctuation at its end.
use open_switcher.Prelude.{
  ℕ, zero, suc, ◌≡◌, refl, ap, inl, inr, Bool, true, false, not, List, [], ◌∷◌, ◌++◌, Option, All,
  Option-cases, Bool-cases,
}
use open_switcher.Switch.Keymap.{Keystroke, AppLayoutKind, is_trailing_tail_punctuation}
use open_switcher.Switch.Split.{
  WordCoreAndTrailingTail, rposition, take, drop, tail_start, split_by,
  split_word_core_and_trailing_tail, split_physical_english_core_and_trailing_tail,
  is_physical_tail,
}

pub take-append-drop {ℓ} : {A : Type ℓ} (n : ℕ) (xs : List A) → take n xs ++ drop n xs ≡ xs
unfolding take drop
take-append-drop zero xs = refl
take-append-drop (suc n) [] = refl
take-append-drop (suc n) (x ∷ xs) = ap (◌∷◌ x) (take-append-drop n xs)

module _ (is_tail : Keystroke → Bool) where
  -- A core is empty, or ends with a stroke that is no punctuation.
  abbrev pub EndsOutside : List Keystroke → Type 0
  EndsOutside [] = Unit
  EndsOutside (k ∷ []) = is_tail k ≡ false
  EndsOutside (k ∷ l ∷ ks) = EndsOutside (l ∷ ks)

  pub record Splits (buffer : List Keystroke) (s : WordCoreAndTrailingTail) : Type 0 where
    pub joined : s.core ++ s.trailing_tail ≡ buffer
    pub tail_only : All (λ k. is_tail k ≡ true) s.trailing_tail
    pub ends : EndsOutside s.core

  abbrev last_outside : List Keystroke → Option ℕ
  last_outside ks = rposition (λ k. not (is_tail k)) ks

  tail_from :
      (ks : List Keystroke) → All (λ k. is_tail k ≡ true) (drop (tail_start (last_outside ks)) ks)
  unfolding rposition drop
  tail_from [] = tt
  tail_from (k ∷ ks) = elim (Option-cases (last_outside ks)) [
    | inr (i, e) ↦ rw (e, rposition) (rw e at (tail_from ks))
    | inl e ↦ elim (Bool-cases (is_tail k)) [
      | inl t ↦ rw (e, rposition, t) (t, rw e at (tail_from ks))
      | inr f ↦ rw (e, rposition, f) (rw e at (tail_from ks))
    ]
  ]

  core_to : (ks : List Keystroke) → EndsOutside (take (tail_start (last_outside ks)) ks)
  unfolding rposition take
  core_to [] = tt
  core_to (k ∷ []) = elim (Bool-cases (is_tail k)) [
    | inl t ↦ rw (t, rposition) tt
    | inr f ↦ rw (f, rposition) f
  ]
  core_to (k ∷ l ∷ ks) = elim (Option-cases (last_outside (l ∷ ks))) [
    | inr (i, e) ↦ rw (e, rposition) (rw e at (core_to (l ∷ ks)))
    | inl e ↦ elim (Bool-cases (is_tail k)) [
      | inl t ↦ rw (e, rposition, t) tt
      | inr f ↦ rw (e, rposition, f) f
    ]
  ]

  pub split_by-Splits : (buffer : List Keystroke) → Splits buffer (split_by is_tail buffer)
  unfolding split_by
  split_by-Splits ks = record {
    joined = take-append-drop (tail_start (last_outside ks)) ks;
    tail_only = tail_from ks;
    ends = core_to ks;
  }

-- The core and the tail make up the buffer; the tail is punctuation only, and the core does not end
-- with punctuation. Of both splits.
pub split-Splits :
    (buffer : List Keystroke) (kind : AppLayoutKind)
    → Splits
        (λ k. is_trailing_tail_punctuation k kind)
        buffer
        (split_word_core_and_trailing_tail buffer kind)
      × Splits is_physical_tail buffer (split_physical_english_core_and_trailing_tail buffer)
unfolding split_word_core_and_trailing_tail split_physical_english_core_and_trailing_tail
split-Splits buffer kind = (split_by-Splits _ buffer, split_by-Splits _ buffer)
