-- ===== src/Switch/TextLaws.antt =====
-- Membership in a word list, and the characters that keys show.
use open_switcher.Prelude.{
  ℕ, zero, suc, ◌≤◌, ◌<◌, ◌≡◌, refl, ap, inl, inr, Bool, true, ◌&&◌, List, [], ◌∷◌, String, any,
  all, length, arith, Option-cases, if◌then◌else◌,
}
use open_switcher.Switch.Keymap.{
  Keystroke, russian, codes, visible_char_for_keystroke, visible_char_for_layout, keys_to_string,
  keys_to_visible_string, is_russian_letter, russian_visible_char_for_keyboard_position,
}
use open_switcher.Switch.Texts.{same_text, is_one_of, to_lowercase, is_ascii_alphabetic}
use open_switcher.Switch.Heuristics.{normalize_word_for_switch_heuristics}

pub same_text_eq : (a b : List ℕ) → same_text a b ≡ true → a ≡ b
unfolding same_text
same_text_eq [] [] h = refl
same_text_eq [] (y ∷ b) h = cc
same_text_eq (x ∷ a) [] h = cc
same_text_eq (x ∷ a) (y ∷ b) h = ground (arith, same_text_eq a b)

-- What holds of every word of a list holds of a text that is one of them.
pub of_is_one_of :
    (p : List ℕ → Bool) (words : List String) (word : List ℕ)
    → all (λ w. p (codes w)) words ≡ true
    → is_one_of words word ≡ true
    → p word ≡ true
unfolding is_one_of
of_is_one_of p [] word h m = cc
of_is_one_of p (w ∷ words) word h m =
    ground (arith, same_text_eq (codes w) word, of_is_one_of p words word)

pub length-keys_to_string : (ks : List Keystroke) → length (keys_to_string ks) ≤ length ks
unfolding keys_to_string
length-keys_to_string [] = omega arith
length-keys_to_string (k ∷ ks) = ground (arith, length-keys_to_string ks)

pub length-normalize_word :
    (cs : List ℕ) → length (normalize_word_for_switch_heuristics cs) ≡ length cs
unfolding normalize_word_for_switch_heuristics
length-normalize_word [] = refl
length-normalize_word (c ∷ cs) = ap suc (length-normalize_word cs)

all_below : ℕ → (ℕ → Bool) → Bool
all_below zero p = true
all_below (suc n) p = p n && all_below n p

all_below_sound : (n : ℕ) (p : ℕ → Bool) (c : ℕ) → all_below n p ≡ true → c < n → p c ≡ true
unfolding all_below
all_below_sound zero p c h lt = absurd (omega arith)
all_below_sound (suc n) p c h lt = ground (arith, all_below_sound n p c)

abbrev shown_russian : ℕ → Bool
shown_russian c =
    if is_ascii_alphabetic (to_lowercase c)
    then is_russian_letter (russian_visible_char_for_keyboard_position c)
    else true

shown_russian_table : all_below 128 shown_russian ≡ true
unfolding all_below is_ascii_alphabetic to_lowercase is_russian_letter
    russian_visible_char_for_keyboard_position
shown_russian_table = refl

alphabetic_below : (c : ℕ) → is_ascii_alphabetic (to_lowercase c) ≡ true → c < 128
unfolding is_ascii_alphabetic to_lowercase
alphabetic_below c h = ground arith

-- The key of a Latin letter shows a Russian letter in the Russian layout.
pub letter_shows_russian :
    (c : ℕ)
    → is_ascii_alphabetic (to_lowercase c) ≡ true
    → is_russian_letter (russian_visible_char_for_keyboard_position c) ≡ true
letter_shows_russian c h =
    rw h at (all_below_sound 128 shown_russian c shown_russian_table (alphabetic_below c h))

pub any_russian :
    (ks : List Keystroke)
    → all is_ascii_alphabetic (normalize_word_for_switch_heuristics (keys_to_string ks)) ≡ true
    → 0 < length (keys_to_string ks)
    → any is_russian_letter (keys_to_visible_string ks russian) ≡ true
unfolding keys_to_string keys_to_visible_string normalize_word_for_switch_heuristics
    visible_char_for_layout
any_russian [] h n = elim n [ ]
any_russian (k ∷ ks) h n = elim (Option-cases (visible_char_for_keystroke k)) [
  | inl e ↦ rw e (any_russian ks (rw e at h) (rw e at n))
  | inr (c, e) ↦ ground (arith, letter_shows_russian c)
]
