-- ===== src/Switch/Texts.antt =====
-- The methods of `str` that src/daemon/switch_logic.rs calls, on texts as lists of code points. The
-- texts are ASCII there, so a length in bytes is a length in characters.
use open_switcher.Prelude.{
  ℕ, ◌+◌, Bool, true, false, ◌&&◌, ◌||◌, List, [], ◌∷◌, String, any, is_empty, leb, ◌==◌,
  if◌then◌else◌,
}
use open_switcher.Switch.Keymap.{codes}

unfoldable pub same_text : List ℕ → List ℕ → Bool
same_text [] [] = true
same_text (a ∷ as') (b ∷ bs) = a == b && same_text as' bs
same_text _ _ = false

unfoldable pub starts_with : List ℕ → List ℕ → Bool
starts_with cs [] = true
starts_with [] (p ∷ ps) = false
starts_with (c ∷ cs) (p ∷ ps) = c == p && starts_with cs ps

-- `word.contains(sub)`.
unfoldable pub contains : List ℕ → List ℕ → Bool
unfolding starts_with
contains [] sub = is_empty sub
contains (c ∷ cs) sub = starts_with (c ∷ cs) sub || contains cs sub

unfoldable pub ends_with : List ℕ → List ℕ → Bool
unfolding same_text
ends_with [] suffix = is_empty suffix
ends_with (c ∷ cs) suffix = same_text (c ∷ cs) suffix || ends_with cs suffix

-- `LIST.contains(&word)`.
unfoldable pub is_one_of : List String → List ℕ → Bool
unfolding same_text
is_one_of words word = any (λ w. same_text (codes w) word) words

unfoldable pub drop_tail : ℕ → (ℕ → Bool) → List ℕ → List ℕ
drop_tail c drops [] = if drops c then [] else c ∷ []
drop_tail c drops (d ∷ rest) = c ∷ d ∷ rest

-- `trim_end_matches`.
unfoldable pub trim_end_matches : (ℕ → Bool) → List ℕ → List ℕ
unfolding drop_tail
trim_end_matches drops [] = []
trim_end_matches drops (c ∷ cs) = drop_tail c drops (trim_end_matches drops cs)

-- `to_lowercase`, on ASCII.
unfoldable pub to_lowercase : ℕ → ℕ
to_lowercase c = if leb b'A' c && leb c b'Z' then c + 32 else c

unfoldable pub is_ascii_alphabetic : ℕ → Bool
is_ascii_alphabetic c = leb b'A' c && leb c b'Z' || leb b'a' c && leb c b'z'
