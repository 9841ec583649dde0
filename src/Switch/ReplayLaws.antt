-- ===== src/Switch/ReplayLaws.antt =====
-- The strokes of a plan, replayed while Caps Lock stands as it stood when the word was typed.
use open_switcher.Key.{Key}
use open_switcher.Prelude.{◌≡◌, refl, Bool, xor, List, [], ◌∷◌, map, All, arith}
use open_switcher.Switch.Keymap.{
  Keystroke, is_case_fix_letter_key, is_case_sensitive_letter_key, replay_shift_for_stroke,
}
use open_switcher.Switch.Cases.{
  letter_case_for_stroke, normalize_stroke, normalize_strokes_for_replay,
}

-- The key and the Shift of each stroke, as typed and as replayed.
abbrev pub typed : List Keystroke → List (Key × Bool)
typed = map (λ k. (k.key, k.shift))

abbrev pub replayed : Bool → List Keystroke → List (Key × Bool)
replayed caps = map (λ k. (k.key, replay_shift_for_stroke k caps))

-- The two lists of letter keys, of switch_logic.rs and keyboard.rs, are the same.
pub letter_keys_agree : (k : Key) → is_case_sensitive_letter_key k ≡ is_case_fix_letter_key k
unfolding is_case_sensitive_letter_key is_case_fix_letter_key
letter_keys_agree Key.key_a = refl
letter_keys_agree _ = refl

replay-normalize_stroke :
    (k : Keystroke) (caps : Bool)
    → k.caps_lock ≡ caps
    → ◌≡◌ {A = Key × Bool}
        ((normalize_stroke k).key, replay_shift_for_stroke (normalize_stroke k) caps)
        (k.key, k.shift)
unfolding normalize_stroke letter_case_for_stroke replay_shift_for_stroke xor
replay-normalize_stroke k caps h = ground (arith, letter_keys_agree k.key)

abbrev pub TypedUnder : Bool → List Keystroke → Type 0
TypedUnder caps = All (λ k. k.caps_lock ≡ caps)

pub replayed-normalize :
    (ks : List Keystroke) (caps : Bool)
    → TypedUnder caps ks
    → replayed caps (normalize_strokes_for_replay ks) ≡ typed ks
replayed-normalize [] caps h = refl
replayed-normalize (k ∷ ks) caps h =
    cc (replay-normalize_stroke k caps h.0, replayed-normalize ks caps h.1)
