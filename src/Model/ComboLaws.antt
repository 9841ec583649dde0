-- ===== src/Model/ComboLaws.antt =====
-- What the parsing of the older names accepts, and that they are hotkeys of today.
use open_switcher.Prelude.{
  ℕ, ◌≡◌, refl, ◌↔◌, ◌⊎◌, inl, inr, List, Option-cases, arith, ok, String, subst, sym,
}
use open_switcher.Switch.Keymap.{codes}
use open_switcher.Model.Names.{find_text, find_text-Rows, Rows}
use open_switcher.Model.Hotkeys.{parse}
use open_switcher.Model.Combos.{
  UndoKey, pause, f12, scroll_lock, SelectedTextHotkey, shift_pause, ctrl_pause, alt_pause,
  shift_f12, ctrl_f12, alt_f12, shift_scroll_lock, ctrl_scroll_lock, alt_scroll_lock, as_str,
  selected_value, selected_label, undo_names, selected_names, or_unsupported, parse_undo_key,
  parse_selected_text_hotkey, hotkey_of_undo, hotkey_of_selected,
}

module _ {A : Type 0} (P : List ℕ → A → Type 0) (table : List (String × A)) where
  supported-found :
      (value : List ℕ) (a : A)
      → Rows P table
      → or_unsupported value (find_text table value) ≡ ok a
      → P value a
  supported-found value a rows h = elim (Option-cases (find_text table value)) [
    | inl n ↦ absurd (ground (arith, n, h))
    | inr (b, e) ↦
        let same : b ≡ a = ground (arith, e, h) in
        subst (P value) same (find_text-Rows P table value b rows e)
  ]

abbrev pub IsSelectedName : List ℕ → SelectedTextHotkey → Type 0
IsSelectedName value h = (value ≡ codes (selected_value h)) ⊎ (value ≡ codes (selected_label h))

selected-value :
    (h : SelectedTextHotkey) → parse_selected_text_hotkey (codes (selected_value h)) ≡ ok h
unfolding parse_selected_text_hotkey selected_value
selected-value shift_pause = refl
selected-value ctrl_pause = refl
selected-value alt_pause = refl
selected-value shift_f12 = refl
selected-value ctrl_f12 = refl
selected-value alt_f12 = refl
selected-value shift_scroll_lock = refl
selected-value ctrl_scroll_lock = refl
selected-value alt_scroll_lock = refl

selected-label :
    (h : SelectedTextHotkey) → parse_selected_text_hotkey (codes (selected_label h)) ≡ ok h
unfolding parse_selected_text_hotkey selected_label
selected-label shift_pause = refl
selected-label ctrl_pause = refl
selected-label alt_pause = refl
selected-label shift_f12 = refl
selected-label ctrl_f12 = refl
selected-label alt_f12 = refl
selected-label shift_scroll_lock = refl
selected-label ctrl_scroll_lock = refl
selected-label alt_scroll_lock = refl

-- A text is parsed as a hotkey of selected text exactly when it is one of the two names that it prints
-- as.
pub parse_selected-IsSelectedName :
    (value : List ℕ) (h : SelectedTextHotkey)
    → (parse_selected_text_hotkey value ≡ ok h) ↔ IsSelectedName value h
unfolding parse_selected_text_hotkey selected_value selected_label
parse_selected-IsSelectedName value h = (
  supported-found IsSelectedName selected_names value h (
    inl refl,
    (
      inr refl,
      (
        inl refl,
        (
          inr refl,
          (
            inl refl,
            (
              inr refl,
              (
                inl refl,
                (
                  inr refl,
                  (
                    inl refl,
                    (
                      inr refl,
                      (
                        inl refl,
                        (
                          inr refl,
                          (
                            inl refl,
                            (inr refl, (inl refl, (inr refl, (inl refl, (inr refl, tt))))),
                          ),
                        ),
                      ),
                    ),
                  ),
                ),
              ),
            ),
          ),
        ),
      ),
    ),
  ),
  λ name. elim name [
    | inl e ↦ subst (λ v. parse_selected_text_hotkey v ≡ ok h) (sym e) (selected-value h)
    | inr e ↦ subst (λ v. parse_selected_text_hotkey v ≡ ok h) (sym e) (selected-label h)
  ],
)

undo-migrates : (key : UndoKey) → parse (codes (as_str key)) ≡ ok (hotkey_of_undo key)
unfolding parse as_str hotkey_of_undo
undo-migrates pause = refl
undo-migrates f12 = refl
undo-migrates scroll_lock = refl

selected-migrates :
    (h : SelectedTextHotkey) → parse (codes (selected_value h)) ≡ ok (hotkey_of_selected h)
unfolding parse selected_value hotkey_of_selected
selected-migrates shift_pause = refl
selected-migrates ctrl_pause = refl
selected-migrates alt_pause = refl
selected-migrates shift_f12 = refl
selected-migrates ctrl_f12 = refl
selected-migrates alt_f12 = refl
selected-migrates shift_scroll_lock = refl
selected-migrates ctrl_scroll_lock = refl
selected-migrates alt_scroll_lock = refl

selected_label-migrates :
    (h : SelectedTextHotkey) → parse (codes (selected_label h)) ≡ ok (hotkey_of_selected h)
unfolding parse selected_label hotkey_of_selected
selected_label-migrates shift_pause = refl
selected_label-migrates ctrl_pause = refl
selected_label-migrates alt_pause = refl
selected_label-migrates shift_f12 = refl
selected_label-migrates ctrl_f12 = refl
selected_label-migrates alt_f12 = refl
selected_label-migrates shift_scroll_lock = refl
selected_label-migrates ctrl_scroll_lock = refl
selected_label-migrates alt_scroll_lock = refl

-- The older names mean today what they meant: a text that was read as an undo key, or as a hotkey of
-- selected text, is parsed as the hotkey that the older value is converted to.
pub parse-migrates :
    (value : List ℕ)
    → ((key : UndoKey) → parse_undo_key value ≡ ok key → parse value ≡ ok (hotkey_of_undo key))
      × ((h : SelectedTextHotkey)
          → parse_selected_text_hotkey value ≡ ok h
          → parse value ≡ ok (hotkey_of_selected h))
unfolding parse_undo_key as_str
parse-migrates value = (
  λ key h.
      let name =
        supported-found (λ v k. v ≡ codes (as_str k)) undo_names value key
          (refl, (refl, (refl, tt))) h in
      subst (λ v. parse v ≡ ok (hotkey_of_undo key)) (sym name) (undo-migrates key),
  λ h e. elim ((parse_selected-IsSelectedName value h).0 e) [
    | inl name ↦ subst (λ v. parse v ≡ ok (hotkey_of_selected h)) (sym name) (selected-migrates h)
    | inr name ↦
        subst (λ v. parse v ≡ ok (hotkey_of_selected h)) (sym name) (selected_label-migrates h)
  ],
)
