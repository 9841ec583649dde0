-- ===== src/Model/Validation.antt =====
-- When settings are valid.
use open_switcher.Prelude.{
  ◌≡◌, ◌≢◌, ◌↔◌, ◌≤◌, refl, sym, subst, Bool, true, false, arith, Bool-cases, inl, inr, ok,
}
use open_switcher.Model.Hotkeys.{
  HotkeySpec, HotkeyTrigger, HotkeyTrigger-discrete, conflicts_exact, same_bool, same_trigger,
}
use open_switcher.Model.Settings.{Settings, validate, validate_hotkey_conflicts}

same_trigger-eq : (a b : HotkeyTrigger) → same_trigger a b ≡ true → a ≡ b
unfolding same_trigger
same_trigger-eq a b h =
    elim (HotkeyTrigger-discrete a b)
        as (λ x. elim x [ yes _ ↦ true | no _ ↦ false ] ≡ true → a ≡ b) [
          | yes e ↦ λ _. e
          | no n ↦ λ k. absurd (ground (arith, k))
        ]
      h

same_trigger_refl : (a : HotkeyTrigger) → same_trigger a a ≡ true
unfolding same_trigger
same_trigger_refl a =
    elim (HotkeyTrigger-discrete a a) as (λ x. elim x [ yes _ ↦ true | no _ ↦ false ] ≡ true) [
      | yes e ↦ refl
      | no n ↦ absurd (n refl)
    ]

pub same_bool-eq : (a b : Bool) → same_bool a b ≡ true → a ≡ b
unfolding same_bool
same_bool-eq true true h = refl
same_bool-eq true false h = sym h
same_bool-eq false true h = ground (arith, h)
same_bool-eq false false h = refl

same_bool_refl : (a : Bool) → same_bool a a ≡ true
unfolding same_bool
same_bool_refl true = refl
same_bool_refl false = refl

conflicts_exact_sound : (a b : HotkeySpec) → conflicts_exact a b ≡ true → a ≡ b
unfolding conflicts_exact
conflicts_exact_sound a b h =
    let parts : (same_trigger a.trigger b.trigger ≡ true)
        × (same_bool a.modifiers.shift b.modifiers.shift ≡ true)
        × (same_bool a.modifiers.ctrl b.modifiers.ctrl ≡ true)
        × (same_bool a.modifiers.alt b.modifiers.alt ≡ true) =
      ground (arith, h) in
    let shift = same_bool-eq a.modifiers.shift b.modifiers.shift parts.1 in
    let ctrl = same_bool-eq a.modifiers.ctrl b.modifiers.ctrl parts.2 in
    let alt = same_bool-eq a.modifiers.alt b.modifiers.alt parts.3 in
    let trigger = same_trigger-eq a.trigger b.trigger parts.0 in
    λ i. record {
      modifiers = record { shift = shift i; ctrl = ctrl i; alt = alt i };
      trigger = trigger i;
    }

conflicts_exact_refl : (a : HotkeySpec) → conflicts_exact a a ≡ true
unfolding conflicts_exact
conflicts_exact_refl a =
    rw
      (
        same_trigger_refl a.trigger,
        same_bool_refl a.modifiers.shift,
        same_bool_refl a.modifiers.ctrl,
        same_bool_refl a.modifiers.alt,
      )
      refl

pub conflicts_exact-eq : (a b : HotkeySpec) → (conflicts_exact a b ≡ true) ↔ (a ≡ b)
conflicts_exact-eq a b = (
  conflicts_exact_sound a b,
  λ e. subst (λ x. conflicts_exact a x ≡ true) e (conflicts_exact_refl a),
)

validated :
    (s found : Settings)
    → validate s ≡ ok found
    → (s ≡ found)
      × (s.layout_delay_ms ≤ 500)
      × (s.manual_correction_hotkey ≢ s.selected_text_hotkey)
unfolding validate validate_hotkey_conflicts
validated s found h =
    elim (Bool-cases (conflicts_exact s.manual_correction_hotkey s.selected_text_hotkey)) [
      | inl c ↦ absurd (ground (arith, c, h))
      | inr c ↦ (
        ground (arith, c, h),
        ground (arith, c, h),
        λ e.
            let clash =
              (conflicts_exact-eq s.manual_correction_hotkey s.selected_text_hotkey).1 e in
            ground (arith, c, clash),
      )
    ]

accepts-valid :
    (s : Settings)
    → s.layout_delay_ms ≤ 500
    → s.manual_correction_hotkey ≢ s.selected_text_hotkey
    → validate s ≡ ok s
unfolding validate validate_hotkey_conflicts
accepts-valid s small differ =
    elim (Bool-cases (conflicts_exact s.manual_correction_hotkey s.selected_text_hotkey)) [
      | inl c ↦
          absurd
            (differ ((conflicts_exact-eq s.manual_correction_hotkey s.selected_text_hotkey).0 c))
      | inr c ↦ ground (arith, c, small)
    ]

-- Settings are accepted, and then as they are, exactly when the delay is at most 500 ms and the two
-- hotkeys differ.
pub validate-accepts :
    (s found : Settings)
    → (validate s ≡ ok found) ↔ (
        (s ≡ found)
        × (s.layout_delay_ms ≤ 500)
        × (s.manual_correction_hotkey ≢ s.selected_text_hotkey))
validate-accepts s found =
    (validated s found, λ h. subst (λ x. validate s ≡ ok x) h.0 (accepts-valid s h.1 h.2))
