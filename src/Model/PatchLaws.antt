-- ===== src/Model/PatchLaws.antt =====
-- What a patch of settings changes.
use Prim.Native.Nat.{bit_and}
use open_switcher.Prelude.{
  subst, ◌≤◌, ◌≡◌, ◌≢◌, refl, sym, Bool, true, false, ◌==◌, ℕ_discrete, if◌then◌else◌, ok,
}
use open_switcher.Model.Hotkeys.{HotkeySpec-discrete}
use open_switcher.Model.Settings.{Settings, LayoutSwitchSetting-discrete}
use open_switcher.Model.Patches.{
  contains, SettingsPatch, Bool-discrete, differ, between, merge, apply_to, unknown_bits,
}
use open_switcher.Model.PatchBits.{changed_mask-bits}
use open_switcher.Model.Validation.{validate-accepts}

-- What a patch makes of one field, where `base` and `desired` are the values it was made from.
abbrev chosen : {A : Type 0} → Discrete A → A → A → A → A
chosen d base desired current = if differ d base desired then desired else current

-- The settings after the writes of a patch.
abbrev chosen_settings : Settings → Settings → Settings → Settings
chosen_settings base desired current = record {
  auto_switch_enabled =
      chosen Bool-discrete base.auto_switch_enabled desired.auto_switch_enabled
        current.auto_switch_enabled;
  fix_two_capitals =
      chosen Bool-discrete base.fix_two_capitals desired.fix_two_capitals current.fix_two_capitals;
  fix_accidental_caps_lock =
      chosen Bool-discrete base.fix_accidental_caps_lock desired.fix_accidental_caps_lock
        current.fix_accidental_caps_lock;
  layout_delay_ms =
      chosen ℕ_discrete base.layout_delay_ms desired.layout_delay_ms current.layout_delay_ms;
  manual_correction_hotkey =
      chosen HotkeySpec-discrete base.manual_correction_hotkey desired.manual_correction_hotkey
        current.manual_correction_hotkey;
  selected_text_hotkey =
      chosen HotkeySpec-discrete base.selected_text_hotkey desired.selected_text_hotkey
        current.selected_text_hotkey;
  layout_switch =
      chosen LayoutSwitchSetting-discrete base.layout_switch desired.layout_switch
        current.layout_switch;
}

merge-bits :
    (p : SettingsPatch) (current : Settings) (a b c d e g h : Bool)
    → contains p.changed 1 ≡ a
    → contains p.changed 2 ≡ b
    → contains p.changed 4 ≡ c
    → contains p.changed 8 ≡ d
    → contains p.changed 16 ≡ e
    → contains p.changed 32 ≡ g
    → contains p.changed 64 ≡ h
    → merge p current ≡ record {
      auto_switch_enabled = if a then p.values.auto_switch_enabled else current.auto_switch_enabled;
      fix_two_capitals = if b then p.values.fix_two_capitals else current.fix_two_capitals;
      fix_accidental_caps_lock =
          if c then p.values.fix_accidental_caps_lock else current.fix_accidental_caps_lock;
      layout_delay_ms = if d then p.values.layout_delay_ms else current.layout_delay_ms;
      manual_correction_hotkey =
          if e then p.values.manual_correction_hotkey else current.manual_correction_hotkey;
      selected_text_hotkey =
          if g then p.values.selected_text_hotkey else current.selected_text_hotkey;
      layout_switch = if h then p.values.layout_switch else current.layout_switch;
    }
unfolding merge
merge-bits p current a b c d e g h k0 k1 k2 k3 k4 k5 k6 =
    rw (merge, k0, k1, k2, k3, k4, k5, k6) refl

merge-between :
    (base desired current : Settings)
    → merge (between base desired) current ≡ chosen_settings base desired current
unfolding between
merge-between base desired current =
    let a = differ Bool-discrete base.auto_switch_enabled desired.auto_switch_enabled in
    let b = differ Bool-discrete base.fix_two_capitals desired.fix_two_capitals in
    let c = differ Bool-discrete base.fix_accidental_caps_lock desired.fix_accidental_caps_lock in
    let d = differ ℕ_discrete base.layout_delay_ms desired.layout_delay_ms in
    let e =
      differ HotkeySpec-discrete base.manual_correction_hotkey desired.manual_correction_hotkey in
    let g = differ HotkeySpec-discrete base.selected_text_hotkey desired.selected_text_hotkey in
    let h = differ LayoutSwitchSetting-discrete base.layout_switch desired.layout_switch in
    let k = changed_mask-bits a b c d e g h in
    merge-bits (between base desired) current a b c d e g h k.0 k.1 k.2 k.3 k.4 k.5 k.6

pub between-known :
    (base desired : Settings) → (bit_and (between base desired).changed unknown_bits == 0) ≡ true
unfolding between
between-known base desired =
    (changed_mask-bits (differ Bool-discrete base.auto_switch_enabled desired.auto_switch_enabled)
      (differ Bool-discrete base.fix_two_capitals desired.fix_two_capitals)
      (differ Bool-discrete base.fix_accidental_caps_lock desired.fix_accidental_caps_lock)
      (differ ℕ_discrete base.layout_delay_ms desired.layout_delay_ms)
      (differ HotkeySpec-discrete base.manual_correction_hotkey desired.manual_correction_hotkey)
      (differ HotkeySpec-discrete base.selected_text_hotkey desired.selected_text_hotkey)
      (differ LayoutSwitchSetting-discrete base.layout_switch desired.layout_switch)).7

-- One field of a patch that was made from `base` and `desired`, and applied to `current`.
abbrev pub FieldMerged : {A : Type 0} → A → A → A → A → Type 0
FieldMerged base desired current found =
    (base ≡ desired → found ≡ current) × (base ≢ desired → found ≡ desired)

chosen-FieldMerged :
    {A : Type 0} (d : Discrete A) (base desired current : A)
    → FieldMerged base desired current (chosen d base desired current)
chosen-FieldMerged d base desired current =
    elim (d base desired)
      as (λ x.
        FieldMerged base desired current
          (if elim x [ yes _ ↦ false | no _ ↦ true ] then desired else current)) [
            | yes e ↦ (λ _. refl, λ n. absurd (n e))
            | no n ↦ (λ e. absurd (n e), λ _. refl)
          ]

abbrev pub Merged : Settings → Settings → Settings → Settings → Type 0
Merged base desired current found =
    FieldMerged base.auto_switch_enabled desired.auto_switch_enabled current.auto_switch_enabled
      found.auto_switch_enabled
    × FieldMerged base.fix_two_capitals desired.fix_two_capitals current.fix_two_capitals
        found.fix_two_capitals
    × FieldMerged base.fix_accidental_caps_lock desired.fix_accidental_caps_lock
        current.fix_accidental_caps_lock found.fix_accidental_caps_lock
    × FieldMerged base.layout_delay_ms desired.layout_delay_ms current.layout_delay_ms
        found.layout_delay_ms
    × FieldMerged base.manual_correction_hotkey desired.manual_correction_hotkey
        current.manual_correction_hotkey found.manual_correction_hotkey
    × FieldMerged base.selected_text_hotkey desired.selected_text_hotkey
        current.selected_text_hotkey found.selected_text_hotkey
    × FieldMerged base.layout_switch desired.layout_switch current.layout_switch found.layout_switch

chosen-Merged :
    (base desired current : Settings)
    → Merged base desired current (chosen_settings base desired current)
chosen-Merged base desired current = (
  chosen-FieldMerged Bool-discrete _ _ _,
  chosen-FieldMerged Bool-discrete _ _ _,
  chosen-FieldMerged Bool-discrete _ _ _,
  chosen-FieldMerged ℕ_discrete _ _ _,
  chosen-FieldMerged HotkeySpec-discrete _ _ _,
  chosen-FieldMerged HotkeySpec-discrete _ _ _,
  chosen-FieldMerged LayoutSwitchSetting-discrete _ _ _,
)

pub merge-Merged :
    (base desired current : Settings)
    → Merged base desired current (merge (between base desired) current)
merge-Merged base desired current =
    subst (Merged base desired current) (sym (merge-between base desired current))
      (chosen-Merged base desired current)

-- When the patch between two settings is applied to current ones and accepted: a field that the patch
-- does not change keeps its current value, a changed one has its desired value, the delay is at most
-- 500 ms, and the two hotkeys differ.
pub apply_to-Merged :
    (base desired current found : Settings)
    → apply_to (between base desired) current ≡ ok found
    → Merged base desired current found
      × (found.layout_delay_ms ≤ 500)
      × (found.manual_correction_hotkey ≢ found.selected_text_hotkey)
unfolding apply_to
apply_to-Merged base desired current found h =
    let v = (validate-accepts (merge (between base desired) current) found).0 h in
    (
      subst (Merged base desired current) v.0 (merge-Merged base desired current),
      subst (λ x. x.layout_delay_ms ≤ 500) v.0 v.1,
      subst (λ x. x.manual_correction_hotkey ≢ x.selected_text_hotkey) v.0 v.2,
    )
