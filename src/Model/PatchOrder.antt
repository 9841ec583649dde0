-- ===== src/Model/PatchOrder.antt =====
-- Patches as a protocol between the settings window and the daemon: nothing is lost.
use Prim.Native.Nat.{bit_and}
use open_switcher.Prelude.{◌≡◌, refl, ap, ◌∙◌, true, ◌==◌, ℕ_discrete, ok}
use open_switcher.Model.Hotkeys.{HotkeySpec-discrete}
use open_switcher.Model.Settings.{Settings, LayoutSwitchSetting-discrete, validate}
use open_switcher.Model.Patches.{
  SettingsPatch, Bool-discrete, between, merge, apply_to, received, validate_mask, unknown_bits,
}
use open_switcher.Model.PatchLaws.{FieldMerged, merge-Merged, between-known}

FieldMerged-same :
    {A : Type 0} (d : Discrete A) (base desired found : A)
    → FieldMerged base desired base found
    → found ≡ desired
FieldMerged-same d base desired found m = elim (d base desired) [ yes e ↦ m.0 e ∙ e | no n ↦ m.1 n ]

pub Settings-path :
    (s t : Settings)
    → s.auto_switch_enabled ≡ t.auto_switch_enabled
    → s.fix_two_capitals ≡ t.fix_two_capitals
    → s.fix_accidental_caps_lock ≡ t.fix_accidental_caps_lock
    → s.layout_delay_ms ≡ t.layout_delay_ms
    → s.manual_correction_hotkey ≡ t.manual_correction_hotkey
    → s.selected_text_hotkey ≡ t.selected_text_hotkey
    → s.layout_switch ≡ t.layout_switch
    → s ≡ t
Settings-path s t p0 p1 p2 p3 p4 p5 p6 = λ i. record {
  auto_switch_enabled = p0 i;
  fix_two_capitals = p1 i;
  fix_accidental_caps_lock = p2 i;
  layout_delay_ms = p3 i;
  manual_correction_hotkey = p4 i;
  selected_text_hotkey = p5 i;
  layout_switch = p6 i;
}

merge-desired : (base desired : Settings) → merge (between base desired) base ≡ desired
merge-desired base desired =
    let m = merge-Merged base desired base in
    Settings-path (merge (between base desired) base) desired
      (FieldMerged-same Bool-discrete _ _ _ m.0) (FieldMerged-same Bool-discrete _ _ _ m.1)
      (FieldMerged-same Bool-discrete _ _ _ m.2) (FieldMerged-same ℕ_discrete _ _ _ m.3)
      (FieldMerged-same HotkeySpec-discrete _ _ _ m.4)
      (FieldMerged-same HotkeySpec-discrete _ _ _ m.5)
      (FieldMerged-same LayoutSwitchSetting-discrete _ _ _ m.6)

received-mask :
    (p : SettingsPatch) → (bit_and p.changed unknown_bits == 0) ≡ true → received p ≡ ok p
unfolding received validate_mask
received-mask p e = rw (received, validate_mask, e) refl

-- For valid desired settings: the patch from the base to them is received as it was sent, and applied
-- to the base it gives the desired settings.
pub apply_to-between :
    (base desired : Settings)
    → validate desired ≡ ok desired
    → (received (between base desired) ≡ ok (between base desired))
      × (apply_to (between base desired) base ≡ ok desired)
unfolding apply_to
apply_to-between base desired h = (
  received-mask (between base desired) (between-known base desired),
  ap validate (merge-desired base desired) ∙ h,
)
