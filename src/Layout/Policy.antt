-- ===== src/Layout/Policy.antt =====
-- src/layout_backend/policy.rs: the features that a setup and a backend allow.
use open_switcher.Prelude.{
  Bool, true, false, not, ◌&&◌, ◌||◌, Option, none, some, String, if◌then◌else◌,
}
use open_switcher.Layout.Layouts.{
  LayoutSetup, strict_pair, pair_plus_other, unsupported_setup, LayoutCompatibility,
  full_strict_pair, pair_and_other, limited, unsupported_layouts, BackendCapabilities,
}

pub record FeatureAvailability : Type 0 where
  pub auto_switch : Bool
  pub manual_word_fix : Bool
  pub selected_text_switch : Bool
  pub reason : Option String

unfoldable pub compatibility_from_setup : LayoutSetup → LayoutCompatibility
compatibility_from_setup (strict_pair _ _) = full_strict_pair
compatibility_from_setup (pair_plus_other _ _ _) = pair_and_other
compatibility_from_setup (unsupported_setup _) = unsupported_layouts

abbrev pub can_switch : BackendCapabilities → Bool
can_switch c = (c.can_switch_to_target || c.can_switch_next) && c.can_map_layouts_to_app_kinds

abbrev pub can_target : BackendCapabilities → Bool
can_target c =
    c.can_read_current_layout && (c.can_switch_to_target && c.can_map_layouts_to_app_kinds)

unfoldable pub feature_availability_for :
    LayoutCompatibility → BackendCapabilities → FeatureAvailability
feature_availability_for full_strict_pair c = record {
  auto_switch = c.can_read_current_layout && can_switch c;
  manual_word_fix = can_switch c;
  selected_text_switch = true;
  reason =
      if not (c.can_read_current_layout && can_switch c) || not (can_switch c)
      then some "Backend does not provide enough capabilities for all EN/RU features."
      else none;
}
feature_availability_for pair_and_other c = record {
  auto_switch = can_target c;
  manual_word_fix = can_target c;
  selected_text_switch = true;
  reason = some "Only EN/RU-specific features are available, extra layouts are treated as Other.";
}
feature_availability_for limited c = record {
  auto_switch = false;
  manual_word_fix = false;
  selected_text_switch = true;
  reason = some "Backend is limited: automatic and manual layout-dependent features are disabled.";
}
feature_availability_for unsupported_layouts c = record {
  auto_switch = false;
  manual_word_fix = false;
  selected_text_switch = true;
  reason = some "Layout setup is unsupported for EN/RU automation on this backend.";
}
