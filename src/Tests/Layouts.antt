-- ===== src/Tests/Layouts.antt =====
-- A pair of layouts, and which of them is the current one.
use open_switcher.Model.Settings.{x11}
use open_switcher.Layout.Snapshots.{
  InputRuntimeSnapshot, SnapshotAuthorization, authorizes_at, LayoutSetupRetry, retry_confirmed,
  record_failure, is_due,
}
use open_switcher.Layout.SnapshotLaws.{exact, record_failure-due}
use open_switcher.Prelude.{
  none, arith, false, ◌+◌, ◌≤◌, ℕ, ◌≡◌, ◌<◌, refl, true, List, [], ◌∷◌, some, length, count_if,
}
use open_switcher.Switch.Keymap
use open_switcher.Switch.Keymap.{codes}
use open_switcher.Layout.Layouts.{SystemLayout, strict_pair, us, ru, known, unknown_layout}
use open_switcher.Layout.Detection.{
  confirmed, unsupported, classify_plain_layouts, layouts_from_confirmed_setup,
  current_layout_from_group,
}
use open_switcher.Layout.Sources.{detect_x11_setup_from_query}
use open_switcher.Layout.DetectionLaws.{IsPair, Listed, classify_plain_layouts-IsPair}
use open_switcher.Layout.CurrentLaws.{has_index, StandsIn, current_layout-known}

abbrev first_layout : SystemLayout
first_layout = record {
  backend_key = codes "x11:us:0";
  normalized_code = us;
  display_name = codes "English (US)";
  kind = Keymap.english;
  index = some 0;
}

abbrev second_layout : SystemLayout
second_layout = record {
  backend_key = codes "x11:ru:1";
  normalized_code = ru;
  display_name = codes "Russian";
  kind = Keymap.russian;
  index = some 1;
}

abbrev ids : List (List ℕ)
ids = codes "us" ∷ codes "ru" ∷ []

pair_confirmed :
    classify_plain_layouts (codes "x11") ids ≡ confirmed (strict_pair first_layout second_layout)
unfolding classify_plain_layouts
pair_confirmed = refl

repeated_refused :
    classify_plain_layouts (codes "x11") (codes "us" ∷ codes "us" ∷ codes "ru" ∷ [])
    ≡ unsupported (codes "layout-code-duplicated")
unfolding classify_plain_layouts
repeated_refused = refl

classify_plain_layouts-IsPair_example :
    (layouts : List SystemLayout) × Listed 0 ids layouts
    × IsPair layouts (strict_pair first_layout second_layout)
classify_plain_layouts-IsPair_example =
    classify_plain_layouts-IsPair (codes "x11") ids (strict_pair first_layout second_layout)
      pair_confirmed

russian_current :
    current_layout_from_group (strict_pair first_layout second_layout) 1 2
    ≡ known second_layout true
unfolding current_layout_from_group
russian_current = refl

third_group :
    current_layout_from_group (strict_pair first_layout second_layout) 1 3
    ≡ unknown_layout (codes "layout-group-count-mismatch")
unfolding current_layout_from_group
third_group = refl

current_layout-known_example :
    (ls : List SystemLayout) × (layouts_from_confirmed_setup
        (strict_pair first_layout second_layout)
      ≡ some ls)
    × (length ls ≡ 2)
    × (1 < 2)
    × (second_layout.index ≡ some 1)
    × (true ≡ true)
    × (count_if (has_index 1) ls ≡ 1)
    × StandsIn second_layout ls
current_layout-known_example =
    current_layout-known (strict_pair first_layout second_layout) 1 2 second_layout true
      russian_current

query_confirmed :
    detect_x11_setup_from_query (codes "rules: evdev\nlayout: us, ru\nvariant: ,\n")
    ≡ confirmed (strict_pair first_layout second_layout)
unfolding detect_x11_setup_from_query classify_plain_layouts
query_confirmed = refl

abbrev polled : InputRuntimeSnapshot (Unit {0}) (Unit {0})
polled = record {
  config = tt;
  enabled = true;
  features = tt;
  session_type = x11;
  layout_state = known first_layout true;
  config_generation = 4;
  layout_generation = 7;
  confirmed_layout_epoch = 2;
  confirmed_at = some 5000;
}

abbrev polled_again : InputRuntimeSnapshot (Unit {0}) (Unit {0})
polled_again = record polled { confirmed_at = some 5300 }

abbrev permit : SnapshotAuthorization
permit = record { config_generation = 4; layout_generation = 7; layout_epoch = 2 }

permit_too_old : authorizes_at polled permit 6200 2 ≡ false
unfolding authorizes_at
permit_too_old = refl

abbrev one_failure : LayoutSetupRetry
one_failure = record { failures = 1; next_due = none }

record_failure-due_example :
    (is_due (record_failure exact retry_confirmed 100) 3000 ≡ true → 100 + 2000 ≤ 3000)
    × (100 + 30000 ≤ 3000 → is_due (record_failure exact retry_confirmed 100) 3000 ≡ true)
    × (is_due (record_failure exact one_failure 100) 3000 ≡ true
        → is_due (record_failure exact retry_confirmed 100) 3000 ≡ true)
record_failure-due_example = record_failure-due retry_confirmed one_failure 100 3000 (omega arith)
