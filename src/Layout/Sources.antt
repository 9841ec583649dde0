-- ===== src/Layout/Sources.antt =====
-- src/layout_backend/detection.rs: the answers of `setxkbmap -query` and of GNOME's settings. The reader
-- of the settings is a parameter: what it answers is an argument, an error its text.
use open_switcher.Prelude.{
  ℕ, Bool, true, false, not, List, [], ◌∷◌, ◌++◌, Option, none, some, String, any, ◌==◌, length,
  is_empty, map, if◌then◌else◌, Result, ok, err,
}
use open_switcher.Switch.Keymap.{codes}
use open_switcher.Switch.Texts.{same_text}
use open_switcher.Model.Names.{trim, trim_start}
use open_switcher.Model.Settings.{SystemContext, x11, wayland, unknown_session, gnome}
use open_switcher.Layout.Layouts.{
  SystemLayout, normalized_str, CurrentLayoutState, known, unknown_layout, LayoutSetup,
}
use open_switcher.Layout.Detection.{
  LayoutSetupDetection, confirmed, temporarily_unavailable, unsupported, Reason,
  classify_plain_layouts, layouts_from_confirmed_setup,
}

-- `split` at a character; there is always a first part.
unfoldable pub split_at : ℕ → List ℕ → List ℕ × List (List ℕ)
split_at separator [] = ([], [])
split_at separator (c ∷ cs) =
    let (first, rest) = split_at separator cs in
    if c == separator then ([], first ∷ rest) else (c ∷ first, rest)

abbrev pub parts_of : List ℕ × List (List ℕ) → List (List ℕ)
parts_of (first, rest) = first ∷ rest

-- `split(',').map(str::trim)`.
unfoldable pub comma_parts : List ℕ → List (List ℕ)
unfolding split_at trim
comma_parts value = map trim (parts_of (split_at b',' value))

-- `lines`: a line ends at a line feed, and no empty line stands after the last one. The carriage return
-- that may end a line is left, since every line is trimmed.
unfoldable pub drop_last_empty : List ℕ → List (List ℕ) → List (List ℕ)
drop_last_empty line [] = if is_empty line then [] else line ∷ []
drop_last_empty line (next ∷ rest) = line ∷ drop_last_empty next rest

unfoldable pub lines : List ℕ → List (List ℕ)
unfolding split_at drop_last_empty
lines query = let (first, rest) = split_at 10 query in drop_last_empty first rest

unfoldable pub strip_prefix : List ℕ → List ℕ → Option (List ℕ)
strip_prefix text [] = some text
strip_prefix [] (p ∷ ps) = none
strip_prefix (c ∷ cs) (p ∷ ps) = if c == p then strip_prefix cs ps else none

-- `filter_map`.
unfoldable pub field_values : List ℕ → List (List ℕ) → List (List ℕ)
unfolding strip_prefix trim trim_start
field_values field [] = []
field_values field (line ∷ rest) = elim (strip_prefix (trim_start line) field) [
  | some value ↦ trim value ∷ field_values field rest
  | none ↦ field_values field rest
]

abbrev pub at_most_one : List (List ℕ) → Reason → Result (Option (List ℕ)) Reason
at_most_one [] duplicated = ok none
at_most_one (value ∷ []) duplicated = ok (some value)
at_most_one (value ∷ next ∷ rest) duplicated = err duplicated

-- Each of the two fields has its own reason.
unfoldable pub single_query_field : List ℕ → String → Reason → Result (Option (List ℕ)) Reason
unfolding lines field_values
single_query_field query field duplicated =
    at_most_one (field_values (codes field) (lines query)) duplicated

abbrev pub refused : Reason → LayoutSetupDetection
refused reason = unsupported (codes reason)

abbrev pub with_variants : List (List ℕ) → Result (Option (List ℕ)) Reason → LayoutSetupDetection
with_variants layout_ids (err reason) = refused reason
with_variants layout_ids (ok none) = classify_plain_layouts (codes "x11") layout_ids
with_variants layout_ids (ok (some value)) =
    if not (length (comma_parts value) == length layout_ids)
    then refused "x11-variant-count-mismatch"
    else if any (λ v. not (is_empty v)) (comma_parts value)
    then refused "x11-variant-unsupported"
    else classify_plain_layouts (codes "x11") layout_ids

abbrev pub with_layout_field : List ℕ → Result (Option (List ℕ)) Reason → LayoutSetupDetection
with_layout_field query (err reason) = refused reason
with_layout_field query (ok none) = refused "x11-layout-missing"
with_layout_field query (ok (some value)) =
    if is_empty value
    then refused "x11-layout-missing"
    else if any is_empty (comma_parts value)
    then refused "x11-layout-malformed"
    else with_variants (comma_parts value)
        (single_query_field query "variant:" "x11-variant-duplicated")

unfoldable pub detect_x11_setup_from_query : List ℕ → LayoutSetupDetection
unfolding single_query_field comma_parts
detect_x11_setup_from_query query =
    with_layout_field query (single_query_field query "layout:" "x11-layout-duplicated")

pub record GnomeInputSource : Type 0 where
  pub source_type : List ℕ
  pub source_id : List ℕ

unfoldable pub parse_gnome_sources : List (List ℕ) → Result (List GnomeInputSource) Reason
parse_gnome_sources [] = ok []
parse_gnome_sources (source_type ∷ []) = err "gnome-sources-malformed"
parse_gnome_sources (source_type ∷ source_id ∷ rest) = elim (parse_gnome_sources rest) [
  | ok sources ↦ ok (record { source_type = source_type; source_id = source_id } ∷ sources)
  | err reason ↦ err reason
]

abbrev pub is_xkb : GnomeInputSource → Bool
is_xkb source = same_text source.source_type (codes "xkb")

abbrev pub gnome_setup : Result (List GnomeInputSource) Reason → LayoutSetupDetection
gnome_setup (err reason) = refused reason
gnome_setup (ok []) = refused "gnome-sources-empty"
gnome_setup (ok (source ∷ sources)) =
    if any (λ s. not (is_xkb s)) (source ∷ sources)
    then refused "gnome-source-type-unsupported"
    else classify_plain_layouts (codes "gnome") (map (λ s. s.source_id) (source ∷ sources))

unfoldable pub detect_gnome_setup_from_sources : List (List ℕ) → LayoutSetupDetection
unfolding parse_gnome_sources
detect_gnome_setup_from_sources sources = gnome_setup (parse_gnome_sources sources)

abbrev pub unknown_current : Reason → CurrentLayoutState
unknown_current reason = unknown_layout (codes reason)

unfoldable pub has_code : List ℕ → SystemLayout → Bool
unfolding normalized_str same_text
has_code source_id l = elim (normalized_str l.normalized_code) [
  | some code ↦ same_text code source_id
  | none ↦ false
]

unfoldable pub with_code : List ℕ → List SystemLayout → CurrentLayoutState
unfolding has_code
with_code source_id [] = unknown_current "gnome-current-source-unknown"
with_code source_id (l ∷ ls) = if has_code source_id l then known l true else with_code source_id ls

abbrev pub current_of_source : LayoutSetup → GnomeInputSource → CurrentLayoutState
current_of_source setup source =
    if is_xkb source
    then elim (layouts_from_confirmed_setup setup) [
      | some layouts ↦ with_code source.source_id layouts
      | none ↦ unknown_current "gnome-current-source-unknown"
    ]
    else unknown_current "gnome-current-source-type-unsupported"

abbrev pub current_mru : LayoutSetup → Result (List GnomeInputSource) Reason → CurrentLayoutState
current_mru setup (err reason) = unknown_current reason
current_mru setup (ok []) = unknown_current "gnome-mru-empty"
current_mru setup (ok (source ∷ rest)) = current_of_source setup source

unfoldable pub current_layout_from_gnome_sources :
    List (List ℕ) → List (List ℕ) → CurrentLayoutState
unfolding detect_gnome_setup_from_sources parse_gnome_sources with_code
current_layout_from_gnome_sources configured mru =
    elim (detect_gnome_setup_from_sources configured) [
      | confirmed setup ↦ current_mru setup (parse_gnome_sources mru)
      | _ ↦ unknown_current "gnome-layout-setup-unconfirmed"
    ]

abbrev pub after_query : Result (List ℕ) (List ℕ) → LayoutSetupDetection
after_query (ok query) = detect_x11_setup_from_query query
after_query (err error) = temporarily_unavailable (codes "setxkbmap-query:" ++ error)

abbrev pub after_sources : Result (List (List ℕ)) (List ℕ) → LayoutSetupDetection
after_sources (ok sources) = detect_gnome_setup_from_sources sources
after_sources (err error) = temporarily_unavailable (codes "gnome-sources:" ++ error)

-- `setxkbmap_query` and `gsettings_string_list` of the reader.
unfoldable pub detect_layout_setup :
    SystemContext
    → Result (List ℕ) (List ℕ)
    → Result (List (List ℕ)) (List ℕ)
    → LayoutSetupDetection
unfolding detect_x11_setup_from_query detect_gnome_setup_from_sources
detect_layout_setup context query sources = elim (context.session_type) [
  | x11 ↦ after_query query
  | wayland ↦ elim (context.desktop_environment) [
    | gnome ↦ after_sources sources
    | _ ↦ refused "unsupported-session-context"
  ]
  | unknown_session ↦ refused "unsupported-session-context"
]
