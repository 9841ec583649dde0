-- ===== src/Layout/Detection.antt =====
-- src/layout_backend/detection.rs: a setup from the codes of the layouts, in their order; and the
-- current layout, from the number of its group or from the recently used sources.
use open_switcher.Prelude.{
  ℕ, suc, zero, ◌+◌, ◌/◌, ◌%◌, Bool, true, false, not, ◌&&◌, List, [], ◌∷◌, ◌++◌, Option, none,
  some, String, any, ltb, ◌==◌, length, if◌then◌else◌, Result, ok, err,
}
use open_switcher.Switch.Keymap
use open_switcher.Switch.Keymap.{AppLayoutKind, codes}
use open_switcher.Switch.Texts.{same_text}
use open_switcher.Layout.Layouts.{
  LayoutCode, us, gb, ru, other_code, unknown_code, from_normalized, SystemLayout,
  CurrentLayoutState, known, unknown_layout, LayoutSetup, strict_pair, pair_plus_other,
  unsupported_setup,
}

pub data LayoutSetupDetection : Type 0 where
  confirmed : LayoutSetup → LayoutSetupDetection
  temporarily_unavailable unsupported : List ℕ → LayoutSetupDetection

unfoldable pub effective_setup : LayoutSetupDetection → LayoutSetup
effective_setup (confirmed setup) = setup
effective_setup (temporarily_unavailable reason) =
    unsupported_setup (codes "temporarily-unavailable:" ++ reason)
effective_setup (unsupported reason) = unsupported_setup (codes "unsupported:" ++ reason)

-- The decimal digits of a `u32`: ten are enough.
unfoldable pub decimal : ℕ → ℕ → List ℕ
decimal zero n = []
decimal (suc fuel) n =
    let rest = decimal fuel (n / 10) in
    if ltb n 10 then (48 + n) ∷ [] else rest ++ (48 + n % 10) ∷ []

abbrev pub is_gnome : List ℕ → Bool
is_gnome source = same_text source (codes "gnome")

unfoldable pub display_of : List ℕ → List ℕ → LayoutCode → List ℕ × AppLayoutKind
unfolding same_text
display_of source layout_id us =
    (codes (if is_gnome source then "English" else "English (US)"), Keymap.english)
display_of source layout_id gb = (codes "English (UK)", Keymap.english)
display_of source layout_id ru = (codes "Russian", Keymap.russian)
display_of source layout_id (other_code _) = (layout_id, Keymap.other_layout)
display_of source layout_id unknown_code = (codes "Unknown", Keymap.unknown)

unfoldable pub system_layout : List ℕ → List ℕ → LayoutCode → ℕ → SystemLayout
unfolding display_of decimal
system_layout source layout_id normalized_code index = record {
  backend_key =
      if is_gnome source
      then layout_id
      else source ++ (codes ":" ++ (layout_id ++ (codes ":" ++ decimal 10 index)));
  normalized_code = normalized_code;
  display_name = (display_of source layout_id normalized_code).0;
  kind = (display_of source layout_id normalized_code).1;
  index = some index;
}

abbrev pub Reason : Type 0
Reason = String

-- The loop over the layouts; `seen` are the codes before the rest.
abbrev pub usable_code : Result LayoutCode (List ℕ) → Result LayoutCode Reason
usable_code (ok unknown_code) = err "layout-code-malformed"
usable_code (ok code) = ok code
usable_code (err _) = err "layout-code-malformed"

abbrev pub with_layout :
    SystemLayout → Result (List SystemLayout) Reason → Result (List SystemLayout) Reason
with_layout layout (ok layouts) = ok (layout ∷ layouts)
with_layout layout (err reason) = err reason

unfoldable pub collect_layouts :
    List ℕ → List (List ℕ) → ℕ → List (List ℕ) → Result (List SystemLayout) Reason
unfolding system_layout from_normalized
collect_layouts source seen index [] = ok []
collect_layouts source seen index (layout_id ∷ rest) =
    let later = collect_layouts source (layout_id ∷ seen) (suc index) rest in
    if any (λ s. same_text s layout_id) seen
    then err "layout-code-duplicated"
    else elim (usable_code (from_normalized layout_id)) [
      | err reason ↦ err reason
      | ok code ↦ with_layout (system_layout source layout_id code index) later
    ]

abbrev pub is_english : SystemLayout → Bool
is_english l = elim (l.kind) [ Keymap.english ↦ true | _ ↦ false ]

abbrev pub is_russian : SystemLayout → Bool
is_russian l = elim (l.kind) [ Keymap.russian ↦ true | _ ↦ false ]

abbrev pub is_other : SystemLayout → Bool
is_other l = elim (l.kind) [ Keymap.other_layout ↦ true | _ ↦ false ]

unfoldable pub filter_layouts : (SystemLayout → Bool) → List SystemLayout → List SystemLayout
filter_layouts p [] = []
filter_layouts p (l ∷ ls) = if p l then l ∷ filter_layouts p ls else filter_layouts p ls

-- `next`, and then that there is no other.
abbrev pub only_one : List SystemLayout → Reason → Reason → Result SystemLayout Reason
only_one [] missing duplicated = err missing
only_one (l ∷ []) missing duplicated = ok l
only_one (l ∷ k ∷ ls) missing duplicated = err duplicated

abbrev pub setup_of : List SystemLayout → SystemLayout → SystemLayout → LayoutSetup
setup_of layouts en ru_layout =
    if length layouts == 2
    then strict_pair en ru_layout
    else pair_plus_other en ru_layout (filter_layouts is_other layouts)

infixl 5 ◌>>=◌
abbrev pub ◌>>=◌ : {A B : Type 0} → Result A Reason → (A → Result B Reason) → Result B Reason
r >>= f = elim r [ ok a ↦ f a | err e ↦ err e ]

unfoldable pub classified : List SystemLayout → Result LayoutSetup Reason
unfolding filter_layouts
classified layouts = do
  en ←
      only_one (filter_layouts is_english layouts) "english-layout-missing"
        "english-layout-duplicated"
  ru_layout ←
      only_one (filter_layouts is_russian layouts) "russian-layout-missing"
        "russian-layout-duplicated"
  ok (setup_of layouts en ru_layout)

abbrev pub detection_of : Result LayoutSetup Reason → LayoutSetupDetection
detection_of (ok setup) = confirmed setup
detection_of (err reason) = unsupported (codes reason)

unfoldable pub classify_plain_layouts : List ℕ → List (List ℕ) → LayoutSetupDetection
unfolding collect_layouts classified
classify_plain_layouts source layout_ids =
    detection_of (collect_layouts source [] 0 layout_ids >>= classified)

unfoldable pub layouts_from_confirmed_setup : LayoutSetup → Option (List SystemLayout)
layouts_from_confirmed_setup (strict_pair en ru_layout) = some (en ∷ ru_layout ∷ [])
layouts_from_confirmed_setup (pair_plus_other en ru_layout others) = some (en ∷ ru_layout ∷ others)
layouts_from_confirmed_setup (unsupported_setup _) = none

-- `indices` are those before the rest.
unfoldable pub fresh_indices : ℕ → List ℕ → List SystemLayout → Bool
fresh_indices groups indices [] = true
fresh_indices groups indices (l ∷ ls) = elim (l.index) [
  | none ↦ false
  | some index ↦
      ltb index groups
      && (not (any (λ i. i == index) indices) && fresh_indices groups (index ∷ indices) ls)
]

unfoldable pub indices_match_group_count : List SystemLayout → ℕ → Bool
unfolding fresh_indices
indices_match_group_count layouts groups =
    groups == length layouts && fresh_indices groups [] layouts

unfoldable pub at_group : ℕ → List SystemLayout → CurrentLayoutState
at_group group [] = unknown_layout (codes "layout-group-index-unknown")
at_group group (l ∷ ls) = elim (l.index) [
  | none ↦ at_group group ls
  | some index ↦ if index == group then known l true else at_group group ls
]

abbrev pub current_in : Option (List SystemLayout) → ℕ → ℕ → CurrentLayoutState
current_in none group groups = unknown_layout (codes "layout-setup-unconfirmed")
current_in (some layouts) group groups =
    if indices_match_group_count layouts groups
    then at_group group layouts
    else unknown_layout (codes "layout-group-count-mismatch")

unfoldable pub current_layout_from_group : LayoutSetup → ℕ → ℕ → CurrentLayoutState
unfolding layouts_from_confirmed_setup indices_match_group_count at_group
current_layout_from_group setup group groups =
    current_in (layouts_from_confirmed_setup setup) group groups
