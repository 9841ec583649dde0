-- ===== src/Layout/Layouts.antt =====
-- src/layout_backend/model.rs and capabilities.rs. A text is the list of its code points.
use open_switcher.Prelude.{
  ℕ, Bool, not, ◌&&◌, ◌||◌, List, [], ◌∷◌, Option, none, some, String, all, leb, ◌==◌, is_empty,
  if◌then◌else◌, Result, ok, err,
}
use open_switcher.Switch.Keymap.{AppLayoutKind, codes}
use open_switcher.Model.Names.{find_text}

unfoldable pub is_valid_normalized_layout_code : List ℕ → Bool
is_valid_normalized_layout_code value =
    not (is_empty value)
    && all (λ c. leb b'a' c && leb c b'z' || leb b'0' c && leb c b'9' || c == b'-' || c == b'_')
        value

pub data LayoutCode : Type 0 where
  us gb ru : LayoutCode
  other_code : List ℕ → LayoutCode
  unknown_code : LayoutCode

abbrev pub code_names : List (String × LayoutCode)
code_names = ("us", us) ∷ ("gb", gb) ∷ ("ru", ru) ∷ ("unknown", unknown_code) ∷ []

abbrev pub named_code : List ℕ → Option LayoutCode → Result LayoutCode (List ℕ)
named_code value (some code) = ok code
named_code value none =
    if is_valid_normalized_layout_code value then ok (other_code value) else err value

unfoldable pub from_normalized : List ℕ → Result LayoutCode (List ℕ)
unfolding find_text is_valid_normalized_layout_code
from_normalized value = named_code value (find_text code_names value)

unfoldable pub normalized_str : LayoutCode → Option (List ℕ)
normalized_str us = some (codes "us")
normalized_str gb = some (codes "gb")
normalized_str ru = some (codes "ru")
normalized_str (other_code value) = some value
normalized_str unknown_code = none

pub record SystemLayout : Type 0 where
  pub backend_key : List ℕ
  pub normalized_code : LayoutCode
  pub display_name : List ℕ
  pub kind : AppLayoutKind
  pub index : Option ℕ

pub data CurrentLayoutState : Type 0 where
  known : SystemLayout → Bool → CurrentLayoutState
  unknown_layout : List ℕ → CurrentLayoutState

pub data LayoutSetup : Type 0 where
  strict_pair : SystemLayout → SystemLayout → LayoutSetup
  pair_plus_other : SystemLayout → SystemLayout → List SystemLayout → LayoutSetup
  unsupported_setup : List ℕ → LayoutSetup

pub data LayoutCompatibility : Type 0 where
  full_strict_pair pair_and_other limited unsupported_layouts : LayoutCompatibility

pub record BackendCapabilities : Type 0 where
  pub can_list_layouts : Bool
  pub can_read_current_layout : Bool
  pub can_switch_to_target : Bool
  pub can_switch_next : Bool
  pub can_observe_layout_changes : Bool
  pub can_map_layouts_to_app_kinds : Bool
