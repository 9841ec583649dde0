-- ===== src/Key.antt =====
-- The keys of the `evdev` crate that the source names: one constructor for each `Key::KEY_*`
-- constant, and `other` for the codes without a name in the source. The constants are distinct,
-- as the crate documents; nothing else about their codes is used.
use open_switcher.Prelude.{ℕ, ℕ_discrete}

pub data Key : Type 0 where
  key_a key_b key_c key_d key_e key_f key_g key_h key_i key_j key_k key_l key_m key_n : Key
  key_o key_p key_q key_r key_s key_t key_u key_v key_w key_x key_y key_z : Key
  key_0 key_1 key_2 key_3 key_4 key_5 key_6 key_7 key_8 key_9 : Key
  key_apostrophe key_backslash key_backspace key_capslock key_comma key_dot key_enter : Key
  key_equal key_esc key_f10 key_f11 key_f12 key_f9 key_grave key_insert key_leftalt : Key
  key_leftbrace key_leftctrl key_leftmeta key_leftshift key_menu key_minus key_pause : Key
  key_rightalt key_rightbrace key_rightctrl key_rightmeta key_rightshift key_scrolllock : Key
  key_semicolon key_slash key_space key_tab : Key
  other : ℕ → Key

-- The derived equality of keys.
unfoldable pub Key-discrete : Discrete Key
Key-discrete = hlevel ℕ_discrete
