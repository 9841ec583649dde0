-- ===== src/Model/HotkeyLaws.antt =====
-- What the parsing of a hotkey accepts.
use open_switcher.Prelude.{
  arith, subst, length, length-append, ◌<◌, ℕ, ◌≡◌, refl, ap, ◌∙◌, ◌↔◌, Bool, true, false, List, [],
  ◌∷◌, ◌++◌, some, Option-cases, inl, inr, ok, is_empty,
}
use open_switcher.Switch.Keymap.{codes}
use open_switcher.Switch.Texts.{to_lowercase}
use open_switcher.Model.Names.{find_text-Rows, strip_suffix, strip_suffix-append, trim, filter}
use open_switcher.Model.Hotkeys.{
  HotkeyModifiers, modifiers, prefixes, from_compact_prefix, HotkeyTrigger, f9, f10, f12, pause,
  scroll_lock, insert, menu, config_value, compact_alias, first_suffix, suffix_order,
  from_compact_suffix, HotkeySpec, to_text, compact, parse_suffix, parse_trimmed, parse, shown_if,
}

-- The compact text of a hotkey.
abbrev pub prefix_text : HotkeyModifiers → List ℕ
prefix_text m = shown_if m.shift "shift" ++ (shown_if m.ctrl "ctrl" ++ shown_if m.alt "alt")

abbrev pub compact_text : HotkeySpec → List ℕ
compact_text h = prefix_text h.modifiers ++ codes (compact_alias h.trigger)

prefix-found :
    (prefix : List ℕ) (m : HotkeyModifiers)
    → from_compact_prefix prefix ≡ some m
    → prefix ≡ prefix_text m
unfolding from_compact_prefix
prefix-found prefix m h =
    find_text-Rows (λ v m'. v ≡ prefix_text m') prefixes prefix m
      (refl, (refl, (refl, (refl, (refl, (refl, (refl, (refl, tt)))))))) h

suffix-found :
    (order : List HotkeyTrigger) (value prefix : List ℕ) (trigger : HotkeyTrigger)
    → first_suffix order value ≡ some (trigger, prefix)
    → value ≡ prefix ++ codes (compact_alias trigger)
unfolding first_suffix
suffix-found [] value prefix trigger h = ground (arith, h)
suffix-found (t ∷ rest) value prefix trigger h =
    elim (Option-cases (strip_suffix value (codes (compact_alias t)))) [
      | inl e ↦ suffix-found rest value prefix trigger (rw (first_suffix, e) at h)
      | inr (p, e) ↦
          let here : some (t, p) ≡ some (trigger, prefix) = rw (first_suffix, e) at h in
          let law = strip_suffix-append value (codes (compact_alias t)) p e in
          let same_trigger : t ≡ trigger = ground (arith, here) in
          let same_prefix : p ≡ prefix = ground (arith, here) in
          subst (λ q. value ≡ q ++ codes (compact_alias trigger)) same_prefix
            (subst (λ u. value ≡ p ++ codes (compact_alias u)) same_trigger law)
    ]

parse_suffix_sound :
    (value text : List ℕ) (h : HotkeySpec)
    → parse_suffix value (from_compact_suffix text) ≡ ok h
    → text ≡ compact_text h
unfolding from_compact_suffix
parse_suffix_sound value text h e = elim (Option-cases (from_compact_suffix text)) [
  | inl n ↦ absurd (ground (arith, n, e))
  | inr ((trigger, prefix), found) ↦ elim (Option-cases (from_compact_prefix prefix)) [
    | inl n ↦ absurd (ground (arith, n, found, e))
    | inr (m, known) ↦
        let here : record { modifiers = m; trigger = trigger } ≡ h =
          ground (arith, found, known, e) in
        subst (λ x. text ≡ compact_text x) here
          (suffix-found suffix_order text prefix trigger found
            ∙ ap (λ p. p ++ codes (compact_alias trigger)) (prefix-found prefix m known))
  ]
]

every_modifiers :
    (P : HotkeyModifiers → Type 0)
    → P (modifiers true true true)
    → P (modifiers true true false)
    → P (modifiers true false true)
    → P (modifiers true false false)
    → P (modifiers false true true)
    → P (modifiers false true false)
    → P (modifiers false false true)
    → P (modifiers false false false)
    → (shift ctrl alt : Bool) → P (modifiers shift ctrl alt)
every_modifiers P a b c d e f g h true true true = a
every_modifiers P a b c d e f g h true true false = b
every_modifiers P a b c d e f g h true false true = c
every_modifiers P a b c d e f g h true false false = d
every_modifiers P a b c d e f g h false true true = e
every_modifiers P a b c d e f g h false true false = f
every_modifiers P a b c d e f g h false false true = g
every_modifiers P a b c d e f g h false false false = h

abbrev ReadsBack : List ℕ → HotkeyTrigger → HotkeyModifiers → Type 0
ReadsBack value t m =
    parse_suffix value (from_compact_suffix (compact_text (record { modifiers = m; trigger = t })))
    ≡ ok (record { modifiers = m; trigger = t })

reads_back :
    (value : List ℕ) (t : HotkeyTrigger) (shift ctrl alt : Bool)
    → ReadsBack value t (modifiers shift ctrl alt)
unfolding from_compact_suffix from_compact_prefix
reads_back value f9 = every_modifiers (ReadsBack value f9) refl refl refl refl refl refl refl refl
reads_back value f10 = every_modifiers (ReadsBack value f10) refl refl refl refl refl refl refl refl
reads_back value f12 = every_modifiers (ReadsBack value f12) refl refl refl refl refl refl refl refl
reads_back value pause =
    every_modifiers (ReadsBack value pause) refl refl refl refl refl refl refl refl
reads_back value scroll_lock =
    every_modifiers (ReadsBack value scroll_lock) refl refl refl refl refl refl refl refl
reads_back value insert =
    every_modifiers (ReadsBack value insert) refl refl refl refl refl refl refl refl
reads_back value menu =
    every_modifiers (ReadsBack value menu) refl refl refl refl refl refl refl refl

alias_pos : (t : HotkeyTrigger) → 0 < length (codes (compact_alias t))
unfolding compact_alias
alias_pos f9 = omega arith
alias_pos f10 = omega arith
alias_pos f12 = omega arith
alias_pos pause = omega arith
alias_pos scroll_lock = omega arith
alias_pos insert = omega arith
alias_pos menu = omega arith

empty-compact :
    (h : HotkeySpec) (raw : List ℕ) → compact raw ≡ compact_text h → is_empty raw ≡ false
unfolding compact filter
empty-compact h [] e = absurd (
    omega (
      arith,
      ap length e,
      length-append (prefix_text h.modifiers) (codes (compact_alias h.trigger)),
      alias_pos h.trigger,
    ))
empty-compact h (c ∷ raw) e = refl

parsed_sound :
    (value raw : List ℕ) (h : HotkeySpec)
    → parse_trimmed value raw ≡ ok h
    → compact raw ≡ compact_text h
parsed_sound value [] h e = absurd (ground (arith, e))
parsed_sound value (c ∷ raw) h e = parse_suffix_sound value (compact (c ∷ raw)) h e

parsed_complete :
    (value raw : List ℕ) (h : HotkeySpec)
    → compact raw ≡ compact_text h
    → parse_trimmed value raw ≡ ok h
parsed_complete value raw h e =
    let read = reads_back value h.trigger h.modifiers.shift h.modifiers.ctrl h.modifiers.alt in
    rw (empty-compact h raw e, e) read

-- Parsing a text gives a hotkey exactly when the text, without the white space around it, in lower
-- case and without the separators `+`, `_`, `-` and space, is the names of its modifiers in the order
-- shift, ctrl, alt, followed by the name of its trigger.
pub parse-compact :
    (value : List ℕ) (h : HotkeySpec)
    → (parse value ≡ ok h) ↔ (compact (trim value) ≡ compact_text h)
unfolding parse
parse-compact value h = (parsed_sound value (trim value) h, parsed_complete value (trim value) h)

abbrev Compacts : HotkeyTrigger → HotkeyModifiers → Type 0
Compacts t m =
    let h : HotkeySpec = record { modifiers = m; trigger = t } in
    compact (trim (to_text h)) ≡ compact_text h

compact-to_text :
    (t : HotkeyTrigger) (shift ctrl alt : Bool) → Compacts t (modifiers shift ctrl alt)
unfolding compact filter trim to_text config_value compact_alias to_lowercase
compact-to_text f9 = every_modifiers (Compacts f9) refl refl refl refl refl refl refl refl
compact-to_text f10 = every_modifiers (Compacts f10) refl refl refl refl refl refl refl refl
compact-to_text f12 = every_modifiers (Compacts f12) refl refl refl refl refl refl refl refl
compact-to_text pause = every_modifiers (Compacts pause) refl refl refl refl refl refl refl refl
compact-to_text scroll_lock =
    every_modifiers (Compacts scroll_lock) refl refl refl refl refl refl refl refl
compact-to_text insert = every_modifiers (Compacts insert) refl refl refl refl refl refl refl refl
compact-to_text menu = every_modifiers (Compacts menu) refl refl refl refl refl refl refl refl

-- The text that a hotkey prints is parsed as that hotkey.
pub parse-to_text : (h : HotkeySpec) → parse (to_text h) ≡ ok h
parse-to_text h =
    (parse-compact (to_text h) h).1
      (compact-to_text h.trigger h.modifiers.shift h.modifiers.ctrl h.modifiers.alt)
