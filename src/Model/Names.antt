-- ===== src/Model/Names.antt =====
-- Texts of src/model.rs and of Rust's `str`: a `match` on fixed texts is a search in a table.
use open_switcher.Prelude.{
  arith, ℕ, ◌≡◌, Bool, ◌||◌, List, [], ◌∷◌, ◌++◌, Option, none, some, String, ap, leb, ◌==◌,
  if◌then◌else◌, Bool-cases, inl, inr, any, subst, ◌&&◌, Option-cases,
}
use mathlib.Core.List.{reverse}
use open_switcher.Switch.Keymap.{codes}
use open_switcher.Switch.Texts.{same_text}
use open_switcher.Switch.TextLaws.{same_text_eq}

-- The arms of a `match` on a text, in their order.
unfoldable pub find_text : {A : Type 0} → List (String × A) → List ℕ → Option A
unfolding same_text
find_text [] value = none
find_text ((name, a) ∷ rest) value =
    if same_text (codes name) value then some a else find_text rest value

abbrev pub Rows : {A : Type 0} → (List ℕ → A → Type 0) → List (String × A) → Type 0
Rows P [] = Unit {0}
Rows P ((name, a) ∷ rest) = P (codes name) a × Rows P rest

pub find_text-Rows :
    {A : Type 0} (P : List ℕ → A → Type 0) (table : List (String × A)) (value : List ℕ) (a : A)
    → Rows P table
    → find_text table value ≡ some a
    → P value a
unfolding find_text
find_text-Rows P [] value a rows h = ground (arith, h)
find_text-Rows P ((name, b) ∷ rest) value a rows h =
    elim (Bool-cases (same_text (codes name) value)) [
      | inl e ↦
          let here : some b ≡ some a = rw (find_text, e) at h in
          let same : b ≡ a = ground (arith, here) in
          subst (λ v. P v a) (same_text_eq (codes name) value e)
            (subst (P (codes name)) same rows.0)
      | inr e ↦ find_text-Rows P rest value a rows.1 (rw (find_text, e) at h)
    ]

-- `strip_suffix`.
unfoldable pub strip_suffix : List ℕ → List ℕ → Option (List ℕ)
unfolding same_text
strip_suffix [] suffix = if same_text [] suffix then some [] else none
strip_suffix (c ∷ cs) suffix =
    if same_text (c ∷ cs) suffix
    then some []
    else elim (strip_suffix cs suffix) [ some prefix ↦ some (c ∷ prefix) | none ↦ none ]

pub strip_suffix-append :
    (value suffix prefix : List ℕ)
    → strip_suffix value suffix ≡ some prefix
    → value ≡ prefix ++ suffix
unfolding strip_suffix
strip_suffix-append [] suffix prefix h = elim (Bool-cases (same_text [] suffix)) [
  | inl e ↦
      let here : some [] ≡ some prefix = rw (strip_suffix, e) at h in
      let same : [] ≡ prefix = ground (arith, here) in
      subst (λ p. [] ≡ p ++ suffix) same (same_text_eq [] suffix e)
  | inr e ↦ absurd (ground (arith, e, h))
]
strip_suffix-append (c ∷ cs) suffix prefix h = elim (Bool-cases (same_text (c ∷ cs) suffix)) [
  | inl e ↦
      let here : some [] ≡ some prefix = rw (strip_suffix, e) at h in
      let same : [] ≡ prefix = ground (arith, here) in
      subst (λ p. c ∷ cs ≡ p ++ suffix) same (same_text_eq (c ∷ cs) suffix e)
  | inr e ↦ elim (Option-cases (strip_suffix cs suffix)) [
    | inl n ↦ absurd (ground (arith, e, n, h))
    | inr (p, found) ↦
        let here : some (c ∷ p) ≡ some prefix = rw (strip_suffix, e, found) at h in
        let same : c ∷ p ≡ prefix = ground (arith, here) in
        subst (λ q. c ∷ cs ≡ q ++ suffix) same
          (ap (λ q. c ∷ q) (strip_suffix-append cs suffix p found))
  ]
]

-- `char::is_whitespace`: the code points with the property White_Space.
unfoldable pub is_whitespace : ℕ → Bool
is_whitespace c =
    leb 9 c && leb c 13
    || leb 8192 c && leb c 8202
    || any (λ w. w == c) (32 ∷ 133 ∷ 160 ∷ 5760 ∷ 8232 ∷ 8233 ∷ 8239 ∷ 8287 ∷ 12288 ∷ [])

unfoldable pub trim_start : List ℕ → List ℕ
unfolding is_whitespace
trim_start [] = []
trim_start (c ∷ cs) = if is_whitespace c then trim_start cs else c ∷ cs

unfoldable pub trim : List ℕ → List ℕ
unfolding trim_start
trim value = reverse (trim_start (reverse (trim_start value)))

-- `filter` and `collect` of characters.
unfoldable pub filter : (ℕ → Bool) → List ℕ → List ℕ
filter keeps [] = []
filter keeps (c ∷ cs) = if keeps c then c ∷ filter keeps cs else filter keeps cs
