-- ===== src/Layout/CurrentLaws.antt =====
-- What a known current layout is.
use open_switcher.Prelude.{
  ℕ, ◌≤◌, ◌<◌, ◌≡◌, refl, sym, subst, Bool, true, false, List, [], ◌∷◌, ◌++◌, ap, some,
  Option-cases, Bool-cases, inl, inr, any, count_if, is_some_and, length, ◌==◌, arith,
}
use open_switcher.Layout.Layouts.{SystemLayout, known, LayoutSetup}
use open_switcher.Layout.Detection.{
  layouts_from_confirmed_setup, fresh_indices, indices_match_group_count, at_group,
  current_layout_from_group,
}

abbrev pub has_index : ℕ → SystemLayout → Bool
has_index group l = is_some_and (λ i. i == group) l.index

fresh-parts :
    (groups : ℕ) (indices : List ℕ) (l : SystemLayout) (ls : List SystemLayout)
    → fresh_indices groups indices (l ∷ ls) ≡ true
    → (index : ℕ) × (l.index ≡ some index)
      × (index < groups)
      × (any (λ i. i == index) indices ≡ false)
      × (fresh_indices groups (index ∷ indices) ls ≡ true)
unfolding fresh_indices
fresh-parts groups indices l ls h = elim (Option-cases l.index) [
  | inl e ↦ absurd (ground (arith, e, h))
  | inr (index, e) ↦ (index, e, ground (arith, e, h), ground (arith, e, h), ground (arith, e, h))
]

-- An index that was seen is not found again.
seen_once :
    (groups group : ℕ) (indices : List ℕ) (ls : List SystemLayout)
    → fresh_indices groups indices ls ≡ true
    → any (λ i. i == group) indices ≡ true
    → count_if (has_index group) ls ≡ 0
seen_once groups group indices [] h seen = refl
seen_once groups group indices (l ∷ ls) h seen =
    let p = fresh-parts groups indices l ls h in
    let rest = seen_once groups group (p.0 ∷ indices) ls p.4 (ground (arith, seen)) in
    elim (Bool-cases (p.0 == group)) [
      | inl same ↦
          let equal : p.0 ≡ group = ground (arith, same) in
          let again : any (λ i. i == p.0) indices ≡ true = rw (equal) seen in
          absurd (ground (arith, again, p.3))
      | inr differ ↦ rw (p.1, differ, rest) refl
    ]

index_once :
    (groups group : ℕ) (indices : List ℕ) (ls : List SystemLayout)
    → fresh_indices groups indices ls ≡ true
    → count_if (has_index group) ls ≤ 1
index_once groups group indices [] h = omega arith
index_once groups group indices (l ∷ ls) h =
    let p = fresh-parts groups indices l ls h in
    elim (Bool-cases (p.0 == group)) [
      | inl same ↦
          let rest = seen_once groups group (p.0 ∷ indices) ls p.4 (ground (arith, same)) in
          ground (arith, p.1, same, rest)
      | inr differ ↦
          let rest = index_once groups group (p.0 ∷ indices) ls p.4 in
          ground (arith, p.1, differ, rest)
    ]

-- The layout is one of the list.
abbrev pub StandsIn : SystemLayout → List SystemLayout → Type 0
StandsIn l ls =
    (before : List SystemLayout) × (after : List SystemLayout) × (ls ≡ before ++ l ∷ after)

at_group-known :
    (groups group : ℕ) (indices : List ℕ) (ls : List SystemLayout) (l : SystemLayout) (t : Bool)
    → fresh_indices groups indices ls ≡ true
    → at_group group ls ≡ known l t
    → (l.index ≡ some group)
      × (t ≡ true)
      × (group < groups)
      × (0 < count_if (has_index group) ls)
      × StandsIn l ls
unfolding at_group
at_group-known groups group indices [] l t fresh h = absurd (ground (arith, h))
at_group-known groups group indices (k ∷ ls) l t fresh h =
    let p = fresh-parts groups indices k ls fresh in
    elim (Bool-cases (p.0 == group)) [
      | inl same ↦
          let equal : p.0 ≡ group = ground (arith, same) in
          let found : known k true ≡ known l t = rw (at_group, p.1, same) at h in
          let same_layout : k ≡ l = ground (arith, found) in
          let trusted : true ≡ t = ground (arith, found) in
          (
            subst (λ x. x.index ≡ some group) same_layout (subst (λ g. k.index ≡ some g) equal p.1),
            sym trusted,
            subst (λ g. g < groups) equal p.2,
            ground (arith, p.1, same),
            ([], ls, ap (λ x. x ∷ ls) same_layout),
          )
      | inr differ ↦
          let later =
            at_group-known groups group (p.0 ∷ indices) ls l t p.4
              (rw (at_group, p.1, differ) at h) in
          (
            later.0,
            later.1,
            later.2,
            ground (arith, p.1, differ, later.3),
            (k ∷ later.4.0, later.4.1, ap (◌∷◌ k) later.4.2),
          )
    ]

-- A current layout is known only when the setup is confirmed and has as many layouts as there are
-- groups; it is then trusted and a layout of the setup, its index is the group, which is below their
-- number, and no other layout of the setup has that index.
pub current_layout-known :
    (setup : LayoutSetup) (group groups : ℕ) (l : SystemLayout) (t : Bool)
    → current_layout_from_group setup group groups ≡ known l t
    → (ls : List SystemLayout) × (layouts_from_confirmed_setup setup ≡ some ls)
      × (length ls ≡ groups)
      × (group < groups)
      × (l.index ≡ some group)
      × (t ≡ true)
      × (count_if (has_index group) ls ≡ 1)
      × StandsIn l ls
unfolding current_layout_from_group indices_match_group_count
current_layout-known setup group groups l t h =
    elim (Option-cases (layouts_from_confirmed_setup setup)) [
      | inl e ↦ absurd (ground (arith, e, h))
      | inr (ls, e) ↦ elim (Bool-cases (indices_match_group_count ls groups)) [
        | inl m ↦
            let found : at_group group ls ≡ known l t = rw (current_layout_from_group, e, m) at h in
            let size : length ls ≡ groups = ground (arith, m) in
            let fresh : fresh_indices groups [] ls ≡ true = ground (arith, m) in
            let k = at_group-known groups group [] ls l t fresh found in
            (
              ls,
              e,
              size,
              k.2,
              k.0,
              k.1,
              omega (arith, index_once groups group [] ls fresh, k.3),
              k.4,
            )
        | inr m ↦ absurd (ground (arith, e, m, h))
      ]
    ]
