-- ===== src/Layout/DetectionLaws.antt =====
-- What a confirmed setup has.
use mathlib.Core.List.{Perm, perm_middle}
use mathlib.Core.List.Perm
use open_switcher.Switch.Keymap
use open_switcher.Prelude.{
  ℕ, suc, ◌+◌, ◌≡◌, refl, sym, subst, String, ap, ap₂, ◌⊎◌, ◌++◌, append_assoc, Bool, true, false,
  List, [], ◌∷◌, some, Bool-cases, inl, inr, length, ◌==◌, arith, Result, ok, err, Result-cases,
  any, All,
}
use open_switcher.Switch.Texts.{same_text}
use open_switcher.Layout.Layouts.{
  SystemLayout, LayoutSetup, LayoutCode, us, gb, ru, other_code, unknown_code, from_normalized,
}
use open_switcher.Layout.Detection.{
  confirmed, collect_layouts, classified, classify_plain_layouts, is_english, is_russian, is_other,
  filter_layouts, only_one, layouts_from_confirmed_setup, system_layout, display_of, usable_code,
  setup_of,
}

module _ (p : SystemLayout → Bool) where
  filter_layouts-All : (ls : List SystemLayout) → All (λ l. p l ≡ true) (filter_layouts p ls)
  unfolding filter_layouts
  filter_layouts-All [] = tt
  filter_layouts-All (l ∷ ls) = elim (Bool-cases (p l)) [
    | inl e ↦ rw (filter_layouts, e) (e, filter_layouts-All ls)
    | inr e ↦ rw (filter_layouts, e) (filter_layouts-All ls)
  ]

-- Every layout that is collected is English, Russian or another one.
abbrev kinds : List SystemLayout → ℕ
kinds ls =
    length (filter_layouts is_english ls)
    + (length (filter_layouts is_russian ls) + length (filter_layouts is_other ls))

abbrev OneKind : SystemLayout → Type 0
OneKind l = (l.kind ≡ Keymap.english) ⊎ (l.kind ≡ Keymap.russian) ⊎ (l.kind ≡ Keymap.other_layout)

kinds-length : (ls : List SystemLayout) → All OneKind ls → kinds ls ≡ length ls
unfolding filter_layouts
kinds-length [] h = refl
kinds-length (l ∷ ls) (inl e, h) = ground (arith, e, kinds-length ls h)
kinds-length (l ∷ ls) (inr (inl e), h) = ground (arith, e, kinds-length ls h)
kinds-length (l ∷ ls) (inr (inr e), h) = ground (arith, e, kinds-length ls h)

-- The layouts, the English ones first and the Russian ones next.
abbrev by_kind : List SystemLayout → List SystemLayout
by_kind ls =
    filter_layouts is_english ls ++ (filter_layouts is_russian ls ++ filter_layouts is_other ls)

perm-by_kind : (ls : List SystemLayout) → All OneKind ls → Perm (by_kind ls) ls
unfolding filter_layouts
perm-by_kind [] h = Perm.nil
perm-by_kind (l ∷ ls) (inl e, h) =
    let en : is_english l ≡ true = ground (arith, e) in
    let ru : is_russian l ≡ false = ground (arith, e) in
    let ot : is_other l ≡ false = ground (arith, e) in
    rw (en, ru, ot) (Perm.cons l (perm-by_kind ls h))
perm-by_kind (l ∷ ls) (inr (inl e), h) =
    let en : is_english l ≡ false = ground (arith, e) in
    let ru : is_russian l ≡ true = ground (arith, e) in
    let ot : is_other l ≡ false = ground (arith, e) in
    rw (en, ru, ot)
      (Perm.trans (perm_middle (filter_layouts is_english ls) _) (Perm.cons l (perm-by_kind ls h)))
perm-by_kind (l ∷ ls) (inr (inr e), h) =
    let es = filter_layouts is_english ls in
    let rs = filter_layouts is_russian ls in
    let os = filter_layouts is_other ls in
    let en : is_english l ≡ false = ground (arith, e) in
    let ru : is_russian l ≡ false = ground (arith, e) in
    let ot : is_other l ≡ true = ground (arith, e) in
    rw (en, ru, ot)
      (subst (λ x. Perm x (l ∷ ls)) (append_assoc es rs (l ∷ os))
        (Perm.trans (perm_middle (es ++ rs) os)
          (Perm.cons l (subst (λ x. Perm x ls) (sym (append_assoc es rs os)) (perm-by_kind ls h)))))

-- A layout for each listed code, in their order and numbered from `index` on.
abbrev pub Listed : ℕ → List (List ℕ) → List SystemLayout → Type 0
Listed index [] [] = Unit {0}
Listed index (id ∷ ids) (l ∷ ls) =
    (from_normalized id ≡ ok l.normalized_code) × (l.index ≡ some index) × Listed (suc index) ids ls
Listed index _ _ = ⊥

usable_code-ok :
    (r : Result LayoutCode (List ℕ)) (code : LayoutCode) → usable_code r ≡ ok code → r ≡ ok code
usable_code-ok (ok us) code h = ground (arith, h)
usable_code-ok (ok gb) code h = ground (arith, h)
usable_code-ok (ok ru) code h = ground (arith, h)
usable_code-ok (ok (other_code v)) code h = ground (arith, h)
usable_code-ok (ok unknown_code) code h = absurd (ground (arith, h))
usable_code-ok (err e) code h = absurd (ground (arith, h))

never_unknown : (r : Result LayoutCode (List ℕ)) → usable_code r ≡ ok unknown_code → ⊥
never_unknown (ok us) h = ground (arith, h)
never_unknown (ok gb) h = ground (arith, h)
never_unknown (ok ru) h = ground (arith, h)
never_unknown (ok (other_code v)) h = ground (arith, h)
never_unknown (ok unknown_code) h = ground (arith, h)
never_unknown (err e) h = ground (arith, h)

system_layout-OneKind :
    (source layout_id : List ℕ) (code : LayoutCode) (index : ℕ) (r : Result LayoutCode (List ℕ))
    → usable_code r ≡ ok code
    → OneKind (system_layout source layout_id code index)
unfolding system_layout display_of
system_layout-OneKind source layout_id us index r h = inl refl
system_layout-OneKind source layout_id gb index r h = inl refl
system_layout-OneKind source layout_id ru index r h = inr (inl refl)
system_layout-OneKind source layout_id (other_code v) index r h = inr (inr refl)
system_layout-OneKind source layout_id unknown_code index r h = absurd (never_unknown r h)

collected :
    (source : List ℕ) (seen : List (List ℕ)) (index : ℕ) (ids : List (List ℕ))
    (ls : List SystemLayout)
    → collect_layouts source seen index ids ≡ ok ls
    → Listed index ids ls × All OneKind ls
unfolding collect_layouts system_layout
collected source seen index [] ls h =
    let empty : [] ≡ ls = ground (arith, h) in
    subst (λ x. Listed index [] x × All OneKind x) empty (tt, tt)
collected source seen index (layout_id ∷ ids) ls h =
    elim (Bool-cases (any (λ s. same_text s layout_id) seen)) [
      | inl e ↦ absurd (ground (arith, e, h))
      | inr e ↦ elim (Result-cases (usable_code (from_normalized layout_id))) [
        | inr (reason, bad) ↦ absurd (ground (arith, e, bad, h))
        | inl (code, good) ↦
            elim (Result-cases (collect_layouts source (layout_id ∷ seen) (suc index) ids)) [
              | inr (reason, bad) ↦ absurd (ground (arith, e, good, bad, h))
              | inl (rest, later) ↦
                  let first = system_layout source layout_id code index in
                  let whole : first ∷ rest ≡ ls = ground (arith, e, good, later, h) in
                  let k = collected source (layout_id ∷ seen) (suc index) ids rest later in
                  subst (λ x. Listed index (layout_id ∷ ids) x × All OneKind x) whole
                    (
                      (usable_code-ok (from_normalized layout_id) code good, refl, k.0),
                      (
                        system_layout-OneKind source layout_id code index
                            (from_normalized layout_id) good,
                        k.1,
                      ),
                    )
            ]
      ]
    ]

only_one-ok :
    (ls : List SystemLayout) (missing duplicated : String) (l : SystemLayout)
    → only_one ls missing duplicated ≡ ok l
    → ls ≡ l ∷ []
only_one-ok [] missing duplicated l h = absurd (ground (arith, h))
only_one-ok (k ∷ []) missing duplicated l h =
    let same : k ≡ l = ground (arith, h) in ap (λ x. x ∷ []) same
only_one-ok (k ∷ j ∷ ls) missing duplicated l h = absurd (ground (arith, h))

-- One English and one Russian layout and others, which are the given layouts in another order.
abbrev pub IsPair : List SystemLayout → LayoutSetup → Type 0
IsPair layouts setup =
    (en : SystemLayout) × (russian : SystemLayout) × (others : List SystemLayout)
    × (layouts_from_confirmed_setup setup ≡ some (en ∷ russian ∷ others))
    × Perm (en ∷ russian ∷ others) layouts
    × (is_english en ≡ true)
    × (is_russian russian ≡ true)
    × All (λ l. is_other l ≡ true) others

no_others : (ls : List SystemLayout) → length ls ≡ 0 → ls ≡ []
no_others [] e = refl
no_others (l ∷ ls) e = absurd (omega (arith, e))

setup_of-IsPair :
    (layouts : List SystemLayout) (en russian : SystemLayout)
    → All OneKind layouts
    → filter_layouts is_english layouts ≡ en ∷ []
    → filter_layouts is_russian layouts ≡ russian ∷ []
    → IsPair layouts (setup_of layouts en russian)
unfolding layouts_from_confirmed_setup
setup_of-IsPair layouts en russian k e r =
    let english : All (λ l. is_english l ≡ true) (en ∷ []) =
      subst (All (λ l. is_english l ≡ true)) e (filter_layouts-All is_english layouts) in
    let russians : All (λ l. is_russian l ≡ true) (russian ∷ []) =
      subst (All (λ l. is_russian l ≡ true)) r (filter_layouts-All is_russian layouts) in
    let os = filter_layouts is_other layouts in
    let same : by_kind layouts ≡ en ∷ russian ∷ os = ap₂ (λ a b. a ++ (b ++ os)) e r in
    let perm : Perm (en ∷ russian ∷ os) layouts =
      subst (λ x. Perm x layouts) same (perm-by_kind layouts k) in
    let total = kinds-length layouts k in
    let one_english = ap length e in
    let one_russian = ap length r in
    elim (Bool-cases (length layouts == 2)) as (λ _. IsPair layouts (setup_of layouts en russian)) [
      | inl two ↦
          let none_other : os ≡ [] =
            no_others os (ground (arith, total, one_english, one_russian, two)) in
          rw (two) (
            en,
            russian,
            [],
            refl,
            subst (λ o. Perm (en ∷ russian ∷ o) layouts) none_other perm,
            english.0,
            russians.0,
            tt,
          )
      | inr more ↦
          rw (more) (
            en,
            russian,
            os,
            refl,
            perm,
            english.0,
            russians.0,
            filter_layouts-All is_other layouts,
          )
    ]

classified-IsPair :
    (layouts : List SystemLayout) (setup : LayoutSetup)
    → All OneKind layouts
    → classified layouts ≡ ok setup
    → IsPair layouts setup
unfolding classified
classified-IsPair layouts setup k h =
    let english =
      only_one (filter_layouts is_english layouts) "english-layout-missing"
        "english-layout-duplicated" in
    let russians =
      only_one (filter_layouts is_russian layouts) "russian-layout-missing"
        "russian-layout-duplicated" in
    elim (Result-cases english) [
      | inr (reason, bad) ↦ absurd (ground (arith, bad, h))
      | inl (en, e) ↦ elim (Result-cases russians) [
        | inr (reason, bad) ↦ absurd (ground (arith, e, bad, h))
        | inl (russian, r) ↦
            let same : setup_of layouts en russian ≡ setup = ground (arith, e, r, h) in
            subst (IsPair layouts) same (
              setup_of-IsPair layouts en russian k
                (only_one-ok (filter_layouts is_english layouts) _ _ en e)
                (only_one-ok (filter_layouts is_russian layouts) _ _ russian r))
      ]
    ]

-- A confirmed setup consists of one English layout, one Russian layout and others; in another order
-- these are a layout for each listed code, with that code and with its place in the list as its index.
pub classify_plain_layouts-IsPair :
    (source : List ℕ) (ids : List (List ℕ)) (setup : LayoutSetup)
    → classify_plain_layouts source ids ≡ confirmed setup
    → (layouts : List SystemLayout) × Listed 0 ids layouts × IsPair layouts setup
unfolding classify_plain_layouts
classify_plain_layouts-IsPair source ids setup h =
    elim (Result-cases (collect_layouts source [] 0 ids)) [
      | inr (reason, bad) ↦ absurd (ground (arith, bad, h))
      | inl (layouts, e) ↦ elim (Result-cases (classified layouts)) [
        | inr (reason, bad) ↦ absurd (ground (arith, e, bad, h))
        | inl (found, good) ↦
            let same : found ≡ setup = ground (arith, e, good, h) in
            let k = collected source [] 0 ids layouts e in
            (layouts, k.0, subst (IsPair layouts) same (classified-IsPair layouts found k.1 good))
      ]
    ]
