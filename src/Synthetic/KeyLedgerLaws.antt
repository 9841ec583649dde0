-- ===== src/Synthetic/KeyLedgerLaws.antt =====
-- Debts by press id: their ids rise along the list and stay below the next one, so each call on the
-- ledger acts on exactly the debt that it means.
use open_switcher.Prelude.{
  ℕ, suc, ◌≤◌, ◌<◌, ◌≡◌, refl, ap, ◌∙◌, ◌⊎◌, inl, inr, List, [], ◌∷◌, ◌++◌, map, Option, none, some,
  arith, ◌==◌, if◌then◌else◌, Bool-cases, ==-refl,
}
use mathlib.Core.List.{reverse, reverse-cons}
use open_switcher.Synthetic.KeyLedger.{SyntheticDebt, find_debt, mark_debt, remove_debt}

-- Membership, by recursion.
abbrev pub In : {A : Type 0} → A → List A → Type 0
In a [] = ⊥
In a (x ∷ xs) = (a ≡ x) ⊎ In a xs

module _ {A : Type 0} where
  pub In-append_left : (a : A) (xs ys : List A) → In a xs → In a (xs ++ ys)
  In-append_left a [] ys h = absurd h
  In-append_left a (x ∷ xs) ys (inl e) = inl e
  In-append_left a (x ∷ xs) ys (inr h) = inr (In-append_left a xs ys h)

  pub In-append_right : (a : A) (xs ys : List A) → In a ys → In a (xs ++ ys)
  In-append_right a [] ys h = h
  In-append_right a (x ∷ xs) ys h = inr (In-append_right a xs ys h)

  pub In-append : (a : A) (xs ys : List A) → In a (xs ++ ys) → In a xs ⊎ In a ys
  In-append a [] ys h = inr h
  In-append a (x ∷ xs) ys (inl e) = inl (inl e)
  In-append a (x ∷ xs) ys (inr h) = elim (In-append a xs ys h) [
    | inl l ↦ inl (inr l)
    | inr r ↦ inr r
  ]

  pub In-reverse : (a : A) (xs : List A) → In a (reverse xs) → In a xs
  In-reverse a [] h = absurd h
  In-reverse a (x ∷ xs) h = elim (In-append a (reverse xs) (x ∷ []) (rw (reverse-cons x xs) at h)) [
    | inl l ↦ inr (In-reverse a xs l)
    | inr (inl e) ↦ inl e
    | inr (inr n) ↦ absurd n
  ]

  pub In-reverse_of : (a : A) (xs : List A) → In a xs → In a (reverse xs)
  In-reverse_of a [] h = absurd h
  In-reverse_of a (x ∷ xs) (inl e) =
      rw (reverse-cons x xs) (In-append_right a (reverse xs) (x ∷ []) (inl e))
  In-reverse_of a (x ∷ xs) (inr h) =
      rw (reverse-cons x xs) (In-append_left a (reverse xs) (x ∷ []) (In-reverse_of a xs h))

module _ {T : Type 0} where
  abbrev pub tokens : List (SyntheticDebt T) → List T
  tokens = map (λ d. d.token)

  -- The ids rise from `lo` on and stay below `hi`.
  abbrev pub Rising : ℕ → ℕ → List (SyntheticDebt T) → Type 0
  Rising lo hi [] = Unit {0}
  Rising lo hi (d ∷ ds) = (lo ≤ d.press_id) × (d.press_id < hi) × Rising (suc d.press_id) hi ds

  pub Rising-mono :
      (lo lo' hi : ℕ) (ds : List (SyntheticDebt T)) → lo' ≤ lo → Rising lo hi ds → Rising lo' hi ds
  Rising-mono lo lo' hi [] h r = tt
  Rising-mono lo lo' hi (d ∷ ds) h r = (omega arith, r.1, r.2)

  pub Rising-snoc :
      (lo hi hi' : ℕ) (ds : List (SyntheticDebt T)) (d : SyntheticDebt T)
      → lo ≤ hi
      → d.press_id ≡ hi
      → hi < hi'
      → Rising lo hi ds
      → Rising lo hi' (ds ++ d ∷ [])
  Rising-snoc lo hi hi' [] d a e b r = (omega arith, omega arith, tt)
  Rising-snoc lo hi hi' (x ∷ ds) d a e b r =
      (r.0, omega arith, Rising-snoc (suc x.press_id) hi hi' ds d (omega arith) e b r.2)

  pub Rising-remove :
      (id lo hi : ℕ) (ds : List (SyntheticDebt T))
      → Rising lo hi ds
      → Rising lo hi (remove_debt id ds)
  unfolding remove_debt
  Rising-remove id lo hi [] r = tt
  Rising-remove id lo hi (d ∷ ds) r = elim (Bool-cases (d.press_id == id)) [
    | inl e ↦ rw e (Rising-mono (suc d.press_id) lo hi ds (omega arith) r.2)
    | inr e ↦ rw e (r.0, r.1, Rising-remove id (suc d.press_id) hi ds r.2)
  ]

  pub Rising-mark :
      (id lo hi : ℕ) (ds : List (SyntheticDebt T))
      → Rising lo hi ds
      → Rising lo hi (mark_debt id ds)
  unfolding mark_debt
  Rising-mark id lo hi [] r = tt
  Rising-mark id lo hi (d ∷ ds) r = elim (Bool-cases (d.press_id == id)) [
    | inl e ↦ rw e (r.0, r.1, r.2)
    | inr e ↦ rw e (r.0, r.1, Rising-mark id (suc d.press_id) hi ds r.2)
  ]

  pub tokens-mark : (id : ℕ) (ds : List (SyntheticDebt T)) → tokens (mark_debt id ds) ≡ tokens ds
  unfolding mark_debt
  tokens-mark id [] = refl
  tokens-mark id (d ∷ ds) = ground (arith, tokens-mark id ds)

  -- A debt below the ids of the list is not found.
  pub find_below :
      (id lo hi : ℕ) (ds : List (SyntheticDebt T))
      → id < lo
      → Rising lo hi ds
      → find_debt id ds ≡ none
  unfolding find_debt
  find_below id lo hi [] h r = refl
  find_below id lo hi (d ∷ ds) h r = ground (arith, find_below id (suc d.press_id) hi ds)

  -- After the removal of one id the others are found as before.
  pub find-remove :
      (i j lo hi : ℕ) (ds : List (SyntheticDebt T))
      → Rising lo hi ds
      → find_debt i (remove_debt j ds) ≡ (if i == j then none else find_debt i ds)
  unfolding find_debt remove_debt
  find-remove i j lo hi [] r = ground arith
  find-remove i j lo hi (d ∷ ds) r =
      ground
        (arith, find-remove i j (suc d.press_id) hi ds r.2, find_below i (suc d.press_id) hi ds)

  pub find-In :
      (lo hi : ℕ) (ds : List (SyntheticDebt T)) (d : SyntheticDebt T)
      → Rising lo hi ds
      → In d ds
      → find_debt d.press_id ds ≡ some d
  unfolding find_debt
  find-In lo hi [] d r h = absurd h
  find-In lo hi (x ∷ ds) d r (inl e) = ground (arith, e)
  find-In lo hi (x ∷ ds) d r (inr h) =
      ground (
        arith,
        find-In (suc x.press_id) hi ds d r.2 h,
        find_below d.press_id (suc x.press_id) hi ds,
      )

  abbrev token_or : T → Option (SyntheticDebt T) → T
  token_or t none = t
  token_or t (some d) = d.token

  -- What a removal takes from the tokens is the token of the debt that was found.
  pub In-remove :
      (id : ℕ) (ds : List (SyntheticDebt T)) (d : SyntheticDebt T) (t : T)
      → find_debt id ds ≡ some d
      → In t (tokens ds)
      → (t ≡ d.token) ⊎ In t (tokens (remove_debt id ds))
  unfolding find_debt remove_debt
  In-remove id [] d t e h = absurd h
  In-remove id (x ∷ ds) d t e h = elim (Bool-cases (x.press_id == id)) [
    | inl y ↦ elim h [ inl u ↦ inl (u ∙ ap (λ o. token_or t o) (rw y at e)) | inr u ↦ rw y (inr u) ]
    | inr y ↦ elim h [
      | inl u ↦ rw y (inr (inl u))
      | inr u ↦ elim (In-remove id ds d t (rw y at e) u) [
        | inl v ↦ inl v
        | inr v ↦ rw y (inr (inr v))
      ]
    ]
  ]

  -- The debt that was just begun is the one that is found and taken away again.
  pub find-snoc :
      (lo hi : ℕ) (ds : List (SyntheticDebt T)) (d : SyntheticDebt T)
      → Rising lo hi ds
      → d.press_id ≡ hi
      → (find_debt d.press_id (ds ++ d ∷ []) ≡ some d)
        × (remove_debt d.press_id (ds ++ d ∷ []) ≡ ds)
  unfolding find_debt remove_debt
  find-snoc lo hi [] d r e = ground (arith, ==-refl d.press_id)
  find-snoc lo hi (x ∷ ds) d r e = ground (arith, find-snoc (suc x.press_id) hi ds d r.2 e)
