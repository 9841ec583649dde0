-- ===== src/Synthetic/ReleaseOrder.antt =====
-- The physical releases that a session ledger accepts: their sequence numbers rise strictly.
use open_switcher.Prelude.{
  ℕ, ◌<◌, ◌≡◌, refl, ◌⊎◌, inl, inr, true, false, List, [], ◌∷◌, Option, none, some, ok, err, is_ok,
  arith, leb, ◌==◌, if◌then◌else◌, Bool-cases,
}
use open_switcher.Synthetic.Errors.{Fallible}
use open_switcher.Synthetic.SessionLedger.{
  SessionModifierLedger, SessionModifierDebt, PhysicalReleaseCommit, validate_physical_release,
  committed, commit_physical_release,
}

-- The sequence numbers rise strictly above `lo`.
abbrev pub RisesAbove : ℕ → List ℕ → Type 0
RisesAbove lo [] = Unit {0}
RisesAbove lo (n ∷ ns) = (lo < n) × RisesAbove n ns

RisesAbove-at : (a b : ℕ) (ns : List ℕ) → a ≡ b → RisesAbove a ns → RisesAbove b ns
RisesAbove-at a b [] e h = tt
RisesAbove-at a b (n ∷ ns) e h = (omega (arith, e, h.0), h.1)

module _ {T : Type 0} where
  -- The sequence numbers of the commits that a ledger accepts, in the order of the commits.
  unfoldable pub accepted : SessionModifierLedger T → List PhysicalReleaseCommit → List ℕ
  accepted l [] = []
  accepted l (c ∷ cs) =
      let next = commit_physical_release l c in
      let rest = accepted next.0 cs in if is_ok next.1 then c.sequence ∷ rest else rest

  validate-fresh :
      (l : SessionModifierLedger T) (c : PhysicalReleaseCommit)
      → is_ok (validate_physical_release l c) ≡ true
      → l.last_release_sequence < c.sequence
  unfolding validate_physical_release
  validate-fresh l c h = elim (Bool-cases (c.generation == l.generation)) [
    | inr e ↦ ground (arith, rw (validate_physical_release, e) at h)
    | inl e ↦ elim (Bool-cases (leb c.sequence l.last_release_sequence)) [
      | inl s ↦ ground (arith, rw (validate_physical_release, e, s) at h)
      | inr s ↦ ground (arith, s)
    ]
  ]

  -- A commit is accepted as validated, and moves the last sequence number to its own; a refused one
  -- changes nothing.
  committed-cases :
      (l : SessionModifierLedger T) (c : PhysicalReleaseCommit)
      (r : Fallible (Option (SessionModifierDebt T)))
      → ((is_ok r ≡ true)
          × (is_ok (committed l c r).1 ≡ true)
          × ((committed l c r).0.last_release_sequence ≡ c.sequence))
        ⊎ ((is_ok (committed l c r).1 ≡ false) × ((committed l c r).0 ≡ l))
  committed-cases l c (err e) = inr (refl, refl)
  committed-cases l c (ok none) = inl (refl, refl, refl)
  committed-cases l c (ok (some d)) = inl (refl, refl, refl)

  -- Over any commits, the sequence numbers that a session ledger accepts rise strictly above the
  -- last one that it had, so no release is committed twice or out of order.
  pub accepted-RisesAbove :
      (l : SessionModifierLedger T) (cs : List PhysicalReleaseCommit)
      → RisesAbove l.last_release_sequence (accepted l cs)
  unfolding accepted commit_physical_release
  accepted-RisesAbove l [] = tt
  accepted-RisesAbove l (c ∷ cs) =
      let next = commit_physical_release l c in
      elim (committed-cases l c (validate_physical_release l c)) [
        | inl h ↦ rw h.1 (
          validate-fresh l c h.0,
          RisesAbove-at next.0.last_release_sequence c.sequence (accepted next.0 cs) h.2
              (accepted-RisesAbove next.0 cs),
        )
        | inr h ↦ rw h.0 (rw h.1 (accepted-RisesAbove l cs))
      ]
