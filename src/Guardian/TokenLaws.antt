-- ===== src/Guardian/TokenLaws.antt =====
-- Writes to and removals from a list of tracked tokens: their number, their debts and their ids.
use open_switcher.Prelude.{
  ℕ, ◌+◌, ◌≤◌, ◌<◌, ◌≡◌, refl, Bool, true, List, [], ◌∷◌, ◌++◌, some, length, arith, Bool-cases,
  inl, inr,
}
use open_switcher.Guardian.State.{
  TrackedTokenState, TrackedToken, find_first, write_first, remove_first, is_debt, debts_in,
}
use open_switcher.Guardian.Outcomes.{retain}

-- The ids rise from above `lo` up to `hi`.
abbrev pub IdsRise : ℕ → ℕ → List TrackedToken → Type 0
IdsRise lo hi [] = lo ≤ hi
IdsRise lo hi (t ∷ ts) = (lo < t.token.token_id) × IdsRise t.token.token_id hi ts

pub IdsRise-mono :
    (lo lo' hi : ℕ) (ts : List TrackedToken) → lo' ≤ lo → IdsRise lo hi ts → IdsRise lo' hi ts
IdsRise-mono lo lo' hi [] h r = omega arith
IdsRise-mono lo lo' hi (t ∷ ts) h r = (omega arith, r.1)

pub IdsRise-snoc :
    (lo hi : ℕ) (ts : List TrackedToken) (t : TrackedToken)
    → hi < t.token.token_id
    → IdsRise lo hi ts
    → IdsRise lo t.token.token_id (ts ++ t ∷ [])
IdsRise-snoc lo hi [] t h r = (omega arith, omega arith)
IdsRise-snoc lo hi (x ∷ ts) t h r = (r.0, IdsRise-snoc x.token.token_id hi ts t h r.1)

module _ (p : TrackedToken → Bool) where
  pub IdsRise-write :
      (state : TrackedTokenState) (lo hi : ℕ) (ts : List TrackedToken)
      → IdsRise lo hi ts
      → IdsRise lo hi (write_first p state ts)
  unfolding write_first
  IdsRise-write state lo hi [] r = r
  IdsRise-write state lo hi (t ∷ ts) r = elim (Bool-cases (p t)) [
    | inl e ↦ rw e (r.0, r.1)
    | inr e ↦ rw e (r.0, IdsRise-write state t.token.token_id hi ts r.1)
  ]

  pub IdsRise-remove :
      (lo hi : ℕ) (ts : List TrackedToken) → IdsRise lo hi ts → IdsRise lo hi (remove_first p ts)
  unfolding remove_first
  IdsRise-remove lo hi [] r = r
  IdsRise-remove lo hi (t ∷ ts) r = elim (Bool-cases (p t)) [
    | inl e ↦ rw e (IdsRise-mono t.token.token_id lo hi ts (omega arith) r.1)
    | inr e ↦ rw e (r.0, IdsRise-remove t.token.token_id hi ts r.1)
  ]

  pub IdsRise-retain :
      (lo hi : ℕ) (ts : List TrackedToken) → IdsRise lo hi ts → IdsRise lo hi (retain p ts)
  unfolding retain
  IdsRise-retain lo hi [] r = r
  IdsRise-retain lo hi (t ∷ ts) r = elim (Bool-cases (p t)) [
    | inl e ↦ rw e (r.0, IdsRise-retain t.token.token_id hi ts r.1)
    | inr e ↦ rw e (
        IdsRise-mono t.token.token_id lo hi (retain p ts) (omega arith)
          (IdsRise-retain t.token.token_id hi ts r.1))
  ]

  pub length-write :
      (state : TrackedTokenState) (ts : List TrackedToken)
      → length (write_first p state ts) ≡ length ts
  unfolding write_first
  length-write state [] = refl
  length-write state (t ∷ ts) = ground (arith, length-write state ts)

  pub remove_le :
      (ts : List TrackedToken)
      → (length (remove_first p ts) ≤ length ts) × (debts_in (remove_first p ts) ≤ debts_in ts)
  unfolding remove_first
  remove_le [] = (omega arith, omega arith)
  remove_le (t ∷ ts) = ground (arith, remove_le ts)

  pub retain_le :
      (ts : List TrackedToken)
      → (length (retain p ts) ≤ length ts) × (debts_in (retain p ts) ≤ debts_in ts)
  unfolding retain
  retain_le [] = (omega arith, omega arith)
  retain_le (t ∷ ts) = ground (arith, retain_le ts)

  -- A write makes one more debt at most.
  pub debts_in-write :
      (state : TrackedTokenState) (ts : List TrackedToken)
      → debts_in (write_first p state ts) ≤ debts_in ts + 1
  unfolding write_first
  debts_in-write state [] = omega arith
  debts_in-write state (t ∷ ts) = ground (arith, debts_in-write state ts)

  -- A write to a debt makes no debt more.
  pub debts_in-write_debt :
      (state : TrackedTokenState) (ts : List TrackedToken) (found : TrackedToken)
      → find_first p ts ≡ some found
      → is_debt found ≡ true
      → debts_in (write_first p state ts) ≤ debts_in ts
  unfolding write_first find_first
  debts_in-write_debt state [] found e d = ground (arith, e)
  debts_in-write_debt state (t ∷ ts) found e d = ground (arith, debts_in-write_debt state ts found)
