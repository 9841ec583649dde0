-- ===== src/Synthetic/CoverageDrain.antt =====
-- The release of the tokens that an operation only has to release, and the whole cleanup.
use mathlib.Core.List.{reverse}
use open_switcher.Prelude.{
  ◌≡◌, refl, subst, ◌⊎◌, inl, inr, List, [], ◌∷◌, ◌++◌, Option, none, ok, err, ◌&&◌, is_ok,
  if◌then◌else◌,
}
use open_switcher.Synthetic.Errors.{SwitcherError, Status}
use open_switcher.Synthetic.KeyLedger.{begin_terminal}
use open_switcher.Synthetic.KeyLedgerLaws.{In, In-append_left, In-append_right, In-reverse_of}
use open_switcher.Synthetic.Operation.{SyntheticKeySink, SyntheticOperation, send_up, synchronize}
use open_switcher.Synthetic.Finish.{
  drain_token, drain_tokens, drain_release_only_fallback, release_all, settle,
}
use open_switcher.Synthetic.Coverage.{SinkLaws, Noted, Ordered, Covered}
use open_switcher.Synthetic.CoverageSteps.{synchronize-Covered}
use open_switcher.Synthetic.CoverageFinish.{release_all-Covered}

module _ (S : SyntheticKeySink) (laws : SinkLaws S) (Before : S.Token → Type 0) where
  -- A key that may be down is still to be released, was kept for later, or is noted.
  abbrev Draining : List S.Token → List S.Token → SyntheticOperation S → Type 0
  Draining pending retained op =
      Ordered S laws Before op
      × ((t : S.Token)
          → laws.IsDown op.sink t
          → In t pending ⊎ In t retained ⊎ Noted S laws Before op op.ledger.debts t)

  kept :
      (token : S.Token) (pending retained : List S.Token) (op : SyntheticOperation S)
      → Draining (token ∷ pending) retained op
      → Draining pending (retained ++ token ∷ []) op
  kept token pending retained op h = (
    h.0,
    λ t down. elim (h.1 t down) [
      | inl (inl same) ↦ inr (inl (In-append_right t retained (token ∷ []) (inl same)))
      | inl (inr p) ↦ inl p
      | inr (inl r) ↦ inr (inl (In-append_left t retained (token ∷ []) r))
      | inr (inr n) ↦ inr (inr n)
    ],
  )

  round-Draining :
      (released synchronized : Status) (token : S.Token) (pending retained : List S.Token)
      (op : SyntheticOperation S)
      → Draining (token ∷ pending) retained op
      → (released ≡ ok tt → synchronized ≡ ok tt → ¬ laws.IsDown op.sink token)
      → Draining pending
          (if is_ok released && is_ok synchronized then retained else retained ++ token ∷ [])
          op
  round-Draining (ok u) (ok v) token pending retained op h up = (
    h.0,
    λ t down. elim (h.1 t down) [
      | inl (inl same) ↦ absurd (up refl refl (subst (λ x. laws.IsDown op.sink x) same down))
      | inl (inr p) ↦ inl p
      | inr n ↦ inr n
    ],
  )
  round-Draining (ok u) (err e) token pending retained op h up = kept token pending retained op h
  round-Draining (err e) synchronized token pending retained op h up =
      kept token pending retained op h

  drain_token-Draining :
      (token : S.Token) (pending retained : List S.Token) (op : SyntheticOperation S)
      (first : Option SwitcherError)
      → Draining (token ∷ pending) retained op
      → Draining pending
          (drain_token S op token retained first).1
          (drain_token S op token retained first).0
  unfolding drain_token
  drain_token-Draining token pending retained op first h =
      round-Draining (S.attempt_up op.sink token).1 (S.synchronize (S.attempt_up op.sink token).0).1
        token pending retained (synchronize S (send_up S token op).0).0
        (
          h.0,
          λ t down. h.1 t (
              laws.up_keeps op.sink token t
                (laws.synchronize_keeps (S.attempt_up op.sink token).0 t down)),
        )
        (laws.up_releases op.sink token)

  drain_tokens-Covered :
      (pending retained : List S.Token) (op : SyntheticOperation S) (first : Option SwitcherError)
      → Draining pending retained op
      → Covered S laws Before (drain_tokens S op pending retained first).0
  unfolding drain_tokens
  drain_tokens-Covered [] retained op first h = (
    h.0,
    λ t down. elim (h.1 t down) [
      | inl p ↦ absurd p
      | inr (inl r) ↦ inr (inl (In-append_right t op.release_only_fallback retained r))
      | inr (inr (inl n)) ↦ inl n
      | inr (inr (inr (inl n))) ↦ inr (inl (In-append_left t op.release_only_fallback retained n))
      | inr (inr (inr (inr n))) ↦ inr (inr n)
    ],
  )
  drain_tokens-Covered (token ∷ pending) retained op first h =
      drain_tokens-Covered pending (drain_token S op token retained first).1
        (drain_token S op token retained first).0 (drain_token S op token retained first).2
        (drain_token-Draining token pending retained op first h)

  drain_release_only_fallback-Covered :
      (op : SyntheticOperation S)
      → Covered S laws Before op
      → Covered S laws Before (drain_release_only_fallback S op).0
  drain_release_only_fallback-Covered op c =
      drain_tokens-Covered (reverse op.release_only_fallback) []
        (record op { release_only_fallback = [] }) none
        (
          c.0,
          λ t down. elim (c.1 t down) [
            | inl n ↦ inr (inr (inl n))
            | inr (inl n) ↦ inl (In-reverse_of t op.release_only_fallback n)
            | inr (inr n) ↦ inr (inr (inr (inr n)))
          ],
        )

  pub settle-Covered :
      (op : SyntheticOperation S) (first : Option SwitcherError)
      → Covered S laws Before op
      → Covered S laws Before (settle S op first).0
  unfolding settle begin_terminal
  settle-Covered op first c =
      let terminal = record op { ledger = begin_terminal op.ledger } in
      synchronize-Covered S laws Before (drain_release_only_fallback S (release_all S terminal).0).0
        (drain_release_only_fallback-Covered (release_all S terminal).0
          (release_all-Covered S laws Before terminal c))
