-- ===== src/Deferred/Draining.antt =====
-- service.rs, `drain_deferred_head_with`: the head leaves the ledger only after it was handled.
use open_switcher.Prelude.{
  ◌≡◌, refl, inl, inr, List, [], ◌∷◌, some, Result, ok, err, Result-cases, u64_max, saturating_add,
  ==-refl,
}
use open_switcher.Deferred.{
  DeferredInputLedger, DeferredInputEvent, Drained, idle, handled, failed, panicked,
  drain_deferred_head_with, acknowledge, peek,
}

-- The ledger without its head, one more event acknowledged.
abbrev advanced : DeferredInputLedger → List DeferredInputEvent → DeferredInputLedger
advanced l es = record l { queue = es; acknowledged = saturating_add u64_max l.acknowledged 1 }

module _ {E : Type 0} (handle : DeferredInputEvent → Result (Unit {0}) E) where
  -- What the outcome says of the ledger before and after the call.
  abbrev pub Explained : DeferredInputLedger → DeferredInputLedger → Drained E → Type 0
  Explained l l' idle = (l.queue ≡ []) × (l' ≡ l)
  Explained l l' (handled e) =
      (es : List DeferredInputEvent) × (l.queue ≡ e ∷ es)
      × (handle e ≡ ok tt)
      × (l' ≡ advanced l es)
  Explained l l' (failed x) =
      (e : DeferredInputEvent) × (peek l ≡ some e) × (handle e ≡ err x) × (l' ≡ l)
  Explained l l' panicked = ⊥

  drain_queue :
      (l : DeferredInputLedger) (q : List DeferredInputEvent)
      → let l' = record l { queue = q } in
        let done = drain_deferred_head_with l' handle in Explained l' done.0 done.1
  unfolding drain_deferred_head_with acknowledge
  drain_queue l [] = (refl, refl)
  drain_queue l (e ∷ es) = elim (Result-cases (handle e)) [
    | inl (tt, h) ↦ rw (h, ==-refl e.sequence_id, drain_deferred_head_with) (es, refl, h, refl)
    | inr (x, h) ↦ rw (h, drain_deferred_head_with) (e, refl, h, refl)
  ]

  -- The `expect` of the source never fails: the head that was handled is still the ledger's head.
  -- An empty ledger stays as it is; a head that is handled leaves, and is counted; a head whose
  -- handling fails stays, and the ledger is unchanged.
  pub drain_deferred_head_with-Explained :
      (l : DeferredInputLedger)
      → let done = drain_deferred_head_with l handle in Explained l done.0 done.1
  drain_deferred_head_with-Explained l = drain_queue l l.queue
