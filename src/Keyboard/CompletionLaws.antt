-- ===== src/Keyboard/CompletionLaws.antt =====
-- What the owner of a manual correction is told.
use open_switcher.Prelude.{
  inl, inr, subst, is_some, ◌&&◌, if◌then◌else◌, ℕ, Bool, true, false, List, [], ◌∷◌, ◌++◌, Option,
  String, ◌≡◌, refl, ◌⊎◌, arith,
}
use open_switcher.Keyboard.Control.{
  WriterCompletionPublication, published, cancelled, receiver_disconnected,
  WriterTransactionControl, publish_unless, publish_completed_with, publish_soft_cancelled_with,
  cancellation_error,
}
use open_switcher.Keyboard.Completions.{
  soft_cancelled, ManualCurrentWordCompletion, publish_success, publish_completion, send,
  is_refused, cancels, is_soft_cancelled, Publication,
}

-- One completion, of the transaction, with its outcome or a cancellation, when it is published, and
-- nothing otherwise.
abbrev pub Told :
    List ManualCurrentWordCompletion
    → ManualCurrentWordCompletion
    → List ManualCurrentWordCompletion
    → WriterCompletionPublication
    → Type 0
Told before completion after published =
    (x : ManualCurrentWordCompletion) × (after ≡ before ++ x ∷ [])
    × (x.request_id ≡ completion.request_id)
    × ((x.outcome ≡ completion.outcome) ⊎ (x.outcome ≡ soft_cancelled))
Told before completion after cancelled = after ≡ before
Told before completion after receiver_disconnected = after ≡ before

module _ (listening : Bool) (y : ManualCurrentWordCompletion) where
  -- A publication sends its completion exactly if it succeeds.
  abbrev Sends :
      List ManualCurrentWordCompletion
      → List ManualCurrentWordCompletion
      → WriterCompletionPublication
      → Type 0
  Sends before after published = after ≡ before ++ y ∷ []
  Sends before after cancelled = after ≡ before
  Sends before after receiver_disconnected = after ≡ before

  publish_unless-Sends :
      (refused : WriterTransactionControl → Bool) (now : ℕ)
      (sent : List ManualCurrentWordCompletion) (c : WriterTransactionControl)
      → let r = publish_unless (send listening y) refused now sent c in Sends sent r.1 r.2
  unfolding publish_unless
  publish_unless-Sends refused now sent c = ground arith

  Sends-Told :
      (completion : ManualCurrentWordCompletion) (before after : List ManualCurrentWordCompletion)
      (publication : WriterCompletionPublication)
      → y.request_id ≡ completion.request_id
      → (y.outcome ≡ completion.outcome) ⊎ (y.outcome ≡ soft_cancelled)
      → Sends before after publication
      → Told before completion after publication
  Sends-Told completion before after published e o s = (y, s, e, o)
  Sends-Told completion before after cancelled e o s = s
  Sends-Told completion before after receiver_disconnected e o s = s

refused-Sends :
    (listening : Bool) (y : ManualCurrentWordCompletion)
    (before after : List ManualCurrentWordCompletion) (publication : WriterCompletionPublication)
    → is_refused publication ≡ true
    → Sends listening y before after publication
    → after ≡ before
refused-Sends listening y before after published r s = cc
refused-Sends listening y before after cancelled r s = s
refused-Sends listening y before after receiver_disconnected r s = s

module _ (completion : ManualCurrentWordCompletion) where
  abbrev TellsFrom : List ManualCurrentWordCompletion → Publication → Type 0
  TellsFrom sent r = Told sent completion r.1 r.2

  if-Tells :
      (sent : List ManualCurrentWordCompletion) (b : Bool) (r r' : Publication)
      → (b ≡ true → TellsFrom sent r)
      → TellsFrom sent r'
      → TellsFrom sent (if b then r else r')
  if-Tells sent true r r' yes' no' = yes' refl
  if-Tells sent false r r' yes' no' = no'

  unless_tells :
      (listening : Bool) (y : ManualCurrentWordCompletion)
      (refused : WriterTransactionControl → Bool) (now : ℕ)
      (sent : List ManualCurrentWordCompletion) (c : WriterTransactionControl)
      → y.request_id ≡ completion.request_id
      → (y.outcome ≡ completion.outcome) ⊎ (y.outcome ≡ soft_cancelled)
      → TellsFrom sent (publish_unless (send listening y) refused now sent c)
  unless_tells listening y refused now sent c e o =
      Sends-Told listening y completion sent _ _ e o
        (publish_unless-Sends listening y refused now sent c)

  publish_success-Tells :
      (E : Type 0) (others others' : WriterTransactionControl → WriterTransactionControl)
      (now now' : ℕ) (listening : Bool) (sent : List ManualCurrentWordCompletion)
      (c : WriterTransactionControl)
      → c.request_id ≡ completion.request_id
      → TellsFrom sent (publish_success E others others' now now' listening completion sent c)
  unfolding publish_success
  publish_success-Tells E others others' now now' listening sent c h =
      let first = publish_completed_with (send listening completion) now sent c in
      let again : ManualCurrentWordCompletion = record {
        request_id = c.request_id;
        outcome = soft_cancelled;
      } in
      let second =
        publish_soft_cancelled_with (send listening again) now' first.1
          (others' (others first.0)) in
      if-Tells sent
        (is_refused first.2 && cancels c.request_id (cancellation_error {E = E} (others first.0)))
        second first
        (λ refused.
          subst (λ l. TellsFrom l second)
            (refused-Sends listening completion sent first.1 first.2 (ground arith)
              (publish_unless-Sends listening completion _ now sent c))
            (unless_tells listening again _ now' first.1 (others' (others first.0)) h (inr refl)))
        (unless_tells listening completion _ now sent c refl (inl refl))

-- Whatever other threads do to the control meanwhile, the owner is sent one completion of its
-- transaction, with the given outcome or a cancellation, exactly if the completion counts as published.
pub publish_completion-Told :
    (E : Type 0) (others others' : WriterTransactionControl → WriterTransactionControl)
    (now now' : ℕ) (listening : Bool) (completion : ManualCurrentWordCompletion)
    (failure_reason : Option String) (sent : List ManualCurrentWordCompletion)
    (c : WriterTransactionControl)
    → c.request_id ≡ completion.request_id
    → let (c', sent', publication) =
        publish_completion E others others' now now' listening completion failure_reason sent c in
      Told sent completion sent' publication
unfolding publish_completion
publish_completion-Told E others others' now now' listening completion failure_reason sent c h =
    if-Tells completion sent (is_soft_cancelled completion.outcome) _ _
      (λ _. unless_tells completion listening completion _ now sent c refl (inl refl))
      (if-Tells completion sent (is_some failure_reason) _ _
        (λ _. unless_tells completion listening completion _ now sent c refl (inl refl))
        (publish_success-Tells completion E others others' now now' listening sent c h))
