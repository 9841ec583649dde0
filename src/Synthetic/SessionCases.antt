-- ===== src/Synthetic/SessionCases.antt =====
-- What the session ledger holds down for the user, across the calls that an operation makes on it.
use mathlib.Core.Logic.{ite}
use open_switcher.Key.{Key, Key-discrete}
use open_switcher.Prelude.{
  ◌≡◌, ◌≢◌, refl, sym, ap, ◌∙◌, inl, inr, true, false, List, [], ◌∷◌, ◌++◌, some, ok, arith,
  if◌then◌else◌, Bool-cases, Option-cases, is_some, is_ok, String,
}
use open_switcher.Synthetic.Errors.{Status}
use open_switcher.Synthetic.KeyLedgerLaws.{In}
use open_switcher.Synthetic.Coverage.{own, owned_tokens}
use open_switcher.Synthetic.Modifiers.{modifier_bit}
use open_switcher.Synthetic.SessionLedger.{
  SessionModifierDebt, SessionModifierLedger, SessionModifierState, SessionModifierState-discrete,
  owned_down, temporarily_released, restoring_possibly_down, find_entry, write_entry, with_entries,
  protocol_error, begin_restore, adopt_restored, adopted, transition, mark_restoring, contains,
}

restoring_not_owned : restoring_possibly_down ≢ owned_down
restoring_not_owned e = ground (arith, e)

module _ {T : Type 0} where
  own_rest : (s : SessionModifierState) (u t : T) (ts : List T) → In t ts → In t (own s u ts)
  own_rest owned_down u t ts h = inr h
  own_rest temporarily_released u t ts h = h
  own_rest restoring_possibly_down u t ts h = h

  own_other :
      (s : SessionModifierState) (u t : T) (ts : List T)
      → s ≢ owned_down
      → In t (own s u ts)
      → In t ts
  own_other owned_down u t ts n h = absurd (n refl)
  own_other temporarily_released u t ts n h = h
  own_other restoring_possibly_down u t ts n h = h

  own_both :
      (s : SessionModifierState) (u t : T) (ts us : List T)
      → (In t ts → In t us)
      → In t (own s u ts)
      → In t (own s u us)
  own_both owned_down u t ts us f (inl e) = inl e
  own_both owned_down u t ts us f (inr h) = inr (f h)
  own_both temporarily_released u t ts us f h = f h
  own_both restoring_possibly_down u t ts us f h = f h

  some-injective : (d e : SessionModifierDebt T) → some d ≡ some e → d ≡ e
  some-injective d e h = ground (arith, h)

  -- A write to an entry that is not held down loses no key that is.
  owned-write :
      (key : Key) (f : SessionModifierDebt T → SessionModifierDebt T)
      (es : List (SessionModifierDebt T)) (d : SessionModifierDebt T) (t : T)
      → find_entry key es ≡ some d
      → d.state ≢ owned_down
      → In t (owned_tokens es)
      → In t (owned_tokens (write_entry key f es))
  unfolding find_entry write_entry
  owned-write key f [] d t e n h = h
  owned-write key f (x ∷ es) d t e n h =
      elim (Key-discrete x.key key)
          as (λ c.
            (ite c (some x) (find_entry key es) ≡ some d)
            → In t (owned_tokens (ite c (f x ∷ es) (x ∷ write_entry key f es)))) [
              | yes same ↦ λ found. own_rest (f x).state (f x).token t (owned_tokens es) (
                  own_other x.state x.token t (owned_tokens es)
                    (λ o. n (ap (λ y. y.state) (sym (some-injective x d found)) ∙ o)) h)
              | no other ↦ λ found.
                  own_both x.state x.token t (owned_tokens es) (owned_tokens (write_entry key f es))
                    (owned-write key f es d t found n) h
            ]
        e

  -- The entry that is written is held down with its new token.
  owned-written :
      (key : Key) (token : T) (es : List (SessionModifierDebt T)) (d : SessionModifierDebt T)
      → find_entry key es ≡ some d
      → In token
          (owned_tokens (write_entry key (λ e. record e { token = token; state = owned_down }) es))
  unfolding find_entry write_entry
  owned-written key token [] d e = ground (arith, e)
  owned-written key token (x ∷ es) d e =
      elim (Key-discrete x.key key)
          as (λ c.
            (ite c (some x) (find_entry key es) ≡ some d)
            → In token (
                owned_tokens (
                  ite c (record x { token = token; state = owned_down } ∷ es) (
                    x
                    ∷ write_entry key (λ e. record e { token = token; state = owned_down }) es)))) [
                      | yes same ↦ λ found. inl refl
                      | no other ↦ λ found.
                          own_rest x.state x.token token
                            (owned_tokens (
                              write_entry key (λ e. record e { token = token; state = owned_down })
                                es))
                            (owned-written key token es d found)
                    ]
        e

  pub transition-owned :
      (l : SessionModifierLedger T) (key : Key) (expected next : SessionModifierState)
      (context : String) (t : T)
      → expected ≢ owned_down
      → In t (owned_tokens l.entries)
      → In t (owned_tokens (transition l key expected next context).0.entries)
  unfolding transition
  transition-owned l key expected next context t n h =
      elim (Option-cases (find_entry key l.entries)) [
        | inl e ↦ rw (transition, e) h
        | inr (d, e) ↦
            rw (transition, e)
              (elim (SessionModifierState-discrete d.state expected)
                as (λ c. In t (
                  owned_tokens
                    (ite {C = SessionModifierLedger T × Status} c
                      (
                        with_entries l (write_entry key (λ y. record y { state = next }) l.entries),
                        ok tt,
                      )
                      (l, protocol_error l context)).0.entries)) [
                        | yes same ↦
                            owned-write key (λ y. record y { state = next }) l.entries d t e
                              (λ o. n (sym same ∙ o)) h
                        | no other ↦ h
                      ])
      ]

  -- A key that goes down again loses no key that is held down.
  pub begin_restore-owned :
      (l : SessionModifierLedger T) (key : Key) (t : T)
      → In t (owned_tokens l.entries)
      → In t (owned_tokens (begin_restore l key).0.entries)
  unfolding begin_restore mark_restoring
  begin_restore-owned l key t h =
      elim (contains l key)
        as (λ b. In t (owned_tokens (if b then mark_restoring l key else (l, ok tt)).0.entries)) [
          | true ↦
              transition-owned l key temporarily_released restoring_possibly_down
                "only a temporarily released modifier can begin restoring" t
                (λ e. ground (arith, e)) h
          | false ↦ h
        ]

  owned_append :
      (t : T) (es : List (SessionModifierDebt T)) (e : SessionModifierDebt T)
      → In t (owned_tokens es)
      → In t (owned_tokens (es ++ e ∷ []))
  owned_append t [] e h = absurd h
  owned_append t (x ∷ es) e h =
      own_both x.state x.token t (owned_tokens es) (owned_tokens (es ++ e ∷ []))
        (owned_append t es e) h

  owned_last :
      (key : Key) (token : T) (es : List (SessionModifierDebt T))
      → In token (owned_tokens (es ++ adopted key token ∷ []))
  owned_last key token [] = inl refl
  owned_last key token (x ∷ es) =
      own_rest x.state x.token token (owned_tokens (es ++ adopted key token ∷ []))
        (owned_last key token es)

  -- What an adoption leaves of the keys that are held down: `t` stays, `token` is new.
  abbrev pub AdoptKeeps :
      SessionModifierLedger T → T → T → SessionModifierLedger T × Status → Type 0
  AdoptKeeps l token t x =
      (In t (owned_tokens l.entries) → In t (owned_tokens x.0.entries))
      × (is_ok x.1 ≡ true → In token (owned_tokens x.0.entries))

  -- The adoption of a key: it is held down then, and the others still are.
  pub adopt_restored-owned :
      (l : SessionModifierLedger T) (key : Key) (token t : T)
      → AdoptKeeps l token t (adopt_restored l key token)
  unfolding adopt_restored
  adopt_restored-owned l key token t = elim (Bool-cases (is_some (modifier_bit key))) [
    | inr e ↦ rw (adopt_restored, e) (λ h. h, λ e. ground (arith, e))
    | inl e ↦ elim (Option-cases (find_entry key l.entries)) [
      | inl none_found ↦
          rw (adopt_restored, e, none_found)
            (owned_append t l.entries (adopted key token), λ _. owned_last key token l.entries)
      | inr (d, found) ↦
          rw (adopt_restored, e, found)
            (elim (SessionModifierState-discrete d.state restoring_possibly_down)
              as (λ c. AdoptKeeps l token t (
                ite {C = SessionModifierLedger T × Status} c
                  (
                    with_entries l (
                        write_entry key (λ y. record y { token = token; state = owned_down })
                          l.entries),
                    ok tt,
                  )
                  (
                    l,
                    protocol_error l "restored modifier already has an incompatible session debt",
                  ))) [
                    | yes same ↦ (
                      owned-write key (λ y. record y { token = token; state = owned_down })
                          l.entries d t found (λ o. restoring_not_owned (sym same ∙ o)),
                      λ _. owned-written key token l.entries d found,
                    )
                    | no other ↦ (λ h. h, λ bad. ground (arith, bad))
                  ])
    ]
  ]
