-- ===== src/Model/PatchBits.antt =====
-- The bits of the mask of a patch, over all sets of changed fields.
use Prim.Native.Nat.{bit_and}
use open_switcher.Prelude.{◌≡◌, refl, Bool, true, false, ◌&&◌, ◌==◌, arith}
use open_switcher.Model.Validation.{same_bool-eq}
use open_switcher.Model.Hotkeys.{same_bool}
use open_switcher.Model.Patches.{contains, insert_if, changed_mask, unknown_bits}

-- Both values of a Boolean, and the masks of all seven.
abbrev pub both : (Bool → Bool) → Bool
both f = f true && f false

pub both_sound : (f : Bool → Bool) (b : Bool) → both f ≡ true → f b ≡ true
both_sound f true h = ground (arith, h)
both_sound f false h = ground (arith, h)

abbrev pub each_mask : (Bool → Bool → Bool → Bool → Bool → Bool → Bool → Bool) → Bool
each_mask f = both λ a. both λ b. both λ c. both λ d. both λ e. both λ g. both λ h. f a b c d e g h

pub each_mask_sound :
    (f : Bool → Bool → Bool → Bool → Bool → Bool → Bool → Bool) (a b c d e g h : Bool)
    → each_mask f ≡ true
    → f a b c d e g h ≡ true
each_mask_sound f a b c d e g h k =
    let k0 =
      both_sound
        (λ x.
          both λ b'. both λ c'. both λ d'. both λ e'. both λ g'. both λ h'. f x b' c' d' e' g' h')
        a k in
    let k1 =
      both_sound (λ x. both λ c'. both λ d'. both λ e'. both λ g'. both λ h'. f a x c' d' e' g' h')
        b k0 in
    let k2 =
      both_sound (λ x. both λ d'. both λ e'. both λ g'. both λ h'. f a b x d' e' g' h') c k1 in
    let k3 = both_sound (λ x. both λ e'. both λ g'. both λ h'. f a b c x e' g' h') d k2 in
    let k4 = both_sound (λ x. both λ g'. both λ h'. f a b c d x g' h') e k3 in
    let k5 = both_sound (λ x. both λ h'. f a b c d e x h') g k4 in
    both_sound (λ x. f a b c d e g x) h k5

and-parts : (a b : Bool) → (a && b) ≡ true → (a ≡ true) × (b ≡ true)
and-parts true b h = (refl, h)
and-parts false b h = absurd (ground (arith, h))

-- The mask holds exactly the bits that were inserted, and no unknown one.
abbrev bits_agree : Bool → Bool → Bool → Bool → Bool → Bool → Bool → Bool
bits_agree a b c d e g h =
    let m = changed_mask a b c d e g h in
    same_bool (contains m 1) a
    && (same_bool (contains m 2) b
        && (same_bool (contains m 4) c
            && (same_bool (contains m 8) d
                && (same_bool (contains m 16) e
                    && (same_bool (contains m 32) g
                        && (same_bool (contains m 64) h && bit_and m unknown_bits == 0))))))

bits_agree-each : each_mask bits_agree ≡ true
unfolding changed_mask contains insert_if same_bool
bits_agree-each = refl

module _ (a b c d e g h : Bool) where
  bits_agree-true : bits_agree a b c d e g h ≡ true
  bits_agree-true = each_mask_sound bits_agree a b c d e g h bits_agree-each

  -- The bits of a mask, in their order, and that none is unknown.
  pub changed_mask-bits :
      let m = changed_mask a b c d e g h in
      (contains m 1 ≡ a)
      × (contains m 2 ≡ b)
      × (contains m 4 ≡ c)
      × (contains m 8 ≡ d)
      × (contains m 16 ≡ e)
      × (contains m 32 ≡ g)
      × (contains m 64 ≡ h)
      × ((bit_and m unknown_bits == 0) ≡ true)
  changed_mask-bits =
      let m = changed_mask a b c d e g h in
      let k0 = and-parts _ _ bits_agree-true in
      let k1 = and-parts _ _ k0.1 in
      let k2 = and-parts _ _ k1.1 in
      let k3 = and-parts _ _ k2.1 in
      let k4 = and-parts _ _ k3.1 in
      let k5 = and-parts _ _ k4.1 in
      let k6 = and-parts _ _ k5.1 in
      (
        same_bool-eq _ a k0.0,
        same_bool-eq _ b k1.0,
        same_bool-eq _ c k2.0,
        same_bool-eq _ d k3.0,
        same_bool-eq _ e k4.0,
        same_bool-eq _ g k5.0,
        same_bool-eq _ h k6.0,
        k6.1,
      )
