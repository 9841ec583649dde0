-- ===== src/Activity/Decisions.antt =====
-- src/daemon/session_activity/mod.rs: the sessions that the login manager reports, and the choice among
-- them. Texts are their code points.
use open_switcher.Prelude.{
  ℕ, Bool, true, false, not, ◌&&◌, ◌||◌, List, [], ◌∷◌, ◌==◌, ◌≡◌, ◌↔◌, ◌≢◌, ◌⊎◌, All, refl,
  is_empty, if◌then◌else◌, Bool-cases, inl, inr, subst, arith,
}
use open_switcher.Switch.Keymap.{codes}
use open_switcher.Switch.Texts.{same_text}
use open_switcher.Switch.TextLaws.{same_text_eq}

pub record SessionRecord : Type 0 where
  pub id : List ℕ
  pub uid : ℕ
  pub seat : List ℕ
  pub session_type : List ℕ
  pub session_class : List ℕ
  pub active : Bool
  pub remote : Bool

pub record AuthorizedSession : Type 0 where
  pub session_id : List ℕ
  pub seat : List ℕ

pub data SessionUnavailableReason : Type 0 where
  no_candidate ambiguous source_unavailable : SessionUnavailableReason

pub data SessionDecision : Type 0 where
  authorized : AuthorizedSession → SessionDecision
  unauthorized : SessionUnavailableReason → SessionDecision

unfoldable pub is_candidate : ℕ → SessionRecord → Bool
is_candidate uid r =
    (r.uid == uid)
    && r.active
    && not r.remote
    && same_text r.session_class (codes "user")
    && (same_text r.session_type (codes "x11") || same_text r.session_type (codes "wayland"))
    && not (is_empty r.seat)

unfoldable pub candidates : ℕ → List SessionRecord → List SessionRecord
candidates uid [] = []
candidates uid (r ∷ rs) =
    let rest = candidates uid rs in if is_candidate uid r then r ∷ rest else rest

abbrev pub session_of : SessionRecord → AuthorizedSession
session_of r = record { session_id = r.id; seat = r.seat }

abbrev pub decide_candidates : List SessionRecord → SessionDecision
decide_candidates [] = unauthorized no_candidate
decide_candidates (first ∷ []) = authorized (session_of first)
decide_candidates (first ∷ second ∷ rest) = unauthorized ambiguous

-- The source takes the first and the second candidate from an iterator.
unfoldable pub decide_session : ℕ → List SessionRecord → SessionDecision
unfolding candidates
decide_session uid records = decide_candidates (candidates uid records)

-- A local and active graphical session of the user, with a seat.
pub record IsCandidate (user : ℕ) (r : SessionRecord) : Type 0 where
  pub of_user : r.uid ≡ user
  pub is_active : r.active ≡ true
  pub is_local : r.remote ≡ false
  pub user_class : r.session_class ≡ codes "user"
  pub graphical : (r.session_type ≡ codes "x11") ⊎ (r.session_type ≡ codes "wayland")
  pub seated : r.seat ≢ []

same_text_refl : (a : List ℕ) → same_text a a ≡ true
unfolding same_text
same_text_refl [] = refl
same_text_refl (x ∷ a) = ground (arith, same_text_refl a)

same_text-eq : (a b : List ℕ) → a ≡ b → same_text a b ≡ true
same_text-eq a b e = rw e (same_text_refl b)

seated_iff : (seat : List ℕ) → (not (is_empty seat) ≡ true) ↔ (seat ≢ [])
seated_iff [] = (λ h. cc, λ n. absurd (n refl))
seated_iff (c ∷ cs) = (λ h e. cc, λ n. refl)

is_candidate_sound : (uid : ℕ) (r : SessionRecord) → is_candidate uid r ≡ true → IsCandidate uid r
unfolding is_candidate
is_candidate_sound uid r h = record {
  of_user = ground arith;
  is_active = ground arith;
  is_local = ground arith;
  user_class = same_text_eq r.session_class (codes "user") (ground arith);
  graphical = elim (Bool-cases (same_text r.session_type (codes "x11"))) [
    | inl hit ↦ inl (same_text_eq r.session_type (codes "x11") hit)
    | inr miss ↦ inr (same_text_eq r.session_type (codes "wayland") (ground arith))
  ];
  seated = (seated_iff r.seat).0 (ground arith);
}

graphical_text :
    (t : List ℕ)
    → (t ≡ codes "x11") ⊎ (t ≡ codes "wayland")
    → (same_text t (codes "x11") || same_text t (codes "wayland")) ≡ true
graphical_text t (inl e) = ground (arith, same_text-eq t (codes "x11") e)
graphical_text t (inr e) = ground (arith, same_text-eq t (codes "wayland") e)

is_candidate_complete :
    (uid : ℕ) (r : SessionRecord) → IsCandidate uid r → is_candidate uid r ≡ true
unfolding is_candidate
is_candidate_complete uid r c = ground (
  arith,
  c.of_user,
  c.is_active,
  c.is_local,
  same_text-eq r.session_class (codes "user") c.user_class,
  graphical_text r.session_type c.graphical,
  (seated_iff r.seat).1 c.seated,
)

is_candidate_refuses :
    (uid : ℕ) (r : SessionRecord) → is_candidate uid r ≡ false → ¬ IsCandidate uid r
is_candidate_refuses uid r miss c = cc (is_candidate_complete uid r c, miss)

refused_candidate : (uid : ℕ) (r : SessionRecord) → ¬ IsCandidate uid r → is_candidate uid r ≡ false
refused_candidate uid r n = elim (Bool-cases (is_candidate uid r)) [
  | inl hit ↦ absurd (n (is_candidate_sound uid r hit))
  | inr miss ↦ miss
]

abbrev NoCandidate : ℕ → List SessionRecord → Type 0
NoCandidate uid = All (λ r. ¬ IsCandidate uid r)

-- `r` stands in the list and is a candidate, and no other record is.
pub data OnlyCandidate (uid : ℕ) (r : SessionRecord) : List SessionRecord → Type 0 where
  here :
      {rs : List SessionRecord}
      → IsCandidate uid r
      → NoCandidate uid rs
      → OnlyCandidate uid r (r ∷ rs)
  there :
      {q : SessionRecord} {rs : List SessionRecord}
      → ¬ IsCandidate uid q
      → OnlyCandidate uid r rs
      → OnlyCandidate uid r (q ∷ rs)

candidates_none : (uid : ℕ) (rs : List SessionRecord) → NoCandidate uid rs → candidates uid rs ≡ []
unfolding candidates
candidates_none uid [] h = refl
candidates_none uid (r ∷ rs) (miss, rest) =
    rw (refused_candidate uid r miss) (candidates_none uid rs rest)

candidates_only :
    (uid : ℕ) (r : SessionRecord) (rs : List SessionRecord)
    → OnlyCandidate uid r rs
    → candidates uid rs ≡ r ∷ []
unfolding candidates
candidates_only uid r _ (here {rs} hit none') =
    rw (is_candidate_complete uid r hit, candidates_none uid rs none') refl
candidates_only uid r _ (there {q} {rs} miss rest) =
    rw (refused_candidate uid q miss) (candidates_only uid r rs rest)

none_of_candidates :
    (uid : ℕ) (rs : List SessionRecord) → candidates uid rs ≡ [] → NoCandidate uid rs
unfolding candidates
none_of_candidates uid [] h = tt
none_of_candidates uid (r ∷ rs) h = elim (Bool-cases (is_candidate uid r)) [
  | inl hit ↦ ground arith
  | inr miss ↦ (is_candidate_refuses uid r miss, none_of_candidates uid rs (ground arith))
]

only_of_candidates :
    (uid : ℕ) (r : SessionRecord) (rs : List SessionRecord)
    → candidates uid rs ≡ r ∷ []
    → OnlyCandidate uid r rs
unfolding candidates
only_of_candidates uid r [] h = cc
only_of_candidates uid r (q ∷ rs) h = elim (Bool-cases (is_candidate uid q)) [
  | inl hit ↦
      let same : q ≡ r = ground arith in
      let rest : candidates uid rs ≡ [] = ground arith in
      subst (λ x. OnlyCandidate uid x (q ∷ rs)) same
        (here (is_candidate_sound uid q hit) (none_of_candidates uid rs rest))
  | inr miss ↦ there (is_candidate_refuses uid q miss) (only_of_candidates uid r rs (ground arith))
]

authorized_only :
    (rs : List SessionRecord) (s : AuthorizedSession)
    → decide_candidates rs ≡ authorized s
    → (r : SessionRecord) × (rs ≡ r ∷ []) × (s ≡ session_of r)
authorized_only [] s h = cc
authorized_only (r ∷ []) s h = (r, refl, cc)
authorized_only (r ∷ q ∷ rs) s h = cc

-- A session is authorized exactly if it is that of a candidate, a local and active graphical session of
-- the user with a seat, and no other record is a candidate.
pub decide_session_iff :
    (uid : ℕ) (rs : List SessionRecord) (s : AuthorizedSession)
    → (decide_session uid rs ≡ authorized s)
      ↔ ((r : SessionRecord) × OnlyCandidate uid r rs × (s ≡ session_of r))
unfolding decide_session
decide_session_iff uid rs s = (
  λ h.
      let (r, only, same) = authorized_only (candidates uid rs) s h in
      (r, only_of_candidates uid r rs only, same),
  λ (r, only, same). rw (candidates_only uid r rs only, same) refl,
)
