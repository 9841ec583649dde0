-- ===== src/Guardian/Codes.antt =====
-- A step of an encoder that writes given bytes, a step of a decoder that reads them as a value, and
-- how such steps compose.
use open_switcher.Prelude.{
  ℕ, ◌+◌, ◌^◌, ◌≤◌, ◌<◌, ◌≡◌, subst, refl, ap, ◌∙◌, List, [], ◌∷◌, ◌++◌, length, length-append,
  append_assoc, ok, arith,
}
use open_switcher.Guardian.Bytes.{
  Put, ◌>>◌, push_bytes, push_u8, push_u16, push_u32, push_u64, to_be_bytes, Get, ◌>>=◌, yields,
  take_bytes, read_array, from_be_bytes, read_number,
}
use open_switcher.Guardian.Numbers.{length-to_be_bytes, from_be_bytes-to_be_bytes}

pub record Encodes (f : Put) (bytes : List ℕ) : Type 0 where
  pub writes : (front : List ℕ) → length front + length bytes ≤ 111 → f front ≡ ok (front ++ bytes)

pub record Decodes {A : Type 0} (g : Get A) (bytes : List ℕ) (a : A) : Type 0 where
  pub reads : (rest : List ℕ) → g (bytes ++ rest) ≡ ok (a, rest)

-- The byte of a tag.
unfoldable pub u8 : ℕ → List ℕ
u8 v = v ∷ []

pub push_bytes-Encodes : (bytes : List ℕ) → Encodes (push_bytes bytes) bytes
unfolding push_bytes
push_bytes-Encodes bytes = record { writes = λ front h. ground (arith, h) }

pub push_u8-Encodes : (v : ℕ) → Encodes (push_u8 v) (u8 v)
unfolding push_u8 u8
push_u8-Encodes v = push_bytes-Encodes (v ∷ [])

pub push_u16-Encodes : (v : ℕ) → Encodes (push_u16 v) (to_be_bytes 2 v)
unfolding push_u16
push_u16-Encodes v = push_bytes-Encodes (to_be_bytes 2 v)

pub push_u32-Encodes : (v : ℕ) → Encodes (push_u32 v) (to_be_bytes 4 v)
unfolding push_u32
push_u32-Encodes v = push_bytes-Encodes (to_be_bytes 4 v)

pub push_u64-Encodes : (v : ℕ) → Encodes (push_u64 v) (to_be_bytes 8 v)
unfolding push_u64
push_u64-Encodes v = push_bytes-Encodes (to_be_bytes 8 v)

pub Encodes-then :
    {f g : Put} {bs cs : List ℕ} → Encodes f bs → Encodes g cs → Encodes (f >> g) (bs ++ cs)
unfolding ◌>>◌
Encodes-then {f} {g} {bs} {cs} first second = record {
  writes = λ front h.
      rw (first.writes front (omega (arith, h, length-append bs cs)), ◌>>◌)
        (second.writes (front ++ bs) (omega (arith, h, length-append bs cs, length-append front bs))
          ∙ ap ok (append_assoc front bs cs));
}

take_bytes-append :
    (bytes rest : List ℕ) → take_bytes (length bytes) (bytes ++ rest) ≡ ok (bytes, rest)
unfolding take_bytes
take_bytes-append [] rest = refl
take_bytes-append (b ∷ bytes) rest = rw (take_bytes-append bytes rest)

pub read_array-Decodes :
    (n : ℕ) (bytes : List ℕ) → length bytes ≡ n → Decodes (read_array n) bytes bytes
unfolding read_array
read_array-Decodes n bytes e = record { reads = λ rest. rw (← e) (take_bytes-append bytes rest) }

pub Decodes-bind :
    {A B : Type 0} {g : Get A} (f : A → Get B) {bs cs : List ℕ} {a : A} {b : B}
    → Decodes g bs a
    → Decodes (f a) cs b
    → Decodes (g >>= f) (bs ++ cs) b
unfolding ◌>>=◌
Decodes-bind f {bs = bs} {cs = cs} first second = record {
  reads = λ rest. rw (append_assoc bs cs rest, first.reads (cs ++ rest), ◌>>=◌) (second.reads rest);
}

-- The last field of a value.
pub Decodes-last :
    {A B : Type 0} {g : Get A} (f : A → B) {bs : List ℕ} {a : A}
    → Decodes g bs a
    → Decodes (g >>= λ x. yields (f x)) bs (f a)
unfolding ◌>>=◌
Decodes-last f first = record { reads = λ rest. rw (first.reads rest, ◌>>=◌) refl }

pub read_number-Decodes : (n v : ℕ) → v < 256 ^ n → Decodes (read_number n) (to_be_bytes n v) v
unfolding read_number
read_number-Decodes n v h =
    subst (Decodes (read_number n) (to_be_bytes n v)) (from_be_bytes-to_be_bytes n v h) (
      Decodes-last (from_be_bytes 0)
        (read_array-Decodes n (to_be_bytes n v) (length-to_be_bytes n v)))

pub read_tag-Decodes : (v : ℕ) → Decodes (read_number 1) (u8 v) v
unfolding read_number ◌>>=◌ read_array take_bytes from_be_bytes u8
read_tag-Decodes v = record { reads = λ rest. ground arith }
