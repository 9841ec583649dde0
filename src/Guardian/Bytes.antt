-- ===== src/Guardian/Bytes.antt =====
-- src/daemon/xtest_guardian/protocol.rs: `Encoder` and `Decoder`. An encoder is the bytes so far. A
-- decoder is the bytes from its offset on; the offset stays below the length of a frame, so its sum
-- with the length of a field does not overflow.
use open_switcher.Prelude.{
  ℕ, zero, suc, ◌+◌, ◌-◌, ◌*◌, ◌/◌, ◌%◌, List, [], ◌∷◌, ◌++◌, length, leb, if◌then◌else◌, ok, err,
  is_empty,
}
use open_switcher.Synthetic.Errors.{Fallible}
use open_switcher.Synthetic.KeyLedger.{broken}
use open_switcher.Guardian.Wire.{header_bytes, max_frame_bytes}

-- A step of an encoder.
abbrev pub Put : Type 0
Put = List ℕ → Fallible (List ℕ)

infixl 5 ◌>>◌
unfoldable pub ◌>>◌ : Put → Put → Put
◌>>◌ f g bytes = elim (f bytes) [ err e ↦ err e | ok bytes' ↦ g bytes' ]

unfoldable pub push_bytes : List ℕ → Put
push_bytes more bytes =
    if leb (length bytes + length more) (max_frame_bytes - header_bytes)
    then ok (bytes ++ more)
    else broken "XTEST guardian frame payload is too large"

-- `to_be_bytes` of a number of `n` bytes.
unfoldable pub to_be_bytes : ℕ → ℕ → List ℕ
to_be_bytes zero v = []
to_be_bytes (suc n) v = to_be_bytes n (v / 256) ++ v % 256 ∷ []

unfoldable pub push_u8 : ℕ → Put
unfolding push_bytes
push_u8 v = push_bytes (v ∷ [])

unfoldable pub push_u16 : ℕ → Put
unfolding push_bytes
push_u16 v = push_bytes (to_be_bytes 2 v)

unfoldable pub push_u32 : ℕ → Put
unfolding push_bytes
push_u32 v = push_bytes (to_be_bytes 4 v)

unfoldable pub push_u64 : ℕ → Put
unfolding push_bytes
push_u64 v = push_bytes (to_be_bytes 8 v)

-- A step of a decoder.
abbrev pub Get : Type 0 → Type 0
Get A = List ℕ → Fallible (A × List ℕ)

infixl 5 ◌>>=◌
unfoldable pub ◌>>=◌ : {A B : Type 0} → Get A → (A → Get B) → Get B
◌>>=◌ g f bytes = elim (g bytes) [ err e ↦ err e | ok (a, rest) ↦ f a rest ]

abbrev pub yields : {A : Type 0} → A → Get A
yields a bytes = ok (a, bytes)

-- The first `n` bytes and the rest, when there are as many.
unfoldable pub take_bytes : ℕ → List ℕ → Fallible (List ℕ × List ℕ)
take_bytes zero bytes = ok ([], bytes)
take_bytes (suc n) [] = broken "XTEST guardian frame is truncated"
take_bytes (suc n) (b ∷ bytes) = elim (take_bytes n bytes) [
  | err e ↦ err e
  | ok (front, rest) ↦ ok (b ∷ front, rest)
]

unfoldable pub read_array : ℕ → Get (List ℕ)
unfolding take_bytes
read_array n bytes = take_bytes n bytes

-- `from_be_bytes`, with the number so far.
unfoldable pub from_be_bytes : ℕ → List ℕ → ℕ
from_be_bytes acc [] = acc
from_be_bytes acc (b ∷ bytes) = from_be_bytes (acc * 256 + b) bytes

-- `read_u8`, `read_u16`, `read_u32` and `read_u64`, at 1, 2, 4 and 8 bytes.
unfoldable pub read_number : ℕ → Get ℕ
unfolding ◌>>=◌ read_array from_be_bytes
read_number n = do bytes ← read_array n; yields (from_be_bytes 0 bytes)

abbrev pub read_u8 : Get ℕ
read_u8 = read_number 1

abbrev pub read_u16 : Get ℕ
read_u16 = read_number 2

abbrev pub read_u32 : Get ℕ
read_u32 = read_number 4

abbrev pub read_u64 : Get ℕ
read_u64 = read_number 8

-- `finish`: nothing is left.
unfoldable pub finish : {A : Type 0} → A → List ℕ → Fallible A
finish a rest =
    if is_empty rest then ok a else broken "XTEST guardian frame contains trailing payload bytes"
