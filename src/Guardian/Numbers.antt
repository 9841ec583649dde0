-- ===== src/Guardian/Numbers.antt =====
-- Numbers as big-endian bytes, and back.
use open_switcher.Prelude.{
  ℕ, zero, suc, ◌+◌, ◌*◌, ◌/◌, ◌%◌, ◌^◌, ◌<◌, ◌≡◌, refl, ◌∙◌, List, [], ◌∷◌, ◌++◌, length,
  length-append, arith,
}
use open_switcher.Guardian.Bytes.{to_be_bytes, from_be_bytes}

pub length-to_be_bytes : (n v : ℕ) → length (to_be_bytes n v) ≡ n
unfolding to_be_bytes
length-to_be_bytes zero v = refl
length-to_be_bytes (suc n) v =
    omega (
      arith,
      length-append (to_be_bytes n (v / 256)) (v % 256 ∷ []),
      length-to_be_bytes n (v / 256),
    )

from_be_bytes-snoc :
    (acc b : ℕ) (bs : List ℕ) → from_be_bytes acc (bs ++ b ∷ []) ≡ from_be_bytes acc bs * 256 + b
unfolding from_be_bytes
from_be_bytes-snoc acc b [] = refl
from_be_bytes-snoc acc b (x ∷ bs) = from_be_bytes-snoc (acc * 256 + x) b bs

pow-suc : (n : ℕ) → 256 ^ suc n ≡ 256 * 256 ^ n
pow-suc n = omega arith

-- A number that fits its bytes is read back from them.
pub from_be_bytes-to_be_bytes : (n v : ℕ) → v < 256 ^ n → from_be_bytes 0 (to_be_bytes n v) ≡ v
unfolding to_be_bytes
from_be_bytes-to_be_bytes zero v h = unfold from_be_bytes in omega arith
from_be_bytes-to_be_bytes (suc n) v h =
    from_be_bytes-snoc 0 (v % 256) (to_be_bytes n (v / 256))
    ∙ omega (arith, from_be_bytes-to_be_bytes n (v / 256) (omega (arith, pow-suc n)))
