-- ===== src/Memory/Words.antt =====
-- Words in the guest's memory.
use cross_shim.Base.{
  ℕ, zero, suc, ◌+◌, ◌*◌, ◌/◌, ◌%◌, ◌^◌, ◌<◌, ◌≡◌, refl, ap, List, [], ◌∷◌, arith, length,
}
use native.Mathlib.Nat.{pow-suc}

-- The `n` bytes of a word, the lowest first.
unfoldable pub little_endian : ℕ → ℕ → List ℕ
little_endian zero w = []
little_endian (suc n) w = w % 256 ∷ little_endian n (w / 256)

-- The word that bytes stand for.
unfoldable pub from_bytes : List ℕ → ℕ
from_bytes [] = 0
from_bytes (b ∷ bs) = b + 256 * from_bytes bs

pub length-little_endian : (n w : ℕ) → length (little_endian n w) ≡ n
unfolding little_endian
length-little_endian zero w = refl
length-little_endian (suc n) w = ap suc (length-little_endian n (w / 256))

pub from_bytes-little_endian : (n w : ℕ) → w < 256 ^ n → from_bytes (little_endian n w) ≡ w
unfolding from_bytes little_endian
from_bytes-little_endian zero w lt = omega arith
from_bytes-little_endian (suc n) w lt =
    let below : w / 256 < 256 ^ n = omega (arith, pow-suc 256 n) in
    let ih : from_bytes (little_endian n (w / 256)) ≡ w / 256 =
      from_bytes-little_endian n (w / 256) below in
    omega (arith, ih)
