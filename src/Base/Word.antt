-- ===== src/Base/Word.antt =====
-- 64-bit words: sums and differences modulo 2^64, and rounding to a power of two by a mask.
use Prim.Native.Nat.{ℕ, ◌+◌, ◌-◌, ◌*◌, ◌/◌, ◌%◌, ◌^◌, ◌≤◌, ◌<◌, bit_and}
use mathlib.Core.Path.{◌≡◌}
use native.Mathlib.Omega.{arith}
use native.Mathlib.Nat.{pow-le-pow_right, mul-mod_left, div-add-mod', mod-lt}
use cross_shim.Base.Bits.{bit_and-clear, pow_pos}

abbrev pub u64_mod : ℕ
u64_mod = 2 ^ 64

unfoldable pub add64 : ℕ → ℕ → ℕ
add64 a b = (a + b) % u64_mod

unfoldable pub sub64 : ℕ → ℕ → ℕ
sub64 a b = (a + u64_mod - b) % u64_mod

unfoldable pub mul64 : ℕ → ℕ → ℕ
mul64 a b = (a * b) % u64_mod

-- `~x`
unfoldable pub not64 : ℕ → ℕ
not64 x = u64_mod - 1 - x

pub add64-lt : (a b : ℕ) → add64 a b < u64_mod
unfolding add64
add64-lt a b = omega arith

pub add64_lem : (a b : ℕ) → a + b < u64_mod → add64 a b ≡ a + b
unfolding add64
add64_lem a b h = omega arith

pub sub64_lem : (a b : ℕ) → b ≤ a → a < u64_mod → sub64 a b ≡ a - b
unfolding sub64
sub64_lem a b h lt = omega arith

-- `a` is a power of two that fits a word.
abbrev pub IsPower : ℕ → Type 0
IsPower a = (k : ℕ) × (k < 64) × (a ≡ 2 ^ k)

-- MemoryManager::align_down and align_up.
unfoldable pub align_down : ℕ → ℕ → ℕ
align_down value alignment = bit_and value (not64 (sub64 alignment 1))

unfoldable pub align_up : ℕ → ℕ → ℕ
align_up value alignment = bit_and (sub64 (add64 value alignment) 1) (not64 (sub64 alignment 1))

below : (k : ℕ) → k < 64 → k ≤ 63
below k h = omega arith

power_lt : (k : ℕ) → k < 64 → 2 ^ k < 2 ^ 64
power_lt k h = omega (arith, pow-le-pow_right {n = 2} (omega arith) (below k h))

not64_mask : (k : ℕ) → k < 64 → not64 (sub64 (2 ^ k) 1) ≡ 2 ^ 64 - 2 ^ k
unfolding not64 sub64
not64_mask k h = omega (arith, power_lt k h, pow_pos k)

mask : (k x : ℕ) → k < 64 → x < 2 ^ 64 → bit_and x (not64 (sub64 (2 ^ k) 1)) ≡ x / 2 ^ k * 2 ^ k
mask k x h lt = rw (not64_mask k h) (bit_and-clear k 64 x (omega arith) lt)

-- A multiple of `p` within `p` below `x`.
Rounds : ℕ → ℕ → ℕ → Type 0
Rounds p x r = (r ≤ x) × (x < r + p) × (r % p ≡ 0)

floor-Rounds : (p x : ℕ) → 0 < p → Rounds p x (x / p * p)
unfolding Rounds
floor-Rounds p x h = (
  omega (arith, div-add-mod' x p),
  omega (arith, div-add-mod' x p, mod-lt x h),
  mul-mod_left (x / p) p,
)

mask-Rounds :
    (k x : ℕ) → k < 64 → x < 2 ^ 64 → Rounds (2 ^ k) x (bit_and x (not64 (sub64 (2 ^ k) 1)))
mask-Rounds k x h lt = rw (mask k x h lt) (floor-Rounds (2 ^ k) x (pow_pos k))

-- Rounding down gives the greatest multiple that does not exceed the value.
pub align_down_lem :
    (v a : ℕ)
    → IsPower a
    → v < u64_mod
    → (align_down v a ≤ v) × (v < align_down v a + a) × (align_down v a % a ≡ 0)
unfolding align_down
align_down_lem v a (k, h, e) lt = rw e (unfold Rounds in mask-Rounds k v h lt)

last_byte : (v a : ℕ) → 0 < a → v + a ≤ u64_mod → sub64 (add64 v a) 1 ≡ v + a - 1
unfolding sub64 add64
last_byte v a pos h = omega arith

Rounds-up : (p v r : ℕ) → 0 < p → Rounds p (v + p - 1) r → (v ≤ r) × (r < v + p) × (r % p ≡ 0)
unfolding Rounds
Rounds-up p v r pos h = (omega (arith, h.0, h.1), omega (arith, h.0, h.1), h.2)

-- Rounding up gives the least multiple that is not below the value.
pub align_up_lem :
    (v a : ℕ)
    → IsPower a
    → v + a ≤ u64_mod
    → (v ≤ align_up v a) × (align_up v a < v + a) × (align_up v a % a ≡ 0)
unfolding align_up
align_up_lem v a (k, h, e) lt =
    rw (last_byte v a (rw e (pow_pos k)) lt, e)
      (Rounds-up _ v _ (pow_pos k) (mask-Rounds k (v + 2 ^ k - 1) h (omega (arith, pow_pos k))))
