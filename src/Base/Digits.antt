-- ===== src/Base/Digits.antt =====
-- The lowest digits by a mask, and `bit_or` of numbers that share no digit.
use Prim.Native.Nat.{
  ℕ, zero, suc, ◌+◌, ◌-◌, ◌*◌, ◌/◌, ◌%◌, ◌^◌, ◌≤◌, ◌<◌, max, bit_and, bit_or, digits,
  bit_or-bitwise,
}
use mathlib.Core.Path.{◌≡◌, refl, ap, ap₂, ◌∙◌}
use native.Mathlib.Omega.{arith}
use cross_shim.Base.Bits.{bit_and_step, pow_step, pow_pos, half_mask, bit_and-clear}

-- The digits of either number, for `rounds` digits.
abbrev joined : ℕ → ℕ → ℕ → ℕ
joined rounds x y = digits (λ rest. rest) max rounds x y

joined_fuel : (n m x y : ℕ) → x ≤ n → x ≤ m → joined n x y ≡ joined m x y
joined_fuel zero zero x y p q = refl
joined_fuel zero (suc m) zero y p q = refl
joined_fuel zero (suc m) (suc x) y p q = absurd (omega arith)
joined_fuel (suc n) zero zero y p q = refl
joined_fuel (suc n) zero (suc x) y p q = absurd (omega arith)
joined_fuel (suc n) (suc m) zero y p q = refl
joined_fuel (suc n) (suc m) (suc x) y p q =
    omega (arith, joined_fuel n m (suc x / 2) (y / 2) (omega arith) (omega arith))

zero-bit_or : (y : ℕ) → bit_or 0 y ≡ y
zero-bit_or y = bit_or-bitwise 0 y

bit_or_step : (x y : ℕ) → bit_or x y ≡ bit_or (x / 2) (y / 2) * 2 + max (x % 2) (y % 2)
bit_or_step zero y = omega (arith, zero-bit_or y, zero-bit_or (y / 2))
bit_or_step (suc x) y = omega (
  arith,
  bit_or-bitwise (suc x) y,
  bit_or-bitwise (suc x / 2) (y / 2),
  joined_fuel x (suc x / 2) (suc x / 2) (y / 2) (omega arith) (omega arith),
)

bit_or-zero : (n x : ℕ) → x ≤ n → bit_or x 0 ≡ x
bit_or-zero n zero h = zero-bit_or 0
bit_or-zero zero (suc x) h = absurd (omega arith)
bit_or-zero (suc n) (suc x) h =
    omega (arith, bit_or_step (suc x) 0, bit_or-zero n (suc x / 2) (omega arith))

bit_and-zero : (n x : ℕ) → x ≤ n → bit_and x 0 ≡ 0
bit_and-zero n zero h = refl
bit_and-zero zero (suc x) h = absurd (omega arith)
bit_and-zero (suc n) (suc x) h =
    omega (arith, bit_and_step (suc x) 0, bit_and-zero n (suc x / 2) (omega arith))

twice_high : (q k : ℕ) → q * 2 ^ suc k ≡ 2 * (q * 2 ^ k)
twice_high q k = omega (arith, ap (λ (m : ℕ). q * m) (pow_step k))

half_parts : (q k r : ℕ) → (q * 2 ^ suc k + r) / 2 ≡ q * 2 ^ k + r / 2
half_parts q k r = omega (arith, twice_high q k)

-- `x & (2^k - 1)` keeps the lowest `k` digits.
pub bit_and-low : (k q r : ℕ) → r < 2 ^ k → bit_and (q * 2 ^ k + r) (2 ^ k - 1) ≡ r
bit_and-low zero q r h = omega (arith, bit_and-zero (q * 1 + r) (q * 1 + r) (omega arith))
bit_and-low (suc k) q r h = omega (
  arith,
  pow_step k,
  pow_pos k,
  twice_high q k,
  bit_and_step (q * 2 ^ suc k + r) (2 ^ suc k - 1),
  bit_and-low k q (r / 2) (omega (arith, pow_step k)),
  ap₂ (λ (a b : ℕ). bit_and a b) (half_parts q k r) (half_mask k),
)

-- `x << k | r` is a sum if `r` has no more than `k` digits.
pub bit_or-add : (k q r : ℕ) → r < 2 ^ k → bit_or (q * 2 ^ k) r ≡ q * 2 ^ k + r
bit_or-add zero q r h =
    let none_left : r ≡ 0 = omega arith in
    ap (λ (i : ℕ). bit_or (q * 1) i) none_left
    ∙ bit_or-zero (q * 1) (q * 1) (omega arith)
    ∙ omega arith
bit_or-add (suc k) q r h =
    let half : q * 2 ^ suc k / 2 ≡ q * 2 ^ k = omega (arith, twice_high q k) in
    omega (
      arith,
      pow_step k,
      twice_high q k,
      bit_or_step (q * 2 ^ suc k) r,
      bit_or-add k q (r / 2) (omega (arith, pow_step k)),
      ap (λ (i : ℕ). bit_or i (r / 2)) half,
    )

-- The two highest bits of a byte.
pub bit_and-top : (x : ℕ) → x < 256 → bit_and x 0xc0 ≡ x / 64 * 64
bit_and-top x h = bit_and-clear 6 8 x (omega arith) h
