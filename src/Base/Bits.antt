-- ===== src/Base/Bits.antt =====
-- `bit_and` with a mask whose low bits are clear, as `x & ~(2^k - 1)` on 64-bit words.
use Prim.Native.Nat.{
  ℕ, zero, suc, ◌+◌, ◌-◌, ◌*◌, ◌/◌, ◌%◌, ◌^◌, ◌≤◌, ◌<◌, min, bit_and, digits, bit_and-bitwise,
}
use mathlib.Core.Path.{◌≡◌, refl, ap, ap₂, ◌∙◌, sym}
use native.Mathlib.Omega.{arith}
use native.Mathlib.Decide.{ℕ_discrete}
use native.Mathlib.Nat.{pow-suc, div-div-eq-div-mul}

-- The binary digits that `x` and `y` share, read from the lowest one on for `rounds` digits.
abbrev shared : ℕ → ℕ → ℕ → ℕ
shared rounds x y = digits (λ rest. zero) min rounds x y

shared_more : (r x y : ℕ) → x ≤ r → shared (suc r) x y ≡ shared r x y
shared_more zero zero y le = refl
shared_more zero (suc x) y le = absurd (omega arith)
shared_more (suc r) zero y le = refl
shared_more (suc r) (suc x) y le = omega (arith, shared_more r (suc x / 2) (y / 2) (omega arith))

-- A number has no more digits than its own value counts.
shared_enough : (spare x y : ℕ) → shared (spare + x) x y ≡ shared x x y
shared_enough zero x y = ap (λ (n : ℕ). shared n x y) (omega arith)
shared_enough (suc spare) x y =
    let next : suc spare + x ≡ suc (spare + x) = omega arith in
    ap (λ (n : ℕ). shared n x y) next
    ∙ shared_more (spare + x) x y (omega arith)
    ∙ shared_enough spare x y

shared_surplus : (r x y : ℕ) → x ≤ r → shared r x y ≡ shared x x y
shared_surplus r x y le =
    let split : r - x + x ≡ r = omega arith in
    ap (λ (n : ℕ). shared n x y) (sym split) ∙ shared_enough (r - x) x y

zero-bit_and : (y : ℕ) → bit_and 0 y ≡ 0
zero-bit_and = bit_and-bitwise 0

pub bit_and_step : (x y : ℕ) → bit_and x y ≡ bit_and (x / 2) (y / 2) * 2 + min (x % 2) (y % 2)
bit_and_step zero y = omega (arith, zero-bit_and y, zero-bit_and (y / 2))
bit_and_step (suc x) y =
    let unrolled = bit_and-bitwise (suc x) y in
    let inner = bit_and-bitwise (suc x / 2) (y / 2) in
    omega (arith, unrolled, inner, shared_surplus x (suc x / 2) (y / 2) (omega arith))

pub pow_step : (k : ℕ) → 2 ^ suc k ≡ 2 * 2 ^ k
pow_step k = omega (arith, pow-suc 2 k)

pub pow_pos : (k : ℕ) → 0 < 2 ^ k
pow_pos zero = omega arith
pow_pos (suc k) = omega (arith, pow_step k, pow_pos k)

bit_and_zero : (x : ℕ) → x < 1 → bit_and x 0 ≡ x
bit_and_zero zero h = zero-bit_and 0
bit_and_zero (suc x) h = absurd (omega arith)

pub half_mask : (w : ℕ) → (2 ^ suc w - 1) / 2 ≡ 2 ^ w - 1
half_mask w = omega (arith, pow_step w, pow_pos w)

-- A mask of `w` ones keeps a number below `2 ^ w`.
bit_and-ones : (w x : ℕ) → x < 2 ^ w → bit_and x (2 ^ w - 1) ≡ x
bit_and-ones zero x h = bit_and_zero x (omega arith)
bit_and-ones (suc w) x h = omega (
  arith,
  pow_step w,
  pow_pos w,
  bit_and_step x (2 ^ suc w - 1),
  bit_and-ones w (x / 2) (omega (arith, pow_step w)),
  ap (λ (m : ℕ). bit_and (x / 2) m) (half_mask w),
)

half_clear : (k w : ℕ) → (2 ^ suc w - 2 ^ suc k) / 2 ≡ 2 ^ w - 2 ^ k
half_clear k w = omega (arith, pow_step w, pow_step k)

-- A mask of `w` ones less the lowest `k` clears the lowest `k` digits.
pub bit_and-clear : (k w x : ℕ) → k ≤ w → x < 2 ^ w → bit_and x (2 ^ w - 2 ^ k) ≡ x / 2 ^ k * 2 ^ k
bit_and-clear zero w x h lt = omega (arith, bit_and-ones w x lt)
bit_and-clear (suc k) zero x h lt = absurd (omega arith)
bit_and-clear (suc k) (suc w) x h lt =
    let half : x / 2 ^ suc k ≡ x / 2 / 2 ^ k =
      ap (λ (d : ℕ). x / d) (pow_step k) ∙ sym (div-div-eq-div-mul x 2 (2 ^ k)) in
    rw (half, bit_and_step x (2 ^ suc w - 2 ^ suc k), half_clear k w)
      (omega (
        arith,
        pow_step w,
        pow_step k,
        bit_and-clear k w (x / 2) (omega arith) (omega (arith, pow_step w)),
        ap (λ (m : ℕ). x / 2 / 2 ^ k * m) (pow_step k),
      ))

bit_and_self : (n x : ℕ) → x ≤ n → bit_and x x ≡ x
bit_and_self zero zero h = zero-bit_and 0
bit_and_self zero (suc x) h = absurd (omega arith)
bit_and_self (suc n) x h = omega (arith, bit_and_step x x, bit_and_self n (x / 2) (omega arith))

even_step : (u : ℕ) → 0 < u → bit_and (2 * u) (2 * u - 1) ≡ 2 * bit_and u (u - 1)
even_step u pos =
    let a : 2 * u / 2 ≡ u = omega arith in
    let b : (2 * u - 1) / 2 ≡ u - 1 = omega arith in
    let low : min (2 * u % 2) ((2 * u - 1) % 2) ≡ 0 = omega arith in
    bit_and_step (2 * u) (2 * u - 1)
    ∙ ap₂ (λ (i j : ℕ). bit_and i j * 2 + min (2 * u % 2) ((2 * u - 1) % 2)) a b
    ∙ omega arith

odd_step : (u : ℕ) → bit_and (2 * u + 1) (2 * u) ≡ 2 * u
odd_step u =
    let a : (2 * u + 1) / 2 ≡ u = omega arith in
    let b : 2 * u / 2 ≡ u = omega arith in
    bit_and_step (2 * u + 1) (2 * u)
    ∙ ap₂ (λ (i j : ℕ). bit_and i j * 2 + min ((2 * u + 1) % 2) (2 * u % 2)) a b
    ∙ omega (arith, bit_and_self u u (omega arith))

-- A number that shares no binary digit with its predecessor is a power of two.
pub power_of_two : (n x : ℕ) → x ≤ n → 0 < x → bit_and x (x - 1) ≡ 0 → (k : ℕ) × (x ≡ 2 ^ k)
power_of_two zero x h pos e = absurd (omega arith)
power_of_two (suc n) x h pos e = elim (ℕ_discrete (x % 2) 0) [
  | yes even ↦
      let double : x ≡ 2 * (x / 2) = omega arith in
      let half : bit_and (x / 2) (x / 2 - 1) ≡ 0 =
        omega (arith, even_step (x / 2) (omega arith), ap (λ (i : ℕ). bit_and i (i - 1)) double) in
      let (k, p) = power_of_two n (x / 2) (omega arith) (omega arith) half in
      (suc k, omega (arith, pow_step k))
  | no odd ↦
      let double : x ≡ 2 * (x / 2) + 1 = omega arith in
      let pred' : x - 1 ≡ 2 * (x / 2) = omega arith in
      (0, omega (arith, odd_step (x / 2), ap₂ (λ (i j : ℕ). bit_and i j) double pred'))
]
