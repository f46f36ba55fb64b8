-- ===== src/Base/Align.antt =====
-- Alignments: the greater of a power of two and the page size, and what a multiple of it is a
-- multiple of.
use Prim.Native.Nat.{ℕ, zero, suc, ◌+◌, ◌-◌, ◌*◌, ◌/◌, ◌%◌, ◌^◌, ◌≤◌, max}
use mathlib.Core.Path.{◌≡◌, ap, ◌∙◌, sym}
use native.Mathlib.Omega.{arith}
use native.Mathlib.Decide.{dec_le}
use native.Mathlib.Nat.{div-add-mod, mul-mod_right, mul_assoc, pow-suc, pow-le-pow_right}
use cross_shim.Base.Word.{IsPower}

half_power : (k x : ℕ) → x % 2 ^ suc k ≡ 0 → x % 2 ^ k ≡ 0
half_power k x e =
    let p : 2 ^ suc k ≡ 2 ^ k * 2 = pow-suc 2 k in
    let whole : 2 ^ suc k * (x / 2 ^ suc k) ≡ x = omega (arith, div-add-mod x (2 ^ suc k)) in
    let twice : 2 ^ k * (2 * (x / 2 ^ suc k)) ≡ x =
      sym (mul_assoc (2 ^ k) 2 (x / 2 ^ suc k))
      ∙ ap (λ (i : ℕ). i * (x / 2 ^ suc k)) (sym p)
      ∙ whole in
    ap (λ (i : ℕ). i % 2 ^ k) (sym twice) ∙ mul-mod_right (2 ^ k) (2 * (x / 2 ^ suc k))

smaller_power : (d k x : ℕ) → x % 2 ^ (d + k) ≡ 0 → x % 2 ^ k ≡ 0
smaller_power zero k x e = let z : k ≡ zero + k = omega arith in ap (λ (i : ℕ). x % 2 ^ i) z ∙ e
smaller_power (suc d) k x e =
    let z : suc (d + k) ≡ suc d + k = omega arith in
    smaller_power d k x (half_power (d + k) x (ap (λ (i : ℕ). x % 2 ^ i) z ∙ e))

pub max-IsPower : (al : ℕ) → IsPower al → IsPower (max al 4096)
max-IsPower al (k, lt, e) = elim (dec_le al 4096) [
  | yes le ↦ (12, omega arith, omega arith)
  | no gt ↦ (k, lt, omega arith)
]

small_exponent : (k : ℕ) → 2 ^ k ≤ 4096 → k ≤ 12
small_exponent k h = elim (dec_le k 12) [
  | yes le ↦ le
  | no gt ↦ absurd (omega (arith, pow-le-pow_right {n = 2} (omega arith) (above gt)))
]
  where
    above : ¬ (k ≤ 12) → 13 ≤ k
    above gt = omega arith

pub aligned_max : (al x : ℕ) → IsPower al → x % max al 4096 ≡ 0 → x % al ≡ 0
aligned_max al x (k, lt, e) h = elim (dec_le al 4096) [
  | yes le ↦
      let small : k ≤ 12 = small_exponent k (omega arith) in
      let page : max al 4096 ≡ 4096 = omega arith in
      let sum : 12 - k + k ≡ 12 = omega arith in
      let whole : x % 2 ^ (12 - k + k) ≡ 0 =
        ap (λ (i : ℕ). x % 2 ^ i) sum ∙ ap (λ (i : ℕ). x % i) (sym page) ∙ h in
      ap (λ (i : ℕ). x % i) e ∙ smaller_power (12 - k) k x whole
  | no gt ↦ let m : al ≡ max al 4096 = omega arith in ap (λ (i : ℕ). x % i) m ∙ h
]
