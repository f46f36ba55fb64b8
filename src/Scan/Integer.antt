-- ===== src/Scan/Integer.antt =====
-- What the digits that scanf reads are worth.
use cross_shim.Base.{
  ℕ, suc, ◌+◌, ◌*◌, ◌/◌, ◌%◌, ◌^◌, ◌≡◌, ap, ◌∙◌, none, some, List, [], ◌∷◌, ◌++◌, length, arith,
}
use native.Mathlib.Nat.{pow-suc, pow-zero}
use cross_shim.Scan.{digit_in, read_digits}

-- The characters `cs` stand for the digits `ds` of a base.
abbrev pub Digits : ℕ → List ℕ → List ℕ → Type 0
Digits base [] [] = Unit {0}
Digits base [] (d ∷ ds) = ⊥
Digits base (c ∷ cs) [] = ⊥
Digits base (c ∷ cs) (d ∷ ds) = (digit_in base c ≡ some d) × Digits base cs ds

-- The number with these digits, the highest first.
unfoldable pub number : ℕ → List ℕ → ℕ
number base [] = 0
number base (d ∷ ds) = d * base ^ length ds + number base ds

-- No digit follows.
abbrev pub Stops : ℕ → List ℕ → Type 0
Stops base [] = Unit {0}
Stops base (c ∷ rest) = digit_in base c ≡ none

-- A multiple of 2^128 is lost in the product, too.
wraps : (x p v : ℕ) → (x % 2 ^ 128 * p + v) % 2 ^ 64 ≡ (x * p + v) % 2 ^ 64
wraps x p v =
    let split : x ≡ x / 2 ^ 128 * 2 ^ 128 + x % 2 ^ 128 = omega arith in
    omega (arith, ap (λ (i : ℕ). i * p) split)

no_digits :
    (base value cursor : ℕ)
    → (value % 2 ^ 64 ≡ (value * base ^ 0 + 0) % 2 ^ 64) × (cursor ≡ cursor + 0)
no_digits base value cursor =
    let one : base ^ 0 ≡ 1 = pow-zero base in
    let same : value ≡ value * base ^ 0 + 0 = rw one (omega arith) in
    (ap (λ (i : ℕ). i % 2 ^ 64) same, omega arith)

pub read_digits-number :
    (base : ℕ) (cs ds rest : List ℕ) (value cursor : ℕ)
    → Digits base cs ds
    → Stops base rest
    → ((read_digits base (cs ++ rest) value cursor).0 % 2 ^ 64
        ≡ (value * base ^ length ds + number base ds) % 2 ^ 64)
      × ((read_digits base (cs ++ rest) value cursor).1 ≡ cursor + length cs)
unfolding read_digits number
read_digits-number base [] [] [] value cursor e stop = no_digits base value cursor
read_digits-number base [] [] (c ∷ rest) value cursor e stop =
    rw (read_digits, stop) (no_digits base value cursor)
read_digits-number base [] (d ∷ ds) rest value cursor e stop = absurd e
read_digits-number base (c ∷ cs) [] rest value cursor e stop = absurd e
read_digits-number base (c ∷ cs) (d ∷ ds) rest value cursor (first, e) stop =
    let ih =
      read_digits-number base cs ds rest ((value * base + d) % 2 ^ 128) (suc cursor) e stop in
    let worth : (value * base + d) * base ^ length ds + number base ds
        ≡ value * base ^ suc (length ds) + (d * base ^ length ds + number base ds) =
      omega (arith, ap (λ (i : ℕ). value * i) (pow-suc base (length ds))) in
    rw (read_digits, first)
      (
        ih.0
            ∙ wraps (value * base + d) (base ^ length ds) (number base ds)
            ∙ ap (λ (i : ℕ). i % 2 ^ 64) worth,
        omega (arith, ih.1),
      )
