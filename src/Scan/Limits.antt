-- ===== src/Scan/Limits.antt =====
-- What scanf consumes for an integer stays within the width and the input.
use cross_shim.Base.{
  ℕ, suc, ◌+◌, ◌*◌, ◌%◌, ◌^◌, ◌≤◌, ◌<◌, ◌≡◌, subst, inl, inr, Bool, true, false, ◌&&◌, not, Option,
  none, some, List, [], ◌∷◌, length, drop, take, length-take, length-drop, min, ◌==◌, arith,
  Bool-cases, Option-cases,
}
use cross_shim.Scan.{
  is_sign, digit_in, conv_base, has_prefix, choose_base, read_digits, conclude, parse_base,
  parse_magnitude, parse_signed, parse_integer_value,
}

read_digits_bounds :
    (base : ℕ) (text : List ℕ) (value cursor : ℕ)
    → (cursor ≤ (read_digits base text value cursor).1)
      × ((read_digits base text value cursor).1 ≤ cursor + length text)
unfolding read_digits
read_digits_bounds base [] value cursor = (omega arith, omega arith)
read_digits_bounds base (c ∷ text) value cursor = elim (Option-cases (digit_in base c)) [
  | inl stop ↦ rw (read_digits, stop) (omega arith, omega arith)
  | inr (d, e) ↦
      let ih = read_digits_bounds base text ((value * base + d) % 2 ^ 128) (suc cursor) in
      rw (read_digits, e) (omega (arith, ih), omega (arith, ih))
]

prefix_fits : (mark base : ℕ) (text : List ℕ) → has_prefix mark base text ≡ true → 2 ≤ length text
unfolding has_prefix
prefix_fits mark base [] e = ground arith
prefix_fits mark base (c0 ∷ []) e = ground arith
prefix_fits mark base (c0 ∷ c1 ∷ []) e = ground arith
prefix_fits mark base (c0 ∷ c1 ∷ c2 ∷ text) e = omega arith

choose_base_fits : (allowed : ℕ × Bool) (text : List ℕ) → (choose_base allowed text).1 ≤ length text
unfolding choose_base
choose_base_fits (base, mark) text = ground (
  arith,
  prefix_fits b'x' 16 text,
  prefix_fits b'b' 2 text,
  prefix_fits b'x' base text,
  prefix_fits b'b' base text,
)

-- Something is consumed, not more than `limit`, and the bits are a 64-bit word.
abbrev Within : ℕ → Option (ℕ × ℕ) → Type 0
Within limit none = Unit {0}
Within limit (some (consumed, bits)) = (0 < consumed) × (consumed ≤ limit) × (bits < 2 ^ 64)

conclude-Within :
    (negative : Bool) (start value stop limit : ℕ)
    → start ≤ stop
    → stop ≤ limit
    → Within limit (conclude negative start (value, stop))
unfolding conclude
conclude-Within negative start value stop limit lo hi = elim (Bool-cases (stop == start)) [
  | inl e ↦ rw (conclude, e) tt
  | inr e ↦ rw (conclude, e) (ground arith, hi, ground arith)
]

parse_magnitude-Within :
    (conv : ℕ) (negative : Bool) (text : List ℕ) (cursor : ℕ)
    → Within (cursor + length text) (parse_magnitude conv negative text cursor)
unfolding parse_magnitude parse_base
parse_magnitude-Within conv negative [] cursor = tt
parse_magnitude-Within conv negative (c ∷ text) cursor = elim (Option-cases (conv_base conv)) [
  | inl e ↦ rw (parse_magnitude, e) tt
  | inr (allowed, e) ↦
      let (base, prefix) = choose_base allowed (c ∷ text) in
      let fits : prefix ≤ length (c ∷ text) = choose_base_fits allowed (c ∷ text) in
      let r = read_digits_bounds base (drop prefix (c ∷ text)) 0 (cursor + prefix) in
      rw (parse_magnitude, e)
        (conclude-Within negative (cursor + prefix) _ _ (cursor + length (c ∷ text)) r.0
          (omega (arith, r.1, length-drop prefix (c ∷ text), fits)))
]

parse_signed-Within : (conv : ℕ) (text : List ℕ) → Within (length text) (parse_signed conv text)
unfolding parse_signed
parse_signed-Within conv [] = tt
parse_signed-Within conv (c ∷ text) = elim (Bool-cases (is_sign c && not (conv == b'p'))) [
  | inl e ↦
      let one : 1 + length text ≡ suc (length text) = omega arith in
      rw (parse_signed, e, ← one) (parse_magnitude-Within conv (c == b'-') text 1)
  | inr e ↦
      let all : 0 + length (c ∷ text) ≡ length (c ∷ text) = omega arith in
      rw (parse_signed, e)
        (subst (λ n. Within n (parse_magnitude conv false (c ∷ text) 0)) all
          (parse_magnitude-Within conv false (c ∷ text) 0))
]

taken-Within :
    (conv limit consumed bits : ℕ) (text : List ℕ)
    → parse_signed conv (take limit text) ≡ some (consumed, bits)
    → (0 < consumed) × (consumed ≤ min limit (length text)) × (bits < 2 ^ 64)
taken-Within conv limit consumed bits text e =
    subst (λ n. Within n (some (consumed, bits))) (length-take limit text)
      (subst (Within (length (take limit text))) e (parse_signed-Within conv (take limit text)))

-- A conversion that succeeds consumes at least one character, and no more than the width allows or
-- the input has left, and its bits are a 64-bit word.
pub parse_integer_value_limits :
    (input : List ℕ) (pos conv consumed bits : ℕ) (width : Option ℕ)
    → parse_integer_value input pos conv width ≡ some (consumed, bits)
    → (0 < consumed)
      × (consumed ≤ length (drop pos input))
      × ((w : ℕ) → width ≡ some w → consumed ≤ w)
      × (bits < 2 ^ 64)
unfolding parse_integer_value
parse_integer_value_limits input pos conv consumed bits none e =
    let left = drop pos input in
    let (some_read, fits, word) = taken-Within conv (length left) consumed bits left e in
    (some_read, omega (arith, fits), λ w is. cc, word)
parse_integer_value_limits input pos conv consumed bits (some w) e =
    let left = drop pos input in
    let (some_read, fits, word) = taken-Within conv (min (length left) w) consumed bits left e in
    (some_read, omega (arith, fits), λ w' is. ground (arith, fits, is), word)
