-- ===== src/Utf8/Shortest.antt =====
-- The decoder accepts only what the encoder writes.
use cross_shim.Base.{
  ℕ, ◌+◌, ◌-◌, ◌*◌, ◌/◌, ◌%◌, ◌≤◌, ◌<◌, ◌≡◌, refl, ap, ap₂, sym, ◌∙◌, inl, inr, true, some, List,
  [], ◌∷◌, ◌++◌, length, bit_and, bit_or, ltb, arith, Bool-cases,
}
use cross_shim.Utf8.{
  ok, is_surrogate, is_valid_unicode_scalar, continues, takes_three, between, encode_utf8,
  decode_utf8, decode_two, decode_three, decode_four,
}
use cross_shim.Utf8.Values.{
  low_six, low_five, low_four, low_three, continues_lem, two_groups, three_groups, four_groups,
}
use cross_shim.Utf8.Coding.{encode_one, encode_two, encode_three, encode_four}

abbrev pub Bytes : List ℕ → Type 0
Bytes [] = Unit {0}
Bytes (b ∷ bs) = (b < 256) × Bytes bs

-- A decoded prefix: its bytes are the encoding of a scalar, and a rest follows.
abbrev pub Decoded : ℕ → ℕ → List ℕ → Type 0
Decoded wc n input =
    (bs : List ℕ) × (rest : List ℕ) × (input ≡ bs ++ rest)
    × (length bs ≡ n)
    × (is_valid_unicode_scalar wc ≡ true)
    × (encode_utf8 wc ≡ some bs)

-- A byte that continues a sequence, and its six digits.
tail_byte :
    (b : ℕ) → b < 256 → continues b ≡ true → (0x80 ≤ b) × (b < 0xc0) × (bit_and b 0x3f ≡ b - 128)
tail_byte b h c =
    let range : (0x80 ≤ b) × (b < 0xc0) =
      (ground (arith, continues_lem b h), ground (arith, continues_lem b h)) in
    (range.0, range.1, omega (arith, low_six b))

Decoded-one : (b0 wc n : ℕ) (rest : List ℕ) → b0 < 128 → wc ≡ b0 → n ≡ 1 → Decoded wc n (b0 ∷ rest)
unfolding is_valid_unicode_scalar is_surrogate
Decoded-one b0 wc n rest h e one = (
  b0 ∷ [],
  rest,
  refl,
  sym one,
  ground arith,
  encode_one wc (omega arith) ∙ ap (λ i. some (i ∷ [])) e,
)

Decoded-two :
    (b0 wc n : ℕ) (rest : List ℕ)
    → between 0xc2 0xdf b0 ≡ true
    → Bytes rest
    → decode_two b0 rest ≡ ok wc n
    → Decoded wc n (b0 ∷ rest)
unfolding decode_two between is_valid_unicode_scalar is_surrogate
Decoded-two b0 wc n [] lead bytes e = ground arith
Decoded-two b0 wc n (b1 ∷ rest) lead bytes e =
    let t1 = tail_byte b1 bytes.0 (ground arith) in
    let high : bit_and b0 0x1f ≡ b0 - 192 = ground (arith, low_five b0) in
    let value : bit_or (bit_and b0 0x1f * 0x40) (bit_and b1 0x3f) ≡ (b0 - 192) * 64 + (b1 - 128) =
      rw (high, t1.2) (two_groups (b0 - 192) (b1 - 128) (omega (arith, t1))) in
    let is : wc ≡ (b0 - 192) * 64 + (b1 - 128) = ground (arith, value) in
    let first : 192 + wc / 64 ≡ b0 = ground (arith, t1) in
    let second : 128 + wc % 64 ≡ b1 = omega (arith, t1) in
    (
      b0 ∷ b1 ∷ [],
      rest,
      refl,
      ground arith,
      ground (arith, t1),
      encode_two wc (ground arith) (ground (arith, t1))
          ∙ ap₂ (λ i j. some (i ∷ j ∷ [])) first second,
    )

Decoded-three :
    (b0 wc n : ℕ) (rest : List ℕ)
    → between 0xe0 0xef b0 ≡ true
    → Bytes rest
    → decode_three b0 rest ≡ ok wc n
    → Decoded wc n (b0 ∷ rest)
unfolding decode_three between is_valid_unicode_scalar is_surrogate takes_three
Decoded-three b0 wc n [] lead bytes e = ground arith
Decoded-three b0 wc n (b1 ∷ []) lead bytes e = ground arith
Decoded-three b0 wc n (b1 ∷ b2 ∷ rest) lead bytes e =
    let t1 = tail_byte b1 bytes.0 (ground arith) in
    let t2 = tail_byte b2 bytes.1.0 (ground arith) in
    let high : bit_and b0 0x0f ≡ b0 - 224 = ground (arith, low_four b0) in
    let value : bit_or (bit_or (bit_and b0 0x0f * 0x1000) (bit_and b1 0x3f * 0x40))
          (bit_and b2 0x3f)
        ≡ (b0 - 224) * 4096 + (b1 - 128) * 64 + (b2 - 128) =
      rw (high, t1.2, t2.2)
        (three_groups (b0 - 224) (b1 - 128) (b2 - 128) (omega (arith, t1)) (omega (arith, t2))) in
    let is : wc ≡ (b0 - 224) * 4096 + (b1 - 128) * 64 + (b2 - 128) = ground (arith, value) in
    let first : 224 + wc / 4096 ≡ b0 = ground (arith, t1, t2) in
    let second : 128 + wc / 64 % 64 ≡ b1 = omega (arith, t1, t2) in
    let third : 128 + wc % 64 ≡ b2 = omega (arith, t2) in
    (
      b0 ∷ b1 ∷ b2 ∷ [],
      rest,
      refl,
      ground arith,
      ground (arith, t1, t2),
      encode_three wc (ground (arith, t1, t2)) (ground (arith, t1, t2))
          ∙ ap₂ (λ i j. some (i ∷ j ∷ (128 + wc % 64) ∷ [])) first second
          ∙ ap (λ k. some (b0 ∷ b1 ∷ k ∷ [])) third,
    )

Decoded-four :
    (b0 wc n : ℕ) (rest : List ℕ)
    → between 0xf0 0xf4 b0 ≡ true
    → Bytes rest
    → decode_four b0 rest ≡ ok wc n
    → Decoded wc n (b0 ∷ rest)
unfolding decode_four between is_valid_unicode_scalar is_surrogate takes_three
Decoded-four b0 wc n [] lead bytes e = ground arith
Decoded-four b0 wc n (b1 ∷ []) lead bytes e = ground arith
Decoded-four b0 wc n (b1 ∷ b2 ∷ []) lead bytes e = ground arith
Decoded-four b0 wc n (b1 ∷ b2 ∷ b3 ∷ rest) lead bytes e =
    let t1 = tail_byte b1 bytes.0 (ground arith) in
    let t2 = tail_byte b2 bytes.1.0 (ground arith) in
    let t3 = tail_byte b3 bytes.1.1.0 (ground arith) in
    let high : bit_and b0 0x07 ≡ b0 - 240 = ground (arith, low_three b0) in
    let value : bit_or
          (bit_or (bit_or (bit_and b0 0x07 * 0x40000) (bit_and b1 0x3f * 0x1000))
            (bit_and b2 0x3f * 0x40))
          (bit_and b3 0x3f)
        ≡ (b0 - 240) * 262144 + (b1 - 128) * 4096 + (b2 - 128) * 64 + (b3 - 128) =
      rw (high, t1.2, t2.2, t3.2)
        (four_groups (b0 - 240) (b1 - 128) (b2 - 128) (b3 - 128) (omega (arith, t1))
          (omega (arith, t2)) (omega (arith, t3))) in
    let is : wc ≡ (b0 - 240) * 262144 + (b1 - 128) * 4096 + (b2 - 128) * 64 + (b3 - 128) =
      ground (arith, value) in
    let first : 240 + wc / 262144 ≡ b0 = ground (arith, t1, t2, t3) in
    let second : 128 + wc / 4096 % 64 ≡ b1 = omega (arith, t1, t2, t3) in
    let third : 128 + wc / 64 % 64 ≡ b2 = omega (arith, t2, t3) in
    let fourth : 128 + wc % 64 ≡ b3 = omega (arith, t3) in
    (
      b0 ∷ b1 ∷ b2 ∷ b3 ∷ [],
      rest,
      refl,
      ground arith,
      ground (arith, t1, t2, t3),
      encode_four wc (ground (arith, t1, t2, t3)) (ground (arith, t1, t2, t3))
            (ground (arith, t1, t2, t3))
          ∙ ap₂ (λ i j. some (i ∷ j ∷ (128 + wc / 64 % 64) ∷ (128 + wc % 64) ∷ [])) first second
          ∙ ap₂ (λ i j. some (b0 ∷ b1 ∷ i ∷ j ∷ [])) third fourth,
    )

-- What the decoder accepts is what the encoder writes: if `decode_utf8` returns a code point and a
-- count of bytes, the code point is a Unicode scalar, and the input starts with its encoding, which
-- has as many bytes. So it refuses overlong forms, surrogates and what lies above U+10FFFF.
pub encode-decode :
    (wc n : ℕ) (input : List ℕ)
    → Bytes input
    → decode_utf8 input ≡ ok wc n
    → (bs : List ℕ) × (rest : List ℕ) × (input ≡ bs ++ rest)
      × (length bs ≡ n)
      × (is_valid_unicode_scalar wc ≡ true)
      × (encode_utf8 wc ≡ some bs)
unfolding decode_utf8
encode-decode wc n [] bytes e = ground arith
encode-decode wc n (b0 ∷ rest) bytes e = elim (Bool-cases (ltb b0 0x80)) [
  | inl small ↦
      Decoded-one b0 wc n rest (ground arith) (ground (arith, rw small at e))
        (ground (arith, rw small at e))
  | inr more ↦ elim (Bool-cases (between 0xc2 0xdf b0)) [
    | inl lead ↦ Decoded-two b0 wc n rest lead bytes.1 (rw (more, lead) at e)
    | inr other ↦ elim (Bool-cases (between 0xe0 0xef b0)) [
      | inl lead ↦ Decoded-three b0 wc n rest lead bytes.1 (rw (more, other, lead) at e)
      | inr last ↦ elim (Bool-cases (between 0xf0 0xf4 b0)) [
        | inl lead ↦ Decoded-four b0 wc n rest lead bytes.1 (rw (more, other, last, lead) at e)
        | inr none_left ↦ ground (arith, rw (more, other, last, none_left) at e)
      ]
    ]
  ]
]
