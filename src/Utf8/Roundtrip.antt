-- ===== src/Utf8/Roundtrip.antt =====
-- Encoding and decoding undo one another on Unicode scalars.
use cross_shim.Base.{
  ℕ, ◌+◌, ◌/◌, ◌%◌, ◌≤◌, ◌<◌, ◌≡◌, ap, subst, ◌∙◌, inl, inr, true, false, some, List, [], ◌∷◌, ◌++◌,
  length, ltb, arith, Bool-cases,
}
use cross_shim.Utf8.{
  ok, is_surrogate, is_valid_unicode_scalar, utf8_length, takes_three, encode_utf8, decode_utf8,
}
use cross_shim.Utf8.Coding.{
  decode_one, decode_two_lem, decode_three_lem, decode_four_lem, encode_one, encode_two,
  encode_three, encode_four,
}

-- The bytes of a code point, and what the decoder makes of them before any rest.
abbrev pub Coded : ℕ → List ℕ → Type 0
Coded wc bs =
    (encode_utf8 wc ≡ some bs)
    × (utf8_length wc ≡ some (length bs))
    × ((rest : List ℕ) → decode_utf8 (bs ++ rest) ≡ ok wc (length bs))

Coded-one : (wc : ℕ) → wc < 128 → Coded wc (wc ∷ [])
unfolding utf8_length
Coded-one wc h = (encode_one wc h, ground arith, λ rest. decode_one wc rest h)

Coded-two : (wc : ℕ) → 128 ≤ wc → wc < 2048 → Coded wc ((192 + wc / 64) ∷ (128 + wc % 64) ∷ [])
unfolding utf8_length
Coded-two wc lo hi = (
  encode_two wc lo hi,
  ground arith,
  λ rest.
      decode_two_lem (wc / 64) (wc % 64) rest (omega arith) (omega arith) (omega arith)
      ∙ ap (λ n. ok n 2) (omega arith),
)

Coded-three :
    (wc : ℕ)
    → 2048 ≤ wc
    → takes_three wc ≡ true
    → Coded wc ((224 + wc / 4096) ∷ (128 + wc / 64 % 64) ∷ (128 + wc % 64) ∷ [])
unfolding utf8_length takes_three
Coded-three wc lo three = (
  encode_three wc lo three,
  ground arith,
  λ rest.
      decode_three_lem (wc / 4096) (wc / 64 % 64) (wc % 64) rest (ground arith) (omega arith)
        (omega arith) (ground arith) (ground arith)
      ∙ ap (λ n. ok n 3) (omega arith),
)

Coded-four :
    (wc : ℕ)
    → 2048 ≤ wc
    → takes_three wc ≡ false
    → is_valid_unicode_scalar wc ≡ true
    → Coded wc
        ((240 + wc / 262144) ∷ (128 + wc / 4096 % 64) ∷ (128 + wc / 64 % 64) ∷ (128 + wc % 64) ∷ [])
unfolding utf8_length takes_three is_valid_unicode_scalar is_surrogate
Coded-four wc lo more valid = (
  encode_four wc lo (ground arith) more,
  ground arith,
  λ rest.
      decode_four_lem (wc / 262144) (wc / 4096 % 64) (wc / 64 % 64) (wc % 64) rest (ground arith)
        (omega arith) (omega arith) (omega arith) (ground arith) (ground arith)
      ∙ ap (λ n. ok n 4) (omega arith),
)

named :
    (wc : ℕ) (bs : List ℕ)
    → Coded wc bs
    → (bs : List ℕ) × (encode_utf8 wc ≡ some bs)
      × (utf8_length wc ≡ some (length bs))
      × ((rest : List ℕ) → decode_utf8 (bs ++ rest) ≡ ok wc (length bs))
named wc bs coded = (bs, coded.0, coded.1, coded.2)

-- Every Unicode scalar has an encoding, `utf8_length` is its length, and the decoder reads the
-- scalar back from it and takes just its bytes, whatever bytes follow.
pub decode-encode :
    (wc : ℕ)
    → is_valid_unicode_scalar wc ≡ true
    → (bs : List ℕ) × (encode_utf8 wc ≡ some bs)
      × (utf8_length wc ≡ some (length bs))
      × ((rest : List ℕ) → decode_utf8 (bs ++ rest) ≡ ok wc (length bs))
decode-encode wc valid = elim (Bool-cases (ltb wc 128)) [
  | inl small ↦ named wc _ (Coded-one wc (ground arith))
  | inr more ↦ elim (Bool-cases (ltb wc 2048)) [
    | inl small ↦ named wc _ (Coded-two wc (ground arith) (ground arith))
    | inr more ↦ elim (Bool-cases (takes_three wc)) [
      | inl three ↦ named wc _ (Coded-three wc (ground arith) three)
      | inr four ↦ named wc _ (Coded-four wc (ground arith) four valid)
    ]
  ]
]

pub decode_prefix :
    (wc : ℕ) (bs rest : List ℕ)
    → is_valid_unicode_scalar wc ≡ true
    → encode_utf8 wc ≡ some bs
    → decode_utf8 (bs ++ rest) ≡ ok wc (length bs)
decode_prefix wc bs rest valid e =
    let (cs, e', l, decodes) = decode-encode wc valid in
    let same : cs ≡ bs = cc in
    subst (λ xs. decode_utf8 (xs ++ rest) ≡ ok wc (length xs)) same (decodes rest)
