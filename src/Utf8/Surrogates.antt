-- ===== src/Utf8/Surrogates.antt =====
-- What the encoder makes of a surrogate.
use cross_shim.Base.{
  ℕ, ◌+◌, ◌/◌, ◌%◌, ◌≤◌, ◌<◌, ◌≡◌, refl, ap, ◌∙◌, true, false, some, List, [], ◌∷◌, ◌++◌, length,
  arith,
}
use cross_shim.Utf8.{
  invalid, is_surrogate, utf8_length, takes_three, between, encode_utf8, decode_utf8, decode_four,
}
use cross_shim.Utf8.Values.{continues_lem}
use cross_shim.Utf8.Coding.{encode_four}

overlong :
    (b1 b2 b3 : ℕ) (rest : List ℕ)
    → 128 ≤ b1
    → b1 < 144
    → decode_utf8 (240 ∷ b1 ∷ b2 ∷ b3 ∷ rest) ≡ invalid
unfolding decode_utf8 decode_four between
overlong b1 b2 b3 rest lo hi = ground (arith, continues_lem b1 (omega arith))

-- A surrogate is given four bytes, `utf8_length` says the same, and the decoder refuses these bytes
-- as invalid, whatever follows.
pub surrogate-refused :
    (wc : ℕ)
    → is_surrogate wc ≡ true
    → (bs : List ℕ) × (encode_utf8 wc ≡ some bs)
      × (length bs ≡ 4)
      × (utf8_length wc ≡ some 4)
      × ((rest : List ℕ) → decode_utf8 (bs ++ rest) ≡ invalid)
unfolding is_surrogate takes_three utf8_length
surrogate-refused wc s =
    let lead : 240 + wc / 262144 ≡ 240 = ground arith in
    let more : takes_three wc ≡ false = ground arith in
    let bs = (128 + wc / 4096 % 64) ∷ (128 + wc / 64 % 64) ∷ (128 + wc % 64) ∷ [] in
    (
      240 ∷ bs,
      encode_four wc (ground arith) (ground arith) more ∙ ap (λ b. some (b ∷ bs)) lead,
      refl,
      ground arith,
      λ rest. overlong (128 + wc / 4096 % 64) _ _ rest (omega arith) (ground arith),
    )
