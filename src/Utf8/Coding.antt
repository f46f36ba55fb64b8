-- ===== src/Utf8/Coding.antt =====
-- What the encoder writes is what the decoder reads, for code points of each length.
use cross_shim.Base.{
  ℕ, ◌+◌, ◌*◌, ◌/◌, ◌%◌, ◌≤◌, ◌<◌, ◌≡◌, ◌≢◌, ◌⊎◌, true, false, some, List, [], ◌∷◌, bit_and, bit_or,
  arith,
}
use cross_shim.Utf8.{
  ok, continues, char_of, takes_three, between, encode_utf8, decode_utf8, decode_two, decode_three,
  decode_four,
}
use cross_shim.Utf8.Values.{
  low_six, low_five, low_four, low_three, lead_two, lead_three, lead_four, continuation_lem,
  continues_lem, two_groups, three_groups, four_groups,
}

continued : (b : ℕ) → b < 64 → continues (128 + b) ≡ true
continued b h = ground (arith, continues_lem (128 + b) (omega arith))

group : (b : ℕ) → b < 64 → bit_and (128 + b) 0x3f ≡ b
group b h = omega (arith, low_six (128 + b))

pub decode_one : (b : ℕ) (rest : List ℕ) → b < 128 → decode_utf8 (b ∷ rest) ≡ ok b 1
unfolding decode_utf8
decode_one b rest h = ground arith

pub decode_two_lem :
    (a b : ℕ) (rest : List ℕ)
    → 2 ≤ a
    → a < 32
    → b < 64
    → decode_utf8 ((192 + a) ∷ (128 + b) ∷ rest) ≡ ok (a * 64 + b) 2
unfolding decode_utf8 decode_two between
decode_two_lem a b rest lo hi hb =
    let lead : bit_and (192 + a) 0x1f ≡ a = omega (arith, low_five (192 + a)) in
    let value : bit_or (bit_and (192 + a) 0x1f * 0x40) (bit_and (128 + b) 0x3f) ≡ a * 64 + b =
      rw (lead, group b hb) (two_groups a b hb) in
    ground (arith, value, continued b hb)

pub decode_three_lem :
    (a b c : ℕ) (rest : List ℕ)
    → a < 16
    → b < 64
    → c < 64
    → (32 ≤ b ⊎ (0 < a))
    → (b < 32 ⊎ (a ≢ 13))
    → decode_utf8 ((224 + a) ∷ (128 + b) ∷ (128 + c) ∷ rest) ≡ ok (a * 4096 + b * 64 + c) 3
unfolding decode_utf8 decode_three between
decode_three_lem a b c rest hi hb hc long no_surrogate =
    let lead : bit_and (224 + a) 0x0f ≡ a = omega (arith, low_four (224 + a)) in
    let value : bit_or (bit_or (bit_and (224 + a) 0x0f * 0x1000) (bit_and (128 + b) 0x3f * 0x40))
          (bit_and (128 + c) 0x3f)
        ≡ a * 4096 + b * 64 + c =
      rw (lead, group b hb, group c hc) (three_groups a b c hb hc) in
    ground (arith, value, continued b hb, continued c hc)

pub decode_four_lem :
    (a b c d : ℕ) (rest : List ℕ)
    → a < 5
    → b < 64
    → c < 64
    → d < 64
    → (16 ≤ b ⊎ (0 < a))
    → (b < 16 ⊎ (a < 4))
    → decode_utf8 ((240 + a) ∷ (128 + b) ∷ (128 + c) ∷ (128 + d) ∷ rest)
      ≡ ok (a * 262144 + b * 4096 + c * 64 + d) 4
unfolding decode_utf8 decode_four between
decode_four_lem a b c d rest hi hb hc hd long small =
    let lead : bit_and (240 + a) 0x07 ≡ a = omega (arith, low_three (240 + a)) in
    let value : bit_or
          (bit_or (bit_or (bit_and (240 + a) 0x07 * 0x40000) (bit_and (128 + b) 0x3f * 0x1000))
            (bit_and (128 + c) 0x3f * 0x40))
          (bit_and (128 + d) 0x3f)
        ≡ a * 262144 + b * 4096 + c * 64 + d =
      rw (lead, group b hb, group c hc, group d hd) (four_groups a b c d hb hc hd) in
    ground (arith, value, continued b hb, continued c hc, continued d hd)

-- The bytes of a code point, by its length.
pub encode_one : (wc : ℕ) → wc < 128 → encode_utf8 wc ≡ some (wc ∷ [])
unfolding encode_utf8 char_of
encode_one wc h = ground arith

pub encode_two :
    (wc : ℕ) → 128 ≤ wc → wc < 2048 → encode_utf8 wc ≡ some ((192 + wc / 64) ∷ (128 + wc % 64) ∷ [])
unfolding encode_utf8
encode_two wc lo hi = ground (arith, lead_two (wc / 64) (omega arith), continuation_lem wc)

pub encode_three :
    (wc : ℕ)
    → 2048 ≤ wc
    → takes_three wc ≡ true
    → encode_utf8 wc ≡ some ((224 + wc / 4096) ∷ (128 + wc / 64 % 64) ∷ (128 + wc % 64) ∷ [])
unfolding encode_utf8 takes_three
encode_three wc lo three =
    ground (arith, lead_three (wc / 4096), continuation_lem (wc / 64), continuation_lem wc)

pub encode_four :
    (wc : ℕ)
    → 2048 ≤ wc
    → wc ≤ 0x10ffff
    → takes_three wc ≡ false
    → encode_utf8 wc
      ≡ some (
          (240 + wc / 262144)
          ∷ (128 + wc / 4096 % 64)
          ∷ (128 + wc / 64 % 64)
          ∷ (128 + wc % 64)
          ∷ [])
unfolding encode_utf8 takes_three
encode_four wc lo hi more = ground (
  arith,
  lead_four (wc / 262144),
  continuation_lem (wc / 4096),
  continuation_lem (wc / 64),
  continuation_lem wc,
)
