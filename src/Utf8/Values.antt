-- ===== src/Utf8/Values.antt =====
-- The bit operations of the UTF-8 routines as sums.
use cross_shim.Base.{
  ℕ, ◌+◌, ◌-◌, ◌*◌, ◌/◌, ◌%◌, ◌^◌, ◌<◌, ◌≡◌, ap, ◌∙◌, ◌&&◌, bit_and, bit_or, ltb, leb, arith,
}
use cross_shim.Base.Digits.{bit_and-low, bit_or-add, bit_and-top}
use cross_shim.Utf8.{char_of, continuation, continues}

-- The lowest digits of a number with a known quotient.
low : (k q r x : ℕ) → x ≡ q * 2 ^ k + r → r < 2 ^ k → bit_and x (2 ^ k - 1) ≡ r
low k q r x e h = ap (λ (i : ℕ). bit_and i (2 ^ k - 1)) e ∙ bit_and-low k q r h

pub low_six : (x : ℕ) → bit_and x 0x3f ≡ x % 64
low_six x = low 6 (x / 64) (x % 64) x (omega arith) (omega arith)

pub low_five : (b : ℕ) → bit_and b 0x1f ≡ b % 32
low_five b = low 5 (b / 32) (b % 32) b (omega arith) (omega arith)

pub low_four : (b : ℕ) → bit_and b 0x0f ≡ b % 16
low_four b = low 4 (b / 16) (b % 16) b (omega arith) (omega arith)

pub low_three : (b : ℕ) → bit_and b 0x07 ≡ b % 8
low_three b = low 3 (b / 8) (b % 8) b (omega arith) (omega arith)

pub lead_two : (x : ℕ) → x < 32 → char_of (bit_or 0xc0 x) ≡ 192 + x
unfolding char_of
lead_two x h = omega (arith, bit_or-add 5 6 x h)

pub lead_three : (x : ℕ) → x < 16 → char_of (bit_or 0xe0 x) ≡ 224 + x
unfolding char_of
lead_three x h = omega (arith, bit_or-add 4 14 x h)

pub lead_four : (x : ℕ) → x < 8 → char_of (bit_or 0xf0 x) ≡ 240 + x
unfolding char_of
lead_four x h = omega (arith, bit_or-add 3 30 x h)

pub continuation_lem : (x : ℕ) → continuation x ≡ 128 + x % 64
unfolding continuation char_of
continuation_lem x =
    ap (λ (i : ℕ). bit_or 0x80 i % 256) (low_six x)
    ∙ omega (arith, bit_or-add 6 2 (x % 64) (omega arith))

-- A byte that continues a sequence is one from 0x80 to 0xbf.
pub continues_lem : (b : ℕ) → b < 256 → continues b ≡ (leb 0x80 b && ltb b 0xc0)
unfolding continues
continues_lem b h = ground (arith, bit_and-top b h)

-- The sums that the decoder makes of two, three and four groups.
pub two_groups : (a b : ℕ) → b < 64 → bit_or (a * 0x40) b ≡ a * 64 + b
two_groups a b h = bit_or-add 6 a b h

pub three_groups :
    (a b c : ℕ)
    → b < 64
    → c < 64
    → bit_or (bit_or (a * 0x1000) (b * 0x40)) c ≡ a * 4096 + b * 64 + c
three_groups a b c hb hc =
    let high : bit_or (a * 0x1000) (b * 0x40) ≡ a * 4096 + b * 64 =
      bit_or-add 12 a (b * 64) (omega arith) in
    let regroup : a * 4096 + b * 64 ≡ (a * 64 + b) * 64 = omega arith in
    ap (λ (i : ℕ). bit_or i c) (high ∙ regroup) ∙ bit_or-add 6 (a * 64 + b) c hc ∙ omega arith

pub four_groups :
    (a b c d : ℕ)
    → b < 64
    → c < 64
    → d < 64
    → bit_or (bit_or (bit_or (a * 0x40000) (b * 0x1000)) (c * 0x40)) d
      ≡ a * 262144 + b * 4096 + c * 64 + d
four_groups a b c d hb hc hd =
    let high : bit_or (a * 0x40000) (b * 0x1000) ≡ a * 262144 + b * 4096 =
      bit_or-add 18 a (b * 4096) (omega arith) in
    let regroup : a * 262144 + b * 4096 ≡ (a * 64 + b) * 4096 = omega arith in
    ap (λ (i : ℕ). bit_or (bit_or i (c * 64)) d) (high ∙ regroup)
    ∙ three_groups (a * 64 + b) c d hc hd
    ∙ omega arith
