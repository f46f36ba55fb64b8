-- ===== src/Utf8.antt =====
-- The UTF-8 routines of src/hle/hle_wchar.cpp. A buffer with its length is a list of bytes, and -1
-- and the end of a stream are `none`.
pub mod Values
pub mod Coding
pub mod Roundtrip
pub mod Shortest
pub mod Stream
pub mod Streaming
pub mod Text
pub mod Surrogates
mod Tests
use cross_shim.Base.{
  ℕ, zero, suc, ◌+◌, ◌*◌, ◌/◌, ◌%◌, ◌<◌, Bool, true, false, ◌&&◌, ◌||◌, not, Option, none, some,
  List, [], ◌∷◌, ltb, leb, ◌==◌, if◌then◌else◌, bit_and, bit_or,
}

-- What `decode_utf8` returns, with the code point and the bytes that it took.
pub data Utf8DecodeStatus : Type 0 where
  ok : ℕ → ℕ → Utf8DecodeStatus
  incomplete invalid : Utf8DecodeStatus

unfoldable pub is_surrogate : ℕ → Bool
is_surrogate wc = leb 0xd800 wc && leb wc 0xdfff

unfoldable pub is_valid_unicode_scalar : ℕ → Bool
unfolding is_surrogate
is_valid_unicode_scalar wc = leb wc 0x10ffff && not (is_surrogate wc)

-- `wc <= 0xffff && (wc < 0xd800 || wc > 0xdfff)`
unfoldable pub takes_three : ℕ → Bool
takes_three wc = leb wc 0xffff && (ltb wc 0xd800 || ltb 0xdfff wc)

unfoldable pub utf8_length : ℕ → Option ℕ
unfolding takes_three
utf8_length wc =
    if leb wc 0x7f
    then some 1
    else if leb wc 0x7ff
    then some 2
    else if takes_three wc
    then some 3
    else if leb wc 0x10ffff
    then some 4
    else none

unfoldable pub between : ℕ → ℕ → ℕ → Bool
between lo hi b = leb lo b && leb b hi

unfoldable pub utf8_expected_length_from_lead : ℕ → Option ℕ
unfolding between
utf8_expected_length_from_lead lead =
    if ltb lead 0x80
    then some 1
    else if between 0xc2 0xdf lead
    then some 2
    else if between 0xe0 0xef lead
    then some 3
    else if between 0xf0 0xf4 lead
    then some 4
    else none

-- `static_cast<char>`
unfoldable pub char_of : ℕ → ℕ
char_of x = x % 256

-- `0x80 | (x & 0x3f)`
unfoldable pub continuation : ℕ → ℕ
unfolding char_of
continuation x = char_of (bit_or 0x80 (bit_and x 0x3f))

unfoldable pub encode_utf8 : ℕ → Option (List ℕ)
unfolding char_of continuation takes_three
encode_utf8 wc =
    if leb wc 0x7f
    then some (char_of wc ∷ [])
    else if leb wc 0x7ff
    then some (char_of (bit_or 0xc0 (wc / 0x40)) ∷ continuation wc ∷ [])
    else if takes_three wc
    then some
        (char_of (bit_or 0xe0 (wc / 0x1000)) ∷ continuation (wc / 0x40) ∷ continuation wc ∷ [])
    else if leb wc 0x10ffff
    then some (
        char_of (bit_or 0xf0 (wc / 0x40000))
        ∷ continuation (wc / 0x1000)
        ∷ continuation (wc / 0x40)
        ∷ continuation wc
        ∷ [])
    else none

-- `(b & 0xc0) == 0x80`
unfoldable pub continues : ℕ → Bool
continues b = bit_and b 0xc0 == 0x80

unfoldable pub decode_two : ℕ → List ℕ → Utf8DecodeStatus
unfolding continues
decode_two b0 [] = incomplete
decode_two b0 (b1 ∷ rest) =
    if not (continues b1) then invalid else ok (bit_or (bit_and b0 0x1f * 0x40) (bit_and b1 0x3f)) 2

unfoldable pub decode_three : ℕ → List ℕ → Utf8DecodeStatus
unfolding continues
decode_three b0 [] = incomplete
decode_three b0 (b1 ∷ []) = incomplete
decode_three b0 (b1 ∷ b2 ∷ rest) =
    if not (continues b1) || not (continues b2)
    then invalid
    else if (b0 == 0xe0 && ltb b1 0xa0) || (b0 == 0xed && leb 0xa0 b1)
    then invalid
    else ok (bit_or (bit_or (bit_and b0 0x0f * 0x1000) (bit_and b1 0x3f * 0x40)) (bit_and b2 0x3f))
        3

unfoldable pub decode_four : ℕ → List ℕ → Utf8DecodeStatus
unfolding continues
decode_four b0 [] = incomplete
decode_four b0 (b1 ∷ []) = incomplete
decode_four b0 (b1 ∷ b2 ∷ []) = incomplete
decode_four b0 (b1 ∷ b2 ∷ b3 ∷ rest) =
    if not (continues b1) || not (continues b2) || not (continues b3)
    then invalid
    else if (b0 == 0xf0 && ltb b1 0x90) || (b0 == 0xf4 && leb 0x90 b1)
    then invalid
    else ok
        (bit_or
          (bit_or (bit_or (bit_and b0 0x07 * 0x40000) (bit_and b1 0x3f * 0x1000))
            (bit_and b2 0x3f * 0x40))
          (bit_and b3 0x3f))
        4

unfoldable pub decode_utf8 : List ℕ → Utf8DecodeStatus
unfolding between decode_two decode_three decode_four
decode_utf8 [] = incomplete
decode_utf8 (b0 ∷ rest) =
    if ltb b0 0x80
    then ok b0 1
    else if between 0xc2 0xdf b0
    then decode_two b0 rest
    else if between 0xe0 0xef b0
    then decode_three b0 rest
    else if between 0xf0 0xf4 b0
    then decode_four b0 rest
    else invalid
