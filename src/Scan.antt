-- ===== src/Scan.antt =====
-- The reading of integers of scanf, src/hle/hle_scan.cpp. A character is its code, a byte or a wide
-- character.
pub mod Integer
pub mod Number
pub mod Limits
pub mod Format
pub mod Suffix
pub mod Lossless
pub mod Literal
mod Tests
use cross_shim.Base.{
  ℕ, zero, suc, ◌+◌, ◌-◌, ◌*◌, ◌%◌, ◌^◌, min, Bool, true, false, ◌&&◌, ◌||◌, not, Option, none,
  some, List, [], ◌∷◌, length, drop, take, ltb, leb, ◌==◌, if◌then◌else◌,
}

unfoldable pub is_sign : ℕ → Bool
is_sign ch = ch == b'+' || ch == b'-'

-- `none` for -1.
unfoldable pub digit_value : ℕ → Option ℕ
digit_value code =
    if leb b'0' code && leb code b'9'
    then some (code - b'0')
    else if leb b'a' code && leb code b'z'
    then some (code - b'a' + 10)
    else if leb b'A' code && leb code b'Z'
    then some (code - b'A' + 10)
    else none

-- A digit of this base.
unfoldable pub digit_in : ℕ → ℕ → Option ℕ
unfolding digit_value
digit_in base code = elim (digit_value code) [
  | none ↦ none
  | some digit ↦ if ltb digit base then some digit else none
]

unfoldable pub is_digit_in : ℕ → ℕ → Bool
unfolding digit_in
is_digit_in base code = elim (digit_in base code) [ none ↦ false | some digit ↦ true ]

-- The base of a conversion and whether a prefix is allowed; the base of `i` is 0.
unfoldable pub conv_base : ℕ → Option (ℕ × Bool)
conv_base conv =
    if conv == b'd' || conv == b'u'
    then some (10, false)
    else if conv == b'o'
    then some (8, false)
    else if conv == b'x' || conv == b'X' || conv == b'p'
    then some (16, true)
    else if conv == b'b'
    then some (2, true)
    else if conv == b'i'
    then some (0, false)
    else none

-- `0x` or `0b` with a digit behind it, where `mark` is the letter.
unfoldable pub has_prefix : ℕ → ℕ → List ℕ → Bool
has_prefix mark base [] = false
has_prefix mark base (c0 ∷ []) = false
has_prefix mark base (c0 ∷ c1 ∷ []) = false
has_prefix mark base (c0 ∷ c1 ∷ c2 ∷ rest) =
    c0 == b'0' && (c1 == mark || c1 == mark - 32) && is_digit_in base c2

unfoldable pub starts_with_zero : List ℕ → Bool
starts_with_zero [] = false
starts_with_zero (c ∷ rest) = c == b'0'

-- The base and the length of the prefix.
unfoldable pub choose_base : ℕ × Bool → List ℕ → ℕ × ℕ
unfolding has_prefix starts_with_zero
choose_base (base, allow_prefix) rest =
    if base == 0
    then (if starts_with_zero rest
        then (if has_prefix b'x' 16 rest
            then (16, 2)
            else if has_prefix b'b' 2 rest
            then (2, 2)
            else (8, 0))
        else (10, 0))
    else if allow_prefix
    then (base, (if has_prefix (if base == 16 then b'x' else b'b') base rest then 2 else 0))
    else (base, 0)

-- The loop over the digits: the value as an unsigned __int128 and the cursor.
unfoldable pub read_digits : ℕ → List ℕ → ℕ → ℕ → ℕ × ℕ
read_digits base [] value cursor = (value, cursor)
read_digits base (c ∷ rest) value cursor = elim (digit_in base c) [
  | none ↦ (value, cursor)
  | some digit ↦ read_digits base rest ((value * base + digit) % 2 ^ 128) (suc cursor)
]

unfoldable pub conclude : Bool → ℕ → ℕ × ℕ → Option (ℕ × ℕ)
conclude negative digits_start (value, cursor) =
    let magnitude = value % 2 ^ 64 in
    if cursor == digits_start
    then none
    else some (cursor, (if negative then (2 ^ 64 - magnitude) % 2 ^ 64 else magnitude))

-- With the base and the length of the prefix known.
unfoldable pub parse_base : Bool → List ℕ → ℕ → ℕ × ℕ → Option (ℕ × ℕ)
unfolding conclude
parse_base negative text cursor (base, prefix) =
    conclude negative (cursor + prefix) (read_digits base (drop prefix text) 0 (cursor + prefix))

-- Behind the sign, at `cursor`: what was consumed and the bits.
unfoldable pub parse_magnitude : ℕ → Bool → List ℕ → ℕ → Option (ℕ × ℕ)
unfolding parse_base
parse_magnitude conv negative [] cursor = none
parse_magnitude conv negative (c ∷ rest) cursor = elim (conv_base conv) [
  | none ↦ none
  | some allowed ↦ parse_base negative (c ∷ rest) cursor (choose_base allowed (c ∷ rest))
]

-- On the characters up to the limit.
unfoldable pub parse_signed : ℕ → List ℕ → Option (ℕ × ℕ)
unfolding is_sign parse_magnitude
parse_signed conv [] = none
parse_signed conv (c ∷ rest) =
    if is_sign c && not (conv == b'p')
    then parse_magnitude conv (c == b'-') rest 1
    else parse_magnitude conv false (c ∷ rest) 0

-- `none` for a width is has_width = false.
unfoldable pub parse_integer_value : List ℕ → ℕ → ℕ → Option ℕ → Option (ℕ × ℕ)
unfolding parse_signed
parse_integer_value input pos conv width =
    let left = drop pos input in
    let limit : ℕ = elim width [ none ↦ length left | some w ↦ min (length left) w ] in
    parse_signed conv (take limit left)
