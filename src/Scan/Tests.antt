-- ===== src/Scan/Tests.antt =====
-- The theorems of scanf's integers at concrete inputs.
use cross_shim.Base.{
  ℕ, ◌-◌, ◌^◌, ◌≤◌, ◌<◌, ◌≡◌, refl, inl, inr, ◌⊎◌, true, false, none, some, List, [], ◌∷◌, length,
  drop, arith,
}
use cross_shim.Scan.{
  digit_in, is_digit_in, conv_base, has_prefix, choose_base, read_digits, parse_integer_value,
}
use cross_shim.Scan.Integer.{number}
use cross_shim.Scan.Number.{hexadecimal, minus, parse_integer_value-number}
use cross_shim.Scan.Format.{
  ScanToken, literal, directive, parsed, failed, hh, no_mod, parse_scan_format, parse_loop,
  read_flag, flush_literal, read_directive, maybe_width, read_width, is_digit, read_length,
  read_twice, directive_conv, directive_end, read_conv, read_set, read_to_bracket, between_places,
}
use cross_shim.Scan.Lossless.{escape, spelled, parse_scan_format-spelled}
use cross_shim.Scan.Literal.{parse_scan_format-escape}
use cross_shim.Scan.Limits.{parse_integer_value_limits}

-- " -0x1Fg"
abbrev line : List ℕ
line = b' ' ∷ b'-' ∷ b'0' ∷ b'x' ∷ b'1' ∷ b'F' ∷ b'g' ∷ []

parse_integer_value-number_example : parse_integer_value line 1 b'i' none ≡ some (5, 2 ^ 64 - 31)
unfolding number digit_in
parse_integer_value-number_example =
    parse_integer_value-number line 1 b'i' 16 b'1' minus (b'0' ∷ b'x' ∷ []) (b'F' ∷ [])
      (1 ∷ 15 ∷ []) (b'g' ∷ []) (hexadecimal (inr (inr (inr refl))) refl (inl refl))
      (inr (omega arith)) (refl, (refl, tt)) refl refl

cut : parse_integer_value line 1 b'i' (some 4) ≡ some (4, 2 ^ 64 - 1)
unfolding parse_integer_value read_digits digit_in conv_base choose_base has_prefix is_digit_in
cut = refl

parse_integer_value_limits_example :
    (0 < 4)
    × (4 ≤ length (drop 1 line))
    × ((w : ℕ) → some 4 ≡ some w → 4 ≤ w)
    × (2 ^ 64 - 1 < 2 ^ 64)
parse_integer_value_limits_example =
    parse_integer_value_limits line 1 b'i' 4 (2 ^ 64 - 1) (some 4) cut

-- "a%%=%*3hhd%[^]x]"
abbrev sample : List ℕ
sample =
    b'a' ∷ b'%' ∷ b'%' ∷ b'=' ∷ b'%' ∷ b'*' ∷ b'3' ∷ b'h' ∷ b'h' ∷ b'd' ∷ b'%' ∷ b'[' ∷ b'^' ∷ b']'
    ∷ b'x' ∷ b']' ∷ []

abbrev three_tokens : List ScanToken
three_tokens =
    literal (b'a' ∷ b'%' ∷ b'=' ∷ [])
    ∷ directive (record {
      original = b'%' ∷ b'*' ∷ b'3' ∷ b'h' ∷ b'h' ∷ b'd' ∷ [];
      suppress = true;
      assign_alloc = false;
      width = some 3;
      length_mod = hh;
      w_bits = 0;
      conv = b'd';
    })
    ∷ directive (record {
      original = b'%' ∷ b'[' ∷ b'^' ∷ b']' ∷ b'x' ∷ b']' ∷ [];
      suppress = false;
      assign_alloc = false;
      width = none;
      length_mod = no_mod;
      w_bits = 0;
      conv = b'[';
    })
    ∷ []

sample_parsed : parse_scan_format sample ≡ parsed three_tokens
unfolding parse_scan_format parse_loop read_flag flush_literal read_directive maybe_width read_width
    is_digit read_length read_twice directive_conv directive_end read_conv read_set read_to_bracket
    between_places
sample_parsed = refl

parse_scan_format-spelled_example :
    ((ts : List ScanToken) × (parse_scan_format sample ≡ parsed ts) × (spelled ts ≡ sample))
    ⊎ ((error : ℕ) × (message : List ℕ) × (parse_scan_format sample ≡ failed error message))
parse_scan_format-spelled_example = parse_scan_format-spelled sample

parse_scan_format-escape_example :
    parse_scan_format (escape (b'5' ∷ b'%' ∷ [])) ≡ parsed (literal (b'5' ∷ b'%' ∷ []) ∷ [])
unfolding flush_literal
parse_scan_format-escape_example = parse_scan_format-escape (b'5' ∷ b'%' ∷ [])
