-- ===== src/Scan/Format.antt =====
-- parse_scan_format of src/hle/hle_scan.cpp: the tokens of a format. What is left of the format
-- stands for the index into it.
use cross_shim.Base.{
  ℕ, zero, suc, ◌+◌, ◌-◌, ◌*◌, ◌^◌, Bool, true, false, ◌&&◌, not, Option, none, some, List, [], ◌∷◌,
  ◌++◌, ◌⊎◌, inl, inr, length, take, ltb, leb, ◌==◌, if◌then◌else◌,
}

abbrev pub einval : ℕ
einval = 22

abbrev pub enomem : ℕ
enomem = 12

pub data ScanLengthMod : Type 0 where
  no_mod hh h l ll big_l j z t exact_w fast_w : ScanLengthMod

pub record ScanDirective : Type 0 where
  pub original : List ℕ
  pub suppress : Bool
  pub assign_alloc : Bool
  -- `none` if has_width is false
  pub width : Option ℕ
  pub length_mod : ScanLengthMod
  pub w_bits : ℕ
  pub conv : ℕ

pub data ScanToken : Type 0 where
  literal : List ℕ → ScanToken
  directive : ScanDirective → ScanToken

-- The tokens, or the error with the fatal message; the parser's loop on fuel can be out of it.
pub data ScanParseResult : Type 0 where
  parsed : List ScanToken → ScanParseResult
  failed : ℕ → List ℕ → ScanParseResult
  no_fuel : ScanParseResult

unfoldable pub is_digit : ℕ → Bool
is_digit c = leb b'0' c && leb c b'9'

-- `*` and `m`.
unfoldable pub read_flag : ℕ → List ℕ → Bool × List ℕ
read_flag flag [] = (false, [])
read_flag flag (c ∷ rest) = if c == flag then (true, rest) else (false, c ∷ rest)

-- The loop over the digits of the width; `none` if it passes INT_MAX.
unfoldable pub read_width : ℕ → List ℕ → Option (ℕ × List ℕ)
read_width width [] = some (width, [])
read_width width (c ∷ rest) =
    let next = read_width (width * 10 + (c - b'0')) rest in
    if is_digit c
    then (if ltb (2 ^ 31 - 1) (width * 10 + (c - b'0')) then none else next)
    else some (width, c ∷ rest)

unfoldable pub maybe_width : List ℕ → Option (Option ℕ × List ℕ)
maybe_width [] = some (none, [])
maybe_width (c ∷ rest) =
    if is_digit c
    then elim (read_width 0 (c ∷ rest)) [ none ↦ none | some read ↦ some (some read.0, read.1) ]
    else some (none, c ∷ rest)

unfoldable pub read_bits : List ℕ → List ℕ × List ℕ
read_bits [] = ([], [])
read_bits (c ∷ rest) =
    let (digits, left) = read_bits rest in if is_digit c then (c ∷ digits, left) else ([], c ∷ rest)

-- 8, 16, 32 or 64.
unfoldable pub bits_of : List ℕ → Option ℕ
bits_of [] = none
bits_of (a ∷ []) = if a == b'8' then some 8 else none
bits_of (a ∷ b ∷ []) =
    if a == b'1' && b == b'6'
    then some 16
    else if a == b'3' && b == b'2'
    then some 32
    else if a == b'6' && b == b'4'
    then some 64
    else none
bits_of (a ∷ b ∷ c ∷ rest) = none

-- The characters from one place of the format to a later one.
unfoldable pub between_places : List ℕ → List ℕ → List ℕ
between_places from to = take (length from - length to) from

-- Behind `w`: the modifier and its bits, or the fatal message.
unfoldable pub read_w : List ℕ → List ℕ ⊎ (ScanLengthMod × ℕ × List ℕ)
read_w rest =
    let (fast, rest') = read_flag b'f' rest in
    let (digits, left) = read_bits rest' in
    elim (bits_of digits) [
      | none ↦ inl (b'%' ∷ b'w' ∷ between_places rest left)
      | some bits ↦ inr ((if fast then fast_w else exact_w), bits, left)
    ]

-- A letter that may be doubled.
unfoldable pub read_twice :
    ℕ → ScanLengthMod → ScanLengthMod → List ℕ → List ℕ ⊎ (ScanLengthMod × ℕ × List ℕ)
read_twice c single double rest =
    let (twice, rest') = read_flag c rest in inr ((if twice then double else single), 0, rest')

unfoldable pub read_length : List ℕ → List ℕ ⊎ (ScanLengthMod × ℕ × List ℕ)
read_length [] = inr (no_mod, 0, [])
read_length (c ∷ rest) =
    if c == b'w'
    then read_w rest
    else if c == b'h'
    then read_twice b'h' h hh rest
    else if c == b'l'
    then read_twice b'l' l ll rest
    else if c == b'L'
    then inr (big_l, 0, rest)
    else if c == b'j'
    then inr (j, 0, rest)
    else if c == b'z'
    then inr (z, 0, rest)
    else if c == b't'
    then inr (t, 0, rest)
    else inr (no_mod, 0, c ∷ rest)

-- Behind the `]` that ends a set; `none` if there is none.
unfoldable pub read_to_bracket : List ℕ → Option (List ℕ)
read_to_bracket [] = none
read_to_bracket (c ∷ rest) = if c == b']' then some rest else read_to_bracket rest

-- Behind `[`: a `]` that comes first, or behind `^`, belongs to the set.
unfoldable pub read_set : List ℕ → Option (List ℕ)
read_set rest =
    let (bracket, rest') = read_flag b']' rest in
    let (caret, rest'') = read_flag b'^' rest in
    let (first, past_both) = read_flag b']' rest'' in
    if bracket
    then read_to_bracket rest'
    else if caret
    then read_to_bracket past_both
    else read_to_bracket rest

-- Behind the conversion.
unfoldable pub read_conv : ℕ → List ℕ → Option (List ℕ)
read_conv conv rest = if conv == b'[' then read_set rest else some rest

-- The end of a directive: its text, where the conversion and a set are read.
unfoldable pub directive_end :
    List ℕ → ScanDirective → Option (List ℕ) → (ℕ × List ℕ) ⊎ (ScanDirective × List ℕ)
unfolding between_places
directive_end text spec none = inl (einval, [])
directive_end text spec (some left) =
    inr (record spec { original = between_places text left }, left)

-- From the length modifier on.
unfoldable pub directive_conv :
    List ℕ
    → Bool
    → Option ℕ
    → Bool
    → List ℕ ⊎ (ScanLengthMod × ℕ × List ℕ)
    → (ℕ × List ℕ) ⊎ (ScanDirective × List ℕ)
unfolding directive_end
directive_conv text suppress width assign_alloc (inl message) = inl (einval, message)
directive_conv text suppress width assign_alloc (inr (length_mod, w_bits, [])) = inl (einval, [])
directive_conv text suppress width assign_alloc (inr (length_mod, w_bits, conv ∷ rest)) =
    let spec : ScanDirective = record {
      original = [];
      suppress = suppress;
      assign_alloc = assign_alloc;
      width = width;
      length_mod = length_mod;
      w_bits = w_bits;
      conv = conv;
    } in
    directive_end text spec (read_conv conv rest)

-- The directive behind a `%`, and what is left; or the error and the fatal message.
unfoldable pub read_directive : List ℕ → (ℕ × List ℕ) ⊎ (ScanDirective × List ℕ)
unfolding directive_conv
read_directive rest =
    let (suppress, r1) = read_flag b'*' rest in
    elim (maybe_width r1) [
      | none ↦ inl (enomem, [])
      | some (width, r2) ↦
          let (assign_alloc, r3) = read_flag b'm' r2 in
          directive_conv (b'%' ∷ rest) suppress width assign_alloc (read_length r3)
    ]

unfoldable pub flush_literal : List ℕ → List ScanToken → List ScanToken
flush_literal [] tokens = tokens
flush_literal (c ∷ pending) tokens = tokens ++ (literal (c ∷ pending) ∷ [])

-- The loop over the format, with the pending literal and the tokens so far.
unfoldable pub parse_loop : ℕ → List ℕ → List ℕ → List ScanToken → ScanParseResult
parse_loop fuel [] pending tokens = parsed (flush_literal pending tokens)
parse_loop zero (c ∷ rest) pending tokens = no_fuel
parse_loop (suc fuel) (c ∷ rest) pending tokens =
    let plain = parse_loop fuel rest (pending ++ (c ∷ [])) tokens in
    let (escaped, rest') = read_flag b'%' rest in
    let percent = parse_loop fuel rest' (pending ++ (b'%' ∷ [])) tokens in
    let flushed = flush_literal pending tokens in
    let directed : ScanParseResult = elim (read_directive rest) [
      | inl (error, message) ↦ failed error message
      | inr (spec, left) ↦ parse_loop fuel left [] (flushed ++ (directive spec ∷ []))
    ] in
    if not (c == b'%') then plain else if escaped then percent else directed

unfoldable pub parse_scan_format : List ℕ → ScanParseResult
unfolding parse_loop
parse_scan_format fmt = parse_loop (length fmt) fmt [] []
