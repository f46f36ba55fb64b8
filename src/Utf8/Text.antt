-- ===== src/Utf8/Text.antt =====
-- decode_utf8_string of src/hle/hle_wchar.cpp: a whole text.
use cross_shim.Base.{
  ℕ, zero, suc, ◌≤◌, ◌<◌, ◌≡◌, refl, ap, sym, subst, ◌∙◌, ◌⊎◌, inl, inr, true, false, some, List,
  [], ◌∷◌, ◌++◌, length, drop, drop-length, length-append, ◌==◌, if◌then◌else◌, arith,
}
use mathlib.Core.List.{append_assoc, append-nil}
use cross_shim.Utf8.{
  Utf8DecodeStatus, ok, incomplete, invalid, is_valid_unicode_scalar, encode_utf8, decode_utf8,
}
use cross_shim.Utf8.Roundtrip.{decode_prefix}
use cross_shim.Utf8.Shortest.{Bytes, encode-decode}

-- `true` with the code points, `false` with those before the fault, or no fuel.
pub data TextResult : Type 0 where
  done : List ℕ → TextResult
  refused : List ℕ → TextResult
  stuck : TextResult

unfoldable pub decode_loop : ℕ → List ℕ → List ℕ → TextResult
decode_loop fuel [] output = done output
decode_loop zero (b ∷ input) output = stuck
decode_loop (suc fuel) (b ∷ input) output = elim (decode_utf8 (b ∷ input)) [
  | ok wc consumed ↦
      let rest = decode_loop fuel (drop consumed (b ∷ input)) (output ++ (wc ∷ [])) in
      if consumed == 0 then refused output else rest
  | incomplete ↦ refused output
  | invalid ↦ refused output
]

unfoldable pub decode_utf8_string : List ℕ → TextResult
unfolding decode_loop
decode_utf8_string input = decode_loop (length input) input []

-- Text in UTF-8: the encodings of Unicode scalars, one after another.
abbrev pub Encodes : List ℕ → List ℕ → Type 0
Encodes [] input = input ≡ []
Encodes (wc ∷ wcs) input =
    (bs : List ℕ) × (rest : List ℕ) × (input ≡ bs ++ rest)
    × (is_valid_unicode_scalar wc ≡ true)
    × (encode_utf8 wc ≡ some bs)
    × Encodes wcs rest

-- What a run that is not out of fuel says of the input that was left.
abbrev Ends : List ℕ → List ℕ → TextResult → Type 0
Ends input output r =
    ((wcs : List ℕ) × (r ≡ done (output ++ wcs)) × Encodes wcs input)
    ⊎ ((wcs : List ℕ) × (r ≡ refused wcs))

Bytes-drop : (bs rest : List ℕ) → Bytes (bs ++ rest) → Bytes rest
Bytes-drop [] rest h = h
Bytes-drop (b ∷ bs) rest h = Bytes-drop bs rest h.1

positive_length : (wc : ℕ) (bs : List ℕ) → encode_utf8 wc ≡ some bs → 0 < length bs
unfolding encode_utf8
positive_length wc [] e = ground arith
positive_length wc (b ∷ bs) e = omega arith

-- One round that decodes a code point goes on behind its encoding.
decode_round :
    (fuel wc n : ℕ) (b : ℕ) (input output bs rest : List ℕ)
    → decode_utf8 (b ∷ input) ≡ ok wc n
    → b ∷ input ≡ bs ++ rest
    → length bs ≡ n
    → 0 < length bs
    → decode_loop (suc fuel) (b ∷ input) output ≡ decode_loop fuel rest (output ++ (wc ∷ []))
unfolding decode_loop
decode_round fuel wc n b input output bs rest e same l some_bytes =
    let left : drop n (b ∷ input) ≡ rest =
      ap (λ i. drop i (b ∷ input)) (sym l) ∙ ap (drop (length bs)) same ∙ drop-length bs rest in
    let goes_on : (n == 0) ≡ false = ground arith in
    rw (decode_loop, e, goes_on) (ap (λ xs. decode_loop fuel xs (output ++ (wc ∷ []))) left)

prepend :
    (wc : ℕ) (bs rest input output : List ℕ) (r : TextResult)
    → input ≡ bs ++ rest
    → is_valid_unicode_scalar wc ≡ true
    → encode_utf8 wc ≡ some bs
    → Ends rest (output ++ (wc ∷ [])) r
    → Ends input output r
prepend wc bs rest input output r same valid e (inl (wcs, is, tail)) =
    inl
      (wc ∷ wcs, is ∙ ap done (append_assoc output (wc ∷ []) wcs), (bs, rest, same, valid, e, tail))
prepend wc bs rest input output r same valid e (inr (wcs, is)) = inr (wcs, is)

rest_shorter :
    (bs rest input : List ℕ) → input ≡ bs ++ rest → 0 < length bs → length rest < length input
rest_shorter bs rest input same some_bytes = omega (arith, ap length same, length-append bs rest)

decode_loop-Ends :
    (fuel : ℕ) (input output : List ℕ)
    → Bytes input
    → length input ≤ fuel
    → Ends input output (decode_loop fuel input output)
unfolding decode_loop
decode_loop-Ends fuel [] output bytes enough = inl ([], ap done (sym (append-nil output)), refl)
decode_loop-Ends zero (b ∷ input) output bytes enough = absurd (omega arith)
decode_loop-Ends (suc fuel) (b ∷ input) output bytes enough =
    go (decode_loop-Ends fuel) (decode_utf8 (b ∷ input)) refl
  where
    go :
        ((rest out : List ℕ)
          → Bytes rest
          → length rest ≤ fuel
          → Ends rest out (decode_loop fuel rest out))
        → (s : Utf8DecodeStatus) → decode_utf8 (b ∷ input) ≡ s
        → Ends (b ∷ input) output (decode_loop (suc fuel) (b ∷ input) output)
    go ih incomplete e = inr (output, rw (e, decode_loop) refl)
    go ih invalid e = inr (output, rw (e, decode_loop) refl)
    go ih (ok wc n) e =
        let (bs, rest, same, l, valid, encodes) = encode-decode wc n (b ∷ input) bytes e in
        let positive = positive_length wc bs encodes in
        let shorter = rest_shorter bs rest (b ∷ input) same positive in
        let bytes' : Bytes rest = Bytes-drop bs rest (subst Bytes same bytes) in
        rw (decode_round fuel wc n b input output bs rest e same l positive) (
          prepend wc bs rest (b ∷ input) output _ same valid encodes
            (ih rest (output ++ (wc ∷ [])) bytes' (omega arith)))

-- `decode_utf8_string` ends, with a round for each byte at most: it returns code points whose
-- encodings, one after another, are the input, each a Unicode scalar, or it refuses the input.
pub decode_utf8_string-Encodes :
    (input : List ℕ)
    → Bytes input
    → ((wcs : List ℕ) × (decode_utf8_string input ≡ done wcs) × Encodes wcs input)
      ⊎ ((wcs : List ℕ) × (decode_utf8_string input ≡ refused wcs))
unfolding decode_utf8_string
decode_utf8_string-Encodes input bytes =
    decode_loop-Ends (length input) input [] bytes (omega arith)

decode_loop-Encodes :
    (fuel : ℕ) (wcs input output : List ℕ)
    → length input ≤ fuel
    → Encodes wcs input
    → decode_loop fuel input output ≡ done (output ++ wcs)
unfolding decode_loop
decode_loop-Encodes fuel [] input output enough e =
    ap (λ xs. decode_loop fuel xs output) e ∙ ap done (sym (append-nil output))
decode_loop-Encodes fuel (wc ∷ wcs) [] output enough (bs, rest, same, valid, encodes, tail) =
    absurd (omega (arith, ap length same, length-append bs rest, positive_length wc bs encodes))
decode_loop-Encodes zero (wc ∷ wcs) (b ∷ input) output enough e = absurd (omega arith)
decode_loop-Encodes (suc fuel) (wc ∷ wcs) (b ∷ input) output enough
      (bs, rest, same, valid, encodes, tail) =
    let positive = positive_length wc bs encodes in
    let shorter = rest_shorter bs rest (b ∷ input) same positive in
    let decodes = ap decode_utf8 same ∙ decode_prefix wc bs rest valid encodes in
    decode_round fuel wc (length bs) b input output bs rest decodes same refl positive
    ∙ decode_loop-Encodes fuel wcs rest (output ++ (wc ∷ [])) (omega arith) tail
    ∙ ap done (append_assoc output (wc ∷ []) wcs)

-- It accepts every text in UTF-8: of the encodings of Unicode scalars, one after another, it
-- returns the scalars.
pub decode_utf8_string-accepts :
    (wcs input : List ℕ) → Encodes wcs input → decode_utf8_string input ≡ done wcs
unfolding decode_utf8_string
decode_utf8_string-accepts wcs input e =
    decode_loop-Encodes (length input) wcs input [] (omega arith) e
