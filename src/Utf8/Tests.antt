-- ===== src/Utf8/Tests.antt =====
-- The theorems of UTF-8 at concrete texts, and the encoder on one code point of each length.
use cross_shim.Base.{
  ℕ, ◌≡◌, refl, ◌⊎◌, true, Option, none, some, List, [], ◌∷◌, ◌++◌, length, arith,
}
use cross_shim.Utf8.{
  ok, invalid, is_surrogate, is_valid_unicode_scalar, utf8_length, encode_utf8, decode_utf8,
}
use cross_shim.Utf8.Roundtrip.{decode-encode}
use cross_shim.Utf8.Shortest.{encode-decode}
use cross_shim.Utf8.Surrogates.{surrogate-refused}
use cross_shim.Utf8.Stream.{HostFile, getwc, ungetwc}
use cross_shim.Utf8.Streaming.{getwc-ungetwc}
use cross_shim.Utf8.Text.{
  Encodes, done, refused, decode_utf8_string, decode_utf8_string-Encodes,
  decode_utf8_string-accepts,
}

-- U+20AC, the euro sign.
abbrev euro : ℕ
euro = 0x20ac

abbrev euro_bytes : List ℕ
euro_bytes = 0xe2 ∷ 0x82 ∷ 0xac ∷ []

one_to_four : encode_utf8 0x24 ≡ some (0x24 ∷ [])
unfolding encode_utf8
one_to_four = refl

two_bytes : encode_utf8 0xa2 ≡ some (0xc2 ∷ 0xa2 ∷ [])
unfolding encode_utf8
two_bytes = refl

euro_encoded : encode_utf8 euro ≡ some euro_bytes
unfolding encode_utf8
euro_encoded = refl

four_bytes : encode_utf8 0x10348 ≡ some (0xf0 ∷ 0x90 ∷ 0x8d ∷ 0x88 ∷ [])
unfolding encode_utf8
four_bytes = refl

euro_valid : is_valid_unicode_scalar euro ≡ true
unfolding is_valid_unicode_scalar
euro_valid = refl

euro_decoded : decode_utf8 (0xe2 ∷ 0x82 ∷ 0xac ∷ 0x21 ∷ []) ≡ ok euro 3
unfolding decode_utf8
euro_decoded = refl

decode-encode_example :
    (bs : List ℕ) × (encode_utf8 euro ≡ some bs)
    × (utf8_length euro ≡ some (length bs))
    × ((rest : List ℕ) → decode_utf8 (bs ++ rest) ≡ ok euro (length bs))
decode-encode_example = decode-encode euro euro_valid

encode-decode_example :
    (bs : List ℕ) × (rest : List ℕ) × (0xe2 ∷ 0x82 ∷ 0xac ∷ 0x21 ∷ [] ≡ bs ++ rest)
    × (length bs ≡ 3)
    × (is_valid_unicode_scalar euro ≡ true)
    × (encode_utf8 euro ≡ some bs)
encode-decode_example =
    encode-decode euro 3 (0xe2 ∷ 0x82 ∷ 0xac ∷ 0x21 ∷ []) (omega arith) euro_decoded

surrogate : is_surrogate 0xd83d ≡ true
unfolding is_surrogate
surrogate = refl

surrogate-refused_example :
    (bs : List ℕ) × (encode_utf8 0xd83d ≡ some bs)
    × (length bs ≡ 4)
    × (utf8_length 0xd83d ≡ some 4)
    × ((rest : List ℕ) → decode_utf8 (bs ++ rest) ≡ invalid)
surrogate-refused_example = surrogate-refused 0xd83d surrogate

abbrev text : List ℕ
text = 0x24 ∷ 0xe2 ∷ 0x82 ∷ 0xac ∷ []

text-Encodes : Encodes (0x24 ∷ euro ∷ []) text
unfolding encode_utf8 is_valid_unicode_scalar
text-Encodes = (0x24 ∷ [], euro_bytes, refl, refl, refl, (euro_bytes, [], refl, refl, refl, refl))

decode_utf8_string-accepts_example : decode_utf8_string text ≡ done (0x24 ∷ euro ∷ [])
decode_utf8_string-accepts_example = decode_utf8_string-accepts (0x24 ∷ euro ∷ []) text text-Encodes

decode_utf8_string-Encodes_example :
    ((wcs : List ℕ) × (decode_utf8_string text ≡ done wcs) × Encodes wcs text)
    ⊎ ((wcs : List ℕ) × (decode_utf8_string text ≡ refused wcs))
decode_utf8_string-Encodes_example = decode_utf8_string-Encodes text (omega arith)

-- A stream in memory, with room to push back.
abbrev memory_getc : List ℕ → Option ℕ × List ℕ
memory_getc [] = (none, [])
memory_getc (b ∷ bs) = (some b, bs)

abbrev memory_file : HostFile (List ℕ)
memory_file = record {
  fgetc = memory_getc;
  ferror = λ f. none;
  fwrite = λ f bs. (f ++ bs, length bs, 0);
  ungetc = λ f b. (b ∷ f, none);
}

euro_pushed :
    ungetwc memory_file (some (0x21 ∷ [])) euro 7 ≡ (some (0xe2 ∷ 0x82 ∷ 0xac ∷ 0x21 ∷ []), euro, 7)
unfolding ungetwc encode_utf8
euro_pushed = refl

getwc-ungetwc_example :
    getwc memory_file (some (0xe2 ∷ 0x82 ∷ 0xac ∷ 0x21 ∷ [])) 0 ≡ (some (0x21 ∷ []), euro, 0)
getwc-ungetwc_example =
    getwc-ungetwc memory_file (λ f b e. refl) euro (0x21 ∷ []) (0xe2 ∷ 0x82 ∷ 0xac ∷ 0x21 ∷ []) 7 0
      euro_valid euro_pushed
