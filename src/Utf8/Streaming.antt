-- ===== src/Utf8/Streaming.antt =====
-- Wide characters come back from a stream.
use cross_shim.Base.{
  ℕ, suc, ◌-◌, ◌%◌, ◌^◌, ◌≡◌, refl, ap, sym, ◌∙◌, subst, inl, inr, true, none, some, List, [], ◌∷◌,
  ◌++◌, length, ltb, arith, Bool-cases, Option-cases,
}
use mathlib.Core.List.{reverse, append_assoc, append-nil, reverse-cons, reverse-reverse}
use cross_shim.Utf8.{
  ok, is_valid_unicode_scalar, utf8_expected_length_from_lead, encode_utf8, decode_utf8, between,
  takes_three, is_surrogate,
}
use cross_shim.Utf8.Coding.{encode_one, encode_two, encode_three, encode_four}
use cross_shim.Utf8.Roundtrip.{decode-encode, decode_prefix}
use cross_shim.Utf8.Stream.{
  HostFile, WideResult, read_more, read_rest, decode_read, read_utf8_wchar, decoded, wide, weof,
  unread_bytes, unread_utf8_wchar, getwc, ungetwc, reported, reported_some, x0_of,
}

-- The first byte of an encoding tells its length.
abbrev Leads : List ℕ → Type 0
Leads bs =
    (b : ℕ) × (more : List ℕ) × (bs ≡ b ∷ more)
    × (utf8_expected_length_from_lead b ≡ some (suc (length more)))

same_bytes : (bs cs : List ℕ) → some bs ≡ some cs → Leads cs → Leads bs
same_bytes bs cs e (b, more, same, l) = (b, more, cc, l)

encode-Leads :
    (wc : ℕ) (bs : List ℕ) → is_valid_unicode_scalar wc ≡ true → encode_utf8 wc ≡ some bs → Leads bs
unfolding utf8_expected_length_from_lead between takes_three is_valid_unicode_scalar is_surrogate
encode-Leads wc bs valid e = elim (Bool-cases (ltb wc 128)) [
  | inl small ↦ same_bytes bs _ (sym e ∙ encode_one wc (ground arith)) (_, _, refl, ground arith)
  | inr more ↦ elim (Bool-cases (ltb wc 2048)) [
    | inl small ↦
        same_bytes bs _ (sym e ∙ encode_two wc (ground arith) (ground arith))
          (_, _, refl, ground arith)
    | inr more ↦ elim (Bool-cases (takes_three wc)) [
      | inl three ↦
          same_bytes bs _ (sym e ∙ encode_three wc (ground arith) three) (_, _, refl, ground arith)
      | inr four ↦
          same_bytes bs _ (sym e ∙ encode_four wc (ground arith) (ground arith) four)
            (_, _, refl, ground arith)
    ]
  ]
]

module _ {F : Type 0} (h : HostFile F) where
  -- The next bytes of the stream, and the stream behind them.
  abbrev pub Yields : F → List ℕ → F → Type 0
  Yields f [] f' = f ≡ f'
  Yields f (b ∷ bs) f' = (g : F) × (h.fgetc f ≡ (some b, g)) × Yields g bs f'

  read_more-Yields :
      (f f' : F) (bs read : List ℕ)
      → Yields f bs f'
      → read_more h (length bs) f read ≡ (f', inr (read ++ bs))
  unfolding read_more
  read_more-Yields f f' [] read y =
      ap (λ (g : F). (g, inr read)) y ∙ ap (λ bytes. (f', inr bytes)) (sym (append-nil read))
  read_more-Yields f f' (b ∷ bs) read (g, e, y) =
      rw (read_more, ap (λ p. p.0) e, ap (λ p. p.1) e)
        (read_more-Yields g f' bs (read ++ (b ∷ [])) y
          ∙ ap (λ bytes. (f', inr bytes)) (append_assoc read (b ∷ []) bs))

  decode-bytes :
      (wc : ℕ) (bs : List ℕ)
      → is_valid_unicode_scalar wc ≡ true
      → encode_utf8 wc ≡ some bs
      → decode_utf8 bs ≡ ok wc (length bs)
  decode-bytes wc bs valid e = ap decode_utf8 (sym (append-nil bs)) ∙ decode_prefix wc bs [] valid e

  -- A stream that gives the bytes of a Unicode scalar gives the scalar to `read_utf8_wchar`.
  read-Yields :
      (wc : ℕ) (bs : List ℕ) (f f' : F)
      → is_valid_unicode_scalar wc ≡ true
      → encode_utf8 wc ≡ some bs
      → Yields f bs f'
      → read_utf8_wchar h f ≡ wide f' wc
  unfolding read_utf8_wchar read_rest decode_read decoded
  read-Yields wc bs f f' valid e y =
      let (b, more, same, leads) = encode-Leads wc bs valid e in
      let (g, first, y') = subst (λ xs. Yields f xs f') same y in
      let rest : read_more h (length more) g (b ∷ []) ≡ (f', inr (b ∷ more)) =
        read_more-Yields g f' more (b ∷ []) y' in
      let decodes : decode_utf8 (b ∷ more) ≡ ok wc (suc (length more)) =
        subst (λ xs. decode_utf8 xs ≡ ok wc (length xs)) same (decode-bytes wc bs valid e) in
      let count : suc (length more) - 1 ≡ length more = omega arith in
      let all : read_rest h g b (suc (length more))
          ≡ decode_read (suc (length more)) (f', inr (b ∷ more)) =
        ap (λ n. decode_read (suc (length more)) (read_more h n g (b ∷ []))) count
        ∙ ap (decode_read (suc (length more))) rest in
      rw (read_utf8_wchar, ap (λ p. p.0) first, leads, ap (λ p. p.1) first)
        (all ∙ rw decodes (ground arith))

  -- Pushing bytes back from the last one on puts them before what the stream gives next.
  module _
      (pushes : (f : F) (b : ℕ)
        → (h.ungetc f b).1 ≡ none
        → h.fgetc (h.ungetc f b).0 ≡ (some b, f)) where
    unread_bytes-Yields :
        (wc x : ℕ) (f f' : F) (bs back : List ℕ)
        → (unread_bytes h f wc bs).result ≡ some x
        → Yields f back f'
        → Yields (unread_bytes h f wc bs).file (reverse bs ++ back) f'
    unfolding unread_bytes weof wide
    unread_bytes-Yields wc x f f' [] back done y = y
    unread_bytes-Yields wc x f f' (b ∷ bs) back done y = elim (Option-cases (h.ungetc f b).1) [
      | inl none_failed ↦
          let ih =
            unread_bytes-Yields wc x (h.ungetc f b).0 f' bs (b ∷ back)
              (rw (unread_bytes, none_failed) at done) (f, pushes f b none_failed, y) in
          rw (unread_bytes, none_failed, reverse-cons b bs, append_assoc (reverse bs) (b ∷ []) back)
            ih
      | inr (e, failed) ↦ ground (arith, rw (unread_bytes, failed, weof) at done)
    ]

  -- What getwc gets of a stream that gives the bytes of a Unicode scalar is the scalar; the stream is
  -- left behind these bytes, and errno as it was.
  pub getwc-encode :
      (wc : ℕ) (bs : List ℕ) (f f' : F) (errno : ℕ)
      → is_valid_unicode_scalar wc ≡ true
      → encode_utf8 wc ≡ some bs
      → Yields f bs f'
      → getwc h (some f) errno ≡ (some f', wc, errno)
  unfolding getwc reported_some wide x0_of
  getwc-encode wc bs f f' errno valid e y =
      ap (reported_some errno) (read-Yields wc bs f f' valid e y)

  -- The same in a stream that bytes of a scalar were pushed back to.
  unread_then :
      ((f : F) (b : ℕ) → (h.ungetc f b).1 ≡ none → h.fgetc (h.ungetc f b).0 ≡ (some b, f))
      → (wc x : ℕ) (f : F) (errno : ℕ) → is_valid_unicode_scalar wc ≡ true
      → (unread_utf8_wchar h f wc).result ≡ some x
      → getwc h (some (unread_utf8_wchar h f wc).file) errno ≡ (some f, wc, errno)
  unfolding unread_utf8_wchar
  unread_then pushes wc x f errno valid done =
      let (bs, e, l, decodes) = decode-encode wc valid in
      let pushed : unread_utf8_wchar h f wc ≡ unread_bytes h f wc (reverse bs) =
        rw (unread_utf8_wchar, e) refl in
      let y =
        unread_bytes-Yields pushes wc x f f (reverse bs) [] (ap (λ r. r.result) (sym pushed) ∙ done)
          refl in
      let order : reverse (reverse bs) ++ [] ≡ bs =
        append-nil (reverse (reverse bs)) ∙ reverse-reverse bs in
      rw pushed (
        getwc-encode wc bs (unread_bytes h f wc (reverse bs)).file f errno valid e
          (subst (λ xs. Yields (unread_bytes h f wc (reverse bs)).file xs f) order y))

  -- On a stream where a byte that ungetc took is the next that fgetc gives, with the rest behind it:
  -- when ungetwc of a Unicode scalar did not return WEOF, getwc gets the scalar back, sets no errno,
  -- and the stream is as it was before both.
  pub getwc-ungetwc :
      ((f : F) (b : ℕ) → (h.ungetc f b).1 ≡ none → h.fgetc (h.ungetc f b).0 ≡ (some b, f))
      → (wc : ℕ) (f f' : F) (errno errno' : ℕ) → is_valid_unicode_scalar wc ≡ true
      → ungetwc h (some f) wc errno ≡ (some f', wc, errno)
      → getwc h (some f') errno' ≡ (some f, wc, errno')
  unfolding ungetwc reported x0_of is_valid_unicode_scalar is_surrogate
  getwc-ungetwc pushes wc f f' errno errno' valid e =
      let small : wc % 2 ^ 32 ≡ wc = ground arith in
      let r : WideResult F = unread_utf8_wchar h f wc in
      let e' : reported errno r ≡ (some f', wc, errno) =
        ap (λ n. reported errno (unread_utf8_wchar h f n)) (sym small) ∙ e in
      let same : r.file ≡ f' = cc (ap (λ p. p.0) e') in
      elim (Option-cases r.result) [
        | inl failed ↦ absurd (ground (arith, ap (λ p. p.1) e', ap x0_of failed))
        | inr (x, done) ↦ rw (← same) (unread_then pushes wc x f errno' valid done)
      ]
